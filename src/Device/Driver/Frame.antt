-- ===== src/Device/Driver/Frame.antt =====
-- Frame: a packet and its header on the way through a device.
use tunator.Prelude.{
  ℕ, ◌+◌, ◌-◌, ◌*◌, ◌/◌, ◌≤◌, ◌<◌, ◌≡◌, ◌↔◌, refl, ◌∙◌, List, [], ◌∷◌, ◌++◌, arith, pos, length,
  take, drop, min, get_or, Option, none, some, set, length-set, length-append, All, drop-append,
  take_all,
}
use tunator.Text.{Text}
use tunator.Device.Driver.{
  Tun, tun_header_linux, tun_header_apple, without_header, to_int, no_header, tun_write, tun_read,
  is_v4, is_v6,
}

-- What a write to a tun device does: the system takes a frame whole if it is not too long.
pub record TunWrites (tun : Tun) : Type 0 where
  -- the length of the longest frame that it takes, none if its interface is not up
  pub limit : tun.State → ℕ
  -- the frames that the system has taken, oldest first
  pub written : tun.State → List Text
  pub writev_all :
      (s : tun.State) (a b : Text)
      → length a + length b ≤ limit s
      → (t : tun.State) × (tun.writev s (a ∷ b ∷ []) ≡ (pos (length a + length b), t))
        × (written t ≡ written s ++ (a ++ b) ∷ [])

-- What a read of one does: the system hands out one frame of those that it routed to the device, cut
-- to the room given.
pub record TunReads (tun : Tun) : Type 0 where
  -- the frames that wait to be read, oldest first
  pub pending : tun.State → List Text
  pub readv_first :
      (s : tun.State) (f : Text) (fs : List Text) (n m : ℕ)
      → pending s ≡ f ∷ fs
      → n ≤ length f
      → (t : tun.State) × (tun.readv s (n ∷ m ∷ [])
          ≡ ((pos (n + min m (length f - n)), take n f ∷ take m (drop n f) ∷ []), t))
        × (pending t ≡ fs)

without_header_lem : (n : ℕ) → n < 2147483644 → without_header (pos (4 + n)) ≡ pos n
unfolding without_header to_int
without_header_lem n h = ground arith

length-set_two : (h : Text) (i j a b : ℕ) → length (set (set h i a) j b) ≡ length h
length-set_two h i j a b = length-set (set h i a) j b ∙ length-set h i a

pub length-tun_header_linux : (h bytes : Text) → length (tun_header_linux h bytes) ≡ length h
unfolding tun_header_linux is_v4 is_v6
length-tun_header_linux h bytes = ground (arith, length-set h 2 8, length-set_two h 2 3 134 221)

pub length-tun_header_apple : (h bytes : Text) → length (tun_header_apple h bytes) ≡ length h
unfolding tun_header_apple is_v4 is_v6
length-tun_header_apple h bytes = ground (arith, length-set h 3 2, length-set h 3 30)

-- The version of an IP packet.
abbrev pub version : Text → Option ℕ
version [] = none
version (b ∷ bs) = some (b / 16)

-- The protocol in a header on Linux, and the address family in one on macOS.
abbrev pub protocol : Text → ℕ
protocol h = get_or h 2 0 * 256 + get_or h 3 0

-- For a packet of bytes, the header on Linux names the protocol 0x0800 exactly for IP version 4 and
-- 0x86dd exactly for version 6, and the one on macOS the address family 2 exactly for version 4 and
-- 30 exactly for version 6.
pub header-version :
    (bytes : Text)
    → All (λ b. b < 256) bytes
    → ((protocol (tun_header_linux no_header bytes) ≡ 2048) ↔ (version bytes ≡ some 4))
      × ((protocol (tun_header_linux no_header bytes) ≡ 34525) ↔ (version bytes ≡ some 6))
      × ((protocol (tun_header_apple no_header bytes) ≡ 2) ↔ (version bytes ≡ some 4))
      × ((protocol (tun_header_apple no_header bytes) ≡ 30) ↔ (version bytes ≡ some 6))
unfolding tun_header_linux tun_header_apple is_v4 is_v6
header-version [] h = ground arith
header-version (b ∷ bs) h = ground arith

module _ (tun : Tun) (writes : TunWrites tun) (reads : TunReads tun)
    (tun_header : Text → Text → Text) where
  -- A packet shorter than 2 ^ 31 - 4 bytes, to which the system's header adds none and that is within
  -- what the device takes, goes to the system as one frame, the header and the packet, and the write
  -- returns the packet's length; and where that packet behind four bytes of whatever header is the next
  -- frame that waits, a read with room for it returns its length, stores just the packet, and leaves
  -- the frames behind it.
  pub tun_write-tun_read :
      ((h bytes : Text) → length (tun_header h bytes) ≡ length h)
      → (s u : tun.State) (h bytes : Text) (fs : List Text) (room : ℕ)
      → 4 + length bytes ≤ writes.limit s
      → length bytes < 2147483644
      → length bytes ≤ room
      → length h ≡ 4
      → reads.pending u ≡ (h ++ bytes) ∷ fs
      → (s' u' : tun.State) × (tun_write tun tun_header s bytes ≡ (pos (length bytes), s'))
        × (writes.written s' ≡ writes.written s ++ (tun_header no_header bytes ++ bytes) ∷ [])
        × (tun_read tun u room ≡ ((pos (length bytes), bytes), u'))
        × (reads.pending u' ≡ fs)
  unfolding tun_write tun_read
  tun_write-tun_read len s u h bytes fs room fits short enough four waits =
      let len4 = len no_header bytes in
      let (s', wrote, taken) =
        writes.writev_all s (tun_header no_header bytes) bytes (omega arith) in
      let size = length-append h bytes in
      let (u', read, left) = reads.readv_first u (h ++ bytes) fs 4 room waits (omega arith) in
      let rest = drop-append 4 h bytes four in
      let all = take_all room bytes enough in
      let body = without_header_lem (length bytes) short in
      let count : 4 + min room (length (h ++ bytes) - 4) ≡ 4 + length bytes = omega arith in
      (s', u', rw (wrote, len4, body) refl, taken, rw (read, count, body, rest, all) refl, left)
