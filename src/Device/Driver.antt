-- ===== src/Device/Driver.antt =====
-- tun_device.cpp: the header in front of each packet of a tun device. `writev` and `readv` are the
-- operations of an open device; `tun_alloc` is in Alloc.
pub mod Frame
use tunator.Prelude.{
  ℕ, zero, suc, ◌+◌, ◌-◌, ◌*◌, ◌/◌, ◌%◌, Bool, true, false, ◌==◌, List, [], ◌∷◌, ℤ, pos, negsuc,
  ltb, u64, set, length, get_or, if◌then◌else◌,
}
use tunator.Text.{Text}

-- An open tun device.
pub record Tun : Type 1 where
  pub State : Type 0
  -- the blocks to write; the count written, or an error
  pub writev : State → List Text → ℤ × State
  -- the sizes of the blocks to fill; the count read, or an error, and the blocks' contents
  pub readv : State → List ℕ → (ℤ × List Text) × State

-- The byte at the start, of a packet of one byte or more.
abbrev first_byte : Text → ℕ
first_byte bytes = get_or bytes 0 0

-- `(b & 0xf0) == 0x40`
unfoldable pub is_v4 : Text → Bool
is_v4 bytes = ((first_byte bytes % 256) / 16) * 16 == 64

-- `(b & 0xf0) == 0x60`
unfoldable pub is_v6 : Text → Bool
is_v6 bytes = ((first_byte bytes % 256) / 16) * 16 == 96

-- On Linux. The `char`s -122 and -35 are the bytes 134 and 221.
unfoldable pub tun_header_linux : Text → Text → Text
unfolding is_v4 is_v6
tun_header_linux header bytes =
    if ltb (length bytes) 1
    then header
    else if is_v4 bytes
    then set header 2 8
    else if is_v6 bytes
    then set (set header 2 134) 3 221
    else header

-- On macOS.
unfoldable pub tun_header_apple : Text → Text → Text
unfolding is_v4 is_v6
tun_header_apple header bytes =
    if ltb (length bytes) 1
    then header
    else if is_v4 bytes
    then set header 3 2
    else if is_v6 bytes
    then set header 3 30
    else header

-- The conversion of a `size_t` to an `int` of 32 bits.
unfoldable pub to_int : ℕ → ℤ
to_int n = let w = n % 4294967296 in if ltb w 2147483648 then pos w else negsuc (4294967295 - w)

-- `if (ret <= 0) return ret; return ret - sizeof(header);`, where the difference is a `size_t`.
unfoldable pub without_header : ℤ → ℤ
unfolding to_int
without_header (pos zero) = pos zero
without_header (pos (suc n)) = to_int ((suc n + (u64 - 4)) % u64)
without_header (negsuc n) = negsuc n

abbrev pub no_header : Text
no_header = 0 ∷ 0 ∷ 0 ∷ 0 ∷ []

abbrev pub block_at : List Text → ℕ → Text
block_at blocks i = get_or blocks i []

module _ (tun : Tun) where
  module _ (tun_header : Text → Text → Text) where
    unfoldable pub tun_write : tun.State → Text → ℤ × tun.State
    unfolding without_header
    tun_write s bytes =
        let (ret, s') = tun.writev s (tun_header no_header bytes ∷ bytes ∷ []) in
        (without_header ret, s')

  -- With what it stores at `bytes`.
  unfoldable pub tun_read : tun.State → ℕ → (ℤ × Text) × tun.State
  unfolding without_header
  tun_read s nbytes =
      let ((ret, blocks), s') = tun.readv s (4 ∷ nbytes ∷ []) in
      ((without_header ret, block_at blocks 1), s')
