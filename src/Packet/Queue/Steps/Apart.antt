-- ===== src/Packet/Queue/Steps/Apart.antt =====
-- A step of packet_queue.hpp changes one packet: what it leaves of the others.
use tunator.Prelude.{
  ℕ, ◌+◌, ◌≤◌, ◌<◌, ◌≡◌, ◌≢◌, refl, sym, ap, ◌∙◌, Bool, true, some, List, arith, get_elem?, All,
  All-imp, All-and-Absent, Absent,
}
use tunator.Packet.Buffer.{Packet, PacketBuffer, read_bytes, set_used, set_size}
use tunator.Packet.Buffer.Bytes.{read_bytes-same}
use tunator.Packet.Buffer.Layout.{IsLaidOut, packets_disjoint}
use tunator.Packet.Queue.{PacketAction, packet_at}
use tunator.Packet.Queue.Valid.{WritesInside, InUse}
use tunator.Packet.Queue.Keeps.{get_or_of_get}
use tunator.Packet.Queue.Fifo.{get-set_used_ne, get-set_size_ne}

-- The packet at `i` is marked as used.
pub record IsHeld (ps : List Packet) (i : ℕ) : Type 0 where
  pub at : Packet
  pub there : get_elem? ps i ≡ some at
  pub used : at.used ≡ true

-- All packets but the one at `k` are the same.
abbrev pub SameBut : ℕ → List Packet → List Packet → Type 0
SameBut k ps ps' = (i : ℕ) → i ≢ k → get_elem? ps' i ≡ get_elem? ps i

pub set_used-SameBut : (b : Bool) (k : ℕ) (ps : List Packet) → SameBut k ps (set_used b k ps)
set_used-SameBut b k ps i ne = get-set_used_ne b ps i k ne

pub set_size-SameBut : (n k : ℕ) (ps : List Packet) → SameBut k ps (set_size n k ps)
set_size-SameBut n k ps i ne = get-set_size_ne n ps i k ne

module _ (k : ℕ) (ps ps' : List Packet) (same : SameBut k ps ps') where
  pub IsHeld-SameBut : (i : ℕ) → IsHeld ps i × (i ≢ k) → IsHeld ps' i
  IsHeld-SameBut i (h, ne) = record { at = h.at; there = same i ne ∙ h.there; used = h.used }

  pub InUse-SameBut : (i : ℕ) → InUse ps i × (i ≢ k) → InUse ps' i
  InUse-SameBut i (u, ne) = record {
    at = u.at;
    there = same i ne ∙ u.there;
    used = u.used;
    fits = u.fits;
  }

  pub All-IsHeld-SameBut : (xs : List ℕ) → Absent k xs → All (IsHeld ps) xs → All (IsHeld ps') xs
  All-IsHeld-SameBut xs absent h =
      All-imp _ _ xs IsHeld-SameBut (All-and-Absent (IsHeld ps) k xs h absent)

  pub All-InUse-SameBut : (xs : List ℕ) → Absent k xs → All (InUse ps) xs → All (InUse ps') xs
  All-InUse-SameBut xs absent h =
      All-imp _ _ xs InUse-SameBut (All-and-Absent (InUse ps) k xs h absent)

-- The first `n` bytes of the packet at `i`.
abbrev pub bytes_at : PacketBuffer → ℕ → ℕ → List ℕ
bytes_at pb i n = read_bytes pb.buffer (packet_at pb i).buf n

-- A step that changes the packet at `k`, or the memory of that packet.
pub record IsApart (k : ℕ) (pb pb' : PacketBuffer) : Type 0 where
  pub packets_same : SameBut k pb.packets pb'.packets
  pub memory_same :
      (i : ℕ) (p : Packet)
      → i ≢ k
      → get_elem? pb.packets i ≡ some p
      → (a : ℕ) → p.buf ≤ a
      → a < p.buf + p.max_size
      → pb'.buffer a ≡ pb.buffer a

pub packets-IsApart :
    (k : ℕ) (pb : PacketBuffer) (ps' : List Packet)
    → SameBut k pb.packets ps'
    → IsApart k pb (record pb { packets = ps' })
packets-IsApart k pb ps' same = record {
  packets_same = same;
  memory_same = λ i p ne there a lo hi. refl;
}

-- The memory after the action was called on the packet at `k`.
abbrev pub acts_on : PacketAction → ℕ → PacketBuffer → PacketBuffer
acts_on action k pb = record pb { buffer = (action (packet_at pb k) pb.buffer).1 }

pub acts_on-IsApart :
    (action : PacketAction) (k : ℕ) (pb : PacketBuffer) {q : Packet}
    → WritesInside action
    → IsLaidOut pb
    → get_elem? pb.packets k ≡ some q
    → IsApart k pb (acts_on action k pb)
acts_on-IsApart action k pb {q} c h at_k = record {
  packets_same = λ i ne. refl;
  memory_same = λ i p ne there a lo hi.
      let taken : packet_at pb k ≡ q = get_or_of_get pb.packets k _ at_k in
      c (packet_at pb k) pb.buffer a (
        omega (
          arith,
          ap (λ (x : Packet). x.buf) taken,
          ap (λ (x : Packet). x.max_size) taken,
          (packets_disjoint pb i k p q h there at_k ne).0,
        ));
}

-- So what is read of another packet stays, if it is no more than fits there.
pub read-IsApart :
    (k : ℕ) (pb pb' : PacketBuffer) (i : ℕ) (size : Packet → ℕ) (p : Packet)
    → IsApart k pb pb'
    → i ≢ k
    → get_elem? pb.packets i ≡ some p
    → size p ≤ p.max_size
    → bytes_at pb' i (size (packet_at pb' i)) ≡ bytes_at pb i (size (packet_at pb i))
read-IsApart k pb pb' i size p apart ne there fits =
    ap (λ (x : Packet). read_bytes pb'.buffer x.buf (size x))
      (get_or_of_get pb'.packets i _ (apart.packets_same i ne ∙ there))
    ∙ read_bytes-same pb'.buffer pb.buffer p.buf (size p)
        (λ a lo hi. apart.memory_same i p ne there a lo (omega arith))
    ∙ sym (
        ap (λ (x : Packet). read_bytes pb.buffer x.buf (size x))
          (get_or_of_get pb.packets i _ there))
