-- ===== src/Packet/Buffer/Layout.antt =====
-- How packet_buffer.hpp lays the packets out in memory, and that its operations keep the layout.
use tunator.Prelude.{
  ℕ, zero, suc, ◌+◌, ◌*◌, ◌%◌, ◌≤◌, ◌<◌, ◌≡◌, ◌≢◌, refl, subst, ◌⊎◌, inl, inr, some, List, [], ◌∷◌,
  arith, u64, length, get_elem?, dec_lt, get_elem?-lt_length,
}
use tunator.Packet.Buffer.{Packet, Memory, PacketBuffer, packet_size_of, init_packets, buffer_init}

-- If `mtu + 8` fits in a `size_t`, a packet's memory holds more than `mtu` bytes, at most 8 more, and
-- is a whole number of words.
pub packet_size_bounds :
    (mtu : ℕ)
    → mtu + 8 < u64
    → (mtu < packet_size_of mtu) × (packet_size_of mtu ≤ mtu + 8) × (packet_size_of mtu % 8 ≡ 0)
unfolding packet_size_of
packet_size_bounds mtu h = omega arith

-- The packet at index `i` is in its place.
pub record IsPlaced (mtu packet_size i : ℕ) (p : Packet) : Type 0 where
  pub idx_is : p.idx ≡ i
  pub max_size_is : p.max_size ≡ mtu
  pub buf_is : p.buf ≡ i * packet_size

-- So are the packets from index `i` on.
abbrev pub Placed : ℕ → ℕ → ℕ → List Packet → Type 0
Placed mtu packet_size i [] = Unit {0}
Placed mtu packet_size i (p ∷ ps) = IsPlaced mtu packet_size i p × Placed mtu packet_size (i + 1) ps

pub record IsLaidOut (pb : PacketBuffer) : Type 0 where
  pub room : pb.mtu < pb.packet_size
  pub count : length pb.packets ≡ pb.size
  pub placed : Placed pb.mtu pb.packet_size 0 pb.packets

length-init_packets : (mtu w n i : ℕ) → length (init_packets mtu w n i) ≡ n
unfolding init_packets
length-init_packets mtu w zero i = refl
length-init_packets mtu w (suc n) i = omega (arith, length-init_packets mtu w n (i + 1))

init_packets-Placed : (mtu w n i : ℕ) → (i + n) * w < u64 → Placed mtu w i (init_packets mtu w n i)
unfolding init_packets
init_packets-Placed mtu w zero i h = tt
init_packets-Placed mtu w (suc n) i h = (
  record { idx_is = refl; max_size_is = refl; buf_is = grind arith },
  init_packets-Placed mtu w n (i + 1) (grind arith),
)

-- A new pool is laid out, if its memory can be addressed.
pub buffer_init-IsLaidOut :
    (memory : Memory) (mtu size : ℕ)
    → mtu + 8 < u64
    → size * packet_size_of mtu < u64
    → IsLaidOut (buffer_init memory mtu size)
unfolding buffer_init
buffer_init-IsLaidOut memory mtu size small fits = record {
  room = (packet_size_bounds mtu small).0;
  count = length-init_packets mtu (packet_size_of mtu) size 0;
  placed = init_packets-Placed mtu (packet_size_of mtu) size 0 (grind arith);
}

mul_suc_le : (i j w : ℕ) → i < j → i * w + w ≤ j * w
mul_suc_le i j w h = grind arith

Placed-get :
    {mtu w : ℕ} (i j : ℕ) (ps : List Packet) {p : Packet}
    → Placed mtu w i ps
    → get_elem? ps j ≡ some p
    → IsPlaced mtu w (i + j) p
Placed-get i j [] h e = cc
Placed-get {mtu} {w} i zero (x ∷ ps) {p} h e = ground arith
Placed-get {mtu} {w} i (suc j) (x ∷ ps) {p} h e =
    let ih = Placed-get {mtu = mtu} {w = w} (i + 1) j ps h.1 e in
    let same : i + 1 + j ≡ i + suc j = omega arith in subst (λ k. IsPlaced mtu w k p) same ih

pub get-IsPlaced :
    {pb : PacketBuffer} {p : Packet} (i : ℕ)
    → IsLaidOut pb
    → get_elem? pb.packets i ≡ some p
    → IsPlaced pb.mtu pb.packet_size i p
get-IsPlaced {pb} {p} i h e =
    subst (λ k. IsPlaced pb.mtu pb.packet_size k p) (omega arith)
      (Placed-get 0 i pb.packets h.placed e)

slots_disjoint :
    (i j w m : ℕ) {p q : Packet}
    → IsPlaced m w i p
    → IsPlaced m w j q
    → i ≢ j
    → m < w
    → (p.buf + p.max_size ≤ q.buf) ⊎ (q.buf + q.max_size ≤ p.buf)
slots_disjoint i j w m hp hq ne room = elim (dec_lt i j) [
  | yes lt ↦ inl (grind (arith, mul_suc_le i j w lt))
  | no ge ↦ inr (grind (arith, mul_suc_le j i w (omega arith)))
]

slot_within :
    (i w m n : ℕ) {p : Packet} → IsPlaced m w i p → m < w → i < n → p.buf + p.max_size ≤ n * w
slot_within i w m n hp room lt = grind (arith, mul_suc_le i n w lt)

-- In a laid out pool the memory of two packets does not overlap, and that of each packet lies in
-- the block of `size * packet_size` bytes.
pub packets_disjoint :
    (pb : PacketBuffer) (i j : ℕ) (p q : Packet)
    → IsLaidOut pb
    → get_elem? pb.packets i ≡ some p
    → get_elem? pb.packets j ≡ some q
    → i ≢ j
    → ((p.buf + p.max_size ≤ q.buf) ⊎ (q.buf + q.max_size ≤ p.buf))
      × (p.buf + p.max_size ≤ pb.size * pb.packet_size)
packets_disjoint pb i j p q h ei ej ne = (
  slots_disjoint i j pb.packet_size pb.mtu (get-IsPlaced i h ei) (get-IsPlaced j h ej) ne h.room,
  slot_within i pb.packet_size pb.mtu pb.size (get-IsPlaced i h ei) h.room
      (omega (arith, get_elem?-lt_length i pb.packets ei, h.count)),
)
