-- ===== src/Packet/Buffer.antt =====
-- packet.hpp and packet_buffer.hpp: a fixed pool of packets over one block of memory. A `Packet *`
-- is the packet's position in `packets`, and an address is an offset into `buffer`.
pub mod Layout
pub mod Alloc
pub mod Bytes
use tunator.Prelude.{
  ◌==◌, ℕ, zero, suc, ◌+◌, ◌*◌, ◌/◌, ◌%◌, Bool, true, false, Option, none, some, List, [], ◌∷◌, u64,
  modify_at, if◌then◌else◌,
}

pub record Packet : Type 0 where
  pub used : Bool
  pub idx : ℕ
  pub size : ℕ
  pub max_size : ℕ
  pub buf : ℕ

-- A byte for each address.
abbrev pub Memory : Type 0
Memory = ℕ → ℕ

pub record PacketBuffer : Type 0 where
  pub size : ℕ
  pub mtu : ℕ
  pub packet_size : ℕ
  pub packets : List Packet
  pub buffer : Memory

-- `((mtu / sizeof(size_t)) + 1) * sizeof(size_t)`, where `size_t` has 8 bytes.
unfoldable pub packet_size_of : ℕ → ℕ
packet_size_of mtu = ((mtu / 8 + 1) * 8) % u64

-- The loop of the constructor, at index `i` with `n` rounds left.
unfoldable pub init_packets : ℕ → ℕ → ℕ → ℕ → List Packet
init_packets mtu packet_size zero i = []
init_packets mtu packet_size (suc n) i =
    record { used = false; idx = i; size = 0; max_size = mtu; buf = (i * packet_size) % u64 }
    ∷ init_packets mtu packet_size n (i + 1)

-- `memory` is what `new char[…]` holds before the first write.
unfoldable pub buffer_init : Memory → ℕ → ℕ → PacketBuffer
unfolding packet_size_of init_packets
buffer_init memory mtu size =
    let packet_size = packet_size_of mtu in
    record {
      size = size;
      mtu = mtu;
      packet_size = packet_size;
      packets = init_packets mtu packet_size size 0;
      buffer = memory;
    }

-- The loop of `alloc`, at index `i` with the packets from `i` on.
unfoldable pub find_unused : ℕ → List Packet → Option ℕ
find_unused i [] = none
find_unused i (p ∷ ps) = if p.used then find_unused (i + 1) ps else some i

-- `packets.get()[i].used = b`
unfoldable pub set_used : Bool → ℕ → List Packet → List Packet
set_used b = modify_at (λ p. record p { used = b })

-- `none` is the null pointer.
unfoldable pub alloc : PacketBuffer → Option ℕ × PacketBuffer
unfolding find_unused set_used
alloc pb = elim (find_unused 0 pb.packets) [
  | none ↦ (none, pb)
  | some i ↦ (some i, record pb { packets = set_used true i pb.packets })
]

-- `Packet::free` of the packet at `i`.
unfoldable pub free : ℕ → PacketBuffer → PacketBuffer
unfolding set_used
free i pb = record pb { packets = set_used false i pb.packets }

-- `packet->size = n`
unfoldable pub set_size : ℕ → ℕ → List Packet → List Packet
set_size n = modify_at (λ p. record p { size = n })

-- The `n` bytes from address `a` on.
unfoldable pub read_bytes : Memory → ℕ → ℕ → List ℕ
read_bytes m a zero = []
read_bytes m a (suc n) = m a ∷ read_bytes m (a + 1) n

-- `sgetn` or `memcpy` to an address, of the bytes given.
unfoldable pub store_at : Memory → ℕ → List ℕ → Memory
store_at m a [] = m
store_at m a (b ∷ bs) = store_at (λ x. if x == a then b else m x) (a + 1) bs
