-- ===== src/Packet/Queue/Steps.antt =====
-- packet_queue.hpp at the grain of its shared accesses: the producer's `push` and the consumer's `pop`
-- as threads that take turns at any of them, with the thread that collects the statistics. A counter
-- is counted in the step that it stands next to.
pub mod Apart
pub mod Invariant
pub mod Sound
pub mod Flow
pub mod Fifo
pub mod Alone
mod Tests
use tunator.Prelude.{
  ℕ, zero, suc, ◌+◌, Bool, true, false, Option, none, some, List, [], ◌∷◌, ◌++◌, ℤ, pos, negsuc,
  get_elem?, if◌then◌else◌,
}
use tunator.Packet.Ring.{Ring}
use tunator.Packet.Buffer.{Packet, read_bytes, set_used, set_size, free}
use tunator.Packet.Statistic.{
  inc_alloc_ok, inc_alloc_failed, inc_push_action_failed, add_push_packet_size, add_pop_packet_size,
  inc_pop_empty,
}
use tunator.Packet.Queue.{
  PacketAction, PacketQueue, Attempt, returned, no_packet, packet_at, get_statistic, enqueue,
  act_on, count_pop,
}
use tunator.Packet.Queue.Fifo.{payload}

-- Where the producer stands in a round of `push`, with its local variables.
pub data Producer : Type 0 where
  rests : Option Bool → Producer  -- what the last round came to; `none`: it had no packet
  scans : PacketAction → ℕ → Producer  -- before the test of `packets[i].used` in `alloc`
  marks : PacketAction → ℕ → Producer  -- before `packet.used = true`
  holds : PacketAction → ℕ → Producer  -- before `action(packet)`
  acted : ℕ → ℤ → Producer  -- before `ret > 0`
  sized : ℕ → Producer  -- before `q.push(packet)`

-- Where the consumer stands in a round of `pop`.
pub data Consumer : Type 0 where
  waits : Consumer  -- before `q.pop(&pkt, 1)`
  taken : PacketAction → ℕ → Consumer  -- before `action(pkt)`
  called : ℕ → ℤ → Consumer  -- before `pkt->free()`

-- Whose turn it is, with the action of the round that the thread begins if it begins one.
pub data Turn : Type 0 where
  producer consumer : PacketAction → Turn
  collects : ℕ → Turn

module _ (r : Ring) where
  -- The test of `packet.used`; `none` is the end of the loop.
  unfoldable pub test_used :
      PacketAction → ℕ → Option Packet → PacketQueue r → Producer × PacketQueue r
  unfolding inc_alloc_failed
  test_used action i none s = (rests none, record s { ps = inc_alloc_failed s.ps })
  test_used action i (some p) s = (if p.used then scans action (i + 1) else marks action i, s)

  -- `packet.used = true`
  unfoldable pub mark : ℕ → PacketQueue r → PacketQueue r
  unfolding set_used inc_alloc_ok
  mark i s = record s {
    pb = record (s.pb) { packets = set_used true i s.pb.packets };
    ps = inc_alloc_ok s.ps;
  }

  -- `ret > 0`: `packet->size = ret`, or `packet->free()`.
  unfoldable pub judge : ℕ → ℤ → PacketQueue r → Producer × PacketQueue r
  unfolding set_size free add_push_packet_size inc_push_action_failed
  judge i (pos (suc n)) s = (
    sized i,
    record s {
      pb = record (s.pb) { packets = set_size (suc n) i s.pb.packets };
      ps = add_push_packet_size s.ps (suc n);
    },
  )
  judge i (pos zero) s =
      (rests (some false), record s { pb = free i s.pb; ps = inc_push_action_failed s.ps })
  judge i (negsuc n) s =
      (rests (some false), record s { pb = free i s.pb; ps = inc_push_action_failed s.ps })

  abbrev pub ended : Attempt r → Producer × PacketQueue r
  ended (returned b s) = (rests (some b), s)
  ended (no_packet s) = (rests none, s)

  unfoldable pub producer_step : PacketAction → Producer → PacketQueue r → Producer × PacketQueue r
  unfolding test_used mark act_on judge enqueue
  producer_step new (rests b) s = (scans new 0, s)
  producer_step new (scans action i) s = test_used action i (get_elem? s.pb.packets i) s
  producer_step new (marks action i) s = (holds action i, mark i s)
  producer_step new (holds action i) s = let (ret, s') = act_on r action i s in (acted i ret, s')
  producer_step new (acted i ret) s = judge i ret s
  producer_step new (sized i) s = ended (enqueue r i (r.push s.q i) s)

  -- What `q.pop(&pkt, 1)` gave.
  unfoldable pub popped :
      PacketAction → Option (ℕ × r.State) → PacketQueue r → Consumer × PacketQueue r
  unfolding inc_pop_empty
  popped new none s = (waits, record s { ps = inc_pop_empty s.ps })
  popped new (some (i, q')) s = (taken new i, record s { q = q' })

  unfoldable pub consumer_step : PacketAction → Consumer → PacketQueue r → Consumer × PacketQueue r
  unfolding popped act_on count_pop free add_pop_packet_size
  consumer_step new waits s = popped new (r.pop s.q) s
  consumer_step new (taken action i) s =
      let ps' = add_pop_packet_size s.ps (packet_at s.pb i).size in
      let (ret, s') = act_on r action i (record s { ps = ps' }) in (called i ret, s')
  consumer_step new (called i ret) s =
      (waits, record s { ps = count_pop r ret s.ps; pb = free i s.pb })

  pub record System : Type 0 where
    pub queue : PacketQueue r
    pub pushing : Producer
    pub popping : Consumer

  unfoldable pub turn : System → Turn → System
  unfolding producer_step consumer_step get_statistic
  turn y (producer new) =
      let (pushing, queue) = producer_step new y.pushing y.queue in
      record y { queue = queue; pushing = pushing }
  turn y (consumer new) =
      let (popping, queue) = consumer_step new y.popping y.queue in
      record y { queue = queue; popping = popping }
  turn y (collects now) = record y { queue = (get_statistic r now y.queue).1 }

  -- What the producer's action writes, in the step in which it is called and reports bytes.
  abbrev pub wrote : PacketQueue r → ℕ → ℤ × (ℕ → ℕ) → List (List ℕ)
  wrote s i (pos (suc n), memory) = read_bytes memory (packet_at s.pb i).buf (suc n) ∷ []
  wrote s i (_, memory) = []

  abbrev pub offers : System → Turn → List (List ℕ)
  offers y (producer new) = elim y.pushing [
    | holds action i ↦ wrote y.queue i (action (packet_at y.queue.pb i) y.queue.pb.buffer)
    | _ ↦ []
  ]
  offers y _ = []

  -- What the consumer's action is given, in the step in which it is called.
  abbrev pub delivers : System → Turn → List (List ℕ)
  delivers y (consumer new) = elim y.popping [ taken action i ↦ payload y.queue.pb i ∷ [] | _ ↦ [] ]
  delivers y _ = []

  -- The system after a sequence of turns, what the producer's actions wrote and what the consumer's
  -- actions were given.
  pub record Trace : Type 0 where
    pub last : System
    pub offered : List (List ℕ)
    pub delivered : List (List ℕ)

  unfoldable pub trace : System → List Turn → Trace
  unfolding turn
  trace y [] = record { last = y; offered = []; delivered = [] }
  trace y (t ∷ ts) =
      let later = trace (turn y t) ts in
      record {
        last = later.last;
        offered = offers y t ++ later.offered;
        delivered = delivers y t ++ later.delivered;
      }
