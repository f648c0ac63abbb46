-- ===== src/Packet/Queue.antt =====
-- packet_queue.hpp: the pool, the ring and the statistics, pushed to by one thread and popped from
-- by another. What other threads do while a call sleeps or waits is an argument of the call.
pub mod Waits
pub mod Valid
pub mod Keeps
pub mod Fifo
pub mod Calls
pub mod History
pub mod Steps
use tunator.Prelude.{
  ℕ, zero, suc, ◌+◌, ◌*◌, ◌/◌, ◌%◌, Bool, true, false, Option, none, some, List, [], ◌∷◌, min, ltb,
  add64, ℤ, pos, negsuc, get_or,
}
use tunator.Packet.Ring.{Ring}
use tunator.Packet.Statistic.{
  PacketStatistic, statistic_init, inc_alloc_failed, inc_alloc_ok, inc_push_action_failed,
  inc_push_timeout, inc_pop_timeout, inc_pop_action_failed, add_push_packet_size,
  add_pop_packet_size, inc_push_ok, inc_pop_ok, inc_pop_empty, inc_push_failed, collect,
}
use tunator.Packet.Buffer.{Packet, PacketBuffer, Memory, buffer_init, alloc, free, set_size}

-- `PacketAction`: it gets the packet and the memory, and returns an `ssize_t` and the memory.
abbrev pub PacketAction : Type 0
PacketAction = Packet → Memory → ℤ × Memory

abbrev null_packet : Packet
null_packet = record { used = false; idx = 0; size = 0; max_size = 0; buf = 0 }

-- The packet that a `Packet *` points to.
abbrev pub packet_at : PacketBuffer → ℕ → Packet
packet_at pb i = get_or pb.packets i null_packet

pub record PacketQueue (r : Ring) : Type 0 where
  pub pb : PacketBuffer
  pub ps : PacketStatistic
  pub q : r.State
  pub block_wait : ℕ

-- One round of `push`: it returned, or there was no packet.
pub data Attempt (r : Ring) : Type 0 where
  returned : Bool → PacketQueue r → Attempt r
  no_packet : PacketQueue r → Attempt r

-- What other threads do while a call waits, and whether the wait timed out.
pub record Wake (r : Ring) : Type 0 where
  pub meanwhile : PacketQueue r → PacketQueue r
  pub timed_out : Bool

-- A call's result, the time slept in it in milliseconds, and the state.
pub record Pushed (r : Ring) : Type 0 where
  pub result : Bool
  pub slept : ℕ
  pub state : PacketQueue r

module _ (r : Ring) where
  unfoldable pub queue_init : Memory → ℕ → ℕ → ℕ → ℕ → PacketQueue r
  unfolding statistic_init buffer_init
  queue_init memory now mtu size block_wait = record {
    pb = buffer_init memory mtu size;
    ps = statistic_init now;
    q = r.make size;
    block_wait = block_wait;
  }

  unfoldable pub get_statistic : ℕ → PacketQueue r → PacketStatistic × PacketQueue r
  unfolding collect
  get_statistic now s = let (ret, ps') = collect now s.ps in (ret, record s { ps = ps' })

  -- `q.push(packet)` and the two ways on.
  unfoldable pub enqueue : ℕ → Option r.State → PacketQueue r → Attempt r
  unfolding free inc_push_ok inc_push_failed
  enqueue i (some q') s = returned true (record s { q = q'; ps = inc_push_ok s.ps })
  enqueue i none s = returned false (record s { pb = free i s.pb; ps = inc_push_failed s.ps })

  -- `ret > 0` and its `else`, for the packet at `i`.
  unfoldable pub finish_push : ℕ → ℤ → PacketQueue r → Attempt r
  unfolding enqueue set_size free add_push_packet_size inc_push_action_failed
  finish_push i (pos (suc n)) s = enqueue i (r.push s.q i) (record s {
    pb = record (s.pb) { packets = set_size (suc n) i s.pb.packets };
    ps = add_push_packet_size s.ps (suc n);
  })
  finish_push i (pos zero) s =
      returned false (record s { pb = free i s.pb; ps = inc_push_action_failed s.ps })
  finish_push i (negsuc n) s =
      returned false (record s { pb = free i s.pb; ps = inc_push_action_failed s.ps })

  -- `action(packet)` on the packet at `i`.
  unfoldable pub act_on : PacketAction → ℕ → PacketQueue r → ℤ × PacketQueue r
  act_on action i s =
      let (ret, memory) = action (packet_at s.pb i) s.pb.buffer in
      (ret, record s { pb = record (s.pb) { buffer = memory } })

  unfoldable pub with_packet : PacketAction → Option ℕ × PacketBuffer → PacketQueue r → Attempt r
  unfolding act_on finish_push inc_alloc_ok inc_alloc_failed
  with_packet action (some i, pb) s =
      let (ret, s') = act_on action i (record s { pb = pb; ps = inc_alloc_ok s.ps }) in
      finish_push i ret s'
  with_packet action (none, pb) s = no_packet (record s { pb = pb; ps = inc_alloc_failed s.ps })

  unfoldable pub try_push : PacketAction → PacketQueue r → Attempt r
  unfolding with_packet alloc
  try_push action s = with_packet action (alloc s.pb) s

  -- The loop of `push`. `during k` is what other threads do in the `k`-th sleep.
  unfoldable pub push_loop :
      PacketAction
      → (ℕ → PacketQueue r → PacketQueue r)
      → ℕ
      → ℕ
      → ℕ
      → ℕ
      → ℕ
      → PacketQueue r
      → Option (Pushed r)
  unfolding try_push inc_push_timeout
  push_loop action during zero round block_wait wait tw s = none
  push_loop action during (suc fuel) round block_wait wait tw s = elim (ltb tw block_wait) [
    | false ↦
        some
          (record { result = false; slept = tw; state = record s { ps = inc_push_timeout s.ps } })
    | true ↦ elim (try_push action s) [
      | returned b s' ↦ some (record { result = b; slept = tw; state = s' })
      | no_packet s' ↦
          push_loop action during fuel (round + 1) block_wait (add64 (min wait 100) 10)
            (add64 tw (min wait 100)) (during round s')
    ]
  ]

  -- One round for the first wait, of no length, one for each later wait, of 10 ms or more, and one
  -- for the test that ends the loop.
  unfoldable pub push :
      PacketAction → (ℕ → PacketQueue r → PacketQueue r) → PacketQueue r → Option (Pushed r)
  unfolding push_loop
  push action during s = push_loop action during (s.block_wait / 10 + 3) 0 s.block_wait 0 0 s

  -- The `if` on `action(pkt) >= 0`.
  unfoldable pub count_pop : ℤ → PacketStatistic → PacketStatistic
  unfolding inc_pop_ok inc_pop_action_failed
  count_pop (pos n) ps = inc_pop_ok ps
  count_pop (negsuc n) ps = inc_pop_action_failed ps

  -- A packet was taken from the ring.
  unfoldable pub consume : PacketAction → ℕ → PacketQueue r → PacketQueue r
  unfolding act_on count_pop free add_pop_packet_size
  consume action i s =
      let ps' = add_pop_packet_size s.ps (packet_at s.pb i).size in
      let (ret, s') = act_on action i (record s { ps = ps' }) in
      record s' { ps = count_pop ret s'.ps; pb = free i s'.pb }

  unfoldable pub try_pop : PacketAction → PacketQueue r → Option (PacketQueue r)
  unfolding consume
  try_pop action s = elim (r.pop s.q) [
    | none ↦ none
    | some (i, q') ↦ some (consume action i (record s { q = q' }))
  ]

  -- The loop of `pop`, over the waits that it comes to. `none`: it waits still.
  unfoldable pub pop : PacketAction → List (Wake r) → PacketQueue r → Option (Bool × PacketQueue r)
  unfolding try_pop inc_pop_empty inc_pop_timeout
  pop action [] s = elim (try_pop action s) [ some s' ↦ some (true, s') | none ↦ none ]
  pop action (w ∷ ws) s = elim (try_pop action s) [
    | some s' ↦ some (true, s')
    | none ↦
        let s' = w.meanwhile (record s { ps = inc_pop_empty s.ps }) in
        elim w.timed_out [
          | true ↦ some (false, record s' { ps = inc_pop_timeout s'.ps })
          | false ↦ pop action ws s'
        ]
  ]
