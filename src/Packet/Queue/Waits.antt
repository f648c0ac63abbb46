-- ===== src/Packet/Queue/Waits.antt =====
-- The two loops of packet_queue.hpp that sleep or wait: they end, and how long they take.
use tunator.Prelude.{
  ℕ, zero, suc, ◌+◌, ◌*◌, ◌/◌, ◌≤◌, ◌<◌, ◌≡◌, refl, ◌⊎◌, inl, inr, Bool, true, false, Option, some,
  List, [], ◌∷◌, min, arith, ltb, ltb→lt, u64, add64, Bool-cases, Option-cases,
}
use tunator.Packet.Ring.{Ring}
use tunator.Packet.Statistic.{PacketStatistic, inc_push_timeout, inc_pop_timeout, inc_pop_empty}
use tunator.Packet.Queue.{
  PacketAction, PacketQueue, Pushed, Attempt, returned, no_packet, Wake, try_push, push_loop, push,
  try_pop, pop,
}

module _ (r : Ring) where
  abbrev pub After : (PacketQueue r → Type 0) → Attempt r → Type 0
  After P (returned b s) = P s
  After P (no_packet s) = P s

  Attempt-cases :
      (P : PacketQueue r → Type 0) (a : Attempt r)
      → After P a
      → ((b : Bool) × (s : PacketQueue r) × (a ≡ returned b s) × P s)
        ⊎ ((s : PacketQueue r) × (a ≡ no_packet s) × P s)
  Attempt-cases P (returned b s) h = inl (b, s, refl, h)
  Attempt-cases P (no_packet s) h = inr (s, refl, h)

-- A property of the queue that every round, every sleep and the count of a timeout keeps.
module _ (r : Ring) (action : PacketAction) (during : ℕ → PacketQueue r → PacketQueue r)
    (P : PacketQueue r → Type 0)
    (round_keeps : (s : PacketQueue r) → P s → After r P (try_push r action s))
    (sleep_keeps : (k : ℕ) (s : PacketQueue r) → P s → P (during k s))
    (timeout_keeps : (s : PacketQueue r) → P s → P (record s { ps = inc_push_timeout s.ps })) where
  abbrev Ends : ℕ → Option (Pushed r) → Type 0
  Ends b o = (p : Pushed r) × (o ≡ some p) × (p.slept < b + 100) × P p.state

  -- One round of the loop, on each way.
  push_loop_stop :
      (fuel round b wait tw : ℕ) (s : PacketQueue r)
      → ltb tw b ≡ false
      → tw < b + 100
      → P s
      → Ends b (push_loop r action during (suc fuel) round b wait tw s)
  unfolding push_loop
  push_loop_stop fuel round b wait tw s e h inv = (timed_out, ground arith, h, timeout_keeps s inv)
    where
      timed_out : Pushed r
      timed_out = record {
        result = false;
        slept = tw;
        state = record s { ps = inc_push_timeout s.ps };
      }

  push_loop_returned :
      (fuel round b wait tw : ℕ) (s s' : PacketQueue r) (done : Bool)
      → ltb tw b ≡ true
      → try_push r action s ≡ returned done s'
      → tw < b + 100
      → P s'
      → Ends b (push_loop r action during (suc fuel) round b wait tw s)
  unfolding push_loop
  push_loop_returned fuel round b wait tw s s' done e f h inv =
      (record { result = done; slept = tw; state = s' }, ground arith, h, inv)

  push_loop_again :
      (fuel round b wait tw : ℕ) (s s' : PacketQueue r)
      → ltb tw b ≡ true
      → try_push r action s ≡ no_packet s'
      → push_loop r action during (suc fuel) round b wait tw s
        ≡ push_loop r action during fuel
            (round + 1)
            b
            (add64 (min wait 100) 10)
            (add64 tw (min wait 100))
            (during round s')
  unfolding push_loop
  push_loop_again fuel round b wait tw s s' e f = ground arith

  -- A round, given that what is left of the loop ends.
  push_loop_round :
      (fuel round b wait tw : ℕ) (s : PacketQueue r)
      → tw < b + 100
      → P s
      → ((s' : PacketQueue r)
          → tw < b
          → P s'
          → Ends b (
              push_loop r action during fuel
                (round + 1)
                b
                (add64 (min wait 100) 10)
                (add64 tw (min wait 100))
                s'))
      → Ends b (push_loop r action during (suc fuel) round b wait tw s)
  push_loop_round fuel round b wait tw s ht inv more = elim (Bool-cases (ltb tw b)) [
    | inr e ↦ push_loop_stop fuel round b wait tw s e ht inv
    | inl e ↦ elim (Attempt-cases r P (try_push r action s) (round_keeps s inv)) [
      | inl (done, s', f, inv') ↦ push_loop_returned fuel round b wait tw s s' done e f ht inv'
      | inr (s', f, inv') ↦
          rw (push_loop_again fuel round b wait tw s s' e f)
            (more (during round s') (ltb→lt tw b e) (sleep_keeps round s' inv'))
    ]
  ]

  push_loop_total :
      (fuel round b wait tw : ℕ) (s : PacketQueue r)
      → b + 100 < u64
      → 10 ≤ wait
      → wait ≤ 110
      → tw < b + 100
      → b ≤ tw + 10 * fuel
      → P s
      → Ends b (push_loop r action during (suc fuel) round b wait tw s)
  push_loop_total zero round b wait tw s hb lo hi ht hf inv =
      push_loop_stop 0 round b wait tw s (ground arith) ht inv
  push_loop_total (suc fuel) round b wait tw s hb lo hi ht hf inv =
      push_loop_round (suc fuel) round b wait tw s ht inv λ s' lt inv'.
        push_loop_total fuel (round + 1) b _ _ s' hb (omega arith) (omega arith) (omega arith)
          (omega arith) inv'

  -- `push` returns, in a state with the property, and has slept less than `block_wait + 100`
  -- milliseconds, if that number fits in a `size_t`.
  pub push_total :
      (s : PacketQueue r)
      → s.block_wait + 100 < u64
      → P s
      → Ends s.block_wait (push r action during s)
  unfolding push
  push_total s h inv = rw enough (
      push_loop_round (suc (b / 10 + 1)) 0 b 0 0 s (omega arith) inv λ s' lt inv'.
        push_loop_total (b / 10 + 1) 1 b 10 0 s' h (omega arith) (omega arith) (omega arith)
          (omega arith) inv')
    where
      b : ℕ
      b = s.block_wait

      enough : b / 10 + 3 ≡ suc (suc (b / 10 + 1))
      enough = omega arith

module _ (r : Ring) (P : PacketQueue r → Type 0) where
  -- Other threads keep the property in each wait, and one of the waits times out.
  abbrev pub Waits : List (Wake r) → Type 0
  Waits [] = ⊥
  Waits (w ∷ ws) =
      ((s : PacketQueue r) → P s → P (w.meanwhile s)) × ((w.timed_out ≡ true) ⊎ Waits ws)

  later : (w : Wake r) (ws : List (Wake r)) → w.timed_out ≡ false → Waits (w ∷ ws) → Waits ws
  later w ws f (_, inl t) = cc
  later w ws f (_, inr h) = h

module _ (r : Ring) (action : PacketAction) (P : PacketQueue r → Type 0)
    (take_keeps : (s s' : PacketQueue r) → P s → try_pop r action s ≡ some s' → P s')
    (count_keeps : (s : PacketQueue r) (ps' : PacketStatistic)
      → P s
      → P (record s { ps = ps' })) where
  pub pop_total :
      (ws : List (Wake r)) (s : PacketQueue r)
      → Waits r P ws
      → P s
      → (b : Bool) × (s' : PacketQueue r) × (pop r action ws s ≡ some (b, s')) × P s'
  unfolding pop
  pop_total [] s h inv = elim h [ ]
  pop_total (w ∷ ws) s h inv = elim (Option-cases (try_pop r action s)) [
    | inr (s', e) ↦ (true, s', ground arith, take_keeps s s' inv e)
    | inl e ↦
        let s' = w.meanwhile (record s { ps = inc_pop_empty s.ps }) in
        let inv' : P s' = h.0 _ (count_keeps s _ inv) in
        elim (Bool-cases w.timed_out) [
          | inl t ↦
              (false, record s' { ps = inc_pop_timeout s'.ps }, ground arith, count_keeps s' _ inv')
          | inr f ↦
              let (b, t, ih, inv'') = pop_total ws s' (later r P w ws f h) inv' in
              (b, t, ground arith, inv'')
        ]
  ]
