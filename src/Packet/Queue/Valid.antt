-- ===== src/Packet/Queue/Valid.antt =====
-- The invariant of packet_queue.hpp between calls, and that the calls keep it.
use tunator.Prelude.{
  sym, ℕ, zero, suc, ◌+◌, ◌≤◌, ◌<◌, ◌≡◌, ◌≢◌, refl, ap, ◌∙◌, ◌⊎◌, inl, inr, true, false, none, some,
  List, [], ◌∷◌, ◌++◌, arith, ℤ, pos, negsuc, length, get_elem?, get_elem?-lt_length, All, All-imp,
  Absent, Absent-of-All, Distinct, length-le_of_Distinct,
}
use tunator.Packet.Ring.{Ring, RingLaws}
use tunator.Packet.Buffer.{Packet, Memory, set_used, set_size, alloc, free}
use tunator.Packet.Buffer.Layout.{IsLaidOut}
use tunator.Packet.Buffer.Alloc.{FirstUnused, AllUsed, set_used_undo, alloc-FirstUnused}
use tunator.Packet.Statistic.{
  inc_alloc_ok, inc_alloc_failed, inc_push_ok, inc_push_action_failed, add_push_packet_size,
}
use tunator.Packet.Queue.{
  PacketAction, PacketQueue, Attempt, returned, no_packet, packet_at, try_push, finish_push,
}

-- A write of an action stays in its packet's memory.
abbrev pub WritesInside : PacketAction → Type 0
WritesInside action =
    (p : Packet) (m : Memory) (a : ℕ)
    → (a < p.buf) ⊎ (p.buf + p.max_size ≤ a)
    → (action p m).1 a ≡ m a

-- A write of an action stays in its packet's memory, and it reports no more than fits there.
pub record IsConfined (action : PacketAction) : Type 0 where
  pub outside : WritesInside action
  pub reports : (p : Packet) (m : Memory) (n : ℕ) → (action p m).0 ≡ pos n → n ≤ p.max_size

-- The packet at `i` is in use, and its size is in range.
pub record InUse (ps : List Packet) (i : ℕ) : Type 0 where
  pub at : Packet
  pub there : get_elem? ps i ≡ some at
  pub used : at.used ≡ true
  pub fits : at.size ≤ at.max_size

module _ (r : Ring) where
  -- The state after `alloc` gave the packet at `j`, and the call of the action on it.
  abbrev pub claimed : PacketQueue r → ℕ → PacketQueue r
  claimed s j = record s {
    pb = record (s.pb) { packets = set_used true j s.pb.packets };
    ps = inc_alloc_ok s.ps;
  }

  abbrev pub called : PacketAction → PacketQueue r → ℕ → ℤ × Memory
  called action s j = action (packet_at (claimed s j).pb j) s.pb.buffer

  -- The state after the ring took the packet at `j`, which holds `n` bytes.
  abbrev pub pushed : PacketAction → PacketQueue r → ℕ → ℕ → r.State → PacketQueue r
  pushed action s j n t = record s {
    pb = record (s.pb) {
      packets = set_size n j (set_used true j s.pb.packets);
      buffer = (called action s j).1;
    };
    q = t;
    ps = inc_push_ok (add_push_packet_size (inc_alloc_ok s.ps) n);
  }

  abbrev pub refused : PacketAction → PacketQueue r → ℕ → PacketQueue r
  refused action s j = record s {
    pb = record (s.pb) { buffer = (called action s j).1 };
    ps = inc_push_action_failed (inc_alloc_ok s.ps);
  }

  -- The state when the action has returned.
  abbrev acted : PacketAction → PacketQueue r → ℕ → PacketQueue r
  acted action s j = record s {
    pb = record (s.pb) { packets = set_used true j s.pb.packets; buffer = (called action s j).1 };
    ps = inc_alloc_ok s.ps;
  }

module _ (r : Ring) (laws : RingLaws r) where
  pub record IsValid (s : PacketQueue r) : Type 0 where
    pub laid_out : IsLaidOut s.pb
    pub places : laws.capacity s.q ≡ s.pb.size
    pub distinct : Distinct (laws.contents s.q)
    pub in_use : All (InUse s.pb.packets) (laws.contents s.q)

  -- The three ways a round of `push` can go.
  pub data Outcome (action : PacketAction) (s : PacketQueue r) (a : Attempt r) : Type 0 where
    no_room :
        AllUsed s.pb.packets
        → a ≡ no_packet (record s { ps = inc_alloc_failed s.ps })
        → Outcome action s a
    rejects :
        (j : ℕ)
        → FirstUnused s.pb.packets j
        → ((n : ℕ) → (called r action s j).0 ≢ pos (suc n))
        → a ≡ returned false (refused r action s j)
        → Outcome action s a
    accepts :
        (j n : ℕ) (t : r.State)
        → FirstUnused s.pb.packets j
        → (called r action s j).0 ≡ pos (suc n)
        → laws.contents t ≡ laws.contents s.q ++ j ∷ []
        → laws.capacity t ≡ laws.capacity s.q
        → a ≡ returned true (pushed r action s j (suc n) t)
        → Outcome action s a

  pub unused-Absent :
      (s : PacketQueue r) (j : ℕ)
      → IsValid s
      → FirstUnused s.pb.packets j
      → Absent j (laws.contents s.q)
  unused-Absent s j v f = Absent-of-All (InUse s.pb.packets) j _ v.in_use differs
    where
      differs : (i : ℕ) → InUse s.pb.packets i → i ≢ j
      differs i u e =
          let same : u.at ≡ f.at = cc (u.there, f.there, e) in
          cc (u.used, f.unused, ap (λ (p : Packet). p.used) same)

  -- While a valid queue has a packet that is not in use, its ring holds fewer items than it has room
  -- for.
  pub ring_has_room :
      (s : PacketQueue r) (j : ℕ)
      → IsValid s
      → FirstUnused s.pb.packets j
      → length (laws.contents s.q) < laws.capacity s.q
  ring_has_room s j v f =
      let within : All (λ i. i < s.pb.size) (laws.contents s.q) =
        All-imp (InUse s.pb.packets) (λ i. i < s.pb.size) _
          (λ i u. omega (arith, get_elem?-lt_length i s.pb.packets u.there, v.laid_out.count))
          v.in_use in
      let here : j < s.pb.size =
        omega (arith, get_elem?-lt_length j s.pb.packets f.there, v.laid_out.count) in
      omega (
        arith,
        v.places,
        length-le_of_Distinct s.pb.size (j ∷ laws.contents s.q) (unused-Absent s j v f, v.distinct)
            (here, within),
      )

  try_push-none :
      (action : PacketAction) (s : PacketQueue r)
      → alloc s.pb ≡ (none, s.pb)
      → try_push r action s ≡ no_packet (record s { ps = inc_alloc_failed s.ps })
  unfolding try_push
  try_push-none action s e = rw (e, try_push)

  try_push-some :
      (action : PacketAction) (s : PacketQueue r) (j : ℕ)
      → alloc s.pb ≡ (some j, record (s.pb) { packets = set_used true j s.pb.packets })
      → try_push r action s ≡ finish_push r j (called r action s j).0 (acted r action s j)
  unfolding try_push
  try_push-some action s j e = rw (e, try_push)

  -- A round goes by what the action does on the packet that it gets.
  pub try_push-same :
      (a b : PacketAction) (s : PacketQueue r)
      → ((j : ℕ) → FirstUnused s.pb.packets j → called r a s j ≡ called r b s j)
      → AllUsed s.pb.packets ⊎ (try_push r a s ≡ try_push r b s)
  try_push-same a b s same = elim (alloc-FirstUnused s.pb) [
    | inl (all, e) ↦ inl all
    | inr (j, f, e) ↦ inr (
        try_push-some a s j e
        ∙ ap
            (λ (c : ℤ × Memory). finish_push r j c.0 (record s {
              pb = record (s.pb) { packets = set_used true j s.pb.packets; buffer = c.1 };
              ps = inc_alloc_ok s.ps;
            }))
            (same j f)
        ∙ sym (try_push-some b s j e))
  ]

  finish_push-refused :
      (action : PacketAction) (s : PacketQueue r) (j : ℕ) (ret : ℤ)
      → FirstUnused s.pb.packets j
      → ((n : ℕ) → ret ≢ pos (suc n))
      → finish_push r j ret (acted r action s j) ≡ returned false (refused r action s j)
  unfolding finish_push free
  finish_push-refused action s j (pos (suc n)) f bad = absurd (bad n refl)
  finish_push-refused action s j (pos zero) f bad =
      rw (set_used_undo j s.pb.packets f.there f.unused)
  finish_push-refused action s j (negsuc n) f bad =
      rw (set_used_undo j s.pb.packets f.there f.unused)

  finish_push_accepted :
      (action : PacketAction) (s : PacketQueue r) (j n : ℕ) (t : r.State)
      → r.push s.q j ≡ some t
      → finish_push r j (pos (suc n)) (acted r action s j)
        ≡ returned true (pushed r action s j (suc n) t)
  unfolding finish_push
  finish_push_accepted action s j n t e = rw (e, finish_push)

  positive_or_not : (z : ℤ) → ((n : ℕ) × (z ≡ pos (suc n))) ⊎ ((n : ℕ) → z ≢ pos (suc n))
  positive_or_not (pos (suc n)) = inl (n, refl)
  positive_or_not (pos zero) = inr (λ n e. ground arith)
  positive_or_not (negsuc n) = inr (λ m e. ground arith)

  -- A round of `push` goes one of three ways: with every packet in use it returns nothing and only
  -- counts; else it claims the first packet not in use and calls the action, and either the action
  -- reports nothing and the packets and the ring are as before, or the ring takes the packet. The
  -- branch in which the ring is full is never taken.
  pub try_push-Outcome :
      (action : PacketAction) (s : PacketQueue r)
      → IsValid s
      → Outcome action s (try_push r action s)
  try_push-Outcome action s v = elim (alloc-FirstUnused s.pb) [
    | inl (all, e) ↦ no_room all (try_push-none action s e)
    | inr (j, f, e) ↦ elim (positive_or_not (called r action s j).0) [
      | inr bad ↦
          rejects j f bad (try_push-some action s j e ∙ finish_push-refused action s j _ f bad)
      | inl (n, good) ↦
          let (t, pushes, cs, cap) = laws.push_room s.q j (ring_has_room s j v f) in
          accepts j n t f good cs cap (
            try_push-some action s j e
            ∙ ap (λ z. finish_push r j z (acted r action s j)) good
            ∙ finish_push_accepted action s j n t pushes)
    ]
  ]
