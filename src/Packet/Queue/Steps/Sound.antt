-- ===== src/Packet/Queue/Steps/Sound.antt =====
-- Every turn of packet_queue.hpp keeps the invariant.
use mathlib.Core.List.{append_assoc}
use tunator.Prelude.{
  ℕ, ◌+◌, ◌≤◌, ◌<◌, ◌≡◌, refl, sym, ap, subst, ◌∙◌, inl, inr, Bool, true, false, Option, none, some,
  List, [], ◌∷◌, ◌++◌, arith, length, get_elem?, get_elem?-lt_length, All, All-append, All-imp,
  All-split, Absent-split, ℤ, Distinct, Distinct-concat, Distinct-middle, length-le_of_Distinct,
  if◌then◌else◌,
}
use tunator.Packet.Ring.{Ring, RingLaws}
use tunator.Packet.Statistic.{inc_push_ok}
use tunator.Packet.Buffer.{Packet, free}
use tunator.Packet.Buffer.Alloc.{free-IsLaidOut}
use tunator.Packet.Queue.{PacketAction, PacketQueue, get_statistic, enqueue}
use tunator.Packet.Queue.Valid.{IsConfined, InUse, IsValid}
use tunator.Packet.Queue.Keeps.{write-IsLaidOut, try_pop-Taken}
use tunator.Packet.Queue.Steps.{
  Producer, rests, scans, marks, holds, acted, sized, Consumer, waits, taken, called, System, Turn,
  producer, consumer, collects, test_used, producer_step, popped, consumer_step, turn, trace,
}
use tunator.Packet.Queue.Steps.Apart.{
  IsHeld, set_used-SameBut, All-IsHeld-SameBut, All-InUse-SameBut,
}
use tunator.Packet.Queue.Steps.Invariant.{
  holdings, grip, ProducerOk, TurnOk, system_at, IsSound, count-IsSound, ProducerOk-SameBut,
  marks-IsSound, holds-IsSound, judge-IsSound,
}

length-grip : (c : Consumer) (xs : List ℕ) → length xs ≤ length (grip c ++ xs)
length-grip waits xs = omega arith
length-grip (taken action i) xs = omega arith
length-grip (called i ret) xs = omega arith

module _ (r : Ring) (laws : RingLaws r) where
  module _ (c : Consumer) (s : PacketQueue r) where
    -- The ring has room for the packet that the producer holds.
    sized_room :
        (i : ℕ)
        → IsSound r laws (system_at r s (sized i) c)
        → length (laws.contents s.q) < laws.capacity s.q
    sized_room i v =
        let owned : List ℕ = i ∷ (grip c ++ laws.contents s.q) in
        let within : All (λ k. k < s.pb.size) owned =
          All-imp (IsHeld s.pb.packets) (λ k. k < s.pb.size) owned
            (λ k h. omega (arith, get_elem?-lt_length k s.pb.packets h.there, v.laid_out.count))
            v.held in
        omega (
          arith,
          v.places,
          length-le_of_Distinct s.pb.size owned v.distinct within,
          length-grip c (laws.contents s.q),
        )

    -- So the last step of a round puts it there.
    pub sized_step :
        (new : PacketAction) (i : ℕ)
        → IsSound r laws (system_at r s (sized i) c)
        → (t : r.State) × (laws.contents t ≡ laws.contents s.q ++ i ∷ [])
          × (laws.capacity t ≡ laws.capacity s.q)
          × (producer_step r new (sized i) s
              ≡ (rests (some true), record s { q = t; ps = inc_push_ok s.ps }))
    unfolding producer_step
    sized_step new i v =
        let (t, pushes, ct, cap) = laws.push_room s.q i (sized_room i v) in
        (t, ct, cap, rw (pushes, enqueue) refl)

    sized-IsSound :
        (i : ℕ) (t : r.State)
        → IsSound r laws (system_at r s (sized i) c)
        → laws.contents t ≡ laws.contents s.q ++ i ∷ []
        → laws.capacity t ≡ laws.capacity s.q
        → IsSound r laws
            (system_at r (record s { q = t; ps = inc_push_ok s.ps }) (rests (some true)) c)
    sized-IsSound i t v ct cap =
        let moved : (grip c ++ laws.contents s.q) ++ i ∷ [] ≡ grip c ++ laws.contents t =
          append_assoc (grip c) (laws.contents s.q) (i ∷ []) ∙ sym (ap (◌++◌ (grip c)) ct) in
        record {
          laid_out = v.laid_out;
          places = cap ∙ v.places;
          distinct = subst Distinct moved (Distinct-concat i _ v.distinct.1 v.distinct.0);
          held =
              subst (All (IsHeld s.pb.packets)) moved
                (All-append _ (grip c ++ laws.contents s.q) (i ∷ []) v.held.1 (v.held.0, tt));
          in_use =
              subst (All (InUse s.pb.packets)) (sym ct)
                (All-append _ (laws.contents s.q) (i ∷ []) v.in_use (v.producer_ok, tt));
          producer_ok = tt;
          consumer_ok = v.consumer_ok;
        }

    -- A step of the producer by itself that changes its local variables only.
    local-IsSound :
        (p p' : Producer)
        → holdings p ≡ []
        → holdings p' ≡ []
        → ProducerOk s.pb.packets p'
        → IsSound r laws (system_at r s p c)
        → IsSound r laws (system_at r s p' c)
    local-IsSound p p' e e' ok v =
        let same : holdings p ≡ holdings p' = e ∙ sym e' in
        let rest : List ℕ = grip c ++ laws.contents s.q in
        record {
          laid_out = v.laid_out;
          places = v.places;
          distinct = subst (λ (xs : List ℕ). Distinct (xs ++ rest)) same v.distinct;
          held = subst (λ (xs : List ℕ). All (IsHeld s.pb.packets) (xs ++ rest)) same v.held;
          in_use = v.in_use;
          producer_ok = ok;
          consumer_ok = v.consumer_ok;
        }

    found-IsSound :
        (action : PacketAction) (i : ℕ) (p : Packet) (b : Bool)
        → get_elem? s.pb.packets i ≡ some p
        → p.used ≡ b
        → IsSound r laws (system_at r s (scans action i) c)
        → IsSound r laws (system_at r s (if b then scans action (i + 1) else marks action i) c)
    found-IsSound action i p true there e v =
        local-IsSound (scans action i) (scans action (i + 1)) refl refl v.producer_ok v
    found-IsSound action i p false there e v =
        local-IsSound (scans action i) (marks action i) refl refl (v.producer_ok, (p, there, e)) v

    test_used-IsSound :
        (action : PacketAction) (i : ℕ) (o : Option Packet)
        → get_elem? s.pb.packets i ≡ o
        → IsSound r laws (system_at r s (scans action i) c)
        → IsSound r laws (system_at r (test_used r action i o s).1 (test_used r action i o s).0 c)
    unfolding test_used
    test_used-IsSound action i none e v =
        count-IsSound r laws (system_at r s (rests none) c) _
          (local-IsSound (scans action i) (rests none) refl refl tt v)
    test_used-IsSound action i (some p) e v = found-IsSound action i p p.used e refl v

    producer_step-IsSound :
        (new : PacketAction) (p : Producer)
        → IsConfined new
        → IsSound r laws (system_at r s p c)
        → IsSound r laws (system_at r (producer_step r new p s).1 (producer_step r new p s).0 c)
    unfolding producer_step
    producer_step-IsSound new (rests b) h v = local-IsSound (rests b) (scans new 0) refl refl h v
    producer_step-IsSound new (scans action i) h v = test_used-IsSound action i _ refl v
    producer_step-IsSound new (marks action i) h v = marks-IsSound r laws c s action i v
    producer_step-IsSound new (holds action i) h v = holds-IsSound r laws c s action i v
    producer_step-IsSound new (acted i ret) h v = judge-IsSound r laws c s i ret v
    producer_step-IsSound new (sized i) h v =
        let (t, ct, cap, e) = sized_step new i v in
        subst (λ (z : Producer × PacketQueue r). IsSound r laws (system_at r z.1 z.0 c)) (sym e)
          (sized-IsSound i t v ct cap)

  module _ (p : Producer) (s : PacketQueue r) where
    popped-IsSound :
        (new : PacketAction) (i : ℕ) (is : List ℕ) (t : r.State)
        → IsConfined new
        → laws.contents s.q ≡ i ∷ is
        → laws.contents t ≡ is
        → laws.capacity t ≡ laws.capacity s.q
        → IsSound r laws (system_at r s p waits)
        → IsSound r laws (system_at r (record s { q = t }) p (taken new i))
    popped-IsSound new i is t h cs ct cap v =
        let moved : laws.contents s.q ≡ i ∷ laws.contents t = cs ∙ ap (◌∷◌ i) (sym ct) in
        let in_use = subst (All (InUse s.pb.packets)) moved v.in_use in
        record {
          laid_out = v.laid_out;
          places = cap ∙ v.places;
          distinct = subst (λ (xs : List ℕ). Distinct (holdings p ++ xs)) moved v.distinct;
          held = subst (λ (xs : List ℕ). All (IsHeld s.pb.packets) (holdings p ++ xs)) moved v.held;
          in_use = in_use.1;
          producer_ok = v.producer_ok;
          consumer_ok = (h, in_use.0);
        }

    taken-IsSound :
        (new action : PacketAction) (i : ℕ)
        → IsSound r laws (system_at r s p (taken action i))
        → IsSound r laws (
            system_at r
              (consumer_step r new (taken action i) s).1
              p
              (consumer_step r new (taken action i) s).0)
    unfolding consumer_step
    taken-IsSound new action i v = record {
      laid_out = write-IsLaidOut s.pb _ v.laid_out;
      places = v.places;
      distinct = v.distinct;
      held = v.held;
      in_use = v.in_use;
      producer_ok = v.producer_ok;
      consumer_ok = tt;
    }

    called-IsSound :
        (new : PacketAction) (i : ℕ) (ret : ℤ)
        → IsSound r laws (system_at r s p (called i ret))
        → IsSound r laws (
            system_at r
              (consumer_step r new (called i ret) s).1
              p
              (consumer_step r new (called i ret) s).0)
    unfolding consumer_step free
    called-IsSound new i ret v =
        let ring : List ℕ = laws.contents s.q in
        let same = set_used-SameBut false i s.pb.packets in
        let (absent, distinct) = Distinct-middle i (holdings p) ring v.distinct in
        let (of_p, of_ring) = Absent-split i (holdings p) ring absent in
        let (p_held, (i_held, ring_held)) =
          All-split (IsHeld s.pb.packets) (holdings p) (i ∷ ring) v.held in
        record {
          laid_out = free-IsLaidOut s.pb i v.laid_out;
          places = v.places;
          distinct = distinct;
          held =
              All-append _ (holdings p) ring
                (All-IsHeld-SameBut i s.pb.packets _ same _ of_p p_held)
                (All-IsHeld-SameBut i s.pb.packets _ same _ of_ring ring_held);
          in_use = All-InUse-SameBut i s.pb.packets _ same _ of_ring v.in_use;
          producer_ok = ProducerOk-SameBut i s.pb.packets _ same p i_held of_p v.producer_ok;
          consumer_ok = tt;
        }

    waits-IsSound :
        (new : PacketAction)
        → IsConfined new
        → IsSound r laws (system_at r s p waits)
        → IsSound r laws
            (system_at r (consumer_step r new waits s).1 p (consumer_step r new waits s).0)
    unfolding consumer_step popped
    waits-IsSound new h v = elim (try_pop-Taken r laws new s) [
      | inl (_, pops, _) ↦ rw (pops, popped) (count-IsSound r laws (system_at r s p waits) _ v)
      | inr (i, is, t, cs, ct, cap, pops, _) ↦
          rw (pops, popped) (popped-IsSound new i is t h cs ct cap v)
    ]

    consumer_step-IsSound :
        (new : PacketAction) (c : Consumer)
        → IsConfined new
        → IsSound r laws (system_at r s p c)
        → IsSound r laws (system_at r (consumer_step r new c s).1 p (consumer_step r new c s).0)
    consumer_step-IsSound new waits h v = waits-IsSound new h v
    consumer_step-IsSound new (taken action i) h v = taken-IsSound new action i v
    consumer_step-IsSound new (called i ret) h v = called-IsSound new i ret v

  pub turn-IsSound :
      (y : System r) (t : Turn) → TurnOk t → IsSound r laws y → IsSound r laws (turn r y t)
  unfolding turn get_statistic
  turn-IsSound y (producer new) h v = producer_step-IsSound y.popping y.queue new y.pushing h v
  turn-IsSound y (consumer new) h v = consumer_step-IsSound y.pushing y.queue new y.popping h v
  turn-IsSound y (collects now) h v = count-IsSound r laws y _ v

  -- Between the rounds the invariant is that of a valid queue, both ways.
  pub rest-IsSound :
      (s : PacketQueue r) (b : Option Bool)
      → IsValid r laws s
      → IsSound r laws (system_at r s (rests b) waits)
  rest-IsSound s b v = record {
    laid_out = v.laid_out;
    places = v.places;
    distinct = v.distinct;
    held =
        All-imp _ _ (laws.contents s.q)
          (λ i u. record { at = u.at; there = u.there; used = u.used }) v.in_use;
    in_use = v.in_use;
    producer_ok = tt;
    consumer_ok = tt;
  }

  pub rest-IsValid :
      (s : PacketQueue r) (b : Option Bool)
      → IsSound r laws (system_at r s (rests b) waits)
      → IsValid r laws s
  rest-IsValid s b v = record {
    laid_out = v.laid_out;
    places = v.places;
    distinct = v.distinct;
    in_use = v.in_use;
  }

  -- In every interleaving of the shared accesses of `push` and `pop`, from a valid queue and with
  -- actions that write within their packets, each packet of the two threads and of the ring has one
  -- owner and is marked as used.
  pub trace-IsSound :
      (y : System r) (ts : List Turn)
      → All TurnOk ts
      → IsSound r laws y
      → IsSound r laws (trace r y ts).last
  unfolding trace
  trace-IsSound y [] h v = v
  trace-IsSound y (t ∷ ts) h v = trace-IsSound (turn r y t) ts h.1 (turn-IsSound y t h.0 v)
