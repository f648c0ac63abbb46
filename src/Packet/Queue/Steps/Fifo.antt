-- ===== src/Packet/Queue/Steps/Fifo.antt =====
-- Every interleaving of the shared accesses of packet_queue.hpp keeps the order and the bytes.
use mathlib.Core.List.{map-append, append-nil, append_assoc}
use tunator.Prelude.{
  ℕ, suc, ◌+◌, ◌≡◌, refl, sym, ap, ap₂, subst, ◌∙◌, inl, inr, Bool, true, false, Option, none, some,
  List, [], ◌∷◌, ◌++◌, map, ℤ, zero, pos, negsuc, All, Absent, Absent-split, Distinct,
  Distinct-middle, if◌then◌else◌,
}
use tunator.Packet.Ring.{Ring, RingLaws}
use tunator.Packet.Buffer.{Packet, PacketBuffer, free}
use tunator.Packet.Queue.{PacketAction, PacketQueue, packet_at, act_on, get_statistic}
use tunator.Packet.Queue.Valid.{IsValid}
use tunator.Packet.Queue.Keeps.{try_pop-Taken}
use tunator.Packet.Queue.Fifo.{payload, view}
use tunator.Packet.Queue.Steps.{
  Producer, rests, scans, marks, holds, acted, sized, Consumer, waits, taken, called, System, Turn,
  producer, consumer, collects, test_used, mark, judge, producer_step, popped, consumer_step, turn,
  wrote, offers, delivers, trace,
}
use tunator.Packet.Queue.Steps.Apart.{
  IsApart, packets-IsApart, set_used-SameBut, set_size-SameBut, acts_on-IsApart,
}
use tunator.Packet.Queue.Steps.Invariant.{holdings, grip, TurnOk, system_at, IsSound, marks-IsSound}
use tunator.Packet.Queue.Steps.Sound.{sized_step, turn-IsSound, rest-IsSound}
use tunator.Packet.Queue.Steps.Flow.{
  incoming, outgoing, payloads-IsApart, outgoing-IsApart, incoming-IsApart, payload-set_size,
  incoming-wrote, in_flight,
}

module _ {ℓ} {A : Type ℓ} where
  append_last : (xs ys zs : List A) → xs ++ (ys ++ zs) ≡ (xs ++ (ys ++ [])) ++ zs
  append_last xs ys zs =
      ap (λ (us : List A). xs ++ (us ++ zs)) (sym (append-nil ys))
      ∙ sym (append_assoc xs (ys ++ []) zs)

  quietly : {xs ys : List A} → xs ≡ ys → xs ≡ ys ++ []
  quietly {xs} {ys} e = e ∙ sym (append-nil ys)

module _ (r : Ring) (laws : RingLaws r) where
  module _ (c : Consumer) (s : PacketQueue r) where
    -- A change of the producer's packet.
    around :
        (p : Producer) (k : ℕ) (pb' : PacketBuffer) (xs : List (List ℕ))
        → IsApart k s.pb pb'
        → Absent k (grip c ++ laws.contents s.q)
        → IsSound r laws (system_at r s p c)
        → outgoing pb' c ++ (map (payload pb') (laws.contents s.q) ++ xs)
          ≡ outgoing s.pb c ++ (view r laws s ++ xs)
    around p k pb' xs apart absent v =
        let (of_grip, of_ring) = Absent-split k (grip c) (laws.contents s.q) absent in
        ap₂ (λ (us vs : List (List ℕ)). us ++ (vs ++ xs))
          (outgoing-IsApart k s.pb pb' apart c of_grip v.consumer_ok)
          (payloads-IsApart k s.pb pb' apart (laws.contents s.q) of_ring v.in_use)

    found-in_flight :
        (action : PacketAction) (i : ℕ) (b : Bool)
        → in_flight r laws (system_at r s (if b then scans action (i + 1) else marks action i) c)
          ≡ in_flight r laws (system_at r s (scans action i) c)
    found-in_flight action i true = refl
    found-in_flight action i false = refl

    test_used-in_flight :
        (action : PacketAction) (i : ℕ) (o : Option Packet)
        → in_flight r laws (system_at r (test_used r action i o s).1 (test_used r action i o s).0 c)
          ≡ in_flight r laws (system_at r s (scans action i) c)
    unfolding test_used
    test_used-in_flight action i none = refl
    test_used-in_flight action i (some p) = found-in_flight action i p.used

    mark-in_flight :
        (action : PacketAction) (i : ℕ)
        → IsSound r laws (system_at r s (marks action i) c)
        → in_flight r laws (system_at r (mark r i s) (holds action i) c)
          ≡ in_flight r laws (system_at r s (marks action i) c)
    unfolding mark
    mark-in_flight action i v =
        around (marks action i) i _ []
          (packets-IsApart i s.pb _ (set_used-SameBut true i s.pb.packets))
          (marks-IsSound r laws c s action i v).distinct.0 v

    holds-in_flight :
        (action : PacketAction) (i : ℕ)
        → IsSound r laws (system_at r s (holds action i) c)
        → in_flight r laws (system_at r (act_on r action i s).1 (acted i (act_on r action i s).0) c)
          ≡ in_flight r laws (system_at r s (holds action i) c)
            ++ wrote r s i (action (packet_at s.pb i) s.pb.buffer)
    unfolding act_on
    holds-in_flight action i v =
        around (holds action i) i _ _
          (acts_on-IsApart action i s.pb v.producer_ok.outside v.laid_out v.held.0.there)
          v.distinct.0 v
        ∙ ap (λ (xs : List (List ℕ)). outgoing s.pb c ++ (view r laws s ++ xs))
            (incoming-wrote r s i (action (packet_at s.pb i) s.pb.buffer))
        ∙ append_last (outgoing s.pb c) (view r laws s) _

    free-in_flight :
        (i : ℕ) (ret : ℤ)
        → IsSound r laws (system_at r s (acted i ret) c)
        → outgoing (free i s.pb) c ++ (map (payload (free i s.pb)) (laws.contents s.q) ++ [])
          ≡ outgoing s.pb c ++ (view r laws s ++ [])
    unfolding free
    free-in_flight i ret v =
        around (acted i ret) i _ []
          (packets-IsApart i s.pb _ (set_used-SameBut false i s.pb.packets)) v.distinct.0 v

    judge-in_flight :
        (i : ℕ) (ret : ℤ)
        → IsSound r laws (system_at r s (acted i ret) c)
        → in_flight r laws (system_at r (judge r i ret s).1 (judge r i ret s).0 c)
          ≡ in_flight r laws (system_at r s (acted i ret) c)
    unfolding judge
    judge-in_flight i (pos (suc n)) v =
        around (acted i (pos (suc n))) i _ _
          (packets-IsApart i s.pb _ (set_size-SameBut (suc n) i s.pb.packets)) v.distinct.0 v
        ∙ ap (λ (x : List ℕ). outgoing s.pb c ++ (view r laws s ++ x ∷ []))
            (payload-set_size s.pb i (suc n) v.producer_ok.0.there)
    judge-in_flight i (pos zero) v = free-in_flight i (pos zero) v
    judge-in_flight i (negsuc n) v = free-in_flight i (negsuc n) v

    sized-in_flight :
        (new : PacketAction) (i : ℕ)
        → IsSound r laws (system_at r s (sized i) c)
        → in_flight r laws
            (system_at r (producer_step r new (sized i) s).1 (producer_step r new (sized i) s).0 c)
          ≡ in_flight r laws (system_at r s (sized i) c)
    sized-in_flight new i v =
        let (t, ct, cap, e) = sized_step r laws c s new i v in
        ap (λ (z : Producer × PacketQueue r). in_flight r laws (system_at r z.1 z.0 c)) e
        ∙ ap (λ (xs : List (List ℕ)). outgoing s.pb c ++ xs)
            (append-nil _
              ∙ ap (map (payload s.pb)) ct
              ∙ map-append (payload s.pb) (laws.contents s.q) (i ∷ []))

    abbrev ProducerBalances : PacketAction → Producer → Type 0
    ProducerBalances new p =
        in_flight r laws (system_at r (producer_step r new p s).1 (producer_step r new p s).0 c)
        ≡ in_flight r laws (system_at r s p c) ++ offers r (system_at r s p c) (producer new)

    producer_step-balances :
        (new : PacketAction) (p : Producer)
        → IsSound r laws (system_at r s p c)
        → ProducerBalances new p
    unfolding producer_step
    producer_step-balances new (rests b) v = quietly refl
    producer_step-balances new (scans action i) v = quietly (test_used-in_flight action i _)
    producer_step-balances new (marks action i) v = quietly (mark-in_flight action i v)
    producer_step-balances new (holds action i) v = holds-in_flight action i v
    producer_step-balances new (acted i ret) v = quietly (judge-in_flight i ret v)
    producer_step-balances new (sized i) v = quietly (sized-in_flight new i v)

  module _ (p : Producer) (s : PacketQueue r) where
    -- A change of the consumer's packet, which is under way no more.
    behind :
        (c : Consumer) (k : ℕ) (pb' : PacketBuffer)
        → grip c ≡ k ∷ []
        → IsApart k s.pb pb'
        → IsSound r laws (system_at r s p c)
        → map (payload pb') (laws.contents s.q) ++ incoming pb' p ≡ view r laws s ++ incoming s.pb p
    behind c k pb' e apart v =
        let ring : List ℕ = laws.contents s.q in
        let distinct =
          subst (λ (xs : List ℕ). Distinct (holdings p ++ (xs ++ ring))) e v.distinct in
        let (of_p, of_ring) =
          Absent-split k (holdings p) ring (Distinct-middle k (holdings p) ring distinct).0 in
        ap₂ ◌++◌ (payloads-IsApart k s.pb pb' apart ring of_ring v.in_use)
          (incoming-IsApart k s.pb pb' apart p of_p v.producer_ok)

    abbrev ConsumerBalances : PacketAction → Consumer → Type 0
    ConsumerBalances new c =
        delivers r (system_at r s p c) (consumer new)
          ++ in_flight r laws
              (system_at r (consumer_step r new c s).1 p (consumer_step r new c s).0)
        ≡ in_flight r laws (system_at r s p c)

    waits-balances : (new : PacketAction) → ConsumerBalances new waits
    unfolding consumer_step popped
    waits-balances new = elim (try_pop-Taken r laws new s) [
      | inl (_, pops, _) ↦ rw (pops, popped) refl
      | inr (i, is, t, cs, ct, cap, pops, _) ↦
          rw (pops, popped)
            (ap (λ (xs : List ℕ). map (payload s.pb) xs ++ incoming s.pb p)
              (ap (◌∷◌ i) ct ∙ sym cs))
    ]

    taken-balances :
        (new action : PacketAction) (i : ℕ)
        → IsSound r laws (system_at r s p (taken action i))
        → ConsumerBalances new (taken action i)
    unfolding consumer_step act_on
    taken-balances new action i v = ap (◌∷◌ (payload s.pb i)) (
        behind (taken action i) i _ refl
          (acts_on-IsApart action i s.pb v.consumer_ok.0.outside v.laid_out v.consumer_ok.1.there)
          v)

    called-balances :
        (new : PacketAction) (i : ℕ) (ret : ℤ)
        → IsSound r laws (system_at r s p (called i ret))
        → ConsumerBalances new (called i ret)
    unfolding consumer_step free
    called-balances new i ret v =
        behind (called i ret) i _ refl
          (packets-IsApart i s.pb _ (set_used-SameBut false i s.pb.packets)) v

    consumer_step-balances :
        (new : PacketAction) (c : Consumer)
        → IsSound r laws (system_at r s p c)
        → ConsumerBalances new c
    consumer_step-balances new waits v = waits-balances new
    consumer_step-balances new (taken action i) v = taken-balances new action i v
    consumer_step-balances new (called i ret) v = called-balances new i ret v

  turn-balances :
      (y : System r) (t : Turn)
      → IsSound r laws y
      → delivers r y t ++ in_flight r laws (turn r y t) ≡ in_flight r laws y ++ offers r y t
  unfolding turn get_statistic
  turn-balances y (producer new) v = producer_step-balances y.popping y.queue new y.pushing v
  turn-balances y (consumer new) v =
      quietly (consumer_step-balances y.pushing y.queue new y.popping v)
  turn-balances y (collects now) v = quietly refl

  trace-balances :
      (y : System r) (ts : List Turn)
      → All TurnOk ts
      → IsSound r laws y
      → (trace r y ts).delivered ++ in_flight r laws (trace r y ts).last
        ≡ in_flight r laws y ++ (trace r y ts).offered
  unfolding trace
  trace-balances y [] h v = quietly refl
  trace-balances y (t ∷ ts) h v =
      let z = turn r y t in
      append_assoc (delivers r y t) _ _
      ∙ ap (◌++◌ (delivers r y t)) (trace-balances z ts h.1 (turn-IsSound r laws y t h.0 v))
      ∙ sym (append_assoc (delivers r y t) _ _)
      ∙ ap (λ xs. xs ++ (trace r z ts).offered) (turn-balances y t v)
      ∙ append_assoc (in_flight r laws y) _ _

  -- In every interleaving of the single shared accesses of `push` and `pop`, and of the collection
  -- of statistics, from a valid queue between two rounds and with actions that write within their
  -- packets: what the consumer's actions were given, followed by what is under way at the end (the
  -- packet that the consumer has taken, the ring, the packet that the producer has yet to push), is
  -- what was queued at the start, followed by what the producer's actions wrote, in order and byte
  -- for byte.
  pub trace_fifo :
      (s : PacketQueue r) (ts : List Turn)
      → All TurnOk ts
      → IsValid r laws s
      → (trace r (system_at r s (rests none) waits) ts).delivered
          ++ in_flight r laws (trace r (system_at r s (rests none) waits) ts).last
        ≡ view r laws s ++ (trace r (system_at r s (rests none) waits) ts).offered
  trace_fifo s ts h v =
      let y = system_at r s (rests none) waits in
      trace-balances y ts h (rest-IsSound r laws s none v)
      ∙ ap (λ xs. xs ++ (trace r y ts).offered) (append-nil (view r laws s))
