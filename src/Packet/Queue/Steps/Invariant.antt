-- ===== src/Packet/Queue/Steps/Invariant.antt =====
-- The invariant of packet_queue.hpp between any two shared accesses: who owns which packet.
use tunator.Prelude.{
  ℕ, suc, ◌≤◌, ◌≡◌, ◌≢◌, refl, ap, subst, ◌∙◌, Bool, true, false, some, List, [], ◌∷◌, ◌++◌, ℤ,
  zero, pos, negsuc, get_elem?, All, Absent, Absent-of-All, Absent-split, Distinct,
}
use tunator.Packet.Ring.{Ring, RingLaws}
use tunator.Packet.Statistic.{PacketStatistic}
use tunator.Packet.Buffer.{Packet, free}
use tunator.Packet.Buffer.Layout.{IsLaidOut}
use tunator.Packet.Buffer.Alloc.{set_used-IsLaidOut, set_size-IsLaidOut}
use tunator.Packet.Queue.{PacketAction, PacketQueue, packet_at, act_on}
use tunator.Packet.Queue.Valid.{IsConfined, InUse}
use tunator.Packet.Queue.Keeps.{get_or_of_get, get-set_used, get-set_size, write-IsLaidOut}
use tunator.Packet.Queue.Steps.{
  Producer, rests, scans, marks, holds, acted, sized, Consumer, waits, taken, called, System, Turn,
  producer, consumer, collects, mark, judge,
}
use tunator.Packet.Queue.Steps.Apart.{
  IsHeld, SameBut, set_used-SameBut, set_size-SameBut, InUse-SameBut, All-IsHeld-SameBut,
  All-InUse-SameBut,
}

-- The packets that a thread owns.
abbrev pub holdings : Producer → List ℕ
holdings (holds action i) = i ∷ []
holdings (acted i ret) = i ∷ []
holdings (sized i) = i ∷ []
holdings (rests b) = []
holdings (scans action i) = []
holdings (marks action i) = []

abbrev pub grip : Consumer → List ℕ
grip waits = []
grip (taken action i) = i ∷ []
grip (called i ret) = i ∷ []

abbrev IsUnused : List Packet → ℕ → Type 0
IsUnused ps i = (p : Packet) × (get_elem? ps i ≡ some p) × (p.used ≡ false)

-- What a thread's local variables say about the packets.
abbrev pub ProducerOk : List Packet → Producer → Type 0
ProducerOk ps (rests b) = Unit {0}
ProducerOk ps (scans action i) = IsConfined action
ProducerOk ps (marks action i) = IsConfined action × IsUnused ps i
ProducerOk ps (holds action i) = IsConfined action
ProducerOk ps (acted i ret) = (h : IsHeld ps i) × ((n : ℕ) → ret ≡ pos n → n ≤ h.at.max_size)
ProducerOk ps (sized i) = InUse ps i

abbrev pub ConsumerOk : List Packet → Consumer → Type 0
ConsumerOk ps waits = Unit {0}
ConsumerOk ps (taken action i) = IsConfined action × InUse ps i
ConsumerOk ps (called i ret) = Unit {0}

-- The action of a thread that begins a round.
abbrev pub TurnOk : Turn → Type 0
TurnOk (producer action) = IsConfined action
TurnOk (consumer action) = IsConfined action
TurnOk (collects now) = Unit {0}

module _ (r : Ring) where
  abbrev pub system_at : PacketQueue r → Producer → Consumer → System r
  system_at s p c = record { queue = s; pushing = p; popping = c }

module _ (k : ℕ) (ps ps' : List Packet) (same : SameBut k ps ps') where
  ConsumerOk-SameBut : (c : Consumer) → Absent k (grip c) → ConsumerOk ps c → ConsumerOk ps' c
  ConsumerOk-SameBut waits a h = tt
  ConsumerOk-SameBut (taken action i) a h = (h.0, InUse-SameBut k ps ps' same i (h.1, a.0))
  ConsumerOk-SameBut (called i ret) a h = tt

  -- A packet that is in use is not one that is about to be marked.
  pub ProducerOk-SameBut :
      (p : Producer) → IsHeld ps k → Absent k (holdings p) → ProducerOk ps p → ProducerOk ps' p
  ProducerOk-SameBut (rests b) g a h = tt
  ProducerOk-SameBut (scans action i) g a h = h
  ProducerOk-SameBut (marks action i) g a (c, (q, there, unused)) =
      (c, (q, same i differs ∙ there, unused))
    where
      differs : i ≢ k
      differs e =
          let eq : g.at ≡ q = cc (g.there, there, e) in
          cc (g.used, unused, ap (λ (p : Packet). p.used) eq)
  ProducerOk-SameBut (holds action i) g a h = h
  ProducerOk-SameBut (acted i ret) k_held a h =
      let (g, fits) = h in (record { at = g.at; there = same i a.0 ∙ g.there; used = g.used }, fits)
  ProducerOk-SameBut (sized i) g a h = InUse-SameBut k ps ps' same i (h, a.0)

module _ (r : Ring) (laws : RingLaws r) where
  -- Every packet that a thread or the ring has is marked as used, and has one owner.
  pub record IsSound (y : System r) : Type 0 where
    pub laid_out : IsLaidOut y.queue.pb
    pub places : laws.capacity y.queue.q ≡ y.queue.pb.size
    pub distinct : Distinct (holdings y.pushing ++ (grip y.popping ++ laws.contents y.queue.q))
    pub held :
        All
          (IsHeld y.queue.pb.packets)
          (holdings y.pushing ++ (grip y.popping ++ laws.contents y.queue.q))
    pub in_use : All (InUse y.queue.pb.packets) (laws.contents y.queue.q)
    pub producer_ok : ProducerOk y.queue.pb.packets y.pushing
    pub consumer_ok : ConsumerOk y.queue.pb.packets y.popping

  pub count-IsSound :
      (y : System r) (ps' : PacketStatistic)
      → IsSound y
      → IsSound (record y { queue = record (y.queue) { ps = ps' } })
  count-IsSound y ps' v = record {
    laid_out = v.laid_out;
    places = v.places;
    distinct = v.distinct;
    held = v.held;
    in_use = v.in_use;
    producer_ok = v.producer_ok;
    consumer_ok = v.consumer_ok;
  }

  -- What a change of the packet at `k` leaves of the consumer and the ring.
  module _ (c : Consumer) (s : PacketQueue r) (k : ℕ) (ps' : List Packet)
      (same : SameBut k s.pb.packets ps') where
    abbrev Kept : Type 0
    Kept =
        All (IsHeld ps') (grip c ++ laws.contents s.q)
        × All (InUse ps') (laws.contents s.q)
        × ConsumerOk ps' c

    kept :
        Absent k (grip c ++ laws.contents s.q)
        → All (IsHeld s.pb.packets) (grip c ++ laws.contents s.q)
        → All (InUse s.pb.packets) (laws.contents s.q)
        → ConsumerOk s.pb.packets c
        → Kept
    kept absent held in_use ok =
        let (of_grip, of_ring) = Absent-split k (grip c) (laws.contents s.q) absent in
        (
          All-IsHeld-SameBut k s.pb.packets ps' same _ absent held,
          All-InUse-SameBut k s.pb.packets ps' same _ of_ring in_use,
          ConsumerOk-SameBut k s.pb.packets ps' same c of_grip ok,
        )

  module _ (c : Consumer) (s : PacketQueue r) where
    pub marks-IsSound :
        (action : PacketAction) (i : ℕ)
        → IsSound (system_at r s (marks action i) c)
        → IsSound (system_at r (mark r i s) (holds action i) c)
    unfolding mark
    marks-IsSound action i v =
        let (confined, (p, there, unused)) = v.producer_ok in
        let absent : Absent i (grip c ++ laws.contents s.q) =
          Absent-of-All (IsHeld s.pb.packets) i _ v.held (λ k h e.
            let eq : h.at ≡ p = cc (h.there, there, e) in
            cc (h.used, unused, ap (λ (q : Packet). q.used) eq)) in
        let (held, in_use, ok) =
          kept c s i _ (set_used-SameBut true i s.pb.packets) absent v.held v.in_use
            v.consumer_ok in
        record {
          laid_out = set_used-IsLaidOut s.pb true i v.laid_out;
          places = v.places;
          distinct = (absent, v.distinct);
          held = (
            record {
              at = record p { used = true };
              there = get-set_used s.pb.packets i there;
              used = refl;
            },
            held,
          );
          in_use = in_use;
          producer_ok = confined;
          consumer_ok = ok;
        }

    pub holds-IsSound :
        (action : PacketAction) (i : ℕ)
        → IsSound (system_at r s (holds action i) c)
        → IsSound (system_at r (act_on r action i s).1 (acted i (act_on r action i s).0) c)
    unfolding act_on
    holds-IsSound action i v = record {
      laid_out = write-IsLaidOut s.pb _ v.laid_out;
      places = v.places;
      distinct = v.distinct;
      held = v.held;
      in_use = v.in_use;
      producer_ok = (
        v.held.0,
        λ n e.
            subst (λ (p : Packet). n ≤ p.max_size) (get_or_of_get s.pb.packets i _ v.held.0.there)
              (v.producer_ok.reports (packet_at s.pb i) s.pb.buffer n e),
      );
      consumer_ok = v.consumer_ok;
    }

    free-IsSound :
        (i : ℕ) (ret : ℤ) (b : Bool) (ps' : PacketStatistic)
        → IsSound (system_at r s (acted i ret) c)
        → IsSound (system_at r (record s { pb = free i s.pb; ps = ps' }) (rests (some b)) c)
    unfolding free
    free-IsSound i ret b ps' v =
        let (held, in_use, ok) =
          kept c s i _ (set_used-SameBut false i s.pb.packets) v.distinct.0 v.held.1 v.in_use
            v.consumer_ok in
        record {
          laid_out = set_used-IsLaidOut s.pb false i v.laid_out;
          places = v.places;
          distinct = v.distinct.1;
          held = held;
          in_use = in_use;
          producer_ok = tt;
          consumer_ok = ok;
        }

    pub judge-IsSound :
        (i : ℕ) (ret : ℤ)
        → IsSound (system_at r s (acted i ret) c)
        → IsSound (system_at r (judge r i ret s).1 (judge r i ret s).0 c)
    unfolding judge
    judge-IsSound i (pos (suc n)) v =
        let (held, in_use, ok) =
          kept c s i _ (set_size-SameBut (suc n) i s.pb.packets) v.distinct.0 v.held.1 v.in_use
            v.consumer_ok in
        let h = v.producer_ok.0 in
        let there = get-set_size s.pb.packets i (suc n) h.there in
        record {
          laid_out = set_size-IsLaidOut s.pb (suc n) i v.laid_out;
          places = v.places;
          distinct = v.distinct;
          held =
              (record { at = record (h.at) { size = suc n }; there = there; used = h.used }, held);
          in_use = in_use;
          producer_ok = record {
            at = record (h.at) { size = suc n };
            there = there;
            used = h.used;
            fits = v.producer_ok.1 (suc n) refl;
          };
          consumer_ok = ok;
        }
    judge-IsSound i (pos zero) v = free-IsSound i (pos zero) false _ v
    judge-IsSound i (negsuc n) v = free-IsSound i (negsuc n) false _ v
