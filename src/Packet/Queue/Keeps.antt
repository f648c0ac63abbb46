-- ===== src/Packet/Queue/Keeps.antt =====
-- The calls of packet_queue.hpp keep its invariant.
use tunator.Prelude.{
  ℕ, zero, suc, ◌+◌, ◌*◌, ◌≤◌, ◌<◌, ◌≡◌, ◌≢◌, refl, sym, subst, ◌∙◌, ◌⊎◌, inl, inr, Bool, true,
  false, none, some, List, [], ◌∷◌, ◌++◌, pos, u64, get_elem?, get_or, modify_at, All, All-append,
  All-imp, All-and-Absent, Absent, Distinct, Distinct-concat, get_elem?-modify_at_self,
  get_elem?-modify_at_ne,
}
use tunator.Packet.Ring.{Ring, RingLaws}
use tunator.Packet.Buffer.{Packet, PacketBuffer, Memory, set_used, set_size, packet_size_of}
use tunator.Packet.Buffer.Layout.{IsLaidOut, buffer_init-IsLaidOut}
use tunator.Packet.Buffer.Alloc.{
  FirstUnused, set_used-IsLaidOut, set_size-IsLaidOut, free-IsLaidOut,
}
use tunator.Packet.Statistic.{PacketStatistic}
use tunator.Packet.Queue.{
  PacketAction, PacketQueue, packet_at, queue_init, try_push, try_pop, consume,
}
use tunator.Packet.Queue.Waits.{After}
use tunator.Packet.Queue.Valid.{
  IsConfined, InUse, IsValid, no_room, rejects, accepts, claimed, called, pushed, refused,
  unused-Absent, try_push-Outcome,
}

module _ (f : Packet → Packet) where
  InUse-modify_at_ne :
      (ps : List Packet) (i j : ℕ) → i ≢ j → InUse ps i → InUse (modify_at f j ps) i
  InUse-modify_at_ne ps i j ne u = record {
    at = u.at;
    there = get_elem?-modify_at_ne f j i ps (λ e. ne (sym e)) ∙ u.there;
    used = u.used;
    fits = u.fits;
  }

pub get_or_of_get {ℓ} :
    {A : Type ℓ} (xs : List A) (i : ℕ) (d : A) {x : A} → get_elem? xs i ≡ some x → get_or xs i d ≡ x
get_or_of_get [] i d e = cc
get_or_of_get (y ∷ ys) zero d e = cc
get_or_of_get (y ∷ ys) (suc i) d e = get_or_of_get ys i d e

-- A write to the memory leaves the layout.
pub write-IsLaidOut :
    (pb : PacketBuffer) (m : Memory) → IsLaidOut pb → IsLaidOut (record pb { buffer = m })
write-IsLaidOut pb m h = record { room = h.room; count = h.count; placed = h.placed }

-- The packet that `alloc` has marked, and again when its size is written.
pub get-set_used :
    (ps : List Packet) (j : ℕ) {p : Packet}
    → get_elem? ps j ≡ some p
    → get_elem? (set_used true j ps) j ≡ some (record p { used = true })
unfolding set_used
get-set_used ps j e = get_elem?-modify_at_self _ j ps e

pub get-set_size :
    (ps : List Packet) (j n : ℕ) {p : Packet}
    → get_elem? ps j ≡ some p
    → get_elem? (set_size n j ps) j ≡ some (record p { size = n })
unfolding set_size
get-set_size ps j n e = get_elem?-modify_at_self _ j ps e

InUse-set_used :
    (b : Bool) (ps : List Packet) (i j : ℕ) → i ≢ j → InUse ps i → InUse (set_used b j ps) i
unfolding set_used
InUse-set_used b ps i j ne u = InUse-modify_at_ne _ ps i j ne u

InUse-set_size :
    (n : ℕ) (ps : List Packet) (i j : ℕ) → i ≢ j → InUse ps i → InUse (set_size n j ps) i
unfolding set_size
InUse-set_size n ps i j ne u = InUse-modify_at_ne _ ps i j ne u

module _ (r : Ring) where
  pub called_packet :
      (s : PacketQueue r) (j : ℕ) (f : FirstUnused s.pb.packets j)
      → packet_at (claimed r s j).pb j ≡ record (f.at) { used = true }
  called_packet s j f =
      get_or_of_get (set_used true j s.pb.packets) j _ (get-set_used s.pb.packets j f.there)

module _ (r : Ring) (laws : RingLaws r) where
  module _ (action : PacketAction) (s : PacketQueue r) (j : ℕ) where
    report_fits :
        (n : ℕ) (f : FirstUnused s.pb.packets j)
        → IsConfined action
        → (called r action s j).0 ≡ pos n
        → n ≤ f.at.max_size
    report_fits n f c e =
        let p = packet_at (claimed r s j).pb j in
        let fits : n ≤ p.max_size = c.reports p s.pb.buffer n e in
        subst (λ (q : Packet). n ≤ q.max_size) (called_packet r s j f) fits

    pub pushed-IsValid :
        (n : ℕ) (t : r.State)
        → IsConfined action
        → IsValid r laws s
        → FirstUnused s.pb.packets j
        → (called r action s j).0 ≡ pos n
        → laws.contents t ≡ laws.contents s.q ++ j ∷ []
        → laws.capacity t ≡ laws.capacity s.q
        → IsValid r laws (pushed r action s j n t)
    pushed-IsValid n t c v f e ct cap = record {
      laid_out =
          set_size-IsLaidOut _ n j
            (set_used-IsLaidOut _ true j (write-IsLaidOut s.pb _ v.laid_out));
      places = cap ∙ v.places;
      distinct = rw ct (Distinct-concat j _ v.distinct absent);
      in_use = rw ct (
          All-append (InUse packets') _ _
            (All-imp _ _ _ keep (All-and-Absent _ j _ v.in_use absent)) (mine, tt));
    }
      where
        absent : Absent j (laws.contents s.q)
        absent = unused-Absent r laws s j v f

        packets' : List Packet
        packets' = set_size n j (set_used true j s.pb.packets)

        keep : (i : ℕ) → InUse s.pb.packets i × (i ≢ j) → InUse packets' i
        keep i (u, ne) = InUse-set_size n _ i j ne (InUse-set_used true _ i j ne u)

        mine : InUse packets' j
        mine = record {
          at = record (f.at) { used = true; size = n };
          there = get-set_size _ j n (get-set_used _ j f.there);
          used = refl;
          fits = report_fits n f c e;
        }

    pub refused-IsValid : IsValid r laws s → IsValid r laws (refused r action s j)
    refused-IsValid v = record {
      laid_out = write-IsLaidOut s.pb _ v.laid_out;
      places = v.places;
      distinct = v.distinct;
      in_use = v.in_use;
    }

  -- A change of the counters alone.
  pub count-IsValid :
      (s : PacketQueue r) (ps' : PacketStatistic)
      → IsValid r laws s
      → IsValid r laws (record s { ps = ps' })
  count-IsValid s ps' v = record {
    laid_out = v.laid_out;
    places = v.places;
    distinct = v.distinct;
    in_use = v.in_use;
  }

  pub try_push-IsValid :
      (action : PacketAction) (s : PacketQueue r)
      → IsConfined action
      → IsValid r laws s
      → After r (IsValid r laws) (try_push r action s)
  try_push-IsValid action s c v = elim (try_push-Outcome r laws action s v) [
    | no_room _ e ↦ rw e (count-IsValid s _ v)
    | rejects j f _ e ↦ rw e (refused-IsValid action s j v)
    | accepts j n t f good ct cap e ↦ rw e (pushed-IsValid action s j (suc n) t c v f good ct cap)
  ]

  pub consume-IsValid :
      (action : PacketAction) (s : PacketQueue r) (i : ℕ) (is : List ℕ) (t : r.State)
      → IsValid r laws s
      → laws.contents s.q ≡ i ∷ is
      → laws.contents t ≡ is
      → laws.capacity t ≡ laws.capacity s.q
      → IsValid r laws (consume r action i (record s { q = t }))
  unfolding consume
  consume-IsValid action s i is t v e ct cap = record {
    laid_out = free-IsLaidOut _ i (write-IsLaidOut s.pb _ v.laid_out);
    places = cap ∙ v.places;
    distinct = rw ct first_out.1;
    in_use = rw ct (All-imp _ _ is keep (All-and-Absent _ i is others.1 first_out.0));
  }
    where
      first_out : Distinct (i ∷ is)
      first_out = subst Distinct e v.distinct

      others : InUse s.pb.packets i × All (InUse s.pb.packets) is
      others = subst (All (InUse s.pb.packets)) e v.in_use

      keep : (k : ℕ) → InUse s.pb.packets k × (k ≢ i) → InUse (set_used false i s.pb.packets) k
      keep k (u, ne) = InUse-set_used false _ k i ne u

  -- A new queue is valid, if its memory can be addressed.
  pub queue_init-IsValid :
      (memory : Memory) (now mtu size block_wait : ℕ)
      → mtu + 8 < u64
      → size * packet_size_of mtu < u64
      → IsValid r laws (queue_init r memory now mtu size block_wait)
  unfolding queue_init
  queue_init-IsValid memory now mtu size block_wait small fits = record {
    laid_out = buffer_init-IsLaidOut memory mtu size small fits;
    places = laws.make-capacity size;
    distinct = rw (laws.make-contents size) tt;
    in_use = rw (laws.make-contents size) tt;
  }

  -- `pop` on an empty ring, and on one with a packet in front.
  abbrev pub Taken : PacketAction → PacketQueue r → Type 0
  Taken action s =
      ((laws.contents s.q ≡ []) × (r.pop s.q ≡ none) × (try_pop r action s ≡ none))
      ⊎ ((i : ℕ) × (is : List ℕ) × (t : r.State) × (laws.contents s.q ≡ i ∷ is)
          × (laws.contents t ≡ is)
          × (laws.capacity t ≡ laws.capacity s.q)
          × (r.pop s.q ≡ some (i, t))
          × (try_pop r action s ≡ some (consume r action i (record s { q = t }))))

  try_pop-contents :
      (action : PacketAction) (s : PacketQueue r) (xs : List ℕ)
      → laws.contents s.q ≡ xs
      → Taken action s
  unfolding try_pop
  try_pop-contents action s [] e =
      let pops = laws.pop_empty s.q e in inl (e, pops, rw (pops, try_pop))
  try_pop-contents action s (i ∷ is) e =
      let (t, pops, ct, cap) = laws.pop_first s.q i is e in
      inr (i, is, t, e, ct, cap, pops, rw (pops, try_pop))

  pub try_pop-Taken : (action : PacketAction) (s : PacketQueue r) → Taken action s
  try_pop-Taken action s = try_pop-contents action s (laws.contents s.q) refl

  pub try_pop-IsValid :
      (action : PacketAction) (s s' : PacketQueue r)
      → IsValid r laws s
      → try_pop r action s ≡ some s'
      → IsValid r laws s'
  try_pop-IsValid action s s' v e = elim (try_pop-Taken action s) [
    | inl (_, _, none_left) ↦ cc
    | inr (i, is, t, cs, ct, cap, _, taken) ↦
        let same : consume r action i (record s { q = t }) ≡ s' = cc in
        subst (IsValid r laws) same (consume-IsValid action s i is t v cs ct cap)
  ]
