-- ===== src/Packet/Queue/Steps/Alone.antt =====
-- A thread of packet_queue.hpp that is not interrupted does a whole round.
use tunator.Prelude.{
  ℕ, zero, suc, ◌+◌, ◌≤◌, ◌≡◌, refl, ap, ◌∙◌, Bool, true, false, Option, none, some, List, [], ◌∷◌,
  arith, ℤ, pos, negsuc, length, get_elem?,
}
use tunator.Packet.Ring.{Ring}
use tunator.Packet.Statistic.{inc_alloc_failed, inc_pop_empty}
use tunator.Packet.Buffer.{Packet, alloc, find_unused}
use tunator.Packet.Queue.{PacketAction, PacketQueue, try_push, try_pop, finish_push, act_on}
use tunator.Packet.Queue.Steps.{
  Producer, rests, scans, marks, acted, Consumer, waits, test_used, mark, judge, ended,
  producer_step, popped, consumer_step,
}

module _ (r : Ring) (action : PacketAction) where
  -- `k` turns of the producer in a row, and of the consumer.
  pushes_alone : ℕ → Producer × PacketQueue r → Producer × PacketQueue r
  unfolding producer_step
  pushes_alone zero z = z
  pushes_alone (suc k) z = pushes_alone k (producer_step r action z.0 z.1)

  pops_alone : ℕ → Consumer × PacketQueue r → Consumer × PacketQueue r
  unfolding consumer_step
  pops_alone zero z = z
  pops_alone (suc k) z = pops_alone k (consumer_step r action z.0 z.1)

  pushes_alone-add :
      (k m : ℕ) (z : Producer × PacketQueue r)
      → pushes_alone (k + m) z ≡ pushes_alone m (pushes_alone k z)
  unfolding pushes_alone
  pushes_alone-add zero m z =
      let same : zero + m ≡ m = omega arith in ap (λ (n : ℕ). pushes_alone n z) same
  pushes_alone-add (suc k) m z =
      let same : suc k + m ≡ suc (k + m) = omega arith in
      ap (λ (n : ℕ). pushes_alone n z) same ∙ pushes_alone-add k m (producer_step r action z.0 z.1)

  module _ (s : PacketQueue r) where
    -- Where the scan of `alloc` ends.
    scanned : Option ℕ → Producer × PacketQueue r
    scanned none = (rests none, record s { ps = inc_alloc_failed s.ps })
    scanned (some j) = (marks action j, s)

    abbrev ScansTo : ℕ → List Packet → Type 0
    ScansTo i ps =
        (k : ℕ) × (k ≤ length ps + 1)
        × (pushes_alone k (scans action i, s) ≡ scanned (find_unused i ps))

    skip_used :
        (i : ℕ) (p : Packet) (ps : List Packet) (b : Bool)
        → p.used ≡ b
        → get_elem? s.pb.packets i ≡ some p
        → ScansTo (i + 1) ps
        → ScansTo i (p ∷ ps)
    unfolding pushes_alone test_used find_unused scanned
    skip_used i p ps true u e (k, le, ih) =
        (suc k, omega arith, rw (e, test_used) (ground (arith, ih)))
    skip_used i p ps false u e h = (1, omega arith, rw (e, test_used) (ground arith))

    scans_to :
        (i : ℕ) (ps : List Packet)
        → ((m : ℕ) → get_elem? s.pb.packets (i + m) ≡ get_elem? ps m)
        → ScansTo i ps
    unfolding pushes_alone test_used find_unused scanned
    scans_to i [] h =
        let e : get_elem? s.pb.packets i ≡ none = ap (get_elem? s.pb.packets) (omega arith) ∙ h 0 in
        (1, omega arith, rw (e, test_used) refl)
    scans_to i (p ∷ ps) h =
        let e : get_elem? s.pb.packets i ≡ some p =
          ap (get_elem? s.pb.packets) (omega arith) ∙ h 0 in
        skip_used i p ps p.used refl e
          (scans_to (i + 1) ps (λ m. ap (get_elem? s.pb.packets) (omega arith) ∙ h (suc m)))

  -- From `ret > 0` on.
  judged :
      (i : ℕ) (ret : ℤ) (s : PacketQueue r)
      → (k : ℕ) × (k ≤ 2) × (pushes_alone k (acted i ret, s) ≡ ended r (finish_push r i ret s))
  unfolding pushes_alone judge finish_push
  judged i (pos (suc n)) s = (2, omega arith, refl)
  judged i (pos zero) s = (1, omega arith, refl)
  judged i (negsuc n) s = (1, omega arith, refl)

  -- From the mark on.
  marked :
      (j : ℕ) (s : PacketQueue r)
      → (k : ℕ) × (k ≤ 4)
        × (pushes_alone k (marks action j, s)
            ≡ ended r (
                finish_push r j
                  (act_on r action j (mark r j s)).0
                  (act_on r action j (mark r j s)).1))
  unfolding pushes_alone
  marked j s =
      let z = act_on r action j (mark r j s) in
      let (k, le, e) = judged j z.0 z.1 in (suc (suc k), omega arith, e)

  module _ (s : PacketQueue r) where
    from_scan :
        (found : Option ℕ)
        → find_unused 0 s.pb.packets ≡ found
        → (k : ℕ) × (k ≤ 4) × (pushes_alone k (scanned s found) ≡ ended r (try_push r action s))
    unfolding try_push mark scanned pushes_alone
    from_scan none e = (0, omega arith, rw (e, alloc) refl)
    from_scan (some j) e = let (k, le, same) = marked j s in (k, le, same ∙ rw (e, alloc) refl)

    -- A round of `push` that is not interrupted is `try_push`, in no more turns than there are packets,
    -- and six.
    try_push-alone :
        (b : Option Bool)
        → (k : ℕ) × (k ≤ length s.pb.packets + 6)
          × (pushes_alone k (rests b, s) ≡ ended r (try_push r action s))
    unfolding pushes_alone
    try_push-alone b =
        let (k, k_le, found) =
          scans_to s 0 s.pb.packets (λ m. ap (get_elem? s.pb.packets) (omega arith)) in
        let (m, m_le, ends) = from_scan (find_unused 0 s.pb.packets) refl in
        (
          suc (k + m),
          omega arith,
          pushes_alone-add k m (scans action 0, s) ∙ ap (pushes_alone m) found ∙ ends,
        )

    -- The turns of a round of `pop`, and the queue after it.
    pop_ends : Option (PacketQueue r) → ℕ × PacketQueue r
    pop_ends none = (1, record s { ps = inc_pop_empty s.ps })
    pop_ends (some s') = (3, s')

    popped_alone :
        (front : Option (ℕ × r.State))
        → r.pop s.q ≡ front
        → pops_alone (pop_ends (try_pop r action s)).0 (waits, s)
          ≡ (waits, (pop_ends (try_pop r action s)).1)
    unfolding try_pop pops_alone pop_ends
    popped_alone none e = rw (e, try_pop) (ap (λ (o : Option (ℕ × r.State)). popped r action o s) e)
    popped_alone (some (i, q')) e =
        rw (e, try_pop) (ap (λ (o : Option (ℕ × r.State)). pops_alone 2 (popped r action o s)) e)

  -- A thread that is not interrupted does a whole round: from its start, the turns of the producer
  -- come to the result of `try_push` and its state, in at most six turns more than there are
  -- packets; and the consumer's come to the state of `try_pop` in three turns, or, when it takes no
  -- packet, to the state with the empty ring counted in one turn.
  rounds_alone :
      (s : PacketQueue r) (b : Option Bool)
      → ((k : ℕ) × (k ≤ length s.pb.packets + 6)
          × (pushes_alone k (rests b, s) ≡ ended r (try_push r action s)))
        × (pops_alone (pop_ends s (try_pop r action s)).0 (waits, s)
            ≡ (waits, (pop_ends s (try_pop r action s)).1))
  rounds_alone s b = (try_push-alone s b, popped_alone s (r.pop s.q) refl)
