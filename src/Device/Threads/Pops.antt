-- ===== src/Device/Threads/Pops.antt =====
-- Pops: a round of a thread that takes packets from a queue, and where the packets go.
use tunator.Prelude.{◌≡◌, refl, sym, ap, ◌∙◌, inl, inr, List, [], ◌∷◌, map, some}
use tunator.Text.{Text}
use tunator.Packet.Ring.{Ring, RingLaws}
use tunator.Packet.Queue.{PacketQueue, consume}
use tunator.Packet.Queue.Valid.{IsValid}
use tunator.Packet.Queue.Keeps.{try_pop-Taken, consume-IsValid}
use tunator.Packet.Queue.Fifo.{view, view-consume, payload}
use tunator.Device.Threads.{Sink, reading, front, pop_into}

module _ (r : Ring) (laws : RingLaws r) {E : Type 0} (act : Sink E) where
  -- A round of a thread takes the oldest packet from a valid queue, and what it acts on sees just
  -- the bytes of that packet; the queue is left valid with the packets behind it.
  pub pop_into_lem :
      (s : PacketQueue r) (e : E) (x : Text) (xs : List Text)
      → IsValid r laws s
      → view r laws s ≡ x ∷ xs
      → (s' : PacketQueue r) × (pop_into r act s e ≡ some (s', (act e x).1))
        × (view r laws s' ≡ xs)
        × IsValid r laws s'
  unfolding pop_into
  pop_into_lem s e x xs v full = elim (try_pop-Taken r laws (reading act e) s) [
    | inl (empty, _, _) ↦
        let none_left : x ∷ xs ≡ [] = sym full ∙ ap (map (payload s.pb)) empty in cc
    | inr (i, is, t, cs, ct, cap', pops, took) ↦
        let both : payload s.pb i ∷ map (payload s.pb) is ≡ x ∷ xs =
          sym (ap (map (payload s.pb)) cs) ∙ full in
        let first : front r s ≡ x = rw (pops, front) (cc) in
        (
          consume r (reading act e) i (record s { q = t }),
          rw (took, pop_into, first) refl,
          view-consume r laws (reading act e) s i is t (λ p m a h. unfold reading in refl) v cs ct
              ∙ cc,
          consume-IsValid r laws (reading act e) s i is t v cs ct cap',
        )
  ]
