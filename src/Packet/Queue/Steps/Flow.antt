-- ===== src/Packet/Queue/Steps/Flow.antt =====
-- What a step of packet_queue.hpp leaves of the bytes under way in a queue.
use tunator.Prelude.{
  ℕ, suc, ◌≡◌, ◌≢◌, refl, sym, ap, ◌∙◌, List, [], ◌∷◌, ◌++◌, map, ℤ, zero, pos, negsuc, get_elem?,
  some, All, All-imp, All-and-Absent, Absent, map-eq_of_All,
}
use tunator.Packet.Ring.{Ring, RingLaws}
use tunator.Packet.Buffer.{Packet, PacketBuffer, Memory, read_bytes, set_size}
use tunator.Packet.Queue.{PacketQueue}
use tunator.Packet.Queue.Valid.{InUse}
use tunator.Packet.Queue.Keeps.{get_or_of_get, get-set_size}
use tunator.Packet.Queue.Fifo.{bytes_of, payload, view}
use tunator.Packet.Queue.Steps.{
  Producer, rests, scans, marks, holds, acted, sized, Consumer, waits, taken, called, System, wrote,
}
use tunator.Packet.Queue.Steps.Apart.{IsApart, bytes_at, read-IsApart}
use tunator.Packet.Queue.Steps.Invariant.{holdings, grip, ProducerOk, ConsumerOk}

-- What the producer has yet to push.
abbrev pub incoming : PacketBuffer → Producer → List (List ℕ)
incoming pb (acted i (pos (suc n))) = bytes_at pb i (suc n) ∷ []
incoming pb (acted i (pos zero)) = []
incoming pb (acted i (negsuc n)) = []
incoming pb (sized i) = payload pb i ∷ []
incoming pb (rests b) = []
incoming pb (scans action i) = []
incoming pb (marks action i) = []
incoming pb (holds action i) = []

-- What the consumer has yet to give to its action.
abbrev pub outgoing : PacketBuffer → Consumer → List (List ℕ)
outgoing pb waits = []
outgoing pb (taken action i) = payload pb i ∷ []
outgoing pb (called i ret) = []

module _ (k : ℕ) (pb pb' : PacketBuffer) (apart : IsApart k pb pb') where
  payload-IsApart : (i : ℕ) → InUse pb.packets i × (i ≢ k) → payload pb' i ≡ payload pb i
  payload-IsApart i (u, ne) = read-IsApart k pb pb' i (λ p. p.size) u.at apart ne u.there u.fits

  pub payloads-IsApart :
      (xs : List ℕ)
      → Absent k xs
      → All (InUse pb.packets) xs
      → map (payload pb') xs ≡ map (payload pb) xs
  payloads-IsApart xs absent h =
      map-eq_of_All _ _ xs
        (All-imp _ _ xs payload-IsApart (All-and-Absent (InUse pb.packets) k xs h absent))

  pub outgoing-IsApart :
      (c : Consumer) → Absent k (grip c) → ConsumerOk pb.packets c → outgoing pb' c ≡ outgoing pb c
  outgoing-IsApart waits a h = refl
  outgoing-IsApart (taken action i) a h = ap (λ (x : List ℕ). x ∷ []) (payload-IsApart i (h.1, a.0))
  outgoing-IsApart (called i ret) a h = refl

  pub incoming-IsApart :
      (p : Producer)
      → Absent k (holdings p)
      → ProducerOk pb.packets p
      → incoming pb' p ≡ incoming pb p
  incoming-IsApart (acted i (pos (suc n))) a h =
      let (g, fits) = h in
      ap (λ (x : List ℕ). x ∷ [])
        (read-IsApart k pb pb' i (λ p. suc n) g.at apart a.0 g.there (fits (suc n) refl))
  incoming-IsApart (acted i (pos zero)) a h = refl
  incoming-IsApart (acted i (negsuc n)) a h = refl
  incoming-IsApart (sized i) a h = ap (λ (x : List ℕ). x ∷ []) (payload-IsApart i (h, a.0))
  incoming-IsApart (rests b) a h = refl
  incoming-IsApart (scans action i) a h = refl
  incoming-IsApart (marks action i) a h = refl
  incoming-IsApart (holds action i) a h = refl

-- The bytes that the action wrote are those of the packet when its size is set.
pub payload-set_size :
    (pb : PacketBuffer) (i n : ℕ) {p : Packet}
    → get_elem? pb.packets i ≡ some p
    → payload (record pb { packets = set_size n i pb.packets }) i ≡ bytes_at pb i n
payload-set_size pb i n there =
    ap (λ (x : Packet). bytes_of pb.buffer x)
      (get_or_of_get _ i _ (get-set_size pb.packets i n there))
    ∙ sym (ap (λ (x : Packet). read_bytes pb.buffer x.buf n) (get_or_of_get pb.packets i _ there))

module _ (r : Ring) where
  pub incoming-wrote :
      (s : PacketQueue r) (i : ℕ) (z : ℤ × Memory)
      → incoming (record (s.pb) { buffer = z.1 }) (acted i z.0) ≡ wrote r s i z
  incoming-wrote s i (pos (suc n), memory) = refl
  incoming-wrote s i (pos zero, memory) = refl
  incoming-wrote s i (negsuc n, memory) = refl

module _ (r : Ring) (laws : RingLaws r) where
  -- The bytes under way: the consumer's packet, the ring from front to back, the producer's packet.
  abbrev pub in_flight : System r → List (List ℕ)
  in_flight y =
      outgoing y.queue.pb y.popping ++ (view r laws y.queue ++ incoming y.queue.pb y.pushing)
