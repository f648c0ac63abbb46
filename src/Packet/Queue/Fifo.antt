-- ===== src/Packet/Queue/Fifo.antt =====
-- packet_queue.hpp as a queue of byte strings, first in first out.
use mathlib.Core.List.{map-append}
use tunator.Prelude.{
  ℕ, suc, ◌+◌, ◌≤◌, ◌<◌, ◌≡◌, ◌≢◌, refl, sym, ap, ap₂, subst, ◌∙◌, inl, inr, Bool, true, false,
  Option, none, some, List, [], ◌∷◌, ◌++◌, map, arith, pos, get_elem?, All, All-imp, All-and-Absent,
  Distinct, map-eq_of_All, get_elem?-modify_at_ne,
}
use tunator.Packet.Buffer.Bytes.{read_bytes-same}
use tunator.Packet.Ring.{Ring, RingLaws}
use tunator.Packet.Buffer.{read_bytes, Packet, PacketBuffer, Memory, set_used, set_size, free}
use tunator.Packet.Buffer.Layout.{IsLaidOut, packets_disjoint}
use tunator.Packet.Buffer.Alloc.{FirstUnused, AllUsed}
use tunator.Packet.Queue.{
  PacketAction, PacketQueue, Attempt, returned, no_packet, packet_at, try_push, try_pop, consume,
}
use tunator.Packet.Queue.Valid.{
  IsConfined, WritesInside, InUse, IsValid, no_room, rejects, accepts, called, pushed, refused,
  unused-Absent, try_push-Outcome,
}
use tunator.Packet.Queue.Keeps.{
  called_packet, get_or_of_get, get-set_used, get-set_size, try_pop-Taken,
}

-- The bytes that a packet holds.
abbrev pub bytes_of : Memory → Packet → List ℕ
bytes_of m p = read_bytes m p.buf p.size

abbrev pub payload : PacketBuffer → ℕ → List ℕ
payload pb i = bytes_of pb.buffer (packet_at pb i)

pub get-set_used_ne :
    (b : Bool) (ps : List Packet) (i j : ℕ) → i ≢ j → get_elem? (set_used b j ps) i ≡ get_elem? ps i
unfolding set_used
get-set_used_ne b ps i j ne = get_elem?-modify_at_ne _ j i ps (λ e. ne (sym e))

pub get-set_size_ne :
    (n : ℕ) (ps : List Packet) (i j : ℕ) → i ≢ j → get_elem? (set_size n j ps) i ≡ get_elem? ps i
unfolding set_size
get-set_size_ne n ps i j ne = get_elem?-modify_at_ne _ j i ps (λ e. ne (sym e))

-- An action on the packet at `j` leaves the bytes that another packet holds alone.
pub confined_memory :
    (action : PacketAction)
    → WritesInside action
    → (pb : PacketBuffer) → IsLaidOut pb
    → (i j : ℕ) (u : InUse pb.packets i) (p q : Packet) → get_elem? pb.packets j ≡ some p
    → q.buf ≡ p.buf
    → q.max_size ≡ p.max_size
    → i ≢ j
    → (k : ℕ) → u.at.buf ≤ k
    → k < u.at.buf + u.at.size
    → (action q pb.buffer).1 k ≡ pb.buffer k
confined_memory action c pb h i j u p q there eb em ne k lo hi =
    c q pb.buffer k (omega (arith, u.fits, (packets_disjoint pb i j u.at p h u.there there ne).0))

module _ (r : Ring) (laws : RingLaws r) where
  -- What is queued, oldest first.
  abbrev pub view : PacketQueue r → List (List ℕ)
  view s = map (payload s.pb) (laws.contents s.q)

  module _ (action : PacketAction) (c : IsConfined action) (s : PacketQueue r) (j : ℕ)
      (v : IsValid r laws s) (f : FirstUnused s.pb.packets j) where
    called_memory :
        (i : ℕ) (u : InUse s.pb.packets i) (k : ℕ)
        → i ≢ j
        → u.at.buf ≤ k
        → k < u.at.buf + u.at.size
        → (called r action s j).1 k ≡ s.pb.buffer k
    called_memory i u k ne lo hi =
        subst (λ q. (action q s.pb.buffer).1 k ≡ s.pb.buffer k) (sym (called_packet r s j f))
          (confined_memory action c.outside s.pb v.laid_out i j u f.at
            (record (f.at) { used = true }) f.there refl refl ne k lo hi)

    abbrev written : ℕ → List ℕ
    written n = read_bytes (called r action s j).1 f.at.buf n

    payload-pushed_ne :
        (n : ℕ) (t : r.State) (i : ℕ)
        → InUse s.pb.packets i × (i ≢ j)
        → payload s.pb i ≡ payload (pushed r action s j n t).pb i
    payload-pushed_ne n t i (u, ne) =
        ap (bytes_of s.pb.buffer) (get_or_of_get s.pb.packets i _ u.there)
        ∙ read_bytes-same s.pb.buffer _ u.at.buf u.at.size
            (λ k lo hi. sym (called_memory i u k ne lo hi))
        ∙ sym (
            ap (bytes_of (called r action s j).1) (
              get_or_of_get _ i _
                (get-set_size_ne n _ i j ne ∙ get-set_used_ne true s.pb.packets i j ne ∙ u.there)))

    payload-pushed_self : (n : ℕ) (t : r.State) → payload (pushed r action s j n t).pb j ≡ written n
    payload-pushed_self n t =
        ap (bytes_of (called r action s j).1)
          (get_or_of_get _ j _ (get-set_size _ j n (get-set_used s.pb.packets j f.there)))

    view-pushed :
        (n : ℕ) (t : r.State)
        → laws.contents t ≡ laws.contents s.q ++ j ∷ []
        → view (pushed r action s j n t) ≡ view s ++ written n ∷ []
    view-pushed n t ct = rw ct (
        map-append _ (laws.contents s.q) (j ∷ [])
        ∙ ap₂ (λ xs x. xs ++ x ∷ [])
            (sym (
              map-eq_of_All _ _ _ (
                All-imp _ _ _ (payload-pushed_ne n t)
                  (All-and-Absent _ j _ v.in_use (unused-Absent r laws s j v f)))))
            (payload-pushed_self n t))

  -- What a round of `push` does to what is queued.
  abbrev pub PushSpec : PacketAction → PacketQueue r → Attempt r → Type 0
  PushSpec action s (no_packet s') =
      AllUsed s.pb.packets × (view s' ≡ view s) × (s'.pb.packets ≡ s.pb.packets)
  PushSpec action s (returned false s') =
      (j : ℕ) × FirstUnused s.pb.packets j
      × ((n : ℕ) → (called r action s j).0 ≢ pos (suc n))
      × (view s' ≡ view s)
      × (s'.pb.packets ≡ s.pb.packets)
  PushSpec action s (returned true s') =
      (j : ℕ) × (n : ℕ) × (f : FirstUnused s.pb.packets j) × ((called r action s j).0 ≡ pos (suc n))
      × (view s' ≡ view s ++ read_bytes (called r action s j).1 f.at.buf (suc n) ∷ [])

  view-refused :
      (action : PacketAction) (s : PacketQueue r) (j : ℕ)
      → IsConfined action
      → IsValid r laws s
      → FirstUnused s.pb.packets j
      → view (refused r action s j) ≡ view s
  view-refused action s j c v f = sym (
      map-eq_of_All _ _ _
        (All-imp _ _ _ same (All-and-Absent _ j _ v.in_use (unused-Absent r laws s j v f))))
    where
      same :
          (i : ℕ)
          → InUse s.pb.packets i × (i ≢ j)
          → payload s.pb i ≡ payload (refused r action s j).pb i
      same i (u, ne) =
          ap (bytes_of s.pb.buffer) (get_or_of_get s.pb.packets i _ u.there)
          ∙ read_bytes-same s.pb.buffer _ u.at.buf u.at.size
              (λ k lo hi. sym (called_memory action c s j v f i u k ne lo hi))
          ∙ sym (ap (bytes_of (called r action s j).1) (get_or_of_get _ i _ u.there))

  -- A round of `push` on a valid queue, with an action that writes within its packet: if every packet
  -- is in use, or the action reports nothing, what is queued stays as before; else what the action
  -- wrote into the first packet not in use is queued last, and what was queued keeps its place and
  -- its bytes.
  pub try_push_fifo :
      (action : PacketAction) (s : PacketQueue r)
      → IsConfined action
      → IsValid r laws s
      → PushSpec action s (try_push r action s)
  try_push_fifo action s c v = elim (try_push-Outcome r laws action s v) [
    | no_room all e ↦ rw e (all, refl, refl)
    | rejects j f bad e ↦ rw e (j, f, bad, view-refused action s j c v f, refl)
    | accepts j n t f good ct cap e ↦
        rw e (j, n, f, good, view-pushed action c s j v f (suc n) t ct)
  ]

  pub view-consume :
      (action : PacketAction) (s : PacketQueue r) (i : ℕ) (is : List ℕ) (t : r.State)
      → WritesInside action
      → IsValid r laws s
      → laws.contents s.q ≡ i ∷ is
      → laws.contents t ≡ is
      → view (consume r action i (record s { q = t })) ≡ map (payload s.pb) is
  unfolding consume
  view-consume action s i is t c v e ct =
      rw ct
        (sym (map-eq_of_All _ _ _ (All-imp _ _ _ same (All-and-Absent _ i is in_use.1 distinct.0))))
    where
      distinct : Distinct (i ∷ is)
      distinct = subst Distinct e v.distinct

      in_use : InUse s.pb.packets i × All (InUse s.pb.packets) is
      in_use = subst (All (InUse s.pb.packets)) e v.in_use

      taken : packet_at s.pb i ≡ in_use.0.at
      taken = get_or_of_get s.pb.packets i _ in_use.0.there

      memory : Memory
      memory = (action (packet_at s.pb i) s.pb.buffer).1

      same_byte :
          (k : ℕ) (u : InUse s.pb.packets k) (a : ℕ)
          → k ≢ i
          → u.at.buf ≤ a
          → a < u.at.buf + u.at.size
          → memory a ≡ s.pb.buffer a
      same_byte k u a ne lo hi =
          confined_memory action c s.pb v.laid_out k i u in_use.0.at (packet_at s.pb i)
            in_use.0.there (ap (λ (q : Packet). q.buf) taken)
            (ap (λ (q : Packet). q.max_size) taken) ne a lo hi

      same :
          (k : ℕ)
          → InUse s.pb.packets k × (k ≢ i)
          → payload s.pb k ≡ payload (consume r action i (record s { q = t })).pb k
      same k (u, ne) =
          ap (bytes_of s.pb.buffer) (get_or_of_get s.pb.packets k _ u.there)
          ∙ read_bytes-same s.pb.buffer _ u.at.buf u.at.size
              (λ a lo hi. sym (same_byte k u a ne lo hi))
          ∙ sym (
              ap (bytes_of memory)
                (get_or_of_get _ k _ (get-set_used_ne false s.pb.packets k i ne ∙ u.there)))

  consume_buffer :
      (action : PacketAction) (s : PacketQueue r) (i : ℕ) (t : r.State)
      → (consume r action i (record s { q = t })).pb.buffer
        ≡ (action (packet_at s.pb i) s.pb.buffer).1
  unfolding consume free
  consume_buffer action s i t = refl

  -- What a round of `pop` does to what is queued.
  abbrev pub PopSpec : PacketAction → PacketQueue r → Option (PacketQueue r) → Type 0
  PopSpec action s none = view s ≡ []
  PopSpec action s (some s') =
      (p : Packet) × (s'.pb.buffer ≡ (action p s.pb.buffer).1)
      × (view s ≡ bytes_of s.pb.buffer p ∷ view s')

  -- A round of `pop` on a valid queue, with an action that writes within its packet, if at all: it
  -- takes nothing only from an empty queue; else the action gets a packet that holds the oldest
  -- bytes, and what was queued behind them is left.
  pub try_pop_fifo :
      (action : PacketAction) (s : PacketQueue r)
      → IsConfined action
      → IsValid r laws s
      → PopSpec action s (try_pop r action s)
  try_pop_fifo action s c v = elim (try_pop-Taken r laws action s) [
    | inl (empty, _, e) ↦ rw e (ap (map (payload s.pb)) empty)
    | inr (i, is, t, cs, ct, cap, _, e) ↦ rw e (
      packet_at s.pb i,
      consume_buffer action s i t,
      ap (map (payload s.pb)) cs
          ∙ ap (◌∷◌ (payload s.pb i)) (sym (view-consume action s i is t c.outside v cs ct)),
    )
  ]
