-- ===== src/Packet/Buffer/Alloc.antt =====
-- `PacketBuffer::alloc` and `Packet::free` of packet_buffer.hpp and packet.hpp: what they hand out.
use tunator.Prelude.{
  ℕ, zero, suc, ◌+◌, ◌<◌, ◌≡◌, refl, ap, ◌∙◌, subst, ◌⊎◌, inl, inr, Bool, true, false, Option, none,
  some, List, [], ◌∷◌, arith, get_elem?, modify_at, length-modify_at, Bool-cases, dec_lt,
  if◌then◌else◌,
}
use tunator.Packet.Buffer.{Packet, PacketBuffer, find_unused, set_used, alloc, free, set_size}
use tunator.Packet.Buffer.Layout.{IsPlaced, Placed, IsLaidOut}

abbrev pub AllUsed : List Packet → Type 0
AllUsed ps = (k : ℕ) (q : Packet) → get_elem? ps k ≡ some q → q.used ≡ true

-- The packet at `j` is the first that is not in use.
pub record FirstUnused (ps : List Packet) (j : ℕ) : Type 0 where
  pub at : Packet
  pub there : get_elem? ps j ≡ some at
  pub unused : at.used ≡ false
  pub before : (k : ℕ) (q : Packet) → k < j → get_elem? ps k ≡ some q → q.used ≡ true

abbrev Finds : ℕ → List Packet → Type 0
Finds i ps =
    (AllUsed ps × (find_unused i ps ≡ none))
    ⊎ ((j : ℕ) × FirstUnused ps j × (find_unused i ps ≡ some (i + j)))

AllUsed-cons : (p : Packet) (ps : List Packet) → p.used ≡ true → AllUsed ps → AllUsed (p ∷ ps)
AllUsed-cons p ps u h zero q e = let same : p ≡ q = cc in subst (λ x. x.used ≡ true) same u
AllUsed-cons p ps u h (suc k) q e = h k q e

FirstUnused-cons :
    (p : Packet) (ps : List Packet) (j : ℕ)
    → p.used ≡ true
    → FirstUnused ps j
    → FirstUnused (p ∷ ps) (suc j)
FirstUnused-cons p ps j u h = record {
  at = h.at;
  there = h.there;
  unused = h.unused;
  before = earlier;
}
  where
    earlier : (k : ℕ) (q : Packet) → k < suc j → get_elem? (p ∷ ps) k ≡ some q → q.used ≡ true
    earlier zero q lt e = let same : p ≡ q = cc in subst (λ x. x.used ≡ true) same u
    earlier (suc k) q lt e = h.before k q (omega arith) e

find_unused_skip :
    (i : ℕ) (p : Packet) (ps : List Packet)
    → p.used ≡ true
    → find_unused i (p ∷ ps) ≡ find_unused (i + 1) ps
unfolding find_unused
find_unused_skip i p ps u = ground arith

find_unused_hit :
    (i : ℕ) (p : Packet) (ps : List Packet) → p.used ≡ false → find_unused i (p ∷ ps) ≡ some (i + 0)
unfolding find_unused
find_unused_hit i p ps u = ground arith

find_unused_lem : (i : ℕ) (ps : List Packet) → Finds i ps
find_unused_lem i [] = inl (λ k q e. cc, unfold find_unused in refl)
find_unused_lem i (p ∷ ps) = elim (Bool-cases p.used) [
  | inl u ↦ elim (find_unused_lem (i + 1) ps) [
    | inl (all, e) ↦ inl (AllUsed-cons p ps u all, find_unused_skip i p ps u ∙ e)
    | inr (j, h, e) ↦
        inr (
          suc j,
          FirstUnused-cons p ps j u h,
          find_unused_skip i p ps u ∙ e ∙ ap some (omega arith),
        )
  ]
  | inr f ↦ inr (0, first f, find_unused_hit i p ps f)
]
  where
    first : p.used ≡ false → FirstUnused (p ∷ ps) 0
    first f = record { at = p; there = refl; unused = f; before = λ k q lt e. absurd (omega arith) }

-- `alloc` hands out the first packet that is not in use and marks it, and nothing else changes; it
-- returns null exactly when every packet is in use, and then changes nothing.
pub alloc-FirstUnused :
    (pb : PacketBuffer)
    → (AllUsed pb.packets × (alloc pb ≡ (none, pb)))
      ⊎ ((j : ℕ) × FirstUnused pb.packets j
          × (alloc pb ≡ (some j, record pb { packets = set_used true j pb.packets })))
unfolding alloc
alloc-FirstUnused pb = elim (find_unused_lem 0 pb.packets) [
  | inl (all, e) ↦ inl (all, rw (e, alloc))
  | inr (j, h, e) ↦ inr (j, h, rw (e, alloc) (ground arith))
]

pub FirstUnused-unique : {ps : List Packet} {j k : ℕ} → FirstUnused ps j → FirstUnused ps k → j ≡ k
FirstUnused-unique {ps} {j} {k} f g = elim (dec_lt j k) [
  | yes lt ↦ cc (g.before j f.at lt f.there, f.unused)
  | no ge ↦ elim (dec_lt k j) [
    | yes lt ↦ cc (f.before k g.at lt g.there, g.unused)
    | no ge' ↦ omega arith
  ]
]

-- The packet that `alloc` hands out is the first that is not in use.
pub alloc_first : (pb : PacketBuffer) {j : ℕ} → FirstUnused pb.packets j → (alloc pb).0 ≡ some j
alloc_first pb {j} f = elim (alloc-FirstUnused pb) [
  | inl (all, e) ↦ cc (all j f.at f.there, f.unused)
  | inr (i, g, e) ↦ rw e (ap some (FirstUnused-unique g f))
]

pub set_used_undo :
    (j : ℕ) (ps : List Packet) {p : Packet}
    → get_elem? ps j ≡ some p
    → p.used ≡ false
    → set_used false j (set_used true j ps) ≡ ps
unfolding set_used
set_used_undo j [] e u = refl
set_used_undo zero (x ∷ ps) e u = ground arith
set_used_undo (suc j) (x ∷ ps) e u = ap (◌∷◌ x) (set_used_undo j ps e u)

-- Freeing the packet that `alloc` has just handed out restores the pool.
pub free-alloc : (pb : PacketBuffer) {j : ℕ} → (alloc pb).0 ≡ some j → free j (alloc pb).1 ≡ pb
unfolding free
free-alloc pb {j} e = elim (alloc-FirstUnused pb) [
  | inl (_, a) ↦ cc (ap (λ (r : Option ℕ × PacketBuffer). r.0) a)
  | inr (i, h, a) ↦ undo i h a (cc (ap (λ (r : Option ℕ × PacketBuffer). r.0) a))
]
  where
    undo :
        (i : ℕ)
        → FirstUnused pb.packets i
        → alloc pb ≡ (some i, record pb { packets = set_used true i pb.packets })
        → i ≡ j
        → free j (alloc pb).1 ≡ pb
    undo i h a s =
        rw (← s, a)
          (ap (λ ps. record pb { packets = ps }) (set_used_undo i pb.packets h.there h.unused))

-- How many packets are not in use.
unfoldable pub unused : List Packet → ℕ
unused [] = 0
unused (p ∷ ps) = (if p.used then 0 else 1) + unused ps

unused-set_used :
    (j : ℕ) (ps : List Packet) {p : Packet}
    → get_elem? ps j ≡ some p
    → p.used ≡ false
    → unused (set_used true j ps) + 1 ≡ unused ps
unfolding unused set_used
unused-set_used j [] e u = cc
unused-set_used zero (x ∷ ps) e u = ground arith
unused-set_used (suc j) (x ∷ ps) e u = omega (arith, unused-set_used j ps e u)

unused-AllUsed : (ps : List Packet) → AllUsed ps → unused ps ≡ 0
unfolding unused
unused-AllUsed [] h = refl
unused-AllUsed (p ∷ ps) h = ground (arith, h 0 p refl, unused-AllUsed ps (λ k q e. h (suc k) q e))

-- Each packet that `alloc` hands out is one fewer to hand out, and it fails when none is left.
pub unused-alloc :
    (pb : PacketBuffer)
    → (((alloc pb).0 ≡ none) × (unused (alloc pb).1.packets ≡ 0))
      ⊎ ((j : ℕ) × ((alloc pb).0 ≡ some j) × (unused (alloc pb).1.packets + 1 ≡ unused pb.packets))
unused-alloc pb = elim (alloc-FirstUnused pb) [
  | inl (all, a) ↦ rw a (inl (refl, unused-AllUsed pb.packets all))
  | inr (i, h, a) ↦ rw a (inr (i, refl, unused-set_used i pb.packets h.there h.unused))
]

module _ (mtu w : ℕ) (f : Packet → Packet) where
  modify_at-Placed :
      ((i : ℕ) (p : Packet) → IsPlaced mtu w i p → IsPlaced mtu w i (f p))
      → (i j : ℕ) (ps : List Packet) → Placed mtu w i ps
      → Placed mtu w i (modify_at f j ps)
  modify_at-Placed keep i j [] h = tt
  modify_at-Placed keep i zero (p ∷ ps) h = (keep i p h.0, h.1)
  modify_at-Placed keep i (suc j) (p ∷ ps) h = (h.0, modify_at-Placed keep (i + 1) j ps h.1)

modify_at-IsLaidOut :
    (pb : PacketBuffer) (f : Packet → Packet) (j : ℕ)
    → ((i : ℕ) (p : Packet)
        → IsPlaced pb.mtu pb.packet_size i p
        → IsPlaced pb.mtu pb.packet_size i (f p))
    → IsLaidOut pb
    → IsLaidOut (record pb { packets = modify_at f j pb.packets })
modify_at-IsLaidOut pb f j keep h = record {
  room = h.room;
  count = length-modify_at f j pb.packets ∙ h.count;
  placed = modify_at-Placed pb.mtu pb.packet_size f keep 0 j pb.packets h.placed;
}

-- Neither a packet's mark nor its size is part of the layout.
pub set_used-IsLaidOut :
    (pb : PacketBuffer) (b : Bool) (j : ℕ)
    → IsLaidOut pb
    → IsLaidOut (record pb { packets = set_used b j pb.packets })
unfolding set_used
set_used-IsLaidOut pb b j =
    modify_at-IsLaidOut pb _ j
      (λ i p h. record { idx_is = h.idx_is; max_size_is = h.max_size_is; buf_is = h.buf_is })

pub set_size-IsLaidOut :
    (pb : PacketBuffer) (n j : ℕ)
    → IsLaidOut pb
    → IsLaidOut (record pb { packets = set_size n j pb.packets })
unfolding set_size
set_size-IsLaidOut pb n j =
    modify_at-IsLaidOut pb _ j
      (λ i p h. record { idx_is = h.idx_is; max_size_is = h.max_size_is; buf_is = h.buf_is })

pub alloc-IsLaidOut : (pb : PacketBuffer) → IsLaidOut pb → IsLaidOut (alloc pb).1
alloc-IsLaidOut pb h = elim (alloc-FirstUnused pb) [
  | inl (_, a) ↦ rw a h
  | inr (i, _, a) ↦ rw a (set_used-IsLaidOut pb true i h)
]

pub free-IsLaidOut : (pb : PacketBuffer) (i : ℕ) → IsLaidOut pb → IsLaidOut (free i pb)
unfolding free
free-IsLaidOut pb i = set_used-IsLaidOut pb false i
