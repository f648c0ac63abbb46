-- ===== src/Server/Devices/Entries.antt =====
-- Entries: what holds of all entries of a map after an insertion or an erasure.
use tunator.Prelude.{
  ℕ, ◌<◌, ◌≡◌, ◌≢◌, ◌⊎◌, subst, Option, Bool, true, false, ◌==◌, List, [], ◌∷◌, none, some, All,
  Absent, Distinct, map, arith, inl, inr, if◌then◌else◌,
}
use tunator.Server.Devices.{DeviceMap, find, insert, erase}

-- The devices in their order.
abbrev pub devices_of : DeviceMap → List ℕ
devices_of m = map (λ entry. entry.1) m

find_if :
    (f d : ℕ) (b : Bool) (o : Option ℕ)
    → (if b then some f else o) ≡ some d
    → (f ≡ d) ⊎ (o ≡ some d)
find_if f d true o e = inl (cc)
find_if f d false o e = inr e

module _ (P : ℕ × ℕ → Type 0) where
  All-if : (b : Bool) (x y : DeviceMap) → All P x → All P y → All P (if b then x else y)
  All-if true x y p q = p
  All-if false x y p q = q

  pub All-insert : (c d : ℕ) (m : DeviceMap) → All P m → P (c, d) → All P (insert c d m)
  unfolding insert
  All-insert c d [] h p = (p, tt)
  All-insert c d ((k, e) ∷ m) (h, hs) p =
      All-if (k == c) ((k, e) ∷ m) ((k, e) ∷ insert c d m) (h, hs) (h, All-insert c d m hs p)

  pub All-erase : (c : ℕ) (m : DeviceMap) → All P m → All P (erase c m)
  unfolding erase
  All-erase c [] h = tt
  All-erase c ((k, e) ∷ m) (h, hs) = All-if (k == c) m ((k, e) ∷ erase c m) hs (h, All-erase c m hs)

  pub All-find : (c d : ℕ) (m : DeviceMap) → All P m → find c m ≡ some d → (k : ℕ) × P (k, d)
  unfolding find
  All-find c d [] h e = absurd (ground arith)
  All-find c d ((k, f) ∷ m) (h, hs) e = elim (find_if f d (k == c) (find c m) e) [
    | inl same ↦ (k, subst (λ x. P (k, x)) same h)
    | inr later ↦ All-find c d m hs later
  ]

Absent-insert :
    (x c d : ℕ) (m : DeviceMap)
    → Absent x (devices_of m)
    → d ≢ x
    → Absent x (devices_of (insert c d m))
unfolding insert
Absent-insert x c d [] h n = (n, tt)
Absent-insert x c d ((k, e) ∷ m) h n = ground (arith, Absent-insert x c d m h.1 n)

pub Distinct-insert :
    (c d : ℕ) (m : DeviceMap)
    → Distinct (devices_of m)
    → Absent d (devices_of m)
    → Distinct (devices_of (insert c d m))
unfolding insert
Distinct-insert c d [] h n = (tt, tt)
Distinct-insert c d ((k, e) ∷ m) h n =
    ground (arith, Absent-insert e c d m h.0, Distinct-insert c d m h.1 n.1)

Absent-erase :
    (x c : ℕ) (m : DeviceMap) → Absent x (devices_of m) → Absent x (devices_of (erase c m))
unfolding erase
Absent-erase x c [] h = tt
Absent-erase x c ((k, e) ∷ m) h = ground (arith, Absent-erase x c m h.1)

pub Distinct-erase :
    (c : ℕ) (m : DeviceMap) → Distinct (devices_of m) → Distinct (devices_of (erase c m))
unfolding erase
Distinct-erase c [] h = tt
Distinct-erase c ((k, e) ∷ m) h = ground (arith, Absent-erase e c m h.0, Distinct-erase c m h.1)

Absent-find : (c d x : ℕ) (m : DeviceMap) → Absent x (devices_of m) → find c m ≡ some d → d ≢ x
unfolding find
Absent-find c d x [] h e = absurd (ground arith)
Absent-find c d x ((k, f) ∷ m) h e = ground (arith, Absent-find c d x m h.1)

-- Without the entry of a connection, its device is in none.
pub Absent-erased :
    (c d : ℕ) (m : DeviceMap)
    → Distinct (devices_of m)
    → find c m ≡ some d
    → Absent d (devices_of (erase c m))
unfolding find erase
Absent-erased c d [] h e = tt
Absent-erased c d ((k, f) ∷ m) h e =
    ground (arith, Absent-erased c d m h.1, Absent-find c d f m h.0)

pub All-apart :
    (P Q : ℕ × ℕ → Type 0) (d : ℕ) (m : DeviceMap)
    → ((entry : ℕ × ℕ) → P entry → entry.1 ≢ d → Q entry)
    → All P m
    → Absent d (devices_of m)
    → All Q m
All-apart P Q d [] f h n = tt
All-apart P Q d (entry ∷ m) f h n = (f entry h.0 n.0, All-apart P Q d m f h.1 n.1)

-- A device that was not made yet is in no entry.
pub Absent-made :
    (P : ℕ × ℕ → Type 0) (made : ℕ) (m : DeviceMap)
    → ((entry : ℕ × ℕ) → P entry → entry.1 < made)
    → All P m
    → Absent made (devices_of m)
Absent-made P made [] f h = tt
Absent-made P made (entry ∷ m) f h = ((λ e. omega (arith, f entry h.0)), Absent-made P made m f h.1)

pub find-insert : (c d : ℕ) (m : DeviceMap) → find c m ≡ none → find c (insert c d m) ≡ some d
unfolding find insert
find-insert c d [] h = ground arith
find-insert c d ((k, e) ∷ m) h = ground (arith, find-insert c d m)
