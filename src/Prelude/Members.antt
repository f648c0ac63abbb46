-- ===== src/Prelude/Members.antt =====
-- Predicates on the members of a list, and the pigeonhole principle for lists of distinct numbers.
use Prim.Native.Nat.{ℕ, zero, suc, ◌+◌, ◌≤◌, ◌<◌}
use mathlib.Core.Path.{◌≡◌, refl, sym, ap₂}
use mathlib.Core.Logic.{◌≢◌}
use mathlib.Core.List.{List, [], ◌∷◌, ◌++◌, map}
use native.Mathlib.Omega.{arith}
use tunator.Prelude.Tests.{if◌then◌else◌, ◌==◌}
use tunator.Prelude.Lists.{length}

abbrev pub All {ℓ κ} : {A : Type ℓ} → (A → Type κ) → List A → Type κ
All P [] = Unit
All P (x ∷ xs) = P x × All P xs

pub All-append {ℓ κ} :
    {A : Type ℓ} (P : A → Type κ) (xs ys : List A) → All P xs → All P ys → All P (xs ++ ys)
All-append P [] ys h k = k
All-append P (x ∷ xs) ys h k = (h.0, All-append P xs ys h.1 k)

pub All-imp {ℓ κ μ} :
    {A : Type ℓ} (P : A → Type κ) (Q : A → Type μ) (xs : List A)
    → ((x : A) → P x → Q x)
    → All P xs
    → All Q xs
All-imp P Q [] f h = tt
All-imp P Q (x ∷ xs) f h = (f x h.0, All-imp P Q xs f h.1)

pub All-zip {ℓ κ μ ν} :
    {A : Type ℓ} (P : A → Type κ) (Q : A → Type μ) (R : A → Type ν) (xs : List A)
    → ((x : A) → P x → Q x → R x)
    → All P xs
    → All Q xs
    → All R xs
All-zip P Q R [] f h k = tt
All-zip P Q R (x ∷ xs) f h k = (f x h.0 k.0, All-zip P Q R xs f h.1 k.1)

-- A proof of `All`, member after member.
infixr 5 ◌also◌
abbrev pub ◌also◌ {ℓ κ} : {A : Type ℓ} {B : Type κ} → A → B → A × B
a also b = (a, b)

pub map-eq_of_All {ℓ κ} :
    {A : Type ℓ} {B : Type κ} (f g : A → B) (xs : List A)
    → All (λ x. f x ≡ g x) xs
    → map f xs ≡ map g xs
map-eq_of_All f g [] h = refl
map-eq_of_All f g (x ∷ xs) h = ap₂ ◌∷◌ h.0 (map-eq_of_All f g xs h.1)

abbrev pub Absent {ℓ} : {A : Type ℓ} → A → List A → Type ℓ
Absent a [] = Unit
Absent a (x ∷ xs) = (x ≢ a) × Absent a xs

abbrev pub Distinct {ℓ} : {A : Type ℓ} → List A → Type ℓ
Distinct [] = Unit
Distinct (x ∷ xs) = Absent x xs × Distinct xs

pub All-and-Absent {ℓ κ} :
    {A : Type ℓ} (P : A → Type κ) (a : A) (xs : List A)
    → All P xs
    → Absent a xs
    → All (λ x. P x × (x ≢ a)) xs
All-and-Absent P a [] h k = tt
All-and-Absent P a (x ∷ xs) h k = ((h.0, k.0), All-and-Absent P a xs h.1 k.1)

pub Absent-of-All {ℓ κ} :
    {A : Type ℓ} (P : A → Type κ) (a : A) (xs : List A)
    → All P xs
    → ((x : A) → P x → x ≢ a)
    → Absent a xs
Absent-of-All P a [] h f = tt
Absent-of-All P a (x ∷ xs) h f = (f x h.0, Absent-of-All P a xs h.1 f)

pub Distinct-concat {ℓ} :
    {A : Type ℓ} (a : A) (xs : List A) → Distinct xs → Absent a xs → Distinct (xs ++ a ∷ [])
Distinct-concat a [] h k = (tt, tt)
Distinct-concat a (x ∷ xs) h k =
    (Absent-concat xs h.0 (λ e. k.0 (sym e)), Distinct-concat a xs h.1 k.1)
  where
    Absent-concat : (ys : List _) → Absent x ys → a ≢ x → Absent x (ys ++ a ∷ [])
    Absent-concat [] h ne = (ne, tt)
    Absent-concat (y ∷ ys) h ne = (h.0, Absent-concat ys h.1 ne)

pub Absent-split {ℓ} :
    {A : Type ℓ} (a : A) (xs ys : List A) → Absent a (xs ++ ys) → Absent a xs × Absent a ys
Absent-split a [] ys h = (tt, h)
Absent-split a (x ∷ xs) ys h = let rest = Absent-split a xs ys h.1 in ((h.0, rest.0), rest.1)

-- A member in the middle is none of the others, and they are distinct.
pub Distinct-middle {ℓ} :
    {A : Type ℓ} (a : A) (xs ys : List A)
    → Distinct (xs ++ a ∷ ys)
    → Absent a (xs ++ ys) × Distinct (xs ++ ys)
Distinct-middle a [] ys h = h
Distinct-middle a (x ∷ xs) ys h =
    let rest = Distinct-middle a xs ys h.1 in
    let (ne, others) = Absent-middle xs h.0 in ((ne, rest.0), (others, rest.1))
  where
    Absent-middle : (zs : List _) → Absent x (zs ++ a ∷ ys) → (x ≢ a) × Absent x (zs ++ ys)
    Absent-middle [] h = (λ e. h.0 (sym e), h.1)
    Absent-middle (z ∷ zs) h = let rest = Absent-middle zs h.1 in (rest.0, (h.0, rest.1))

pub All-split {ℓ κ} :
    {A : Type ℓ} (P : A → Type κ) (xs ys : List A) → All P (xs ++ ys) → All P xs × All P ys
All-split P [] ys h = (tt, h)
All-split P (x ∷ xs) ys h = let rest = All-split P xs ys h.1 in ((h.0, rest.0), rest.1)

without : ℕ → List ℕ → List ℕ
without k [] = []
without k (x ∷ xs) = if x == k then without k xs else x ∷ without k xs

Absent-without : (a k : ℕ) (xs : List ℕ) → Absent a xs → Absent a (without k xs)
unfolding without
Absent-without a k [] h = tt
Absent-without a k (x ∷ xs) h = ground (arith, Absent-without a k xs h.1)

Distinct-without : (k : ℕ) (xs : List ℕ) → Distinct xs → Distinct (without k xs)
unfolding without
Distinct-without k [] h = tt
Distinct-without k (x ∷ xs) h = ground (arith, Absent-without x k xs h.0, Distinct-without k xs h.1)

All-below-without :
    (n : ℕ) (xs : List ℕ) → All (λ x. x < suc n) xs → All (λ x. x < n) (without n xs)
unfolding without
All-below-without n [] h = tt
All-below-without n (x ∷ xs) h = ground (arith, All-below-without n xs h.1)

length-without-Absent : (k : ℕ) (xs : List ℕ) → Absent k xs → length (without k xs) ≡ length xs
unfolding without
length-without-Absent k [] h = refl
length-without-Absent k (x ∷ xs) h = ground (arith, length-without-Absent k xs h.1)

length-without : (k : ℕ) (xs : List ℕ) → Distinct xs → length xs ≤ length (without k xs) + 1
unfolding without
length-without k [] h = omega arith
length-without k (x ∷ xs) h =
    ground (arith, length-without k xs h.1, length-without-Absent x xs h.0)

-- Distinct numbers below `n` are at most `n` numbers.
pub length-le_of_Distinct :
    (n : ℕ) (xs : List ℕ) → Distinct xs → All (λ x. x < n) xs → length xs ≤ n
length-le_of_Distinct zero [] d h = omega arith
length-le_of_Distinct zero (x ∷ xs) d h = absurd (omega arith)
length-le_of_Distinct (suc n) xs d h =
    let ih =
      length-le_of_Distinct n (without n xs) (Distinct-without n xs d) (All-below-without n xs h) in
    omega (arith, ih, length-without n xs d)
