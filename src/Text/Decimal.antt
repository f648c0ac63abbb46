-- ===== src/Text/Decimal.antt =====
-- `std::stoi` reads back what a stream prints of a number.
use native.Mathlib.Nat.{pow-suc}
use tunator.Prelude.{
  ℕ, zero, suc, ◌+◌, ◌*◌, ◌/◌, ◌%◌, ◌^◌, ◌≤◌, ◌<◌, ◌≡◌, ◌≢◌, refl, ap, sym, subst, ltb→lt, ◌-◌, inl,
  inr, ◌∙◌, [], ◌∷◌, arith, ltb, true, false, pos, All, Bool-cases,
}
use tunator.Text.{Text, ok, print_digits, to_decimal, scan_digits, stoi}

abbrev pub IsDigit : ℕ → Type 0
IsDigit c = (48 ≤ c) × (c ≤ 57)

tenth_lt : (fuel n : ℕ) → n < 10 ^ suc fuel → n / 10 < 10 ^ fuel
tenth_lt fuel n h = omega (arith, pow-suc 10 fuel)

tenth_and_rest : (n : ℕ) → n / 10 * 10 + n % 10 ≡ n
tenth_and_rest n = omega arith

scan_digit :
    (acc d : ℕ) (rest : Text)
    → d < 10
    → scan_digits acc ((48 + d) ∷ rest) ≡ scan_digits (acc * 10 + d) rest
unfolding scan_digits
scan_digit acc d rest h = ground (arith, ap (λ k. scan_digits k rest) (sub_lem acc d))
  where
    sub_lem : (a k : ℕ) → a * 10 + (48 + k - 48) ≡ a * 10 + k
    sub_lem a k = omega arith

scan-print_digits :
    (fuel n : ℕ) (rest : Text)
    → n < 10 ^ fuel
    → scan_digits 0 (print_digits fuel n rest) ≡ scan_digits n rest
unfolding print_digits
scan-print_digits zero n rest h = let e : n ≡ 0 = omega arith in rw e refl
scan-print_digits (suc fuel) n rest h = elim (Bool-cases (ltb n 10)) [
  | inl small ↦ ground (arith, scan_digit 0 n rest)
  | inr large ↦ ground (
    arith,
    scan-print_digits fuel (n / 10) ((48 + n % 10) ∷ rest) (tenth_lt fuel n h),
    scan_digit (n / 10) (n % 10) rest (omega arith),
    ap (λ k. scan_digits k rest) (tenth_and_rest n),
  )
]

print_small :
    (fuel n : ℕ) (rest : Text) → ltb n 10 ≡ true → print_digits (suc fuel) n rest ≡ (48 + n) ∷ rest
unfolding print_digits
print_small fuel n rest h = ground arith

print_large :
    (fuel n : ℕ) (rest : Text)
    → ltb n 10 ≡ false
    → print_digits (suc fuel) n rest ≡ print_digits fuel (n / 10) ((48 + n % 10) ∷ rest)
unfolding print_digits
print_large fuel n rest h = ground arith

-- What is printed is digits, and at least one.
print_digits-IsDigit :
    (fuel n : ℕ) (rest : Text) → All IsDigit rest → All IsDigit (print_digits fuel n rest)
print_digits-IsDigit zero n rest h = unfold print_digits in h
print_digits-IsDigit (suc fuel) n rest h = elim (Bool-cases (ltb n 10)) [
  | inl small ↦ rw (print_small fuel n rest small) ((omega arith, ltb_digit n small), h)
  | inr large ↦
      rw (print_large fuel n rest large)
        (print_digits-IsDigit fuel (n / 10) _ ((omega arith, omega arith), h))
]
  where
    ltb_digit : (k : ℕ) → ltb k 10 ≡ true → 48 + k ≤ 57
    ltb_digit k e = omega (arith, ltb→lt k 10 e)

abbrev IsCons : Text → Type 0
IsCons t = (c : ℕ) × (cs : Text) × (t ≡ c ∷ cs)

print_digits-IsCons : (fuel n c : ℕ) (cs : Text) → IsCons (print_digits fuel n (c ∷ cs))
print_digits-IsCons zero n c cs = unfold print_digits in (c, cs, refl)
print_digits-IsCons (suc fuel) n c cs = elim (Bool-cases (ltb n 10)) [
  | inl small ↦ rw (print_small fuel n (c ∷ cs) small) (48 + n, c ∷ cs, refl)
  | inr large ↦
      rw (print_large fuel n (c ∷ cs) large) (print_digits-IsCons fuel (n / 10) _ (c ∷ cs))
]

to_decimal-IsCons : (n : ℕ) → IsCons (to_decimal n)
unfolding to_decimal
to_decimal-IsCons n = elim (Bool-cases (ltb n 10)) [
  | inl small ↦ rw (print_small 19 n [] small) (48 + n, [], refl)
  | inr large ↦ rw (print_large 19 n [] large) (print_digits-IsCons 19 (n / 10) _ [])
]

-- A printed number is one digit or more.
pub to_decimal-IsDigit : (n : ℕ) → All IsDigit (to_decimal n)
unfolding to_decimal
to_decimal-IsDigit n = print_digits-IsDigit 20 n [] tt

pub to_decimal-ne-nil : (n : ℕ) → to_decimal n ≢ []
to_decimal-ne-nil n e = let (c, cs, is) = to_decimal-IsCons n in cc

scan-to_decimal : (n : ℕ) → n < 10 ^ 20 → scan_digits 0 (to_decimal n) ≡ n
unfolding to_decimal
scan-to_decimal n h = scan-print_digits 20 n [] h ∙ unfold scan_digits in refl

stoi_digits :
    (c : ℕ) (cs : Text)
    → IsDigit c
    → scan_digits 0 (c ∷ cs) ≤ 2147483647
    → stoi (c ∷ cs) ≡ ok (pos (scan_digits 0 (c ∷ cs)))
unfolding stoi
stoi_digits c cs d h = ground arith

-- `std::stoi` reads back every number that fits in an `int` from its decimal digits.
pub stoi-to_decimal : (n : ℕ) → n ≤ 2147483647 → stoi (to_decimal n) ≡ ok (pos n)
stoi-to_decimal n h =
    let (c, cs, is) = to_decimal-IsCons n in
    let digits : IsDigit c × All IsDigit cs = subst (All IsDigit) is (to_decimal-IsDigit n) in
    let value : scan_digits 0 (c ∷ cs) ≡ n =
      ap (scan_digits 0) (sym is) ∙ scan-to_decimal n (omega arith) in
    rw is (stoi_digits c cs digits.0 (omega arith) ∙ ap (λ k. ok (pos k)) value)
