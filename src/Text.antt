-- ===== src/Text.antt =====
-- Text as the list of its bytes, and what the program uses of the C++ library on it: comparison,
-- decimal output of a `size_t`, and `std::stoi`.
pub mod Decimal
pub mod Equal
use Prim.Native.Char.{code}
use Prim.Native.String.{String}
use tunator.Prelude.{
  ℕ, zero, suc, ◌+◌, ◌-◌, ◌*◌, ◌/◌, ◌%◌, Bool, true, false, not, ◌&&◌, ◌||◌, List, [], ◌∷◌, ◌++◌,
  ltb, leb, ◌==◌, if◌then◌else◌, ℤ, pos, negsuc,
}

abbrev pub Text : Type 0
Text = List ℕ

-- The bytes of an ASCII literal.
abbrev pub codes : String → Text
codes String.[] = []
codes (String.◌∷◌ c s) = code c ∷ codes s

-- `operator==` on strings.
unfoldable pub text_eq : Text → Text → Bool
text_eq [] [] = true
text_eq (x ∷ xs) (y ∷ ys) = x == y && text_eq xs ys
text_eq _ _ = false

-- What is thrown by `std::stoi`.
pub data Exception : Type 0 where
  invalid_argument out_of_range : Exception

-- A `Result`, or the exception that leaves the function.
pub data Outcome {ℓ} (A : Type ℓ) : Type ℓ where
  ok : A → Outcome A
  err : Text → Outcome A
  thrown : Exception → Outcome A

infixl 5 ◌>>=◌
abbrev pub ◌>>=◌ {ℓ κ} : {A : Type ℓ} {B : Type κ} → Outcome A → (A → Outcome B) → Outcome B
ok a >>= f = f a
err t >>= f = err t
thrown e >>= f = thrown e

-- `stream << n` for a `size_t`, the digits in front of `rest`. 20 digits are enough for 64 bits.
unfoldable pub print_digits : ℕ → ℕ → Text → Text
print_digits zero n rest = rest
print_digits (suc fuel) n rest =
    let more = print_digits fuel (n / 10) ((48 + n % 10) ∷ rest) in
    if ltb n 10 then (48 + n) ∷ rest else more

unfoldable pub to_decimal : ℕ → Text
unfolding print_digits
to_decimal n = print_digits 20 n []

abbrev pub is_digit : ℕ → Bool
is_digit c = leb 48 c && leb c 57

-- `isspace` in the C locale.
abbrev pub is_space : ℕ → Bool
is_space c = c == 32 || (leb 9 c && leb c 13)

-- The value of the digits in front, after those that make `acc`.
unfoldable pub scan_digits : ℕ → Text → ℕ
scan_digits acc [] = acc
scan_digits acc (c ∷ cs) =
    let more = scan_digits (acc * 10 + (c - 48)) cs in if is_digit c then more else acc

abbrev pub negate : ℕ → ℤ
negate zero = pos 0
negate (suc n) = negsuc n

-- The conversion of a text that must begin with a digit; the flag is for a minus sign.
unfoldable pub convert : Bool → Text → Outcome ℤ
unfolding scan_digits
convert minus [] = thrown invalid_argument
convert minus (c ∷ cs) =
    let n = scan_digits 0 (c ∷ cs) in
    if not (is_digit c)
    then thrown invalid_argument
    else if minus
    then (if leb n 2147483648 then ok (negate n) else thrown out_of_range)
    else (if leb n 2147483647 then ok (pos n) else thrown out_of_range)

-- `std::stoi(t, 0, 10)`, where an `int` has 32 bits.
unfoldable pub stoi : Text → Outcome ℤ
unfolding convert
stoi [] = thrown invalid_argument
stoi (c ∷ cs) =
    let more = stoi cs in
    if is_space c
    then more
    else if c == b'-'
    then convert true cs
    else if c == b'+'
    then convert false cs
    else convert false (c ∷ cs)
