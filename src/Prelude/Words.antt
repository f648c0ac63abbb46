-- ===== src/Prelude/Words.antt =====
-- Machine integers: `size_t` as numbers below 2 ^ 64 with the wrap written out, and signed results.
use Prim.Native.Nat.{ℕ, suc, ◌+◌, ◌-◌, ◌%◌}
use mathlib.Core.Path.{◌≡◌}
use native.Mathlib.Omega.{arith}

-- 2 ^ 64
abbrev pub u64 : ℕ
u64 = 18446744073709551616

-- `size_t` addition.
abbrev pub add64 : ℕ → ℕ → ℕ
add64 a b = (a + b) % u64

pub add64_assoc : (a b c : ℕ) → add64 (add64 a b) c ≡ add64 a (add64 b c)
add64_assoc a b c = omega arith

pub add64_comm : (a b : ℕ) → add64 a b ≡ add64 b a
add64_comm a b = omega arith

pub add64_swap : (a b c : ℕ) → add64 (add64 a b) c ≡ add64 (add64 a c) b
add64_swap a b c = omega arith

pub add64-zero : (a b : ℕ) → add64 (add64 a b) 0 ≡ add64 a b
add64-zero a b = omega arith

-- A signed result such as `ssize_t` or `int`; `negsuc n` is -(n + 1).
pub data ℤ : Type 0 where
  pos : ℕ → ℤ
  negsuc : ℕ → ℤ

-- `size_t` from an `int`: a negative number wraps.
abbrev pub size_of_int : ℤ → ℕ
size_of_int (pos n) = n
size_of_int (negsuc n) = u64 - suc n
