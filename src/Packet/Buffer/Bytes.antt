-- ===== src/Packet/Buffer/Bytes.antt =====
-- Bytes: blocks of memory of packet_buffer.hpp, written and read.
use tunator.Prelude.{
  ℕ, zero, suc, ◌+◌, ◌≤◌, ◌<◌, ◌≡◌, ◌≢◌, ◌⊎◌, inl, refl, ap, ap₂, ◌∙◌, [], ◌∷◌, arith, pos, min,
  length, take, if◌then◌else◌, ◌==◌,
}
use tunator.Text.{Text}
use tunator.Packet.Buffer.{Memory, read_bytes, store_at}

pub read_bytes-same :
    (m m' : Memory) (a n : ℕ)
    → ((k : ℕ) → a ≤ k → k < a + n → m k ≡ m' k)
    → read_bytes m a n ≡ read_bytes m' a n
unfolding read_bytes
read_bytes-same m m' a zero h = refl
read_bytes-same m m' a (suc n) h = cc (
  h a (omega arith) (omega arith),
  read_bytes-same m m' (a + 1) n (λ k lo hi. h k (omega arith) (omega arith)),
)

pub store_at_outside :
    (m : Memory) (a : ℕ) (bs : Text) (x : ℕ)
    → (x < a) ⊎ (a + length bs ≤ x)
    → store_at m a bs x ≡ m x
unfolding store_at
store_at_outside m a [] x h = refl
store_at_outside m a (b ∷ bs) x h =
    store_at_outside (λ y. if y == a then b else m y) (a + 1) bs x (ground arith) ∙ ground arith

pub read_bytes-store_at :
    (m : Memory) (a : ℕ) (bs : Text) → read_bytes (store_at m a bs) a (length bs) ≡ bs
unfolding read_bytes store_at
read_bytes-store_at m a [] = refl
read_bytes-store_at m a (b ∷ bs) =
    ap₂ ◌∷◌
      (store_at_outside (λ y. if y == a then b else m y) (a + 1) bs a (inl (omega arith))
        ∙ ground arith)
      (read_bytes-store_at (λ y. if y == a then b else m y) (a + 1) bs)

abbrev nil : Text
nil = []

take-nil : (n : ℕ) → take n nil ≡ []
take-nil zero = refl
take-nil (suc n) = refl

pub take-min : (n : ℕ) (xs : Text) → take (min n (length xs)) xs ≡ take n xs
take-min zero xs = let e : min 0 (length xs) ≡ 0 = omega arith in rw e refl
take-min (suc n) [] = take-nil (min (suc n) 0)
take-min (suc n) (x ∷ xs) =
    let e : min (suc n) (suc (length xs)) ≡ suc (min n (length xs)) = omega arith in
    rw e (ap (λ t. x ∷ t) (take-min n xs))

pub pos_eq : {n k : ℕ} → pos n ≡ pos k → n ≡ k
pos_eq e = cc

pub nil_of_length : (xs : Text) → ((n : ℕ) → pos (length xs) ≢ pos (suc n)) → xs ≡ []
nil_of_length [] h = refl
nil_of_length (x ∷ xs) h = absurd (h (length xs) refl)
