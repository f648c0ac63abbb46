-- ===== src/Packet/Ring.antt =====
-- The single producer, single consumer ring of boost::lockfree, which packet_queue.hpp only calls.
-- A `Packet *` in it is the packet's position in the pool.
use tunator.Prelude.{ℕ, ◌≡◌, ◌<◌, ◌≤◌, Option, none, some, List, [], ◌∷◌, ◌++◌, length}

pub record Ring : Type 1 where
  pub State : Type 0
  -- room for that many elements
  pub make : ℕ → State
  -- `none` if the ring is full
  pub push : State → ℕ → Option State
  -- `pop(&x, 1)`; `none` if it takes no element
  pub pop : State → Option (ℕ × State)

-- What its documentation says: a queue, first in first out, with a fixed number of places.
pub record RingLaws (r : Ring) : Type 0 where
  pub contents : r.State → List ℕ
  pub capacity : r.State → ℕ
  pub make-contents : (n : ℕ) → contents (r.make n) ≡ []
  pub make-capacity : (n : ℕ) → capacity (r.make n) ≡ n
  pub push_room :
      (s : r.State) (x : ℕ)
      → length (contents s) < capacity s
      → (t : r.State) × (r.push s x ≡ some t)
        × (contents t ≡ contents s ++ x ∷ [])
        × (capacity t ≡ capacity s)
  pub push_full : (s : r.State) (x : ℕ) → capacity s ≤ length (contents s) → r.push s x ≡ none
  pub pop_empty : (s : r.State) → contents s ≡ [] → r.pop s ≡ none
  pub pop_first :
      (s : r.State) (x : ℕ) (xs : List ℕ)
      → contents s ≡ x ∷ xs
      → (t : r.State) × (r.pop s ≡ some (x, t)) × (contents t ≡ xs) × (capacity t ≡ capacity s)
