-- ===== src/Server/Names.antt =====
-- Names: which names of an action the server takes for another.
use tunator.Prelude.{ℕ, ◌+◌, ◌<◌, ◌≡◌, refl, ◌∷◌, arith}
use tunator.Text.{Text}
use tunator.Server.{hash_string_to_int, select_action}

hash-carry :
    (c d : ℕ) (t : Text)
    → 0 < c
    → 0 < d
    → c + 101 < 128
    → d + 1 < 128
    → hash_string_to_int ((c + 101) ∷ d ∷ t) ≡ hash_string_to_int (c ∷ (d + 1) ∷ t)
unfolding hash_string_to_int
hash-carry c d t some_c some_d hc hd = ground arith

-- A name whose first letter is above 101 and an ASCII one, followed by a letter below 127 that is not
-- the zero byte, is handled as the name whose first letter is 101 less and whose second letter is one
-- more, whatever follows.
pub select_action-carry :
    (c d : ℕ) (t : Text)
    → 0 < c
    → 0 < d
    → c + 101 < 128
    → d + 1 < 128
    → select_action ((c + 101) ∷ d ∷ t) ≡ select_action (c ∷ (d + 1) ∷ t)
unfolding select_action
select_action-carry c d t some_c some_d hc hd = rw (hash-carry c d t some_c some_d hc hd) refl
