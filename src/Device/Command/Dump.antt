-- ===== src/Device/Command/Dump.antt =====
-- Dump: the text of a command is its words with a space between them.
use tunator.Prelude.{
  ◌≡◌, ◌↔◌, refl, sym, ap, ◌∙◌, true, false, List, [], ◌∷◌, ◌++◌, none, ℤ, pos, negsuc, drop, arith,
}
use mathlib.Core.List.{append_assoc, append-nil}
use tunator.Text.{Text, codes}
use tunator.Text.Equal.{text_eq_iff}
use tunator.Device.Command.{SystemCmd, dump, dump_envs, dump_args, run_ok, exec_returned}

-- Words with a space in front of each.
abbrev pub spaced : List Text → Text
spaced [] = []
spaced (v ∷ vs) = codes " " ++ (v ++ spaced vs)

-- Words with a space between them.
abbrev pub join : List Text → Text
join [] = []
join (w ∷ ws) = w ++ spaced ws

dump_args-spaced : (vs : List Text) → dump_args false (codes " ") vs ≡ spaced vs
unfolding dump_args
dump_args-spaced [] = refl
dump_args-spaced (v ∷ vs) = rw (dump_args-spaced vs) refl

dump_args-first : (vs : List Text) → dump_args true (codes " ") vs ≡ spaced (drop 1 vs)
unfolding dump_args
dump_args-first [] = refl
dump_args-first (v ∷ vs) = dump_args-spaced vs

dump_envs-spaced :
    (vs : List Text) (rest : Text)
    → (dump_envs (codes " ") vs).0 ++ ((dump_envs (codes " ") vs).1 ++ rest)
      ≡ spaced vs ++ (codes " " ++ rest)
unfolding dump_envs
dump_envs-spaced [] rest = refl
dump_envs-spaced (v ∷ vs) rest =
    ap (λ t. 32 ∷ t)
      (append_assoc v _ _ ∙ ap (λ t. v ++ t) (dump_envs-spaced vs rest) ∙ sym (append_assoc v _ _))

spaced-append : (vs ws : List Text) → spaced (vs ++ ws) ≡ spaced vs ++ spaced ws
spaced-append [] ws = refl
spaced-append (v ∷ vs) ws =
    ap (λ t. 32 ∷ t) (ap (λ t. v ++ t) (spaced-append vs ws) ∙ sym (append_assoc v _ _))

dump_envs-join :
    (vs : List Text) (w : Text) (ws : List Text)
    → (dump_envs [] vs).0 ++ ((dump_envs [] vs).1 ++ (w ++ spaced ws)) ≡ join (vs ++ w ∷ ws)
unfolding dump_envs
dump_envs-join [] w ws = refl
dump_envs-join (v ∷ vs) w ws =
    append_assoc v _ _
    ∙ ap (λ t. v ++ t) (dump_envs-spaced vs (w ++ spaced ws) ∙ sym (spaced-append vs (w ∷ ws)))

-- The text of a command with no status is its environment, the command and the arguments behind
-- the first, with one space between two of them.
pub dump-join : (c : SystemCmd) → c.status ≡ none → dump c ≡ join (c.envs ++ c.exec ∷ drop 1 c.args)
unfolding dump
dump-join c e =
    rw (e, dump_args-first c.args, append-nil (spaced (drop 1 c.args)))
      (dump_envs-join c.envs c.exec (drop 1 c.args))

-- `run` reports a failure exactly when the exit code and both outputs are what a child leaves
-- whose `execve` has returned.
pub run_ok_iff :
    (exit_code : ℤ) (sout serr : Text)
    → (run_ok exit_code sout serr ≡ false) ↔ ((exit_code, sout, serr) ≡ exec_returned)
unfolding run_ok
run_ok_iff (pos n) sout serr =
    ground (arith, text_eq_iff sout serr, text_eq_iff sout (codes "[exec failed]"))
run_ok_iff (negsuc n) sout serr = ground arith
