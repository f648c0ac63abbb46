-- ===== src/Device/Command.antt =====
-- system_cmd.hpp: the command to run, its text in the log, and what `run` makes of its end. How it
-- runs is in Process.
pub mod Dump
use tunator.Prelude.{
  ℕ, zero, suc, ◌+◌, Bool, true, false, not, ◌&&◌, ◌==◌, List, [], ◌∷◌, ◌++◌, Option, none, some, ℤ,
  pos, negsuc, if◌then◌else◌,
}
use tunator.Text.{Text, codes, text_eq, to_decimal}

pub record SystemCmd : Type 0 where
  pub args : List Text
  pub envs : List Text
  pub exec : Text
  pub status : Option ℤ

-- The constructors: the command is the first argument.
unfoldable pub system_cmd : Text → SystemCmd
system_cmd cmd = record { args = cmd ∷ []; envs = []; exec = cmd; status = none }

unfoldable pub env : Text → Text → SystemCmd → SystemCmd
env key value c = record c { envs = c.envs ++ (key ++ (codes "=" ++ value)) ∷ [] }

unfoldable pub arg : Text → SystemCmd → SystemCmd
arg part c = record c { args = c.args ++ part ∷ [] }

-- `arg` of a `size_t`, by `std::to_string`.
unfoldable pub arg_number : ℕ → SystemCmd → SystemCmd
unfolding arg to_decimal
arg_number n c = arg (to_decimal n) c

-- `stream << i` for an `int`.
abbrev int_text : ℤ → Text
int_text (pos n) = to_decimal n
int_text (negsuc n) = codes "-" ++ to_decimal (suc n)

-- The two loops of `dump`: the text, and `space` behind the loop.
unfoldable pub dump_envs : Text → List Text → Text × Text
dump_envs space [] = ([], space)
dump_envs space (v ∷ vs) =
    let (rest, space') = dump_envs (codes " ") vs in (space ++ (v ++ rest), space')

unfoldable pub dump_args : Bool → Text → List Text → Text
dump_args first space [] = []
dump_args true space (v ∷ vs) = dump_args false space vs
dump_args false space (v ∷ vs) = space ++ (v ++ dump_args false (codes " ") vs)

abbrev dump_status : Option ℤ → Text
dump_status none = []
dump_status (some n) = codes "=>" ++ int_text n

unfoldable pub dump : SystemCmd → Text
unfolding dump_envs dump_args
dump c =
    let (envs, space) = dump_envs [] c.envs in
    envs ++ (space ++ (c.exec ++ (dump_args true (codes " ") c.args ++ dump_status c.status)))

abbrev exec_failed : Text
exec_failed = codes "[exec failed]"

abbrev is_forty_two : ℤ → Bool
is_forty_two (pos n) = n == 42
is_forty_two (negsuc n) = false

-- `sr.ok` at the end of `run`, from the exit code and what was printed.
unfoldable pub run_ok : ℤ → Text → Text → Bool
unfolding text_eq
run_ok exit_code sout serr =
    not (is_forty_two exit_code && (text_eq sout serr && text_eq sout exec_failed))

-- What the child of `launch` leaves behind when `execve` returns: the exit code and what it
-- printed to either pipe.
abbrev pub exec_returned : ℤ × Text × Text
exec_returned = (pos 42, exec_failed, exec_failed)
