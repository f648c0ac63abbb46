-- ===== src/Device/Process/Files/Closed.antt =====
-- Which descriptors system_cmd.hpp leaves open, and whose it closes.
use tunator.Prelude.{
  ℕ, ◌<◌, ◌≡◌, ◌≢◌, refl, sym, ap, ◌∙◌, true, List, [], Option, none, some, ℤ, arith, dec_lt,
}
use tunator.Device.Command.{SystemCmd}
use tunator.Device.Process.{Status, Io, SystemResult, run}
use tunator.Device.Process.Files.{
  Descriptors, open_as, close_fd, PipeFds, Pipe, pipe_of, create_pipe, destroy_pipe, destroy_result,
  launch_closes, run_ends, launched, run_files,
}

close_fd_self : (n : ℕ) (t : Descriptors) → close_fd n t n ≡ none
unfolding close_fd
close_fd_self n t = ground arith

close_fd_ne : (fd n : ℕ) (t : Descriptors) → n ≢ fd → close_fd fd t n ≡ t n
unfolding close_fd
close_fd_ne fd n t ne = ground arith

close_fd-none : (fd n : ℕ) (t : Descriptors) → t n ≡ none → close_fd fd t n ≡ none
unfolding close_fd
close_fd-none fd n t e = ground arith

open_as_ne : (fd file n : ℕ) (t : Descriptors) → n ≢ fd → open_as fd file t n ≡ t n
unfolding open_as
open_as_ne fd file n t ne = ground arith

open_as_occupied : (fd file n : ℕ) (t : Descriptors) → t n ≢ none → open_as fd file t n ≢ none
unfolding open_as
open_as_occupied fd file n t h e = ground arith

-- `pipe` hands out numbers that are not in use.
abbrev pub AreFree : Option PipeFds → Descriptors → Type 0
AreFree none t = Unit {0}
AreFree (some a) t = (t a.read_fd ≡ none) × (open_as a.read_fd a.read_end t a.write_fd ≡ none)

-- A number as the system hands it out: the lowest that is not in use.
abbrev pub IsLowest : Descriptors → ℕ → Type 0
IsLowest t n = (t n ≡ none) × ((m : ℕ) → m < n → t m ≢ none)

-- The answer of `pipe` by that rule.
abbrev pub AreLowest : PipeFds → Descriptors → Type 0
AreLowest a t = IsLowest t a.read_fd × IsLowest (open_as a.read_fd a.read_end t) a.write_fd

IsLowest-unique : {t : Descriptors} {m n : ℕ} → IsLowest t m → IsLowest t n → m ≡ n
IsLowest-unique {t} {m} {n} h k = elim (dec_lt m n) [
  | yes lt ↦ absurd (k.1 m lt h.0)
  | no ge ↦ elim (dec_lt n m) [ yes lt ↦ absurd (h.1 n lt k.0) | no ge' ↦ omega arith ]
]

-- Where `pipe` takes the lowest numbers, the first pipe's write end is the lowest free number when
-- the parent has closed both write ends.
launch_closes-IsLowest :
    (a b : PipeFds) (t t1 t2 : Descriptors)
    → t1 ≡ open_as a.write_fd a.write_end (open_as a.read_fd a.read_end t)
    → t2 ≡ open_as b.write_fd b.write_end (open_as b.read_fd b.read_end t1)
    → AreLowest a t
    → AreLowest b t1
    → IsLowest (close_fd b.write_fd (close_fd a.write_fd t2)) a.write_fd
launch_closes-IsLowest a b t t1 t2 e1 e2 la lb =
    (close_fd-none b.write_fd a.write_fd _ (close_fd_self a.write_fd t2), occupied)
  where
    below : (m : ℕ) → m < a.write_fd → open_as b.read_fd b.read_end t1 m ≢ none
    below m lt =
        open_as_occupied b.read_fd b.read_end m t1
          (rw e1 (open_as_occupied a.write_fd a.write_end m _ (la.1.1 m lt)))

    occupied : (m : ℕ) → m < a.write_fd → close_fd b.write_fd (close_fd a.write_fd t2) m ≢ none
    occupied m lt e =
        let other : m ≢ b.write_fd =
          λ same. below m lt (ap (open_as b.read_fd b.read_end t1) same ∙ lb.1.0) in
        let less : m ≢ a.write_fd = λ same. omega arith in
        open_as_occupied b.write_fd b.write_end m _ (below m lt) (
          ap (λ (x : Descriptors). x m) (sym e2)
          ∙ sym (close_fd_ne a.write_fd m t2 less)
          ∙ sym (close_fd_ne b.write_fd m _ other)
          ∙ e)

-- A run that returned leaves the descriptors as they were; one that runs still has the read ends of
-- its two pipes open, and nothing else.
abbrev pub Leaves :
    Option PipeFds → Option PipeFds → Descriptors → Option SystemResult × Descriptors → Type 0
Leaves a b t (some sr, t') = (n : ℕ) → t' n ≡ t n
Leaves a b t (none, t') =
    (x y : PipeFds) × (a ≡ some x)
    × (b ≡ some y)
    × ((n : ℕ) → t' n ≡ open_as y.read_fd y.read_end (open_as x.read_fd x.read_end t) n)

module _ (t : Descriptors) (x : PipeFds) (h : AreFree (some x) t) where
  abbrev opened : Descriptors
  opened = open_as x.write_fd x.write_end (open_as x.read_fd x.read_end t)

  destroyed : (n : ℕ) → destroy_pipe (pipe_of x) opened n ≡ t n
  unfolding destroy_pipe close_fd open_as
  destroyed n = ground arith

  module _ (y : PipeFds) (k : AreFree (some y) opened) where
    abbrev both : Descriptors
    both = open_as y.write_fd y.write_end (open_as y.read_fd y.read_end opened)

    reading :
        (n : ℕ)
        → launch_closes (pipe_of x) (pipe_of y) both n
          ≡ open_as y.read_fd y.read_end (open_as x.read_fd x.read_end t) n
    unfolding launch_closes close_fd open_as
    reading n = ground arith

    all_closed :
        (n : ℕ)
        → run_ends (pipe_of x) (pipe_of y) (launch_closes (pipe_of x) (pipe_of y) both) n ≡ t n
    unfolding run_ends destroy_pipe launch_closes close_fd open_as
    all_closed n = ground arith

    launched-Leaves :
        (result : Option SystemResult)
        → Leaves (some x) (some y) t (launched (pipe_of x) (pipe_of y) result (λ u. u) both)
    unfolding launched
    launched-Leaves none = (x, y, refl, refl, reading)
    launched-Leaves (some sr) = all_closed

run_ends_closes : (p q : Pipe) (t : Descriptors) (n : ℕ) → n ≡ p.write → run_ends p q t n ≡ none
unfolding run_ends destroy_pipe close_fd
run_ends_closes p q t n e = ground arith

-- While a command runs, no other thread opens or closes a descriptor, and `pipe` hands out numbers
-- that are not in use: a run that returns, also one whose first or second pipe could not be made,
-- leaves the descriptors of the process as they were; one that does not return has both pipes and
-- leaves just their read ends open.
pub run_files-Leaves :
    (c : SystemCmd) (a b : Option PipeFds) (pid : ℤ) (status : Status) (exit_code : ℤ)
    (es : List Io) (t : Descriptors)
    → AreFree a t
    → AreFree b (create_pipe a t).1
    → Leaves a b t (run_files c a b pid status exit_code es (λ u. u) t)
unfolding run_files create_pipe destroy_result run
run_files-Leaves c none none pid status exit_code es t ha hb = λ n. refl
run_files-Leaves c none (some y) pid status exit_code es t ha hb = destroyed t y hb
run_files-Leaves c (some x) none pid status exit_code es t ha hb = destroyed t x ha
run_files-Leaves c (some x) (some y) pid status exit_code es t ha hb =
    launched-Leaves t x ha y hb (run c true pid status exit_code es)

-- Where `pipe` and another thread's `open` take the lowest number that is not in use, and the other
-- thread opens its file while the command runs: it gets the number of the command's first write
-- end, which the parent has closed, and the run closes that number again when it returns, so that
-- the other thread's file is no longer open.
pub run_files_closes_other :
    (c : SystemCmd) (a b : PipeFds) (pid : ℤ) (status : Status) (exit_code : ℤ) (es : List Io)
    (t : Descriptors) (fd file : ℕ) (sr : SystemResult)
    → AreLowest a t
    → AreLowest b (create_pipe (some a) t).1
    → IsLowest (run_files c (some a) (some b) pid status exit_code [] (λ u. u) t).1 fd
    → run c true pid status exit_code es ≡ some sr
    → (fd ≡ a.write_fd)
      × ((run_files c (some a) (some b) pid status exit_code es (open_as fd file) t).1 fd ≡ none)
unfolding run_files create_pipe run launched launch_closes
run_files_closes_other c a b pid status exit_code es t fd file sr la lb free returns =
    let same : fd ≡ a.write_fd =
      IsLowest-unique free (launch_closes-IsLowest a b t _ _ refl refl la lb) in
    (
      same,
      rw (returns, launched)
          (run_ends_closes (pipe_of a) (pipe_of b)
            (open_as fd file (
              launch_closes (pipe_of a) (pipe_of b)
                (create_pipe (some b) (create_pipe (some a) t).1).1))
            fd same),
    )
