-- ===== src/Device/Process/Files.antt =====
-- system_cmd.hpp: the descriptors of a command that runs. What `pipe` answers is an argument, and so is
-- what other threads do to the descriptors of the process while the loop of the io_service runs.
pub mod Closed
use tunator.Prelude.{ℕ, Bool, true, false, List, Option, none, some, ℤ, ◌==◌, if◌then◌else◌}
use tunator.Device.Command.{SystemCmd}
use tunator.Device.Process.{Status, Io, SystemResult, run}

-- What each number stands for in the process; `none` is a number that is not in use.
abbrev pub Descriptors : Type 0
Descriptors = ℕ → Option ℕ

unfoldable pub open_as : ℕ → ℕ → Descriptors → Descriptors
open_as fd file t = λ n. if n == fd then some file else t n

unfoldable pub close_fd : ℕ → Descriptors → Descriptors
close_fd fd t = λ n. if n == fd then none else t n

-- What `pipe` stores in `pipeFds`, and the two ends.
pub record PipeFds : Type 0 where
  pub read_fd : ℕ
  pub write_fd : ℕ
  pub read_end : ℕ
  pub write_end : ℕ

-- The two `FileDescriptor`s, by their numbers.
pub record Pipe : Type 0 where
  pub read : ℕ
  pub write : ℕ

abbrev pub pipe_of : PipeFds → Pipe
pipe_of a = record { read = a.read_fd; write = a.write_fd }

-- `Pipe::create`; `none` is the error.
unfoldable pub create_pipe : Option PipeFds → Descriptors → Option Pipe × Descriptors
unfolding open_as
create_pipe none t = (none, t)
create_pipe (some a) t =
    (some (pipe_of a), open_as a.write_fd a.write_end (open_as a.read_fd a.read_end t))

-- The destructors of a `Pipe`'s members, the last one first: `~FileDescriptor` closes.
unfoldable pub destroy_pipe : Pipe → Descriptors → Descriptors
unfolding close_fd
destroy_pipe p t = close_fd p.read (close_fd p.write t)

unfoldable pub destroy_result : Option Pipe → Descriptors → Descriptors
unfolding destroy_pipe
destroy_result none t = t
destroy_result (some p) t = destroy_pipe p t

-- The parent in `launch`.
unfoldable pub launch_closes : Pipe → Pipe → Descriptors → Descriptors
unfolding close_fd
launch_closes p q t = close_fd q.write (close_fd p.write t)

-- The end of `run`, the last variable first: the two `stream_descriptor`s close what they were given,
-- then the two pipes go.
unfoldable pub run_ends : Pipe → Pipe → Descriptors → Descriptors
unfolding close_fd destroy_pipe
run_ends p q t = destroy_pipe p (destroy_pipe q (close_fd p.read (close_fd q.read t)))

-- The parent from `launch` on, where `result` is that of `run`. `none`: the loop runs still.
unfoldable pub launched :
    Pipe
    → Pipe
    → Option SystemResult
    → (Descriptors → Descriptors)
    → Descriptors
    → Option SystemResult × Descriptors
unfolding launch_closes run_ends
launched p q none others t = (none, others (launch_closes p q t))
launched p q (some sr) others t = (some sr, run_ends p q (others (launch_closes p q t)))

-- `run`, with the two answers of `pipe`.
unfoldable pub run_files :
    SystemCmd
    → Option PipeFds
    → Option PipeFds
    → ℤ
    → Status
    → ℤ
    → List Io
    → (Descriptors → Descriptors)
    → Descriptors
    → Option SystemResult × Descriptors
unfolding create_pipe destroy_result launched run
run_files c a b pid status exit_code es others t =
    let (p, t1) = create_pipe a t in
    let (q, t2) = create_pipe b t1 in
    elim p [
      | none ↦ (run c false pid status exit_code es, destroy_result q t2)
      | some p' ↦ elim q [
        | none ↦ (run c false pid status exit_code es, destroy_pipe p' t2)
        | some q' ↦ launched p' q' (run c true pid status exit_code es) others t2
      ]
    ]
