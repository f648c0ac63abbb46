-- ===== src/Device/Process/Tests.antt =====
-- Runs of commands, and the theorems on them at concrete inputs.
use tunator.Prelude.{
  ℕ, arith, ltb, if◌then◌else◌, ◌≡◌, refl, true, false, List, [], ◌∷◌, ◌++◌, none, some, pos,
}
use tunator.Text.{Text, codes, ok}
use tunator.Route.Linux.{serialize_all}
use tunator.Route.Tests.{three, three_laws, tokens, tokens_laws, routes, routes-IsPrintable}
use tunator.Device.Process.Routes.{Child, Prints, read_routes, read_routes-Prints}
use tunator.Device.Command.{SystemCmd, system_cmd, dump, run_ok}
use tunator.Device.Process.{
  exited, signalled, success, eof, Io, sigchld, out, err, SystemResult, run,
}
use tunator.Device.Process.Ends.{Lives, over, exits, out_more, out_ends, err_ends, run_returns}
use tunator.Device.Process.Files.{
  Descriptors, open_as, close_fd, PipeFds, create_pipe, launch_closes, launched, run_files,
}
use tunator.Device.Process.Files.Closed.{Leaves, run_files-Leaves, run_files_closes_other}
use tunator.Device.Process.Killed.{killed_never_returns}

abbrev failing : SystemCmd
failing = system_cmd (codes "/bin/none")

-- The exit is seen between two blocks of the output.
abbrev failing_runs : List Io
failing_runs =
    out success (codes "[exec")
    ∷ err eof (codes "[exec failed]")
    ∷ sigchld (exited 42 ∷ [])
    ∷ out eof (codes " failed]")
    ∷ []

failing-Lives : Lives 42 true true true (codes "[exec failed]") (codes "[exec failed]") failing_runs
failing-Lives = out_more true true (codes "[exec") (codes " failed]") _ _ _ refl (
    err_ends true true _ _ [] _ refl
      (exits true false _ [] _ (out_ends false false _ [] [] _ refl (over [] [] refl refl))))

abbrev failing_ends :
    (sr : SystemResult) × (run failing true (pos 9) (signalled 0) (pos 0) failing_runs ≡ some sr)
failing_ends =
    let ends =
      run_returns failing 8 42 (signalled 0) (pos 0) (codes "[exec failed]") (codes "[exec failed]")
        failing_runs failing-Lives in
    (ends.0, ends.1)

run_returns_example :
    (sr : SystemResult) × (run failing true (pos 9) (signalled 0) (pos 0) failing_runs ≡ some sr)
    × (sr.sout ≡ codes "[exec failed]")
    × (sr.serr ≡ codes "[exec failed]")
    × (sr.exit_code ≡ pos 42)
    × (sr.ok ≡ run_ok (pos 42) (codes "[exec failed]") (codes "[exec failed]"))
    × (sr.cmd ≡ dump failing)
run_returns_example =
    run_returns failing 8 42 (signalled 0) (pos 0) (codes "[exec failed]") (codes "[exec failed]")
      failing_runs failing-Lives

killed_never_returns_example :
    run failing true
      (pos 9)
      (signalled 0)
      (pos 0)
      (sigchld (signalled 9 ∷ []) ∷ out eof [] ∷ err eof [] ∷ [])
    ≡ none
killed_never_returns_example =
    killed_never_returns failing 8 (signalled 0) (pos 0)
      (sigchld (signalled 9 ∷ []) ∷ out eof [] ∷ err eof [] ∷ []) (λ code e. cc)
      (((λ code e. cc), tt), (tt, (tt, tt)))

-- It prints a text in one block, and exits before the output ends.
abbrev printing : Text → Child
printing text = record {
  piped = true;
  pid = pos 9;
  status = signalled 0;
  exit_code = pos 0;
  events = err eof [] ∷ sigchld (exited 0 ∷ []) ∷ out eof text ∷ [];
}

printing-Prints : (text : Text) → Prints text [] 0 (printing text)
printing-Prints text = record {
  made = refl;
  number = 8;
  forked = refl;
  lives =
      err_ends true true [] text [] _ refl (
        exits true false text [] _ (out_ends false false text [] [] _ refl (over [] [] refl refl)));
}

read_routes-Prints_example :
    read_routes three tokens
      (printing (serialize_all three routes))
      (printing (serialize_all three []))
    ≡ some (ok (routes ++ []))
read_routes-Prints_example =
    read_routes-Prints three three_laws tokens tokens_laws routes [] [] []
      (printing (serialize_all three routes)) (printing (serialize_all three [])) routes-IsPrintable
      tt (printing-Prints (serialize_all three routes)) (printing-Prints (serialize_all three []))

-- The standard descriptors are open, and the pipes get the next four.
abbrev standard : Descriptors
standard n = if ltb n 3 then some n else none

abbrev out_pipe : PipeFds
out_pipe = record { read_fd = 3; write_fd = 4; read_end = 10; write_end = 11 }

abbrev err_pipe : PipeFds
err_pipe = record { read_fd = 5; write_fd = 6; read_end = 12; write_end = 13 }

run_files-Leaves_example : Leaves (some out_pipe) (some err_pipe) standard (
    run_files failing
      (some out_pipe)
      (some err_pipe)
      (pos 9)
      (signalled 0)
      (pos 0)
      failing_runs
      (λ u. u)
      standard)
unfolding create_pipe open_as
run_files-Leaves_example =
    run_files-Leaves failing (some out_pipe) (some err_pipe) (pos 9) (signalled 0) (pos 0)
      failing_runs standard (refl, refl) (refl, refl)

-- Another thread opens its file while the command runs, as number 4.
run_files_closes_other_example :
    (◌≡◌ {A = ℕ} 4 4)
    × ((run_files failing
            (some out_pipe)
            (some err_pipe)
            (pos 9)
            (signalled 0)
            (pos 0)
            failing_runs
            (open_as 4 20)
            standard).1
          4
        ≡ none)
unfolding create_pipe open_as run_files run launched launch_closes close_fd
run_files_closes_other_example =
    run_files_closes_other failing out_pipe err_pipe (pos 9) (signalled 0) (pos 0) failing_runs
      standard 4 20 failing_ends.0 ((refl, λ m lt. ground arith), (refl, λ m lt. ground arith))
      ((refl, λ m lt. ground arith), (refl, λ m lt. ground arith)) (refl, λ m lt. ground arith)
      failing_ends.1
