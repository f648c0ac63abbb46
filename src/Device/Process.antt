-- ===== src/Device/Process.antt =====
-- system_cmd.hpp: a command that runs. The child, its pipes and the loop of boost's io_service are the
-- system's: what they do is a list of events, in the order in which the loop hands them out.
pub mod Ends
pub mod Files
pub mod Killed
pub mod Routes
mod Tests
use tunator.Prelude.{
  ℕ, suc, Bool, true, false, ◌||◌, List, [], ◌∷◌, ◌++◌, Option, none, some, ℤ, pos, negsuc,
  if◌then◌else◌,
}
use tunator.Text.{Text}
use tunator.Device.Command.{SystemCmd, dump, run_ok}

-- What `waitpid` stores, as `WIFEXITED` and `WEXITSTATUS` take it apart.
pub data Status : Type 0 where
  exited : ℕ → Status
  signalled : ℕ → Status

-- How an `async_read` ends.
pub data ErrorCode : Type 0 where
  success eof failed : ErrorCode

-- SIGCHLD, with what the calls of `waitpid` then yield; a block from either pipe.
pub data Io : Type 0 where
  sigchld : List Status → Io
  out err : ErrorCode → Text → Io

pub record SystemResult : Type 0 where
  pub sout : Text
  pub serr : Text
  pub cmd : Text
  pub ok : Bool
  pub status_code : Status
  pub exit_code : ℤ
  pub wait_pid : ℤ

-- The result, and which of the three handlers wait.
pub record Running : Type 0 where
  pub sr : SystemResult
  pub sigchld_waits : Bool
  pub out_waits : Bool
  pub err_waits : Bool

-- `while (waitpid(..., &statusCode, WNOHANG) > 0) {}`
unfoldable pub reap : List Status → Status → Status
reap [] status = status
reap (x ∷ xs) status = reap xs x

-- The test of `WIFEXITED`.
unfoldable pub take_status : Status → Running → Running
take_status (exited code) p = record p {
  sr = record (p.sr) { status_code = exited code; exit_code = pos code };
  sigchld_waits = false;
}
take_status (signalled n) p = record p {
  sr = record (p.sr) { status_code = signalled n };
  sigchld_waits = true;
}

-- The handler of `handleSigChild`.
unfoldable pub handle_sig_child : List Status → Running → Running
unfolding reap take_status
handle_sig_child statuses p = elim p.sr.wait_pid [
  | pos (suc pid) ↦ take_status (reap statuses p.sr.status_code) p
  | _ ↦ record p { sigchld_waits = false }
]

-- The handler of `register_read`: what is appended, and whether it is registered again.
unfoldable pub read_block : ErrorCode → Text → Text → Text × Bool
read_block success bytes output = (output ++ bytes, true)
read_block eof bytes output = (output ++ bytes, false)
read_block failed bytes output = (output, false)

unfoldable pub handle_io : Io → Running → Running
unfolding handle_sig_child read_block
handle_io (sigchld statuses) p = if p.sigchld_waits then handle_sig_child statuses p else p
handle_io (out ec bytes) p =
    let (sout, again) = read_block ec bytes p.sr.sout in
    if p.out_waits then record p { sr = record (p.sr) { sout = sout }; out_waits = again } else p
handle_io (err ec bytes) p =
    let (serr, again) = read_block ec bytes p.sr.serr in
    if p.err_waits then record p { sr = record (p.sr) { serr = serr }; err_waits = again } else p

-- `io_service.run()`: it returns when no handler waits. `none`: it waits still.
unfoldable pub io_run : List Io → Running → Option Running
unfolding handle_io
io_run [] p = if p.sigchld_waits || (p.out_waits || p.err_waits) then none else some p
io_run (e ∷ es) p =
    let more = io_run es (handle_io e p) in
    if p.sigchld_waits || (p.out_waits || p.err_waits) then more else some p

-- `status` and `exit_code` stand for what the members hold before they are set.
abbrev pub result_init : Status → ℤ → ℤ → SystemResult
result_init status exit_code pid = record {
  sout = [];
  serr = [];
  cmd = [];
  ok = false;
  status_code = status;
  exit_code = exit_code;
  wait_pid = pid;
}

-- `run`, where `piped` tells whether both pipes could be made, and `pid` is what `fork` returned (what
-- the member holds, where there is no `fork`).
unfoldable pub run : SystemCmd → Bool → ℤ → Status → ℤ → List Io → Option SystemResult
unfolding io_run run_ok dump
run c piped pid status exit_code es =
    let sr = result_init status exit_code pid in
    let p : Running = record {
      sr = sr;
      sigchld_waits = true;
      out_waits = true;
      err_waits = true;
    } in
    if piped
    then (elim (io_run es p) [
      | none ↦ none
      | some q ↦
          some (record (q.sr) { ok = run_ok q.sr.exit_code q.sr.sout q.sr.serr; cmd = dump c })
    ])
    else some sr
