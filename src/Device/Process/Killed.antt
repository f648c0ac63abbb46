-- ===== src/Device/Process/Killed.antt =====
-- Killed: a command whose child is not seen to exit.
use tunator.Prelude.{
  ℕ, suc, ◌≡◌, ◌≢◌, refl, sym, Bool, true, false, List, [], ◌∷◌, none, ℤ, pos, All, if◌then◌else◌,
  subst,
}
use tunator.Device.Command.{SystemCmd}
use tunator.Device.Process.{
  Status, exited, signalled, Io, sigchld, out, err, Running, reap, take_status, handle_sig_child,
  read_block, handle_io, io_run, run, result_init,
}

-- No `waitpid` yields an exit.
abbrev pub IsKill : Status → Type 0
IsKill status = (code : ℕ) → status ≢ exited code

abbrev pub NeverExits : Io → Type 0
NeverExits (sigchld statuses) = All IsKill statuses
NeverExits (out ec bytes) = Unit
NeverExits (err ec bytes) = Unit

reap-IsKill : (xs : List Status) (x : Status) → All IsKill xs → IsKill x → IsKill (reap xs x)
unfolding reap
reap-IsKill [] x h k = k
reap-IsKill (y ∷ ys) x h k = reap-IsKill ys y h.1 h.0

-- The handler of SIGCHLD waits, for a child that has a process and was not seen to exit.
record Stuck (p : Running) : Type 0 where
  waits : p.sigchld_waits ≡ true
  child : (pid : ℕ) × (p.sr.wait_pid ≡ pos (suc pid))
  no_exit : IsKill p.sr.status_code

take_status-Stuck :
    (x : Status) (p : Running)
    → IsKill x
    → (pid : ℕ) → p.sr.wait_pid ≡ pos (suc pid)
    → Stuck (take_status x p)
unfolding take_status
take_status-Stuck (exited code) p h pid e = absurd (h code refl)
take_status-Stuck (signalled n) p h pid e = record { waits = refl; child = (pid, e); no_exit = h }

handle_sig_child-Stuck :
    (xs : List Status) (p : Running) → All IsKill xs → Stuck p → Stuck (handle_sig_child xs p)
unfolding handle_sig_child
handle_sig_child-Stuck xs p h k =
    let (pid, e) = k.child in
    let next = take_status (reap xs p.sr.status_code) p in
    subst (λ w. Stuck (elim w [ pos (suc pid) ↦ next | _ ↦ record p { sigchld_waits = false } ]))
      (sym e)
      (take_status-Stuck (reap xs p.sr.status_code) p (reap-IsKill xs p.sr.status_code h k.no_exit)
        pid e)

if-Stuck : (b : Bool) (p q : Running) → Stuck p → Stuck q → Stuck (if b then p else q)
if-Stuck true p q hp hq = hp
if-Stuck false p q hp hq = hq

handle_io-Stuck : (e : Io) (p : Running) → NeverExits e → Stuck p → Stuck (handle_io e p)
unfolding handle_io
handle_io-Stuck (sigchld xs) p h k = simp (k.waits) (handle_sig_child-Stuck xs p h k)
handle_io-Stuck (out ec bytes) p h k =
    let (sout, again) = read_block ec bytes p.sr.sout in
    if-Stuck p.out_waits (record p { sr = record (p.sr) { sout = sout }; out_waits = again }) p
      (record { waits = k.waits; child = k.child; no_exit = k.no_exit }) k
handle_io-Stuck (err ec bytes) p h k =
    let (serr, again) = read_block ec bytes p.sr.serr in
    if-Stuck p.err_waits (record p { sr = record (p.sr) { serr = serr }; err_waits = again }) p
      (record { waits = k.waits; child = k.child; no_exit = k.no_exit }) k

io_run-Stuck : (es : List Io) (p : Running) → All NeverExits es → Stuck p → io_run es p ≡ none
unfolding io_run
io_run-Stuck [] p h k = rw (k.waits) refl
io_run-Stuck (e ∷ es) p h k =
    simp (k.waits) (io_run-Stuck es (handle_io e p) h.1 (handle_io-Stuck e p h.0 k))

-- A command whose child is never seen to exit, as one that a signal kills, never ends to run, whatever
-- else the loop hands out: SIGCHLD is waited for again. The status that is held at the start is no
-- exit either.
pub killed_never_returns :
    (c : SystemCmd) (pid : ℕ) (status : Status) (garbage : ℤ) (es : List Io)
    → IsKill status
    → All NeverExits es
    → run c true (pos (suc pid)) status garbage es ≡ none
unfolding run
killed_never_returns c pid status garbage es h hs =
    rw
      (io_run-Stuck es
        (record {
          sr = result_init status garbage (pos (suc pid));
          sigchld_waits = true;
          out_waits = true;
          err_waits = true;
        })
        hs (record { waits = refl; child = (pid, refl); no_exit = h }))
      refl
