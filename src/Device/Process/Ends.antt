-- ===== src/Device/Process/Ends.antt =====
-- Ends: when a command's run returns, and with what.
use tunator.Prelude.{
  ℕ, suc, ◌≡◌, refl, sym, ap, ◌∙◌, Bool, true, false, ◌||◌, List, [], ◌∷◌, ◌++◌, Option, some, ℤ,
  pos, if◌then◌else◌,
}
use mathlib.Core.List.{append_assoc, append-nil}
use tunator.Text.{Text}
use tunator.Device.Command.{SystemCmd, dump, run_ok}
use tunator.Device.Process.{
  Status, exited, success, eof, Io, sigchld, out, err, SystemResult, Running, io_run, run,
  result_init,
}

-- What a child does that will still print `o` and `e`, and exit with `code`: the flags tell which of its
-- exit and its two outputs are still to come, and blocks arrive in any order.
pub data Lives (code : ℕ) : Bool → Bool → Bool → Text → Text → List Io → Type 0 where
  over : (o e : Text) → o ≡ [] → e ≡ [] → Lives code false false false o e []
  exits :
      (a b : Bool) (o e : Text) (es : List Io)
      → Lives code false a b o e es
      → Lives code true a b o e (sigchld (exited code ∷ []) ∷ es)
  out_more :
      (s b : Bool) (bytes o o' e : Text) (es : List Io)
      → o' ≡ bytes ++ o
      → Lives code s true b o e es
      → Lives code s true b o' e (out success bytes ∷ es)
  out_ends :
      (s b : Bool) (bytes o e : Text) (es : List Io)
      → o ≡ []
      → Lives code s false b o e es
      → Lives code s true b bytes e (out eof bytes ∷ es)
  err_more :
      (s a : Bool) (bytes o e e' : Text) (es : List Io)
      → e' ≡ bytes ++ e
      → Lives code s a true o e es
      → Lives code s a true o e' (err success bytes ∷ es)
  err_ends :
      (s a : Bool) (bytes o e : Text) (es : List Io)
      → e ≡ []
      → Lives code s a false o e es
      → Lives code s a true o bytes (err eof bytes ∷ es)

-- The loop returned with the rest of the output, and with the exit code if that was still to come.
record Returned (code : ℕ) (s : Bool) (p : Running) (o e : Text) (r : Option Running) : Type 0 where
  state : Running
  came : r ≡ some state
  sout : state.sr.sout ≡ p.sr.sout ++ o
  serr : state.sr.serr ≡ p.sr.serr ++ e
  exit : state.sr.exit_code ≡ (if s then pos code else p.sr.exit_code)

abbrev waiting : Bool → Bool → Bool → ℕ → SystemResult → Running
waiting s a b pid sr = record {
  sr = record sr { wait_pid = pos (suc pid) };
  sigchld_waits = s;
  out_waits = a;
  err_waits = b;
}

or_true : (s : Bool) → (s || true) ≡ true
or_true true = refl
or_true false = refl

-- Appending what is still to come in two parts.
append_two : (x y z w bytes : Text) → w ≡ bytes ++ z → y ≡ (x ++ bytes) ++ z → y ≡ x ++ w
append_two x y z w bytes e h = h ∙ append_assoc x bytes z ∙ ap (λ t. x ++ t) (sym e)

append_last : (x y z bytes : Text) → z ≡ [] → y ≡ (x ++ bytes) ++ z → y ≡ x ++ bytes
append_last x y z bytes e h = h ∙ ap (λ t. (x ++ bytes) ++ t) e ∙ append-nil (x ++ bytes)

append_none : (x z : Text) → z ≡ [] → x ≡ x ++ z
append_none x z e = sym (ap (λ t. x ++ t) e ∙ append-nil x)

io_run-Lives :
    (code : ℕ) {s a b : Bool} {o e : Text} {es : List Io}
    → Lives code s a b o e es
    → (pid : ℕ) (sr : SystemResult)
    → Returned code s (waiting s a b pid sr) o e (io_run es (waiting s a b pid sr))
unfolding io_run
io_run-Lives code (over o e eo ee) pid sr = record {
  state = waiting false false false pid sr;
  came = refl;
  sout = append_none sr.sout o eo;
  serr = append_none sr.serr e ee;
  exit = refl;
}
io_run-Lives code (exits a b o e es l) pid sr =
    let ih =
      io_run-Lives code l pid (record sr { status_code = exited code; exit_code = pos code }) in
    record { state = ih.state; came = ih.came; sout = ih.sout; serr = ih.serr; exit = ih.exit }
io_run-Lives code (out_more s b bytes o o' e es eq l) pid sr =
    let ih = io_run-Lives code l pid (record sr { sout = sr.sout ++ bytes }) in
    record {
      state = ih.state;
      came = rw (or_true s) ih.came;
      sout = append_two sr.sout _ o o' bytes eq ih.sout;
      serr = ih.serr;
      exit = ih.exit;
    }
io_run-Lives code (out_ends s b bytes o e es eq l) pid sr =
    let ih = io_run-Lives code l pid (record sr { sout = sr.sout ++ bytes }) in
    record {
      state = ih.state;
      came = rw (or_true s) ih.came;
      sout = append_last sr.sout _ o bytes eq ih.sout;
      serr = ih.serr;
      exit = ih.exit;
    }
io_run-Lives code (err_more s a bytes o e e' es eq l) pid sr =
    let ih = io_run-Lives code l pid (record sr { serr = sr.serr ++ bytes }) in
    record {
      state = ih.state;
      came = rw (or_true a, or_true s) ih.came;
      sout = ih.sout;
      serr = append_two sr.serr _ e e' bytes eq ih.serr;
      exit = ih.exit;
    }
io_run-Lives code (err_ends s a bytes o e es eq l) pid sr =
    let ih = io_run-Lives code l pid (record sr { serr = sr.serr ++ bytes }) in
    record {
      state = ih.state;
      came = rw (or_true a, or_true s) ih.came;
      sout = ih.sout;
      serr = append_last sr.serr _ e bytes eq ih.serr;
      exit = ih.exit;
    }

-- A command whose pipes could be made and whose child prints `o` and `e` and exits with `code`, in any
-- order of the blocks and of the exit, runs to an end: the result has both outputs, the exit code, the
-- text of the command, and the success that follows from the exit code and the outputs.
pub run_returns :
    (c : SystemCmd) (pid code : ℕ) (status : Status) (garbage : ℤ) (o e : Text) (es : List Io)
    → Lives code true true true o e es
    → (sr : SystemResult) × (run c true (pos (suc pid)) status garbage es ≡ some sr)
      × (sr.sout ≡ o)
      × (sr.serr ≡ e)
      × (sr.exit_code ≡ pos code)
      × (sr.ok ≡ run_ok (pos code) o e)
      × (sr.cmd ≡ dump c)
unfolding run
run_returns c pid code status garbage o e es l =
    let ret = io_run-Lives code l pid (result_init status garbage (pos (suc pid))) in
    let q = ret.state in
    (
      record (q.sr) { ok = run_ok q.sr.exit_code q.sr.sout q.sr.serr; cmd = dump c },
      rw (ret.came) refl,
      ret.sout,
      ret.serr,
      ret.exit,
      rw (ret.exit, ret.sout, ret.serr) refl,
      refl,
    )
