-- ===== src/Device/Process/Routes.antt =====
-- linux_ip_route.hpp: LinuxIpRoute::read, the routes of the host as `ip` prints them.
use tunator.Prelude.{
  ℕ, zero, suc, ◌≡◌, refl, sym, ap, ◌∙◌, Bool, true, false, not, ◌||◌, List, [], ◌∷◌, ◌++◌, Option,
  none, some, ℤ, pos, All, All-append, if◌then◌else◌,
}
use mathlib.Core.List.{append_assoc}
use tunator.Text.{Text, codes, Outcome, ok, err}
use tunator.Route.Library.{IpLibrary, IpLaws, Tokenizer, TokenizerLaws}
use tunator.Route.IpRoute.{IpRoute}
use tunator.Route.Linux.{serialize, serialize_all, parse}
use tunator.Route.Linux.Fields.{IsPrintable}
use tunator.Route.Linux.RoundTrip.{parse-serialize_all}
use tunator.Device.Command.{SystemCmd, system_cmd, arg, run_ok}
use tunator.Device.Process.{Status, Io, SystemResult, run}
use tunator.Device.Process.Ends.{Lives, run_returns}

-- What a command meets when it runs: the arguments of `run`.
pub record Child : Type 0 where
  pub piped : Bool
  pub pid : ℤ
  pub status : Status
  pub exit_code : ℤ
  pub events : List Io

unfoldable pub run_child : SystemCmd → Child → Option SystemResult
unfolding run
run_child c child = run c child.piped child.pid child.status child.exit_code child.events

unfoldable pub list_routes : Text → SystemCmd
list_routes family =
    arg (codes "list") (arg (codes "route") (arg family (system_cmd (codes "/sbin/ip"))))

abbrev is_zero : ℤ → Bool
is_zero (pos zero) = true
is_zero _ = false

module _ (ip : IpLibrary) (tokens : Tokenizer) where
  abbrev read_results : SystemResult → SystemResult → Outcome (List (IpRoute ip))
  read_results srv4 srv6 =
      if not srv4.ok
        || (not srv6.ok || (not (is_zero srv4.exit_code) || not (is_zero srv6.exit_code)))
      then err (codes "failure while running ip command")
      else parse ip tokens (srv4.sout ++ srv6.sout)

  -- `LinuxIpRoute::read`, with the children of its two commands; `none`: a command does not return.
  unfoldable pub read_routes : Child → Child → Option (Outcome (List (IpRoute ip)))
  unfolding run_child
  read_routes child4 child6 = elim (run_child (list_routes (codes "-4")) child4) [
    | none ↦ none
    | some srv4 ↦ elim (run_child (list_routes (codes "-6")) child6) [
      | none ↦ none
      | some srv6 ↦ some (read_results srv4 srv6)
    ]
  ]

-- The child prints `o` to its output and `e` to the other, and exits with the code.
pub record Prints (o e : Text) (code : ℕ) (child : Child) : Type 0 where
  pub made : child.piped ≡ true
  pub number : ℕ
  pub forked : child.pid ≡ pos (suc number)
  pub lives : Lives code true true true o e child.events

-- What is used of `run_returns`.
record Ran (o : Text) (code : ℕ) (good : Bool) (r : Option SystemResult) : Type 0 where
  sr : SystemResult
  came : r ≡ some sr
  sout : sr.sout ≡ o
  exit : sr.exit_code ≡ pos code
  fine : sr.ok ≡ good

run_child-Ran :
    (c : SystemCmd) (o e : Text) (code : ℕ) (child : Child)
    → Prints o e code child
    → Ran o code (run_ok (pos code) o e) (run_child c child)
unfolding run_child
run_child-Ran c o e code child p =
    let (sr, came, sout, _, exit, fine, _) =
      run_returns c p.number code child.status child.exit_code o e child.events p.lives in
    record {
      sr = sr;
      came =
          ap (λ b. run c b child.pid child.status child.exit_code child.events) p.made
          ∙ ap (λ z. run c true z child.status child.exit_code child.events) p.forked
          ∙ came;
      sout = sout;
      exit = exit;
      fine = fine;
    }

module _ (ip : IpLibrary) (laws : IpLaws ip) (tokens : Tokenizer)
    (splits : TokenizerLaws tokens) where
  serialize_all-append :
      (xs ys : List (IpRoute ip))
      → serialize_all ip (xs ++ ys) ≡ serialize_all ip xs ++ serialize_all ip ys
  unfolding serialize_all
  serialize_all-append [] ys = refl
  serialize_all-append (x ∷ xs) ys =
      ap (λ t. serialize ip x ++ 10 ∷ t) (serialize_all-append xs ys)
      ∙ sym (append_assoc (serialize ip x) (10 ∷ serialize_all ip xs) (serialize_all ip ys))

  read_results-Ran :
      (xs ys : List (IpRoute ip)) (a b : Option SystemResult)
      (ra : Ran (serialize_all ip xs) 0 true a) (rb : Ran (serialize_all ip ys) 0 true b)
      → All (IsPrintable ip) xs
      → All (IsPrintable ip) ys
      → read_results ip tokens ra.sr rb.sr ≡ ok (xs ++ ys)
  read_results-Ran xs ys a b ra rb px py =
      rw (ra.fine, rb.fine, ra.exit, rb.exit, ra.sout, rb.sout)
        (ap (parse ip tokens) (sym (serialize_all-append xs ys))
          ∙ parse-serialize_all ip laws tokens splits (xs ++ ys)
              (All-append (IsPrintable ip) xs ys px py))

  -- When the two commands print the texts of two lists of routes and exit with 0, in any order of their
  -- blocks and exits, LinuxIpRoute::read returns both lists, one behind the other, if every gateway and
  -- source is a single host, every name is a word, and every metric fits in an `int`.
  pub read_routes-Prints :
      (xs ys : List (IpRoute ip)) (e e' : Text) (child4 child6 : Child)
      → All (IsPrintable ip) xs
      → All (IsPrintable ip) ys
      → Prints (serialize_all ip xs) e 0 child4
      → Prints (serialize_all ip ys) e' 0 child6
      → read_routes ip tokens child4 child6 ≡ some (ok (xs ++ ys))
  unfolding read_routes
  read_routes-Prints xs ys e e' child4 child6 px py p q =
      let ra = run_child-Ran (list_routes (codes "-4")) (serialize_all ip xs) e 0 child4 p in
      let rb = run_child-Ran (list_routes (codes "-6")) (serialize_all ip ys) e' 0 child6 q in
      rw (ra.came, rb.came, read_routes) (ap some (read_results-Ran xs ys _ _ ra rb px py))
