-- ===== src/Start/Options.antt =====
-- Options: what the options of a command line set.
use tunator.Prelude.{
  ℕ, size_of_int, ◌≡◌, refl, ap, ◌∙◌, Bool, true, false, List, [], ◌∷◌, ◌++◌, Option, none, some, ℤ,
  All, arith, if◌then◌else◌,
}
use tunator.Text.{Text, codes, text_eq, Outcome, ok, err, thrown, Exception, stoi, ◌>>=◌}
use tunator.Server.{hash_string_to_int}
use tunator.Start.{
  TunaTor, LongOption, GetOpt, long_option, not_long, mtu_option, qsize_option, address_option,
  port_option, threads_option, cert_option, key_option, stat_frequence_option, option_name,
  short_of_int, set_option, args_loop, args, tuna_tor_init,
}

-- The options whose argument is read as a number.
abbrev pub is_numeric : LongOption → Bool
is_numeric address_option = false
is_numeric cert_option = false
is_numeric key_option = false
is_numeric _ = true

-- The argument of a numeric option is a number.
abbrev pub IsRead : GetOpt → Type 0
IsRead not_long = Unit
IsRead (long_option o optarg) = if is_numeric o then ((z : ℤ) × (stoi optarg ≡ ok z)) else Unit

-- The argument of an option with that name.
abbrev argument : Text → GetOpt → Option Text
argument name not_long = none
argument name (long_option o optarg) = if text_eq (option_name o) name then some optarg else none

abbrev or_else : Option Text → Option Text → Option Text
or_else (some t) o = some t
or_else none o = o

-- The argument of the last of the options with that name.
unfoldable pub last_argument : Text → List GetOpt → Option Text
last_argument name [] = none
last_argument name (e ∷ es) = or_else (last_argument name es) (argument name e)

-- The number in an argument.
abbrev pub number_in : (ℤ → ℕ) → Text → ℕ
number_in narrow t = elim (stoi t) [ ok z ↦ narrow z | err e ↦ 0 | thrown e ↦ 0 ]

abbrev pub from_last {ℓ} : {A : Type ℓ} → (Text → A) → A → Option Text → A
from_last f d none = d
from_last f d (some t) = f t

-- Each setting is the argument of the last option of its name, or what it was.
abbrev pub settings : (Text → Option Text) → TunaTor → TunaTor
settings last t = record t {
  mtu = from_last (number_in short_of_int) t.mtu (last (codes "mtu"));
  q_size = from_last (number_in short_of_int) t.q_size (last (codes "qsize"));
  address = from_last (λ a. a) t.address (last (codes "address"));
  port = from_last (number_in short_of_int) t.port (last (codes "port"));
  threads = from_last (number_in size_of_int) t.threads (last (codes "threads"));
  cert = from_last some t.cert (last (codes "cert"));
  key = from_last some t.key (last (codes "key"));
  stat_frequence =
      from_last (number_in size_of_int) t.stat_frequence (last (codes "statFrequence"));
}

from_last-or_else {ℓ} :
    {A : Type ℓ} (f : Text → A) (d : A) (a b : Option Text)
    → from_last f d (or_else a b) ≡ from_last f (from_last f d b) a
from_last-or_else f d none b = refl
from_last-or_else f d (some t) b = refl

number_in-ok : (narrow : ℤ → ℕ) (t : Text) (z : ℤ) → stoi t ≡ ok z → number_in narrow t ≡ narrow z
number_in-ok narrow t z e = rw (e, number_in) refl

set_option_lem :
    (o : LongOption) (optarg : Text) (t : TunaTor)
    → IsRead (long_option o optarg)
    → set_option (option_name o) optarg t
      ≡ ok (settings (λ name. argument name (long_option o optarg)) t)
unfolding set_option option_name hash_string_to_int text_eq
set_option_lem mtu_option optarg t (z, e) = rw (e, number_in-ok short_of_int optarg z e) refl
set_option_lem qsize_option optarg t (z, e) = rw (e, number_in-ok short_of_int optarg z e) refl
set_option_lem address_option optarg t h = refl
set_option_lem port_option optarg t (z, e) = rw (e, number_in-ok short_of_int optarg z e) refl
set_option_lem threads_option optarg t (z, e) = rw (e, number_in-ok size_of_int optarg z e) refl
set_option_lem cert_option optarg t h = refl
set_option_lem key_option optarg t h = refl
set_option_lem stat_frequence_option optarg t (z, e) =
    rw (e, number_in-ok size_of_int optarg z e) refl

settings-settings :
    (last : Text → Option Text) (e : GetOpt) (t : TunaTor)
    → settings last (settings (λ name. argument name e) t)
      ≡ settings (λ name. or_else (last name) (argument name e)) t
settings-settings last e t =
    rw
      (
        from_last-or_else (number_in short_of_int) t.mtu (last (codes "mtu"))
            (argument (codes "mtu") e),
        from_last-or_else (number_in short_of_int) t.q_size (last (codes "qsize"))
            (argument (codes "qsize") e),
        from_last-or_else (λ a. a) t.address (last (codes "address"))
            (argument (codes "address") e),
        from_last-or_else (number_in short_of_int) t.port (last (codes "port"))
            (argument (codes "port") e),
        from_last-or_else (number_in size_of_int) t.threads (last (codes "threads"))
            (argument (codes "threads") e),
        from_last-or_else some t.cert (last (codes "cert")) (argument (codes "cert") e),
        from_last-or_else some t.key (last (codes "key")) (argument (codes "key") e),
        from_last-or_else (number_in size_of_int) t.stat_frequence (last (codes "statFrequence"))
            (argument (codes "statFrequence") e),
      )
      refl

args_loop_lem :
    (es : List GetOpt) (t : TunaTor)
    → All IsRead es
    → args_loop es t ≡ ok (settings (λ name. last_argument name es) t)
unfolding args_loop last_argument
args_loop_lem [] t h = refl
args_loop_lem (not_long ∷ es) t h =
    args_loop_lem es t h.1 ∙ ap ok (settings-settings (λ name. last_argument name es) not_long t)
args_loop_lem (long_option o optarg ∷ es) t h =
    let e = long_option o optarg in
    rw (set_option_lem o optarg t h.0) (
      args_loop_lem es (settings (λ name. argument name e) t) h.1
      ∙ ap ok (settings-settings (λ name. last_argument name es) e t))

bind_append :
    (es fs : List GetOpt) (r : Outcome TunaTor)
    → ((t : TunaTor) → args_loop (es ++ fs) t ≡ (args_loop es t >>= (λ next. args_loop fs next)))
    → (r >>= (λ t. args_loop (es ++ fs) t))
      ≡ (r >>= (λ t. args_loop es t) >>= (λ next. args_loop fs next))
bind_append es fs (ok t) h = h t
bind_append es fs (err x) h = refl
bind_append es fs (thrown x) h = refl

args_loop-append :
    (es fs : List GetOpt) (t : TunaTor)
    → args_loop (es ++ fs) t ≡ (args_loop es t >>= (λ next. args_loop fs next))
unfolding args_loop
args_loop-append [] fs t = refl
args_loop-append (not_long ∷ es) fs t = args_loop-append es fs t
args_loop-append (long_option o optarg ∷ es) fs t =
    bind_append es fs (set_option (option_name o) optarg t) (λ next. args_loop-append es fs next)

set_option-thrown :
    (o : LongOption) (optarg : Text) (t : TunaTor) (x : Exception)
    → is_numeric o ≡ true
    → stoi optarg ≡ thrown x
    → set_option (option_name o) optarg t ≡ thrown x
unfolding set_option option_name hash_string_to_int
set_option-thrown mtu_option optarg t x n e = rw e refl
set_option-thrown qsize_option optarg t x n e = rw e refl
set_option-thrown port_option optarg t x n e = rw e refl
set_option-thrown threads_option optarg t x n e = rw e refl
set_option-thrown stat_frequence_option optarg t x n e = rw e refl
set_option-thrown address_option optarg t x n e = absurd (ground arith)
set_option-thrown cert_option optarg t x n e = absurd (ground arith)
set_option-thrown key_option optarg t x n e = absurd (ground arith)

-- When the argument of every numeric option is a number, TunaTor::args returns, and each setting is the
-- argument of the last option of its name, as text or as a number narrowed to 16 or 64 bits, or its
-- default when there is no such option.
pub args-settings :
    (es : List GetOpt)
    → All IsRead es
    → args es ≡ ok (settings (λ name. last_argument name es) tuna_tor_init)
unfolding args
args-settings es h = args_loop_lem es tuna_tor_init h

-- At the first numeric option whose argument `std::stoi` refuses, TunaTor::args is left by its exception.
pub args-thrown :
    (es fs : List GetOpt) (o : LongOption) (optarg : Text) (x : Exception)
    → All IsRead es
    → is_numeric o ≡ true
    → stoi optarg ≡ thrown x
    → args (es ++ long_option o optarg ∷ fs) ≡ thrown x
unfolding args args_loop
args-thrown es fs o optarg x h n e =
    let t = settings (λ name. last_argument name es) tuna_tor_init in
    args_loop-append es (long_option o optarg ∷ fs) tuna_tor_init
    ∙ rw (args_loop_lem es tuna_tor_init h) (rw (set_option-thrown o optarg t x n e) refl)
