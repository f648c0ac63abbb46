-- ===== src/Route/Tests.antt =====
-- Runs of the route texts over a small address library and a tokenizer, and the theorems at
-- concrete inputs.
use mathlib.Core.List.{append-nil, append_assoc}
use tunator.Prelude.{
  ℕ, ◌≡◌, ◌≢◌, refl, sym, ap, ◌∙◌, true, false, Option, none, some, List, [], ◌∷◌, ◌++◌, arith, All,
  if◌then◌else◌, Bool-cases, inl, inr, replicate,
}
use tunator.Text.{Text, codes, text_eq, ok, ◌>>=◌}
use tunator.Route.Library.{IpLibrary, IpLaws, Tokenizer, TokenizerLaws, member, is_address_byte}
use tunator.Route.IpRoute.{IpRoute, blank_route}
use tunator.Route.Linux
use tunator.Route.Linux.Fields.{IsPrintable}
use tunator.Route.Linux.Render.{IsPlain, IsWord}
use tunator.Route.Linux.RoundTrip.{parse-serialize_all}
use tunator.Route.Apple
use tunator.Route.Apple.Header.{header_becomes_routes}

-- Three addresses.
pub data Address : Type 0 where
  any net host : Address

abbrev address_text : Address → Text
address_text any = codes "0.0.0.0/0"
address_text net = codes "169.254.12.0/24"
address_text host = codes "169.254.12.1/32"

abbrev host_text : Address → Text
host_text any = codes "0.0.0.0"
host_text net = codes "169.254.12.0"
host_text host = codes "169.254.12.1"

abbrev read_address : Text → Option Address
read_address t =
    if text_eq t (codes "0.0.0.0/0")
    then some any
    else if text_eq t (codes "169.254.12.0/24")
    then some net
    else if text_eq t (codes "169.254.12.1/32")
    then some host
    else if text_eq t (codes "169.254.12.1")
    then some host
    else none

abbrev prefix : Address → ℕ
prefix any = 0
prefix net = 24
prefix host = 32

abbrev pub three : IpLibrary
three = record {
  Address = Address;
  blank = any;
  parse = read_address;
  to_string = address_text;
  to_s = host_text;
  prefix_num = prefix;
  bits = λ a. 32;
  parse_error = λ t. codes "unknown address";
  same_kind = λ a b. true;
  includes = λ a b. text_eq (host_text a) (codes "0.0.0.0");
}

pub read-address_text : (a : Address) → read_address (address_text a) ≡ some a
unfolding text_eq
read-address_text any = refl
read-address_text net = refl
read-address_text host = refl

pub read-host_text : (a : Address) → prefix a ≡ 32 → read_address (host_text a) ≡ some a
unfolding text_eq
read-host_text any h = absurd (omega arith)
read-host_text net h = absurd (omega arith)
read-host_text host h = refl

pub address_text_bytes : (a : Address) → All (λ c. is_address_byte c ≡ true) (address_text a)
address_text_bytes any = ground arith
address_text_bytes net = ground arith
address_text_bytes host = ground arith

pub host_text_bytes : (a : Address) → All (λ c. is_address_byte c ≡ true) (host_text a)
host_text_bytes any = ground arith
host_text_bytes net = ground arith
host_text_bytes host = ground arith

pub address_text-ne-nil : (a : Address) → address_text a ≢ []
address_text-ne-nil any e = cc
address_text-ne-nil net e = cc
address_text-ne-nil host e = cc

pub host_text-ne-nil : (a : Address) → host_text a ≢ []
host_text-ne-nil any e = cc
host_text-ne-nil net e = cc
host_text-ne-nil host e = cc

abbrev pub three_laws : IpLaws three
three_laws = record {
  parse-to_string = read-address_text;
  parse-to_s = read-host_text;
  to_string_bytes = address_text_bytes;
  to_string-ne-nil = address_text-ne-nil;
  to_s_bytes = host_text_bytes;
  to_s-ne-nil = host_text-ne-nil;
}

-- A token that ends, if it is not empty.
abbrev flush : Text → List Text → List Text
flush [] rest = rest
flush (c ∷ cs) rest = (c ∷ cs) ∷ rest

pub scan : List ℕ → Text → Text → List Text
scan seps token [] = flush token []
scan seps token (c ∷ cs) =
    let ended = flush token (scan seps [] cs) in
    let goes_on = scan seps (token ++ c ∷ []) cs in if member c seps then ended else goes_on

abbrev pub tokens : Tokenizer
tokens seps = scan seps []

flush-append : (token : Text) (xs ys : List Text) → flush token (xs ++ ys) ≡ flush token xs ++ ys
flush-append [] xs ys = refl
flush-append (c ∷ cs) xs ys = refl

pub scan_split :
    (seps : List ℕ) (token a b : Text) (c : ℕ)
    → member c seps ≡ true
    → scan seps token (a ++ c ∷ b) ≡ scan seps token a ++ scan seps [] b
unfolding scan
scan_split seps token [] b c h = rw h (flush-append token [] _)
scan_split seps token (x ∷ a) b c h = elim (Bool-cases (member x seps)) [
  | inl ends ↦ rw ends (ap (flush token) (scan_split seps [] a b c h) ∙ flush-append token _ _)
  | inr goes ↦ rw goes (scan_split seps (token ++ x ∷ []) a b c h)
]

scan_word :
    (seps : List ℕ) (token a : Text)
    → All (λ c. member c seps ≡ false) a
    → scan seps token a ≡ flush (token ++ a) []
unfolding scan
scan_word seps token [] h = ap (λ t. flush t []) (sym (append-nil token))
scan_word seps token (c ∷ a) h =
    rw h.0 (
      scan_word seps (token ++ c ∷ []) a h.1 ∙ ap (λ t. flush t []) (append_assoc token (c ∷ []) a))

flush_word : (a : Text) → a ≢ [] → flush a [] ≡ a ∷ []
flush_word [] ne = absurd (ne refl)
flush_word (c ∷ cs) ne = refl

pub tokens_word :
    (seps : List ℕ) (a : Text)
    → All (λ c. member c seps ≡ false) a
    → a ≢ []
    → scan seps [] a ≡ a ∷ []
tokens_word seps a h ne = scan_word seps [] a h ∙ flush_word a ne

pub scan_nil : (seps : List ℕ) → scan seps [] [] ≡ []
unfolding scan
scan_nil seps = refl

abbrev pub tokens_laws : TokenizerLaws tokens
tokens_laws = record {
  nothing = scan_nil;
  split = λ seps a b c h. scan_split seps [] a b c h;
  word = tokens_word;
}

abbrev pub routes : List (IpRoute three)
routes =
    record {
      dest = any;
      via = some host;
      dev = some (codes "eth0");
      proto = none;
      scope = none;
      src = none;
      metric = some 100;
    }
    ∷ record {
      dest = net;
      via = none;
      dev = some (codes "br12");
      proto = some (codes "kernel");
      scope = some (codes "link");
      src = some host;
      metric = none;
    }
    ∷ []

abbrev route_text : Text
route_text =
    codes
      "default via 169.254.12.1 dev eth0 metric 100\n169.254.12.0/24 dev br12 proto kernel scope link src 169.254.12.1\n"

serialize_routes : Linux.serialize_all three routes ≡ route_text
unfolding Linux.serialize_all
serialize_routes = refl

parse_routes : Linux.parse three tokens route_text ≡ ok routes
unfolding Linux.parse scan
parse_routes = refl

-- "default dev": an odd number of words is no error.
parse_odd :
    Linux.parse three tokens (codes "default dev\n")
    ≡ ok (record (blank_route three) { dest = any } ∷ [])
unfolding Linux.parse scan
parse_odd = refl

word : (t : Text) → All IsPlain t → t ≢ [] → IsWord t
word t h ne = record { plain = h; ne_nil = ne }

pub routes-IsPrintable : All (IsPrintable three) routes
routes-IsPrintable = (
  record {
    via_host = refl;
    dev_word = word (codes "eth0") (ground arith) (λ e. cc);
    proto_word = tt;
    scope_word = tt;
    src_host = tt;
    metric_int = omega arith;
  },
  (
    record {
      via_host = tt;
      dev_word = word (codes "br12") (ground arith) (λ e. cc);
      proto_word = word (codes "kernel") (ground arith) (λ e. cc);
      scope_word = word (codes "link") (ground arith) (λ e. cc);
      src_host = refl;
      metric_int = tt;
    },
    tt,
  ),
)

parse-serialize_all_example :
    Linux.parse three tokens (Linux.serialize_all three routes) ≡ ok routes
parse-serialize_all_example =
    parse-serialize_all three three_laws tokens tokens_laws routes routes-IsPrintable

abbrev linux_lines : List Text
linux_lines = codes "default dev eth0" ∷ codes "169.254.12.0/24 dev br12" ∷ []

abbrev title_lines : List Text
title_lines = codes "Routing tables" ∷ codes "Internet:" ∷ []

header_becomes_routes_example :
    Apple.parse_lines three tokens true
      (title_lines ++ codes "Destination Gateway" ∷ codes "169.254.12.1 link#9" ∷ [])
    ≡ (Linux.parse_lines three tokens (codes "169.254.12.1 link#9" ∷ []) >>= λ iprs.
        ok (replicate 3 (blank_route three) ++ iprs))
unfolding scan text_eq
header_becomes_routes_example =
    header_becomes_routes three tokens title_lines (codes "Destination Gateway")
      (codes "169.254.12.1 link#9" ∷ []) (refl, (refl, tt)) refl
