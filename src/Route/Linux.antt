-- ===== src/Route/Linux.antt =====
-- linux_ip_route.hpp: routes as text in the form of `ip route`. `read`, which runs `ip`, is with the
-- component that runs commands.
pub mod Render
mod Words
pub mod Fields
pub mod RoundTrip
use tunator.Prelude.{
  ℕ, zero, suc, ◌-◌, Bool, true, false, Option, none, some, List, [], ◌∷◌, ◌++◌, map, if◌then◌else◌,
  u64, ℤ, pos, negsuc,
}
use mathlib.Core.Option
use tunator.Text.{Text, codes, text_eq, to_decimal, stoi, Outcome, ok, err, thrown, ◌>>=◌}
use tunator.Route.Library.{IpLibrary, Tokenizer}
use tunator.Route.IpRoute.{IpRoute, blank_route}

-- `if (o.isSome()) { s2 << label << o.unwrap(); }`
abbrev pub labelled : Text → Option Text → Text
labelled label none = []
labelled label (some t) = label ++ t

abbrev cannot_parse {ℓ} : {A : Type ℓ} → Outcome A
cannot_parse = err (codes "can't parse")

-- An address, with `isErr = true; break;` on an error.
abbrev pub parsed {ℓ} : {A : Type ℓ} → Option A → Outcome A
parsed none = cannot_parse
parsed (some a) = ok a

module _ (ip : IpLibrary) where
  unfoldable pub serialize_dest : Text → Text
  unfolding text_eq
  serialize_dest dest = if text_eq dest (codes "0.0.0.0/0") then codes "default" else dest

  -- `serialize` of one route.
  unfoldable pub serialize : IpRoute ip → Text
  unfolding serialize_dest to_decimal
  serialize ipr =
      serialize_dest (ip.to_string ipr.dest)
      ++ (labelled (codes " via ") (Option.map ip.to_s ipr.via)
          ++ (labelled (codes " dev ") ipr.dev
              ++ (labelled (codes " proto ") ipr.proto
                  ++ (labelled (codes " scope ") ipr.scope
                      ++ (labelled (codes " src ") (Option.map ip.to_s ipr.src)
                          ++ labelled (codes " metric ") (Option.map to_decimal ipr.metric))))))

  -- `serialize` of a list; `std::endl` is a newline.
  unfoldable pub serialize_all : List (IpRoute ip) → Text
  unfolding serialize
  serialize_all [] = []
  serialize_all (ipr ∷ iprs) = serialize ipr ++ 10 ∷ serialize_all iprs

  unfoldable pub command : IpRoute ip → Text → Text
  unfolding serialize
  command ipr mode = codes "/sbin/ip route " ++ (mode ++ (codes " " ++ serialize ipr))

  unfoldable pub command_all : List (IpRoute ip) → Text → List Text
  unfolding command
  command_all [] mode = []
  command_all (ipr ∷ iprs) mode = command ipr mode ∷ command_all iprs mode

  unfoldable pub add : IpRoute ip → Text
  unfolding command
  add ipr = command ipr (codes "add")

  unfoldable pub del : IpRoute ip → Text
  unfolding command
  del ipr = command ipr (codes "del")

  -- The variables of the loop over the tokens of a line.
  pub record LineState : Type 0 where
    pub ipr : IpRoute ip
    pub first : Bool
    pub name : Bool
    pub last : Text

  abbrev pub line_start : LineState
  line_start = record { ipr = blank_route ip; first = true; name = true; last = [] }

  abbrev pub parse_address : Text → Outcome ip.Address
  parse_address t = parsed (ip.parse t)

  -- `size_t metric = stoi(t, 0, 10)`: a negative `int` wraps.
  abbrev pub to_size : ℤ → ℕ
  to_size (pos n) = n
  to_size (negsuc n) = u64 - suc n

  -- The chain of comparisons with `last`, at a value token `t`.
  unfoldable pub store : IpRoute ip → Text → Text → Outcome (IpRoute ip)
  unfolding text_eq stoi
  store ipr last t =
      if text_eq last (codes "via")
      then (do via ← parse_address t; ok (record ipr { via = some via }))
      else if text_eq last (codes "dev")
      then ok (record ipr { dev = some t })
      else if text_eq last (codes "proto")
      then ok (record ipr { proto = some t })
      else if text_eq last (codes "scope")
      then ok (record ipr { scope = some t })
      else if text_eq last (codes "src")
      then (do src ← parse_address t; ok (record ipr { src = some src }))
      else if text_eq last (codes "metric")
      then (do metric ← stoi t; ok (record ipr { metric = some (to_size metric) }))
      else ok ipr

  -- `t == "default" ? "0.0.0.0/0" : t`
  unfoldable pub dest_text : Text → Text
  unfolding text_eq
  dest_text t = if text_eq t (codes "default") then codes "0.0.0.0/0" else t

  -- The body of the loop over the tokens.
  unfoldable pub parse_token : LineState → Text → Outcome LineState
  unfolding store dest_text
  parse_token s t =
      if s.first
      then (do
        dest ← parse_address (dest_text t)
        ok (record s { ipr = record (s.ipr) { dest = dest }; first = false }))
      else if s.name
      then ok (record s { last = t; name = false })
      else (do ipr ← store s.ipr s.last t; ok (record s { ipr = ipr; name = true }))

  unfoldable pub parse_tokens : LineState → List Text → Outcome (IpRoute ip)
  unfolding parse_token
  parse_tokens s [] = ok s.ipr
  parse_tokens s (t ∷ ts) = do s' ← parse_token s t; parse_tokens s' ts

  module _ (tokens : Tokenizer) where
    -- The separators are tab and space.
    unfoldable pub parse_line : Text → Outcome (IpRoute ip)
    unfolding parse_tokens
    parse_line line = parse_tokens line_start (tokens (9 ∷ 32 ∷ []) line)

    unfoldable pub parse_lines : List Text → Outcome (List (IpRoute ip))
    unfolding parse_line
    parse_lines [] = ok []
    parse_lines (line ∷ lines) = do ipr ← parse_line line; iprs ← parse_lines lines; ok (ipr ∷ iprs)

    -- The separators are newline and carriage return.
    unfoldable pub parse : Text → Outcome (List (IpRoute ip))
    unfolding parse_lines
    parse text = parse_lines (tokens (10 ∷ 13 ∷ []) text)
