-- ===== src/Route/Apple.antt =====
-- apple_ip_route.hpp: the copy of linux_ip_route.hpp for the output of `netstat -rn`. It writes
-- routes with the same text, and skips a header before it reads them.
pub mod Header
use tunator.Prelude.{ℕ, Bool, true, false, not, List, [], ◌∷◌, ◌++◌, if◌then◌else◌}
use tunator.Text.{Text, codes, text_eq, Outcome, ok, ◌>>=◌}
use tunator.Route.Library.{IpLibrary, Tokenizer}
use tunator.Route.IpRoute.{IpRoute, blank_route}
use tunator.Route.Linux.{line_start}
use tunator.Route.Linux

module _ (ip : IpLibrary) where
  -- The bodies of `serialize` are the same in the two files.
  unfoldable pub serialize : IpRoute ip → Text
  serialize ipr = Linux.serialize ip ipr

  unfoldable pub serialize_all : List (IpRoute ip) → Text
  unfolding serialize
  serialize_all [] = []
  serialize_all (ipr ∷ iprs) = serialize ipr ++ 10 ∷ serialize_all iprs

  unfoldable pub command : IpRoute ip → Text → Text
  unfolding serialize
  command ipr mode = codes "/sbin/route " ++ (mode ++ (codes " " ++ serialize ipr))

  unfoldable pub command_all : List (IpRoute ip) → Text → List Text
  unfolding command
  command_all [] mode = []
  command_all (ipr ∷ iprs) mode = command ipr mode ∷ command_all iprs mode

  -- The loop over the tokens of a line, with `skipHeader` before and after. Past the header its
  -- body is that of `LinuxIpRoute::parse`.
  unfoldable pub parse_words : Bool → List Text → Outcome (IpRoute ip × Bool)
  unfolding text_eq
  parse_words skip [] = ok (blank_route ip, skip)
  parse_words true (t ∷ ts) = ok (blank_route ip, not (text_eq t (codes "Destination")))
  parse_words false (t ∷ ts) = do
    ipr ← Linux.parse_tokens ip (line_start ip) (t ∷ ts)
    ok (ipr, false)

  module _ (tokens : Tokenizer) where
    unfoldable pub parse_lines : Bool → List Text → Outcome (List (IpRoute ip))
    unfolding parse_words
    parse_lines skip [] = ok []
    parse_lines skip (line ∷ lines) = do
      (ipr, skip') ← parse_words skip (tokens (9 ∷ 32 ∷ []) line)
      iprs ← parse_lines skip' lines
      ok (ipr ∷ iprs)

    unfoldable pub parse : Text → Outcome (List (IpRoute ip))
    unfolding parse_lines
    parse text = parse_lines true (tokens (10 ∷ 13 ∷ []) text)
