-- ===== src/Route/Apple/Header.antt =====
-- What `AppleIpRoute::parse` makes of the header of a table.
use tunator.Prelude.{
  ℕ, suc, ◌≡◌, ◌∙◌, refl, ap, Bool, true, false, List, [], ◌∷◌, ◌++◌, All, length, replicate,
}
use tunator.Text.{Text, codes, text_eq, Outcome, ok, err, thrown, ◌>>=◌}
use tunator.Route.Library.{IpLibrary, Tokenizer}
use tunator.Route.IpRoute.{IpRoute, blank_route}
use tunator.Route.Linux
use tunator.Route.Apple.{parse_words, parse_lines}

abbrev pub words : Tokenizer → Text → List Text
words tokens = tokens (9 ∷ 32 ∷ [])

-- The first word of the line is not `Destination`, or there is none.
abbrev pub IsTitle : List Text → Type 0
IsTitle [] = Unit
IsTitle (t ∷ ts) = text_eq t (codes "Destination") ≡ false

module _ (ip : IpLibrary) (tokens : Tokenizer) where
  title_word : (ws : List Text) → IsTitle ws → parse_words ip true ws ≡ ok (blank_route ip, true)
  unfolding parse_words
  title_word [] h = refl
  title_word (t ∷ ts) h = rw h

  abbrev put_blank : Outcome (List (IpRoute ip)) → Outcome (List (IpRoute ip))
  put_blank o = o >>= λ iprs. ok (blank_route ip ∷ iprs)

  title_line :
      (line : Text) (lines : List Text)
      → IsTitle (words tokens line)
      → parse_lines ip tokens true (line ∷ lines) ≡ put_blank (parse_lines ip tokens true lines)
  unfolding parse_lines
  title_line line lines h = rw (title_word _ h, parse_lines)

  -- A text without a line that begins with `Destination` is all header: whatever routes it holds,
  -- the result is an unset route for each line, and never an error.
  pub no_header :
      (lines : List Text)
      → All (λ line. IsTitle (words tokens line)) lines
      → parse_lines ip tokens true lines ≡ ok (replicate (length lines) (blank_route ip))
  unfolding parse_lines
  no_header [] h = refl
  no_header (line ∷ lines) h = rw (title_line line lines h.0, no_header lines h.1) refl

  -- Past the header a line is read as on Linux.
  row_words :
      (ws : List Text)
      → parse_words ip false ws
        ≡ (Linux.parse_tokens ip (Linux.line_start ip) ws >>= λ ipr. ok (ipr, false))
  unfolding parse_words Linux.parse_tokens
  row_words [] = refl
  row_words (t ∷ ts) = refl

  row_line :
      (o : Outcome (IpRoute ip)) (f : Bool → Outcome (List (IpRoute ip)))
      → (o
          >>= (λ ipr. ok (ipr, false))
          >>= (λ (p : IpRoute ip × Bool). f p.1 >>= λ iprs. ok (p.0 ∷ iprs)))
        ≡ (o >>= λ ipr. f false >>= λ iprs. ok (ipr ∷ iprs))
  row_line (ok ipr) f = refl
  row_line (err t) f = refl
  row_line (thrown e) f = refl

  rows : (lines : List Text) → parse_lines ip tokens false lines ≡ Linux.parse_lines ip tokens lines
  unfolding parse_lines Linux.parse_lines
  rows [] = refl
  rows (line ∷ lines) = rw (row_words (words tokens line)) (
      row_line _ (λ skip. parse_lines ip tokens skip lines)
      ∙ ap (λ o. Linux.parse_line ip tokens line >>= λ ipr. o >>= λ iprs. ok (ipr ∷ iprs))
          (rows lines))

  -- The first word of the line is `Destination`.
  abbrev pub IsHeader : List Text → Type 0
  IsHeader [] = ⊥
  IsHeader (t ∷ ts) = text_eq t (codes "Destination") ≡ true

  header_word : (ws : List Text) → IsHeader ws → parse_words ip true ws ≡ ok (blank_route ip, false)
  unfolding parse_words
  header_word [] h = elim h [ ]
  header_word (t ∷ ts) h = rw h

  put_more :
      (o : Outcome (List (IpRoute ip))) (n : ℕ)
      → put_blank (o >>= λ iprs. ok (replicate n (blank_route ip) ++ iprs))
        ≡ (o >>= λ iprs. ok (replicate (suc n) (blank_route ip) ++ iprs))
  put_more (ok iprs) n = refl
  put_more (err t) n = refl
  put_more (thrown e) n = refl

  header_line :
      (line : Text) (lines : List Text)
      → IsHeader (words tokens line)
      → parse_lines ip tokens true (line ∷ lines) ≡ put_blank (Linux.parse_lines ip tokens lines)
  unfolding parse_lines
  header_line line lines h = rw (header_word _ h, parse_lines) (ap put_blank (rows lines))

  -- The rows of a table are read as `LinuxIpRoute::parse` reads them; but every line of the header,
  -- the line of `Destination` among them, adds an unset route in front.
  pub header_becomes_routes :
      (titles : List Text) (header : Text) (lines : List Text)
      → All (λ line. IsTitle (words tokens line)) titles
      → IsHeader (words tokens header)
      → parse_lines ip tokens true (titles ++ header ∷ lines) ≡ (
          Linux.parse_lines ip tokens lines >>= λ iprs.
          ok (replicate (suc (length titles)) (blank_route ip) ++ iprs))
  header_becomes_routes [] header lines h e = header_line header lines e
  header_becomes_routes (title ∷ titles) header lines h e =
      title_line title _ h.0
      ∙ ap put_blank (header_becomes_routes titles header lines h.1 e)
      ∙ put_more (Linux.parse_lines ip tokens lines) (suc (length titles))
