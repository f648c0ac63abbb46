-- ===== src/Route/Library.antt =====
-- What the routes use of the libraries: addresses of the ipaddress library, and the tokenizer of
-- boost with `char_separator`.
use tunator.Prelude.{
  ℕ, ◌≡◌, ◌≢◌, Bool, true, false, ◌||◌, List, [], ◌∷◌, ◌++◌, All, ◌==◌, leb, ◌&&◌, Option, some,
}
use tunator.Text.{Text}

pub record IpLibrary : Type 1 where
  pub Address : Type 0
  -- `IPAddress()`
  pub blank : Address
  -- `IPAddress::parse`; `none` is an error
  pub parse : Text → Option Address
  -- with the prefix, as in 10.0.0.1/24
  pub to_string : Address → Text
  -- without it
  pub to_s : Address → Text
  -- `prefix.num` and `ip_bits->bits`
  pub prefix_num : Address → ℕ
  pub bits : Address → ℕ
  -- the text of the error of `parse`
  pub parse_error : Text → Text
  -- `ip_same_kind` and `includes`
  pub same_kind : Address → Address → Bool
  pub includes : Address → Address → Bool

-- A byte of the text of an address: hexadecimal digits, `.`, `:` and `/`.
abbrev pub is_address_byte : ℕ → Bool
is_address_byte c = (leb 46 c && leb c 58) || (leb 97 c && leb c 102)

-- What its documentation says: an address reads back from its text, and so does one without its
-- prefix if that is the prefix of a single host.
pub record IpLaws (ip : IpLibrary) : Type 0 where
  pub parse-to_string : (a : ip.Address) → ip.parse (ip.to_string a) ≡ some a
  pub parse-to_s : (a : ip.Address) → ip.prefix_num a ≡ ip.bits a → ip.parse (ip.to_s a) ≡ some a
  pub to_string_bytes : (a : ip.Address) → All (λ c. is_address_byte c ≡ true) (ip.to_string a)
  pub to_string-ne-nil : (a : ip.Address) → ip.to_string a ≢ []
  pub to_s_bytes : (a : ip.Address) → All (λ c. is_address_byte c ≡ true) (ip.to_s a)
  pub to_s-ne-nil : (a : ip.Address) → ip.to_s a ≢ []

abbrev pub member : ℕ → List ℕ → Bool
member c [] = false
member c (d ∷ ds) = c == d || member c ds

-- `boost::tokenizer<boost::char_separator<char>>(text, separators)`, all tokens at once.
abbrev pub Tokenizer : Type 0
Tokenizer = List ℕ → Text → List Text

-- Dropped delimiters, no empty tokens.
pub record TokenizerLaws (tokens : Tokenizer) : Type 0 where
  pub nothing : (seps : List ℕ) → tokens seps [] ≡ []
  pub split :
      (seps : List ℕ) (a b : Text) (c : ℕ)
      → member c seps ≡ true
      → tokens seps (a ++ c ∷ b) ≡ tokens seps a ++ tokens seps b
  pub word :
      (seps : List ℕ) (a : Text)
      → All (λ c. member c seps ≡ false) a
      → a ≢ []
      → tokens seps a ≡ a ∷ []
