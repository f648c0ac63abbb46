-- ===== src/Route/Linux/RoundTrip.antt =====
-- `LinuxIpRoute::parse` reads back what `LinuxIpRoute::serialize` writes.
use mathlib.Core.Option
use mathlib.Core.Bool.{false≢true}
use tunator.Prelude.{
  ℕ, ◌≡◌, ◌≢◌, refl, sym, ap, ap₂, subst, ◌∙◌, true, false, Option, none, some, List, [], ◌∷◌, map,
  ◌++◌, All, All-append, All-imp, Bool-cases, inl, inr,
}
use tunator.Text.{Text, codes, text_eq, to_decimal, ok}
use tunator.Text.Equal.{text_eq_iff}
use tunator.Route.Library.{IpLibrary, IpLaws, Tokenizer, TokenizerLaws, member, is_address_byte}
use tunator.Route.IpRoute.{IpRoute, blank_route}
use tunator.Route.Linux.{
  serialize_dest, dest_text, serialize, serialize_all, line_start, parse_token, parse_tokens,
  parse_line, parse_lines, parse,
}
use tunator.Route.Linux.Render.{
  eol_sep, IsWord, Field, IsField, render, opt_field, fields, serialize-render, tokens-render,
}
use tunator.Route.Linux.Words.{
  to_decimal-IsWord, address-IsWord, default-IsWord, via-IsWord, dev-IsWord, proto-IsWord,
  scope-IsWord, src-IsWord, metric-IsWord,
}
use tunator.Route.Linux.Fields.{IsName, IsPrintable, between, parse_fields}

module _ (ip : IpLibrary) (laws : IpLaws ip) where
  -- No address reads `default`, which has a `u`.
  address-ne-default :
      (t : Text) → All (λ c. is_address_byte c ≡ true) t → text_eq t (codes "default") ≡ true → ⊥
  address-ne-default t h e =
      let bad =
        subst (All (λ c. is_address_byte c ≡ true)) ((text_eq_iff t (codes "default")).0 e) h in
      false≢true bad.1.1.1.1.0

  dest_text-serialize_dest :
      (t : Text) → All (λ c. is_address_byte c ≡ true) t → dest_text ip (serialize_dest ip t) ≡ t
  unfolding dest_text serialize_dest
  dest_text-serialize_dest t h = elim (Bool-cases (text_eq t (codes "0.0.0.0/0"))) [
    | inl any ↦ rw (any, sym ((text_eq_iff t (codes "0.0.0.0/0")).0 any))
    | inr other ↦ elim (Bool-cases (text_eq t (codes "default"))) [
      | inl d ↦ absurd (address-ne-default t h d)
      | inr d ↦ rw (other, d)
    ]
  ]

  parse_dest :
      (a : ip.Address)
      → parse_token ip (line_start ip) (serialize_dest ip (ip.to_string a))
        ≡ ok (between ip (record (blank_route ip) { dest = a }) [])
  unfolding parse_token
  parse_dest a = rw (
    dest_text-serialize_dest (ip.to_string a) (laws.to_string_bytes a),
    laws.parse-to_string a,
    parse_token,
  )

  serialize_dest-IsWord : (a : ip.Address) → IsWord (serialize_dest ip (ip.to_string a))
  unfolding serialize_dest
  serialize_dest-IsWord a = elim (Bool-cases (text_eq (ip.to_string a) (codes "0.0.0.0/0"))) [
    | inl any ↦ rw any default-IsWord
    | inr other ↦ rw other (address-IsWord _ (laws.to_string_bytes a) (laws.to_string-ne-nil a))
  ]

  opt_field-IsField {ℓ} :
      {B : Type ℓ} (k : Text) (o : Option B) (show : B → Text)
      → IsWord k
      → ((b : B) → o ≡ some b → IsWord (show b))
      → All IsField (opt_field k (Option.map show o))
  opt_field-IsField k none show hk h = tt
  opt_field-IsField k (some b) show hk h = ((hk, h b refl), tt)

  opt_name-IsField :
      (k : Text) (o : Option Text) → IsWord k → IsName ip o → All IsField (opt_field k o)
  opt_name-IsField k none hk h = tt
  opt_name-IsField k (some t) hk h = ((hk, h), tt)

  to_s-IsWord : (a : ip.Address) → IsWord (ip.to_s a)
  to_s-IsWord a = address-IsWord (ip.to_s a) (laws.to_s_bytes a) (laws.to_s-ne-nil a)

  fields-IsField : (ipr : IpRoute ip) → IsPrintable ip ipr → All IsField (fields ip ipr)
  unfolding fields
  fields-IsField ipr h =
      All-append IsField _ _ (opt_field-IsField _ ipr.via ip.to_s via-IsWord (λ a e. to_s-IsWord a))
        (All-append IsField _ _ (opt_name-IsField _ ipr.dev dev-IsWord h.dev_word) (
          All-append IsField _ _ (opt_name-IsField _ ipr.proto proto-IsWord h.proto_word) (
            All-append IsField _ _ (opt_name-IsField _ ipr.scope scope-IsWord h.scope_word) (
              All-append IsField _ _
                (opt_field-IsField _ ipr.src ip.to_s src-IsWord (λ a e. to_s-IsWord a))
                (opt_field-IsField _ ipr.metric to_decimal metric-IsWord
                  (λ n e. to_decimal-IsWord n))))))

  abbrev InLine : ℕ → Type 0
  InLine c = member c eol_sep ≡ false

  word-InLine : (t : Text) → IsWord t → All InLine t
  word-InLine t w = All-imp _ _ t (λ c p. p.1) w.plain

  render-InLine : (fs : List Field) → All IsField fs → All InLine (render fs)
  render-InLine [] h = tt
  render-InLine ((k, v) ∷ fs) h = (
    refl,
    All-append InLine k _ (word-InLine k h.0.0)
        (refl, All-append InLine v _ (word-InLine v h.0.1) (render-InLine fs h.1)),
  )

  append-ne-nil : (a b : Text) → a ≢ [] → a ++ b ≢ []
  append-ne-nil [] b ne e = ne refl
  append-ne-nil (c ∷ a) b ne e = cc

  serialize-InLine : (ipr : IpRoute ip) → IsPrintable ip ipr → All InLine (serialize ip ipr)
  serialize-InLine ipr h = rw (serialize-render ip ipr) (
      All-append InLine _ _ (word-InLine _ (serialize_dest-IsWord ipr.dest))
        (render-InLine (fields ip ipr) (fields-IsField ipr h)))

  serialize-ne-nil : (ipr : IpRoute ip) → serialize ip ipr ≢ []
  serialize-ne-nil ipr =
      rw (serialize-render ip ipr)
        (append-ne-nil _ (render (fields ip ipr)) (serialize_dest-IsWord ipr.dest).ne_nil)

  module _ (tokens : Tokenizer) (splits : TokenizerLaws tokens) where
    -- One line.
    parse_line-serialize :
        (ipr : IpRoute ip) → IsPrintable ip ipr → parse_line ip tokens (serialize ip ipr) ≡ ok ipr
    unfolding parse_line parse_tokens
    parse_line-serialize ipr h =
        rw
          (
            serialize-render ip ipr,
            tokens-render tokens splits _ (fields ip ipr) (serialize_dest-IsWord ipr.dest)
                (fields-IsField ipr h),
            parse_tokens,
            parse_dest ipr.dest,
          )
          (parse_fields ip laws ipr h)

    -- The lines of a file are its routes.
    tokens-serialize_all :
        (iprs : List (IpRoute ip))
        → All (IsPrintable ip) iprs
        → tokens eol_sep (serialize_all ip iprs) ≡ map (serialize ip) iprs
    unfolding serialize_all
    tokens-serialize_all [] h = splits.nothing eol_sep
    tokens-serialize_all (ipr ∷ iprs) h =
        splits.split eol_sep (serialize ip ipr) (serialize_all ip iprs) 10 refl
        ∙ ap₂ ◌++◌
            (splits.word eol_sep (serialize ip ipr) (serialize-InLine ipr h.0)
              (serialize-ne-nil ipr))
            (tokens-serialize_all iprs h.1)

    parse_lines-serialize :
        (iprs : List (IpRoute ip))
        → All (IsPrintable ip) iprs
        → parse_lines ip tokens (map (serialize ip) iprs) ≡ ok iprs
    unfolding parse_lines
    parse_lines-serialize [] h = refl
    parse_lines-serialize (ipr ∷ iprs) h =
        rw (parse_line-serialize ipr h.0, parse_lines-serialize iprs h.1, parse_lines)

    -- Reading what was written of a list of routes gives the list back, if every gateway and source
    -- is a single host, every name is a word, and every metric fits in an `int`.
    pub parse-serialize_all :
        (iprs : List (IpRoute ip))
        → All (IsPrintable ip) iprs
        → parse ip tokens (serialize_all ip iprs) ≡ ok iprs
    unfolding parse
    parse-serialize_all iprs h =
        ap (parse_lines ip tokens) (tokens-serialize_all iprs h) ∙ parse_lines-serialize iprs h
