-- ===== src/Route/Linux/Render.antt =====
-- The text of a route as a list of words, and what the tokenizer makes of it.
use mathlib.Core.List.{append-nil, append_assoc}
use mathlib.Core.Option
use tunator.Prelude.{
  ℕ, ◌≡◌, ◌≢◌, refl, ap, ap₂, ◌∙◌, false, Option, none, some, List, [], ◌∷◌, ◌++◌, All, All-imp,
}
use tunator.Text.{Text, codes, to_decimal}
use tunator.Route.Library.{IpLibrary, Tokenizer, TokenizerLaws, member}
use tunator.Route.IpRoute.{IpRoute}
use tunator.Route.Linux.{labelled, serialize_dest, serialize}

abbrev pub inline_sep : List ℕ
inline_sep = 9 ∷ 32 ∷ []

abbrev pub eol_sep : List ℕ
eol_sep = 10 ∷ 13 ∷ []

-- No separator of either kind, and not empty.
abbrev pub IsPlain : ℕ → Type 0
IsPlain c = (member c inline_sep ≡ false) × (member c eol_sep ≡ false)

pub record IsWord (t : Text) : Type 0 where
  pub plain : All IsPlain t
  pub ne_nil : t ≢ []

abbrev pub Field : Type 0
Field = Text × Text

abbrev pub IsField : Field → Type 0
IsField (k, v) = IsWord k × IsWord v

-- ` key value`, for each field.
abbrev pub render : List Field → Text
render [] = []
render ((k, v) ∷ fs) = 32 ∷ (k ++ 32 ∷ (v ++ render fs))

abbrev pub flat : List Field → List Text
flat [] = []
flat ((k, v) ∷ fs) = k ∷ v ∷ flat fs

abbrev pub opt_field : Text → Option Text → List Field
opt_field k none = []
opt_field k (some v) = (k, v) ∷ []

label_then :
    (fs : List Field) (k : Text) (o : Option Text) {rest : Text}
    → rest ≡ render fs
    → labelled (32 ∷ (k ++ 32 ∷ [])) o ++ rest ≡ render (opt_field k o ++ fs)
label_then fs k none e = e
label_then fs k (some v) e = simp (append_assoc, e)

label_last :
    (k : Text) (o : Option Text) → labelled (32 ∷ (k ++ 32 ∷ [])) o ≡ render (opt_field k o)
label_last k none = refl
label_last k (some v) = simp (append_assoc, append-nil)

pub flat-append : (fs gs : List Field) → flat (fs ++ gs) ≡ flat fs ++ flat gs
flat-append [] gs = refl
flat-append ((k, v) ∷ fs) gs = ap (λ x. k ∷ v ∷ x) (flat-append fs gs)

module _ (ip : IpLibrary) where
  unfoldable pub fields : IpRoute ip → List Field
  fields ipr =
      opt_field (codes "via") (Option.map ip.to_s ipr.via)
      ++ (opt_field (codes "dev") ipr.dev
          ++ (opt_field (codes "proto") ipr.proto
              ++ (opt_field (codes "scope") ipr.scope
                  ++ (opt_field (codes "src") (Option.map ip.to_s ipr.src)
                      ++ opt_field (codes "metric") (Option.map to_decimal ipr.metric)))))

  pub serialize-render :
      (ipr : IpRoute ip)
      → serialize ip ipr ≡ serialize_dest ip (ip.to_string ipr.dest) ++ render (fields ipr)
  unfolding serialize fields
  serialize-render ipr = ap (◌++◌ (serialize_dest ip (ip.to_string ipr.dest))) (
      label_then _ (codes "via") (Option.map ip.to_s ipr.via) (
        label_then _ (codes "dev") ipr.dev (
          label_then _ (codes "proto") ipr.proto (
            label_then _ (codes "scope") ipr.scope (
              label_then _ (codes "src") (Option.map ip.to_s ipr.src)
                (label_last (codes "metric") (Option.map to_decimal ipr.metric)))))))

module _ (tokens : Tokenizer) (laws : TokenizerLaws tokens) where
  word_token : (t : Text) → IsWord t → tokens inline_sep t ≡ t ∷ []
  word_token t w = laws.word inline_sep t (All-imp _ _ t (λ c p. p.0) w.plain) w.ne_nil

  -- The words of a line are its tokens.
  pub tokens-render :
      (w : Text) (fs : List Field)
      → IsWord w
      → All IsField fs
      → tokens inline_sep (w ++ render fs) ≡ w ∷ flat fs
  tokens-render w [] hw h = ap (tokens inline_sep) (append-nil w) ∙ word_token w hw
  tokens-render w ((k, v) ∷ fs) hw h =
      laws.split inline_sep w _ 32 refl
      ∙ ap₂ ◌++◌ (word_token w hw) (
          laws.split inline_sep k _ 32 refl
          ∙ ap₂ ◌++◌ (word_token k h.0.0) (tokens-render v fs h.0.1 h.1))
