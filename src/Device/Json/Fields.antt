-- ===== src/Device/Json/Fields.antt =====
-- Fields: members that are set one after another, and which of them are read.
use tunator.Prelude.{
  ◌≡◌, ◌≢◌, ap, sym, ◌∙◌, Bool, true, List, [], ◌∷◌, Option, none, some, arith, Bool-cases, inl,
  inr, if◌then◌else◌,
}
use tunator.Text.{Text, text_eq}
use tunator.Text.Equal.{text_eq_iff}
use tunator.Device.Json.{JsonLibrary, JsonLaws}

module _ (json : JsonLibrary) where
  -- The last that is set stands first.
  abbrev pub fields : List (Text × json.Value) → json.Value → json.Value
  fields [] v = v
  fields ((k, x) ∷ fs) v = json.set_member k x (fields fs v)

  unfoldable pub lookup : Text → List (Text × json.Value) → Option json.Value
  lookup k [] = none
  lookup k ((l, x) ∷ fs) = if text_eq k l then some x else lookup k fs

  module _ (jl : JsonLaws json) where
    fields-IsObject :
        (fs : List (Text × json.Value)) (v : json.Value) → jl.IsObject v → jl.IsObject (fields fs v)
    fields-IsObject [] v o = o
    fields-IsObject ((k, x) ∷ fs) v o = jl.set-IsObject k x (fields fs v) (fields-IsObject fs v o)

    pub member-fields :
        (k : Text) (x : json.Value) (fs : List (Text × json.Value)) (v : json.Value)
        → jl.IsObject v
        → lookup k fs ≡ some x
        → (json.member k (fields fs v) ≡ some x) × (json.is_member k (fields fs v) ≡ true)
    unfolding lookup
    member-fields k x [] v o e = absurd (ground arith)
    member-fields k x ((l, y) ∷ fs) v o e =
        let o' = fields-IsObject fs v o in
        let ih = member-fields k x fs v o in
        let test : Bool → Option json.Value = λ b. if b then some y else lookup k fs in
        elim (Bool-cases (text_eq k l)) [
          | inl h ↦
              let same = (text_eq_iff k l).0 h in
              let e' : some y ≡ some x = ap test (sym h) ∙ e in
              (rw same (jl.member_same l y _ o' ∙ e'), rw same (jl.is_member_same l y _ o'))
          | inr h ↦
              let other : k ≢ l = ground (arith, text_eq_iff k l) in
              let (m, is) = ih (ap test (sym h) ∙ e) in
              (jl.member_other k l y _ o' other ∙ m, jl.is_member_other k l y _ o' other ∙ is)
        ]
