-- ===== src/Device/Json.antt =====
-- What the program uses of the JSON library: `Json::Value`.
pub mod Fields
use tunator.Prelude.{
  ℕ, ◌<◌, ◌≡◌, ◌≢◌, Bool, true, false, List, Option, none, some, ℤ, pos, u64, if◌then◌else◌,
}
use tunator.Text.{Text}

pub record JsonLibrary : Type 1 where
  pub Value : Type 0
  -- `Json::Value()`
  pub null : Value
  pub string : Text → Value
  -- of a `Json::UInt64`
  pub number : ℕ → Value
  pub bool : Bool → Value
  -- an array filled by `append`
  pub array : List Value → Value
  -- `val[key]`: null for a key that is not there; `none` is an exception, of a value of another
  -- type than an object
  pub member : Text → Value → Option Value
  pub is_member : Text → Value → Bool
  -- `val[key] = x`
  pub set_member : Text → Value → Value → Value
  -- `for (auto &v : val)`
  pub items : Value → List Value
  -- `none` is an exception, of a value that has no such form
  pub as_string : Value → Option Text
  pub as_int : Value → Option ℤ
  pub as_uint64 : Value → Option ℕ
  pub as_bool : Value → Option Bool

-- `val.get(key, x)`
abbrev pub get : (json : JsonLibrary) → Text → json.Value → json.Value → Option json.Value
get json k x v = if json.is_member k v then json.member k v else some x

-- A read of JSON: its result and what it leaves in the object, or an exception.
pub data Reading {ℓ} (A : Type ℓ) : Type ℓ where
  finished : Bool → A → Reading A
  raised : Reading A

-- The next part, if the part before did not return false.
infixl 5 ◌then_read◌
abbrev pub ◌then_read◌ {ℓ} : {A : Type ℓ} → Reading A → (A → Reading A) → Reading A
finished true a then_read f = f a
finished false a then_read f = finished false a
raised then_read f = raised

-- What its documentation says. An object is null, or a value whose members were set.
pub record JsonLaws (json : JsonLibrary) : Type 1 where
  pub IsObject : json.Value → Type 0
  pub null-IsObject : IsObject json.null
  pub set-IsObject : (k : Text) (x v : json.Value) → IsObject v → IsObject (json.set_member k x v)
  pub member_same :
      (k : Text) (x v : json.Value) → IsObject v → json.member k (json.set_member k x v) ≡ some x
  pub member_other :
      (k l : Text) (x v : json.Value)
      → IsObject v
      → k ≢ l
      → json.member k (json.set_member l x v) ≡ json.member k v
  pub is_member_same :
      (k : Text) (x v : json.Value) → IsObject v → json.is_member k (json.set_member k x v) ≡ true
  pub is_member_other :
      (k l : Text) (x v : json.Value)
      → IsObject v
      → k ≢ l
      → json.is_member k (json.set_member l x v) ≡ json.is_member k v
  pub items-array : (vs : List json.Value) → json.items (json.array vs) ≡ vs
  pub as_string-string : (t : Text) → json.as_string (json.string t) ≡ some t
  pub as_int-number : (n : ℕ) → n < 2147483648 → json.as_int (json.number n) ≡ some (pos n)
  pub as_uint64-number : (n : ℕ) → n < u64 → json.as_uint64 (json.number n) ≡ some n
  pub as_bool-bool : (b : Bool) → json.as_bool (json.bool b) ≡ some b
