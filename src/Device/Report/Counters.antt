-- ===== src/Device/Report/Counters.antt =====
-- Counters: what of a statistic can be read in its JSON.
use tunator.Prelude.{
  ℕ, ◌<◌, ◌≡◌, refl, List, [], ◌∷◌, Option, none, some, All, All-zip, All-imp, ◌also◌, u64, add64,
  arith,
}
use tunator.Text.{Text, codes, text_eq}
use tunator.Packet.Statistic.{Data, PacketStatistic, add_data}
use tunator.Device.Json.{JsonLibrary, JsonLaws}
use tunator.Device.Json.Fields.{fields, lookup, member-fields}
use tunator.Device.Report.{count, data_as_json, statistic_as_json}

-- The name of each counter.
abbrev pub counters : List (Text × (Data → ℕ))
counters =
    (codes "allocFailed", λ d. d.alloc_failed)
    ∷ (codes "allocOk", λ d. d.alloc_ok)
    ∷ (codes "pushActionFailed", λ d. d.push_action_failed)
    ∷ (codes "popActionFailed", λ d. d.pop_action_failed)
    ∷ (codes "pushTimeout", λ d. d.push_timeout)
    ∷ (codes "popTimeout", λ d. d.pop_timeout)
    ∷ (codes "pushPacketSize", λ d. d.push_packet_size)
    ∷ (codes "popPacketSize", λ d. d.pop_packet_size)
    ∷ (codes "pushOk", λ d. d.push_ok)
    ∷ (codes "popOk", λ d. d.pop_ok)
    ∷ (codes "popEmpty", λ d. d.pop_empty)
    ∷ (codes "pushFailed", λ d. d.push_failed)
    ∷ []

-- Every counter is a 64-bit word.
abbrev pub IsWords : Data → Type 0
IsWords d = All (λ f. f.1 d < u64) counters

add64_lt : (a b : ℕ) → add64 a b < u64
add64_lt a b = omega arith

pub add_data-IsWords : (t c : Data) → IsWords (add_data t c)
unfolding add_data
add_data-IsWords t c =
    add64_lt _ _
    also add64_lt _ _
    also add64_lt _ _
    also add64_lt _ _
    also add64_lt _ _
    also add64_lt _ _
    also add64_lt _ _
    also add64_lt _ _
    also add64_lt _ _
    also add64_lt _ _
    also add64_lt _ _
    also add64_lt _ _
    also tt

module _ (json : JsonLibrary) where
  -- A number that is found by following the keys from a value.
  abbrev pub count_at : List Text → json.Value → Option ℕ
  count_at [] v = json.as_uint64 v
  count_at (k ∷ ks) v = elim (json.member k v) [ none ↦ none | some x ↦ count_at ks x ]

  -- Under `path`, every counter of `d` can be read by its name.
  abbrev pub ReadsAs : (Text → List Text) → json.Value → Data → Type 0
  ReadsAs path v d = All (λ f. count_at (path f.0) v ≡ some (f.1 d)) counters

  -- What `Data::asJson` writes, the last first.
  abbrev data_fields : Data → List (Text × json.Value)
  data_fields d =
      count json (codes "pushFailed") d.push_failed
      ∷ count json (codes "popEmpty") d.pop_empty
      ∷ count json (codes "popOk") d.pop_ok
      ∷ count json (codes "pushOk") d.push_ok
      ∷ count json (codes "popPacketSize") d.pop_packet_size
      ∷ count json (codes "pushPacketSize") d.push_packet_size
      ∷ count json (codes "popTimeout") d.pop_timeout
      ∷ count json (codes "pushTimeout") d.push_timeout
      ∷ count json (codes "popActionFailed") d.pop_action_failed
      ∷ count json (codes "pushActionFailed") d.push_action_failed
      ∷ count json (codes "allocOk") d.alloc_ok
      ∷ count json (codes "allocFailed") d.alloc_failed
      ∷ []

  lookup-data_fields :
      (d : Data) → All (λ f. lookup json f.0 (data_fields d) ≡ some (json.number (f.1 d))) counters
  unfolding lookup text_eq
  lookup-data_fields d =
      refl also refl also refl also refl also refl also refl also refl also refl also refl also refl
      also refl also refl also tt

  module _ (jl : JsonLaws json) where
    pub count_at-fields :
        (k : Text) (n : ℕ) (fs : List (Text × json.Value))
        → n < u64
        → lookup json k fs ≡ some (json.number n)
        → count_at (k ∷ []) (fields json fs json.null) ≡ some n
    count_at-fields k n fs h e =
        rw
          (
            (member-fields json jl k (json.number n) fs json.null jl.null-IsObject e).0,
            jl.as_uint64-number n h,
            count_at,
          )
          refl

    pub count_at-under :
        (k : Text) (ks : List Text) (x : json.Value) (fs : List (Text × json.Value)) (n : ℕ)
        → lookup json k fs ≡ some x
        → count_at ks x ≡ some n
        → count_at (k ∷ ks) (fields json fs json.null) ≡ some n
    count_at-under k ks x fs n e h =
        rw ((member-fields json jl k x fs json.null jl.null-IsObject e).0, count_at) h

    data_as_json-ReadsAs :
        (d : Data) → IsWords d → ReadsAs (λ k. k ∷ []) (data_as_json json d json.null) d
    unfolding data_as_json
    data_as_json-ReadsAs d h =
        All-zip (λ f. f.1 d < u64)
          (λ f. lookup json f.0 (data_fields d) ≡ some (json.number (f.1 d)))
          (λ f. count_at (f.0 ∷ []) (data_as_json json d json.null) ≡ some (f.1 d)) counters
          (λ f k e. count_at-fields f.0 (f.1 d) (data_fields d) k e) h (lookup-data_fields d)

    -- Both parts of a statistic's JSON can be read counter by counter.
    pub statistic_as_json-ReadsAs :
        (s : PacketStatistic)
        → IsWords s.total
        → IsWords s.current
        → ReadsAs (λ k. codes "total" ∷ k ∷ []) (statistic_as_json json s json.null) s.total
          × ReadsAs (λ k. codes "current" ∷ k ∷ []) (statistic_as_json json s json.null) s.current
    unfolding statistic_as_json lookup text_eq
    statistic_as_json-ReadsAs s t c =
        let total = data_as_json json s.total json.null in
        let current = data_as_json json s.current json.null in
        let fs : List (Text × json.Value) =
          (codes "current", current)
          ∷ (codes "current", json.null)
          ∷ (codes "total", total)
          ∷ (codes "total", json.null)
          ∷ [] in
        (
          All-imp (λ f. count_at (f.0 ∷ []) total ≡ some (f.1 s.total))
              (λ f.
                count_at (codes "total" ∷ f.0 ∷ []) (statistic_as_json json s json.null)
                ≡ some (f.1 s.total))
              counters
              (λ f h. count_at-under (codes "total") (f.0 ∷ []) total fs (f.1 s.total) refl h)
              (data_as_json-ReadsAs s.total t),
          All-imp (λ f. count_at (f.0 ∷ []) current ≡ some (f.1 s.current))
              (λ f.
                count_at (codes "current" ∷ f.0 ∷ []) (statistic_as_json json s json.null)
                ≡ some (f.1 s.current))
              counters
              (λ f h. count_at-under (codes "current") (f.0 ∷ []) current fs (f.1 s.current) refl h)
              (data_as_json-ReadsAs s.current c),
        )
