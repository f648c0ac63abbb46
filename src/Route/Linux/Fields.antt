-- ===== src/Route/Linux/Fields.antt =====
-- The words behind the destination give back the fields of a route.
use mathlib.Core.List.{append-nil}
use mathlib.Core.Option
use tunator.Prelude.{
  ℕ, ◌≤◌, ◌≡◌, refl, sym, ap, subst, ◌∙◌, true, false, Option, none, some, List, [], ◌∷◌, ◌++◌,
  arith,
}
use tunator.Text.{Text, codes, to_decimal, ok}
use tunator.Text.Decimal.{stoi-to_decimal}
use tunator.Route.Library.{IpLibrary, IpLaws}
use tunator.Route.IpRoute.{IpRoute, blank_route}
use tunator.Route.Linux.{LineState, store, parse_token, parse_tokens}
use tunator.Route.Linux.Render.{IsWord, flat, opt_field, flat-append, fields}

module _ (ip : IpLibrary) where
  abbrev pub IsHost : Option ip.Address → Type 0
  IsHost none = Unit {0}
  IsHost (some a) = ip.prefix_num a ≡ ip.bits a

  abbrev pub IsName : Option Text → Type 0
  IsName none = Unit {0}
  IsName (some t) = IsWord t

  abbrev pub IsInt : Option ℕ → Type 0
  IsInt none = Unit {0}
  IsInt (some n) = n ≤ 2147483647

  -- A route that the text form can express: its gateway and its source are single hosts, its names
  -- are words, and its metric fits in an `int`.
  pub record IsPrintable (ipr : IpRoute ip) : Type 0 where
    pub via_host : IsHost ipr.via
    pub dev_word : IsName ipr.dev
    pub proto_word : IsName ipr.proto
    pub scope_word : IsName ipr.scope
    pub src_host : IsHost ipr.src
    pub metric_int : IsInt ipr.metric

  -- Inside a line, between a value and a key.
  abbrev pub between : IpRoute ip → Text → LineState ip
  between ipr last = record { ipr = ipr; first = false; name = true; last = last }

  key_value :
      (ipr ipr' : IpRoute ip) (last k v : Text) (rest : List Text)
      → store ip ipr k v ≡ ok ipr'
      → parse_tokens ip (between ipr last) (k ∷ v ∷ rest) ≡ parse_tokens ip (between ipr' k) rest
  unfolding parse_tokens parse_token
  key_value ipr ipr' last k v rest e = rw e

  abbrev next_last {ℓ} : {B : Type ℓ} → Text → Option B → Text → Text
  next_last k none last = last
  next_last k (some b) last = k

  -- A field that may be absent, stored by `put`.
  opt_key {ℓ} :
      {B : Type ℓ} (o : Option B) (show : B → Text) (k : Text) (put : Option B → IpRoute ip)
      (last : Text) (rest : List Text)
      → ((b : B) → o ≡ some b → store ip (put none) k (show b) ≡ ok (put (some b)))
      → parse_tokens ip (between (put none) last) (flat (opt_field k (Option.map show o)) ++ rest)
        ≡ parse_tokens ip (between (put o) (next_last k o last)) rest
  opt_key none show k put last rest stores = refl
  opt_key (some b) show k put last rest stores =
      key_value (put none) (put (some b)) last k (show b) rest (stores b refl)

  opt_name :
      (o : Option Text) (k : Text) (put : Option Text → IpRoute ip) (last : Text) (rest : List Text)
      → ((t : Text) → store ip (put none) k t ≡ ok (put (some t)))
      → parse_tokens ip (between (put none) last) (flat (opt_field k o) ++ rest)
        ≡ parse_tokens ip (between (put o) (next_last k o last)) rest
  opt_name none k put last rest stores = refl
  opt_name (some t) k put last rest stores =
      key_value (put none) (put (some t)) last k t rest (stores t)

module _ (ip : IpLibrary) (laws : IpLaws ip) where
  parse_host :
      (o : Option ip.Address) (a : ip.Address)
      → IsHost ip o
      → o ≡ some a
      → ip.parse (ip.to_s a) ≡ some a
  parse_host none a h e = cc
  parse_host (some b) a h e =
      let same : b ≡ a = cc in laws.parse-to_s a (subst (λ x. ip.prefix_num x ≡ ip.bits x) same h)

  store-via :
      (r : IpRoute ip) (o : Option ip.Address) (a : ip.Address)
      → IsHost ip o
      → o ≡ some a
      → store ip r (codes "via") (ip.to_s a) ≡ ok (record r { via = some a })
  unfolding store
  store-via r o a h e = rw (parse_host o a h e, store)

  store-src :
      (r : IpRoute ip) (o : Option ip.Address) (a : ip.Address)
      → IsHost ip o
      → o ≡ some a
      → store ip r (codes "src") (ip.to_s a) ≡ ok (record r { src = some a })
  unfolding store
  store-src r o a h e = rw (parse_host o a h e, store)

  store-metric :
      (r : IpRoute ip) (o : Option ℕ) (n : ℕ)
      → IsInt ip o
      → o ≡ some n
      → store ip r (codes "metric") (to_decimal n) ≡ ok (record r { metric = some n })
  unfolding store
  store-metric r none n h e = cc
  store-metric r (some m) n h e = let same : m ≡ n = cc in rw (stoi-to_decimal n (omega arith))

  store_name :
      (r : IpRoute ip) (t : Text)
      → (store ip r (codes "dev") t ≡ ok (record r { dev = some t }))
        × (store ip r (codes "proto") t ≡ ok (record r { proto = some t }))
        × (store ip r (codes "scope") t ≡ ok (record r { scope = some t }))
  unfolding store
  store_name r t = (refl, refl, refl)

  -- Past the destination, the words of a route give the route.
  pub parse_fields :
      (ipr : IpRoute ip)
      → IsPrintable ip ipr
      → parse_tokens ip
          (between ip (record (blank_route ip) { dest = ipr.dest }) [])
          (flat (fields ip ipr))
        ≡ ok ipr
  unfolding fields
  parse_fields ipr h =
      let d = record (blank_route ip) { dest = ipr.dest } in
      let p1 = λ (x : Option ip.Address). record d { via = x } in
      let p2 = λ (x : Option Text). record (p1 ipr.via) { dev = x } in
      let p3 = λ (x : Option Text). record (p2 ipr.dev) { proto = x } in
      let p4 = λ (x : Option Text). record (p3 ipr.proto) { scope = x } in
      let p5 = λ (x : Option ip.Address). record (p4 ipr.scope) { src = x } in
      let p6 = λ (x : Option ℕ). record (p5 ipr.src) { metric = x } in
      simp flat-append (
        opt_key ip ipr.via ip.to_s (codes "via") p1 _ _ (λ a e. store-via d ipr.via a h.via_host e)
        ∙ opt_name ip ipr.dev (codes "dev") p2 _ _ (λ t. (store_name (p1 ipr.via) t).0)
        ∙ opt_name ip ipr.proto (codes "proto") p3 _ _ (λ t. (store_name (p2 ipr.dev) t).1)
        ∙ opt_name ip ipr.scope (codes "scope") p4 _ _ (λ t. (store_name (p3 ipr.proto) t).2)
        ∙ opt_key ip ipr.src ip.to_s (codes "src") p5 _ _
            (λ a e. store-src (p4 ipr.scope) ipr.src a h.src_host e)
        ∙ ap (parse_tokens ip _) (sym (append-nil _))
        ∙ opt_key ip ipr.metric to_decimal (codes "metric") p6 _ []
            (λ n e. store-metric (p5 ipr.src) ipr.metric n h.metric_int e)
        ∙ unfold parse_tokens in refl)
