-- ===== src/Device/IfAddrs/RoundTrip.antt =====
-- RoundTrip: what asJson writes, fromJson reads.
use tunator.Prelude.{
  ◌<◌, ◌≡◌, ◌↔◌, refl, sym, ap, ◌∙◌, true, List, [], ◌∷◌, ◌++◌, map, some, All, arith,
}
use mathlib.Core.List.{append_assoc, append-nil}
use tunator.Text.{Text, codes, text_eq, ok}
use tunator.Route.Library.{IpLibrary, IpLaws}
use tunator.Device.Json.{JsonLibrary, JsonLaws, Reading, finished, ◌then_read◌}
use tunator.Device.Json.Fields.{fields, lookup, member-fields}
use tunator.Device.IfAddrs.{
  RouteVia, IfAddrs, create, add_dest, add_addr, add_route, route_as_json, address_array, as_json,
  route_from_json, add_texts, add_routes, read_mtu, from_json, blank_via, each,
}

module _ (ip : IpLibrary) where
  -- RouteVia::create succeeds with a route exactly when its two texts are read as the route's
  -- addresses, these are of the same kind, and the second has the prefix of a single host.
  pub create_iff :
      (dest via : Text) (r : RouteVia ip)
      → (create ip dest via ≡ ok r) ↔ (
          (ip.parse dest ≡ some r.dest)
          × (ip.parse via ≡ some r.via)
          × (ip.same_kind r.via r.dest ≡ true)
          × (ip.prefix_num r.via ≡ ip.bits r.via))
  unfolding create
  create_iff dest via r = ground arith

three_reads :
    {A : Type 0} (r : Reading A) (f g h : A → Reading A) (a b c : A)
    → r ≡ finished true a
    → f a ≡ finished true b
    → g b ≡ finished true c
    → (r then_read f then_read g then_read h) ≡ h c
three_reads r f g h a b c e1 e2 e3 = rw (e1, e2, e3) refl

-- What asJson writes, the last first.
abbrev written :
    (json : JsonLibrary)
    → json.Value
    → json.Value
    → json.Value
    → json.Value
    → List (Text × json.Value)
written json m d a r =
    (codes "routes", r) ∷ (codes "addrs", a) ∷ (codes "dests", d) ∷ (codes "mtu", m) ∷ []

module _ (ip : IpLibrary) (json : JsonLibrary) (jl : JsonLaws json) where
  each-array :
      (k : Text) (loop : List json.Value → IfAddrs ip → Reading (IfAddrs ip)) (v : json.Value)
      (xs : List json.Value) (s : IfAddrs ip)
      → json.member k v ≡ some (json.array xs)
      → each ip json k loop v s ≡ loop xs s
  each-array k loop v xs s e = rw (e, jl.items-array xs, each) refl

-- The route's gateway has the prefix of a single host.
abbrev pub IsHostVia : (ip : IpLibrary) → RouteVia ip → Type 0
IsHostVia ip r = ip.prefix_num r.via ≡ ip.bits r.via

module _ (ip : IpLibrary) (laws : IpLaws ip) (json : JsonLibrary) (jl : JsonLaws json) where
  route_from_json-as_json :
      (r rv : RouteVia ip)
      → IsHostVia ip r
      → route_from_json ip json (route_as_json ip json r json.null) rv ≡ finished true r
  unfolding route_from_json route_as_json
  route_from_json-as_json r rv h =
      let o = jl.null-IsObject in
      let dest = json.string (ip.to_string r.dest) in
      let via = json.string (ip.to_s r.via) in
      let o' = jl.set-IsObject (codes "dest") dest json.null o in
      rw
        (
          jl.member_other (codes "dest") (codes "via") via _ o' (ground arith),
          jl.member_same (codes "dest") dest json.null o,
          jl.as_string-string (ip.to_string r.dest),
          jl.member_same (codes "via") via _ o',
          jl.as_string-string (ip.to_s r.via),
          laws.parse-to_string r.dest,
          laws.parse-to_s r.via h,
          route_from_json,
          route_as_json,
        )
        refl

  add_texts-add_dest :
      (addrs : List ip.Address) (s : IfAddrs ip)
      → add_texts ip json (add_dest ip) (map (λ a. json.string (ip.to_string a)) addrs) s
        ≡ finished true (record s { dests = s.dests ++ addrs })
  unfolding add_texts add_dest
  add_texts-add_dest [] s =
      ap (λ l. finished true (record s { dests = l })) (sym (append-nil s.dests))
  add_texts-add_dest (a ∷ addrs) s =
      rw (jl.as_string-string (ip.to_string a), laws.parse-to_string a, add_dest)
        (add_texts-add_dest addrs (record s { dests = s.dests ++ a ∷ [] })
          ∙ ap (λ l. finished true (record s { dests = l })) (append_assoc s.dests (a ∷ []) addrs))

  add_texts-add_addr :
      (addrs : List ip.Address) (s : IfAddrs ip)
      → add_texts ip json (add_addr ip) (map (λ a. json.string (ip.to_string a)) addrs) s
        ≡ finished true (record s { addrs = s.addrs ++ addrs })
  unfolding add_texts add_addr
  add_texts-add_addr [] s =
      ap (λ l. finished true (record s { addrs = l })) (sym (append-nil s.addrs))
  add_texts-add_addr (a ∷ addrs) s =
      rw (jl.as_string-string (ip.to_string a), laws.parse-to_string a, add_addr)
        (add_texts-add_addr addrs (record s { addrs = s.addrs ++ a ∷ [] })
          ∙ ap (λ l. finished true (record s { addrs = l })) (append_assoc s.addrs (a ∷ []) addrs))

  add_routes-as_json :
      (rs : List (RouteVia ip)) (s : IfAddrs ip)
      → All (IsHostVia ip) rs
      → add_routes ip json (map (λ r. route_as_json ip json r json.null) rs) s
        ≡ finished true (record s { routes = s.routes ++ rs })
  unfolding add_routes add_route
  add_routes-as_json [] s h =
      ap (λ l. finished true (record s { routes = l })) (sym (append-nil s.routes))
  add_routes-as_json (r ∷ rs) s h =
      rw (route_from_json-as_json r (blank_via ip json) h.0, add_routes)
        (add_routes-as_json rs (record s { routes = s.routes ++ r ∷ [] }) h.1
          ∙ ap (λ l. finished true (record s { routes = l })) (append_assoc s.routes (r ∷ []) rs))

  -- Of addresses whose mtu fits in an `int` and whose routes have gateways with the prefix of a
  -- single host, IfAddrs::fromJson reads back what IfAddrs::asJson writes to a new value: it returns
  -- true, takes over the mtu, and adds the destinations, addresses and routes behind those that
  -- were there.
  pub from_json-as_json :
      (a b : IfAddrs ip)
      → a.mtu < 2147483648
      → All (IsHostVia ip) a.routes
      → from_json ip json (as_json ip json a json.null) b
        ≡ finished true (record {
          mtu = a.mtu;
          dests = b.dests ++ a.dests;
          addrs = b.addrs ++ a.addrs;
          routes = b.routes ++ a.routes;
        })
  unfolding from_json as_json read_mtu
  from_json-as_json a b small hosts =
      let m = json.number a.mtu in
      let d = address_array ip json a.dests in
      let l = address_array ip json a.addrs in
      let r = json.array (map (λ r. route_as_json ip json r json.null) a.routes) in
      let fs = written json m d l r in
      let v = fields json fs json.null in
      let reads = λ (k : Text) (x : json.Value) (e : lookup json k fs ≡ some x).
        member-fields json jl k x fs json.null jl.null-IsObject e in
      let s = record b { mtu = a.mtu; dests = b.dests ++ a.dests } in
      let s' = record s { addrs = b.addrs ++ a.addrs } in
      three_reads (each ip json (codes "dests") (add_texts ip json (add_dest ip)) v b)
        (read_mtu ip json v) (each ip json (codes "addrs") (add_texts ip json (add_addr ip)) v)
        (each ip json (codes "routes") (add_routes ip json) v)
        (record b { dests = b.dests ++ a.dests }) s s'
        (each-array ip json jl (codes "dests") (add_texts ip json (add_dest ip)) v _ b
            (reads (codes "dests") d (unfold lookup text_eq in refl)).0
          ∙ add_texts-add_dest a.dests b)
        (rw
          (
            (reads (codes "mtu") m (unfold lookup text_eq in refl)).1,
            (reads (codes "mtu") m (unfold lookup text_eq in refl)).0,
            jl.as_int-number a.mtu small,
            read_mtu,
          )
          refl)
        (each-array ip json jl (codes "addrs") (add_texts ip json (add_addr ip)) v _ s
            (reads (codes "addrs") l (unfold lookup text_eq in refl)).0
          ∙ add_texts-add_addr a.addrs s)
      ∙ each-array ip json jl (codes "routes") (add_routes ip json) v _ s'
          (reads (codes "routes") r (unfold lookup text_eq in refl)).0
      ∙ add_routes-as_json a.routes s' hosts
