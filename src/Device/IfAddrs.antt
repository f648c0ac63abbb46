-- ===== src/Device/IfAddrs.antt =====
-- if_addrs.hpp: the addresses and routes of a device, and their JSON.
pub mod RoundTrip
use tunator.Prelude.{
  ℕ, zero, suc, ◌-◌, Bool, true, false, not, ◌==◌, List, [], ◌∷◌, ◌++◌, map, Option, none, some, ℤ,
  size_of_int, if◌then◌else◌,
}
use tunator.Text.{Text, codes, Outcome, ok, err, ◌>>=◌}
use tunator.Route.Library.{IpLibrary}
use tunator.Device.Json.{JsonLibrary, Reading, finished, raised, ◌then_read◌, get}

pub record RouteVia (ip : IpLibrary) : Type 0 where
  pub dest : ip.Address
  pub via : ip.Address

pub record IfAddrs (ip : IpLibrary) : Type 0 where
  pub mtu : ℕ
  pub dests : List ip.Address
  pub addrs : List ip.Address
  pub routes : List (RouteVia ip)

module _ (ip : IpLibrary) where
  abbrev pub parse_result : Text → Outcome ip.Address
  parse_result t = elim (ip.parse t) [ some a ↦ ok a | none ↦ err (ip.parse_error t) ]

  -- The two tests of `RouteVia::create`.
  abbrev pub checked : ip.Address → ip.Address → Outcome (RouteVia ip)
  checked dest via =
      if not (ip.same_kind via dest)
      then err (codes "is not the same_kind")
      else if not (ip.prefix_num via == ip.bits via)
      then err (codes "is not a hostaddress")
      else ok (record { dest = dest; via = via })

  -- `RouteVia::create`
  unfoldable pub create : Text → Text → Outcome (RouteVia ip)
  create dest_text via_text = do
    dest ← parse_result dest_text
    via ← parse_result via_text
    checked dest via

  unfoldable pub if_addrs_init : IfAddrs ip
  if_addrs_init = record { mtu = 1360; dests = []; addrs = []; routes = [] }

  abbrev pub set_mtu : ℕ → IfAddrs ip → IfAddrs ip
  set_mtu mtu s = record s { mtu = mtu }

  unfoldable pub is_echo : IfAddrs ip → Bool
  is_echo s = elim s.addrs [ [] ↦ true | ◌∷◌ a addrs ↦ false ]

  unfoldable pub add_dest : Text → IfAddrs ip → Bool × IfAddrs ip
  add_dest t s = elim (ip.parse t) [
    | none ↦ (false, s)
    | some a ↦ (true, record s { dests = s.dests ++ a ∷ [] })
  ]

  unfoldable pub add_addr : Text → IfAddrs ip → Bool × IfAddrs ip
  add_addr t s = elim (ip.parse t) [
    | none ↦ (false, s)
    | some a ↦ (true, record s { addrs = s.addrs ++ a ∷ [] })
  ]

  -- `isValid` is true of every route.
  unfoldable pub add_route : RouteVia ip → IfAddrs ip → Bool × IfAddrs ip
  add_route route s = (true, record s { routes = s.routes ++ route ∷ [] })

  module _ (json : JsonLibrary) where
    unfoldable pub route_as_json : RouteVia ip → json.Value → json.Value
    route_as_json rv v =
        json.set_member (codes "via") (json.string (ip.to_s rv.via))
          (json.set_member (codes "dest") (json.string (ip.to_string rv.dest)) v)

    abbrev pub address_array : List ip.Address → json.Value
    address_array addrs = json.array (map (λ a. json.string (ip.to_string a)) addrs)

    unfoldable pub as_json : IfAddrs ip → json.Value → json.Value
    unfolding route_as_json
    as_json s v =
        json.set_member (codes "routes")
          (json.array (map (λ r. route_as_json r json.null) s.routes))
          (json.set_member (codes "addrs") (address_array s.addrs) (
            json.set_member (codes "dests") (address_array s.dests)
              (json.set_member (codes "mtu") (json.number s.mtu) v)))

    -- `val[key].asString()`
    abbrev pub member_text : Text → json.Value → Option Text
    member_text k v = elim (json.member k v) [ none ↦ none | some x ↦ json.as_string x ]

    abbrev routed : Option ip.Address → Option ip.Address → RouteVia ip → Reading (RouteVia ip)
    routed (some dest) (some via) rv = finished true (record { dest = dest; via = via })
    routed (some dest) none rv = finished false rv
    routed none via rv = finished false rv

    unfoldable pub route_from_json : json.Value → RouteVia ip → Reading (RouteVia ip)
    route_from_json v rv = elim (member_text (codes "dest") v) [
      | none ↦ raised
      | some dest ↦ elim (member_text (codes "via") v) [
        | none ↦ raised
        | some via ↦ routed (ip.parse dest) (ip.parse via) rv
      ]
    ]

    abbrev pub as_reading : Bool × IfAddrs ip → Reading (IfAddrs ip)
    as_reading r = finished r.0 r.1

    -- A loop that adds the texts of an array.
    unfoldable pub add_texts :
        (Text → IfAddrs ip → Bool × IfAddrs ip)
        → List json.Value
        → IfAddrs ip
        → Reading (IfAddrs ip)
    add_texts add [] s = finished true s
    add_texts add (v ∷ vs) s = elim (json.as_string v) [
      | none ↦ raised
      | some t ↦ as_reading (add t s) then_read (λ s'. add_texts add vs s')
    ]

    abbrev pub blank_via : RouteVia ip
    blank_via = record { dest = ip.blank; via = ip.blank }

    -- The loop over the routes.
    unfoldable pub add_routes : List json.Value → IfAddrs ip → Reading (IfAddrs ip)
    unfolding route_from_json add_route
    add_routes [] s = finished true s
    add_routes (v ∷ vs) s = elim (route_from_json v blank_via) [
      | raised ↦ raised
      | finished false rv ↦ finished false s
      | finished true rv ↦ as_reading (add_route rv s) then_read (λ s'. add_routes vs s')
    ]

    -- `setMtu(val.get("mtu", getMtu()).asInt())`
    unfoldable pub read_mtu : json.Value → IfAddrs ip → Reading (IfAddrs ip)
    read_mtu v s = elim (get json (codes "mtu") (json.number s.mtu) v) [
      | none ↦ raised
      | some m ↦ elim (json.as_int m) [
        | none ↦ raised
        | some n ↦ finished true (set_mtu (size_of_int n) s)
      ]
    ]

    -- A loop over `val[key]`.
    abbrev pub each :
        Text
        → (List json.Value → IfAddrs ip → Reading (IfAddrs ip))
        → json.Value
        → IfAddrs ip
        → Reading (IfAddrs ip)
    each k loop v s = elim (json.member k v) [ none ↦ raised | some x ↦ loop (json.items x) s ]

    unfoldable pub from_json : json.Value → IfAddrs ip → Reading (IfAddrs ip)
    unfolding add_texts add_dest add_addr add_routes read_mtu
    from_json v s =
        each (codes "dests") (add_texts add_dest) v s
        then_read read_mtu v
        then_read each (codes "addrs") (add_texts add_addr) v
        then_read each (codes "routes") add_routes v
