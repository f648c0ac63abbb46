-- ===== src/Device/Setup/Commands.antt =====
-- Commands: what the commands of asCommands say, and how many they are.
use tunator.Prelude.{
  ℕ, ◌+◌, ◌≡◌, refl, ap, ap₂, ◌∙◌, false, List, [], ◌∷◌, ◌++◌, map, some, All, arith, length,
  length-append, length-map, if◌then◌else◌,
}
use tunator.Text.{Text, codes, text_eq, to_decimal}
use tunator.Route.Library.{IpLibrary}
use tunator.Route.IpRoute.{IpRoute, blank_route}
use tunator.Route.Linux.{command, command_all, serialize, serialize_dest}
use tunator.Device.Command.{system_cmd, arg, arg_number, dump}
use tunator.Device.Command.Dump.{dump-join, join}
use tunator.Device.IfAddrs.{RouteVia, IfAddrs}
use tunator.Device.Setup.{
  ip_addr_add, ip_route_add, ip_link_set, as_commands_linux, addr_commands, dest_commands,
  as_commands_apple, route_add, ifconfig_mtu,
}

map-append : {A B : Type 0} (f : A → B) (xs ys : List A) → map f (xs ++ ys) ≡ map f xs ++ map f ys
map-append f [] ys = refl
map-append f (x ∷ xs) ys = ap (λ l. f x ∷ l) (map-append f xs ys)

map-map :
    {A B C : Type 0} (f : B → C) (g : A → B) (h : A → C)
    → ((a : A) → f (g a) ≡ h a)
    → (xs : List A) → map f (map g xs) ≡ map h xs
map-map f g h e [] = refl
map-map f g h e (x ∷ xs) = ap₂ ◌∷◌ (e x) (map-map f g h e xs)

module _ (ip : IpLibrary) (dev : Text) where
  -- The route of `ip route` that a route of the device is.
  abbrev pub as_ip_route : RouteVia ip → IpRoute ip
  as_ip_route r = record (blank_route ip) { dest = r.dest; via = some r.via; dev = some dev }

  -- It is not the default route.
  abbrev pub IsSpecific : RouteVia ip → Type 0
  IsSpecific r = text_eq (ip.to_string r.dest) (codes "0.0.0.0/0") ≡ false

  abbrev pub addr_line : ip.Address → Text
  addr_line a = join (codes "/sbin/ip addr add" ∷ ip.to_string a ∷ codes "dev" ∷ dev ∷ [])

  abbrev pub link_line : ℕ → Text
  link_line mtu =
      join (codes "/sbin/ip link set dev" ∷ dev ∷ codes "mtu" ∷ to_decimal mtu ∷ codes "up" ∷ [])

  dump-ip_addr_add : (a : ip.Address) → dump (ip_addr_add ip dev a) ≡ addr_line a
  unfolding arg system_cmd
  dump-ip_addr_add a = dump-join (ip_addr_add ip dev a) refl

  dump-ip_link_set : (mtu : ℕ) → dump (ip_link_set ip dev mtu) ≡ link_line mtu
  unfolding arg arg_number system_cmd
  dump-ip_link_set mtu = dump-join (ip_link_set ip dev mtu) refl

  dump-ip_route_add :
      (r : RouteVia ip)
      → IsSpecific r
      → dump (ip_route_add ip dev r) ≡ command ip (as_ip_route r) (codes "add")
  unfolding arg system_cmd command serialize serialize_dest
  dump-ip_route_add r h = dump-join (ip_route_add ip dev r) refl ∙ rw h refl

  map-dump-routes :
      (rs : List (RouteVia ip))
      → All IsSpecific rs
      → map dump (map (ip_route_add ip dev) rs) ≡ command_all ip (map as_ip_route rs) (codes "add")
  unfolding command_all
  map-dump-routes [] h = refl
  map-dump-routes (r ∷ rs) h = ap₂ ◌∷◌ (dump-ip_route_add r h.0) (map-dump-routes rs h.1)

  -- On Linux, where no route of the device is the default route, the commands of asCommands are the
  -- lines that add the addresses, then those that LinuxIpRoute::command writes to add the routes,
  -- and the line that sets the mtu.
  pub map-dump-as_commands_linux :
      (s : IfAddrs ip)
      → All IsSpecific s.routes
      → map dump (as_commands_linux ip dev s)
        ≡ map addr_line s.addrs
          ++ (command_all ip (map as_ip_route s.routes) (codes "add") ++ link_line s.mtu ∷ [])
  unfolding as_commands_linux
  map-dump-as_commands_linux s h =
      map-append dump (map (ip_addr_add ip dev) s.addrs) _
      ∙ ap₂ ◌++◌ (map-map dump (ip_addr_add ip dev) addr_line dump-ip_addr_add s.addrs) (
          map-append dump (map (ip_route_add ip dev) s.routes) _
          ∙ ap₂ ◌++◌ (map-dump-routes s.routes h) (ap (λ l. l ∷ []) (dump-ip_link_set s.mtu)))

  -- How many of the addresses are of the kind of a destination.
  abbrev same_kind_count : ip.Address → List ip.Address → ℕ
  same_kind_count dst [] = 0
  same_kind_count dst (a ∷ addrs) =
      (if ip.same_kind dst a then 1 else 0) + same_kind_count dst addrs

  -- How many pairs of a destination and an address are of one kind.
  abbrev pub pair_count : List ip.Address → List ip.Address → ℕ
  pair_count [] addrs = 0
  pair_count (dst ∷ dsts) addrs = same_kind_count dst addrs + pair_count dsts addrs

  length-addr_commands :
      (dst : ip.Address) (addrs : List ip.Address)
      → length (addr_commands ip dev dst addrs) ≡ same_kind_count dst addrs
  unfolding addr_commands
  length-addr_commands dst [] = refl
  length-addr_commands dst (a ∷ addrs) = ground (arith, length-addr_commands dst addrs)

  length-dest_commands :
      (addrs dsts : List ip.Address)
      → length (dest_commands ip dev addrs dsts) ≡ pair_count dsts addrs
  unfolding dest_commands
  length-dest_commands addrs [] = refl
  length-dest_commands addrs (dst ∷ dsts) =
      length-append (addr_commands ip dev dst addrs) (dest_commands ip dev addrs dsts)
      ∙ ap₂ ◌+◌ (length-addr_commands dst addrs) (length-dest_commands addrs dsts)

  -- asCommands gives one command for each route and one for the mtu on both systems. For the
  -- addresses it gives one for each address on Linux, and on macOS one for each pair of a destination
  -- and an address of the same kind: none without a destination, and one for each destination
  -- otherwise.
  pub length-as_commands :
      (s : IfAddrs ip)
      → (length (as_commands_linux ip dev s) ≡ length s.addrs + length s.routes + 1)
        × (length (as_commands_apple ip dev s) ≡ pair_count s.dests s.addrs + length s.routes + 1)
  unfolding as_commands_linux as_commands_apple
  length-as_commands s = (
    omega (
      arith,
      length-append (map (ip_addr_add ip dev) s.addrs)
          (map (ip_route_add ip dev) s.routes ++ ip_link_set ip dev s.mtu ∷ []),
      length-append (map (ip_route_add ip dev) s.routes) (ip_link_set ip dev s.mtu ∷ []),
      length-map s.addrs (ip_addr_add ip dev),
      length-map s.routes (ip_route_add ip dev),
    ),
    omega (
      arith,
      length-append (dest_commands ip dev s.addrs s.dests)
          (map (route_add ip dev) s.routes ++ ifconfig_mtu ip dev s.mtu ∷ []),
      length-append (map (route_add ip dev) s.routes) (ifconfig_mtu ip dev s.mtu ∷ []),
      length-dest_commands s.addrs s.dests,
      length-map s.routes (route_add ip dev),
    ),
  )
