-- ===== src/Device/Setup.antt =====
-- if_addrs_linux.cpp and if_addrs_macos.cpp: the commands that set up a device's addresses and routes.
pub mod Commands
use tunator.Prelude.{ℕ, true, false, not, List, [], ◌∷◌, ◌++◌, map, if◌then◌else◌}
use tunator.Text.{Text, codes}
use tunator.Route.Library.{IpLibrary}
use tunator.Device.Command.{SystemCmd, system_cmd, arg, arg_number}
use tunator.Device.IfAddrs.{RouteVia, IfAddrs}

module _ (ip : IpLibrary) where
  -- On Linux.
  abbrev pub ip_addr_add : Text → ip.Address → SystemCmd
  ip_addr_add dev a = arg dev (
      arg (codes "dev") (
        arg (ip.to_string a)
          (arg (codes "add") (arg (codes "addr") (system_cmd (codes "/sbin/ip"))))))

  abbrev pub ip_route_add : Text → RouteVia ip → SystemCmd
  ip_route_add dev r = arg dev (
      arg (codes "dev") (
        arg (ip.to_s r.via) (
          arg (codes "via") (
            arg (ip.to_string r.dest)
              (arg (codes "add") (arg (codes "route") (system_cmd (codes "/sbin/ip"))))))))

  abbrev pub ip_link_set : Text → ℕ → SystemCmd
  ip_link_set dev mtu = arg (codes "up") (
      arg_number mtu (
        arg (codes "mtu") (
          arg dev (
            arg (codes "dev")
              (arg (codes "set") (arg (codes "link") (system_cmd (codes "/sbin/ip"))))))))

  unfoldable pub as_commands_linux : Text → IfAddrs ip → List SystemCmd
  unfolding system_cmd arg arg_number
  as_commands_linux dev s =
      map (ip_addr_add dev) s.addrs
      ++ (map (ip_route_add dev) s.routes ++ ip_link_set dev s.mtu ∷ [])

  -- On macOS.
  abbrev pub ifconfig_addr : Text → ip.Address → ip.Address → SystemCmd
  ifconfig_addr dev dst a =
      let c = arg dev (system_cmd (codes "/sbin/ifconfig")) in
      if ip.includes a dst
      then arg (ip.to_s dst) (arg (ip.to_s a) c)
      else arg (ip.to_string a) (arg (codes "alias") c)

  -- The loop over the addresses, for a destination.
  unfoldable pub addr_commands : Text → ip.Address → List ip.Address → List SystemCmd
  unfolding system_cmd arg
  addr_commands dev dst [] = []
  addr_commands dev dst (a ∷ addrs) =
      let rest = addr_commands dev dst addrs in
      if not (ip.same_kind dst a) then rest else ifconfig_addr dev dst a ∷ rest

  unfoldable pub dest_commands : Text → List ip.Address → List ip.Address → List SystemCmd
  unfolding addr_commands
  dest_commands dev addrs [] = []
  dest_commands dev addrs (dst ∷ dsts) = addr_commands dev dst addrs ++ dest_commands dev addrs dsts

  abbrev pub route_add : Text → RouteVia ip → SystemCmd
  route_add dev r = arg dev (
      arg (codes "-ifscope") (
        arg (ip.to_s r.via)
          (arg (ip.to_string r.dest) (arg (codes "add") (system_cmd (codes "/sbin/route"))))))

  abbrev pub ifconfig_mtu : Text → ℕ → SystemCmd
  ifconfig_mtu dev mtu =
      arg (codes "up")
        (arg_number mtu (arg (codes "mtu") (arg dev (system_cmd (codes "/sbin/ifconfig")))))

  unfoldable pub as_commands_apple : Text → IfAddrs ip → List SystemCmd
  unfolding system_cmd arg arg_number dest_commands
  as_commands_apple dev s =
      dest_commands dev s.addrs s.dests
      ++ (map (route_add dev) s.routes ++ ifconfig_mtu dev s.mtu ∷ [])
