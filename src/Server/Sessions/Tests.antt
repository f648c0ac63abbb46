-- ===== src/Server/Sessions/Tests.antt =====
-- A connection that sends an init and closes.
use tunator.Prelude.{◌≡◌, refl, true, [], ◌∷◌, List, some, map, arith}
use tunator.Text.{codes}
use tunator.Route.Tests.{three, three_laws}
use tunator.Packet.Tests.{list_ring, zeros}
use tunator.Device.Json.{finished}
use tunator.Device.IfAddrs.{if_addrs_init, as_json, from_json}
use tunator.Device.IfAddrs.RoundTrip.{from_json-as_json}
use tunator.Device.Setup.{as_commands_linux}
use tunator.Device.Tests.{json, json_laws, addresses, half}
use tunator.Server.Devices.{handle_all}
use tunator.Server.Sessions.{
  Settings, Meets, Sessions, Message, init, closed, sessions_init, handle_sessions,
}
use tunator.Server.Sessions.Sound.{abstract, IsSound, sessions_init-IsSound}
use tunator.Server.Sessions.History.{numbered, handle_sessions-abstract}

abbrev pub meets : Meets
meets = record {
  memory = zeros;
  now = 3;
  answers = record half { get_flags = true; set_flags = true };
  clocks = record { local_time = codes "noon"; from_tun = (5, 6); to_tun = (7, 8) };
}

abbrev pub settings : Settings
settings = record { mtu = 1500; q_size = 3 }

abbrev messages : List (Message json)
messages = init meets (as_json three json addresses json.null) 1 ∷ closed 1 ∷ []

pub init-IsReadable :
    from_json three json (as_json three json addresses json.null) (if_addrs_init three)
    ≡ finished true addresses
unfolding if_addrs_init
init-IsReadable =
    from_json-as_json three three_laws json json_laws addresses (if_addrs_init three) (omega arith)
      (refl, tt)

handle_sessions-abstract_example :
    (s' : Sessions three list_ring json) × (handle_sessions three list_ring json
        (as_commands_linux three)
        settings
        messages
        (sessions_init three list_ring json)
      ≡ some s')
    × (abstract three list_ring json s'
        ≡ handle_all
            (map (numbered three list_ring json (as_commands_linux three) settings) messages)
            (abstract three list_ring json (sessions_init three list_ring json)))
    × IsSound three list_ring json s'
handle_sessions-abstract_example =
    handle_sessions-abstract three list_ring json (as_commands_linux three) settings messages
      (sessions_init three list_ring json) ((true, addresses, init-IsReadable), (tt, tt))
      (sessions_init-IsSound three list_ring json)
