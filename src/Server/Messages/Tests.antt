-- ===== src/Server/Messages/Tests.antt =====
-- An init message at concrete inputs.
use tunator.Prelude.{◌≡◌, refl, true, ◌++◌, Option, none, some, arith, if◌then◌else◌}
use tunator.Text.{Text, codes, text_eq}
use tunator.Route.Tests.{three, three_laws}
use tunator.Packet.Tests.{list_ring}
use tunator.Packet.Queue.{queue_init}
use tunator.Device.Json.Fields.{fields}
use tunator.Device.IfAddrs.{as_json}
use tunator.Device.Life.{tun_device_init, start}
use tunator.Device.Setup.{as_commands_linux}
use tunator.Device.Tests.{json, json_laws, addresses}
use tunator.Server.Devices.{find}
use tunator.Server.Sessions.{Sessions, sessions_init, started_device}
use tunator.Server.Sessions.Tests.{meets, settings}
use tunator.Server.Messages.{handle_message}
use tunator.Server.Messages.Init.{init_fields, Serves, handle_message-init}

-- It reads one text, as an init.
abbrev pub reader : Text → Option json.Value
reader text =
    if text_eq text (codes "{init}")
    then some (fields json (init_fields json (as_json three json addresses json.null)) json.null)
    else none

pub reads :
    reader (codes "{init}")
    ≡ some (fields json (init_fields json (as_json three json addresses json.null)) json.null)
unfolding text_eq
reads = refl

starts :
    (started_device three list_ring json (as_commands_linux three) settings meets addresses).result
    ≡ true
unfolding start tun_device_init queue_init
starts = refl

handle_message-init_example :
    (s' : Sessions three list_ring json) × (handle_message three list_ring json
        (as_commands_linux three)
        settings
        reader
        (λ k t. t)
        meets
        (codes "JSON" ++ codes "{init}")
        1
        (sessions_init three list_ring json)
      ≡ some s')
    × Serves three list_ring json 1 0 addresses s'
unfolding sessions_init find
handle_message-init_example =
    handle_message-init three list_ring (as_commands_linux three) json json_laws settings reader
      three_laws (λ k t. t) meets (codes "{init}") addresses 1 (sessions_init three list_ring json)
      (omega arith) (refl, tt) reads starts refl
