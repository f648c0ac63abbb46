-- ===== src/Server/Messages.antt =====
-- tuna_server.hpp: whole messages of a web socket, from the header to the handler.
pub mod Init
pub mod Tests
use tunator.Prelude.{ℕ, Bool, true, false, List, [], ◌∷◌, ◌++◌, Option, none, some, if◌then◌else◌}
use tunator.Text.{Text, codes}
use tunator.Route.Library.{IpLibrary}
use tunator.Packet.Ring.{Ring}
use tunator.Packet.Queue.{PacketQueue}
use tunator.Device.Command.{SystemCmd}
use tunator.Device.Json.{JsonLibrary, finished, raised}
use tunator.Device.IfAddrs.{IfAddrs, if_addrs_init, from_json}
use tunator.Device.Report.{Clocks}
use tunator.Server.{
  WsPacket, from, process_packet, Action, init_action, pong_action, unknown_action, select_action,
  to_json, to_packet, not_found, ignored, on_message, from_c_string,
}
use tunator.Server.Devices.{find}
use tunator.Server.Sessions.{Settings, Meets, Sessions, store_device, send_tun, init_session}

abbrev pub is_some {ℓ} : {A : Type ℓ} → Option A → Bool
is_some none = false
is_some (some a) = true

module _ (ip : IpLibrary) (r : Ring) (json : JsonLibrary) where
  -- `actionPong`: the addresses are read and dropped.
  unfoldable pub action_pong : json.Value → Sessions ip r json → Option (Sessions ip r json)
  unfolding from_json
  action_pong js s = elim (from_json ip json js (if_addrs_init ip)) [
    | raised ↦ none
    | finished b a ↦ some s
  ]

  -- The packet of `processPacket`, where `during` is what other threads do while push sleeps.
  unfoldable pub packet_session :
      (ℕ → PacketQueue r → PacketQueue r)
      → WsPacket
      → ℕ
      → Sessions ip r json
      → Option (Sessions ip r json)
  unfolding process_packet store_device
  packet_session during w c s = elim (find c s.tun_devices) [
    | none ↦ some s
    | some d ↦ elim (s.devices d) [
      | none ↦ none
      | some tun ↦ elim (process_packet r during w tun.to_tun) [
        | none ↦ none
        | some p ↦
            some (record s { devices = store_device d (record tun { to_tun = p.state }) s.devices })
      ]
    ]
  ]

  -- A round of the thread of `startStatThread`, after its sleep.
  unfoldable pub stat_round : Clocks → ℕ → ℕ → Sessions ip r json → Sessions ip r json
  unfolding send_tun store_device
  stat_round clocks c d s = elim (s.devices d) [
    | none ↦ s
    | some tun ↦
        let (out, tun') = send_tun ip r json (codes "stat-res") clocks tun in
        if tun.running
        then record s { devices = store_device d tun' s.devices; sent = s.sent ++ (c, out) ∷ [] }
        else s
  ]

  module _ (as_commands : Text → IfAddrs ip → List SystemCmd) (settings : Settings)
      (reader : Text → Option json.Value) where
    -- The cases of `processJson`; `none` is an exception.
    unfoldable pub perform :
        Meets → Action → json.Value → ℕ → Sessions ip r json → Option (Sessions ip r json)
    unfolding init_session action_pong
    perform meets unknown_action v c s = some s
    perform meets init_action v c s = elim (json.member (codes "data") v) [
      | none ↦ none
      | some js ↦ init_session ip r json as_commands settings meets js c s
    ]
    perform meets pong_action v c s = elim (json.member (codes "data") v) [
      | none ↦ none
      | some js ↦ action_pong js s
    ]

    -- `processJson`, where `reader` is that of the library. A name is read as a C string, as if the string
    -- that it points into were still there.
    unfoldable pub process_json :
        Meets → Text → ℕ → Sessions ip r json → Option (Sessions ip r json)
    unfolding perform select_action
    process_json meets text c s = elim (reader text) [
      | none ↦ some s
      | some v ↦ elim (json.member (codes "action") v) [
        | none ↦ none
        | some x ↦ elim (json.as_string x) [
          | none ↦ none
          | some name ↦ perform meets (select_action (from_c_string name)) v c s
        ]
      ]
    ]

    -- `onmessage`
    unfoldable pub handle_message :
        (ℕ → PacketQueue r → PacketQueue r)
        → Meets
        → Text
        → ℕ
        → Sessions ip r json
        → Option (Sessions ip r json)
    unfolding process_json packet_session on_message from find
    handle_message during meets message c s =
        let w = from message in
        elim (on_message (is_some (find c s.tun_devices)) w) [
          | to_json ↦ process_json meets w.rest c s
          | to_packet ↦ packet_session during w c s
          | not_found ↦ some s
          | ignored ↦ some s
        ]
