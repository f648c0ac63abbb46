-- ===== src/Server/Sessions.antt =====
-- tuna_server.hpp: the handlers over the devices themselves. The sockets are left out: what is sent is a
-- list of messages.
pub mod Sound
pub mod Refines
pub mod History
pub mod Tests
use tunator.Prelude.{
  ℕ, ◌+◌, Bool, true, false, ◌==◌, List, [], ◌∷◌, ◌++◌, Option, none, some, if◌then◌else◌,
}
use tunator.Text.{Text, codes}
use tunator.Route.Library.{IpLibrary}
use tunator.Packet.Buffer.{Memory}
use tunator.Packet.Ring.{Ring}
use tunator.Device.Command.{SystemCmd}
use tunator.Device.Json.{JsonLibrary, Reading, finished, raised}
use tunator.Device.IfAddrs.{IfAddrs, if_addrs_init, from_json}
use tunator.Device.Life.{
  TunDevice, Answers, Started, tun_device_init, set_recv_thread, set_stat_thread, start, stop,
}
use tunator.Device.Report.{Clocks, MessageRef, device_as_json, message_as_json}
use tunator.Server.Devices.{DeviceMap, find, insert, erase}

-- `getMtu` and `getQsize`.
pub record Settings : Type 0 where
  pub mtu : ℕ
  pub q_size : ℕ

-- What a call of `actionInit` meets: the memory of the new device, the time, the system's answers to its
-- start, and the clocks of the report.
pub record Meets : Type 0 where
  pub memory : Memory
  pub now : ℕ
  pub answers : Answers
  pub clocks : Clocks

-- What happens to the server.
pub data Message (json : JsonLibrary) : Type 0 where
  init : Meets → json.Value → ℕ → Message json
  closed : ℕ → Message json

unfoldable pub store_device {ℓ} : {A : Type ℓ} → ℕ → A → (ℕ → Option A) → ℕ → Option A
store_device d a devices e = if e == d then some a else devices e

-- The devices by number, as long as one may still refer to them, and the messages sent, each with its
-- connection, oldest first.
pub record Sessions (ip : IpLibrary) (r : Ring) (json : JsonLibrary) : Type 0 where
  pub tun_devices : DeviceMap
  pub devices : ℕ → Option (TunDevice ip r)
  pub made : ℕ
  pub sent : List (ℕ × json.Value)

module _ (ip : IpLibrary) (r : Ring) (json : JsonLibrary) where
  unfoldable pub sessions_init : Sessions ip r json
  sessions_init = record { tun_devices = []; devices = λ d. none; made = 0; sent = [] }

  -- `sendTun`: the message, and the device that was reported.
  unfoldable pub send_tun : Text → Clocks → TunDevice ip r → json.Value × TunDevice ip r
  unfolding message_as_json device_as_json
  send_tun action clocks tun =
      let msg : MessageRef (TunDevice ip r) = record { action = action; data_ref = tun } in
      let (out, msg') = message_as_json json (device_as_json json ip r clocks) msg json.null in
      (out, msg'.data_ref)

  -- `startStatThread` and `startRecvThread`, which always return true.
  abbrev pub with_server_threads : TunDevice ip r → TunDevice ip r
  with_server_threads tun = set_recv_thread ip r (set_stat_thread ip r tun)

  -- The end of `actionInit`: the device that was not started is gone when it returns.
  unfoldable pub init_ended : Clocks → ℕ → Started ip r → Sessions ip r json → Sessions ip r json
  unfolding send_tun store_device insert set_recv_thread set_stat_thread
  init_ended clocks c st s =
      let tun = if st.result then with_server_threads st.device else st.device in
      let (out, tun') = send_tun (codes "init-res") clocks tun in
      let s' = record s { made = s.made + 1; sent = s.sent ++ (c, out) ∷ [] } in
      if st.result
      then record s' {
        tun_devices = insert c s.made s.tun_devices;
        devices = store_device s.made tun' s.devices;
      }
      else s'

  -- `disconnect`; `none` is an exception of `stop`.
  unfoldable pub close_session : ℕ → Sessions ip r json → Option (Sessions ip r json)
  unfolding find stop erase store_device
  close_session c s = elim (find c s.tun_devices) [
    | none ↦ some s
    | some d ↦ elim (s.devices d) [
      | none ↦ none
      | some tun ↦ elim (stop ip r tun) [
        | none ↦ none
        | some (tun', fds) ↦ some (record s {
          tun_devices = erase c s.tun_devices;
          devices = store_device d tun' s.devices;
        })
      ]
    ]
  ]

  module _ (as_commands : Text → IfAddrs ip → List SystemCmd) (settings : Settings) where
    -- The device that an init makes, and its start. The device has no threads yet, so that its start does
    -- not end the process.
    abbrev pub started_device : Meets → IfAddrs ip → Started ip r
    started_device meets if_addrs =
        start ip r as_commands meets.answers
          (tun_device_init ip r meets.memory meets.now if_addrs settings.mtu settings.q_size)

    -- `actionInit`; `none` is an exception of the JSON library.
    unfoldable pub init_session :
        Meets → json.Value → ℕ → Sessions ip r json → Option (Sessions ip r json)
    unfolding init_ended start tun_device_init
    init_session meets js c s = elim (from_json ip json js (if_addrs_init ip)) [
      | raised ↦ none
      | finished false if_addrs ↦ some s
      | finished true if_addrs ↦ some (init_ended meets.clocks c (started_device meets if_addrs) s)
    ]

    unfoldable pub handle_session : Message json → Sessions ip r json → Option (Sessions ip r json)
    unfolding init_session close_session
    handle_session (init meets js c) s = init_session meets js c s
    handle_session (closed c) s = close_session c s

    unfoldable pub handle_sessions :
        List (Message json) → Sessions ip r json → Option (Sessions ip r json)
    unfolding handle_session
    handle_sessions [] s = some s
    handle_sessions (e ∷ es) s = elim (handle_session e s) [
      | none ↦ none
      | some s' ↦ handle_sessions es s'
    ]
