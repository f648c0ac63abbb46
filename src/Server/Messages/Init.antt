-- ===== src/Server/Messages/Init.antt =====
-- Init: a whole init message.
use tunator.Prelude.{
  ℕ, ◌<◌, ◌≡◌, refl, subst, ◌∙◌, Bool, true, false, List, [], ◌∷◌, ◌++◌, Option, none, some, All,
  arith, length, ltb,
}
use tunator.Text.{Text, codes, text_eq}
use tunator.Route.Library.{IpLibrary, IpLaws}
use tunator.Packet.Ring.{Ring}
use tunator.Packet.Queue.{PacketQueue}
use tunator.Device.Command.{SystemCmd}
use tunator.Device.Json.{JsonLibrary, JsonLaws}
use tunator.Device.Json.Fields.{fields, lookup, member-fields}
use tunator.Device.IfAddrs.{IfAddrs, if_addrs_init, as_json}
use tunator.Device.IfAddrs.RoundTrip.{IsHostVia, from_json-as_json}
use tunator.Device.Life.{
  TunDevice, Answers, tun_device_init, set_recv_thread, set_stat_thread, start, start_on_tun,
  start_echo,
}
use tunator.Device.Report.{Clocks, device_as_json, message_as_json}
use tunator.Server.{from, get_header, on_message, to_json}
use tunator.Server.Devices.{find}
use tunator.Server.Devices.Entries.{find-insert}
use tunator.Server.Sessions.{
  Settings, Meets, Sessions, send_tun, with_server_threads, init_ended, started_device,
  init_session,
}
use tunator.Server.Sessions.Sound.{store_device_same}
use tunator.Server.Sessions.Refines.{start-IsJoinable}
use tunator.Server.Messages.{perform, process_json, handle_message}

on_message-json : (known : Bool) (x : Text) → on_message known (from (codes "JSON" ++ x)) ≡ to_json
unfolding on_message from get_header
on_message-json known x =
    let long : ltb (length (codes "JSON" ++ x)) 4 ≡ false = ground arith in rw long refl

rest-json : (x : Text) → (from (codes "JSON" ++ x)).rest ≡ x
unfolding from get_header
rest-json x = let long : ltb (length (codes "JSON" ++ x)) 4 ≡ false = ground arith in rw long refl

-- The JSON of an init with these data.
abbrev pub init_fields : (json : JsonLibrary) → json.Value → List (Text × json.Value)
init_fields json js = (codes "data", js) ∷ (codes "action", json.string (codes "init")) ∷ []

module _ (ip : IpLibrary) (r : Ring) (json : JsonLibrary) where
  -- The connection has a device that runs with these addresses.
  abbrev pub Serves : ℕ → ℕ → IfAddrs ip → Sessions ip r json → Type 0
  Serves c d a s =
      (tun : TunDevice ip r) × (find c s.tun_devices ≡ some d)
      × (s.devices d ≡ some tun)
      × (tun.running ≡ true)
      × (tun.if_addrs ≡ a)

  init_ended-Serves :
      (clocks : Clocks) (c : ℕ) (b : Bool) (commands : List SystemCmd) (tun : TunDevice ip r)
      (s : Sessions ip r json)
      → b ≡ true
      → tun.running ≡ true
      → find c s.tun_devices ≡ none
      → Serves c s.made tun.if_addrs (
          init_ended ip r json clocks c
            (record { result = b; terminated = false; commands = commands; device = tun })
            s)
  unfolding init_ended send_tun message_as_json device_as_json set_recv_thread set_stat_thread
  init_ended-Serves clocks c false commands tun s e run new = absurd (ground arith)
  init_ended-Serves clocks c true commands tun s e run new =
      let tun' =
        (send_tun ip r json (codes "init-res") clocks (with_server_threads ip r json tun)).1 in
      (
        tun',
        find-insert c s.made s.tun_devices new,
        store_device_same ip r json s.made tun' s.devices,
        run,
        refl,
      )

module _ (ip : IpLibrary) (r : Ring) (as_commands : Text → IfAddrs ip → List SystemCmd) where
  start-if_addrs :
      (answers : Answers) (tun : TunDevice ip r)
      → (start ip r as_commands answers tun).device.if_addrs ≡ tun.if_addrs
  unfolding start start_on_tun start_echo
  start-if_addrs answers tun = ground arith

  module _ (json : JsonLibrary) (jl : JsonLaws json) (settings : Settings)
      (reader : Text → Option json.Value) where
    process_json-init :
        (meets : Meets) (text : Text) (js : json.Value) (c : ℕ) (s : Sessions ip r json)
        → reader text ≡ some (fields json (init_fields json js) json.null)
        → process_json ip r json as_commands settings reader meets text c s
          ≡ init_session ip r json as_commands settings meets js c s
    unfolding process_json perform
    process_json-init meets text js c s e =
        let reads =
          λ (k : Text) (x : json.Value) (h : lookup json k (init_fields json js) ≡ some x).
            (member-fields json jl k x (init_fields json js) json.null jl.null-IsObject h).0 in
        rw
          (
            e,
            reads (codes "action") (json.string (codes "init")) (unfold lookup text_eq in refl),
            jl.as_string-string (codes "init"),
            reads (codes "data") js (unfold lookup text_eq in refl),
            process_json,
            perform,
          )
          refl

    -- A message of JSON that is read as an init with addresses, as IfAddrs::asJson writes them, from a
    -- connection without a device gives that connection a device that runs with these addresses, if their
    -- mtu fits in an `int`, each gateway has the prefix of a single host, and the device's start succeeds.
    pub handle_message-init :
        (laws : IpLaws ip) (during : ℕ → PacketQueue r → PacketQueue r) (meets : Meets)
        (text : Text) (a : IfAddrs ip) (c : ℕ) (s : Sessions ip r json)
        → a.mtu < 2147483648
        → All (IsHostVia ip) a.routes
        → reader text
          ≡ some (fields json (init_fields json (as_json ip json a json.null)) json.null)
        → (started_device ip r json as_commands settings meets a).result ≡ true
        → find c s.tun_devices ≡ none
        → (s' : Sessions ip r json) × (handle_message ip r json as_commands settings reader during
              meets
              (codes "JSON" ++ text)
              c
              s
            ≡ some s')
          × Serves ip r json c s.made a s'
    unfolding handle_message init_session if_addrs_init
    handle_message-init laws during meets text a c s small hosts e starts new =
        let tun = tun_device_init ip r meets.memory meets.now a settings.mtu settings.q_size in
        let st = started_device ip r json as_commands settings meets a in
        let (runs, _, _) = start-IsJoinable ip r json as_commands meets.answers tun starts in
        let js = as_json ip json a json.null in
        let inits : init_session ip r json as_commands settings meets js c s
            ≡ some (init_ended ip r json meets.clocks c st s) =
          rw (from_json-as_json ip laws json jl a (if_addrs_init ip) small hosts, init_session)
            refl in
        (
          init_ended ip r json meets.clocks c st s,
          rw (on_message-json _ text, rest-json text, handle_message)
              (process_json-init meets text js c s e ∙ inits),
          subst (λ x. Serves ip r json c s.made x (init_ended ip r json meets.clocks c st s))
              (start-if_addrs meets.answers tun)
              (init_ended-Serves ip r json meets.clocks c st.result st.commands st.device s starts
                runs new),
        )
