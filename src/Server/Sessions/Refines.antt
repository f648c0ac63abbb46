-- ===== src/Server/Sessions/Refines.antt =====
-- Refines: the handlers over devices do what the handlers over numbers do.
use tunator.Prelude.{
  ℕ, ◌+◌, ◌≡◌, refl, ap, inl, inr, Bool, true, false, List, some, All-imp, arith, Option-cases,
}
use tunator.Text.{Text, codes}
use tunator.Route.Library.{IpLibrary}
use tunator.Packet.Ring.{Ring}
use tunator.Device.Command.{SystemCmd}
use tunator.Device.Json.{JsonLibrary, finished}
use tunator.Device.IfAddrs.{IfAddrs, if_addrs_init, from_json}
use tunator.Device.Life.{
  TunDevice, Answers, joinable, tun_device_init, set_recv_thread, set_stat_thread, start,
  start_on_tun, start_echo,
}
use tunator.Device.Report.{Clocks, device_as_json, message_as_json}
use tunator.Server.Devices.{find, insert, erase, action_init, disconnect}
use tunator.Server.Devices.Entries.{
  All-insert, All-erase, All-find, Distinct-insert, Distinct-erase, Absent-erased, All-apart,
  Absent-made,
}
use tunator.Server.Sessions.{
  Settings, Meets, Sessions, store_device, send_tun, with_server_threads, init_ended,
  started_device, init_session, close_session,
}
use tunator.Server.Sessions.Sound.{
  abstract, is_running-store_device, IsHeld, store_device_same, IsHeld-other, IsSound,
  stop-IsJoinable,
}

module _ (ip : IpLibrary) (r : Ring) (json : JsonLibrary) where
  pub close_session-abstract :
      (c : ℕ) (s : Sessions ip r json)
      → IsSound ip r json s
      → (s' : Sessions ip r json) × (close_session ip r json c s ≡ some s')
        × (abstract ip r json s' ≡ disconnect c (abstract ip r json s))
        × IsSound ip r json s'
  unfolding close_session disconnect
  close_session-abstract c s h = elim (Option-cases (find c s.tun_devices)) [
    | inl e ↦ (s, rw (e, close_session) refl, rw (e, disconnect) refl, h)
    | inr (d, e) ↦
        let (k, (_, tun, at, joins)) = All-find (IsHeld ip r json s) c d s.tun_devices h.held e in
        let (tun', fds, stops, off) = stop-IsJoinable ip r json tun joins in
        (
          record s { tun_devices = erase c s.tun_devices; devices = store_device d tun' s.devices },
          rw (e, at, stops, close_session) refl,
          rw (e, disconnect)
              (ap (λ f. record { tun_devices = erase c s.tun_devices; running = f; made = s.made })
                (is_running-store_device ip r json d tun' s.devices false off)),
          record {
            held =
                All-apart (IsHeld ip r json s)
                  (IsHeld ip r json (record s {
                    tun_devices = erase c s.tun_devices;
                    devices = store_device d tun' s.devices;
                  }))
                  d (erase c s.tun_devices)
                  (λ entry.
                    IsHeld-other ip r json s d tun' (erase c s.tun_devices) s.made entry
                      (omega arith))
                  (All-erase (IsHeld ip r json s) c s.tun_devices h.held)
                  (Absent-erased c d s.tun_devices h.distinct e);
            distinct = Distinct-erase c s.tun_devices h.distinct;
          },
        )
  ]

  module _ (as_commands : Text → IfAddrs ip → List SystemCmd) where
    pub start-IsJoinable :
        (answers : Answers) (tun : TunDevice ip r)
        → (start ip r as_commands answers tun).result ≡ true
        → ((start ip r as_commands answers tun).device.running ≡ true)
          × ((start ip r as_commands answers tun).device.from_tun_thread ≡ joinable)
          × ((start ip r as_commands answers tun).device.to_tun_thread ≡ joinable)
    unfolding start start_on_tun start_echo
    start-IsJoinable answers tun h = ground arith

    -- The end of an init whose device runs if its start returned true.
    init_ended-abstract :
        (clocks : Clocks) (c : ℕ) (b : Bool) (commands : List SystemCmd) (tun : TunDevice ip r)
        (s : Sessions ip r json)
        → (b ≡ true → tun.running ≡ true)
        → abstract ip r json (
            init_ended ip r json clocks c
              (record { result = b; terminated = false; commands = commands; device = tun })
              s)
          ≡ action_init true b c (abstract ip r json s)
    unfolding init_ended action_init send_tun message_as_json device_as_json set_recv_thread
        set_stat_thread
    init_ended-abstract clocks c false commands tun s h = refl
    init_ended-abstract clocks c true commands tun s h =
        ap
          (λ f. record {
            tun_devices = insert c s.made s.tun_devices;
            running = f;
            made = s.made + 1;
          })
          (is_running-store_device ip r json s.made
            (send_tun ip r json (codes "init-res") clocks (with_server_threads ip r json tun)).1
            s.devices true (h refl))

    init_ended-IsSound :
        (clocks : Clocks) (c : ℕ) (b : Bool) (commands : List SystemCmd) (tun : TunDevice ip r)
        (s : Sessions ip r json)
        → (b ≡ true → (tun.from_tun_thread ≡ joinable) × (tun.to_tun_thread ≡ joinable))
        → IsSound ip r json s
        → IsSound ip r json (
            init_ended ip r json clocks c
              (record { result = b; terminated = false; commands = commands; device = tun })
              s)
    unfolding init_ended send_tun message_as_json device_as_json set_recv_thread set_stat_thread
    init_ended-IsSound clocks c false commands tun s h k = record {
      held =
          All-imp (IsHeld ip r json s) (IsHeld ip r json (record s { made = s.made + 1 }))
            s.tun_devices
            (λ entry e. let (old, tun', at, joins) = e in (omega (arith, old), tun', at, joins))
            k.held;
      distinct = k.distinct;
    }
    init_ended-IsSound clocks c true commands tun s h k =
        let tun' =
          (send_tun ip r json (codes "init-res") clocks (with_server_threads ip r json tun)).1 in
        let m = insert c s.made s.tun_devices in
        let s' : Sessions ip r json = record s {
          tun_devices = m;
          devices = store_device s.made tun' s.devices;
          made = s.made + 1;
        } in
        let new = Absent-made (IsHeld ip r json s) s.made s.tun_devices (λ entry e. e.0) k.held in
        record {
          held =
              All-insert (IsHeld ip r json s') c s.made s.tun_devices
                (All-apart (IsHeld ip r json s) (IsHeld ip r json s') s.made s.tun_devices
                  (λ entry. IsHeld-other ip r json s s.made tun' m (s.made + 1) entry (omega arith))
                  k.held new)
                (
                  omega arith,
                  tun',
                  store_device_same ip r json s.made tun' s.devices,
                  ((h refl).0, (h refl).1, refl, refl),
                );
          distinct = Distinct-insert c s.made s.tun_devices k.distinct new;
        }

    module _ (settings : Settings) where
      pub init_session-abstract :
          (meets : Meets) (js : json.Value) (c : ℕ) (s : Sessions ip r json) (b : Bool)
          (a : IfAddrs ip)
          → from_json ip json js (if_addrs_init ip) ≡ finished b a
          → IsSound ip r json s
          → (s' : Sessions ip r json) × (init_session ip r json as_commands settings meets js c s
              ≡ some s')
            × (abstract ip r json s'
                ≡ action_init b
                    (started_device ip r json as_commands settings meets a).result
                    c
                    (abstract ip r json s))
            × IsSound ip r json s'
      unfolding init_session
      init_session-abstract meets js c s false a e k =
          (s, rw (e, init_session) refl, (unfold action_init in refl), k)
      init_session-abstract meets js c s true a e k =
          let st = started_device ip r json as_commands settings meets a in
          let starts =
            start-IsJoinable meets.answers
              (tun_device_init ip r meets.memory meets.now a settings.mtu settings.q_size) in
          (
            init_ended ip r json meets.clocks c st s,
            rw (e, init_session) refl,
            init_ended-abstract meets.clocks c st.result st.commands st.device s
                (λ h. (starts h).0),
            init_ended-IsSound meets.clocks c st.result st.commands st.device s
                (λ h. let (_, f, t) = starts h in (f, t)) k,
          )
