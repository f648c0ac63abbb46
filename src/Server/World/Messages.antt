-- ===== src/Server/World/Messages.antt =====
-- Messages: whole messages, closings and reports keep the queues of all devices.
use tunator.Prelude.{
  ℕ, ◌+◌, ◌*◌, ◌<◌, ◌≡◌, refl, sym, subst, inl, inr, Bool, true, false, List, some, u64, arith,
  Option-cases, if◌then◌else◌,
}
use tunator.Text.{Text, codes}
use tunator.Route.Library.{IpLibrary}
use tunator.Packet.Buffer.{packet_size_of, buffer_init}
use tunator.Packet.Ring.{Ring, RingLaws}
use tunator.Packet.Queue.{PacketQueue, queue_init}
use tunator.Packet.Queue.Keeps.{queue_init-IsValid}
use tunator.Device.Command.{SystemCmd}
use tunator.Device.Json.{JsonLibrary, finished}
use tunator.Device.IfAddrs.{IfAddrs, if_addrs_init, from_json}
use tunator.Device.Life.{
  TunDevice, Answers, tun_device_init, set_recv_thread, set_stat_thread, start, start_on_tun,
  start_echo, stop, join, join_thread,
}
use tunator.Device.Report.{Clocks}
use tunator.Server.{WsPacket, process_packet, copy_action}
use tunator.Server.Queued.{copy_action-IsConfined}
use tunator.Server.Devices.{find, erase}
use tunator.Server.Devices.Entries.{All-find}
use tunator.Server.Sessions.{
  Settings, Meets, Sessions, store_device, send_tun, with_server_threads, init_ended,
  started_device, init_session, close_session,
}
use tunator.Server.Sessions.Sound.{IsHeld, IsSound, stop-IsJoinable}
use tunator.Server.Sessions.Refines.{close_session-abstract, init_session-abstract}
use tunator.Server.Messages.{packet_session, stat_round}
use tunator.Server.World.Queues.{Healthy, push-Healthy}
use tunator.Server.World.Stored.{store-IsSound, BothHealthy, AllHealthy, store-AllHealthy}
use tunator.Server.World.Threads.{Returns, Follows, send_tun-Follows}

module _ (ip : IpLibrary) (r : Ring) (json : JsonLibrary) (laws : RingLaws r) (mtu : ℕ) where
  -- The devices of the connections are different ones that can be stopped, and all queues are valid.
  abbrev pub SessionsOk : Sessions ip r json → Type 0
  SessionsOk s = IsSound ip r json s × AllHealthy ip r json laws mtu s.devices

  pub store-SessionsOk :
      (s : Sessions ip r json) (d : ℕ) (dev dev' : TunDevice ip r)
      → s.devices d ≡ some dev
      → Follows ip r json laws mtu dev dev'
      → SessionsOk s
      → SessionsOk (record s { devices = store_device d dev' s.devices })
  store-SessionsOk s d dev dev' at (good, joins) (v, h) = (
    store-IsSound ip r json s d dev dev' at joins v,
    store-AllHealthy ip r json laws mtu s.devices d dev' good h,
  )

  if_ok :
      (b : Bool) (s s' : Sessions ip r json)
      → SessionsOk s
      → SessionsOk s'
      → SessionsOk (if b then s else s')
  if_ok true s s' h k = h
  if_ok false s s' h k = k

  pub stat_round-SessionsOk :
      (clocks : Clocks) (c d : ℕ) (s : Sessions ip r json)
      → SessionsOk s
      → SessionsOk (stat_round ip r json clocks c d s)
  unfolding stat_round
  stat_round-SessionsOk clocks c d s ok = elim (Option-cases (s.devices d)) [
    | inl e ↦ rw (e, stat_round) ok
    | inr (dev, e) ↦
        let next = send_tun ip r json (codes "stat-res") clocks dev in
        let (v, h) =
          store-SessionsOk s d dev next.1 e
            (send_tun-Follows ip r json laws mtu (codes "stat-res") clocks dev (ok.1 d dev e)) ok in
        rw (e, stat_round)
          (if_ok dev.running _ s (record { held = v.held; distinct = v.distinct }, h) ok)
  ]

  pub packet_session-SessionsOk :
      (during : ℕ → PacketQueue r → PacketQueue r) (w : WsPacket) (c : ℕ) (s : Sessions ip r json)
      → ((k : ℕ) (t : PacketQueue r) → Healthy r laws mtu t → Healthy r laws mtu (during k t))
      → SessionsOk s
      → Returns SessionsOk (packet_session ip r json during w c s)
  unfolding packet_session process_packet
  packet_session-SessionsOk during w c s rely ok = elim (Option-cases (find c s.tun_devices)) [
    | inl e ↦ (s, rw (e, packet_session) refl, ok)
    | inr (d, e) ↦
        let (k, (_, dev, at, joins)) =
          All-find (IsHeld ip r json s) c d s.tun_devices ok.0.held e in
        let good = ok.1 d dev at in
        let (p, came, healthy) =
          push-Healthy r laws mtu (copy_action w) during dev.to_tun (copy_action-IsConfined w) rely
            good.1 in
        (
          record s { devices = store_device d (record dev { to_tun = p.state }) s.devices },
          rw (e, at, came, packet_session) refl,
          store-SessionsOk s d dev (record dev { to_tun = p.state }) at ((good.0, healthy), λ j. j)
              ok,
        )
  ]

  stop_queues :
      (dev dev' : TunDevice ip r) (fds : List ℕ)
      → stop ip r dev ≡ some (dev', fds)
      → (dev'.from_tun ≡ dev.from_tun) × (dev'.to_tun ≡ dev.to_tun)
  unfolding stop join join_thread
  stop_queues dev dev' fds e = ground arith

  -- What a closing leaves, where it raises no exception.
  closed-AllHealthy :
      (c : ℕ) (s s' : Sessions ip r json)
      → SessionsOk s
      → close_session ip r json c s ≡ some s'
      → AllHealthy ip r json laws mtu s'.devices
  unfolding close_session
  closed-AllHealthy c s s' ok came = elim (Option-cases (find c s.tun_devices)) [
    | inl e ↦
        let stays : close_session ip r json c s ≡ some s = rw (e, close_session) refl in
        let same : s ≡ s' = cc (came, stays) in
        subst (λ (u : Sessions ip r json). AllHealthy ip r json laws mtu u.devices) same ok.1
    | inr (d, e) ↦
        let (k, (_, dev, at, joins)) =
          All-find (IsHeld ip r json s) c d s.tun_devices ok.0.held e in
        let (dev', fds, stops, off) = stop-IsJoinable ip r json dev joins in
        let (same_from, same_to) = stop_queues dev dev' fds stops in
        let good : BothHealthy ip r json laws mtu dev' = (
          subst (Healthy r laws mtu) (sym same_from) (ok.1 d dev at).0,
          subst (Healthy r laws mtu) (sym same_to) (ok.1 d dev at).1,
        ) in
        let left : Sessions ip r json = record s {
          tun_devices = erase c s.tun_devices;
          devices = store_device d dev' s.devices;
        } in
        let ends : close_session ip r json c s ≡ some left =
          rw (e, at, stops, close_session) refl in
        let same : left ≡ s' = cc (came, ends) in
        subst (λ (u : Sessions ip r json). AllHealthy ip r json laws mtu u.devices) same
          (store-AllHealthy ip r json laws mtu s.devices d dev' good ok.1)
  ]

  pub close_session-SessionsOk :
      (c : ℕ) (s : Sessions ip r json)
      → SessionsOk s
      → Returns SessionsOk (close_session ip r json c s)
  close_session-SessionsOk c s ok =
      let (s', came, _, sound) = close_session-abstract ip r json c s ok.0 in
      (s', came, (sound, closed-AllHealthy c s s' ok came))

  module _ (as_commands : Text → IfAddrs ip → List SystemCmd) where
    start_queues :
        (answers : Answers) (dev : TunDevice ip r)
        → ((start ip r as_commands answers dev).device.from_tun ≡ dev.from_tun)
          × ((start ip r as_commands answers dev).device.to_tun ≡ dev.to_tun)
    unfolding start start_on_tun start_echo
    start_queues answers dev = ground arith

    module _ (settings : Settings) (same : settings.mtu ≡ mtu) (small : settings.mtu + 8 < u64)
        (fits : settings.q_size * packet_size_of settings.mtu < u64) where
      init-BothHealthy :
          (meets : Meets) (a : IfAddrs ip)
          → BothHealthy ip r json laws mtu
              (tun_device_init ip r meets.memory meets.now a settings.mtu settings.q_size)
      unfolding tun_device_init queue_init buffer_init
      init-BothHealthy meets a =
          let valid =
            queue_init-IsValid r laws meets.memory meets.now settings.mtu settings.q_size 100 small
              fits in
          ((valid, refl, same), (valid, refl, same))

      started-BothHealthy :
          (meets : Meets) (a : IfAddrs ip)
          → BothHealthy ip r json laws mtu
              (started_device ip r json as_commands settings meets a).device
      started-BothHealthy meets a =
          let new = tun_device_init ip r meets.memory meets.now a settings.mtu settings.q_size in
          let (same_from, same_to) = start_queues meets.answers new in
          let (f, t) = init-BothHealthy meets a in
          (subst (Healthy r laws mtu) (sym same_from) f, subst (Healthy r laws mtu) (sym same_to) t)

      ended-AllHealthy :
          (clocks : Clocks) (c : ℕ) (b : Bool) (commands : List SystemCmd) (dev : TunDevice ip r)
          (s : Sessions ip r json)
          → BothHealthy ip r json laws mtu dev
          → AllHealthy ip r json laws mtu s.devices
          → AllHealthy ip r json laws mtu
              (init_ended ip r json clocks c
                (record { result = b; terminated = false; commands = commands; device = dev })
                s).devices
      unfolding init_ended set_recv_thread set_stat_thread
      ended-AllHealthy clocks c false commands dev s good h = h
      ended-AllHealthy clocks c true commands dev s good h =
          let next =
            send_tun-Follows ip r json laws mtu (codes "init-res") clocks
              (with_server_threads ip r json dev) good in
          store-AllHealthy ip r json laws mtu s.devices s.made _ next.0 h

      pub init_session-SessionsOk :
          (meets : Meets) (js : json.Value) (c : ℕ) (s : Sessions ip r json) (b : Bool)
          (a : IfAddrs ip)
          → from_json ip json js (if_addrs_init ip) ≡ finished b a
          → SessionsOk s
          → Returns SessionsOk (init_session ip r json as_commands settings meets js c s)
      unfolding init_session
      init_session-SessionsOk meets js c s false a e ok = (s, rw (e, init_session) refl, ok)
      init_session-SessionsOk meets js c s true a e ok =
          let (s', came, _, sound) =
            init_session-abstract ip r json as_commands settings meets js c s true a e ok.0 in
          let st = started_device ip r json as_commands settings meets a in
          let ends : init_session ip r json as_commands settings meets js c s
              ≡ some (init_ended ip r json meets.clocks c st s) =
            rw (e, init_session) refl in
          let same : init_ended ip r json meets.clocks c st s ≡ s' = cc (came, ends) in
          (
            s',
            came,
            (
              sound,
              subst (λ (u : Sessions ip r json). AllHealthy ip r json laws mtu u.devices) same
                  (ended-AllHealthy meets.clocks c st.result st.commands st.device s
                    (started-BothHealthy meets a) ok.1),
            ),
          )
