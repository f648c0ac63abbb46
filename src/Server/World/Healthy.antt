-- ===== src/Server/World/Healthy.antt =====
-- Healthy: whatever happens to the server and its devices' threads, no device is lost and no queue is
-- broken.
use tunator.Prelude.{
  ℕ, ◌+◌, ◌*◌, ◌<◌, ◌≡◌, refl, subst, ◌⊎◌, inl, inr, Bool, List, [], ◌∷◌, Option, none, some, All,
  u64,
}
use tunator.Text.{Text, codes}
use tunator.Route.Library.{IpLibrary}
use tunator.Packet.Buffer.{packet_size_of}
use tunator.Packet.Ring.{Ring, RingLaws}
use tunator.Packet.Queue.{PacketQueue}
use tunator.Device.Command.{SystemCmd}
use tunator.Device.Driver.{Tun}
use tunator.Device.Json.{JsonLibrary, finished}
use tunator.Device.IfAddrs.{IfAddrs, if_addrs_init, from_json}
use tunator.Device.Life.{TunDevice}
use tunator.Device.Rounds.{write_round, echo_round, send_round}
use tunator.Device.Threads.{Poll}
use tunator.Device.Threads.Reads.{Settles}
use tunator.Server.{
  from, Action, init_action, pong_action, unknown_action, select_action, Dispatch, to_json,
  to_packet, not_found, ignored, on_message, from_c_string,
}
use tunator.Server.Devices.{find}
use tunator.Server.Sessions.{Settings, Meets, Sessions}
use tunator.Server.Messages.{is_some, action_pong, perform, process_json, handle_message}
use tunator.Server.World.{
  World, Happening, receives, closes, reads, writes, echoes, reports, sends, store_round,
  with_sessions, reads_on, writes_on, echoes_on, sends_on, happen, happen_all,
}
use tunator.Server.World.Queues.{Healthy, ReadLaws}
use tunator.Server.World.Threads.{
  Returns, Follows, read_round-Follows, write_round-Follows, echo_round-Follows, send_round-Follows,
}
use tunator.Server.World.Messages.{
  SessionsOk, store-SessionsOk, stat_round-SessionsOk, packet_session-SessionsOk,
  close_session-SessionsOk, init_session-SessionsOk,
}

module _ (ip : IpLibrary) (json : JsonLibrary) where
  -- The JSON of a message has what its action reads, so that the library raises no exception.
  abbrev pub Performs : Action → json.Value → Type 0
  Performs unknown_action v = Unit {0}
  Performs _ v =
      (js : json.Value) × (json.member (codes "data") v ≡ some js)
      × (b : Bool) × (a : IfAddrs ip) × (from_json ip json js (if_addrs_init ip) ≡ finished b a)

  pub data IsReadable (reader : Text → Option json.Value) (text : Text) : Type 0 where
    not_json : reader text ≡ none → IsReadable reader text
    named :
        (v x : json.Value) (name : Text)
        → reader text ≡ some v
        → json.member (codes "action") v ≡ some x
        → json.as_string x ≡ some name
        → Performs (select_action (from_c_string name)) v
        → IsReadable reader text

module _ (ip : IpLibrary) (r : Ring) (json : JsonLibrary) (laws : RingLaws r) (mtu : ℕ) where
  abbrev pub IsHealthy : (tun : Tun) → World ip r json tun → Type 0
  IsHealthy tun w = SessionsOk ip r json laws mtu w.sessions

  -- A message's JSON has what its action reads, what other threads do while push sleeps keeps a
  -- queue valid, and a read of a device comes to an end.
  abbrev pub HappensWell : (Text → Option json.Value) → Happening r → Type 0
  HappensWell reader (receives during meets message c) =
      ((k : ℕ) (t : PacketQueue r) → Healthy r laws mtu t → Healthy r laws mtu (during k t))
      × IsReadable ip json reader (from message).rest
  HappensWell reader (reads polls d) = Settles polls
  HappensWell reader (echoes during d) =
      (k : ℕ) (t : PacketQueue r) → Healthy r laws mtu t → Healthy r laws mtu (during k t)
  HappensWell reader (closes c) = Unit {0}
  HappensWell reader (writes d) = Unit {0}
  HappensWell reader (reports clocks c d) = Unit {0}
  HappensWell reader (sends d c) = Unit {0}

module _ (ip : IpLibrary) (r : Ring) (json : JsonLibrary) (laws : RingLaws r)
    (as_commands : Text → IfAddrs ip → List SystemCmd) (settings : Settings)
    (small : settings.mtu + 8 < u64) (fits : settings.q_size * packet_size_of settings.mtu < u64)
    (reader : Text → Option json.Value) where
  perform-SessionsOk :
      (meets : Meets) (action : Action) (v : json.Value) (c : ℕ) (s : Sessions ip r json)
      → Performs ip json action v
      → SessionsOk ip r json laws settings.mtu s
      → Returns
          (SessionsOk ip r json laws settings.mtu)
          (perform ip r json as_commands settings reader meets action v c s)
  unfolding perform action_pong
  perform-SessionsOk meets unknown_action v c s h ok = (s, refl, ok)
  perform-SessionsOk meets init_action v c s (js, e, b, a, reading) ok =
      let (s', came, good) =
        init_session-SessionsOk ip r json laws settings.mtu as_commands settings refl small fits
          meets js c s b a reading ok in
      (s', rw (e, perform) came, good)
  perform-SessionsOk meets pong_action v c s (js, e, b, a, reading) ok =
      (s, rw (e, reading, perform, action_pong) refl, ok)

  process_json-SessionsOk :
      (meets : Meets) (text : Text) (c : ℕ) (s : Sessions ip r json)
      → IsReadable ip json reader text
      → SessionsOk ip r json laws settings.mtu s
      → Returns
          (SessionsOk ip r json laws settings.mtu)
          (process_json ip r json as_commands settings reader meets text c s)
  unfolding process_json
  process_json-SessionsOk meets text c s (not_json e) ok = (s, rw (e, process_json) refl, ok)
  process_json-SessionsOk meets text c s (named v x name e e' e'' h) ok =
      let (s', came, good) =
        perform-SessionsOk meets (select_action (from_c_string name)) v c s h ok in
      (s', rw (e, e', e'', process_json) came, good)

  Dispatch-cases :
      (d : Dispatch) → (d ≡ to_json) ⊎ (d ≡ to_packet) ⊎ (d ≡ not_found) ⊎ (d ≡ ignored)
  Dispatch-cases to_json = inl refl
  Dispatch-cases to_packet = inr (inl refl)
  Dispatch-cases not_found = inr (inr (inl refl))
  Dispatch-cases ignored = inr (inr (inr refl))

  handle_message-SessionsOk :
      (during : ℕ → PacketQueue r → PacketQueue r) (meets : Meets) (message : Text) (c : ℕ)
      (s : Sessions ip r json)
      → ((k : ℕ) (t : PacketQueue r)
          → Healthy r laws settings.mtu t
          → Healthy r laws settings.mtu (during k t))
      → IsReadable ip json reader (from message).rest
      → SessionsOk ip r json laws settings.mtu s
      → Returns
          (SessionsOk ip r json laws settings.mtu)
          (handle_message ip r json as_commands settings reader during meets message c s)
  unfolding handle_message
  handle_message-SessionsOk during meets message c s rely h ok =
      elim (Dispatch-cases (on_message (is_some (find c s.tun_devices)) (from message))) [
        | inl e ↦
            let (s', came, good) = process_json-SessionsOk meets (from message).rest c s h ok in
            (s', rw (e, handle_message) came, good)
        | inr (inl e) ↦
            let (s', came, good) =
              packet_session-SessionsOk ip r json laws settings.mtu during (from message) c s rely
                ok in
            (s', rw (e, handle_message) came, good)
        | inr (inr (inl e)) ↦ (s, rw (e, handle_message) refl, ok)
        | inr (inr (inr e)) ↦ (s, rw (e, handle_message) refl, ok)
      ]

  module _ (tun : Tun) (tun_reads : ReadLaws tun) (tun_header : Text → Text → Text) where
    with_sessions-IsHealthy :
        (w : World ip r json tun) (o : Option (Sessions ip r json))
        → Returns (SessionsOk ip r json laws settings.mtu) o
        → Returns (IsHealthy ip r json laws settings.mtu tun) (with_sessions ip r json tun w o)
    with_sessions-IsHealthy w none (s', e, ok) = cc
    with_sessions-IsHealthy w (some s) (s', e, ok) =
        let same : s' ≡ s = cc in
        (
          record w { sessions = s },
          refl,
          subst (λ (u : Sessions ip r json). SessionsOk ip r json laws settings.mtu u) same ok,
        )

    store_round-IsHealthy :
        (d : ℕ) (dev : TunDevice ip r) (z : TunDevice ip r × tun.State) (w : World ip r json tun)
        → w.sessions.devices d ≡ some dev
        → Follows ip r json laws settings.mtu dev z.0
        → IsHealthy ip r json laws settings.mtu tun w
        → IsHealthy ip r json laws settings.mtu tun (store_round ip r json tun d z w)
    unfolding store_round
    store_round-IsHealthy d dev (dev', st) w at follows ok =
        store-SessionsOk ip r json laws settings.mtu w.sessions d dev dev' at follows ok

    reads_on-IsHealthy :
        (polls : List Poll) (d : ℕ) (o : Option (TunDevice ip r)) (w : World ip r json tun)
        → Settles polls
        → w.sessions.devices d ≡ o
        → IsHealthy ip r json laws settings.mtu tun w
        → Returns (IsHealthy ip r json laws settings.mtu tun) (reads_on ip r json tun polls d o w)
    unfolding reads_on
    reads_on-IsHealthy polls d none w h e ok = (w, refl, ok)
    reads_on-IsHealthy polls d (some dev) w h e ok =
        let (z, came, follows) =
          read_round-Follows ip r json laws settings.mtu tun tun_reads polls h dev (w.tuns d)
            (ok.1 d dev e) in
        (
          store_round ip r json tun d z w,
          rw (came, reads_on) refl,
          store_round-IsHealthy d dev z w e follows ok,
        )

    writes_on-IsHealthy :
        (d : ℕ) (o : Option (TunDevice ip r)) (w : World ip r json tun)
        → w.sessions.devices d ≡ o
        → IsHealthy ip r json laws settings.mtu tun w
        → IsHealthy ip r json laws settings.mtu tun (writes_on ip r json tun tun_header d o w)
    unfolding writes_on
    writes_on-IsHealthy d none w e ok = ok
    writes_on-IsHealthy d (some dev) w e ok =
        store_round-IsHealthy d dev (write_round ip r tun tun_header dev (w.tuns d)) w e
          (write_round-Follows ip r json laws settings.mtu tun dev (ok.1 d dev e) tun_header
            (w.tuns d))
          ok

    echoes_on-IsHealthy :
        (during : ℕ → PacketQueue r → PacketQueue r) (d : ℕ) (o : Option (TunDevice ip r))
        (w : World ip r json tun)
        → ((k : ℕ) (t : PacketQueue r)
            → Healthy r laws settings.mtu t
            → Healthy r laws settings.mtu (during k t))
        → w.sessions.devices d ≡ o
        → IsHealthy ip r json laws settings.mtu tun w
        → IsHealthy ip r json laws settings.mtu tun (echoes_on ip r json tun during d o w)
    unfolding echoes_on
    echoes_on-IsHealthy during d none w rely e ok = ok
    echoes_on-IsHealthy during d (some dev) w rely e ok =
        store_round-IsHealthy d dev (echo_round ip r tun during dev, w.tuns d) w e
          (echo_round-Follows ip r json laws settings.mtu tun dev (ok.1 d dev e) during rely) ok

    sends_on-IsHealthy :
        (d c : ℕ) (o : Option (TunDevice ip r)) (w : World ip r json tun)
        → w.sessions.devices d ≡ o
        → IsHealthy ip r json laws settings.mtu tun w
        → IsHealthy ip r json laws settings.mtu tun (sends_on ip r json tun d c o w)
    unfolding sends_on
    sends_on-IsHealthy d c none w e ok = ok
    sends_on-IsHealthy d c (some dev) w e ok =
        store_round-IsHealthy d dev ((send_round ip r tun dev).0, w.tuns d) w e
          (send_round-Follows ip r json laws settings.mtu tun dev (ok.1 d dev e)) ok

    happen-IsHealthy :
        (e : Happening r) (w : World ip r json tun)
        → HappensWell ip r json laws settings.mtu reader e
        → IsHealthy ip r json laws settings.mtu tun w
        → Returns
            (IsHealthy ip r json laws settings.mtu tun)
            (happen ip r json tun tun_header as_commands settings reader e w)
    unfolding happen
    happen-IsHealthy (receives during meets message c) w (rely, h) ok =
        with_sessions-IsHealthy w _
          (handle_message-SessionsOk during meets message c w.sessions rely h ok)
    happen-IsHealthy (closes c) w h ok =
        with_sessions-IsHealthy w _
          (close_session-SessionsOk ip r json laws settings.mtu c w.sessions ok)
    happen-IsHealthy (reads polls d) w h ok = reads_on-IsHealthy polls d _ w h refl ok
    happen-IsHealthy (writes d) w h ok = (_, refl, writes_on-IsHealthy d _ w refl ok)
    happen-IsHealthy (echoes during d) w h ok =
        (_, refl, echoes_on-IsHealthy during d _ w h refl ok)
    happen-IsHealthy (reports clocks c d) w h ok =
        (_, refl, stat_round-SessionsOk ip r json laws settings.mtu clocks c d w.sessions ok)
    happen-IsHealthy (sends d c) w h ok = (_, refl, sends_on-IsHealthy d c _ w refl ok)

    -- From sessions whose connections have different devices with four joinable threads, and whose
    -- devices have valid queues that wait 100 ms and have packets of the settings' mtu: whatever
    -- messages arrive, connections close and threads of devices read, write, echo, send and report,
    -- in any order, all of it is done without an exception and ends in such sessions. The memory of a
    -- queue of the settings can be addressed; a message's JSON has what its action reads; what other
    -- threads do to a queue while push sleeps keeps it so; a read of a device comes to an end, and
    -- fills no more than it was given.
    pub happen_all-IsHealthy :
        (es : List (Happening r)) (w : World ip r json tun)
        → All (HappensWell ip r json laws settings.mtu reader) es
        → IsHealthy ip r json laws settings.mtu tun w
        → (w' : World ip r json tun) × (happen_all ip r json tun tun_header as_commands settings
              reader es w
            ≡ some w')
          × IsHealthy ip r json laws settings.mtu tun w'
    unfolding happen_all
    happen_all-IsHealthy [] w h ok = (w, refl, ok)
    happen_all-IsHealthy (e ∷ es) w h ok =
        let (w', came, good) = happen-IsHealthy e w h.0 ok in
        let (w'', came', good') = happen_all-IsHealthy es w' h.1 good in
        (w'', rw (came, happen_all) came', good')
