-- ===== src/Server/World.antt =====
-- tuna_server.hpp and tun_device.hpp together: the messages of the web sockets, and the rounds of the
-- threads of all devices, in any order.
pub mod Queues
pub mod Echo
pub mod Threads
pub mod Stored
pub mod Messages
pub mod Healthy
mod Tests
use tunator.Prelude.{ℕ, ◌==◌, List, [], ◌∷◌, ◌++◌, Option, none, some, map, if◌then◌else◌}
use tunator.Text.{Text}
use tunator.Route.Library.{IpLibrary}
use tunator.Packet.Ring.{Ring}
use tunator.Packet.Queue.{PacketQueue}
use tunator.Device.Command.{SystemCmd}
use tunator.Device.Driver.{Tun}
use tunator.Device.Json.{JsonLibrary}
use tunator.Device.IfAddrs.{IfAddrs}
use tunator.Device.Life.{TunDevice}
use tunator.Device.Report.{Clocks}
use tunator.Device.Rounds.{read_round, write_round, echo_round, send_round}
use tunator.Device.Threads.{Poll}
use tunator.Server.Sessions.{Settings, Meets, Sessions, store_device, close_session}
use tunator.Server.Messages.{handle_message, stat_round}

-- The sessions, the open tun device behind each TunDevice, and the packets sent, each with its
-- connection.
pub record World (ip : IpLibrary) (r : Ring) (json : JsonLibrary) (tun : Tun) : Type 0 where
  pub sessions : Sessions ip r json
  pub tuns : ℕ → tun.State
  pub packets : List (ℕ × Text)

-- What happens: a message on a connection, with what other threads do to a queue while `push` sleeps; a
-- connection that closes; and rounds of the threads of a device, the last two with the connection to
-- which they send. Which of the rounds a device's threads do is left open.
pub data Happening (r : Ring) : Type 0 where
  receives : (ℕ → PacketQueue r → PacketQueue r) → Meets → Text → ℕ → Happening r
  closes : ℕ → Happening r
  reads : List Poll → ℕ → Happening r
  writes : ℕ → Happening r
  echoes : (ℕ → PacketQueue r → PacketQueue r) → ℕ → Happening r
  reports : Clocks → ℕ → ℕ → Happening r
  sends : ℕ → ℕ → Happening r

module _ (ip : IpLibrary) (r : Ring) (json : JsonLibrary) (tun : Tun) where
  -- The device `d` after a round, with the open tun device behind it.
  unfoldable pub store_round :
      ℕ → TunDevice ip r × tun.State → World ip r json tun → World ip r json tun
  unfolding store_device
  store_round d (dev, st) w = record w {
    sessions = record (w.sessions) { devices = store_device d dev w.sessions.devices };
    tuns = λ e. if e == d then st else w.tuns e;
  }

  abbrev with_sessions :
      World ip r json tun → Option (Sessions ip r json) → Option (World ip r json tun)
  with_sessions w none = none
  with_sessions w (some s) = some (record w { sessions = s })

  unfoldable pub reads_on :
      List Poll → ℕ → Option (TunDevice ip r) → World ip r json tun → Option (World ip r json tun)
  unfolding read_round store_round
  reads_on polls d none w = some w
  reads_on polls d (some dev) w = elim (read_round ip r tun polls dev (w.tuns d)) [
    | none ↦ none
    | some z ↦ some (store_round d z w)
  ]

  unfoldable pub writes_on :
      (Text → Text → Text) → ℕ → Option (TunDevice ip r) → World ip r json tun → World ip r json tun
  unfolding write_round store_round
  writes_on tun_header d none w = w
  writes_on tun_header d (some dev) w =
      store_round d (write_round ip r tun tun_header dev (w.tuns d)) w

  unfoldable pub echoes_on :
      (ℕ → PacketQueue r → PacketQueue r)
      → ℕ
      → Option (TunDevice ip r)
      → World ip r json tun
      → World ip r json tun
  unfolding echo_round store_round
  echoes_on during d none w = w
  echoes_on during d (some dev) w = store_round d (echo_round ip r tun during dev, w.tuns d) w

  unfoldable pub sends_on :
      ℕ → ℕ → Option (TunDevice ip r) → World ip r json tun → World ip r json tun
  unfolding send_round store_round
  sends_on d c none w = w
  sends_on d c (some dev) w =
      let (dev', sent) = send_round ip r tun dev in
      record (store_round d (dev', w.tuns d) w) {
        packets = w.packets ++ map (λ bytes. (c, bytes)) sent;
      }

  module _ (tun_header : Text → Text → Text) (as_commands : Text → IfAddrs ip → List SystemCmd)
      (settings : Settings) (reader : Text → Option json.Value) where
    -- `none` is an exception, or a round that still waits for the device.
    unfoldable pub happen : Happening r → World ip r json tun → Option (World ip r json tun)
    unfolding handle_message close_session stat_round reads_on writes_on echoes_on sends_on
    happen (receives during meets message c) w =
        with_sessions w
          (handle_message ip r json as_commands settings reader during meets message c w.sessions)
    happen (closes c) w = with_sessions w (close_session ip r json c w.sessions)
    happen (reads polls d) w = reads_on polls d (w.sessions.devices d) w
    happen (writes d) w = some (writes_on tun_header d (w.sessions.devices d) w)
    happen (echoes during d) w = some (echoes_on during d (w.sessions.devices d) w)
    happen (reports clocks c d) w =
        some (record w { sessions = stat_round ip r json clocks c d w.sessions })
    happen (sends d c) w = some (sends_on d c (w.sessions.devices d) w)

    unfoldable pub happen_all :
        List (Happening r) → World ip r json tun → Option (World ip r json tun)
    unfolding happen
    happen_all [] w = some w
    happen_all (e ∷ es) w = elim (happen e w) [ none ↦ none | some w' ↦ happen_all es w' ]
