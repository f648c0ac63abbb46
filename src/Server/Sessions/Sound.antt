-- ===== src/Server/Sessions/Sound.antt =====
-- Sound: the devices of the connections, and the server's state with devices as numbers.
use tunator.Prelude.{
  ℕ, ◌<◌, ◌≤◌, ◌≡◌, ◌≢◌, refl, ◌∙◌, Bool, false, List, Option, none, some, All, Distinct, arith,
}
use mathlib.Core.Path.{fun_ext}
use tunator.Route.Library.{IpLibrary}
use tunator.Packet.Ring.{Ring}
use tunator.Device.Json.{JsonLibrary}
use tunator.Device.Life.{TunDevice, joinable, joined, stop, join, join_thread, closed_fds}
use tunator.Server.Devices.{DeviceMap, ServerState, set_running}
use tunator.Server.Devices.Entries.{devices_of}
use tunator.Server.Sessions.{Sessions, store_device, sessions_init}

module _ (ip : IpLibrary) (r : Ring) (json : JsonLibrary) where
  abbrev pub is_running : Option (TunDevice ip r) → Bool
  is_running none = false
  is_running (some tun) = tun.running

  -- The state with devices as numbers.
  abbrev pub abstract : Sessions ip r json → ServerState
  abstract s = record {
    tun_devices = s.tun_devices;
    running = λ d. is_running (s.devices d);
    made = s.made;
  }

  pub is_running-store_device :
      (d : ℕ) (tun : TunDevice ip r) (devices : ℕ → Option (TunDevice ip r)) (b : Bool)
      → tun.running ≡ b
      → (λ e. is_running (store_device d tun devices e))
        ≡ set_running d b (λ e. is_running (devices e))
  unfolding store_device set_running
  is_running-store_device d tun devices b h = fun_ext (λ e. ground arith)

  -- All four threads can be joined.
  abbrev pub IsJoinable : TunDevice ip r → Type 0
  IsJoinable tun =
      (tun.from_tun_thread ≡ joinable)
      × (tun.to_tun_thread ≡ joinable)
      × (tun.recv_thread ≡ joinable)
      × (tun.stat_thread ≡ joinable)

  -- A connection's device was made, and can be stopped.
  abbrev pub IsHeld : Sessions ip r json → ℕ × ℕ → Type 0
  IsHeld s entry =
      (entry.1 < s.made) × (tun : TunDevice ip r) × (s.devices entry.1 ≡ some tun) × IsJoinable tun

  pub store_device_other :
      (d e : ℕ) (tun : TunDevice ip r) (devices : ℕ → Option (TunDevice ip r))
      → e ≢ d
      → store_device d tun devices e ≡ devices e
  unfolding store_device
  store_device_other d e tun devices n = ground arith

  pub store_device_same :
      (d : ℕ) (tun : TunDevice ip r) (devices : ℕ → Option (TunDevice ip r))
      → store_device d tun devices d ≡ some tun
  unfolding store_device
  store_device_same d tun devices = ground arith

  -- Storing another device, and making more, changes nothing for a connection.
  pub IsHeld-other :
      (s : Sessions ip r json) (d : ℕ) (tun : TunDevice ip r) (m : DeviceMap) (made : ℕ)
      (entry : ℕ × ℕ)
      → s.made ≤ made
      → IsHeld s entry
      → entry.1 ≢ d
      → IsHeld
          (record s { tun_devices = m; devices = store_device d tun s.devices; made = made })
          entry
  IsHeld-other s d tun m made entry more (old, held, at, joins) n =
      (omega (arith, old), held, store_device_other d entry.1 tun s.devices n ∙ at, joins)

  -- The devices of the connections are different ones, and each can be stopped.
  pub record IsSound (s : Sessions ip r json) : Type 0 where
    pub held : All (IsHeld s) s.tun_devices
    pub distinct : Distinct (devices_of s.tun_devices)

  pub sessions_init-IsSound : IsSound (sessions_init ip r json)
  unfolding sessions_init
  sessions_init-IsSound = record { held = tt; distinct = tt }

  pub stop-IsJoinable :
      (tun : TunDevice ip r)
      → IsJoinable tun
      → (tun' : TunDevice ip r) × (fds : List ℕ) × (stop ip r tun ≡ some (tun', fds))
        × (tun'.running ≡ false)
  unfolding stop join join_thread
  stop-IsJoinable tun (f, t, rc, st) =
      let tun' : TunDevice ip r = record tun {
        running = false;
        from_tun_thread = joined;
        to_tun_thread = joined;
        recv_thread = joined;
        stat_thread = joined;
      } in
      (tun', closed_fds ip r tun.tun_fd, ground (arith, f, t, rc, st), refl)
