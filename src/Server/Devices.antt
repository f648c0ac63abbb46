-- ===== src/Server/Devices.antt =====
-- tuna_server.hpp: the devices of the server. A device is a number, given when it is made; a
-- connection is its address.
pub mod Owned
pub mod Entries
use tunator.Prelude.{
  ℕ, ◌+◌, Bool, true, false, ◌==◌, List, [], ◌∷◌, Option, none, some, if◌then◌else◌,
}

-- `tunDevices`
abbrev pub DeviceMap : Type 0
DeviceMap = List (ℕ × ℕ)

-- `running` tells which devices were started and not stopped.
pub record ServerState : Type 0 where
  pub tun_devices : DeviceMap
  pub running : ℕ → Bool
  pub made : ℕ

abbrev pub server_init : ServerState
server_init = record { tun_devices = []; running = λ d. false; made = 0 }

-- `std::map::find`
unfoldable pub find : ℕ → DeviceMap → Option ℕ
find c [] = none
find c ((k, d) ∷ m) = if k == c then some d else find c m

-- `std::map::insert`: an entry that is there stays.
unfoldable pub insert : ℕ → ℕ → DeviceMap → DeviceMap
insert c d [] = (c, d) ∷ []
insert c d ((k, e) ∷ m) = if k == c then (k, e) ∷ m else (k, e) ∷ insert c d m

unfoldable pub erase : ℕ → DeviceMap → DeviceMap
erase c [] = []
erase c ((k, e) ∷ m) = if k == c then m else (k, e) ∷ erase c m

-- `running` of a device is set.
unfoldable pub set_running : ℕ → Bool → (ℕ → Bool) → ℕ → Bool
set_running d b running e = if e == d then b else running e

-- `parsed` is the result of `IfAddrs::fromJson`, `started` that of the device's `start`; the two
-- threads that follow always start.
unfoldable pub action_init : Bool → Bool → ℕ → ServerState → ServerState
unfolding insert set_running
action_init false started c s = s
action_init true false c s = record s { made = s.made + 1 }
action_init true true c s = record {
  tun_devices = insert c s.made s.tun_devices;
  running = set_running s.made true s.running;
  made = s.made + 1;
}

unfoldable pub disconnect : ℕ → ServerState → ServerState
unfolding find erase set_running
disconnect c s = elim (find c s.tun_devices) [
  | none ↦ s
  | some d ↦ record s {
    tun_devices = erase c s.tun_devices;
    running = set_running d false s.running;
  }
]

-- What happens to the server.
pub data Event : Type 0 where
  init_message : Bool → Bool → ℕ → Event
  closed : ℕ → Event

unfoldable pub handle : Event → ServerState → ServerState
unfolding action_init disconnect
handle (init_message parsed started c) s = action_init parsed started c s
handle (closed c) s = disconnect c s

unfoldable pub handle_all : List Event → ServerState → ServerState
unfolding handle
handle_all [] s = s
handle_all (e ∷ es) s = handle_all es (handle e s)
