-- ===== src/Server/Devices/Owned.antt =====
-- Owned: which running devices the server can still stop.
use tunator.Prelude.{
  ℕ, ◌<◌, ◌≡◌, ◌≢◌, refl, sym, subst, inl, inr, ℕ_discrete, Option-cases, Bool, true, false, ◌==◌,
  ◌||◌, List, [], ◌∷◌, none, some, arith,
}
use tunator.Server.Devices.{
  DeviceMap, ServerState, server_init, find, insert, erase, set_running, action_init, disconnect,
  Event, init_message, closed, handle, handle_all,
}

-- A connection has the device.
unfoldable pub has_device : ℕ → DeviceMap → Bool
has_device d [] = false
has_device d ((k, e) ∷ m) = e == d || has_device d m

-- The states of a server in which no connection with a device sends another init.
pub data Reachable : ServerState → Type 0 where
  fresh : Reachable server_init
  init_step :
      (s : ServerState) (parsed started : Bool) (c : ℕ)
      → Reachable s
      → find c s.tun_devices ≡ none
      → Reachable (action_init parsed started c s)
  close_step : (s : ServerState) (c : ℕ) → Reachable s → Reachable (disconnect c s)

has_device-insert_new :
    (c d : ℕ) (m : DeviceMap) → find c m ≡ none → has_device d (insert c d m) ≡ true
unfolding has_device find insert
has_device-insert_new c d [] h = ground arith
has_device-insert_new c d ((k, e) ∷ m) h = ground (arith, has_device-insert_new c d m)

has_device-insert :
    (c d e : ℕ) (m : DeviceMap)
    → find c m ≡ none
    → has_device e m ≡ true
    → has_device e (insert c d m) ≡ true
unfolding has_device find insert
has_device-insert c d e [] n h = ground arith
has_device-insert c d e ((k, f) ∷ m) n h = ground (arith, has_device-insert c d e m)

has_device-erase :
    (c d e : ℕ) (m : DeviceMap)
    → find c m ≡ some d
    → e ≢ d
    → has_device e m ≡ true
    → has_device e (erase c m) ≡ true
unfolding has_device find erase
has_device-erase c d e [] f n h = ground arith
has_device-erase c d e ((k, v) ∷ m) f n h = ground (arith, has_device-erase c d e m)

-- Every running device is in the map.
abbrev IsOwned : ServerState → Type 0
IsOwned s = (d : ℕ) → s.running d ≡ true → has_device d s.tun_devices ≡ true

action_init-IsOwned :
    (parsed started : Bool) (c : ℕ) (s : ServerState)
    → find c s.tun_devices ≡ none
    → IsOwned s
    → IsOwned (action_init parsed started c s)
unfolding action_init set_running
action_init-IsOwned false started c s n h d r = h d r
action_init-IsOwned true false c s n h d r = h d r
action_init-IsOwned true true c s n h d r = elim (ℕ_discrete d s.made) [
  | yes e ↦
      subst (λ x. has_device x (insert c s.made s.tun_devices) ≡ true) (sym e)
        (has_device-insert_new c s.made s.tun_devices n)
  | no ne ↦ has_device-insert c s.made d s.tun_devices n (ground (arith, h d))
]

-- A connection without a device, and one that has the device `d`.
disconnect_missing : (c : ℕ) (s : ServerState) → find c s.tun_devices ≡ none → disconnect c s ≡ s
unfolding disconnect
disconnect_missing c s e = rw (e, disconnect) refl

disconnect_known :
    (c d : ℕ) (s : ServerState)
    → find c s.tun_devices ≡ some d
    → disconnect c s
      ≡ record s { tun_devices = erase c s.tun_devices; running = set_running d false s.running }
unfolding disconnect
disconnect_known c d s e = rw (e, disconnect) refl

disconnect-IsOwned : (c : ℕ) (s : ServerState) → IsOwned s → IsOwned (disconnect c s)
unfolding set_running
disconnect-IsOwned c s h = elim (Option-cases (find c s.tun_devices)) [
  | inl e ↦ subst IsOwned (sym (disconnect_missing c s e)) h
  | inr (d, e) ↦
      subst IsOwned (sym (disconnect_known c d s e))
        (λ x r. has_device-erase c d x s.tun_devices e (ground arith) (ground (arith, h x)))
]

-- As long as no connection that has a device sends another init, every device that runs belongs to a
-- connection in the server's map.
pub Reachable-IsOwned :
    (s : ServerState)
    → Reachable s
    → (d : ℕ) → s.running d ≡ true
    → has_device d s.tun_devices ≡ true
Reachable-IsOwned s fresh = λ d r. cc
Reachable-IsOwned s (init_step s' parsed started c h n) =
    action_init-IsOwned parsed started c s' n (Reachable-IsOwned s' h)
Reachable-IsOwned s (close_step s' c h) = disconnect-IsOwned c s' (Reachable-IsOwned s' h)

-- The device was made and runs, and no connection has it.
record IsOrphan (d : ℕ) (s : ServerState) : Type 0 where
  old : d < s.made
  runs : s.running d ≡ true
  lost : has_device d s.tun_devices ≡ false

has_device-insert_old :
    (c d e : ℕ) (m : DeviceMap)
    → e ≢ d
    → has_device e m ≡ false
    → has_device e (insert c d m) ≡ false
unfolding has_device insert
has_device-insert_old c d e [] n h = ground arith
has_device-insert_old c d e ((k, f) ∷ m) n h = ground (arith, has_device-insert_old c d e m)

has_device-erase_old :
    (c e : ℕ) (m : DeviceMap) → has_device e m ≡ false → has_device e (erase c m) ≡ false
unfolding has_device erase
has_device-erase_old c e [] h = refl
has_device-erase_old c e ((k, f) ∷ m) h = ground (arith, has_device-erase_old c e m)

has_device-find : (c d : ℕ) (m : DeviceMap) → find c m ≡ some d → has_device d m ≡ true
unfolding has_device find
has_device-find c d [] h = ground arith
has_device-find c d ((k, f) ∷ m) h = ground (arith, has_device-find c d m)

handle-IsOrphan : (d : ℕ) (e : Event) (s : ServerState) → IsOrphan d s → IsOrphan d (handle e s)
unfolding handle action_init disconnect set_running
handle-IsOrphan d (init_message false started c) s o = o
handle-IsOrphan d (init_message true false c) s o = record {
  old = omega (arith, o.old);
  runs = o.runs;
  lost = o.lost;
}
handle-IsOrphan d (init_message true true c) s o = record {
  old = omega (arith, o.old);
  runs = ground (arith, o.runs);
  lost = has_device-insert_old c s.made d s.tun_devices (λ e. omega (arith, o.old)) o.lost;
}
handle-IsOrphan d (closed c) s o = elim (Option-cases (find c s.tun_devices)) [
  | inl e ↦ subst (IsOrphan d) (sym (disconnect_missing c s e)) o
  | inr (x, e) ↦ subst (IsOrphan d) (sym (disconnect_known c x s e)) (record {
    old = o.old;
    runs = ground (arith, o.runs, o.lost, has_device-find c x s.tun_devices e);
    lost = has_device-erase_old c d s.tun_devices o.lost;
  })
]

handle_all-IsOrphan :
    (d : ℕ) (es : List Event) (s : ServerState) → IsOrphan d s → IsOrphan d (handle_all es s)
unfolding handle_all
handle_all-IsOrphan d [] s o = o
handle_all-IsOrphan d (e ∷ es) s o = handle_all-IsOrphan d es (handle e s) (handle-IsOrphan d e s o)

insert_present : (c d e : ℕ) (m : DeviceMap) → find c m ≡ some e → insert c d m ≡ m
unfolding find insert
insert_present c d e [] h = ground arith
insert_present c d e ((k, f) ∷ m) h = ground (arith, insert_present c d e m)

second_init-IsOrphan :
    (c d : ℕ) (s : ServerState)
    → find c s.tun_devices ≡ some d
    → has_device s.made s.tun_devices ≡ false
    → IsOrphan s.made (handle (init_message true true c) s)
unfolding handle action_init set_running
second_init-IsOrphan c d s f new = record {
  old = omega arith;
  runs = ground arith;
  lost = rw (insert_present c s.made d s.tun_devices f) new;
}

-- A connection that has a device and sends another init, which is read and whose device starts,
-- makes a device that runs on whatever happens, where no connection has the number of that device
-- before: after any further events it runs, and no connection has it.
pub second_init_leaks :
    (c d : ℕ) (s : ServerState) (es : List Event)
    → find c s.tun_devices ≡ some d
    → has_device s.made s.tun_devices ≡ false
    → let s' = handle_all es (handle (init_message true true c) s) in
      (s'.running s.made ≡ true) × (has_device s.made s'.tun_devices ≡ false)
second_init_leaks c d s es f new =
    let o =
      handle_all-IsOrphan s.made es (handle (init_message true true c) s)
        (second_init-IsOrphan c d s f new) in
    (o.runs, o.lost)
