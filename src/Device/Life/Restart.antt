-- ===== src/Device/Life/Restart.antt =====
-- Restart: which starts succeed, and what a start or a stop leaves for the next.
use tunator.Prelude.{
  ℕ, ◌≤◌, ◌≡◌, ◌≢◌, ◌↔◌, ◌⊎◌, inl, inr, refl, ◌∙◌, true, false, List, [], none, some, arith,
}
use tunator.Text.{Text}
use tunator.Route.Library.{IpLibrary}
use tunator.Packet.Ring.{Ring}
use tunator.Packet.Buffer.{Memory}
use tunator.Device.Command.{SystemCmd}
use tunator.Device.IfAddrs.{IfAddrs, is_echo}
use tunator.Device.Life.{
  TunDevice, absent, joined, Answers, start, start_on_tun, start_echo, stop, join, join_thread,
  is_joinable, tun_device_init,
}

module _ (ip : IpLibrary) (r : Ring) where
  -- Neither of the threads on the queues can be joined.
  abbrev pub HasNoThreads : TunDevice ip r → Type 0
  HasNoThreads s = (is_joinable s.from_tun_thread ≡ false) × (is_joinable s.to_tun_thread ≡ false)

  -- The guards of start let a device pass: it is not running, and the mtu of its addresses is at
  -- most that of either queue; and it has no threads of an earlier start that can be joined.
  abbrev pub IsStartable : TunDevice ip r → Type 0
  IsStartable s =
      (s.running ≡ false)
      × (s.if_addrs.mtu ≤ s.from_tun.pb.mtu)
      × (s.if_addrs.mtu ≤ s.to_tun.pb.mtu)
      × HasNoThreads s

-- The system sets up a device.
abbrev pub IsSetUp : Answers → Type 0
IsSetUp answers =
    (answers.tun_alloc ≢ none) × (answers.get_flags ≡ true) × (answers.set_flags ≡ true)

module _ (ip : IpLibrary) (r : Ring) (as_commands : Text → IfAddrs ip → List SystemCmd) where
  start_on_tun_iff :
      (answers : Answers) (s : TunDevice ip r)
      → ((start_on_tun ip r as_commands answers s).result ≡ true)
        ↔ (IsSetUp answers × HasNoThreads ip r s)
  unfolding start_on_tun
  start_on_tun_iff answers s = ground arith

  -- start returns true exactly when the guards let the device pass, it has no threads of an earlier
  -- start that can be joined, and it is an echo, which has no address, or the system sets it up.
  pub start_iff :
      (answers : Answers) (s : TunDevice ip r)
      → ((start ip r as_commands answers s).result ≡ true)
        ↔ (IsStartable ip r s × ((is_echo ip s.if_addrs ≡ true) ⊎ IsSetUp answers))
  unfolding start start_echo
  start_iff answers s = ground (arith, start_on_tun_iff answers (record s { running = true }))

  running_refused :
      (answers : Answers) (s : TunDevice ip r)
      → s.running ≡ true
      → (start ip r as_commands answers s).result ≡ false
  unfolding start
  running_refused answers s h = rw h refl

  failed_start_runs :
      (answers : Answers) (s : TunDevice ip r)
      → (start ip r as_commands answers s).result ≡ false
      → (start ip r as_commands answers s
          ≡ record { result = false; terminated = false; commands = []; device = s })
        ⊎ ((start ip r as_commands answers s).device.running ≡ true)
  unfolding start start_on_tun start_echo
  failed_start_runs answers s h = ground arith

  -- A start that returns false either leaves the device as it was and runs no command, or leaves it
  -- marked as running, so that every start after it returns false.
  pub failed_start :
      (answers : Answers) (s : TunDevice ip r)
      → (start ip r as_commands answers s).result ≡ false
      → (start ip r as_commands answers s
          ≡ record { result = false; terminated = false; commands = []; device = s })
        ⊎ (((start ip r as_commands answers s).device.running ≡ true)
            × ((later : Answers)
                → (start ip r as_commands later (start ip r as_commands answers s).device).result
                  ≡ false))
  failed_start answers s h = elim (failed_start_runs answers s h) [
    | inl e ↦ inl e
    | inr e ↦ inr (e, λ later. running_refused later (start ip r as_commands answers s).device e)
  ]

  start-recv_thread :
      (answers : Answers) (s : TunDevice ip r)
      → (start ip r as_commands answers s).device.recv_thread ≡ s.recv_thread
  unfolding start start_on_tun start_echo
  start-recv_thread answers s = ground arith

  stop-recv_thread :
      (s s' : TunDevice ip r) (fds : List ℕ)
      → stop ip r s ≡ some (s', fds)
      → s.recv_thread ≢ absent
      → s'.recv_thread ≡ joined
  unfolding stop join join_thread
  stop-recv_thread s s' fds e h = ground arith

  joined-stop : (s : TunDevice ip r) → s.recv_thread ≡ joined → stop ip r s ≡ none
  unfolding stop join join_thread
  joined-stop s h = ground arith

  stop-HasNoThreads :
      (s s' : TunDevice ip r) (fds : List ℕ) → stop ip r s ≡ some (s', fds) → HasNoThreads ip r s'
  unfolding stop join join_thread
  stop-HasNoThreads s s' fds e = ground arith

  start-terminated :
      (answers : Answers) (s : TunDevice ip r)
      → HasNoThreads ip r s
      → (start ip r as_commands answers s).terminated ≡ false
  unfolding start start_on_tun start_echo
  start-terminated answers s h = ground arith

  -- A start of a device that is new does not end the process, as the server's are.
  pub start_new :
      (answers : Answers) (memory : Memory) (now : ℕ) (if_addrs : IfAddrs ip) (mtu q_size : ℕ)
      → (start ip r as_commands answers
          (tun_device_init ip r memory now if_addrs mtu q_size)).terminated
        ≡ false
  unfolding tun_device_init
  start_new answers memory now if_addrs mtu q_size = start-terminated answers _ (refl, refl)

  -- A device whose thread for the web socket was started can be stopped once only: after a stop,
  -- a start with whatever answers does not end the process, and a second stop throws.
  pub stop-start-stop :
      (answers : Answers) (s s' : TunDevice ip r) (fds : List ℕ)
      → stop ip r s ≡ some (s', fds)
      → s.recv_thread ≢ absent
      → ((start ip r as_commands answers s').terminated ≡ false)
        × (stop ip r (start ip r as_commands answers s').device ≡ none)
  stop-start-stop answers s s' fds e h = (
    start-terminated answers s' (stop-HasNoThreads s s' fds e),
    joined-stop (start ip r as_commands answers s').device
        (start-recv_thread answers s' ∙ stop-recv_thread s s' fds e h),
  )
