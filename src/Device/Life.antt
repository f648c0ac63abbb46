-- ===== src/Device/Life.antt =====
-- tun_device.hpp: how a TunDevice is made, started and stopped. What its threads do on the queues is in
-- Threads; here a thread is joined once, after it has seen `running` false.
pub mod Restart
use tunator.Prelude.{
  ℕ, ◌+◌, ◌||◌, Bool, true, false, List, [], ◌∷◌, ◌++◌, Option, none, some, ℤ, pos, negsuc, ltb,
  add64, if◌then◌else◌,
}
use tunator.Text.{Text, codes}
use tunator.Route.Library.{IpLibrary}
use tunator.Packet.Ring.{Ring}
use tunator.Packet.Buffer.{Memory}
use tunator.Packet.Queue.{PacketQueue, queue_init}
use tunator.Device.Command.{SystemCmd}
use tunator.Device.IfAddrs.{IfAddrs, if_addrs_init, is_echo}

-- A pointer to a thread.
pub data Thread : Type 0 where
  absent joinable joined : Thread

pub record TunDevice (ip : IpLibrary) (r : Ring) : Type 0 where
  pub seq : ℕ
  pub if_addrs : IfAddrs ip
  pub from_tun : PacketQueue r
  pub to_tun : PacketQueue r
  pub running : Bool
  pub tun_fd : ℤ
  pub tun_dev_name : Text
  pub from_tun_thread : Thread
  pub to_tun_thread : Thread
  pub recv_thread : Thread
  pub stat_thread : Thread

-- What the system answers in `startOnTun`: the device of `tun_alloc`, and whether the two calls of
-- `fcntl` succeed.
pub record Answers : Type 0 where
  pub tun_alloc : Option (ℕ × Text)
  pub get_flags : Bool
  pub set_flags : Bool

-- The result of `start`, whether it ended the process instead of returning, the commands run in their
-- order, each of which is taken to return, and the device.
pub record Started (ip : IpLibrary) (r : Ring) : Type 0 where
  pub result : Bool
  pub terminated : Bool
  pub commands : List SystemCmd
  pub device : TunDevice ip r

-- A `std::thread` that can be joined ends the process when its pointer is replaced.
abbrev pub is_joinable : Thread → Bool
is_joinable joinable = true
is_joinable _ = false

-- `thread->join()` on a pointer that is not null; `none` is an exception, of a thread joined before.
unfoldable pub join_thread : Thread → Option Thread
join_thread absent = some absent
join_thread joinable = some joined
join_thread joined = none

module _ (ip : IpLibrary) (r : Ring) where
  unfoldable pub tun_device_init : Memory → ℕ → IfAddrs ip → ℕ → ℕ → TunDevice ip r
  tun_device_init memory now if_addrs mtu q_size = record {
    seq = 0;
    if_addrs = if_addrs;
    from_tun = queue_init r memory now mtu q_size 100;
    to_tun = queue_init r memory now mtu q_size 100;
    running = false;
    tun_fd = negsuc 0;
    tun_dev_name = [];
    from_tun_thread = absent;
    to_tun_thread = absent;
    recv_thread = absent;
    stat_thread = absent;
  }

  -- The default constructor.
  unfoldable pub tun_device_default : Memory → ℕ → TunDevice ip r
  unfolding tun_device_init if_addrs_init
  tun_device_default memory now = record (tun_device_init memory now (if_addrs_init ip) 100 5) {
    seq = 4711;
    tun_dev_name = codes "defaultInit";
  }

  -- On a device whose pointer holds no thread that can be joined, as the next.
  unfoldable pub set_recv_thread : TunDevice ip r → TunDevice ip r
  set_recv_thread s = record s { recv_thread = joinable }

  unfoldable pub set_stat_thread : TunDevice ip r → TunDevice ip r
  set_stat_thread s = record s { stat_thread = joinable }

  abbrev pub not_started : List SystemCmd → TunDevice ip r → Started ip r
  not_started commands s = record {
    result = false;
    terminated = false;
    commands = commands;
    device = s;
  }

  -- The two threads on the queues replace those of an earlier start.
  abbrev pub with_threads : List SystemCmd → TunDevice ip r → Started ip r
  with_threads commands s =
      if is_joinable s.from_tun_thread || is_joinable s.to_tun_thread
      then record { result = false; terminated = true; commands = commands; device = s }
      else record {
        result = true;
        terminated = false;
        commands = commands;
        device = record s { from_tun_thread = joinable; to_tun_thread = joinable };
      }

  module _ (as_commands : Text → IfAddrs ip → List SystemCmd) where
    unfoldable pub start_on_tun : Answers → TunDevice ip r → Started ip r
    start_on_tun answers s = elim answers.tun_alloc [
      | none ↦ not_started [] s
      | some (fd, dev) ↦
          let s' = record s { tun_fd = pos fd; tun_dev_name = dev } in
          let commands = as_commands dev s.if_addrs in
          if answers.get_flags
          then (if answers.set_flags then with_threads commands s' else not_started commands s')
          else not_started commands s'
    ]

    unfoldable pub start_echo : TunDevice ip r → Started ip r
    start_echo s = with_threads [] (record s { tun_dev_name = codes "echo" })

    unfoldable pub start : Answers → TunDevice ip r → Started ip r
    unfolding start_on_tun start_echo is_echo
    start answers s =
        let s' = record s { running = true } in
        if s.running
        then not_started [] s
        else if ltb s.from_tun.pb.mtu s.if_addrs.mtu
        then not_started [] s
        else if ltb s.to_tun.pb.mtu s.if_addrs.mtu
        then not_started [] s
        else if is_echo ip s.if_addrs
        then start_echo s'
        else start_on_tun answers s'

  -- Joins in the order of the code; `none` is the exception of the first that fails.
  unfoldable pub join : TunDevice ip r → Option (TunDevice ip r)
  unfolding join_thread
  join s = elim (join_thread s.from_tun_thread) [
    | none ↦ none
    | some a ↦ elim (join_thread s.to_tun_thread) [
      | none ↦ none
      | some b ↦ elim (join_thread s.recv_thread) [
        | none ↦ none
        | some c ↦ elim (join_thread s.stat_thread) [
          | none ↦ none
          | some d ↦ some (record s {
            from_tun_thread = a;
            to_tun_thread = b;
            recv_thread = c;
            stat_thread = d;
          })
        ]
      ]
    ]
  ]

  -- `if (tunFd >= 0) close(tunFd)`: what is closed.
  abbrev pub closed_fds : ℤ → List ℕ
  closed_fds (pos fd) = fd ∷ []
  closed_fds (negsuc n) = []

  -- With the descriptors closed.
  unfoldable pub stop : TunDevice ip r → Option (TunDevice ip r × List ℕ)
  unfolding join
  stop s = elim (join (record s { running = false })) [
    | none ↦ none
    | some s' ↦ some (s', closed_fds s'.tun_fd)
  ]
