-- ===== src/Server/World/Threads.antt =====
-- Threads: a round of one of a device's threads keeps the device's queues, and leaves its threads.
use tunator.Prelude.{ℕ, ◌≡◌, refl, Bool, true, false, List, [], Option, none, some, if◌then◌else◌}
use tunator.Text.{Text}
use tunator.Route.Library.{IpLibrary}
use tunator.Packet.Buffer.{alloc}
use tunator.Packet.Ring.{Ring, RingLaws}
use tunator.Packet.Queue.{PacketQueue, packet_at}
use tunator.Packet.Queue.Keeps.{count-IsValid}
use tunator.Device.Driver.{Tun}
use tunator.Device.Json.{JsonLibrary}
use tunator.Device.Life.{TunDevice}
use tunator.Device.Report.{Clocks, device_as_json, message_as_json}
use tunator.Device.Rounds.{read_leaves, read_at, read_round, write_round, echo_round, send_round}
use tunator.Device.Threads.{Poll, echo_sink, write_sink, send_sink}
use tunator.Device.Threads.Reads.{Settles, read_packet_lem}
use tunator.Server.Sessions.{send_tun}
use tunator.Server.Sessions.Sound.{IsJoinable}
use tunator.Server.World.Queues.{
  Healthy, ReadLaws, round-Healthy, pop_round-Healthy, read_action-IsConfined,
}
use tunator.Server.World.Echo.{echo_sink-Healthy, pop_round-other}
use tunator.Server.World.Stored.{BothHealthy}

-- It returns, and what it returns is so.
abbrev pub Returns {ℓ} : {A : Type ℓ} → (A → Type 0) → Option A → Type ℓ
Returns P o = (z : _) × (o ≡ some z) × P z

if-Returns :
    {A : Type 0} (P : A → Type 0) (b : Bool) (x y : Option A)
    → Returns P x
    → Returns P y
    → Returns P (if b then x else y)
if-Returns P true x y h k = h
if-Returns P false x y h k = k

if_all : {A : Type 0} (P : A → Type 0) (b : Bool) (x y : A) → P x → P y → P (if b then x else y)
if_all P true x y h k = h
if_all P false x y h k = k

module _ (ip : IpLibrary) (r : Ring) (json : JsonLibrary) (laws : RingLaws r) (mtu : ℕ) where
  -- A device that comes of another: its queues are valid, and its threads can be joined if those of
  -- the other can.
  abbrev pub Follows : TunDevice ip r → TunDevice ip r → Type 0
  Follows dev dev' =
      BothHealthy ip r json laws mtu dev' × (IsJoinable ip r json dev → IsJoinable ip r json dev')

  module _ (tun : Tun) where
    abbrev FollowsWith : TunDevice ip r → TunDevice ip r × tun.State → Type 0
    FollowsWith dev z = Follows dev z.0

    module _ (reads : ReadLaws tun) (polls : List Poll) (settles : Settles polls)
        (dev : TunDevice ip r) (st : tun.State) (good : BothHealthy ip r json laws mtu dev) where
      read_at-Follows :
          (found : Option ℕ) (s : PacketQueue r)
          → Healthy r laws mtu s
          → Returns (FollowsWith dev) (read_at ip r tun polls found s dev st)
      unfolding read_at read_leaves
      read_at-Follows none s h = (_, refl, ((h, good.1), λ j. j))
      read_at-Follows (some i) s h =
          let (x, came, _) =
            read_packet_lem tun (packet_at dev.from_tun.pb i).max_size polls st settles in
          (
            (record dev { from_tun = s; running = x.running }, x.device),
            rw (came, read_leaves) refl,
            ((h, good.1), λ j. j),
          )

      pub read_round-Follows : Returns (FollowsWith dev) (read_round ip r tun polls dev st)
      unfolding read_round
      read_round-Follows =
          if-Returns (FollowsWith dev) dev.running _ (some (dev, st))
            (read_at-Follows (alloc dev.from_tun.pb).0 _ (
              round-Healthy r laws mtu _ dev.from_tun (read_action-IsConfined tun reads polls st)
                good.0))
            (_, refl, (good, λ j. j))

    module _ (dev : TunDevice ip r) (good : BothHealthy ip r json laws mtu dev) where
      pub write_round-Follows :
          (tun_header : Text → Text → Text) (st : tun.State)
          → Follows dev (write_round ip r tun tun_header dev st).0
      unfolding write_round
      write_round-Follows tun_header st =
          if_all (FollowsWith dev) dev.running _ (dev, st)
            (
              (
                good.0,
                pop_round-Healthy r laws mtu (write_sink tun tun_header) dev.to_tun st good.1,
              ),
              λ j. j,
            )
            (good, λ j. j)

      pub echo_round-Follows :
          (during : ℕ → PacketQueue r → PacketQueue r)
          → ((k : ℕ) (t : PacketQueue r) → Healthy r laws mtu t → Healthy r laws mtu (during k t))
          → Follows dev (echo_round ip r tun during dev)
      unfolding echo_round
      echo_round-Follows during rely =
          if_all (Follows dev) dev.running _ dev
            (
              (
                pop_round-other r laws mtu (Healthy r laws mtu) (echo_sink r during) dev.to_tun
                    dev.from_tun good.1 good.0
                    (λ bytes fits.
                      echo_sink-Healthy r laws mtu bytes fits during dev.from_tun rely good.0),
                pop_round-Healthy r laws mtu (echo_sink r during) dev.to_tun dev.from_tun good.1,
              ),
              λ j. j,
            )
            (good, λ j. j)

      pub send_round-Follows : Follows dev (send_round ip r tun dev).0
      unfolding send_round
      send_round-Follows =
          ((pop_round-Healthy r laws mtu send_sink dev.from_tun [] good.0, good.1), λ j. j)

  -- A report changes the counters alone.
  pub send_tun-Follows :
      (action : Text) (clocks : Clocks) (dev : TunDevice ip r)
      → BothHealthy ip r json laws mtu dev
      → Follows dev (send_tun ip r json action clocks dev).1
  unfolding send_tun message_as_json device_as_json
  send_tun-Follows action clocks dev ((f, fb, fm), (t, tb, tm)) = (
    (
      (count-IsValid r laws dev.from_tun _ f, fb, fm),
      (count-IsValid r laws dev.to_tun _ t, tb, tm),
    ),
    λ j. j,
  )
