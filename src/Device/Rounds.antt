-- ===== src/Device/Rounds.antt =====
-- tun_device.hpp and tuna_server.hpp: what a round of a device's threads does to the device itself:
-- fromTunThread, toTunThread in tun mode and in echo mode, and the thread of startRecvThread.
use tunator.Prelude.{ℕ, List, [], Option, none, some, pos, if◌then◌else◌}
use tunator.Text.{Text}
use tunator.Route.Library.{IpLibrary}
use tunator.Packet.Buffer.{alloc, store_at}
use tunator.Packet.Ring.{Ring}
use tunator.Packet.Statistic.{inc_pop_empty}
use tunator.Packet.Queue.{
  PacketAction, PacketQueue, Attempt, returned, no_packet, packet_at, try_push,
}
use tunator.Device.Driver.{Tun}
use tunator.Device.Life.{TunDevice}
use tunator.Device.Threads.{
  Sink, pop_into, write_sink, send_sink, echo_sink, Poll, Read, read_packet,
}

module _ (r : Ring) where
  abbrev pub after : Attempt r → PacketQueue r
  after (returned b s) = s
  after (no_packet s) = s

  -- A round of `pop`, one that finds the ring empty too.
  unfoldable pub pop_round : {E : Type 0} → Sink E → PacketQueue r → E → PacketQueue r × E
  unfolding pop_into inc_pop_empty
  pop_round act s e = elim (pop_into r act s e) [
    | none ↦ (record s { ps = inc_pop_empty s.ps }, e)
    | some z ↦ z
  ]

module _ (tun : Tun) where
  -- What fromTunThread's action does to a packet, where it returns.
  unfoldable pub read_into : Option (Read tun) → PacketAction
  unfolding store_at
  read_into none p m = (pos 0, m)
  read_into (some x) p m = (x.result, store_at m p.buf x.stored)

  unfoldable pub read_action : List Poll → tun.State → PacketAction
  unfolding read_into read_packet
  read_action polls st p m = read_into (read_packet tun p.max_size polls st) p m

module _ (ip : IpLibrary) (r : Ring) (tun : Tun) where
  -- What the action leaves of the device, for the packet that `push` allocates.
  unfoldable pub read_leaves :
      Option (Read tun) → PacketQueue r → TunDevice ip r → Option (TunDevice ip r × tun.State)
  read_leaves none s d = none
  read_leaves (some x) s d = some (record d { from_tun = s; running = x.running }, x.device)

  -- The round with what `alloc` returned, where `s` is the queue after it.
  unfoldable pub read_at :
      List Poll
      → Option ℕ
      → PacketQueue r
      → TunDevice ip r
      → tun.State
      → Option (TunDevice ip r × tun.State)
  unfolding read_leaves read_packet
  read_at polls none s d st = some (record d { from_tun = s }, st)
  read_at polls (some i) s d st =
      read_leaves (read_packet tun (packet_at d.from_tun.pb i).max_size polls st) s d

  -- A round of fromTunThread, one of its loop and one of the loop of push. `none`: it still waits
  -- for the device.
  unfoldable pub read_round :
      List Poll → TunDevice ip r → tun.State → Option (TunDevice ip r × tun.State)
  unfolding read_action read_at try_push alloc
  read_round polls d st =
      let s = after r (try_push r (read_action tun polls st) d.from_tun) in
      if d.running then read_at polls (alloc d.from_tun.pb).0 s d st else some (d, st)

  -- A round of toTunThread.
  unfoldable pub write_round :
      (Text → Text → Text) → TunDevice ip r → tun.State → TunDevice ip r × tun.State
  unfolding pop_round write_sink
  write_round tun_header d st =
      let (s, st') = pop_round r (write_sink tun tun_header) d.to_tun st in
      if d.running then (record d { to_tun = s }, st') else (d, st)

  -- A round of toTunThread in echo mode, with what other threads do to fromTun while `push` sleeps.
  unfoldable pub echo_round : (ℕ → PacketQueue r → PacketQueue r) → TunDevice ip r → TunDevice ip r
  unfolding pop_round echo_sink
  echo_round during d =
      let (a, b) = pop_round r (echo_sink r during) d.to_tun d.from_tun in
      if d.running then record d { to_tun = a; from_tun = b } else d

  -- A round of the thread that sends, with the messages sent. Its loop tests `running` behind it.
  unfoldable pub send_round : TunDevice ip r → TunDevice ip r × List Text
  unfolding pop_round send_sink
  send_round d =
      let (s, sent) = pop_round r send_sink d.from_tun [] in (record d { from_tun = s }, sent)
