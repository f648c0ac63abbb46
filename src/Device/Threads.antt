-- ===== src/Device/Threads.antt =====
-- What the threads of a device do in a round: the lambdas of startOnTun and startEcho in
-- tun_device.hpp, and that of startRecvThread in tuna_server.hpp.
pub mod Pops
pub mod Reads
mod Tests
use tunator.Prelude.{
  ℕ, zero, suc, ◌+◌, Bool, true, false, List, [], ◌∷◌, ◌++◌, Option, none, some, ℤ, pos, negsuc,
  length, if◌then◌else◌,
}
use tunator.Text.{Text, codes}
use tunator.Packet.Buffer.{Packet, Memory, read_bytes, store_at}
use tunator.Packet.Ring.{Ring}
use tunator.Packet.Queue.{PacketAction, PacketQueue, Pushed, packet_at, try_pop, push}
use tunator.Device.Driver.{Tun, tun_write, tun_read}

-- An action that reads its packet and acts on something else, such as a device.
abbrev pub Sink : Type 0 → Type 0
Sink E = E → Text → ℤ × E

unfoldable pub reading : {E : Type 0} → Sink E → E → PacketAction
reading act e p m = ((act e (read_bytes m p.buf p.size)).0, m)

module _ (r : Ring) where
  -- The bytes of the packet that `pop` takes.
  unfoldable pub front : PacketQueue r → Text
  front s = elim (r.pop s.q) [
    | none ↦ []
    | some (i, q') ↦ read_bytes s.pb.buffer (packet_at s.pb i).buf (packet_at s.pb i).size
  ]

  -- A round of `pop` with such an action; `none` if there is no packet.
  unfoldable pub pop_into : {E : Type 0} → Sink E → PacketQueue r → E → Option (PacketQueue r × E)
  unfolding reading front
  pop_into act s e = elim (try_pop r (reading act e) s) [
    | none ↦ none
    | some s' ↦ some (s', (act e (front s)).1)
  ]

-- The action of toTunThread.
unfoldable pub write_sink : (tun : Tun) → (Text → Text → Text) → Sink tun.State
unfolding tun_write
write_sink tun tun_header st bytes = tun_write tun tun_header st bytes

-- The action of the thread that sends: the messages sent, oldest first.
unfoldable pub send_sink : Sink (List Text)
send_sink sent bytes = (pos 1, sent ++ (codes "PAKT" ++ bytes) ∷ [])

-- `memcpy` of the bytes of another packet.
unfoldable pub copy_bytes : Text → PacketAction
copy_bytes bytes p m = (pos (length bytes), store_at m p.buf bytes)

-- The action of toTunThread in echo mode. `push` always returns, so that the case of `none` is
-- never met.
unfoldable pub echo_sink : (r : Ring) → (ℕ → PacketQueue r → PacketQueue r) → Sink (PacketQueue r)
unfolding copy_bytes
echo_sink r during from_tun bytes = elim (push r (copy_bytes bytes) during from_tun) [
  | none ↦ (negsuc 0, from_tun)
  | some p ↦ (if p.result then pos 1 else negsuc 0, p.state)
]

-- What the system says after a `read` that returned -1: whether `errno` is EAGAIN or EWOULDBLOCK,
-- and the results of `select` and `FD_ISSET`.
pub record Poll : Type 0 where
  pub would_block : Bool
  pub selected : ℤ
  pub is_set : Bool

-- The result of fromTunThread's action, what it stored, the device, and whether it still runs.
pub record Read (tun : Tun) : Type 0 where
  pub result : ℤ
  pub stored : Text
  pub device : tun.State
  pub running : Bool

abbrev pub is_minus_one : ℤ → Bool
is_minus_one (negsuc zero) = true
is_minus_one _ = false

module _ (tun : Tun) where
  -- `tunDevError`
  unfoldable pub tun_dev_error : Text → tun.State → Read tun
  tun_dev_error stored st = record { result = pos 0; stored = stored; device = st; running = false }

  -- The action's end after a `read` that did not return -1.
  unfoldable pub read_ended : ℤ → Text → tun.State → Read tun
  unfolding tun_dev_error
  read_ended (pos zero) stored st = tun_dev_error stored st
  read_ended ret stored st = record { result = ret; stored = stored; device = st; running = true }

  -- After one that did, where `again` is what the rest of the loop returns.
  unfoldable pub after_poll : Poll → Text → tun.State → Option (Read tun) → Option (Read tun)
  unfolding tun_dev_error
  after_poll p stored st again =
      if p.would_block
      then elim p.selected [
        | negsuc _ ↦ some (tun_dev_error stored st)
        | pos zero ↦ some (record { result = pos 0; stored = stored; device = st; running = true })
        | pos (suc _) ↦
            if p.is_set
            then again
            else some (record { result = negsuc 0; stored = stored; device = st; running = true })
      ]
      else some (tun_dev_error stored st)

  -- The loop of the action over what the system says. `none`: it waits for more.
  unfoldable pub read_packet : ℕ → List Poll → tun.State → Option (Read tun)
  unfolding read_ended after_poll tun_read
  read_packet room [] st =
      let ((ret, stored), st') = tun_read tun st room in
      if is_minus_one ret then none else some (read_ended ret stored st')
  read_packet room (p ∷ ps) st =
      let ((ret, stored), st') = tun_read tun st room in
      let again = read_packet room ps st' in
      if is_minus_one ret then after_poll p stored st' again else some (read_ended ret stored st')
