-- ===== src/Server/Tests.antt =====
-- Runs of the server and its theorems at concrete inputs.
use tunator.Prelude.{◌≡◌, refl, true, false, some, List, [], ◌∷◌, ◌++◌, arith}
use tunator.Text.{Text, codes}
use tunator.Packet.Buffer.{read_bytes}
use tunator.Packet.Queue.{PacketQueue, returned, queue_init, try_push}
use tunator.Packet.Queue.Valid.{IsValid}
use tunator.Packet.Queue.Fifo.{view}
use tunator.Packet.Queue.History.{round}
use tunator.Device.Driver.{tun_header_linux, no_header}
use tunator.Device.Threads.{pop_into, write_sink, send_sink, echo_sink}
use tunator.Packet.Tests.{
  list_ring, list_ring_laws, queue, queue-IsValid, queue_first, queue_first_size, filled,
  filled-IsValid,
}
use tunator.Device.Tests.{system, system_writes}
use tunator.Server.{from, copy_action, select_action, init_action, on_message, to_packet, not_found}
use tunator.Server.Devices.{
  ServerState, server_init, action_init, disconnect, handle, handle_all, init_message, closed, find,
  insert,
}
use tunator.Server.Devices.Owned.{
  Reachable, fresh, init_step, close_step, has_device, Reachable-IsOwned, second_init_leaks,
}
use tunator.Server.Names.{select_action-carry}
use tunator.Server.Paths.{message_to_device, relay, echo_moves}
use tunator.Server.Queued.{body_of, QueuedSpec, try_push-copy_action}

abbrev packet_message : Text
packet_message = codes "PAKT" ++ 69 ∷ 0 ∷ 20 ∷ []

packet_routed : on_message true (from packet_message) ≡ to_packet
unfolding on_message from
packet_routed = refl

packet_unknown : on_message false (from packet_message) ≡ not_found
unfolding on_message from
packet_unknown = refl

-- The bytes 4, 'o', 'i', 't'.
init_by_other_name : select_action (4 ∷ 111 ∷ 105 ∷ 116 ∷ []) ≡ init_action
unfolding select_action
init_by_other_name = refl

-- What follows a zero byte is not part of the name.
init_before_zero : select_action (codes "init" ++ 0 ∷ 120 ∷ []) ≡ init_action
unfolding select_action
init_before_zero = refl

select_action-carry_example :
    select_action (105 ∷ 110 ∷ codes "it") ≡ select_action (4 ∷ 111 ∷ codes "it")
select_action-carry_example =
    select_action-carry 4 110 (codes "it") (omega arith) (omega arith) (omega arith) (omega arith)

try_push-copy_action_example :
    QueuedSpec list_ring list_ring_laws packet_message queue
      (try_push list_ring (copy_action (from packet_message)) queue)
try_push-copy_action_example =
    try_push-copy_action list_ring list_ring_laws packet_message queue (omega arith) (omega arith)
      queue-IsValid

abbrev first_init : ServerState
first_init = action_init true true 1 server_init

abbrev one_left : ServerState
one_left = disconnect 1 (action_init true true 2 first_init)

one_left-Reachable : Reachable one_left
unfolding find action_init insert
one_left-Reachable =
    close_step _ 1 (init_step _ true true 2 (init_step _ true true 1 fresh refl) refl)

Reachable-IsOwned_example : has_device 1 one_left.tun_devices ≡ true
unfolding disconnect action_init
Reachable-IsOwned_example = Reachable-IsOwned one_left one_left-Reachable 1 refl

second_init_leaks_example :
    let s = handle_all (closed 1 ∷ []) (handle (init_message true true 1) first_init) in
    (s.running first_init.made ≡ true) × (has_device first_init.made s.tun_devices ≡ false)
unfolding action_init find has_device
second_init_leaks_example = second_init_leaks 1 0 first_init (closed 1 ∷ []) refl refl

message_to_device_example :
    (s' s'' : PacketQueue list_ring) × (st' : List Text × List Text) × (try_push list_ring
        (copy_action (from packet_message))
        queue
      ≡ returned true s')
    × (pop_into list_ring (write_sink system tun_header_linux) s' ([], []) ≡ some (s'', st'))
    × (st'.0 ≡ (tun_header_linux no_header (body_of packet_message) ++ body_of packet_message) ∷ [])
    × (view list_ring list_ring_laws s'' ≡ [])
unfolding queue_init tun_header_linux
message_to_device_example =
    message_to_device list_ring list_ring_laws system system_writes tun_header_linux packet_message
      queue ([], []) 0 queue_first (omega arith) (omega arith) (omega (arith, queue_first_size))
      (omega arith) refl queue-IsValid

filled_holds : view list_ring list_ring_laws filled ≡ (7 ∷ []) ∷ []
unfolding round queue_init try_push read_bytes
filled_holds = refl

relay_example :
    (a' b' : PacketQueue list_ring) × (m : Text) × (pop_into list_ring send_sink filled []
      ≡ some (a', m ∷ []))
    × (view list_ring list_ring_laws a' ≡ [])
    × (on_message true (from m) ≡ to_packet)
    × (try_push list_ring (copy_action (from m)) queue ≡ returned true b')
    × (view list_ring list_ring_laws b' ≡ view list_ring list_ring_laws queue ++ (7 ∷ []) ∷ [])
relay_example =
    relay list_ring list_ring_laws filled queue [] (7 ∷ []) [] 0 queue_first filled_holds (λ e. cc)
      (omega arith) (omega (arith, queue_first_size)) filled-IsValid queue-IsValid

echo_moves_example :
    (a' b' : PacketQueue list_ring) × (pop_into list_ring
        (echo_sink list_ring (λ k t. t))
        filled
        queue
      ≡ some (a', b'))
    × (view list_ring list_ring_laws a' ≡ [])
    × (view list_ring list_ring_laws b' ≡ view list_ring list_ring_laws queue ++ (7 ∷ []) ∷ [])
    × IsValid list_ring list_ring_laws a'
    × IsValid list_ring list_ring_laws b'
unfolding queue_init
echo_moves_example =
    echo_moves list_ring list_ring_laws (λ k t. t) filled queue (7 ∷ []) [] 0 queue_first
      filled_holds (λ e. cc) (omega arith) (omega (arith, queue_first_size)) (omega arith)
      filled-IsValid queue-IsValid
