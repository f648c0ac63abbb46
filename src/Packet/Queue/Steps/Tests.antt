-- ===== src/Packet/Queue/Steps/Tests.antt =====
-- A run of packet_queue.hpp in which the threads interrupt one another, and the theorems there.
use tunator.Prelude.{◌≡◌, refl, none, List, [], ◌∷◌, ◌++◌, All, ◌also◌}
use tunator.Packet.Buffer.{read_bytes}
use tunator.Packet.Queue.{queue_init}
use tunator.Packet.Queue.Fifo.{view}
use tunator.Packet.Queue.Steps.{
  rests, waits, taken, System, Turn, producer, consumer, collects, trace,
}
use tunator.Packet.Queue.Steps.Invariant.{TurnOk, system_at, IsSound}
use tunator.Packet.Queue.Steps.Sound.{rest-IsSound, trace-IsSound}
use tunator.Packet.Queue.Steps.Flow.{in_flight}
use tunator.Packet.Queue.Steps.Fifo.{trace_fifo}
use tunator.Packet.Tests.{
  list_ring, list_ring_laws, queue, queue-IsValid, write_byte, write_byte-IsConfined, ignore,
  ignore-IsConfined,
}

-- The consumer takes the first packet, the producer finds it in use, and goes on to the second while
-- the consumer frees the first; the consumer stops with the second in its hands.
abbrev turns : List Turn
turns =
    producer (write_byte 7)
    ∷ producer (write_byte 7)
    ∷ producer (write_byte 7)
    ∷ producer (write_byte 7)
    ∷ producer (write_byte 7)
    ∷ producer (write_byte 7)
    ∷ consumer ignore
    ∷ producer (write_byte 8)
    ∷ producer (write_byte 8)
    ∷ consumer ignore
    ∷ collects 5
    ∷ consumer ignore
    ∷ producer (write_byte 8)
    ∷ producer (write_byte 8)
    ∷ producer (write_byte 8)
    ∷ producer (write_byte 8)
    ∷ producer (write_byte 8)
    ∷ consumer ignore
    ∷ producer (write_byte 9)
    ∷ producer (write_byte 9)
    ∷ producer (write_byte 9)
    ∷ []

abbrev started : System list_ring
started = system_at list_ring queue (rests none) waits

turns_run :
    ((trace list_ring started turns).offered ≡ (7 ∷ []) ∷ (8 ∷ []) ∷ [])
    × ((trace list_ring started turns).delivered ≡ (7 ∷ []) ∷ [])
    × ((trace list_ring started turns).last.popping ≡ taken ignore 1)
unfolding trace queue_init read_bytes
turns_run = (refl, refl, refl)

turns-TurnOk : All TurnOk turns
turns-TurnOk =
    write_byte-IsConfined 7
    also write_byte-IsConfined 7
    also write_byte-IsConfined 7
    also write_byte-IsConfined 7
    also write_byte-IsConfined 7
    also write_byte-IsConfined 7
    also ignore-IsConfined
    also write_byte-IsConfined 8
    also write_byte-IsConfined 8
    also ignore-IsConfined
    also tt
    also ignore-IsConfined
    also write_byte-IsConfined 8
    also write_byte-IsConfined 8
    also write_byte-IsConfined 8
    also write_byte-IsConfined 8
    also write_byte-IsConfined 8
    also ignore-IsConfined
    also write_byte-IsConfined 9
    also write_byte-IsConfined 9
    also write_byte-IsConfined 9
    also tt

trace_fifo_example :
    (trace list_ring started turns).delivered
      ++ in_flight list_ring list_ring_laws (trace list_ring started turns).last
    ≡ view list_ring list_ring_laws queue ++ (trace list_ring started turns).offered
trace_fifo_example = trace_fifo list_ring list_ring_laws queue turns turns-TurnOk queue-IsValid

trace-IsSound_example : IsSound list_ring list_ring_laws (trace list_ring started turns).last
trace-IsSound_example =
    trace-IsSound list_ring list_ring_laws started turns turns-TurnOk
      (rest-IsSound list_ring list_ring_laws queue none queue-IsValid)
