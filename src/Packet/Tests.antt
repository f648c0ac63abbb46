-- ===== src/Packet/Tests.antt =====
-- Runs of the packet path over a concrete ring, and its theorems at concrete inputs.
use tunator.Prelude.{
  ℕ, ◌%◌, ◌≤◌, ◌<◌, ◌≡◌, refl, inl, Bool, true, false, Option, none, some, List, [], ◌∷◌, ◌++◌,
  arith, ltb, pos, length, All, if◌then◌else◌, ◌==◌,
}
use tunator.Packet.Statistic.{statistic_init}
use tunator.Packet.Statistic.Totals.{push_ok, collected, events, events-grand, grand, worth_all}
use tunator.Packet.Buffer.{read_bytes, Memory, packet_size_of}
use tunator.Packet.Buffer.Layout.{packet_size_bounds}
use tunator.Packet.Buffer.Alloc.{FirstUnused}
use tunator.Packet.Ring.{Ring, RingLaws}
use tunator.Packet.Queue.{
  PacketAction, PacketQueue, Pushed, Wake, queue_init, try_push, push, try_pop, pop,
}
use tunator.Packet.Queue.Valid.{IsConfined, IsValid}
use tunator.Packet.Queue.Keeps.{queue_init-IsValid}
use tunator.Packet.Queue.Calls.{push_returns, pop_returns}
use tunator.Packet.Queue.Fifo.{PushSpec, PopSpec, view, try_push_fifo, try_pop_fifo}
use tunator.Packet.Queue.History.{
  Round, pushes, pops, action_of, round, round-IsValid, history, history_fifo,
}

pub record Places : Type 0 where
  pub items : List ℕ
  pub places : ℕ

abbrev places_push : Places → ℕ → Option Places
places_push s x =
    if ltb (length s.items) s.places then some (record s { items = s.items ++ x ∷ [] }) else none

abbrev pop_items : ℕ → List ℕ → Option (ℕ × Places)
pop_items n [] = none
pop_items n (x ∷ xs) = some (x, record { items = xs; places = n })

abbrev pub list_ring : Ring
list_ring = record {
  State = Places;
  make = λ n. record { items = []; places = n };
  push = places_push;
  pop = λ s. pop_items s.places s.items;
}

pub push_has_room :
    (s : Places) (x : ℕ)
    → length s.items < s.places
    → (t : Places) × (places_push s x ≡ some t)
      × (t.items ≡ s.items ++ x ∷ [])
      × (t.places ≡ s.places)
push_has_room s x h = (record s { items = s.items ++ x ∷ [] }, ground arith, refl, refl)

pub push_is_full : (s : Places) (x : ℕ) → s.places ≤ length s.items → places_push s x ≡ none
push_is_full s x h = ground arith

pub pop_finds :
    (n : ℕ) (items : List ℕ) (x : ℕ) (xs : List ℕ)
    → items ≡ x ∷ xs
    → (t : Places) × (pop_items n items ≡ some (x, t)) × (t.items ≡ xs) × (t.places ≡ n)
pop_finds n items x xs e = (record { items = xs; places = n }, rw e refl, refl, refl)

pub pop_finds_none : (n : ℕ) (items : List ℕ) → items ≡ [] → pop_items n items ≡ none
pop_finds_none n items e = rw e refl

abbrev pub list_ring_laws : RingLaws list_ring
list_ring_laws = record {
  contents = λ s. s.items;
  capacity = λ s. s.places;
  make-contents = λ n. refl;
  make-capacity = λ n. refl;
  push_room = push_has_room;
  push_full = push_is_full;
  pop_empty = λ s. pop_finds_none s.places s.items;
  pop_first = λ s. pop_finds s.places s.items;
}

abbrev pub zeros : Memory
zeros a = 0

abbrev pub queue : PacketQueue list_ring
queue = queue_init list_ring zeros 0 1313 3 100

pub queue-IsValid : IsValid list_ring list_ring_laws queue
queue-IsValid =
    queue_init-IsValid list_ring list_ring_laws zeros 0 1313 3 100 (omega arith)
      (unfold packet_size_of in omega arith)

-- It writes one byte, the number `n`, at the start of the packet.
abbrev pub write_byte : ℕ → PacketAction
write_byte n p m =
    if ltb 0 p.max_size then (pos 1, λ a. if a == p.buf then n else m a) else (pos 0, m)

pub write_byte-IsConfined : (n : ℕ) → IsConfined (write_byte n)
write_byte-IsConfined n = record {
  outside = λ p m a h. ground arith;
  reports = λ p m k e. ground arith;
}

abbrev pub ignore : PacketAction
ignore p m = (pos 0, m)

pub ignore-IsConfined : IsConfined ignore
ignore-IsConfined = record { outside = λ p m a h. refl; reports = λ p m k e. ground arith }

packet_size_1313 : packet_size_of 1313 ≡ 1320
unfolding packet_size_of
packet_size_1313 = refl

abbrev rounds : List Round
rounds =
    pushes (write_byte 7)
    ∷ pushes (write_byte 8)
    ∷ pops ignore
    ∷ pushes ignore
    ∷ pushes (write_byte 9)
    ∷ pops ignore
    ∷ []

rounds_run :
    ((history list_ring queue rounds).accepted ≡ (7 ∷ []) ∷ (8 ∷ []) ∷ (9 ∷ []) ∷ [])
    × ((history list_ring queue rounds).delivered ≡ (7 ∷ []) ∷ (8 ∷ []) ∷ [])
unfolding history queue_init try_push try_pop read_bytes
rounds_run = (refl, refl)

rounds-IsConfined : All (λ c. IsConfined (action_of c)) rounds
rounds-IsConfined = (
  write_byte-IsConfined 7,
  (
    write_byte-IsConfined 8,
    (ignore-IsConfined, (ignore-IsConfined, (write_byte-IsConfined 9, (ignore-IsConfined, tt)))),
  ),
)

history_fifo_example :
    (history list_ring queue rounds).delivered
      ++ view list_ring list_ring_laws (history list_ring queue rounds).state
    ≡ view list_ring list_ring_laws queue ++ (history list_ring queue rounds).accepted
history_fifo_example =
    history_fifo list_ring list_ring_laws queue rounds rounds-IsConfined queue-IsValid

try_push_fifo_example :
    PushSpec list_ring list_ring_laws (write_byte 7) queue (try_push list_ring (write_byte 7) queue)
try_push_fifo_example =
    try_push_fifo list_ring list_ring_laws (write_byte 7) queue (write_byte-IsConfined 7)
      queue-IsValid

-- The queue after one packet went in.
abbrev pub filled : PacketQueue list_ring
filled = (round list_ring queue (pushes (write_byte 7))).state

pub filled-IsValid : IsValid list_ring list_ring_laws filled
filled-IsValid =
    round-IsValid list_ring list_ring_laws queue (pushes (write_byte 7)) (write_byte-IsConfined 7)
      queue-IsValid

try_pop_fifo_example :
    PopSpec list_ring list_ring_laws ignore filled (try_pop list_ring ignore filled)
try_pop_fifo_example =
    try_pop_fifo list_ring list_ring_laws ignore filled ignore-IsConfined filled-IsValid

quiet :
    (k : ℕ) (t : PacketQueue list_ring)
    → IsValid list_ring list_ring_laws t
    → IsValid list_ring list_ring_laws t
quiet k t v = v

push_returns_example :
    (p : Pushed list_ring) × (push list_ring (write_byte 7) (λ k t. t) queue ≡ some p)
    × (p.slept < 200)
    × IsValid list_ring list_ring_laws p.state
unfolding queue_init
push_returns_example =
    push_returns list_ring list_ring_laws (write_byte 7) (λ k t. t) queue (write_byte-IsConfined 7)
      quiet (omega arith) queue-IsValid

abbrev one_wait : List (Wake list_ring)
one_wait = record { meanwhile = λ t. t; timed_out = true } ∷ []

pop_returns_example :
    (b : Bool) × (s' : PacketQueue list_ring) × (pop list_ring ignore one_wait queue ≡ some (b, s'))
    × IsValid list_ring list_ring_laws s'
pop_returns_example =
    pop_returns list_ring list_ring_laws ignore one_wait queue ((λ s v. v), inl refl) queue-IsValid

pub queue_first : FirstUnused queue.pb.packets 0
unfolding queue_init
queue_first = record {
  at = record { used = false; idx = 0; size = 0; max_size = 1313; buf = 0 };
  there = refl;
  unused = refl;
  before = λ k q lt e. absurd (omega arith);
}

pub queue_first_size : queue_first.at.max_size ≡ 1313
unfolding queue_first
queue_first_size = refl

events-grand_example :
    grand (events (statistic_init 0) (push_ok ∷ collected 5 ∷ push_ok ∷ []))
    ≡ worth_all (grand (statistic_init 0)) (push_ok ∷ collected 5 ∷ push_ok ∷ [])
events-grand_example = events-grand (statistic_init 0) (push_ok ∷ collected 5 ∷ push_ok ∷ [])

packet_size_bounds_example :
    (1313 < packet_size_of 1313) × (packet_size_of 1313 ≤ 1321) × (packet_size_of 1313 % 8 ≡ 0)
packet_size_bounds_example = packet_size_bounds 1313 (omega arith)
