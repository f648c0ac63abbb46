-- ===== src/Device/Threads/Tests.antt =====
-- A read of a device that has nothing to read at first.
use tunator.Prelude.{◌≡◌, refl, inl, inr, true, false, List, [], ◌∷◌, some, pos}
use tunator.Device.Tests.{loop}
use tunator.Device.Threads.{Poll, Read, read_packet}
use tunator.Device.Threads.Reads.{IsRead, read_packet_lem}

-- There is something to read, and then the wait times out.
abbrev polls : List Poll
polls =
    record { would_block = true; selected = pos 1; is_set = true }
    ∷ record { would_block = true; selected = pos 0; is_set = false }
    ∷ []

read_packet_lem_example :
    (x : Read loop) × (read_packet loop 1500 polls [] ≡ some x) × IsRead loop 1500 polls [] x
read_packet_lem_example = read_packet_lem loop 1500 polls [] (inr (inl refl))
