-- ===== src/Server/World/Tests.antt =====
-- A server with one connection, and the rounds of its device's threads.
use tunator.Prelude.{
  ℕ, inl, ◌+◌, ◌≤◌, ◌≡◌, refl, true, false, List, [], ◌∷◌, ◌++◌, Option, none, some, pos, arith,
  length, drop, length-take, ◌also◌,
}
use tunator.Text.{Text, codes, text_eq}
use tunator.Route.Tests.{three}
use tunator.Packet.Buffer.{packet_size_of, read_bytes}
use tunator.Packet.Tests.{list_ring, list_ring_laws}
use tunator.Device.Driver.{tun_header_linux, block_at}
use tunator.Device.Json.Fields.{fields}
use tunator.Device.IfAddrs.{as_json, from_json, if_addrs_init}
use tunator.Device.Report.{Clocks}
use tunator.Device.Life.{TunDevice, start, tun_device_init}
use tunator.Packet.Queue.{queue_init, try_pop}
use tunator.Device.Setup.{as_commands_linux}
use tunator.Device.Tests.{loop, datagram, json, addresses}
use tunator.Server.{from, get_header, select_action}
use tunator.Server.Sessions.{sessions_init}
use tunator.Server.Sessions.Sound.{sessions_init-IsSound}
use tunator.Server.Sessions.Tests.{meets, settings, init-IsReadable}
use tunator.Server.Messages.Tests.{reader}
use tunator.Server.Messages.Init.{init_fields}
use tunator.Server.World.{
  World, Happening, receives, closes, reads, writes, reports, sends, happen_all,
}
use tunator.Server.World.Queues.{ReadLaws}
use tunator.Server.World.Healthy.{IsReadable, not_json, named, IsHealthy, happen_all-IsHealthy}

loop_stores : (s : List Text) (n : ℕ) → length (block_at (loop.readv s (4 ∷ n ∷ [])).0.1 1) ≤ n
loop_stores [] n = omega arith
loop_stores (f ∷ fs) n = ground (arith, length-take n (drop 4 f))

loop_counts : (s : List Text) (n k : ℕ) → (loop.readv s (4 ∷ n ∷ [])).0.0 ≡ pos k → k ≤ 4 + n
loop_counts [] n k e = ground arith
loop_counts (f ∷ fs) n k e = ground arith

loop_read_laws : ReadLaws loop
loop_read_laws = record { stores = loop_stores; counts = loop_counts }

abbrev clocks : Clocks
clocks = record { local_time = codes "one"; from_tun = (9, 10); to_tun = (11, 12) }

-- A packet arrives for the device, which hands it back.
abbrev happenings : List (Happening list_ring)
happenings =
    receives (λ k t. t) meets (codes "JSON{init}") 1
    ∷ receives (λ k t. t) meets (codes "PAKT" ++ datagram) 1
    ∷ writes 0
    ∷ reads (record { would_block = false; selected = pos 0; is_set = false } ∷ []) 0
    ∷ sends 0 1
    ∷ reports clocks 1 0
    ∷ closes 1
    ∷ []

abbrev world : World three list_ring json loop
world = record { sessions = sessions_init three list_ring json; tuns = λ d. []; packets = [] }

rest_init : (from (codes "JSON{init}")).rest ≡ codes "{init}"
unfolding from get_header
rest_init = refl

init_text-IsReadable : IsReadable three json reader (from (codes "JSON{init}")).rest
unfolding from get_header text_eq select_action
init_text-IsReadable =
    named (fields json (init_fields json (as_json three json addresses json.null)) json.null)
      (json.string (codes "init")) (codes "init") refl refl refl
      (as_json three json addresses json.null, refl, true, addresses, init-IsReadable)

packet-IsReadable : IsReadable three json reader (from (codes "PAKT" ++ datagram)).rest
unfolding from get_header text_eq
packet-IsReadable = not_json refl

no_devices : (d : ℕ) (dev : TunDevice three list_ring) → world.sessions.devices d ≡ some dev → ⊥
unfolding sessions_init
no_devices d dev e = cc

happen_all-IsHealthy_example :
    (w' : World three list_ring json loop) × (happen_all three list_ring json loop tun_header_linux
        (as_commands_linux three)
        settings
        reader
        happenings
        world
      ≡ some w')
    × IsHealthy three list_ring json list_ring_laws 1500 loop w'
happen_all-IsHealthy_example =
    happen_all-IsHealthy three list_ring json list_ring_laws (as_commands_linux three) settings
      (omega arith) (unfold packet_size_of in omega arith) reader loop loop_read_laws
      tun_header_linux happenings world
      ((λ k t h. h, init_text-IsReadable)
        also (λ k t h. h, packet-IsReadable)
        also tt
        also inl refl
        also tt
        also tt
        also tt
        also tt)
      (sessions_init-IsSound three list_ring json, λ d dev e. absurd (no_devices d dev e))

abbrev packets_of : Option (World three list_ring json loop) → List (ℕ × Text)
packets_of none = []
packets_of (some w) = w.packets

-- The packet came back to its connection.
happened :
    packets_of (
      happen_all three list_ring json loop tun_header_linux
        (as_commands_linux three)
        settings
        reader
        happenings
        world)
    ≡ (1, codes "PAKT" ++ datagram) ∷ []
unfolding happen_all text_eq select_action from_json start tun_device_init queue_init as_json
    if_addrs_init sessions_init try_pop tun_header_linux read_bytes
happened = refl
