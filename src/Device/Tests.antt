-- ===== src/Device/Tests.antt =====
-- Runs of the device over concrete libraries, and its theorems at concrete inputs.
use tunator.Prelude.{
  ℕ, ◌+◌, ◌-◌, ◌≤◌, ◌<◌, ◌≡◌, ◌≢◌, ◌↔◌, refl, ap, ◌⊎◌, inl, inr, Bool, true, false, Option, none,
  some, List, [], ◌∷◌, ◌++◌, map, arith, ltb, ℤ, pos, negsuc, length, take, drop, min,
  if◌then◌else◌, Bool-cases,
}
use tunator.Text.{Text, codes, text_eq}
use tunator.Text.Equal.{text_eq_iff}
use tunator.Packet.Queue.{queue_init}
use tunator.Packet.Tests.{list_ring, zeros}
use tunator.Route.Tests.{net, host, three, three_laws}
use tunator.Route.Linux.{command_all}
use tunator.Device.Driver.{Tun, tun_header_linux, tun_header_apple, no_header, tun_write, tun_read}
use tunator.Device.Driver.Frame.{
  TunWrites, TunReads, length-tun_header_linux, header-version, protocol, version,
  tun_write-tun_read,
}
use tunator.Device.Command.{SystemCmd, system_cmd, arg, env, dump}
use tunator.Device.Json.{JsonLibrary, JsonLaws, finished}
use tunator.Device.IfAddrs.{RouteVia, IfAddrs, if_addrs_init, as_json, from_json}
use tunator.Device.Setup.{as_commands_linux, as_commands_apple}
use tunator.Device.IfAddrs.RoundTrip.{from_json-as_json}
use tunator.Device.Setup.Commands.{
  as_ip_route, addr_line, link_line, map-dump-as_commands_linux, length-as_commands,
}
use tunator.Device.Life.{TunDevice, Answers, joined, start, stop, tun_device_init, set_recv_thread}
use tunator.Device.Life.Restart.{failed_start, stop-start-stop}

-- A device that hands its frames back.
abbrev loop_writev : List Text → List Text → ℤ × List Text
loop_writev s (a ∷ b ∷ []) = (pos (length a + length b), s ++ (a ++ b) ∷ [])
loop_writev s _ = (negsuc 0, s)

abbrev loop_readv : List Text → List ℕ → (ℤ × List Text) × List Text
loop_readv (f ∷ fs) (n ∷ m ∷ []) =
    ((pos (n + min m (length f - n)), take n f ∷ take m (drop n f) ∷ []), fs)
loop_readv s _ = ((negsuc 0, []), s)

abbrev pub loop : Tun
loop = record { State = List Text; writev = loop_writev; readv = loop_readv }

-- A device with the frames that the system has taken and those that wait to be read.
abbrev system_writev : List Text × List Text → List Text → ℤ × (List Text × List Text)
system_writev s (a ∷ b ∷ []) = (pos (length a + length b), (s.0 ++ (a ++ b) ∷ [], s.1))
system_writev s _ = (negsuc 0, s)

abbrev system_readv : List Text × List Text → List ℕ → (ℤ × List Text) × (List Text × List Text)
system_readv s sizes = let (got, rest) = loop_readv s.1 sizes in (got, (s.0, rest))

abbrev pub system : Tun
system = record { State = List Text × List Text; writev = system_writev; readv = system_readv }

abbrev pub system_writes : TunWrites system
system_writes = record {
  limit = λ s. 1504;
  written = λ s. s.0;
  writev_all = λ s a b h. ((s.0 ++ (a ++ b) ∷ [], s.1), refl, refl);
}

pub system_first :
    (s : List Text × List Text) (f : Text) (fs : List Text) (n m : ℕ)
    → s.1 ≡ f ∷ fs
    → n ≤ length f
    → (t : List Text × List Text) × (system_readv s (n ∷ m ∷ [])
        ≡ ((pos (n + min m (length f - n)), take n f ∷ take m (drop n f) ∷ []), t))
      × (t.1 ≡ fs)
system_first s f fs n m e h = ((s.0, fs), rw e refl, refl)

abbrev pub system_reads : TunReads system
system_reads = record { pending = λ s. s.1; readv_first = system_first }

abbrev pub datagram : Text
datagram = 69 ∷ 0 ∷ 0 ∷ 20 ∷ []

header-version_example :
    ((protocol (tun_header_linux no_header datagram) ≡ 2048) ↔ (version datagram ≡ some 4))
    × ((protocol (tun_header_linux no_header datagram) ≡ 34525) ↔ (version datagram ≡ some 6))
    × ((protocol (tun_header_apple no_header datagram) ≡ 2) ↔ (version datagram ≡ some 4))
    × ((protocol (tun_header_apple no_header datagram) ≡ 30) ↔ (version datagram ≡ some 6))
header-version_example =
    header-version datagram (omega arith, (omega arith, (omega arith, (omega arith, tt))))

-- What the system puts in front of a packet.
abbrev system_header : Text
system_header = 0 ∷ 1 ∷ 8 ∷ 0 ∷ []

tun_write-tun_read_example :
    (s' u' : List Text × List Text) × (tun_write system tun_header_linux ([], []) datagram
      ≡ (pos 4, s'))
    × (s'.0 ≡ (tun_header_linux no_header datagram ++ datagram) ∷ [])
    × (tun_read system ([], (system_header ++ datagram) ∷ datagram ∷ []) 1500
        ≡ ((pos 4, datagram), u'))
    × (u'.1 ≡ datagram ∷ [])
tun_write-tun_read_example =
    tun_write-tun_read system system_writes system_reads tun_header_linux length-tun_header_linux
      ([], []) ([], (system_header ++ datagram) ∷ datagram ∷ []) system_header datagram
      (datagram ∷ []) 1500 (omega arith) (omega arith) (omega arith) refl refl

abbrev listing : SystemCmd
listing = arg (codes "-l") (env (codes "LANG") (codes "C") (system_cmd (codes "/bin/ls")))

listing_text : dump listing ≡ codes "LANG=C /bin/ls -l"
unfolding dump arg env system_cmd
listing_text = refl

abbrev pub via_host : RouteVia three
via_host = record { dest = net; via = host }

pub data Json : Type 0 where
  empty : Json
  text : Text → Json
  num : ℕ → Json
  truth : Bool → Json
  finish : Json
  element : Json → Json → Json
  with : Text → Json → Json → Json

abbrev json_array : List Json → Json
json_array [] = finish
json_array (v ∷ vs) = element v (json_array vs)

abbrev json_items : Json → List Json
json_items (element v vs) = v ∷ json_items vs
json_items _ = []

abbrev json_member : Text → Json → Option Json
json_member k empty = some empty
json_member k (with l x v) = if text_eq k l then some x else json_member k v
json_member k _ = none

abbrev json_has : Text → Json → Bool
json_has k (with l x v) = if text_eq k l then true else json_has k v
json_has k _ = false

abbrev json_text : Json → Option Text
json_text (text t) = some t
json_text _ = none

abbrev json_int : Json → Option ℤ
json_int (num n) = if ltb n 2147483648 then some (pos n) else none
json_int _ = none

abbrev json_uint64 : Json → Option ℕ
json_uint64 (num n) = some n
json_uint64 _ = none

abbrev json_bool : Json → Option Bool
json_bool (truth b) = some b
json_bool _ = none

abbrev pub json : JsonLibrary
json = record {
  Value = Json;
  null = empty;
  string = text;
  number = num;
  bool = truth;
  array = json_array;
  member = json_member;
  is_member = json_has;
  set_member = with;
  items = json_items;
  as_string = json_text;
  as_int = json_int;
  as_uint64 = json_uint64;
  as_bool = json_bool;
}

pub text_eq_same : (k : Text) → text_eq k k ≡ true
text_eq_same k = (text_eq_iff k k).1 refl

pub text_eq_ne : (k l : Text) → k ≢ l → text_eq k l ≡ false
text_eq_ne k l h = elim (Bool-cases (text_eq k l)) [
  | inl e ↦ absurd (h ((text_eq_iff k l).0 e))
  | inr e ↦ e
]

pub json_items-array : (vs : List Json) → json_items (json_array vs) ≡ vs
json_items-array [] = refl
json_items-array (v ∷ vs) = ap (λ l. v ∷ l) (json_items-array vs)

pub json_int-num : (n : ℕ) → n < 2147483648 → json_int (num n) ≡ some (pos n)
json_int-num n h = ground arith

abbrev pub json_laws : JsonLaws json
json_laws = record {
  IsObject = λ v. Unit;
  null-IsObject = tt;
  set-IsObject = λ k x v o. tt;
  member_same = λ k x v o. rw (text_eq_same k) refl;
  member_other = λ k l x v o h. rw (text_eq_ne k l h) refl;
  is_member_same = λ k x v o. rw (text_eq_same k) refl;
  is_member_other = λ k l x v o h. rw (text_eq_ne k l h) refl;
  items-array = json_items-array;
  as_string-string = λ t. refl;
  as_int-number = json_int-num;
  as_uint64-number = λ n h. refl;
  as_bool-bool = λ b. refl;
}

abbrev pub addresses : IfAddrs three
addresses = record { mtu = 1360; dests = host ∷ []; addrs = net ∷ []; routes = via_host ∷ [] }

from_json-as_json_example :
    from_json three json (as_json three json addresses empty) (if_addrs_init three)
    ≡ finished true addresses
unfolding if_addrs_init
from_json-as_json_example =
    from_json-as_json three three_laws json json_laws addresses (if_addrs_init three) (omega arith)
      (refl, tt)

map-dump-as_commands_linux_example :
    map dump (as_commands_linux three (codes "tun0") addresses)
    ≡ map (addr_line three (codes "tun0")) (net ∷ [])
      ++ (command_all three (map (as_ip_route three (codes "tun0")) (via_host ∷ [])) (codes "add")
          ++ link_line three (codes "tun0") 1360 ∷ [])
map-dump-as_commands_linux_example =
    map-dump-as_commands_linux three (codes "tun0") addresses ((unfold text_eq in refl), tt)

linux_texts :
    map dump (as_commands_linux three (codes "DEV") addresses)
    ≡ codes "/sbin/ip addr add 169.254.12.0/24 dev DEV"
      ∷ codes "/sbin/ip route add 169.254.12.0/24 via 169.254.12.1 dev DEV"
      ∷ codes "/sbin/ip link set dev DEV mtu 1360 up"
      ∷ []
unfolding as_commands_linux dump
linux_texts = refl

length-as_commands_example :
    (length (as_commands_linux three (codes "tun0") addresses) ≡ 3)
    × (length (as_commands_apple three (codes "tun0") addresses) ≡ 3)
length-as_commands_example = length-as_commands three (codes "tun0") addresses

abbrev pub fresh : TunDevice three list_ring
fresh = tun_device_init three list_ring zeros 0 addresses 1500 3

-- The name is found, but not the flags.
abbrev pub half : Answers
half = record { tun_alloc = some (7, codes "tun0"); get_flags = false; set_flags = false }

failed_start_example :
    (start three list_ring (as_commands_linux three) half fresh
      ≡ record { result = false; terminated = false; commands = []; device = fresh })
    ⊎ (((start three list_ring (as_commands_linux three) half fresh).device.running ≡ true)
        × ((later : Answers)
            → (start three list_ring
                (as_commands_linux three)
                later
                (start three list_ring (as_commands_linux three) half fresh).device).result
              ≡ false))
unfolding start tun_device_init queue_init
failed_start_example = failed_start three list_ring (as_commands_linux three) half fresh refl

abbrev served : TunDevice three list_ring
served = set_recv_thread three list_ring fresh

abbrev stopped : TunDevice three list_ring
stopped = record served { running = false; recv_thread = joined }

stop-start-stop_example :
    ((start three list_ring (as_commands_linux three) half stopped).terminated ≡ false)
    × (stop three list_ring (start three list_ring (as_commands_linux three) half stopped).device
        ≡ none)
unfolding stop set_recv_thread tun_device_init
stop-start-stop_example =
    stop-start-stop three list_ring (as_commands_linux three) half served stopped [] refl (λ e. cc)
