-- ===== src/Server.antt =====
-- tuna_server.hpp and ws_packet.hpp: the messages of a web socket, and which part handles one. Whole
-- messages are in Messages, on the devices of Sessions.
pub mod Queued
pub mod Paths
pub mod Names
pub mod Devices
pub mod Sessions
pub mod Messages
pub mod World
mod Tests
use tunator.Prelude.{
  ℕ, zero, suc, ◌+◌, ◌-◌, ◌*◌, ◌%◌, Bool, true, false, ◌==◌, List, [], ◌∷◌, Option, none, some, ℤ,
  pos, min, ltb, u64, length, take, drop, if◌then◌else◌,
}
use tunator.Text.{Text, codes, text_eq}
use tunator.Packet.Buffer.{Packet, Memory, store_at}
use tunator.Packet.Ring.{Ring}
use tunator.Packet.Queue.{PacketAction, PacketQueue, Pushed, push}

-- `rest` is what the message's buffer has not handed out.
pub record WsPacket : Type 0 where
  pub rest : Text
  pub header : Text
  pub header_len : ℕ
  pub packet_len : ℕ

-- A `std::string` from an array that ends at the first zero byte.
abbrev pub from_c_string : Text → Text
from_c_string [] = []
from_c_string (zero ∷ cs) = []
from_c_string (suc c ∷ cs) = suc c ∷ from_c_string cs

-- `getHeader`, with the rest of the message.
unfoldable pub get_header : Text → ℕ → Text × Text
get_header message header_len =
    if ltb (length message) header_len
    then ([], message)
    else (from_c_string (take header_len message), drop header_len message)

-- The constructor: the difference of the sizes wraps. The header of `from` has 4 bytes.
unfoldable pub from : Text → WsPacket
unfolding get_header
from message = record {
  rest = (get_header message 4).1;
  header = (get_header message 4).0;
  header_len = 4;
  packet_len = (length message + (u64 - 4)) % u64;
}

unfoldable pub copy_out : WsPacket → ℕ → ℕ → Memory → ℤ × Memory
unfolding store_at
copy_out w dst len_dst m =
    let plen = min len_dst w.packet_len in (pos plen, store_at m dst (take plen w.rest))

-- The action of `processPacket`.
unfoldable pub copy_action : WsPacket → PacketAction
unfolding copy_out
copy_action w p m = copy_out w p.buf p.max_size m

-- `processPacket` on the queue `toTun`.
unfoldable pub process_packet :
    (r : Ring) → (ℕ → PacketQueue r → PacketQueue r) → WsPacket → PacketQueue r → Option (Pushed r)
unfolding push copy_action
process_packet r during w s = push r (copy_action w) during s

-- A `char` added to an `unsigned long long`: one above 127 is negative.
abbrev pub char_value : ℕ → ℕ
char_value c = if ltb c 128 then c else u64 - (256 - c)

-- `HashStringToInt`, which stops at the first zero byte or behind the last.
unfoldable pub hash_string_to_int : Text → ℕ
hash_string_to_int [] = 0
hash_string_to_int (c ∷ cs) =
    let rest = hash_string_to_int cs in if c == 0 then 0 else (101 * rest + char_value c) % u64

-- The cases of `processJson`.
pub data Action : Type 0 where
  init_action pong_action unknown_action : Action

unfoldable pub select_action : Text → Action
unfolding hash_string_to_int
select_action name =
    if hash_string_to_int name == hash_string_to_int (codes "init")
    then init_action
    else if hash_string_to_int name == hash_string_to_int (codes "pong")
    then pong_action
    else unknown_action

-- The branches of `onmessage`.
pub data Dispatch : Type 0 where
  to_json to_packet not_found ignored : Dispatch

-- `known` tells whether the connection has a device.
unfoldable pub on_message : Bool → WsPacket → Dispatch
unfolding text_eq
on_message known w =
    if text_eq (codes "JSON") w.header
    then to_json
    else if known
    then (if text_eq (codes "PAKT") w.header then to_packet else ignored)
    else not_found
