-- ===== src/Device/Report.antt =====
-- packet_statistic.hpp, tun_device.hpp and message.hpp: statistics, devices and messages as JSON.
pub mod Counters
pub mod RoundTrip
pub mod Queues
mod Tests
use tunator.Prelude.{ℕ, Bool, true, false, List, [], ◌∷◌, ◌++◌, Option, none, some, add64}
use tunator.Text.{Text, codes, to_decimal}
use tunator.Route.Library.{IpLibrary}
use tunator.Packet.Ring.{Ring}
use tunator.Packet.Statistic.{Data, PacketStatistic, report_twice}
use tunator.Device.Json.{JsonLibrary, Reading, finished, raised, ◌then_read◌, get}
use tunator.Device.IfAddrs.{IfAddrs, as_json, from_json}
use tunator.Device.Life.{TunDevice}

-- `s2 << name << " total=" << total << ":current=" << current << std::endl`
abbrev pub counter_line : Text → ℕ → ℕ → Text
counter_line name total current =
    name
    ++ (codes " total="
        ++ (to_decimal total ++ (codes ":current=" ++ (to_decimal current ++ 10 ∷ []))))

unfoldable pub as_string : PacketStatistic → Text
as_string s =
    let t = s.total in
    let c = s.current in
    counter_line (codes "allocFailed") t.alloc_failed c.alloc_failed
    ++ counter_line (codes "allocOk") t.alloc_ok c.alloc_ok
    ++ counter_line (codes "pushActionFailed") t.push_action_failed c.push_action_failed
    ++ counter_line (codes "popActionFailed") t.pop_action_failed c.pop_action_failed
    ++ counter_line (codes "pushPacketSize") t.push_packet_size c.push_packet_size
    ++ counter_line (codes "pushTimeout") t.push_timeout c.push_timeout
    ++ counter_line (codes "popTimeout") t.pop_timeout c.pop_timeout
    ++ counter_line (codes "popPacketSize") t.pop_packet_size c.pop_packet_size
    ++ counter_line (codes "pushOk") t.push_ok c.push_ok
    ++ counter_line (codes "popOk") t.pop_ok c.pop_ok
    ++ counter_line (codes "popEmpty") t.pop_empty c.pop_empty
    ++ counter_line (codes "pushFailed") t.push_failed c.push_failed

-- A message: `data` is a reference.
pub record MessageRef {ℓ} (T : Type ℓ) : Type ℓ where
  pub action : Text
  pub data_ref : T

-- What the clocks show while a device is reported: the local time as text, and for each queue the time
-- of `getStatistic` and of `collect`.
pub record Clocks : Type 0 where
  pub local_time : Text
  pub from_tun : ℕ × ℕ
  pub to_tun : ℕ × ℕ

module _ (json : JsonLibrary) where
  -- `val[key] = x`, the next after `v`.
  infixl 5 ◌set◌
  abbrev pub ◌set◌ : json.Value → Text × json.Value → json.Value
  v set (k, x) = json.set_member k x v

  abbrev pub count : Text → ℕ → Text × json.Value
  count k n = (k, json.number n)

  unfoldable pub data_as_json : Data → json.Value → json.Value
  data_as_json d v =
      v
      set count (codes "allocFailed") d.alloc_failed
      set count (codes "allocOk") d.alloc_ok
      set count (codes "pushActionFailed") d.push_action_failed
      set count (codes "popActionFailed") d.pop_action_failed
      set count (codes "pushTimeout") d.push_timeout
      set count (codes "popTimeout") d.pop_timeout
      set count (codes "pushPacketSize") d.push_packet_size
      set count (codes "popPacketSize") d.pop_packet_size
      set count (codes "pushOk") d.push_ok
      set count (codes "popOk") d.pop_ok
      set count (codes "popEmpty") d.pop_empty
      set count (codes "pushFailed") d.push_failed

  -- `val[key] = Json::Value()`, and then a write to `val[key]`.
  infixl 5 ◌set_new◌
  abbrev pub ◌set_new◌ : json.Value → Text × (json.Value → json.Value) → json.Value
  v set_new (k, write) = v set (k, json.null) set (k, write json.null)

  unfoldable pub statistic_as_json : PacketStatistic → json.Value → json.Value
  statistic_as_json s v =
      v
      set_new (codes "total", data_as_json s.total)
      set_new (codes "current", data_as_json s.current)

  -- A member that is read as an `A`, which then is stored; a failed conversion is an exception.
  abbrev pub stored {ℓ κ} :
      {A : Type ℓ} {B : Type κ} → Option json.Value → (json.Value → Option A) → (A → B) → Reading B
  stored none convert store = raised
  stored (some x) convert store = elim (convert x) [
    | none ↦ raised
    | some a ↦ finished true (store a)
  ]

  -- A call of `T::fromJson` on a member, whose result is not looked at.
  abbrev pub ignoring_result {ℓ κ} :
      {A : Type ℓ} {B : Type κ} → Option json.Value → (json.Value → Reading A) → (A → B) → Reading B
  ignoring_result none read store = raised
  ignoring_result (some x) read store = elim (read x) [
    | raised ↦ raised
    | finished b a ↦ finished true (store a)
  ]

  module _ {T : Type 0} where
    -- `MessageRef::asJson`: the write of the data may change it.
    unfoldable pub message_as_json :
        (T → json.Value → json.Value × T) → MessageRef T → json.Value → json.Value × MessageRef T
    message_as_json write msg v =
        let (js_data, d) = write msg.data_ref json.null in
        (
          v set (codes "action", json.string msg.action) set (codes "data", js_data),
          record msg { data_ref = d },
        )

    -- `MessageRef::fromJson`
    unfoldable pub message_from_json :
        (json.Value → T → Reading T) → json.Value → MessageRef T → Reading (MessageRef T)
    message_from_json read v msg =
        stored (get json (codes "action") (json.string []) v) json.as_string
          (λ t. record msg { action = t })
        then_read (λ m.
            ignoring_result (json.member (codes "data") v) (λ x. read x m.data_ref)
              (λ d. record m { data_ref = d }))

  module _ (ip : IpLibrary) (r : Ring) where
    -- `TunDevice::asJson`; it counts `seq` and collects both statistics.
    unfoldable pub device_as_json :
        Clocks → TunDevice ip r → json.Value → json.Value × TunDevice ip r
    unfolding report_twice
    device_as_json clocks s v =
        let seq = add64 s.seq 1 in
        let (from_report, from_ps) =
          report_twice clocks.from_tun.0 clocks.from_tun.1 s.from_tun.ps in
        let (to_report, to_ps) = report_twice clocks.to_tun.0 clocks.to_tun.1 s.to_tun.ps in
        (
          v
              set (codes "type", json.string (codes "TunDevice"))
              set (codes "seq", json.number seq)
              set (codes "timeHere", json.string clocks.local_time)
              set (codes "running", json.bool s.running)
              set (codes "tunDevName", json.string s.tun_dev_name)
              set_new (codes "ifAddrs", as_json ip json s.if_addrs)
              set_new (codes "fromTun", statistic_as_json from_report)
              set_new (codes "toTun", statistic_as_json to_report),
          record s {
            seq = seq;
            from_tun = record (s.from_tun) { ps = from_ps };
            to_tun = record (s.to_tun) { ps = to_ps };
          },
        )

    -- `TunDevice::fromJson`
    unfoldable pub device_from_json : json.Value → TunDevice ip r → Reading (TunDevice ip r)
    device_from_json v tun =
        stored (get json (codes "seq") (json.number tun.seq) v) json.as_uint64
          (λ n. record tun { seq = n })
        then_read (λ t.
            stored (get json (codes "running") (json.bool t.running) v) json.as_bool
              (λ b. record t { running = b }))
        then_read (λ t.
            stored (get json (codes "tunDevName") (json.string t.tun_dev_name) v) json.as_string
              (λ name. record t { tun_dev_name = name }))
        then_read (λ t.
            ignoring_result (json.member (codes "ifAddrs") v) (λ x. from_json ip json x t.if_addrs)
              (λ a. record t { if_addrs = a }))
