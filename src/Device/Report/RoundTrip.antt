-- ===== src/Device/Report/RoundTrip.antt =====
-- RoundTrip: what a device or a message writes as JSON is read back.
use tunator.Prelude.{◌<◌, ◌≡◌, refl, Bool, true, List, [], ◌∷◌, ◌++◌, some, All, u64, add64, arith}
use tunator.Text.{Text, codes, text_eq}
use tunator.Route.Library.{IpLibrary, IpLaws}
use tunator.Packet.Ring.{Ring}
use tunator.Packet.Statistic.{report_twice}
use tunator.Device.Json.{JsonLibrary, JsonLaws, Reading, finished, get}
use tunator.Device.Json.Fields.{fields, lookup, member-fields}
use tunator.Device.IfAddrs.{as_json}
use tunator.Device.IfAddrs.RoundTrip.{IsHostVia, from_json-as_json}
use tunator.Device.Life.{TunDevice}
use tunator.Device.Report.{
  Clocks, MessageRef, statistic_as_json, device_as_json, device_from_json, message_as_json,
  message_from_json, stored, ignoring_result,
}

module _ (json : JsonLibrary) (ip : IpLibrary) (r : Ring) where
  -- What `TunDevice::asJson` writes, the last first.
  abbrev pub device_fields : Clocks → TunDevice ip r → List (Text × json.Value)
  device_fields clocks s =
      let from_report = (report_twice clocks.from_tun.0 clocks.from_tun.1 s.from_tun.ps).0 in
      let to_report = (report_twice clocks.to_tun.0 clocks.to_tun.1 s.to_tun.ps).0 in
      (codes "toTun", statistic_as_json json to_report json.null)
      ∷ (codes "toTun", json.null)
      ∷ (codes "fromTun", statistic_as_json json from_report json.null)
      ∷ (codes "fromTun", json.null)
      ∷ (codes "ifAddrs", as_json ip json s.if_addrs json.null)
      ∷ (codes "ifAddrs", json.null)
      ∷ (codes "tunDevName", json.string s.tun_dev_name)
      ∷ (codes "running", json.bool s.running)
      ∷ (codes "timeHere", json.string clocks.local_time)
      ∷ (codes "seq", json.number (add64 s.seq 1))
      ∷ (codes "type", json.string (codes "TunDevice"))
      ∷ []

module _ (json : JsonLibrary) (jl : JsonLaws json) where
  get-fields :
      (k : Text) (x y : json.Value) (fs : List (Text × json.Value))
      → lookup json k fs ≡ some x
      → get json k y (fields json fs json.null) ≡ some x
  get-fields k x y fs e =
      let (m, is) = member-fields json jl k x fs json.null jl.null-IsObject e in rw (is, m) refl

  -- MessageRef::fromJson reads the action of the message that MessageRef::asJson wrote to a new value,
  -- and, for data that are read back as written, the data.
  pub message_from_json-as_json :
      {T : Type 0} (write : T → json.Value → json.Value × T) (read : json.Value → T → Reading T)
      (b : Bool) (y : T) (m n : MessageRef T)
      → read (write m.data_ref json.null).0 n.data_ref ≡ finished b y
      → message_from_json json read (message_as_json json write m json.null).0 n
        ≡ finished true (record { action = m.action; data_ref = y })
  unfolding message_from_json message_as_json
  message_from_json-as_json write read b y m n e =
      let js_data = (write m.data_ref json.null).0 in
      let fs : List (Text × json.Value) =
        (codes "data", js_data) ∷ (codes "action", json.string m.action) ∷ [] in
      rw
        (
          get-fields (codes "action") (json.string m.action) (json.string []) fs
              (unfold lookup text_eq in refl),
          jl.as_string-string m.action,
          stored,
          (member-fields json jl (codes "data") js_data fs json.null jl.null-IsObject
              (unfold lookup text_eq in refl)).0,
          e,
          ignoring_result,
        )
        refl

  module _ (ip : IpLibrary) (laws : IpLaws ip) (r : Ring) where
    -- The device `t` after it read what `s` wrote.
    abbrev pub after_reading : TunDevice ip r → TunDevice ip r → TunDevice ip r
    after_reading s t = record t {
      seq = add64 s.seq 1;
      running = s.running;
      tun_dev_name = s.tun_dev_name;
      if_addrs = record {
        mtu = s.if_addrs.mtu;
        dests = t.if_addrs.dests ++ s.if_addrs.dests;
        addrs = t.if_addrs.addrs ++ s.if_addrs.addrs;
        routes = t.if_addrs.routes ++ s.if_addrs.routes;
      };
    }

    -- Of a device whose interface mtu fits in an `int` and whose routes have gateways with the prefix of a
    -- single host, TunDevice::fromJson reads back what TunDevice::asJson writes to a new value: the next
    -- number of the sequence, whether it runs, its name and its mtu replace those of the reading device,
    -- and its destinations, addresses and routes are added behind those that were there.
    pub device_from_json-as_json :
        (clocks : Clocks) (s t : TunDevice ip r)
        → s.if_addrs.mtu < 2147483648
        → All (IsHostVia ip) s.if_addrs.routes
        → device_from_json json ip r (device_as_json json ip r clocks s json.null).0 t
          ≡ finished true (after_reading s t)
    unfolding device_from_json device_as_json
    device_from_json-as_json clocks s t small hosts =
        let fs = device_fields json ip r clocks s in
        let gets =
          λ (k : Text) (x y : json.Value) (e : lookup json k fs ≡ some x). get-fields k x y fs e in
        let seq : add64 s.seq 1 < u64 = omega arith in
        let addrs = as_json ip json s.if_addrs json.null in
        rw
          (
            gets (codes "seq") (json.number (add64 s.seq 1)) (json.number t.seq)
                (unfold lookup text_eq in refl),
            jl.as_uint64-number (add64 s.seq 1) seq,
            stored,
            gets (codes "running") (json.bool s.running) (json.bool t.running)
                (unfold lookup text_eq in refl),
            jl.as_bool-bool s.running,
            stored,
            gets (codes "tunDevName") (json.string s.tun_dev_name) (json.string t.tun_dev_name)
                (unfold lookup text_eq in refl),
            jl.as_string-string s.tun_dev_name,
            stored,
            (member-fields json jl (codes "ifAddrs") addrs fs json.null jl.null-IsObject
                (unfold lookup text_eq in refl)).0,
            from_json-as_json ip laws json jl s.if_addrs t.if_addrs small hosts,
            ignoring_result,
          )
          refl

    -- A message with such a device is read back with its action and that device.
    pub message-device :
        (clocks : Clocks) (m n : MessageRef (TunDevice ip r))
        → m.data_ref.if_addrs.mtu < 2147483648
        → All (IsHostVia ip) m.data_ref.if_addrs.routes
        → message_from_json json
            (device_from_json json ip r)
            (message_as_json json (device_as_json json ip r clocks) m json.null).0
            n
          ≡ finished true
              (record { action = m.action; data_ref = after_reading m.data_ref n.data_ref })
    message-device clocks m n small hosts =
        message_from_json-as_json (device_as_json json ip r clocks) (device_from_json json ip r)
          true (after_reading m.data_ref n.data_ref) m n
          (device_from_json-as_json clocks m.data_ref n.data_ref small hosts)
