-- ===== src/Device/Report/Tests.antt =====
-- The JSON of a device at concrete inputs.
use tunator.Prelude.{◌≡◌, refl, true, [], ◌∷◌, ◌++◌, arith, ◌<◌, u64, ◌also◌}
use tunator.Text.{codes, to_decimal}
use tunator.Route.Tests.{three, three_laws}
use tunator.Packet.Tests.{list_ring, zeros}
use tunator.Packet.Statistic.{data_init}
use tunator.Packet.Queue.{queue_init}
use tunator.Device.Json.{finished}
use tunator.Device.Life.{TunDevice, tun_device_init, tun_device_default}
use tunator.Device.Tests.{json, json_laws, fresh}
use tunator.Device.Report.{
  Clocks, MessageRef, counter_line, device_as_json, device_from_json, message_as_json,
  message_from_json,
}
use tunator.Device.Report.Counters.{IsWords}
use tunator.Device.Report.RoundTrip.{after_reading, message-device}
use tunator.Device.Report.Queues.{ReportsTwice, device-ReportsTwice}

abbrev clocks : Clocks
clocks = record { local_time = codes "noon"; from_tun = (5, 6); to_tun = (7, 8) }

abbrev stat_res : MessageRef (TunDevice three list_ring)
stat_res = record { action = codes "stat-res"; data_ref = fresh }

abbrev reader : MessageRef (TunDevice three list_ring)
reader = record { action = []; data_ref = tun_device_default three list_ring zeros 0 }

message-device_example :
    message_from_json json
      (device_from_json json three list_ring)
      (message_as_json json (device_as_json json three list_ring clocks) stat_res json.null).0
      reader
    ≡ finished true (record {
      action = codes "stat-res";
      data_ref = after_reading json json_laws three three_laws list_ring fresh reader.data_ref;
    })
unfolding tun_device_init
message-device_example =
    message-device json json_laws three three_laws list_ring clocks stat_res reader (omega arith)
      (refl, tt)

data_init-IsWords : IsWords data_init
data_init-IsWords =
    let p : 0 < u64 = omega arith in
    p also p also p also p also p also p also p also p also p also p also p also p also tt

device-ReportsTwice_example :
    ReportsTwice json json_laws
      (codes "fromTun")
      (device_as_json json three list_ring clocks fresh json.null).0
      fresh.from_tun.ps
    × ReportsTwice json json_laws
        (codes "toTun")
        (device_as_json json three list_ring clocks fresh json.null).0
        fresh.to_tun.ps
unfolding tun_device_init queue_init
device-ReportsTwice_example =
    device-ReportsTwice json json_laws three list_ring clocks fresh data_init-IsWords
      data_init-IsWords

one_line : counter_line (codes "pushOk") 12 3 ≡ codes "pushOk total=12:current=3" ++ 10 ∷ []
unfolding to_decimal
one_line = refl
