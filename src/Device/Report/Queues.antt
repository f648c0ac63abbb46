-- ===== src/Device/Report/Queues.antt =====
-- Queues: the statistics of the two queues in a device's JSON.
use tunator.Prelude.{ℕ, ◌≡◌, refl, List, [], ◌∷◌, some, All-imp}
use tunator.Text.{Text, codes, text_eq}
use tunator.Route.Library.{IpLibrary}
use tunator.Packet.Ring.{Ring}
use tunator.Packet.Statistic.{Data, PacketStatistic, add_data, collect, report_twice}
use tunator.Device.Json.{JsonLibrary, JsonLaws}
use tunator.Device.Json.Fields.{fields, lookup}
use tunator.Device.Life.{TunDevice}
use tunator.Device.Report.{Clocks, statistic_as_json, device_as_json}
use tunator.Device.Report.Counters.{
  IsWords, add_data-IsWords, ReadsAs, statistic_as_json-ReadsAs, count_at-under, counters, count_at,
}
use tunator.Device.Report.RoundTrip.{device_fields}

module _ (json : JsonLibrary) (jl : JsonLaws json) where
  -- The statistic is read under the queue's name: the current period's counters, and as totals the
  -- totals with the current period added twice.
  abbrev pub ReportsTwice : Text → json.Value → PacketStatistic → Type 0
  ReportsTwice name v s =
      ReadsAs json (λ k. name ∷ codes "total" ∷ k ∷ []) v
        (add_data (add_data s.total s.current) s.current)
      × ReadsAs json (λ k. name ∷ codes "current" ∷ k ∷ []) v s.current

  reads_below :
      (name part : Text) (x : json.Value) (fs : List (Text × json.Value)) (d : Data)
      → lookup json name fs ≡ some x
      → ReadsAs json (λ k. part ∷ k ∷ []) x d
      → ReadsAs json (λ k. name ∷ part ∷ k ∷ []) (fields json fs json.null) d
  reads_below name part x fs d e h =
      All-imp (λ f. count_at json (part ∷ f.0 ∷ []) x ≡ some (f.1 d))
        (λ f. count_at json (name ∷ part ∷ f.0 ∷ []) (fields json fs json.null) ≡ some (f.1 d))
        counters (λ f k. count_at-under json jl name (part ∷ f.0 ∷ []) x fs (f.1 d) e k) h

  reports_twice :
      (name : Text) (now later : ℕ) (s : PacketStatistic) (fs : List (Text × json.Value))
      → IsWords s.current
      → lookup json name fs ≡ some (statistic_as_json json (report_twice now later s).0 json.null)
      → ReportsTwice name (fields json fs json.null) s
  unfolding report_twice collect
  reports_twice name now later s fs c e =
      let ret = (report_twice now later s).0 in
      let (t, k) =
        statistic_as_json-ReadsAs json jl ret
          (add_data-IsWords (add_data s.total s.current) s.current) c in
      let x = statistic_as_json json ret json.null in
      (
        reads_below name (codes "total") x fs ret.total e t,
        reads_below name (codes "current") x fs s.current e k,
      )

  module _ (ip : IpLibrary) (r : Ring) where
    -- Of a device whose current counters are 64-bit words, TunDevice::asJson to a new value writes for each
    -- queue, under each counter's name, the current period's count, and as its total what was counted
    -- before with the current period added twice.
    pub device-ReportsTwice :
        (clocks : Clocks) (s : TunDevice ip r)
        → IsWords s.from_tun.ps.current
        → IsWords s.to_tun.ps.current
        → ReportsTwice
            (codes "fromTun")
            (device_as_json json ip r clocks s json.null).0
            s.from_tun.ps
          × ReportsTwice (codes "toTun") (device_as_json json ip r clocks s json.null).0 s.to_tun.ps
    unfolding device_as_json
    device-ReportsTwice clocks s f t =
        let fs = device_fields json ip r clocks s in
        (
          reports_twice (codes "fromTun") clocks.from_tun.0 clocks.from_tun.1 s.from_tun.ps fs f
              (unfold lookup text_eq in refl),
          reports_twice (codes "toTun") clocks.to_tun.0 clocks.to_tun.1 s.to_tun.ps fs t
              (unfold lookup text_eq in refl),
        )
