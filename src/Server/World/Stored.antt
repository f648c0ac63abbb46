-- ===== src/Server/World/Stored.antt =====
-- Stored: what holds of all devices after one of them is stored.
use tunator.Prelude.{ℕ, ◌≡◌, sym, ap, subst, ◌∙◌, Option, some, All-imp, ℕ_discrete}
use tunator.Route.Library.{IpLibrary}
use tunator.Packet.Ring.{Ring, RingLaws}
use tunator.Device.Json.{JsonLibrary}
use tunator.Device.Life.{TunDevice}
use tunator.Server.Sessions.{Sessions, store_device}
use tunator.Server.Sessions.Sound.{
  IsJoinable, IsHeld, IsSound, store_device_same, store_device_other,
}
use tunator.Server.World.Queues.{Healthy}

module _ (ip : IpLibrary) (r : Ring) (json : JsonLibrary) where
  -- A device's threads have a new state of it, and can still be joined.
  pub store-IsSound :
      (s : Sessions ip r json) (d : ℕ) (dev dev' : TunDevice ip r)
      → s.devices d ≡ some dev
      → (IsJoinable ip r json dev → IsJoinable ip r json dev')
      → IsSound ip r json s
      → IsSound ip r json (record s { devices = store_device d dev' s.devices })
  store-IsSound s d dev dev' at joins v = record {
    held =
        All-imp (IsHeld ip r json s)
          (IsHeld ip r json (record s { devices = store_device d dev' s.devices })) s.tun_devices
          keep v.held;
    distinct = v.distinct;
  }
    where
      keep :
          (entry : ℕ × ℕ)
          → IsHeld ip r json s entry
          → IsHeld ip r json (record s { devices = store_device d dev' s.devices }) entry
      keep entry (old, tun, there, can) = elim (ℕ_discrete entry.1 d) [
        | yes e ↦ (
          old,
          dev',
          ap (store_device d dev' s.devices) e ∙ store_device_same ip r json d dev' s.devices,
          (let same : tun ≡ dev = cc (there, at, e) in
              joins (subst (IsJoinable ip r json) same can)),
        )
        | no ne ↦ (old, tun, store_device_other ip r json d entry.1 dev' s.devices ne ∙ there, can)
      ]

  module _ (laws : RingLaws r) (mtu : ℕ) where
    -- Both queues of a device.
    abbrev pub BothHealthy : TunDevice ip r → Type 0
    BothHealthy dev = Healthy r laws mtu dev.from_tun × Healthy r laws mtu dev.to_tun

    abbrev pub AllHealthy : (ℕ → Option (TunDevice ip r)) → Type 0
    AllHealthy devices = (d : ℕ) (dev : TunDevice ip r) → devices d ≡ some dev → BothHealthy dev

    pub store-AllHealthy :
        (devices : ℕ → Option (TunDevice ip r)) (d : ℕ) (dev : TunDevice ip r)
        → BothHealthy dev
        → AllHealthy devices
        → AllHealthy (store_device d dev devices)
    store-AllHealthy devices d dev good h e dev' at = elim (ℕ_discrete e d) [
      | yes same ↦
          let stored : dev ≡ dev' =
            cc (
              at,
              ap (store_device d dev devices) same,
              store_device_same ip r json d dev devices,
            ) in
          subst BothHealthy stored good
      | no ne ↦ h e dev' (sym (store_device_other ip r json d e dev devices ne) ∙ at)
    ]
