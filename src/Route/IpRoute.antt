-- ===== src/Route/IpRoute.antt =====
-- iproute.hpp.
use tunator.Prelude.{ℕ, Option, none}
use tunator.Text.{Text}
use tunator.Route.Library.{IpLibrary}

pub record IpRoute (ip : IpLibrary) : Type 0 where
  pub dest : ip.Address
  pub via : Option ip.Address
  pub dev : Option Text
  pub proto : Option Text
  pub scope : Option Text
  pub src : Option ip.Address
  pub metric : Option ℕ

-- The default constructor.
abbrev pub blank_route : (ip : IpLibrary) → IpRoute ip
blank_route ip = record {
  dest = ip.blank;
  via = none;
  dev = none;
  proto = none;
  scope = none;
  src = none;
  metric = none;
}
