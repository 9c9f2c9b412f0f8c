-- ===== src/Store/Policies.antt =====
-- The rows of the pricing policies.
use uber_clone.Common.{ℕ, Option}
use uber_clone.Common.Int.{ℤ}
use uber_clone.Common.Text.{Text}

-- ride_pricing_policy_versions
pub record Policy : Type 0 where
  pub id : ℕ
  pub service_code : Text
  pub currency : Text
  pub version : ℤ
  pub base_fare_minor : ℤ
  pub rate_minor_per_km : ℤ
  pub rate_minor_per_minute : ℤ
  pub minimum_fare_minor : ℤ
  pub rounding_increment_minor : ℤ
  pub calculation_rule : Text
  pub effective_from : ℕ
  pub published_at : ℕ
  pub published_by : Text

-- ride_pricing_policy_current, without updated_at, which is not read
pub record CurrentPolicy : Type 0 where
  pub service_code : Text
  pub currency : Text
  pub current_policy_id : Option ℕ
  pub updated_by : Text

-- ride_request_pricing_snapshots
pub record PricingSnapshot : Type 0 where
  pub ride_request_id : ℕ
  pub policy_id : ℕ
  pub version : ℤ
  pub service_code : Text
  pub currency : Text
  pub base_fare_minor : ℤ
  pub rate_minor_per_km : ℤ
  pub rate_minor_per_minute : ℤ
  pub minimum_fare_minor : ℤ
  pub rounding_increment_minor : ℤ
  pub calculation_rule : Text
  pub snapshot_at : ℕ
