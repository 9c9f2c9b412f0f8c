-- ===== src/Pricing/Calculate.antt =====
-- pricing.go and calculate.go. The calculation uses math/big, so its integers are unbounded.
pub mod HalfUp
pub mod Monotone
use uber_clone.Common.{
  ℕ, Bool, true, false, ◌||◌, not, List, [], ◌∷◌, Result, ok, err, ◌>>=◌, ◌>>◌, fail_if,
  if◌then◌else◌,
}
use uber_clone.Common.Int.{ℤ, pos, ◌+ℤ◌, ◌*ℤ◌, quot, rem, ltb_ℤ, leb_ℤ}
use uber_clone.Common.Text.{Text, codes, text_eq, is_empty}
use uber_clone.Store.{Policy}

pub data PricingError : Type 0 where
  invalid_policy invalid_route fare_out_of_range unavailable policy_changed invalid_service :
      PricingError

abbrev pub max_amount_minor : ℕ
max_amount_minor = 1000000000000

abbrev pub half_up_once : Text
half_up_once = codes "half_up_once_v1"

abbrev pub pkr : Text
pkr = codes "PKR"

pub record Draft : Type 0 where
  pub service_code : Text
  pub currency : Text
  pub base_fare_minor : ℤ
  pub rate_minor_per_km : ℤ
  pub rate_minor_per_minute : ℤ
  pub minimum_fare_minor : ℤ
  pub rounding_increment_minor : ℤ

-- Policy.Draft
abbrev pub draft_of : Policy → Draft
draft_of p = record {
  service_code = p.service_code;
  currency = p.currency;
  base_fare_minor = p.base_fare_minor;
  rate_minor_per_km = p.rate_minor_per_km;
  rate_minor_per_minute = p.rate_minor_per_minute;
  minimum_fare_minor = p.minimum_fare_minor;
  rounding_increment_minor = p.rounding_increment_minor;
}

-- The loop over the amounts.
check_amounts : List ℤ → Result PricingError (Unit {0})
check_amounts [] = ok tt
check_amounts (v ∷ vs) =
    let rest = check_amounts vs in
    if ltb_ℤ v (pos 0) || ltb_ℤ (pos max_amount_minor) v then err invalid_policy else rest

unfoldable pub validate : Draft → Result PricingError (Unit {0})
unfolding check_amounts
validate d = do
  fail_if
      (is_empty d.service_code
        || not (text_eq d.currency pkr)
        || leb_ℤ d.minimum_fare_minor (pos 0)
        || leb_ℤ d.rounding_increment_minor (pos 0))
      invalid_policy
  check_amounts (
      d.base_fare_minor ∷ d.rate_minor_per_km ∷ d.rate_minor_per_minute ∷ d.minimum_fare_minor
      ∷ d.rounding_increment_minor ∷ [])

-- raw, over the common denominator 3000
unfoldable pub raw_fare : ℤ → ℤ → ℤ → ℤ → ℤ → ℤ
raw_fare base per_km per_minute distance duration =
    base *ℤ pos 3000 +ℤ per_km *ℤ distance *ℤ pos 3 +ℤ per_minute *ℤ duration *ℤ pos 50

-- The fare in whole increments, half an increment up.
unfoldable pub round_units : ℤ → ℤ → ℤ
round_units raw denominator =
    let units = quot raw denominator in
    if leb_ℤ denominator (rem raw denominator *ℤ pos 2) then units +ℤ pos 1 else units

unfoldable pub bounded_fare : ℤ → ℤ → Result PricingError ℤ
bounded_fare minimum rounded = do
  let fare = if ltb_ℤ rounded minimum then minimum else rounded
  fail_if (ltb_ℤ (pos max_amount_minor) fare) fare_out_of_range
  ok fare

unfoldable pub calculate : Policy → ℤ → ℤ → Result PricingError ℤ
calculate p distance duration = do
  validate (draft_of p)
  fail_if (not (text_eq p.calculation_rule half_up_once)) invalid_policy
  fail_if (leb_ℤ distance (pos 0) || leb_ℤ duration (pos 0)) invalid_route
  let raw = raw_fare p.base_fare_minor p.rate_minor_per_km p.rate_minor_per_minute distance duration
  let denominator = p.rounding_increment_minor *ℤ pos 3000
  bounded_fare p.minimum_fare_minor (round_units raw denominator *ℤ p.rounding_increment_minor)
