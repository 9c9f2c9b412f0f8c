-- ===== src/Pricing/Tests.antt =====
-- Tests of the fare calculation and of amounts in rupees.
use Prim.Native.Nat.{max}
use uber_clone.Common.{ℕ, ◌*◌, ◌≡◌, refl, arith, ok}
use uber_clone.Common.Int.{pos, ◌≤ℤ◌, ◌+ℤ◌, ◌*ℤ◌, quot, rem}
use uber_clone.Common.Text.{codes, text_eq}
use uber_clone.Store.{Policy}
use uber_clone.Pricing.Calculate.{
  draft_of, validate, calculate, half_up_once, max_amount_minor, raw_fare, round_units,
  bounded_fare,
}
use uber_clone.Pricing.Calculate.HalfUp.{
  IsHalfUp, route_fare, increment_of, fare_answer, calculate-IsHalfUp,
}
use uber_clone.Pricing.Calculate.Monotone.{calculate_mono}
use uber_clone.Pricing.Amount.{parse_pkr, format_pkr}
use uber_clone.Pricing.Amount.RoundTrip.{parse_pkr-format_pkr}

abbrev a_policy : Policy
a_policy = record {
  id = 1;
  service_code = codes "car";
  currency = codes "PKR";
  version = pos 1;
  base_fare_minor = pos 10000;
  rate_minor_per_km = pos 5000;
  rate_minor_per_minute = pos 300;
  minimum_fare_minor = pos 15000;
  rounding_increment_minor = pos 500;
  calculation_rule = half_up_once;
  effective_from = 0;
  published_at = 0;
  published_by = codes "ops";
}

validates : validate (draft_of a_policy) ≡ ok tt
unfolding validate text_eq
validates = refl

calculate-IsHalfUp_example :
    (units : ℕ) × IsHalfUp (route_fare a_policy 5250 600) (increment_of a_policy * 3000) units
    × (calculate a_policy (pos 5250) (pos 600) ≡ fare_answer (max 15000 (units * 500)))
unfolding text_eq
calculate-IsHalfUp_example =
    calculate-IsHalfUp a_policy 5250 600 validates refl (omega arith) (omega arith)

short : calculate a_policy (pos 5250) (pos 600) ≡ ok (pos 39500)
unfolding calculate validate text_eq raw_fare round_units bounded_fare ◌+ℤ◌ ◌*ℤ◌ quot rem
short = refl

long : calculate a_policy (pos 9000) (pos 900) ≡ ok (pos 59500)
unfolding calculate validate text_eq raw_fare round_units bounded_fare ◌+ℤ◌ ◌*ℤ◌ quot rem
long = refl

calculate_mono_example :
    (pos 15000 ≤ℤ pos 39500) × (pos 39500 ≤ℤ pos 59500) × (pos 59500 ≤ℤ pos max_amount_minor)
calculate_mono_example =
    calculate_mono a_policy 5250 9000 600 900 (omega arith) (omega arith) short long

parse_pkr-format_pkr_example : parse_pkr (format_pkr 123405) ≡ ok 123405
parse_pkr-format_pkr_example = parse_pkr-format_pkr 123405 (omega arith)

prints : format_pkr 123405 ≡ codes "1234.05"
unfolding format_pkr
prints = refl
