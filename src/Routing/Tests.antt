-- ===== src/Routing/Tests.antt =====
-- Tests of the checks around the route provider.
use Prim.Native.Nat.{max}
use uber_clone.Common.{ℕ, ◌*◌, ◌≡◌, refl, some, ok}
use uber_clone.Common.Int.{pos, ◌-ℤ◌}
use uber_clone.Common.Float.{finite, leb_float, degrees, minus_degrees}
use uber_clone.Common.Text.{codes, text_eq, trim_space, trim_left, trim_right, is_space}
use uber_clone.Store.{Policy, Location}
use uber_clone.Driver.Location.{valid_coordinate}
use uber_clone.Pricing.Calculate.{calculate, validate, draft_of, half_up_once}
use uber_clone.Pricing.Calculate.HalfUp.{IsHalfUp, route_fare, increment_of, fare_answer}
use uber_clone.Routing.{Endpoint, Route, Provider, preview}
use uber_clone.Routing.Priced.{preview-fare}
use uber_clone.Sample.{here}

abbrev there : Location
there = record { latitude = finite (pos 1); longitude = finite (pos 0) }

abbrev a_route : Route
a_route = record {
  distance_meters = pos 5250;
  duration_seconds = pos 600;
  encoded_polyline = codes "xy";
}

abbrev a_provider : Provider
a_provider now a b = ok (record a_route { encoded_polyline = codes " xy" })

abbrev from : Endpoint
from = record { point = here; place_id = codes " p" }

abbrev to : Endpoint
to = record { point = there; place_id = codes "q" }

routes : preview (some a_provider) 7 from to ≡ ok a_route
unfolding preview valid_coordinate leb_float degrees minus_degrees ◌-ℤ◌ trim_space trim_left
    trim_right is_space
routes = refl

abbrev a_policy : Policy
a_policy = record {
  id = 1;
  service_code = codes "car";
  currency = codes "PKR";
  version = pos 1;
  base_fare_minor = pos 10000;
  rate_minor_per_km = pos 5000;
  rate_minor_per_minute = pos 300;
  minimum_fare_minor = pos 15000;
  rounding_increment_minor = pos 500;
  calculation_rule = half_up_once;
  effective_from = 0;
  published_at = 0;
  published_by = codes "ops";
}

policy_valid : validate (draft_of a_policy) ≡ ok tt
unfolding validate text_eq
policy_valid = refl

preview-fare_example :
    (d : ℕ) × (s : ℕ) × (pos 5250 ≡ pos d)
    × (pos 600 ≡ pos s)
    × (units : ℕ) × IsHalfUp (route_fare a_policy d s) (increment_of a_policy * 3000) units
    × (calculate a_policy (pos 5250) (pos 600) ≡ fare_answer (max 15000 (units * 500)))
unfolding text_eq
preview-fare_example = preview-fare (some a_provider) 7 from to a_policy routes policy_valid refl
