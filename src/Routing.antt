-- ===== src/Routing.antt =====
-- routing/routing.go: a route is asked of a provider, which is a parameter, and checked.
pub mod Priced
pub mod Tests
use uber_clone.Common.{
  ℕ, Bool, true, false, ◌&&◌, ◌||◌, not, Option, none, some, Result, ok, err, ◌>>=◌, ◌>>◌, or_fail,
  fail_if,
}
use uber_clone.Common.Int.{ℤ, pos, ltb_ℤ}
use uber_clone.Common.Float.{equal_float, degrees, minus_degrees}
use uber_clone.Common.Text.{Text, trim_space, is_empty}
use uber_clone.Store.{Location}
use uber_clone.Driver.Location.{valid_coordinate}

pub data RouteError : Type 0 where
  no_provider invalid_input not_found provider_failed : RouteError

pub record Endpoint : Type 0 where
  pub point : Location
  pub place_id : Text

pub record Route : Type 0 where
  pub distance_meters : ℤ
  pub duration_seconds : ℤ
  pub encoded_polyline : Text

-- A provider answers a route or one of the errors. The number is the instant at which it is asked:
-- with other traffic it may answer another route between the same places.
abbrev pub Provider : Type 0
Provider = ℕ → Endpoint → Endpoint → Result RouteError Route

abbrev pub valid_point : Location → Bool
valid_point p =
    valid_coordinate p.latitude (minus_degrees 90) (degrees 90)
    && valid_coordinate p.longitude (minus_degrees 180) (degrees 180)

abbrev pub same_point : Location → Location → Bool
same_point p q = equal_float p.latitude q.latitude && equal_float p.longitude q.longitude

abbrev pub valid_route : Route → Bool
valid_route r =
    ltb_ℤ (pos 0) r.distance_meters
    && ltb_ℤ (pos 0) r.duration_seconds
    && not (is_empty (trim_space r.encoded_polyline))

abbrev pub trimmed : Endpoint → Endpoint
trimmed e = record e { place_id = trim_space e.place_id }

-- Service.Preview; `none` is the service without a provider.
unfoldable pub preview : Option Provider → ℕ → Endpoint → Endpoint → Result RouteError Route
preview provider now pickup destination = do
  ask ← or_fail provider no_provider
  let a = trimmed pickup
  let b = trimmed destination
  fail_if (not (valid_point a.point) || not (valid_point b.point) || same_point a.point b.point)
      invalid_input
  found ← ask now a b
  let route = record found { encoded_polyline = trim_space found.encoded_polyline }
  fail_if (not (valid_route route)) provider_failed
  ok route
