-- ===== src/Views/RiderLocation.antt =====
-- riderlocation/location.go and riderlocation/postgres_repository.go: a Rider follows the Driver.
use uber_clone.Common.{ℕ, Bool, ◌&&◌, ◌==◌, Result, ok, ◌>>=◌, or_fail}
use uber_clone.Common.Table.{find}
use uber_clone.Store.{Db, Trip, Location}
use uber_clone.Driver.Eligibility.{is_active_status}

pub data RiderLocationError : Type 0 where
  active_trip_not_found location_not_found : RiderLocationError

pub record LocationView : Type 0 where
  pub ride_request_id : ℕ
  pub place : Location
  pub updated_at : ℕ

abbrev pub is_followed : ℕ → ℕ → Trip → Bool
is_followed ride rider t =
    t.ride_request_id == ride && t.rider_user_id == rider && is_active_status t.status

unfoldable pub get_for_ride : ℕ → ℕ → Db → Result RiderLocationError LocationView
get_for_ride ride rider db = do
  t ← or_fail (find (is_followed ride rider) db.trips) active_trip_not_found
  l ← or_fail (find (λ l. l.driver_user_id == t.driver_user_id) db.locations) location_not_found
  ok (record { ride_request_id = t.ride_request_id; place = l.place; updated_at = l.updated_at })
