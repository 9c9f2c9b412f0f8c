-- ===== src/Driver/Location.antt =====
-- The current location of a Driver (backend/internal/driverlocation): SetCurrent and UpsertCurrent,
-- one transaction whose statements are numbered from 0.
pub mod Current
use uber_clone.Common.{
  ℕ, Bool, true, false, ◌&&◌, ◌||◌, not, Option, none, some, List, [], ◌∷◌, ◌++◌, ◌==◌, Result, ok,
  err, ◌>>=◌, ◌>>◌, or_fail, fail_if, if◌then◌else◌,
}
use uber_clone.Common.Float.{
  Float, nan, pos_inf, neg_inf, finite, degrees, minus_degrees, leb_float,
}
use uber_clone.Common.Table.{find, exists, update_where}
use uber_clone.Store.{Db, Profile, Location, DriverLocation, Clock}
use uber_clone.Driver.Presence.{has_fresh}

pub data LocationError : Type 0 where
  invalid_location driver_not_found : LocationError

abbrev pub is_finite : Float → Bool
is_finite (finite v) = true
is_finite _ = false

unfoldable pub valid_coordinate : Float → Float → Float → Bool
valid_coordinate value lo hi = is_finite value && leb_float lo value && leb_float value hi

abbrev pub valid_place : Location → Bool
valid_place p =
    valid_coordinate p.latitude (minus_degrees 90) (degrees 90)
    && valid_coordinate p.longitude (minus_degrees 180) (degrees 180)

-- The UPDATE leaves the column updated_at.
abbrev pub drop_offline : Profile → Profile
drop_offline p = record p { is_online = false }

abbrev pub is_lapsed : ℕ → ℕ → List DriverLocation → Profile → Bool
is_lapsed now driver locations p =
    (p.user_id == driver) && p.is_online && not (has_fresh now p.user_id locations)

-- INSERT … ON CONFLICT (driver_user_id) DO UPDATE
unfoldable pub upsert_location : DriverLocation → List DriverLocation → List DriverLocation
upsert_location l locations =
    if exists (λ x. x.driver_user_id == l.driver_user_id) locations
    then update_where (λ x. x.driver_user_id == l.driver_user_id)
        (λ x. record x { place = l.place; updated_at = l.updated_at }) locations
    else locations ++ l ∷ []

-- The row of the heartbeat, at NOW().
abbrev pub heartbeat : Clock → ℕ → Location → DriverLocation
heartbeat c driver place = record { driver_user_id = driver; place = place; updated_at = c.started }

unfoldable pub upsert_current :
    Clock → ℕ → Location → Db → Result LocationError (DriverLocation × Db)
upsert_current c driver place db = do
  p ← or_fail (find (λ p. p.user_id == driver) db.profiles) driver_not_found
  let l = heartbeat c driver place
  ok (
    l,
    record db {
      profiles = update_where (is_lapsed (c.at 1) driver db.locations) drop_offline db.profiles;
      locations = upsert_location l db.locations;
    },
  )

unfoldable pub set_current : Clock → ℕ → Location → Db → Result LocationError (DriverLocation × Db)
set_current c driver place db = do
  fail_if (not (valid_place place)) invalid_location
  upsert_current c driver place db
