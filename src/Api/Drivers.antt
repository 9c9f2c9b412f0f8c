-- ===== src/Api/Drivers.antt =====
-- httpapi/driver.go, driver_selection.go, driver_vehicles.go and driver_location.go: a Driver's
-- availability, vehicles, location and Trips.
use uber_clone.Common.{Option, none, some, ok}
use uber_clone.Common.Float.{Float}
use uber_clone.Common.Text.{codes}
use uber_clone.Store.{Location}
use uber_clone.Users.{driver}
use uber_clone.Http.{
  Response, Request, Handler, write_json, refusal, ◌>>=◌, answer, or_refuse, call, call_kept, read,
}
use uber_clone.Http.Access.{require_capability}
use uber_clone.Driver.Presence.{
  DriverError, profile_not_found, selection_invalid, selection_locked, location_required,
  trip_active, find_by_user_id, set_online, operating_state, select_operation,
}
use uber_clone.Driver.Location.{LocationError, invalid_location, driver_not_found, set_current}
use uber_clone.Driver.Vehicles.{list_vehicles}
use uber_clone.Views.DriverTrip.{DriverTripError, get_current, list_history, history_limit}
use uber_clone.Api.{Library}
use uber_clone.Api.Rendering.Views.{
  driver_response, operating_state_response, vehicles_response, driver_location_response,
  driver_current_trip_response, driver_trip_history_response,
}

abbrev pub invalid_selection : Response
invalid_selection =
    refusal 409 (codes "select an owned vehicle with at least one approved, available service")

abbrev pub locked_selection : Response
locked_selection =
    refusal 409 (codes "go offline and finish the active trip before changing selection")

unfoldable pub profile_error : DriverError → Response
profile_error profile_not_found = refusal 404 (codes "driver profile not found")
profile_error selection_invalid = refusal 500 (codes "unable to load driver")
profile_error selection_locked = refusal 500 (codes "unable to load driver")
profile_error location_required = refusal 500 (codes "unable to load driver")
profile_error trip_active = refusal 500 (codes "unable to load driver")

unfoldable pub availability_error : DriverError → Response
availability_error selection_invalid = invalid_selection
availability_error location_required =
    refusal 409 (codes "publish a fresh location before going online")
availability_error trip_active = refusal 409 (codes "an active trip prevents going online")
availability_error profile_not_found =
    refusal 409 (codes "driver onboarding is required before changing availability")
availability_error selection_locked = refusal 500 (codes "unable to update driver availability")

-- The errors of writeOperatingState.
unfoldable pub operating_state_error : DriverError → Response
operating_state_error profile_not_found = refusal 404 (codes "driver profile not found")
operating_state_error selection_invalid = invalid_selection
operating_state_error selection_locked = locked_selection
operating_state_error location_required =
    refusal 500 (codes "unable to load or save operating selection")
operating_state_error trip_active = refusal 500 (codes "unable to load or save operating selection")

unfoldable pub location_error : LocationError → Response
location_error invalid_location = refusal 400 (codes "latitude or longitude is out of range")
location_error driver_not_found =
    refusal 409 (codes "driver onboarding is required before updating location")

abbrev pub no_trip : DriverTripError → Response
no_trip e = refusal 404 (codes "active trip not found")

-- Both coordinates of the body.
abbrev pub both : Option (Option Float × Option Float) → Option Location
both (some (some latitude, some longitude)) =
    some (record { latitude = latitude; longitude = longitude })
both (some (some latitude, none)) = none
both (some (none, longitude)) = none
both none = none

module _ (lib : Library) where
  unfoldable pub set_driver_availability : Request → Handler Response
  set_driver_availability r = do
    u ← require_capability driver r
    online ← or_refuse (lib.availability_body r.body) (refusal 400 (codes "invalid request"))
    p ← call_kept (set_online r.clock r.later u.id online) availability_error
    answer (write_json 200 (driver_response p))

  unfoldable pub set_driver_selection : Request → Handler Response
  set_driver_selection r = do
    u ← require_capability driver r
    vehicle ←
        or_refuse (lib.vehicle_body r.body) (refusal 400 (codes "invalid operating selection"))
    s ← call_kept (select_operation r.clock r.later u.id vehicle) operating_state_error
    answer (write_json 200 (operating_state_response s))

  unfoldable pub set_driver_location : Request → Handler Response
  set_driver_location r = do
    u ← require_capability driver r
    place ←
        or_refuse (both (lib.location_body r.body))
          (refusal 400 (codes "latitude and longitude are required"))
    l ← call (set_current r.clock u.id place) location_error
    answer (write_json 200 (driver_location_response l))

  unfoldable pub list_driver_vehicles : Request → Handler Response
  list_driver_vehicles r = do
    u ← require_capability driver r
    l ← λ db. (ok (list_vehicles lib.collation u.id db), db)
    answer (write_json 200 (vehicles_response l))

unfoldable pub get_driver : Request → Handler Response
get_driver r = do
  u ← require_capability driver r
  p ← call_kept (find_by_user_id r.clock u.id) profile_error
  answer (write_json 200 (driver_response p))

unfoldable pub get_driver_selection : Request → Handler Response
get_driver_selection r = do
  u ← require_capability driver r
  s ← call_kept (operating_state r.clock u.id) operating_state_error
  answer (write_json 200 (operating_state_response s))

unfoldable pub get_driver_current_trip : Request → Handler Response
get_driver_current_trip r = do
  u ← require_capability driver r
  v ← read (get_current u.id) no_trip
  answer (write_json 200 (driver_current_trip_response v))

unfoldable pub list_driver_trip_history : Request → Handler Response
list_driver_trip_history r = do
  u ← require_capability driver r
  l ← λ db. (ok (list_history u.id history_limit db), db)
  answer (write_json 200 (driver_trip_history_response l))
