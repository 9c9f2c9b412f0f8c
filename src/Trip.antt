-- ===== src/Trip.antt =====
-- Trip execution (backend/internal/trip): a Driver starts and completes an assigned Trip and
-- confirms that the cash was collected. Each call is one transaction over the trips table.
-- The `unknown trip status` branches are absent: trips_status_check allows the four statuses only.
pub mod Lifecycle
pub mod Calls
pub mod Tests
pub mod Validity
use uber_clone.Common.{
  ℕ, Bool, true, false, ◌&&◌, ◌||◌, not, Option, none, some, List, ◌==◌, is_some, Result, ok, err,
  ◌>>=◌, ◌>>◌, or_fail, fail_if, if◌then◌else◌,
}
use uber_clone.Common.Table.{find, update_where}
use uber_clone.Common.Text.{Text, codes}
use uber_clone.Store.{Db, Trip, TripStatus, Settlement, SettlementStatus, Clock}

pub data TripError : Type 0 where
  trip_not_found not_started not_completed already_completed already_cancelled : TripError
  missing_completed_at missing_confirmation no_rows : TripError

-- WHERE ride_request_id = $1 AND driver_user_id = $2
abbrev pub is_trip_of : ℕ → ℕ → Trip → Bool
is_trip_of ride driver t = (t.ride_request_id == ride) && (t.driver_user_id == driver)

abbrev pub method_cash : Text
method_cash = codes "cash"

unfoldable pub select_trip : ℕ → ℕ → Db → Result TripError Trip
select_trip ride driver db = or_fail (find (is_trip_of ride driver) db.trips) trip_not_found

-- UPDATE trips SET … WHERE ride_request_id = $1 AND driver_user_id = $2 RETURNING …
unfoldable pub update_trip : (Trip → Trip) → ℕ → ℕ → Db → Result TripError (Trip × Db)
update_trip f ride driver db = do
  let trips' = update_where (is_trip_of ride driver) f db.trips
  result ← or_fail (find (is_trip_of ride driver) trips') no_rows
  ok (result, record db { trips = trips' })

abbrev pub set_started : Clock → Trip → Trip
set_started c t = record t { status = TripStatus.in_progress; started_at = some c.started }

abbrev pub set_completed : Clock → Trip → Trip
set_completed c t = record t { status = TripStatus.completed; completed_at = some c.started }

abbrev pub set_collected : Clock → Trip → Trip
set_collected c t = record t {
  settlement = record {
    status = SettlementStatus.cash_collected;
    method = some method_cash;
    cash_collected_at = some c.started;
  };
  cash_collected_by = some t.driver_user_id;
}

start_by : TripStatus → Clock → ℕ → ℕ → Trip → Db → Result TripError (Trip × Db)
unfolding update_trip
start_by TripStatus.assigned c ride driver t db = update_trip (set_started c) ride driver db
start_by TripStatus.in_progress c ride driver t db = ok (t, db)
start_by TripStatus.completed c ride driver t db = err already_completed
start_by TripStatus.cancelled c ride driver t db = err already_cancelled

unfoldable pub start : Clock → ℕ → ℕ → Db → Result TripError (Trip × Db)
unfolding select_trip start_by
start c ride driver db = do t ← select_trip ride driver db; start_by t.status c ride driver t db

complete_by : TripStatus → Clock → ℕ → ℕ → Trip → Db → Result TripError (Trip × Db)
unfolding update_trip
complete_by TripStatus.assigned c ride driver t db = err not_started
complete_by TripStatus.in_progress c ride driver t db = update_trip (set_completed c) ride driver db
complete_by TripStatus.completed c ride driver t db = ok (t, db)
complete_by TripStatus.cancelled c ride driver t db = err already_cancelled

unfoldable pub complete : Clock → ℕ → ℕ → Db → Result TripError (Trip × Db)
unfolding select_trip complete_by
complete c ride driver db = do
  t ← select_trip ride driver db
  (result, db') ← complete_by t.status c ride driver t db
  fail_if (not (is_some result.completed_at)) missing_completed_at
  ok (result, db')

abbrev pub is_collected : SettlementStatus → Bool
is_collected SettlementStatus.cash_collected = true
is_collected SettlementStatus.unsettled = false

confirm_by : TripStatus → Clock → ℕ → ℕ → Trip → Db → Result TripError (Trip × Db)
unfolding update_trip
confirm_by TripStatus.assigned c ride driver t db = err not_completed
confirm_by TripStatus.in_progress c ride driver t db = err not_completed
confirm_by TripStatus.completed c ride driver t db =
    if is_collected t.settlement.status
    then ok (t, db)
    else update_trip (set_collected c) ride driver db
confirm_by TripStatus.cancelled c ride driver t db = err already_cancelled

abbrev lacks_confirmation : Settlement → Bool
lacks_confirmation s =
    not (is_collected s.status) || not (is_some s.method) || not (is_some s.cash_collected_at)

unfoldable pub confirm_cash_collected : Clock → ℕ → ℕ → Db → Result TripError (Trip × Db)
unfolding select_trip confirm_by
confirm_cash_collected c ride driver db = do
  t ← select_trip ride driver db
  (result, db') ← confirm_by t.status c ride driver t db
  fail_if (lacks_confirmation result.settlement) missing_confirmation
  ok (result, db')
