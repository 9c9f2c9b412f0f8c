-- ===== src/Views/DriverTrip.antt =====
-- drivertrip/current.go and drivertrip/postgres_repository.go: a Driver's current Trip and history.
use uber_clone.Common.{
  ℕ, Bool, true, false, ◌&&◌, ◌||◌, Option, none, some, List, [], ◌∷◌, ◌==◌, take, ltb, Result,
  or_fail,
}
use uber_clone.Common.Table.{find, select}
use uber_clone.Common.Order.{sort_by}
use uber_clone.Store.{
  Db, Ride, Trip, TripStatus, Settlement, SettlementStatus, OperationContext, Location,
}
use uber_clone.Marketplace.Expiry.{is_ride}
use uber_clone.Driver.Eligibility.{is_active_status}

pub data DriverTripError : Type 0 where
  no_active_trip : DriverTripError

pub record DriverView : Type 0 where
  pub operation_context : Option OperationContext
  pub ride_request_id : ℕ
  pub pickup : Location
  pub destination : Location
  pub status : TripStatus
  pub assigned_at : ℕ
  pub started_at : Option ℕ
  pub completed_at : Option ℕ
  pub cancelled_at : Option ℕ
  pub settlement : Settlement

abbrev pub is_unsettled : SettlementStatus → Bool
is_unsettled SettlementStatus.unsettled = true
is_unsettled SettlementStatus.cash_collected = false

abbrev pub is_completed : TripStatus → Bool
is_completed TripStatus.completed = true
is_completed _ = false

-- status IN ('completed', 'cancelled')
abbrev pub is_ended : TripStatus → Bool
is_ended TripStatus.completed = true
is_ended TripStatus.cancelled = true
is_ended _ = false

abbrev pub is_current_of : ℕ → Trip → Bool
is_current_of driver t =
    t.driver_user_id == driver
    && (is_active_status t.status || is_completed t.status && is_unsettled t.settlement.status)

abbrev pub is_ended_of : ℕ → Trip → Bool
is_ended_of driver t = t.driver_user_id == driver && is_ended t.status

-- ORDER BY assigned_at DESC, ride_request_id DESC
abbrev pub is_recent : Trip → Trip → Bool
is_recent a b =
    ltb b.assigned_at a.assigned_at
    || a.assigned_at == b.assigned_at && ltb b.ride_request_id a.ride_request_id

-- A Trip joined with its ride.
abbrev pub driver_view : Trip → Ride → DriverView
driver_view t r = record {
  operation_context = t.operation_context;
  ride_request_id = t.ride_request_id;
  pickup = r.pickup;
  destination = r.destination;
  status = t.status;
  assigned_at = t.assigned_at;
  started_at = t.started_at;
  completed_at = t.completed_at;
  cancelled_at = t.cancelled_at;
  settlement = t.settlement;
}

-- GetCurrent does not read the times of completion and cancellation.
abbrev pub current_view : Trip → Ride → DriverView
current_view t r = record (driver_view t r) { completed_at = none; cancelled_at = none }

unfoldable pub joined_trips : (Trip → Ride → DriverView) → Db → List Trip → List DriverView
joined_trips view db [] = []
joined_trips view db (t ∷ ts) =
    let rest = joined_trips view db ts in
    elim (find (is_ride t.ride_request_id) db.rides) [ none ↦ rest | some r ↦ view t r ∷ rest ]

abbrev pub first_view : List DriverView → Option DriverView
first_view [] = none
first_view (v ∷ vs) = some v

-- The Trips are sorted before they are joined; the JOIN keeps their order.
unfoldable pub get_current : ℕ → Db → Result DriverTripError DriverView
get_current driver db =
    or_fail
      (first_view
        (joined_trips current_view db (sort_by is_recent (select (is_current_of driver) db.trips))))
      no_active_trip

unfoldable pub list_history : ℕ → ℕ → Db → List DriverView
list_history driver limit db =
    take limit
      (joined_trips driver_view db (sort_by is_recent (select (is_ended_of driver) db.trips)))

-- historyLimit, which Service.ListHistory passes on.
abbrev pub history_limit : ℕ
history_limit = 50
