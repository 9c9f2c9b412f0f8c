-- ===== src/Cancellation.antt =====
-- Cancellation of a ride by its Rider or by the assigned Driver (backend/internal/cancellation). One
-- transaction each. The branches for unknown statuses are absent: ride_requests_status_check and
-- trips_status_check allow the modelled statuses only.
pub mod Effects
pub mod Calls
pub mod Repeat
pub mod Tests
use mathlib.Core.Option
use uber_clone.Common.{
  ℕ, Bool, true, false, ◌&&◌, ◌||◌, not, Option, none, some, List, ◌==◌, is_some, coalesce, Result,
  ok, err, ◌>>=◌, ◌>>◌, or_fail, fail_if, if◌then◌else◌,
}
use uber_clone.Common.Table.{find, update_where}
use uber_clone.Store.{
  Db, Ride, RideStatus, CancellationActor, Trip, TripStatus, Settlement, SettlementStatus, Offer,
  OfferStatus, OperationContext, Opportunity, OpportunityStatus, Clock,
}
use uber_clone.Marketplace.Expiry.{expire, is_pending, is_live, is_ride}

pub data CancellationError : Type 0 where
  not_found trip_completed ride_expired : CancellationError
  missing_metadata trip_not_cancelled trip_cancelled_before no_rows : CancellationError

-- The columns of a Trip that this package scans. It leaves the settlement at its zero value.
pub record LockedTrip : Type 0 where
  pub ride_request_id : ℕ
  pub rider_user_id : ℕ
  pub driver_user_id : ℕ
  pub status : TripStatus
  pub assigned_at : ℕ
  pub started_at : Option ℕ
  pub completed_at : Option ℕ
  pub cancelled_at : Option ℕ
  pub operation_context : Option OperationContext

-- type Result
pub record Cancellation : Type 0 where
  pub ride_request_id : ℕ
  pub status : RideStatus
  pub cancelled_by : CancellationActor
  pub cancelled_at : ℕ
  pub trip : Option LockedTrip

pub record LockedRide : Type 0 where
  pub status : RideStatus
  pub cancelled_by : Option CancellationActor
  pub cancelled_at : Option ℕ

abbrev pub is_ride_for : ℕ → Option ℕ → Ride → Bool
is_ride_for ride none r = is_ride ride r
is_ride_for ride (some rider) r = is_ride ride r && (r.rider_user_id == rider)

unfoldable pub lock_ride : ℕ → Option ℕ → Db → Result CancellationError LockedRide
lock_ride ride rider db = do
  r ← or_fail (find (is_ride_for ride rider) db.rides) not_found
  ok (record { status = r.status; cancelled_by = r.cancelled_by; cancelled_at = r.cancelled_at })

abbrev pub is_trip_for : ℕ → Option ℕ → Trip → Bool
is_trip_for ride none t = t.ride_request_id == ride
is_trip_for ride (some driver) t = (t.ride_request_id == ride) && (t.driver_user_id == driver)

abbrev pub scan_trip : Trip → LockedTrip
scan_trip t = record {
  ride_request_id = t.ride_request_id;
  rider_user_id = t.rider_user_id;
  driver_user_id = t.driver_user_id;
  status = t.status;
  assigned_at = t.assigned_at;
  started_at = t.started_at;
  completed_at = t.completed_at;
  cancelled_at = t.cancelled_at;
  operation_context = t.operation_context;
}

unfoldable pub lock_trip : ℕ → Option ℕ → Db → Option LockedTrip
lock_trip ride driver db = Option.map scan_trip (find (is_trip_for ride driver) db.trips)

abbrev pub lacks_cancellation : TripStatus → Option ℕ → Bool
lacks_cancellation TripStatus.cancelled at = not (is_some at)
lacks_cancellation s at = true

existing_trip : Option LockedTrip → Result CancellationError (Unit {0})
existing_trip none = ok tt
existing_trip (some t) = fail_if (lacks_cancellation t.status t.cancelled_at) trip_not_cancelled

unfoldable pub existing_result :
    ℕ → LockedRide → Option LockedTrip → Result CancellationError Cancellation
unfolding existing_trip
existing_result ride state trip = do
  by ← or_fail state.cancelled_by missing_metadata
  at ← or_fail state.cancelled_at missing_metadata
  existing_trip trip
  ok (record {
    ride_request_id = ride;
    status = RideStatus.cancelled;
    cancelled_by = by;
    cancelled_at = at;
    trip = trip;
  })

abbrev pub set_ride_cancelled : CancellationActor → ℕ → Ride → Ride
set_ride_cancelled actor at r = record r {
  status = RideStatus.cancelled;
  cancelled_by = some actor;
  cancelled_at = some at;
}

abbrev pub set_trip_cancelled : ℕ → Trip → Trip
set_trip_cancelled at t = record t { status = TripStatus.cancelled; cancelled_at = some at }

abbrev pub is_trip_on : ℕ → Trip → Bool
is_trip_on ride t = t.ride_request_id == ride

-- The switch on the Trip's status, with the UPDATE and what it scans over the Trip at hand.
cancel_trip_by : TripStatus → ℕ → ℕ → LockedTrip → Db → Result CancellationError (LockedTrip × Db)
cancel_trip_by TripStatus.completed at ride t db = err trip_completed
cancel_trip_by TripStatus.cancelled at ride t db = err trip_cancelled_before
cancel_trip_by s at ride t db = do
  let trips' = update_where (is_trip_on ride) (set_trip_cancelled at) db.trips
  u ← or_fail (find (is_trip_on ride) trips') no_rows
  let answered = scan_trip u
  ok (record answered { operation_context = t.operation_context }, record db { trips = trips' })

cancel_trip : ℕ → ℕ → Option LockedTrip → Db → Result CancellationError (Option LockedTrip × Db)
unfolding cancel_trip_by
cancel_trip at ride none db = ok (none, db)
cancel_trip at ride (some t) db = do
  (u, db') ← cancel_trip_by t.status at ride t db
  ok (some u, db')

abbrev pub close_decided : ℕ → ℕ → Offer → Offer
close_decided at now o = record o {
  status = OfferStatus.closed;
  decided_at = some at;
  updated_at = now;
}

abbrev pub close_responded : ℕ → Opportunity → Opportunity
close_responded at o = record o {
  status = OpportunityStatus.closed;
  responded_at = some (coalesce o.responded_at at);
}

-- The ride's UPDATE is statement 8 of the transaction, and returns its own timestamp.
unfoldable pub cancel_locked :
    Clock
    → ℕ
    → CancellationActor
    → Option LockedTrip
    → Db
    → Result CancellationError (Cancellation × Db)
unfolding cancel_trip
cancel_locked c ride actor trip db = do
  let at = c.at 8
  let db₁ = record db { rides = update_where (is_ride ride) (set_ride_cancelled actor at) db.rides }
  (trip', db₂) ← cancel_trip at ride trip db₁
  ok (
    record {
      ride_request_id = ride;
      status = RideStatus.cancelled;
      cancelled_by = actor;
      cancelled_at = at;
      trip = trip';
    },
    record db₂ {
      offers =
          update_where (λ o. (o.ride_request_id == ride) && is_pending o.status)
            (close_decided at (c.at 10)) db₂.offers;
      opportunities =
          update_where (λ o. (o.ride_request_id == ride) && is_live o.status) (close_responded at)
            db₂.opportunities;
    },
  )

abbrev pub is_completed : Option LockedTrip → Bool
is_completed none = false
is_completed (some t) = elim t.status [ TripStatus.completed ↦ true | _ ↦ false ]

-- The switch that both calls make on the ride's status.
cancel_by_status :
    RideStatus
    → Clock
    → ℕ
    → CancellationActor
    → LockedRide
    → Option LockedTrip
    → Db
    → Result CancellationError (Cancellation × Db)
unfolding existing_result cancel_locked
cancel_by_status RideStatus.cancelled c ride actor state trip db = do
  result ← existing_result ride state trip
  ok (result, db)
cancel_by_status RideStatus.expired c ride actor state trip db = err ride_expired
cancel_by_status s c ride actor state trip db = do
  fail_if (is_completed trip) trip_completed
  cancel_locked c ride actor trip db

unfoldable pub cancel_by_rider : Clock → ℕ → ℕ → Db → Result CancellationError (Cancellation × Db)
unfolding lock_ride lock_trip cancel_by_status
cancel_by_rider c ride rider db = do
  let db₀ = expire c 0 db
  state ← lock_ride ride (some rider) db₀
  let trip = lock_trip ride none db₀
  cancel_by_status state.status c ride CancellationActor.rider state trip db₀

unfoldable pub cancel_by_driver : Clock → ℕ → ℕ → Db → Result CancellationError (Cancellation × Db)
unfolding lock_ride lock_trip cancel_by_status
cancel_by_driver c ride driver db = do
  let db₀ = expire c 0 db
  state ← lock_ride ride none db₀
  trip ← or_fail (lock_trip ride (some driver) db₀) not_found
  cancel_by_status state.status c ride CancellationActor.driver state (some trip) db₀
