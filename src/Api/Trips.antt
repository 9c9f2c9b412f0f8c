-- ===== src/Api/Trips.antt =====
-- httpapi/trip.go and cancellation.go: a Driver's Trip, and the cancellation of a ride.
use uber_clone.Common.{ℕ, Result}
use uber_clone.Common.Text.{codes}
use uber_clone.Store.{Db, Clock, Trip}
use uber_clone.Users.{rider, driver}
use uber_clone.Http.{Response, Request, Handler, write_json, refusal, ◌>>=◌, answer, call}
use uber_clone.Http.Access.{require_capability}
use uber_clone.Trip.{
  TripError, trip_not_found, not_started, not_completed, already_completed, already_cancelled,
  missing_completed_at, missing_confirmation, no_rows, start, complete, confirm_cash_collected,
}
use uber_clone.Cancellation.{CancellationError, cancel_by_rider, cancel_by_driver}
use uber_clone.Cancellation
use uber_clone.Api.{Library, ride_id}
use uber_clone.Api.Rendering.{trip_response, cancellation_response}

-- The switch of transitionTrip.
unfoldable pub trip_error : TripError → Response
trip_error trip_not_found = refusal 404 (codes "trip not found")
trip_error not_started = refusal 409 (codes "trip has not started")
trip_error not_completed = refusal 409 (codes "trip is not completed")
trip_error already_completed = refusal 409 (codes "trip already completed")
trip_error already_cancelled = refusal 409 (codes "trip already cancelled")
trip_error missing_completed_at = refusal 500 (codes "unable to update trip")
trip_error missing_confirmation = refusal 500 (codes "unable to update trip")
trip_error no_rows = refusal 500 (codes "unable to update trip")

-- writeCancellationError
unfoldable pub cancellation_error : CancellationError → Response
cancellation_error Cancellation.not_found = refusal 404 (codes "ride request or trip not found")
cancellation_error Cancellation.trip_completed =
    refusal 409 (codes "completed trip cannot be cancelled")
cancellation_error Cancellation.ride_expired =
    refusal 409 (codes "expired ride request cannot be cancelled")
cancellation_error Cancellation.missing_metadata = refusal 500 (codes "unable to cancel ride")
cancellation_error Cancellation.trip_not_cancelled = refusal 500 (codes "unable to cancel ride")
cancellation_error Cancellation.trip_cancelled_before = refusal 500 (codes "unable to cancel ride")
cancellation_error Cancellation.no_rows = refusal 500 (codes "unable to cancel ride")

-- tripTransitionFunc
abbrev pub Transition : Type 0
Transition = Clock → ℕ → ℕ → Db → Result TripError (Trip × Db)

module _ (lib : Library) where
  unfoldable pub transition_trip : Transition → Request → Handler Response
  transition_trip transition r = do
    u ← require_capability driver r
    ride ← ride_id lib r
    t ← call (transition r.clock ride u.id) trip_error
    answer (write_json 200 (trip_response t))

  abbrev pub start_trip : Request → Handler Response
  start_trip = transition_trip start

  abbrev pub complete_trip : Request → Handler Response
  complete_trip = transition_trip complete

  abbrev pub confirm_cash : Request → Handler Response
  confirm_cash = transition_trip confirm_cash_collected

  unfoldable pub cancel_ride_request : Request → Handler Response
  cancel_ride_request r = do
    u ← require_capability rider r
    ride ← ride_id lib r
    x ← call (cancel_by_rider r.clock ride u.id) cancellation_error
    answer (write_json 200 (cancellation_response x))

  unfoldable pub cancel_driver_ride_request : Request → Handler Response
  cancel_driver_ride_request r = do
    u ← require_capability driver r
    ride ← ride_id lib r
    x ← call (cancel_by_driver r.clock ride u.id) cancellation_error
    answer (write_json 200 (cancellation_response x))
