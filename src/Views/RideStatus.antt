-- ===== src/Views/RideStatus.antt =====
-- ridestatus/status.go and ridestatus/postgres_repository.go: a Rider's requests with their Trips.
use uber_clone.Common.{
  ℕ, Bool, ◌&&◌, ◌||◌, Option, none, some, List, [], ◌∷◌, ◌==◌, take, ltb, Result, ok, ◌>>=◌,
  or_fail,
}
use uber_clone.Common.Int.{ℤ}
use uber_clone.Common.Text.{Text}
use uber_clone.Common.Table.{find, select}
use uber_clone.Common.Order.{sort_by}
use uber_clone.Store.{
  Db, Ride, RideStatus, CancellationActor, Trip, TripStatus, Settlement, OperationContext, Location,
  Clock,
}
use uber_clone.Marketplace.Expiry.{expire, is_ride}
use uber_clone.RideRequest.{Money}

pub data StatusError : Type 0 where
  status_not_found : StatusError

-- ride.Request; the pricing snapshot is not read here.
pub record Request : Type 0 where
  pub service_code : Text
  pub id : ℕ
  pub rider_user_id : ℕ
  pub pickup : Location
  pub destination : Location
  pub proposed_fare : Option Money
  pub status : RideStatus
  pub created_at : ℕ
  pub expires_at : ℕ
  pub cancelled_at : Option ℕ
  pub cancelled_by : Option CancellationActor

-- trip.Trip
pub record TripView : Type 0 where
  pub operation_context : Option OperationContext
  pub ride_request_id : ℕ
  pub rider_user_id : ℕ
  pub driver_user_id : ℕ
  pub status : TripStatus
  pub assigned_at : ℕ
  pub started_at : Option ℕ
  pub completed_at : Option ℕ
  pub cancelled_at : Option ℕ
  pub settlement : Settlement

pub record View : Type 0 where
  pub ride_request : Request
  pub trip : Option TripView

-- Both columns, or no fare.
abbrev pub money_of : Option ℤ → Option Text → Option Money
money_of none c = none
money_of (some a) none = none
money_of (some a) (some c) = some (record { amount_minor = a; currency = c })

abbrev pub request_of : Ride → Request
request_of r = record {
  service_code = r.service_code;
  id = r.id;
  rider_user_id = r.rider_user_id;
  pickup = r.pickup;
  destination = r.destination;
  proposed_fare = money_of r.proposed_fare_minor r.currency;
  status = r.status;
  created_at = r.created_at;
  expires_at = r.expires_at;
  cancelled_at = r.cancelled_at;
  cancelled_by = r.cancelled_by;
}

-- The projected Trip takes the identifiers of the ride and its Rider.
abbrev pub trip_view : Ride → Trip → TripView
trip_view r t = record {
  operation_context = t.operation_context;
  ride_request_id = r.id;
  rider_user_id = r.rider_user_id;
  driver_user_id = t.driver_user_id;
  status = t.status;
  assigned_at = t.assigned_at;
  started_at = t.started_at;
  completed_at = t.completed_at;
  cancelled_at = t.cancelled_at;
  settlement = t.settlement;
}

abbrev pub is_trip_for : ℕ → Trip → Bool
is_trip_for ride t = t.ride_request_id == ride

-- scanView of a ride that is joined with its Trip, if it has one.
abbrev pub scan_view : Db → Ride → View
scan_view db r = record {
  ride_request = request_of r;
  trip = elim (find (is_trip_for r.id) db.trips) [ none ↦ none | some t ↦ some (trip_view r t) ];
}

-- `Expire` is statements 0 to 5. The statements stand outside a transaction; the model takes them as
-- one step.
unfoldable pub get_owned : Clock → ℕ → ℕ → Db → Result StatusError (View × Db)
get_owned c ride rider db = do
  let db₀ = expire c 0 db
  r ← or_fail (find (λ r. is_ride ride r && r.rider_user_id == rider) db₀.rides) status_not_found
  ok (scan_view db₀ r, db₀)

abbrev pub scan_views : Db → List Ride → List View
scan_views db [] = []
scan_views db (r ∷ t) = scan_view db r ∷ scan_views db t

-- ORDER BY created_at DESC, id DESC
abbrev pub is_newer : Ride → Ride → Bool
is_newer a b = ltb b.created_at a.created_at || a.created_at == b.created_at && ltb b.id a.id

unfoldable pub list_owned : Clock → ℕ → ℕ → Db → List View × Db
list_owned c rider limit db =
    let db₀ = expire c 0 db in
    (
      scan_views db₀
          (take limit (sort_by is_newer (select (λ r. r.rider_user_id == rider) db₀.rides))),
      db₀,
    )

-- ownedListLimit, which Service.ListOwned passes on.
abbrev pub owned_list_limit : ℕ
owned_list_limit = 50
