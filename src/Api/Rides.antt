-- ===== src/Api/Rides.antt =====
-- httpapi/ride.go, ride_previews.go, rider_location.go: a Rider's requests, and what the Rider sees.
pub mod Booked
use uber_clone.Common.{
  ℕ, Bool, true, false, ◌||◌, not, Option, none, some, List, [], ◌∷◌, ◌++◌, Result, ok, err,
  if◌then◌else◌,
}
use uber_clone.Common.Int.{ℤ}
use uber_clone.Common.Float.{Float}
use uber_clone.Common.Text.{Text, codes, is_empty, trim_space}
use uber_clone.Store.{Db, Location, Ride, Policy, PricingSnapshot}
use uber_clone.Users.{rider}
use uber_clone.Http.{
  Response, Request, Handler, refusal, write_json, ◌>>=◌, ◌>>◌, answer, refuse_if, or_refuse, call,
  read,
}
use uber_clone.Http.Values.{Json, object, text, uuid, instant, int}
use uber_clone.Http.Access.{require_capability}
use uber_clone.Pricing.Calculate.{
  PricingError, invalid_policy, invalid_route, fare_out_of_range, unavailable, policy_changed,
  invalid_service, calculate,
}
use uber_clone.Routing.{Route, Endpoint, preview}
use uber_clone.Routing
use uber_clone.RideRequest.{
  RideError, invalid_location, invalid_fare, policy_missing, pricing, CreateInput, Money, Config,
  create,
}
use uber_clone.RideRequest
use uber_clone.Views.RideStatus.{StatusError, get_owned, list_owned, owned_list_limit, request_of}
use uber_clone.Views.RiderLocation.{
  RiderLocationError, active_trip_not_found, location_not_found, get_for_ride,
}
use uber_clone.Api.{Library, ride_id}
use uber_clone.Api.Fares.{
  Services, pricing_error, routing_error, current_pkr, validate_suggested_fare,
}
use uber_clone.Api.Rendering.{money_response, place_response, ride_status_text}
use uber_clone.Api.Rendering.Views.{
  fare_fields, ride_request_status_response, ride_request_list_response, rider_location_response,
}

-- The bodies; a field that is absent is `none` or empty.
pub record LocationBody : Type 0 where
  pub place_id : Text
  pub latitude : Option Float
  pub longitude : Option Float

pub record FareBody : Type 0 where
  pub amount_minor : Option ℤ
  pub currency : Option Text

pub record RideBody : Type 0 where
  pub pricing_policy_version : Text
  pub service_code : Text
  pub pickup : Option LocationBody
  pub destination : Option LocationBody
  pub proposed_fare : Option FareBody

abbrev pub point_of : Option Float → Option Float → Option Location
point_of none y = none
point_of (some x) none = none
point_of (some x) (some y) = some (record { latitude = x; longitude = y })

abbrev pub body_point : Option LocationBody → Option Location
body_point none = none
body_point (some b) = point_of b.latitude b.longitude

abbrev pub both_fields : Option ℤ → Option Text → Option Money
both_fields none c = none
both_fields (some a) none = none
both_fields (some a) (some c) = some (record { amount_minor = a; currency = c })

abbrev pub body_fare : Option FareBody → Option Money
body_fare none = none
body_fare (some f) = both_fields f.amount_minor f.currency

abbrev pub body_place_id : Option LocationBody → Text
body_place_id none = []
body_place_id (some b) = b.place_id

abbrev pub incomplete : Response
incomplete = refusal 400 (codes "pickup, destination, and proposed_fare are required")

-- createRideRequestBody.input, with the fare that it holds.
unfoldable pub body_input : RideBody → Handler (CreateInput × Money)
body_input b = do
  pickup ← or_refuse (body_point b.pickup) incomplete
  destination ← or_refuse (body_point b.destination) incomplete
  m ← or_refuse (body_fare b.proposed_fare) incomplete
  answer (
    record {
      pricing_policy_version = b.pricing_policy_version;
      service_code = b.service_code;
      pickup = pickup;
      destination = destination;
      proposed_fare = some m;
    },
    m,
  )

abbrev pub uncreated : Response
uncreated = refusal 500 (codes "unable to create ride request")

-- The switch of createRideRequest.
unfoldable pub ride_error : RideError → Response
ride_error (pricing invalid_policy) = pricing_error invalid_policy
ride_error (pricing invalid_service) = pricing_error invalid_service
ride_error (pricing policy_changed) = pricing_error policy_changed
ride_error (pricing unavailable) = pricing_error unavailable
ride_error (pricing invalid_route) = uncreated
ride_error (pricing fare_out_of_range) = uncreated
ride_error RideRequest.invalid_service = refusal 400 (codes "selected service is unavailable")
ride_error invalid_location = refusal 400 (codes "pickup and destination coordinates are invalid")
ride_error invalid_fare =
    refusal 400 (codes "proposed_fare must be positive and use a three-letter currency")
ride_error policy_missing = uncreated

-- writeRideRequest
unfoldable pub ride_response : Ride → Json
ride_response row =
    let r = request_of row in
    object (
      (codes "service_code", text r.service_code)
      ∷ (codes "id", uuid r.id)
      ∷ (codes "rider_user_id", uuid r.rider_user_id)
      ∷ (codes "pickup", place_response r.pickup)
      ∷ (codes "destination", place_response r.destination)
      ∷ (codes "status", text (ride_status_text r.status))
      ∷ (codes "created_at", instant r.created_at)
      ∷ (codes "expires_at", instant r.expires_at)
      ∷ fare_fields r.proposed_fare)

-- A call of Create, which answers the row, the snapshot and the store.
abbrev pub stored_ride :
    Result RideError (Ride × Option PricingSnapshot × Db) → Result RideError (Ride × Db)
stored_ride (ok x) = ok (x.0, x.2)
stored_ride (err e) = err e

abbrev pub unlisted : StatusError → Response
unlisted e = refusal 404 (codes "ride request not found")

unfoldable pub rider_location_error : RiderLocationError → Response
rider_location_error active_trip_not_found = refusal 404 (codes "active trip not found")
rider_location_error location_not_found = refusal 404 (codes "driver location not available")

module _ (lib : Library) (s : Services) (config : Config) (ride_body : Text → Option RideBody) where
  abbrev pub checked_fare : ℕ → Request → RideBody → Money → CreateInput → Handler (Unit {0})
  checked_fare user r body m input =
      if s.suggested_fares_enabled
      then validate_suggested_fare s lib.parse_uuid user r (body_place_id body.pickup)
          (body_place_id body.destination) m input
      else answer tt

  -- `r.fresh` is the identifier of a new user, and `id` that of the new request.
  unfoldable pub create_ride_request : ℕ → Request → Handler Response
  create_ride_request id r = do
    u ← require_capability rider r
    body ← or_refuse (ride_body r.body) (refusal 400 (codes "invalid request"))
    input ← body_input body
    checked_fare u.id r body input.1 input.0
    ride ←
        call
          (λ db.
            stored_ride
              (create config s.cases lib.parse_uuid db r.clock (r.clock.at 5) id u.id input.0 db))
          ride_error
    answer (write_json 201 (ride_response ride))

  unfoldable pub get_ride_request_status : Request → Handler Response
  get_ride_request_status r = do
    u ← require_capability rider r
    ride ← ride_id lib r
    v ← call (get_owned r.clock ride u.id) unlisted
    answer (write_json 200 (ride_request_status_response v))

  unfoldable pub get_ride_driver_location : Request → Handler Response
  get_ride_driver_location r = do
    u ← require_capability rider r
    ride ← ride_id lib r
    l ← read (get_for_ride ride u.id) rider_location_error
    answer (write_json 200 (rider_location_response l))

unfoldable pub list_ride_requests : Request → Handler Response
list_ride_requests r = do
  u ← require_capability rider r
  l ← λ db. (
    ok (list_owned r.clock u.id owned_list_limit db).0,
    (list_owned r.clock u.id owned_list_limit db).1,
  )
  answer (write_json 200 (ride_request_list_response l))
