-- ===== src/Api/Places.antt =====
-- httpapi/places.go, ride_previews.go and driver_route_preview.go: what is answered from the providers
-- of places and routes.
pub mod Accepted
use uber_clone.Common.{
  ℕ, Bool, true, false, ◌||◌, ◌&&◌, not, Option, none, some, List, [], ◌∷◌, ◌++◌, ◌==◌, Result, ok,
  err, map, if◌then◌else◌,
}
use uber_clone.Common.Int.{ℤ, pos}
use uber_clone.Common.Float.{Float}
use uber_clone.Common.Text.{Text, codes, text_eq, trim_space, is_empty}
use uber_clone.Store.{Db, Location, Policy, TripStatus}
use uber_clone.Users.{rider, driver}
use uber_clone.Http.{
  Response, Request, Handler, refusal, write_json, ◌>>=◌, ◌>>◌, answer, refuse, refuse_if,
  or_refuse, read,
}
use uber_clone.Http.Values.{Json, object, array, text, number, int, uuid}
use uber_clone.Http.Access.{require_capability}
use uber_clone.Pricing.Calculate.{calculate}
use uber_clone.Routing.{Route, Endpoint, preview}
use uber_clone.Routing
use uber_clone.Places.{AutocompleteInput, Suggestion, Place, autocomplete, details, reverse_geocode}
use uber_clone.Views.DriverTrip.{DriverView, get_current}
use uber_clone.Api.{Library}
use uber_clone.Api.Drivers.{both, no_trip}
use uber_clone.Api.Fares.{
  Services, allow_location_search, search_error, routing_error, pricing_error, current_pkr,
}
use uber_clone.Api.Rendering.{trip_status_text, money_response}

abbrev pub Coordinates : Type 0
Coordinates = Option Float × Option Float

pub record AutocompleteBody : Type 0 where
  pub input : Text
  pub session_token : Text
  pub bias : Option Coordinates

pub record RoutePoint : Type 0 where
  pub coordinates : Coordinates
  pub place_id : Text

pub record PreviewBody : Type 0 where
  pub pickup : RoutePoint
  pub destination : RoutePoint
  pub service_code : Text

pub record DriverRouteBody : Type 0 where
  pub ride_request_id : Text
  pub status : Text
  pub origin : RoutePoint

-- json.Decoder on these bodies, and the query of the URL.
pub record PlaceLibrary : Type 0 where
  pub autocomplete_body : Text → Option AutocompleteBody
  pub preview_body : Text → Option PreviewBody
  pub driver_route_body : Text → Option DriverRouteBody
  pub query_value : Text → Request → Text

abbrev given_point : Option Coordinates → Option Location
given_point p = both p

unfoldable pub autocomplete_input : AutocompleteBody → AutocompleteInput
autocomplete_input b = record {
  query = b.input;
  session_token = b.session_token;
  bias = given_point b.bias;
  restriction_radius_meters = pos 0;
}

abbrev suggestion_response : Suggestion → Json
suggestion_response x =
    object ((codes "place_id", text x.place_id) ∷ (codes "label", text x.label) ∷ [])

abbrev place_id_fields : Place → List (Text × Json)
place_id_fields p =
    if is_empty (trim_space p.place_id)
    then []
    else (codes "place_id", text (trim_space p.place_id)) ∷ []

-- placeResponse
unfoldable pub found_place_response : Place → Json
found_place_response p = object (
    (codes "label", text (trim_space p.label))
    ∷ (codes "latitude", number p.location.latitude)
    ∷ (codes "longitude", number p.location.longitude)
    ∷ place_id_fields p)

abbrev endpoint_of : Location → RoutePoint → Endpoint
endpoint_of p b = record { point = p; place_id = trim_space b.place_id }

-- routePoint.endpoint, where both coordinates are there.
abbrev pub endpoint : RoutePoint → Option Endpoint
endpoint b = elim (both (some b.coordinates)) [ none ↦ none | some p ↦ some (endpoint_of p b) ]

abbrev pub route_fields : Route → List (Text × Json)
route_fields r =
    (
      codes "route",
      object (
          (codes "distance_meters", int r.distance_meters)
          ∷ (codes "duration_seconds", int r.duration_seconds)
          ∷ (codes "encoded_polyline", text r.encoded_polyline)
          ∷ []),
    )
    ∷ []

unfoldable pub ride_preview_response : Route → Json
ride_preview_response r = object (route_fields r)

abbrev pub suggested_fields : Policy → ℤ → List (Text × Json)
suggested_fields p amount =
    (codes "suggested_fare", money_response amount p.currency)
    ∷ (codes "pricing_policy_version", uuid p.id)
    ∷ []

abbrev pub incomplete_preview : Response
incomplete_preview = refusal 400 (codes "pickup, destination, and service_code are required")

abbrev pub no_route : Response
no_route = refusal 503 (codes "route preview is unavailable")

module _ (lib : Library) (pl : PlaceLibrary) (s : Services) where
  unfoldable pub autocomplete_places : Request → Handler Response
  autocomplete_places r = do
    u ← require_capability rider r
    search ← allow_location_search s u.id r
    b ← or_refuse (pl.autocomplete_body r.body) (refusal 400 (codes "invalid autocomplete request"))
    l ← read (λ db. autocomplete search s.search_policy (autocomplete_input b)) search_error
    answer (write_json 200 (object ((codes "suggestions", array (map suggestion_response l)) ∷ [])))

  unfoldable pub get_place_details : Request → Handler Response
  get_place_details r = do
    u ← require_capability rider r
    search ← allow_location_search s u.id r
    p ←
        read
          (λ db.
            details search (r.path_value (codes "place_id"))
              (pl.query_value (codes "session_token") r))
          search_error
    answer (write_json 200 (found_place_response p))

  unfoldable pub reverse_geocode_place : Request → Handler Response
  reverse_geocode_place r = do
    u ← require_capability rider r
    search ← allow_location_search s u.id r
    point ←
        or_refuse (both (lib.location_body r.body))
          (refusal 400 (codes "latitude and longitude are required"))
    p ← read (λ db. reverse_geocode search point) search_error
    answer (write_json 200 (found_place_response p))

  -- The fare of a route, with the policy that was read before.
  abbrev pub suggestion : Option Policy → Route → Handler (List (Text × Json))
  suggestion none route = answer []
  suggestion (some p) route = do
    amount ← read (λ db. calculate p route.distance_meters route.duration_seconds) pricing_error
    answer (suggested_fields p amount)

  abbrev pub some_policy : Text → Handler (Option Policy)
  some_policy service = do p ← current_pkr s service; answer (some p)

  abbrev pub policy_for : Text → Handler (Option Policy)
  policy_for service = if s.suggested_fares_enabled then some_policy service else answer none

  unfoldable pub create_ride_preview : Request → Handler Response
  create_ride_preview r = do
    u ← require_capability rider r
    router ← or_refuse s.routing no_route
    b ← or_refuse (pl.preview_body r.body) incomplete_preview
    pickup ← or_refuse (endpoint b.pickup) incomplete_preview
    destination ← or_refuse (endpoint b.destination) incomplete_preview
    refuse_if (is_empty (trim_space b.service_code)) incomplete_preview
    policy ← policy_for b.service_code
    route ← read (λ db. preview router r.now pickup destination) routing_error
    fare ← suggestion policy route
    answer (write_json 200 (object (route_fields route ++ fare)))

  abbrev point_only : Location → Endpoint
  point_only p = record { point = p; place_id = [] }

  -- Where the Driver goes next: to the pickup, or on to the destination.
  unfoldable pub driver_route : DriverView → DriverRouteBody → Handler (Endpoint × Endpoint)
  driver_route v b = elim v.status [
    | TripStatus.assigned ↦ (do
      from ←
          or_refuse (both (some b.origin.coordinates))
            (refusal 400 (codes "current Driver coordinates are required"))
      answer (point_only from, point_only v.pickup))
    | TripStatus.in_progress ↦ answer (point_only v.pickup, point_only v.destination)
    | TripStatus.completed ↦ refuse (refusal 409 (codes "trip has no active driving route"))
    | TripStatus.cancelled ↦ refuse (refusal 409 (codes "trip has no active driving route"))
  ]

  unfoldable pub create_driver_route_preview : Request → Handler Response
  create_driver_route_preview r = do
    u ← require_capability driver r
    b ← or_refuse (pl.driver_route_body r.body) (refusal 400 (codes "invalid route request"))
    ride ←
        or_refuse (lib.parse_uuid b.ride_request_id) (refusal 400 (codes "invalid ride_request_id"))
    v ← read (get_current u.id) no_trip
    refuse_if
        (not (v.ride_request_id == ride) || not (text_eq (trip_status_text v.status) b.status))
        (refusal 409 (codes "trip or route stage changed"))
    ends ← driver_route v b
    router ← or_refuse s.routing no_route
    route ← read (λ db. preview router r.now ends.0 ends.1) routing_error
    answer (write_json 200 (ride_preview_response route))
