-- ===== src/Api/Fares.antt =====
-- writePricingError, writeRoutingError, writeLocationSearchError, allowLocationSearch of httpapi, and
-- the check of a suggested fare in httpapi/ride.go.
pub mod Suggested
pub mod Accepted
use uber_clone.Common.{
  ℕ, Bool, ◌||◌, ◌&&◌, not, Option, none, some, [], ◌∷◌, Result, ok, err, ◌==◌, if◌then◌else◌,
}
use uber_clone.Common.Int.{ℤ, pos, leb_ℤ, ltb_ℤ}
use uber_clone.Common.Float.{equal_float}
use uber_clone.Common.Text.{Text, codes, Cases, text_eq, to_lower, trim_space, is_empty}
use uber_clone.Store.{Db, Location, Policy}
use uber_clone.Http.{
  Response, Request, Handler, refusal, write_json, ◌>>=◌, ◌>>◌, answer, refuse, refuse_if,
  or_refuse, read,
}
use uber_clone.Http.Values.{Json, object, text}
use uber_clone.Pricing.Calculate.{
  PricingError, invalid_policy, invalid_route, fare_out_of_range, unavailable, policy_changed,
  invalid_service, calculate, pkr, max_amount_minor,
}
use uber_clone.Pricing.Publication.{current}
use uber_clone.Routing.{RouteError, Route, Endpoint, preview, valid_point}
use uber_clone.Routing
use uber_clone.Places.{SearchError, Place, details}
use uber_clone.Places
use uber_clone.Limiter.{UserWindowLimiter, allow_nil}
use uber_clone.RideRequest.{CreateInput, Money}

abbrev pub explained : ℕ → Text → Text → Response
explained status code message =
    write_json status (object ((codes "error", text code) ∷ (codes "message", text message) ∷ []))

-- writePricingError
unfoldable pub pricing_error : PricingError → Response
pricing_error policy_changed =
    explained 409 (codes "pricing_policy_changed")
      (codes "Rates changed. Refresh the suggestion and submit again.")
pricing_error unavailable =
    explained 503 (codes "pricing_policy_unavailable")
      (codes "Suggested fare is unavailable for this service.")
pricing_error invalid_service =
    explained 400 (codes "invalid_pricing_service") (codes "Selected service is unavailable.")
pricing_error invalid_policy =
    explained 400 (codes "invalid_pricing_policy")
      (codes "A valid PKR pricing policy version is required.")
pricing_error invalid_route =
    explained 503 (codes "pricing_unavailable")
      (codes "Unable to calculate a suggested fare for this route.")
pricing_error fare_out_of_range =
    explained 503 (codes "pricing_unavailable")
      (codes "Unable to calculate a suggested fare for this route.")

-- writeRoutingError with routingStatus
unfoldable pub routing_error : RouteError → Response
routing_error Routing.invalid_input = refusal 400 (codes "invalid route preview request")
routing_error Routing.not_found = refusal 404 (codes "no driving route was found")
routing_error Routing.no_provider = refusal 503 (codes "route preview is unavailable")
routing_error Routing.provider_failed = refusal 502 (codes "route provider request failed")

-- writeLocationSearchError with locationSearchStatus
unfoldable pub search_error : SearchError → Response
search_error Places.invalid_input = refusal 400 (codes "invalid location search request")
search_error Places.not_found = refusal 404 (codes "location was not found")
search_error Places.no_provider = refusal 503 (codes "location search is unavailable")
search_error Places.provider_failed = refusal 502 (codes "location provider request failed")
search_error Places.invalid_search_policy = refusal 502 (codes "location provider request failed")
search_error Places.policy_missing = refusal 502 (codes "location provider request failed")

-- The fields of the API that the fares and the places need. A field that is nil is `none`; a service
-- without a provider is `some none`. `uuid_text` is UUID.String.
pub record Services : Type 0 where
  pub suggested_fares_enabled : Bool
  pub has_pricing : Bool
  pub cases : Cases
  pub uuid_text : ℕ → Text
  pub routing : Option (Option Routing.Provider)
  pub places : Option (Option Places.Provider)
  pub search_policy : Option (Option Places.SearchPolicy)
  pub limiter : Option UserWindowLimiter

abbrev pub suggested_fare_changed : Response
suggested_fare_changed =
    explained 409 (codes "suggested_fare_changed")
      (codes "Suggested fare changed. Review the refreshed fare and submit again.")

module _ (s : Services) where
  abbrev pub searcher : Handler (Option Places.Provider)
  searcher = or_refuse s.places (refusal 503 (codes "location search is unavailable"))

  abbrev pub within_limit : ℕ → Request → Handler (Unit {0})
  within_limit user r =
      refuse_if (not (allow_nil s.limiter (s.uuid_text user) r.now).0)
        (refusal 429 (codes "location search rate limit exceeded"))

  -- allowLocationSearch; what the limiter counts is not kept from one request to the next.
  unfoldable pub allow_location_search : ℕ → Request → Handler (Option Places.Provider)
  allow_location_search user r = do search ← searcher; within_limit user r; answer search

  abbrev pub priced : Handler (Unit {0})
  priced = refuse_if (not s.has_pricing) (pricing_error unavailable)

  -- api.pricing.Current of the trimmed service in PKR
  unfoldable pub current_pkr : Text → Handler Policy
  current_pkr service = do
    priced
    read (current (to_lower s.cases (trim_space service)) pkr) pricing_error

  abbrev pub moved : Location → Place → Bool
  moved place found =
      not (valid_point found.location)
      || not (equal_float found.location.latitude place.latitude)
      || not (equal_float found.location.longitude place.longitude)

  abbrev pub unmoved : Location → Place → Handler (Unit {0})
  unmoved place found = refuse_if (moved place found) (
      explained 400 (codes "location_selection_changed")
        (codes "Selected place changed. Select pickup and destination again."))

  abbrev pub place_details : Option Places.Provider → Text → Handler Place
  place_details search place_id = read (λ db. details search (trim_space place_id) []) search_error

  -- validatePricedPlace
  unfoldable pub validate_priced_place :
      Option Places.Provider → Text → Location → Handler (Unit {0})
  validate_priced_place search place_id place =
      if is_empty (trim_space place_id)
      then answer tt
      else (do found ← place_details search place_id; unmoved place found)

  -- Both places of a request that names one by its identifier.
  unfoldable pub validate_places : ℕ → Request → Text → Text → CreateInput → Handler (Unit {0})
  validate_places user r pickup_id destination_id input =
      if is_empty (trim_space pickup_id) && is_empty (trim_space destination_id)
      then answer tt
      else (do
        search ← allow_location_search user r
        validate_priced_place search pickup_id input.pickup
        validate_priced_place search destination_id input.destination)

  abbrev pub is_unfit_fare : Money → Bool
  is_unfit_fare m =
      not (text_eq m.currency pkr)
      || leb_ℤ m.amount_minor (pos 0)
      || ltb_ℤ (pos max_amount_minor) m.amount_minor

  abbrev pub fit_fare : Money → Handler (Unit {0})
  fit_fare m = refuse_if (is_unfit_fare m) (pricing_error invalid_policy)

  -- The version that the client has seen, and the fare that it proposes.
  abbrev pub expected_policy : (Text → Option ℕ) → Money → CreateInput → Handler ℕ
  expected_policy parse_uuid m input = do
    expected ← or_refuse (parse_uuid input.pricing_policy_version) (pricing_error invalid_policy)
    fit_fare m
    answer expected

  abbrev pub router_of : Handler (Option Routing.Provider)
  router_of = or_refuse s.routing (routing_error Routing.no_provider)

  abbrev pub asked_route : Option Routing.Provider → ℕ → Text → Text → CreateInput → Handler Route
  asked_route router now pickup_id destination_id input =
      read
        (λ db.
          preview router now (record { point = input.pickup; place_id = pickup_id })
            (record { point = input.destination; place_id = destination_id }))
        routing_error

  -- The fare of the route between the places, as the provider knows it at the instant of the request.
  unfoldable pub priced_route : ℕ → Policy → Text → Text → CreateInput → Handler ℤ
  priced_route now policy pickup_id destination_id input = do
    router ← router_of
    route ← asked_route router now pickup_id destination_id input
    read (λ db. calculate policy route.distance_meters route.duration_seconds) pricing_error

  abbrev pub same_version : ℕ → Policy → Handler (Unit {0})
  same_version expected policy =
      refuse_if (not (expected == policy.id)) (pricing_error policy_changed)

  abbrev pub same_fare : ℤ → Money → Handler (Unit {0})
  same_fare amount m =
      refuse_if (ltb_ℤ amount m.amount_minor || ltb_ℤ m.amount_minor amount) suggested_fare_changed

  -- validateSuggestedFare
  unfoldable pub validate_suggested_fare :
      (Text → Option ℕ) → ℕ → Request → Text → Text → Money → CreateInput → Handler (Unit {0})
  validate_suggested_fare parse_uuid user r pickup_id destination_id m input = do
    expected ← expected_policy parse_uuid m input
    policy ← current_pkr input.service_code
    same_version expected policy
    validate_places user r pickup_id destination_id input
    amount ← priced_route r.now policy pickup_id destination_id input
    same_fare amount m
