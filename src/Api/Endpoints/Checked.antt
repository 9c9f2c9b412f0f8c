-- ===== src/Api/Endpoints/Checked.antt =====
-- The checks before a ride is stored, or a route is asked for, write nothing.
use uber_clone.Common.{ℕ, ◌&&◌, ◌||◌, ◌==◌, not, Option, [], arith}
use uber_clone.Common.Text.{Text, codes, is_empty, trim_space, to_lower}
use uber_clone.Common.Int.{ltb_ℤ}
use uber_clone.Store.{Location, Policy, TripStatus}
use uber_clone.Http.{Request, answer, refusal}
use uber_clone.Http.Careful.{
  bad_request-IsCheck, IsCheck, answer-IsCheck, or_refuse-IsCheck, if-IsCheck, read-IsCheck,
  refuse_if-IsCheck, >>=-IsCheck,
}
use uber_clone.Pricing.Calculate.{invalid_policy, unavailable, policy_changed, calculate, pkr}
use uber_clone.Pricing.Publication.{current}
use uber_clone.Routing.{preview}
use uber_clone.Places.{details}
use uber_clone.Limiter.{allow_nil}
use uber_clone.Routing
use uber_clone.Places
use uber_clone.RideRequest.{Config, CreateInput, Money}
use uber_clone.Api.{Library}
use uber_clone.Api.Fares.{
  Services, moved, explained, pricing_error, routing_error, search_error, allow_location_search,
  current_pkr, validate_priced_place, validate_places, is_unfit_fare, expected_policy, priced_route,
  validate_suggested_fare, suggested_fare_changed,
}
use uber_clone.Api.Rides.{RideBody, body_point, body_fare, incomplete, body_input, checked_fare}
use uber_clone.Views.DriverTrip.{DriverView}
use uber_clone.Api.Places.{PlaceLibrary, DriverRouteBody, driver_route}
use uber_clone.Api.Endpoints.Parts.{refuse-IsCheck}
use uber_clone.Api.Endpoints.Refusals.{
  pricing_error_status, routing_error_status, search_error_status,
}

pub body_input-IsCheck : (b : RideBody) → IsCheck (body_input b)
unfolding body_input
body_input-IsCheck b =
    >>=-IsCheck _ _ (or_refuse-IsCheck (body_point b.pickup) incomplete (omega arith)) (λ p.
      >>=-IsCheck _ _ (or_refuse-IsCheck (body_point b.destination) incomplete (omega arith)) (λ q.
        >>=-IsCheck _ _ (or_refuse-IsCheck (body_fare b.proposed_fare) incomplete (omega arith))
          (λ m. answer-IsCheck _)))

module _ (s : Services) where
  pub current_pkr-IsCheck : (service : Text) → IsCheck (current_pkr s service)
  unfolding current_pkr
  current_pkr-IsCheck service =
      >>=-IsCheck _ _
        (refuse_if-IsCheck (not s.has_pricing) (pricing_error unavailable)
          (pricing_error_status unavailable))
        (λ t.
          read-IsCheck (current (to_lower s.cases (trim_space service)) pkr) pricing_error
            pricing_error_status)

  pub allow-IsCheck : (user : ℕ) (r : Request) → IsCheck (allow_location_search s user r)
  unfolding allow_location_search
  allow-IsCheck user r =
      >>=-IsCheck _ _
        (or_refuse-IsCheck s.places (refusal 503 (codes "location search is unavailable"))
          (omega arith))
        (λ search.
          >>=-IsCheck _ _
            (refuse_if-IsCheck (not (allow_nil s.limiter (s.uuid_text user) r.now).0)
              (refusal 429 (codes "location search rate limit exceeded")) (omega arith))
            (λ t. answer-IsCheck search))

  place-IsCheck :
      (search : Option Places.Provider) (id : Text) (place : Location)
      → IsCheck (validate_priced_place s search id place)
  unfolding validate_priced_place
  place-IsCheck search id place =
      if-IsCheck (is_empty (trim_space id)) (answer tt) _ (answer-IsCheck tt) (
        >>=-IsCheck _ _
          (read-IsCheck (λ db. details search (trim_space id) []) search_error search_error_status)
          (λ found.
            refuse_if-IsCheck (moved s place found)
              (explained 400 (codes "location_selection_changed")
                (codes "Selected place changed. Select pickup and destination again."))
              (omega arith)))

  places-IsCheck :
      (user : ℕ) (r : Request) (a b : Text) (input : CreateInput)
      → IsCheck (validate_places s user r a b input)
  unfolding validate_places
  places-IsCheck user r a b input =
      if-IsCheck (is_empty (trim_space a) && is_empty (trim_space b)) (answer tt) _
        (answer-IsCheck tt)
        (>>=-IsCheck _ _ (allow-IsCheck user r) (λ search.
          >>=-IsCheck _ _ (place-IsCheck search a input.pickup)
            (λ t. place-IsCheck search b input.destination)))

  route-IsCheck :
      (now : ℕ) (p : Policy) (a b : Text) (input : CreateInput)
      → IsCheck (priced_route s now p a b input)
  unfolding priced_route
  route-IsCheck now p a b input =
      >>=-IsCheck _ _
        (or_refuse-IsCheck s.routing (routing_error Routing.no_provider)
          (routing_error_status Routing.no_provider))
        (λ router.
          >>=-IsCheck _ _
            (read-IsCheck
              (λ db.
                preview router now (record { point = input.pickup; place_id = a })
                  (record { point = input.destination; place_id = b }))
              routing_error routing_error_status)
            (λ route.
              read-IsCheck (λ db. calculate p route.distance_meters route.duration_seconds)
                pricing_error pricing_error_status))

  expected-IsCheck :
      (parse : Text → Option ℕ) (m : Money) (input : CreateInput)
      → IsCheck (expected_policy s parse m input)
  expected-IsCheck parse m input =
      >>=-IsCheck _ _
        (or_refuse-IsCheck (parse input.pricing_policy_version) (pricing_error invalid_policy)
          (pricing_error_status invalid_policy))
        (λ expected.
          >>=-IsCheck _ _
            (refuse_if-IsCheck (is_unfit_fare s m) (pricing_error invalid_policy)
              (pricing_error_status invalid_policy))
            (λ t. answer-IsCheck expected))

  fare-IsCheck :
      (parse : Text → Option ℕ) (user : ℕ) (r : Request) (a b : Text) (m : Money)
      (input : CreateInput)
      → IsCheck (validate_suggested_fare s parse user r a b m input)
  unfolding validate_suggested_fare
  fare-IsCheck parse user r a b m input =
      >>=-IsCheck _ _ (expected-IsCheck parse m input) (λ expected.
        >>=-IsCheck _ _ (current_pkr-IsCheck input.service_code) (λ policy.
          >>=-IsCheck _ _
            (refuse_if-IsCheck (not (expected == policy.id)) (pricing_error policy_changed)
              (pricing_error_status policy_changed))
            (λ t. >>=-IsCheck _ _ (places-IsCheck user r a b input) (λ t.
              >>=-IsCheck _ _ (route-IsCheck r.now policy a b input) (λ amount.
                refuse_if-IsCheck (ltb_ℤ amount m.amount_minor || ltb_ℤ m.amount_minor amount)
                  suggested_fare_changed (omega arith))))))

pub checked_fare-IsCheck :
    (lib : Library) (s : Services) (config : Config) (ride_body : Text → Option RideBody) (user : ℕ)
    (r : Request) (b : RideBody) (m : Money) (input : CreateInput)
    → IsCheck (checked_fare lib s config ride_body user r b m input)
checked_fare-IsCheck lib s config ride_body user r b m input =
    if-IsCheck s.suggested_fares_enabled _ _ (fare-IsCheck s lib.parse_uuid user r _ _ m input)
      (answer-IsCheck tt)

pub driver_route-IsCheck :
    (lib : Library) (pl : PlaceLibrary) (s : Services) (v : DriverView) (b : DriverRouteBody)
    → IsCheck (driver_route lib pl s v b)
unfolding driver_route
driver_route-IsCheck lib pl s v b = by_status v.status
  where
    by_status :
        (status : TripStatus) → IsCheck (driver_route lib pl s (record v { status = status }) b)
    by_status TripStatus.assigned =
        >>=-IsCheck _ _ (bad_request-IsCheck _ _) (λ p. answer-IsCheck _)
    by_status TripStatus.in_progress = answer-IsCheck _
    by_status TripStatus.completed = refuse-IsCheck _ (omega arith)
    by_status TripStatus.cancelled = refuse-IsCheck _ (omega arith)
