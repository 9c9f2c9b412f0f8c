-- ===== src/Api/Offers.antt =====
-- httpapi/marketplace.go, and acceptRideRequestFare of httpapi/trip.go: offers and their selection.
use uber_clone.Common.{ℕ, Option, none, some, [], ◌∷◌, map}
use uber_clone.Common.Text.{codes}
use uber_clone.Users.{rider, driver}
use uber_clone.Http.{
  Response, Request, Handler, write_json, refusal, no_content, ◌>>=◌, answer, or_refuse, call, read,
}
use uber_clone.Http.Values.{object, array}
use uber_clone.Http.Access.{require_capability}
use uber_clone.Offer.{
  OfferError, ride_not_found, ride_not_open, driver_ineligible, amount_out_of_range,
  offer_not_found, offer_not_actionable, opportunity_not_open, policy_missing, submit,
  accept_proposed,
}
use uber_clone.Offer.Decision.{skip, reject}
use uber_clone.Offer.RiderList.{list_for_rider}
use uber_clone.Offer.Discovery.{DiscoveryError, discover, discovery_limit}
use uber_clone.Marketplace.Assignment.{AssignmentError, select_offer}
use uber_clone.Marketplace.Assignment
use uber_clone.Api.{Library, path_id, ride_id}
use uber_clone.Api.Rendering.{
  trip_response, ride_offer_response, rider_offer_response, marketplace_item_response,
}

-- writeOfferError
unfoldable pub offer_error : OfferError → Response
offer_error ride_not_found = refusal 404 (codes "ride request or offer not found")
offer_error offer_not_found = refusal 404 (codes "ride request or offer not found")
offer_error ride_not_open = refusal 409 (codes "ride request is not open for offers")
offer_error opportunity_not_open = refusal 409 (codes "driver response window is no longer open")
offer_error offer_not_actionable = refusal 409 (codes "ride offer is not actionable")
offer_error driver_ineligible = refusal 409 (codes "driver is not eligible to offer or assign")
offer_error amount_out_of_range =
    refusal 400 (codes "offer must be between 90% and 130% of the rider proposed fare")
offer_error policy_missing = refusal 500 (codes "unable to process ride offer")

-- writeMarketplaceAssignmentError
unfoldable pub assignment_error : AssignmentError → Response
assignment_error Assignment.not_open = refusal 409 (codes "ride request is not open for offers")
assignment_error Assignment.offer_not_actionable =
    refusal 409 (codes "ride offer is not actionable")
assignment_error Assignment.driver_unavailable =
    refusal 409 (codes "driver is not eligible to offer or assign")
assignment_error Assignment.constraint_violation =
    refusal 500 (codes "unable to process ride offer")

abbrev pub undiscovered : DiscoveryError → Response
undiscovered e = refusal 500 (codes "unable to discover marketplace ride requests")

-- The body's amount, where it can be decoded and has one.
abbrev pub given {ℓ} : {A : Type ℓ} → Option (Option A) → Option A
given none = none
given (some field) = field

module _ (lib : Library) where
  unfoldable pub submit_ride_offer : Request → Handler Response
  submit_ride_offer r = do
    u ← require_capability driver r
    ride ← ride_id lib r
    amount ←
        or_refuse (given (lib.amount_body r.body)) (refusal 400 (codes "amount_minor is required"))
    o ← call (λ db. submit r.now db r.clock ride u.id amount db) offer_error
    answer (write_json 200 (ride_offer_response o))

  unfoldable pub accept_ride_request_fare : Request → Handler Response
  accept_ride_request_fare r = do
    u ← require_capability driver r
    ride ← ride_id lib r
    o ← call (λ db. accept_proposed r.now db r.clock ride u.id db) offer_error
    answer (write_json 200 (ride_offer_response o))

  unfoldable pub skip_driver_ride_request : Request → Handler Response
  skip_driver_ride_request r = do
    u ← require_capability driver r
    ride ← ride_id lib r
    done ← call (skip r.clock ride u.id) offer_error
    answer no_content

  unfoldable pub list_ride_offers : Request → Handler Response
  list_ride_offers r = do
    u ← require_capability rider r
    ride ← ride_id lib r
    offers ←
        read (λ db. list_for_rider lib.distance r.now r.later.started ride u.id db db) offer_error
    answer
        (write_json 200 (object ((codes "offers", array (map rider_offer_response offers)) ∷ [])))

  -- parseOfferPath
  unfoldable pub parse_offer_path : Request → Handler (ℕ × ℕ)
  parse_offer_path r = do
    ride ← ride_id lib r
    driver_id ← path_id lib (codes "driver_user_id") (codes "invalid driver_user_id") r
    answer (ride, driver_id)

  unfoldable pub accept_ride_offer : Request → Handler Response
  accept_ride_offer r = do
    u ← require_capability rider r
    ids ← parse_offer_path r
    version ←
        or_refuse (given (lib.version_body r.body))
          (refusal 400 (codes "refresh offers and select the current offer version"))
    t ← call (select_offer r.clock ids.0 u.id ids.1 version) assignment_error
    answer (write_json 200 (object ((codes "trip", trip_response t) ∷ [])))

  unfoldable pub reject_ride_offer : Request → Handler Response
  reject_ride_offer r = do
    u ← require_capability rider r
    ids ← parse_offer_path r
    o ← call (reject r.clock ids.0 u.id ids.1) offer_error
    answer (write_json 200 (ride_offer_response o))

  unfoldable pub discover_driver_marketplace : Request → Handler Response
  discover_driver_marketplace r = do
    u ← require_capability driver r
    items ← call (discover lib.distance r.clock u.id discovery_limit) undiscovered
    answer (
        write_json 200
          (object ((codes "ride_requests", array (map marketplace_item_response items)) ∷ [])))
