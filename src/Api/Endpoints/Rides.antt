-- ===== src/Api/Endpoints/Rides.antt =====
-- The endpoints of registerRideRoutes answer Riders only.
use uber_clone.Common.{Option, none, some, [], ◌∷◌, ◌++◌, map, arith}
use uber_clone.Common.Text.{Text, codes, is_empty, trim_space}
use uber_clone.Store.{Db, Policy}
use uber_clone.Users.{rider}
use uber_clone.Http.{Request, write_json, serve, or_refuse, refuse_if}
use uber_clone.Http.Values.{object, array}
use uber_clone.Http.Access.{Provider, middleware}
use uber_clone.Http.Careful.{
  IsCheck, bad_request-IsCheck, or_refuse-IsCheck, refuse_if-IsCheck, read-IsCheck, if-IsCheck,
  answer-IsCheck, >>=-IsCheck, >>=-IsCareful, call-IsCareful,
}
use uber_clone.Http.Allowed.{Guarded, middleware-Guarded}
use uber_clone.Offer.Decision.{reject}
use uber_clone.Marketplace.Assignment.{select_offer}
use uber_clone.Routing.{Route, preview}
use uber_clone.Places.{autocomplete, reverse_geocode}
use uber_clone.Api.Rendering.{ride_offer_response, cancellation_response, trip_response}
use uber_clone.Api.Rendering.Views.{ride_request_status_response}
use uber_clone.Api.Fares.{routing_error, search_error, pricing_error}
use uber_clone.Api.Places.{
  autocomplete_input, endpoint, route_fields, suggestion, policy_for, autocomplete_places,
  get_place_details, reverse_geocode_place, create_ride_preview, no_route, incomplete_preview,
}
use uber_clone.Api.RideServices.{list_bookable, ride_service_response, list_ride_services}
use uber_clone.Api.Drivers.{both}
use uber_clone.Api.Rides.{
  unlisted, rider_location_error, create_ride_request, get_ride_request_status,
  get_ride_driver_location, list_ride_requests,
}
use uber_clone.Api.Offers.{
  offer_error, assignment_error, accept_ride_offer, reject_ride_offer, list_ride_offers,
}
use uber_clone.Api.Trips.{cancellation_error, cancel_ride_request}
use uber_clone.Api.Endpoints.{
  RideEndpoint, Server, ride_handler, get_ride_services, post_autocomplete, get_place,
  post_reverse_geocode, post_preview, post_ride, get_rides, get_ride, get_driver_location,
  post_cancel_ride, get_offers, post_accept_offer, post_reject_offer,
}
use uber_clone.Api.Endpoints.Refusals.{
  cancellation_error_status, offer_error_status, assignment_error_status, routing_error_status,
  search_error_status, pricing_error_status, rider_location_error_status,
}
use uber_clone.Api.Endpoints.Checked.{
  checked_fare-IsCheck, body_input-IsCheck, allow-IsCheck, current_pkr-IsCheck,
}
use uber_clone.Api.Endpoints.Parts.{
  ride_id-IsCheck, parse_offer_path-IsCheck, on_ride-IsCareful, create-IsCareful, query-IsCheck,
  shown-IsCareful,
}

complete-IsCheck {ℓ} : {A : Type ℓ} (o : Option A) → IsCheck (or_refuse o incomplete_preview)
complete-IsCheck o = or_refuse-IsCheck o incomplete_preview (omega arith)

named-IsCheck :
    (service : Text) → IsCheck (refuse_if (is_empty (trim_space service)) incomplete_preview)
named-IsCheck service =
    refuse_if-IsCheck (is_empty (trim_space service)) incomplete_preview (omega arith)

module _ (x : Server) where
  suggestion-IsCheck :
      (p : Option Policy) (route : Route) → IsCheck (suggestion x.lib x.places x.services p route)
  suggestion-IsCheck none route = answer-IsCheck _
  suggestion-IsCheck (some p) route =
      >>=-IsCheck _ _ (read-IsCheck _ pricing_error pricing_error_status) (λ a. answer-IsCheck _)

  policy_for-IsCheck : (service : Text) → IsCheck (policy_for x.lib x.places x.services service)
  policy_for-IsCheck service =
      if-IsCheck x.services.suggested_fares_enabled _ _
        (>>=-IsCheck _ _ (current_pkr-IsCheck x.services service) (λ p. answer-IsCheck _))
        (answer-IsCheck _)

  pub ride-Guarded :
      (provider : Provider) (e : RideEndpoint) (r : Request) (db : Db)
      → Guarded provider (some rider) r db (serve (middleware provider (ride_handler x e) r) db)
  unfolding ride_handler list_ride_services autocomplete_places get_place_details
      reverse_geocode_place create_ride_preview create_ride_request list_ride_requests
      get_ride_request_status get_ride_driver_location cancel_ride_request list_ride_offers
      accept_ride_offer reject_ride_offer
  ride-Guarded provider get_ride_services =
      middleware-Guarded provider _
        (λ r u.
          shown-IsCareful _
            (λ l. object (
              (codes "services", array (map (ride_service_response x.config.pricing_required) l))
              ∷ []))
            (query-IsCheck (list_bookable x.config.pricing_required x.lib.collation)))
        rider
  ride-Guarded provider post_autocomplete =
      middleware-Guarded provider _
        (λ r u. >>=-IsCareful _ _ (allow-IsCheck x.services u.id r) (λ search.
          >>=-IsCareful _ _
            (bad_request-IsCheck (x.places.autocomplete_body r.body)
              (codes "invalid autocomplete request"))
            (λ b. shown-IsCareful _ _ (
              read-IsCheck
                (λ db. autocomplete search x.services.search_policy (autocomplete_input b))
                search_error search_error_status))))
        rider
  ride-Guarded provider get_place =
      middleware-Guarded provider _
        (λ r u.
          >>=-IsCareful _ _ (allow-IsCheck x.services u.id r)
            (λ search. shown-IsCareful _ _ (read-IsCheck _ search_error search_error_status)))
        rider
  ride-Guarded provider post_reverse_geocode =
      middleware-Guarded provider _
        (λ r u. >>=-IsCareful _ _ (allow-IsCheck x.services u.id r) (λ search.
          >>=-IsCareful _ _
            (bad_request-IsCheck (both (x.lib.location_body r.body))
              (codes "latitude and longitude are required"))
            (λ point. shown-IsCareful _ _ (
              read-IsCheck (λ db. reverse_geocode search point) search_error search_error_status))))
        rider
  ride-Guarded provider post_preview =
      middleware-Guarded provider _
        (λ r u.
          >>=-IsCareful _ _ (or_refuse-IsCheck x.services.routing no_route (omega arith)) (λ router.
            >>=-IsCareful _ _ (complete-IsCheck (x.places.preview_body r.body)) (λ b.
              >>=-IsCareful _ _ (complete-IsCheck (endpoint b.pickup)) (λ pickup.
                >>=-IsCareful _ _ (complete-IsCheck (endpoint b.destination)) (λ destination.
                  >>=-IsCareful _ _ (named-IsCheck b.service_code) (λ t.
                    >>=-IsCareful _ _ (policy_for-IsCheck b.service_code) (λ policy.
                      >>=-IsCareful _ _
                        (read-IsCheck (λ db. preview router r.now pickup destination) routing_error
                          routing_error_status)
                        (λ route.
                          shown-IsCareful _ (λ fare. object (route_fields route ++ fare))
                            (suggestion-IsCheck policy route)))))))))
        rider
  ride-Guarded provider post_ride =
      middleware-Guarded provider _
        (λ r u. >>=-IsCareful _ _ (bad_request-IsCheck _ _) (λ b.
          >>=-IsCareful _ _ (body_input-IsCheck b) (λ i.
            >>=-IsCareful _ _
              (checked_fare-IsCheck x.lib x.services x.config x.ride_body u.id r b i.1 i.0)
              (λ t. create-IsCareful x.lib x.services x.config x.new_id r u i.0))))
        rider
  ride-Guarded provider get_rides =
      middleware-Guarded provider _ (λ r u. record { finishes = λ db. omega arith }) rider
  ride-Guarded provider get_ride =
      middleware-Guarded provider _
        (on_ride-IsCareful x.lib _ unlisted (λ v. write_json 200 (ride_request_status_response v))
          (λ e. omega arith) (λ a. omega arith))
        rider
  ride-Guarded provider get_driver_location =
      middleware-Guarded provider _
        (λ r u. >>=-IsCareful _ _ (ride_id-IsCheck x.lib r) (λ ride.
          shown-IsCareful _ _ (read-IsCheck _ rider_location_error rider_location_error_status)))
        rider
  ride-Guarded provider post_cancel_ride =
      middleware-Guarded provider _
        (on_ride-IsCareful x.lib _ cancellation_error
          (λ o. write_json 200 (cancellation_response o)) cancellation_error_status
          (λ a. omega arith))
        rider
  ride-Guarded provider get_offers =
      middleware-Guarded provider _
        (λ r u.
          >>=-IsCareful _ _ (ride_id-IsCheck x.lib r)
            (λ ride. shown-IsCareful _ _ (read-IsCheck _ offer_error offer_error_status)))
        rider
  ride-Guarded provider post_accept_offer =
      middleware-Guarded provider _
        (λ r u. >>=-IsCareful _ _ (parse_offer_path-IsCheck x.lib r) (λ ids.
          >>=-IsCareful _ _ (bad_request-IsCheck _ _) (λ v.
            call-IsCareful (select_offer r.clock ids.0 u.id ids.1 v) assignment_error
              (λ t. write_json 200 (object ((codes "trip", trip_response t) ∷ [])))
              assignment_error_status (λ o. omega arith))))
        rider
  ride-Guarded provider post_reject_offer =
      middleware-Guarded provider _
        (λ r u. >>=-IsCareful _ _ (parse_offer_path-IsCheck x.lib r) (λ ids.
          call-IsCareful (reject r.clock ids.0 u.id ids.1) offer_error
            (λ o. write_json 200 (ride_offer_response o)) offer_error_status (λ o. omega arith)))
        rider
