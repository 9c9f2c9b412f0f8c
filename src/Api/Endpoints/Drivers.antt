-- ===== src/Api/Endpoints/Drivers.antt =====
-- The endpoints of registerDriverRoutes answer Drivers only.
use uber_clone.Common.{some, [], ◌∷◌, map, ◌||◌, not, ◌==◌, arith}
use uber_clone.Common.Text.{codes, text_eq}
use uber_clone.Store.{Db}
use uber_clone.Users.{driver}
use uber_clone.Http.{Request, write_json, no_content, serve, refusal}
use uber_clone.Http.Values.{object, array}
use uber_clone.Http.Access.{Provider, middleware}
use uber_clone.Http.Careful.{
  bad_request-IsCheck, or_refuse-IsCheck, refuse_if-IsCheck, read-IsCheck, >>=-IsCareful,
  call-IsCareful, call_kept-IsCareful,
}
use uber_clone.Http.Allowed.{Guarded, middleware-Guarded}
use uber_clone.Trip.{start, complete, confirm_cash_collected}
use uber_clone.Offer.{submit}
use uber_clone.Offer.Discovery.{discover, discovery_limit}
use uber_clone.Driver.Presence.{set_online, select_operation, find_by_user_id, operating_state}
use uber_clone.Driver.Presence.Frame.{
  set_online-KeepsProfiles, select_operation-KeepsProfiles, find_by_user_id-KeepsProfiles,
  operating_state-KeepsProfiles,
}
use uber_clone.Driver.Vehicles.{list_vehicles}
use uber_clone.Driver.Location.{set_current}
use uber_clone.Onboarding.{list_services, latest_application}
use uber_clone.Onboarding.Submission.{precheck, submit as submit_application}
use uber_clone.Views.DriverTrip.{get_current, list_history, history_limit}
use uber_clone.Routing.{preview}
use uber_clone.Api.Rendering.{
  trip_status_text, marketplace_item_response, ride_offer_response, cancellation_response,
  trip_response,
}
use uber_clone.Api.Rendering.Views.{
  vehicles_response, driver_trip_history_response, driver_location_response, driver_response,
  operating_state_response,
}
use uber_clone.Api.Fares.{routing_error}
use uber_clone.Api.Places.{create_driver_route_preview, no_route}
use uber_clone.Api.Offers.{
  offer_error, submit_ride_offer, accept_ride_request_fare, skip_driver_ride_request,
  discover_driver_marketplace, undiscovered,
}
use uber_clone.Api.Drivers.{
  no_trip, profile_error, availability_error, operating_state_error, location_error,
  set_driver_availability, set_driver_selection, set_driver_location, list_driver_vehicles,
  get_driver, get_driver_selection, get_driver_current_trip, list_driver_trip_history,
}
use uber_clone.Api.Trips.{
  Transition, trip_error, cancellation_error, transition_trip, cancel_driver_ride_request,
}
use uber_clone.Api.Onboarding.{
  list_driver_services, get_driver_onboarding, precheck_driver_onboarding, submit_driver_onboarding,
  no_application, precheck_error, submission_error, driver_onboarding_response,
  driver_service_response,
}
use uber_clone.Api.Endpoints.{
  DriverEndpoint, Server, driver_handler, get_services, get_onboarding, post_precheck,
  post_onboarding, get_selection, put_selection, get_vehicles, get_profile, put_availability,
  put_location, get_trip, post_route_preview, get_trips, get_marketplace, put_offer,
  post_accept_fare, post_skip, post_start, post_complete, post_cash, post_cancel_driver,
}
use uber_clone.Api.Endpoints.Refusals.{
  trip_error_status, cancellation_error_status, offer_error_status, profile_error_status,
  availability_error_status, operating_state_error_status, location_error_status,
  routing_error_status, precheck_error_status, submission_error_status,
}
use uber_clone.Api.Endpoints.Checked.{driver_route-IsCheck}
use uber_clone.Api.Endpoints.Parts.{
  ride_id-IsCheck, on_ride-IsCareful, KeepsProfiles-KeepsFrame, query-IsCheck, shown-IsCareful,
}

module _ (x : Server) (provider : Provider) where
  transition-Guarded :
      (t : Transition) (r : Request) (db : Db)
      → Guarded provider
          (some driver)
          r
          db
          (serve (middleware provider (transition_trip x.lib t) r) db)
  unfolding transition_trip
  transition-Guarded t =
      middleware-Guarded provider _
        (on_ride-IsCareful x.lib _ trip_error (λ t. write_json 200 (trip_response t))
          trip_error_status (λ a. omega arith))
        driver

  pub driver-Guarded :
      (e : DriverEndpoint) (r : Request) (db : Db)
      → Guarded provider (some driver) r db (serve (middleware provider (driver_handler x e) r) db)
  unfolding driver_handler cancel_driver_ride_request submit_ride_offer accept_ride_request_fare
      skip_driver_ride_request discover_driver_marketplace set_driver_availability
      set_driver_selection set_driver_location list_driver_vehicles get_driver get_driver_selection
      get_driver_current_trip list_driver_trip_history list_driver_services get_driver_onboarding
      precheck_driver_onboarding submit_driver_onboarding create_driver_route_preview
  driver-Guarded get_services =
      middleware-Guarded provider _
        (λ r u.
          shown-IsCareful _
            (λ l. object ((codes "services", array (map driver_service_response l)) ∷ []))
            (query-IsCheck (list_services x.lib.collation)))
        driver
  driver-Guarded get_onboarding =
      middleware-Guarded provider _
        (λ r u.
          shown-IsCareful _ _
            (read-IsCheck (latest_application u.id) no_application (λ e. omega arith)))
        driver
  driver-Guarded post_precheck =
      middleware-Guarded provider _
        (λ r u.
          >>=-IsCareful _ _
            (bad_request-IsCheck (x.application_body r.body) (codes "invalid request"))
            (λ b. shown-IsCareful _ _ (
              read-IsCheck (precheck x.services.cases x.year b) precheck_error
                precheck_error_status)))
        driver
  driver-Guarded post_onboarding =
      middleware-Guarded provider _
        (λ r u.
          >>=-IsCareful _ _
            (bad_request-IsCheck (x.application_body r.body) (codes "invalid request"))
            (λ b.
              call-IsCareful
                (λ db. submit_application x.services.cases x.year db x.new_id r.now u.id b db)
                submission_error (λ a. write_json 201 (driver_onboarding_response a))
                submission_error_status (λ a. omega arith)))
        driver
  driver-Guarded get_selection =
      middleware-Guarded provider _
        (λ r u.
          call_kept-IsCareful (operating_state r.clock u.id) operating_state_error
            (λ l. write_json 200 (operating_state_response l)) operating_state_error_status
            (λ o. omega arith)
            (λ db. KeepsProfiles-KeepsFrame db _ (operating_state-KeepsProfiles r.clock u.id db)))
        driver
  driver-Guarded put_selection =
      middleware-Guarded provider _
        (λ r u. >>=-IsCareful _ _ (bad_request-IsCheck _ _) (λ p.
          call_kept-IsCareful (select_operation r.clock r.later u.id p) operating_state_error
            (λ l. write_json 200 (operating_state_response l)) operating_state_error_status
            (λ o. omega arith)
            (λ db.
              KeepsProfiles-KeepsFrame db _
                (select_operation-KeepsProfiles r.clock r.later u.id p db))))
        driver
  driver-Guarded get_vehicles =
      middleware-Guarded provider _
        (λ r u.
          shown-IsCareful _ vehicles_response (query-IsCheck (list_vehicles x.lib.collation u.id)))
        driver
  driver-Guarded get_profile =
      middleware-Guarded provider _
        (λ r u.
          call_kept-IsCareful (find_by_user_id r.clock u.id) profile_error
            (λ l. write_json 200 (driver_response l)) profile_error_status (λ o. omega arith)
            (λ db. KeepsProfiles-KeepsFrame db _ (find_by_user_id-KeepsProfiles r.clock u.id db)))
        driver
  driver-Guarded put_availability =
      middleware-Guarded provider _
        (λ r u. >>=-IsCareful _ _ (bad_request-IsCheck _ _) (λ p.
          call_kept-IsCareful (set_online r.clock r.later u.id p) availability_error
            (λ l. write_json 200 (driver_response l)) availability_error_status (λ o. omega arith)
            (λ db.
              KeepsProfiles-KeepsFrame db _ (set_online-KeepsProfiles r.clock r.later u.id p db))))
        driver
  driver-Guarded put_location =
      middleware-Guarded provider _
        (λ r u. >>=-IsCareful _ _ (bad_request-IsCheck _ _) (λ p.
          call-IsCareful (set_current r.clock u.id p) location_error
            (λ l. write_json 200 (driver_location_response l)) location_error_status
            (λ o. omega arith)))
        driver
  driver-Guarded get_trip =
      middleware-Guarded provider _
        (λ r u. shown-IsCareful _ _ (read-IsCheck (get_current u.id) no_trip (λ e. omega arith)))
        driver
  driver-Guarded post_route_preview =
      middleware-Guarded provider _
        (λ r u.
          >>=-IsCareful _ _
            (bad_request-IsCheck (x.places.driver_route_body r.body)
              (codes "invalid route request"))
            (λ b.
              >>=-IsCareful _ _
                (bad_request-IsCheck (x.lib.parse_uuid b.ride_request_id)
                  (codes "invalid ride_request_id"))
                (λ ride.
                  >>=-IsCareful _ _ (read-IsCheck (get_current u.id) no_trip (λ e. omega arith))
                    (λ v.
                      >>=-IsCareful _ _
                        (refuse_if-IsCheck
                          (not (v.ride_request_id == ride)
                            || not (text_eq (trip_status_text v.status) b.status))
                          (refusal 409 (codes "trip or route stage changed")) (omega arith))
                        (λ t.
                          >>=-IsCareful _ _ (driver_route-IsCheck x.lib x.places x.services v b)
                            (λ ends.
                              >>=-IsCareful _ _
                                (or_refuse-IsCheck x.services.routing no_route (omega arith))
                                (λ router. shown-IsCareful _ _ (
                                  read-IsCheck (λ db. preview router r.now ends.0 ends.1)
                                    routing_error routing_error_status))))))))
        driver
  driver-Guarded get_trips =
      middleware-Guarded provider _
        (λ r u.
          shown-IsCareful _ driver_trip_history_response
            (query-IsCheck (list_history u.id history_limit)))
        driver
  driver-Guarded get_marketplace =
      middleware-Guarded provider _
        (λ r u.
          call-IsCareful (discover x.lib.distance r.clock u.id discovery_limit) undiscovered
            (λ l.
              write_json 200
                (object ((codes "ride_requests", array (map marketplace_item_response l)) ∷ [])))
            (λ e. omega arith) (λ a. omega arith))
        driver
  driver-Guarded put_offer =
      middleware-Guarded provider _
        (λ r u. >>=-IsCareful _ _ (ride_id-IsCheck x.lib r) (λ ride.
          >>=-IsCareful _ _ (bad_request-IsCheck _ _) (λ a.
            call-IsCareful (λ db. submit r.now db r.clock ride u.id a db) offer_error
              (λ o. write_json 200 (ride_offer_response o)) offer_error_status (λ o. omega arith))))
        driver
  driver-Guarded post_accept_fare =
      middleware-Guarded provider _
        (on_ride-IsCareful x.lib _ offer_error (λ o. write_json 200 (ride_offer_response o))
          offer_error_status (λ a. omega arith))
        driver
  driver-Guarded post_skip =
      middleware-Guarded provider _
        (on_ride-IsCareful x.lib _ offer_error (λ d. no_content) offer_error_status
          (λ a. omega arith))
        driver
  driver-Guarded post_start = transition-Guarded start
  driver-Guarded post_complete = transition-Guarded complete
  driver-Guarded post_cash = transition-Guarded confirm_cash_collected
  driver-Guarded post_cancel_driver =
      middleware-Guarded provider _
        (on_ride-IsCareful x.lib _ cancellation_error
          (λ o. write_json 200 (cancellation_response o)) cancellation_error_status
          (λ a. omega arith))
        driver
