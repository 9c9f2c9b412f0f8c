-- ===== src/Api/Endpoints.antt =====
-- httpapi/routes.go: the endpoints of signed-in users, with their handlers behind the middleware.
pub mod Refusals
pub mod Checked
pub mod Parts
pub mod Users
pub mod Drivers
pub mod Rides
pub mod Guarded
use uber_clone.Common.{ℕ, Option, none, some}
use uber_clone.Common.Text.{Text}
use uber_clone.Users.{Capability, rider, driver}
use uber_clone.Http.{Request, Response, Handler}
use uber_clone.Http.Access.{Provider, middleware, me, enable_driver_capability}
use uber_clone.RideRequest.{Config}
use uber_clone.Onboarding.Submission.{ApplicationInput}
use uber_clone.Api.{Library}
use uber_clone.Api.Fares.{Services}
use uber_clone.Api.Places.{
  PlaceLibrary, autocomplete_places, get_place_details, reverse_geocode_place, create_ride_preview,
  create_driver_route_preview,
}
use uber_clone.Api.RideServices.{list_ride_services}
use uber_clone.Api.Rides.{
  RideBody, create_ride_request, get_ride_request_status, get_ride_driver_location,
  list_ride_requests,
}
use uber_clone.Api.Offers.{
  submit_ride_offer, accept_ride_request_fare, skip_driver_ride_request, accept_ride_offer,
  reject_ride_offer, discover_driver_marketplace, list_ride_offers,
}
use uber_clone.Api.Trips.{
  start_trip, complete_trip, confirm_cash, cancel_ride_request, cancel_driver_ride_request,
}
use uber_clone.Api.Drivers.{
  set_driver_availability, set_driver_selection, set_driver_location, list_driver_vehicles,
  get_driver, get_driver_selection, get_driver_current_trip, list_driver_trip_history,
}
use uber_clone.Api.Onboarding.{
  list_driver_services, get_driver_onboarding, precheck_driver_onboarding, submit_driver_onboarding,
}

pub data UserEndpoint : Type 0 where
  get_me put_capability : UserEndpoint

pub data DriverEndpoint : Type 0 where
  get_services get_onboarding post_precheck post_onboarding get_selection put_selection get_vehicles
        get_profile put_availability put_location get_trip post_route_preview get_trips
        get_marketplace put_offer post_accept_fare post_skip post_start post_complete post_cash
        post_cancel_driver :
      DriverEndpoint

pub data RideEndpoint : Type 0 where
  get_ride_services post_autocomplete get_place post_reverse_geocode post_preview post_ride
        get_rides get_ride get_driver_location post_cancel_ride get_offers post_accept_offer
        post_reject_offer :
      RideEndpoint

pub data Endpoint : Type 0 where
  of_users : UserEndpoint → Endpoint
  of_drivers : DriverEndpoint → Endpoint
  of_rides : RideEndpoint → Endpoint

-- The capability whose holders an endpoint serves; `none` is every user.
abbrev pub needs : Endpoint → Option Capability
needs (of_users e) = none
needs (of_drivers e) = some driver
needs (of_rides e) = some rider

-- What the handlers run on: the libraries, the services, `year` for the current year, and the
-- identifier of a row that the request may add.
pub record Server : Type 0 where
  pub lib : Library
  pub services : Services
  pub config : Config
  pub places : PlaceLibrary
  pub ride_body : Text → Option RideBody
  pub application_body : Text → Option ApplicationInput
  pub reason_body : Text → Option Text
  pub year : ℕ
  pub new_id : ℕ

-- registerUserRoutes
unfoldable pub user_handler : UserEndpoint → Request → Handler Response
user_handler get_me = me
user_handler put_capability = enable_driver_capability

module _ (x : Server) where
  -- registerDriverRoutes
  unfoldable pub driver_handler : DriverEndpoint → Request → Handler Response
  driver_handler get_services =
      list_driver_services x.lib x.services.cases x.year x.application_body x.reason_body
  driver_handler get_onboarding =
      get_driver_onboarding x.lib x.services.cases x.year x.application_body x.reason_body
  driver_handler post_precheck =
      precheck_driver_onboarding x.lib x.services.cases x.year x.application_body x.reason_body
  driver_handler post_onboarding =
      submit_driver_onboarding x.lib x.services.cases x.year x.application_body x.reason_body
        x.new_id
  driver_handler get_selection = get_driver_selection
  driver_handler put_selection = set_driver_selection x.lib
  driver_handler get_vehicles = list_driver_vehicles x.lib
  driver_handler get_profile = get_driver
  driver_handler put_availability = set_driver_availability x.lib
  driver_handler put_location = set_driver_location x.lib
  driver_handler get_trip = get_driver_current_trip
  driver_handler post_route_preview = create_driver_route_preview x.lib x.places x.services
  driver_handler get_trips = list_driver_trip_history
  driver_handler get_marketplace = discover_driver_marketplace x.lib
  driver_handler put_offer = submit_ride_offer x.lib
  driver_handler post_accept_fare = accept_ride_request_fare x.lib
  driver_handler post_skip = skip_driver_ride_request x.lib
  driver_handler post_start = start_trip x.lib
  driver_handler post_complete = complete_trip x.lib
  driver_handler post_cash = confirm_cash x.lib
  driver_handler post_cancel_driver = cancel_driver_ride_request x.lib

  -- registerRideRoutes
  unfoldable pub ride_handler : RideEndpoint → Request → Handler Response
  ride_handler get_ride_services = list_ride_services x.lib x.config.pricing_required
  ride_handler post_autocomplete = autocomplete_places x.lib x.places x.services
  ride_handler get_place = get_place_details x.lib x.places x.services
  ride_handler post_reverse_geocode = reverse_geocode_place x.lib x.places x.services
  ride_handler post_preview = create_ride_preview x.lib x.places x.services
  ride_handler post_ride = create_ride_request x.lib x.services x.config x.ride_body x.new_id
  ride_handler get_rides = list_ride_requests
  ride_handler get_ride = get_ride_request_status x.lib x.services x.config x.ride_body
  ride_handler get_driver_location = get_ride_driver_location x.lib x.services x.config x.ride_body
  ride_handler post_cancel_ride = cancel_ride_request x.lib
  ride_handler get_offers = list_ride_offers x.lib
  ride_handler post_accept_offer = accept_ride_offer x.lib
  ride_handler post_reject_offer = reject_ride_offer x.lib

  -- The handler that the mux has for the endpoint.
  unfoldable pub handler : Endpoint → Request → Handler Response
  handler (of_users e) = user_handler e
  handler (of_drivers e) = driver_handler e
  handler (of_rides e) = ride_handler e

  -- authenticated
  unfoldable pub authenticated : Provider → Endpoint → Request → Handler Response
  authenticated provider e = middleware provider (handler e)
