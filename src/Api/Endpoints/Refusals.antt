-- ===== src/Api/Endpoints/Refusals.antt =====
-- Every error of a service is answered by a refusal.
use uber_clone.Common.{◌<◌, arith}
use uber_clone.Offer.{OfferError}
use uber_clone.Trip.{TripError}
use uber_clone.Cancellation.{CancellationError}
use uber_clone.Marketplace.Assignment.{AssignmentError}
use uber_clone.Driver.Presence.{DriverError}
use uber_clone.Driver.Location.{LocationError}
use uber_clone.Pricing.Calculate.{
  PricingError, invalid_policy, invalid_service, policy_changed, unavailable,
}
use uber_clone.Routing.{RouteError}
use uber_clone.Places.{SearchError}
use uber_clone.RideRequest.{RideError, pricing}
use uber_clone.Api.Fares.{pricing_error, routing_error, search_error}
use uber_clone.Api.Rides.{ride_error, rider_location_error}
use uber_clone.Api.Onboarding.{precheck_error, submission_error}
use uber_clone.Onboarding.{OnboardingError}
use uber_clone.Views.RiderLocation.{RiderLocationError}
use uber_clone.Api.Offers.{offer_error, assignment_error}
use uber_clone.Api.Drivers.{
  profile_error, availability_error, operating_state_error, location_error,
}
use uber_clone.Api.Trips.{trip_error, cancellation_error}

pub trip_error_status : (e : TripError) → 299 < (trip_error e).status
unfolding trip_error
trip_error_status e = ground arith

pub cancellation_error_status : (e : CancellationError) → 299 < (cancellation_error e).status
unfolding cancellation_error
cancellation_error_status e = ground arith

pub offer_error_status : (e : OfferError) → 299 < (offer_error e).status
unfolding offer_error
offer_error_status e = ground arith

pub assignment_error_status : (e : AssignmentError) → 299 < (assignment_error e).status
unfolding assignment_error
assignment_error_status e = ground arith

pub availability_error_status : (e : DriverError) → 299 < (availability_error e).status
unfolding availability_error
availability_error_status e = ground arith

pub operating_state_error_status : (e : DriverError) → 299 < (operating_state_error e).status
unfolding operating_state_error
operating_state_error_status e = ground arith

pub location_error_status : (e : LocationError) → 299 < (location_error e).status
unfolding location_error
location_error_status e = ground arith

pub pricing_error_status : (e : PricingError) → 299 < (pricing_error e).status
unfolding pricing_error
pricing_error_status e = ground arith

pub routing_error_status : (e : RouteError) → 299 < (routing_error e).status
unfolding routing_error
routing_error_status e = ground arith

pub search_error_status : (e : SearchError) → 299 < (search_error e).status
unfolding search_error
search_error_status e = ground arith

pub ride_error_status : (e : RideError) → 299 < (ride_error e).status
unfolding ride_error
ride_error_status (pricing invalid_policy) = pricing_error_status invalid_policy
ride_error_status (pricing invalid_service) = pricing_error_status invalid_service
ride_error_status (pricing policy_changed) = pricing_error_status policy_changed
ride_error_status (pricing unavailable) = pricing_error_status unavailable
ride_error_status e = ground arith

pub profile_error_status : (e : DriverError) → 299 < (profile_error e).status
unfolding profile_error
profile_error_status e = ground arith

pub rider_location_error_status : (e : RiderLocationError) → 299 < (rider_location_error e).status
unfolding rider_location_error
rider_location_error_status e = ground arith

pub precheck_error_status : (e : OnboardingError) → 299 < (precheck_error e).status
unfolding precheck_error
precheck_error_status e = ground arith

pub submission_error_status : (e : OnboardingError) → 299 < (submission_error e).status
unfolding submission_error
submission_error_status e = ground arith
