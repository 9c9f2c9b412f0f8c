-- ===== src/Api/Rendering.antt =====
-- The JSON answers about rides, offers, Trips and Drivers: the …Response functions of httpapi.
pub mod Views
use uber_clone.Common.{ℕ, Bool, Option, none, some, List, [], ◌∷◌, ◌++◌, ◌==◌, if◌then◌else◌, map}
use uber_clone.Common.Int.{ℤ, pos}
use uber_clone.Common.Text.{Text, codes}
use uber_clone.Common.Float.{Float}
use uber_clone.Store.{
  Location, OperationContext, Fare, Trip, TripStatus, Settlement, SettlementStatus, Offer,
  OfferStatus, RideStatus, CancellationActor, Profile, DriverStatus, Vehicle, DriverLocation,
}
use uber_clone.Http.Values.{
  Json, null, bool, int, number, text, uuid, instant, object, array, or_null,
}
use uber_clone.Offer.{Market}
use uber_clone.Offer.RiderList.{RiderOffer, VehicleSummary, ServiceSummary}
use uber_clone.Offer.Discovery.{DiscoveryItem}
use uber_clone.Cancellation.{LockedTrip, Cancellation}
use uber_clone.RideRequest.{Money}
use uber_clone.Views.RideStatus as RideStatuses
use uber_clone.Views.DriverTrip.{DriverView}
use uber_clone.Views.RiderLocation.{LocationView}
use uber_clone.Driver.Vehicles.{VehicleView, ServiceEnrollment, year_or_zero}
use uber_clone.Driver.Presence.{OperatingState}

abbrev pub trip_status_text : TripStatus → Text
trip_status_text TripStatus.assigned = codes "assigned"
trip_status_text TripStatus.in_progress = codes "in_progress"
trip_status_text TripStatus.completed = codes "completed"
trip_status_text TripStatus.cancelled = codes "cancelled"

abbrev pub settlement_status_text : SettlementStatus → Text
settlement_status_text SettlementStatus.unsettled = codes "unsettled"
settlement_status_text SettlementStatus.cash_collected = codes "cash_collected"

abbrev pub offer_status_text : OfferStatus → Text
offer_status_text OfferStatus.pending = codes "pending"
offer_status_text OfferStatus.accepted = codes "accepted"
offer_status_text OfferStatus.rejected = codes "rejected"
offer_status_text OfferStatus.expired = codes "expired"
offer_status_text OfferStatus.closed = codes "closed"

abbrev pub ride_status_text : RideStatus → Text
ride_status_text RideStatus.requested = codes "requested"
ride_status_text RideStatus.accepted = codes "accepted"
ride_status_text RideStatus.cancelled = codes "cancelled"
ride_status_text RideStatus.expired = codes "expired"

abbrev pub actor_text : CancellationActor → Text
actor_text CancellationActor.rider = codes "rider"
actor_text CancellationActor.driver = codes "driver"

abbrev pub driver_status_text : DriverStatus → Text
driver_status_text DriverStatus.approved = codes "approved"
driver_status_text DriverStatus.active = codes "active"

abbrev pub place_response : Location → Json
place_response p =
    object ((codes "latitude", number p.latitude) ∷ (codes "longitude", number p.longitude) ∷ [])

abbrev pub money_response : ℤ → Text → Json
money_response amount currency =
    object ((codes "amount_minor", int amount) ∷ (codes "currency", text currency) ∷ [])

-- A missing name is the empty string.
abbrev pub name_text : Option Text → Text
name_text none = []
name_text (some s) = s

-- The JSON tags of trip.OperationContext.
abbrev pub context_response : OperationContext → Json
context_response x = object (
    (codes "driver_name", text (name_text x.driver_name))
    ∷ (codes "vehicle_id", uuid x.vehicle_id)
    ∷ (codes "make", text x.make)
    ∷ (codes "model", text x.model)
    ∷ (codes "model_year", int (pos (year_or_zero x.model_year)))
    ∷ (codes "color", text x.color)
    ∷ (codes "license_plate", text x.license_plate)
    ∷ (codes "service_code", text x.service_code)
    ∷ (codes "service_name", text x.service_name)
    ∷ (codes "fare", money_response x.fare.amount_minor x.fare.currency)
    ∷ [])

abbrev pub settlement_response : Settlement → Json
settlement_response s = object (
    (codes "status", text (settlement_status_text s.status))
    ∷ (codes "method", or_null text s.method)
    ∷ (codes "cash_collected_at", or_null instant s.cash_collected_at)
    ∷ [])

-- The settlement that the code fills in for an empty status.
abbrev pub unsettled : Settlement
unsettled = record { status = SettlementStatus.unsettled; method = none; cash_collected_at = none }

unfoldable pub trip_response : Trip → Json
trip_response t = object (
    (codes "operation_context", or_null context_response t.operation_context)
    ∷ (codes "ride_request_id", uuid t.ride_request_id)
    ∷ (codes "rider_user_id", uuid t.rider_user_id)
    ∷ (codes "driver_user_id", uuid t.driver_user_id)
    ∷ (codes "status", text (trip_status_text t.status))
    ∷ (codes "assigned_at", instant t.assigned_at)
    ∷ (codes "started_at", or_null instant t.started_at)
    ∷ (codes "completed_at", or_null instant t.completed_at)
    ∷ (codes "cancelled_at", or_null instant t.cancelled_at)
    ∷ (codes "settlement", settlement_response t.settlement)
    ∷ [])

-- The same of the Trip of a cancellation, whose settlement is at its zero value.
abbrev pub unsettled_trip : LockedTrip → Trip
unsettled_trip t = record {
  operation_context = t.operation_context;
  ride_request_id = t.ride_request_id;
  rider_user_id = t.rider_user_id;
  driver_user_id = t.driver_user_id;
  status = t.status;
  assigned_at = t.assigned_at;
  started_at = t.started_at;
  completed_at = t.completed_at;
  cancelled_at = t.cancelled_at;
  settlement = unsettled;
  cash_collected_by = none;
}

unfoldable pub cancellation_response : Cancellation → Json
cancellation_response x = object (
    (codes "ride_request_id", uuid x.ride_request_id)
    ∷ (codes "status", text (ride_status_text x.status))
    ∷ (codes "cancelled_by", text (actor_text x.cancelled_by))
    ∷ (codes "cancelled_at", instant x.cancelled_at)
    ∷ (codes "trip", or_null (λ t. trip_response (unsettled_trip t)) x.trip)
    ∷ [])

abbrev pub offer_fields : Offer → List (Text × Json)
offer_fields o =
    (codes "ride_request_id", uuid o.ride_request_id)
    ∷ (codes "driver_user_id", uuid o.driver_user_id)
    ∷ (codes "fare", money_response o.amount_minor o.currency)
    ∷ (codes "status", text (offer_status_text o.status))
    ∷ (codes "created_at", instant o.created_at)
    ∷ (codes "updated_at", instant o.updated_at)
    ∷ (codes "expires_at", instant o.expires_at)
    ∷ (codes "decided_at", or_null instant o.decided_at)
    ∷ []

unfoldable pub ride_offer_response : Offer → Json
ride_offer_response o = object (offer_fields o)

-- Zero is the internal legacy sentinel.
abbrev pub model_year_response : ℕ → Json
model_year_response year = if year == 0 then null else int (pos year)

abbrev pub summary_response : VehicleSummary → Json
summary_response v = object (
    (codes "make", text v.make)
    ∷ (codes "model", text v.model)
    ∷ (codes "model_year", model_year_response v.model_year)
    ∷ (codes "color", text v.color)
    ∷ [])

abbrev pub service_response : ServiceSummary → Json
service_response s =
    object ((codes "code", text s.code) ∷ (codes "display_name", text s.display_name) ∷ [])

unfoldable pub rider_offer_response : RiderOffer → Json
rider_offer_response o = object (
    offer_fields o.offer
    ++ (codes "pickup_distance_meters", or_null number o.pickup_distance_meters)
      ∷ (codes "matches_proposed_fare", bool o.matches_proposed_fare)
      ∷ (codes "selectable", bool o.selectable)
      ∷ (codes "driver", or_null (λ name. object ((codes "display_name", text name) ∷ [])) o.driver)
      ∷ (codes "vehicle", or_null summary_response o.vehicle)
      ∷ (codes "service", or_null service_response o.service)
      ∷ [])

-- Discover leaves the own offer out.
unfoldable pub marketplace_item_response : DiscoveryItem → Json
marketplace_item_response i = object (
    (codes "id", uuid i.ride_request_id)
    ∷ (codes "pickup", place_response i.pickup)
    ∷ (codes "destination", place_response i.destination)
    ∷ (
      codes "proposed_fare",
      money_response i.proposed_fare.proposed_amount_minor i.proposed_fare.currency,
    )
    ∷ (codes "created_at", instant i.created_at)
    ∷ (codes "expires_at", instant i.ride_expires_at)
    ∷ (codes "response_deadline", instant i.opportunity_expires_at)
    ∷ (codes "own_offer", null)
    ∷ (codes "pickup_distance_meters", number i.pickup_distance_meters)
    ∷ [])
