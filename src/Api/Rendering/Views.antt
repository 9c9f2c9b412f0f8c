-- ===== src/Api/Rendering/Views.antt =====
-- The JSON answers about what Riders and Drivers look at.
use uber_clone.Common.{ℕ, Bool, Option, none, some, List, [], ◌∷◌, ◌++◌, map}
use uber_clone.Common.Text.{Text, codes}
use uber_clone.Store.{Profile, Vehicle, DriverLocation}
use uber_clone.Http.Values.{Json, bool, number, text, uuid, instant, object, array, or_null}
use uber_clone.RideRequest.{Money}
use uber_clone.Views.RideStatus.{Request, TripView, View}
use uber_clone.Views.DriverTrip.{DriverView}
use uber_clone.Views.RiderLocation.{LocationView}
use uber_clone.Driver.Vehicles.{VehicleView, ServiceEnrollment, year_or_zero}
use uber_clone.Driver.Presence.{OperatingState}
use uber_clone.Api.Rendering.{
  trip_status_text, ride_status_text, actor_text, driver_status_text, place_response,
  money_response, name_text, context_response, settlement_response, model_year_response,
}

abbrev pub fare_fields : Option Money → List (Text × Json)
fare_fields none = []
fare_fields (some m) = (codes "proposed_fare", money_response m.amount_minor m.currency) ∷ []

abbrev pub cancelled_fields : Request → List (Text × Json)
cancelled_fields r = elim r.cancelled_at [
  | none ↦ []
  | some at ↦
      (codes "cancelled_at", instant at)
      ∷ (codes "cancelled_by", or_null (λ a. text (actor_text a)) r.cancelled_by)
      ∷ []
]

abbrev pub assigned_trip_response : TripView → Json
assigned_trip_response t = object (
    (codes "operation_context", or_null context_response t.operation_context)
    ∷ (codes "driver_user_id", uuid t.driver_user_id)
    ∷ (codes "status", text (trip_status_text t.status))
    ∷ (codes "assigned_at", instant t.assigned_at)
    ∷ (codes "started_at", or_null instant t.started_at)
    ∷ (codes "completed_at", or_null instant t.completed_at)
    ∷ (codes "cancelled_at", or_null instant t.cancelled_at)
    ∷ (codes "settlement", settlement_response t.settlement)
    ∷ [])

unfoldable pub ride_request_status_response : View → Json
ride_request_status_response v =
    let r = v.ride_request in
    object (
      (codes "service_code", text r.service_code)
        ∷ (codes "id", uuid r.id)
        ∷ (codes "pickup", place_response r.pickup)
        ∷ (codes "destination", place_response r.destination)
        ∷ (codes "status", text (ride_status_text r.status))
        ∷ (codes "created_at", instant r.created_at)
        ∷ (codes "expires_at", instant r.expires_at)
        ∷ (codes "trip", or_null assigned_trip_response v.trip)
        ∷ fare_fields r.proposed_fare
      ++ cancelled_fields r)

unfoldable pub ride_request_list_response : List View → Json
ride_request_list_response views =
    object ((codes "ride_requests", array (map ride_request_status_response views)) ∷ [])

abbrev pub view_fields : DriverView → List (Text × Json)
view_fields v =
    (codes "operation_context", or_null context_response v.operation_context)
    ∷ (codes "ride_request_id", uuid v.ride_request_id)
    ∷ (codes "pickup", place_response v.pickup)
    ∷ (codes "destination", place_response v.destination)
    ∷ (codes "status", text (trip_status_text v.status))
    ∷ (codes "assigned_at", instant v.assigned_at)
    ∷ (codes "started_at", or_null instant v.started_at)
    ∷ []

unfoldable pub driver_current_trip_response : DriverView → Json
driver_current_trip_response v =
    object (view_fields v ++ (codes "settlement", settlement_response v.settlement) ∷ [])

abbrev pub ended_trip_response : DriverView → Json
ended_trip_response v = object (
    view_fields v
    ++ (codes "completed_at", or_null instant v.completed_at)
      ∷ (codes "cancelled_at", or_null instant v.cancelled_at)
      ∷ (codes "settlement", settlement_response v.settlement)
      ∷ [])

unfoldable pub driver_trip_history_response : List DriverView → Json
driver_trip_history_response views =
    object ((codes "trips", array (map ended_trip_response views)) ∷ [])

unfoldable pub driver_response : Profile × Vehicle → Json
driver_response (p, v) = object (
    (codes "user_id", uuid p.user_id)
    ∷ (codes "display_name", text (name_text p.display_name))
    ∷ (codes "status", text (driver_status_text p.status))
    ∷ (codes "is_online", bool p.is_online)
    ∷ (
      codes "vehicle",
      object (
          (codes "id", uuid v.id)
          ∷ (codes "make", text v.make)
          ∷ (codes "model", text v.model)
          ∷ (codes "model_year", model_year_response (year_or_zero v.model_year))
          ∷ (codes "color", text v.color)
          ∷ (codes "license_plate", text v.license_plate)
          ∷ []),
    )
    ∷ [])

unfoldable pub driver_location_response : DriverLocation → Json
driver_location_response l = object (
    (codes "latitude", number l.place.latitude)
    ∷ (codes "longitude", number l.place.longitude)
    ∷ (codes "updated_at", instant l.updated_at)
    ∷ [])

unfoldable pub rider_location_response : LocationView → Json
rider_location_response l = object (
    (codes "ride_request_id", uuid l.ride_request_id)
    ∷ (codes "latitude", number l.place.latitude)
    ∷ (codes "longitude", number l.place.longitude)
    ∷ (codes "updated_at", instant l.updated_at)
    ∷ [])

abbrev pub enrollment_response : ServiceEnrollment → Json
enrollment_response e = object (
    (codes "service_code", text e.service_code)
    ∷ (codes "display_name", text e.display_name)
    ∷ (codes "approved_at", instant e.approved_at)
    ∷ (codes "service_active", bool e.service_active)
    ∷ [])

abbrev pub vehicle_response : VehicleView → Json
vehicle_response v = object (
    (codes "id", uuid v.id)
    ∷ (codes "make", text v.make)
    ∷ (codes "model", text v.model)
    ∷ (codes "model_year", model_year_response v.model_year)
    ∷ (codes "color", text v.color)
    ∷ (codes "license_plate", text v.license_plate)
    ∷ (codes "approved_service_enrollments", array (map enrollment_response v.enrollments))
    ∷ [])

unfoldable pub vehicles_response : List VehicleView → Json
vehicles_response l = object ((codes "vehicles", array (map vehicle_response l)) ∷ [])

-- The JSON tags of driver.OperatingState and driver.OperatingSelection.
unfoldable pub operating_state_response : OperatingState → Json
operating_state_response s = object (
    (
      codes "selection",
      or_null
          (λ (x : ℕ × Bool).
            object ((codes "vehicle_id", uuid x.0) ∷ (codes "valid", bool x.1) ∷ []))
          s.selection,
    )
    ∷ (codes "can_change", bool s.can_change)
    ∷ [])
