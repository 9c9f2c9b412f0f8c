-- ===== src/Store/Drivers.antt =====
-- The rows about users, Drivers, their vehicles and their applications.
use uber_clone.Common.{ℕ, Bool, Option}
use uber_clone.Common.Int.{ℤ}
use uber_clone.Common.Text.{Text}
use uber_clone.Store.Rows.{Location}

pub data DriverStatus : Type 0 where
  approved active : DriverStatus

-- users
pub record UserRow : Type 0 where
  pub id : ℕ
  pub created_at : ℕ

-- external_identities; the column created_at is not read.
pub record IdentityRow : Type 0 where
  pub user_id : ℕ
  pub issuer : Text
  pub subject : Text

-- driver_profiles: the row; driver.Profile joins it with a vehicle.
pub record Profile : Type 0 where
  pub user_id : ℕ
  pub display_name : Option Text
  pub status : DriverStatus
  pub is_online : Bool
  pub created_at : ℕ
  pub updated_at : ℕ

-- driver_vehicles: the row; driver.Vehicle joins it with the enrollments.
pub record Vehicle : Type 0 where
  pub id : ℕ
  pub driver_user_id : ℕ
  pub make : Text
  pub model : Text
  pub model_year : Option ℕ
  pub color : Text
  pub license_plate : Text
  pub created_at : ℕ

-- driver_vehicle_service_enrollments
pub record Enrollment : Type 0 where
  pub vehicle_id : ℕ
  pub service_code : Text
  pub approved_at : ℕ
  pub approved_by : Text

-- driver_service_catalog
pub record CatalogService : Type 0 where
  pub code : Text
  pub display_name : Text
  pub description : Text
  pub minimum_model_year : Option ℕ
  pub implied_service_code : Option Text
  pub is_active : Bool
  pub rider_visible : Bool
  pub sort_order : ℕ
  pub presentation_token : Text

-- driver_operating_selections
pub record Selection : Type 0 where
  pub driver_user_id : ℕ
  pub vehicle_id : ℕ

-- driver_locations
pub record DriverLocation : Type 0 where
  pub driver_user_id : ℕ
  pub place : Location
  pub updated_at : ℕ

-- marketplace_timing_policy
pub record TimingPolicy : Type 0 where
  pub ride_request_ttl_seconds : ℤ
  pub driver_opportunity_ttl_seconds : ℤ
  pub offer_decision_ttl_seconds : ℤ
  pub updated_at : ℕ
  pub updated_by : Text

pub data ApplicationStatus : Type 0 where
  pending approved rejected : ApplicationStatus

pub record VehicleInput : Type 0 where
  pub make : Text
  pub model : Text
  pub model_year : ℤ
  pub color : Text
  pub license_plate : Text

-- driver_onboarding_applications; the vehicle's columns are one field here.
pub record ApplicationRow : Type 0 where
  pub id : ℕ
  pub driver_user_id : ℕ
  pub display_name : Text
  pub service_code : Text
  pub vehicle : VehicleInput
  pub status : ApplicationStatus
  pub rejection_reason : Option Text
  pub submitted_at : ℕ
  pub decided_at : Option ℕ
  pub decided_by : Option Text
