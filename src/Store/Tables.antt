-- ===== src/Store/Tables.antt =====
-- The database, with the primary keys of its tables.
use uber_clone.Common.{ℕ, Option, List}
use uber_clone.Store.Rows.{Ride, Trip, Offer, Opportunity}
use uber_clone.Store.Drivers.{
  Profile, Vehicle, Enrollment, CatalogService, Selection, DriverLocation, TimingPolicy,
  ApplicationRow, UserRow, IdentityRow,
}
use uber_clone.Store.Policies.{Policy, CurrentPolicy, PricingSnapshot}

pub record Db : Type 0 where
  pub rides : List Ride
  pub trips : List Trip
  pub offers : List Offer
  pub opportunities : List Opportunity
  pub profiles : List Profile
  pub vehicles : List Vehicle
  pub enrollments : List Enrollment
  pub catalog : List CatalogService
  pub selections : List Selection
  pub locations : List DriverLocation
  pub drivers : List ℕ  -- user_capabilities with the capability 'driver'
  pub timing_policy : Option TimingPolicy  -- the row with id 1
  pub riders : List ℕ  -- user_capabilities with the capability 'rider'
  pub users : List UserRow
  pub identities : List IdentityRow
  pub applications : List ApplicationRow
  pub policies : List Policy
  pub current_policies : List CurrentPolicy
  pub snapshots : List PricingSnapshot

-- The primary keys.
abbrev pub ride_key : Ride → ℕ
ride_key r = r.id

abbrev pub trip_key : Trip → ℕ
trip_key t = t.ride_request_id

abbrev pub offer_key : Offer → ℕ × ℕ
offer_key o = (o.ride_request_id, o.driver_user_id)

abbrev pub opportunity_key : Opportunity → ℕ × ℕ
opportunity_key o = (o.ride_request_id, o.driver_user_id)
