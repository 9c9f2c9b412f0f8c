-- ===== src/Sample.antt =====
-- A small store for the tests: ride 1 of Rider 10 is requested and has two offers, of Drivers 20
-- and 21, and an open opportunity of Driver 23; ride 2 of Rider 11 has a Trip with Driver 22.
use uber_clone.Common.{ℕ, true, none, some, [], ◌∷◌}
use uber_clone.Common.Int.{pos}
use uber_clone.Common.Text.{Text, codes}
use uber_clone.Common.Float.{finite}
use uber_clone.Store.{
  Db, Ride, RideStatus, Trip, TripStatus, SettlementStatus, Offer, OfferStatus, Opportunity,
  OpportunityStatus, OperationContext, Location, Profile, DriverStatus, Vehicle, DriverLocation,
  UserRow, IdentityRow,
}

abbrev pub here : Location
here = record { latitude = finite (pos 0); longitude = finite (pos 0) }

abbrev pub a_context : ℕ → OperationContext
a_context vehicle = record {
  driver_name = none;
  vehicle_id = vehicle;
  make = codes "A";
  model = codes "B";
  model_year = none;
  color = codes "C";
  license_plate = codes "D";
  service_code = codes "car";
  service_name = codes "Car";
  fare = record { amount_minor = pos 50000; currency = codes "PKR" };
}

abbrev pub a_ride : ℕ → ℕ → RideStatus → Ride
a_ride id rider status = record {
  id = id;
  rider_user_id = rider;
  pickup = here;
  destination = here;
  proposed_fare_minor = some (pos 50000);
  currency = some (codes "PKR");
  service_code = codes "car";
  status = status;
  created_at = 0;
  expires_at = 300000000;
  cancelled_at = none;
  cancelled_by = none;
}

abbrev pub a_user : ℕ → UserRow
a_user id = record { id = id; created_at = 0 }

abbrev pub an_identity : ℕ → Text → IdentityRow
an_identity user subject = record { user_id = user; issuer = codes "issuer"; subject = subject }

abbrev pub an_offer : ℕ → Offer
an_offer driver = record {
  ride_request_id = 1;
  driver_user_id = driver;
  amount_minor = pos 50000;
  currency = codes "PKR";
  status = OfferStatus.pending;
  created_at = 5000000;
  updated_at = 5000000;
  expires_at = 60000000;
  decided_at = none;
  operation_context = some (a_context driver);
}

abbrev pub an_opportunity : ℕ → OpportunityStatus → Opportunity
an_opportunity driver status = record {
  ride_request_id = 1;
  driver_user_id = driver;
  status = status;
  opened_at = 1000000;
  visible_until = 60000000;
  responded_at = none;
}

abbrev pub a_trip : Trip
a_trip = record {
  operation_context = none;
  ride_request_id = 2;
  rider_user_id = 11;
  driver_user_id = 22;
  status = TripStatus.assigned;
  assigned_at = 2000000;
  started_at = none;
  completed_at = none;
  cancelled_at = none;
  settlement = record {
    status = SettlementStatus.unsettled;
    method = none;
    cash_collected_at = none;
  };
  cash_collected_by = none;
}

abbrev pub a_profile : ℕ → Profile
a_profile user = record {
  user_id = user;
  display_name = none;
  status = DriverStatus.active;
  is_online = true;
  created_at = 0;
  updated_at = 0;
}

-- Driver n drives vehicle n.
abbrev pub a_vehicle : ℕ → Vehicle
a_vehicle driver = record {
  id = driver;
  driver_user_id = driver;
  make = codes "A";
  model = codes "B";
  model_year = none;
  color = codes "C";
  license_plate = codes "D";
  created_at = 0;
}

abbrev pub a_location : ℕ → DriverLocation
a_location driver = record { driver_user_id = driver; place = here; updated_at = 9000000 }

abbrev pub sample : Db
sample = record {
  rides = a_ride 1 10 RideStatus.requested ∷ a_ride 2 11 RideStatus.accepted ∷ [];
  trips = a_trip ∷ [];
  offers = an_offer 20 ∷ an_offer 21 ∷ [];
  opportunities =
      an_opportunity 20 OpportunityStatus.offered
      ∷ an_opportunity 21 OpportunityStatus.offered
      ∷ an_opportunity 23 OpportunityStatus.open_
      ∷ [];
  profiles = a_profile 20 ∷ a_profile 23 ∷ [];
  vehicles = a_vehicle 20 ∷ a_vehicle 23 ∷ [];
  enrollments =
      record { vehicle_id = 20; service_code = codes "car"; approved_at = 0; approved_by = [] }
      ∷ record { vehicle_id = 23; service_code = codes "car"; approved_at = 0; approved_by = [] }
      ∷ [];
  catalog =
      record {
        code = codes "car";
        display_name = codes "Car";
        description = [];
        minimum_model_year = none;
        implied_service_code = none;
        is_active = true;
        rider_visible = true;
        presentation_token = codes "car";
        sort_order = 0;
      }
      ∷ [];
  selections =
      record { driver_user_id = 20; vehicle_id = 20 }
      ∷ record { driver_user_id = 23; vehicle_id = 23 }
      ∷ [];
  locations = a_location 20 ∷ a_location 23 ∷ [];
  drivers = 20 ∷ 23 ∷ [];
  timing_policy = some (record {
    ride_request_ttl_seconds = pos 300;
    driver_opportunity_ttl_seconds = pos 60;
    offer_decision_ttl_seconds = pos 30;
    updated_at = 0;
    updated_by = [];
  });
  riders = 10 ∷ 11 ∷ [];
  users = a_user 10 ∷ a_user 11 ∷ a_user 20 ∷ a_user 21 ∷ a_user 22 ∷ a_user 23 ∷ [];
  identities =
      an_identity 10 (codes "rita")
      ∷ an_identity 20 (codes "dora")
      ∷ an_identity 22 (codes "dave")
      ∷ [];
  applications = [];
  policies = [];
  current_policies = [];
  snapshots = [];
}

-- The time of the tests.
abbrev pub noon : ℕ
noon = 10000000
