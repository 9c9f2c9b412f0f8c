-- ===== src/Api/Sample.antt =====
-- The requests, bodies and services of the tests: Rita, Rider 10 of the sample, asks for a ride.
use uber_clone.Common.{ℕ, ◌++◌, true, Option, none, some, [], ◌∷◌, ok, ◌+◌}
use uber_clone.Common.Int.{pos}
use uber_clone.Common.Float.{finite}
use uber_clone.Common.Text.{Text, ascii, codes}
use uber_clone.Store.{Db, Policy, Location, Clock, Ride, TimingPolicy}
use uber_clone.Pricing.Calculate.{half_up_once}
use uber_clone.Http.Values.{object}
use uber_clone.Api.Places.{RoutePoint, PreviewBody, PlaceLibrary, route_fields, suggested_fields}
use uber_clone.Routing.{Route, Provider}
use uber_clone.Users.{ExternalIdentity}
use uber_clone.RideRequest.{CreateInput, Config, new_ride, add_ride, snapshot_of}
use uber_clone.Http.{Request, Response, write_json}
use uber_clone.Http.Access as Access
use uber_clone.Http.Access.{require_capability, current_user, bearer_token, middleware}
use uber_clone.Api.{Library}
use uber_clone.Api.Fares.{Services}
use uber_clone.Api.Rides.{RideBody}
use uber_clone.Api.Endpoints.{Server}
use uber_clone.Sample.{sample, here}

abbrev pub there : Location
there = record { latitude = finite (pos 1); longitude = finite (pos 0) }

abbrev pub a_policy : Policy
a_policy = record {
  id = 1;
  service_code = codes "car";
  currency = codes "PKR";
  version = pos 1;
  base_fare_minor = pos 10000;
  rate_minor_per_km = pos 5000;
  rate_minor_per_minute = pos 300;
  minimum_fare_minor = pos 15000;
  rounding_increment_minor = pos 500;
  calculation_rule = half_up_once;
  effective_from = 0;
  published_at = 0;
  published_by = codes "ops";
}

abbrev pub store : Db
store = record sample {
  policies = a_policy ∷ [];
  current_policies =
      record {
        service_code = codes "car";
        currency = codes "PKR";
        current_policy_id = some 1;
        updated_by = codes "ops";
      }
      ∷ [];
}

abbrev pub no_provider : Option Provider
no_provider = none

abbrev pub the_route : Route
the_route = record {
  distance_meters = pos 5250;
  duration_seconds = pos 600;
  encoded_polyline = codes "xy";
}

abbrev pub a_provider : Provider
a_provider now a b = ok the_route

-- Every text is the UUID 1.
abbrev pub lib : Library
lib = record {
  parse_uuid = λ s. some 1;
  amount_body = λ s. none;
  version_body = λ s. none;
  availability_body = λ s. none;
  vehicle_body = λ s. none;
  location_body = λ s. none;
  distance = λ a b. finite (pos 0);
  collation = λ a b. true;
}

abbrev pub services : Services
services = record {
  suggested_fares_enabled = true;
  has_pricing = true;
  cases = ascii;
  uuid_text = λ n. [];
  routing = some (some a_provider);
  places = none;
  search_policy = none;
  limiter = none;
}

abbrev pub priced_config : Config
priced_config = record { pricing_required = true; pricing_configured = true }

abbrev pub a_body : RideBody
a_body = record {
  pricing_policy_version = [];
  service_code = codes "car";
  pickup = some (record {
    place_id = [];
    latitude = some (finite (pos 0));
    longitude = some (finite (pos 0));
  });
  destination = some (record {
    place_id = [];
    latitude = some (finite (pos 1));
    longitude = some (finite (pos 0));
  });
  proposed_fare = some (record { amount_minor = some (pos 39500); currency = some (codes "PKR") });
}

abbrev pub some_body : Text → Option RideBody
some_body s = some a_body

abbrev pub ticks : Clock
ticks = record { started = 9000000; at = λ k. 9000000 + k }

abbrev pub rita : ExternalIdentity
rita = record { issuer = codes "issuer"; subject = codes "rita" }

abbrev pub rita_asks : Request
rita_asks = record {
  authorization = codes "Bearer rita";
  principal = some rita;
  path_value = λ k. [];
  body = [];
  now = 9000000;
  fresh = 7;
  clock = ticks;
  later = ticks;
}

abbrev pub the_input : CreateInput
the_input = record {
  pricing_policy_version = [];
  service_code = codes "car";
  pickup = here;
  destination = there;
  proposed_fare = some (record { amount_minor = pos 39500; currency = codes "PKR" });
}

abbrev pub a_timing : TimingPolicy
a_timing = record {
  ride_request_ttl_seconds = pos 300;
  driver_opportunity_ttl_seconds = pos 60;
  offer_decision_ttl_seconds = pos 30;
  updated_at = 0;
  updated_by = [];
}

abbrev pub the_ride : Ride
the_ride = new_ride ticks 4 5 10 the_input a_timing

abbrev pub booked : Db
booked = record (add_ride the_ride store) { snapshots = snapshot_of 5 9000005 a_policy ∷ [] }

-- The identity provider takes every token for Dave's.
abbrev pub as_dave : Access.Provider
as_dave token = ok (record { issuer = codes "issuer"; subject = codes "dave" })

abbrev pub a_point : ℕ → RoutePoint
a_point degree = record {
  coordinates = (some (finite (pos degree)), some (finite (pos 0)));
  place_id = [];
}

abbrev pub preview_body : PreviewBody
preview_body = record { pickup = a_point 0; destination = a_point 1; service_code = codes "car" }

abbrev pub place_lib : PlaceLibrary
place_lib = record {
  autocomplete_body = λ s. none;
  preview_body = λ s. some preview_body;
  driver_route_body = λ s. none;
  query_value = λ k r. [];
}

abbrev pub server : Server
server = record {
  lib = lib;
  services = services;
  config = priced_config;
  places = place_lib;
  ride_body = some_body;
  application_body = λ s. none;
  reason_body = λ s. none;
  year = 2026;
  new_id = 5;
}

abbrev pub previewed : Response
previewed =
    write_json 200 (object (route_fields the_route ++ suggested_fields a_policy (pos 39500)))
