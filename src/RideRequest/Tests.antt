-- ===== src/RideRequest/Tests.antt =====
-- Tests of the creation of ride requests.
use uber_clone.Common.{ℕ, ◌+◌, ◌≡◌, refl, arith, true, false, Option, none, some, [], ok}
use uber_clone.Common.Int.{pos, ◌-ℤ◌}
use uber_clone.Common.Float.{leb_float, minus_degrees, degrees}
use uber_clone.Common.Text.{
  Text, ascii, codes, text_eq, trim_space, trim_left, trim_right, is_space,
}
use uber_clone.Store.{Clock, Ride, TimingPolicy}
use uber_clone.Offer.{market}
use uber_clone.RideRequest.{
  Money, CreateInput, Config, create, checked_input, valid_location, valid_money, byte_length,
  all_upper, store_request, create_unpriced, new_ride, add_ride,
}
use uber_clone.RideRequest.Created.{IsValidInput, IsStored, checked, create-IsStored}
use uber_clone.RideRequest.Market.{market_for, create-market}
use uber_clone.Sample.{sample, here}

abbrev an_input : CreateInput
an_input = record {
  pricing_policy_version = [];
  service_code = codes "Car ";
  pickup = here;
  destination = here;
  proposed_fare = some (record { amount_minor = pos 50000; currency = codes " pkr" });
}

abbrev unpriced : Config
unpriced = record { pricing_required = false; pricing_configured = false }

abbrev no_uuid : Text → Option ℕ
no_uuid s = none

abbrev ticks : Clock
ticks = record { started = 9000000; at = λ k. 9000000 + k }

abbrev the_fare : Money
the_fare = record { amount_minor = pos 50000; currency = codes " pkr" }

-- The input that is stored, and the row.
abbrev tidy_input : CreateInput
tidy_input = record an_input {
  service_code = codes "car";
  proposed_fare = some (record { amount_minor = pos 50000; currency = codes "PKR" });
}

abbrev the_policy : TimingPolicy
the_policy = record {
  ride_request_ttl_seconds = pos 300;
  driver_opportunity_ttl_seconds = pos 60;
  offer_decision_ttl_seconds = pos 30;
  updated_at = 0;
  updated_by = [];
}

abbrev the_ride : Ride
the_ride = new_ride ticks 0 5 10 tidy_input the_policy

creates :
    create unpriced ascii no_uuid sample ticks 0 5 10 an_input sample
    ≡ ok (the_ride, none, add_ride the_ride sample)
unfolding create checked_input valid_location valid_money byte_length all_upper store_request
    create_unpriced text_eq trim_space trim_left trim_right is_space leb_float minus_degrees degrees
    ◌-ℤ◌
creates = refl

create-IsStored_example :
    (m : Money) × IsValidInput ascii an_input m
    × IsStored unpriced no_uuid sample ticks 0 5 10
        (checked ascii an_input m)
        sample
        the_ride
        none
        (add_ride the_ride sample)
create-IsStored_example =
    create-IsStored unpriced ascii no_uuid sample ticks 0 5 10 an_input sample creates

create-market_example :
    (m : Money) × (some the_fare ≡ some m)
    × (valid_money ascii m ≡ true)
    × (market 20000000 5 (add_ride the_ride sample) ≡ ok (market_for ascii 5 m))
create-market_example =
    create-market unpriced ascii no_uuid sample ticks 0 5 10 20000000 an_input sample refl refl
      creates (omega arith)
