-- ===== src/RideRequest.antt =====
-- Ride requests (backend/internal/ride): ride.go validates the Rider's input, postgres_repository.go
-- and postgres_pricing.go store the request, the latter with a snapshot of the current policy.
pub mod Created
pub mod Market
pub mod Tests
use uber_clone.Common.{
  ℕ, ◌+◌, ◌*◌, Bool, true, false, ◌&&◌, ◌||◌, not, Option, none, some, List, [], ◌∷◌, ◌++◌, ◌==◌,
  leb, ltb, Result, ok, err, ◌>>=◌, ◌>>◌, or_fail, fail_if, if◌then◌else◌,
}
use uber_clone.Common.Int.{ℤ, pos, ltb_ℤ, leb_ℤ, pos_part}
use uber_clone.Common.Float.{Float, degrees, minus_degrees, leb_float}
use uber_clone.Common.Text.{
  Text, Cases, codes, to_lower, to_upper, trim_space, is_empty, text_eq, utf8_length,
}
use uber_clone.Common.Table.{exists}
use uber_clone.Store.{Db, Ride, RideStatus, Location, Policy, PricingSnapshot, TimingPolicy, Clock}
use uber_clone.Pricing.Calculate.{
  PricingError, invalid_policy, unavailable, policy_changed, max_amount_minor, pkr,
}
use uber_clone.Pricing.Publication.{is_service, is_bookable, lock_current}

-- policy_missing is the sql.ErrNoRows of LoadTimingPolicy.
pub data RideError : Type 0 where
  invalid_location invalid_fare invalid_service policy_missing : RideError
  pricing : PricingError → RideError

pub record Money : Type 0 where
  pub amount_minor : ℤ
  pub currency : Text

pub record CreateInput : Type 0 where
  pub pricing_policy_version : Text
  pub service_code : Text
  pub pickup : Location
  pub destination : Location
  pub proposed_fare : Option Money

-- The fields of the repository, other than its connection.
pub record Config : Type 0 where
  pub pricing_required : Bool
  pub pricing_configured : Bool

unfoldable pub valid_location : Location → Bool
valid_location l =
    leb_float (minus_degrees 90) l.latitude
    && leb_float l.latitude (degrees 90)
    && leb_float (minus_degrees 180) l.longitude
    && leb_float l.longitude (degrees 180)

unfoldable pub byte_length : Text → ℕ
byte_length [] = 0
byte_length (c ∷ s) = utf8_length c + byte_length s

unfoldable pub all_upper : Text → Bool
all_upper [] = true
all_upper (c ∷ s) = leb b'A' c && leb c b'Z' && all_upper s

abbrev pub currency_of : Cases → Money → Text
currency_of u m = to_upper u (trim_space m.currency)

unfoldable pub valid_money : Cases → Money → Bool
unfolding byte_length all_upper
valid_money u m =
    not (leb_ℤ m.amount_minor (pos 0))
    && not (ltb_ℤ (pos max_amount_minor) m.amount_minor)
    && (byte_length (currency_of u m) == 3)
    && all_upper (currency_of u m)

abbrev pub service_or_economy : Text → Text
service_or_economy code = if is_empty code then codes "economy" else code

-- What Service.Create passes on to the repository.
unfoldable pub checked_input : Cases → CreateInput → Result RideError CreateInput
checked_input u input = do
  fail_if (not (valid_location input.pickup) || not (valid_location input.destination))
      invalid_location
  m ← or_fail input.proposed_fare invalid_fare
  fail_if (not (valid_money u m)) invalid_fare
  ok (record input {
    service_code = service_or_economy (to_lower u (trim_space input.service_code));
    proposed_fare = some (record { amount_minor = m.amount_minor; currency = currency_of u m });
  })

abbrev pub amount_of : Option Money → Option ℤ
amount_of none = none
amount_of (some m) = some m.amount_minor

abbrev pub fare_currency : Option Money → Option Text
fare_currency none = none
fare_currency (some m) = some m.currency

-- The inserted row; created_at has the default NOW(). `k` is the number of the statement.
abbrev pub new_ride : Clock → ℕ → ℕ → ℕ → CreateInput → TimingPolicy → Ride
new_ride c k id user input timing = record {
  id = id;
  rider_user_id = user;
  pickup = input.pickup;
  destination = input.destination;
  proposed_fare_minor = amount_of input.proposed_fare;
  currency = fare_currency input.proposed_fare;
  service_code = input.service_code;
  status = RideStatus.requested;
  created_at = c.started;
  expires_at = c.at k + pos_part timing.ride_request_ttl_seconds * 1000000;
  cancelled_at = none;
  cancelled_by = none;
}

abbrev pub add_ride : Ride → Db → Db
add_ride r db = record db { rides = db.rides ++ r ∷ [] }

-- The INSERT … WHERE EXISTS. The timing policy was read from the store `seen`, before.
unfoldable pub create_unpriced :
    Db → Clock → ℕ → ℕ → CreateInput → Db → Result RideError (Ride × Option PricingSnapshot × Db)
create_unpriced seen c id user input db = do
  timing ← or_fail seen.timing_policy policy_missing
  fail_if (not (exists (λ s. is_service input.service_code s && is_bookable s) db.catalog))
      invalid_service
  let r = new_ride c 0 id user input timing
  ok (r, none, add_ride r db)

-- The copied columns; snapshot_at is a reading of clock_timestamp().
abbrev pub snapshot_of : ℕ → ℕ → Policy → PricingSnapshot
snapshot_of ride at p = record {
  ride_request_id = ride;
  policy_id = p.id;
  version = p.version;
  service_code = p.service_code;
  currency = p.currency;
  base_fare_minor = p.base_fare_minor;
  rate_minor_per_km = p.rate_minor_per_km;
  rate_minor_per_minute = p.rate_minor_per_minute;
  minimum_fare_minor = p.minimum_fare_minor;
  rounding_increment_minor = p.rounding_increment_minor;
  calculation_rule = p.calculation_rule;
  snapshot_at = at;
}

abbrev pub as_ride_error {ℓ} : {A : Type ℓ} → Result PricingError A → Result RideError A
as_ride_error (ok a) = ok a
as_ride_error (err e) = err (pricing e)

abbrev pub is_pkr : Option Money → Bool
is_pkr none = false
is_pkr (some m) = text_eq m.currency pkr

-- `uuid.Parse` is of a package: what it answers on a text is the parameter `parse_uuid`.
unfoldable pub create_priced_in_tx :
    (Text → Option ℕ)
    → Clock
    → ℕ
    → ℕ
    → ℕ
    → CreateInput
    → Db
    → Result RideError (Ride × Option PricingSnapshot × Db)
create_priced_in_tx parse_uuid c at id user input db = do
  fail_if (not (is_pkr input.proposed_fare)) (pricing invalid_policy)
  expected ← or_fail (parse_uuid input.pricing_policy_version) (pricing invalid_policy)
  p ← as_ride_error (lock_current input.service_code pkr db)
  fail_if (not (expected == p.id)) (pricing policy_changed)
  timing ← or_fail db.timing_policy policy_missing
  let r = new_ride c 4 id user input timing
  let s = snapshot_of id at p
  ok (r, some s, record (add_ride r db) { snapshots = db.snapshots ++ s ∷ [] })

unfoldable pub create_priced :
    Config
    → (Text → Option ℕ)
    → Clock
    → ℕ
    → ℕ
    → ℕ
    → CreateInput
    → Db
    → Result RideError (Ride × Option PricingSnapshot × Db)
create_priced config parse_uuid c at id user input db = do
  fail_if (not config.pricing_configured) (pricing unavailable)
  create_priced_in_tx parse_uuid c at id user input db

-- PostgresRepository.Create
unfoldable pub store_request :
    Config
    → (Text → Option ℕ)
    → Db
    → Clock
    → ℕ
    → ℕ
    → ℕ
    → CreateInput
    → Db
    → Result RideError (Ride × Option PricingSnapshot × Db)
store_request config parse_uuid seen c at id user input db =
    if config.pricing_required
    then create_priced config parse_uuid c at id user input db
    else create_unpriced seen c id user input db

-- Service.Create; `id` is uuid.New().
unfoldable pub create :
    Config
    → Cases
    → (Text → Option ℕ)
    → Db
    → Clock
    → ℕ
    → ℕ
    → ℕ
    → CreateInput
    → Db
    → Result RideError (Ride × Option PricingSnapshot × Db)
create config u parse_uuid seen c at id user input db = do
  input' ← checked_input u input
  store_request config parse_uuid seen c at id user input' db
