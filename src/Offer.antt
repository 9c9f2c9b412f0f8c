-- ===== src/Offer.antt =====
-- offer/offer.go: the bounds of an offer's amount and the service; offer/postgres_repository.go: its
-- transactions. `Expire` is statements 0 to 5 of each transaction that calls it.
pub mod Bounds
pub mod Once
pub mod Submission
pub mod Decision
pub mod Response
pub mod Discovery
pub mod RiderList
pub mod Tests
use uber_clone.Common.{
  ℕ, ◌+◌, ◌*◌, Bool, true, false, ◌&&◌, ◌||◌, not, Option, none, some, List, [], ◌∷◌, ◌++◌, ◌==◌,
  ltb, leb, is_some, Result, ok, err, ◌>>=◌, ◌>>◌, or_fail, fail_if,
}
use uber_clone.Common.Int.{ℤ, pos, ◌+ℤ◌, ◌*ℤ◌, quot, rem, int64, ltb_ℤ, pos_part}
use uber_clone.Common.Table.{find, exists, update_where, count_where}
use uber_clone.Common.Text.{Text, text_eq}
use uber_clone.Store.{
  Db, Ride, RideStatus, Offer, OfferStatus, Opportunity, OpportunityStatus, OperationContext,
  TimingPolicy, Clock,
}
use uber_clone.Marketplace.Expiry.{
  expire, is_pending, is_open, is_offered, is_requested, is_ride, has_trip, is_offer_of,
  is_opportunity_of, decide,
}
use uber_clone.Driver.Eligibility.{lock_marketplace_eligible}

-- policy_missing is the sql.ErrNoRows of LoadTimingPolicy.
pub data OfferError : Type 0 where
  ride_not_found ride_not_open driver_ineligible amount_out_of_range offer_not_found
        offer_not_actionable opportunity_not_open policy_missing :
      OfferError

pub record Market : Type 0 where
  pub ride_request_id : ℕ
  pub proposed_amount_minor : ℤ
  pub currency : Text

-- Each operation on int64 wraps.
unfoldable pub percent_floor : ℤ → ℤ → ℤ
percent_floor value percent = int64 (
    int64 (quot value (pos 100) *ℤ percent)
    +ℤ quot (int64 (rem value (pos 100) *ℤ percent)) (pos 100))

unfoldable pub percent_ceil : ℤ → ℤ → ℤ
percent_ceil value percent =
    let whole = int64 (quot value (pos 100) *ℤ percent) in
    let fraction = int64 (rem value (pos 100) *ℤ percent) in
    int64 (whole +ℤ quot (int64 (fraction +ℤ pos 99)) (pos 100))

unfoldable pub bounds : ℤ → ℤ × ℤ
bounds proposed = (percent_ceil proposed (pos 90), percent_floor proposed (pos 130))

-- The columns proposed_fare_minor and currency, where both are there.
abbrev pub proposal : Ride → Option (ℤ × Text)
proposal r = elim r.proposed_fare_minor [
  | none ↦ none
  | some amount ↦ elim r.currency [ none ↦ none | some currency ↦ some (amount, currency) ]
]

abbrev pub market_of : Ride → Result OfferError Market
market_of r = do
  fail_if (not (is_requested r.status)) ride_not_open
  proposed ← or_fail (proposal r) ride_not_open
  ok (record { ride_request_id = r.id; proposed_amount_minor = proposed.0; currency = proposed.1 })

-- Market, at the time of its statement.
unfoldable pub market : ℕ → ℕ → Db → Result OfferError Market
market now ride db = do
  r ← or_fail (find (λ r. is_ride ride r && ltb now r.expires_at) db.rides) ride_not_found
  fail_if (has_trip ride db.trips) ride_not_found
  market_of r

-- The joined row from which jsonb_build_object makes the context: each JOIN is on a primary key.
unfoldable pub operation_of : ℕ → ℕ → ℤ → Text → Db → Result OfferError OperationContext
operation_of ride driver amount currency db = do
  s ← or_fail (find (λ s. s.driver_user_id == driver) db.selections) driver_ineligible
  p ← or_fail (find (λ p. p.user_id == s.driver_user_id) db.profiles) driver_ineligible
  v ←
      or_fail (find (λ v. (v.id == s.vehicle_id) && (v.driver_user_id == p.user_id)) db.vehicles)
        driver_ineligible
  r ← or_fail (find (is_ride ride) db.rides) driver_ineligible
  e ←
      or_fail
        (find (λ e. (e.vehicle_id == v.id) && text_eq e.service_code r.service_code) db.enrollments)
        driver_ineligible
  sc ←
      or_fail (find (λ sc. text_eq sc.code e.service_code && sc.is_active) db.catalog)
        driver_ineligible
  ok (record {
    driver_name = p.display_name;
    vehicle_id = v.id;
    make = v.make;
    model = v.model;
    model_year = v.model_year;
    color = v.color;
    license_plate = v.license_plate;
    service_code = r.service_code;
    service_name = sc.display_name;
    fare = record { amount_minor = amount; currency = currency };
  })

abbrev pub is_takeable : ℕ → Text → Ride → Bool
is_takeable now currency r =
    is_requested r.status
    && ltb now r.expires_at
    && elim (proposal r) [ none ↦ false | some proposed ↦ text_eq proposed.1 currency ]

-- The reads and guards of Upsert, down to the insertion. They answer the operation context.
unfoldable pub check_offer :
    Clock → ℕ → ℕ → ℤ → ℤ → ℤ → Text → Db → Result OfferError OperationContext
check_offer c ride driver amount minimum maximum currency db = do
  r ← or_fail (find (is_ride ride) db.rides) ride_not_found
  fail_if (not (is_takeable (c.at 7) currency r)) ride_not_open
  fail_if (has_trip ride db.trips) ride_not_open
  fail_if (driver == r.rider_user_id) driver_ineligible
  fail_if (ltb_ℤ amount minimum || ltb_ℤ maximum amount) amount_out_of_range
  p ← or_fail (find (is_opportunity_of ride driver) db.opportunities) opportunity_not_open
  fail_if (not (is_open p.status && ltb (c.at 9) p.visible_until)) opportunity_not_open
  fail_if (not (lock_marketplace_eligible c 10 driver r.service_code db)) driver_ineligible
  operation_of ride driver amount currency db

-- created_at and updated_at take the default NOW(); the deadline is the statement's time and the
-- policy's seconds, which a CHECK keeps positive.
abbrev pub new_offer : Clock → ℕ → ℕ → ℤ → Text → OperationContext → TimingPolicy → Offer
new_offer c ride driver amount currency operation policy = record {
  ride_request_id = ride;
  driver_user_id = driver;
  amount_minor = amount;
  currency = currency;
  status = OfferStatus.pending;
  created_at = c.started;
  updated_at = c.started;
  expires_at = c.at 13 + pos_part policy.offer_decision_ttl_seconds * 1000000;
  decided_at = none;
  operation_context = some operation;
}

-- INSERT … ON CONFLICT DO NOTHING RETURNING answers no row where the key is taken.
unfoldable pub insert_offer : ℕ → ℕ → Offer → Db → Result OfferError Db
insert_offer ride driver o db = do
  fail_if (exists (is_offer_of ride driver) db.offers) opportunity_not_open
  ok (record db { offers = db.offers ++ o ∷ [] })

abbrev pub set_offered : ℕ → Opportunity → Opportunity
set_offered now o = record o { status = OpportunityStatus.offered; responded_at = some now }

unfoldable pub mark_offered : ℕ → ℕ → ℕ → Db → Db
mark_offered now ride driver db = record db {
  opportunities =
      update_where (λ o. is_opportunity_of ride driver o && is_open o.status) (set_offered now)
        db.opportunities;
}

-- The body after `Expire` and LoadTimingPolicy.
unfoldable pub place_offer :
    Clock → ℕ → ℕ → ℤ → ℤ → ℤ → Text → TimingPolicy → Db → Result OfferError (Offer × Db)
place_offer c ride driver amount minimum maximum currency policy db = do
  operation ← check_offer c ride driver amount minimum maximum currency db
  let o = new_offer c ride driver amount currency operation policy
  db₁ ← insert_offer ride driver o db
  ok (o, mark_offered (c.at 14) ride driver db₁)

unfoldable pub upsert : Clock → ℕ → ℕ → ℤ → ℤ → ℤ → Text → Db → Result OfferError (Offer × Db)
upsert c ride driver amount minimum maximum currency db = do
  let db₀ = expire c 0 db
  policy ← or_fail db₀.timing_policy policy_missing
  place_offer c ride driver amount minimum maximum currency policy db₀

-- Submit reads the market at `now` in the store `seen`; other transactions may commit before its own
-- begins, in `db`.
unfoldable pub submit : ℕ → Db → Clock → ℕ → ℕ → ℤ → Db → Result OfferError (Offer × Db)
submit now seen c ride driver amount db = do
  m ← market now ride seen
  let (minimum, maximum) = bounds m.proposed_amount_minor
  fail_if (ltb_ℤ amount minimum || ltb_ℤ maximum amount) amount_out_of_range
  upsert c ride driver amount minimum maximum m.currency db

unfoldable pub accept_proposed : ℕ → Db → Clock → ℕ → ℕ → Db → Result OfferError (Offer × Db)
accept_proposed now seen c ride driver db = do
  m ← market now ride seen
  let (minimum, maximum) = bounds m.proposed_amount_minor
  upsert c ride driver m.proposed_amount_minor minimum maximum m.currency db
