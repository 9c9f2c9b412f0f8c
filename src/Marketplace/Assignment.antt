-- ===== src/Marketplace/Assignment.antt =====
-- assignment_postgres.go: the Rider selects an offer, which assigns the Trip. One transaction.
pub mod Effects
pub mod Rows
pub mod Selectable
use uber_clone.Common.{
  ℕ, ◌+◌, Bool, true, false, ◌&&◌, ◌||◌, not, Option, none, some, List, [], ◌∷◌, ◌++◌, ◌==◌, ltb,
  leb, is_some, coalesce, Result, ok, err, ◌>>=◌, ◌>>◌, or_fail, fail_if,
}
use uber_clone.Common.Table.{find, exists, update_where, count_where}
use uber_clone.Common.Text.{text_eq}
use uber_clone.Store.{
  Db, Ride, RideStatus, Trip, TripStatus, SettlementStatus, Offer, OfferStatus, Opportunity,
  OpportunityStatus, OperationContext, Clock,
}
use uber_clone.Marketplace.Expiry.{
  expire, is_pending, is_offered, is_live, is_requested, is_ride, has_trip, is_offer_of,
  is_opportunity_of, decide, respond,
}
use uber_clone.Driver.Eligibility.{lock_marketplace_eligible, has_active_trip, is_enrolled}

pub data AssignmentError : Type 0 where
  not_open offer_not_actionable driver_unavailable constraint_violation : AssignmentError

-- status = 'requested', in time, with a proposed fare
abbrev pub is_open_ride : ℕ → Ride → Bool
is_open_ride now r =
    is_requested r.status
    && ltb now r.expires_at
    && is_some r.proposed_fare_minor
    && is_some r.currency

abbrev pub is_actionable_offer : ℕ → ℕ → Offer → Bool
is_actionable_offer now version o =
    is_pending o.status && ltb now o.expires_at && (o.updated_at == version)

abbrev pub context_matches : Ride → ℕ → Option OperationContext → Bool
context_matches r vehicle none = false
context_matches r vehicle (some x) =
    (x.vehicle_id == vehicle) && text_eq x.service_code r.service_code

-- The offer was made with the vehicle and service that the Driver still operates.
unfoldable pub operation_matches : ℕ → ℕ → Db → Bool
operation_matches ride driver db =
    exists
      (λ o.
        is_offer_of ride driver o
        && exists
            (λ s.
              (s.driver_user_id == o.driver_user_id)
              && exists
                  (λ r.
                    is_ride o.ride_request_id r
                    && is_enrolled s.vehicle_id r.service_code db
                    && context_matches r s.vehicle_id o.operation_context)
                  db.rides)
            db.selections)
      db.offers

-- The reads and guards, down to the first write. They answer the ride and the offer.
unfoldable pub check_selection : Clock → ℕ → ℕ → ℕ → ℕ → Db → Result AssignmentError (Ride × Offer)
check_selection c ride rider driver version db = do
  r ← or_fail (find (is_ride ride) db.rides) not_open
  fail_if (not (r.rider_user_id == rider)) offer_not_actionable
  fail_if (not (is_open_ride (c.at 6) r)) not_open
  fail_if (has_trip ride db.trips) not_open
  o ← or_fail (find (is_offer_of ride driver) db.offers) offer_not_actionable
  fail_if (not (is_actionable_offer (c.at 8) version o)) offer_not_actionable
  p ← or_fail (find (is_opportunity_of ride driver) db.opportunities) offer_not_actionable
  fail_if (not (is_offered p.status)) offer_not_actionable
  fail_if (not (lock_marketplace_eligible c 10 driver r.service_code db)) driver_unavailable
  fail_if (not (operation_matches ride driver db)) driver_unavailable
  ok (r, o)

abbrev pub is_accepted_offer : OfferStatus → Bool
is_accepted_offer OfferStatus.accepted = true
is_accepted_offer _ = false

abbrev pub is_other_accepted : ℕ → ℕ → Offer → Bool
is_other_accepted ride driver o =
    (o.ride_request_id == ride) && not (o.driver_user_id == driver) && is_accepted_offer o.status

-- ride_offers_one_accepted_per_ride_idx refuses a second accepted offer of a ride.
unfoldable pub accept_offer : ℕ → ℕ → ℕ → Db → Result AssignmentError Db
accept_offer now ride driver db = do
  fail_if (exists (is_other_accepted ride driver) db.offers) constraint_violation
  ok (record db {
    offers = update_where (is_offer_of ride driver) (decide OfferStatus.accepted now) db.offers;
  })

abbrev pub set_accepted : Opportunity → Opportunity
set_accepted o = record o { status = OpportunityStatus.accepted }

unfoldable pub accept_opportunity : ℕ → ℕ → Db → Db
accept_opportunity ride driver db = record db {
  opportunities =
      update_where (λ o. is_opportunity_of ride driver o && is_offered o.status) set_accepted
        db.opportunities;
}

-- The row that INSERT … SELECT … FROM ride_offers makes.
abbrev pub new_trip : ℕ → ℕ → ℕ → ℕ → Offer → Trip
new_trip now ride rider driver o = record {
  operation_context = o.operation_context;
  ride_request_id = ride;
  rider_user_id = rider;
  driver_user_id = driver;
  status = TripStatus.assigned;
  assigned_at = now;
  started_at = none;
  completed_at = none;
  cancelled_at = none;
  settlement = record {
    status = SettlementStatus.unsettled;
    method = none;
    cash_collected_at = none;
  };
  cash_collected_by = none;
}

-- The primary key and trips_driver_not_rider_check refuse the row, and so does
-- trips_active_driver_idx, which is the error that the code knows.
unfoldable pub insert_marketplace_trip : ℕ → ℕ → ℕ → ℕ → Db → Result AssignmentError (Trip × Db)
insert_marketplace_trip now ride rider driver db = do
  o ← or_fail (find (is_offer_of ride driver) db.offers) constraint_violation
  fail_if (driver == rider) constraint_violation
  fail_if (has_trip ride db.trips) constraint_violation
  fail_if (has_active_trip driver db.trips) driver_unavailable
  let t = new_trip now ride rider driver o
  ok (t, record db { trips = db.trips ++ t ∷ [] })

abbrev pub is_acceptable : ℕ → ℕ → Ride → Bool
is_acceptable now ride r = is_ride ride r && is_requested r.status && ltb now r.expires_at

abbrev pub set_ride_accepted : Ride → Ride
set_ride_accepted r = record r { status = RideStatus.accepted }

unfoldable pub mark_ride_accepted : ℕ → ℕ → Db → Result AssignmentError Db
mark_ride_accepted now ride db = do
  fail_if (not (count_where (is_acceptable now ride) db.rides == 1)) not_open
  ok (record db { rides = update_where (is_acceptable now ride) set_ride_accepted db.rides })

abbrev pub is_competing_offer : ℕ → ℕ → Offer → Bool
is_competing_offer ride driver o =
    (o.ride_request_id == ride) && not (o.driver_user_id == driver) && is_pending o.status

unfoldable pub close_competing_offers : ℕ → ℕ → ℕ → Db → Db
close_competing_offers now ride driver db = record db {
  offers = update_where (is_competing_offer ride driver) (decide OfferStatus.closed now) db.offers;
}

abbrev pub is_competing_opportunity : ℕ → ℕ → Opportunity → Bool
is_competing_opportunity ride driver o =
    (o.ride_request_id == ride) && not (o.driver_user_id == driver) && is_live o.status

unfoldable pub close_competing_opportunities : ℕ → ℕ → ℕ → Db → Db
close_competing_opportunities now ride driver db = record db {
  opportunities =
      update_where (is_competing_opportunity ride driver) (respond OpportunityStatus.closed now)
        db.opportunities;
}

-- The writes.
unfoldable pub apply_selection : Clock → ℕ → ℕ → ℕ → Db → Result AssignmentError (Trip × Db)
apply_selection c ride rider driver db = do
  db₁ ← accept_offer (c.at 13) ride driver db
  let db₂ = accept_opportunity ride driver db₁
  (t, db₃) ← insert_marketplace_trip (c.at 15) ride rider driver db₂
  db₄ ← mark_ride_accepted (c.at 16) ride db₃
  let db₅ = close_competing_offers (c.at 17) ride driver db₄
  ok (t, close_competing_opportunities (c.at 18) ride driver db₅)

unfoldable pub select_offer : Clock → ℕ → ℕ → ℕ → ℕ → Db → Result AssignmentError (Trip × Db)
select_offer c ride rider driver version db = do
  let db₀ = expire c 0 db
  checked ← check_selection c ride rider driver version db₀
  apply_selection c ride rider driver db₀
