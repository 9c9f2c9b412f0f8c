-- ===== src/Marketplace/Assignment/Selectable.antt =====
-- When a selection is allowed, and what the constraints let through.
use uber_clone.Common.{
  ℕ, ◌≡◌, refl, true, false, ◌&&◌, some, [], ◌∷◌, ◌++◌, ◌==◌, arith, ok, Option-cases, inl, inr,
}
use uber_clone.Common.Table.{find, exists, update_where, count_where, find-update_self}
use uber_clone.Store.{Db, Ride, Trip, Offer, OfferStatus, Opportunity, OpportunityStatus, Clock}
use uber_clone.Marketplace.Expiry.{
  is_offered, is_ride, has_trip, is_offer_of, is_opportunity_of, decide, respond,
}
use uber_clone.Driver.Eligibility.{lock_marketplace_eligible, has_active_trip}
use uber_clone.Marketplace.Assignment.{
  is_acceptable, set_ride_accepted, is_competing_offer, is_competing_opportunity, set_accepted,
  is_other_accepted, is_open_ride, is_actionable_offer, operation_matches, check_selection,
  accept_offer, accept_opportunity, new_trip, insert_marketplace_trip, mark_ride_accepted,
  close_competing_offers, close_competing_opportunities, apply_selection,
}

-- When the Rider may select the Driver's offer, in a database that is up to date.
pub record IsSelectable (c : Clock) (ride rider driver version : ℕ) (db : Db) (r : Ride) (o : Offer)
    (p : Opportunity) : Type 0 where
  pub the_ride : find (is_ride ride) db.rides ≡ some r
  pub the_rider : r.rider_user_id ≡ rider
  pub open_ride : is_open_ride (c.at 6) r ≡ true
  pub no_trip : has_trip ride db.trips ≡ false
  pub the_offer : find (is_offer_of ride driver) db.offers ≡ some o
  pub actionable : is_actionable_offer (c.at 8) version o ≡ true
  pub the_opportunity : find (is_opportunity_of ride driver) db.opportunities ≡ some p
  pub offered : is_offered p.status ≡ true
  pub eligible : lock_marketplace_eligible c 10 driver r.service_code db ≡ true
  pub matches : operation_matches ride driver db ≡ true

IsSelectable-check :
    (c : Clock) (ride rider driver version : ℕ) (db : Db) (r : Ride) (o : Offer) (p : Opportunity)
    → IsSelectable c ride rider driver version db r o p
    → check_selection c ride rider driver version db ≡ ok (r, o)
unfolding check_selection
IsSelectable-check c ride rider driver version db r o p h = ground arith

pub check-IsSelectable :
    (c : Clock) (ride rider driver version : ℕ) (db : Db) {r : Ride} {o : Offer}
    → check_selection c ride rider driver version db ≡ ok (r, o)
    → (p : Opportunity) × IsSelectable c ride rider driver version db r o p
unfolding check_selection
check-IsSelectable c ride rider driver version db h =
    elim (Option-cases (find (is_opportunity_of ride driver) db.opportunities)) [
      | inl e ↦ absurd (ground arith)
      | inr (p, e) ↦ (p, ground arith)
    ]

-- The database that a successful selection leaves.
abbrev pub assigned : Clock → ℕ → ℕ → Trip → Db → Db
assigned c ride driver t db = record db {
  rides = update_where (is_acceptable (c.at 16) ride) set_ride_accepted db.rides;
  trips = db.trips ++ t ∷ [];
  offers =
      update_where (is_competing_offer ride driver) (decide OfferStatus.closed (c.at 17))
        (update_where (is_offer_of ride driver) (decide OfferStatus.accepted (c.at 13)) db.offers);
  opportunities =
      update_where (is_competing_opportunity ride driver)
        (respond OpportunityStatus.closed (c.at 18))
        (update_where (λ o. is_opportunity_of ride driver o && is_offered o.status) set_accepted
          db.opportunities);
}

-- What the database's constraints let through.
pub record IsAdmitted (c : Clock) (ride rider driver : ℕ) (db : Db) : Type 0 where
  sole : exists (is_other_accepted ride driver) db.offers ≡ false
  apart : (driver == rider) ≡ false
  pub free : has_active_trip driver db.trips ≡ false
  pub one_ride : count_where (is_acceptable (c.at 16) ride) db.rides ≡ 1

pub apply_selection-ok :
    (c : Clock) (ride rider driver : ℕ) (db : Db) (o : Offer) {t : Trip} {db' : Db}
    → find (is_offer_of ride driver) db.offers ≡ some o
    → apply_selection c ride rider driver db ≡ ok (t, db')
    → IsAdmitted c ride rider driver db
      × (t ≡ new_trip (c.at 15) ride rider driver o)
      × (db' ≡ assigned c ride driver t db)
unfolding apply_selection accept_offer accept_opportunity insert_marketplace_trip mark_ride_accepted
    close_competing_offers close_competing_opportunities
apply_selection-ok c ride rider driver db o found h =
    let again =
      find-update_self (is_offer_of ride driver) (decide OfferStatus.accepted (c.at 13)) db.offers
        (λ x. refl) found in
    (ground (arith, again), ground (arith, again), ground (arith, again))
