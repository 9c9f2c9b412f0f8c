-- ===== src/Marketplace/Expiry/Effects.antt =====
-- What `Expire` establishes: nothing that is past its deadline is left standing.
use uber_clone.Common.{ℕ, zero, suc, ◌&&◌, ◌+◌, ◌≤◌, ◌<◌, ◌≡◌, Bool, true, false, List, arith, All}
use native.Mathlib.Nat.{add-zero, add-suc, le_refl, le_trans}
use uber_clone.Common.Table.{
  update_where, change, exists, All-update, All-update₂, All-update₃, exists-update_where,
}
use uber_clone.Store.{
  Db, Ride, Trip, Offer, OfferStatus, Opportunity, OpportunityStatus, Clock, IsMonotone,
}
use uber_clone.Marketplace.Expiry.{
  is_pending, is_open, is_live, is_requested, has_trip, ride_is_over, offer_has_expired,
  is_offer_of, is_expired_offer, is_stray_offer, is_stray_opportunity, is_late_offer, is_late_ride,
  is_late_opportunity, decide, respond, set_expired, end_window, expire_offers, expire_rides,
  expire,
}

-- The deadlines up to `now` are accounted for.
pub record IsCurrentOffer (now : ℕ) (rides : List Ride) (o : Offer) : Type 0 where
  pub in_time : is_pending o.status ≡ true → now < o.expires_at
  pub ride_stands : is_pending o.status ≡ true → ride_is_over o.ride_request_id rides ≡ false

pub record IsCurrentOpportunity (now : ℕ) (rides : List Ride) (offers : List Offer)
    (o : Opportunity) : Type 0 where
  pub in_time : is_open o.status ≡ true → now < o.visible_until
  pub ride_stands : is_live o.status ≡ true → ride_is_over o.ride_request_id rides ≡ false
  pub offer_stands : offer_has_expired offers o ≡ false

pub record IsCurrentRide (now : ℕ) (trips : List Trip) (r : Ride) : Type 0 where
  pub in_time : is_requested r.status ≡ true → has_trip r.id trips ≡ false → now < r.expires_at

pub record IsCurrent (now : ℕ) (db : Db) : Type 0 where
  pub rides : All (IsCurrentRide now db.trips) db.rides
  pub offers : All (IsCurrentOffer now db.rides) db.offers
  pub opportunities : All (IsCurrentOpportunity now db.rides db.offers) db.opportunities

pub at_mono : (c : Clock) (k j : ℕ) → IsMonotone c → c.at k ≤ c.at (k + j)
at_mono c k zero m = rw add-zero (le_refl (c.at k))
at_mono c k (suc j) m = rw add-suc (le_trans (at_mono c k j m) (m (k + j)))

current_ride :
    (now t : ℕ) (trips : List Trip) (r : Ride)
    → now ≤ t
    → IsCurrentRide now trips (change (is_late_ride t trips) set_expired r)
current_ride now t trips r h = ground arith

current_offer :
    (now t t' : ℕ) (rides : List Ride) (o : Offer)
    → now ≤ t
    → IsCurrentOffer now rides (
        change
          (is_stray_offer rides)
          (decide OfferStatus.closed t')
          (change (is_late_offer t) (decide OfferStatus.expired t) o))
current_offer now t t' rides o h = ground arith

-- The offers that have expired for one ride and Driver.
abbrev expired_for : ℕ → ℕ → List Offer → Bool
expired_for ride driver = exists (λ ro. is_offer_of ride driver ro && is_expired_offer ro.status)

current_opportunity :
    (now t t' t'' : ℕ) (rides : List Ride) (before after : List Offer) (o : Opportunity)
    → now ≤ t'
    → expired_for o.ride_request_id o.driver_user_id after
      ≡ expired_for o.ride_request_id o.driver_user_id before
    → IsCurrentOpportunity now rides after (
        change (is_stray_opportunity rides) (respond OpportunityStatus.closed t'') (
          change
            (is_late_opportunity t')
            (end_window t')
            (change (offer_has_expired before) (respond OpportunityStatus.offer_expired t) o)))
current_opportunity now t t' t'' rides before after o h same = ground arith

-- Closing stray offers makes none expired.
closing_expires_none :
    (rides : List Ride) (t ride driver : ℕ) (offers : List Offer)
    → expired_for ride driver
        (update_where (is_stray_offer rides) (decide OfferStatus.closed t) offers)
      ≡ expired_for ride driver offers
closing_expires_none rides t ride driver offers =
    exists-update_where (λ ro. is_offer_of ride driver ro && is_expired_offer ro.status)
      (is_stray_offer rides) (decide OfferStatus.closed t) offers (λ ro. ground arith)

-- Where time does not run backwards, after `Expire` every deadline up to the time of its first statement is accounted for: a pending
-- offer, an open opportunity and a requested ride without a Trip are all in time; no offer is
-- pending and no opportunity open or offered for a ride that is accepted, cancelled or expired;
-- and no opportunity is offered whose offer has expired.
pub expire-IsCurrent :
    (c : Clock) (k : ℕ) (db : Db) → IsMonotone c → IsCurrent (c.at k) (expire c k db)
unfolding expire
expire-IsCurrent c k db m =
    let rides' = (expire_rides (c.at (k + 3)) db).rides in
    let before = (expire_offers (c.at k) db).offers in
    let after = (expire c k db).offers in
    record {
      rides =
          All-update (IsCurrentRide (c.at k) db.trips) (is_late_ride (c.at (k + 3)) db.trips)
            set_expired db.rides
            (λ r. current_ride (c.at k) (c.at (k + 3)) db.trips r (at_mono c k 3 m));
      offers =
          All-update₂ (IsCurrentOffer (c.at k) rides') (is_late_offer (c.at k))
            (is_stray_offer rides') (decide OfferStatus.expired (c.at k))
            (decide OfferStatus.closed (c.at (k + 4))) db.offers
            (λ o. current_offer (c.at k) (c.at k) (c.at (k + 4)) rides' o (le_refl (c.at k)));
      opportunities =
          All-update₃ (IsCurrentOpportunity (c.at k) rides' after) (offer_has_expired before)
            (is_late_opportunity (c.at (k + 2))) (is_stray_opportunity rides')
            (respond OpportunityStatus.offer_expired (c.at (k + 1))) (end_window (c.at (k + 2)))
            (respond OpportunityStatus.closed (c.at (k + 5))) db.opportunities
            (λ o.
              current_opportunity (c.at k) (c.at (k + 1)) (c.at (k + 2)) (c.at (k + 5)) rides'
                before after o (at_mono c k 2 m)
                (closing_expires_none rides' (c.at (k + 4)) o.ride_request_id o.driver_user_id
                  before));
    }
