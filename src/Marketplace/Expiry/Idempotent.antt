-- ===== src/Marketplace/Expiry/Idempotent.antt =====
-- `Expire` changes nothing in a database that is current already.
use uber_clone.Common.{ℕ, ◌+◌, ◌≤◌, ◌≡◌, refl, arith, All-map}
use uber_clone.Common.Table.{change, update_where-id}
use uber_clone.Store.{Db, OfferStatus, OpportunityStatus, Clock, frozen}
use uber_clone.Marketplace.Expiry.{
  offer_has_expired, is_stray_offer, is_stray_opportunity, is_late_offer, is_late_ride,
  is_late_opportunity, set_expired, end_window, decide, respond, expire_offers, end_expired_offers,
  end_windows, expire_rides, close_offers, close_opportunities, expire,
}
use uber_clone.Marketplace.Expiry.Effects.{
  IsCurrent, IsCurrentRide, IsCurrentOffer, IsCurrentOpportunity, expire-IsCurrent,
}
use native.Mathlib.Nat.{le_refl}

module _ (now t : ℕ) (db : Db) (early : t ≤ now) (cur : IsCurrent now db) where
  expire_offers-id : expire_offers t db ≡ db
  unfolding expire_offers
  expire_offers-id = rw (
      update_where-id (is_late_offer t) (decide OfferStatus.expired t) db.offers (
        All-map (IsCurrentOffer now db.rides)
          (λ o. change (is_late_offer t) (decide OfferStatus.expired t) o ≡ o) db.offers
          (λ o h. ground arith) cur.offers))

  end_expired_offers-id : end_expired_offers t db ≡ db
  unfolding end_expired_offers
  end_expired_offers-id = rw (
      update_where-id (offer_has_expired db.offers) (respond OpportunityStatus.offer_expired t)
        db.opportunities
        (All-map (IsCurrentOpportunity now db.rides db.offers)
          (λ o.
            change (offer_has_expired db.offers) (respond OpportunityStatus.offer_expired t) o ≡ o)
          db.opportunities (λ o h. rw h.offer_stands) cur.opportunities))

  end_windows-id : end_windows t db ≡ db
  unfolding end_windows
  end_windows-id = rw (
      update_where-id (is_late_opportunity t) (end_window t) db.opportunities (
        All-map (IsCurrentOpportunity now db.rides db.offers)
          (λ o. change (is_late_opportunity t) (end_window t) o ≡ o) db.opportunities
          (λ o h. ground arith) cur.opportunities))

  expire_rides-id : expire_rides t db ≡ db
  unfolding expire_rides
  expire_rides-id = rw (
      update_where-id (is_late_ride t db.trips) set_expired db.rides (
        All-map (IsCurrentRide now db.trips)
          (λ r. change (is_late_ride t db.trips) set_expired r ≡ r) db.rides (λ r h. ground arith)
          cur.rides))

  close_offers-id : close_offers t db ≡ db
  unfolding close_offers
  close_offers-id = rw (
      update_where-id (is_stray_offer db.rides) (decide OfferStatus.closed t) db.offers (
        All-map (IsCurrentOffer now db.rides)
          (λ o. change (is_stray_offer db.rides) (decide OfferStatus.closed t) o ≡ o) db.offers
          (λ o h. ground arith) cur.offers))

  close_opportunities-id : close_opportunities t db ≡ db
  unfolding close_opportunities
  close_opportunities-id = rw (
      update_where-id (is_stray_opportunity db.rides) (respond OpportunityStatus.closed t)
        db.opportunities
        (All-map (IsCurrentOpportunity now db.rides db.offers)
          (λ o. change (is_stray_opportunity db.rides) (respond OpportunityStatus.closed t) o ≡ o)
          db.opportunities (λ o h. ground arith) cur.opportunities))

expire_steps :
    (c : Clock) (k : ℕ) (db : Db)
    → expire c k db
      ≡ close_opportunities (c.at (k + 5)) (
          close_offers (c.at (k + 4)) (
            expire_rides (c.at (k + 3)) (
              end_windows
                (c.at (k + 2))
                (end_expired_offers (c.at (k + 1)) (expire_offers (c.at k) db)))))
unfolding expire
expire_steps c k db = refl

-- A database whose deadlines up to `now` are accounted for is left as it is by every run of
-- `Expire` whose statements run no later than `now`.
pub expire-id :
    (c : Clock) (k now : ℕ) (db : Db)
    → ((j : ℕ) → c.at j ≤ now)
    → IsCurrent now db
    → expire c k db ≡ db
expire-id c k now db early cur =
    rw
      (
        expire_steps c k db,
        expire_offers-id now (c.at k) db (early k) cur,
        end_expired_offers-id now (c.at (k + 1)) db (early (k + 1)) cur,
        end_windows-id now (c.at (k + 2)) db (early (k + 2)) cur,
        expire_rides-id now (c.at (k + 3)) db (early (k + 3)) cur,
        close_offers-id now (c.at (k + 4)) db (early (k + 4)) cur,
      )
      (close_opportunities-id now (c.at (k + 5)) db (early (k + 5)) cur)

-- At one instant a second run of `Expire` changes nothing.
pub expire_idem :
    (t k : ℕ) (db : Db) → expire (frozen t) k (expire (frozen t) k db) ≡ expire (frozen t) k db
expire_idem t k db =
    expire-id (frozen t) k t (expire (frozen t) k db) (λ j. le_refl t)
      (expire-IsCurrent (frozen t) k db (λ j. le_refl t))
