-- ===== src/Marketplace/Expiry/Frame.antt =====
-- What `Expire` leaves as it is.
use uber_clone.Common.{ℕ, ◌+◌, ◌≡◌, refl, false, some, arith}
use uber_clone.Common.Table.{find, find-update_where}
use uber_clone.Common.Keys.{IsKeyed, update_where-IsKeyed}
use uber_clone.Store.{Db, Ride, Clock, ride_key, offer_key, opportunity_key}
use uber_clone.Marketplace.Expiry.{expire, is_ride, is_late_ride, is_requested, set_expired}

module _ (c : Clock) (k : ℕ) (db : Db) where
  pub expire-trips : (expire c k db).trips ≡ db.trips
  unfolding expire
  expire-trips = refl

  pub expire-rides-IsKeyed : IsKeyed ride_key db.rides → IsKeyed ride_key (expire c k db).rides
  unfolding expire
  expire-rides-IsKeyed keyed = update_where-IsKeyed ride_key _ _ db.rides (λ x. refl) keyed

  pub expire-offers-IsKeyed : IsKeyed offer_key db.offers → IsKeyed offer_key (expire c k db).offers
  unfolding expire
  expire-offers-IsKeyed keyed =
      update_where-IsKeyed offer_key _ _ _ (λ x. refl)
        (update_where-IsKeyed offer_key _ _ db.offers (λ x. refl) keyed)

  pub expire-opportunities-IsKeyed :
      IsKeyed opportunity_key db.opportunities
      → IsKeyed opportunity_key (expire c k db).opportunities
  unfolding expire
  expire-opportunities-IsKeyed keyed =
      update_where-IsKeyed opportunity_key _ _ _ (λ x. refl)
        (update_where-IsKeyed opportunity_key _ _ _ (λ x. refl)
          (update_where-IsKeyed opportunity_key _ _ db.opportunities (λ x. refl) keyed))

  -- A ride that is not requested stays as it is.
  pub expire-find_ride :
      (ride : ℕ) {r : Ride}
      → find (is_ride ride) db.rides ≡ some r
      → is_requested r.status ≡ false
      → find (is_ride ride) (expire c k db).rides ≡ some r
  unfolding expire
  expire-find_ride ride {r} h e =
      rw
        (
          find-update_where (is_ride ride) (is_late_ride (c.at (k + 3)) db.trips) set_expired
              db.rides (λ x. refl),
          h,
        )
        (ground arith)
