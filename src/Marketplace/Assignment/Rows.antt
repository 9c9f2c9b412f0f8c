-- ===== src/Marketplace/Assignment/Rows.antt =====
-- The rows that a selection leaves.
use uber_clone.Common.{
  ℕ, subst, ◌<◌, All-map, ==_iff, ◌≡◌, refl, sym, true, false, ◌&&◌, some, List, [], ◌∷◌, ◌++◌,
  arith, All, Bool-cases, inl, inr,
}
use uber_clone.Common.Table.{
  find, update_where, change, count_where, count_where-none, find-update_self, find-update_where,
  find_sound, All-update₂, All-update_where,
}
use uber_clone.Common.Keys.{IsKeyed, find-only}
use uber_clone.Store.{
  ride_key, opportunity_key, Db, Ride, Trip, Offer, OfferStatus, Opportunity, OpportunityStatus,
  Clock,
}
use uber_clone.Marketplace.Expiry.{
  is_pending, is_offered, is_live, is_ride, is_offer_of, is_opportunity_of, decide, respond,
}
use uber_clone.Driver.Eligibility.{has_active_trip}
use uber_clone.Marketplace.Assignment.{
  is_acceptable, set_ride_accepted, is_competing_offer, is_competing_opportunity, set_accepted,
  new_trip,
}
use uber_clone.Marketplace.Assignment.Selectable.{assigned}

-- The keys of the tables that a selection writes.
pub record HasKeys (db : Db) : Type 0 where
  pub rides : IsKeyed ride_key db.rides
  pub opportunities : IsKeyed opportunity_key db.opportunities

-- What the Rider gets by selecting the Driver's offer: `db` is the database brought up to date.
pub record IsAssignment (c : Clock) (ride rider driver : ℕ) (db : Db) (r : Ride) (o : Offer)
    (p : Opportunity) (t : Trip) (db' : Db) : Type 0 where
  pub the_trip : t ≡ new_trip (c.at 15) ride rider driver o
  pub trips : db'.trips ≡ db.trips ++ t ∷ []
  pub driver_was_free : has_active_trip driver db.trips ≡ false
  pub ride_in_time : c.at 16 < r.expires_at
  pub ride_accepted : find (is_ride ride) db'.rides ≡ some (set_ride_accepted r)
  pub offer_accepted :
      find (is_offer_of ride driver) db'.offers ≡ some (decide OfferStatus.accepted (c.at 13) o)
  pub opportunity_accepted :
      find (is_opportunity_of ride driver) db'.opportunities ≡ some (set_accepted p)
  pub no_other_offer : All (λ x. x.ride_request_id ≡ ride → is_pending x.status ≡ false) db'.offers
  pub no_other_opportunity :
      All (λ x. x.ride_request_id ≡ ride → is_live x.status ≡ false) db'.opportunities

unacceptable :
    (now ride : ℕ) {r : Ride} (x : Ride)
    → is_acceptable now ride r ≡ false
    → (is_ride ride x ≡ true → x ≡ r)
    → is_acceptable now ride x ≡ false
unacceptable now ride {r} x e only = elim (Bool-cases (is_acceptable now ride x)) [
  | inl y ↦
      let same : x ≡ r = only (ground arith) in
      cc (e, subst (λ z. is_acceptable now ride z ≡ true) same y)
  | inr n ↦ n
]

pub acceptable_ride :
    (now ride : ℕ) (rides : List Ride) {r : Ride}
    → IsKeyed ride_key rides
    → find (is_ride ride) rides ≡ some r
    → count_where (is_acceptable now ride) rides ≡ 1
    → is_acceptable now ride r ≡ true
acceptable_ride now ride rides {r} keyed h one = elim (Bool-cases (is_acceptable now ride r)) [
  | inl e ↦ e
  | inr e ↦
      let only =
        find-only ride_key (is_ride ride) ride rides (λ x q. (==_iff x.id ride).0 q) keyed h in
      let all_false =
        All-map (λ x. is_ride ride x ≡ true → x ≡ r) (λ x. is_acceptable now ride x ≡ false) rides
          (λ x o. unacceptable now ride x e o) only in
      absurd (omega (arith, one, count_where-none (is_acceptable now ride) rides all_false))
]

module _ (c : Clock) (ride driver : ℕ) (t : Trip) (db : Db) where
  pub assigned_ride :
      {r : Ride}
      → find (is_ride ride) db.rides ≡ some r
      → is_acceptable (c.at 16) ride r ≡ true
      → find (is_ride ride) (assigned c ride driver t db).rides ≡ some (set_ride_accepted r)
  assigned_ride h e = rw (
    find-update_where (is_ride ride) (is_acceptable (c.at 16) ride) set_ride_accepted db.rides
        (λ x. refl),
    h,
    e,
  )

  pub assigned_offer :
      {o : Offer}
      → find (is_offer_of ride driver) db.offers ≡ some o
      → find (is_offer_of ride driver) (assigned c ride driver t db).offers
        ≡ some (decide OfferStatus.accepted (c.at 13) o)
  assigned_offer h =
      rw
        (
          find-update_where (is_offer_of ride driver) (is_competing_offer ride driver)
              (decide OfferStatus.closed (c.at 17))
              (update_where (is_offer_of ride driver) (decide OfferStatus.accepted (c.at 13))
                db.offers)
              (λ x. refl),
          find-update_self (is_offer_of ride driver) (decide OfferStatus.accepted (c.at 13))
              db.offers (λ x. refl) h,
        )
        (ground (arith, find_sound (is_offer_of ride driver) db.offers h))

  pub assigned_opportunity :
      {p : Opportunity}
      → find (is_opportunity_of ride driver) db.opportunities ≡ some p
      → is_offered p.status ≡ true
      → find (is_opportunity_of ride driver) (assigned c ride driver t db).opportunities
        ≡ some (set_accepted p)
  assigned_opportunity h e =
      rw
        (
          find-update_where (is_opportunity_of ride driver) (is_competing_opportunity ride driver)
              (respond OpportunityStatus.closed (c.at 18))
              (update_where (λ o. is_opportunity_of ride driver o && is_offered o.status)
                set_accepted db.opportunities)
              (λ x. refl),
          find-update_where (is_opportunity_of ride driver)
              (λ o. is_opportunity_of ride driver o && is_offered o.status) set_accepted
              db.opportunities (λ x. refl),
          h,
        )
        (ground (arith, find_sound (is_opportunity_of ride driver) db.opportunities h))

  pub assigned_no_pending :
      All
        (λ x. x.ride_request_id ≡ ride → is_pending x.status ≡ false)
        (assigned c ride driver t db).offers
  assigned_no_pending =
      All-update₂ (λ x. x.ride_request_id ≡ ride → is_pending x.status ≡ false)
        (is_offer_of ride driver) (is_competing_offer ride driver)
        (decide OfferStatus.accepted (c.at 13)) (decide OfferStatus.closed (c.at 17)) db.offers
        (λ x e. ground arith)

  pub assigned_no_live :
      {p : Opportunity}
      → IsKeyed opportunity_key db.opportunities
      → find (is_opportunity_of ride driver) db.opportunities ≡ some p
      → is_offered p.status ≡ true
      → All
          (λ x. x.ride_request_id ≡ ride → is_live x.status ≡ false)
          (assigned c ride driver t db).opportunities
  assigned_no_live {p} keyed h e =
      let mine =
        λ (x : Opportunity). is_opportunity_of ride driver x ≡ true → is_live x.status ≡ false in
      All-update_where mine (λ x. x.ride_request_id ≡ ride → is_live x.status ≡ false)
        (is_competing_opportunity ride driver) (respond OpportunityStatus.closed (c.at 18))
        (update_where (λ o. is_opportunity_of ride driver o && is_offered o.status) set_accepted
          db.opportunities)
        (λ x m same. ground (arith))
        (All-update_where (λ x. is_opportunity_of ride driver x ≡ true → x ≡ p) mine
          (λ o. is_opportunity_of ride driver o && is_offered o.status) set_accepted
          db.opportunities (λ x only. mine_only x only e)
          (find-only opportunity_key (is_opportunity_of ride driver) (ride, driver) db.opportunities
            (λ x q. ground arith) keyed h))
    where
      mine_only :
          (x : Opportunity)
          → (is_opportunity_of ride driver x ≡ true → x ≡ p)
          → is_offered p.status ≡ true
          → is_opportunity_of ride driver
              (change (λ o. is_opportunity_of ride driver o && is_offered o.status) set_accepted x)
            ≡ true
          → is_live
              (change
                (λ o. is_opportunity_of ride driver o && is_offered o.status)
                set_accepted
                x).status
            ≡ false
      mine_only x only e m = elim (Bool-cases (is_opportunity_of ride driver x)) [
        | inl q ↦
            let off : is_offered x.status ≡ true =
              subst (λ z. is_offered z.status ≡ true) (sym (only q)) e in
            ground arith
        | inr q ↦ ground arith
      ]
