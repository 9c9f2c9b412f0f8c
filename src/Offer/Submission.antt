-- ===== src/Offer/Submission.antt =====
-- What a Driver's accepted submission means and does, and that a Driver offers once for a ride.
use uber_clone.Common.{
  ℕ, ◌≡◌, refl, true, false, ◌&&◌, ◌||◌, some, [], ◌∷◌, ◌++◌, ◌==◌, ltb, arith, ok, ◌>>=◌,
  >>=-eq-ok, Option-cases, inl, inr, or_fail, fail_if,
}
use uber_clone.Common.Int.{ℤ, ltb_ℤ}
use uber_clone.Common.Text.{Text}
use uber_clone.Common.Table.{find, exists, update_where, find-update_where, find-append, find_sound}
use uber_clone.Store.{
  Db, Ride, Offer, OfferStatus, Opportunity, OperationContext, TimingPolicy, Clock,
}
use uber_clone.Marketplace.Expiry.{
  expire, is_open, is_ride, has_trip, is_offer_of, is_opportunity_of,
}
use uber_clone.Driver.Eligibility.{lock_marketplace_eligible}
use uber_clone.Offer.{
  Market, market, bounds, is_takeable, check_offer, new_offer, insert_offer, policy_missing,
  amount_out_of_range, mark_offered, set_offered, place_offer, upsert, submit,
}

-- What a placed offer rests on: the ride and the opportunity of the database that is up to date.
pub record IsTakeable (c : Clock) (ride driver : ℕ) (currency : Text) (db : Db) (r : Ride)
    (p : Opportunity) : Type 0 where
  pub the_ride : find (is_ride ride) db.rides ≡ some r
  pub open_ride : is_takeable (c.at 7) currency r ≡ true
  pub no_trip : has_trip ride db.trips ≡ false
  pub not_rider : (driver == r.rider_user_id) ≡ false
  pub the_opportunity : find (is_opportunity_of ride driver) db.opportunities ≡ some p
  pub open_opportunity : is_open p.status ≡ true
  pub in_time : ltb (c.at 9) p.visible_until ≡ true
  pub eligible : lock_marketplace_eligible c 10 driver r.service_code db ≡ true

check-IsTakeable :
    (c : Clock) (ride driver : ℕ) (amount lo hi : ℤ) (currency : Text) (db : Db)
    {x : OperationContext}
    → check_offer c ride driver amount lo hi currency db ≡ ok x
    → ((r : Ride) × (p : Opportunity) × IsTakeable c ride driver currency db r p)
      × ((ltb_ℤ amount lo || ltb_ℤ hi amount) ≡ false)
unfolding check_offer
check-IsTakeable c ride driver amount lo hi currency db h =
    elim (Option-cases (find (is_ride ride) db.rides)) [
      | inl e ↦ absurd (ground arith)
      | inr (r, e) ↦ elim (Option-cases (find (is_opportunity_of ride driver) db.opportunities)) [
        | inl e' ↦ absurd (ground arith)
        | inr (p, e') ↦ ((r, p, ground arith), ground arith)
      ]
    ]

-- What stands in the store after the offer `o` is placed; `db` is the store that is up to date.
pub record IsPlaced (c : Clock) (ride driver : ℕ) (amount : ℤ) (db : Db) (p : Opportunity)
    (o : Offer) (db' : Db) : Type 0 where
  pub the_amount : o.amount_minor ≡ amount
  pub pending : o.status ≡ OfferStatus.pending
  pub was_new : exists (is_offer_of ride driver) db.offers ≡ false
  pub offers : db'.offers ≡ db.offers ++ o ∷ []
  pub the_offer : find (is_offer_of ride driver) db'.offers ≡ some o
  pub the_opportunity :
      find (is_opportunity_of ride driver) db'.opportunities ≡ some (set_offered (c.at 14) p)
  pub opportunities :
      db'.opportunities
      ≡ update_where
          (λ x. is_opportunity_of ride driver x && is_open x.status)
          (set_offered (c.at 14))
          db.opportunities
  pub nothing_else : db' ≡ record db { offers = db'.offers; opportunities = db'.opportunities }

find-mark_offered :
    (now ride driver : ℕ) (db : Db) {p : Opportunity}
    → find (is_opportunity_of ride driver) db.opportunities ≡ some p
    → is_open p.status ≡ true
    → find (is_opportunity_of ride driver) (mark_offered now ride driver db).opportunities
      ≡ some (set_offered now p)
unfolding mark_offered
find-mark_offered now ride driver db {p} h e =
    let sound = find_sound (is_opportunity_of ride driver) db.opportunities h in
    rw (
      find-update_where (is_opportunity_of ride driver)
          (λ o. is_opportunity_of ride driver o && is_open o.status) (set_offered now)
          db.opportunities (λ x. refl),
      h,
      sound,
      e,
    )

place_offer-inv :
    (c : Clock) (ride driver : ℕ) (amount lo hi : ℤ) (currency : Text) (policy : TimingPolicy)
    (db : Db) {o : Offer} {db' : Db}
    → place_offer c ride driver amount lo hi currency policy db ≡ ok (o, db')
    → (x : OperationContext) × (check_offer c ride driver amount lo hi currency db ≡ ok x)
      × (o ≡ new_offer c ride driver amount currency x policy)
      × (exists (is_offer_of ride driver) db.offers ≡ false)
      × (db' ≡ mark_offered (c.at 14) ride driver (record db { offers = db.offers ++ o ∷ [] }))
unfolding place_offer insert_offer
place_offer-inv c ride driver amount lo hi currency policy db h =
    let (x, e, rest) =
      >>=-eq-ok (check_offer c ride driver amount lo hi currency db)
        (λ x.
          insert_offer ride driver (new_offer c ride driver amount currency x policy) db >>= λ db₁.
          ok (
            new_offer c ride driver amount currency x policy,
            mark_offered (c.at 14) ride driver db₁,
          ))
        h in
    (x, e, ground arith, ground arith, ground arith)

pub place_offer-places :
    (c : Clock) (ride driver : ℕ) (amount lo hi : ℤ) (currency : Text) (policy : TimingPolicy)
    (db : Db) {o : Offer} {db' : Db}
    → place_offer c ride driver amount lo hi currency policy db ≡ ok (o, db')
    → (r : Ride) × (p : Opportunity) × IsTakeable c ride driver currency db r p
      × IsPlaced c ride driver amount db p o db'
      × ((ltb_ℤ amount lo || ltb_ℤ hi amount) ≡ false)
unfolding mark_offered
place_offer-places c ride driver amount lo hi currency policy db {o} {db'} h =
    let (x, checked, same, fresh, after) =
      place_offer-inv c ride driver amount lo hi currency policy db h in
    let ((r, p, takeable), within) =
      check-IsTakeable c ride driver amount lo hi currency db checked in
    let appended = find-append (is_offer_of ride driver) db.offers (o ∷ []) fresh in
    let offered =
      find-mark_offered (c.at 14) ride driver (record db { offers = db.offers ++ o ∷ [] })
        takeable.the_opportunity takeable.open_opportunity in
    let mine : is_offer_of ride driver o ≡ true = rw same (ground arith) in
    (
      r,
      p,
      takeable,
      record {
        the_amount = ground arith;
        pending = ground arith;
        was_new = fresh;
        offers = ground arith;
        the_offer = rw (after, appended, mine);
        the_opportunity = rw after offered;
        opportunities = ground arith;
        nothing_else = ground arith;
      },
      within,
    )

-- A submission: what the Driver may take, the placed offer and the bounds.
abbrev pub IsSubmission : Clock → ℕ → ℕ → ℤ → ℤ × ℤ → Text → Db → Offer → Db → Type 0
IsSubmission c ride driver amount (lo, hi) currency db o db' =
    (r : Ride) × (p : Opportunity) × IsTakeable c ride driver currency db r p
    × IsPlaced c ride driver amount db p o db'
    × ((ltb_ℤ amount lo || ltb_ℤ hi amount) ≡ false)

pub upsert-places :
    (c : Clock) (ride driver : ℕ) (amount lo hi : ℤ) (currency : Text) (db : Db) {o : Offer}
    {db' : Db}
    → upsert c ride driver amount lo hi currency db ≡ ok (o, db')
    → IsSubmission c ride driver amount (lo, hi) currency (expire c 0 db) o db'
unfolding upsert
upsert-places c ride driver amount lo hi currency db h =
    let (policy, e, placed) =
      >>=-eq-ok (or_fail (expire c 0 db).timing_policy policy_missing) _ h in
    place_offer-places c ride driver amount lo hi currency policy (expire c 0 db) placed

-- Where Submit succeeds, the market was there when it was read, the amount is within the bounds of its
-- proposed fare, the ride is requested, in time and without a Trip, the Driver is not its Rider, is
-- eligible and had an open opportunity in time. The store is then the one that `Expire` leaves with
-- one row more, the pending offer with that amount, where the Driver had no offer for the ride, and
-- with the Driver's opportunity `offered`; no other row and no other table differs.
pub submit-places :
    (now : ℕ) (seen : Db) (c : Clock) (ride driver : ℕ) (amount : ℤ) (db : Db) {o : Offer}
    {db' : Db}
    → submit now seen c ride driver amount db ≡ ok (o, db')
    → (m : Market) × (market now ride seen ≡ ok m)
      × IsSubmission c ride driver amount
          (bounds m.proposed_amount_minor)
          m.currency
          (expire c 0 db)
          o
          db'
unfolding submit
submit-places now seen c ride driver amount db h =
    let (m, e, rest) = >>=-eq-ok (market now ride seen) _ h in
    let (_, _, placed) =
      >>=-eq-ok
        (fail_if
          (ltb_ℤ amount (bounds m.proposed_amount_minor).0
            || ltb_ℤ (bounds m.proposed_amount_minor).1 amount)
          amount_out_of_range)
        _ rest in
    (
      m,
      e,
      upsert-places c ride driver amount (bounds m.proposed_amount_minor).0
          (bounds m.proposed_amount_minor).1 m.currency db placed,
    )
