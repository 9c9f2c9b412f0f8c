-- ===== src/Offer/Once.antt =====
-- A Driver makes one offer for a ride, and the proposed fare is always an amount that may be offered.
use uber_clone.Common.{
  ℕ, ◌+◌, ◌≤◌, ◌≡◌, ◌≢◌, ◌∙◌, true, false, ◌||◌, arith, ok, err, or_fail-eq-ok, Result-cases, inl,
  inr,
}
use uber_clone.Common.Int.{ℤ, pos, ltb_ℤ}
use uber_clone.Common.Text.{Text}
use uber_clone.Common.Table.{exists, exists-update_where, find-exists, update_where}
use uber_clone.Store.{Db, Offer, OfferStatus, Clock}
use uber_clone.Marketplace.Expiry.{
  expire, is_offer_of, is_late_offer, is_late_ride, is_stray_offer, set_expired, decide,
}
use uber_clone.Offer.{
  amount_out_of_range, Market, market, bounds, check_offer, operation_of, insert_offer, place_offer,
  upsert, submit, accept_proposed,
}
use uber_clone.Offer.Bounds.{bounds_exact, max_proposal}
use uber_clone.Offer.Decision.{get, reject}
use uber_clone.Offer.Response.{reject-rejects}
use uber_clone.Offer.Submission.{submit-places, upsert-places}

pub expire-exists_offer :
    (c : Clock) (k ride driver : ℕ) (db : Db)
    → exists (is_offer_of ride driver) (expire c k db).offers
      ≡ exists (is_offer_of ride driver) db.offers
unfolding expire
expire-exists_offer c k ride driver db =
    let late = is_late_offer (c.at k) in
    let rides = update_where (is_late_ride (c.at (k + 3)) db.trips) set_expired db.rides in
    exists-update_where (is_offer_of ride driver) (is_stray_offer rides)
      (decide OfferStatus.closed (c.at (k + 4)))
      (update_where late (decide OfferStatus.expired (c.at k)) db.offers) (λ x. ground arith)
    ∙ exists-update_where (is_offer_of ride driver) late (decide OfferStatus.expired (c.at k))
        db.offers (λ x. ground arith)

-- Where the Driver has an offer for the ride, of any status, Upsert makes no other one.
pub upsert_once :
    (c : Clock) (ride driver : ℕ) (amount lo hi : ℤ) (currency : Text) (db : Db) {o : Offer}
    {db' : Db}
    → exists (is_offer_of ride driver) db.offers ≡ true
    → upsert c ride driver amount lo hi currency db ≢ ok (o, db')
upsert_once c ride driver amount lo hi currency db there h =
    let (_, _, _, placed, _) = upsert-places c ride driver amount lo hi currency db h in
    cc (placed.was_new, expire-exists_offer c 0 ride driver db, there)

-- What stands after the Rider has, or has not, rejected the Driver's offer.
pub data IsAnswered (ride driver : ℕ) (db : Db) : Db → Type 0 where
  unanswered : IsAnswered ride driver db db
  turned_down :
      (c : Clock) (rider : ℕ) {o : Offer} {db' : Db}
      → reject c ride rider driver db ≡ ok (o, db')
      → IsAnswered ride driver db db'

rejected-exists :
    (c : Clock) (ride rider driver : ℕ) (db : Db) {o : Offer} {db' : Db}
    → reject c ride rider driver db ≡ ok (o, db')
    → exists (is_offer_of ride driver) db'.offers ≡ true
unfolding get
rejected-exists c ride rider driver db {o} {db'} h =
    let (_, _, _, _, now, _) = reject-rejects c ride rider driver db h in
    find-exists (is_offer_of ride driver) db'.offers (or_fail-eq-ok _ _ now.stored)

answered-exists :
    (ride driver : ℕ) (db : Db) {later : Db}
    → exists (is_offer_of ride driver) db.offers ≡ true
    → IsAnswered ride driver db later
    → exists (is_offer_of ride driver) later.offers ≡ true
answered-exists ride driver db there unanswered = there
answered-exists ride driver db there (turned_down c rider h) =
    rejected-exists c ride rider driver db h

-- After a submission that succeeded, the store refuses every later submission of the same Driver for
-- the same ride, whatever the market read, the amount and the time; and so does the store after the
-- Rider has rejected the offer.
pub submit_twice :
    (now : ℕ) (seen : Db) (c : Clock) (ride driver : ℕ) (amount : ℤ) (db : Db) {o : Offer}
    {db' : Db}
    → submit now seen c ride driver amount db ≡ ok (o, db')
    → {later : Db} → IsAnswered ride driver db' later
    → (now' : ℕ) (seen' : Db) (c' : Clock) (amount' : ℤ) {o' : Offer} {db'' : Db}
    → submit now' seen' c' ride driver amount' later ≢ ok (o', db'')
submit_twice now seen c ride driver amount db {o} {db'} h {later} answer now' seen' c' amount' h' =
    let (_, _, (_, _, _, placed, _)) = submit-places now seen c ride driver amount db h in
    let (_, _, (_, _, _, again, _)) = submit-places now' seen' c' ride driver amount' later h' in
    let there =
      answered-exists ride driver db'
        (find-exists (is_offer_of ride driver) db'.offers placed.the_offer) answer in
    cc (again.was_new, expire-exists_offer c' 0 ride driver later, there)

check_offer-in_range :
    (c : Clock) (ride driver : ℕ) (amount lo hi : ℤ) (currency : Text) (db : Db)
    → (ltb_ℤ amount lo || ltb_ℤ hi amount) ≡ false
    → check_offer c ride driver amount lo hi currency db ≢ err amount_out_of_range
unfolding check_offer operation_of
check_offer-in_range c ride driver amount lo hi currency db within h = ground arith

upsert-in_range :
    (c : Clock) (ride driver : ℕ) (amount lo hi : ℤ) (currency : Text) (db : Db)
    → (ltb_ℤ amount lo || ltb_ℤ hi amount) ≡ false
    → upsert c ride driver amount lo hi currency db ≢ err amount_out_of_range
unfolding upsert place_offer insert_offer
upsert-in_range c ride driver amount lo hi currency db within h =
    ground (arith, check_offer-in_range c ride driver amount lo hi currency (expire c 0 db) within)

market_error : (now ride : ℕ) (db : Db) → market now ride db ≢ err amount_out_of_range
unfolding market
market_error now ride db h = ground arith

-- When a Driver accepts the proposed fare and the market's fare is not negative and at most 7·10¹⁶
-- minor units, the answer is never that the amount is out of range.
pub accept_proposed-in_range :
    (now : ℕ) (seen : Db) (c : Clock) (ride driver p : ℕ) (db : Db)
    → ((m : Market) → market now ride seen ≡ ok m → m.proposed_amount_minor ≡ pos p)
    → p ≤ max_proposal
    → accept_proposed now seen c ride driver db ≢ err amount_out_of_range
unfolding accept_proposed
accept_proposed-in_range now seen c ride driver p db fare small h =
    elim (Result-cases (market now ride seen)) [
      | inl (m, e) ↦
          let same = fare m e in
          let within = (bounds_exact p (pos p) small).1.1 (omega arith, omega arith) in
          upsert-in_range c ride driver (pos p) (bounds (pos p)).0 (bounds (pos p)).1 m.currency db
            within (rw (e, same) at h)
      | inr (x, e) ↦ market_error now ride seen (cc (rw e at h, e))
    ]
