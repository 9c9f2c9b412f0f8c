-- ===== src/Offer/Response.antt =====
-- The Driver skips a ride, and the Rider rejects an offer.
use uber_clone.Common.{
  ℕ, ◌≡◌, refl, Bool, true, false, ◌&&◌, some, ◌==◌, arith, ok, Option-cases, inl, inr, ◌⊎◌,
}
use uber_clone.Common.Table.{
  find, exists, update_where, change, find-update_self, All-update, All-false-exists,
}
use uber_clone.Store.{Db, Ride, Offer, OfferStatus, Opportunity, Clock}
use uber_clone.Marketplace.Expiry.{
  expire, is_offered, is_ride, has_trip, is_offer_of, is_opportunity_of, decide,
}
use uber_clone.Offer.Decision.{
  is_open_request, reject_by_status, reject_current, reject, mark_rejected, set_rider_rejected, get,
}

-- What a Rider's rejection rests on.
pub record IsRejectable (c : Clock) (ride rider driver : ℕ) (db : Db) (r : Ride) (o : Offer)
    : Type 0 where
  pub the_ride : find (λ r. is_ride ride r && (r.rider_user_id == rider)) db.rides ≡ some r
  pub open_ride : is_open_request (c.at 6) r ≡ true
  pub no_trip : has_trip ride db.trips ≡ false
  pub the_offer : find (is_offer_of ride driver) db.offers ≡ some o

reject_current-inv :
    (c : Clock) (ride rider driver : ℕ) (db : Db) {o' : Offer} {db' : Db}
    → reject_current c ride rider driver db ≡ ok (o', db')
    → (r : Ride) × (o : Offer) × IsRejectable c ride rider driver db r o
      × (reject_by_status c ride driver o db ≡ ok (o', db'))
unfolding reject_current
reject_current-inv c ride rider driver db h =
    elim (Option-cases (find (λ r. is_ride ride r && (r.rider_user_id == rider)) db.rides)) [
      | inl e ↦ absurd (ground arith)
      | inr (r, e) ↦ elim (Option-cases (find (is_offer_of ride driver) db.offers)) [
        | inl e' ↦ absurd (ground arith)
        | inr (o, e') ↦ (r, o, ground arith, ground arith)
      ]
    ]

-- The two ways in which a rejection succeeds.
abbrev pub IsRejection : Clock → ℕ → ℕ → Db → Offer → Offer → Db → Type 0
IsRejection c ride driver db o o' db' =
    ((o.status ≡ OfferStatus.pending)
      × (o' ≡ decide OfferStatus.rejected (c.at 9) o)
      × (db' ≡ mark_rejected c ride driver db))
    ⊎ ((o.status ≡ OfferStatus.rejected) × (o' ≡ o) × (db' ≡ db))

reject_by_status-cases :
    (c : Clock) (ride driver : ℕ) (o : Offer) (db : Db) {o' : Offer} {db' : Db}
    → reject_by_status c ride driver o db ≡ ok (o', db')
    → IsRejection c ride driver db o o' db'
unfolding reject_by_status
reject_by_status-cases c ride driver o db h = ground arith

find-mark_rejected :
    (c : Clock) (ride driver : ℕ) (db : Db) {o : Offer}
    → find (is_offer_of ride driver) db.offers ≡ some o
    → find (is_offer_of ride driver) (mark_rejected c ride driver db).offers
      ≡ some (decide OfferStatus.rejected (c.at 9) o)
unfolding mark_rejected
find-mark_rejected c ride driver db h =
    find-update_self (is_offer_of ride driver) (decide OfferStatus.rejected (c.at 9)) db.offers
      (λ x. refl) h

-- The rows of the Driver whose offer waits for the Rider.
abbrev pub awaits : ℕ → ℕ → Opportunity → Bool
awaits ride driver p = is_opportunity_of ride driver p && is_offered p.status

awaits_no_more :
    (ride driver : ℕ) (p : Opportunity)
    → awaits ride driver (change (awaits ride driver) set_rider_rejected p) ≡ false
awaits_no_more ride driver p = ground arith

mark_rejected-awaits :
    (c : Clock) (ride driver : ℕ) (db : Db)
    → exists (awaits ride driver) (mark_rejected c ride driver db).opportunities ≡ false
unfolding mark_rejected
mark_rejected-awaits c ride driver db =
    All-false-exists (awaits ride driver)
      (update_where (awaits ride driver) set_rider_rejected db.opportunities)
      (All-update (λ p. awaits ride driver p ≡ false) (awaits ride driver) set_rider_rejected
        db.opportunities (awaits_no_more ride driver))

-- What the Rider's rejection leaves: the stored offer is the answered one, and it is rejected.
pub record IsRejected (ride driver : ℕ) (o' : Offer) (db' : Db) : Type 0 where
  pub status : o'.status ≡ OfferStatus.rejected
  pub stored : get ride driver db' ≡ ok o'

rejection-IsRejected :
    (c : Clock) (ride driver : ℕ) (db : Db) (o : Offer) {o' : Offer} {db' : Db}
    → find (is_offer_of ride driver) db.offers ≡ some o
    → IsRejection c ride driver db o o' db'
    → IsRejected ride driver o' db'
unfolding get
rejection-IsRejected c ride driver db o {o'} {db'} h (inl (e, same, after)) = record {
  status = rw same refl;
  stored = rw (after, find-mark_rejected c ride driver db h, same) refl;
}
rejection-IsRejected c ride driver db o {o'} {db'} h (inr (e, same, after)) = record {
  status = cc;
  stored = rw (after, h, same) refl;
}

none_awaits :
    (c : Clock) (ride driver : ℕ) (db : Db) (o : Offer) {o' : Offer} {db' : Db}
    → o.status ≡ OfferStatus.pending
    → IsRejection c ride driver db o o' db'
    → exists (awaits ride driver) db'.opportunities ≡ false
none_awaits c ride driver db o e (inl (_, _, after)) =
    rw after (mark_rejected-awaits c ride driver db)
none_awaits c ride driver db o e (inr (e', _, _)) = absurd (cc (e, e'))

-- Where Reject succeeds, the ride is the Rider's, requested, in time and without a Trip; either the
-- offer was pending, and then it is rejected at the statement's time and no opportunity of the
-- Driver for the ride stays `offered`, or it was rejected before, and then nothing changes; and the
-- store has the answered offer, which is rejected.
pub reject-rejects :
    (c : Clock) (ride rider driver : ℕ) (db : Db) {o' : Offer} {db' : Db}
    → reject c ride rider driver db ≡ ok (o', db')
    → (r : Ride) × (o : Offer) × IsRejectable c ride rider driver (expire c 0 db) r o
      × IsRejection c ride driver (expire c 0 db) o o' db'
      × IsRejected ride driver o' db'
      × (o.status ≡ OfferStatus.pending → exists (awaits ride driver) db'.opportunities ≡ false)
unfolding reject
reject-rejects c ride rider driver db {o'} {db'} h =
    let (r, o, able, rest) = reject_current-inv c ride rider driver (expire c 0 db) h in
    let cases = reject_by_status-cases c ride driver o (expire c 0 db) rest in
    (
      r,
      o,
      able,
      cases,
      rejection-IsRejected c ride driver (expire c 0 db) o able.the_offer cases,
      λ e. none_awaits c ride driver (expire c 0 db) o e cases,
    )
