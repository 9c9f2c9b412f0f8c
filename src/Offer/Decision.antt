-- ===== src/Offer/Decision.antt =====
-- offer/postgres_repository.go: Skip, by which a Driver declines a ride, Reject, by which the Rider
-- declines an offer, and Get.
use uber_clone.Common.{
  ℕ, Bool, ◌&&◌, not, some, List, ◌==◌, ltb, is_some, Result, ok, err, ◌>>=◌, ◌>>◌, or_fail,
  fail_if,
}
use uber_clone.Common.Table.{find, exists, update_where, count_where}
use uber_clone.Store.{Db, Ride, Offer, OfferStatus, Opportunity, OpportunityStatus, Clock}
use uber_clone.Marketplace.Expiry.{
  expire, is_open, is_offered, is_requested, is_ride, has_trip, is_offer_of, is_opportunity_of,
  decide,
}
use uber_clone.Offer.{
  OfferError, ride_not_found, ride_not_open, offer_not_found, offer_not_actionable,
  opportunity_not_open, proposal,
}

abbrev pub is_skippable : ℕ → ℕ → ℕ → List Ride → Opportunity → Bool
is_skippable now ride driver rides o =
    is_opportunity_of ride driver o
    && is_open o.status
    && ltb now o.visible_until
    && exists (λ r. is_ride o.ride_request_id r && is_requested r.status && ltb now r.expires_at)
        rides

abbrev pub set_skipped : ℕ → Opportunity → Opportunity
set_skipped now o = record o { status = OpportunityStatus.driver_skipped; responded_at = some now }

unfoldable pub mark_skipped : ℕ → ℕ → ℕ → Db → Result OfferError (Unit {0} × Db)
mark_skipped now ride driver db = do
  fail_if (not (count_where (is_skippable now ride driver db.rides) db.opportunities == 1))
      opportunity_not_open
  ok (
    tt,
    record db {
      opportunities =
          update_where (is_skippable now ride driver db.rides) (set_skipped now) db.opportunities;
    },
  )

unfoldable pub skip : Clock → ℕ → ℕ → Db → Result OfferError (Unit {0} × Db)
skip c ride driver db = mark_skipped (c.at 6) ride driver (expire c 0 db)

abbrev pub set_rider_rejected : Opportunity → Opportunity
set_rider_rejected o = record o { status = OpportunityStatus.rider_rejected }

unfoldable pub mark_rejected : Clock → ℕ → ℕ → Db → Db
mark_rejected c ride driver db = record db {
  offers = update_where (is_offer_of ride driver) (decide OfferStatus.rejected (c.at 9)) db.offers;
  opportunities =
      update_where (λ o. is_opportunity_of ride driver o && is_offered o.status) set_rider_rejected
        db.opportunities;
}

unfoldable pub reject_by_status : Clock → ℕ → ℕ → Offer → Db → Result OfferError (Offer × Db)
reject_by_status c ride driver o db = elim o.status [
  | OfferStatus.pending ↦
      ok (decide OfferStatus.rejected (c.at 9) o, mark_rejected c ride driver db)
  | OfferStatus.rejected ↦ ok (o, db)
  | _ ↦ err offer_not_actionable
]

abbrev pub is_open_request : ℕ → Ride → Bool
is_open_request now r = is_requested r.status && ltb now r.expires_at && is_some (proposal r)

unfoldable pub reject_current : Clock → ℕ → ℕ → ℕ → Db → Result OfferError (Offer × Db)
reject_current c ride rider driver db = do
  r ← or_fail (find (λ r. is_ride ride r && (r.rider_user_id == rider)) db.rides) ride_not_found
  fail_if (not (is_open_request (c.at 6) r)) ride_not_open
  fail_if (has_trip ride db.trips) ride_not_open
  o ← or_fail (find (is_offer_of ride driver) db.offers) offer_not_found
  reject_by_status c ride driver o db

unfoldable pub reject : Clock → ℕ → ℕ → ℕ → Db → Result OfferError (Offer × Db)
reject c ride rider driver db = reject_current c ride rider driver (expire c 0 db)

unfoldable pub get : ℕ → ℕ → Db → Result OfferError Offer
get ride driver db = or_fail (find (is_offer_of ride driver) db.offers) offer_not_found
