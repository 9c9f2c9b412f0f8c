-- ===== src/Offer/Tests.antt =====
-- Tests of submissions and rejections on the sample store.
use uber_clone.Common.{◌≡◌, ◌≢◌, ◌↔◌, refl, false, arith, Result, ok, err}
use uber_clone.Common.Int.{pos, int64, ◌+ℤ◌, ◌*ℤ◌, quot, rem}
use uber_clone.Common.Text.{text_eq}
use uber_clone.Common.Table.{exists}
use uber_clone.Store.{Db, Ride, Offer, OfferStatus, frozen}
use uber_clone.Sample.{sample, noon, an_offer}
use uber_clone.Marketplace.Expiry.{expire}
use uber_clone.Driver.Eligibility.{lock_marketplace_eligible}
use uber_clone.Offer.{
  OfferError, Market, market, bounds, submit, percent_ceil, percent_floor, upsert, place_offer,
  check_offer, operation_of, insert_offer, mark_offered,
}
use uber_clone.Offer.Decision.{reject, reject_current, reject_by_status}
use uber_clone.Offer.Bounds.{is_out_of_range, IsWithin, bounds_exact}
use uber_clone.Offer.Submission.{IsSubmission, submit-places}
use uber_clone.Offer.Once.{turned_down, submit_twice}
use uber_clone.Offer.Response.{IsRejectable, IsRejection, IsRejected, awaits, reject-rejects}

abbrev result_or : Result OfferError (Offer × Db) → Offer × Db
result_or (ok x) = x
result_or (err e) = (an_offer 20, sample)

-- Driver 23 offers 45,000 minor units, 90% of the proposed fare.
abbrev submitted : Offer × Db
unfolding submit
submitted = result_or (submit noon sample (frozen noon) 1 23 (pos 45000) sample)

submits : submit noon sample (frozen noon) 1 23 (pos 45000) sample ≡ ok (submitted.0, submitted.1)
unfolding submit market bounds percent_ceil int64 ◌+ℤ◌ ◌*ℤ◌ quot rem percent_floor upsert expire
    place_offer check_offer text_eq operation_of lock_marketplace_eligible insert_offer
submits = refl

submit-places_example :
    (m : Market) × (market noon 1 sample ≡ ok m)
    × IsSubmission
        (frozen noon)
        1
        23
        (pos 45000)
        (bounds m.proposed_amount_minor)
        m.currency
        (expire (frozen noon) 0 sample)
        submitted.0
        submitted.1
submit-places_example = submit-places noon sample (frozen noon) 1 23 (pos 45000) sample submits

-- Rider 10 rejects the offer that Driver 23 has just made.
abbrev turned_down_offer : Offer × Db
unfolding reject
turned_down_offer = result_or (reject (frozen 10500000) 1 10 23 submitted.1)

turns_down :
    reject (frozen 10500000) 1 10 23 submitted.1 ≡ ok (turned_down_offer.0, turned_down_offer.1)
unfolding submit market bounds percent_ceil int64 ◌+ℤ◌ ◌*ℤ◌ quot rem percent_floor upsert expire
    place_offer check_offer text_eq operation_of lock_marketplace_eligible insert_offer reject
    mark_offered reject_current reject_by_status
turns_down = refl

submit_twice_example :
    submit 11000000 sample (frozen 11000000) 1 23 (pos 50000) turned_down_offer.1
    ≢ ok (an_offer 23, sample)
submit_twice_example =
    submit_twice noon sample (frozen noon) 1 23 (pos 45000) sample submits
      (turned_down (frozen 10500000) 10 turns_down) 11000000 sample (frozen 11000000) (pos 50000)

bounds_exact_example :
    (bounds (pos 50) ≡ (pos 45, pos 65))
    × ((is_out_of_range (pos 46) (bounds (pos 50)) ≡ false) ↔ IsWithin 50 (pos 46))
bounds_exact_example = bounds_exact 50 (pos 46) (omega arith)

-- Rider 10 rejects the offer of Driver 20.
abbrev rejected_offer : Offer × Db
unfolding reject
rejected_offer = result_or (reject (frozen noon) 1 10 20 sample)

rejects : reject (frozen noon) 1 10 20 sample ≡ ok (rejected_offer.0, rejected_offer.1)
unfolding reject reject_current expire reject_by_status
rejects = refl

reject-rejects_example :
    (r : Ride) × (o : Offer) × IsRejectable
      (frozen noon)
      1
      10
      20
      (expire (frozen noon) 0 sample)
      r
      o
    × IsRejection
        (frozen noon)
        1
        20
        (expire (frozen noon) 0 sample)
        o
        rejected_offer.0
        rejected_offer.1
    × IsRejected 1 20 rejected_offer.0 rejected_offer.1
    × (o.status ≡ OfferStatus.pending → exists (awaits 1 20) rejected_offer.1.opportunities ≡ false)
reject-rejects_example = reject-rejects (frozen noon) 1 10 20 sample rejects
