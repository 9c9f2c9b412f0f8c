-- ===== src/System/Tests.antt =====
-- A run of the system: Rider 10 selects the offer of Driver 20, then Driver 22 starts the Trip of
-- ride 2.
use uber_clone.Common.{◌≡◌, refl, arith, ok, err, Result}
use uber_clone.Common.Text.{text_eq}
use uber_clone.Store.{Db, Trip, frozen}
use uber_clone.Sample.{sample, noon, a_trip}
use uber_clone.Marketplace.Expiry.{expire}
use uber_clone.Driver.Eligibility.{lock_marketplace_eligible}
use uber_clone.Marketplace.Assignment.{
  AssignmentError, select_offer, check_selection, operation_matches, apply_selection, accept_offer,
  insert_marketplace_trip, accept_opportunity, mark_ride_accepted, close_competing_opportunities,
  close_competing_offers,
}
use uber_clone.Marketplace.Assignment.Rows.{HasKeys}
use uber_clone.Trip.{start, set_started}
use uber_clone.Trip.Calls.{start_call, write_trip}
use uber_clone.System.Changes.{IsConsistent}
use uber_clone.System.Steps.{Reaches, Step, assigns, calls, next, Reaches-IsConsistent}
use uber_clone.System.Steps as Steps

abbrev chosen : Result AssignmentError (Trip × Db) → Trip × Db
chosen (ok x) = x
chosen (err e) = (a_trip, sample)

abbrev after_choice : Trip × Db
unfolding select_offer
after_choice = chosen (select_offer (frozen noon) 1 10 20 5000000 sample)

chooses : select_offer (frozen noon) 1 10 20 5000000 sample ≡ ok (after_choice.0, after_choice.1)
unfolding select_offer check_selection expire lock_marketplace_eligible operation_matches
    apply_selection text_eq accept_offer insert_marketplace_trip accept_opportunity
    mark_ride_accepted
chooses = refl

keys : HasKeys sample
keys = ground arith

trips-IsConsistent : IsConsistent sample.trips
trips-IsConsistent = record {
  keyed = (tt, tt);
  valid = (ground arith, tt);
  one_active = ((λ h. tt), tt);
}

abbrev after_start : Db
after_start = write_trip (set_started (frozen 11000000)) 2 22 after_choice.1

starts_too :
    start (frozen 11000000) 2 22 after_choice.1
    ≡ ok (set_started (frozen 11000000) a_trip, after_start)
unfolding start select_offer check_selection expire lock_marketplace_eligible operation_matches
    apply_selection text_eq accept_offer insert_marketplace_trip accept_opportunity
    mark_ride_accepted close_competing_opportunities close_competing_offers
starts_too = refl

Reaches-IsConsistent_example : IsConsistent after_start.trips
Reaches-IsConsistent_example =
    Reaches-IsConsistent sample after_start
      (next after_choice.1 after_start
        (next sample after_choice.1 Steps.start
          (assigns (frozen noon) 1 10 20 5000000 after_choice.0 keys chooses))
        (calls start_call (frozen 11000000) 2 22 (set_started (frozen 11000000) a_trip) starts_too))
      trips-IsConsistent
