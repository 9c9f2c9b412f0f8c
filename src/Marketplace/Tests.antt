-- ===== src/Marketplace/Tests.antt =====
-- Tests of lifecycle.go and assignment_postgres.go on the sample store.
use uber_clone.Common.{[], some, ◌≡◌, ◌≢◌, refl, true, false, arith, Result, ok, err}
use uber_clone.Store.{Db, Trip, Ride, Offer, Opportunity, frozen}
use uber_clone.Sample.{sample, noon, a_trip}
use uber_clone.Driver.Eligibility.{lock_marketplace_eligible}
use uber_clone.Common.Text.{codes, text_eq}
use uber_clone.Common.Int.{pos}
use uber_clone.Store.{TimingPolicy}
use uber_clone.Common.Text.{trim_space, is_empty}
use uber_clone.Marketplace.Timing.{
  update_timing_policy, valid_timing_policy, load_timing_policy, set_timing,
}
use uber_clone.Marketplace.Timing.Valid.{IsValidTiming, update_timing_policy-load}
use uber_clone.Marketplace.Expiry.{expire}
use uber_clone.Marketplace.Expiry.Effects.{IsCurrent, expire-IsCurrent}
use uber_clone.Marketplace.Assignment.{
  AssignmentError, select_offer, check_selection, operation_matches, apply_selection, accept_offer,
  insert_marketplace_trip, accept_opportunity, mark_ride_accepted,
}
use uber_clone.Marketplace.Assignment.Selectable.{IsSelectable}
use uber_clone.Marketplace.Assignment.Rows.{HasKeys, IsAssignment}
use uber_clone.Marketplace.Assignment.Effects.{select_offer-assigns, select_offer_once}

abbrev result_or : Result AssignmentError (Trip × Db) → Trip × Db
result_or (ok x) = x
result_or (err e) = (a_trip, sample)

-- Rider 10 selects the offer of Driver 20.
abbrev selected : Trip × Db
unfolding select_offer
selected = result_or (select_offer (frozen noon) 1 10 20 5000000 sample)

selects : select_offer (frozen noon) 1 10 20 5000000 sample ≡ ok (selected.0, selected.1)
unfolding select_offer check_selection expire lock_marketplace_eligible operation_matches
    apply_selection text_eq accept_offer insert_marketplace_trip accept_opportunity
    mark_ride_accepted
selects = refl

sample-HasKeys : HasKeys sample
sample-HasKeys = ground arith

expire-IsCurrent_example : IsCurrent noon (expire (frozen noon) 0 sample)
expire-IsCurrent_example = expire-IsCurrent (frozen noon) 0 sample (λ k. omega arith)

select_offer-assigns_example :
    (r : Ride) × (o : Offer) × (p : Opportunity) × IsSelectable
      (frozen noon)
      1
      10
      20
      5000000
      (expire (frozen noon) 0 sample)
      r
      o
      p
    × IsAssignment (frozen noon) 1 10 20 (expire (frozen noon) 0 sample) r o p selected.0 selected.1
select_offer-assigns_example =
    select_offer-assigns (frozen noon) 1 10 20 5000000 sample sample-HasKeys selects

select_offer_once_example :
    select_offer (frozen 11000000) 1 10 21 5000000 selected.1 ≢ ok (a_trip, sample)
select_offer_once_example =
    select_offer_once (frozen noon) (frozen 11000000) 1 10 10 20 21 5000000 5000000 sample
      sample-HasKeys selects

is_eligible : lock_marketplace_eligible (frozen noon) 10 20 (codes "car") sample ≡ true
unfolding lock_marketplace_eligible text_eq
is_eligible = refl

abbrev a_timing : TimingPolicy
a_timing = record {
  ride_request_ttl_seconds = pos 300;
  driver_opportunity_ttl_seconds = pos 60;
  offer_decision_ttl_seconds = pos 5;
  updated_at = 0;
  updated_by = [];
}

abbrev new_timing : TimingPolicy
new_timing = set_timing noon a_timing (codes "ops")

updates :
    update_timing_policy noon a_timing (codes " ops") sample
    ≡ ok (new_timing, record sample { timing_policy = some new_timing })
unfolding update_timing_policy valid_timing_policy trim_space
updates = refl

update_timing_policy-load_example :
    IsValidTiming new_timing
    × (is_empty new_timing.updated_by ≡ false)
    × (new_timing ≡ set_timing noon a_timing (trim_space (codes " ops")))
    × (load_timing_policy (record sample { timing_policy = some new_timing }) ≡ ok new_timing)
update_timing_policy-load_example =
    update_timing_policy-load noon a_timing (codes " ops") sample updates
