-- ===== src/Marketplace/Timing/Valid.antt =====
-- Only valid policies are stored, and what is stored is what is read.
use uber_clone.Common.{ℕ, ◌≡◌, false, ok, arith}
use uber_clone.Common.Int.{pos, ◌≤ℤ◌}
use uber_clone.Common.Text.{Text, trim_space, is_empty}
use uber_clone.Store.{Db, TimingPolicy}
use uber_clone.Marketplace.Timing.{
  valid_timing_policy, load_timing_policy, update_timing_policy, set_timing,
}

-- The ranges of the three times, in seconds.
pub record IsValidTiming (p : TimingPolicy) : Type 0 where
  pub ride_request :
      (pos 60 ≤ℤ p.ride_request_ttl_seconds) × (p.ride_request_ttl_seconds ≤ℤ pos 600)
  pub opportunity :
      (pos 10 ≤ℤ p.driver_opportunity_ttl_seconds) × (p.driver_opportunity_ttl_seconds ≤ℤ pos 60)
  pub decision : (pos 5 ≤ℤ p.offer_decision_ttl_seconds) × (p.offer_decision_ttl_seconds ≤ℤ pos 60)

-- Where an update succeeds, the actor is not blank,
-- the three times are in their ranges, the answer is the given policy with the statement's time
-- and the trimmed actor, and loading the policy answers the same.
pub update_timing_policy-load :
    (now : ℕ) (policy : TimingPolicy) (actor : Text) (db : Db) {p : TimingPolicy} {db' : Db}
    → update_timing_policy now policy actor db ≡ ok (p, db')
    → IsValidTiming p
      × (is_empty p.updated_by ≡ false)
      × (p ≡ set_timing now policy (trim_space actor))
      × (load_timing_policy db' ≡ ok p)
unfolding update_timing_policy valid_timing_policy load_timing_policy
update_timing_policy-load now policy actor db h =
    (ground arith, ground arith, ground arith, ground arith)
