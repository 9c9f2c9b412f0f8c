-- ===== src/Marketplace/Timing.antt =====
-- policy.go: the timing policy, one row.
pub mod Valid
use uber_clone.Common.{
  ℕ, Bool, true, false, ◌&&◌, ◌||◌, not, Option, none, some, Result, ok, err, ◌>>=◌, ◌>>◌, or_fail,
  fail_if,
}
use uber_clone.Common.Int.{ℤ, pos, leb_ℤ}
use uber_clone.Common.Text.{Text, trim_space, is_empty}
use uber_clone.Store.{Db, TimingPolicy}

-- missing_row is sql.ErrNoRows.
pub data PolicyError : Type 0 where
  invalid_timing_policy missing_row : PolicyError

abbrev pub within : ℕ → ℕ → ℤ → Bool
within lo hi v = leb_ℤ (pos lo) v && leb_ℤ v (pos hi)

unfoldable pub valid_timing_policy : TimingPolicy → Bool
valid_timing_policy p =
    within 60 600 p.ride_request_ttl_seconds
    && within 10 60 p.driver_opportunity_ttl_seconds
    && within 5 60 p.offer_decision_ttl_seconds

unfoldable pub load_timing_policy : Db → Result PolicyError TimingPolicy
load_timing_policy db = or_fail db.timing_policy missing_row

-- UPDATE … WHERE id = 1 RETURNING, at the time of the statement.
abbrev pub set_timing : ℕ → TimingPolicy → Text → TimingPolicy
set_timing now policy actor = record policy { updated_at = now; updated_by = actor }

unfoldable pub update_timing_policy :
    ℕ → TimingPolicy → Text → Db → Result PolicyError (TimingPolicy × Db)
update_timing_policy now policy actor db = do
  let name = trim_space actor
  fail_if (is_empty name || not (valid_timing_policy policy)) invalid_timing_policy
  row ← or_fail db.timing_policy missing_row
  let updated = set_timing now policy name
  ok (updated, record db { timing_policy = some updated })
