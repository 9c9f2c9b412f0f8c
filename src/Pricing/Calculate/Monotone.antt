-- ===== src/Pricing/Calculate/Monotone.antt =====
-- A longer or slower route never has a lower suggested fare.
use Prim.Native.Nat.{max}
use native.Mathlib.Decide.{dec_le}
use native.Mathlib.Nat.{mul-le-mul_left, mul-le-mul_right}
use uber_clone.Common.{ℕ, suc, ◌*◌, ◌≤◌, ◌<◌, ◌≡◌, sym, ◌∙◌, true, ok, arith}
use uber_clone.Common.Int.{ℤ, pos, pos_part, ◌≤ℤ◌}
use uber_clone.Common.Text.{text_eq}
use uber_clone.Store.{Policy}
use uber_clone.Pricing.Calculate.{half_up_once, max_amount_minor, draft_of, validate, calculate}
use uber_clone.Pricing.Calculate.HalfUp.{
  IsHalfUp, validate-IsValidAmounts, raw_ℕ, route_fare, increment_of, fare_answer,
  calculate-IsHalfUp,
}

units_mono :
    (raw raw' den u u' : ℕ) → raw ≤ raw' → IsHalfUp raw den u → IsHalfUp raw' den u' → u ≤ u'
units_mono raw raw' den u u' le h h' = elim (dec_le u u') [
  | yes p ↦ p
  | no n ↦
      let more : suc u' ≤ u = omega arith in
      let times : den * suc u' ≤ den * u = mul-le-mul_left den more in
      absurd (omega (arith, h.not_above, h'.not_below))
]

raw_mono : (b k m d d' s s' : ℕ) → d ≤ d' → s ≤ s' → raw_ℕ b k m d s ≤ raw_ℕ b k m d' s'
raw_mono b k m d d' s s' hd hs = omega (arith, mul-le-mul_left k hd, mul-le-mul_left m hs)

fare_answer-ok :
    (fare : ℕ) {v : ℤ} → fare_answer fare ≡ ok v → (v ≡ pos fare) × (fare ≤ max_amount_minor)
fare_answer-ok fare h = ground arith

max_mono : (a b c : ℕ) → b ≤ c → max a b ≤ max a c
max_mono a b c h = omega arith

-- What a successful calculation has tested.
calculate-valid :
    (p : Policy) (d s : ℕ) {v : ℤ}
    → calculate p (pos d) (pos s) ≡ ok v
    → (validate (draft_of p) ≡ ok tt)
      × (text_eq p.calculation_rule half_up_once ≡ true)
      × (0 < d)
      × (0 < s)
unfolding calculate
calculate-valid p d s h = (ground arith, ground arith, ground arith, ground arith)

-- A suggested fare is between the policy's minimum fare and the largest amount, and it does not
-- fall when the route gets longer or takes more time.
pub calculate_mono :
    (p : Policy) (d d' s s' : ℕ) {v v' : ℤ}
    → d ≤ d'
    → s ≤ s'
    → calculate p (pos d) (pos s) ≡ ok v
    → calculate p (pos d') (pos s') ≡ ok v'
    → (p.minimum_fare_minor ≤ℤ v) × (v ≤ℤ v') × (v' ≤ℤ pos max_amount_minor)
calculate_mono p d d' s s' {v} {v'} hd hs h h' =
    let (valid, rule, pd, ps) = calculate-valid p d s h in
    let (u, hu, e) = calculate-IsHalfUp p d s valid rule pd ps in
    let (u', hu', e') = calculate-IsHalfUp p d' s' valid rule (omega arith) (omega arith) in
    let (w, b) =
      fare_answer-ok (max (pos_part p.minimum_fare_minor) (u * increment_of p)) (sym e ∙ h) in
    let (w', b') =
      fare_answer-ok (max (pos_part p.minimum_fare_minor) (u' * increment_of p)) (sym e' ∙ h') in
    let less : u * increment_of p ≤ u' * increment_of p = mul-le-mul_right (increment_of p) (
      units_mono (route_fare p d s) (route_fare p d' s') (increment_of p * 3000) u u'
        (raw_mono (pos_part p.base_fare_minor) (pos_part p.rate_minor_per_km)
          (pos_part p.rate_minor_per_minute) d d' s s' hd hs)
        hu hu') in
    let va = validate-IsValidAmounts p valid in rw (w, w') (omega arith)
