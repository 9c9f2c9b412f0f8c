-- ===== src/Pricing/Calculate/HalfUp.antt =====
-- The calculated fare against its arithmetic description, in natural numbers.
use Prim.Native.Nat.{max}
use native.Mathlib.Nat.{div-add-mod, mod-lt}
use uber_clone.Common.{
  ℕ, ◌+◌, ◌*◌, ◌/◌, ◌%◌, ◌≤◌, ◌<◌, ◌≡◌, true, false, Result, ok, err, arith, Bool-cases, inl, inr,
  if◌then◌else◌, leb, ltb, leb→le,
}
use uber_clone.Common.Int.{ℤ, pos, pos_part, ◌*ℤ◌, leb_ℤ, *ℤ-pos, eq-pos, pos_laws}
use uber_clone.Common.Text.{text_eq}
use uber_clone.Store.{Policy}
use uber_clone.Pricing.Calculate.{
  PricingError, fare_out_of_range, max_amount_minor, draft_of, validate, half_up_once, raw_fare,
  round_units, bounded_fare, calculate,
}

-- The exact fare in 3000ths of a minor unit.
abbrev pub raw_ℕ : ℕ → ℕ → ℕ → ℕ → ℕ → ℕ
raw_ℕ base per_km per_minute distance duration =
    base * 3000 + per_km * distance * 3 + per_minute * duration * 50

raw_fare-pos :
    (b k m d s : ℕ) → raw_fare (pos b) (pos k) (pos m) (pos d) (pos s) ≡ pos (raw_ℕ b k m d s)
unfolding raw_fare
raw_fare-pos b k m d s = simp pos_laws

-- `units` is `raw / denominator` to the nearest whole number, the half up.
pub record IsHalfUp (raw denominator units : ℕ) : Type 0 where
  pub not_above : 2 * (denominator * units) ≤ 2 * raw + denominator
  pub not_below : 2 * raw + denominator < 2 * (denominator * units) + 2 * denominator

round_ℕ : ℕ → ℕ → ℕ
round_ℕ raw den = if leb den (raw % den * 2) then raw / den + 1 else raw / den

round_units-pos : (raw den : ℕ) → round_units (pos raw) (pos den) ≡ pos (round_ℕ raw den)
unfolding round_units round_ℕ
round_units-pos raw den = simp pos_laws (ground arith)

leb-false : (a b : ℕ) → leb a b ≡ false → b < a
leb-false a b h = ground arith

round_ℕ-IsHalfUp : (raw den : ℕ) → 0 < den → IsHalfUp raw den (round_ℕ raw den)
unfolding round_ℕ
round_ℕ-IsHalfUp raw den h =
    let whole = div-add-mod raw den in
    let part : raw % den < den = mod-lt raw h in
    elim (Bool-cases (leb den (raw % den * 2))) [
      | inl up ↦
          let half : den ≤ raw % den * 2 = leb→le den (raw % den * 2) up in
          rw up (record { not_above = omega arith; not_below = omega arith })
      | inr down ↦
          let half : raw % den * 2 < den = leb-false den (raw % den * 2) down in
          rw down (record { not_above = omega arith; not_below = omega arith })
    ]

-- What a valid draft promises of its amounts.
pub record IsValidAmounts (p : Policy) : Type 0 where
  pub base : p.base_fare_minor ≡ pos (pos_part p.base_fare_minor)
  pub per_km : p.rate_minor_per_km ≡ pos (pos_part p.rate_minor_per_km)
  pub per_minute : p.rate_minor_per_minute ≡ pos (pos_part p.rate_minor_per_minute)
  pub minimum : p.minimum_fare_minor ≡ pos (pos_part p.minimum_fare_minor)
  pub increment : p.rounding_increment_minor ≡ pos (pos_part p.rounding_increment_minor)
  pub minimum_positive : 0 < pos_part p.minimum_fare_minor
  pub increment_positive : 0 < pos_part p.rounding_increment_minor

pub validate-IsValidAmounts :
    (p : Policy) {x : Unit {0}} → validate (draft_of p) ≡ ok x → IsValidAmounts p
unfolding validate
validate-IsValidAmounts p h = record {
  base = eq-pos p.base_fare_minor (ground arith);
  per_km = eq-pos p.rate_minor_per_km (ground arith);
  per_minute = eq-pos p.rate_minor_per_minute (ground arith);
  minimum = eq-pos p.minimum_fare_minor (ground arith);
  increment = eq-pos p.rounding_increment_minor (ground arith);
  minimum_positive = ground arith;
  increment_positive = ground arith;
}

-- The exact fare of a route in 3000ths of a minor unit, and the increment in the same unit.
abbrev pub route_fare : Policy → ℕ → ℕ → ℕ
route_fare p distance duration =
    raw_ℕ (pos_part p.base_fare_minor) (pos_part p.rate_minor_per_km)
      (pos_part p.rate_minor_per_minute) distance duration

abbrev pub increment_of : Policy → ℕ
increment_of p = pos_part p.rounding_increment_minor

-- A fare that is too large is refused.
abbrev pub fare_answer : ℕ → Result PricingError ℤ
fare_answer fare = if ltb max_amount_minor fare then err fare_out_of_range else ok (pos fare)

bounded_fare-pos :
    (minimum rounded : ℕ)
    → bounded_fare (pos minimum) (pos rounded) ≡ fare_answer (max minimum rounded)
unfolding bounded_fare
bounded_fare-pos minimum rounded = ground arith

fare_steps :
    (p : Policy) (d s : ℕ)
    → IsValidAmounts p
    → bounded_fare p.minimum_fare_minor (
        round_units
          (raw_fare p.base_fare_minor p.rate_minor_per_km p.rate_minor_per_minute (pos d) (pos s))
          (p.rounding_increment_minor *ℤ pos 3000)
        *ℤ p.rounding_increment_minor)
      ≡ fare_answer (
          max
            (pos_part p.minimum_fare_minor)
            (round_ℕ (route_fare p d s) (increment_of p * 3000) * increment_of p))
fare_steps p d s v =
    rw (v.base, v.per_km, v.per_minute, v.minimum, v.increment)
      (simp (raw_fare-pos, *ℤ-pos, round_units-pos, bounded_fare-pos))

positive : (n : ℕ) → 0 < n → leb_ℤ (pos n) (pos 0) ≡ false
positive n h = ground arith

-- On a valid policy with the rule half_up_once_v1 and a route of positive length and duration the calculation takes the route's
-- exact fare, rounds it once to the nearest whole number of increments, the half up, and raises the
-- result to the minimum fare. It answers that, and is refused exactly if it is above the largest
-- amount.
pub calculate-IsHalfUp :
    (p : Policy) (distance duration : ℕ) {x : Unit {0}}
    → validate (draft_of p) ≡ ok x
    → text_eq p.calculation_rule half_up_once ≡ true
    → 0 < distance
    → 0 < duration
    → (units : ℕ) × IsHalfUp (route_fare p distance duration) (increment_of p * 3000) units
      × (calculate p (pos distance) (pos duration)
          ≡ fare_answer (max (pos_part p.minimum_fare_minor) (units * increment_of p)))
unfolding calculate
calculate-IsHalfUp p distance duration valid rule hd hs =
    let v = validate-IsValidAmounts p valid in
    (
      round_ℕ (route_fare p distance duration) (increment_of p * 3000),
      round_ℕ-IsHalfUp (route_fare p distance duration) (increment_of p * 3000)
          (omega (arith, v.increment_positive)),
      rw (valid, rule, positive distance hd, positive duration hs)
          (fare_steps p distance duration v),
    )
