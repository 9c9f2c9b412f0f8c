-- ===== src/Offer/Bounds.antt =====
-- The bounds of an offer's amount: 90% of the proposed fare rounded up, 130% rounded down.
use uber_clone.Common.{ℕ, ◌+◌, ◌*◌, ◌/◌, ◌%◌, ◌≤◌, ◌≡◌, Bool, false, ◌||◌, arith, ap, ◌↔◌}
use uber_clone.Common.Int.{ℤ, pos, negsuc, int64-pos, ltb_ℤ, +ℤ-pos, *ℤ-pos, quot-pos, rem-pos}
use uber_clone.Offer.{bounds, percent_ceil, percent_floor}

-- Far above the largest fare of the program.
abbrev pub max_proposal : ℕ
max_proposal = 70000000000000000

percent_ceil_lem :
    (p : ℕ) → p ≤ max_proposal → percent_ceil (pos p) (pos 90) ≡ pos ((90 * p + 99) / 100)
unfolding percent_ceil
percent_ceil_lem p h =
    rw
      (
        quot-pos p 100,
        rem-pos p 100,
        *ℤ-pos (p / 100) 90,
        *ℤ-pos (p % 100) 90,
        int64-pos (p / 100 * 90) (omega arith),
        int64-pos (p % 100 * 90) (omega arith),
        +ℤ-pos (p % 100 * 90) 99,
        int64-pos (p % 100 * 90 + 99) (omega arith),
        quot-pos (p % 100 * 90 + 99) 100,
        +ℤ-pos (p / 100 * 90) ((p % 100 * 90 + 99) / 100),
        int64-pos (p / 100 * 90 + (p % 100 * 90 + 99) / 100) (omega arith),
      )
      (ap pos (omega arith))

percent_floor_lem :
    (p : ℕ) → p ≤ max_proposal → percent_floor (pos p) (pos 130) ≡ pos (130 * p / 100)
unfolding percent_floor
percent_floor_lem p h =
    rw
      (
        quot-pos p 100,
        rem-pos p 100,
        *ℤ-pos (p / 100) 130,
        *ℤ-pos (p % 100) 130,
        int64-pos (p / 100 * 130) (omega arith),
        int64-pos (p % 100 * 130) (omega arith),
        quot-pos (p % 100 * 130) 100,
        +ℤ-pos (p / 100 * 130) (p % 100 * 130 / 100),
        int64-pos (p / 100 * 130 + p % 100 * 130 / 100) (omega arith),
      )
      (ap pos (omega arith))

pub bounds_lem :
    (p : ℕ) → p ≤ max_proposal → bounds (pos p) ≡ (pos ((90 * p + 99) / 100), pos (130 * p / 100))
unfolding bounds
bounds_lem p h = cc (percent_ceil_lem p h, percent_floor_lem p h)

-- At least 90% and at most 130% of the fare `p`, exactly.
abbrev pub IsWithin : ℕ → ℤ → Type 0
IsWithin p (pos a) = (90 * p ≤ 100 * a) × (100 * a ≤ 130 * p)
IsWithin p (negsuc a) = 1 ≤ 0

-- The test by which Submit and Upsert refuse an amount.
abbrev pub is_out_of_range : ℤ → ℤ × ℤ → Bool
is_out_of_range a (lo, hi) = ltb_ℤ a lo || ltb_ℤ hi a

-- For a proposed fare that is not negative and at most 7·10¹⁶ minor units, the bounds that the 64-bit
-- arithmetic gives are the exact 90% rounded up and the exact 130% rounded down, with no wrap-around.
-- An amount, negative ones included, is within them exactly if it is not negative and is at least 90%
-- and at most 130% of the fare, as fractions.
pub bounds_exact :
    (p : ℕ) (a : ℤ)
    → p ≤ max_proposal
    → (bounds (pos p) ≡ (pos ((90 * p + 99) / 100), pos (130 * p / 100)))
      × ((is_out_of_range a (bounds (pos p)) ≡ false) ↔ IsWithin p a)
bounds_exact p (pos a) h = (bounds_lem p h, rw (bounds_lem p h) (ground arith))
bounds_exact p (negsuc a) h = (bounds_lem p h, rw (bounds_lem p h) (ground arith))
