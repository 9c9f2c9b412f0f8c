-- ===== src/Pricing/Amount/Digits.antt =====
-- Decimal digits: printing a number and reading it back.
use uber_clone.Common.{
  ℕ, zero, suc, ◌+◌, ◌-◌, ◌*◌, ◌/◌, ◌%◌, ◌<◌, ◌≡◌, refl, true, false, [], ◌∷◌, ◌++◌, arith, All,
  All-append, Bool-cases, inl, inr, ltb,
}
use uber_clone.Common.Text.{Text, trim_left, trim_right, trim_space, is_space}
use uber_clone.Pricing.Amount.{is_digit, all_digits, digits_value, decimal_from, split_dot}

abbrev pub IsDigits : Text → Type 0
IsDigits = All (λ c. is_digit c ≡ true)

pub all_digits_lem : (s : Text) → IsDigits s → all_digits s ≡ true
unfolding all_digits
all_digits_lem [] h = refl
all_digits_lem (c ∷ s) h = ground (arith, all_digits_lem s h.1)

digits_value-snoc :
    (acc c : ℕ) (s : Text) → digits_value acc (s ++ c ∷ []) ≡ digits_value acc s * 10 + (c - b'0')
unfolding digits_value
digits_value-snoc acc c [] = refl
digits_value-snoc acc c (d ∷ s) = digits_value-snoc (acc * 10 + (d - b'0')) c s

below : (f n : ℕ) → n < suc f → ltb n 10 ≡ false → n / 10 < f
below f n h e = ground arith

pub value-decimal_from : (f n : ℕ) → n < f → digits_value 0 (decimal_from f n) ≡ n
unfolding decimal_from digits_value
value-decimal_from zero n h = elim h [ ]
value-decimal_from (suc f) n h = elim (Bool-cases (ltb n 10)) [
  | inl e ↦ rw e (omega arith)
  | inr e ↦
      let smaller : n / 10 < f = below f n h e in
      rw
        (
          e,
          digits_value-snoc 0 (b'0' + n % 10) (decimal_from f (n / 10)),
          value-decimal_from f (n / 10) smaller,
        )
        (omega arith)
]

pub decimal_from-IsDigits : (f n : ℕ) → IsDigits (decimal_from f n)
unfolding decimal_from
decimal_from-IsDigits zero n = tt
decimal_from-IsDigits (suc f) n = elim (Bool-cases (ltb n 10)) [
  | inl e ↦ rw e (ground arith, tt)
  | inr e ↦ rw e (
      All-append (λ c. is_digit c ≡ true) (decimal_from f (n / 10)) ((b'0' + n % 10) ∷ [])
        (decimal_from-IsDigits f (n / 10)) (ground arith, tt))
]

-- What no white space stands in is trimmed to itself.
trim_left-id : (s : Text) → All (λ c. is_space c ≡ false) s → trim_left s ≡ s
unfolding trim_left
trim_left-id [] h = refl
trim_left-id (c ∷ s) h = rw h.0

trim_right-id : (s : Text) → All (λ c. is_space c ≡ false) s → trim_right s ≡ s
unfolding trim_right
trim_right-id [] h = refl
trim_right-id (c ∷ s) h = rw (h.0, trim_right-id s h.1)

pub trim_space-id : (s : Text) → All (λ c. is_space c ≡ false) s → trim_space s ≡ s
unfolding trim_space
trim_space-id s h = rw (trim_left-id s h) (trim_right-id s h)

pub digit_no_space : (c : ℕ) → is_digit c ≡ true → is_space c ≡ false
unfolding is_space
digit_no_space c h = ground arith

-- Splitting at the point.
pub split_dot-none : (s : Text) → IsDigits s → split_dot s ≡ s ∷ []
unfolding split_dot
split_dot-none [] h = refl
split_dot-none (c ∷ s) h = ground (arith, split_dot-none s h.1)

pub split_dot-point : (s t : Text) → IsDigits s → split_dot (s ++ b'.' ∷ t) ≡ s ∷ split_dot t
unfolding split_dot
split_dot-point [] t h = refl
split_dot-point (c ∷ s) t h = ground (arith, split_dot-point s t h.1)
