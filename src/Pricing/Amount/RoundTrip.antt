-- ===== src/Pricing/Amount/RoundTrip.antt =====
-- ParsePKR reads back what formatPKR prints.
use uber_clone.Common.{
  ℕ, suc, ◌+◌, ◌*◌, ◌/◌, ◌%◌, ◌<◌, ◌≤◌, ◌≡◌, refl, true, false, [], ◌∷◌, ◌++◌, arith, All,
  All-append, All-map, Bool-cases, ltb, ok, inl, inr, ap,
}
use uber_clone.Common.Text.{Text, is_empty, is_space}
use uber_clone.Pricing.Calculate.{max_amount_minor}
use uber_clone.Pricing.Amount.{
  is_digit, digits_value, decimal_from, decimal, check_parts, parse_int, parse_fraction,
  parse_amount, parse_parts, parse_pkr, format_pkr, split_dot,
}
use uber_clone.Pricing.Amount.Digits

-- Two digits.
abbrev pub two_digits : ℕ → Text
two_digits n = (b'0' + n / 10) ∷ (b'0' + n % 10) ∷ []

two_digits-IsDigits : (n : ℕ) → n < 100 → Digits.IsDigits (two_digits n)
two_digits-IsDigits n h = (ground arith, (ground arith, tt))

two_digits-value : (n : ℕ) → digits_value 0 (two_digits n) ≡ n
unfolding digits_value
two_digits-value n = omega arith

decimal-IsDigits : (n : ℕ) → Digits.IsDigits (decimal n)
unfolding decimal
decimal-IsDigits n = Digits.decimal_from-IsDigits (suc n) n

decimal-value : (n : ℕ) → digits_value 0 (decimal n) ≡ n
unfolding decimal
decimal-value n = Digits.value-decimal_from (suc n) n (omega arith)

is_empty-append : (s : Text) (c : ℕ) → is_empty (s ++ c ∷ []) ≡ false
is_empty-append [] c = refl
is_empty-append (d ∷ s) c = refl

decimal-not_empty : (n : ℕ) → is_empty (decimal n) ≡ false
unfolding decimal decimal_from
decimal-not_empty n = elim (Bool-cases (ltb n 10)) [
  | inl e ↦ rw e refl
  | inr e ↦ rw e (is_empty-append (decimal_from n (n / 10)) (b'0' + n % 10))
]

format_no_space :
    (n m : ℕ) → m < 100 → All (λ c. is_space c ≡ false) (decimal n ++ b'.' ∷ two_digits m)
unfolding is_space
format_no_space n m h =
    All-append (λ c. is_space c ≡ false) (decimal n) (b'.' ∷ two_digits m)
      (All-map (λ c. is_digit c ≡ true) (λ c. is_space c ≡ false) (decimal n) Digits.digit_no_space
        (decimal-IsDigits n))
      (refl, (ground arith, (ground arith, tt)))

split_dot-format :
    (n m : ℕ)
    → m < 100
    → split_dot (decimal n ++ b'.' ∷ two_digits m) ≡ decimal n ∷ two_digits m ∷ []
split_dot-format n m h = rw (
  Digits.split_dot-point (decimal n) (two_digits m) (decimal-IsDigits n),
  Digits.split_dot-none (two_digits m) (two_digits-IsDigits m h),
)

check_parts-format : (n m : ℕ) → m < 100 → check_parts (decimal n ∷ two_digits m ∷ []) ≡ ok tt
unfolding check_parts
check_parts-format n m h = rw (
  decimal-not_empty n,
  Digits.all_digits_lem (decimal n) (decimal-IsDigits n),
  Digits.all_digits_lem (two_digits m) (two_digits-IsDigits m h),
)

parse_parts-format :
    (n m : ℕ)
    → m < 100
    → n * 100 + m ≤ max_amount_minor
    → parse_parts (decimal n ∷ two_digits m ∷ []) ≡ ok (n * 100 + m)
unfolding parse_parts parse_amount parse_fraction parse_int
parse_parts-format n m h b = rw (decimal-value n, two_digits-value m) (ground arith)

-- An amount within the limit that is printed in rupees with two decimals is read back as itself.
pub parse_pkr-format_pkr : (v : ℕ) → v ≤ max_amount_minor → parse_pkr (format_pkr v) ≡ ok v
unfolding parse_pkr format_pkr
parse_pkr-format_pkr v h =
    let small : v % 100 < 100 = omega arith in
    let whole : v / 100 * 100 + v % 100 ≤ max_amount_minor = omega arith in
    let same : v / 100 * 100 + v % 100 ≡ v = omega arith in
    rw
      (
        Digits.trim_space-id (decimal (v / 100) ++ b'.' ∷ two_digits (v % 100))
            (format_no_space (v / 100) (v % 100) small),
        split_dot-format (v / 100) (v % 100) small,
        check_parts-format (v / 100) (v % 100) small,
        parse_parts-format (v / 100) (v % 100) small whole,
      )
      (ap ok same)
