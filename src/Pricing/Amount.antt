-- ===== src/Pricing/Amount.antt =====
-- amount.go (ParsePKR) and formatPKR of httpapi/admin_pricing_policy.go: amounts as a reviewer reads
-- and types them, in rupees with two decimals.
pub mod Digits
pub mod RoundTrip
use uber_clone.Common.{
  ℕ, zero, suc, ◌+◌, ◌-◌, ◌*◌, ◌/◌, ◌%◌, Bool, true, false, ◌&&◌, not, Option, none, some, List, [],
  ◌∷◌, ◌++◌, Result, ok, err, ◌>>=◌, ◌>>◌, or_fail, fail_if, leb, ltb, ◌==◌, if◌then◌else◌, length,
}
use uber_clone.Common.Text.{Text, trim_space, is_empty}
use uber_clone.Pricing.Calculate.{PricingError, invalid_policy, max_amount_minor}

abbrev pub cons_head : ℕ → List Text → List Text
cons_head c [] = (c ∷ []) ∷ []
cons_head c (p ∷ ps) = (c ∷ p) ∷ ps

-- strings.Split(s, ".")
unfoldable pub split_dot : Text → List Text
split_dot [] = [] ∷ []
split_dot (c ∷ s) = let rest = split_dot s in if c == b'.' then [] ∷ rest else cons_head c rest

abbrev pub is_digit : ℕ → Bool
is_digit c = leb b'0' c && leb c b'9'

unfoldable pub all_digits : Text → Bool
all_digits [] = true
all_digits (c ∷ s) = is_digit c && all_digits s

-- The loop over the parts.
unfoldable pub check_parts : List Text → Result PricingError (Unit {0})
unfolding all_digits
check_parts [] = ok tt
check_parts (p ∷ ps) =
    let rest = check_parts ps in
    if is_empty p then err invalid_policy else if all_digits p then rest else err invalid_policy

unfoldable pub digits_value : ℕ → Text → ℕ
digits_value acc [] = acc
digits_value acc (c ∷ s) = digits_value (acc * 10 + (c - b'0')) s

-- strconv.ParseInt(s, 10, 64) on digits: an error past the largest int64.
unfoldable pub parse_int : Text → Option ℕ
unfolding digits_value
parse_int s = if ltb (digits_value 0 s) 9223372036854775808 then some (digits_value 0 s) else none

-- The two digits after the point; one digit counts tenths. (The error of ParseInt is ignored, and
-- two digits give none.)
unfoldable pub parse_fraction : Text → Result PricingError ℕ
unfolding digits_value
parse_fraction digits =
    if ltb 2 (length digits)
    then err invalid_policy
    else ok (digits_value 0 (if length digits == 1 then digits ++ b'0' ∷ [] else digits))

unfoldable pub parse_amount : Text → Result PricingError ℕ → Result PricingError ℕ
unfolding parse_int
parse_amount whole_digits fraction_of = do
  whole ← or_fail (parse_int whole_digits) invalid_policy
  fail_if (ltb (max_amount_minor / 100) whole) invalid_policy
  fraction ← fraction_of
  let minor = whole * 100 + fraction
  fail_if (ltb max_amount_minor minor) invalid_policy
  ok minor

-- By the number of parts: there is at least one, and more than two are refused.
unfoldable pub parse_parts : List Text → Result PricingError ℕ
unfolding parse_fraction parse_amount
parse_parts [] = err invalid_policy
parse_parts (whole ∷ []) = parse_amount whole (ok 0)
parse_parts (whole ∷ fraction ∷ []) = parse_amount whole (parse_fraction fraction)
parse_parts (whole ∷ fraction ∷ more ∷ parts) = err invalid_policy

unfoldable pub parse_pkr : Text → Result PricingError ℕ
unfolding split_dot check_parts parse_parts
parse_pkr input = do
  let parts = split_dot (trim_space input)
  fail_if (ltb 2 (length parts)) invalid_policy
  check_parts parts
  parse_parts parts

-- %d of a number below the fuel.
unfoldable pub decimal_from : ℕ → ℕ → Text
decimal_from zero n = []
decimal_from (suc fuel) n =
    let rest = decimal_from fuel (n / 10) in
    if ltb n 10 then (b'0' + n) ∷ [] else rest ++ (b'0' + n % 10) ∷ []

unfoldable pub decimal : ℕ → Text
unfolding decimal_from
decimal n = decimal_from (suc n) n

-- fmt.Sprintf("%d.%02d", v/100, v%100)
unfoldable pub format_pkr : ℕ → Text
unfolding decimal
format_pkr v = decimal (v / 100) ++ b'.' ∷ (b'0' + v % 100 / 10) ∷ (b'0' + v % 100 % 10) ∷ []
