-- ===== src/Places/Restricted.antt =====
-- What the provider is asked.
use uber_clone.Common.{
  fail_if-eq-ok, fail_if-not-eq-ok, ℕ, ◌≤◌, ◌≡◌, refl, subst, Bool, true, false, ◌&&◌, ◌||◌, not,
  Option, none, some, List, ltb, length, arith, ok, >>=-eq-ok, or_fail, or_fail-eq-ok, fail_if,
}
use uber_clone.Common.Int.{ℤ, pos, negsuc, leb_ℤ}
use uber_clone.Common.Text.{trim_space, is_empty}
use uber_clone.Places.{
  no_provider, invalid_input, provider_failed, AutocompleteInput, Suggestion, Provider,
  SearchPolicy, min_radius, max_radius, valid_search_policy, load_search_policy, is_unfit, radius,
  asked_input, autocomplete,
}

between :
    (x : ℤ)
    → (leb_ℤ (pos min_radius) x && leb_ℤ x (pos max_radius)) ≡ true
    → (n : ℕ) × (x ≡ pos n) × (min_radius ≤ n) × (n ≤ max_radius)
between (pos n) h = (n, refl, ground arith, ground arith)
between (negsuc n) h = absurd (ground arith)

radius-inv :
    (policy : Option (Option SearchPolicy)) {r : ℤ}
    → radius policy ≡ ok r
    → (leb_ℤ (pos min_radius) r && leb_ℤ r (pos max_radius)) ≡ true
radius-inv none h = ground arith
radius-inv (some row) {r} h =
    let (p, _, h₁) = >>=-eq-ok (load_search_policy row) _ h in
    let (_, passed, h₂) = >>=-eq-ok (fail_if (not (valid_search_policy p)) provider_failed) _ h₁ in
    let same : p.autocomplete_radius_meters ≡ r = cc h₂ in
    rw⁻¹ same (fail_if-not-eq-ok (valid_search_policy p) provider_failed passed)

-- What a provider may be asked for an input.
pub record IsFit (input i : AutocompleteInput) : Type 0 where
  pub query : (i.query ≡ trim_space input.query) × (2 ≤ length i.query)
  pub session_token :
      (i.session_token ≡ trim_space input.session_token) × (is_empty i.session_token ≡ false)
  pub bias : (i.bias ≡ input.bias) × (is_unfit i.bias ≡ false)
  pub radius : (n : ℕ) × (i.restriction_radius_meters ≡ pos n) × (min_radius ≤ n) × (n ≤ max_radius)

long_enough : (n : ℕ) (b : Bool) → (ltb n 2 || b) ≡ false → (2 ≤ n) × (b ≡ false)
long_enough n b h = (ground arith, ground arith)

asked_input-IsFit :
    (policy : Option (Option SearchPolicy)) (input : AutocompleteInput) {i : AutocompleteInput}
    → asked_input policy input ≡ ok i
    → IsFit input i
unfolding asked_input
asked_input-IsFit policy input {i} h =
    let query = trim_space input.query in
    let token = trim_space input.session_token in
    let short = ltb (length query) 2 || is_empty token in
    let (_, a, h₁) = >>=-eq-ok (fail_if short invalid_input) _ h in
    let (_, b, h₂) = >>=-eq-ok (fail_if (is_unfit input.bias) invalid_input) _ h₁ in
    let (r, c, h₃) = >>=-eq-ok (radius policy) _ h₂ in
    let (enough, named) =
      long_enough (length query) (is_empty token) (fail_if-eq-ok short invalid_input a) in
    let asked : AutocompleteInput = record {
      query = query;
      session_token = token;
      bias = input.bias;
      restriction_radius_meters = r;
    } in
    let same : asked ≡ i = cc h₃ in
    subst (IsFit input) same (record {
      query = (refl, enough);
      session_token = (refl, named);
      bias = (refl, fail_if-eq-ok (is_unfit input.bias) invalid_input b);
      radius = between r (radius-inv policy c);
    })

-- Where Autocomplete answers suggestions, they are what the provider answers to the trimmed query of
-- at least two code points, with a session token, a place on the globe if one is given, and a radius
-- between 5 and 50 kilometres, whatever row the policy has.
autocomplete-IsFit :
    (provider : Option Provider) (policy : Option (Option SearchPolicy)) (input : AutocompleteInput)
    {l : List Suggestion}
    → autocomplete provider policy input ≡ ok l
    → (p : Provider) × (i : AutocompleteInput) × (provider ≡ some p)
      × (p.autocomplete i ≡ ok l)
      × IsFit input i
unfolding autocomplete
autocomplete-IsFit provider policy input h =
    let (p, e, h₁) = >>=-eq-ok (or_fail provider no_provider) _ h in
    let (i, f, h₂) = >>=-eq-ok (asked_input policy input) _ h₁ in
    (p, i, or_fail-eq-ok provider no_provider e, h₂, asked_input-IsFit policy input f)
