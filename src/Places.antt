-- ===== src/Places.antt =====
-- locationsearch/locationsearch.go and search_policy.go: places are asked of a provider, which is a
-- parameter, within a radius that operators set.
pub mod Restricted
pub mod Tests
use uber_clone.Common.{
  ℕ, Bool, true, false, ◌&&◌, ◌||◌, not, Option, none, some, List, ltb, length, Result, ok, err,
  ◌>>=◌, ◌>>◌, or_fail, fail_if,
}
use uber_clone.Common.Int.{ℤ, pos, leb_ℤ}
use uber_clone.Common.Text.{Text, trim_space, is_empty}
use uber_clone.Store.{Location}
use uber_clone.Routing.{valid_point}

-- policy_missing is the sql.ErrNoRows of LoadSearchPolicy.
pub data SearchError : Type 0 where
  no_provider invalid_input not_found provider_failed invalid_search_policy policy_missing :
      SearchError

pub record AutocompleteInput : Type 0 where
  pub query : Text
  pub session_token : Text
  pub bias : Option Location
  pub restriction_radius_meters : ℤ

pub record Suggestion : Type 0 where
  pub place_id : Text
  pub label : Text

pub record Place : Type 0 where
  pub place_id : Text
  pub label : Text
  pub location : Location

pub record Provider : Type 0 where
  pub autocomplete : AutocompleteInput → Result SearchError (List Suggestion)
  pub details : Text → Text → Result SearchError Place
  pub reverse_geocode : Location → Result SearchError Place

-- The row of rider_place_search_policy with id 1.
pub record SearchPolicy : Type 0 where
  pub autocomplete_radius_meters : ℤ
  pub updated_at : ℕ
  pub updated_by : Text

abbrev pub min_radius : ℕ
min_radius = 5000

abbrev pub max_radius : ℕ
max_radius = 50000

abbrev pub default_radius : ℕ
default_radius = 50000

abbrev pub valid_search_policy : SearchPolicy → Bool
valid_search_policy p =
    leb_ℤ (pos min_radius) p.autocomplete_radius_meters
    && leb_ℤ p.autocomplete_radius_meters (pos max_radius)

-- LoadSearchPolicy of the row, if it is there.
abbrev pub load_search_policy : Option SearchPolicy → Result SearchError SearchPolicy
load_search_policy row = or_fail row policy_missing

-- UpdateSearchPolicy; `now` is the statement's time.
unfoldable pub update_search_policy :
    ℕ → SearchPolicy → Text → Option SearchPolicy → Result SearchError SearchPolicy
update_search_policy now p actor row = do
  let actor' = trim_space actor
  fail_if (is_empty actor' || not (valid_search_policy p)) invalid_search_policy
  old ← or_fail row policy_missing
  ok (record {
    autocomplete_radius_meters = p.autocomplete_radius_meters;
    updated_at = now;
    updated_by = actor';
  })

abbrev pub is_unfit : Option Location → Bool
is_unfit none = false
is_unfit (some p) = not (valid_point p)

-- Service.policy is nil, or a service on the row.
abbrev pub radius : Option (Option SearchPolicy) → Result SearchError ℤ
radius none = ok (pos default_radius)
radius (some row) = do
  p ← load_search_policy row
  fail_if (not (valid_search_policy p)) provider_failed
  ok p.autocomplete_radius_meters

-- What Service.Autocomplete asks its provider.
unfoldable pub asked_input :
    Option (Option SearchPolicy) → AutocompleteInput → Result SearchError AutocompleteInput
asked_input policy input = do
  let query = trim_space input.query
  let token = trim_space input.session_token
  fail_if (ltb (length query) 2 || is_empty token) invalid_input
  fail_if (is_unfit input.bias) invalid_input
  r ← radius policy
  ok (record {
    query = query;
    session_token = token;
    bias = input.bias;
    restriction_radius_meters = r;
  })

unfoldable pub autocomplete :
    Option Provider
    → Option (Option SearchPolicy)
    → AutocompleteInput
    → Result SearchError (List Suggestion)
autocomplete provider policy input = do
  p ← or_fail provider no_provider
  input' ← asked_input policy input
  p.autocomplete input'

unfoldable pub details : Option Provider → Text → Text → Result SearchError Place
details provider place_id token = do
  p ← or_fail provider no_provider
  fail_if (is_empty (trim_space place_id)) invalid_input
  p.details (trim_space place_id) (trim_space token)

unfoldable pub reverse_geocode : Option Provider → Location → Result SearchError Place
reverse_geocode provider point = do
  p ← or_fail provider no_provider
  fail_if (not (valid_point point)) invalid_input
  p.reverse_geocode point
