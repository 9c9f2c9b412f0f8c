-- ===== src/Google/Suggestions/Asked.antt =====
-- locationsearch/google/provider.go: the calls of locationsearch.Provider, made to the services. The
-- counts of one answer are asked for at the same time; here they are in the order of the suggestions.
use uber_clone.Common.{
  ℕ, suc, ◌+◌, Option, none, some, List, [], ◌∷◌, ◌++◌, ltb, length, Result, ok, err, map,
  if◌then◌else◌,
}
use uber_clone.Common.Int.{ℤ, pos}
use uber_clone.Common.Order.{sort_by}
use uber_clone.Common.Table.{find}
use uber_clone.Common.Text.{Text, codes, trim_space, is_empty}
use uber_clone.Common.Exchange.{Exchange, ◌>>=◌, ◌>>◌, fail_if, or_fail}
use uber_clone.Store.{Location}
use uber_clone.Places.{
  SearchError, no_provider, provider_failed, AutocompleteInput, Suggestion, Place,
}
use uber_clone.Google.{Call}
use uber_clone.Google.Suggestions.{
  Provider, Cached, Ranked, cache_lifetime, is_cached, set_cached, fresh_count, checked_reply,
  get_call, autocomplete_call, suggestions, is_ranked_before, detailed_place, geocoded_place,
}

-- The services, and the counts that the provider has kept.
abbrev pub State : Type 0 → Type 0
State S = List Cached × S

module _ {S : Type 0} (p : Provider S) where
  abbrev asked : Call → State S → Result SearchError Text × State S
  asked c x = (checked_reply (p.send c x.1).0, (x.0, (p.send c x.1).1))

  -- A count that is read is kept; a call that fails counts as 0.
  abbrev kept : ℕ → Text → Option ℤ × S → List Cached → ℤ × State S
  kept now id (none, s) cache = (pos 0, (cache, s))
  kept now id (some n, s) cache = (
    n,
    (
      set_cached
          (record { place_id = id; user_rating_count = n; expires_at = now + cache_lifetime })
          cache,
      s,
    ),
  )

  abbrev counted : Result SearchError Text → Option ℤ
  counted (ok body) = p.count_body body
  counted (err e) = none

  abbrev count_call : Text → Call
  count_call id = get_call (codes "/v1/places/" ++ p.escape id) [] (codes "userRatingCount")

  unfoldable pub user_rating_count : ℕ → Text → State S → ℤ × State S
  user_rating_count now id x = elim (fresh_count now (find (is_cached id) x.0)) [
    | some n ↦ (n, x)
    | none ↦
        kept now id
          (counted (checked_reply (p.send (count_call id) x.1).0), (p.send (count_call id) x.1).1)
          x.0
  ]

  -- The suggestions with their counts and their positions, from the `i`-th on.
  unfoldable pub rated : ℕ → ℕ → List Suggestion → State S → List Ranked × State S
  rated now i [] x = ([], x)
  rated now i (y ∷ l) x =
      let (n, x₁) = user_rating_count now y.place_id x in
      let (rest, x₂) = rated now (suc i) l x₁ in
      (record { suggestion = y; popularity = n; index = i } ∷ rest, x₂)

  abbrev pub in_order : List Ranked → List Suggestion
  in_order l = map (λ (r : Ranked). r.suggestion) (sort_by is_ranked_before l)

  -- rankSuggestionsByPopularity
  unfoldable pub rank_suggestions : ℕ → List Suggestion → State S → List Suggestion × State S
  rank_suggestions now l x =
      if ltb (length l) 2 then (l, x) else (in_order (rated now 0 l x).0, (rated now 0 l x).1)

  abbrev found :
      ℕ → Option (List (Option (Text × Text))) → Exchange (State S) SearchError (List Suggestion)
  found now none x = (err provider_failed, x)
  found now (some l) x =
      (ok (rank_suggestions now (suggestions l) x).0, (rank_suggestions now (suggestions l) x).1)

  unfoldable pub autocomplete :
      ℕ → AutocompleteInput → Exchange (State S) SearchError (List Suggestion)
  autocomplete now input = do
    fail_if (is_empty p.api_key) no_provider
    body ← asked (autocomplete_call input)
    found now (p.predictions_body body)

  abbrev session_query : Text → List (Text × Text)
  session_query token =
      if is_empty (trim_space token) then [] else (codes "sessionToken", trim_space token) ∷ []

  unfoldable pub details : Text → Text → Exchange (State S) SearchError Place
  details id token = do
    fail_if (is_empty p.api_key) no_provider
    body ← asked (
        get_call (codes "/v1/places/" ++ p.escape id) (session_query token)
          (codes "id,displayName.text,formattedAddress,location"))
    b ← or_fail (p.details_body body) provider_failed
    λ x. (detailed_place token b, x)

  abbrev geocode_call : Location → Call
  geocode_call point =
      get_call (codes "/v4/geocode/location")
        ((codes "location.latitude", p.format_float point.latitude)
          ∷ (codes "location.longitude", p.format_float point.longitude)
          ∷ [])
        (codes "results.placeId,results.formattedAddress,results.location")

  unfoldable pub reverse_geocode : Location → Exchange (State S) SearchError Place
  reverse_geocode point = do
    fail_if (is_empty p.api_key) no_provider
    body ← asked (geocode_call point)
    l ← or_fail (p.results_body body) provider_failed
    λ x. (geocoded_place point l, x)
