-- ===== src/Google/Suggestions.antt =====
-- locationsearch/google/provider.go: places are asked for, and suggestions are ordered by how many
-- users have rated them. The counts are kept for a day.
pub mod Asked
pub mod Ranking
use uber_clone.Common.{
  ℕ, suc, ◌+◌, Bool, true, false, ◌&&◌, ◌||◌, not, Option, none, some, List, [], ◌∷◌, ◌++◌, ◌==◌,
  ltb, leb, length, Result, ok, err, ◌>>=◌, ◌>>◌, fail_if, or_fail, map, if◌then◌else◌,
}
use uber_clone.Common.Int.{ℤ, pos, ltb_ℤ}
use uber_clone.Common.Float.{Float}
use uber_clone.Common.Order.{sort_by}
use uber_clone.Common.Table.{find}
use uber_clone.Common.Text.{Text, codes, text_eq, trim_space, is_empty}
use uber_clone.Common.Exchange.{Exchange}
use uber_clone.Http.Values.{Json, number, int, text, object}
use uber_clone.Store.{Location}
use uber_clone.Routing.{valid_point}
use uber_clone.Places.{
  SearchError, no_provider, invalid_input, not_found, provider_failed, AutocompleteInput,
  Suggestion, Place,
}
use uber_clone.Google.{Call, Reply, Client}

pub record PlaceBody : Type 0 where
  pub id : Text
  pub display_name : Text
  pub formatted_address : Text
  pub location : Location

-- The provider with its key; url.PathEscape, strconv.FormatFloat and the decoders of bodies are of
-- other code. A prediction, with its identifier and its text, may be missing.
pub record Provider (S : Type 0) : Type 0 where
  pub api_key : Text
  pub send : Client S
  pub escape : Text → Text
  pub format_float : Float → Text
  pub predictions_body : Text → Option (List (Option (Text × Text)))
  pub count_body : Text → Option ℤ
  pub details_body : Text → Option PlaceBody
  pub results_body : Text → Option (List (Text × Text))

pub record Cached : Type 0 where
  pub place_id : Text
  pub user_rating_count : ℤ
  pub expires_at : ℕ

-- popularityCacheLifetime
abbrev pub cache_lifetime : ℕ
cache_lifetime = 86400000000

abbrev pub is_cached : Text → Cached → Bool
is_cached id c = text_eq c.place_id id

-- The map's entry of a place is set.
unfoldable pub set_cached : Cached → List Cached → List Cached
set_cached c [] = c ∷ []
set_cached c (d ∷ l) =
    let rest = set_cached c l in if text_eq d.place_id c.place_id then c ∷ l else d ∷ rest

abbrev pub fresh_count : ℕ → Option Cached → Option ℤ
fresh_count now none = none
fresh_count now (some c) = if ltb now c.expires_at then some c.user_rating_count else none

-- providerStatus: the error of a status that is no success.
unfoldable pub status_error : ℕ → SearchError
status_error status =
    if status == 400
    then invalid_input
    else if status == 404
    then not_found
    else if status == 401 || status == 403
    then no_provider
    else provider_failed

abbrev pub is_success : ℕ → Bool
is_success status = leb 200 status && ltb status 300

-- The body of a reply that is a success.
abbrev pub checked_reply : Option Reply → Result SearchError Text
checked_reply none = err provider_failed
checked_reply (some r) = if is_success r.status then ok r.body else err (status_error r.status)

abbrev pub get_call : Text → List (Text × Text) → Text → Call
get_call path query mask = record {
  method = codes "GET";
  path = path;
  query = query;
  field_mask = mask;
  body = none;
}

abbrev restriction : Location → ℤ → Json
restriction p radius = object (
    (
      codes "circle",
      object (
          (
            codes "center",
            object (
                (codes "latitude", number p.latitude)
                ∷ (codes "longitude", number p.longitude)
                ∷ []),
          )
          ∷ (codes "radius", int radius)
          ∷ []),
    )
    ∷ [])

abbrev restriction_field : AutocompleteInput → List (Text × Json)
restriction_field input = elim input.bias [
  | none ↦ []
  | some p ↦ (codes "locationRestriction", restriction p input.restriction_radius_meters) ∷ []
]

abbrev pub autocomplete_call : AutocompleteInput → Call
autocomplete_call input = record {
  method = codes "POST";
  path = codes "/v1/places:autocomplete";
  query = [];
  field_mask = codes "suggestions.placePrediction.placeId,suggestions.placePrediction.text.text";
  body = some (
      object (
        (codes "input", text input.query)
        ∷ (codes "sessionToken", text input.session_token)
        ∷ restriction_field input));
}

abbrev fit_suggestion : Option (Text × Text) → Option Suggestion
fit_suggestion none = none
fit_suggestion (some (id, label)) =
    if is_empty (trim_space id) || is_empty (trim_space label)
    then none
    else some (record { place_id = trim_space id; label = trim_space label })

abbrev and_fit : Option Suggestion → List Suggestion → List Suggestion
and_fit none l = l
and_fit (some x) l = x ∷ l

-- The predictions that have an identifier and a text.
unfoldable pub suggestions : List (Option (Text × Text)) → List Suggestion
suggestions [] = []
suggestions (x ∷ l) = and_fit (fit_suggestion x) (suggestions l)

pub record Ranked : Type 0 where
  pub suggestion : Suggestion
  pub popularity : ℤ
  pub index : ℕ

-- The order of sort.SliceStable.
abbrev pub is_ranked_before : Ranked → Ranked → Bool
is_ranked_before a b =
    ltb_ℤ b.popularity a.popularity
    || (not (ltb_ℤ a.popularity b.popularity) && ltb a.index b.index)

-- Details labels a place by its address, or by its name outside a session.
unfoldable pub place_label : Text → PlaceBody → Text
place_label session b =
    if is_empty (trim_space session) && not (is_empty (trim_space b.display_name))
    then trim_space b.display_name
    else trim_space b.formatted_address

unfoldable pub detailed_place : Text → PlaceBody → Result SearchError Place
detailed_place session b = do
  let label = place_label session b
  fail_if (is_empty (trim_space b.id) || is_empty label || not (valid_point b.location)) not_found
  ok (record { place_id = trim_space b.id; label = label; location = b.location })

abbrev first_result : List (Text × Text) → Option (Text × Text)
first_result [] = none
first_result (x ∷ l) = some x

unfoldable pub geocoded_place : Location → List (Text × Text) → Result SearchError Place
geocoded_place point l = do
  x ← or_fail (first_result l) not_found
  fail_if (is_empty (trim_space x.1)) not_found
  ok (record { place_id = trim_space x.0; label = trim_space x.1; location = point })
