-- ===== src/Google/Tests.antt =====
-- Tests of the providers: a service of routes that is overloaded once, and two cafés.
use uber_clone.Common.{
  ℕ, ◌+◌, ◌≡◌, ◌≤◌, refl, true, Option, none, some, List, [], ◌∷◌, ok, map, Perm, if◌then◌else◌,
  ◌==◌,
}
use uber_clone.Common.Int.{pos}
use uber_clone.Common.Order.{IsSorted}
use uber_clone.Common.Text.{Text, codes, text_eq, trim_space, trim_left, trim_right, is_space}
use uber_clone.Routing.{Endpoint, Route, valid_route}
use uber_clone.Places.{Suggestion}
use uber_clone.Google.{Call, Reply}
use uber_clone.Google.Routes as Routes
use uber_clone.Google.Routes.{attempts, route_in, preview}
use uber_clone.Google.Routes.Attempts.{counted, preview-attempts}
use uber_clone.Google.Suggestions as Suggestions
use uber_clone.Google.Suggestions.{Ranked}
use uber_clone.Google.Suggestions.Asked.{rated, rank_suggestions}
use uber_clone.Google.Suggestions.Ranking.{is_more_popular, rank_suggestions-IsSorted}
use uber_clone.Sample.{here}

-- The state is the number of calls; the first is refused.
abbrev busy_once : Call → ℕ → Option Reply × ℕ
busy_once c n = (some (record { status = if n == 0 then 503 else 200; body = [] }), n + 1)

abbrev routes : Routes.Provider ℕ
routes = record {
  api_key = codes "key";
  send = busy_once;
  routes_body = λ b. some (
      record { distance_meters = pos 5250; duration = codes "600s"; encoded_polyline = codes "xy" }
      ∷ []);
  parse_duration = λ s. some (pos 600000000000);
}

abbrev a_place : Endpoint
a_place = record { point = here; place_id = codes "p" }

abbrev a_route : Route
a_route = record {
  distance_meters = pos 5250;
  duration_seconds = pos 600;
  encoded_polyline = codes "xy";
}

asks_again : preview routes a_place a_place 0 ≡ (ok a_route, 2)
unfolding preview attempts route_in trim_space trim_left trim_right is_space
asks_again = refl

preview-attempts_example :
    ((preview (counted routes) a_place a_place (0, 0)).1.0 ≤ 2)
    × ((route : Route) (s' : ℕ)
        → preview routes a_place a_place 0 ≡ (ok route, s')
        → valid_route route ≡ true)
preview-attempts_example = preview-attempts routes a_place a_place 0

-- The body of a reply is the path, which tells how often a place is rated.
abbrev places : Suggestions.Provider ℕ
places = record {
  api_key = codes "key";
  send = λ c n. (some (record { status = 200; body = c.path }), n + 1);
  escape = λ s. s;
  format_float = λ x. [];
  predictions_body = λ b. none;
  count_body = λ b. some (if text_eq b (codes "/v1/places/a") then pos 3 else pos 40);
  details_body = λ b. none;
  results_body = λ b. none;
}

abbrev cafe : Text → Suggestion
cafe id = record { place_id = id; label = codes "Café" }

abbrev cafes : List Suggestion
cafes = cafe (codes "a") ∷ cafe (codes "b") ∷ []

rank_suggestions-IsSorted_example :
    (ranked : List Ranked) × Perm (rated places 0 0 cafes ([], 0)).0 ranked
    × IsSorted is_more_popular ranked
    × ((rank_suggestions places 0 cafes ([], 0)).0 ≡ map (λ (r : Ranked). r.suggestion) ranked)
    × Perm cafes (rank_suggestions places 0 cafes ([], 0)).0
rank_suggestions-IsSorted_example = rank_suggestions-IsSorted places 0 cafes ([], 0) refl
