-- ===== src/Places/Tests.antt =====
-- Tests of the place search.
use uber_clone.Common.{◌≡◌, refl, none, some, [], ◌∷◌, ok}
use uber_clone.Common.Int.{pos}
use uber_clone.Common.Text.{codes, trim_space, trim_left, trim_right, is_space}
use uber_clone.Places.{
  AutocompleteInput, Suggestion, Place, Provider, SearchPolicy, asked_input, autocomplete,
  update_search_policy,
}
use uber_clone.Sample.{here}

abbrev a_suggestion : Suggestion
a_suggestion = record { place_id = codes "p"; label = codes "Park" }

abbrev a_place : Place
a_place = record { place_id = codes "p"; label = codes "Park"; location = here }

abbrev a_provider : Provider
a_provider = record {
  autocomplete = λ i. ok (a_suggestion ∷ []);
  details = λ p t. ok a_place;
  reverse_geocode = λ p. ok a_place;
}

abbrev an_input : AutocompleteInput
an_input = record {
  query = codes " pa";
  session_token = codes "t";
  bias = none;
  restriction_radius_meters = pos 0;
}

abbrev a_policy : SearchPolicy
a_policy = record {
  autocomplete_radius_meters = pos 20000;
  updated_at = 0;
  updated_by = codes "ops";
}

completes : autocomplete (some a_provider) (some (some a_policy)) an_input ≡ ok (a_suggestion ∷ [])
unfolding autocomplete asked_input trim_space trim_left trim_right is_space
completes = refl

narrows :
    update_search_policy 9
      (record a_policy { autocomplete_radius_meters = pos 5000 })
      (codes "me ")
      (some a_policy)
    ≡ ok (record { autocomplete_radius_meters = pos 5000; updated_at = 9; updated_by = codes "me" })
unfolding update_search_policy trim_space trim_left trim_right is_space
narrows = refl
