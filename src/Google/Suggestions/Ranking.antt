-- ===== src/Google/Suggestions/Ranking.antt =====
-- The order of the suggestions.
use uber_clone.Common.{
  ℕ, suc, ◌≡◌, refl, ap, subst, Bool, false, List, [], ◌∷◌, ltb, length, map, Perm, arith,
}
use mathlib.Core.List.Perm
use uber_clone.Common.Int.{ltb_ℤ}
use uber_clone.Common.Order.{sort_by, IsSorted, sort_by-Perm, sort_by-IsSorted_coarse}
use uber_clone.Places.{Suggestion}
use uber_clone.Google.Suggestions.{Provider, Ranked, is_ranked_before}
use uber_clone.Google.Suggestions.Asked.{State, user_rating_count, rated, rank_suggestions}

abbrev pub is_more_popular : Ranked → Ranked → Bool
is_more_popular a b = ltb_ℤ b.popularity a.popularity

ranked-IsSorted : (l : List Ranked) → IsSorted is_more_popular (sort_by is_ranked_before l)
ranked-IsSorted =
    sort_by-IsSorted_coarse is_ranked_before is_more_popular (λ x y h. ground arith)
      (λ x y h. ground arith) (λ x y z h h'. ground arith)

module _ {S : Type 0} (p : Provider S) where
  map-rated :
      (now i : ℕ) (l : List Suggestion) (x : State S)
      → map (λ (r : Ranked). r.suggestion) (rated p now i l x).0 ≡ l
  unfolding rated
  map-rated now i [] x = refl
  map-rated now i (y ∷ l) x =
      ap (λ t. y ∷ t) (map-rated now (suc i) l (user_rating_count p now y.place_id x).1)

-- Two suggestions and more come back in an order of their counts: the answer has just the suggestions
-- that were given, and is that of a list of them with the counts that were read, in which none stands
-- behind one with a smaller count.
pub rank_suggestions-IsSorted :
    {S : Type 0} (p : Provider S) (now : ℕ) (l : List Suggestion) (x : State S)
    → ltb (length l) 2 ≡ false
    → (ranked : List Ranked) × Perm (rated p now 0 l x).0 ranked
      × IsSorted is_more_popular ranked
      × ((rank_suggestions p now l x).0 ≡ map (λ (r : Ranked). r.suggestion) ranked)
      × Perm l (rank_suggestions p now l x).0
unfolding rank_suggestions
rank_suggestions-IsSorted p now l x h =
    let counted = (rated p now 0 l x).0 in
    let order = sort_by-Perm is_ranked_before counted in
    (
      sort_by is_ranked_before counted,
      order,
      ranked-IsSorted counted,
      rw h refl,
      rw h (
          subst
            (λ t. Perm t (map (λ (r : Ranked). r.suggestion) (sort_by is_ranked_before counted)))
            (map-rated p now 0 l x) (Perm.map (λ (r : Ranked). r.suggestion) order)),
    )
