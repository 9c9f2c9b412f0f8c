-- ===== src/Common/Order.antt =====
-- ORDER BY: the rows, sorted by a strict order that is a Boolean test.
use uber_clone.Common.Tests.{if◌then◌else◌, Bool-cases}
use uber_clone.Common.Lists.{All, All-map}
use mathlib.Core.Path.{◌≡◌}
use mathlib.Core.Logic.{inl, inr}
use mathlib.Core.Bool.{Bool, true, false}
use mathlib.Core.List.{List, [], ◌∷◌, Perm}
use mathlib.Core.List.Perm

module _ {ℓ} {R : Type ℓ} (before : R → R → Bool) where
  unfoldable pub insert_by : R → List R → List R
  insert_by x [] = x ∷ []
  insert_by x (y ∷ t) = let rest = insert_by x t in if before x y then x ∷ y ∷ t else y ∷ rest

  unfoldable pub sort_by : List R → List R
  sort_by [] = []
  sort_by (x ∷ t) = insert_by x (sort_by t)

  -- No row is before one that stands before it.
  abbrev pub IsSorted : List R → Type ℓ
  IsSorted [] = Unit
  IsSorted (x ∷ t) = All (λ y. before y x ≡ false) t × IsSorted t

  insert_by-Perm : (x : R) (t : List R) → Perm (x ∷ t) (insert_by x t)
  unfolding insert_by
  insert_by-Perm x [] = Perm.rfl
  insert_by-Perm x (y ∷ t) = elim (Bool-cases (before x y)) [
    | inl e ↦ rw e Perm.rfl
    | inr e ↦ rw e (Perm.trans (Perm.swap y x t) (Perm.cons y (insert_by-Perm x t)))
  ]

  -- Sorting keeps the rows.
  pub sort_by-Perm : (t : List R) → Perm t (sort_by t)
  unfolding sort_by
  sort_by-Perm [] = Perm.rfl
  sort_by-Perm (x ∷ t) = Perm.trans (Perm.cons x (sort_by-Perm t)) (insert_by-Perm x (sort_by t))

  All-insert_by {κ} : (P : R → Type κ) (x : R) (t : List R) → P x → All P t → All P (insert_by x t)
  unfolding insert_by
  All-insert_by P x [] p a = (p, a)
  All-insert_by P x (y ∷ t) p a = elim (Bool-cases (before x y)) [
    | inl e ↦ rw e (p, a)
    | inr e ↦ rw e (a.0, All-insert_by P x t p a.1)
  ]

  -- What holds of all the rows holds of all the sorted ones.
  pub All-sort_by {κ} : (P : R → Type κ) (t : List R) → All P t → All P (sort_by t)
  unfolding sort_by
  All-sort_by P [] a = tt
  All-sort_by P (x ∷ t) a = All-insert_by P x (sort_by t) a.0 (All-sort_by P t a.1)

-- The rows that are sorted by `before` are so by a coarser order.
module _ {ℓ} {R : Type ℓ} (before coarse : R → R → Bool)
    (later : (x y : R) → before x y ≡ true → coarse y x ≡ false)
    (sooner : (x y : R) → before x y ≡ false → coarse x y ≡ false)
    (step : (x y z : R) → coarse y x ≡ false → coarse z y ≡ false → coarse z x ≡ false) where
  insert_by-IsSorted :
      (x : R) (t : List R) → IsSorted coarse t → IsSorted coarse (insert_by before x t)
  unfolding insert_by
  insert_by-IsSorted x [] s = (tt, tt)
  insert_by-IsSorted x (y ∷ t) s = elim (Bool-cases (before x y)) [
    | inl e ↦
        let first = later x y e in
        rw e (
          (
            first,
            All-map (λ z. coarse z y ≡ false) (λ z. coarse z x ≡ false) t
                (λ z h. step x y z first h) s.0,
          ),
          s,
        )
    | inr e ↦ rw e (
      All-insert_by before (λ z. coarse z y ≡ false) x t (sooner x y e) s.0,
      insert_by-IsSorted x t s.1,
    )
  ]

  pub sort_by-IsSorted_coarse : (t : List R) → IsSorted coarse (sort_by before t)
  unfolding sort_by
  sort_by-IsSorted_coarse [] = tt
  sort_by-IsSorted_coarse (x ∷ t) =
      insert_by-IsSorted x (sort_by before t) (sort_by-IsSorted_coarse t)

pub sort_by-IsSorted {ℓ} :
    {R : Type ℓ} (before : R → R → Bool)
    → ((x y : R) → before x y ≡ true → before y x ≡ false)
    → ((x y z : R) → before y x ≡ false → before z y ≡ false → before z x ≡ false)
    → (t : List R) → IsSorted before (sort_by before t)
sort_by-IsSorted before asym step t = sort_by-IsSorted_coarse before before asym (λ x y e. e) step t
