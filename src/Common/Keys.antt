-- ===== src/Common/Keys.antt =====
-- A primary key: no two rows of a table have the same one.
use uber_clone.Common.Tests.{Bool-cases}
use uber_clone.Common.Lists.{All, All-map}
use uber_clone.Common.Table.{find, update_where, found, find_sound, All-find}
use mathlib.Core.Path.{◌≡◌, sym, ap, ◌∙◌}
use mathlib.Core.Logic.{◌≢◌, inl, inr}
use mathlib.Core.Bool.{Bool, true}
use mathlib.Core.Option.{some}
use mathlib.Core.List.{List, [], ◌∷◌, ◌++◌}

module _ {ℓ κ} {R : Type ℓ} {K : Type κ} (key : R → K) where
  abbrev pub IsKeyed : List R → Type (ℓ ⊔ κ)
  IsKeyed [] = Unit
  IsKeyed (r ∷ t) = All (λ x. key x ≢ key r) t × IsKeyed t

  -- The row that a condition on the key finds is the only one that fulfils it.
  pub find-only :
      (q : R → Bool) (k : K) (t : List R) {r : R}
      → ((x : R) → q x ≡ true → key x ≡ k)
      → IsKeyed t
      → find q t ≡ some r
      → All (λ x. q x ≡ true → x ≡ r) t
  find-only q k [] only u h = tt
  find-only q k (x ∷ t) {r} only u h = elim (Bool-cases (q x)) [
    | inl e ↦
        let x-eq-r : x ≡ r = found q x t e h in
        (
          λ _. x-eq-r,
          All-map (λ y. key y ≢ key x) (λ y. q y ≡ true → y ≡ r) t
              (λ y ne qy. absurd (ne (only y qy ∙ sym (only x e)))) u.0,
        )
    | inr e ↦ (λ qx. cc, find-only q k t only u.1 (rw e at h))
  ]

  All-key-update_where :
      (p : R → Bool) (f : R → R) (k : K) (t : List R)
      → ((x : R) → key (f x) ≡ key x)
      → All (λ x. key x ≢ k) t
      → All (λ x. key x ≢ k) (update_where p f t)
  All-key-update_where p f k [] same a = tt
  All-key-update_where p f k (x ∷ t) same a = (
    elim (Bool-cases (p x)) [ inl e ↦ rw e (rw (same x) a.0) | inr e ↦ rw e a.0 ],
    All-key-update_where p f k t same a.1,
  )

  -- An update that leaves the key alone keeps the rows apart.
  pub update_where-IsKeyed :
      (p : R → Bool) (f : R → R) (t : List R)
      → ((x : R) → key (f x) ≡ key x)
      → IsKeyed t
      → IsKeyed (update_where p f t)
  update_where-IsKeyed p f [] same u = tt
  update_where-IsKeyed p f (x ∷ t) same u = (
    elim (Bool-cases (p x)) [
      | inl e ↦ rw (e, same x) (All-key-update_where p f (key x) t same u.0)
      | inr e ↦ rw e (All-key-update_where p f (key x) t same u.0)
    ],
    update_where-IsKeyed p f t same u.1,
  )

  -- INSERT of a row whose key no row has.
  pub append-IsKeyed :
      (r : R) (t : List R) → All (λ x. key x ≢ key r) t → IsKeyed t → IsKeyed (t ++ r ∷ [])
  append-IsKeyed r [] a u = (tt, tt)
  append-IsKeyed r (x ∷ t) a u = (apart r x t (λ e. a.0 (sym e)) u.0, append-IsKeyed r t a.1 u.1)
    where
      apart :
          (r x : R) (t : List R)
          → key r ≢ key x
          → All (λ y. key y ≢ key x) t
          → All (λ y. key y ≢ key x) (t ++ r ∷ [])
      apart r x [] ne a = (ne, tt)
      apart r x (y ∷ t) ne a = (a.0, apart r x t ne a.1)

  -- With a key it does not matter what else a search asks for.
  pub find-weaken :
      (q p : R → Bool) (k : K) (t : List R) {r : R}
      → ((x : R) → q x ≡ true → p x ≡ true)
      → ((x : R) → p x ≡ true → key x ≡ k)
      → IsKeyed t
      → find q t ≡ some r
      → find p t ≡ some r
  find-weaken q p k [] weak only u h = cc
  find-weaken q p k (x ∷ t) {r} weak only u h = elim (Bool-cases (q x)) [
    | inl e ↦ rw (weak x e) (ap some (found q x t e h))
    | inr e ↦
        let later : find q t ≡ some r = rw e at h in
        elim (Bool-cases (p x)) [
          | inl px ↦ absurd (
              All-find (λ y. key y ≢ key x) q t u.0 later
                (only r (weak r (find_sound q t later)) ∙ sym (only x px)))
          | inr nx ↦ rw nx (find-weaken q p k t weak only u.1 later)
        ]
  ]
