-- ===== src/Common/Table/Lookups.antt =====
-- What a query finds.
use uber_clone.Common.Tests.{Bool-cases}
use uber_clone.Common.Lists.{All, length}
use Prim.Native.Nat.{◌+◌, ◌≤◌}
use mathlib.Core.Path.{◌≡◌, refl, sym, ap, subst}
use mathlib.Core.Logic.{inl, inr}
use mathlib.Core.Bool.{Bool, true, false, ◌||◌}
use mathlib.Core.Option.{none, some}
use mathlib.Core.List.{List, [], ◌∷◌, ◌++◌}
use native.Mathlib.Omega.{arith}
use uber_clone.Common.Table.Statements.{find, exists, select, count_where}

module _ {ℓ} {R : Type ℓ} where
  pub found :
      (q : R → Bool) (x : R) (t : List R) {r : R} → q x ≡ true → find q (x ∷ t) ≡ some r → x ≡ r
  found q x t e h = ground arith

  pub find_sound : (q : R → Bool) (t : List R) {r : R} → find q t ≡ some r → q r ≡ true
  find_sound q [] h = cc
  find_sound q (x ∷ t) {r} h = elim (Bool-cases (q x)) [
    | inl e ↦ subst (λ y. q y ≡ true) (found q x t e h) e
    | inr e ↦ find_sound q t (rw e at h)
  ]

  -- The first row of a wider search is that of a narrower one which it fulfils.
  pub find-strengthen :
      (p q : R → Bool) (t : List R) {r : R}
      → ((x : R) → q x ≡ true → p x ≡ true)
      → find p t ≡ some r
      → q r ≡ true
      → find q t ≡ some r
  find-strengthen p q [] wide h e = cc
  find-strengthen p q (x ∷ t) {r} wide h e = elim (Bool-cases (p x)) [
    | inl px ↦
        let same : x ≡ r = found p x t px h in
        rw (subst (λ z. q z ≡ true) (sym same) e) (ap some same)
    | inr nx ↦ elim (Bool-cases (q x)) [
      | inl qx ↦ cc (wide x qx)
      | inr mx ↦ rw mx (find-strengthen p q t wide (rw nx at h) e)
    ]
  ]

  pub All-find {κ} :
      (P : R → Type κ) (q : R → Bool) (t : List R) {r : R} → All P t → find q t ≡ some r → P r
  All-find P q [] a h = cc
  All-find P q (x ∷ t) a h = elim (Bool-cases (q x)) [
    | inl e ↦ subst P (found q x t e h) a.0
    | inr e ↦ All-find P q t a.1 (rw e at h)
  ]

  -- What is found nowhere is no row.
  pub All-find-none : (q : R → Bool) (t : List R) → find q t ≡ none → All (λ r. q r ≡ false) t
  All-find-none q [] h = tt
  All-find-none q (x ∷ t) h = elim (Bool-cases (q x)) [
    | inl e ↦ cc (rw e at h)
    | inr e ↦ (e, All-find-none q t (rw e at h))
  ]

  pub exists-All-false : (q : R → Bool) (t : List R) → exists q t ≡ false → All (λ r. q r ≡ false) t
  exists-All-false q [] h = tt
  exists-All-false q (x ∷ t) h = elim (Bool-cases (q x)) [
    | inl e ↦ cc (rw e at h)
    | inr e ↦ (e, exists-All-false q t (rw e at h))
  ]

  pub All-false-exists : (q : R → Bool) (t : List R) → All (λ r. q r ≡ false) t → exists q t ≡ false
  All-false-exists q [] h = refl
  All-false-exists q (x ∷ t) h = rw h.0 (All-false-exists q t h.1)

  pub exists-append : (q : R → Bool) (t u : List R) → exists q (t ++ u) ≡ (exists q t || exists q u)
  exists-append q [] u = refl
  exists-append q (x ∷ t) u = ground (arith, exists-append q t u)

  pub find-exists : (q : R → Bool) (t : List R) {r : R} → find q t ≡ some r → exists q t ≡ true
  find-exists q [] h = cc
  find-exists q (x ∷ t) h = elim (Bool-cases (q x)) [
    | inl e ↦ rw e refl
    | inr e ↦ rw e (find-exists q t (rw e at h))
  ]

  -- A found row is there for every condition that it fulfils.
  pub find-exists_too :
      (p q : R → Bool) (t : List R) {r : R} → find p t ≡ some r → q r ≡ true → exists q t ≡ true
  find-exists_too p q [] h e = cc
  find-exists_too p q (x ∷ t) h e = elim (Bool-cases (p x)) [
    | inl m ↦ rw (subst (λ y. q y ≡ true) (sym (found p x t m h)) e) refl
    | inr m ↦ rw (find-exists_too p q t (rw m at h) e) (ground arith)
  ]

  pub exists-find : (q : R → Bool) (t : List R) → exists q t ≡ true → (r : R) × (find q t ≡ some r)
  exists-find q [] h = cc
  exists-find q (x ∷ t) h = elim (Bool-cases (q x)) [
    | inl e ↦ (x, rw e refl)
    | inr e ↦ let (y, f) = exists-find q t (rw e at h) in (y, rw e f)
  ]

  -- A narrower condition is on no row either.
  pub exists-narrow :
      (p q : R → Bool) (t : List R)
      → ((x : R) → q x ≡ true → p x ≡ true)
      → exists p t ≡ false
      → exists q t ≡ false
  exists-narrow p q [] wide h = refl
  exists-narrow p q (x ∷ t) wide h = elim (Bool-cases (q x)) [
    | inl e ↦ cc (wide x e, h)
    | inr e ↦ rw e (exists-narrow p q t wide (ground arith))
  ]

  pub find-append : (q : R → Bool) (t u : List R) → exists q t ≡ false → find q (t ++ u) ≡ find q u
  find-append q [] u h = refl
  find-append q (x ∷ t) u h = ground (arith, find-append q t u)

  -- A row that is found stays the first one.
  pub find-append_old :
      (q : R → Bool) (t u : List R) {r : R} → find q t ≡ some r → find q (t ++ u) ≡ some r
  find-append_old q [] u h = cc
  find-append_old q (x ∷ t) u h = elim (Bool-cases (q x)) [
    | inl e ↦ rw e (rw e at h)
    | inr e ↦ rw e (find-append_old q t u (rw e at h))
  ]

  -- The selected rows fulfil the condition.
  pub All-select : (p : R → Bool) (t : List R) → All (λ r. p r ≡ true) (select p t)
  All-select p [] = tt
  All-select p (r ∷ t) = elim (Bool-cases (p r)) [
    | inl e ↦ rw e (e, All-select p t)
    | inr e ↦ rw e (All-select p t)
  ]

  pub count_where-append :
      (p : R → Bool) (t u : List R) → count_where p (t ++ u) ≡ count_where p t + count_where p u
  count_where-append p [] u = omega arith
  count_where-append p (x ∷ t) u = ground (arith, count_where-append p t u)

  pub count_where-le-length : (p : R → Bool) (t : List R) → count_where p t ≤ length t
  count_where-le-length p [] = omega arith
  count_where-le-length p (x ∷ t) = ground (arith, count_where-le-length p t)

  pub count_where-none :
      (p : R → Bool) (t : List R) → All (λ x. p x ≡ false) t → count_where p t ≡ 0
  count_where-none p [] h = refl
  count_where-none p (x ∷ t) h = rw h.0 (count_where-none p t h.1)
