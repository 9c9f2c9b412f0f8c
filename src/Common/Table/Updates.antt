-- ===== src/Common/Table/Updates.antt =====
-- What an update leaves.
use uber_clone.Common.Tests.{Bool-cases}
use uber_clone.Common.Lists.{All}
use mathlib.Core.Path.{◌≡◌, refl}
use mathlib.Core.Logic.{inl, inr}
use mathlib.Core.Bool.{Bool, true}
use mathlib.Core.Option.{Option, none, some}
use mathlib.Core.List.{List, [], ◌∷◌}
use mathlib.Core.Option
use native.Mathlib.Omega.{arith}
use uber_clone.Common.Table.Statements.{find, exists, change, update_where}
use uber_clone.Common.Table.Lookups.{find_sound}

module _ {ℓ} {R : Type ℓ} where
  -- An update that leaves `q` alone keeps the row that `q` finds, changed in place.
  pub find-update_where :
      (q p : R → Bool) (f : R → R) (t : List R)
      → ((r : R) → q (f r) ≡ q r)
      → find q (update_where p f t) ≡ Option.map (change p f) (find q t)
  find-update_where q p f [] h = refl
  find-update_where q p f (r ∷ t) h = ground (arith, h r, find-update_where q p f t h)

  pub exists-update_where :
      (q p : R → Bool) (f : R → R) (t : List R)
      → ((r : R) → q (change p f r) ≡ q r)
      → exists q (update_where p f t) ≡ exists q t
  exists-update_where q p f [] h = refl
  exists-update_where q p f (r ∷ t) h = ground (arith, h r, exists-update_where q p f t h)

  -- A predicate on every row goes through an update that establishes it row by row.
  pub All-update_where {κ μ} :
      (P : R → Type κ) (Q : R → Type μ) (p : R → Bool) (f : R → R) (t : List R)
      → ((r : R) → P r → Q (change p f r))
      → All P t
      → All Q (update_where p f t)
  All-update_where P Q p f [] h a = tt
  All-update_where P Q p f (r ∷ t) h a = (h r a.0, All-update_where P Q p f t h a.1)

  -- An update that changes no row leaves the table.
  pub update_where-id :
      (p : R → Bool) (f : R → R) (t : List R)
      → All (λ r. change p f r ≡ r) t
      → update_where p f t ≡ t
  update_where-id p f [] h = refl
  update_where-id p f (r ∷ t) h = cc (h.0, update_where-id p f t h.1)

  -- UPDATE … WHERE p RETURNING, where the new values leave `p` alone.
  pub find-update_self :
      (p : R → Bool) (f : R → R) (t : List R) {r : R}
      → ((x : R) → p (f x) ≡ p x)
      → find p t ≡ some r
      → find p (update_where p f t) ≡ some (f r)
  find-update_self p f t {r} same h = rw (find-update_where p p f t same, h, find_sound p t h)

  -- An update that makes its rows fulfil a condition, where it has a row.
  pub exists-update_made :
      (p q : R → Bool) (f : R → R) (t : List R) {r : R}
      → ((x : R) → p x ≡ true → q (f x) ≡ true)
      → find p t ≡ some r
      → exists q (update_where p f t) ≡ true
  exists-update_made p q f [] make h = cc
  exists-update_made p q f (x ∷ t) make h = elim (Bool-cases (p x)) [
    | inl m ↦ rw (m, make x m) refl
    | inr m ↦ rw (m, exists-update_made p q f t make (rw m at h)) (ground arith)
  ]

module _ {ℓ κ} {R : Type ℓ} (P : R → Type κ) where
  -- What one, two or three updates establish of every row.
  pub All-update :
      (p : R → Bool) (f : R → R) (t : List R)
      → ((r : R) → P (change p f r))
      → All P (update_where p f t)
  All-update p f [] h = tt
  All-update p f (r ∷ t) h = (h r, All-update p f t h)

  pub All-update₂ :
      (p q : R → Bool) (f g : R → R) (t : List R)
      → ((r : R) → P (change q g (change p f r)))
      → All P (update_where q g (update_where p f t))
  All-update₂ p q f g [] h = tt
  All-update₂ p q f g (r ∷ t) h = (h r, All-update₂ p q f g t h)

  pub All-update₃ :
      (p q s : R → Bool) (f g e : R → R) (t : List R)
      → ((r : R) → P (change s e (change q g (change p f r))))
      → All P (update_where s e (update_where q g (update_where p f t)))
  All-update₃ p q s f g e [] h = tt
  All-update₃ p q s f g e (r ∷ t) h = (h r, All-update₃ p q s f g e t h)
