-- ===== src/Common/Table/Statements.antt =====
-- The statements that the repositories run on a table.
use uber_clone.Common.Tests.{if◌then◌else◌}
use Prim.Native.Nat.{ℕ, suc}
use mathlib.Core.Bool.{Bool, false, ◌||◌}
use mathlib.Core.Option.{Option, none, some}
use mathlib.Core.List.{List, [], ◌∷◌}

module _ {ℓ} {R : Type ℓ} where
  -- SELECT … WHERE p, the first row.
  abbrev pub find : (R → Bool) → List R → Option R
  find p [] = none
  find p (r ∷ t) = if p r then some r else find p t

  -- EXISTS (SELECT 1 … WHERE p)
  abbrev pub exists : (R → Bool) → List R → Bool
  exists p [] = false
  exists p (r ∷ t) = p r || exists p t

  -- SELECT … WHERE p, every row.
  abbrev pub select : (R → Bool) → List R → List R
  select p [] = []
  select p (r ∷ t) = if p r then r ∷ select p t else select p t

  -- The number of rows that an UPDATE … WHERE p affects.
  abbrev pub count_where : (R → Bool) → List R → ℕ
  count_where p [] = 0
  count_where p (r ∷ t) = let n = count_where p t in if p r then suc n else n

  abbrev pub change : (R → Bool) → (R → R) → R → R
  change p f r = if p r then f r else r

  -- UPDATE … SET f WHERE p
  abbrev pub update_where : (R → Bool) → (R → R) → List R → List R
  update_where p f [] = []
  update_where p f (r ∷ t) = change p f r ∷ update_where p f t
