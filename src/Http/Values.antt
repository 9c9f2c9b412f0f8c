-- ===== src/Http/Values.antt =====
-- The values that encoding/json writes. An object keeps the order in which the code lists its
-- members; a UUID and an instant stand for their texts.
use uber_clone.Common.{ℕ, Bool, Option, none, some, List, [], ◌∷◌, if◌then◌else◌}
use uber_clone.Common.Int.{ℤ}
use uber_clone.Common.Float.{Float}
use uber_clone.Common.Text.{Text, text_eq}

mutual
  pub data Json : Type 0 where
    null : Json
    bool : Bool → Json
    int : ℤ → Json
    number : Float → Json
    text : Text → Json
    uuid : ℕ → Json
    instant : ℕ → Json
    arr : Items → Json
    obj : Fields → Json

  pub data Items : Type 0 where
    nil : Items
    cons : Json → Items → Items

  pub data Fields : Type 0 where
    end : Fields
    field : Text → Json → Fields → Fields

abbrev pub fields : List (Text × Json) → Fields
fields [] = end
fields ((k, v) ∷ t) = field k v (fields t)

abbrev pub items : List Json → Items
items [] = nil
items (v ∷ t) = cons v (items t)

abbrev pub object : List (Text × Json) → Json
object l = obj (fields l)

abbrev pub array : List Json → Json
array l = arr (items l)

-- A nil pointer is written as null.
abbrev pub or_null {ℓ} : {A : Type ℓ} → (A → Json) → Option A → Json
or_null f none = null
or_null f (some a) = f a

abbrev pub lookup_field : Text → Fields → Option Json
lookup_field k end = none
lookup_field k (field k' v t) = if text_eq k' k then some v else lookup_field k t

-- The member of an object.
abbrev pub member : Text → Json → Option Json
member k (obj f) = lookup_field k f
member k other = none
