-- ===== src/Auth/Words.antt =====
-- What auth/kratos/provider.go does with the texts of the provider (strings.Fields, Join, Contains,
-- and the cut of a message).
use uber_clone.Common.{
  ℕ, zero, suc, ◌-◌, Bool, true, false, ◌||◌, none, some, List, [], ◌∷◌, ◌++◌, leb, if◌then◌else◌,
}
use uber_clone.Common.Text.{Text, is_space, is_empty, strip_prefix, utf8_length}

abbrev starts_blank : Text → Bool
starts_blank [] = true
starts_blank (c ∷ s) = is_space c

-- The letter in front of the first word.
abbrev glue : ℕ → List Text → List Text
glue c [] = (c ∷ []) ∷ []
glue c (w ∷ ws) = (c ∷ w) ∷ ws

-- strings.Fields
unfoldable pub words : Text → List Text
words [] = []
words (c ∷ s) =
    let rest = words s in
    if is_space c then rest else if starts_blank s then (c ∷ []) ∷ rest else glue c rest

-- strings.Join with a space
abbrev pub joined : List Text → Text
joined [] = []
joined (w ∷ []) = w
joined (w ∷ v ∷ ws) = w ++ 32 ∷ joined (v ∷ ws)

abbrev has_prefix : Text → Text → Bool
has_prefix part s = elim (strip_prefix part s) [ none ↦ false | some rest ↦ true ]

-- strings.Contains
unfoldable pub contains : Text → Text → Bool
contains part [] = is_empty part
contains part (c ∷ s) = has_prefix part (c ∷ s) || contains part s

-- Bytes that are no character: the encoder writes each as U+FFFD.
abbrev broken : ℕ → Text
broken zero = []
broken (suc n) = 0xfffd ∷ broken n

-- The first `n` bytes; the last character may be cut.
unfoldable pub first_bytes : ℕ → Text → Text
first_bytes n [] = []
first_bytes n (c ∷ s) =
    let rest = first_bytes (n - utf8_length c) s in
    if leb (utf8_length c) n then c ∷ rest else broken n
