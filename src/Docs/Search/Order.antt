-- ===== src/Docs/Search/Order.antt =====
-- docs/_build/html/_static/searchtools.js: the order in which `Search.query` sorts what it has found.
pub mod Laws
use forwarding_explorer.Base.{
  ℕ, Bool, true, false, ◌&&◌, ◌||◌, Option, none, some, [], ◌∷◌, ◌==◌, ltb, if◌then◌else◌,
}
use forwarding_explorer.Base.Int.{ℤ, pos, negsuc}
use forwarding_explorer.Docs.Text.{Text}
use forwarding_explorer.Docs.Search.{Result}

-- `<` on strings, numbers, and numbers or NaN.
abbrev pub text_ltb : Text → Text → Bool
text_ltb [] [] = false
text_ltb [] (b ∷ t) = true
text_ltb (a ∷ s) [] = false
text_ltb (a ∷ s) (b ∷ t) = ltb a b || (a == b && text_ltb s t)

abbrev pub int_ltb : ℤ → ℤ → Bool
int_ltb (pos a) (pos b) = ltb a b
int_ltb (pos a) (negsuc b) = false
int_ltb (negsuc a) (pos b) = true
int_ltb (negsuc a) (negsuc b) = ltb b a

abbrev pub number_ltb : Option ℤ → Option ℤ → Bool
number_ltb (some a) (some b) = int_ltb a b
number_ltb _ _ = false

-- -1, 0 and 1
pub data Comparison : Type 0 where
  less : Comparison
  equal : Comparison
  greater : Comparison

abbrev pub compare_titles : (left right : Text) → Comparison
compare_titles left right =
    if text_ltb right left then less else if text_ltb left right then greater else equal

module _ (lower : Text → Text) where
  -- The titles in lower case, and none for the TypeError of a title that is missing.
  abbrev pub compare_alphabetically : Option Text → Option Text → Option Comparison
  compare_alphabetically (some left) (some right) = some (compare_titles (lower left) (lower right))
  compare_alphabetically _ _ = none

  abbrev pub compare_results : (a b : Result) → Option Comparison
  compare_results a b =
      if number_ltb b.score a.score
      then some greater
      else if number_ltb a.score b.score
      then some less
      else compare_alphabetically a.title b.title
