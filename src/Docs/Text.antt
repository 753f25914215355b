-- ===== src/Docs/Text.antt =====
-- JavaScript's strings, as the lists of their code units, and the operations on them that the
-- scripts use.
pub mod Laws
use Prim.Native.Char.{code}
use Prim.Native.String.{String}
use forwarding_explorer.Base.{ℕ, Bool, true, false, ◌&&◌, ◌||◌, List, [], ◌∷◌, ◌==◌}

abbrev pub Text : Type 0
Text = List ℕ

-- A literal. `String` has its own `[]` and `∷`.
abbrev pub units : String → Text
units String.[] = []
units (String.◌∷◌ c s) = code c ∷ units s

abbrev pub same : Text → Text → Bool
same [] [] = true
same (a ∷ s) (b ∷ t) = (a == b) && same s t
same _ _ = false

-- Whether a word is in a list: `$u.indexOf(list, word) != -1`, `$u.contains(list, word)`.
abbrev pub contains : List Text → Text → Bool
contains [] w = false
contains (x ∷ xs) w = same x w || contains xs w

abbrev pub begins : (prefix text : Text) → Bool
begins [] t = true
begins (a ∷ p) [] = false
begins (a ∷ p) (b ∷ t) = (a == b) && begins p t

-- `text.indexOf(part) > -1`
abbrev pub has : (text part : Text) → Bool
has [] part = begins part []
has (c ∷ text) part = begins part (c ∷ text) || has text part
