-- ===== src/Docs/Regex.antt =====
-- The regular expressions of Stemmer, and when JavaScript finds a match: some way of choosing the
-- repetitions fits.
use forwarding_explorer.Base.{
  ℕ, Bool, true, false, not, ◌&&◌, ◌||◌, Option, none, some, List, [], ◌∷◌, ◌==◌, if◌then◌else◌,
}
use mathlib.Core.Option
use forwarding_explorer.Docs.Text.{Text, same}

-- `[...]`, `[...]*` and `([...][...]*)?`
pub data Item : Type 0 where
  one : (ℕ → Bool) → Item
  many : (ℕ → Bool) → Item
  maybe : (first rest : ℕ → Bool) → Item

-- A test of what is left, after one character of a class, or after any number.
abbrev pub after_one : (ℕ → Bool) → (Text → Bool) → Text → Bool
after_one p k [] = false
after_one p k (c ∷ s) = p c && k s

abbrev pub after_many : (ℕ → Bool) → (Text → Bool) → Text → Bool
after_many p k [] = k []
after_many p k (c ∷ s) = k (c ∷ s) || (p c && after_many p k s)

-- `^` and the items, with the test of what is left.
abbrev pub found : List Item → (Text → Bool) → Text → Bool
found [] k s = k s
found (one p ∷ items) k s = after_one p (found items k) s
found (many p ∷ items) k s = after_many p (found items k) s
found (maybe p q ∷ items) k s = after_one p (after_many q (found items k)) s || found items k s

abbrev pub anything : Text → Bool
anything s = true

-- `$`
abbrev pub at_end : Text → Bool
at_end [] = true
at_end (c ∷ s) = false

-- `.`: no line terminator.
abbrev pub dot : ℕ → Bool
dot c = not ((c == 10) || (c == 13) || (c == 8232) || (c == 8233))

-- `/^(.+?)(...)$/`: the first group is as short as possible.
unfoldable pub lazily {ℓ} : {A : Type ℓ} → (Text → Option A) → Text → Option (Text × A)
lazily rest [] = none
lazily rest (c ∷ s) =
    let longer = Option.map (λ (stem, a). (c ∷ stem, a)) (lazily rest s) in
    if dot c then elim (rest s) [ none ↦ longer | some a ↦ some (c ∷ [], a) ] else none

-- One of the alternatives, with what it stands for in a table.
abbrev pub in_table {ℓ} : {A : Type ℓ} → List (Text × A) → Text → Option A
in_table [] s = none
in_table ((suffix, a) ∷ table) s = if same suffix s then some a else in_table table s

-- A match at the end, without `^`.
abbrev pub ends_with : (Text → Bool) → Text → Bool
ends_with p [] = p []
ends_with p (c ∷ s) = p (c ∷ s) || ends_with p s

-- `w.replace(/.$/, "")`
abbrev pub drop_last : Text → Text
drop_last [] = []
drop_last (c ∷ []) = if dot c then [] else c ∷ []
drop_last (c ∷ d ∷ s) = c ∷ drop_last (d ∷ s)
