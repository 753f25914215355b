-- ===== src/Docs/Splitter.antt =====
-- docs/_build/html/_static/searchtools.js: `splitChars` and `splitQuery`, which language_data.js
-- repeats.
mod Tables
pub mod Pieces
pub mod Words
use forwarding_explorer.Base.{
  ℕ, zero, suc, ◌-◌, Bool, true, false, ◌&&◌, ◌||◌, Option, none, some, List, [], ◌∷◌, ◌++◌, ◌==◌,
  leb, take, drop, if◌then◌else◌,
}
use forwarding_explorer.Docs.Text.{Text}
use forwarding_explorer.Docs.Splitter.Tables.{singles, ranges}

abbrev among : List ℕ → ℕ → Bool
among [] c = false
among (s ∷ rest) c = (c == s) || among rest c

abbrev within : List (ℕ × ℕ) → ℕ → Bool
within [] c = false
within ((start, end) ∷ rest) c = (leb start c && leb c end) || within rest c

-- `result` after both loops, as a test of a code unit.
unfoldable pub split_chars : ℕ → Bool
split_chars c = among singles c || within ranges c

-- `query.slice(start, end)`
abbrev pub slice : Text → ℕ → ℕ → Text
slice query start end = take (end - start) (drop start query)

-- One round of the loop, on `result` and on `start`, which is none for -1.
abbrev pub round : Text → ℕ → ℕ → List Text × Option ℕ → List Text × Option ℕ
round query i c (result, none) = if split_chars c then (result, none) else (result, some i)
round query i c (result, some start) =
    if split_chars c then (result ++ slice query start i ∷ [], none) else (result, some start)

-- The loop from `i` on, over what the query has there.
abbrev pub rounds : Text → ℕ → Text → List Text × Option ℕ → List Text × Option ℕ
rounds query i [] state = state
rounds query i (c ∷ rest) state = rounds query (suc i) rest (round query i c state)

abbrev pub last_piece : Text → List Text × Option ℕ → List Text
last_piece query (result, none) = result
last_piece query (result, some start) = result ++ drop start query ∷ []

unfoldable pub split_query : Text → List Text
split_query query = last_piece query (rounds query 0 query ([], none))
