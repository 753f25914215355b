-- ===== src/Docs/Search.antt =====
-- docs/_build/html/_static/searchtools.js: the index that the search reads, and what it finds.
pub mod Scorer
pub mod Query
pub mod Terms
pub mod Objects
pub mod Order
pub mod Page
pub mod Session
use forwarding_explorer.Base.{ℕ, Option, List}
use forwarding_explorer.Base.Int.{ℤ}
use forwarding_explorer.Docs.Text.{Text}

-- What a dictionary of the index has for a word: nothing, the number of a file, or an array of them.
pub data FileIds : Type 0 where
  undefined : FileIds
  single : ℕ → FileIds
  several : List ℕ → FileIds

-- `[file, type, priority, anchor]` in `objects[prefix][name]`
pub record Object : Type 0 where
  pub file : ℕ
  pub kind : ℕ
  pub priority : ℕ
  pub anchor : Text

-- `objnames[kind]`
pub record ObjectKind : Type 0 where
  pub short : Text
  pub long : Text

pub record Index : Type 0 where
  pub filenames : List Text
  pub titles : List Text
  pub terms : Text → FileIds
  pub titleterms : Text → FileIds
  pub objects : List (Text × List (Text × Object))
  pub objnames : ℕ → Option ObjectKind

-- `[filename, title, anchor, descr, score]`, with none where an array has no such index, where
-- `descr` is null, and for a score that is not a number
pub record Result : Type 0 where
  pub filename : Option Text
  pub title : Option Text
  pub anchor : Text
  pub descr : Option Text
  pub score : Option ℤ
