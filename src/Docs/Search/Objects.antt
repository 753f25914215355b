-- ===== src/Docs/Search/Objects.antt =====
-- docs/_build/html/_static/searchtools.js: `Search.performObjectSearch`.
pub mod Hits
use forwarding_explorer.Base.{
  ℕ, suc, ◌+◌, ◌-◌, Bool, true, false, not, ◌&&◌, ◌||◌, Option, none, some, List, [], ◌∷◌, ◌++◌,
  ◌==◌, leb, get_elem?, if◌then◌else◌,
}
use forwarding_explorer.Base.Int.{ℤ, pos, negsuc}
use mathlib.Core.Option
use forwarding_explorer.Docs.Text.{Text, units, same, has}
use forwarding_explorer.Docs.Search.{Index, Object, ObjectKind, Result}
use forwarding_explorer.Docs.Search.Scorer.{
  obj_name_match, obj_partial_match, obj_prio, obj_prio_default,
}

-- `score + n`
abbrev pub add_score : ℕ → ℤ → ℤ
add_score n (pos m) = pos (n + m)
add_score n (negsuc m) = if leb (suc m) n then pos (n - suc m) else negsuc (m - n)

abbrev pub full_name : (prefix name : Text) → Text
full_name [] name = name
full_name (c ∷ prefix) name = (c ∷ prefix) ++ b'.' ∷ name

-- `parts[parts.length - 1]` of `fullname.split('.')`, where `part` is what has been read since the
-- last dot.
abbrev pub last_part : (part rest : Text) → Text
last_part part [] = part
last_part part (c ∷ rest) = if c == b'.' then last_part [] rest else last_part (part ++ c ∷ []) rest

-- How a missing string reads in a concatenation.
abbrev pub shown : Option Text → Text
shown none = units "undefined"
shown (some text) = text

abbrev pub name_score : (fullname object : Text) → ℕ
name_score fullname object =
    if same fullname object || same (last_part [] fullname) object
    then obj_name_match
    else if has (last_part [] fullname) object
    then obj_partial_match
    else 0

abbrev pub priority_score : ℕ → ℤ
priority_score priority = elim (obj_prio priority) [ none ↦ obj_prio_default | some score ↦ score ]

abbrev pub all_found : Text → List Text → Bool
all_found haystack [] = true
all_found haystack (term ∷ terms) = has haystack term && all_found haystack terms

abbrev pub full_anchor : ObjectKind → (fullname anchor : Text) → Text
full_anchor kind fullname anchor =
    if same anchor []
    then fullname
    else if same anchor (units "-")
    then kind.short ++ b'-' ∷ fullname
    else anchor

-- Results behind results, unless a TypeError ends the loops.
abbrev pub pushed : Option (List Result) → Option (List Result) → Option (List Result)
pushed (some results) (some more) = some (results ++ more)
pushed _ _ = none

-- `toLowerCase` and `_` are parameters.
module _ (lower translate : Text → Text) (index : Index) (object : Text)
    (otherterms : List Text) where
  abbrev pub haystack : (prefix name : Text) → Object → ObjectKind → Text
  haystack prefix name match kind = lower (
      prefix ++ b' ' ∷ name ++ b' ' ∷ kind.long ++ b' ' ∷ shown (get_elem? index.titles match.file))

  abbrev pub object_result : (fullname : Text) → Object → ObjectKind → Result
  object_result fullname match kind = record {
    filename = get_elem? index.filenames match.file;
    title = some fullname;
    anchor = b'#' ∷ full_anchor kind fullname match.anchor;
    descr =
        some (kind.long ++ translate (units ", in ") ++ shown (get_elem? index.titles match.file));
    score = some (add_score (name_score fullname object) (priority_score match.priority));
  }

  -- The body of the inner loop: what it pushes, and none for the TypeError of a kind that
  -- `objnames` has not.
  abbrev pub search_object : (prefix name : Text) → Object → Option (List Result)
  search_object prefix name match =
      if not (has (lower (full_name prefix name)) object)
      then some []
      else elim (index.objnames match.kind) [
        | none ↦ none
        | some kind ↦
            if all_found (haystack prefix name match kind) otherterms
            then some (object_result (full_name prefix name) match kind ∷ [])
            else some []
      ]

  abbrev pub search_names : (prefix : Text) → List (Text × Object) → Option (List Result)
  search_names prefix [] = some []
  search_names prefix ((name, match) ∷ names) =
      pushed (search_object prefix name match) (search_names prefix names)

  abbrev pub search_prefixes : List (Text × List (Text × Object)) → Option (List Result)
  search_prefixes [] = some []
  search_prefixes ((prefix, names) ∷ prefixes) =
      pushed (search_names prefix names) (search_prefixes prefixes)

  unfoldable pub perform_object_search : Option (List Result)
  perform_object_search = search_prefixes index.objects
