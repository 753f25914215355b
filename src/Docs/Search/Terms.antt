-- ===== src/Docs/Search/Terms.antt =====
-- docs/_build/html/_static/searchtools.js: `Search.performTermsSearch`.
pub mod FileLists
pub mod Scores
pub mod Excluded
pub mod Matches
pub mod Unknown
use forwarding_explorer.Base.{
  ℕ, Bool, true, false, not, ◌&&◌, ◌||◌, Option, none, some, List, [], ◌∷◌, ◌++◌, map, ◌==◌, ltb,
  length, get_elem?, if◌then◌else◌,
}
use forwarding_explorer.Base.Int.{ℤ, pos}
use mathlib.Core.Option
use forwarding_explorer.Docs.Text.{Text, same}
use forwarding_explorer.Docs.Search.{FileIds, undefined, single, several, Index, Result}
use forwarding_explorer.Docs.Search.Scorer.{title_score, term_score}

-- `fileMap`: the keys are numbers, so `for ... in` goes through them in ascending order, in which
-- they are kept here.
abbrev pub FileMap : Type 0
FileMap = List (ℕ × List Text)

abbrev pub add_word : (file : ℕ) (word : Text) → FileMap → FileMap
add_word file word [] = (file, word ∷ []) ∷ []
add_word file word ((f, words) ∷ rest) =
    if file == f
    then (f, words ++ word ∷ []) ∷ rest
    else if ltb file f
    then (file, word ∷ []) ∷ (f, words) ∷ rest
    else (f, words) ∷ add_word file word rest

abbrev pub map_files : List ℕ → Text → FileMap → FileMap
map_files [] word file_map = file_map
map_files (file ∷ files) word file_map = map_files files word (add_word file word file_map)

-- `scoreMap[file][word]`
abbrev pub ScoreMap : Type 0
ScoreMap = ℕ → Text → Option ℕ

abbrev pub set_score : ℕ → Text → ℕ → ScoreMap → ScoreMap
set_score file word score scores f w = if (f == file) && same w word then some score else scores f w

abbrev pub set_scores : List ℕ → Text → ℕ → ScoreMap → ScoreMap
set_scores [] word score scores = scores
set_scores (file ∷ files) word score scores =
    set_scores files word score (set_score file word score scores)

abbrev pub is_undefined : FileIds → Bool
is_undefined undefined = true
is_undefined _ = false

abbrev pub files_of : FileIds → List ℕ
files_of undefined = []
files_of (single file) = file ∷ []
files_of (several files) = files

-- `files` for a word, after both entries of `_o`.
abbrev pub word_files : Index → Text → List ℕ
word_files index word = files_of (index.terms word) ++ files_of (index.titleterms word)

abbrev pub word_scores : Index → Text → ScoreMap → ScoreMap
word_scores index word scores =
    set_scores (files_of (index.titleterms word)) word title_score
      (set_scores (files_of (index.terms word)) word term_score scores)

abbrev pub is_unknown : Index → Text → Bool
is_unknown index word = is_undefined (index.terms word) && is_undefined (index.titleterms word)

-- The loop on the required terms, which an unknown word breaks.
abbrev pub required : Index → List Text → FileMap × ScoreMap → FileMap × ScoreMap
required index [] maps = maps
required index (word ∷ words) (file_map, scores) =
    if is_unknown index word
    then (file_map, scores)
    else required index words
        (map_files (word_files index word) word file_map, word_scores index word scores)

abbrev pub larger : Option ℕ → Option ℕ → Option ℕ
larger (some a) (some b) = some (if ltb a b then b else a)
larger _ _ = none

-- `$u.max` of a list that is not empty.
abbrev pub max_score : List (Option ℕ) → Option ℕ
max_score [] = none
max_score (score ∷ []) = score
max_score (score ∷ next ∷ scores) = larger score (max_score (next ∷ scores))

-- `files == file`, where `file` is a key, and an array of one number reads like it.
abbrev pub equals_key : FileIds → ℕ → Bool
equals_key (single n) file = n == file
equals_key (several (n ∷ [])) file = n == file
equals_key _ file = false

-- The other two tests, `$u.contains(files || [], file)`, never hold: the files are numbers, the key is
-- a string, and contains asks for the same type.
module _ (index : Index) where
  abbrev pub has_excluded : List Text → ℕ → Bool
  has_excluded [] file = false
  has_excluded (word ∷ excluded) file =
      equals_key (index.terms word) file
      || equals_key (index.titleterms word) file
      || has_excluded excluded file

  abbrev pub file_result : ScoreMap → ℕ → List Text → Result
  file_result scores file words = record {
    filename = get_elem? index.filenames file;
    title = get_elem? index.titles file;
    anchor = [];
    descr = none;
    score = Option.map pos (max_score (map (scores file) words));
  }

  abbrev pub check_files : (searchterms excluded : List Text) → ScoreMap → FileMap → List Result
  check_files searchterms excluded scores [] = []
  check_files searchterms excluded scores ((file, words) ∷ rest) =
      let later = check_files searchterms excluded scores rest in
      if not (length words == length searchterms)
      then later
      else if has_excluded excluded file
      then later
      else file_result scores file words ∷ later

  unfoldable pub perform_terms_search : (searchterms excluded : List Text) → List Result
  perform_terms_search searchterms excluded =
      let maps = required index searchterms ([], λ file word. none) in
      check_files searchterms excluded maps.1 maps.0
