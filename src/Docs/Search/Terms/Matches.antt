-- ===== src/Docs/Search/Terms/Matches.antt =====
-- What `performTermsSearch` finds: the files that have all the words.
use forwarding_explorer.Base.{
  ℕ, zero, suc, ◌<◌, ◌≤◌, ◌≡◌, refl, sym, ◌↔◌, ap, ap₂, ◌∙◌, subst, Bool, false, not, ◌&&◌, none,
  some, List, [], ◌∷◌, map, ◌==◌, ==_iff, ==_self, length, length-append, All, count, arith,
  Bool-cases, inl, inr, if◌then◌else◌, get_elem?,
}
use mathlib.Core.Option
use forwarding_explorer.Base.Int.{pos}
use forwarding_explorer.Docs.Text.{Text}
use forwarding_explorer.Docs.Text.Laws.{Distinct}
use forwarding_explorer.Docs.Search.{Index, Result}
use forwarding_explorer.Docs.Search.Terms.{
  FileMap, ScoreMap, word_files, required, has_excluded, file_result, max_score, check_files,
  perform_terms_search,
}
use forwarding_explorer.Docs.Search.Terms.Excluded.{NoneAlone, has_excluded-NoneAlone}
use forwarding_explorer.Docs.Search.Terms.FileLists.{
  lookup, Above, Above-lookup, IsOrdered, repeat, known, hits, required-IsOrdered, lookup-required,
}
use forwarding_explorer.Docs.Search.Terms.Scores.{
  word_score, AreKnown, HasAll, required-scores, best, max_score-best,
}

-- The index has no file twice for one of the words, neither for the text, nor for the title, nor
-- for both.
abbrev pub AreOnce : Index → List Text → Type 0
AreOnce index = All (λ word. (file : ℕ) → count file (word_files index word) ≤ 1)

length-repeat : (n : ℕ) (word : Text) → length (repeat n word) ≡ n
length-repeat zero word = refl
length-repeat (suc n) word = omega (arith, length-repeat n word)

pub length-hits :
    (index : Index) (file : ℕ) (words : List Text)
    → AreOnce index words
    → length (hits index file words) ≤ length words
length-hits index file [] o = omega arith
length-hits index file (word ∷ words) (o, os) =
    let n = count file (word_files index word) in
    omega (
      arith,
      length-append (repeat n word) (hits index file words),
      length-repeat n word,
      o file,
      length-hits index file words os,
    )

-- A file that has been hit as often as there are words has all of them.
length-hits-HasAll :
    (index : Index) (file : ℕ) (words : List Text)
    → AreOnce index words
    → length (hits index file words) ≡ length words
    → HasAll index file words
length-hits-HasAll index file [] o e = tt
length-hits-HasAll index file (word ∷ words) (o, os) e =
    let n = count file (word_files index word) in
    let bound = length-hits index file words os in
    let total = length-append (repeat n word) (hits index file words) in
    let this = length-repeat n word in
    let once = o file in (omega arith, length-hits-HasAll index file words os (omega arith))

HasAll-hits :
    (index : Index) (file : ℕ) (words : List Text)
    → AreOnce index words
    → HasAll index file words
    → hits index file words ≡ words
HasAll-hits index file [] o h = refl
HasAll-hits index file (word ∷ words) (o, os) (h, hs) =
    let one : count file (word_files index word) ≡ 1 = omega (arith, o file) in
    rw (one, HasAll-hits index file words os hs) refl

AreKnown-known :
    (index : Index) (words : List Text) → AreKnown index words → known index words ≡ words
AreKnown-known index [] k = refl
AreKnown-known index (word ∷ words) (k, ks) = rw (k, AreKnown-known index words ks) refl

-- The files whose list is as long as `n`, and that have no excluded word.
abbrev matches : (ℕ → Bool) → ℕ → FileMap → List ℕ
matches excluded n [] = []
matches excluded n ((file, words) ∷ rest) =
    if (length words == n) && not (excluded file)
    then file ∷ matches excluded n rest
    else matches excluded n rest

abbrev pub Ascending : List ℕ → Type 0
Ascending [] = Unit
Ascending (x ∷ xs) = All (λ y. x < y) xs × Ascending xs

matches-Above :
    (excluded : ℕ → Bool) (n a : ℕ) (map : FileMap)
    → Above a map
    → All (λ y. a < y) (matches excluded n map)
matches-Above excluded n a [] h = tt
matches-Above excluded n a ((file, words) ∷ rest) (h, hs) =
    ground (arith, matches-Above excluded n a rest hs)

matches-Ascending :
    (excluded : ℕ → Bool) (n : ℕ) (map : FileMap)
    → IsOrdered map
    → Ascending (matches excluded n map)
matches-Ascending excluded n [] o = tt
matches-Ascending excluded n ((file, words) ∷ rest) (h, p, o) =
    ground (arith, matches-Above excluded n file rest h, matches-Ascending excluded n rest o)

count-matches :
    (excluded : ℕ → Bool) (n file : ℕ) (map : FileMap)
    → 0 < n
    → IsOrdered map
    → count file (matches excluded n map)
      ≡ (if (length (lookup file map) == n) && not (excluded file) then 1 else 0)
count-matches excluded n file [] p o = ground arith
count-matches excluded n file ((f, words) ∷ rest) p (h, q, o) = elim (Bool-cases (file == f)) [
  | inl e ↦
      let eq : file ≡ f = (==_iff file f).0 e in
      let gone : length (lookup f rest) ≡ 0 = ap length (Above-lookup f rest h) in
      let later = count-matches excluded n f rest p o in
      let none_later : count f (matches excluded n rest) ≡ 0 = ground arith in
      rw (eq, ==_self f) ground (arith, ==_self f)
  | inr e ↦ rw e ground (arith, count-matches excluded n file rest p o)
]

head_words : (f : ℕ) (words : List Text) (rest : FileMap) → lookup f ((f, words) ∷ rest) ≡ words
head_words f words rest = rw (==_self f) refl

tail_words :
    (f : ℕ) (words : List Text) (rest : FileMap)
    → Above f rest
    → (g : ℕ) → 0 < length (lookup g rest)
    → lookup g ((f, words) ∷ rest) ≡ lookup g rest
tail_words f words rest a g l = elim (Bool-cases (g == f)) [
  | inl e ↦
      let gone : length (lookup g rest) ≡ 0 = rw ((==_iff g f).0 e, Above-lookup f rest a) refl in
      absurd (omega arith)
  | inr e ↦ rw e refl
]

-- Every entry is what `lookup` finds.
pub entries :
    (P : ℕ → List Text → Type 0) (map : FileMap)
    → IsOrdered map
    → ((file : ℕ) → 0 < length (lookup file map) → P file (lookup file map))
    → All (λ entry. P entry.0 entry.1) map
entries P [] o h = tt
entries P ((f, words) ∷ rest) (a, p, o) h = (
  subst (λ w. P f w) (head_words f words rest)
      (h f (subst (λ w. 0 < length w) (sym (head_words f words rest)) p)),
  entries P rest o (λ g l.
      subst (λ w. P g w) (tail_words f words rest a g l)
        (h g (subst (λ w. 0 < length w) (sym (tail_words f words rest a g l)) l))),
)

matches-HasAll :
    (index : Index) (excluded : ℕ → Bool) (file : ℕ) (word : Text) (words : List Text)
    (map_of : FileMap)
    → IsOrdered map_of
    → lookup file map_of ≡ hits index file (word ∷ words)
    → AreOnce index (word ∷ words)
    → (0 < count file (matches excluded (length (word ∷ words)) map_of))
      ↔ (HasAll index file (word ∷ words) × (excluded file ≡ false))
matches-HasAll index excluded file word words map_of ordered e o =
    let n = length (word ∷ words) in
    let number = count-matches excluded n file map_of (omega arith) ordered in
    let size : length (lookup file map_of) ≡ length (hits index file (word ∷ words)) =
      ap length e in
    (
      λ p.
          let full : length (hits index file (word ∷ words)) ≡ n = ground arith in
          (length-hits-HasAll index file (word ∷ words) o full, ground arith),
      λ (h, x).
          let full : length (hits index file (word ∷ words)) ≡ n =
            ap length (HasAll-hits index file (word ∷ words) o h) in
          ground arith,
    )

-- A file as a result.
abbrev pub found_file : Index → List Text → ℕ → Result
found_file index words file = record {
  filename = get_elem? index.filenames file;
  title = get_elem? index.titles file;
  anchor = [];
  descr = none;
  score = some (pos (best (map (word_score index file) words)));
}

module _ (index : Index) where
  check_files-matches :
      (words excluded : List Text) (scores : ScoreMap) (map_of : FileMap)
      → All
          (λ entry.
            length (entry.1) ≡ length words
            → file_result index scores entry.0 entry.1 ≡ found_file index words entry.0)
          map_of
      → check_files index words excluded scores map_of
        ≡ map (found_file index words) (matches (has_excluded index excluded) (length words) map_of)
  check_files-matches words excluded scores [] h = refl
  check_files-matches words excluded scores ((file, list) ∷ rest) (h, hs) =
      let later = check_files-matches words excluded scores rest hs in
      elim (Bool-cases (length list == length words)) [
        | inl e ↦ elim (Bool-cases (has_excluded index excluded file)) [
          | inl x ↦ rw (e, x) later
          | inr x ↦
              rw (e, x) (ap₂ (λ r rs. r ∷ rs) (h ((==_iff (length list) (length words)).0 e)) later)
        ]
        | inr e ↦ rw e later
      ]

  file_result-found :
      (word : Text) (words : List Text) (file : ℕ) (scores : ScoreMap)
      → map (scores file) (word ∷ words) ≡ map (λ w. some (word_score index file w)) (word ∷ words)
      → file_result index scores file (word ∷ words) ≡ found_file index (word ∷ words) file
  file_result-found word words file scores e =
      ap
        (λ score. record {
          filename = get_elem? index.filenames file;
          title = get_elem? index.titles file;
          anchor = [];
          descr = none;
          score = Option.map pos score;
        })
        (ap max_score e ∙ max_score-best (word_score index file) word words)

  -- For terms of which none is repeated and all are known to the index, which has no file twice
  -- for one of them, the results are, in the order of their numbers, the files that have every term,
  -- less those that an excluded term has as its only text or its only title, each with its file name
  -- and title and with the best score of a term: 15 where a term is in the title, and 5 otherwise.
  pub perform_terms_search_lem :
      (word : Text) (words excluded : List Text)
      → Distinct (word ∷ words)
      → AreKnown index (word ∷ words)
      → AreOnce index (word ∷ words)
      → (files : List ℕ) × Ascending files
        × (perform_terms_search index (word ∷ words) excluded
            ≡ map (found_file index (word ∷ words)) files)
        × ((file : ℕ)
            → (0 < count file files)
              ↔ (HasAll index file (word ∷ words) × NoneAlone index excluded file))
  unfolding perform_terms_search
  perform_terms_search_lem word words excluded d k o =
      let all = word ∷ words in
      let start : FileMap × ScoreMap = ([], λ file w. none) in
      let maps = required index all start in
      let ordered = required-IsOrdered index all start.0 start.1 tt in
      let is_out = has_excluded index excluded in
      let listed_words : (file : ℕ) → lookup file maps.0 ≡ hits index file all = λ file.
        lookup-required index file all start.0 start.1 tt
        ∙ ap (hits index file) (AreKnown-known index all k) in
      let entry : (file : ℕ)
          → 0 < length (lookup file maps.0)
          → length (lookup file maps.0) ≡ length all
          → file_result index maps.1 file (lookup file maps.0) ≡ found_file index all file =
        λ file p e.
          let h = length-hits-HasAll index file all o (sym (ap length (listed_words file)) ∙ e) in
          ap (file_result index maps.1 file) (listed_words file ∙ HasAll-hits index file all o h)
          ∙ file_result-found word words file maps.1
              (required-scores index all start.0 start.1 file k d h) in
      (
        matches is_out (length all) maps.0,
        matches-Ascending is_out (length all) maps.0 ordered,
        check_files-matches all excluded maps.1 maps.0 (
            entries
              (λ file list.
                length list ≡ length all
                → file_result index maps.1 file list ≡ found_file index all file)
              maps.0 ordered entry),
        λ file.
            let both =
              matches-HasAll index is_out file word words maps.0 ordered (listed_words file) o in
            let alone = has_excluded-NoneAlone index excluded file in
            (λ p. let (h, x) = both.0 p in (h, alone.0 x), λ (h, x). both.1 (h, alone.1 x)),
      )
