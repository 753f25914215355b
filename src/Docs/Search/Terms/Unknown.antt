-- ===== src/Docs/Search/Terms/Unknown.antt =====
-- What `performTermsSearch` finds when the index does not know a word.
use forwarding_explorer.Base.{
  ◌<◌, ◌≤◌, ◌≡◌, ◌≢◌, refl, ap, true, none, List, [], ◌∷◌, ◌==◌, ==_iff, length, All, arith,
  Bool-cases, inl, inr,
}
use forwarding_explorer.Docs.Text.{Text, same, contains}
use forwarding_explorer.Docs.Text.Laws.{same-eq}
use forwarding_explorer.Docs.Search.{Index}
use forwarding_explorer.Docs.Search.Terms.{
  FileMap, ScoreMap, is_unknown, required, check_files, perform_terms_search,
}
use forwarding_explorer.Docs.Search.Terms.FileLists.{
  lookup, known, hits, required-IsOrdered, lookup-required,
}
use forwarding_explorer.Docs.Search.Terms.Matches.{AreOnce, length-hits, entries}

length-known : (index : Index) (words : List Text) → length (known index words) ≤ length words
length-known index [] = omega arith
length-known index (word ∷ words) = ground (arith, length-known index words)

unknown-shorter :
    (index : Index) (words : List Text) (word : Text)
    → contains words word ≡ true
    → is_unknown index word ≡ true
    → length (known index words) < length words
unknown-shorter index [] word c u = absurd cc
unknown-shorter index (w ∷ words) word c u = elim (Bool-cases (same w word)) [
  | inl e ↦ let here : is_unknown index w ≡ true = rw (same-eq w word e) u in rw here omega arith
  | inr e ↦
      let later = unknown-shorter index words word (ground arith) u in
      elim (Bool-cases (is_unknown index w)) [
        | inl here ↦ rw here omega arith
        | inr here ↦ rw here omega arith
      ]
]

module _ (index : Index) where
  check_files-nothing :
      (words excluded : List Text) (scores : ScoreMap) (map_of : FileMap)
      → All (λ entry. length (entry.1) ≢ length words) map_of
      → check_files index words excluded scores map_of ≡ []
  check_files-nothing words excluded scores [] h = refl
  check_files-nothing words excluded scores ((file, list) ∷ rest) (h, hs) =
      elim (Bool-cases (length list == length words)) [
        | inl e ↦ absurd (h ((==_iff (length list) (length words)).0 e))
        | inr e ↦ rw e (check_files-nothing words excluded scores rest hs)
      ]

  -- With a term that the index does not know, nothing is found, if the index has no file twice for
  -- one of the terms before the first such term.
  pub perform_terms_search-unknown :
      (words excluded : List Text) (word : Text)
      → contains words word ≡ true
      → is_unknown index word ≡ true
      → AreOnce index (known index words)
      → perform_terms_search index words excluded ≡ []
  unfolding perform_terms_search
  perform_terms_search-unknown words excluded word c u o =
      let start : FileMap × ScoreMap = ([], λ file w. none) in
      let maps = required index words start in
      check_files-nothing words excluded maps.1 maps.0 (
        entries (λ file list. length list ≢ length words) maps.0
          (required-IsOrdered index words start.0 start.1 tt)
          (λ file p e.
            let size : length (lookup file maps.0) ≡ length (hits index file (known index words)) =
              ap length (lookup-required index file words start.0 start.1 tt) in
            let bound = length-hits index file (known index words) o in
            let short = unknown-shorter index words word c u in omega arith))
