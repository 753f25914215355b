-- ===== src/Docs/Search/Terms/Scores.antt =====
-- What `scoreMap` has for a file after the loop of `performTermsSearch` on the required terms.
use forwarding_explorer.Base.{
  ℕ, ◌<◌, ◌≡◌, refl, sym, ap₂, ◌∙◌, subst, Bool, false, ◌&&◌, some, List, [], ◌∷◌, map, ◌==◌, ltb,
  All, count, count-append, arith, Bool-cases, inl, inr, if◌then◌else◌,
}
use forwarding_explorer.Docs.Text.{Text, same, contains}
use forwarding_explorer.Docs.Text.Laws.{same_self, same_sym, Distinct}
use forwarding_explorer.Docs.Search.{Index}
use forwarding_explorer.Docs.Search.Scorer.{title_score, term_score}
use forwarding_explorer.Docs.Search.Terms.{
  FileMap, ScoreMap, set_score, set_scores, files_of, word_files, word_scores, is_unknown, required,
  map_files, max_score,
}

abbrev pub listed : List ℕ → ℕ → Bool
listed files file = ltb 0 (count file files)

set_scores-value :
    (files : List ℕ) (word : Text) (score : ℕ) (scores : ScoreMap) (f : ℕ) (w : Text)
    → set_scores files word score scores f w
      ≡ (if listed files f && same w word then some score else scores f w)
set_scores-value [] word score scores f w = refl
set_scores-value (file ∷ files) word score scores f w =
    let later = set_scores-value files word score (set_score file word score scores) f w in
    elim (Bool-cases (f == file)) [
      | inl e ↦ rw (later, e) ground arith
      | inr e ↦ rw (later, e) ground arith
    ]

-- The score of a word for a file: a match in the title outdoes one in the text.
abbrev pub word_score : Index → ℕ → Text → ℕ
word_score index file word =
    if listed (files_of (index.titleterms word)) file then title_score else term_score

word_scores-other :
    (index : Index) (word : Text) (scores : ScoreMap) (f : ℕ) (w : Text)
    → same w word ≡ false
    → word_scores index word scores f w ≡ scores f w
word_scores-other index word scores f w n = ground (
  arith,
  set_scores-value (files_of (index.titleterms word)) word title_score
      (set_scores (files_of (index.terms word)) word term_score scores) f w,
  set_scores-value (files_of (index.terms word)) word term_score scores f w,
)

word_scores-here :
    (index : Index) (word : Text) (scores : ScoreMap) (f : ℕ)
    → 0 < count f (word_files index word)
    → word_scores index word scores f word ≡ some (word_score index f word)
word_scores-here index word scores f p = ground (
  arith,
  same_self word,
  count-append f (files_of (index.terms word)) (files_of (index.titleterms word)),
  set_scores-value (files_of (index.titleterms word)) word title_score
      (set_scores (files_of (index.terms word)) word term_score scores) f word,
  set_scores-value (files_of (index.terms word)) word term_score scores f word,
)

abbrev pub AreKnown : Index → List Text → Type 0
AreKnown index = All (λ word. is_unknown index word ≡ false)

abbrev pub HasAll : Index → ℕ → List Text → Type 0
HasAll index file = All (λ word. 0 < count file (word_files index word))

required-other :
    (index : Index) (words : List Text) (file_map : FileMap) (scores : ScoreMap) (f : ℕ) (w : Text)
    → AreKnown index words
    → contains words w ≡ false
    → (required index words (file_map, scores)).1 f w ≡ scores f w
required-other index [] file_map scores f w k n = refl
required-other index (word ∷ words) file_map scores f w (k, ks) n = rw k (
    required-other index words (map_files (word_files index word) word file_map)
      (word_scores index word scores) f w ks (ground arith)
    ∙ word_scores-other index word scores f w (ground (arith, same_sym w word)))

pub required-scores :
    (index : Index) (words : List Text) (file_map : FileMap) (scores : ScoreMap) (f : ℕ)
    → AreKnown index words
    → Distinct words
    → HasAll index f words
    → map ((required index words (file_map, scores)).1 f) words
      ≡ map (λ w. some (word_score index f w)) words
required-scores index [] file_map scores f k d h = refl
required-scores index (word ∷ words) file_map scores f (k, ks) (m, d) (h, hs) =
    let maps : FileMap × ScoreMap =
      (map_files (word_files index word) word file_map, word_scores index word scores) in
    let step : required index (word ∷ words) (file_map, scores) ≡ required index words maps =
      rw k refl in
    let here =
      required-other index words maps.0 maps.1 f word ks m
      ∙ word_scores-here index word scores f h in
    let later = required-scores index words maps.0 maps.1 f ks d hs in
    subst (λ r. map (r.1 f) (word ∷ words) ≡ map (λ w. some (word_score index f w)) (word ∷ words))
      (sym step) (ap₂ (λ a b. a ∷ b) here later)

abbrev pub best : List ℕ → ℕ
best [] = 0
best (n ∷ ns) = if ltb n (best ns) then best ns else n

pub max_score-best :
    (g : Text → ℕ) (word : Text) (words : List Text)
    → max_score (map (λ w. some (g w)) (word ∷ words)) ≡ some (best (map g (word ∷ words)))
max_score-best g word [] = ground arith
max_score-best g word (next ∷ words) = rw (max_score-best g next words) refl
