-- ===== src/Docs/Search/Query/Read.antt =====
-- What `Search.query` reads in a query.
use forwarding_explorer.Base.{
  ◌≡◌, refl, sym, ap, ◌∙◌, subst, ◌≢◌, ==_iff, false, true, false, ◌||◌, some, List, [], ◌∷◌, ◌++◌,
  append_assoc, append-nil, map, ◌==◌, All, arith, Bool-cases, inl, inr, if◌then◌else◌,
}
use forwarding_explorer.Docs.Text.{Text, same, contains}
use forwarding_explorer.Docs.Text.Laws.{same-eq, contains-append, Distinct, Distinct-push}
use forwarding_explorer.Docs.Stemmer.{stem_word}
use forwarding_explorer.Docs.Stemmer.Length.{first, stem_word-Fits}
use forwarding_explorer.Docs.Splitter.{split_chars, split_query}
use forwarding_explorer.Docs.Splitter.Words.{IsWord, split_query-AreWords}
use forwarding_explorer.Docs.Search.Query.{
  Terms, add_new, select_list, is_empty, is_skipped, read_word, read_words, read_query,
}

module _ (lower : Text → Text) where
  -- The words that are searched, in lower case.
  abbrev pub searched : List Text → List Text
  searched [] = []
  searched (word ∷ words) =
      if is_skipped lower word then searched words else lower word ∷ searched words

  -- The lists after some words, from what they were before.
  pub record Reads (t : Terms) (words : List Text) (r : Terms) : Type 0 where
    excluded : r.excluded ≡ t.excluded
    objectterms : r.objectterms ≡ t.objectterms ++ map lower words
    hlterms : r.hlterms ≡ t.hlterms ++ searched words
    distinct : Distinct t.searchterms → Distinct r.searchterms
    stems :
        (x : Text)
        → contains r.searchterms x
          ≡ contains t.searchterms x || contains (map stem_word (searched words)) x

contains-add_new :
    (w : Text) (list : List Text) (x : Text)
    → contains (add_new w list) x ≡ contains list x || same w x
contains-add_new w list x = elim (Bool-cases (same w x)) [
  | inl e ↦ elim (Bool-cases (contains list w)) [
    | inl c ↦
        let cx : contains list x ≡ true = subst (λ z. contains list z ≡ true) (same-eq w x e) c in
        ground arith
    | inr c ↦ ground (arith, contains-append list (w ∷ []) x)
  ]
  | inr e ↦ ground (arith, contains-append list (w ∷ []) x)
]

add_new-Distinct : (w : Text) (list : List Text) → Distinct list → Distinct (add_new w list)
add_new-Distinct w list d = elim (Bool-cases (contains list w)) [
  | inl c ↦ rw c d
  | inr c ↦ rw c (Distinct-push list w d c)
]

-- A stem that does not begin with "-" is a term to search.
select_list-search :
    (lower_word stem : Text) (t : Terms)
    → first stem ≢ some b'-'
    → select_list lower_word stem t ≡ record t {
      searchterms = add_new stem t.searchterms;
      hlterms = t.hlterms ++ lower_word ∷ [];
    }
select_list-search lower_word [] t n = refl
select_list-search lower_word (c ∷ stem) t n = elim (Bool-cases (c == b'-')) [
  | inl e ↦ absurd (n (ap some ((==_iff c b'-').0 e)))
  | inr e ↦ rw e refl
]

first-stem_word : (w : Text) → first w ≢ some b'-' → first (stem_word w) ≢ some b'-'
unfolding stem_word
first-stem_word [] n e = absurd cc
first-stem_word (c ∷ w) n e = n (sym ((stem_word-Fits (c ∷ w) (omega arith)).2) ∙ e)

IsWord-not_excluded : (w : Text) → IsWord w → first w ≢ some b'-'
unfolding split_chars
IsWord-not_excluded [] (p, u) e = absurd (omega arith)
IsWord-not_excluded (c ∷ w) (p, (u, us)) e =
    let h : c ≡ b'-' = cc in
    let splits : split_chars b'-' ≡ false = subst (λ z. split_chars z ≡ false) h u in absurd cc

IsWord-is_empty : (w : Text) → IsWord w → is_empty w ≡ false
IsWord-is_empty [] (p, u) = absurd (omega arith)
IsWord-is_empty (c ∷ w) i = refl

module _ (lower : Text → Text)
    (lower-first : (w : Text) → first (lower w) ≡ some b'-' → first w ≡ some b'-') where
  read_word-Reads :
      (word : Text) (t : Terms) → IsWord word → Reads lower t (word ∷ []) (read_word lower word t)
  read_word-Reads word t i = elim (Bool-cases (is_skipped lower word)) [
    | inl s ↦
        rw (IsWord-is_empty word i, s)
          (record {
            excluded = refl;
            objectterms = refl;
            hlterms = rw s (sym (append-nil t.hlterms));
            distinct = λ d. d;
            stems = λ x. rw s ground arith;
          })
    | inr s ↦
        let n =
          first-stem_word (lower word) (λ e. IsWord-not_excluded word i (lower-first word e)) in
        rw
          (
            IsWord-is_empty word i,
            s,
            select_list-search (lower word) (stem_word (lower word))
                (record t { objectterms = t.objectterms ++ lower word ∷ [] }) n,
          )
          (record {
            excluded = refl;
            objectterms = refl;
            hlterms = rw s refl;
            distinct = add_new-Distinct (stem_word (lower word)) t.searchterms;
            stems =
                λ x. rw s ground (arith, contains-add_new (stem_word (lower word)) t.searchterms x);
          })
  ]

  searched-cons :
      (word : Text) (words : List Text)
      → searched lower (word ∷ words) ≡ searched lower (word ∷ []) ++ searched lower words
  searched-cons word words = elim (Bool-cases (is_skipped lower word)) [
    | inl s ↦ rw s refl
    | inr s ↦ rw s refl
  ]

  map-append :
      (front back : List Text)
      → map stem_word (front ++ back) ≡ map stem_word front ++ map stem_word back
  map-append [] back = refl
  map-append (w ∷ front) back = ap (λ z. stem_word w ∷ z) (map-append front back)

  Reads-cons :
      (word : Text) (words : List Text) (t u v : Terms)
      → Reads lower t (word ∷ []) u
      → Reads lower u words v
      → Reads lower t (word ∷ words) v
  Reads-cons word words t u v a b = record {
    excluded = b.excluded ∙ a.excluded;
    objectterms =
        rw (b.objectterms, a.objectterms)
          (append_assoc t.objectterms (lower word ∷ []) (map lower words));
    hlterms =
        rw (b.hlterms, a.hlterms, searched-cons word words)
          (append_assoc t.hlterms (searched lower (word ∷ [])) (searched lower words));
    distinct = λ d. b.distinct (a.distinct d);
    stems = λ x.
        rw
          (
            b.stems x,
            a.stems x,
            searched-cons word words,
            map-append (searched lower (word ∷ [])) (searched lower words),
            contains-append (map stem_word (searched lower (word ∷ [])))
                (map stem_word (searched lower words)) x,
          )
          ground arith;
  }

  read_words-Reads :
      (words : List Text) (t : Terms)
      → All IsWord words
      → Reads lower t words (read_words lower words t)
  read_words-Reads [] t a = record {
    excluded = refl;
    objectterms = sym (append-nil t.objectterms);
    hlterms = sym (append-nil t.hlterms);
    distinct = λ d. d;
    stems = λ x. ground arith;
  }
  read_words-Reads (word ∷ words) t (i, a) =
      Reads-cons word words t (read_word lower word t)
        (read_words lower words (read_word lower word t)) (read_word-Reads word t i)
        (read_words-Reads words (read_word lower word t) a)

  -- If lower case makes no word begin with "-", a query is read into: no excluded terms; all its
  -- words in lower case, for the search of objects; those of them that are not skipped, to be
  -- highlighted; and the stems of these, each once, to be searched.
  pub read_query_lem :
      (query : Text)
      → ((read_query lower query).excluded ≡ [])
        × ((read_query lower query).objectterms ≡ map lower (split_query query))
        × ((read_query lower query).hlterms ≡ searched lower (split_query query))
        × Distinct (read_query lower query).searchterms
        × ((x : Text)
            → contains (read_query lower query).searchterms x
              ≡ contains (map stem_word (searched lower (split_query query))) x)
  unfolding read_query
  read_query_lem query =
      let start : Terms = record {
        searchterms = [];
        excluded = [];
        hlterms = [];
        objectterms = [];
      } in
      let r = read_words-Reads (split_query query) start ((split_query-AreWords query).0) in
      (r.excluded, r.objectterms, r.hlterms, r.distinct tt, r.stems)
