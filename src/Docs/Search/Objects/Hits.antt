-- ===== src/Docs/Search/Objects/Hits.antt =====
-- The results of `performObjectSearch`: their titles and scores.
use forwarding_explorer.Base.{
  ℕ, zero, suc, ◌≤◌, ◌≡◌, refl, subst, true, Option, none, some, List, [], ◌∷◌, ◌++◌, All, arith,
  Bool-cases, Option-cases, inl, inr,
}
use forwarding_explorer.Base.Int.{ℤ, pos, negsuc}
use forwarding_explorer.Docs.Text.{Text, has}
use forwarding_explorer.Docs.Search.{Index, Object, ObjectKind, Result}
use forwarding_explorer.Docs.Search.Objects.{
  add_score, full_name, shown, name_score, priority_score, all_found, haystack, object_result,
  search_object, pushed, search_names, search_prefixes, perform_object_search,
}

pushed-some :
    (a b : Option (List Result)) (results : List Result)
    → pushed a b ≡ some results
    → (front : List Result) × (back : List Result) × (a ≡ some front)
      × (b ≡ some back)
      × (front ++ back ≡ results)
pushed-some (some front) (some back) results e = (front, back, refl, refl, ground arith)
pushed-some none b results e = absurd cc
pushed-some (some front) none results e = absurd cc

All-append :
    (P : Result → Type 0) (front back : List Result)
    → All P front
    → All P back
    → All P (front ++ back)
All-append P [] back f b = b
All-append P (x ∷ front) back (h, f) b = (h, All-append P front back f b)

-- `low <= score` and `score <= high`, for the bounds of a score.
abbrev pub IsScore : ℤ → Type 0
IsScore (pos n) = n ≤ 26
IsScore (negsuc n) = n ≤ 4

add_score-IsScore :
    (fullname object : Text) (priority : ℕ)
    → IsScore (add_score (name_score fullname object) (priority_score priority))
add_score-IsScore fullname object zero = ground arith
add_score-IsScore fullname object (suc zero) = ground arith
add_score-IsScore fullname object (suc (suc zero)) = ground arith
add_score-IsScore fullname object (suc (suc (suc n))) = ground arith

module _ (lower translate : Text → Text) (index : Index) (object : Text)
    (otherterms : List Text) where
  -- A result's title has the term, and its score is between -5 and 26.
  abbrev pub IsSound : Result → Type 0
  IsSound r =
      (has (lower (shown r.title)) object ≡ true)
      × ((score : ℤ) × (r.score ≡ some score) × IsScore score)

  abbrev result_of : (prefix name : Text) → Object → ObjectKind → Result
  result_of prefix name match kind =
      object_result lower translate index object otherterms (full_name prefix name) match kind

  abbrev found_object : (prefix name : Text) → Object → Option (List Result)
  found_object prefix name match =
      search_object lower translate index object otherterms prefix name match

  result_of-IsSound :
      (prefix name : Text) (match : Object) (kind : ObjectKind)
      → has (lower (full_name prefix name)) object ≡ true
      → IsSound (result_of prefix name match kind)
  result_of-IsSound prefix name match kind h = (
    h,
    (
      add_score (name_score (full_name prefix name) object) (priority_score match.priority),
      refl,
      add_score-IsScore (full_name prefix name) object match.priority,
    ),
  )

  search_object-IsSound :
      (prefix name : Text) (match : Object) (results : List Result)
      → found_object prefix name match ≡ some results
      → All IsSound results
  search_object-IsSound prefix name match results e =
      elim (Bool-cases (has (lower (full_name prefix name)) object)) [
        | inr h ↦
            let value : found_object prefix name match ≡ some [] = rw h refl in
            let same_results : [] ≡ results = cc in subst (All IsSound) same_results tt
        | inl h ↦ elim (Option-cases (index.objnames match.kind)) [
          | inl k ↦ let value : found_object prefix name match ≡ none = rw (h, k) refl in absurd cc
          | inr (kind, k) ↦
              elim (Bool-cases (
                all_found (haystack lower translate index object otherterms prefix name match kind)
                  otherterms)) [
                    | inl a ↦
                        let value : found_object prefix name match
                            ≡ some (result_of prefix name match kind ∷ []) =
                          rw (h, k, a) refl in
                        let same_results : result_of prefix name match kind ∷ [] ≡ results = cc in
                        subst (All IsSound) same_results
                          (result_of-IsSound prefix name match kind h, tt)
                    | inr a ↦
                        let value : found_object prefix name match ≡ some [] = rw (h, k, a) refl in
                        let same_results : [] ≡ results = cc in subst (All IsSound) same_results tt
                  ]
        ]
      ]

  search_names-IsSound :
      (prefix : Text) (names : List (Text × Object)) (results : List Result)
      → search_names lower translate index object otherterms prefix names ≡ some results
      → All IsSound results
  search_names-IsSound prefix [] results e =
      let same_results : [] ≡ results = cc in subst (All IsSound) same_results tt
  search_names-IsSound prefix ((name, match) ∷ names) results e =
      let (front, back, f, b, both) =
        pushed-some (found_object prefix name match)
          (search_names lower translate index object otherterms prefix names) results e in
      subst (All IsSound) both (
        All-append IsSound front back (search_object-IsSound prefix name match front f)
          (search_names-IsSound prefix names back b))

  search_prefixes-IsSound :
      (prefixes : List (Text × List (Text × Object))) (results : List Result)
      → search_prefixes lower translate index object otherterms prefixes ≡ some results
      → All IsSound results
  search_prefixes-IsSound [] results e =
      let same_results : [] ≡ results = cc in subst (All IsSound) same_results tt
  search_prefixes-IsSound ((prefix, names) ∷ prefixes) results e =
      let (front, back, f, b, both) =
        pushed-some (search_names lower translate index object otherterms prefix names)
          (search_prefixes lower translate index object otherterms prefixes) results e in
      subst (All IsSound) both (
        All-append IsSound front back (search_names-IsSound prefix names front f)
          (search_prefixes-IsSound prefixes back b))

  -- What a search for an object finds, if it does not raise, has the term in its title in lower
  -- case, and a score from -5 to 26.
  pub perform_object_search-IsSound :
      (results : List Result)
      → perform_object_search lower translate index object otherterms ≡ some results
      → All IsSound results
  unfolding perform_object_search
  perform_object_search-IsSound results e = search_prefixes-IsSound index.objects results e
