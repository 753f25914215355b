-- ===== src/Docs/Search/Page/Display.antt =====
-- The order of the results on the page.
use forwarding_explorer.Base.{
  ◌≡◌, ◌≢◌, refl, sym, ap, ◌∙◌, false, some, List, [], ◌∷◌, ◌++◌, map, All, Bool-cases, inl, inr,
}
use forwarding_explorer.Docs.Text.{Text}
use forwarding_explorer.Docs.Search.{Result}
use forwarding_explorer.Docs.Search.Order.{number_ltb, greater, compare_results}
use forwarding_explorer.Docs.Search.Page.{Options, Item, display_item, display_items}

-- No result comes after a later one.
abbrev pub IsSorted : (lower : Text → Text) → List Result → Type 0
IsSorted lower [] = Unit
IsSorted lower (a ∷ results) =
    All (λ b. compare_results lower a b ≢ some greater) results × IsSorted lower results

-- No score is less than a later one.
abbrev pub BestFirst : List Result → Type 0
BestFirst [] = Unit
BestFirst (a ∷ results) = All (λ b. number_ltb a.score b.score ≡ false) results × BestFirst results

abbrev pub backwards : List Result → List Result
backwards [] = []
backwards (a ∷ results) = backwards results ++ a ∷ []

not_greater-score :
    (lower : Text → Text) (a b : Result)
    → compare_results lower a b ≢ some greater
    → number_ltb b.score a.score ≡ false
not_greater-score lower a b n = elim (Bool-cases (number_ltb b.score a.score)) [
  | inl e ↦ absurd (n (rw e refl))
  | inr e ↦ e
]

module _ (P : Result → Type 0) where
  All-push : (results : List Result) (a : Result) → All P results → P a → All P (results ++ a ∷ [])
  All-push [] a h p = (p, tt)
  All-push (b ∷ results) a (h, hs) p = (h, All-push results a hs p)

  All-backwards : (results : List Result) → All P results → All P (backwards results)
  All-backwards [] h = tt
  All-backwards (a ∷ results) (h, hs) = All-push (backwards results) a (All-backwards results hs) h

BestFirst-push :
    (results : List Result) (a : Result)
    → BestFirst results
    → All (λ b. number_ltb b.score a.score ≡ false) results
    → BestFirst (results ++ a ∷ [])
BestFirst-push [] a h p = (tt, tt)
BestFirst-push (b ∷ results) a (h, hs) (p, ps) = (
  All-push (λ c. number_ltb b.score c.score ≡ false) results a h p,
  BestFirst-push results a hs ps,
)

All-scores :
    (lower : Text → Text) (a : Result) (results : List Result)
    → All (λ b. compare_results lower a b ≢ some greater) results
    → All (λ b. number_ltb b.score a.score ≡ false) results
All-scores lower a [] h = tt
All-scores lower a (b ∷ results) (h, hs) =
    (not_greater-score lower a b h, All-scores lower a results hs)

backwards-BestFirst :
    (lower : Text → Text) (results : List Result)
    → IsSorted lower results
    → BestFirst (backwards results)
backwards-BestFirst lower [] s = tt
backwards-BestFirst lower (a ∷ results) (h, s) =
    BestFirst-push (backwards results) a (backwards-BestFirst lower results s) (
      All-backwards (λ b. number_ltb b.score a.score ≡ false) results
        (All-scores lower a results h))

map-push :
    (f : Result → Item) (results : List Result) (a : Result)
    → map f (results ++ a ∷ []) ≡ map f results ++ f a ∷ []
map-push f [] a = refl
map-push f (b ∷ results) a = ap (λ z. f b ∷ z) (map-push f results a)

display_items-map :
    (options : Options) (highlightstring : Text) (results : List Result)
    → display_items options highlightstring results
      ≡ map (display_item options highlightstring) (backwards results)
display_items-map options highlightstring [] = refl
display_items-map options highlightstring (a ∷ results) =
    ap (λ z. z ++ display_item options highlightstring a ∷ [])
      (display_items-map options highlightstring results)
    ∙ sym (map-push (display_item options highlightstring) (backwards results) a)

-- Sorted results are shown once each, from the last to the first, and no score is less than a later
-- one.
pub display_items-BestFirst :
    (lower : Text → Text) (options : Options) (highlightstring : Text) (results : List Result)
    → IsSorted lower results
    → (display_items options highlightstring results
        ≡ map (display_item options highlightstring) (backwards results))
      × BestFirst (backwards results)
display_items-BestFirst lower options highlightstring results s =
    (display_items-map options highlightstring results, backwards-BestFirst lower results s)
