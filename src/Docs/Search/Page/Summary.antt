-- ===== src/Docs/Search/Page/Summary.antt =====
-- Which part of a page the summary of a result shows.
use forwarding_explorer.Base.{
  ℕ, zero, suc, ◌+◌, ◌≤◌, ◌<◌, ◌≡◌, refl, ap, false, none, some, List, [], ◌∷◌, ◌++◌, ◌==◌, length,
  take, arith,
}
use forwarding_explorer.Docs.Text.{Text, units}
use forwarding_explorer.Docs.Search.Page.{index_of, keyword_start, excerpt_start, excerpt}

keyword_start-append :
    (lower : Text → Text) (text : Text) (keywords : List Text) (keyword : Text) (start i : ℕ)
    → index_of text (lower keyword) ≡ some i
    → keyword_start lower text (keywords ++ keyword ∷ []) start ≡ i
keyword_start-append lower text [] keyword start i e = rw (e, keyword_start) refl
keyword_start-append lower text (k ∷ keywords) keyword start i e =
    keyword_start-append lower text keywords keyword
      (elim (index_of text (lower k)) [ none ↦ start | some j ↦ j ]) i e

-- If the last keyword occurs, the excerpt of 240 characters begins at most 120 before its first
-- occurrence, and not behind it.
pub excerpt_start-keyword :
    (lower : Text → Text) (text : Text) (keywords : List Text) (keyword : Text) (i : ℕ)
    → index_of (lower text) (lower keyword) ≡ some i
    → (excerpt_start lower text (keywords ++ keyword ∷ []) ≤ i)
      × (i ≤ excerpt_start lower text (keywords ++ keyword ∷ []) + 120)
excerpt_start-keyword lower text keywords keyword i e =
    omega (arith, keyword_start-append lower (lower text) keywords keyword 0 i e)

take-all : (n : ℕ) (text : Text) → length text ≤ n → take n text ≡ text
take-all zero [] l = refl
take-all zero (c ∷ text) l = absurd (omega arith)
take-all (suc n) [] l = refl
take-all (suc n) (c ∷ text) l = ap (λ t. c ∷ t) (take-all n text (omega arith))

-- A text shorter than 240 characters whose last keyword occurs among the first 121 is shown whole,
-- with "..." behind it.
pub excerpt-short :
    (lower trim : Text → Text) (text : Text) (keywords : List Text) (keyword : Text) (i : ℕ)
    → index_of (lower text) (lower keyword) ≡ some i
    → i ≤ 120
    → length text < 240
    → excerpt lower trim text (keywords ++ keyword ∷ []) ≡ trim text ++ units "..."
unfolding excerpt
excerpt-short lower trim text keywords keyword i e l short =
    let start : excerpt_start lower text (keywords ++ keyword ∷ []) ≡ 0 =
      omega (arith, keyword_start-append lower (lower text) keywords keyword 0 i e) in
    let more : ((240 == length text) ≡ false) = ground arith in
    let whole = take-all 240 text (omega arith) in rw start (rw (whole, more) refl)
