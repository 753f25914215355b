-- ===== src/Docs/Search/Terms/Excluded.antt =====
-- Which files the excluded terms take out of the results of `performTermsSearch`.
use forwarding_explorer.Base.{ℕ, ◌≡◌, ◌↔◌, true, false, List, [], ◌∷◌, All, arith}
use forwarding_explorer.Docs.Text.{Text}
use forwarding_explorer.Docs.Search.{FileIds, undefined, single, several, Index}
use forwarding_explorer.Docs.Search.Terms.{files_of, equals_key, has_excluded}

-- A word is listed for this file only.
abbrev pub IsAlone : FileIds → ℕ → Type 0
IsAlone ids file = files_of ids ≡ file ∷ []

-- No word of the list is listed for this file only, in the texts or in the titles.
abbrev pub NoneAlone : Index → List Text → ℕ → Type 0
NoneAlone index excluded file =
    All (λ word. (¬ IsAlone (index.terms word) file) × (¬ IsAlone (index.titleterms word) file))
      excluded

equals_key-IsAlone : (ids : FileIds) (file : ℕ) → (equals_key ids file ≡ true) ↔ IsAlone ids file
equals_key-IsAlone undefined file = ground arith
equals_key-IsAlone (single n) file = ground arith
equals_key-IsAlone (several []) file = ground arith
equals_key-IsAlone (several (n ∷ [])) file = ground arith
equals_key-IsAlone (several (n ∷ m ∷ files)) file = ground arith

pub has_excluded-NoneAlone :
    (index : Index) (excluded : List Text) (file : ℕ)
    → (has_excluded index excluded file ≡ false) ↔ NoneAlone index excluded file
has_excluded-NoneAlone index [] file = ground arith
has_excluded-NoneAlone index (word ∷ excluded) file =
    let a = equals_key-IsAlone (index.terms word) file in
    let b = equals_key-IsAlone (index.titleterms word) file in
    let c = has_excluded-NoneAlone index excluded file in ground arith
