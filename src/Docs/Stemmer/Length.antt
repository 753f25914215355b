-- ===== src/Docs/Stemmer/Length.antt =====
-- `stemWord` never makes a word longer, nor empty, and keeps its first character.
use forwarding_explorer.Base.{
  ℕ, suc, ◌+◌, ◌≤◌, ◌<◌, ◌≡◌, refl, ◌∙◌, none, ◌++◌, Bool, true, ◌&&◌, Option, some, List, [], ◌∷◌,
  length, length-append, arith, leb, Option-cases, Bool-cases, inl, inr,
}
use forwarding_explorer.Docs.Text.{Text, units, same}
use forwarding_explorer.Docs.Regex.{lazily, in_table, ends_with, drop_last}
use forwarding_explorer.Docs.Stemmer.{
  step2list, step3list, step4list, entry, mgr0, s_v, is_double, begins_y, plural_rest, step1a,
  step1b_stem, step1b, replace_if, step1c, step2, step3, step4, step5_e, step5_ll, step5, steps,
  set_first, stem_word,
}

abbrev pub first : Text → Option ℕ
first [] = none
first (c ∷ w) = some c

-- A word `v` that `w` may become.
abbrev pub Fits : (w v : Text) → Type 0
Fits w v = (length v ≤ length w) × (0 < length v) × (first v ≡ first w)

first-append : (stem rest : Text) → 0 < length stem → first (stem ++ rest) ≡ first stem
first-append [] rest h = absurd (omega arith)
first-append (c ∷ stem) rest h = refl

first-drop_last : (w : Text) → 0 < length (drop_last w) → first (drop_last w) ≡ first w
first-drop_last [] h = refl
first-drop_last (c ∷ []) h = ground arith
first-drop_last (c ∷ d ∷ s) h = refl

same-length : (s t : Text) → same s t ≡ true → length s ≡ length t
same-length [] [] e = refl
same-length [] (b ∷ t) e = absurd cc
same-length (a ∷ s) [] e = absurd cc
same-length (a ∷ s) (b ∷ t) e = ground (arith, same-length s t)

-- Every entry of a table is `k` longer than what replaces it, at least.
abbrev shrinks : ℕ → List (Text × Text) → Bool
shrinks k [] = true
shrinks k ((suffix, replacement) ∷ table) =
    leb (length replacement + k) (length suffix) && shrinks k table

in_table-length :
    (k : ℕ) (table : List (Text × Text)) (t a : Text)
    → shrinks k table ≡ true
    → in_table table t ≡ some a
    → length a + k ≤ length t
in_table-length k [] t a h e = absurd cc
in_table-length k ((suffix, r) ∷ table) t a h e =
    ground (arith, same-length suffix t, in_table-length k table t a)

-- A word is split into a stem that is not empty and a rest.
lazily-length :
    (rest : Text → Option Text) (k : ℕ)
    → ((t a : Text) → rest t ≡ some a → length a + k ≤ length t)
    → (w stem a : Text) → lazily rest w ≡ some (stem, a)
    → (length stem + length a + k ≤ length w) × (0 < length stem) × (first stem ≡ first w)
unfolding lazily
lazily-length rest k short [] stem a e = absurd cc
lazily-length rest k short (c ∷ s) stem a e = elim (Option-cases (rest s)) [
  | inl no_rest ↦ elim (Option-cases (lazily rest s)) [
    | inl none_left ↦ ground arith
    | inr ((stem', a'), later) ↦ ground (arith, lazily-length rest k short s stem' a' later)
  ]
  | inr (a0, e0) ↦ ground (arith, short s a0 e0)
]

drop_last-length :
    (w : Text) → (length (drop_last w) ≤ length w) × (length w ≤ suc (length (drop_last w)))
drop_last-length [] = omega arith
drop_last-length (c ∷ []) = ground arith
drop_last-length (c ∷ d ∷ s) = ground (arith, drop_last-length (d ∷ s))

ends_with-length :
    (p : Text → Bool) (k : ℕ)
    → ((t : Text) → p t ≡ true → k ≤ length t)
    → (w : Text) → ends_with p w ≡ true
    → k ≤ length w
ends_with-length p k long [] e = long [] e
ends_with-length p k long (c ∷ s) e = elim (Bool-cases (p (c ∷ s))) [
  | inl here ↦ long (c ∷ s) here
  | inr not_here ↦ ground (arith, ends_with-length p k long s)
]

double-length : (t : Text) → is_double t ≡ true → 2 ≤ length t
double-length [] e = absurd cc
double-length (a ∷ []) e = absurd cc
double-length (a ∷ b ∷ t) e = omega arith

step1b_stem-Fits :
    (w : Text)
    → 0 < length w
    → (length (step1b_stem w) ≤ suc (length w))
      × (0 < length (step1b_stem w))
      × (first (step1b_stem w) ≡ first w)
unfolding step1b_stem
step1b_stem-Fits w h = ground (
  arith,
  length-append w (units "e"),
  first-append w (units "e"),
  drop_last-length w,
  first-drop_last w,
  ends_with-length is_double 2 double-length w,
)

-- What a step takes off a word leaves a stem.
split-length :
    (k : ℕ) (table : List (Text × Text))
    → shrinks k table ≡ true
    → (w stem a : Text) → lazily (in_table table) w ≡ some (stem, a)
    → (length stem + length a + k ≤ length w) × (0 < length stem) × (first stem ≡ first w)
split-length k table h = lazily-length (in_table table) k (λ t a. in_table-length k table t a h)

plural_rest-length : (t a : Text) → plural_rest t ≡ some a → length a + 1 ≤ length t
plural_rest-length [] a e = absurd cc
plural_rest-length (c ∷ []) a e = absurd cc
plural_rest-length (c ∷ d ∷ []) a e = ground arith
plural_rest-length (c ∷ d ∷ x ∷ t) a e = absurd cc

step1a-Fits : (w : Text) → 0 < length w → Fits w (step1a w)
unfolding step1a
step1a-Fits w h =
    elim (Option-cases (lazily (in_table (entry "sses" "ss" ∷ entry "ies" "i" ∷ [])) w)) [
      | inr ((stem, suffix), e) ↦ ground (
        arith,
        length-append stem suffix,
        first-append stem suffix,
        split-length 2 (entry "sses" "ss" ∷ entry "ies" "i" ∷ []) refl w stem suffix e,
      )
      | inl e ↦ elim (Option-cases (lazily plural_rest w)) [
        | inl e2 ↦ ground arith
        | inr ((stem, suffix), e2) ↦ ground (
          arith,
          length-append stem suffix,
          first-append stem suffix,
          lazily-length plural_rest 1 plural_rest-length w stem suffix e2,
        )
      ]
    ]

step1b-Fits : (w : Text) → 0 < length w → Fits w (step1b w)
unfolding step1b
step1b-Fits w h = elim (Option-cases (lazily (in_table (entry "eed" "" ∷ [])) w)) [
  | inr ((stem, a), e) ↦ ground (
    arith,
    drop_last-length w,
    first-drop_last w,
    split-length 3 (entry "eed" "" ∷ []) refl w stem a e,
  )
  | inl e ↦ elim (Option-cases (lazily (in_table (entry "ed" "" ∷ entry "ing" "" ∷ [])) w)) [
    | inl e2 ↦ ground arith
    | inr ((stem, a), e2) ↦ ground (
      arith,
      step1b_stem-Fits stem,
      split-length 2 (entry "ed" "" ∷ entry "ing" "" ∷ []) refl w stem a e2,
    )
  ]
]

replace_if-Fits :
    (test : Text → Bool) (table : List (Text × Text))
    → shrinks 0 table ≡ true
    → (w : Text) → 0 < length w
    → Fits w (replace_if test table w)
unfolding replace_if
replace_if-Fits test table h w pos = elim (Option-cases (lazily (in_table table) w)) [
  | inl e ↦ ground arith
  | inr ((stem, a), e) ↦
      ground (arith, length-append stem a, first-append stem a, split-length 0 table h w stem a e)
]

step4-Fits : (w : Text) → 0 < length w → Fits w (step4 w)
unfolding step4
step4-Fits w h = elim (Option-cases (lazily (in_table step4list) w)) [
  | inr ((stem, a), e) ↦ ground (arith, split-length 2 step4list refl w stem a e)
  | inl e ↦ elim (Option-cases (lazily (in_table (entry "sion" "s" ∷ entry "tion" "t" ∷ [])) w)) [
    | inl e2 ↦ ground arith
    | inr ((stem, a), e2) ↦ ground (
      arith,
      length-append stem a,
      first-append stem a,
      split-length 3 (entry "sion" "s" ∷ entry "tion" "t" ∷ []) refl w stem a e2,
    )
  ]
]

step5_e-Fits : (w : Text) → 0 < length w → Fits w (step5_e w)
unfolding step5_e
step5_e-Fits w h = elim (Option-cases (lazily (in_table (entry "e" "" ∷ [])) w)) [
  | inl e ↦ ground arith
  | inr ((stem, a), e) ↦ ground (arith, split-length 1 (entry "e" "" ∷ []) refl w stem a e)
]

step5_ll-Fits : (w : Text) → 0 < length w → Fits w (step5_ll w)
unfolding step5_ll
step5_ll-Fits w h = ground (
  arith,
  drop_last-length w,
  first-drop_last w,
  ends_with-length (same (units "ll")) 2 (λ t e. ground (arith, same-length (units "ll") t)) w,
)

steps-Fits : (w : Text) → 0 < length w → Fits w (steps w)
unfolding steps step1c step2 step3 step5
steps-Fits w h =
    let a = step1a-Fits w h in
    let b = step1b-Fits (step1a w) a.1 in
    let c = replace_if-Fits s_v (entry "y" "i" ∷ []) refl (step1b (step1a w)) b.1 in
    let d = replace_if-Fits mgr0 step2list refl (step1c (step1b (step1a w))) c.1 in
    let e = replace_if-Fits mgr0 step3list refl (step2 (step1c (step1b (step1a w)))) d.1 in
    let f = step4-Fits (step3 (step2 (step1c (step1b (step1a w))))) e.1 in
    let g = step5_e-Fits (step4 (step3 (step2 (step1c (step1b (step1a w)))))) f.1 in
    let i = step5_ll-Fits (step5_e (step4 (step3 (step2 (step1c (step1b (step1a w))))))) g.1 in
    (omega arith, omega arith, i.2 ∙ g.2 ∙ f.2 ∙ e.2 ∙ d.2 ∙ c.2 ∙ b.2 ∙ a.2)

set_first-length :
    (c : ℕ) (w : Text)
    → 0 < length w
    → (length (set_first c w) ≡ length w) × (first (set_first c w) ≡ some c)
set_first-length c [] h = absurd (omega arith)
set_first-length c (d ∷ w) h = (refl, refl)

begins_y-first : (w : Text) → begins_y w ≡ true → first w ≡ some b'y'
begins_y-first [] h = absurd cc
begins_y-first (c ∷ w) h = ground arith

-- The stem of a word that is not empty is not empty, at most as long as the word, and begins with
-- the same character.
pub stem_word-Fits : (w : Text) → 0 < length w → Fits w (stem_word w)
unfolding stem_word
stem_word-Fits w h = ground (
  arith,
  steps-Fits w h,
  set_first-length b'Y' w h,
  steps-Fits (set_first b'Y' w),
  set_first-length b'y' (steps (set_first b'Y' w)),
)
