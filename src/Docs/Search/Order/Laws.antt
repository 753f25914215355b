-- ===== src/Docs/Search/Order/Laws.antt =====
-- The comparison of results is an order, as sorting wants it.
use forwarding_explorer.Base.{
  ◌≡◌, ◌≢◌, refl, ap, ◌∙◌, subst, true, false, some, [], ◌∷◌, if◌then◌else◌, arith, Bool-cases, inl,
  inr, ◌↔◌, ◌⊎◌,
}
use forwarding_explorer.Base.Int.{ℤ, pos, negsuc}
use forwarding_explorer.Docs.Text.{Text}
use forwarding_explorer.Docs.Search.{Result}
use forwarding_explorer.Docs.Search.Order.{
  text_ltb, int_ltb, Comparison, less, equal, greater, compare_titles, compare_results,
}

text_ltb-asym : (s t : Text) → text_ltb s t ≡ true → text_ltb t s ≡ false
text_ltb-asym [] [] e = absurd cc
text_ltb-asym [] (b ∷ t) e = refl
text_ltb-asym (a ∷ s) [] e = absurd cc
text_ltb-asym (a ∷ s) (b ∷ t) e = ground (arith, text_ltb-asym s t)

-- "Not after" is transitive.
text_ltb_trans : (s t u : Text) → text_ltb t s ≡ false → text_ltb u t ≡ false → text_ltb u s ≡ false
text_ltb_trans [] t [] p q = refl
text_ltb_trans [] t (c ∷ u) p q = refl
text_ltb_trans (a ∷ s) [] [] p q = absurd cc
text_ltb_trans (a ∷ s) (b ∷ t) [] p q = absurd cc
text_ltb_trans (a ∷ s) [] (c ∷ u) p q = absurd cc
text_ltb_trans (a ∷ s) (b ∷ t) (c ∷ u) p q = ground (arith, text_ltb_trans s t u)

int_ltb-asym : (a b : ℤ) → int_ltb a b ≡ true → int_ltb b a ≡ false
int_ltb-asym (pos a) (pos b) e = ground arith
int_ltb-asym (pos a) (negsuc b) e = absurd cc
int_ltb-asym (negsuc a) (pos b) e = refl
int_ltb-asym (negsuc a) (negsuc b) e = ground arith

int_ltb_trans : (a b c : ℤ) → int_ltb b a ≡ false → int_ltb c b ≡ false → int_ltb c a ≡ false
int_ltb_trans (pos a) (pos b) (pos c) p q = ground arith
int_ltb_trans (pos a) (pos b) (negsuc c) p q = absurd cc
int_ltb_trans (pos a) (negsuc b) c p q = absurd cc
int_ltb_trans (negsuc a) b (pos c) p q = refl
int_ltb_trans (negsuc a) (pos b) (negsuc c) p q = absurd cc
int_ltb_trans (negsuc a) (negsuc b) (negsuc c) p q = ground arith

int_ltb-total : (a b : ℤ) → int_ltb a b ≡ false → int_ltb b a ≡ false → a ≡ b
int_ltb-total (pos a) (pos b) p q = ap pos (ground arith)
int_ltb-total (pos a) (negsuc b) p q = absurd cc
int_ltb-total (negsuc a) (pos b) p q = absurd cc
int_ltb-total (negsuc a) (negsuc b) p q = ap negsuc (ground arith)

-- The comparison on scores and titles in lower case.
abbrev compare_keys : (a b : ℤ × Text) → Comparison
compare_keys (m, s) (n, t) =
    if int_ltb n m then greater else if int_ltb m n then less else compare_titles s t

compare_results-keys :
    (lower : Text → Text) (a b : Result) (m n : ℤ) (s t : Text)
    → a.score ≡ some m
    → a.title ≡ some s
    → b.score ≡ some n
    → b.title ≡ some t
    → compare_results lower a b ≡ some (compare_keys (m, lower s) (n, lower t))
compare_results-keys lower a b m n s t am ati bn bti =
    rw (am, ati, bn, bti)
      (elim (Bool-cases (int_ltb n m)) [
        | inl e ↦ rw e refl
        | inr e ↦ elim (Bool-cases (int_ltb m n)) [
          | inl f ↦ rw (e, f) refl
          | inr f ↦ rw (e, f) refl
        ]
      ])

-- What it means that `a` does not come after `b`.
abbrev IsBefore : (a b : ℤ × Text) → Type 0
IsBefore (m, s) (n, t) = (int_ltb n m ≡ false) × ((int_ltb m n ≡ true) ⊎ (text_ltb s t ≡ false))

compare_keys-IsBefore : (a b : ℤ × Text) → compare_keys a b ≢ greater → IsBefore a b
compare_keys-IsBefore (m, s) (n, t) p = elim (Bool-cases (int_ltb n m)) [
  | inl e ↦ absurd (p (rw e refl))
  | inr e ↦ elim (Bool-cases (int_ltb m n)) [
    | inl f ↦ (e, inl f)
    | inr f ↦ elim (Bool-cases (text_ltb s t)) [
      | inl g ↦ absurd (p (rw (e, f, text_ltb-asym s t g, g) refl))
      | inr g ↦ (e, inr g)
    ]
  ]
]

IsBefore-compare_keys : (a b : ℤ × Text) → IsBefore a b → compare_keys a b ≢ greater
IsBefore-compare_keys (m, s) (n, t) (e, d) g = elim d [
  | inl f ↦ let value : compare_keys (m, s) (n, t) ≡ less = rw (e, f) refl in absurd cc
  | inr f ↦ elim (Bool-cases (int_ltb m n)) [
    | inl h ↦ let value : compare_keys (m, s) (n, t) ≡ less = rw (e, h) refl in absurd cc
    | inr h ↦ elim (Bool-cases (text_ltb t s)) [
      | inl i ↦ let value : compare_keys (m, s) (n, t) ≡ less = rw (e, h, i) refl in absurd cc
      | inr i ↦ let value : compare_keys (m, s) (n, t) ≡ equal = rw (e, h, i, f) refl in absurd cc
    ]
  ]
]

IsBefore-trans : (a b c : ℤ × Text) → IsBefore a b → IsBefore b c → IsBefore a c
IsBefore-trans (m, s) (n, t) (k, u) (p, ps) (q, qs) =
    let r = int_ltb_trans m n k p q in
    elim (Bool-cases (int_ltb m k)) [
      | inl l ↦ (r, inl l)
      | inr l ↦
          let tie : m ≡ k = int_ltb-total m k l r in
          let first_tie : int_ltb m n ≡ false = rw tie q in
          let second_tie : int_ltb n k ≡ false = subst (λ z. int_ltb n z ≡ false) tie p in
          elim ps [
            | inl x ↦ absurd cc
            | inr x ↦ elim qs [ inl y ↦ absurd cc | inr y ↦ (r, inr (text_ltb_trans u t s y x)) ]
          ]
    ]

-- For results with a score and a title, the comparison is transitive: if `a` does not come after
-- `b`, nor `b` after `c`, then `a` does not come after `c`.
pub compare_results_trans :
    (lower : Text → Text) (a b c : Result) (m n k : ℤ) (s t u : Text)
    → a.score ≡ some m
    → a.title ≡ some s
    → b.score ≡ some n
    → b.title ≡ some t
    → c.score ≡ some k
    → c.title ≡ some u
    → compare_results lower a b ≢ some greater
    → compare_results lower b c ≢ some greater
    → compare_results lower a c ≢ some greater
compare_results_trans lower a b c m n k s t u am ati bn bti ck cti p q e =
    let x : ℤ × Text = (m, lower s) in
    let y : ℤ × Text = (n, lower t) in
    let z : ℤ × Text = (k, lower u) in
    let xy =
      compare_keys-IsBefore x y
        (λ g. p (compare_results-keys lower a b m n s t am ati bn bti ∙ ap some g)) in
    let yz =
      compare_keys-IsBefore y z
        (λ g. q (compare_results-keys lower b c n k t u bn bti ck cti ∙ ap some g)) in
    let keys = compare_results-keys lower a c m k s u am ati ck cti in
    let last : compare_keys x z ≡ greater = cc in
    IsBefore-compare_keys x z (IsBefore-trans x y z xy yz) last

compare_keys-flip :
    (m n : ℤ) (s t : Text)
    → (compare_keys (m, s) (n, t) ≡ greater) ↔ (compare_keys (n, t) (m, s) ≡ less)
compare_keys-flip m n s t =
    ground (arith, int_ltb-asym m n, int_ltb-asym n m, text_ltb-asym s t, text_ltb-asym t s)

-- Of two results with a score and a title, one comes after the other exactly if the other comes
-- before it.
pub compare_results-flip :
    (lower : Text → Text) (a b : Result) (m n : ℤ) (s t : Text)
    → a.score ≡ some m
    → a.title ≡ some s
    → b.score ≡ some n
    → b.title ≡ some t
    → (compare_results lower a b ≡ some greater) ↔ (compare_results lower b a ≡ some less)
compare_results-flip lower a b m n s t am ati bn bti =
    let ab = compare_results-keys lower a b m n s t am ati bn bti in
    let ba = compare_results-keys lower b a n m t s bn bti am ati in
    let flip = compare_keys-flip m n (lower s) (lower t) in
    (
      λ e. let g : compare_keys (m, lower s) (n, lower t) ≡ greater = cc in ba ∙ ap some (flip.0 g),
      λ e. let g : compare_keys (n, lower t) (m, lower s) ≡ less = cc in ab ∙ ap some (flip.1 g),
    )
