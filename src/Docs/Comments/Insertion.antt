-- ===== src/Docs/Comments/Insertion.antt =====
-- A new comment keeps its siblings in order.
use mathlib.Core.List.{Perm}
use mathlib.Core.List.Perm
use forwarding_explorer.Base.{
  zero, suc, ◌≡◌, ◌⊎◌, refl, sym, ◌∙◌, some, Bool, true, false, List, [], ◌∷◌, All, Bool-cases, inl,
  inr, arith, leb,
}
use forwarding_explorer.Base.Int.{ℤ, pos, negsuc}
use forwarding_explorer.Docs.Text.{Text, units}
use forwarding_explorer.Docs.Comments.{Posted, ◌-ℤ◌, comp, is_not_positive, insert_comment}

abbrev int_leb : ℤ → ℤ → Bool
int_leb (pos a) (pos b) = leb a b
int_leb (pos a) (negsuc b) = false
int_leb (negsuc a) (pos b) = true
int_leb (negsuc a) (negsuc b) = leb b a

difference_lem : (a b : ℤ) → is_not_positive (some (a -ℤ b)) ≡ int_leb a b
difference_lem (pos a) (pos zero) = ground arith
difference_lem (pos a) (pos (suc b)) = ground arith
difference_lem (pos a) (negsuc b) = ground arith
difference_lem (negsuc a) (pos zero) = ground arith
difference_lem (negsuc a) (pos (suc b)) = ground arith
difference_lem (negsuc a) (negsuc b) = ground arith

int_leb_trans : (a b c : ℤ) → int_leb a b ≡ true → int_leb b c ≡ true → int_leb a c ≡ true
int_leb_trans (pos a) (pos b) (pos c) p q = ground arith
int_leb_trans (pos a) (pos b) (negsuc c) p q = absurd cc
int_leb_trans (pos a) (negsuc b) c p q = absurd cc
int_leb_trans (negsuc a) b (pos c) p q = refl
int_leb_trans (negsuc a) (pos b) (negsuc c) p q = absurd cc
int_leb_trans (negsuc a) (negsuc b) (negsuc c) p q = ground arith

int_leb_total : (a b : ℤ) → int_leb a b ≡ false → int_leb b a ≡ true
int_leb_total (pos a) (pos b) p = ground arith
int_leb_total (pos a) (negsuc b) p = refl
int_leb_total (negsuc a) (pos b) p = absurd cc
int_leb_total (negsuc a) (negsuc b) p = ground arith

-- That `a` need not come after `b`.
abbrev pub IsBefore : (by : Text) (a b : Posted) → Type 0
IsBefore by a b = is_not_positive (comp by a b) ≡ true

-- The orders that the page has links for.
abbrev pub IsOrder : Text → Type 0
IsOrder by = (by ≡ units "rating") ⊎ (by ≡ units "age") ⊎ (by ≡ units "ascage")

-- A test that compares the numbers of two comments, upwards or downwards.
abbrev ComparesNumbers : (Posted → Posted → Bool) → Type 0
ComparesNumbers before =
    ((number : Posted → ℤ) × ((a b : Posted) → before a b ≡ int_leb (number a) (number b)))
    ⊎ ((number : Posted → ℤ) × ((a b : Posted) → before a b ≡ int_leb (number b) (number a)))

comp-ComparesNumbers :
    (by : Text) → IsOrder by → ComparesNumbers (λ a b. is_not_positive (comp by a b))
unfolding comp
comp-ComparesNumbers by (inl e) =
    inr (λ c. c.rating, λ a b. rw e (difference_lem b.rating a.rating))
comp-ComparesNumbers by (inr (inl e)) = inr (λ c. c.age, λ a b. rw e (difference_lem b.age a.age))
comp-ComparesNumbers by (inr (inr e)) = inl (λ c. c.age, λ a b. rw e (difference_lem a.age b.age))

pub IsBefore-trans :
    (by : Text)
    → IsOrder by
    → (a b c : Posted) → IsBefore by a b
    → IsBefore by b c
    → IsBefore by a c
IsBefore-trans by order a b c p q = elim (comp-ComparesNumbers by order) [
  | inl (n, up) ↦ up a c ∙ int_leb_trans (n a) (n b) (n c) (sym (up a b) ∙ p) (sym (up b c) ∙ q)
  | inr (n, down) ↦
      down a c ∙ int_leb_trans (n c) (n b) (n a) (sym (down b c) ∙ q) (sym (down a b) ∙ p)
]

pub IsBefore-total :
    (by : Text)
    → IsOrder by
    → (a b : Posted) → is_not_positive (comp by a b) ≡ false
    → IsBefore by b a
IsBefore-total by order a b p = elim (comp-ComparesNumbers by order) [
  | inl (n, up) ↦ up b a ∙ int_leb_total (n a) (n b) (sym (up a b) ∙ p)
  | inr (n, down) ↦ down b a ∙ int_leb_total (n b) (n a) (sym (down a b) ∙ p)
]

-- Siblings of which none comes after a later one.
abbrev pub IsSorted : (by : Text) → List Posted → Type 0
IsSorted by [] = Unit
IsSorted by (a ∷ siblings) = All (λ b. IsBefore by a b) siblings × IsSorted by siblings

All-IsBefore :
    (by : Text)
    → IsOrder by
    → (a b : Posted) (siblings : List Posted) → IsBefore by a b
    → All (λ c. IsBefore by b c) siblings
    → All (λ c. IsBefore by a c) siblings
All-IsBefore by order a b [] h hs = tt
All-IsBefore by order a b (c ∷ siblings) h (p, ps) =
    (IsBefore-trans by order a b c h p, All-IsBefore by order a b siblings h ps)

insert_comment-All :
    (by : Text) (a comment : Posted) (siblings : List Posted)
    → IsBefore by a comment
    → All (λ b. IsBefore by a b) siblings
    → All (λ b. IsBefore by a b) (insert_comment by comment siblings)
insert_comment-All by a comment [] h hs = (h, tt)
insert_comment-All by a comment (b ∷ siblings) h (p, ps) =
    elim (Bool-cases (is_not_positive (comp by comment b))) [
      | inl e ↦ rw e (h, (p, ps))
      | inr e ↦ rw e (p, insert_comment-All by a comment siblings h ps)
    ]

insert_sorted_lem :
    (by : Text)
    → IsOrder by
    → (comment : Posted) (siblings : List Posted) → IsSorted by siblings
    → IsSorted by (insert_comment by comment siblings)
insert_sorted_lem by order comment [] s = (tt, tt)
insert_sorted_lem by order comment (b ∷ siblings) (h, s) =
    elim (Bool-cases (is_not_positive (comp by comment b))) [
      | inl e ↦ rw e ((e, All-IsBefore by order comment b siblings e h), (h, s))
      | inr e ↦ rw e (
        insert_comment-All by b comment siblings (IsBefore-total by order comment b e) h,
        insert_sorted_lem by order comment siblings s,
      )
    ]

insert_comment-added :
    (by : Text) (comment : Posted) (siblings : List Posted)
    → Perm (insert_comment by comment siblings) (comment ∷ siblings)
insert_comment-added by comment [] = Perm.refl _
insert_comment-added by comment (b ∷ siblings) =
    elim (Bool-cases (is_not_positive (comp by comment b))) [
      | inl e ↦ rw e (Perm.refl _)
      | inr e ↦ rw e (
          Perm.trans (Perm.cons b (insert_comment-added by comment siblings))
            (Perm.swap comment b siblings))
    ]

-- A comment that is added among sorted siblings keeps them sorted, in each order that the page has a
-- link for, and changes nothing else.
pub insert_comment-IsSorted :
    (by : Text)
    → IsOrder by
    → (comment : Posted) (siblings : List Posted) → IsSorted by siblings
    → IsSorted by (insert_comment by comment siblings)
      × Perm (insert_comment by comment siblings) (comment ∷ siblings)
insert_comment-IsSorted by order comment siblings s =
    (insert_sorted_lem by order comment siblings s, insert_comment-added by comment siblings)
