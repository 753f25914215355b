-- ===== src/Docs/Text/Laws.antt =====
-- Equal strings, and lists of strings without repetitions.
use forwarding_explorer.Base.{
  ◌≡◌, refl, true, false, ◌||◌, ap, take, drop, length, List, [], ◌∷◌, ◌++◌, arith,
}
use forwarding_explorer.Docs.Text.{Text, same, contains}

pub same_self : (s : Text) → same s s ≡ true
same_self [] = refl
same_self (a ∷ s) = ground (arith, same_self s)

pub same-eq : (s t : Text) → same s t ≡ true → s ≡ t
same-eq [] [] e = refl
same-eq [] (b ∷ t) e = absurd cc
same-eq (a ∷ s) [] e = absurd cc
same-eq (a ∷ s) (b ∷ t) e = ground (arith, same-eq s t)

pub same_sym : (s t : Text) → same s t ≡ same t s
same_sym [] [] = refl
same_sym [] (b ∷ t) = refl
same_sym (a ∷ s) [] = refl
same_sym (a ∷ s) (b ∷ t) = ground (arith, same_sym s t)

pub contains-append :
    (front back : List Text) (x : Text)
    → contains (front ++ back) x ≡ contains front x || contains back x
contains-append [] back x = refl
contains-append (w ∷ front) back x = ground (arith, contains-append front back x)

abbrev pub Distinct : List Text → Type 0
Distinct [] = Unit
Distinct (x ∷ xs) = (contains xs x ≡ false) × Distinct xs

pub Distinct-push :
    (xs : List Text) (x : Text) → Distinct xs → contains xs x ≡ false → Distinct (xs ++ x ∷ [])
Distinct-push [] x d n = (refl, tt)
Distinct-push (y ∷ xs) x (m, d) n = (
  ground (arith, contains-append xs (x ∷ []) y, same_sym x y),
  Distinct-push xs x d (ground arith),
)

pub drop-front : (front back : Text) → drop (length front) (front ++ back) ≡ back
drop-front [] back = refl
drop-front (c ∷ front) back = drop-front front back

pub take-front : (front back : Text) → take (length front) (front ++ back) ≡ front
take-front [] back = refl
take-front (c ∷ front) back = ap (λ t. c ∷ t) (take-front front back)
