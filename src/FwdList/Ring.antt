-- ===== src/FwdList/Ring.antt =====
-- The sequence of entries that a circular list of src/fwd_list.c stands for.
use forwarding_explorer.Base.{
  ℕ, zero, suc, ◌<◌, ◌≡◌, ◌≢◌, refl, sym, subst, Bool, true, false, ◌||◌, List, [], ◌∷◌, ◌++◌, some,
  ◌==◌, length, arith,
}
use forwarding_explorer.FwdList.{
  Links, init_fwd_list_head, fwd_list_empty, fwd_list_for_each_entry, for_each_from,
}

abbrev pub mem : ℕ → List ℕ → Bool
mem a [] = false
mem a (x ∷ xs) = (a == x) || mem a xs

abbrev pub Distinct : List ℕ → Type 0
Distinct [] = Unit
Distinct (x ∷ xs) = (mem x xs ≡ false) × Distinct xs

-- `a` and `b` are neighbours.
abbrev pub Link : Links → ℕ → ℕ → Type 0
Link m a b = (m.next a ≡ b) × (m.prev b ≡ a)

-- From `p` the links lead through `xs`, both ways, and the last node is `end`.
abbrev pub Walk : Links → (p : ℕ) → List ℕ → (end : ℕ) → Type 0
Walk m p [] e = p ≡ e
Walk m p (x ∷ xs) e = Link m p x × Walk m x xs e

-- The list with the head `head` has the entries `xs`, in order.
pub record IsRing (m : Links) (head : ℕ) (xs : List ℕ) : Type 0 where
  pub last : ℕ
  pub walk : Walk m head xs last
  pub closed : Link m last head
  pub distinct : Distinct (head ∷ xs)

-- `g` and `m` agree at every node that is not among `xs`.
abbrev pub SameOutside : List ℕ → Links → Links → Type 0
SameOutside xs m g = (a : ℕ) → mem a xs ≡ false → (g.next a ≡ m.next a) × (g.prev a ≡ m.prev a)

pub mem-append : (a : ℕ) (xs ys : List ℕ) → mem a (xs ++ ys) ≡ (mem a xs || mem a ys)
mem-append a [] ys = refl
mem-append a (x ∷ xs) ys = ground (arith, mem-append a xs ys)

-- The last node of a walk is one of its nodes.
pub ne-last : (m : Links) (a p e : ℕ) (xs : List ℕ) → Walk m p xs e → mem a (p ∷ xs) ≡ false → a ≢ e
ne-last m a p e [] w out = ground arith
ne-last m a p e (x ∷ xs) w out = ne-last m a x e xs w.1 (ground arith)

pub mem-last : (m : Links) (p e : ℕ) (xs : List ℕ) → Walk m p xs e → mem e (p ∷ xs) ≡ true
mem-last m p e [] w = ground arith
mem-last m p e (x ∷ xs) w = ground (arith, mem-last m x e xs w.1)

-- A walk uses the `next` links of its nodes but the last, and the `prev` links of those but the
-- first.
pub frame :
    (m g : Links) (p e : ℕ) (xs : List ℕ)
    → Walk m p xs e
    → Distinct (p ∷ xs)
    → ((a : ℕ) → mem a (p ∷ xs) ≡ true → a ≢ e → g.next a ≡ m.next a)
    → ((a : ℕ) → mem a xs ≡ true → g.prev a ≡ m.prev a)
    → Walk g p xs e
frame m g p e [] w d n q = w
frame m g p e (x ∷ xs) w d n q = (
  ground (arith, n p, q x, ne-last m p x e xs),
  frame m g x e xs w.1 d.1 (λ a i ne. n a (ground arith) ne) (λ a i. q a (ground arith)),
)

pub Walk-append :
    (m : Links) (p e z : ℕ) (xs ys : List ℕ) → Walk m p xs e → Walk m e ys z → Walk m p (xs ++ ys) z
Walk-append m p e z [] ys v w = subst (λ q. Walk m q ys z) (sym v) w
Walk-append m p e z (x ∷ xs) ys v w = (v.0, Walk-append m x e z xs ys v.1 w)

-- A walk through `y` passes from some node to `y`.
pub Walk-split :
    (m : Links) (p z y : ℕ) (xs ys : List ℕ)
    → Walk m p (xs ++ y ∷ ys) z
    → (e : ℕ) × Walk m p xs e × Link m e y × Walk m y ys z
Walk-split m p z y [] ys w = (p, refl, w.0, w.1)
Walk-split m p z y (x ∷ xs) ys w =
    let (e, v, l, u) = Walk-split m x z y xs ys w.1 in (e, (w.0, v), l, u)

pub Distinct-append :
    (xs ys : List ℕ)
    → Distinct xs
    → Distinct ys
    → ((a : ℕ) → mem a xs ≡ true → mem a ys ≡ false)
    → Distinct (xs ++ ys)
Distinct-append [] ys d e apart = e
Distinct-append (x ∷ xs) ys d e apart = (
  rw (mem-append x xs ys) (ground (arith, apart x)),
  Distinct-append xs ys d.1 e (λ a i. apart a (ground arith)),
)

pub Distinct-split :
    (xs ys : List ℕ)
    → Distinct (xs ++ ys)
    → Distinct xs × Distinct ys × ((a : ℕ) → mem a xs ≡ true → mem a ys ≡ false)
Distinct-split [] ys d = (tt, d, λ a i. cc)
Distinct-split (x ∷ xs) ys d =
    let (dx, dy, apart) = Distinct-split xs ys d.1 in
    let out = rw (mem-append x xs ys) at d.0 in
    ((ground arith, dx), dy, λ a i. ground (arith, apart a))

-- Whatever the memory holds, an initialised head is the empty list.
pub init-IsRing : (m : Links) (head : ℕ) → IsRing (init_fwd_list_head head m) head []
unfolding init_fwd_list_head
init-IsRing m head = record {
  last = head;
  walk = refl;
  closed = ground arith;
  distinct = ground arith;
}

abbrev pub is_nil : List ℕ → Bool
is_nil [] = true
is_nil (x ∷ xs) = false

-- On a well-formed list, `fwd_list_empty` answers whether it has no entries.
pub empty-is_nil :
    {m : Links} {head : ℕ} (xs : List ℕ) → IsRing m head xs → fwd_list_empty head m ≡ is_nil xs
unfolding fwd_list_empty
empty-is_nil [] r = let w = r.walk in let c = r.closed in ground arith
empty-is_nil (x ∷ xs) r = let w = r.walk in let d = r.distinct in ground arith

for_each-Walk :
    (m : Links) (head p e fuel : ℕ) (xs : List ℕ)
    → Walk m p xs e
    → Link m e head
    → mem head xs ≡ false
    → length xs < fuel
    → for_each_from fuel (m.next p) head m ≡ some xs
unfolding for_each_from
for_each-Walk m head p e zero xs w c out h = elim h [ ]
for_each-Walk m head p e (suc fuel) [] w c out h = ground arith
for_each-Walk m head p e (suc fuel) (x ∷ xs) w c out h =
    ground (arith, for_each-Walk m head x e fuel xs w.1 c)

-- With more fuel than entries, the loop over a list visits exactly its entries, in order.
pub for_each_entry-IsRing :
    {m : Links} {head : ℕ} {xs : List ℕ} (fuel : ℕ)
    → IsRing m head xs
    → length xs < fuel
    → fwd_list_for_each_entry fuel head m ≡ some xs
unfolding fwd_list_for_each_entry
for_each_entry-IsRing {m} {head} {xs} fuel r h =
    for_each-Walk m head head r.last fuel xs r.walk r.closed r.distinct.0 h

-- The last entry is the one that the head's `prev` names.
pub IsRing-Walk :
    {m : Links} {head : ℕ} {xs : List ℕ}
    → IsRing m head xs
    → Walk m head xs (m.prev head) × Link m (m.prev head) head
IsRing-Walk {m} {head} {xs} r =
    subst (λ e. Walk m head xs e × Link m e head) (sym r.closed.1) (r.walk, r.closed)
