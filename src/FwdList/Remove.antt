-- ===== src/FwdList/Remove.antt =====
-- `fwd_list_del` of src/fwd_list.c on the sequence of entries.
use forwarding_explorer.Base.{
  ℕ, ◌≡◌, refl, sym, subst, true, false, List, [], ◌∷◌, ◌++◌, arith, append-nil, Bool-cases, inl,
  inr,
}
use forwarding_explorer.FwdList.{Links, fwd_list_del, fwd_list_del_init}
use forwarding_explorer.FwdList.Ring.{
  mem, mem-append, Distinct, Link, Walk, IsRing, SameOutside, frame, Walk-append, Walk-split,
  Distinct-append, Distinct-split, ne-last, mem-last,
}

del_last :
    (m : Links) (entry head a : ℕ) (xs : List ℕ)
    → Walk m head xs a
    → Link m a entry
    → Link m entry head
    → Distinct (head ∷ xs)
    → mem entry (head ∷ xs) ≡ false
    → IsRing (fwd_list_del entry m) head xs
      × SameOutside (entry ∷ head ∷ xs) m (fwd_list_del entry m)
unfolding fwd_list_del
del_last m entry head a xs w l c d out =
    let ne = ne-last m entry head a xs w out in
    (
      record {
        last = a;
        walk = frame m _ head a xs w d (λ b i n. ground arith) (λ b i. ground arith);
        closed = ground arith;
        distinct = d;
      },
      λ b h. let nb = ne-last m b head a xs w (ground arith) in ground arith,
    )

mem-apart :
    (xs ys : List ℕ) (b : ℕ)
    → ((a : ℕ) → mem a xs ≡ true → mem a ys ≡ false)
    → mem b ys ≡ true
    → mem b xs ≡ false
mem-apart xs ys b apart i = elim (Bool-cases (mem b xs)) [ inl e ↦ cc (apart b e) | inr e ↦ e ]

del_middle :
    (m : Links) (entry head a y z : ℕ) (xs ys : List ℕ)
    → Walk m head xs a
    → Link m a entry
    → Link m entry y
    → Walk m y ys z
    → Link m z head
    → Distinct (head ∷ xs)
    → Distinct (y ∷ ys)
    → ((b : ℕ) → mem b (head ∷ xs) ≡ true → mem b (y ∷ ys) ≡ false)
    → mem entry (head ∷ xs) ≡ false
    → mem entry (y ∷ ys) ≡ false
    → IsRing (fwd_list_del entry m) head (xs ++ y ∷ ys)
      × SameOutside (entry ∷ head ∷ (xs ++ y ∷ ys)) m (fwd_list_del entry m)
unfolding fwd_list_del
del_middle m entry head a y z xs ys w l l' v c d d' apart out out' =
    let ne = λ (b : ℕ). ne-last m b head a xs w in
    let ne' = λ (b : ℕ). ne-last m b y z ys v in
    let ends = apart head (ground arith) in
    let front : Walk (fwd_list_del entry m) head xs a =
      frame m _ head a xs w d (λ b i n. ground arith)
        (λ b i. let o = apart b (ground arith) in ground arith) in
    let back : Walk (fwd_list_del entry m) y ys z =
      frame m _ y z ys v d'
        (λ b i n. let nb = ne b (mem-apart (head ∷ xs) (y ∷ ys) b apart i) in ground arith)
        (λ b i. ground arith) in
    (
      record {
        last = z;
        walk = Walk-append _ head a z xs (y ∷ ys) front (ground arith, back);
        closed =
            let nz = ne' a (apart a (mem-last m head a xs w)) in
            let nz' = ne' entry out' in ground arith;
        distinct = Distinct-append (head ∷ xs) (y ∷ ys) d d' apart;
      },
      λ b h.
          let q = rw (mem-append b xs (y ∷ ys)) at h in
          let nb = ne b (ground arith) in ground arith,
    )

-- `fwd_list_del` takes an entry out of the list, wherever it stands, leaves the order of the
-- others, and writes only to nodes of the list.
pub del-IsRing :
    (m : Links) (entry head : ℕ) (xs ys : List ℕ)
    → IsRing m head (xs ++ entry ∷ ys)
    → IsRing (fwd_list_del entry m) head (xs ++ ys)
      × SameOutside (head ∷ (xs ++ entry ∷ ys)) m (fwd_list_del entry m)
del-IsRing m entry head xs [] r =
    let (a, w, l, e) = Walk-split m head r.last entry xs [] r.walk in
    let (d, d', apart) = Distinct-split (head ∷ xs) (entry ∷ []) r.distinct in
    let (ring, same) =
      del_last m entry head a xs w l (subst (λ z. Link m z head) (sym e) r.closed) d
        (mem-apart (head ∷ xs) (entry ∷ []) entry apart (ground arith)) in
    (rw append-nil ring, λ b h. same b (ground (arith, mem-append b xs (entry ∷ []))))
del-IsRing m entry head xs (y ∷ ys) r =
    let (a, w, l, v) = Walk-split m head r.last entry xs (y ∷ ys) r.walk in
    let (d, d', apart) = Distinct-split (head ∷ xs) (entry ∷ y ∷ ys) r.distinct in
    let (ring, same) =
      del_middle m entry head a y r.last xs ys w l v.0 v.1 r.closed d d'.1
        (λ b i. let o = apart b i in ground arith)
        (mem-apart (head ∷ xs) (entry ∷ y ∷ ys) entry apart (ground arith)) d'.0 in
    (
      ring,
      λ b h. same b (ground (arith, mem-append b xs (entry ∷ y ∷ ys), mem-append b xs (y ∷ ys))),
    )

-- `fwd_list_del` and `fwd_list_del_init` leave the entry as a list of its own, without entries.
pub del-alone :
    (m : Links) (entry : ℕ)
    → IsRing (fwd_list_del entry m) entry [] × IsRing (fwd_list_del_init entry m) entry []
unfolding fwd_list_del fwd_list_del_init
del-alone m entry = (
  record { last = entry; walk = refl; closed = ground arith; distinct = ground arith },
  record { last = entry; walk = refl; closed = ground arith; distinct = ground arith },
)
