-- ===== src/FwdList/Insert.antt =====
-- `fwd_list_add_tail` and `fwd_list_add` of src/fwd_list.c on the sequence of entries.
use forwarding_explorer.Base.{ℕ, ◌≡◌, ◌≢◌, refl, false, List, [], ◌∷◌, ◌++◌, arith}
use forwarding_explorer.FwdList.{Links, fwd_list_add_between, fwd_list_add_tail, fwd_list_add}
use forwarding_explorer.FwdList.Ring.{
  mem, Distinct, Link, Walk, IsRing, SameOutside, frame, Walk-append, Distinct-append, ne-last,
  IsRing-Walk,
}

add_front :
    (m : Links) (new head e : ℕ) (xs : List ℕ)
    → Walk m head xs e
    → Link m e head
    → Distinct (head ∷ xs)
    → mem new (head ∷ xs) ≡ false
    → IsRing (fwd_list_add_between new head (m.next head) m) head (new ∷ xs)
      × SameOutside (new ∷ head ∷ xs) m (fwd_list_add_between new head (m.next head) m)
unfolding fwd_list_add_between
add_front m new head e [] w c d out = (
  record { last = new; walk = ground arith; closed = ground arith; distinct = ground arith },
  λ a h. ground arith,
)
add_front m new head e (x ∷ xs) w c d out =
    let ne = ne-last m head x e xs w.1 d.0 in
    let new-ne = ne-last m new x e xs w.1 (ground arith) in
    (
      record {
        last = e;
        walk = (
          ground arith,
          (ground arith, frame m _ x e xs w.1 d.1 (λ a i n. ground arith) (λ a i. ground arith)),
        );
        closed = ground arith;
        distinct = ground arith;
      },
      λ a h. ground arith,
    )

module _ (m : Links) (new head : ℕ) (xs : List ℕ) where
  add_tail-Walk :
      (e : ℕ)
      → Walk m head xs e
      → Link m e head
      → Distinct (head ∷ xs)
      → mem new (head ∷ xs) ≡ false
      → Walk (fwd_list_add_between new e head m) head xs e
        × Link (fwd_list_add_between new e head m) e new
        × Link (fwd_list_add_between new e head m) new head
  unfolding fwd_list_add_between
  add_tail-Walk e w c d out =
      let ne = ne-last m new head e xs w out in
      (
        frame m _ head e xs w d (λ a i n. ground arith) (λ a i. ground arith),
        ground arith,
        ground arith,
      )

  add_between-same :
      (e : ℕ)
      → ((a : ℕ) → mem a (head ∷ xs) ≡ false → a ≢ e)
      → SameOutside (new ∷ head ∷ xs) m (fwd_list_add_between new e head m)
  unfolding fwd_list_add_between
  add_between-same e out a h = ground (arith, out a)

  -- `fwd_list_add_tail` puts a node that is not in the list behind its last entry, and writes
  -- only to that node and to nodes of the list.
  pub add_tail-IsRing :
      IsRing m head xs
      → mem new (head ∷ xs) ≡ false
      → IsRing (fwd_list_add_tail new head m) head (xs ++ new ∷ [])
        × SameOutside (new ∷ head ∷ xs) m (fwd_list_add_tail new head m)
  unfolding fwd_list_add_tail
  add_tail-IsRing r out =
      let e = m.prev head in
      let (old, closed) = IsRing-Walk r in
      let (walk, link, close) = add_tail-Walk e old closed r.distinct out in
      (
        record {
          last = new;
          walk = Walk-append _ head e new xs (new ∷ []) walk (link, refl);
          closed = close;
          distinct =
              Distinct-append (head ∷ xs) (new ∷ []) r.distinct (refl, tt) (λ a i. ground arith);
        },
        add_between-same e (λ a. ne-last m a head e xs old),
      )

  -- `fwd_list_add` puts a node that is not in the list before its first entry, and writes only to
  -- that node and to nodes of the list.
  pub add-IsRing :
      IsRing m head xs
      → mem new (head ∷ xs) ≡ false
      → IsRing (fwd_list_add new head m) head (new ∷ xs)
        × SameOutside (new ∷ head ∷ xs) m (fwd_list_add new head m)
  unfolding fwd_list_add
  add-IsRing r out = add_front m new head r.last xs r.walk r.closed r.distinct out
