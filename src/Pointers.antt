-- ===== src/Pointers.antt =====
-- src/utils.c: `safe_memory_free`, on pointer variables that hold the addresses of allocated blocks.
use forwarding_explorer.Base.{
  ℕ, ◌≡◌, refl, Bool, true, false, Option, none, some, List, [], ◌∷◌, ◌==◌, arith, All,
  if◌then◌else◌,
}
use forwarding_explorer.Server.Types.{Result, ok, fault, ◌>>=◌}

-- What the pointer variables hold, NULL being none, and which blocks are allocated.
pub record Heap : Type 0 where
  pub pointers : ℕ → Option ℕ
  pub allocated : ℕ → Bool

-- `free`: C does not define it for a block that is not allocated.
unfoldable pub free : (block : ℕ) → Heap → Result Heap
free block h =
    if h.allocated block
    then ok (record h { allocated = λ b. if b == block then false else h.allocated b })
    else fault

abbrev pub set_null : (variable : ℕ) → Heap → Heap
set_null variable h = record h { pointers = λ v. if v == variable then none else h.pointers v }

-- The address of a variable, or NULL. The warning is only logged.
unfoldable pub safe_memory_free : (pointer_address : Option ℕ) → Heap → Result Heap
unfolding free
safe_memory_free none h = ok h
safe_memory_free (some variable) h = elim (h.pointers variable) [
  | none ↦ ok h
  | some block ↦ free block h >>= λ h. ok (set_null variable h)
]

unfoldable pub free_all : List ℕ → Heap → Result Heap
unfolding safe_memory_free
free_all [] h = ok h
free_all (v ∷ variables) h = safe_memory_free (some v) h >>= free_all variables

-- Each block is held by one variable at most, and is allocated if it is.
pub record IsOwned (h : Heap) : Type 0 where
  pub is_allocated : (v b : ℕ) → h.pointers v ≡ some b → h.allocated b ≡ true
  pub one_owner : (v u b : ℕ) → h.pointers v ≡ some b → h.pointers u ≡ some b → v ≡ u

-- The heap after a variable that holds `p` is freed.
abbrev released : (variable : ℕ) → Option ℕ → Heap → Heap
released v none h = h
released v (some block) h = record {
  pointers = λ u. if u == v then none else h.pointers u;
  allocated = λ b. if b == block then false else h.allocated b;
}

released-IsOwned :
    (v : ℕ) (p : Option ℕ) (h : Heap)
    → h.pointers v ≡ p
    → IsOwned h
    → (safe_memory_free (some v) h ≡ ok (released v p h))
      × IsOwned (released v p h)
      × ((released v p h).pointers v ≡ none)
unfolding safe_memory_free free
released-IsOwned v none h e own = (rw (e, safe_memory_free) refl, own, e)
released-IsOwned v (some block) h e own = (
  rw (e, safe_memory_free, own.is_allocated v block e) refl,
  record {
    is_allocated = λ u b q.
        let known = own.is_allocated u b in let apart = own.one_owner u v block in ground arith;
    one_owner = λ u w b q r. let known = own.one_owner u w b in ground arith;
  },
  ground arith,
)

released-none :
    (v u : ℕ) (p : Option ℕ) (h : Heap) → h.pointers u ≡ none → (released v p h).pointers u ≡ none
released-none v u none h e = e
released-none v u (some block) h e = ground arith

-- While each block has one owner, no sequence of calls frees a block that is not allocated, whether
-- variables are freed once or several times. Afterwards these variables, and those that were NULL, are
-- NULL, and each block that is held still has one owner.
pub free_all-IsOwned :
    (variables : List ℕ) (h : Heap)
    → IsOwned h
    → (t : Heap) × (free_all variables h ≡ ok t)
      × IsOwned t
      × All (λ v. t.pointers v ≡ none) variables
      × ((u : ℕ) → h.pointers u ≡ none → t.pointers u ≡ none)
unfolding free_all
free_all-IsOwned [] h own = (h, refl, own, tt, λ u e. e)
free_all-IsOwned (v ∷ variables) h own =
    let (frees, still, null) = released-IsOwned v (h.pointers v) h refl own in
    let (t, rest, owned, nulls, kept) =
      free_all-IsOwned variables (released v (h.pointers v) h) still in
    (
      t,
      rw frees rest,
      owned,
      (kept v null, nulls),
      λ u e. kept u (released-none v u (h.pointers v) h e),
    )
