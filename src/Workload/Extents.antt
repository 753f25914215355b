-- ===== src/Workload/Extents.antt =====
-- The extents that the clients of src/main.c access: they tile the file.
use forwarding_explorer.Base.{ℕ, ◌+◌, ◌*◌, ◌/◌, ◌%◌, ◌^◌, ◌≤◌, ◌<◌, ◌≡◌, arith, ap, ◌∙◌}
use native.Mathlib.Nat.{le_trans, le_of_lt, mul-le-mul_left, div-eq_of_lt, zero-mul}
use forwarding_explorer.Workload.{
  Files, individual, shared, Spatiality, contiguous, strided, Layout, u64, offset,
  contiguous_offset, strided_offset,
}

-- The size of the file that all clients share.
abbrev pub data_size : Layout → ℕ
data_size l = l.request_size * (l.operations * l.client_size)

-- Doubles hold every integer up to 2 ^ 53.
abbrev pub IsExact : (ℕ → ℕ) → Type 0
IsExact to_double = (x : ℕ) → x ≤ 2 ^ 53 → to_double x ≡ x

-- The number of an extent in the file, counted in requests.
abbrev pub slot : Layout → (client_rank i : ℕ) → ℕ
slot l client_rank i = elim l.files [
  | Files.shared ↦ elim l.spatiality [
    | Spatiality.contiguous ↦ client_rank * l.operations + i
    | Spatiality.strided ↦ i * l.client_size + client_rank
  ]
  | Files.individual ↦ i
]

abbrev pub IsSlot : Layout → (client_rank i : ℕ) → Type 0
IsSlot l client_rank i = (client_rank < l.client_size) × (i < l.operations)

-- No product of the offset computation leaves the range in which it is exact.
row_lt : (n c r i : ℕ) → r < c → i < n → r * n + i < n * c
row_lt n c r i h k = grind arith

column_lt : (n c r i : ℕ) → r < c → i < n → i * c + r < n * c
column_lt n c r i h k = grind arith

row_le : (n c r : ℕ) → r < c → n ≤ n * c
row_le n c r h = grind arith

column_le : (n c i : ℕ) → i < n → c ≤ n * c
column_le n c i h = grind arith

slot_lt : (l : Layout) (r i : ℕ) → IsSlot l r i → slot l r i < l.operations * l.client_size
slot_lt l r i (hr, hi) =
    let a = row_lt l.operations l.client_size r i hr hi in
    let b = column_lt l.operations l.client_size r i hr hi in
    let c = row_le l.operations l.client_size r hr in ground arith

next_slot_le : (s k m : ℕ) → k < m → s * k + s ≤ s * m
next_slot_le s k m h = grind arith

pub u64_eq : (x : ℕ) → x ≤ 2 ^ 53 → u64 x ≡ x
u64_eq x h = omega arith

-- `a` rows of `b` fit where the whole does.
part_le : (s a m : ℕ) → a ≤ m → s * m ≤ 2 ^ 53 → s * a ≤ 2 ^ 53
part_le s a m h fits = le_trans (mul-le-mul_left s h) fits

contiguous-eq :
    (d : ℕ → ℕ)
    → IsExact d
    → (l : Layout) (r i : ℕ) → data_size l ≤ 2 ^ 53
    → IsSlot l r i
    → contiguous_offset d l r i ≡ l.request_size * (r * l.operations + i)
unfolding contiguous_offset
contiguous-eq d exact l r i fits (hr, hi) =
    let s = l.request_size in
    let n = l.operations in
    let below = row_lt n l.client_size r i hr hi in
    let one : s * n ≤ 2 ^ 53 = part_le s n _ (row_le n l.client_size r hr) fits in
    let whole : s * (r * n + i) ≤ 2 ^ 53 = part_le s _ _ (le_of_lt below) fits in
    let row : s * n * r ≤ 2 ^ 53 = omega arith in
    rw
      (
        u64_eq (s * n) one,
        div-eq_of_lt hi,
        zero-mul,
        exact 0 (omega arith),
        u64_eq (s * n * r) row,
        exact (s * n * r) row,
        exact (0 + s * n * r) (omega arith),
        u64_eq (i * s) (omega arith),
        exact (i * s) (omega arith),
        exact (0 + s * n * r + i * s) (omega arith),
      )
      (omega arith)

strided-eq :
    (d : ℕ → ℕ) (l : Layout) (r i : ℕ)
    → data_size l ≤ 2 ^ 53
    → IsSlot l r i
    → strided_offset d l r i ≡ l.request_size * (i * l.client_size + r)
unfolding strided_offset
strided-eq d l r i fits (hr, hi) =
    let s = l.request_size in
    let below = column_lt l.operations l.client_size r i hr hi in
    let whole : s * (i * l.client_size + r) ≤ 2 ^ 53 = part_le s _ _ (le_of_lt below) fits in
    let one : s * l.client_size ≤ 2 ^ 53 =
      part_le s _ _ (column_le l.operations l.client_size i hi) fits in
    rw (u64_eq (l.client_size * s) (omega arith)) (omega arith)

individual-eq :
    (l : Layout) (r i : ℕ)
    → data_size l ≤ 2 ^ 53
    → IsSlot l r i
    → u64 (i * l.request_size) ≡ l.request_size * i
individual-eq l r i fits (hr, hi) =
    let one : l.request_size * i ≤ 2 ^ 53 =
      part_le l.request_size _ _ (le_of_lt (le_trans hi (row_le l.operations l.client_size r hr)))
        fits in
    omega arith

-- In the range that doubles hold exactly, an offset is the slot times the size of a request.
pub offset-slot :
    (d : ℕ → ℕ)
    → IsExact d
    → (l : Layout) (r i : ℕ) → data_size l ≤ 2 ^ 53
    → IsSlot l r i
    → offset d l r i ≡ l.request_size * slot l r i
unfolding offset
offset-slot d exact l r i fits h = ground (
  arith,
  contiguous-eq d exact l r i fits h,
  strided-eq d l r i fits h,
  individual-eq l r i fits h,
)

-- A number below `n * c` is written in one way as a row and a place in it.
place_unique : (n r i r' i' : ℕ) → i < n → i' < n → r * n + i ≡ r' * n + i' → (r ≡ r') × (i ≡ i')
place_unique n r i r' i' h h' e =
    let q : r ≡ r' = grind arith in (q, let m = ap (λ (t : ℕ). t * n) q in omega arith)

pub slot_injective :
    (l : Layout) (r i r' i' : ℕ)
    → l.files ≡ shared
    → IsSlot l r i
    → IsSlot l r' i'
    → slot l r i ≡ slot l r' i'
    → (r ≡ r') × (i ≡ i')
slot_injective l r i r' i' e h h' q =
    ground (arith, place_unique l.operations r i r' i', place_unique l.client_size i r i' r')

-- Every slot of a shared file belongs to some client and round.
abbrev client_of : Layout → ℕ → ℕ
client_of l k = elim l.spatiality [ contiguous ↦ k / l.operations | strided ↦ k % l.client_size ]

abbrev round_of : Layout → ℕ → ℕ
round_of l k = elim l.spatiality [ contiguous ↦ k % l.operations | strided ↦ k / l.client_size ]

place_exists : (n c k : ℕ) → k < n * c → (k / n < c) × (k % n < n) × (k / n * n + k % n ≡ k)
place_exists n c k h = (grind arith, grind arith, grind arith)

slot_surjective :
    (l : Layout) (k : ℕ)
    → l.files ≡ shared
    → k < l.operations * l.client_size
    → IsSlot l (client_of l k) (round_of l k) × (slot l (client_of l k) (round_of l k) ≡ k)
slot_surjective l k e h =
    ground
      (arith, place_exists l.operations l.client_size k, place_exists l.client_size l.operations k)

slot_of_byte : (s m p : ℕ) → p < s * m → (p / s < m) × (s * (p / s) ≤ p) × (p < s * (p / s) + s)
slot_of_byte s m p h = (grind arith, grind arith, grind arith)

same_slot : (s p k o : ℕ) → o ≡ s * k → o ≤ p → p < o + s → p / s ≡ k
same_slot s p k o e lo hi = grind arith

module _ (to_double : ℕ → ℕ) (exact : IsExact to_double) (l : Layout) where
  -- The bytes `p` of the request that client `r` issues in round `i`.
  abbrev pub Accesses : (r i p : ℕ) → Type 0
  Accesses r i p =
      IsSlot l r i × (offset to_double l r i ≤ p) × (p < offset to_double l r i + l.request_size)

  -- If doubles hold the integers up to 2 ^ 53 exactly and the clients access at most 2 ^ 53 bytes of
  -- a shared file, contiguous or strided, then every byte below the total that they access is
  -- accessed by exactly one client in exactly one round.
  pub shared_file_tiled :
      l.files ≡ shared
      → data_size l ≤ 2 ^ 53
      → (p : ℕ) → p < data_size l
      → (r : ℕ) × (i : ℕ) × Accesses r i p × ((r' i' : ℕ) → Accesses r' i' p → (r ≡ r') × (i ≡ i'))
  shared_file_tiled e fits p lt =
      let k = p / l.request_size in
      let (below, from, to) = slot_of_byte l.request_size _ p lt in
      let (h, q) = slot_surjective l k e below in
      let o = offset-slot to_double exact l _ _ fits h in
      (
        client_of l k,
        round_of l k,
        (h, rw (o, q) from, rw (o, q) to),
        λ r' i' (h', lo, hi). slot_injective l _ _ r' i' e h h' (
            q ∙ same_slot l.request_size p _ _ (offset-slot to_double exact l r' i' fits h') lo hi),
      )

  offset-individual :
      l.files ≡ individual
      → data_size l ≤ 2 ^ 53
      → (r i : ℕ) → IsSlot l r i
      → offset to_double l r i ≡ l.request_size * i
  offset-individual e fits r i h = ground (arith, offset-slot to_double exact l r i fits h)

  -- If doubles hold the integers up to 2 ^ 53 exactly and the clients access at most 2 ^ 53 bytes
  -- together, each of them a file of its own, then every byte below a client's share is accessed in
  -- exactly one of its rounds.
  pub individual_file_tiled :
      l.files ≡ individual
      → data_size l ≤ 2 ^ 53
      → (r p : ℕ) → r < l.client_size
      → p < l.request_size * l.operations
      → (i : ℕ) × Accesses r i p × ((i' : ℕ) → Accesses r i' p → i ≡ i')
  individual_file_tiled e fits r p hr lt =
      let k = p / l.request_size in
      let (below, from, to) = slot_of_byte l.request_size _ p lt in
      let own = λ (i : ℕ) (h : IsSlot l r i). offset-individual e fits r i h in
      (
        k,
        ((hr, below), rw (own k (hr, below)) from, rw (own k (hr, below)) to),
        λ i' (h', lo, hi). same_slot l.request_size p i' _ (own i' h') lo hi,
      )

  -- If doubles hold the integers up to 2 ^ 53 exactly and the clients access at most 2 ^ 53 bytes
  -- together, no request of a client reaches past the end of the data of all clients.
  pub offset-le :
      data_size l ≤ 2 ^ 53
      → (r i : ℕ) → IsSlot l r i
      → offset to_double l r i + l.request_size ≤ data_size l
  offset-le fits r i h =
      rw (offset-slot to_double exact l r i fits h)
        (next_slot_le l.request_size _ _ (slot_lt l r i h))
