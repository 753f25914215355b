-- ===== src/Workload.antt =====
-- src/main.c: which process does what, and which bytes of the file each client writes and reads.
-- The numbers are those of an accepted configuration: `world_size`, `forwarders` and the ranks are
-- ints that are not negative, `request_size` is an unsigned long.
pub mod Servers
pub mod Extents
pub mod Totals
use forwarding_explorer.Base.{
  ℕ, zero, suc, ◌+◌, ◌-◌, ◌*◌, ◌/◌, ◌%◌, ◌^◌, Bool, ◌||◌, Option, none, some, List, [], ◌∷◌, ◌==◌,
  ltb, if◌then◌else◌,
}

-- `get_forwarding_server`
unfoldable pub get_forwarding_server : (world_rank world_size forwarders : ℕ) → ℕ
get_forwarding_server world_rank world_size forwarders =
    (world_rank - forwarders) / ((world_size - forwarders) / forwarders)

-- `is_forwarding`
unfoldable pub is_forwarding : (world_rank forwarders : ℕ) → Bool
is_forwarding world_rank forwarders = ltb world_rank forwarders

-- `for (i = from; i < from + k; i++)`: the numbers that the loop stores.
unfoldable pub ranks_from : (from k : ℕ) → List ℕ
ranks_from from zero = []
ranks_from from (suc k) = from ∷ ranks_from (from + 1) k

unfoldable pub forwarding_ranks : (forwarders : ℕ) → List ℕ
unfolding ranks_from
forwarding_ranks forwarders = ranks_from 0 forwarders

unfoldable pub client_ranks : (world_size forwarders : ℕ) → List ℕ
unfolding ranks_from
client_ranks world_size forwarders = ranks_from forwarders (world_size - forwarders)

abbrev pub u64 : ℕ → ℕ
u64 n = n % 2 ^ 64

-- INDIVIDUAL or SHARED, and CONTIGUOUS or STRIDED.
pub data Files : Type 0 where
  individual shared : Files

pub data Spatiality : Type 0 where
  contiguous strided : Spatiality

-- The variables of a client that the offsets depend on. `operations` is `n`, the requests of each
-- client.
pub record Layout : Type 0 where
  pub files : Files
  pub spatiality : Spatiality
  pub request_size : ℕ
  pub operations : ℕ
  pub client_size : ℕ

-- The double nearest to a number is a parameter: main.c computes `simulation_rank_size` by `ceil`,
-- and adds up an offset of the contiguous layout in doubles, since `floor` returns one.
module _ (to_double : ℕ → ℕ) where
  -- `simulation_rank_size`: the division is one of integers, so `ceil` has nothing to round.
  unfoldable pub rank_size : (total_size client_size : ℕ) → ℕ
  rank_size total_size client_size = u64 (to_double (total_size / client_size))

  -- `n`, converted to int: a negative value lets no loop run. Both divisions fault at zero.
  unfoldable pub operations_of : (total_size client_size request_size : ℕ) → Option ℕ
  unfolding rank_size
  operations_of total_size client_size request_size =
      if (client_size == 0) || (request_size == 0)
      then none
      else some (
          let n = rank_size total_size client_size / request_size % 2 ^ 32 in
          if ltb n (2 ^ 31) then n else 0)

  unfoldable pub contiguous_offset : (l : Layout) (client_rank i : ℕ) → ℕ
  contiguous_offset l client_rank i =
      let block = u64 (l.request_size * l.operations) in
      let base = to_double (
        to_double ((i / l.operations) * to_double (u64 (block * l.client_size)))
        + to_double (u64 (block * client_rank))) in
      u64 (to_double (base + to_double (u64 (i * l.request_size))))

  unfoldable pub strided_offset : (l : Layout) (client_rank i : ℕ) → ℕ
  strided_offset l client_rank i =
      u64 (u64 (i * u64 (l.client_size * l.request_size)) + u64 (client_rank * l.request_size))

  -- `r->offset` of the request that a client issues in round `i` of its WRITE or READ loop.
  unfoldable pub offset : (l : Layout) (client_rank i : ℕ) → ℕ
  unfolding contiguous_offset strided_offset
  offset l client_rank i = elim l.files [
    | Files.shared ↦ elim l.spatiality [
      | Spatiality.contiguous ↦ contiguous_offset l client_rank i
      | Spatiality.strided ↦ strided_offset l client_rank i
    ]
    | Files.individual ↦ u64 (i * l.request_size)
  ]
