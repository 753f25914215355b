-- ===== src/Workload/Totals.antt =====
-- How much data the clients of src/main.c write and read together.
use forwarding_explorer.Base.{ℕ, ◌+◌, ◌*◌, ◌/◌, ◌%◌, ◌^◌, ◌≤◌, ◌<◌, ◌≡◌, ◌↔◌, some, arith}
use native.Mathlib.Nat.{div-le_self, div-div-eq-div-mul, mul_comm, div-add-mod}
use forwarding_explorer.Workload.{rank_size, operations_of}
use forwarding_explorer.Workload.Extents.{IsExact, u64_eq}

-- Two divisions are one by the product, so what is accessed is the total less a remainder.
rounds-eq : (t c s : ℕ) → s * (t / c / s * c) + t % (s * c) ≡ t
rounds-eq t c s = rw (div-div-eq-div-mul t c s, mul_comm c s) (omega (arith, div-add-mod t (s * c)))

module _ (to_double : ℕ → ℕ) (exact : IsExact to_double) (total clients request : ℕ) where
  operations-eq :
      total ≤ 2 ^ 53
      → 0 < clients
      → 0 < request
      → total / clients / request < 2 ^ 31
      → operations_of to_double total clients request ≡ some (total / clients / request)
  unfolding operations_of rank_size
  operations-eq fits some_client some_byte few =
      let q : total / clients ≤ total = div-le_self total clients in
      rw (exact (total / clients) (omega arith), u64_eq (total / clients) (omega arith))
        (ground arith)

  -- With doubles that hold the integers up to 2 ^ 53 exactly, and for a total of at most 2 ^ 53
  -- bytes, at least one client, requests that are not empty and
  -- less than 2 ^ 31 requests to a client, the number of requests of each client is computed
  -- without a fault, the clients together access at most the total that was asked for, and all of
  -- it exactly when it is a multiple of a request of every client.
  pub data_le_total :
      total ≤ 2 ^ 53
      → 0 < clients
      → 0 < request
      → total / clients / request < 2 ^ 31
      → (n : ℕ) × (operations_of to_double total clients request ≡ some n)
        × (request * (n * clients) ≤ total)
        × ((request * (n * clients) ≡ total) ↔ (total % (request * clients) ≡ 0))
  data_le_total fits some_client some_byte few =
      let whole = rounds-eq total clients request in
      (
        _,
        operations-eq fits some_client some_byte few,
        omega arith,
        (λ e. omega arith, λ e. omega arith),
      )
