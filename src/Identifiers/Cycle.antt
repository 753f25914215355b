-- ===== src/Identifiers/Cycle.antt =====
-- What the identifiers of src/utils.c are after any number of calls.
use forwarding_explorer.Base.{ℕ, zero, suc, ◌+◌, ◌-◌, ◌%◌, ◌≤◌, ◌<◌, ◌≡◌, ◌≢◌, arith}
use forwarding_explorer.Identifiers.{generate_identifier, generate_pfs_identifier, after_calls}

-- The range of `global_id`, which main.c starts at 1000000.
abbrev pub IsRequestId : ℕ → Type 0
IsRequestId g = (1000000 ≤ g) × (g ≤ 9000000)

abbrev pub IsPfsId : ℕ → Type 0
IsPfsId g = (100 ≤ g) × (g ≤ 90000)

request_step :
    (g n x : ℕ)
    → x ≡ 1000000 + (g - 1000000 + n) % 8000001
    → generate_identifier x ≡ 1000000 + (g - 1000000 + suc n) % 8000001
unfolding generate_identifier
request_step g n x e = ground arith

pfs_step :
    (g n x : ℕ)
    → x ≡ 100 + (g - 100 + n) % 89901
    → generate_pfs_identifier x ≡ 100 + (g - 100 + suc n) % 89901
unfolding generate_pfs_identifier
pfs_step g n x e = ground arith

-- From a counter in its range, the counter after `n` calls has gone `n` places round the cycle of
-- the 8000001 numbers from 1000000 to 9000000.
pub after_calls-request :
    (g n : ℕ)
    → IsRequestId g
    → after_calls generate_identifier n g ≡ 1000000 + (g - 1000000 + n) % 8000001
unfolding after_calls
after_calls-request g zero h = omega arith
after_calls-request g (suc n) h = request_step g n _ (after_calls-request g n h)

pub after_calls-pfs :
    (g n : ℕ) → IsPfsId g → after_calls generate_pfs_identifier n g ≡ 100 + (g - 100 + n) % 89901
unfolding after_calls
after_calls-pfs g zero h = omega arith
after_calls-pfs g (suc n) h = pfs_step g n _ (after_calls-pfs g n h)

-- From a counter in its range, two calls of `generate_identifier` that are at most 8000000 calls
-- apart return different identifiers, and both are from 1000000 to 9000000.
pub request_ids_distinct :
    (g i j : ℕ)
    → IsRequestId g
    → i < j
    → j ≤ i + 8000000
    → (after_calls generate_identifier i g ≢ after_calls generate_identifier j g)
      × IsRequestId (after_calls generate_identifier i g)
      × IsRequestId (after_calls generate_identifier j g)
request_ids_distinct g i j h lt near =
    let a = after_calls-request g i h in
    let b = after_calls-request g j h in (λ e. omega arith, omega arith, omega arith)

-- From a counter in its range, two calls of `generate_pfs_identifier` that are at most 89900 calls
-- apart return different file handles, and both are from 100 to 90000.
pub pfs_ids_distinct :
    (g i j : ℕ)
    → IsPfsId g
    → i < j
    → j ≤ i + 89900
    → (after_calls generate_pfs_identifier i g ≢ after_calls generate_pfs_identifier j g)
      × IsPfsId (after_calls generate_pfs_identifier i g)
      × IsPfsId (after_calls generate_pfs_identifier j g)
pfs_ids_distinct g i j h lt near =
    let a = after_calls-pfs g i h in
    let b = after_calls-pfs g j h in (λ e. omega arith, omega arith, omega arith)
