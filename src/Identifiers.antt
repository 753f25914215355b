-- ===== src/Identifiers.antt =====
-- src/utils.c: the identifiers of requests and of PVFS file handles. Each function advances the
-- global counter under its lock and returns it; one thread per counter calls it, so the value
-- returned is the new value of the counter.
use forwarding_explorer.Base.{ℕ, zero, suc, ◌+◌, ◌%◌, ◌^◌, ltb, if◌then◌else◌}
pub mod Cycle

-- `global_id` is an unsigned long long.
unfoldable pub generate_identifier : ℕ → ℕ
generate_identifier global_id =
    let next = (global_id + 1) % 2 ^ 64 in if ltb 9000000 next then 1000000 else next

-- `pvfs_fh_id` is an int, and never gets near its limit.
unfoldable pub generate_pfs_identifier : ℕ → ℕ
generate_pfs_identifier pvfs_fh_id =
    let next = pvfs_fh_id + 1 in if ltb 90000 next then 100 else next

-- The counter after `n` calls.
unfoldable pub after_calls : (ℕ → ℕ) → ℕ → ℕ → ℕ
after_calls generate zero g = g
after_calls generate (suc n) g = generate (after_calls generate n g)
