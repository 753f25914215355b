-- ===== src/Server/Pvfs.antt =====
-- src/dispatcher/orangefs.c: how an aggregated request is described to PVFS, and how its clients are
-- answered.
pub mod Replies
use forwarding_explorer.Base.{
  ℕ, none, some, List, [], ◌∷◌, ◌++◌, ◌==◌, take, map, ltb, if◌then◌else◌,
}
use forwarding_explorer.Base.Int.{ℤ}
use forwarding_explorer.Config.{to_int}
use forwarding_explorer.Server.Types.{ForwardingRequest, Result, ok, fault}
use forwarding_explorer.Server.Env.{Env}
use forwarding_explorer.Server.System.{Server, content, store, send}
use forwarding_explorer.Server.Dispatch.{reply_write}

-- A contiguous piece of memory and of the file, or one piece for each request: `sizes`,
-- `displacements` and `offsets`.
pub data Io : Type 0 where
  one_piece : (size : ℤ) (buffer offset : ℕ) → Io
  indexed : (sizes : List ℤ) (displacements offsets : List ℕ) → Io

unfoldable pub compare_offsets : (a b : ForwardingRequest) → ℕ
compare_offsets a b = if ltb b.offset a.offset then 1 else 0

-- `dispatch_operation` up to its call of PVFS_sys_io, with libc's qsort. The sizes are an array of
-- 32-bit ints.
module _
    (qsort : (ForwardingRequest → ForwardingRequest → ℕ)
      → List ForwardingRequest
      → List ForwardingRequest) where
  unfoldable pub describe : List ForwardingRequest → Io
  describe (r ∷ []) = one_piece (to_int r.size) r.buffer r.offset
  describe requests =
      let sizes = map (λ r. to_int r.size) requests in
      let sorted = qsort compare_offsets requests in
      indexed sizes (map (λ r. r.buffer) sorted) (map (λ r. r.offset) sorted)

module _ (env : Env) where
  open env use {requests as table}

  -- `callback_read`, which frees the buffers, too.
  unfoldable pub pvfs_callback_read : List ForwardingRequest → Server env → Result (Server env)
  pvfs_callback_read [] s = ok s
  pvfs_callback_read (r ∷ rs) s = elim (table.find r.id s.requests) [
    | none ↦ fault
    | some current ↦ pvfs_callback_read rs (
        send env (content current.rank current.id (take current.size (s.memory current.buffer)))
          (record s {
            requests = table.delete current.id s.requests;
            memory = store s.memory current.buffer [];
          }))
  ]

  -- `callback_write`, which does what that of src/dispatcher/posix.c does.
  abbrev pub pvfs_callback_write : List ForwardingRequest → Server env → Result (Server env)
  pvfs_callback_write = reply_write env
