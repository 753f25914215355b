-- ===== src/Server/Env.antt =====
-- What the server calls and does not implement: the hash tables of uthash.h, a copy of which is
-- in include/, and the system calls on files and memory.
use forwarding_explorer.Base.{ℕ, ◌≡◌, Bool, Option, none, some, List}
use mathlib.Core.Logic.{ite}
use forwarding_explorer.Base.Int.{ℤ}
use forwarding_explorer.Server.Types.{FileName, ForwardingRequest, OpenedHandle}

-- HASH_FIND, HASH_ADD and HASH_DEL. The manual asks that a key is added only if it is absent.
pub record HashTable (K V : Type 0) : Type 1 where
  pub Table : Type 0
  pub key_eq : Discrete K
  pub empty : Table
  pub find : K → Table → Option V
  pub add : K → V → Table → Table
  pub delete : K → Table → Table
  pub find-empty : (k : K) → find k empty ≡ none
  pub find-add :
      (k j : K) (v : V) (t : Table)
      → find k t ≡ none
      → find j (add k v t) ≡ ite (key_eq k j) (some v) (find j t)
  pub find-delete : (k j : K) (t : Table) → find j (delete k t) ≡ ite (key_eq k j) none (find j t)

-- open, close, pread and pwrite. `pread` returns the bytes that it stored in the buffer.
pub record FileSystem : Type 1 where
  pub Disk : Type 0
  pub open_file : FileName → Disk → ℤ × Disk
  pub close_file : ℤ → Disk → Disk
  pub pread : ℤ → (size offset : ℕ) → Disk → List ℕ
  pub pwrite : ℤ → List ℕ → (offset : ℕ) → Disk → Disk

-- `direct_io` is `simulation_direct_io == 1`, and `unset` what is in the memory that posix_memalign gives.
pub record Env : Type 1 where
  pub requests : HashTable ℕ ForwardingRequest
  pub handles : HashTable FileName OpenedHandle
  pub files : FileSystem
  pub direct_io : Bool
  pub unset : (buffer size : ℕ) → List ℕ
