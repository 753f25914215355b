-- ===== src/Server/Types.antt =====
-- The types and constants of include/forge.h. A `char[255]` with a file name is the list of its
-- bytes, a buffer is named by its address.
use forwarding_explorer.Base.{ℕ, List}
use forwarding_explorer.Base.Int.{ℤ}

abbrev pub FileName : Type 0
FileName = List ℕ

-- READ, WRITE, OPEN, CLOSE
abbrev pub op_read : ℕ
op_read = 0

abbrev pub op_write : ℕ
op_write = 1

abbrev pub op_open : ℕ
op_open = 3

abbrev pub op_close : ℕ
op_close = 4

abbrev pub max_batch_size : ℕ
max_batch_size = 16

abbrev pub error_agios_request : ℕ
error_agios_request = 70003

abbrev pub error_invalid_request_id : ℕ
error_invalid_request_id = 70007

abbrev pub error_unknown_request_type : ℕ
error_unknown_request_type = 70012

abbrev pub error_failed_to_close : ℕ
error_failed_to_close = 70014

abbrev pub error_posix_open : ℕ
error_posix_open = 700016

-- `struct request`: what a client sends.
pub record Request : Type 0 where
  pub file_name : FileName
  pub file_handle : ℤ
  pub operation : ℕ
  pub offset : ℕ
  pub size : ℕ

-- `struct forwarding_request`
pub record ForwardingRequest : Type 0 where
  pub id : ℕ
  pub rank : ℕ
  pub file_name : FileName
  pub file_handle : ℤ
  pub operation : ℕ
  pub offset : ℕ
  pub size : ℕ
  pub buffer : ℕ

-- `struct aggregated_request`: `count` is the length of `requests`, and `size` is never used.
pub record AggregatedRequest : Type 0 where
  pub file_handle : ℤ
  pub operation : ℕ
  pub requests : List ForwardingRequest

-- `struct opened_handles`
pub record OpenedHandle : Type 0 where
  pub fh : ℤ
  pub path : FileName
  pub references : ℕ

-- How an operation ends: with a value, by MPI_Abort with a code, by a fault (a null pointer that is
-- followed, or a failed `assert`), or not at all, since its thread waits.
pub data Result {ℓ} (A : Type ℓ) : Type ℓ where
  ok : A → Result A
  abort : ℕ → Result A
  fault : Result A
  blocked : Result A

infixl 5 ◌>>=◌
abbrev pub ◌>>=◌ {ℓ κ} : {A : Type ℓ} {B : Type κ} → Result A → (A → Result B) → Result B
ok a >>= f = f a
abort c >>= f = abort c
fault >>= f = fault
blocked >>= f = blocked
