-- ===== src/Config.antt =====
-- src/main.c: the configuration file, after the JSON parser, and the checks of what it says.
pub mod Checks
pub mod Document
use Prim.Native.String.{String}
use text.Mathlib.Text.{◌==◌ as ◌is◌}
use forwarding_explorer.Base.{
  ℕ, ◌+◌, ◌-◌, ◌*◌, ◌%◌, ◌^◌, Bool, true, false, not, ◌&&◌, ◌||◌, Option, none, some, List, [], ◌∷◌,
  ◌==◌, ltb, if◌then◌else◌,
}
use forwarding_explorer.Base.Int.{ℤ, pos, negsuc}
use forwarding_explorer.Workload.{Files, individual, shared, Spatiality, contiguous, strided}
use forwarding_explorer.Server.Types.{Result, ok, abort, fault, ◌>>=◌}

abbrev pub error_invalid_pattern : ℕ
error_invalid_pattern = 70008

abbrev pub error_invalid_setup : ℕ
error_invalid_setup = 70009

abbrev pub error_invalid_validation : ℕ
error_invalid_validation = 70015

abbrev pub error_invalid_operation : ℕ
error_invalid_operation = 700021

abbrev pub error_stone_wall_setup : ℕ
error_stone_wall_setup = 700022

-- FWD_MAX_HANDLER_THREADS and FWD_MAX_PROCESS_THREADS
abbrev pub max_threads : ℕ
max_threads = 128

-- A token of the parser: whether it is a string, and the text that it covers.
pub record Token : Type 0 where
  pub is_string : Bool
  pub text : String

-- What the program calls to read a value.
pub record Libc : Type 0 where
  pub atoi : String → ℤ
  pub strtoul : String → ℕ
  pub strstr : (haystack needle : String) → Bool

-- The variables that the configuration sets.
pub record Settings : Type 0 where
  pub forwarders : ℤ
  pub handlers : ℤ
  pub dispatchers : ℤ
  pub base_path : String
  pub operations_write : Bool
  pub operations_read : Bool
  pub files : Files
  pub spatiality : Spatiality
  pub total_size : ℕ
  pub request_size : ℕ
  pub stone_wall : ℤ
  pub direct_io : ℤ
  pub validation : ℤ

abbrev pub defaults : Settings
defaults = record {
  forwarders = pos 0;
  handlers = pos 0;
  dispatchers = pos 0;
  base_path = "";
  operations_write = false;
  operations_read = false;
  files = individual;
  spatiality = contiguous;
  total_size = 0;
  request_size = 0;
  stone_wall = pos 0;
  direct_io = pos 0;
  validation = pos 0;
}

-- The branches of the loop.
pub data Key : Type 0 where
  forwarders_key handlers_key dispatchers_key path_key operations_key number_of_files_key : Key
  spatiality_key total_size_key request_size_key stone_wall_key direct_io_key validation_key : Key

abbrev pub jsoneq : Token → String → Bool
jsoneq t s = t.is_string && (t.text is s)

unfoldable pub key_of : Token → Option Key
key_of t =
    if jsoneq t "forwarders"
    then some forwarders_key
    else if jsoneq t "handlers"
    then some handlers_key
    else if jsoneq t "dispatchers"
    then some dispatchers_key
    else if jsoneq t "path"
    then some path_key
    else if jsoneq t "operations"
    then some operations_key
    else if jsoneq t "number_of_files"
    then some number_of_files_key
    else if jsoneq t "spatiality"
    then some spatiality_key
    else if jsoneq t "total_size"
    then some total_size_key
    else if jsoneq t "request_size"
    then some request_size_key
    else if jsoneq t "stone_wall"
    then some stone_wall_key
    else if jsoneq t "direct_io"
    then some direct_io_key
    else if jsoneq t "validation"
    then some validation_key
    else none

-- An unsigned long that is stored in an int.
abbrev pub to_int : ℕ → ℤ
to_int n = let low = n % 2 ^ 32 in if ltb low (2 ^ 31) then pos low else negsuc (2 ^ 32 - 1 - low)

abbrev pub is_flag : ℤ → Bool
is_flag (pos n) = ltb n 2
is_flag (negsuc n) = false

module _ (libc : Libc) where
  -- The body of a branch, on the text of the token behind the key.
  unfoldable pub assign : Key → String → Settings → Result Settings
  assign forwarders_key v s = ok (record s { forwarders = libc.atoi v })
  assign handlers_key v s = ok (record s { handlers = libc.atoi v })
  assign dispatchers_key v s = ok (record s { dispatchers = libc.atoi v })
  assign path_key v s = ok (record s { base_path = v })
  assign operations_key v s = ok (record s {
    operations_write = libc.strstr v "write";
    operations_read = libc.strstr v "read";
  })
  assign number_of_files_key v s =
      if v is "shared"
      then ok (record s { files = shared })
      else if v is "individual"
      then ok (record s { files = individual })
      else abort error_invalid_pattern
  assign spatiality_key v s =
      if v is "contiguous"
      then ok (record s { spatiality = contiguous })
      else if v is "strided"
      then ok (record s { spatiality = strided })
      else abort error_invalid_pattern
  assign total_size_key v s = ok (record s { total_size = libc.strtoul v })
  assign request_size_key v s = ok (record s { request_size = libc.strtoul v })
  assign stone_wall_key v s = ok (record s { stone_wall = to_int (libc.strtoul v) })
  assign direct_io_key v s = ok (record s { direct_io = to_int (libc.strtoul v) })
  assign validation_key v s =
      if is_flag (libc.atoi v)
      then ok (record s { validation = libc.atoi v })
      else abort error_invalid_validation

  -- The loop over the tokens behind the first. A key that is the last token is followed by one that
  -- the parser did not write. A token that is no key is skipped alone.
  unfoldable pub read_tokens : List Token → Settings → Result Settings
  read_tokens [] s = ok s
  read_tokens (t ∷ []) s = elim (key_of t) [ none ↦ ok s | some k ↦ fault ]
  read_tokens (t ∷ v ∷ ts) s = elim (key_of t) [
    | none ↦ read_tokens (v ∷ ts) s
    | some k ↦ assign k v.text s >>= read_tokens ts
  ]

-- `simulation_forwarders * 2` leaves the range of an int, which C does not define.
abbrev pub overflows : ℤ → Bool
overflows (pos n) = ltb (2 ^ 31 - 1) (n * 2)
overflows (negsuc n) = ltb (2 ^ 31) ((n + 1) * 2)

-- `world_size < simulation_forwarders * 2`
abbrev pub too_few : (world_size : ℕ) → ℤ → Bool
too_few world_size (pos n) = ltb world_size (n * 2)
too_few world_size (negsuc n) = false

-- `world_size % simulation_forwarders`, which faults at zero and has the sign of `world_size`.
abbrev pub remainder : (world_size : ℕ) → ℤ → Option ℕ
remainder world_size (pos n) = if n == 0 then none else some (world_size % n)
remainder world_size (negsuc n) = some (world_size % (n + 1))

-- `n > limit`
abbrev pub exceeds : ℤ → (limit : ℕ) → Bool
exceeds (pos n) limit = ltb limit n
exceeds (negsuc n) limit = false

abbrev pub is_individual : Files → Bool
is_individual individual = true
is_individual shared = false

abbrev pub is_strided : Spatiality → Bool
is_strided contiguous = false
is_strided strided = true

-- `!a != !b`
abbrev pub differ : Bool → Bool → Bool
differ true b = not b
differ false b = b

-- The checks of the access pattern and the operations.
unfoldable pub check_pattern : Settings → Result Settings
check_pattern s =
    if is_individual s.files && is_strided s.spatiality
    then abort error_invalid_pattern
    else if not s.operations_write && not s.operations_read
    then abort error_invalid_operation
    else if exceeds s.stone_wall 0 && not (differ s.operations_write s.operations_read)
    then abort error_stone_wall_setup
    else ok s

-- The checks of the numbers of processes and threads.
unfoldable pub check_processes : (world_size : ℕ) → Settings → Result Settings
check_processes world_size s =
    if overflows s.forwarders
    then fault
    else if too_few world_size s.forwarders
    then abort error_invalid_setup
    else elim (remainder world_size s.forwarders) [
      | none ↦ fault
      | some r ↦
          if not (r == 0)
          then abort error_invalid_setup
          else if exceeds s.handlers max_threads
          then abort error_invalid_setup
          else if exceeds s.dispatchers max_threads
          then abort error_invalid_setup
          else ok s
    ]

unfoldable pub check : (world_size : ℕ) → Settings → Result Settings
unfolding check_pattern check_processes
check world_size s = check_pattern s >>= check_processes world_size

-- The configuration with which main.c goes on.
unfoldable pub configure : Libc → (world_size : ℕ) → List Token → Result Settings
unfolding read_tokens check
configure libc world_size tokens = read_tokens libc tokens defaults >>= check world_size
