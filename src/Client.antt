-- ===== src/Client.antt =====
-- src/main.c: what a client does, from the first request to the empty message at the end: the
-- requests it issues, the data it sends, and the check of what it reads.
pub mod Actions
pub mod Answers
pub mod Rounds
pub mod Validation
pub mod Service
pub mod Session
use forwarding_explorer.Base.{
  ℕ, zero, suc, ◌+◌, ◌*◌, ◌%◌, Bool, true, false, not, ◌&&◌, List, [], ◌∷◌, ◌++◌, ◌==◌, length,
  if◌then◌else◌,
}
use forwarding_explorer.Base.Int.{ℤ, pos, negsuc, int_eq}
use forwarding_explorer.Config.{exceeds}
use forwarding_explorer.Server.Types.{
  FileName, Request, op_read, op_write, op_open, op_close, Result, ok, abort, fault, ◌>>=◌,
}
use forwarding_explorer.Server.Env.{Env}
use forwarding_explorer.Workload.{Files, individual, shared, Layout, offset}

abbrev pub error_validation_failed : ℕ
error_validation_failed = 700018

-- `simulation_path`; `digits` is how "%03d" writes a rank.
abbrev pub path_of : Files → (base_path : FileName) (digits : ℕ → FileName) (rank : ℕ) → FileName
path_of individual base_path digits rank = base_path ++ (b'-' ∷ digits rank)
path_of shared base_path digits rank = base_path

-- The size of the buffer, MAX_REQUEST_SIZE.
abbrev pub max_request_size : ℕ
max_request_size = 128 * 1024 * 1024

-- What a client has in its buffer, if a request is not larger than it.
abbrev pub fill_byte : (client_rank : ℕ) → ℕ
fill_byte client_rank = b'a' + client_rank % 25

abbrev pub buffer_of : (size client_rank : ℕ) → List ℕ
buffer_of zero client_rank = []
buffer_of (suc size) client_rank = fill_byte client_rank ∷ buffer_of size client_rank

-- The rounds `i`, `i + 1`, ... of a loop with `k` rounds left, where `late i` is whether the time
-- after round `i` is past the stone wall.
abbrev pub rounds_from : (stone_wall : ℤ) (late : ℕ → Bool) (i k : ℕ) → List ℕ
rounds_from stone_wall late i zero = []
rounds_from stone_wall late i (suc k) =
    let rest = rounds_from stone_wall late (suc i) k in
    i ∷ (if exceeds stone_wall 0 && late i then [] else rest)

abbrev pub open_request : FileName → Request
open_request path = record {
  file_name = path;
  file_handle = negsuc 0;
  operation = op_open;
  offset = 0;
  size = 1;
}

abbrev pub close_request : FileName → Request
close_request path = record {
  file_name = path;
  file_handle = negsuc 0;
  operation = op_close;
  offset = 0;
  size = 1;
}

-- What a client does that others see: a message to its server, with the data of the request before
-- or nothing at all, a message it waits for, or a barrier of the clients.
pub data Action : Type 0 where
  sends : Request → Action
  sends_data : List ℕ → Action
  sends_empty : Action
  receives_handle : Action
  receives_ack : Action
  receives_data : (size : ℕ) → Action
  barrier : Action

module _ (to_double : ℕ → ℕ) (l : Layout) (path : FileName) (client_rank : ℕ) where
  -- The name is not set in the memory of these requests, `any_name`, and no server reads it.
  module _ (any_name : FileName) (handle : ℤ) where
    abbrev pub io_request : (operation i : ℕ) → Request
    io_request operation i = record {
      file_name = any_name;
      file_handle = handle;
      operation = operation;
      offset = offset to_double l client_rank i;
      size = l.request_size;
    }

    abbrev pub write_rounds : List ℕ → List Action
    write_rounds [] = []
    write_rounds (i ∷ rounds) =
        sends (io_request op_write i)
        ∷ receives_ack
        ∷ sends_data (buffer_of l.request_size client_rank)
        ∷ receives_ack
        ∷ write_rounds rounds

    abbrev pub read_rounds : List ℕ → List Action
    read_rounds [] = []
    read_rounds (i ∷ rounds) =
        sends (io_request op_read i)
        ∷ receives_ack
        ∷ receives_data l.request_size
        ∷ read_rounds rounds

    -- The two parts of an experiment. Only the one that writes has a barrier before its CLOSE, and
    -- the collective calls for the statistics are left out.
    abbrev pub write_phase : List ℕ → List Action
    write_phase rounds =
        sends (open_request path)
        ∷ receives_handle
        ∷ barrier
        ∷ (write_rounds rounds
            ++ (barrier ∷ barrier ∷ sends (close_request path) ∷ receives_ack ∷ barrier ∷ []))

    abbrev pub read_phase : List ℕ → List Action
    read_phase rounds =
        sends (open_request path)
        ∷ receives_handle
        ∷ barrier
        ∷ (read_rounds rounds
            ++ (barrier ∷ sends (close_request path) ∷ receives_ack ∷ barrier ∷ []))

  -- The whole client, with the handles that it receives, and the times in both of its loops. `stone`
  -- is the stone wall.
  unfoldable pub client_actions :
      (any_name : FileName) (writes reads : Bool) (stone : ℤ) (write_handle read_handle : ℤ)
      (late_write late_read : ℕ → Bool)
      → List Action
  client_actions any_name writes reads stone write_handle read_handle late_write late_read =
      (if writes
        then write_phase any_name write_handle (rounds_from stone late_write 0 l.operations)
        else [])
      ++ ((if reads
            then read_phase any_name read_handle (rounds_from stone late_read 0 l.operations)
            else [])
          ++ (barrier ∷ barrier ∷ sends_empty ∷ barrier ∷ []))

-- The bytes of a buffer that are not those the client has written.
abbrev pub errors_in : (client_rank : ℕ) → List ℕ → ℕ
errors_in client_rank [] = 0
errors_in client_rank (b ∷ bytes) =
    (if b == fill_byte client_rank then 0 else 1) + errors_in client_rank bytes

-- The answer to a READ: its size is asserted, and its data are checked if `validation` is set.
unfoldable pub receive_read : (validation : ℤ) (size client_rank : ℕ) → List ℕ → Result (List ℕ)
receive_read validation size client_rank bytes =
    if not (length bytes == size)
    then fault
    else if not (int_eq validation (pos 0)) && not (errors_in client_rank bytes == 0)
    then abort error_validation_failed
    else ok bytes

-- The data of the rounds on the files that the servers access, with the handle of the client. The
-- server answers a WRITE when its data are in the file.
module _ (to_double : ℕ → ℕ) (l : Layout) (env : Env) where
  open env use {files}

  abbrev pub write_round : (handle : ℤ) (client_rank i : ℕ) → files.Disk → files.Disk
  write_round handle client_rank i disk =
      files.pwrite handle (buffer_of l.request_size client_rank) (offset to_double l client_rank i)
        disk

  -- The rounds of all clients, each a client and its round, in the order in which they come.
  unfoldable pub write_all_rounds : (handles : ℕ → ℤ) → List (ℕ × ℕ) → files.Disk → files.Disk
  write_all_rounds handles [] disk = disk
  write_all_rounds handles ((r, i) ∷ order) disk =
      write_all_rounds handles order (write_round (handles r) r i disk)

  unfoldable pub read_loop :
      (validation handle : ℤ) (client_rank : ℕ) → List ℕ → files.Disk → Result (List (List ℕ))
  read_loop validation handle client_rank [] disk = ok []
  read_loop validation handle client_rank (i ∷ rounds) disk =
      receive_read validation l.request_size client_rank
        (files.pread handle l.request_size (offset to_double l client_rank i) disk)
      >>= λ bytes. read_loop validation handle client_rank rounds disk >>= λ rest. ok (bytes ∷ rest)
