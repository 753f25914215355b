-- ===== src/Server/System.antt =====
-- The threads of a forwarding server over their shared state: src/server/listener.c,
-- src/server/handler.c, src/server/dispatcher.c, src/handler/, src/scheduler.c and
-- src/dispatcher/posix.c. An event is what one thread does between two points where it waits; any
-- enabled event may come next.
use forwarding_explorer.Base.{
  ℕ, zero, suc, ◌+◌, Bool, true, Option, none, some, List, [], ◌∷◌, ◌++◌, ◌==◌, if◌then◌else◌,
  length,
}
use forwarding_explorer.Base.Int.{ℤ}
use forwarding_explorer.Identifiers.{generate_identifier}
use forwarding_explorer.Server.Types.{
  Request, ForwardingRequest, AggregatedRequest, Result, ok, abort, fault, blocked, ◌>>=◌, op_read,
  op_write, op_open, op_close, error_agios_request, error_unknown_request_type,
}
use forwarding_explorer.Server.Env.{Env}
use forwarding_explorer.Server.Handles.{Handles, handle_open, handle_close}

-- The work in the thread pool: a function of src/handler/ or src/dispatcher/ and its argument.
-- `receive` is the rest of `handle_write`, behind its MPI_Wait.
pub data Job : Type 0 where
  handle_read handle_write receive : ForwardingRequest → Job
  dispatch callback_read callback_write : AggregatedRequest → Job

-- What a server sends: the handle of a file, the answer to a CLOSE, the identifier of a request,
-- and the data or the answer that completes it. The identifier in `write_done` is the reader's:
-- the message carries the number 1 only.
pub data Message : Type 0 where
  file_handle : (rank : ℕ) → ℤ → Message
  closed : (rank : ℕ) → Message
  identifier : (rank id : ℕ) → Message
  content : (rank id : ℕ) → List ℕ → Message
  write_done : (rank id : ℕ) → Message

pub record Server (env : Env) : Type 0 where
  pub global_id : ℕ
  pub incoming : List ForwardingRequest
  pub pool : List Job
  pub requests : env.requests.Table
  pub agios : List ℕ
  pub ready : List ℕ
  pub collecting : Option ForwardingRequest
  pub handles : Handles env
  pub memory : ℕ → List ℕ
  pub next_buffer : ℕ
  pub shutdown : ℕ
  pub shutdown_control : Bool
  pub sent : List Message

abbrev pub store : (ℕ → List ℕ) → ℕ → List ℕ → ℕ → List ℕ
store memory p bytes a = if a == p then bytes else memory a

unfoldable pub zeros : ℕ → List ℕ
zeros zero = []
zeros (suc n) = 0 ∷ zeros n

-- The job that runs next, and the others.
unfoldable pub pick : ℕ → List Job → Option (Job × List Job)
pick k [] = none
pick zero (j ∷ js) = some (j, js)
pick (suc k) (j ∷ js) = elim (pick k js) [ none ↦ none | some (i, is) ↦ some (i, j ∷ is) ]

-- AGIOS hands back requests that it holds.
unfoldable pub take_out : ℕ → List ℕ → Option (List ℕ)
take_out a [] = none
take_out a (x ∷ xs) =
    if a == x then some xs else elim (take_out a xs) [ none ↦ none | some ys ↦ some (x ∷ ys) ]

module _ (env : Env) where
  open env use {requests as table}

  abbrev pub send : Message → Server env → Server env
  send msg s = record s { sent = s.sent ++ msg ∷ [] }

  abbrev pub add_work : Job → Server env → Server env
  add_work j s = record s { pool = s.pool ++ j ∷ [] }

  -- `server_listener`: a request, and the empty message of a client that has finished. `clients`
  -- is the number of clients of the server.
  unfoldable pub listen : (rank : ℕ) → Request → Server env → Server env
  listen rank q s =
      let id = generate_identifier s.global_id in
      record s {
        global_id = id;
        incoming =
            s.incoming
            ++ record {
              id = id;
              rank = rank;
              file_name = q.file_name;
              file_handle = q.file_handle;
              operation = q.operation;
              offset = q.offset;
              size = q.size;
              buffer = 0;
            }
              ∷ [];
      }

  unfoldable pub listen_shutdown : (clients : ℕ) → Server env → Server env
  listen_shutdown clients s = record s {
    shutdown = s.shutdown + 1;
    shutdown_control = if clients == s.shutdown + 1 then true else s.shutdown_control;
  }

  -- OPEN and CLOSE are processed at once.
  unfoldable pub answer_open : ForwardingRequest → Server env → Result (Server env)
  answer_open r s = handle_open env r.file_name s.handles >>= λ (fh, handles).
      ok (send (file_handle r.rank fh) (record s { handles = handles }))

  unfoldable pub answer_close : ForwardingRequest → Server env → Result (Server env)
  answer_close r s = handle_close env r.file_name s.handles >>= λ handles.
      ok (send (closed r.rank) (record s { handles = handles }))

  -- `server_handler`, for a request that it has taken off the incoming queue.
  unfoldable pub handle : ForwardingRequest → Server env → Result (Server env)
  handle r s =
      if r.operation == op_open
      then answer_open r s
      else if r.operation == op_read
      then ok (add_work (handle_read r) s)
      else if r.operation == op_write
      then ok (add_work (handle_write r) s)
      else if r.operation == op_close
      then answer_close r s
      else abort error_unknown_request_type

  -- The head of the incoming queue; a handler waits while there is none.
  unfoldable pub handle_first : List ForwardingRequest → Server env → Result (Server env)
  handle_first [] s = blocked
  handle_first (r ∷ rest) s = handle r (record s { incoming = rest })

  unfoldable pub server_handler : Server env → Result (Server env)
  unfolding handle_first
  server_handler s = handle_first s.incoming s

  -- What a new buffer holds, by posix_memalign or calloc.
  abbrev pub new_memory : (buffer size : ℕ) → List ℕ
  new_memory buffer size = if env.direct_io then env.unset buffer size else zeros size

  -- The buffer of a request.
  unfoldable pub allocate : ForwardingRequest → Server env → ForwardingRequest × Server env
  allocate r s = (
    record r { buffer = s.next_buffer },
    record s {
      memory = store s.memory s.next_buffer (new_memory s.next_buffer r.size);
      next_buffer = s.next_buffer + 1;
    },
  )

  -- HASH_ADD_INT and `agios_add_request`, which may refuse the request.
  unfoldable pub submit : (refused : Bool) → ForwardingRequest → Server env → Result (Server env)
  submit refused r s =
      if refused
      then abort error_agios_request
      else ok (record s { requests = table.add r.id r s.requests; agios = s.agios ++ r.id ∷ [] })

  unfoldable pub run_read : Bool → ForwardingRequest → Server env → Result (Server env)
  unfolding allocate submit
  run_read refused r s =
      let (r', s') = allocate r s in submit refused r' (send (identifier r.rank r.id) s')

  unfoldable pub run_write : ForwardingRequest → Server env → Server env
  unfolding allocate
  run_write r s =
      let (r', s') = allocate r s in add_work (receive r') (send (identifier r.rank r.id) s')

  unfoldable pub run_receive : Bool → List ℕ → ForwardingRequest → Server env → Result (Server env)
  unfolding submit
  run_receive refused payload r s =
      if r.size == length payload
      then submit refused r (record s { memory = store s.memory r.buffer payload })
      else fault
