-- ===== src/Server/Service.antt =====
-- A server that serves one request after another: the events from a request to its answer.
use forwarding_explorer.Base.{
  ℕ, zero, suc, ◌+◌, ◌≡◌, ◌≢◌, refl, ap, ◌∙◌, false, none, some, List, [], ◌∷◌, ◌++◌, ==_self,
  length, take, drop, arith,
}
use mathlib.Core.Logic.{ite}
use forwarding_explorer.Identifiers.{generate_identifier}
use forwarding_explorer.Server.Types.{Request, ForwardingRequest, ok, op_read, op_write}
use forwarding_explorer.Server.Env.{Env}
use forwarding_explorer.Server.System.{
  Server, store, new_memory, pick, take_out, listen, server_handler, handle, handle_first, run_read,
  run_write, run_receive, submit, allocate, identifier, content, write_done,
}
use forwarding_explorer.Server.Batch.{take_ready, aggregate}
use forwarding_explorer.Server.Dispatch.{
  dispatch_operation, dispatch_read, dispatch_write, read_all, write_all, reply_read, reply_write,
}
use forwarding_explorer.Server.Dispatch.Bytes.{take_all}
use forwarding_explorer.Server.Step.{
  Event, request, handler, work, callback, dispatcher_take, dispatcher_collect, schedule, run_job,
  work_at, take_next, collect, step, run, init,
}

-- The events for a WRITE: it comes in, a handler gives it to the pool, its identifier is sent, its data
-- are received, AGIOS calls back, the dispatcher takes it and issues it, and its client is answered.
abbrev pub write_events : (rank id : ℕ) → Request → List ℕ → List Event
write_events rank id q payload =
    request rank q
    ∷ handler
    ∷ work 0 [] false
    ∷ work 0 payload false
    ∷ callback id
    ∷ dispatcher_take
    ∷ dispatcher_collect
    ∷ work 0 [] false
    ∷ work 0 [] false
    ∷ []

-- The same for a READ, whose client sends no data.
abbrev pub read_events : (rank id : ℕ) → Request → List Event
read_events rank id q =
    request rank q
    ∷ handler
    ∷ work 0 [] false
    ∷ callback id
    ∷ dispatcher_take
    ∷ dispatcher_collect
    ∷ work 0 [] false
    ∷ work 0 [] false
    ∷ []

take_front : (n : ℕ) (bytes rest : List ℕ) → length bytes ≡ n → take n (bytes ++ rest) ≡ bytes
take_front zero [] rest e = refl
take_front zero (b ∷ bytes) rest e = absurd (omega arith)
take_front (suc n) [] rest e = absurd (omega arith)
take_front (suc n) (b ∷ bytes) rest e = ap (λ l. b ∷ l) (take_front n bytes rest (omega arith))

module _ (env : Env) where
  open env use {requests as table, files}

  -- Nothing waits, and no request is in the table.
  pub record IsIdle (s : Server env) : Type 0 where
    pub no_incoming : s.incoming ≡ []
    pub no_pool : s.pool ≡ []
    pub no_agios : s.agios ≡ []
    pub no_ready : s.ready ≡ []
    pub not_collecting : s.collecting ≡ none
    pub no_request : (id : ℕ) → table.find id s.requests ≡ none

  -- A server is idle when its threads start.
  pub init-IsIdle : (disk : files.Disk) → IsIdle (init env disk)
  init-IsIdle disk = record {
    no_incoming = refl;
    no_pool = refl;
    no_agios = refl;
    no_ready = refl;
    not_collecting = refl;
    no_request = table.find-empty;
  }

  -- The request as the jobs know it.
  abbrev pub entry : (rank id buffer : ℕ) → Request → ForwardingRequest
  entry rank id buffer q = record {
    id = id;
    rank = rank;
    file_name = q.file_name;
    file_handle = q.file_handle;
    operation = q.operation;
    offset = q.offset;
    size = q.size;
    buffer = buffer;
  }

  same_key : {A : Type 0} (id : ℕ) (a b : A) → ite (table.key_eq id id) a b ≡ a
  same_key id a b = elim (table.key_eq id id) as (λ d. ite d a b ≡ a) [
    | yes e ↦ refl
    | no n ↦ absurd (n refl)
  ]

  other_key : {A : Type 0} (id j : ℕ) → id ≢ j → (a b : A) → ite (table.key_eq id j) a b ≡ b
  other_key id j n a b = elim (table.key_eq id j) as (λ d. ite d a b ≡ b) [
    | yes e ↦ absurd (n e)
    | no m ↦ refl
  ]

  found :
      (id : ℕ) (r : ForwardingRequest) (t : table.Table)
      → table.find id t ≡ none
      → table.find id (table.add id r t) ≡ some r
  found id r t absent = table.find-add id id r t absent ∙ same_key id (some r) (table.find id t)

  gone :
      (id : ℕ) (r : ForwardingRequest) (t : table.Table)
      → ((j : ℕ) → table.find j t ≡ none)
      → (j : ℕ) → table.find j (table.delete id (table.add id r t)) ≡ none
  gone id r t absent j =
      table.find-delete id j (table.add id r t)
      ∙ elim (table.key_eq id j) as (λ d. ite d none (table.find j (table.add id r t)) ≡ none) [
        | yes e ↦ refl
        | no n ↦
            table.find-add id j r t (absent id)
            ∙ other_key id j n (some r) (table.find j t)
            ∙ absent j
      ]

  -- The server once a WRITE is done.
  abbrev pub written : ℕ → Request → List ℕ → Server env → Server env
  written rank q payload s =
      let id = generate_identifier s.global_id in
      record s {
        global_id = id;
        requests = table.delete id (table.add id (entry rank id s.next_buffer q) s.requests);
        handles = record s.handles {
          disk = files.pwrite q.file_handle payload q.offset s.handles.disk;
        };
        memory =
            store
              (store (store s.memory s.next_buffer (new_memory env s.next_buffer q.size))
                s.next_buffer payload)
              s.next_buffer [];
        next_buffer = s.next_buffer + 1;
        sent = (s.sent ++ identifier rank id ∷ []) ++ write_done rank id ∷ [];
      }

  pub serve_write :
      (rank : ℕ) (q : Request) (payload : List ℕ) (s : Server env)
      → IsIdle s
      → q.operation ≡ op_write
      → q.size ≡ length payload
      → run env (write_events rank (generate_identifier s.global_id) q payload) s
        ≡ ok (written rank q payload s)
  unfolding run step listen server_handler handle_first handle work_at pick run_job run_write
      run_receive submit allocate schedule take_out take_next take_ready collect aggregate
      dispatch_operation dispatch_write write_all reply_write
  serve_write rank q payload s idle is_write full =
      let id = generate_identifier s.global_id in
      let r =
        entry rank id s.next_buffer (record q { operation = op_write; size = length payload }) in
      let known = found id r s.requests (idle.no_request id) in
      rw
        (
          idle.no_incoming,
          is_write,
          idle.no_pool,
          full,
          ==_self (length payload),
          idle.no_agios,
          ==_self id,
          idle.not_collecting,
          idle.no_ready,
          known,
        )
        (rw (known, ==_self s.next_buffer, take_all (length payload) payload refl) refl)

  pub written-IsIdle :
      (rank : ℕ) (q : Request) (payload : List ℕ) (s : Server env)
      → IsIdle s
      → IsIdle (written rank q payload s)
  written-IsIdle rank q payload s idle =
      let id = generate_identifier s.global_id in
      record {
        no_incoming = idle.no_incoming;
        no_pool = idle.no_pool;
        no_agios = idle.no_agios;
        no_ready = idle.no_ready;
        not_collecting = idle.not_collecting;
        no_request = gone id (entry rank id s.next_buffer q) s.requests idle.no_request;
      }

  -- The server once a READ is done, which is answered with all the bytes that were asked for.
  abbrev pub was_read : ℕ → Request → Server env → Server env
  was_read rank q s =
      let id = generate_identifier s.global_id in
      let bytes = files.pread q.file_handle q.size q.offset s.handles.disk in
      record s {
        global_id = id;
        requests = table.delete id (table.add id (entry rank id s.next_buffer q) s.requests);
        memory =
            store (store s.memory s.next_buffer (new_memory env s.next_buffer q.size)) s.next_buffer
              (bytes ++ drop (length bytes) (new_memory env s.next_buffer q.size));
        next_buffer = s.next_buffer + 1;
        sent = (s.sent ++ identifier rank id ∷ []) ++ content rank id bytes ∷ [];
      }

  pub serve_read :
      (rank : ℕ) (q : Request) (s : Server env)
      → IsIdle s
      → q.operation ≡ op_read
      → length (files.pread q.file_handle q.size q.offset s.handles.disk) ≡ q.size
      → run env (read_events rank (generate_identifier s.global_id) q) s ≡ ok (was_read rank q s)
  unfolding run step listen server_handler handle_first handle work_at pick run_job run_read submit
      allocate schedule take_out take_next take_ready collect aggregate dispatch_operation
      dispatch_read read_all reply_read
  serve_read rank q s idle is_read full =
      let id = generate_identifier s.global_id in
      let bytes = files.pread q.file_handle q.size q.offset s.handles.disk in
      let r = entry rank id s.next_buffer (record q { operation = op_read }) in
      let known = found id r s.requests (idle.no_request id) in
      rw
        (
          idle.no_incoming,
          is_read,
          idle.no_pool,
          idle.no_agios,
          ==_self id,
          idle.not_collecting,
          idle.no_ready,
          known,
        )
        (rw
          (
            known,
            ==_self s.next_buffer,
            take_front q.size bytes (drop (length bytes) (new_memory env s.next_buffer q.size))
                full,
          )
          refl)

  pub was_read-IsIdle :
      (rank : ℕ) (q : Request) (s : Server env) → IsIdle s → IsIdle (was_read rank q s)
  was_read-IsIdle rank q s idle =
      let id = generate_identifier s.global_id in
      record {
        no_incoming = idle.no_incoming;
        no_pool = idle.no_pool;
        no_agios = idle.no_agios;
        no_ready = idle.no_ready;
        not_collecting = idle.not_collecting;
        no_request = gone id (entry rank id s.next_buffer q) s.requests idle.no_request;
      }
