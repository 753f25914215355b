-- ===== src/Server/Step.antt =====
-- The events of a forwarding server, and the states that they reach.
use forwarding_explorer.Base.{ℕ, suc, ◌≡◌, Bool, false, none, some, List, [], ◌∷◌, ◌++◌}
use forwarding_explorer.Server.Types.{Request, Result, ok, blocked, ◌>>=◌}
use forwarding_explorer.Server.Env.{Env}
use forwarding_explorer.Server.Batch.{aggregated_of, take_ready, aggregate}
use forwarding_explorer.Server.System.{
  Job, handle_read, handle_write, receive, dispatch, callback_read, callback_write, Server, pick,
  take_out, add_work, listen, listen_shutdown, server_handler, run_read, run_write, run_receive,
}
use forwarding_explorer.Server.Dispatch.{dispatch_operation, reply_read, reply_write}

-- `work k` runs the job at place `k` of the pool, with what its client sends and whether AGIOS
-- refuses its request.
pub data Event : Type 0 where
  request : (rank : ℕ) → Request → Event
  finished : (clients : ℕ) → Event
  handler : Event
  work : (k : ℕ) → (payload : List ℕ) → (refused : Bool) → Event
  callback : (id : ℕ) → Event
  callback_aggregated : (ids : List ℕ) → Event
  dispatcher_take : Event
  dispatcher_collect : Event

-- The number of requests that have come in after an event, if `n` had before it.
abbrev pub arrivals : Event → ℕ → ℕ
arrivals (request rank q) n = suc n
arrivals _ n = n

module _ (env : Env) where
  open env use {requests as table}

  -- `callback` of src/scheduler.c, for a request that AGIOS holds.
  unfoldable pub schedule : ℕ → Server env → Result (Server env)
  schedule id s = elim (take_out id s.agios) [
    | none ↦ blocked
    | some agios ↦ ok (record s { agios = agios; ready = s.ready ++ id ∷ [] })
  ]

  -- `callback_aggregated`, under one lock.
  unfoldable pub schedule_all : List ℕ → Server env → Result (Server env)
  schedule_all [] s = ok s
  schedule_all (id ∷ ids) s = schedule id s >>= schedule_all ids

  unfoldable pub run_job : Job → (payload : List ℕ) → Bool → Server env → Result (Server env)
  run_job (handle_read r) payload refused s = run_read env refused r s
  run_job (handle_write r) payload refused s = ok (run_write env r s)
  run_job (receive r) payload refused s = run_receive env refused payload r s
  run_job (dispatch a) payload refused s = ok (dispatch_operation env a s)
  run_job (callback_read a) payload refused s = reply_read env a.requests s
  run_job (callback_write a) payload refused s = reply_write env a.requests s

  unfoldable pub work_at : ℕ → (payload : List ℕ) → Bool → Server env → Result (Server env)
  work_at k payload refused s = elim (pick k s.pool) [
    | none ↦ blocked
    | some (j, pool) ↦ run_job j payload refused (record s { pool = pool })
  ]

  -- `server_dispatcher` up to the lookup of the request that it took. The lookup, which comes after
  -- the ready queue is released, changes nothing, so it is made one step with the removal.
  unfoldable pub take_next : Server env → Result (Server env)
  take_next s = elim s.collecting [
    | some r ↦ blocked
    | none ↦ take_ready (λ id. table.find id s.requests) s.ready >>= λ (r, ready).
        ok (record s { ready = ready; collecting = some r })
  ]

  -- The rest of the round: the aggregated request goes to the pool.
  unfoldable pub collect : Server env → Result (Server env)
  collect s = elim s.collecting [
    | none ↦ blocked
    | some r ↦
        aggregate (λ id. table.find id s.requests) r (r ∷ []) s.ready >>= λ (requests, ready). ok (
          add_work env (dispatch (aggregated_of r requests))
            (record s { ready = ready; collecting = none }))
  ]

  unfoldable pub step : Event → Server env → Result (Server env)
  step (request rank q) s = ok (listen env rank q s)
  step (finished clients) s = ok (listen_shutdown env clients s)
  step handler s = server_handler env s
  step (work k payload refused) s = work_at k payload refused s
  step (callback id) s = schedule id s
  step (callback_aggregated ids) s = schedule_all ids s
  step dispatcher_take s = take_next s
  step dispatcher_collect s = collect s

  -- A sequence of events.
  unfoldable pub run : List Event → Server env → Result (Server env)
  run [] s = ok s
  run (e ∷ es) s = step e s >>= run es

  -- The state in which main.c starts the threads.
  abbrev pub init : env.files.Disk → Server env
  init disk = record {
    global_id = 1000000;
    incoming = [];
    pool = [];
    requests = table.empty;
    agios = [];
    ready = [];
    collecting = none;
    handles = record { opened_files = env.handles.empty; disk = disk };
    memory = λ _. [];
    next_buffer = 0;
    shutdown = 0;
    shutdown_control = false;
    sent = [];
  }

  -- The states after any sequence of events, `n` of them arrivals of requests.
  pub data Reach (disk : env.files.Disk) : ℕ → Server env → Type 0 where
    start : Reach disk 0 (init disk)
    next :
        {n : ℕ} {s t : Server env} (e : Event)
        → Reach disk n s
        → step e s ≡ ok t
        → Reach disk (arrivals e n) t
