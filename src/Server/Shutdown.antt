-- ===== src/Server/Shutdown.antt =====
-- When the listener of src/server/listener.c tells the threads to stop.
pub mod Others
use forwarding_explorer.Base.{
  ℕ, suc, ◌+◌, ◌<◌, ◌≡◌, refl, sym, subst, ◌∙◌, Bool, true, false, Option, none, some, List, [],
  ◌∷◌, ◌==◌, leb, if◌then◌else◌, All, arith, Option-cases, Bool-cases, inl, inr,
}
use forwarding_explorer.Server.Types.{
  ForwardingRequest, AggregatedRequest, op_read, Result, ok, abort, fault, blocked, ◌>>=◌,
}
use forwarding_explorer.Server.Env.{Env}
use forwarding_explorer.Server.Handles.{handle_open, handle_close}
use forwarding_explorer.Server.Batch.{take_ready, aggregate}
use forwarding_explorer.Server.System.{
  Job, handle_read, handle_write, receive, dispatch, callback_read, callback_write, Server, listen,
  listen_shutdown, server_handler, handle_first, handle, answer_open, answer_close, run_read,
  run_write, run_receive, submit, allocate, pick, take_out,
}
use forwarding_explorer.Server.Dispatch.{
  dispatch_operation, dispatch_read, dispatch_write, read_all, write_all, reply_read, reply_write,
}
use forwarding_explorer.Server.Step.{
  Event, request, finished, handler, work, callback, callback_aggregated, dispatcher_take,
  dispatcher_collect, schedule, schedule_all, run_job, work_at, take_next, collect, step, run, init,
}
use forwarding_explorer.Server.Shutdown.Others.{
  Same, Keeps, schedule-Keeps, schedule_all-Keeps, take_next-Keeps, collect-Keeps, work-Keeps,
  handle_first-Keeps,
}

-- The number of clients that have finished after an event, and after several, if `k` had before.
abbrev pub finishes : Event → ℕ → ℕ
finishes (finished clients) k = suc k
finishes _ k = k

abbrev pub all_finish : List Event → ℕ → ℕ
all_finish [] k = k
all_finish (e ∷ es) k = all_finish es (finishes e k)

-- The number of clients that the listener compares with.
abbrev pub IsFor : ℕ → Event → Type 0
IsFor clients (finished c) = c ≡ clients
IsFor clients _ = Unit

module _ {env : Env} where
  -- After `k` clients have finished.
  abbrev pub Told : (clients k : ℕ) → Server env → Type 0
  Told clients k s = (s.shutdown ≡ k) × (s.shutdown_control ≡ leb clients k)

  Told-after :
      (c k : ℕ) (s : Server env) (m : Result (Server env)) (t : Server env)
      → Told c k s
      → Keeps s m
      → m ≡ ok t
      → Told c k t
  Told-after c k s m t told keeps e =
      let same : Same s t = subst (Keeps s) e keeps in (same.0 ∙ told.0, same.1 ∙ told.1)

  step-Told :
      (c k : ℕ) (e : Event) (s t : Server env)
      → 0 < c
      → IsFor c e
      → Told c k s
      → step env e s ≡ ok t
      → Told c (finishes e k) t
  unfolding step listen listen_shutdown server_handler
  step-Told c k (request rank q) s t pos i told e =
      Told-after c k s (ok (listen env rank q s)) t told (refl, refl) e
  step-Told c k (finished d) s t pos i told e =
      let same : listen_shutdown env d s ≡ t = cc in subst (Told c (suc k)) same (ground arith)
  step-Told c k handler s t pos i told e =
      Told-after c k s _ t told (handle_first-Keeps s.incoming s) e
  step-Told c k (work j payload refused) s t pos i told e =
      Told-after c k s _ t told (work-Keeps j payload refused s) e
  step-Told c k (callback id) s t pos i told e = Told-after c k s _ t told (schedule-Keeps id s) e
  step-Told c k (callback_aggregated is) s t pos i told e =
      Told-after c k s _ t told (schedule_all-Keeps is s) e
  step-Told c k dispatcher_take s t pos i told e = Told-after c k s _ t told (take_next-Keeps s) e
  step-Told c k dispatcher_collect s t pos i told e = Told-after c k s _ t told (collect-Keeps s) e

  ok_of_bind :
      (m : Result (Server env)) (f : Server env → Result (Server env)) (t : Server env)
      → (m >>= f) ≡ ok t
      → (u : Server env) × (m ≡ ok u) × (f u ≡ ok t)
  ok_of_bind (ok u) f t e = (u, refl, e)
  ok_of_bind (abort c) f t e = absurd cc
  ok_of_bind fault f t e = absurd cc
  ok_of_bind blocked f t e = absurd cc

  run-Told :
      (c k : ℕ) (es : List Event) (s t : Server env)
      → 0 < c
      → All (IsFor c) es
      → Told c k s
      → run env es s ≡ ok t
      → Told c (all_finish es k) t
  unfolding run
  run-Told c k [] s t pos is told e = let same : s ≡ t = cc in subst (Told c k) same told
  run-Told c k (i ∷ es) s t pos (is, rest) told e =
      let (u, first, second) = ok_of_bind (step env i s) (run env es) t e in
      run-Told c (finishes i k) es u t pos rest (step-Told c k i s u pos is told first) second

  -- After any events of a server with `clients` clients, one or more, the count of the listener is
  -- the number of clients that have finished, and the threads are told to stop exactly if these are
  -- at least `clients`.
  pub shutdown_after_run :
      (disk : env.files.Disk) (clients : ℕ) (es : List Event) (t : Server env)
      → 0 < clients
      → All (IsFor clients) es
      → run env es (init env disk) ≡ ok t
      → (t.shutdown ≡ all_finish es 0) × (t.shutdown_control ≡ leb clients (all_finish es 0))
  shutdown_after_run disk clients es t pos is e =
      run-Told clients 0 es (init env disk) t pos is (refl, ground arith) e
