-- ===== src/Tests/Servers.antt =====
-- Examples for the forwarding server: runs of a write and of a shutdown.
use forwarding_explorer.Base.{
  ℕ, leb, ◌+◌, ◌≤◌, ◌≡◌, ◌≢◌, refl, subst, arith, List, [], ◌∷◌, false, ℕ_discrete,
}
use forwarding_explorer.Base.Int.{pos}
use forwarding_explorer.Identifiers.{generate_identifier}
use forwarding_explorer.Server.Types.{
  Request, Result, ok, abort, fault, blocked, ◌>>=◌, op_write, error_invalid_request_id,
}
use forwarding_explorer.Server.System.{
  Server, listen, listen_shutdown, server_handler, handle_first, handle, run_write, run_receive,
  pick, take_out, allocate, zeros, submit,
}
use forwarding_explorer.Server.Dispatch.{
  dispatch_operation, dispatch_write, write_all, dispatch_read, read_all, reply_read, reply_write,
}
use forwarding_explorer.Server.Batch.{take_ready, aggregate, aggregates}
use forwarding_explorer.Server.Step.{
  Event, request, finished, handler, work, callback, dispatcher_take, dispatcher_collect, step, run,
  work_at, run_job, schedule, take_next, collect, init, arrivals, Reach, start, next,
}
use forwarding_explorer.Server.Ledger.{
  early, late, received, Tabled, identifiers_sent, completions_sent,
}
use forwarding_explorer.Server.Ledger.Reachable.{IsHonest, requests_kept, lookups_succeed}
use forwarding_explorer.Server.Shutdown.{all_finish, shutdown_after_run}
use forwarding_explorer.Tests.Tables.{env}

abbrev pub all_arrivals : List Event → ℕ → ℕ
all_arrivals [] n = n
all_arrivals (e ∷ es) n = all_arrivals es (arrivals e n)

abbrev pub write_request : Request
write_request = record {
  file_name = 102 ∷ [];
  file_handle = pos 3;
  operation = op_write;
  offset = 1;
  size = 2;
}

-- A client writes two bytes.
abbrev pub writing : List Event
writing =
    request 1 write_request
    ∷ handler
    ∷ work 0 [] false
    ∷ work 0 (7 ∷ 8 ∷ []) false
    ∷ callback 1000001
    ∷ dispatcher_take
    ∷ dispatcher_collect
    ∷ work 0 [] false
    ∷ work 0 [] false
    ∷ []

abbrev pub state_of : Result (Server env) → Server env
state_of (ok s) = s
state_of _ = init env []

abbrev pub written : Server env
written = state_of (run env writing (init env (1 ∷ 1 ∷ 1 ∷ 1 ∷ [])))

pub Reach-run :
    {disk : List ℕ} {n : ℕ} (es : List Event) (s t : Server env)
    → Reach env disk n s
    → run env es s ≡ ok t
    → Reach env disk (all_arrivals es n) t
unfolding run
Reach-run [] s t r e = let same : s ≡ t = cc in subst (Reach env _ _) same r
Reach-run {disk} {n} (i ∷ es) s t r e = go (λ u. Reach-run es u t) (step env i s) refl e
  where
    go :
        ((u : Server env)
          → Reach env disk (arrivals i n) u
          → run env es u ≡ ok t
          → Reach env disk (all_arrivals es (arrivals i n)) t)
        → (m : Result (Server env)) → step env i s ≡ m
        → (m >>= run env es) ≡ ok t
        → Reach env disk (all_arrivals es (arrivals i n)) t
    go rest (ok u) d e' = rest u (next i r d) e'
    go rest (abort c) d e' = absurd cc
    go rest fault d e' = absurd cc
    go rest blocked d e' = absurd cc

-- The bytes are in the file.
written_disk : written.handles.disk ≡ 1 ∷ 7 ∷ 8 ∷ 1 ∷ []
unfolding run step generate_identifier listen server_handler handle_first handle run_write work_at
    pick run_job allocate zeros run_receive submit schedule take_out take_next take_ready collect
    aggregate dispatch_operation dispatch_write write_all dispatch_read read_all reply_read
    reply_write aggregates ℕ_discrete
written_disk = refl

is_written : run env writing (init env (1 ∷ 1 ∷ 1 ∷ 1 ∷ [])) ≡ ok written
unfolding run step generate_identifier listen server_handler handle_first handle run_write work_at
    pick run_job allocate zeros run_receive submit schedule take_out take_next take_ready collect
    aggregate dispatch_operation dispatch_write write_all dispatch_read read_all reply_read
    reply_write aggregates ℕ_discrete
is_written = refl

requests_kept_example :
    (early written 1000001 + late written 1000001 + completions_sent 1000001 written.sent ≤ 1)
    × Tabled (env.requests.find 1000001 written.requests) 1000001 (late written 1000001)
    × (identifiers_sent 1000001 written.sent
        ≡ received written 1000001 + late written 1000001 + completions_sent 1000001 written.sent)
requests_kept_example =
    requests_kept (1 ∷ 1 ∷ 1 ∷ 1 ∷ []) 1 written 1000001
      (Reach-run writing _ written start is_written) (omega arith)

-- The client's data is about to come.
abbrev sending : List Event
sending = request 1 write_request ∷ handler ∷ work 0 [] false ∷ []

abbrev waiting : Server env
waiting = state_of (run env sending (init env []))

is_waiting : run env sending (init env []) ≡ ok waiting
unfolding run step generate_identifier listen server_handler handle_first handle run_write work_at
    pick run_job allocate zeros
is_waiting = refl

two_bytes : IsHonest {env = env} (work 0 (7 ∷ 8 ∷ []) false) waiting
unfolding run step generate_identifier listen server_handler handle_first handle run_write work_at
    pick run_job allocate zeros
two_bytes r rest e = cc

lookups_succeed_example :
    (step env (work 0 (7 ∷ 8 ∷ []) false) waiting ≢ abort error_invalid_request_id)
    × (step env (work 0 (7 ∷ 8 ∷ []) false) waiting ≢ fault)
lookups_succeed_example =
    lookups_succeed [] 1 waiting (work 0 (7 ∷ 8 ∷ []) false)
      (Reach-run sending _ waiting start is_waiting) (omega arith) two_bytes

-- Both of two clients finish.
abbrev all_finished : List Event
all_finished = finished 2 ∷ request 1 write_request ∷ finished 2 ∷ []

abbrev stopped : Server env
stopped = state_of (run env all_finished (init env []))

is_stopped : run env all_finished (init env []) ≡ ok stopped
unfolding run step listen listen_shutdown generate_identifier
is_stopped = refl

shutdown_after_run_example :
    (stopped.shutdown ≡ all_finish all_finished 0)
    × (stopped.shutdown_control ≡ leb 2 (all_finish all_finished 0))
shutdown_after_run_example =
    shutdown_after_run [] 2 all_finished stopped (omega arith) (refl, (tt, (refl, tt))) is_stopped
