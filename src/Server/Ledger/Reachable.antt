-- ===== src/Server/Ledger/Reachable.antt =====
-- The books of a forwarding server in every state that its threads reach.
use forwarding_explorer.Base.{
  ℕ, ◌+◌, ◌≤◌, ◌≡◌, ◌≢◌, refl, sym, subst, Bool, some, List, length, arith,
}
use forwarding_explorer.Identifiers.{after_calls}
use forwarding_explorer.Server.Types.{
  abort, fault, blocked, error_invalid_request_id, ForwardingRequest,
}
use forwarding_explorer.Server.Env.{Env}
use forwarding_explorer.Server.System.{Job, receive, Server, pick, listen_shutdown}
use forwarding_explorer.Server.Step.{
  Event, request, finished, handler, work, callback, callback_aggregated, dispatcher_take,
  dispatcher_collect, work_at, run_job, step, init, arrivals, Reach, start, next,
}
use forwarding_explorer.Server.Ledger.{
  held_early, held_late, held_received, early, late, received, identifiers_sent, completions_sent,
  Tabled, IsLedger,
}
use forwarding_explorer.Server.Ledger.Pool.{tally-pick}
use forwarding_explorer.Server.Ledger.Moves.{keep}
use forwarding_explorer.Server.Ledger.Outcome.{Outcome, Outcome-option}
use forwarding_explorer.Server.Ledger.Jobs.{WithJob, run_job-IsLedger}
use forwarding_explorer.Server.Ledger.Handler.{listen-IsLedger, handler-IsLedger}
use forwarding_explorer.Server.Ledger.Queues.{
  schedule-IsLedger, schedule_all-IsLedger, take_next-IsLedger, collect-IsLedger,
}

arrivals-le : (e : Event) (n : ℕ) → n ≤ arrivals e n
arrivals-le (request rank q) n = omega arith
arrivals-le _ n = omega arith

module _ {env : Env} where
  -- The client whose data a `work` event brings sends as much as it has said.
  abbrev pub IsHonest : Event → Server env → Type 0
  IsHonest (work k payload refused) s =
      (r : ForwardingRequest) (rest : List Job)
      → pick k s.pool ≡ some (receive r, rest)
      → r.size ≡ length payload
  IsHonest _ s = Unit

  init-IsLedger : (disk : env.files.Disk) → IsLedger 0 (init env disk)
  unfolding after_calls
  init-IsLedger disk = record {
    counter = refl;
    once = λ a. omega arith;
    issued = λ a h. absurd (omega arith);
    tabled = λ a. subst (λ o. Tabled o a 0) (sym (env.requests.find-empty a)) refl;
    answered = λ a. refl;
  }

  with_job :
      (n k : ℕ) (s : Server env) (j : Job) (pool : List Job)
      → pick k s.pool ≡ some (j, pool)
      → IsLedger n s
      → WithJob n (record s { pool = pool }) j
  with_job n k s j pool e b =
      keep b _ _ _ _ (λ a. omega (arith, tally-pick held_early a k s.pool pool j e))
        (λ a. omega (arith, tally-pick held_late a k s.pool pool j e))
        (λ a. (omega (arith, tally-pick held_received a k s.pool pool j e), refl))

  work-IsLedger :
      (n k : ℕ) (payload : List ℕ) (refused : Bool) (s : Server env)
      → IsLedger n s
      → Outcome (IsLedger n) (IsHonest (work k payload refused) s) (work_at env k payload refused s)
  unfolding work_at
  work-IsLedger n k payload refused s b =
      Outcome-option (IsLedger n) (IsHonest (work k payload refused) s) (pick k s.pool) blocked
        (λ (j, pool). run_job env j payload refused (record s { pool = pool })) (λ _. tt)
        (λ (j, pool) e.
          run_job-IsLedger n (record s { pool = pool }) (IsHonest (work k payload refused) s) j
            payload refused (with_job n k s j pool e b)
            (λ honest r same. honest r pool (rw (sym same, e) refl)))

  -- Every event keeps the books, if at most 8000001 requests have come in with it.
  step-IsLedger :
      (n : ℕ) (e : Event) (s : Server env)
      → arrivals e n ≤ 8000001
      → IsLedger n s
      → Outcome (IsLedger (arrivals e n)) (IsHonest e s) (step env e s)
  unfolding step listen_shutdown
  step-IsLedger n (request rank q) s few b = listen-IsLedger n Unit rank q s (omega arith) b
  step-IsLedger n (finished clients) s few b = b
  step-IsLedger n handler s few b = handler-IsLedger n Unit s b
  step-IsLedger n (work k payload refused) s few b = work-IsLedger n k payload refused s b
  step-IsLedger n (callback id) s few b = schedule-IsLedger n Unit id s b
  step-IsLedger n (callback_aggregated is) s few b = schedule_all-IsLedger n Unit is s b
  step-IsLedger n dispatcher_take s few b = take_next-IsLedger n Unit s b
  step-IsLedger n dispatcher_collect s few b = collect-IsLedger n Unit s b

  Reach-IsLedger :
      (disk : env.files.Disk) (n : ℕ) (s : Server env)
      → Reach env disk n s
      → n ≤ 8000001
      → IsLedger n s
  Reach-IsLedger disk _ _ start few = init-IsLedger disk
  Reach-IsLedger disk _ t (next {n} {s} e r done) few =
      let before : IsLedger n s = Reach-IsLedger disk n s r (omega (arith, arrivals-le e n)) in
      subst (Outcome (IsLedger (arrivals e n)) (IsHonest e s)) done (step-IsLedger n e s few before)

  -- In every state that a server reaches with at most 8000001 requests, an identifier belongs to at
  -- most one request that a queue, a job or AGIOS holds or that a client was sent the completion
  -- of; the table has the request of an identifier exactly when AGIOS, the ready queue, the
  -- dispatcher or a job behind it holds it, once; and of the clients that were sent an identifier,
  -- each waits for its data to be received, for its request in the table, or has its completion.
  pub requests_kept :
      (disk : env.files.Disk) (n : ℕ) (s : Server env) (a : ℕ)
      → Reach env disk n s
      → n ≤ 8000001
      → (early s a + late s a + completions_sent a s.sent ≤ 1)
        × (Tabled (env.requests.find a s.requests) a (late s a))
        × (identifiers_sent a s.sent ≡ received s a + late s a + completions_sent a s.sent)
  requests_kept disk n s a r few =
      let b : IsLedger n s = Reach-IsLedger disk n s r few in (b.once a, b.tabled a, b.answered a)

  -- In every state that a server reaches, as long as at most 8000001 requests have come in and the
  -- client whose data the next event brings sends as much as it has said, the event does not end in
  -- ERROR_INVALID_REQUEST_ID, follows no null pointer and fails no `assert`.
  pub lookups_succeed :
      (disk : env.files.Disk) (n : ℕ) (s : Server env) (e : Event)
      → Reach env disk n s
      → arrivals e n ≤ 8000001
      → IsHonest e s
      → (step env e s ≢ abort error_invalid_request_id) × (step env e s ≢ fault)
  lookups_succeed disk n s e r few honest =
      let b : IsLedger n s = Reach-IsLedger disk n s r (omega (arith, arrivals-le e n)) in
      let o = step-IsLedger n e s few b in
      (
        λ x. subst (Outcome (IsLedger (arrivals e n)) (IsHonest e s)) x o refl,
        λ x. subst (Outcome (IsLedger (arrivals e n)) (IsHonest e s)) x o honest,
      )
