-- ===== src/Server/Ledger/Queues.antt =====
-- The ready queue of src/scheduler.c and src/server/dispatcher.c: AGIOS and the dispatcher keep the
-- books, and the dispatcher finds every request.
use forwarding_explorer.Base.{
  ℕ, ◌≤◌, ◌≡◌, refl, ap, Option, none, some, List, [], ◌∷◌, ◌++◌, count, count-append, All, arith,
}
use forwarding_explorer.Server.Types.{ForwardingRequest, Result, ok, blocked, ◌>>=◌}
use forwarding_explorer.Server.Env.{Env}
use forwarding_explorer.Server.Batch.{take_ready, aggregate, aggregated_of}
use forwarding_explorer.Server.Batch.Aggregate.{ids, IsFound, aggregate-IsBatch}
use forwarding_explorer.Server.System.{Job, dispatch, Server, take_out, add_work}
use forwarding_explorer.Server.Step.{schedule, schedule_all, take_next, collect}
use forwarding_explorer.Server.Ledger.{held_early, held_late, held_received, one_if, IsLedger}
use forwarding_explorer.Server.Ledger.Pool.{tally-append, count-take_out}
use forwarding_explorer.Server.Ledger.Moves.{found_of, keep}
use forwarding_explorer.Server.Ledger.Outcome.{Outcome, Outcome-bind, Outcome-ok, Outcome-option}

module _ {env : Env} (n : ℕ) (H : Type 0) where
  abbrev Fine : Result (Server env) → Type 0
  Fine = Outcome (IsLedger n) H

  pub schedule-IsLedger : (id : ℕ) (s : Server env) → IsLedger n s → Fine (schedule env id s)
  unfolding schedule
  schedule-IsLedger id s b =
      Outcome-option (IsLedger n) H (take_out id s.agios) blocked
        (λ agios. ok (record s { agios = agios; ready = s.ready ++ id ∷ [] })) (λ _. tt)
        (λ agios e.
          keep b _ _ _ _ (λ a. omega arith)
            (λ a.
              omega (arith, count-take_out a id s.agios agios e, count-append a s.ready (id ∷ [])))
            (λ a. (refl, refl)))

  pub schedule_all-IsLedger :
      (is : List ℕ) (s : Server env) → IsLedger n s → Fine (schedule_all env is s)
  unfolding schedule_all
  schedule_all-IsLedger [] s b = b
  schedule_all-IsLedger (id ∷ is) s b =
      Outcome-bind (IsLedger n) (IsLedger n) H (schedule env id s) (schedule_all env is)
        (schedule-IsLedger id s b) (schedule_all-IsLedger is)

  abbrev find_in : Server env → ℕ → Option ForwardingRequest
  find_in s id = env.requests.find id s.requests

  -- Every request of the ready queue is in the table.
  ready-IsFound :
      (s : Server env) (is : List ℕ)
      → IsLedger n s
      → ((a : ℕ) → count a is ≤ count a s.ready)
      → All (IsFound (find_in s)) is
  ready-IsFound s [] b le = tt
  ready-IsFound s (id ∷ is) b le = (
    found_of _ id _ (b.tabled id) (ground (arith, le id)),
    ready-IsFound s is b (λ a. omega (arith, le a)),
  )

  take_first :
      (s : Server env) (is : List ℕ)
      → IsLedger n s
      → s.collecting ≡ none
      → s.ready ≡ is
      → Fine (
          take_ready (find_in s) is >>= λ (r, ready).
          ok (record s { ready = ready; collecting = some r }))
  unfolding take_ready
  take_first s [] b c e = tt
  take_first s (id ∷ is) b c e =
      let ((q, f, same), _) = ready-IsFound s (id ∷ is) b (λ a. omega (arith, ap (count a) e)) in
      let taken : take_ready (find_in s) (id ∷ is) ≡ ok (q, is) = rw (f, take_ready) in
      Outcome-ok (IsLedger n) H (take_ready (find_in s) (id ∷ is))
        (λ (r, ready). ok (record s { ready = ready; collecting = some r })) (q, is) taken
        (keep b _ _ _ _ (λ a. omega arith)
          (λ a. rw same (omega (arith, ap (count a) e, ap (one_if a) c))) (λ a. (refl, refl)))

  pub take_next-IsLedger : (s : Server env) → IsLedger n s → Fine (take_next env s)
  unfolding take_next
  take_next-IsLedger s b =
      Outcome-option (IsLedger n) H s.collecting
        (take_ready (find_in s) s.ready >>= λ (r, ready).
          ok (record s { ready = ready; collecting = some r }))
        (λ _. blocked) (λ c. take_first s s.ready b c refl) (λ _ _. tt)

  collected :
      (s : Server env) (r : ForwardingRequest)
      → IsLedger n s
      → s.collecting ≡ some r
      → Fine (
          aggregate (find_in s) r (r ∷ []) s.ready >>= λ (requests, ready). ok (
            add_work env
              (dispatch (aggregated_of r requests))
              (record s { ready = ready; collecting = none })))
  collected s r b c =
      let (batch, rest, e, is) =
        aggregate-IsBatch (find_in s) r (r ∷ []) s.ready
          (ready-IsFound s s.ready b (λ a. omega arith)) (omega arith) in
      let j : Job = dispatch (aggregated_of r (r ∷ batch)) in
      Outcome-ok (IsLedger n) H (aggregate (find_in s) r (r ∷ []) s.ready)
        (λ (requests, ready). ok (
          add_work env (dispatch (aggregated_of r requests))
            (record s { ready = ready; collecting = none })))
        (r ∷ batch, rest) e
        (keep b _ _ _ _ (λ a. omega (arith, tally-append held_early a s.pool (j ∷ [])))
          (λ a. omega (
            arith,
            tally-append held_late a s.pool (j ∷ []),
            ap (count a) is.in_order,
            count-append a (ids batch) rest,
            ap (one_if a) c,
          ))
          (λ a. (omega (arith, tally-append held_received a s.pool (j ∷ [])), refl)))

  pub collect-IsLedger : (s : Server env) → IsLedger n s → Fine (collect env s)
  unfolding collect
  collect-IsLedger s b =
      Outcome-option (IsLedger n) H s.collecting blocked
        (λ r. aggregate (find_in s) r (r ∷ []) s.ready >>= λ (requests, ready). ok (
          add_work env (dispatch (aggregated_of r requests))
            (record s { ready = ready; collecting = none })))
        (λ _. tt) (λ r c. collected s r b c)
