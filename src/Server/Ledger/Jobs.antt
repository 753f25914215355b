-- ===== src/Server/Ledger/Jobs.antt =====
-- The jobs of the thread pool (src/handler/, src/dispatcher/posix.c) keep the books.
use forwarding_explorer.Base.{
  ℕ, ◌+◌, ◌≡◌, refl, sym, subst, Bool, true, false, List, [], ◌∷◌, ◌++◌, ◌==◌, length, count,
  count-append, arith, Bool-cases, inl, inr, ap,
}
use forwarding_explorer.Server.Types.{ForwardingRequest, AggregatedRequest, op_read, fault}
use forwarding_explorer.Server.Env.{Env}
use forwarding_explorer.Server.Batch.Aggregate.{ids}
use forwarding_explorer.Server.System.{
  Job, handle_read, handle_write, receive, dispatch, callback_read, callback_write, Server,
  run_read, run_write, run_receive, identifier, store, submit, add_work,
}
use forwarding_explorer.Server.Dispatch.{dispatch_operation}
use forwarding_explorer.Server.Step.{run_job}
use forwarding_explorer.Server.Ledger.{
  held_early, held_late, held_received, tally, early, late, received, one_if, Books, IsLedger,
}
use forwarding_explorer.Server.Ledger.Pool.{
  tally-append, identifiers_sent-append, completions_sent-append,
}
use forwarding_explorer.Server.Ledger.Moves.{keep, admit}
use forwarding_explorer.Server.Ledger.Replies.{
  InHand, read_all-memory, write_all-disk, reply_read-IsLedger, reply_write-IsLedger,
}
use forwarding_explorer.Server.Ledger.Outcome.{Outcome, Outcome-weaken}

module _ {env : Env} (n : ℕ) (s : Server env) where
  -- The books of a server from whose pool the job `j` was taken.
  abbrev pub WithJob : Job → Type 0
  WithJob j =
      Books env n (λ a. early s a + count a (held_early j)) (λ a. late s a + count a (held_late j))
        (λ a. received s a + count a (held_received j)) s.global_id s.requests s.sent

  run_read-IsLedger :
      (H : Type 0) (refused : Bool) (r : ForwardingRequest)
      → WithJob (handle_read r)
      → Outcome (IsLedger n) H (run_read env refused r s)
  unfolding run_read
  run_read-IsLedger H true r b = omega arith
  run_read-IsLedger H false r b =
      admit b (record r { buffer = s.next_buffer }) _ _ _ _ (λ a. refl)
        (λ a. omega (arith, count-append a s.agios (r.id ∷ [])))
        (λ a. (
          omega (arith, identifiers_sent-append a s.sent (identifier r.rank r.id ∷ [])),
          omega (arith, completions_sent-append a s.sent (identifier r.rank r.id ∷ [])),
        ))

  run_write-IsLedger :
      (r : ForwardingRequest) → WithJob (handle_write r) → IsLedger n (run_write env r s)
  unfolding run_write
  run_write-IsLedger r b =
      let r' : ForwardingRequest = record r { buffer = s.next_buffer } in
      keep b _ _ _ _ (λ a. omega (arith, tally-append held_early a s.pool (receive r' ∷ [])))
        (λ a. omega (arith, tally-append held_late a s.pool (receive r' ∷ [])))
        (λ a. (
          omega (
            arith,
            tally-append held_received a s.pool (receive r' ∷ []),
            identifiers_sent-append a s.sent (identifier r.rank r.id ∷ []),
          ),
          omega (arith, completions_sent-append a s.sent (identifier r.rank r.id ∷ [])),
        ))

  submit-IsLedger :
      (H : Type 0) (refused : Bool) (memory : ℕ → List ℕ) (r : ForwardingRequest)
      → WithJob (receive r)
      → Outcome (IsLedger n) H (submit env refused r (record s { memory = memory }))
  unfolding submit
  submit-IsLedger H true memory r b = omega arith
  submit-IsLedger H false memory r b =
      admit b r _ _ _ _ (λ a. refl) (λ a. omega (arith, count-append a s.agios (r.id ∷ [])))
        (λ a. (omega arith, refl))

  run_receive-IsLedger :
      (refused : Bool) (payload : List ℕ) (r : ForwardingRequest)
      → WithJob (receive r)
      → Outcome (IsLedger n) (r.size ≡ length payload) (run_receive env refused payload r s)
  unfolding run_receive
  run_receive-IsLedger refused payload r b = elim (Bool-cases (r.size == length payload)) [
    | inr short ↦
        let e : run_receive env refused payload r s ≡ fault = rw (short, run_receive) in
        subst (Outcome (IsLedger n) (r.size ≡ length payload)) (sym e) (λ q. ground arith)
    | inl all_there ↦
        let e : run_receive env refused payload r s
            ≡ submit env refused r (record s { memory = store s.memory r.buffer payload }) =
          rw (all_there, run_receive) in
        subst (Outcome (IsLedger n) (r.size ≡ length payload)) (sym e)
          (submit-IsLedger (r.size ≡ length payload) refused (store s.memory r.buffer payload) r b)
  ]

  -- A job that holds `q` late takes over from the dispatch.
  pass_on :
      (q : AggregatedRequest) (j : Job)
      → held_early j ≡ []
      → held_late j ≡ ids q.requests
      → held_received j ≡ []
      → WithJob (dispatch q)
      → Books env n
          (λ a. count a (ids s.incoming) + tally held_early a (s.pool ++ j ∷ []))
          (λ a.
            count a s.agios
            + count a s.ready
            + one_if a s.collecting
            + tally held_late a (s.pool ++ j ∷ []))
          (λ a. tally held_received a (s.pool ++ j ∷ []))
          s.global_id
          s.requests
          s.sent
  pass_on q j x y z b =
      keep b _ _ _ _ (λ a. omega (arith, tally-append held_early a s.pool (j ∷ []), ap (count a) x))
        (λ a. omega (arith, tally-append held_late a s.pool (j ∷ []), ap (count a) y))
        (λ a. (omega (arith, tally-append held_received a s.pool (j ∷ []), ap (count a) z), refl))

  dispatch-IsLedger :
      (q : AggregatedRequest) → WithJob (dispatch q) → IsLedger n (dispatch_operation env q s)
  unfolding dispatch_operation
  dispatch-IsLedger q b =
      let (m, read) = read_all-memory q.requests s in
      let (d, written) = write_all-disk q.requests s in
      elim (Bool-cases (q.operation == op_read)) [
        | inl e ↦
            let eq : dispatch_operation env q s
                ≡ add_work env (callback_read q) (record s { memory = m }) =
              rw (e, dispatch_operation, read) in
            subst (IsLedger n) (sym eq) (pass_on q (callback_read q) refl refl refl b)
        | inr e ↦
            let eq : dispatch_operation env q s
                ≡ add_work env (callback_write q)
                    (record s { handles = record s.handles { disk = d } }) =
              rw (e, dispatch_operation, written) in
            subst (IsLedger n) (sym eq) (pass_on q (callback_write q) refl refl refl b)
      ]

  in_hand : (q : AggregatedRequest) → WithJob (dispatch q) → InHand n q.requests s
  in_hand q b = keep b _ _ _ _ (λ a. omega arith) (λ a. refl) (λ a. (omega arith, refl))

  -- A job that is run outside the pool keeps the books; it fails an `assert` only if a client sends
  -- data of another size than it said.
  pub run_job-IsLedger :
      (H : Type 0) (j : Job) (payload : List ℕ) (refused : Bool)
      → WithJob j
      → (H → (r : ForwardingRequest) → j ≡ receive r → r.size ≡ length payload)
      → Outcome (IsLedger n) H (run_job env j payload refused s)
  unfolding run_job
  run_job-IsLedger H (handle_read r) payload refused b h = run_read-IsLedger H refused r b
  run_job-IsLedger H (handle_write r) payload refused b h = run_write-IsLedger r b
  run_job-IsLedger H (receive r) payload refused b h =
      Outcome-weaken (IsLedger n) (r.size ≡ length payload) H (run_receive env refused payload r s)
        (λ x. h x r refl) (run_receive-IsLedger refused payload r b)
  run_job-IsLedger H (dispatch q) payload refused b h = dispatch-IsLedger q b
  run_job-IsLedger H (callback_read q) payload refused b h =
      reply_read-IsLedger H n q.requests s (in_hand q b)
  run_job-IsLedger H (callback_write q) payload refused b h =
      reply_write-IsLedger H n q.requests s (in_hand q b)
