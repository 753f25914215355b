-- ===== src/Server/Ledger/Handler.antt =====
-- The listener and the handlers of src/server/ keep the books.
use forwarding_explorer.Base.{
  ℕ, suc, ◌+◌, ◌≤◌, ◌≡◌, refl, ap, List, [], ◌∷◌, ◌==◌, count, arith, if◌then◌else◌,
}
use forwarding_explorer.Base.Int.{is_negative}
use forwarding_explorer.Server.Types.{
  FileName, Request, ForwardingRequest, Result, ok, op_open, op_read, op_write, op_close, abort,
  error_failed_to_close, error_posix_open, error_unknown_request_type,
}
use forwarding_explorer.Server.Env.{Env}
use forwarding_explorer.Server.Handles.{
  Handles, handle_open, handle_close, open_new, open_again, close_one,
}
use forwarding_explorer.Server.Batch.Aggregate.{ids}
use forwarding_explorer.Server.System.{
  handle_read, handle_write, Job, Server, Message, listen, handle, server_handler, answer_open,
  answer_close, handle_first, add_work, file_handle, closed, send,
}
use forwarding_explorer.Server.Ledger.{
  held_early, held_late, held_received, early, late, received, Books, IsLedger, identifiers_sent,
  completions_sent,
}
use forwarding_explorer.Server.Ledger.Pool.{
  tally-append, count-ids-append, identifiers_sent-append, completions_sent-append,
}
use forwarding_explorer.Server.Ledger.Moves.{single, keep, arrive}
use forwarding_explorer.Server.Ledger.Outcome.{Outcome, Outcome-bind, Outcome-if, Outcome-option}

module _ {env : Env} (n : ℕ) (H : Type 0) where
  abbrev Fine : Result (Server env) → Type 0
  Fine = Outcome (IsLedger n) H

  pub listen-IsLedger :
      (rank : ℕ) (q : Request) (s : Server env)
      → n ≤ 8000000
      → IsLedger n s
      → IsLedger (suc n) (listen env rank q s)
  unfolding listen
  listen-IsLedger rank q s few b =
      arrive b _ few (λ a. omega (arith, count-ids-append a s.incoming))

  -- A request that a handler has taken off the incoming queue.
  abbrev Taken : ForwardingRequest → Server env → Type 0
  Taken r s =
      Books env n (λ a. early s a + single r.id a) (late s) (received s) s.global_id s.requests
        s.sent

  -- The handler's answer to OPEN and CLOSE is neither an identifier nor a completion.
  reply-IsLedger :
      (r : ForwardingRequest) (s : Server env) (h : Handles env) (m : Message)
      → Taken r s
      → ((a : ℕ) → (identifiers_sent a (m ∷ []) ≡ 0) × (completions_sent a (m ∷ []) ≡ 0))
      → IsLedger n (send env m (record s { handles = h }))
  reply-IsLedger r s h m b silent =
      keep b _ _ _ _ (λ a. omega arith) (λ a. refl)
        (λ a. (
          omega (arith, identifiers_sent-append a s.sent (m ∷ []), (silent a).0),
          omega (arith, completions_sent-append a s.sent (m ∷ []), (silent a).1),
        ))

  handed-IsLedger :
      (r : ForwardingRequest) (s : Server env) (j : Job)
      → held_early j ≡ r.id ∷ []
      → held_late j ≡ []
      → held_received j ≡ []
      → Taken r s
      → IsLedger n (add_work env j s)
  handed-IsLedger r s j x y z b =
      keep b _ _ _ _ (λ a. omega (arith, tally-append held_early a s.pool (j ∷ []), ap (count a) x))
        (λ a. omega (arith, tally-append held_late a s.pool (j ∷ []), ap (count a) y))
        (λ a. (omega (arith, tally-append held_received a s.pool (j ∷ []), ap (count a) z), refl))

  open-Outcome :
      (name : FileName) (h : Handles env) → Outcome (λ _. Unit {0}) H (handle_open env name h)
  unfolding handle_open
  open-Outcome name h =
      Outcome-option (λ _. Unit {0}) H (env.handles.find name h.opened_files) (open_new env name h)
        (λ o. ok (open_again env name o h))
        (λ _.
          Outcome-if (λ _. Unit {0}) H (is_negative (env.files.open_file name h.disk).0)
            (abort error_posix_open) (ok _) (omega arith) tt)
        (λ _ _. tt)

  close-Outcome :
      (name : FileName) (h : Handles env) → Outcome (λ _. Unit {0}) H (handle_close env name h)
  unfolding handle_close
  close-Outcome name h =
      Outcome-option (λ _. Unit {0}) H (env.handles.find name h.opened_files)
        (abort error_failed_to_close) (λ o. ok (close_one env name o h)) (λ _. omega arith)
        (λ _ _. tt)

  answer_open-IsLedger :
      (r : ForwardingRequest) (s : Server env) → Taken r s → Fine (answer_open env r s)
  unfolding answer_open
  answer_open-IsLedger r s b =
      Outcome-bind (λ _. Unit {0}) (IsLedger n) H (handle_open env r.file_name s.handles) _
        (open-Outcome r.file_name s.handles)
        (λ (fh, h) _. reply-IsLedger r s h (file_handle r.rank fh) b (λ a. (refl, refl)))

  answer_close-IsLedger :
      (r : ForwardingRequest) (s : Server env) → Taken r s → Fine (answer_close env r s)
  unfolding answer_close
  answer_close-IsLedger r s b =
      Outcome-bind (λ _. Unit {0}) (IsLedger n) H (handle_close env r.file_name s.handles) _
        (close-Outcome r.file_name s.handles)
        (λ h _. reply-IsLedger r s h (closed r.rank) b (λ a. (refl, refl)))

  handle-IsLedger : (r : ForwardingRequest) (s : Server env) → Taken r s → Fine (handle env r s)
  unfolding handle
  handle-IsLedger r s b =
      let reading : Result (Server env) = ok (add_work env (handle_read r) s) in
      let writing : Result (Server env) = ok (add_work env (handle_write r) s) in
      let closing =
        if r.operation == op_close
        then answer_close env r s
        else abort error_unknown_request_type in
      let later = if r.operation == op_write then writing else closing in
      let scheduled = if r.operation == op_read then reading else later in
      Outcome-if (IsLedger n) H (r.operation == op_open) (answer_open env r s) scheduled
        (answer_open-IsLedger r s b)
        (Outcome-if (IsLedger n) H (r.operation == op_read) reading later
          (handed-IsLedger r s (handle_read r) refl refl refl b)
          (Outcome-if (IsLedger n) H (r.operation == op_write) writing closing
            (handed-IsLedger r s (handle_write r) refl refl refl b)
            (Outcome-if (IsLedger n) H (r.operation == op_close) (answer_close env r s)
              (abort error_unknown_request_type) (answer_close-IsLedger r s b) (omega arith))))

  pub handler-IsLedger : (s : Server env) → IsLedger n s → Fine (server_handler env s)
  unfolding server_handler
  handler-IsLedger s b = go s.incoming refl
    where
      go : (rs : List ForwardingRequest) → s.incoming ≡ rs → Fine (handle_first env rs s)
      go [] e = tt
      go (r ∷ rest) e =
          handle-IsLedger r (record s { incoming = rest })
            (keep b _ _ _ _ (λ a. omega (arith, ap (λ rs. count a (ids rs)) e)) (λ a. refl)
              (λ a. (refl, refl)))
