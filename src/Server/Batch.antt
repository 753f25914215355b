-- ===== src/Server/Batch.antt =====
-- src/server/dispatcher.c: a request of the ready queue, and those behind it that are issued
-- together with it.
pub mod Aggregate
use forwarding_explorer.Base.{
  ℕ, Bool, ◌&&◌, Option, none, some, List, [], ◌∷◌, ◌++◌, length, leb, ◌==◌, if◌then◌else◌,
}
use forwarding_explorer.Base.Int.{int_eq}
use forwarding_explorer.Server.Types.{
  ForwardingRequest, AggregatedRequest, Result, ok, abort, fault, blocked, max_batch_size,
  error_invalid_request_id,
}

-- `r->operation == next_r->operation && r->file_handle == next_r->file_handle`
unfoldable pub aggregates : (r next : ForwardingRequest) → Bool
aggregates r next = (r.operation == next.operation) && int_eq r.file_handle next.file_handle

-- The aggregated request for `r` and what was collected with it, `r` first.
abbrev pub aggregated_of : ForwardingRequest → List ForwardingRequest → AggregatedRequest
aggregated_of r requests = record {
  file_handle = r.file_handle;
  operation = r.operation;
  requests = requests;
}

-- `find` is HASH_FIND_INT on the requests.
module _ (find : ℕ → Option ForwardingRequest) where
  -- The request whose identifier is at the head of the ready queue, and the rest.
  unfoldable pub take_ready : List ℕ → Result (ForwardingRequest × List ℕ)
  take_ready [] = blocked
  take_ready (request_id ∷ ready) = elim (find request_id) [
    | none ↦ abort error_invalid_request_id
    | some r ↦ ok (r, ready)
  ]

  -- The loop over the ready queue. A request that is not found is logged, and then followed.
  unfoldable pub aggregate :
      (r : ForwardingRequest) (collected : List ForwardingRequest)
      → List ℕ
      → Result (List ForwardingRequest × List ℕ)
  aggregate r collected [] = ok (collected, [])
  aggregate r collected (next_id ∷ ready) =
      if leb max_batch_size (length collected)
      then ok (collected, next_id ∷ ready)
      else elim (find next_id) [
        | none ↦ fault
        | some next_r ↦
            let rest = aggregate r (collected ++ next_r ∷ []) ready in
            if aggregates r next_r then rest else ok (collected, next_id ∷ ready)
      ]
