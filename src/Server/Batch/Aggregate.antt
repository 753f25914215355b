-- ===== src/Server/Batch/Aggregate.antt =====
-- Which requests the dispatcher of src/server/dispatcher.c issues together.
use forwarding_explorer.Base.{
  ℕ, ◌≤◌, ◌≡◌, ◌⊎◌, inl, inr, refl, true, false, Option, some, List, [], ◌∷◌, ◌++◌, map,
  append_assoc, append-nil, length, leb, arith, All, Bool-cases, length-append, ap₂, ◌+◌, subst,
}
use forwarding_explorer.Server.Types.{ForwardingRequest, ok, max_batch_size}
use forwarding_explorer.Server.Batch.{aggregates, take_ready, aggregate}

abbrev pub ids : List ForwardingRequest → List ℕ
ids = map (λ r. r.id)

module _ (find : ℕ → Option ForwardingRequest) where
  abbrev pub IsFound : ℕ → Type 0
  IsFound request_id = (q : ForwardingRequest) × (find request_id ≡ some q) × (q.id ≡ request_id)

  -- Why a batch of `n` requests for `r` ends where it does.
  abbrev pub Stops : ForwardingRequest → (n : ℕ) → List ℕ → Type 0
  Stops r n [] = Unit
  Stops r n (next_id ∷ ready) =
      (n ≡ max_batch_size)
      ⊎ ((q : ForwardingRequest) × (find next_id ≡ some q) × (aggregates r q ≡ false))

  pub record IsBatch (r : ForwardingRequest) (n : ℕ) (ready : List ℕ)
      (batch : List ForwardingRequest) (rest : List ℕ) : Type 0 where
    pub in_order : ids batch ++ rest ≡ ready
    pub alike : All (λ q. aggregates r q ≡ true) batch
    pub few : n + length batch ≤ max_batch_size
    pub full : Stops r (n + length batch) rest

  pub aggregate-IsBatch :
      (r : ForwardingRequest) (collected : List ForwardingRequest) (ready : List ℕ)
      → All IsFound ready
      → length collected ≤ max_batch_size
      → (batch : List ForwardingRequest) × (rest : List ℕ) × (aggregate find r collected ready
          ≡ ok (collected ++ batch, rest))
        × IsBatch r (length collected) ready batch rest
  unfolding aggregate
  aggregate-IsBatch r collected [] found room = (
    [],
    [],
    rw append-nil refl,
    record { in_order = refl; alike = tt; few = omega arith; full = tt },
  )
  aggregate-IsBatch r collected (next_id ∷ ready) ((q, e, same), found) room =
      elim (Bool-cases (leb max_batch_size (length collected))) [
        | inl full ↦ (
          [],
          next_id ∷ ready,
          ground (arith, append-nil collected),
          record { in_order = refl; alike = tt; few = omega arith; full = inl (ground arith) },
        )
        | inr more ↦ elim (Bool-cases (aggregates r q)) [
          | inr other ↦ (
            [],
            next_id ∷ ready,
            ground (arith, append-nil collected),
            record { in_order = refl; alike = tt; few = omega arith; full = inr (q, e, other) },
          )
          | inl like ↦
              let grown = length-append collected (q ∷ []) in
              let (batch, rest, eq, is) =
                aggregate-IsBatch r (collected ++ q ∷ []) ready found (ground arith) in
              (
                q ∷ batch,
                rest,
                ground (arith, append_assoc collected (q ∷ []) batch),
                record {
                  in_order = ap₂ ◌∷◌ same is.in_order;
                  alike = (like, is.alike);
                  few = let f = is.few in omega arith;
                  full = subst (λ n. Stops r n rest) (omega arith) is.full;
                },
              )
        ]
      ]

  -- When every request of a ready queue that is not empty is in the table, the dispatcher takes
  -- the first one, `r`, and with it the longest run behind it of requests for the same operation
  -- and file handle, 16 requests at most; together they are, in order, what it takes off the
  -- queue.
  pub dispatcher-IsBatch :
      (request_id : ℕ) (ready : List ℕ)
      → All IsFound (request_id ∷ ready)
      → (r : ForwardingRequest) × (batch : List ForwardingRequest) × (rest : List ℕ) × (take_ready
            find
            (request_id ∷ ready)
          ≡ ok (r, ready))
        × (aggregate find r (r ∷ []) ready ≡ ok (r ∷ batch, rest))
        × (r.id ≡ request_id)
        × IsBatch r 1 ready batch rest
  unfolding take_ready
  dispatcher-IsBatch request_id ready ((r, e, same), found) =
      let (batch, rest, eq, is) = aggregate-IsBatch r (r ∷ []) ready found (omega arith) in
      (r, batch, rest, ground arith, eq, same, is)
