-- ===== src/Server/Ledger/Replies.antt =====
-- The loops of src/dispatcher/posix.c: the callbacks keep the books, and a dispatch leaves them alone.
use forwarding_explorer.Base.{
  ℕ, ◌+◌, ◌≡◌, refl, sym, subst, some, List, [], ◌∷◌, ◌++◌, take, count, arith,
}
use forwarding_explorer.Server.Types.{ForwardingRequest}
use forwarding_explorer.Server.Env.{Env}
use forwarding_explorer.Server.Batch.Aggregate.{ids}
use forwarding_explorer.Server.System.{Server, content, write_done, send, store, Message}
use forwarding_explorer.Server.Dispatch.{read_all, write_all, reply_read, reply_write}
use forwarding_explorer.Server.Ledger.{
  identifiers_sent, completions_sent, early, late, received, Books, IsLedger,
}
use forwarding_explorer.Server.Ledger.Pool.{identifiers_sent-append, completions_sent-append}
use forwarding_explorer.Server.Ledger.Moves.{single, found_of, keep, complete}
use forwarding_explorer.Server.Ledger.Outcome.{Outcome}

module _ {env : Env} where
  -- The loops of the dispatch change memory or disk only.
  pub read_all-memory :
      (rs : List ForwardingRequest) (s : Server env)
      → (m : ℕ → List ℕ) × (read_all env rs s ≡ record s { memory = m })
  unfolding read_all
  read_all-memory [] s = (s.memory, refl)
  read_all-memory (r ∷ rs) s = read_all-memory rs _

  pub write_all-disk :
      (rs : List ForwardingRequest) (s : Server env)
      → (d : env.files.Disk) × (write_all env rs s
          ≡ record s { handles = record s.handles { disk = d } })
  unfolding write_all
  write_all-disk [] s = (s.handles.disk, refl)
  write_all-disk (r ∷ rs) s = write_all-disk rs _

  -- What a callback has in hand is held late until it is answered.
  abbrev pub InHand : ℕ → List ForwardingRequest → Server env → Type 0
  InHand n rs s =
      Books env n (early s) (λ a. late s a + count a (ids rs)) (received s) s.global_id s.requests
        s.sent

  -- The state in which one request of a callback has been answered.
  abbrev answered_read : ForwardingRequest → Server env → Server env
  answered_read q s =
      send env (content q.rank q.id (take q.size (s.memory q.buffer)))
        (record s { requests = env.requests.delete q.id s.requests })

  abbrev answered_write : ForwardingRequest → Server env → Server env
  answered_write q s = send env (write_done q.rank q.id) (record s {
    requests = env.requests.delete q.id s.requests;
    memory = store s.memory q.buffer [];
  })

  reply_read-found :
      (r q : ForwardingRequest) (rs : List ForwardingRequest) (s : Server env)
      → env.requests.find r.id s.requests ≡ some q
      → reply_read env (r ∷ rs) s ≡ reply_read env rs (answered_read q s)
  unfolding reply_read
  reply_read-found r q rs s e = rw (e, reply_read)

  reply_write-found :
      (r q : ForwardingRequest) (rs : List ForwardingRequest) (s : Server env)
      → env.requests.find r.id s.requests ≡ some q
      → reply_write env (r ∷ rs) s ≡ reply_write env rs (answered_write q s)
  unfolding reply_write
  reply_write-found r q rs s e = rw (e, reply_write)

  -- One answer moves its request from the hand to the completed ones.
  answer :
      (n : ℕ) (r q : ForwardingRequest) (rs : List ForwardingRequest) (s : Server env) (m : Message)
      → InHand n (r ∷ rs) s
      → q.id ≡ r.id
      → ((a : ℕ)
          → (identifiers_sent a (m ∷ []) ≡ 0) × (completions_sent a (m ∷ []) ≡ single q.id a))
      → Books env n
          (early s)
          (λ a. late s a + count a (ids rs))
          (received s)
          s.global_id
          (env.requests.delete q.id s.requests)
          (s.sent ++ m ∷ [])
  answer n r q rs s m b same told =
      complete b q.id (λ a. late s a + count a (ids rs)) (s.sent ++ m ∷ [])
        (λ a. rw same (omega arith))
        (λ a. (
          omega (arith, identifiers_sent-append a s.sent (m ∷ []), (told a).0),
          omega (arith, completions_sent-append a s.sent (m ∷ []), (told a).1),
        ))

  known :
      (n : ℕ) (r : ForwardingRequest) (rs : List ForwardingRequest) (s : Server env)
      → InHand n (r ∷ rs) s
      → (q : ForwardingRequest) × (env.requests.find r.id s.requests ≡ some q) × (q.id ≡ r.id)
  known n r rs s b = found_of _ r.id _ (b.tabled r.id) (ground arith)

  none-InHand : (n : ℕ) (s : Server env) → InHand n [] s → IsLedger n s
  none-InHand n s b =
      keep b (early s) (late s) (received s) s.sent (λ a. omega arith) (λ a. omega arith)
        (λ a. (refl, refl))

  pub reply_read-IsLedger :
      (H : Type 0) (n : ℕ) (rs : List ForwardingRequest) (s : Server env)
      → InHand n rs s
      → Outcome (IsLedger n) H (reply_read env rs s)
  unfolding reply_read
  reply_read-IsLedger H n [] s b = none-InHand n s b
  reply_read-IsLedger H n (r ∷ rs) s b =
      let (q, e, same) = known n r rs s b in
      subst (Outcome (IsLedger n) H) (sym (reply_read-found r q rs s e)) (
        reply_read-IsLedger H n rs (answered_read q s)
          (answer n r q rs s _ b same (λ a. (refl, omega arith))))

  pub reply_write-IsLedger :
      (H : Type 0) (n : ℕ) (rs : List ForwardingRequest) (s : Server env)
      → InHand n rs s
      → Outcome (IsLedger n) H (reply_write env rs s)
  unfolding reply_write
  reply_write-IsLedger H n [] s b = none-InHand n s b
  reply_write-IsLedger H n (r ∷ rs) s b =
      let (q, e, same) = known n r rs s b in
      subst (Outcome (IsLedger n) H) (sym (reply_write-found r q rs s e)) (
        reply_write-IsLedger H n rs (answered_write q s)
          (answer n r q rs s _ b same (λ a. (refl, omega arith))))
