-- ===== src/Server/Ledger.antt =====
-- Where each request of a forwarding server is: what the threads of src/server/, src/handler/,
-- src/dispatcher/ and AGIOS hold between them.
pub mod Pool
pub mod Moves
pub mod Outcome
pub mod Replies
pub mod Jobs
pub mod Handler
pub mod Queues
pub mod Reachable
use forwarding_explorer.Base.{
  ℕ, zero, suc, ◌+◌, ◌≤◌, ◌<◌, ◌≡◌, Option, none, some, List, [], ◌∷◌, count,
}
use forwarding_explorer.Identifiers.{generate_identifier, after_calls}
use forwarding_explorer.Server.Types.{ForwardingRequest, AggregatedRequest}
use forwarding_explorer.Server.Env.{Env}
use forwarding_explorer.Server.Batch.Aggregate.{ids}
use forwarding_explorer.Server.System.{
  Job, handle_read, handle_write, receive, dispatch, callback_read, callback_write, Message,
  identifier, content, write_done, Server,
}

-- The requests of a job whose clients wait for an identifier or send their data.
abbrev pub held_early : Job → List ℕ
held_early (handle_read r) = r.id ∷ []
held_early (handle_write r) = r.id ∷ []
held_early (receive r) = r.id ∷ []
held_early _ = []

-- The requests of a job that have been in the table since before AGIOS had them.
abbrev pub held_late : Job → List ℕ
held_late (dispatch a) = ids a.requests
held_late (callback_read a) = ids a.requests
held_late (callback_write a) = ids a.requests
held_late _ = []

-- The requests of a job that have been answered with their identifier.
abbrev pub held_received : Job → List ℕ
held_received (receive r) = r.id ∷ []
held_received _ = []

-- How often `a` is among the requests of the jobs of a pool.
abbrev pub tally : (Job → List ℕ) → ℕ → List Job → ℕ
tally held a [] = 0
tally held a (j ∷ js) = count a (held j) + tally held a js

abbrev pub one_if : ℕ → Option ForwardingRequest → ℕ
one_if a none = 0
one_if a (some r) = count a (r.id ∷ [])

-- How often the identifier `a` was sent to a client, and how often its request was completed.
abbrev pub identifiers_sent : ℕ → List Message → ℕ
identifiers_sent a [] = 0
identifiers_sent a (identifier rank id ∷ ms) = count a (id ∷ []) + identifiers_sent a ms
identifiers_sent a (m ∷ ms) = identifiers_sent a ms

abbrev pub completions_sent : ℕ → List Message → ℕ
completions_sent a [] = 0
completions_sent a (content rank id bytes ∷ ms) = count a (id ∷ []) + completions_sent a ms
completions_sent a (write_done rank id ∷ ms) = count a (id ∷ []) + completions_sent a ms
completions_sent a (m ∷ ms) = completions_sent a ms

-- The entry of the table under `a`, if `a` is held late `n` times.
abbrev pub Tabled : Option ForwardingRequest → ℕ → ℕ → Type 0
Tabled none a n = n ≡ 0
Tabled (some r) a n = (n ≡ 1) × (r.id ≡ a)

-- An identifier of one of the first `n` requests.
abbrev pub Issued : ℕ → ℕ → Type 0
Issued n a = (j : ℕ) × (0 < j) × (j ≤ n) × (a ≡ after_calls generate_identifier j 1000000)

-- The books after `n` requests have come in, with `e a`, `l a` and `v a` for how often `a` is held
-- early, late, and by a job that has sent its identifier: each request is held or completed at most
-- once, the table has exactly those that are held late, and a client that has its identifier has its request
-- received, held late or completed.
pub record Books (env : Env) (n : ℕ) (e l v : ℕ → ℕ) (g : ℕ) (t : env.requests.Table)
    (sent : List Message) : Type 0 where
  pub counter : g ≡ after_calls generate_identifier n 1000000
  pub once : (a : ℕ) → e a + l a + completions_sent a sent ≤ 1
  pub issued : (a : ℕ) → 0 < e a + l a + completions_sent a sent → Issued n a
  pub tabled : (a : ℕ) → Tabled (env.requests.find a t) a (l a)
  pub answered : (a : ℕ) → identifiers_sent a sent ≡ v a + l a + completions_sent a sent

module _ {env : Env} where
  abbrev pub early : Server env → ℕ → ℕ
  early s a = count a (ids s.incoming) + tally held_early a s.pool

  abbrev pub late : Server env → ℕ → ℕ
  late s a = count a s.agios + count a s.ready + one_if a s.collecting + tally held_late a s.pool

  abbrev pub received : Server env → ℕ → ℕ
  received s a = tally held_received a s.pool

  abbrev pub IsLedger : ℕ → Server env → Type 0
  IsLedger n s = Books env n (early s) (late s) (received s) s.global_id s.requests s.sent
