-- ===== src/Server/Shutdown/Others.antt =====
-- What does not touch the count of src/server/listener.c: every thread but the listener.
use forwarding_explorer.Base.{ℕ, ◌≡◌, refl, ◌∙◌, Bool, List, [], ◌∷◌, arith, Option-cases, inl, inr}
use forwarding_explorer.Server.Types.{ForwardingRequest, Result, ok, abort, fault, blocked, ◌>>=◌}
use forwarding_explorer.Server.Env.{Env}
use forwarding_explorer.Server.System.{
  Job, handle_read, handle_write, receive, dispatch, callback_read, callback_write, Server,
  handle_first, handle, answer_open, answer_close, run_read, run_write, run_receive, submit,
  allocate, pick,
}
use forwarding_explorer.Server.Dispatch.{
  dispatch_operation, dispatch_read, dispatch_write, read_all, write_all, reply_read, reply_write,
}
use forwarding_explorer.Server.Step.{schedule, schedule_all, run_job, work_at, take_next, collect}

module _ {env : Env} where
  abbrev pub Same : Server env → Server env → Type 0
  Same s t = (t.shutdown ≡ s.shutdown) × (t.shutdown_control ≡ s.shutdown_control)

  abbrev pub Keeps : Server env → Result (Server env) → Type 0
  Keeps s (ok t) = Same s t
  Keeps s _ = Unit

  Keeps-bind {ℓ} :
      {A : Type ℓ} (s : Server env) (m : Result A) (f : A → Result (Server env))
      → ((a : A) → Keeps s (f a))
      → Keeps s (m >>= f)
  Keeps-bind s (ok a) f h = h a
  Keeps-bind s (abort c) f h = tt
  Keeps-bind s fault f h = tt
  Keeps-bind s blocked f h = tt

  Keeps-chain :
      (s : Server env) (m : Result (Server env)) (f : Server env → Result (Server env))
      → Keeps s m
      → ((t : Server env) → Keeps t (f t))
      → Keeps s (m >>= f)
  Keeps-chain s (ok t) f (a, b) h = go (f t) (h t)
    where
      go : (r : Result (Server env)) → Keeps t r → Keeps s r
      go (ok u) (c, d) = (c ∙ a, d ∙ b)
      go (abort c) _ = tt
      go fault _ = tt
      go blocked _ = tt
  Keeps-chain s (abort c) f k h = tt
  Keeps-chain s fault f k h = tt
  Keeps-chain s blocked f k h = tt

  pub schedule-Keeps : (id : ℕ) (s : Server env) → Keeps s (schedule env id s)
  unfolding schedule
  schedule-Keeps id s = ground arith

  pub schedule_all-Keeps : (is : List ℕ) (s : Server env) → Keeps s (schedule_all env is s)
  unfolding schedule_all
  schedule_all-Keeps [] s = (refl, refl)
  schedule_all-Keeps (id ∷ is) s =
      Keeps-chain s (schedule env id s) (schedule_all env is) (schedule-Keeps id s)
        (schedule_all-Keeps is)

  pub take_next-Keeps : (s : Server env) → Keeps s (take_next env s)
  unfolding take_next
  take_next-Keeps s = ground arith

  pub collect-Keeps : (s : Server env) → Keeps s (collect env s)
  unfolding collect
  collect-Keeps s = ground arith

  read_all-Same : (rs : List ForwardingRequest) (s : Server env) → Same s (read_all env rs s)
  unfolding read_all
  read_all-Same [] s = (refl, refl)
  read_all-Same (r ∷ rs) s = read_all-Same rs _

  write_all-Same : (rs : List ForwardingRequest) (s : Server env) → Same s (write_all env rs s)
  unfolding write_all
  write_all-Same [] s = (refl, refl)
  write_all-Same (r ∷ rs) s = write_all-Same rs _

  reply_read-Keeps : (rs : List ForwardingRequest) (s : Server env) → Keeps s (reply_read env rs s)
  unfolding reply_read
  reply_read-Keeps [] s = (refl, refl)
  reply_read-Keeps (r ∷ rs) s = elim (Option-cases (env.requests.find r.id s.requests)) [
    | inl e ↦ rw (e, reply_read) tt
    | inr (q, e) ↦ rw (e, reply_read) (reply_read-Keeps rs _)
  ]

  reply_write-Keeps :
      (rs : List ForwardingRequest) (s : Server env) → Keeps s (reply_write env rs s)
  unfolding reply_write
  reply_write-Keeps [] s = (refl, refl)
  reply_write-Keeps (r ∷ rs) s = elim (Option-cases (env.requests.find r.id s.requests)) [
    | inl e ↦ rw (e, reply_write) tt
    | inr (q, e) ↦ rw (e, reply_write) (reply_write-Keeps rs _)
  ]

  run_job-Keeps :
      (j : Job) (payload : List ℕ) (refused : Bool) (s : Server env)
      → Keeps s (run_job env j payload refused s)
  unfolding run_job run_read run_write run_receive submit allocate dispatch_operation dispatch_read
      dispatch_write
  run_job-Keeps (handle_read r) payload refused s = ground arith
  run_job-Keeps (handle_write r) payload refused s = ground arith
  run_job-Keeps (receive r) payload refused s = ground arith
  run_job-Keeps (dispatch a) payload refused s =
      ground (arith, read_all-Same a.requests s, write_all-Same a.requests s)
  run_job-Keeps (callback_read a) payload refused s = reply_read-Keeps a.requests s
  run_job-Keeps (callback_write a) payload refused s = reply_write-Keeps a.requests s

  pub work-Keeps :
      (k : ℕ) (payload : List ℕ) (refused : Bool) (s : Server env)
      → Keeps s (work_at env k payload refused s)
  unfolding work_at
  work-Keeps k payload refused s = elim (Option-cases (pick k s.pool)) [
    | inl e ↦ rw (e, work_at) tt
    | inr ((j, pool), e) ↦
        rw (e, work_at) (run_job-Keeps j payload refused (record s { pool = pool }))
  ]

  handle-Keeps : (r : ForwardingRequest) (s : Server env) → Keeps s (handle env r s)
  unfolding handle answer_open answer_close
  handle-Keeps r s = ground arith

  pub handle_first-Keeps :
      (rs : List ForwardingRequest) (s : Server env) → Keeps s (handle_first env rs s)
  unfolding handle_first
  handle_first-Keeps [] s = tt
  handle_first-Keeps (r ∷ rest) s = handle-Keeps r (record s { incoming = rest })
