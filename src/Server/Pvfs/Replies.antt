-- ===== src/Server/Pvfs/Replies.antt =====
-- The callbacks of src/dispatcher/orangefs.c answer as those of src/dispatcher/posix.c.
use forwarding_explorer.Base.{
  ℕ, ◌≡◌, ◌≢◌, ◌⊎◌, inl, inr, refl, sym, subst, ap, ◌∙◌, Option, none, some, List, [], ◌∷◌, take,
  arith,
}
use mathlib.Core.Logic.{ite}
use forwarding_explorer.Server.Types.{ForwardingRequest, ok, fault}
use forwarding_explorer.Server.Env.{Env}
use forwarding_explorer.Server.System.{Server, content, store, send}
use forwarding_explorer.Server.Dispatch.{reply_read}
use forwarding_explorer.Server.Pvfs.{pvfs_callback_read}

module _ (env : Env) where
  open env use {requests as table}

  -- The table has each request under its identifier, and no two with one buffer.
  pub record IsKeyed (t : table.Table) : Type 0 where
    pub key : (k : ℕ) (q : ForwardingRequest) → table.find k t ≡ some q → q.id ≡ k
    pub own_buffer :
        (j k : ℕ) (p q : ForwardingRequest)
        → table.find j t ≡ some p
        → table.find k t ≡ some q
        → p.buffer ≡ q.buffer
        → j ≡ k

  -- The requests in a table find their data in two memories.
  abbrev pub AreAlike : table.Table → (memory memory' : ℕ → List ℕ) → Type 0
  AreAlike t memory memory' =
      (k : ℕ) (q : ForwardingRequest) → table.find k t ≡ some q → memory' q.buffer ≡ memory q.buffer

  still_there :
      (j k : ℕ) (q : ForwardingRequest) (t : table.Table)
      → table.find k (table.delete j t) ≡ some q
      → (j ≢ k) × (table.find k t ≡ some q)
  still_there j k q t e = decided (table.key_eq j k) (sym (table.find-delete j k t) ∙ e)
    where
      decided :
          (d : Dec (j ≡ k))
          → ite d none (table.find k t) ≡ some q
          → (j ≢ k) × (table.find k t ≡ some q)
      decided (yes p) h = cc
      decided (no n) h = (n, h)

  -- The empty table is such a table, and with a request that has an identifier and a buffer of its own.
  pub empty-IsKeyed : IsKeyed table.empty
  empty-IsKeyed = record {
    key = λ k q e. let nothing = table.find-empty k in cc;
    own_buffer = λ j k p q a b same. let nothing = table.find-empty j in cc;
  }

  added_there :
      (r : ForwardingRequest) (k : ℕ) (q : ForwardingRequest) (t : table.Table)
      → table.find r.id t ≡ none
      → table.find k (table.add r.id r t) ≡ some q
      → ((r.id ≡ k) × (r ≡ q)) ⊎ (table.find k t ≡ some q)
  added_there r k q t new e =
      decided (table.key_eq r.id k) (sym (table.find-add r.id k r t new) ∙ e)
    where
      decided :
          (d : Dec (r.id ≡ k))
          → ite d (some r) (table.find k t) ≡ some q
          → ((r.id ≡ k) × (r ≡ q)) ⊎ (table.find k t ≡ some q)
      decided (yes p) h = inl (p, cc)
      decided (no n) h = inr h

  pub add-IsKeyed :
      (r : ForwardingRequest) (t : table.Table)
      → table.find r.id t ≡ none
      → ((k : ℕ) (q : ForwardingRequest) → table.find k t ≡ some q → q.buffer ≢ r.buffer)
      → IsKeyed t
      → IsKeyed (table.add r.id r t)
  add-IsKeyed r t new fresh keyed = record {
    key = λ k q e. elim (added_there r k q t new e) [
      | inl (p, same) ↦ ap (λ x. x.id) (sym same) ∙ p
      | inr old ↦ keyed.key k q old
    ];
    own_buffer = λ j k p q a b same. elim (added_there r j p t new a) [
      | inl (i, x) ↦ elim (added_there r k q t new b) [
        | inl (i', y) ↦ sym i ∙ i'
        | inr old ↦ absurd (fresh k q old (sym same ∙ ap (λ x. x.buffer) (sym x)))
      ]
      | inr old ↦ elim (added_there r k q t new b) [
        | inl (i', y) ↦ absurd (fresh j p old (same ∙ ap (λ x. x.buffer) (sym y)))
        | inr old' ↦ keyed.own_buffer j k p q old old' same
      ]
    ];
  }

  delete-IsKeyed : (j : ℕ) (t : table.Table) → IsKeyed t → IsKeyed (table.delete j t)
  delete-IsKeyed j t keyed = record {
    key = λ k q e. keyed.key k q (still_there j k q t e).1;
    own_buffer =
        λ i k p q a b. keyed.own_buffer i k p q (still_there j i p t a).1 (still_there j k q t b).1;
  }

  delete-AreAlike :
      (t : table.Table) (memory memory' : ℕ → List ℕ) (p : ForwardingRequest)
      → IsKeyed t
      → AreAlike t memory memory'
      → table.find p.id t ≡ some p
      → AreAlike (table.delete p.id t) memory (store memory' p.buffer [])
  delete-AreAlike t memory memory' p keyed alike e k q h =
      let (n, there) = still_there p.id k q t h in
      let other : q.buffer ≢ p.buffer =
        λ same. n (keyed.own_buffer p.id k p q e there (sym same)) in
      let same = alike k q there in ground arith

  -- The server once a request was answered.
  abbrev answered : ForwardingRequest → Server env → Server env
  answered q s =
      send env (content q.rank q.id (take q.size (s.memory q.buffer)))
        (record s { requests = table.delete q.id s.requests })

  abbrev pub with_memory : (ℕ → List ℕ) → Server env → Server env
  with_memory memory s = record s { memory = memory }

  reply_read-answered :
      (r : ForwardingRequest) (rs : List ForwardingRequest) (s t : Server env)
      → reply_read env (r ∷ rs) s ≡ ok t
      → (q : ForwardingRequest) × (table.find r.id s.requests ≡ some q)
        × (reply_read env rs (answered q s) ≡ ok t)
  unfolding reply_read
  reply_read-answered r rs s t e = found (table.find r.id s.requests) refl e
    where
      found :
          (o : Option ForwardingRequest)
          → table.find r.id s.requests ≡ o
          → elim o [ none ↦ fault | some q ↦ reply_read env rs (answered q s) ] ≡ ok t
          → (q : ForwardingRequest) × (table.find r.id s.requests ≡ some q)
            × (reply_read env rs (answered q s) ≡ ok t)
      found none p h = cc
      found (some q) p h = (q, p, h)

  freed_one :
      (r q : ForwardingRequest) (rs : List ForwardingRequest) (s : Server env) (m : ℕ → List ℕ)
      → table.find r.id s.requests ≡ some q
      → m q.buffer ≡ s.memory q.buffer
      → pvfs_callback_read env (r ∷ rs) (with_memory m s)
        ≡ pvfs_callback_read env rs (with_memory (store m q.buffer []) (answered q s))
  unfolding pvfs_callback_read
  freed_one r q rs s m e same = rw (e, same, pvfs_callback_read)

  -- The same for two memories in which the requests of the table find the same data.
  answers_alike :
      (rs : List ForwardingRequest) (s t : Server env) (m : ℕ → List ℕ)
      → IsKeyed s.requests
      → AreAlike s.requests s.memory m
      → reply_read env rs s ≡ ok t
      → (m' : ℕ → List ℕ) × (pvfs_callback_read env rs (with_memory m s) ≡ ok (with_memory m' t))
        × AreAlike t.requests t.memory m'
  unfolding reply_read pvfs_callback_read
  answers_alike [] s t m keyed alike e =
      let same : s ≡ t = cc in
      (
        m,
        ap (λ x. ok (with_memory m x)) same,
        subst (λ x. AreAlike x.requests x.memory m) same alike,
      )
  answers_alike (r ∷ rs) s t m keyed alike e =
      let (q, there, rest) = reply_read-answered r rs s t e in
      let under : table.find q.id s.requests ≡ some q = rw (keyed.key r.id q there) there in
      let (m', ends, still) =
        answers_alike rs (answered q s) t (store m q.buffer [])
          (delete-IsKeyed q.id s.requests keyed)
          (delete-AreAlike s.requests s.memory m q keyed alike under) rest in
      (m', freed_one r q rs s m there (alike r.id q there) ∙ ends, still)

  -- Where the callback for READs of src/dispatcher/posix.c answers a batch, so does that of
  -- src/dispatcher/orangefs.c: it ends in the same state, with the same messages and the same table, but
  -- for the buffers that it frees; and the requests that still wait in the table find the same data. No
  -- two requests of the table have one buffer, and each is there under its identifier.
  pub pvfs_callback_read-reply_read :
      (rs : List ForwardingRequest) (s t : Server env)
      → IsKeyed s.requests
      → reply_read env rs s ≡ ok t
      → (m : ℕ → List ℕ) × (pvfs_callback_read env rs s ≡ ok (with_memory m t))
        × AreAlike t.requests t.memory m
  pvfs_callback_read-reply_read rs s t keyed e =
      answers_alike rs s t s.memory keyed (λ k q there. refl) e
