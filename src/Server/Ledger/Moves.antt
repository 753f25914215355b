-- ===== src/Server/Ledger/Moves.antt =====
-- How the books of a forwarding server change when a request moves.
use forwarding_explorer.Base.{
  ℕ, suc, ◌+◌, ◌≤◌, ◌<◌, ◌≡◌, refl, sym, subst, ap, ℕ_discrete, dec_lt, ◌∙◌, Option, none, some,
  List, [], ◌∷◌, count, arith,
}
use mathlib.Core.Logic.{ite, if_pos, if_neg}
use forwarding_explorer.Identifiers.{generate_identifier, after_calls}
use forwarding_explorer.Identifiers.Cycle.{request_ids_distinct}
use forwarding_explorer.Server.Types.{ForwardingRequest}
use forwarding_explorer.Server.Env.{Env}
use forwarding_explorer.Server.System.{Message}
use forwarding_explorer.Server.Ledger.{identifiers_sent, completions_sent, Tabled, Books}

abbrev pub single : ℕ → ℕ → ℕ
single id a = count a (id ∷ [])

untabled : (o : Option ForwardingRequest) (a : ℕ) → Tabled o a 0 → o ≡ none
untabled none a t = refl
untabled (some r) a t = absurd (omega arith)

pub found_of :
    (o : Option ForwardingRequest) (a n : ℕ)
    → Tabled o a n
    → 0 < n
    → (r : ForwardingRequest) × (o ≡ some r) × (r.id ≡ a)
found_of none a n t h = absurd (omega arith)
found_of (some r) a n t h = (r, refl, t.1)

module _ {env : Env} {n : ℕ} {e l v : ℕ → ℕ} {g : ℕ} {t : env.requests.Table} {sent : List Message}
    (b : Books env n e l v g t sent) where
  open b use {counter, once, issued, tabled, answered}

  -- Nothing is added to what is held early, and what is held late stays.
  pub keep :
      (e' l' v' : ℕ → ℕ) (sent' : List Message)
      → ((a : ℕ) → e' a ≤ e a)
      → ((a : ℕ) → l' a ≡ l a)
      → ((a : ℕ)
          → (identifiers_sent a sent' + v a ≡ identifiers_sent a sent + v' a)
            × (completions_sent a sent' ≡ completions_sent a sent))
      → Books env n e' l' v' g t sent'
  keep e' l' v' sent' le same told = record {
    counter = counter;
    once = λ a. omega (arith, once a, le a, same a, (told a).1);
    issued = λ a h. issued a (omega (arith, le a, same a, (told a).1));
    tabled = λ a. subst (Tabled (env.requests.find a t) a) (sym (same a)) (tabled a);
    answered = λ a. omega (arith, answered a, same a, (told a).0, (told a).1);
  }

  -- A request goes from those held early to those held late, into the table.
  pub admit :
      (r : ForwardingRequest) (e' l' v' : ℕ → ℕ) (sent' : List Message)
      → ((a : ℕ) → e' a + single r.id a ≡ e a)
      → ((a : ℕ) → l' a ≡ l a + single r.id a)
      → ((a : ℕ)
          → (identifiers_sent a sent' + v a ≡ identifiers_sent a sent + v' a + single r.id a)
            × (completions_sent a sent' ≡ completions_sent a sent))
      → Books env n e' l' v' g (env.requests.add r.id r t) sent'
  admit r e' l' v' sent' out into told = record {
    counter = counter;
    once = λ a. omega (arith, once a, out a, into a, (told a).1);
    issued = λ a h. issued a (omega (arith, out a, into a, (told a).1));
    tabled = λ a. rw (env.requests.find-add r.id a r t absent) (entry a);
    answered = λ a. omega (arith, answered a, into a, (told a).0, (told a).1);
  }
    where
      free : l r.id ≡ 0
      free = ground (arith, once r.id, out r.id)

      absent : env.requests.find r.id t ≡ none
      absent = untabled _ r.id (subst (Tabled (env.requests.find r.id t) r.id) free (tabled r.id))

      entry :
          (a : ℕ)
          → Tabled (ite (env.requests.key_eq r.id a) (some r) (env.requests.find a t)) a (l' a)
      entry a = elim (env.requests.key_eq r.id a) [
        | yes p ↦ rw (if_pos _ p) (ground (arith, into a, once a, out a), p)
        | no ne ↦
            rw (if_neg _ ne)
              (subst (Tabled (env.requests.find a t) a) (ground (arith, into a)) (tabled a))
      ]

  -- A request that is held late is completed, and leaves the table.
  pub complete :
      (id : ℕ) (l' : ℕ → ℕ) (sent' : List Message)
      → ((a : ℕ) → l a ≡ l' a + single id a)
      → ((a : ℕ)
          → (identifiers_sent a sent' ≡ identifiers_sent a sent)
            × (completions_sent a sent' ≡ completions_sent a sent + single id a))
      → Books env n e l' v g (env.requests.delete id t) sent'
  complete id l' sent' out told = record {
    counter = counter;
    once = λ a. omega (arith, once a, out a, (told a).1);
    issued = λ a h. issued a (omega (arith, out a, (told a).1));
    tabled = λ a. rw (env.requests.find-delete id a t) (entry a);
    answered = λ a. omega (arith, answered a, out a, (told a).0, (told a).1);
  }
    where
      entry :
          (a : ℕ) → Tabled (ite (env.requests.key_eq id a) none (env.requests.find a t)) a (l' a)
      entry a = elim (env.requests.key_eq id a) [
        | yes p ↦ rw (if_pos _ p) (ground (arith, once a, out a))
        | no ne ↦
            rw (if_neg _ ne)
              (subst (Tabled (env.requests.find a t) a) (ground (arith, out a)) (tabled a))
      ]

  next_counter : generate_identifier g ≡ after_calls generate_identifier (suc n) 1000000
  unfolding after_calls
  next_counter = ap generate_identifier counter

  -- No request in the server has the next identifier.
  fresh :
      n ≤ 8000000
      → e (generate_identifier g)
          + l (generate_identifier g)
          + completions_sent (generate_identifier g) sent
        ≡ 0
  fresh few =
      let times =
        e (generate_identifier g)
        + l (generate_identifier g)
        + completions_sent (generate_identifier g) sent in
      elim (dec_lt 0 times) [
        | no unused ↦ omega arith
        | yes used ↦
            let (j, pos, le, same) = issued (generate_identifier g) used in
            absurd (
              (request_ids_distinct 1000000 j (suc n) (omega arith, omega arith) (omega arith)
                  (omega arith)).0
                (sym same ∙ next_counter))
      ]

  -- A request comes in, with the next identifier, if at most 8000000 came before it.
  pub arrive :
      (e' : ℕ → ℕ)
      → n ≤ 8000000
      → ((a : ℕ) → e' a ≡ e a + single (generate_identifier g) a)
      → Books env (suc n) e' l v (generate_identifier g) t sent
  arrive e' few into = record {
    counter = next_counter;
    once = λ a. elim (ℕ_discrete (generate_identifier g) a) [
      | yes p ↦
          let unused = subst (λ x. e x + l x + completions_sent x sent ≡ 0) p (fresh few) in
          ground (arith, into a)
      | no ne ↦ ground (arith, into a, once a)
    ];
    issued = λ a h. elim (ℕ_discrete (generate_identifier g) a) [
      | yes p ↦ (suc n, omega arith, omega arith, sym p ∙ next_counter)
      | no ne ↦
          let (j, pos, le, same) = issued a (ground (arith, into a)) in (j, pos, omega arith, same)
    ];
    tabled = tabled;
    answered = answered;
  }
