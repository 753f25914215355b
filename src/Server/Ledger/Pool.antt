-- ===== src/Server/Ledger/Pool.antt =====
-- Counting requests in lists of jobs, of messages and of identifiers.
use forwarding_explorer.Base.{
  ℕ, zero, suc, ◌+◌, ◌≡◌, some, List, [], ◌∷◌, ◌++◌, count, arith, Option-cases, inl, inr,
}
use forwarding_explorer.Server.Types.{ForwardingRequest}
use forwarding_explorer.Server.Batch.Aggregate.{ids}
use forwarding_explorer.Server.System.{
  Job, Message, pick, take_out, identifier, content, write_done,
}
use forwarding_explorer.Server.Ledger.{tally, identifiers_sent, completions_sent}

pub tally-append :
    (held : Job → List ℕ) (a : ℕ) (js is : List Job)
    → tally held a (js ++ is) ≡ tally held a js + tally held a is
tally-append held a [] is = omega arith
tally-append held a (j ∷ js) is = omega (arith, tally-append held a js is)

-- The job that is picked is taken out of the pool once.
pub tally-pick :
    (held : Job → List ℕ) (a k : ℕ) (js is : List Job) (j : Job)
    → pick k js ≡ some (j, is)
    → tally held a js ≡ count a (held j) + tally held a is
unfolding pick
tally-pick held a k [] is j e = cc
tally-pick held a zero (i ∷ js) is j e = ground arith
tally-pick held a (suc k) (i ∷ js) is j e = elim (Option-cases (pick k js)) [
  | inl none_left ↦ ground arith
  | inr ((i', is'), picked) ↦ ground (arith, tally-pick held a k js is' i' picked)
]

pub count-take_out :
    (a x : ℕ) (xs ys : List ℕ)
    → take_out x xs ≡ some ys
    → count a xs ≡ count a (x ∷ []) + count a ys
unfolding take_out
count-take_out a x [] ys e = cc
count-take_out a x (z ∷ zs) ys e = elim (Option-cases (take_out x zs)) [
  | inl none_left ↦ ground arith
  | inr (rest, got) ↦ ground (arith, count-take_out a x zs rest got)
]

pub count-ids-append :
    (a : ℕ) (rs qs : List ForwardingRequest)
    → count a (ids (rs ++ qs)) ≡ count a (ids rs) + count a (ids qs)
count-ids-append a [] qs = omega arith
count-ids-append a (r ∷ rs) qs = omega (arith, count-ids-append a rs qs)

pub identifiers_sent-append :
    (a : ℕ) (ms ns : List Message)
    → identifiers_sent a (ms ++ ns) ≡ identifiers_sent a ms + identifiers_sent a ns
identifiers_sent-append a [] ns = omega arith
identifiers_sent-append a (identifier rank id ∷ ms) ns =
    omega (arith, identifiers_sent-append a ms ns)
identifiers_sent-append a (m ∷ ms) ns = omega (arith, identifiers_sent-append a ms ns)

pub completions_sent-append :
    (a : ℕ) (ms ns : List Message)
    → completions_sent a (ms ++ ns) ≡ completions_sent a ms + completions_sent a ns
completions_sent-append a [] ns = omega arith
completions_sent-append a (content rank id bytes ∷ ms) ns =
    omega (arith, completions_sent-append a ms ns)
completions_sent-append a (write_done rank id ∷ ms) ns =
    omega (arith, completions_sent-append a ms ns)
completions_sent-append a (m ∷ ms) ns = omega (arith, completions_sent-append a ms ns)
