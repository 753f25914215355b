-- ===== src/Client/Rounds.antt =====
-- The rounds of the clients in src/main.c: their extents, and which of them are run.
use forwarding_explorer.Base.{
  ℕ, zero, suc, ◌+◌, ◌*◌, ◌≤◌, ◌<◌, ◌≡◌, ◌≢◌, ◌⊎◌, inl, inr, refl, sym, ap, ◌∙◌, Bool, true, false,
  List, [], ◌∷◌, All, arith, dec_lt,
}
use forwarding_explorer.Base.Int.{ℤ}
use forwarding_explorer.Config.{Settings, exceeds, check}
use forwarding_explorer.Config.Checks.{check-ok}
use forwarding_explorer.Server.Types.{ok}
use forwarding_explorer.Server.Dispatch.Bytes.{IsApart}
use forwarding_explorer.Workload.{Files, individual, shared, Layout, ranks_from}
use forwarding_explorer.Workload.Extents.{slot, IsSlot, slot_injective}
use forwarding_explorer.Client.{rounds_from}

-- Extents of one size at different multiples of it.
pub slots-IsApart : (s k m : ℕ) → k ≢ m → IsApart (s * k) s (s * m) s
slots-IsApart s k m h = elim (dec_lt k m) [
  | yes l ↦ inl (grind arith)
  | no l ↦ inr (next_slot s m k (omega arith))
]
  where
    next_slot : (s m k : ℕ) → m < k → s * m + s ≤ s * k
    next_slot s m k l = grind arith

-- A client and a round occur in an order.
abbrev pub Occurs : (r i : ℕ) → List (ℕ × ℕ) → Type 0
Occurs r i [] = ⊥
Occurs r i ((r', i') ∷ order) = ((r ≡ r') × (i ≡ i')) ⊎ Occurs r i order

pub Files-cases : (f : Files) → (f ≡ shared) ⊎ (f ≡ individual)
Files-cases individual = inr refl
Files-cases shared = inl refl

slot-individual : (l : Layout) (r i : ℕ) → l.files ≡ individual → slot l r i ≡ i
slot-individual l r i e = ground arith

-- Different rounds of a client have different slots.
pub same_client :
    (l : Layout) (r i r' i' : ℕ)
    → IsSlot l r i
    → IsSlot l r' i'
    → r ≡ r'
    → i ≢ i'
    → slot l r i ≢ slot l r' i'
same_client l r i r' i' h h' p n q = elim (Files-cases l.files) [
  | inl s ↦ n (slot_injective l r i r' i' s h h' q).1
  | inr s ↦ n (sym (slot-individual l r i s) ∙ q ∙ slot-individual l r' i' s)
]

-- Without a stone wall, a loop runs through all its rounds.
pub rounds_from-ranks_from :
    (stone : ℤ) (late : ℕ → Bool) (i k : ℕ)
    → exceeds stone 0 ≡ false
    → rounds_from stone late i k ≡ ranks_from i k
unfolding ranks_from
rounds_from-ranks_from stone late i zero e = refl
rounds_from-ranks_from stone late i (suc k) e =
    rw (e, rounds_from-ranks_from stone late (suc i) k e)
      (ap (λ n. i ∷ ranks_from n k) (omega arith))

pub ranks_from-All : (n i k : ℕ) → i + k ≤ n → All (λ j. j < n) (ranks_from i k)
unfolding ranks_from
ranks_from-All n i zero h = tt
ranks_from-All n i (suc k) h = (omega arith, ranks_from-All n (i + 1) k (omega arith))

pub All-both :
    {P Q R : ℕ → Type 0}
    → ((j : ℕ) → P j → Q j → R j)
    → (rounds : List ℕ) → All P rounds
    → All Q rounds
    → All R rounds
All-both f [] p q = tt
All-both f (j ∷ rounds) (p, ps) (q, qs) = (f j p q, All-both f rounds ps qs)

pub no_stone_wall :
    (w : ℕ) (s t : Settings)
    → check w s ≡ ok t
    → s.operations_write ≡ true
    → s.operations_read ≡ true
    → exceeds s.stone_wall 0 ≡ false
no_stone_wall w s t e writes reads = elim (((check-ok w s t e).0.pattern).one_operation) [
  | inl off ↦ off
  | inr differ ↦ absurd (differ (writes ∙ sym reads))
]
