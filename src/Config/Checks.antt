-- ===== src/Config/Checks.antt =====
-- Which settings src/main.c accepts.
use forwarding_explorer.Base.{
  ℕ, ◌+◌, ◌%◌, ◌≡◌, ◌≢◌, ◌⊎◌, ◌↔◌, refl, sym, subst, some, true, false, arith,
}
use forwarding_explorer.Base.Int.{ℤ, pos, negsuc}
use forwarding_explorer.Workload.{shared, contiguous}
use forwarding_explorer.Workload.Servers.{IsSetup}
use forwarding_explorer.Server.Types.{Result, ok, abort, fault, blocked, ◌>>=◌}
use forwarding_explorer.Config.{
  Settings, overflows, too_few, remainder, exceeds, check_pattern, check_processes, check,
  max_threads,
}

-- An access pattern that the documentation allows.
pub record IsPattern (s : Settings) : Type 0 where
  pub layout : (s.files ≡ shared) ⊎ (s.spatiality ≡ contiguous)
  pub operations : (s.operations_write ≡ true) ⊎ (s.operations_read ≡ true)
  pub one_operation : (exceeds s.stone_wall 0 ≡ false) ⊎ (s.operations_write ≢ s.operations_read)

-- A number of forwarders that divides the processes; a negative one is let through as well.
abbrev pub Splits : (world_size : ℕ) → ℤ → Type 0
Splits w (pos f) = IsSetup w f
Splits w (negsuc f) = w % (f + 1) ≡ 0

pub record IsAccepted (world_size : ℕ) (s : Settings) : Type 0 where
  pub pattern : IsPattern s
  pub split : Splits world_size s.forwarders
  pub few_handlers : exceeds s.handlers max_threads ≡ false
  pub few_dispatchers : exceeds s.dispatchers max_threads ≡ false

check_pattern-IsPattern : (s t : Settings) → check_pattern s ≡ ok t → IsPattern s × (s ≡ t)
unfolding check_pattern
check_pattern-IsPattern s t e = (
  record { layout = ground arith; operations = ground arith; one_operation = ground arith },
  ground arith,
)

IsPattern-check_pattern : (s : Settings) → IsPattern s → check_pattern s ≡ ok s
unfolding check_pattern
IsPattern-check_pattern s p =
    let a = p.layout in let b = p.operations in let c = p.one_operation in ground arith

remainder-zero : (w : ℕ) (f : ℤ) → Splits w f → remainder w f ≡ some 0
remainder-zero w (pos f) p = let a = p.some_forwarder in let b = p.balanced in ground arith
remainder-zero w (negsuc f) p = ground arith

enough : (w : ℕ) (f : ℤ) → Splits w f → too_few w f ≡ false
enough w (pos f) p = let a = p.enough in ground arith
enough w (negsuc f) p = refl

split_of : (w : ℕ) (f : ℤ) → too_few w f ≡ false → remainder w f ≡ some 0 → Splits w f
split_of w (pos f) few r = record {
  some_forwarder = ground arith;
  enough = ground arith;
  balanced = ground arith;
}
split_of w (negsuc f) few r = ground arith

check_processes-Splits :
    (w : ℕ) (s t : Settings)
    → check_processes w s ≡ ok t
    → Splits w s.forwarders
      × (exceeds s.handlers max_threads ≡ false)
      × (exceeds s.dispatchers max_threads ≡ false)
      × (s ≡ t)
unfolding check_processes
check_processes-Splits w s t e = (
  split_of w s.forwarders (ground arith) (ground arith),
  ground arith,
  ground arith,
  ground arith,
)

Splits-check_processes :
    (w : ℕ) (s : Settings)
    → overflows s.forwarders ≡ false
    → Splits w s.forwarders
    → exceeds s.handlers max_threads ≡ false
    → exceeds s.dispatchers max_threads ≡ false
    → check_processes w s ≡ ok s
unfolding check_processes
Splits-check_processes w s o p h d =
    let r = remainder-zero w s.forwarders p in let few = enough w s.forwarders p in ground arith

ok_of_bind :
    (w : ℕ) (m : Result Settings) (t : Settings)
    → (m >>= check_processes w) ≡ ok t
    → (u : Settings) × (m ≡ ok u) × (check_processes w u ≡ ok t)
ok_of_bind w (ok u) t e = (u, refl, e)
ok_of_bind w (abort c) t e = absurd cc
ok_of_bind w fault t e = absurd cc
ok_of_bind w blocked t e = absurd cc

pub check-ok : (w : ℕ) (s t : Settings) → check w s ≡ ok t → IsAccepted w s × (s ≡ t)
unfolding check
check-ok w s t e =
    let (u, first, second) = ok_of_bind w (check_pattern s) t e in
    let (p, same) = check_pattern-IsPattern s u first in
    let (split, h, d, same') =
      check_processes-Splits w s t (subst (λ x. check_processes w x ≡ ok t) (sym same) second) in
    (record { pattern = p; split = split; few_handlers = h; few_dispatchers = d }, same')

IsAccepted-check :
    (w : ℕ) (s : Settings) → overflows s.forwarders ≡ false → IsAccepted w s → check w s ≡ ok s
unfolding check
IsAccepted-check w s o a =
    rw (IsPattern-check_pattern s a.pattern)
      (Splits-check_processes w s o a.split a.few_handlers a.few_dispatchers)

-- If twice the number of forwarders fits in an int, main.c goes on after its checks exactly if the
-- access pattern is supported, an operation is asked for (only one under a stone wall), the number
-- of forwarders divides the processes and leaves each of them a client, or is a negative divisor,
-- and at most 128 handlers and 128 dispatchers are asked for; the checks change no setting.
pub check-IsAccepted :
    (w : ℕ) (s t : Settings)
    → overflows s.forwarders ≡ false
    → (check w s ≡ ok t) ↔ (IsAccepted w s × (s ≡ t))
check-IsAccepted w s t o = (
  λ e. check-ok w s t e,
  λ (a, same). subst (λ x. check w s ≡ ok x) same (IsAccepted-check w s o a),
)

-- What main.c goes on with, if the number of forwarders is not negative, is a setup in which each
-- forwarding server has clients.
pub check-IsSetup :
    (w f : ℕ) (s t : Settings) → s.forwarders ≡ pos f → check w s ≡ ok t → IsSetup w f
check-IsSetup w f s t e done = subst (Splits w) e (check-ok w s t done).0.split
