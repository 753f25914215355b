-- ===== src/Server/Ledger/Outcome.antt =====
-- How an event of a forwarding server may end.
use forwarding_explorer.Base.{
  ◌≡◌, ◌≢◌, refl, sym, subst, Bool, true, false, Option, none, some, if◌then◌else◌,
}
use forwarding_explorer.Server.Types.{
  Result, ok, abort, fault, blocked, ◌>>=◌, error_invalid_request_id,
}

-- Either in a state with `P`, or by an abort, but not because a request is unknown. A fault needs
-- an assumption `H` to fail.
abbrev pub Outcome {ℓ} : {A : Type ℓ} → (A → Type 0) → Type 0 → Result A → Type 0
Outcome P H (ok a) = P a
Outcome P H (abort c) = c ≢ error_invalid_request_id
Outcome P H fault = ¬ H
Outcome P H blocked = Unit

pub Outcome-bind {ℓ κ} :
    {A : Type ℓ} {B : Type κ} (P : A → Type 0) (Q : B → Type 0) (H : Type 0) (m : Result A)
    (f : A → Result B)
    → Outcome P H m
    → ((a : A) → P a → Outcome Q H (f a))
    → Outcome Q H (m >>= f)
Outcome-bind P Q H (ok a) f o k = k a o
Outcome-bind P Q H (abort c) f o k = o
Outcome-bind P Q H fault f o k = o
Outcome-bind P Q H blocked f o k = tt

pub Outcome-weaken {ℓ} :
    {A : Type ℓ} (P : A → Type 0) (G H : Type 0) (m : Result A)
    → (H → G)
    → Outcome P G m
    → Outcome P H m
Outcome-weaken P G H (ok a) f o = o
Outcome-weaken P G H (abort c) f o = o
Outcome-weaken P G H fault f o = λ h. o (f h)
Outcome-weaken P G H blocked f o = tt

-- Through the tests and matches of the code.
pub Outcome-if {ℓ} :
    {A : Type ℓ} (P : A → Type 0) (H : Type 0) (b : Bool) (x y : Result A)
    → Outcome P H x
    → Outcome P H y
    → Outcome P H (if b then x else y)
Outcome-if P H true x y p q = p
Outcome-if P H false x y p q = q

pub Outcome-option {ℓ κ} :
    {A : Type ℓ} {B : Type κ} (P : A → Type 0) (H : Type 0) (o : Option B) (x : Result A)
    (f : B → Result A)
    → (o ≡ none → Outcome P H x)
    → ((b : B) → o ≡ some b → Outcome P H (f b))
    → Outcome P H (elim o [ none ↦ x | some b ↦ f b ])
Outcome-option P H none x f p q = p refl
Outcome-option P H (some b) x f p q = q b refl

-- A first part that is known to succeed.
pub Outcome-ok {ℓ κ} :
    {A : Type ℓ} {B : Type κ} (P : B → Type 0) (H : Type 0) (m : Result A) (f : A → Result B)
    (a : A)
    → m ≡ ok a
    → Outcome P H (f a)
    → Outcome P H (m >>= f)
Outcome-ok P H m f a e o = subst (λ q. Outcome P H (q >>= f)) (sym e) o
