-- ===== src/Base/Outcome.antt =====
-- What a call of Go code can end in: a value, an error value, or a run-time panic; and an action
-- on a state, which keeps what was written before an error.
use mathlib.Core.Bool.{Bool, true, false}
use mathlib.Core.Option.{Option, none, some}
use mathlib.Core.Path.{◌≡◌, refl}

pub data Result {ℓ κ} (E : Type ℓ) (A : Type κ) : Type (ℓ ⊔ κ) where
  ok : A → Result E A
  err : E → Result E A
  panic : Result E A

abbrev pub Action {ℓ κ μ} : Type ℓ → Type κ → Type μ → Type (ℓ ⊔ κ ⊔ μ)
Action S E A = S → Result E A × S

abbrev pub bind_at {ℓ κ μ ν} :
    {S : Type ℓ} {E : Type κ} {A : Type μ} {B : Type ν}
    → Result E A
    → S
    → (A → Action S E B)
    → Result E B × S
bind_at (ok a) s f = f a s
bind_at (err e) s f = (err e, s)
bind_at panic s f = (panic, s)

infixl 5 ◌>>=◌ ◌>>◌
abbrev pub ◌>>=◌ {ℓ κ μ ν} :
    {S : Type ℓ} {E : Type κ} {A : Type μ} {B : Type ν}
    → Action S E A
    → (A → Action S E B)
    → Action S E B
◌>>=◌ m f s = let (r, s') = m s in bind_at r s' f

abbrev pub ◌>>◌ {ℓ κ ν} :
    {S : Type ℓ} {E : Type κ} {B : Type ν} → Action S E (Unit {0}) → Action S E B → Action S E B
m >> k = m >>= λ _. k

module _ {ℓ κ} {S : Type ℓ} {E : Type κ} where
  abbrev pub pure {μ} : {A : Type μ} → A → Action S E A
  pure a s = (ok a, s)

  abbrev pub fail {μ} : {A : Type μ} → E → Action S E A
  fail e s = (err e, s)

  abbrev pub crash {μ} : {A : Type μ} → Action S E A
  crash s = (panic, s)

  abbrev pub modify : (S → S) → Action S E (Unit {0})
  modify f s = (ok tt, f s)

  abbrev pub gets {μ} : {A : Type μ} → (S → A) → Action S E A
  gets f s = (ok (f s), s)

  -- `if b { return err }`
  abbrev pub fail_if : Bool → E → Action S E (Unit {0})
  fail_if true e s = (err e, s)
  fail_if false e s = (ok tt, s)

  abbrev pub or_fail {μ} : {A : Type μ} → Option A → E → Action S E A
  or_fail none e s = (err e, s)
  or_fail (some a) e s = (ok a, s)

  abbrev pub or_crash {μ} : {A : Type μ} → Option A → Action S E A
  or_crash none s = (panic, s)
  or_crash (some a) s = (ok a, s)

  abbrev pub lift {μ} : {A : Type μ} → Result E A → Action S E A
  lift r s = (r, s)

-- What holds of the state before a bind, and after each way on, holds after the bind.
pub bind_at_keeps {ℓ κ μ ν π} :
    {S : Type ℓ} {E : Type κ} {A : Type μ} {B : Type ν} (P : S → Type π) (r : Result E A) (s : S)
    (f : A → Action S E B)
    → P s
    → ((a : A) → r ≡ ok a → P (f a s).1)
    → P (bind_at r s f).1
bind_at_keeps P (ok a) s f h k = k a refl
bind_at_keeps P (err e) s f h k = h
bind_at_keeps P panic s f h k = h
