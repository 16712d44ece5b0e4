-- ===== src/Base/Fallible.antt =====
-- What a fallible call returns: a value, an error value, or a panic (a failed `assert!`, `expect`
-- or index). A panic unwinds, so no later step runs.
use mathlib.Core.Bool.{Bool, true, false}

pub data Outcome {ℓ κ} (E : Type κ) (A : Type ℓ) : Type (ℓ ⊔ κ) where
  ok : A → Outcome E A
  err : E → Outcome E A
  panic : Outcome E A

infixl 5 ◌>>=◌ ◌>>◌
abbrev pub ◌>>=◌ {ℓ κ μ} :
    {E : Type μ} {A : Type ℓ} {B : Type κ} → Outcome E A → (A → Outcome E B) → Outcome E B
ok a >>= f = f a
err e >>= f = err e
panic >>= f = panic

abbrev pub ◌>>◌ {κ μ} : {E : Type μ} {B : Type κ} → Outcome E (Unit {0}) → Outcome E B → Outcome E B
m >> k = m >>= λ _. k

-- `anyhow::ensure!`.
abbrev pub ensure {μ} : {E : Type μ} → Bool → E → Outcome E (Unit {0})
ensure true e = ok tt
ensure false e = err e
