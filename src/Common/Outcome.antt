-- ===== src/Common/Outcome.antt =====
-- The result of Go code that may return an error.
use mathlib.Core.Path.{◌≡◌, refl, ap}
use mathlib.Core.Logic.{◌⊎◌, inl, inr}

pub data Outcome {ℓ κ} (E : Type κ) (A : Type ℓ) : Type (ℓ ⊔ κ) where
  ok : A → Outcome E A
  err : E → Outcome E A

module _ {ℓ ι κ} {E : Type κ} {A : Type ℓ} {B : Type ι} where
  infixl 5 ◌>>=◌
  -- `if err != nil { return err }` between two calls.
  abbrev pub ◌>>=◌ : Outcome E A → (A → Outcome E B) → Outcome E B
  err failure >>= rest = err failure
  ok value >>= rest = rest value

  -- What is left of a successful chain: its first step succeeded, and so did the rest.
  pub >>=-eq-ok :
      (step : Outcome E A) (rest : A → Outcome E B) {final : B}
      → (step >>= rest) ≡ ok final
      → (value : A) × (step ≡ ok value) × (rest value ≡ ok final)
  >>=-eq-ok (err failure) rest failed = cc
  >>=-eq-ok (ok value) rest ended = (value, refl, ended)

module _ {ℓ κ} {E : Type κ} {A : Type ℓ} where
  pub Outcome-cases : (m : Outcome E A) → ((a : A) × (m ≡ ok a)) ⊎ ((e : E) × (m ≡ err e))
  Outcome-cases (ok a) = inl (a, refl)
  Outcome-cases (err e) = inr (e, refl)

  pub ok-injective : {a b : A} → ◌≡◌ {A = Outcome E A} (ok a) (ok b) → a ≡ b
  ok-injective {a = a} h = ap (elim [ ok x ↦ x | err e ↦ a ]) h
