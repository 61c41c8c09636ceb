-- ===== src/Prelude/Results.antt =====
-- Rust's `Result<T, E>`: the error's type comes first here. The operator `?` is the bind.
use mathlib.Core.Option.{Option, none, some}
use mathlib.Core.Path.{◌≡◌, refl, ap}
use mathlib.Core.Logic.{◌⊎◌, inl, inr}

pub data Result {ℓ κ} (E : Type κ) (A : Type ℓ) : Type (ℓ ⊔ κ) where
  err : E → Result E A
  ok : A → Result E A

module _ {E A B : Type 0} where
  infixl 5 ◌>>=◌ ◌>>◌
  abbrev pub ◌>>=◌ : Result E A → (A → Result E B) → Result E B
  err e >>= rest = err e
  ok a >>= rest = rest a

  abbrev pub ◌>>◌ : Result E A → Result E B → Result E B
  m >> rest = m >>= λ ignored. rest

-- `option.ok_or(e)`
abbrev pub ok_or : {E A : Type 0} → Option A → E → Result E A
ok_or (some a) e = ok a
ok_or none e = err e

pub Result-cases :
    {E A : Type 0} (r : Result E A) → ((e : E) × (r ≡ err e)) ⊎ ((a : A) × (r ≡ ok a))
Result-cases (err e) = inl (e, refl)
Result-cases (ok a) = inr (a, refl)

-- A chain that went through went through its first step.
pub bind-ok :
    {E A B : Type 0} (m : Result E A) (rest : A → Result E B) {b : B}
    → (m >>= rest) ≡ ok b
    → (a : A) × (m ≡ ok a) × (rest a ≡ ok b)
bind-ok (err e) rest h = absurd (cc (h))
bind-ok (ok a) rest h = (a, refl, h)

module _ {E A : Type 0} {a b : A} where
  pub ok-inj : ◌≡◌ {A = Result E A} (ok a) (ok b) → a ≡ b
  ok-inj h = ap (λ (r : Result E A). elim r [ ok x ↦ x | err e ↦ a ]) h
