-- ===== src/Base/Results.antt =====
-- A Go result `(value, error)` of which exactly one half is meaningful.
use mathlib.Core.Path.{◌≡◌, refl}
use mathlib.Core.Logic.{◌⊎◌, inl, inr}

pub data Result {ℓ κ} (E : Type ℓ) (A : Type κ) : Type (ℓ ⊔ κ) where
  ok : A → Result E A
  err : E → Result E A

infixl 5 ◌>>=◌
abbrev pub ◌>>=◌ {ℓ κ μ} :
    {E : Type ℓ} {A : Type κ} {B : Type μ} → Result E A → (A → Result E B) → Result E B
ok a >>= f = f a
err e >>= f = err e

pub Result-cases {ℓ κ} :
    {E : Type ℓ} {A : Type κ} (r : Result E A) → ((a : A) × (r ≡ ok a)) ⊎ ((e : E) × (r ≡ err e))
Result-cases (ok a) = inl (a, refl)
Result-cases (err e) = inr (e, refl)

pub bind_ok {ℓ κ μ} :
    {E : Type ℓ} {A : Type κ} {C : Type μ} (r : Result E A) (f : A → Result E C) (c : C)
    → (r >>= f) ≡ ok c
    → (a : A) × (r ≡ ok a) × (f a ≡ ok c)
bind_ok (ok a) f c h = (a, refl, h)
bind_ok (err e) f c h = absurd cc
