-- ===== src/Prelude/Results.antt =====
-- Rust's `Result<A, E>`, with the bind that `?` stands for.
use mathlib.Core.Path.{◌≡◌, refl, sym, ap, ◌∙◌}
use mathlib.Core.Logic.{◌⊎◌, inl, inr}
use mathlib.Core.Option.{Option, none, some}

pub data Result {ℓ κ} (E : Type κ) (A : Type ℓ) : Type (ℓ ⊔ κ) where
  err : E → Result E A
  ok : A → Result E A

infixl 5 ◌>>=◌
abbrev pub ◌>>=◌ {ℓ κ μ} :
    {A : Type ℓ} {E : Type κ} {B : Type μ} → Result E A → (A → Result E B) → Result E B
err error >>= rest = err error
ok value >>= rest = rest value

-- `ok_or`
abbrev pub ok_or {ℓ κ} : {E : Type κ} {A : Type ℓ} → Option A → E → Result E A
ok_or none e = err e
ok_or (some a) e = ok a

abbrev pub unwrap_or {ℓ} : {A : Type ℓ} → Option A → A → A
unwrap_or none d = d
unwrap_or (some a) d = a

pub Result-cases {ℓ κ} :
    {E : Type κ} {A : Type ℓ} (r : Result E A) → ((e : E) × (r ≡ err e)) ⊎ ((a : A) × (r ≡ ok a))
Result-cases (ok a) = inr (a, refl)
Result-cases (err e) = inl (e, refl)

abbrev ok_value {ℓ κ} : {E : Type κ} {A : Type ℓ} → A → Result E A → A
ok_value d (ok a) = a
ok_value d (err e) = d

pub ok-inj {ℓ κ} :
    {E : Type κ} {A : Type ℓ} (r : Result E A) (a b : A) → r ≡ ok a → r ≡ ok b → a ≡ b
ok-inj r a b h k = ap (ok_value a) (sym h ∙ k)
