-- ===== src/Base/Results.antt =====
-- Go's `(value, error)` pairs: a value or an error, over any type of errors.
use mathlib.Core.Path.{◌≡◌, refl}

pub data Result {ℓ κ} (Err : Type ℓ) (Val : Type κ) : Type (ℓ ⊔ κ) where
  ok : Val → Result Err Val
  err : Err → Result Err Val

module _ {ℓ κ μ} {Err : Type ℓ} {Val : Type κ} {Out : Type μ} where
  infixl 5 ◌>>=◌
  abbrev pub ◌>>=◌ : Result Err Val → (Val → Result Err Out) → Result Err Out
  ok v >>= next = next v
  err e >>= next = err e

  -- A chain that ends well passed through a value.
  pub passes_through :
      (r : Result Err Val) (next : Val → Result Err Out) {out : Out}
      → (r >>= next) ≡ ok out
      → (v : Val) × (r ≡ ok v) × (next v ≡ ok out)
  passes_through (ok v) next done = (v, refl, done)
  passes_through (err e) next done = cc
