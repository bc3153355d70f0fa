-- ===== src/Prelude/Results.antt =====
-- `Result<A, E>` of Rust, and the interface of the keys of a map.
use Prim.Native.Nat.{ℕ}
use mathlib.Core.Path.{◌≡◌, refl}
use mathlib.Core.Logic.{◌↔◌}
use mathlib.Core.Bool.{Bool, true}
use native.Mathlib.Omega.{arith}
use clockchain.Prelude.Tests.{◌==◌, ==_iff}

pub data Result {ℓ κ} (A : Type ℓ) (E : Type κ) : Type (ℓ ⊔ κ) where
  ok : A → Result A E
  err : E → Result A E

-- The `?` operator.
infixl 5 ◌>>=◌
abbrev pub ◌>>=◌ {ℓ κ ι} :
    {A : Type ℓ} {B : Type κ} {E : Type ι} → Result A E → (A → Result B E) → Result B E
ok a >>= f = f a
err e >>= f = err e

pub ok-bind {ℓ κ ι} :
    {A : Type ℓ} {B : Type κ} {E : Type ι} {x : Result A E} {f : A → Result B E} {b : B}
    → (x >>= f) ≡ ok b
    → (a : A) × (x ≡ ok a) × (f a ≡ ok b)
ok-bind {x = ok a} h = (a, refl, h)
ok-bind {x = err e} h = absurd (ground arith)

pub ok-injective {ℓ κ} :
    {A : Type ℓ} {E : Type κ} {a b : A} → ◌≡◌ {A = Result A E} (ok a) (ok b) → a ≡ b
ok-injective h = ground (arith, h)

-- A key type with its equality test.
pub record Key {ℓ} (K : Type ℓ) : Type ℓ where
  pub same : K → K → Bool
  pub same_iff : (a b : K) → (same a b ≡ true) ↔ (a ≡ b)

instance abbrev pub nat_key : Key ℕ
nat_key = record { same = ◌==◌; same_iff = ==_iff }
