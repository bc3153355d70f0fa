-- ===== src/Prelude/ByteStrings.antt =====
-- Byte strings as lists of numbers, with the Boolean equality of slices.
use Prim.Native.Nat.{ℕ}
use mathlib.Core.Path.{◌≡◌, refl}
use mathlib.Core.Logic.{◌≢◌, ◌↔◌, ◌⊎◌, inl, inr}
use mathlib.Core.Bool.{Bool, true, false, ◌&&◌}
use mathlib.Core.List.{List, [], ◌∷◌, ◌++◌}
use native.Mathlib.Omega.{arith}
use clockchain.Prelude.Tests.{◌==◌, Bool-cases}
use clockchain.Prelude.Lists.{length}
use clockchain.Prelude.Results.{Key}

abbrev pub Bytes : Type 0
Bytes = List ℕ

unfoldable pub bytes_eq : Bytes → Bytes → Bool
bytes_eq [] [] = true
bytes_eq (x ∷ xs) (y ∷ ys) = x == y && bytes_eq xs ys
bytes_eq _ _ = false

pub bytes_eq_sound : (xs ys : Bytes) → bytes_eq xs ys ≡ true → xs ≡ ys
unfolding bytes_eq
bytes_eq_sound [] [] h = refl
bytes_eq_sound (x ∷ xs) (y ∷ ys) h = ground (arith, bytes_eq_sound xs ys)
bytes_eq_sound [] (y ∷ ys) h = cc
bytes_eq_sound (x ∷ xs) [] h = cc

pub bytes_eq_refl : (xs : Bytes) → bytes_eq xs xs ≡ true
unfolding bytes_eq
bytes_eq_refl [] = refl
bytes_eq_refl (x ∷ xs) = ground (arith, bytes_eq_refl xs)

pub bytes-cases : (xs ys : Bytes) → (xs ≡ ys) ⊎ (xs ≢ ys)
bytes-cases xs ys = elim (Bool-cases (bytes_eq xs ys)) [
  | inl e ↦ inl (bytes_eq_sound xs ys e)
  | inr ne ↦ inr (λ e. ground (arith, bytes_eq_refl xs))
]

-- A concatenation is split by the length of its left part.
pub append-injective {ℓ} :
    {A : Type ℓ} (a b c d : List A) → length a ≡ length b → a ++ c ≡ b ++ d → (a ≡ b) × (c ≡ d)
append-injective [] [] c d h e = (refl, e)
append-injective (x ∷ a) (y ∷ b) c d h e =
    let (p, q) = append-injective a b c d (omega arith) (cc) in (cc, q)
append-injective [] (y ∷ b) c d h e = absurd (omega arith)
append-injective (x ∷ a) [] c d h e = absurd (omega arith)

pub bytes_eq_iff : (xs ys : Bytes) → (bytes_eq xs ys ≡ true) ↔ (xs ≡ ys)
bytes_eq_iff xs ys = (bytes_eq_sound xs ys, λ e. rw (← e) (bytes_eq_refl xs))

instance abbrev pub bytes_key : Key Bytes
bytes_key = record { same = bytes_eq; same_iff = bytes_eq_iff }
