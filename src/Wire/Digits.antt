-- ===== src/Wire/Digits.antt =====
-- Numbers in base 256: what `to_be_bytes` writes, `from_be_bytes` reads, and conversely.
use native.Mathlib.Nat.{pow-suc}
use clockchain.Prelude.{
  ℕ, zero, suc, ◌+◌, ◌*◌, ◌/◌, ◌%◌, ◌^◌, ◌<◌, ◌≡◌, refl, ap, ◌∙◌, sym, [], ◌∷◌, ◌++◌, arith, length,
  length-append, All, All-append, Bytes,
}
use clockchain.Wire.{to_be_bytes, from_be_bytes}

abbrev pub IsByte : ℕ → Type 0
IsByte b = b < 256

from_be_bytes-append :
    (acc : ℕ) (bs : Bytes) (b : ℕ)
    → from_be_bytes acc (bs ++ (b ∷ [])) ≡ from_be_bytes acc bs * 256 + b
unfolding from_be_bytes
from_be_bytes-append acc [] b = refl
from_be_bytes-append acc (c ∷ bs) b = from_be_bytes-append (acc * 256 + c) bs b

pub length-to_be_bytes : (n x : ℕ) → length (to_be_bytes n x) ≡ n
unfolding to_be_bytes
length-to_be_bytes zero x = refl
length-to_be_bytes (suc n) x =
    omega (
      arith,
      length-to_be_bytes n (x / 256),
      length-append (to_be_bytes n (x / 256)) (x % 256 ∷ []),
    )

pub from_be_bytes-to_be_bytes : (n x : ℕ) → x < 256 ^ n → from_be_bytes 0 (to_be_bytes n x) ≡ x
unfolding to_be_bytes from_be_bytes
from_be_bytes-to_be_bytes zero x h = omega arith
from_be_bytes-to_be_bytes (suc n) x h =
    let power : 256 ^ suc n ≡ 256 ^ n * 256 = pow-suc 256 n in
    let ih = from_be_bytes-to_be_bytes n (x / 256) (omega arith) in
    from_be_bytes-append 0 (to_be_bytes n (x / 256)) (x % 256) ∙ omega arith

-- A list that is not empty ends in an element.
split_last :
    (n : ℕ) (bs : Bytes)
    → length bs ≡ suc n
    → All IsByte bs
    → (init : Bytes) × (b : ℕ) × (bs ≡ init ++ (b ∷ []))
      × (length init ≡ n)
      × (b < 256)
      × All IsByte init
split_last n [] h a = absurd (omega arith)
split_last zero (b ∷ []) h a = ([], b, refl, refl, a.0, tt)
split_last zero (b ∷ c ∷ bs) h a = absurd (omega arith)
split_last (suc n) (b ∷ bs) h a =
    let (init, c, e, size, byte, all) = split_last n bs (omega arith) a.1 in
    (b ∷ init, c, ap (◌∷◌ b) e, ap suc size, byte, (a.0, all))

pub to_be_bytes-from_be_bytes :
    (n : ℕ) (bs : Bytes)
    → length bs ≡ n
    → All IsByte bs
    → (to_be_bytes n (from_be_bytes 0 bs) ≡ bs) × (from_be_bytes 0 bs < 256 ^ n)
unfolding to_be_bytes from_be_bytes
to_be_bytes-from_be_bytes zero [] h a = (refl, omega arith)
to_be_bytes-from_be_bytes zero (b ∷ bs) h a = absurd (omega arith)
to_be_bytes-from_be_bytes (suc n) bs h a =
    let (init, b, e, size, byte, all) = split_last n bs h a in
    let (ih, bound) = to_be_bytes-from_be_bytes n init size all in
    let value : from_be_bytes 0 bs ≡ from_be_bytes 0 init * 256 + b =
      ap (from_be_bytes 0) e ∙ from_be_bytes-append 0 init b in
    let power : 256 ^ suc n ≡ 256 ^ n * 256 = pow-suc 256 n in
    let high : from_be_bytes 0 bs / 256 ≡ from_be_bytes 0 init = omega arith in
    let low : from_be_bytes 0 bs % 256 ≡ b = omega arith in
    (rw (high, low, ih) (sym e), omega arith)

pub to_be_bytes-All : (n x : ℕ) → All IsByte (to_be_bytes n x)
unfolding to_be_bytes
to_be_bytes-All zero x = tt
to_be_bytes-All (suc n) x =
    All-append IsByte (to_be_bytes n (x / 256)) (x % 256 ∷ []) (to_be_bytes-All n (x / 256))
      (omega arith, tt)
