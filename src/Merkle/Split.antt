-- ===== src/Merkle/Split.antt =====
-- The split point of a tree (`split_point` of crates/cc-anchor/src/merkle.rs): the largest power of
-- two below the leaf count, how it halves with the count, and the test for a power of two.
use native.Mathlib.Nat.{pow-suc, pow-le-pow_right}
use clockchain.Prelude.{
  ℕ, zero, suc, ◌+◌, ◌-◌, ◌*◌, ◌/◌, ◌^◌, ◌≤◌, ◌<◌, ◌≡◌, refl, ap, ◌∙◌, sym, ◌↔◌, inl, inr, true,
  arith, ltb, ltb→lt, Bool-cases,
}
use clockchain.Merkle.{leading_zeros, split_point, is_power_of_two}

pow-pos : (e : ℕ) → 0 < 2 ^ e
pow-pos zero = omega arith
pow-pos (suc e) = omega (arith, pow-suc 2 e, pow-pos e)

-- A later power is at least twice an earlier one.
pub pow-double-le : (a b : ℕ) → a < b → 2 * 2 ^ a ≤ 2 ^ b
pow-double-le a b h = omega (arith, pow-suc 2 a, pow-le-pow_right {n = 2} (omega arith) h)

-- `x` lies in the octave that begins at `2 ^ e`.
abbrev pub Octave : ℕ → ℕ → Type 0
Octave e x = (2 ^ e ≤ x) × (x < 2 * 2 ^ e)

Octave-unique : (a b x : ℕ) → Octave a x → Octave b x → a ≡ b
Octave-unique a b x p q = ground (arith, pow-double-le a b, pow-double-le b a)

leading_zeros-Octave :
    (w x : ℕ) → 0 < x → x < 2 ^ w → (leading_zeros w x < w) × Octave (w - 1 - leading_zeros w x) x
unfolding leading_zeros
leading_zeros-Octave zero x h l = absurd (omega arith)
leading_zeros-Octave (suc w) x h l = elim (Bool-cases (ltb x (2 ^ w))) [
  | inl small ↦
      let ih = leading_zeros-Octave w x h (ltb→lt _ _ small) in
      let e : suc w - 1 - suc (leading_zeros w x) ≡ w - 1 - leading_zeros w x = omega arith in
      rw small (rw e (omega arith, ih.1))
  | inr large ↦
      let e : suc w - 1 - 0 ≡ w = omega arith in
      rw large (rw e (omega arith, (ground arith, omega (arith, pow-suc 2 w))))
]

-- The split point is a power of two below the count, and at least half of it.
pub split_point-bounds :
    (n : ℕ)
    → 1 < n
    → n ≤ 2 ^ 64
    → (e : ℕ) × (split_point n ≡ 2 ^ e) × (split_point n < n) × (n ≤ 2 * split_point n)
unfolding split_point
split_point-bounds n h l =
    let (_, o) = leading_zeros-Octave 64 (n - 1) (omega arith) (omega arith) in
    (64 - 1 - leading_zeros 64 (n - 1), refl, omega arith, omega arith)

pub split_point-pos : (n : ℕ) → 1 < n → n ≤ 2 ^ 64 → 0 < split_point n
split_point-pos n h l = let (_, _, _, b) = split_point-bounds n h l in omega arith

-- It is the only such power.
pub split_point_unique : (n e : ℕ) → 2 ^ e < n → n ≤ 2 * 2 ^ e → n ≤ 2 ^ 64 → split_point n ≡ 2 ^ e
split_point_unique n e p q l =
    let (e', s, lo, hi) = split_point-bounds n (omega (arith, pow-pos e)) l in
    s ∙ ap (λ (t : ℕ). 2 ^ t) (Octave-unique e' e (n - 1) (omega arith) (omega arith))

-- The split point of the next level, where the leaves stand in pairs, is half of it.
pub split_point-half : (n : ℕ) → 2 < n → n ≤ 2 ^ 64 → split_point n ≡ 2 * split_point ((n + 1) / 2)
split_point-half n h l =
    let (e, s, lo, hi) = split_point-bounds ((n + 1) / 2) (omega arith) (omega arith) in
    split_point_unique n (suc e) (omega (arith, pow-suc 2 e)) (omega (arith, pow-suc 2 e)) l
    ∙ omega (arith, pow-suc 2 e)

pub split_point-two : split_point 2 ≡ 1
unfolding split_point leading_zeros
split_point-two = refl

-- The split point does not change between itself (exclusive) and the count.
pub split_point-between :
    (n m : ℕ) → 1 < n → split_point n < m → m ≤ n → n ≤ 2 ^ 64 → split_point m ≡ split_point n
split_point-between n m h p q l =
    let (e, s, lo, hi) = split_point-bounds n h l in
    split_point_unique m e (omega arith) (omega arith) (omega arith) ∙ sym s

pub is_power_of_two_iff :
    (n : ℕ) → n < 2 ^ 64 → (is_power_of_two n ≡ true) ↔ ((e : ℕ) × (n ≡ 2 ^ e))
unfolding is_power_of_two
is_power_of_two_iff n l = (
  λ h. (63 - leading_zeros 64 n, ground arith),
  λ (e, p).
      let (_, o) = leading_zeros-Octave 64 n (omega (arith, pow-pos e)) l in
      let same = Octave-unique (64 - 1 - leading_zeros 64 n) e n o (omega arith) in
      let d : 63 - leading_zeros 64 n ≡ e = omega arith in rw d (ground (arith, pow-pos e)),
)
