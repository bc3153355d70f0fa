-- ===== src/Merkle/Sides.antt =====
-- On which side the siblings of a leaf stand. The tree of crates/cc-anchor/src/merkle.rs is split
-- from the root down, and the verifiers climb from the leaf up by the bits of two numbers: here
-- both are shown to read the same list.
use clockchain.Prelude.{
  ℕ, zero, suc, ◌+◌, ◌-◌, ◌/◌, ◌^◌, ◌≤◌, ◌<◌, ◌≡◌, refl, ◌∙◌, inl, inr, Bool, true, false, not,
  ◌&&◌, List, [], ◌∷◌, ◌++◌, arith, ltb, leb, ◌==◌, if◌then◌else◌, Bool-cases,
}
use clockchain.Merkle.{split_point, is_odd, on_left, skip_even, climb}
use clockchain.Merkle.Split.{split_point-bounds, split_point-pos, split_point-half, split_point-two}

-- From the root down, listed leaf-ward first; `true` is a sibling on the left.
pub sides : ℕ → ℕ → ℕ → List Bool
sides zero m n = []
sides (suc f) m n =
    let k = split_point n in
    let left = sides f m k ++ false ∷ [] in
    let right = sides f (m - k) (n - k) ++ true ∷ [] in
    if leb n 1 then [] else if ltb m k then left else right

pub sides-one : (f m : ℕ) → sides f m 1 ≡ []
unfolding sides
sides-one zero m = refl
sides-one (suc f) m = refl

pub sides-left :
    (f m n : ℕ)
    → 1 < n
    → m < split_point n
    → sides (suc f) m n ≡ sides f m (split_point n) ++ false ∷ []
unfolding sides
sides-left f m n h l = ground arith

pub sides-right :
    (f m n : ℕ)
    → 1 < n
    → split_point n ≤ m
    → sides (suc f) m n ≡ sides f (m - split_point n) (n - split_point n) ++ true ∷ []
unfolding sides
sides-right f m n h l = ground arith

-- More fuel than leaves changes nothing.
pub sides-fuel : (f g m n : ℕ) → n ≤ f → n ≤ g → 0 < n → n ≤ 2 ^ 64 → sides f m n ≡ sides g m n
unfolding sides
sides-fuel zero g m n p q h l = absurd (omega arith)
sides-fuel (suc f) zero m n p q h l = absurd (omega arith)
sides-fuel (suc f) (suc g) m n p q h l = elim (Bool-cases (leb n 1)) [
  | inl small ↦ rw small
  | inr large ↦
      let big : 1 < n = ground arith in
      let k = split_point n in
      let (_, _, lo, hi) = split_point-bounds n big l in
      let pos = split_point-pos n big l in
      let below = sides-fuel f g m k (omega arith) (omega arith) pos (omega arith) in
      let above =
        sides-fuel f g (m - k) (n - k) (omega arith) (omega arith) (omega arith) (omega arith) in
      rw (below, above)
]

-- The lowest level: two neighbours are joined, and an unpaired last leaf moves up as it is.
abbrev lowest : ℕ → ℕ → ℕ → List Bool
lowest g m n =
    if not (is_odd m) && m == n - 1
    then sides g (m / 2) ((n + 1) / 2)
    else is_odd m ∷ sides g (m / 2) ((n + 1) / 2)

sides-lowest_two : (f g m : ℕ) → m < 2 → sides (suc f) m 2 ≡ lowest g m 2
unfolding sides
sides-lowest_two f g m h =
    rw (split_point-two, sides-one g (m / 2)) (ground (arith, sides-one f m, sides-one f (m - 1)))

pub sides-lowest :
    (f g m n : ℕ)
    → 1 < n
    → m < n
    → n ≤ f
    → (n + 1) / 2 ≤ g
    → n ≤ 2 ^ 64
    → sides f m n ≡ lowest g m n
sides-lowest zero g m n h mn nf ng l = absurd (omega arith)
sides-lowest (suc f) zero m n h mn nf ng l = absurd (omega arith)
sides-lowest (suc f) (suc g) m n h mn nf ng l = elim (Bool-cases (ltb 2 n)) [
  | inr two ↦ let e : n ≡ 2 = ground arith in rw e (sides-lowest_two f (suc g) m (omega arith))
  | inl more ↦
      let big : 2 < n = ground arith in
      let k = split_point n in
      let half = (n + 1) / 2 in
      let (_, _, lo, hi) = split_point-bounds n h l in
      let kk = split_point-half n big l in
      let pos = split_point-pos half (omega arith) (omega arith) in
      elim (Bool-cases (ltb m k)) [
        | inl under ↦
            let mk : m < k = ground arith in
            let ih =
              sides-lowest f g m k (omega arith) mk (omega arith) (omega arith) (omega arith) in
            let up = sides-left g (m / 2) half (omega arith) (omega arith) in
            let e : (k + 1) / 2 ≡ split_point half = omega arith in
            sides-left f m n h mk ∙ ground arith
        | inr over ↦
            let km : k ≤ m = ground arith in
            let up = sides-right g (m / 2) half (omega arith) (omega arith) in
            let e : (m - k) / 2 ≡ m / 2 - split_point half = omega arith in
            let d : (n - k + 1) / 2 ≡ half - split_point half = omega arith in
            sides-right f m n h km ∙ elim (Bool-cases (ltb 1 (n - k))) [
              | inl pair ↦
                  let ih =
                    sides-lowest f g (m - k) (n - k) (ground arith) (omega arith) (omega arith)
                      (omega arith) (omega arith) in
                  ground arith
              | inr lone ↦
                  let z : n - k ≡ 1 = ground arith in
                  ground (arith, sides-one f (m - k), sides-one g (m / 2 - split_point half))
            ]
      ]
]

-- Along the right edge the loop climbs to an odd node, which has the same siblings.
skip_even-sides :
    (fuel s f g : ℕ)
    → 0 < s
    → s ≤ fuel
    → s < f
    → s < g
    → s < 2 ^ 64
    → ((skip_even fuel s s).0 ≡ (skip_even fuel s s).1)
      × (is_odd (skip_even fuel s s).0 ≡ true)
      × ((skip_even fuel s s).0 ≤ s)
      × (sides f s (s + 1) ≡ sides g (skip_even fuel s s).0 ((skip_even fuel s s).0 + 1))
unfolding skip_even
skip_even-sides zero s f g p q hf hg l = absurd (omega arith)
skip_even-sides (suc fuel) s f g p q hf hg l = elim (Bool-cases (is_odd s)) [
  | inl odd ↦
      rw odd (ground arith, ground arith, ground arith, ground (arith, sides-fuel f g s (s + 1)))
  | inr even ↦
      let low =
        sides-lowest f g s (s + 1) (omega arith) (omega arith) (omega arith) (omega arith)
          (omega arith) in
      let e : (s + 1 + 1) / 2 ≡ s / 2 + 1 = ground arith in
      let (same, odd, le, same_sides) =
        skip_even-sides fuel (s / 2) g g (ground arith) (omega arith) (omega arith) (omega arith)
          (omega arith) in
      (ground arith, ground arith, ground arith, ground arith)
]

climb_inner : (m s : ℕ) → (not (is_odd m) && m == s) ≡ false → climb m s ≡ (m / 2, s / 2)
unfolding climb
climb_inner m s h = ground arith

climb_edge :
    (s : ℕ) → is_odd s ≡ false → climb s s ≡ ((skip_even s s s).0 / 2, (skip_even s s s).1 / 2)
unfolding climb
climb_edge s h = ground arith

-- One round of the verifiers reads off one side and goes on with the rest.
pub climb-sides :
    (f g m s : ℕ)
    → 0 < s
    → m ≤ s
    → s < f
    → s < g
    → s < 2 ^ 64
    → (sides f m (s + 1) ≡ on_left m s ∷ sides g (climb m s).0 ((climb m s).1 + 1))
      × ((climb m s).0 ≤ (climb m s).1)
      × ((climb m s).1 < s)
climb-sides f g m s p q hf hg l = elim (Bool-cases (not (is_odd m) && m == s)) [
  | inl edge ↦
      let e : m ≡ s = ground arith in
      let (same, odd, le, moved) = skip_even-sides s s f f p (omega arith) hf hf l in
      let a = (skip_even s s s).0 in
      let low =
        sides-lowest f g a (a + 1) (ground arith) (omega arith) (omega arith) (omega arith)
          (omega arith) in
      let d : (a + 1 + 1) / 2 ≡ a / 2 + 1 = ground arith in
      let c = climb_edge s (ground arith) in rw (e, c) (ground arith, ground arith, ground arith)
  | inr inner ↦
      let low =
        sides-lowest f g m (s + 1) (omega arith) (omega arith) (omega arith) (omega arith)
          (omega arith) in
      let e : (s + 1 + 1) / 2 ≡ s / 2 + 1 = omega arith in
      rw (climb_inner m s inner) (ground arith, omega arith, omega arith)
]
