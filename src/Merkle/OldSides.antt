-- ===== src/Merkle/OldSides.antt =====
-- On which side the hashes of a consistency proof stand. `subproof` splits the tree from the root
-- down until the old tree fills a subtree; the verifier drops the trailing ones of `old_size - 1`
-- and climbs (crates/cc-anchor/src/merkle.rs). Both are shown to read the same list.
use clockchain.Prelude.{
  ℕ, zero, suc, ◌+◌, ◌-◌, ◌/◌, ◌^◌, ◌≤◌, ◌<◌, ◌≡◌, refl, ap, ◌∙◌, inl, inr, Bool, true, false, List,
  [], ◌∷◌, ◌++◌, arith, ltb, leb, ◌==◌, if◌then◌else◌, Bool-cases,
}
use clockchain.Merkle.{split_point, is_odd, skip_odd}
use clockchain.Merkle.Split.{split_point-bounds, split_point-pos, split_point-half, split_point-two}
use clockchain.Merkle.Sides.{sides, sides-one, sides-left, sides-right}

-- From the root down to the subtree that the old tree fills, listed leaf-ward first.
pub old_sides : ℕ → ℕ → ℕ → List Bool
old_sides zero m n = []
old_sides (suc f) m n =
    let k = split_point n in
    let left = old_sides f m k ++ false ∷ [] in
    let right = old_sides f (m - k) (n - k) ++ true ∷ [] in
    if m == n then [] else if leb m k then left else right

pub old_sides-same : (f m : ℕ) → old_sides f m m ≡ []
unfolding old_sides
old_sides-same zero m = refl
old_sides-same (suc f) m = ground arith

pub old_sides-left :
    (f m n : ℕ)
    → m < n
    → m ≤ split_point n
    → old_sides (suc f) m n ≡ old_sides f m (split_point n) ++ false ∷ []
unfolding old_sides
old_sides-left f m n h l = ground arith

pub old_sides-right :
    (f m n : ℕ)
    → m < n
    → split_point n < m
    → old_sides (suc f) m n ≡ old_sides f (m - split_point n) (n - split_point n) ++ true ∷ []
unfolding old_sides
old_sides-right f m n h l = ground arith

-- An odd old size ends in a leaf of its own, whose siblings are those of the inclusion proof.
old_sides-odd :
    (f g m n : ℕ)
    → is_odd m ≡ true
    → m < n
    → n ≤ f
    → n ≤ g
    → n ≤ 2 ^ 64
    → old_sides f m n ≡ sides g (m - 1) n
old_sides-odd zero g m n o h nf ng l = absurd (omega arith)
old_sides-odd (suc f) zero m n o h nf ng l = absurd (omega arith)
old_sides-odd (suc f) (suc g) m n o h nf ng l =
    let k = split_point n in
    let big : 1 < n = ground arith in
    let (_, _, lo, hi) = split_point-bounds n big l in
    let pos = split_point-pos n big l in
    elim (Bool-cases (leb m k)) [
      | inl under ↦
          let mk : m ≤ k = ground arith in
          let whole = old_sides-left f m n h mk in
          let leaf = sides-left g (m - 1) n big (ground arith) in
          elim (Bool-cases (m == k)) [
            | inl fills ↦
                let one : k ≡ 1 = odd_split n k big l refl (ground arith) in
                ground (arith, old_sides-same f k, sides-one g (m - 1))
            | inr inside ↦
                let ih =
                  old_sides-odd f g m k o (ground arith) (omega arith) (omega arith)
                    (omega arith) in
                ground arith
          ]
      | inr over ↦
          let km : k < m = ground arith in
          let two : 2 < n = omega arith in
          let even = split_point-half n two l in
          let whole = old_sides-right f m n h km in
          let leaf = sides-right g (m - 1) n big (ground arith) in
          let ih =
            old_sides-odd f g (m - k) (n - k) (ground arith) (omega arith) (omega arith)
              (omega arith) (omega arith) in
          let e : m - k - 1 ≡ m - 1 - k = omega arith in ground arith
    ]
  where
    odd_split : (n k : ℕ) → 1 < n → n ≤ 2 ^ 64 → k ≡ split_point n → is_odd k ≡ true → k ≡ 1
    odd_split n k h l e o = elim (Bool-cases (ltb 2 n)) [
      | inl more ↦ absurd (ground (arith, split_point-half n))
      | inr two ↦ let d : n ≡ 2 = ground arith in e ∙ ap split_point d ∙ split_point-two
    ]

-- With an even old size the leaves stand in pairs.
old_sides-even :
    (f g m n : ℕ)
    → is_odd m ≡ false
    → 0 < m
    → m < n
    → n ≤ f
    → (n + 1) / 2 ≤ g
    → n ≤ 2 ^ 64
    → old_sides f m n ≡ old_sides g (m / 2) ((n + 1) / 2)
old_sides-even zero g m n o p h nf ng l = absurd (omega arith)
old_sides-even (suc f) zero m n o p h nf ng l = absurd (omega arith)
old_sides-even (suc f) (suc g) m n o p h nf ng l =
    let k = split_point n in
    let half = (n + 1) / 2 in
    let two : 2 < n = ground arith in
    let (_, _, lo, hi) = split_point-bounds n (omega arith) l in
    let e = split_point-half n two l in
    let k' = split_point half in
    elim (Bool-cases (leb m k)) [
      | inl under ↦
          let mk : m ≤ k = ground arith in
          let whole = old_sides-left f m n h mk in
          let up = old_sides-left g (m / 2) half (ground arith) (omega arith) in
          elim (Bool-cases (m == k)) [
            | inl fills ↦
                let d : m / 2 ≡ k' = ground arith in
                ground (arith, old_sides-same f k, old_sides-same g k')
            | inr inside ↦
                let ih =
                  old_sides-even f g m k o p (ground arith) (omega arith) (omega arith)
                    (omega arith) in
                let d : (k + 1) / 2 ≡ k' = omega arith in ground arith
          ]
      | inr over ↦
          let km : k < m = ground arith in
          let whole = old_sides-right f m n h km in
          let up = old_sides-right g (m / 2) half (ground arith) (ground arith) in
          let ih =
            old_sides-even f g (m - k) (n - k) (ground arith) (omega arith) (omega arith)
              (omega arith) (omega arith) (omega arith) in
          let d : (m - k) / 2 ≡ m / 2 - k' = omega arith in
          let d' : (n - k + 1) / 2 ≡ half - k' = omega arith in ground arith
    ]

-- The verifier's first loop stops where `subproof` does.
pub skip_odd-old_sides :
    (fuel f g m n : ℕ)
    → 0 < m
    → m < n
    → m ≤ fuel + 1
    → n ≤ f
    → n ≤ g
    → n ≤ 2 ^ 64
    → (old_sides f m n
        ≡ sides g (skip_odd fuel (m - 1) (n - 1)).0 ((skip_odd fuel (m - 1) (n - 1)).1 + 1))
      × ((skip_odd fuel (m - 1) (n - 1)).0 < (skip_odd fuel (m - 1) (n - 1)).1)
      × ((skip_odd fuel (m - 1) (n - 1)).1 < n)
unfolding skip_odd
skip_odd-old_sides zero f g m n p h mf nf ng l =
    let lone = old_sides-odd f g m n (ground arith) h nf ng l in
    let e : n - 1 + 1 ≡ n = omega arith in (rw e lone, omega arith, omega arith)
skip_odd-old_sides (suc fuel) f g m n p h mf nf ng l = elim (Bool-cases (is_odd (m - 1))) [
  | inl odd ↦
      let e : (m - 1) / 2 ≡ m / 2 - 1 = ground arith in
      let d : (n - 1) / 2 ≡ (n + 1) / 2 - 1 = omega arith in
      let even = old_sides-even f f m n (ground arith) p h nf (omega arith) l in
      let ih =
        skip_odd-old_sides fuel f g (m / 2) ((n + 1) / 2) (ground arith) (ground arith)
          (omega arith) (omega arith) (omega arith) (omega arith) in
      rw (odd, e, d) (ground arith, ground arith, ground arith)
  | inr even ↦
      let lone = old_sides-odd f g m n (ground arith) h nf ng l in
      let e : n - 1 + 1 ≡ n = omega arith in rw even (rw e lone, omega arith, omega arith)
]
