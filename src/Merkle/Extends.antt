-- ===== src/Merkle/Extends.antt =====
-- The proof that `subproof` of crates/cc-anchor/src/merkle.rs makes, by the side that the old tree
-- ends in.
use clockchain.Prelude.{
  ℕ, zero, suc, ◌-◌, ◌^◌, ◌≤◌, ◌<◌, ◌≡◌, ap, ◌∙◌, ◌⊎◌, ◌≢◌, inl, inr, true, false, List, [], ◌∷◌,
  ◌++◌, arith, leb, ◌==◌, Bool-cases, length, take, drop, length-append, take-take, take-length,
  Bytes, All, All-append, All-take, All-drop,
}
use clockchain.Merkle.{LeafHash, node_hash, mth, subproof_fuel}
use clockchain.Merkle.OldSides.{old_sides, old_sides-same, old_sides-left, old_sides-right}
use clockchain.Merkle.Collide.{Is32, All32, root_from, root_from-left, root_from-right}
use clockchain.Merkle.Tree.{cut, halves, mth-node, mth-Is32}
use clockchain.Merkle.Subproof.{
  Pow, split_point-Pow, not-Pow-between, old_from, old_from-left, old_from-right, subproof-same,
  subproof-left, subproof-right, mth-take_right,
}

module _ (sha256 : Bytes → Bytes) where
  -- What `subproof` makes is a subtree, as the seed, and the hashes that lead from it to the new root
  -- and to the old one; the seed is left out where it is the old root itself.
  pub record Extends (f m : ℕ) (leaves : List LeafHash) : Type 0 where
    pub seed : Bytes
    pub rest : List Bytes
    pub len : length rest ≡ length (old_sides f m (length leaves))
    pub new_root : root_from sha256 (old_sides f m (length leaves)) rest seed ≡ mth sha256 leaves
    pub old_root :
        old_from sha256 (old_sides f m (length leaves)) rest seed ≡ mth sha256 (take m leaves)
    pub hidden : subproof_fuel sha256 f leaves m false [] ≡ seed ∷ rest
    pub known :
        (m < length leaves) ⊎ Pow (length leaves)
        → Pow m
        → (subproof_fuel sha256 f leaves m true [] ≡ rest) × (seed ≡ mth sha256 (take m leaves))
    pub unknown :
        m < length leaves → ¬ Pow m → subproof_fuel sha256 f leaves m true [] ≡ seed ∷ rest

  Extends-same : (f m : ℕ) (leaves : List LeafHash) → m ≡ length leaves → 0 < f → Extends f m leaves
  unfolding root_from old_from
  Extends-same f m leaves e h =
      let sides_nil : old_sides f m (length leaves) ≡ [] = rw (← e) (old_sides-same f m) in
      let whole = take-length leaves m (omega arith) in
      record {
        seed = mth sha256 leaves;
        rest = [];
        len = rw sides_nil;
        new_root = rw sides_nil;
        old_root = rw (sides_nil, whole);
        hidden = subproof-same sha256 f m leaves false e h;
        known = λ _ _. (subproof-same sha256 f m leaves true e h, rw whole);
        unknown = λ p _. absurd (omega arith);
      }

  Extends-left :
      (f m : ℕ) (leaves : List LeafHash)
      → 1 < length leaves
      → length leaves ≤ 2 ^ 64
      → m < length leaves
      → m ≤ cut leaves
      → Extends f m (take (cut leaves) leaves)
      → Extends (suc f) m leaves
  Extends-left f m leaves big l h p sub =
      let k = cut leaves in
      let c = halves leaves big l in
      let top = mth sha256 (drop k leaves) in
      let step = old_sides-left f m (length leaves) h p in
      let ds = old_sides f m k in
      let len : length sub.rest ≡ length ds = ground (arith, sub.len, c.left) in
      let new : root_from sha256 ds sub.rest sub.seed ≡ mth sha256 (take k leaves) =
        rw c.left at sub.new_root in
      let old : old_from sha256 ds sub.rest sub.seed ≡ mth sha256 (take m leaves) =
        (rw c.left at sub.old_root) ∙ ap (mth sha256) (take-take m k leaves p) in
      let (e, pow_k) = split_point-Pow (length leaves) big l in
      record {
        seed = sub.seed;
        rest = sub.rest ++ top ∷ [];
        len = ground (arith, length-append sub.rest (top ∷ []), length-append ds (false ∷ []));
        new_root =
            rw
              (
                step,
                root_from-right sha256 ds sub.rest top sub.seed len,
                mth-node sha256 leaves big l,
              )
              (ap (λ x. node_hash sha256 x top) new);
        old_root = rw (step, old_from-right sha256 ds sub.rest top sub.seed len) old;
        hidden = rw (subproof-left sha256 f m leaves false h p, sub.hidden);
        known = λ _ pow.
            let (w, s) = sub.known (inr (e, c.left ∙ pow_k)) pow in
            (
              rw (subproof-left sha256 f m leaves true h p, w),
              s ∙ ap (mth sha256) (take-take m k leaves p),
            );
        unknown = λ _ no.
            let ne : m ≢ k = λ same. no (e, same ∙ pow_k) in
            rw (subproof-left sha256 f m leaves true h p, sub.unknown (omega arith) no);
      }

  Extends-right :
      (f m : ℕ) (leaves : List LeafHash)
      → 1 < length leaves
      → length leaves ≤ 2 ^ 64
      → m < length leaves
      → cut leaves < m
      → Extends f (m - cut leaves) (drop (cut leaves) leaves)
      → Extends (suc f) m leaves
  Extends-right f m leaves big l h p sub =
      let k = cut leaves in
      let c = halves leaves big l in
      let top = mth sha256 (take k leaves) in
      let step = old_sides-right f m (length leaves) h p in
      let ds = old_sides f (m - k) (length leaves - k) in
      let len : length sub.rest ≡ length ds = ground (arith, sub.len, c.right) in
      let new : root_from sha256 ds sub.rest sub.seed ≡ mth sha256 (drop k leaves) =
        rw c.right at sub.new_root in
      let old : old_from sha256 ds sub.rest sub.seed ≡ mth sha256 (take (m - k) (drop k leaves)) =
        rw c.right at sub.old_root in
      record {
        seed = sub.seed;
        rest = sub.rest ++ top ∷ [];
        len = ground (arith, length-append sub.rest (top ∷ []), length-append ds (true ∷ []));
        new_root =
            rw
              (
                step,
                root_from-left sha256 ds sub.rest top sub.seed len,
                mth-node sha256 leaves big l,
              )
              (ap (node_hash sha256 top) new);
        old_root =
            rw
              (
                step,
                old_from-left sha256 ds sub.rest top sub.seed len,
                mth-take_right sha256 m leaves big l p (omega arith),
              )
              (ap (node_hash sha256 top) old);
        hidden = rw (subproof-right sha256 f m leaves false h p, sub.hidden);
        known = λ _ pow. absurd (not-Pow-between (length leaves) m big l p h pow);
        unknown = λ _ no. rw (subproof-right sha256 f m leaves true h p, sub.hidden);
      }

  pub extends :
      (f m : ℕ) (leaves : List LeafHash)
      → 0 < m
      → m ≤ length leaves
      → length leaves ≤ f
      → length leaves ≤ 2 ^ 64
      → Extends f m leaves
  extends zero m leaves p h nf l = absurd (omega arith)
  extends (suc f) m leaves p h nf l = elim (Bool-cases (m == length leaves)) [
    | inl whole ↦ Extends-same (suc f) m leaves (ground arith) (omega arith)
    | inr part ↦
        let lt : m < length leaves = ground arith in
        let big : 1 < length leaves = omega arith in
        let k = cut leaves in
        let c = halves leaves big l in
        elim (Bool-cases (leb m k)) [
          | inl under ↦
              Extends-left f m leaves big l lt (ground arith)
                (extends f m (take k leaves) p (ground arith) (omega arith) (omega arith))
          | inr over ↦ Extends-right f m leaves big l lt (ground arith) (
              extends f (m - k) (drop k leaves) (ground arith) (omega arith) (omega arith)
                (omega arith))
        ]
  ]

  module _ (sha256-32 : (x : Bytes) → Is32 (sha256 x)) where
    pub subproof_fuel-All32 :
        (f m : ℕ) (leaves : List LeafHash)
        → All (λ l. Is32 l.bytes) leaves
        → All32 (subproof_fuel sha256 f leaves m false [])
    unfolding subproof_fuel
    subproof_fuel-All32 zero m leaves p = tt
    subproof_fuel-All32 (suc f) m leaves p =
        let k = cut leaves in
        let kept = All-take (λ l. Is32 l.bytes) k leaves p in
        let rest = All-drop (λ l. Is32 l.bytes) k leaves p in
        elim (Bool-cases (m == length leaves)) [
          | inl whole ↦ rw whole (mth-Is32 sha256 sha256-32 leaves p, tt)
          | inr part ↦ elim (Bool-cases (leb m k)) [
            | inl under ↦
                rw (part, under)
                  (All-append Is32 _ _ (subproof_fuel-All32 f m (take k leaves) kept)
                    (mth-Is32 sha256 sha256-32 (drop k leaves) rest, tt))
            | inr over ↦
                rw (part, over)
                  (All-append Is32 _ _ (subproof_fuel-All32 f (m - k) (drop k leaves) rest)
                    (mth-Is32 sha256 sha256-32 (take k leaves) kept, tt))
          ]
        ]
