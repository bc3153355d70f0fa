-- ===== src/Merkle/Subproof.antt =====
-- What `subproof` of crates/cc-anchor/src/merkle.rs puts into a proof: the subtree that the old
-- tree ends in, and the hashes that lead from it to both roots.
use clockchain.Prelude.{
  ℕ, zero, suc, ◌-◌, ◌^◌, ◌≤◌, ◌<◌, ◌≡◌, refl, ap, ◌∙◌, Bool, true, false, List, [], ◌∷◌, ◌++◌,
  arith, if◌then◌else◌, length, take, drop, length-take, take-take, drop-take, Bytes,
}
use clockchain.Merkle.{LeafHash, split_point, node_hash, mth, subproof_fuel}
use clockchain.Merkle.Split.{split_point-bounds, split_point-between, pow-double-le}
use clockchain.Merkle.Tree.{cut, halves, mth-node}

-- A power of two.
abbrev pub Pow : ℕ → Type 0
Pow n = (e : ℕ) × (n ≡ 2 ^ e)

pub split_point-Pow : (n : ℕ) → 1 < n → n ≤ 2 ^ 64 → Pow (split_point n)
split_point-Pow n h l = let (e, s, _, _) = split_point-bounds n h l in (e, s)

-- No power of two lies strictly between a split point and its tree's size.
pub not-Pow-between : (n m : ℕ) → 1 < n → n ≤ 2 ^ 64 → split_point n < m → m < n → ¬ Pow m
not-Pow-between n m h l p q (e, s) =
    let (k, t, lo, hi) = split_point-bounds n h l in
    ground (arith, pow-double-le k e, pow-double-le e k)

module _ (sha256 : Bytes → Bytes) where
  -- The old root from the same hashes: those on the right are not in the old tree.
  unfoldable pub old_from : List Bool → List Bytes → Bytes → Bytes
  old_from (d ∷ ds) (p ∷ ps) r = old_from ds ps (if d then node_hash sha256 p r else r)
  old_from _ _ r = r

  pub old_from-left :
      (ds : List Bool) (ps : List Bytes) (p r : Bytes)
      → length ps ≡ length ds
      → old_from (ds ++ true ∷ []) (ps ++ p ∷ []) r ≡ node_hash sha256 p (old_from ds ps r)
  unfolding old_from
  old_from-left [] [] p r h = refl
  old_from-left (d ∷ ds) (x ∷ ps) p r h = old_from-left ds ps p _ (omega arith)
  old_from-left [] (x ∷ ps) p r h = absurd (omega arith)
  old_from-left (d ∷ ds) [] p r h = absurd (omega arith)

  pub old_from-right :
      (ds : List Bool) (ps : List Bytes) (p r : Bytes)
      → length ps ≡ length ds
      → old_from (ds ++ false ∷ []) (ps ++ p ∷ []) r ≡ old_from ds ps r
  unfolding old_from
  old_from-right [] [] p r h = refl
  old_from-right (d ∷ ds) (x ∷ ps) p r h = old_from-right ds ps p _ (omega arith)
  old_from-right [] (x ∷ ps) p r h = absurd (omega arith)
  old_from-right (d ∷ ds) [] p r h = absurd (omega arith)

  pub subproof-same :
      (f m : ℕ) (leaves : List LeafHash) (b : Bool)
      → m ≡ length leaves
      → 0 < f
      → subproof_fuel sha256 f leaves m b [] ≡ (if b then [] else mth sha256 leaves ∷ [])
  unfolding subproof_fuel
  subproof-same zero m leaves b e h = absurd (omega arith)
  subproof-same (suc f) m leaves true e h = ground arith
  subproof-same (suc f) m leaves false e h = ground arith

  pub subproof-left :
      (f m : ℕ) (leaves : List LeafHash) (b : Bool)
      → m < length leaves
      → m ≤ cut leaves
      → subproof_fuel sha256 (suc f) leaves m b []
        ≡ subproof_fuel sha256 f (take (cut leaves) leaves) m b []
          ++ mth sha256 (drop (cut leaves) leaves) ∷ []
  unfolding subproof_fuel
  subproof-left f m leaves b h p = ground arith

  pub subproof-right :
      (f m : ℕ) (leaves : List LeafHash) (b : Bool)
      → m < length leaves
      → cut leaves < m
      → subproof_fuel sha256 (suc f) leaves m b []
        ≡ subproof_fuel sha256 f (drop (cut leaves) leaves) (m - cut leaves) false []
          ++ mth sha256 (take (cut leaves) leaves) ∷ []
  unfolding subproof_fuel
  subproof-right f m leaves b h p = ground arith

  -- The old tree within the new one.
  pub mth-take_right :
      (m : ℕ) (leaves : List LeafHash)
      → 1 < length leaves
      → length leaves ≤ 2 ^ 64
      → cut leaves < m
      → m ≤ length leaves
      → mth sha256 (take m leaves)
        ≡ node_hash sha256
            (mth sha256 (take (cut leaves) leaves))
            (mth sha256 (take (m - cut leaves) (drop (cut leaves) leaves)))
  mth-take_right m leaves h l p q =
      let k = cut leaves in
      let size : length (take m leaves) ≡ m = omega (arith, length-take m leaves) in
      let c = halves leaves h l in
      let same : cut (take m leaves) ≡ k =
        ap split_point size ∙ split_point-between (length leaves) m h p q l in
      let t = take-take k m leaves (omega arith) in
      let d = drop-take k m leaves in
      mth-node sha256 (take m leaves) (omega arith) (omega arith) ∙ rw (same, t, d) refl
