-- ===== src/Merkle/NonRemoval.antt =====
-- No accepted consistency proof hides a removed or changed leaf (`ConsistencyProof::verify` of
-- crates/cc-anchor/src/merkle.rs).
use clockchain.Prelude.{
  ℕ, ◌^◌, ◌≤◌, ◌<◌, ◌≡◌, refl, ◌∙◌, sym, ◌⊎◌, inl, inr, true, List, [], ◌∷◌, arith, ◌==◌,
  Bool-cases, length, length-take, take, take-length, subst, All, All-take, Bytes, bytes_eq_sound,
}
use clockchain.Merkle.{
  LeafHash, MerkleRoot, ConsistencyProof, is_power_of_two, mth, merkle_root, verify_nodes,
  verify_consistency,
}
use clockchain.Merkle.OldSides.{old_sides}
use clockchain.Merkle.Collide.{Collision, Is32, All32, root_from-injective}
use clockchain.Merkle.Extends.{extends, subproof_fuel-All32}
use clockchain.Merkle.Tree.{mth-Is32}
use clockchain.Merkle.Binding.{mth-injective}
use clockchain.Merkle.Consistency.{nodes, verify-nodes, verify_nodes-nil, verify_nodes_iff}

module _ (sha256 : Bytes → Bytes) where
  merkle_root-bytes :
      (leaves : List LeafHash) → (merkle_root sha256 leaves).bytes ≡ mth sha256 leaves
  unfolding merkle_root
  merkle_root-bytes leaves = refl

  module _ (sha256-32 : (x : Bytes) → Is32 (sha256 x)) where
    nodes-All32 :
        (p : ConsistencyProof) (old_root : MerkleRoot)
        → Is32 old_root.bytes
        → All32 p.path
        → All32 (nodes sha256 p old_root)
    nodes-All32 p old_root h path32 = elim (Bool-cases (is_power_of_two p.old_size)) [
      | inl power ↦ rw power (h, path32)
      | inr other ↦ rw other path32
    ]

    -- Accepted hashes are the honest ones, so the old root is that of the first leaves.
    verify_nodes-old_root :
        (ns : List Bytes) (m : ℕ) (leaves : List LeafHash) (old_root : MerkleRoot)
        → All (λ l. Is32 l.bytes) leaves
        → All32 ns
        → 0 < m
        → m < length leaves
        → length leaves ≤ 2 ^ 64
        → verify_nodes sha256 ns m (length leaves) old_root (merkle_root sha256 leaves) ≡ true
        → (old_root.bytes ≡ mth sha256 (take m leaves)) ⊎ Collision sha256
    unfolding merkle_root
    verify_nodes-old_root [] m leaves old_root all n32 p h l v = absurd (
        ground
          (arith, verify_nodes-nil sha256 m (length leaves) old_root (merkle_root sha256 leaves)))
    verify_nodes-old_root (first ∷ it) m leaves old_root all n32 p h l v =
        let n = length leaves in
        let x = extends sha256 n m leaves p (omega arith) (omega arith) l in
        let (len, old, new) =
          (verify_nodes_iff sha256 first it m n old_root (merkle_root sha256 leaves) p h l).0 v in
        let x32 : All32 (x.seed ∷ x.rest) =
          subst All32 x.hidden (subproof_fuel-All32 sha256 sha256-32 n m leaves all) in
        elim (root_from-injective sha256 sha256-32 (old_sides n m n) it x.rest first x.seed len
          x.len n32.1 x32.1 n32.0 x32.0 (new ∙ sym x.new_root)) [
            | inl (same_rest, same_seed) ↦ inl (sym old ∙ rw (same_rest, same_seed) x.old_root)
            | inr c ↦ inr c
          ]

    verify_consistency-same :
        (p : ConsistencyProof) (old_root new_root : MerkleRoot)
        → p.old_size ≡ p.new_size
        → verify_consistency sha256 p old_root new_root ≡ true
        → old_root.bytes ≡ new_root.bytes
    unfolding verify_consistency
    verify_consistency-same p old_root new_root e v =
        ground (arith, bytes_eq_sound old_root.bytes new_root.bytes)

    verify_consistency-sizes :
        (p : ConsistencyProof) (old_root new_root : MerkleRoot)
        → verify_consistency sha256 p old_root new_root ≡ true
        → (0 < p.old_size) × (p.old_size ≤ p.new_size)
    unfolding verify_consistency
    verify_consistency-sizes p old_root new_root v = ground arith

    -- The old root is that of the first leaves.
    verify_consistency-old_root :
        (new : List LeafHash) (proof : ConsistencyProof) (old_root : MerkleRoot)
        → All (λ l. Is32 l.bytes) new
        → All32 proof.path
        → Is32 old_root.bytes
        → proof.new_size ≡ length new
        → length new ≤ 2 ^ 64
        → verify_consistency sha256 proof old_root (merkle_root sha256 new) ≡ true
        → (old_root.bytes ≡ mth sha256 (take proof.old_size new)) ⊎ Collision sha256
    verify_consistency-old_root new proof old_root all path32 root32 sn l v =
        let m = proof.old_size in
        let new_root = merkle_root sha256 new in
        let (pos, le) = verify_consistency-sizes proof old_root new_root v in
        elim (Bool-cases (m == length new)) [
          | inl whole ↦
              let e : m ≡ proof.new_size = ground arith in
              inl (
                verify_consistency-same proof old_root new_root e v
                ∙ rw (take-length new m (omega arith)) (merkle_root-bytes new))
          | inr part ↦
              let lt : m < length new = ground arith in
              let test = sym (verify-nodes sha256 proof old_root new_root pos (omega arith)) ∙ v in
              verify_nodes-old_root (nodes sha256 proof old_root) m new old_root all
                (nodes-All32 proof old_root root32 path32) pos lt l (rw sn at test)
        ]

    -- If `verify` accepts any proof between the root of an old log and the root of a new one, of the
    -- sizes that it names, then the old log is the beginning of the new one, leaf for leaf, or
    -- SHA-256 has a collision.
    pub verify_consistency_sound :
        (old new : List LeafHash) (proof : ConsistencyProof)
        → All (λ l. Is32 l.bytes) old
        → All (λ l. Is32 l.bytes) new
        → All32 proof.path
        → proof.old_size ≡ length old
        → proof.new_size ≡ length new
        → length new ≤ 2 ^ 64
        → verify_consistency sha256 proof (merkle_root sha256 old) (merkle_root sha256 new) ≡ true
        → (old ≡ take (length old) new) ⊎ Collision sha256
    verify_consistency_sound old new proof all_old all_new path32 so sn l v =
        let (_, le) = verify_consistency-sizes proof _ _ v in
        let root32 = rw (← merkle_root-bytes old) at (mth-Is32 sha256 sha256-32 old all_old) in
        elim (verify_consistency-old_root new proof (merkle_root sha256 old) all_new path32 root32
          sn l v) [
            | inr c ↦ inr c
            | inl e ↦
                let e' : mth sha256 old ≡ mth sha256 (take (length old) new) =
                  rw so at (sym (merkle_root-bytes old) ∙ e) in
                mth-injective sha256 sha256-32 old (take (length old) new)
                  (omega (arith, length-take (length old) new)) (omega arith) all_old
                  (All-take (λ l. Is32 l.bytes) (length old) new all_new) e'
          ]
