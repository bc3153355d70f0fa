-- ===== src/Merkle/Inclusion.antt =====
-- `InclusionProof::verify` against `prove_inclusion` (crates/cc-anchor/src/merkle.rs).
use clockchain.Prelude.{
  ℕ, zero, suc, ◌+◌, ◌-◌, ◌^◌, ◌≤◌, ◌<◌, ◌≡◌, refl, ◌↔◌, ◌⊎◌, inl, inr, true, false, ◌&&◌, Option,
  none, some, List, [], ◌∷◌, arith, leb, ◌==◌, if◌then◌else◌, Bool-cases, length, get_elem?, Bytes,
  bytes_eq, bytes_eq_sound, bytes_eq_refl, get_elem?-some, All, All-get_elem?, ok, err,
}
use clockchain.Merkle.{
  LeafHash, MerkleRoot, index_out_of_range, InclusionProof, node_hash, on_left, climb, merkle_root,
  audit_path, prove_inclusion, walk, verify_inclusion,
}
use clockchain.Merkle.Sides.{sides, sides-one, climb-sides}
use clockchain.Merkle.Collide.{Collision, Is32, All32, root_from, root_from-injective}
use clockchain.Merkle.Tree.{audit_path-leads, audit_path-All32}

-- The last line of `verify`.
accepts :
    (o : Option (ℕ × Bytes)) (b : Bytes)
    → ((elim o [ none ↦ false | some (s, r) ↦ s == 0 && bytes_eq r b ]) ≡ true) ↔ (o ≡ some (0, b))
accepts none b = (λ h. absurd (ground arith), λ h. absurd (ground arith))
accepts (some (s, r)) b =
    (λ h. ground (arith, bytes_eq_sound r b), λ h. ground (arith, bytes_eq_refl b))

module _ (sha256 : Bytes → Bytes) where
  -- The loop ends at the root if the path has one hash for each side, and not otherwise.
  walk-root :
      (ps : List Bytes) (f m s : ℕ) (r x : Bytes)
      → s < f
      → m ≤ s
      → f ≤ 2 ^ 64
      → (walk sha256 ps m s r ≡ some (0, x)) ↔ (
          (length ps ≡ length (sides f m (s + 1)))
          × (root_from sha256 (sides f m (s + 1)) ps r ≡ x))
  unfolding walk root_from
  walk-root [] f m zero r x h q l = rw (sides-one f m) (λ w. ground arith, λ w. ground arith)
  walk-root [] f m (suc s) r x h q l =
      let (e, _, _) = climb-sides f f m (suc s) (omega arith) q h h (omega arith) in
      rw e (λ w. absurd (ground arith), λ (a, _). absurd (omega arith))
  walk-root (p ∷ ps) f m zero r x h q l =
      rw (sides-one f m) (λ w. absurd (ground arith), λ (a, _). absurd (omega arith))
  walk-root (p ∷ ps) f m (suc s) r x h q l =
      let (e, le, lt) = climb-sides f f m (suc s) (omega arith) q h h (omega arith) in
      let (m', s') = climb m (suc s) in
      let r' = if on_left m (suc s) then node_hash sha256 p r else node_hash sha256 r p in
      let (ih, back) = walk-root ps f m' s' r' x (omega arith) le l in
      rw e (λ w. ground arith, λ w. ground arith)

  -- What `verify` tests, for an index in range.
  pub verify_inclusion_iff :
      (proof : InclusionProof) (leaf : LeafHash) (root : MerkleRoot)
      → proof.leaf_index < proof.tree_size
      → proof.tree_size ≤ 2 ^ 64
      → (verify_inclusion sha256 proof leaf root ≡ true) ↔ (
          (length proof.path ≡ length (sides proof.tree_size proof.leaf_index proof.tree_size))
          × (root_from sha256
                (sides proof.tree_size proof.leaf_index proof.tree_size)
                proof.path
                leaf.bytes
              ≡ root.bytes))
  unfolding verify_inclusion
  verify_inclusion_iff proof leaf root h l =
      let n = proof.tree_size in
      let e : n - 1 + 1 ≡ n = omega arith in
      let (there, back) =
        walk-root proof.path n proof.leaf_index (n - 1) leaf.bytes root.bytes (omega arith)
          (omega arith) l in
      let (accepted, accept) =
        accepts (walk sha256 proof.path proof.leaf_index (n - 1) leaf.bytes) root.bytes in
      (
        λ v. rw e at (there (accepted (ground arith))),
        λ w. let found = accept (back (rw e w)) in ground arith,
      )

  pub verify_inclusion-in_range :
      (proof : InclusionProof) (leaf : LeafHash) (root : MerkleRoot)
      → verify_inclusion sha256 proof leaf root ≡ true
      → proof.leaf_index < proof.tree_size
  unfolding verify_inclusion
  verify_inclusion-in_range proof leaf root v =
      elim (Bool-cases (leb proof.tree_size proof.leaf_index)) [
        | inl out ↦ absurd (ground arith)
        | inr within ↦ ground arith
      ]

  -- Every leaf of a log has a path that `prove_inclusion` returns and `verify` accepts against the
  -- log's root, at any size up to 2^64.
  pub prove-verify_inclusion :
      (leaves : List LeafHash) (index : ℕ) (leaf : LeafHash)
      → get_elem? leaves index ≡ some leaf
      → index < length leaves
      → length leaves ≤ 2 ^ 64
      → (proof : InclusionProof) × (prove_inclusion sha256 leaves index ≡ ok proof)
        × (proof.leaf_index ≡ index)
        × (proof.tree_size ≡ length leaves)
        × (verify_inclusion sha256 proof leaf (merkle_root sha256 leaves) ≡ true)
  unfolding prove_inclusion merkle_root
  prove-verify_inclusion leaves index leaf e h l =
      let proof : InclusionProof = record {
        leaf_index = index;
        tree_size = length leaves;
        path = audit_path sha256 leaves index [];
      } in
      (
        proof,
        ground arith,
        refl,
        refl,
        (verify_inclusion_iff proof leaf (merkle_root sha256 leaves) h l).1
            (audit_path-leads sha256 index leaves leaf e h l),
      )

  -- A leaf outside the log is refused, with the index and the size.
  pub prove_inclusion-out_of_range :
      (leaves : List LeafHash) (index : ℕ)
      → length leaves ≤ index
      → prove_inclusion sha256 leaves index ≡ err (index_out_of_range index (length leaves))
  unfolding prove_inclusion
  prove_inclusion-out_of_range leaves index h = ground arith

  -- An accepted proof names a leaf that stands in the log at that index, or SHA-256 has a collision.
  -- It speaks of any path and any 32-byte leaf, against the root and the size of the log.
  pub verify_inclusion_sound :
      (sha256-32 : (x : Bytes) → Is32 (sha256 x)) (leaves : List LeafHash) (proof : InclusionProof)
      (leaf : LeafHash)
      → All (λ l. Is32 l.bytes) leaves
      → All32 proof.path
      → Is32 leaf.bytes
      → proof.tree_size ≡ length leaves
      → length leaves ≤ 2 ^ 64
      → verify_inclusion sha256 proof leaf (merkle_root sha256 leaves) ≡ true
      → (get_elem? leaves proof.leaf_index ≡ some leaf) ⊎ Collision sha256
  unfolding merkle_root
  verify_inclusion_sound sha256-32 leaves proof leaf all path32 leaf32 size l v =
      let i = proof.leaf_index in
      let h : i < proof.tree_size = verify_inclusion-in_range proof leaf _ v in
      let (x, e) = get_elem?-some i leaves (omega arith) in
      let (len, root) =
        (verify_inclusion_iff proof leaf (merkle_root sha256 leaves) h (omega arith)).0 v in
      let (len', root') = audit_path-leads sha256 i leaves x e (omega arith) l in
      elim (root_from-injective sha256 sha256-32 (sides (length leaves) i (length leaves))
        proof.path (audit_path sha256 leaves i []) leaf.bytes x.bytes (cc) len' path32
        (audit_path-All32 sha256 sha256-32 i leaves all) leaf32
        (All-get_elem? (λ y. Is32 y.bytes) i leaves all e) (cc)) [
          | inl (_, same) ↦ inl (ground arith)
          | inr c ↦ inr c
        ]
