-- ===== src/Merkle/Stored.antt =====
-- Stored inclusion proofs: `from_path_bytes` and `verify` against `prove_inclusion` and `flatten`
-- (crates/cc-anchor/src/merkle.rs).
use clockchain.Prelude.{
  ◌^◌, ◌≤◌, ◌≡◌, sym, ap, ◌∙◌, ◌⊎◌, inl, inr, true, some, List, [], All, length, get_elem?,
  get_elem?-lt, get_elem?-some, All-get_elem?, Bytes, ok, ok-injective, ℕ, arith, subst,
}
use clockchain.Merkle.{
  LeafHash, InclusionProof, merkle_root, audit_path, prove_inclusion, verify_inclusion, flatten,
  inclusion_from_path_bytes,
}
use clockchain.Merkle.Sides.{sides}
use clockchain.Merkle.Collide.{Collision, Is32, root_from-injective}
use clockchain.Merkle.Tree.{audit_path-leads, audit_path-All32}
use clockchain.Merkle.Inclusion.{
  prove-verify_inclusion, verify_inclusion_iff, verify_inclusion-in_range,
}
use clockchain.Merkle.Blob.{inclusion_from_path_bytes-flatten, inclusion_from_path_bytes-inverts}

module _ (sha256 : Bytes → Bytes) where
  -- The stored bytes, read back for an index of the log, are accepted for a leaf.
  abbrev pub IsAccepted : List LeafHash → ℕ → Bytes → LeafHash → Type 0
  IsAccepted leaves index bytes leaf =
      (proof : InclusionProof) × (inclusion_from_path_bytes index (length leaves) bytes ≡ ok proof)
      × (verify_inclusion sha256 proof leaf (merkle_root sha256 leaves) ≡ true)

  -- The leaf stands at the index, and the bytes are those of the path that the log proves it by.
  abbrev pub IsStored : List LeafHash → ℕ → Bytes → LeafHash → Type 0
  IsStored leaves index bytes leaf =
      (proof : InclusionProof) × (get_elem? leaves index ≡ some leaf)
      × (prove_inclusion sha256 leaves index ≡ ok proof)
      × (flatten proof.path ≡ bytes)

  prove_inclusion-path :
      (leaves : List LeafHash) (index : ℕ) (proof : InclusionProof)
      → prove_inclusion sha256 leaves index ≡ ok proof
      → (proof.leaf_index ≡ index)
        × (proof.tree_size ≡ length leaves)
        × (proof.path ≡ audit_path sha256 leaves index [])
  unfolding prove_inclusion
  prove_inclusion-path leaves index proof h = (ground arith, ground arith, ground arith)

  IsAccepted-IsStored :
      (sha256-32 : (x : Bytes) → Is32 (sha256 x)) (leaves : List LeafHash) (index : ℕ)
      (bytes : Bytes) (leaf : LeafHash)
      → All (λ l. Is32 l.bytes) leaves
      → Is32 leaf.bytes
      → length leaves ≤ 2 ^ 64
      → IsAccepted leaves index bytes leaf
      → IsStored leaves index bytes leaf ⊎ Collision sha256
  unfolding merkle_root
  IsAccepted-IsStored sha256-32 leaves index bytes leaf all leaf32 l (proof, stored, v) =
      let (at, size, whole, path32) =
        inclusion_from_path_bytes-inverts index (length leaves) bytes proof stored in
      let h = verify_inclusion-in_range sha256 proof leaf _ v in
      let (x, e) = get_elem?-some index leaves (omega arith) in
      let (made, proved, _, _, _) =
        prove-verify_inclusion sha256 leaves index x e (omega arith) l in
      let (_, _, path) = prove_inclusion-path leaves index made proved in
      let (len, root) =
        (verify_inclusion_iff sha256 proof leaf (merkle_root sha256 leaves) h (omega arith)).0 v in
      let (len', root') = audit_path-leads sha256 index leaves x e (omega arith) l in
      elim (root_from-injective sha256 sha256-32 (sides (length leaves) index (length leaves))
        proof.path (audit_path sha256 leaves index []) leaf.bytes x.bytes (cc) len' path32
        (audit_path-All32 sha256 sha256-32 index leaves all) leaf32
        (All-get_elem? (λ y. Is32 y.bytes) index leaves all e) (cc)) [
          | inl (same, one) ↦ inl (made, ground arith, proved, ap flatten (path ∙ sym same) ∙ whole)
          | inr c ↦ inr c
        ]

  IsStored-IsAccepted :
      (sha256-32 : (x : Bytes) → Is32 (sha256 x)) (leaves : List LeafHash) (index : ℕ)
      (bytes : Bytes) (leaf : LeafHash)
      → All (λ l. Is32 l.bytes) leaves
      → length leaves ≤ 2 ^ 64
      → IsStored leaves index bytes leaf
      → IsAccepted leaves index bytes leaf
  IsStored-IsAccepted sha256-32 leaves index bytes leaf all l (proof, e, proved, whole) =
      let (made, proved', _, _, v) =
        prove-verify_inclusion sha256 leaves index leaf e (get_elem?-lt index leaves leaf e) l in
      let same : made ≡ proof = ok-injective (sym proved' ∙ proved) in
      let (at, size, path) = prove_inclusion-path leaves index proof proved in
      let path32 =
        subst (All Is32) (sym path) (audit_path-All32 sha256 sha256-32 index leaves all) in
      let read = inclusion_from_path_bytes-flatten proof path32 in (proof, (cc), rw same at v)

  -- Stored bytes are accepted for an index and a leaf of 32 bytes, against the root and the size of
  -- a log of at most 2^64 leaves of 32 bytes, only if the leaf stands there and the bytes are, one
  -- for one, the path that `prove_inclusion` gives, or SHA-256 has a collision; and those bytes are
  -- accepted.
  pub verify_inclusion-from_path_bytes :
      (sha256-32 : (x : Bytes) → Is32 (sha256 x)) (leaves : List LeafHash) (index : ℕ)
      (bytes : Bytes) (leaf : LeafHash)
      → All (λ l. Is32 l.bytes) leaves
      → Is32 leaf.bytes
      → length leaves ≤ 2 ^ 64
      → (IsAccepted leaves index bytes leaf → IsStored leaves index bytes leaf ⊎ Collision sha256)
        × (IsStored leaves index bytes leaf → IsAccepted leaves index bytes leaf)
  verify_inclusion-from_path_bytes sha256-32 leaves index bytes leaf all leaf32 l = (
    IsAccepted-IsStored sha256-32 leaves index bytes leaf all leaf32 l,
    IsStored-IsAccepted sha256-32 leaves index bytes leaf all l,
  )
