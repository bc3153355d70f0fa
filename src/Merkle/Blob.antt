-- ===== src/Merkle/Blob.antt =====
-- Stored proof paths: `flatten` and `unflatten` of crates/cc-anchor/src/merkle.rs.
use clockchain.Prelude.{
  ℕ, zero, suc, ◌%◌, ◌≤◌, ◌≡◌, refl, ap, ◌∙◌, sym, subst, ◌≢◌, ◌↔◌, inl, inr, List, [], ◌∷◌, ◌++◌,
  arith, ltb, ◌==◌, Bool-cases, length, length-append, length-take, length-drop, take, drop,
  take-append, drop-append, take-append-drop, Bytes, ok, err,
}
use clockchain.Merkle.{
  malformed_path, InclusionProof, flatten, chunks_exact, unflatten, inclusion_from_path_bytes,
}
use clockchain.Merkle.Collide.{All32}

chunks_exact-flatten :
    (fuel : ℕ) (path : List Bytes)
    → length (flatten path) ≤ fuel
    → All32 path
    → chunks_exact fuel (flatten path) ≡ path
unfolding chunks_exact flatten
chunks_exact-flatten zero [] p a = refl
chunks_exact-flatten zero (h ∷ path) p a = absurd (omega (arith, length-append h (flatten path)))
chunks_exact-flatten (suc fuel) [] p a = refl
chunks_exact-flatten (suc fuel) (h ∷ path) p a =
    let size = length-append h (flatten path) in
    let ih = chunks_exact-flatten fuel path (omega arith) a.1 in
    let head = take-append 32 h (flatten path) (sym a.0) in
    let rest = drop-append 32 h (flatten path) (sym a.0) in ground arith

length-flatten : (path : List Bytes) → All32 path → length (flatten path) % 32 ≡ 0
unfolding flatten
length-flatten [] a = omega arith
length-flatten (h ∷ path) a = omega (arith, length-append h (flatten path), length-flatten path a.1)

flatten-chunks_exact :
    (fuel : ℕ) (bytes : Bytes)
    → length bytes ≤ fuel
    → length bytes % 32 ≡ 0
    → (flatten (chunks_exact fuel bytes) ≡ bytes) × All32 (chunks_exact fuel bytes)
unfolding chunks_exact flatten
flatten-chunks_exact zero [] p m = (refl, tt)
flatten-chunks_exact zero (x ∷ bytes) p m = absurd (omega arith)
flatten-chunks_exact (suc fuel) bytes p m = elim (Bool-cases (ltb (length bytes) 32)) [
  | inl short ↦ rw short (empty bytes (ground arith), tt)
  | inr long ↦
      let size = length-take 32 bytes in
      let left = length-drop 32 bytes in
      let (ih, all) = flatten-chunks_exact fuel (drop 32 bytes) (ground arith) (ground arith) in
      rw long (ap (λ t. take 32 bytes ++ t) ih ∙ take-append-drop 32 bytes, (ground arith, all))
]
  where
    empty : (bytes : Bytes) → length bytes ≡ 0 → [] ≡ bytes
    empty [] h = refl
    empty (x ∷ xs) h = absurd (omega arith)

-- A stored path reads back as it was written.
pub unflatten-flatten : (path : List Bytes) → All32 path → unflatten (flatten path) ≡ ok path
unfolding unflatten
unflatten-flatten path a = ground (
  arith,
  length-flatten path a,
  chunks_exact-flatten (length (flatten path)) path (omega arith) a,
)

-- A blob reads as a path exactly when it is the path's hashes, of 32 bytes each, one after another;
-- and it is refused, with its size, exactly when its size is no multiple of 32.
pub unflatten-blob :
    (bytes : Bytes) (path : List Bytes)
    → ((unflatten bytes ≡ ok path) ↔ ((flatten path ≡ bytes) × All32 path))
      × ((unflatten bytes ≡ err (malformed_path (length bytes))) ↔ (length bytes % 32 ≢ 0))
unfolding unflatten
unflatten-blob bytes path = (
  (read, λ (e, all). subst (λ b. unflatten b ≡ ok path) e (unflatten-flatten path all)),
  (λ h. ground arith, λ h. ground arith),
)
  where
    read : unflatten bytes ≡ ok path → (flatten path ≡ bytes) × All32 path
    read h = elim (Bool-cases (length bytes % 32 == 0)) [
      | inl whole ↦
          let e : chunks_exact (length bytes) bytes ≡ path = ground arith in
          rw (← e) (flatten-chunks_exact (length bytes) bytes (omega arith) (ground arith))
      | inr ragged ↦ absurd (ground arith)
    ]

pub inclusion_from_path_bytes-flatten :
    (proof : InclusionProof)
    → All32 proof.path
    → inclusion_from_path_bytes proof.leaf_index proof.tree_size (flatten proof.path) ≡ ok proof
unfolding inclusion_from_path_bytes
inclusion_from_path_bytes-flatten proof a = ground (arith, unflatten-flatten proof.path a)

-- Only the bytes of its path rebuild a proof, under its two numbers.
pub inclusion_from_path_bytes-inverts :
    (leaf_index tree_size : ℕ) (bytes : Bytes) (proof : InclusionProof)
    → inclusion_from_path_bytes leaf_index tree_size bytes ≡ ok proof
    → (proof.leaf_index ≡ leaf_index)
      × (proof.tree_size ≡ tree_size)
      × (flatten proof.path ≡ bytes)
      × All32 proof.path
unfolding inclusion_from_path_bytes
inclusion_from_path_bytes-inverts leaf_index tree_size bytes proof h =
    let e : unflatten bytes ≡ ok proof.path = ground arith in
    let (whole, all) = (unflatten-blob bytes proof.path).0.0 e in
    (ground (arith, e), ground (arith, e), whole, all)
