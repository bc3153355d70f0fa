-- ===== src/Merkle/Consistency.antt =====
-- `ConsistencyProof::verify` against `prove_consistency` (crates/cc-anchor/src/merkle.rs).
use clockchain.Prelude.{
  ℕ, zero, suc, ◌+◌, ◌-◌, ◌^◌, ◌≤◌, ◌<◌, ◌≡◌, refl, ap, ◌∙◌, ◌↔◌, inl, inr, true, false, ◌&&◌,
  Option, none, some, List, [], ◌∷◌, arith, ◌==◌, if◌then◌else◌, Bool-cases, length, take,
  take-length, Bytes, bytes_eq, bytes_eq_sound, bytes_eq_refl, ok, err,
}
use clockchain.Merkle.{
  LeafHash, MerkleRoot, empty_old_tree, old_size_exceeds_tree, ConsistencyProof, node_hash, on_left,
  climb, skip_odd, is_power_of_two, merkle_root, subproof, prove_consistency, walk_both,
  verify_nodes, verify_consistency,
}
use clockchain.Merkle.Split.{is_power_of_two_iff}
use clockchain.Merkle.Sides.{sides, sides-one, climb-sides}
use clockchain.Merkle.OldSides.{old_sides, skip_odd-old_sides}
use clockchain.Merkle.Collide.{root_from}
use clockchain.Merkle.Subproof.{old_from, subproof-same}
use clockchain.Merkle.Extends.{Extends, extends}

-- The last line of `verify`.
accepts :
    (o : Option (ℕ × Bytes × Bytes)) (a b : Bytes)
    → ((elim o [ none ↦ false | some (s, fr, sr) ↦ s == 0 && bytes_eq fr a && bytes_eq sr b ])
        ≡ true)
      ↔ (o ≡ some (0, a, b))
accepts none a b = (λ h. absurd (ground arith), λ h. absurd (ground arith))
accepts (some (s, fr, sr)) a b = (
  λ h. ground (arith, bytes_eq_sound fr a, bytes_eq_sound sr b),
  λ h. ground (arith, bytes_eq_refl a, bytes_eq_refl b),
)

module _ (sha256 : Bytes → Bytes) where
  walk_both-roots :
      (ps : List Bytes) (f m s : ℕ) (fr sr a b : Bytes)
      → s < f
      → m ≤ s
      → f ≤ 2 ^ 64
      → (walk_both sha256 ps m s fr sr ≡ some (0, a, b)) ↔ (
          (length ps ≡ length (sides f m (s + 1)))
          × (old_from sha256 (sides f m (s + 1)) ps fr ≡ a)
          × (root_from sha256 (sides f m (s + 1)) ps sr ≡ b))
  unfolding walk_both root_from old_from
  walk_both-roots [] f m zero fr sr a b h q l =
      rw (sides-one f m) (λ w. ground arith, λ w. ground arith)
  walk_both-roots [] f m (suc s) fr sr a b h q l =
      let (e, _, _) = climb-sides f f m (suc s) (omega arith) q h h (omega arith) in
      rw e (λ w. absurd (ground arith), λ (n, _, _). absurd (omega arith))
  walk_both-roots (c ∷ cs) f m zero fr sr a b h q l =
      rw (sides-one f m) (λ w. absurd (ground arith), λ (n, _, _). absurd (omega arith))
  walk_both-roots (c ∷ cs) f m (suc s) fr sr a b h q l =
      let (e, le, lt) = climb-sides f f m (suc s) (omega arith) q h h (omega arith) in
      let (m', s') = climb m (suc s) in
      let fr' = if on_left m (suc s) then node_hash sha256 c fr else fr in
      let sr' = if on_left m (suc s) then node_hash sha256 c sr else node_hash sha256 sr c in
      let (ih, back) = walk_both-roots cs f m' s' fr' sr' a b (omega arith) le l in
      rw e (λ w. ground arith, λ w. ground arith)

  -- What the verifier tests of the hashes after the first.
  pub verify_nodes-nil :
      (m n : ℕ) (old_root new_root : MerkleRoot)
      → verify_nodes sha256 [] m n old_root new_root ≡ false
  unfolding verify_nodes
  verify_nodes-nil m n old_root new_root = refl

  pub verify_nodes_iff :
      (first : Bytes) (it : List Bytes) (m n : ℕ) (old_root new_root : MerkleRoot)
      → 0 < m
      → m < n
      → n ≤ 2 ^ 64
      → (verify_nodes sha256 (first ∷ it) m n old_root new_root ≡ true) ↔ (
          (length it ≡ length (old_sides n m n))
          × (old_from sha256 (old_sides n m n) it first ≡ old_root.bytes)
          × (root_from sha256 (old_sides n m n) it first ≡ new_root.bytes))
  unfolding verify_nodes
  verify_nodes_iff first it m n old_root new_root p h l =
      let (f, s) = skip_odd (m - 1) (m - 1) (n - 1) in
      let (e, lt, le) =
        skip_odd-old_sides (m - 1) n n m n p h (omega arith) (omega arith) (omega arith) l in
      let (there, back) =
        walk_both-roots it n f s first first old_root.bytes new_root.bytes le (omega arith) l in
      let (accepted, accept) =
        accepts (walk_both sha256 it f s first first) old_root.bytes new_root.bytes in
      rw e (λ v. there (accepted v), λ w. accept (back w))

  -- The list `nodes` that `verify` makes for a smaller old tree.
  abbrev pub nodes : ConsistencyProof → MerkleRoot → List Bytes
  nodes p old_root = if is_power_of_two p.old_size then old_root.bytes ∷ p.path else p.path

  pub verify-nodes :
      (p : ConsistencyProof) (old_root new_root : MerkleRoot)
      → 0 < p.old_size
      → p.old_size < p.new_size
      → verify_consistency sha256 p old_root new_root
        ≡ verify_nodes sha256 (nodes p old_root) p.old_size p.new_size old_root new_root
  unfolding verify_consistency
  verify-nodes p old_root new_root h l = ground arith

  -- What `prove_consistency` returns.
  abbrev honest : List LeafHash → ℕ → ConsistencyProof
  honest leaves m = record {
    old_size = m;
    new_size = length leaves;
    path = subproof sha256 leaves m true [];
  }

  -- `nodes` of an honest proof is the subtree's root with the hashes that lead from it.
  nodes-honest :
      (m : ℕ) (leaves : List LeafHash)
      → 0 < m
      → m < length leaves
      → length leaves ≤ 2 ^ 64
      → (x : Extends sha256 (length leaves) m leaves)
      → nodes (honest leaves m) (merkle_root sha256 (take m leaves)) ≡ x.seed ∷ x.rest
  unfolding subproof merkle_root
  nodes-honest m leaves p h l x =
      let (there, back) = is_power_of_two_iff m (omega arith) in
      elim (Bool-cases (is_power_of_two m)) [
        | inl power ↦ let (e, s) = x.known (inl h) (there power) in rw (power, e, s)
        | inr other ↦ rw (other, x.unknown h (λ pow. ground (arith, back pow)))
      ]

  verify-honest_part :
      (leaves : List LeafHash) (m : ℕ)
      → 0 < m
      → m < length leaves
      → length leaves ≤ 2 ^ 64
      → verify_consistency sha256
          (honest leaves m)
          (merkle_root sha256 (take m leaves))
          (merkle_root sha256 leaves)
        ≡ true
  unfolding merkle_root
  verify-honest_part leaves m p h l =
      let n = length leaves in
      let old_root = merkle_root sha256 (take m leaves) in
      let new_root = merkle_root sha256 leaves in
      let x = extends sha256 n m leaves p (omega arith) (omega arith) l in
      verify-nodes (honest leaves m) old_root new_root p h
      ∙ ap (λ ns. verify_nodes sha256 ns m n old_root new_root) (nodes-honest m leaves p h l x)
      ∙ (verify_nodes_iff x.seed x.rest m n old_root new_root p h l).1
          (x.len, x.old_root, x.new_root)

  verify-honest_whole :
      (leaves : List LeafHash)
      → 0 < length leaves
      → verify_consistency sha256
          (honest leaves (length leaves))
          (merkle_root sha256 (take (length leaves) leaves))
          (merkle_root sha256 leaves)
        ≡ true
  unfolding verify_consistency subproof
  verify-honest_whole leaves p =
      let n = length leaves in
      rw (take-length leaves n (omega arith), subproof-same sha256 n n leaves true refl p)
        (ground (arith, bytes_eq_refl (merkle_root sha256 leaves).bytes))

  -- For every earlier size of a log, `prove_consistency` returns a proof, and `verify` accepts it
  -- against the root of the first leaves and the root of all.
  pub prove-verify_consistency :
      (leaves : List LeafHash) (old_size : ℕ)
      → 0 < old_size
      → old_size ≤ length leaves
      → length leaves ≤ 2 ^ 64
      → (proof : ConsistencyProof) × (prove_consistency sha256 leaves old_size ≡ ok proof)
        × (proof.old_size ≡ old_size)
        × (proof.new_size ≡ length leaves)
        × (verify_consistency sha256 proof
              (merkle_root sha256 (take old_size leaves))
              (merkle_root sha256 leaves)
            ≡ true)
  unfolding prove_consistency
  prove-verify_consistency leaves m p h l = (
    honest leaves m,
    ground arith,
    refl,
    refl,
    elim (Bool-cases (m == length leaves)) [
      | inl whole ↦
          let e : m ≡ length leaves = ground arith in
          rw e (verify-honest_whole leaves (omega arith))
      | inr part ↦ verify-honest_part leaves m p (ground arith) l
    ],
  )

  -- An old size of zero, or beyond the log, is refused with what was wrong.
  pub prove_consistency-refuses :
      (leaves : List LeafHash) (old_size : ℕ)
      → (prove_consistency sha256 leaves 0 ≡ err empty_old_tree)
        × (length leaves < old_size
            → prove_consistency sha256 leaves old_size
              ≡ err (old_size_exceeds_tree old_size (length leaves)))
  unfolding prove_consistency
  prove_consistency-refuses leaves m = (refl, λ h. ground arith)
