-- ===== src/Merkle/Tests.antt =====
-- The theorems on a log of five events, under a small checksum in the place of SHA-256.
use clockchain.Prelude.{
  ℕ, ◌+◌, ◌*◌, ◌/◌, ◌%◌, ◌≡◌, refl, ◌≢◌, ◌↔◌, ◌⊎◌, true, false, some, List, [], ◌∷◌, arith,
  get_elem?, take, replicate, All, Bytes, bytes_eq, ok, err,
}
use clockchain.Merkle.{
  LeafHash, malformed_path, InclusionProof, ConsistencyProof, leading_zeros, split_point,
  is_power_of_two, skip_even, skip_odd, climb, leaf_hash, node_hash, mth_fuel, mth, merkle_root,
  audit_path_fuel, audit_path, prove_inclusion, walk, verify_inclusion, subproof_fuel, subproof,
  prove_consistency, walk_both, verify_nodes, verify_consistency, flatten, chunks_exact, unflatten,
  inclusion_from_path_bytes,
}
use clockchain.Merkle.Collide.{Collision, Is32, All32}
use clockchain.Merkle.Binding.{leaves_of, merkle_root-binds}
use clockchain.Merkle.Inclusion.{prove-verify_inclusion, verify_inclusion_sound}
use clockchain.Merkle.Consistency.{prove-verify_consistency}
use clockchain.Merkle.NonRemoval.{verify_consistency_sound}
use clockchain.Merkle.Blob.{unflatten-blob}
use clockchain.Merkle.Stored.{IsAccepted, IsStored, verify_inclusion-from_path_bytes}

checksum : Bytes → ℕ
checksum [] = 7
checksum (b ∷ bs) = (b + 257 * checksum bs) % 65521

toy : Bytes → Bytes
unfolding checksum
toy x = checksum x / 256 ∷ checksum x % 256 ∷ replicate 30 0

toy-32 : (x : Bytes) → Is32 (toy x)
unfolding toy
toy-32 x = refl

program : Unit {0}
unfolding leading_zeros split_point is_power_of_two skip_even skip_odd climb leaf_hash node_hash
    mth_fuel mth merkle_root audit_path_fuel audit_path prove_inclusion walk verify_inclusion
    subproof_fuel subproof prove_consistency walk_both verify_nodes verify_consistency flatten
    chunks_exact unflatten inclusion_from_path_bytes bytes_eq toy
program = tt

abbrev event : ℕ → Bytes
event i = replicate 32 i

abbrev log : List Bytes
log = event 1 ∷ event 2 ∷ event 3 ∷ event 4 ∷ event 5 ∷ []

abbrev leaves : List LeafHash
leaves = leaves_of toy log

abbrev proof : InclusionProof
proof = record { leaf_index = 4; tree_size = 5; path = audit_path toy leaves 4 [] }

abbrev growth : ConsistencyProof
growth = record { old_size = 3; new_size = 5; path = subproof toy leaves 3 true [] }

split_points : split_point 5 ≡ 4
unfolding program
split_points = refl

accepted : verify_inclusion toy proof (leaf_hash toy (event 5)) (merkle_root toy leaves) ≡ true
unfolding program
accepted = refl

-- Another leaf is not accepted with the same path.
forged : verify_inclusion toy proof (leaf_hash toy (event 4)) (merkle_root toy leaves) ≡ false
unfolding program
forged = refl

grown :
    verify_consistency toy growth (merkle_root toy (take 3 leaves)) (merkle_root toy leaves) ≡ true
unfolding program
grown = refl

leaves32 : All (λ l. Is32 l.bytes) leaves
unfolding program
leaves32 = omega arith

prove-verify_inclusion_example :
    (p : InclusionProof) × (prove_inclusion toy leaves 4 ≡ ok p)
    × (p.leaf_index ≡ 4)
    × (p.tree_size ≡ 5)
    × (verify_inclusion toy p (leaf_hash toy (event 5)) (merkle_root toy leaves) ≡ true)
prove-verify_inclusion_example =
    prove-verify_inclusion toy leaves 4 (leaf_hash toy (event 5)) refl (omega arith) (omega arith)

verify_inclusion_sound_example :
    (get_elem? leaves 4 ≡ some (leaf_hash toy (event 5))) ⊎ Collision toy
unfolding program
verify_inclusion_sound_example =
    verify_inclusion_sound toy toy-32 leaves proof (leaf_hash toy (event 5)) leaves32 (omega arith)
      refl refl (omega arith) refl

merkle_root-binds_example : (log ≡ log) ⊎ Collision toy
merkle_root-binds_example = merkle_root-binds toy toy-32 log log (omega arith) (omega arith) refl

prove-verify_consistency_example :
    (p : ConsistencyProof) × (prove_consistency toy leaves 3 ≡ ok p)
    × (p.old_size ≡ 3)
    × (p.new_size ≡ 5)
    × (verify_consistency toy p (merkle_root toy (take 3 leaves)) (merkle_root toy leaves) ≡ true)
prove-verify_consistency_example =
    prove-verify_consistency toy leaves 3 (omega arith) (omega arith) (omega arith)

verify_consistency_sound_example : (take 3 leaves ≡ take 3 leaves) ⊎ Collision toy
unfolding program
verify_consistency_sound_example =
    verify_consistency_sound toy toy-32 (take 3 leaves) leaves growth (omega arith) leaves32
      (omega arith) refl refl (omega arith) refl

unflatten-blob_example :
    ((unflatten (event 1) ≡ ok (event 1 ∷ []))
      ↔ ((flatten (event 1 ∷ []) ≡ event 1) × All32 (event 1 ∷ [])))
    × ((unflatten (event 1) ≡ err (malformed_path 32)) ↔ (◌≢◌ {A = ℕ} (32 % 32) 0))
unflatten-blob_example = unflatten-blob (event 1) (event 1 ∷ [])

verify_inclusion-from_path_bytes_example :
    (IsAccepted toy leaves 4 (flatten proof.path) (leaf_hash toy (event 5))
      → IsStored toy leaves 4 (flatten proof.path) (leaf_hash toy (event 5)) ⊎ Collision toy)
    × (IsStored toy leaves 4 (flatten proof.path) (leaf_hash toy (event 5))
        → IsAccepted toy leaves 4 (flatten proof.path) (leaf_hash toy (event 5)))
unfolding program
verify_inclusion-from_path_bytes_example =
    verify_inclusion-from_path_bytes toy toy-32 leaves 4 (flatten proof.path)
      (leaf_hash toy (event 5)) leaves32 refl (omega arith)
