-- ===== src/Merkle.antt =====
-- The Merkle accumulator of crates/cc-anchor/src/merkle.rs: tree hash, audit paths and
-- consistency proofs of RFC 6962. SHA-256 is the parameter `sha256`.
pub mod Split
pub mod Sides
pub mod Collide
pub mod Tree
pub mod Binding
pub mod Inclusion
pub mod OldSides
pub mod Subproof
pub mod Extends
pub mod Consistency
pub mod NonRemoval
pub mod Blob
pub mod Stored
mod Tests
use clockchain.Prelude.{
  ℕ, zero, suc, ◌+◌, ◌-◌, ◌/◌, ◌%◌, ◌^◌, Bool, true, false, not, ◌&&◌, ◌||◌, Option, none, some,
  List, [], ◌∷◌, ◌++◌, ltb, leb, ◌==◌, if◌then◌else◌, length, get_elem?, take, drop, Bytes,
  bytes_eq, Result, ok, err,
}

-- `LeafHash` and `MerkleRoot`, the newtypes over 32 bytes.
pub record LeafHash : Type 0 where
  pub bytes : Bytes

pub record MerkleRoot : Type 0 where
  pub bytes : Bytes

pub data ProofError : Type 0 where
  index_out_of_range : ℕ → ℕ → ProofError
  old_size_exceeds_tree : ℕ → ℕ → ProofError
  empty_old_tree : ProofError
  malformed_path : ℕ → ProofError

pub record InclusionProof : Type 0 where
  pub leaf_index : ℕ
  pub tree_size : ℕ
  pub path : List Bytes

pub record ConsistencyProof : Type 0 where
  pub old_size : ℕ
  pub new_size : ℕ
  pub path : List Bytes

abbrev pub leaf_prefix : ℕ
leaf_prefix = 0

abbrev pub node_prefix : ℕ
node_prefix = 1

-- `u64::leading_zeros`, and at any width: the number of zero bits above the highest one.
unfoldable pub leading_zeros : ℕ → ℕ → ℕ
leading_zeros zero x = 0
leading_zeros (suc w) x = if ltb x (2 ^ w) then suc (leading_zeros w x) else 0

-- `1usize << (usize::BITS - 1 - (n - 1).leading_zeros())`
unfoldable pub split_point : ℕ → ℕ
split_point n = 2 ^ (64 - 1 - leading_zeros 64 (n - 1))

-- `x.is_power_of_two()`: one bit is set, and it is the highest.
unfoldable pub is_power_of_two : ℕ → Bool
is_power_of_two n = not (n == 0) && n == 2 ^ (63 - leading_zeros 64 n)

-- `x & 1 == 1`
abbrev pub is_odd : ℕ → Bool
is_odd x = x % 2 == 1

-- while fnode != 0 && fnode & 1 == 0 { fnode >>= 1; snode >>= 1; }
unfoldable pub skip_even : ℕ → ℕ → ℕ → ℕ × ℕ
skip_even zero f s = (f, s)
skip_even (suc fuel) f s =
    let rest = skip_even fuel (f / 2) (s / 2) in
    if not (f == 0) && not (is_odd f) then rest else (f, s)

-- while fnode & 1 == 1 { fnode >>= 1; snode >>= 1; }
unfoldable pub skip_odd : ℕ → ℕ → ℕ → ℕ × ℕ
skip_odd zero f s = (f, s)
skip_odd (suc fuel) f s =
    let rest = skip_odd fuel (f / 2) (s / 2) in if is_odd f then rest else (f, s)

-- The sibling of a node stands on its left.
abbrev pub on_left : ℕ → ℕ → Bool
on_left f s = is_odd f || f == s

-- What one round of either verifier does to `fnode` and `snode`. Halving `fnode` reaches an odd
-- number or zero within `fnode` rounds.
unfoldable pub climb : ℕ → ℕ → ℕ × ℕ
unfolding skip_even
climb f s =
    let (f', s') = if on_left f s && not (is_odd f) then skip_even f f s else (f, s) in
    (f' / 2, s' / 2)

module _ (sha256 : Bytes → Bytes) where
  unfoldable pub leaf_hash : Bytes → LeafHash
  leaf_hash id = record { bytes = sha256 (leaf_prefix ∷ id) }

  unfoldable pub node_hash : Bytes → Bytes → Bytes
  node_hash left right = sha256 (node_prefix ∷ left ++ right)

  -- The recursion is on the leaf count, which bounds its depth.
  unfoldable pub mth_fuel : ℕ → List LeafHash → Bytes
  mth_fuel fuel [] = sha256 []
  mth_fuel fuel (x ∷ []) = x.bytes
  mth_fuel zero (x ∷ y ∷ xs) = sha256 []
  mth_fuel (suc fuel) (x ∷ y ∷ xs) =
      let leaves = x ∷ y ∷ xs in
      let k = split_point (length leaves) in
      node_hash (mth_fuel fuel (take k leaves)) (mth_fuel fuel (drop k leaves))

  unfoldable pub mth : List LeafHash → Bytes
  mth leaves = mth_fuel (length leaves) leaves

  unfoldable pub merkle_root : List LeafHash → MerkleRoot
  merkle_root leaves = record { bytes = mth leaves }

  unfoldable pub audit_path_fuel : ℕ → List LeafHash → ℕ → List Bytes → List Bytes
  audit_path_fuel zero leaves m out = out
  audit_path_fuel (suc fuel) leaves m out =
      let k = split_point (length leaves) in
      let left = audit_path_fuel fuel (take k leaves) m out ++ mth (drop k leaves) ∷ [] in
      let right = audit_path_fuel fuel (drop k leaves) (m - k) out ++ mth (take k leaves) ∷ [] in
      if leb (length leaves) 1 then out else if ltb m k then left else right

  unfoldable pub audit_path : List LeafHash → ℕ → List Bytes → List Bytes
  audit_path leaves m out = audit_path_fuel (length leaves) leaves m out

  unfoldable pub prove_inclusion : List LeafHash → ℕ → Result InclusionProof ProofError
  prove_inclusion leaves index =
      let n = length leaves in
      if leb n index
      then err (index_out_of_range index n)
      else ok (record { leaf_index = index; tree_size = n; path = audit_path leaves index [] })

  -- The loop of `InclusionProof::verify`; `none` is its early `return false`.
  unfoldable pub walk : List Bytes → ℕ → ℕ → Bytes → Option (ℕ × Bytes)
  walk [] f s r = some (s, r)
  walk (p ∷ ps) f s r =
      let r' = if on_left f s then node_hash p r else node_hash r p in
      let rest = walk ps (climb f s).0 (climb f s).1 r' in if s == 0 then none else rest

  unfoldable pub verify_inclusion : InclusionProof → LeafHash → MerkleRoot → Bool
  verify_inclusion p leaf root =
      if leb p.tree_size p.leaf_index
      then false
      else elim (walk p.path p.leaf_index (p.tree_size - 1) leaf.bytes) [
        | none ↦ false
        | some (s, r) ↦ s == 0 && bytes_eq r root.bytes
      ]

  unfoldable pub subproof_fuel : ℕ → List LeafHash → ℕ → Bool → List Bytes → List Bytes
  subproof_fuel zero leaves m b out = out
  subproof_fuel (suc fuel) leaves m b out =
      let k = split_point (length leaves) in
      let left = subproof_fuel fuel (take k leaves) m b out ++ mth (drop k leaves) ∷ [] in
      let right =
        subproof_fuel fuel (drop k leaves) (m - k) false out ++ mth (take k leaves) ∷ [] in
      if m == length leaves
      then if not b then out ++ mth leaves ∷ [] else out
      else if leb m k
      then left
      else right

  unfoldable pub subproof : List LeafHash → ℕ → Bool → List Bytes → List Bytes
  subproof leaves m b out = subproof_fuel (length leaves) leaves m b out

  unfoldable pub prove_consistency : List LeafHash → ℕ → Result ConsistencyProof ProofError
  prove_consistency leaves old_size =
      let n = length leaves in
      if old_size == 0
      then err empty_old_tree
      else if ltb n old_size
      then err (old_size_exceeds_tree old_size n)
      else ok
          (record { old_size = old_size; new_size = n; path = subproof leaves old_size true [] })

  -- The loop of `ConsistencyProof::verify`, over `fr` and `sr`.
  unfoldable pub walk_both : List Bytes → ℕ → ℕ → Bytes → Bytes → Option (ℕ × Bytes × Bytes)
  walk_both [] f s fr sr = some (s, fr, sr)
  walk_both (c ∷ cs) f s fr sr =
      let fr' = if on_left f s then node_hash c fr else fr in
      let sr' = if on_left f s then node_hash c sr else node_hash sr c in
      let rest = walk_both cs (climb f s).0 (climb f s).1 fr' sr' in if s == 0 then none else rest

  -- What is left of `ConsistencyProof::verify` once the list `nodes` is made.
  unfoldable pub verify_nodes : List Bytes → ℕ → ℕ → MerkleRoot → MerkleRoot → Bool
  verify_nodes [] m n old_root new_root = false
  verify_nodes (first ∷ it) m n old_root new_root =
      let (f, s) = skip_odd (m - 1) (m - 1) (n - 1) in
      elim (walk_both it f s first first) [
        | none ↦ false
        | some (s', fr, sr) ↦ s' == 0 && bytes_eq fr old_root.bytes && bytes_eq sr new_root.bytes
      ]

  unfoldable pub verify_consistency : ConsistencyProof → MerkleRoot → MerkleRoot → Bool
  verify_consistency p old_root new_root =
      if ltb p.new_size p.old_size || p.old_size == 0
      then false
      else if p.old_size == p.new_size
      then length p.path == 0 && bytes_eq old_root.bytes new_root.bytes
      else verify_nodes (if is_power_of_two p.old_size then old_root.bytes ∷ p.path else p.path)
          p.old_size p.new_size old_root new_root

-- `flatten`
unfoldable pub flatten : List Bytes → Bytes
flatten [] = []
flatten (h ∷ path) = h ++ flatten path

-- `chunks_exact(32)` on fuel: whole chunks only, a shorter rest is dropped.
unfoldable pub chunks_exact : ℕ → Bytes → List Bytes
chunks_exact zero bytes = []
chunks_exact (suc fuel) bytes =
    let rest = chunks_exact fuel (drop 32 bytes) in
    if ltb (length bytes) 32 then [] else take 32 bytes ∷ rest

unfoldable pub unflatten : Bytes → Result (List Bytes) ProofError
unfolding chunks_exact
unflatten bytes =
    if length bytes % 32 == 0
    then ok (chunks_exact (length bytes) bytes)
    else err (malformed_path (length bytes))

unfoldable pub inclusion_from_path_bytes : ℕ → ℕ → Bytes → Result InclusionProof ProofError
unfolding unflatten
inclusion_from_path_bytes leaf_index tree_size bytes = elim (unflatten bytes) [
  | ok path ↦ ok (record { leaf_index = leaf_index; tree_size = tree_size; path = path })
  | err e ↦ err e
]

unfoldable pub consistency_from_path_bytes : ℕ → ℕ → Bytes → Result ConsistencyProof ProofError
unfolding unflatten
consistency_from_path_bytes old_size new_size bytes = elim (unflatten bytes) [
  | ok path ↦ ok (record { old_size = old_size; new_size = new_size; path = path })
  | err e ↦ err e
]
