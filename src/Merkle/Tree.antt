-- ===== src/Merkle/Tree.antt =====
-- The tree hash and the audit path, level by level (`mth` and `audit_path` of
-- crates/cc-anchor/src/merkle.rs), and that the path leads from its leaf to the root.
use clockchain.Prelude.{
  ℕ, zero, suc, ◌+◌, ◌-◌, ◌*◌, ◌^◌, ◌≤◌, ◌<◌, ◌≡◌, refl, ap, ap₂, ◌∙◌, inl, inr, true, false, some,
  List, [], ◌∷◌, ◌++◌, arith, ltb, leb, Bool-cases, length, get_elem?, take, drop, length-take,
  length-drop, length-append, get_elem?-take, get_elem?-drop, Bytes, All, All-append, All-take,
  All-drop,
}
use clockchain.Merkle.{LeafHash, split_point, node_hash, mth, mth_fuel, audit_path, audit_path_fuel}
use clockchain.Merkle.Split.{split_point-bounds, split_point-pos}
use clockchain.Merkle.Sides.{sides, sides-one, sides-left, sides-right}
use clockchain.Merkle.Collide.{Is32, All32, root_from, root_from-left, root_from-right}

-- The two subtrees of `leaves`, and their sizes.
abbrev pub cut : List LeafHash → ℕ
cut leaves = split_point (length leaves)

pub record Halves (leaves : List LeafHash) : Type 0 where
  pub pos : 0 < cut leaves
  pub below : cut leaves < length leaves
  pub above : length leaves ≤ 2 * cut leaves
  pub left : length (take (cut leaves) leaves) ≡ cut leaves
  pub right : length (drop (cut leaves) leaves) ≡ length leaves - cut leaves

pub halves : (leaves : List LeafHash) → 1 < length leaves → length leaves ≤ 2 ^ 64 → Halves leaves
halves leaves h l =
    let (_, _, lo, hi) = split_point-bounds (length leaves) h l in
    let pos = split_point-pos (length leaves) h l in
    record {
      pos = pos;
      below = lo;
      above = hi;
      left = omega (arith, length-take (cut leaves) leaves);
      right = omega (arith, length-drop (cut leaves) leaves);
    }

module _ (sha256 : Bytes → Bytes) where
  mth_fuel-eq :
      (f g : ℕ) (leaves : List LeafHash)
      → length leaves ≤ f
      → length leaves ≤ g
      → length leaves ≤ 2 ^ 64
      → mth_fuel sha256 f leaves ≡ mth_fuel sha256 g leaves
  unfolding mth_fuel
  mth_fuel-eq f g [] p q l = refl
  mth_fuel-eq f g (x ∷ []) p q l = refl
  mth_fuel-eq zero g (x ∷ y ∷ xs) p q l = absurd (omega arith)
  mth_fuel-eq (suc f) zero (x ∷ y ∷ xs) p q l = absurd (omega arith)
  mth_fuel-eq (suc f) (suc g) (x ∷ y ∷ xs) p q l =
      let leaves = x ∷ y ∷ xs in
      let h = halves leaves (omega arith) l in
      let k = cut leaves in
      ap₂ (node_hash sha256)
        (mth_fuel-eq f g (take k leaves) (omega arith) (omega arith) (omega arith))
        (mth_fuel-eq f g (drop k leaves) (omega arith) (omega arith) (omega arith))

  -- `MTH` of RFC 6962 at two leaves or more.
  pub mth-node :
      (leaves : List LeafHash)
      → 1 < length leaves
      → length leaves ≤ 2 ^ 64
      → mth sha256 leaves
        ≡ node_hash sha256
            (mth sha256 (take (cut leaves) leaves))
            (mth sha256 (drop (cut leaves) leaves))
  unfolding mth mth_fuel
  mth-node [] h l = absurd (omega arith)
  mth-node (x ∷ []) h l = absurd (omega arith)
  mth-node (x ∷ y ∷ xs) h l =
      let leaves = x ∷ y ∷ xs in
      let c = halves leaves h l in
      let k = cut leaves in
      ap₂ (node_hash sha256)
        (mth_fuel-eq (suc (length xs)) (length (take k leaves)) (take k leaves) (omega arith)
          (omega arith) (omega arith))
        (mth_fuel-eq (suc (length xs)) (length (drop k leaves)) (drop k leaves) (omega arith)
          (omega arith) (omega arith))

  pub mth-one : (x : LeafHash) → mth sha256 (x ∷ []) ≡ x.bytes
  unfolding mth mth_fuel
  mth-one x = refl

  audit_path_fuel-one :
      (f m : ℕ) (leaves : List LeafHash)
      → length leaves ≡ 1
      → audit_path_fuel sha256 f leaves m [] ≡ []
  unfolding audit_path_fuel
  audit_path_fuel-one zero m leaves h = refl
  audit_path_fuel-one (suc f) m leaves h = ground arith

  audit_path_fuel-left :
      (f m : ℕ) (leaves : List LeafHash)
      → 1 < length leaves
      → m < cut leaves
      → audit_path_fuel sha256 (suc f) leaves m []
        ≡ audit_path_fuel sha256 f (take (cut leaves) leaves) m []
          ++ mth sha256 (drop (cut leaves) leaves) ∷ []
  unfolding audit_path_fuel
  audit_path_fuel-left f m leaves h p = ground arith

  audit_path_fuel-right :
      (f m : ℕ) (leaves : List LeafHash)
      → 1 < length leaves
      → cut leaves ≤ m
      → audit_path_fuel sha256 (suc f) leaves m []
        ≡ audit_path_fuel sha256 f (drop (cut leaves) leaves) (m - cut leaves) []
          ++ mth sha256 (take (cut leaves) leaves) ∷ []
  unfolding audit_path_fuel
  audit_path_fuel-right f m leaves h p = ground arith

  -- The path has one hash for each side, and leads from its leaf to the root.
  pub audit_path_fuel-leads :
      (f m : ℕ) (leaves : List LeafHash) (x : LeafHash)
      → get_elem? leaves m ≡ some x
      → m < length leaves
      → length leaves ≤ f
      → length leaves ≤ 2 ^ 64
      → (length (audit_path_fuel sha256 f leaves m []) ≡ length (sides f m (length leaves)))
        × (root_from sha256
              (sides f m (length leaves))
              (audit_path_fuel sha256 f leaves m [])
              x.bytes
            ≡ mth sha256 leaves)
  unfolding root_from
  audit_path_fuel-leads zero m leaves x e p q l = absurd (omega arith)
  audit_path_fuel-leads (suc f) m [] x e p q l = absurd (omega arith)
  audit_path_fuel-leads (suc f) zero (y ∷ []) x e p q l =
      let same : y ≡ x = cc in
      let root = mth-one y in
      rw (sides-one (suc f) 0, audit_path_fuel-one (suc f) 0 (y ∷ []) refl, mth-one y)
        (refl, ground arith)
  audit_path_fuel-leads (suc f) (suc m) (y ∷ []) x e p q l = absurd (omega arith)
  audit_path_fuel-leads (suc f) m (y ∷ z ∷ xs) x e p q l =
      let leaves = y ∷ z ∷ xs in
      let n = length leaves in
      let k = cut leaves in
      let big : 1 < n = omega arith in
      let c = halves leaves big l in
      elim (Bool-cases (ltb m k)) [
        | inl under ↦
            let mk : m < k = ground arith in
            let (len, leads) =
              audit_path_fuel-leads f m (take k leaves) x (get_elem?-take k m leaves mk ∙ e)
                (omega arith) (omega arith) (omega arith) in
            let path = audit_path_fuel sha256 f (take k leaves) m [] in
            let top = mth sha256 (drop k leaves) in
            let len' : length path ≡ length (sides f m k) = ground arith in
            ground (
              arith,
              sides-left f m n big mk,
              audit_path_fuel-left f m leaves big mk,
              length-append path (top ∷ []),
              length-append (sides f m k) (false ∷ []),
              root_from-right sha256 (sides f m k) path top x.bytes len',
              mth-node leaves big l,
            )
        | inr over ↦
            let km : k ≤ m = ground arith in
            let back : k + (m - k) ≡ m = omega arith in
            let (len, leads) =
              audit_path_fuel-leads f (m - k) (drop k leaves) x
                (get_elem?-drop k (m - k) leaves ∙ ap (get_elem? leaves) back ∙ e) (omega arith)
                (omega arith) (omega arith) in
            let path = audit_path_fuel sha256 f (drop k leaves) (m - k) [] in
            let top = mth sha256 (take k leaves) in
            let len' : length path ≡ length (sides f (m - k) (n - k)) = ground arith in
            ground (
              arith,
              sides-right f m n big km,
              audit_path_fuel-right f m leaves big km,
              length-append path (top ∷ []),
              length-append (sides f (m - k) (n - k)) (true ∷ []),
              root_from-left sha256 (sides f (m - k) (n - k)) path top x.bytes len',
              mth-node leaves big l,
            )
      ]

  pub audit_path-leads :
      (m : ℕ) (leaves : List LeafHash) (x : LeafHash)
      → get_elem? leaves m ≡ some x
      → m < length leaves
      → length leaves ≤ 2 ^ 64
      → (length (audit_path sha256 leaves m []) ≡ length (sides (length leaves) m (length leaves)))
        × (root_from sha256
              (sides (length leaves) m (length leaves))
              (audit_path sha256 leaves m [])
              x.bytes
            ≡ mth sha256 leaves)
  unfolding audit_path
  audit_path-leads m leaves x e p l =
      audit_path_fuel-leads (length leaves) m leaves x e p (omega arith) l

  module _ (sha256-32 : (x : Bytes) → Is32 (sha256 x)) where
    mth_fuel-Is32 :
        (f : ℕ) (leaves : List LeafHash)
        → All (λ l. Is32 l.bytes) leaves
        → Is32 (mth_fuel sha256 f leaves)
    unfolding mth_fuel node_hash
    mth_fuel-Is32 f [] p = sha256-32 _
    mth_fuel-Is32 f (x ∷ []) p = p.0
    mth_fuel-Is32 zero (x ∷ y ∷ xs) p = sha256-32 _
    mth_fuel-Is32 (suc f) (x ∷ y ∷ xs) p = sha256-32 _

    pub mth-Is32 :
        (leaves : List LeafHash) → All (λ l. Is32 l.bytes) leaves → Is32 (mth sha256 leaves)
    unfolding mth
    mth-Is32 leaves = mth_fuel-Is32 (length leaves) leaves

    audit_path_fuel-All32 :
        (f m : ℕ) (leaves : List LeafHash)
        → All (λ l. Is32 l.bytes) leaves
        → All32 (audit_path_fuel sha256 f leaves m [])
    unfolding audit_path_fuel
    audit_path_fuel-All32 zero m leaves p = tt
    audit_path_fuel-All32 (suc f) m leaves p =
        let k = cut leaves in
        let kept = All-take (λ l. Is32 l.bytes) k leaves p in
        let rest = All-drop (λ l. Is32 l.bytes) k leaves p in
        elim (Bool-cases (leb (length leaves) 1)) [
          | inl small ↦ rw small tt
          | inr large ↦ elim (Bool-cases (ltb m k)) [
            | inl under ↦
                rw (large, under)
                  (All-append Is32 _ _ (audit_path_fuel-All32 f m (take k leaves) kept)
                    (mth-Is32 (drop k leaves) rest, tt))
            | inr over ↦
                rw (large, over)
                  (All-append Is32 _ _ (audit_path_fuel-All32 f (m - k) (drop k leaves) rest)
                    (mth-Is32 (take k leaves) kept, tt))
          ]
        ]

    pub audit_path-All32 :
        (m : ℕ) (leaves : List LeafHash)
        → All (λ l. Is32 l.bytes) leaves
        → All32 (audit_path sha256 leaves m [])
    unfolding audit_path
    audit_path-All32 m leaves = audit_path_fuel-All32 (length leaves) m leaves
