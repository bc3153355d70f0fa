-- ===== src/Merkle/Binding.antt =====
-- A root commits to its whole log (crates/cc-anchor/src/merkle.rs).
use clockchain.Prelude.{
  ℕ, zero, suc, ◌^◌, ◌≤◌, ◌<◌, ◌≡◌, refl, ap, ap₂, ◌∙◌, sym, ◌⊎◌, inl, inr, List, [], ◌∷◌, ◌++◌,
  map, arith, length, take, drop, take-append-drop, length-take, length-drop, length-map, map-take,
  map-drop, Bytes, All, All-take, All-drop,
}
use clockchain.Merkle.{
  split_point, LeafHash, MerkleRoot, leaf_hash, node_hash, mth, mth_fuel, merkle_root,
}
use clockchain.Merkle.Collide.{
  Collision, Is32, node_hash-injective, leaf_hash-injective, leaf-ne-node, leaf-ne-empty,
  node-ne-empty,
}
use clockchain.Merkle.Tree.{cut, halves, mth-node, mth-one, mth-Is32}

-- Lists are equal if both their parts are, wherever each is cut.
rejoin {ℓ} :
    {A : Type ℓ} (j k : ℕ) (xs ys : List A)
    → take j xs ≡ take k ys
    → drop j xs ≡ drop k ys
    → xs ≡ ys
rejoin j k xs ys p q = sym (take-append-drop j xs) ∙ ap₂ ◌++◌ p q ∙ take-append-drop k ys

-- The leaves of a log of events.
abbrev pub leaves_of : (Bytes → Bytes) → List Bytes → List LeafHash
leaves_of sha256 = map (leaf_hash sha256)

module _ (sha256 : Bytes → Bytes) (sha256-32 : (x : Bytes) → Is32 (sha256 x)) where
  -- Equal roots have equal left and equal right subtrees.
  mth-halves :
      (xs ys : List LeafHash)
      → 1 < length xs
      → 1 < length ys
      → length xs ≤ 2 ^ 64
      → length ys ≤ 2 ^ 64
      → All (λ l. Is32 l.bytes) xs
      → All (λ l. Is32 l.bytes) ys
      → mth sha256 xs ≡ mth sha256 ys
      → ((mth sha256 (take (cut xs) xs) ≡ mth sha256 (take (cut ys) ys))
          × (mth sha256 (drop (cut xs) xs) ≡ mth sha256 (drop (cut ys) ys)))
        ⊎ Collision sha256
  mth-halves xs ys p q lx ly ax ay h =
      node_hash-injective sha256 _ _ _ _
        (mth-Is32 sha256 sha256-32 (take (cut xs) xs) (All-take (λ l. Is32 l.bytes) (cut xs) xs ax))
        (mth-Is32 sha256 sha256-32 (take (cut ys) ys) (All-take (λ l. Is32 l.bytes) (cut ys) ys ay))
        (sym (mth-node sha256 xs p lx) ∙ h ∙ mth-node sha256 ys q ly)

  -- Logs of one size and one root hold the same leaves.
  mth-injective_below :
      (f : ℕ) (xs ys : List LeafHash)
      → length xs ≤ f
      → length xs ≡ length ys
      → length xs ≤ 2 ^ 64
      → All (λ l. Is32 l.bytes) xs
      → All (λ l. Is32 l.bytes) ys
      → mth sha256 xs ≡ mth sha256 ys
      → (xs ≡ ys) ⊎ Collision sha256
  mth-injective_below f [] [] p e l ax ay h = inl refl
  mth-injective_below f (x ∷ []) (y ∷ []) p e l ax ay h =
      inl (ground (arith, mth-one sha256 x, mth-one sha256 y))
  mth-injective_below (suc f) (x ∷ x' ∷ xs) (y ∷ y' ∷ ys) p e l ax ay h =
      let us = x ∷ x' ∷ xs in
      let vs = y ∷ y' ∷ ys in
      let same : cut us ≡ cut vs = ap split_point e in
      let cu = halves us (omega arith) l in
      let cv = halves vs (omega arith) (omega arith) in
      elim (mth-halves us vs (omega arith) (omega arith) l (omega arith) ax ay h) [
        | inr c ↦ inr c
        | inl (hl, hr) ↦
            elim (mth-injective_below f (take (cut us) us) (take (cut vs) vs) (omega arith)
              (omega arith) (omega arith) (All-take (λ l. Is32 l.bytes) (cut us) us ax)
              (All-take (λ l. Is32 l.bytes) (cut vs) vs ay) hl) [
                | inr c ↦ inr c
                | inl el ↦
                    elim (mth-injective_below f (drop (cut us) us) (drop (cut vs) vs) (omega arith)
                      (omega arith) (omega arith) (All-drop (λ l. Is32 l.bytes) (cut us) us ax)
                      (All-drop (λ l. Is32 l.bytes) (cut vs) vs ay) hr) [
                        | inr c ↦ inr c
                        | inl er ↦ inl (rejoin (cut us) (cut vs) us vs el er)
                      ]
              ]
      ]
  mth-injective_below f [] (y ∷ ys) p e l ax ay h = absurd (omega arith)
  mth-injective_below f (x ∷ xs) [] p e l ax ay h = absurd (omega arith)
  mth-injective_below f (x ∷ []) (y ∷ y' ∷ ys) p e l ax ay h = absurd (omega arith)
  mth-injective_below f (x ∷ x' ∷ xs) (y ∷ []) p e l ax ay h = absurd (omega arith)
  mth-injective_below zero (x ∷ x' ∷ xs) (y ∷ y' ∷ ys) p e l ax ay h = absurd (omega arith)

  pub mth-injective :
      (xs ys : List LeafHash)
      → length xs ≡ length ys
      → length xs ≤ 2 ^ 64
      → All (λ l. Is32 l.bytes) xs
      → All (λ l. Is32 l.bytes) ys
      → mth sha256 xs ≡ mth sha256 ys
      → (xs ≡ ys) ⊎ Collision sha256
  mth-injective xs ys = mth-injective_below (length xs) xs ys (omega arith)

  leaves_of-All32 : (ids : List Bytes) → All (λ l. Is32 l.bytes) (leaves_of sha256 ids)
  unfolding leaf_hash
  leaves_of-All32 [] = tt
  leaves_of-All32 (id ∷ ids) = (sha256-32 _, leaves_of-All32 ids)

  size : (ids : List Bytes) → length (leaves_of sha256 ids) ≡ length ids
  size ids = length-map ids (leaf_hash sha256)

  -- The root over `k` and more ids, by the two parts of the ids.
  mth-leaves_of :
      (ids : List Bytes)
      → 1 < length ids
      → length ids ≤ 2 ^ 64
      → mth sha256 (leaves_of sha256 ids)
        ≡ node_hash sha256
            (mth sha256 (leaves_of sha256 (take (cut (leaves_of sha256 ids)) ids)))
            (mth sha256 (leaves_of sha256 (drop (cut (leaves_of sha256 ids)) ids)))
  mth-leaves_of ids h l =
      let k = cut (leaves_of sha256 ids) in
      let whole = leaf_hash sha256 in
      rw (map-take whole k ids, map-drop whole k ids)
        (mth-node sha256 (leaves_of sha256 ids) (omega (arith, size ids)) (omega (arith, size ids)))

  empty-ne-cons :
      (y : Bytes) (ys : List Bytes)
      → length (y ∷ ys) ≤ 2 ^ 64
      → mth sha256 (leaves_of sha256 (y ∷ ys)) ≡ mth sha256 (leaves_of sha256 [])
      → Collision sha256
  unfolding mth mth_fuel
  empty-ne-cons y [] l h = leaf-ne-empty sha256 y h
  empty-ne-cons y (y' ∷ ys) l h =
      node-ne-empty sha256 _ _ (sym (mth-leaves_of (y ∷ y' ∷ ys) (omega arith) l) ∙ h)

  one-ne-many :
      (x y y' : Bytes) (ys : List Bytes)
      → length (y ∷ y' ∷ ys) ≤ 2 ^ 64
      → mth sha256 (leaves_of sha256 (x ∷ [])) ≡ mth sha256 (leaves_of sha256 (y ∷ y' ∷ ys))
      → Collision sha256
  unfolding mth mth_fuel
  one-ne-many x y y' ys l h =
      leaf-ne-node sha256 x _ _ (h ∙ mth-leaves_of (y ∷ y' ∷ ys) (omega arith) l)

  root-binds_below :
      (f : ℕ) (xs ys : List Bytes)
      → length xs ≤ f
      → length xs ≤ 2 ^ 64
      → length ys ≤ 2 ^ 64
      → mth sha256 (leaves_of sha256 xs) ≡ mth sha256 (leaves_of sha256 ys)
      → (xs ≡ ys) ⊎ Collision sha256
  root-binds_below f [] [] p lx ly h = inl refl
  root-binds_below f [] (y ∷ ys) p lx ly h = inr (empty-ne-cons y ys ly (sym h))
  root-binds_below f (x ∷ xs) [] p lx ly h = inr (empty-ne-cons x xs lx h)
  root-binds_below f (x ∷ []) (y ∷ []) p lx ly h =
      elim (leaf_hash-injective sha256 x y (
        ground (arith, mth-one sha256 (leaf_hash sha256 x), mth-one sha256 (leaf_hash sha256 y)))) [
          | inl e ↦ inl (cc)
          | inr c ↦ inr c
        ]
  root-binds_below f (x ∷ []) (y ∷ y' ∷ ys) p lx ly h = inr (one-ne-many x y y' ys ly h)
  root-binds_below f (x ∷ x' ∷ xs) (y ∷ []) p lx ly h = inr (one-ne-many y x x' xs lx (sym h))
  root-binds_below zero (x ∷ x' ∷ xs) (y ∷ y' ∷ ys) p lx ly h = absurd (omega arith)
  root-binds_below (suc f) (x ∷ x' ∷ xs) (y ∷ y' ∷ ys) p lx ly h =
      let us = x ∷ x' ∷ xs in
      let vs = y ∷ y' ∷ ys in
      let j = cut (leaves_of sha256 us) in
      let k = cut (leaves_of sha256 vs) in
      let cu = halves (leaves_of sha256 us) (omega (arith, size us)) (omega (arith, size us)) in
      let cv = halves (leaves_of sha256 vs) (omega (arith, size vs)) (omega (arith, size vs)) in
      let tu = length-take j us in
      let tv = length-take k vs in
      let du = length-drop j us in
      let dv = length-drop k vs in
      let su = size us in
      elim (node_hash-injective sha256 _ _ _ _
        (mth-Is32 sha256 sha256-32 (leaves_of sha256 (take j us)) (leaves_of-All32 (take j us)))
        (mth-Is32 sha256 sha256-32 (leaves_of sha256 (take k vs)) (leaves_of-All32 (take k vs)))
        (sym (mth-leaves_of us (omega arith) lx) ∙ h ∙ mth-leaves_of vs (omega arith) ly)) [
          | inr c ↦ inr c
          | inl (hl, hr) ↦
              elim (root-binds_below f (take j us) (take k vs) (omega arith) (omega arith)
                (omega arith) hl) [
                  | inr c ↦ inr c
                  | inl el ↦
                      elim (root-binds_below f (drop j us) (drop k vs) (omega arith) (omega arith)
                        (omega arith) hr) [ inr c ↦ inr c | inl er ↦ inl (rejoin j k us vs el er) ]
                ]
        ]

  -- Two logs of events with one root are the same log, event for event and whatever their sizes, or
  -- SHA-256 has a collision: neither a node nor the empty tree passes for a leaf.
  pub merkle_root-binds :
      (xs ys : List Bytes)
      → length xs ≤ 2 ^ 64
      → length ys ≤ 2 ^ 64
      → merkle_root sha256 (leaves_of sha256 xs) ≡ merkle_root sha256 (leaves_of sha256 ys)
      → (xs ≡ ys) ⊎ Collision sha256
  unfolding merkle_root
  merkle_root-binds xs ys lx ly h =
      root-binds_below (length xs) xs ys (omega arith) lx ly (ap (λ (r : MerkleRoot). r.bytes) h)
