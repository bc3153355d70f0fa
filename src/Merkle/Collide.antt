-- ===== src/Merkle/Collide.antt =====
-- What equal hashes mean. Nothing is assumed of SHA-256 but the length of its output: an equation
-- between hashes either comes from equal inputs or exhibits a collision.
use clockchain.Prelude.{
  ◌≡◌, refl, ap, ◌∙◌, sym, ◌≢◌, ◌⊎◌, inl, inr, Bool, true, false, List, [], ◌∷◌, ◌++◌, arith,
  if◌then◌else◌, length, Bytes, bytes-cases, append-injective, All,
}
use clockchain.Merkle.{LeafHash, leaf_hash, node_hash}

-- Two different inputs with one hash.
abbrev pub Collision : (Bytes → Bytes) → Type 0
Collision sha256 = (x : Bytes) × (y : Bytes) × (x ≢ y) × (sha256 x ≡ sha256 y)

-- `[u8; 32]`
abbrev pub Is32 : Bytes → Type 0
Is32 b = length b ≡ 32

abbrev pub All32 : List Bytes → Type 0
All32 = All Is32

module _ (sha256 : Bytes → Bytes) where
  sha256-injective : (x y : Bytes) → sha256 x ≡ sha256 y → (x ≡ y) ⊎ Collision sha256
  sha256-injective x y h = elim (bytes-cases x y) [ inl e ↦ inl e | inr ne ↦ inr (x, y, ne, h) ]

  pub node_hash-injective :
      (a b c d : Bytes)
      → Is32 a
      → Is32 c
      → node_hash sha256 a b ≡ node_hash sha256 c d
      → ((a ≡ c) × (b ≡ d)) ⊎ Collision sha256
  unfolding node_hash
  node_hash-injective a b c d p q h = elim (sha256-injective _ _ h) [
    | inl e ↦ inl (append-injective a c b d (p ∙ sym q) (cc))
    | inr c ↦ inr c
  ]

  pub leaf_hash-injective :
      (x y : Bytes) → leaf_hash sha256 x ≡ leaf_hash sha256 y → (x ≡ y) ⊎ Collision sha256
  unfolding leaf_hash
  leaf_hash-injective x y h =
      elim (sha256-injective (0 ∷ x) (0 ∷ y) (ap (λ (l : LeafHash). l.bytes) h)) [
        | inl e ↦ inl (cc)
        | inr c ↦ inr c
      ]

  -- The prefixes keep the preimages of leaves, nodes and the empty tree apart.
  pub leaf-ne-node :
      (id a b : Bytes) → (leaf_hash sha256 id).bytes ≡ node_hash sha256 a b → Collision sha256
  unfolding leaf_hash node_hash
  leaf-ne-node id a b h = (0 ∷ id, 1 ∷ a ++ b, λ e. ground arith, h)

  pub leaf-ne-empty : (id : Bytes) → (leaf_hash sha256 id).bytes ≡ sha256 [] → Collision sha256
  unfolding leaf_hash
  leaf-ne-empty id h = (0 ∷ id, [], λ e. ground arith, h)

  pub node-ne-empty : (a b : Bytes) → node_hash sha256 a b ≡ sha256 [] → Collision sha256
  unfolding node_hash
  node-ne-empty a b h = (1 ∷ a ++ b, [], λ e. ground arith, h)

  -- The root that a leaf and its siblings lead to, each sibling on its side.
  unfoldable pub root_from : List Bool → List Bytes → Bytes → Bytes
  root_from (d ∷ ds) (p ∷ ps) r =
      root_from ds ps (if d then node_hash sha256 p r else node_hash sha256 r p)
  root_from _ _ r = r

  pub root_from-left :
      (ds : List Bool) (ps : List Bytes) (p r : Bytes)
      → length ps ≡ length ds
      → root_from (ds ++ true ∷ []) (ps ++ p ∷ []) r ≡ node_hash sha256 p (root_from ds ps r)
  unfolding root_from
  root_from-left [] [] p r h = refl
  root_from-left (d ∷ ds) (x ∷ ps) p r h = root_from-left ds ps p _ (omega arith)
  root_from-left [] (x ∷ ps) p r h = absurd (omega arith)
  root_from-left (d ∷ ds) [] p r h = absurd (omega arith)

  pub root_from-right :
      (ds : List Bool) (ps : List Bytes) (p r : Bytes)
      → length ps ≡ length ds
      → root_from (ds ++ false ∷ []) (ps ++ p ∷ []) r ≡ node_hash sha256 (root_from ds ps r) p
  unfolding root_from
  root_from-right [] [] p r h = refl
  root_from-right (d ∷ ds) (x ∷ ps) p r h = root_from-right ds ps p _ (omega arith)
  root_from-right [] (x ∷ ps) p r h = absurd (omega arith)
  root_from-right (d ∷ ds) [] p r h = absurd (omega arith)

  module _ (sha256-32 : (x : Bytes) → Is32 (sha256 x)) where
    -- One root is reached from one leaf by one path, if no collision is at hand.
    pub root_from-injective :
        (ds : List Bool) (ps qs : List Bytes) (r s : Bytes)
        → length ps ≡ length ds
        → length qs ≡ length ds
        → All32 ps
        → All32 qs
        → Is32 r
        → Is32 s
        → root_from ds ps r ≡ root_from ds qs s
        → ((ps ≡ qs) × (r ≡ s)) ⊎ Collision sha256
    unfolding root_from node_hash
    root_from-injective [] [] [] r s hp hq ap aq hr hs h = inl (refl, h)
    root_from-injective (true ∷ ds) (p ∷ ps) (q ∷ qs) r s hp hq ap aq hr hs h =
        elim (root_from-injective ds ps qs _ _ (omega arith) (omega arith) ap.1 aq.1 (sha256-32 _)
          (sha256-32 _) h) [
            | inr c ↦ inr c
            | inl (e, top) ↦ elim (node_hash-injective p r q s ap.0 aq.0 top) [
              | inr c ↦ inr c
              | inl (e', e'') ↦ inl (cc, e'')
            ]
          ]
    root_from-injective (false ∷ ds) (p ∷ ps) (q ∷ qs) r s hp hq ap aq hr hs h =
        elim (root_from-injective ds ps qs _ _ (omega arith) (omega arith) ap.1 aq.1 (sha256-32 _)
          (sha256-32 _) h) [
            | inr c ↦ inr c
            | inl (e, top) ↦ elim (node_hash-injective r p s q hr hs top) [
              | inr c ↦ inr c
              | inl (e', e'') ↦ inl (cc, e')
            ]
          ]
    root_from-injective [] (p ∷ ps) qs r s hp hq ap aq hr hs h = absurd (omega arith)
    root_from-injective [] [] (q ∷ qs) r s hp hq ap aq hr hs h = absurd (omega arith)
    root_from-injective (d ∷ ds) [] qs r s hp hq ap aq hr hs h = absurd (omega arith)
    root_from-injective (d ∷ ds) (p ∷ ps) [] r s hp hq ap aq hr hs h = absurd (omega arith)
