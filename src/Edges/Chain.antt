-- ===== src/Edges/Chain.antt =====
-- The ancestors of a reaffirmation in `evaluate` of crates/cc-ledger/src/v1/edges.rs: what is found of
-- them never panics.
use clockchain.Prelude.{
  ◌≡◌, refl, inl, inr, true, false, not, ◌||◌, none, some, List, [], ◌∷◌, ◌++◌, arith, ◌==◌,
  Bool-cases, Option-cases, ltb, length, nat_key,
}
use clockchain.Prelude.Table.{lookup, contains_key}
use clockchain.Prelude.Ordered.{set_contains}
use clockchain.Wire.{Hash}
use clockchain.Wire.Event.{Pins, ParentPins, Payload, kind_of}
use clockchain.Wire.Signed.{Signed}
use clockchain.Ledger.{Events, cone, ◌>>=◌}
use clockchain.Ledger.Order.{key_held}
use clockchain.Ledger.Totals.{Returns, any_of-Returns}
use clockchain.Edges.{is_edge_assert, is_attestation, pins_of, edge_of}
use clockchain.Edges.Evaluate.{
  count_in, other_edge, comparable, parents_pinned, pins_eq, pins_differ,
}

pub set_contains-append :
    (x : Hash) (xs ys : List Hash)
    → set_contains x (xs ++ ys) ≡ (set_contains x xs || set_contains x ys)
unfolding set_contains
set_contains-append x [] ys = refl
set_contains-append x (y ∷ xs) ys = ground (arith, set_contains-append x xs ys)

-- What is not media and has pins.
pub record IsLink (e : Signed) : Type 0 where
  pub pins : Pins
  pub has : pins_of e.envelope.payload ≡ some pins
  pub edge : is_attestation (kind_of e.envelope.payload) ≡ false

link_of :
    (id : Hash) (payload : Payload) (i : Hash)
    → edge_of id payload ≡ some i
    → (pins : Pins) × (pins_of payload ≡ some pins) × (is_attestation (kind_of payload) ≡ false)
unfolding edge_of pins_of kind_of
link_of id (Payload.edge_assert _ pins _) i h = (pins, refl, refl)
link_of id (Payload.edge_reaffirm _ _ pins _) i h = (pins, refl, refl)
link_of id (Payload.genesis _ _ _) i h = absurd (ground (arith, h))
link_of id (Payload.correction _ _) i h = absurd (ground (arith, h))
link_of id (Payload.delegate _ _ _) i h = absurd (ground (arith, h))
link_of id (Payload.revoke _ _ _) i h = absurd (ground (arith, h))
link_of id (Payload.resolve _ _ _) i h = absurd (ground (arith, h))
link_of id (Payload.attestation _ _ _ _) i h = absurd (ground (arith, h))

pub assert_of :
    (payload : Payload)
    → is_edge_assert (kind_of payload) ≡ true
    → (pins : Pins) × (pins_of payload ≡ some pins) × (is_attestation (kind_of payload) ≡ false)
unfolding pins_of kind_of
assert_of (Payload.edge_assert _ pins _) h = (pins, refl, refl)
assert_of (Payload.edge_reaffirm _ _ pins _) h = (pins, refl, refl)
assert_of (Payload.genesis _ _ _) h = absurd (ground (arith, h))
assert_of (Payload.correction _ _) h = absurd (ground (arith, h))
assert_of (Payload.delegate _ _ _) h = absurd (ground (arith, h))
assert_of (Payload.revoke _ _ _) h = absurd (ground (arith, h))
assert_of (Payload.resolve _ _ _) h = absurd (ground (arith, h))
assert_of (Payload.attestation _ _ _ _) h = absurd (ground (arith, h))

module _ (all : Events) where
  -- A parent that is of the edge.
  abbrev pub Linked : Hash → Type 0
  Linked p = (e : Signed) × (lookup p all ≡ some e) × IsLink e

  pub other_edge-Returns :
      (edge p : Hash) → contains_key p all ≡ true → Returns (other_edge all edge p)
  unfolding other_edge
  other_edge-Returns edge p known =
      let (e, held) = key_held p all known in
      (elim (edge_of p e.envelope.payload) [ none ↦ true | some i ↦ not (i == edge) ], rw held refl)

  pub other_edge-Linked : (edge p : Hash) → other_edge all edge p ≡ some false → Linked p
  unfolding other_edge
  other_edge-Linked edge p h = elim (Option-cases (lookup p all)) [
    | inl gone ↦ absurd (let h' = rw gone at h in ground (arith, h'))
    | inr (e, held) ↦
        let h' = rw held at h in
        elim (Option-cases (edge_of p e.envelope.payload)) [
          | inl none_ ↦ absurd (let h'' = rw none_ at h' in ground (arith, h''))
          | inr (i, is) ↦
              let (pins, has, plain) = link_of p e.envelope.payload i is in
              (e, held, record { pins = pins; has = has; edge = plain })
        ]
  ]

  pub comparable-Returns :
      (ps : List Hash)
      → ((p : Hash) → set_contains p ps ≡ true → Returns (cone all p))
      → Returns (comparable all ps)
  unfolding comparable
  comparable-Returns ps cones = elim (Bool-cases (ltb 1 (length ps))) [
    | inr few ↦ (false, rw few refl)
    | inl many ↦
        let (b, eq, _) =
          any_of-Returns (λ p. cone all p >>= (λ m. some (ltb 1 (count_in ps m)))) ps
            (λ p h. let (m, m_eq) = cones p h in (ltb 1 (count_in ps m), rw m_eq refl)) in
        (b, rw many eq)
  ]

  pub pins_differ-Returns :
      (old : List ParentPins)
      → ((p : Hash) → set_contains p (parents_pinned old) ≡ true → Linked p)
      → Returns (pins_differ all old)
  unfolding pins_differ set_contains
  pins_differ-Returns [] linked = (false, refl)
  pins_differ-Returns (o ∷ old) linked =
      let (e, held, link) = linked o.parent (ground arith) in
      let (b, eq) = pins_differ-Returns old (λ p m. linked p (ground (arith, m))) in
      elim (Bool-cases (pins_eq o.pins link.pins)) [
        | inr differ ↦ (true, rw held (rw link.has (rw differ refl)))
        | inl same ↦ (b, rw held (rw link.has (rw same eq)))
      ]
