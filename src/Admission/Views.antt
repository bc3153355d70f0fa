-- ===== src/Admission/Views.antt =====
-- The authority of the past of an event, in `evaluate` of crates/cc-ledger/src/v1.rs: its grants are
-- made in the past, each after the one that issued it.
use clockchain.Prelude.{ℕ, ◌≡◌, refl, ap, ◌∙◌, sym, inl, inr, true, none, some, [], arith, nat_key}
use clockchain.Prelude.Table.{lookup, contains_key}
use clockchain.Prelude.Ordered.{set_contains}
use clockchain.Wire.{Hash}
use clockchain.Wire.Event.{Payload}
use clockchain.Wire.Signed.{Crypto, Signed}
use clockchain.Ledger.{Events, parents_of}
use clockchain.Ledger.Authority.{Grant, Authority, grant_made}
use clockchain.Ledger.Search.{here, there}
use clockchain.Ledger.Order.{key_held}
use clockchain.Ledger.Governed.{Makes}
use clockchain.Ledger.Derived.{IsView}
use clockchain.Ledger.Places.{place}
use clockchain.Ledger.Parts.{MadeBefore, IsPart, part-IsGoverned, part-Reaches_le}
use clockchain.Admission.Past.{Reaches-trans}
use clockchain.Admission.Scope.{Falls}
use clockchain.Admission.Union.{IsUnion}

module _ {SecretKey : Type 0} (crypto : Crypto SecretKey) (all : Events) where
  -- No two events make one grant: the id of a delegation is not a root grant.
  abbrev pub GrantsApart : Type 0
  GrantsApart =
      (x y : Hash) (e f : Signed) (g : Hash) (a b : Grant)
      → lookup x all ≡ some e
      → lookup y all ≡ some f
      → Makes crypto all x e g a
      → Makes crypto all y f g b
      → x ≡ y

  -- A grant says which event made it.
  issued_by :
      (x : Hash) (e : Signed) (payload : Payload) (g : Hash) (a : Grant)
      → grant_made crypto x e payload ≡ some (some (g, a))
      → a.issued_by_event ≡ x
  unfolding grant_made
  issued_by x e (Payload.genesis _ _ _) g a h = ground (arith, h)
  issued_by x e (Payload.delegate grantee issuer _) g a h = ground (arith, h)
  issued_by x e (Payload.correction _ _) g a h = absurd (ground (arith, h))
  issued_by x e (Payload.revoke _ _ _) g a h = absurd (ground (arith, h))
  issued_by x e (Payload.resolve _ _ _) g a h = absurd (ground (arith, h))
  issued_by x e (Payload.edge_assert _ _ _) g a h = absurd (ground (arith, h))
  issued_by x e (Payload.edge_reaffirm _ _ _ _) g a h = absurd (ground (arith, h))
  issued_by x e (Payload.attestation _ _ _ _) g a h = absurd (ground (arith, h))

  module _ (rank : Hash → ℕ) where
    -- The authority of a part.
    abbrev pub ViewOf : (part : Events) → IsPart crypto all rank part → Authority → Type 0
    ViewOf part w view =
        IsView crypto part (λ x. place rank part (rank x)) (part-IsGoverned crypto all rank part w)
          view

    module _ (part : Events) (w : IsPart crypto all rank part) (view : Authority)
        (v : ViewOf part w view) where
      -- The rank of the event that made a grant.
      abbrev pub grant_rank : Hash → ℕ
      grant_rank g = elim (lookup g view.grants) [
        | none ↦ 0
        | some grant ↦ rank grant.issued_by_event
      ]

      grant_rank_lem :
          (g : Hash) (grant : Grant)
          → lookup g view.grants ≡ some grant
          → grant_rank g ≡ rank grant.issued_by_event
      grant_rank_lem g grant held = rw (held, grant_rank) refl

      pub view-Falls : GrantsApart → Falls view grant_rank
      view-Falls apart g grant i held issuer =
          let (y, f, y_held, makes) = v.owned g grant held in
          let (p, m, (z, h, by_, r, z_held, z_makes)) =
            (w.acts y f y_held).issued g grant i makes issuer in
          let known = v.issuers g grant i held issuer in
          let (given, i_held) = key_held i view.grants known in
          let (z', h', z'_held, z'_makes) = v.owned i given i_held in
          let same = apart z z' h h' i by_ given z_held (w.within z' h' z'_held) z_makes z'_makes in
          let by_y = ap rank (issued_by y f f.envelope.payload g grant makes) in
          let by_z = ap rank (issued_by z' h' h'.envelope.payload i given z'_makes ∙ sym same) in
          let low = part-Reaches_le crypto all rank part w p z (w.closed y f p y_held m) r in
          let lower = w.ranked y f p y_held m in
          (
            known,
            omega (
              arith,
              by_y,
              by_z,
              low,
              lower,
              grant_rank_lem g grant held,
              grant_rank_lem i given i_held,
            ),
          )

  module _ (rank : Hash → ℕ) (id : Hash) (e : Signed) (held : lookup id all ≡ some e)
      (union : Events) (u : IsUnion crypto all rank (parents_of e) [] union) (view : Authority)
      (v : ViewOf rank union u.part view) where
    -- A grant of the past is made in the past of a parent.
    pub view-MadeBefore :
        (g : Hash)
        → contains_key g view.grants ≡ true
        → (p : Hash) × (set_contains p (parents_of e) ≡ true) × MadeBefore crypto all p g
    unfolding lookup
    view-MadeBefore g known =
        let (grant, g_held) = key_held g view.grants known in
        let (y, f, y_held, makes) = v.owned g grant g_held in
        elim (u.reached y (ground (arith, y_held))) [
          | inl none_ ↦ absurd (ground (arith, none_))
          | inr (p, m, r) ↦ (p, m, (y, f, grant, r, u.part.within y f y_held, makes))
        ]

    pub parent-MadeBefore :
        (p g : Hash)
        → set_contains p (parents_of e) ≡ true
        → MadeBefore crypto all p g
        → MadeBefore crypto all id g
    parent-MadeBefore p g m (y, f, grant, r, y_held, makes) =
        (y, f, grant, Reaches-trans all id p y (there here held m) r, y_held, makes)
