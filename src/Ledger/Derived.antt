-- ===== src/Ledger/Derived.antt =====
-- `derive` of crates/cc-ledger/src/v1/authority.rs on a governed ledger.
use clockchain.Prelude.{
  ap, ℕ, ◌≡◌, ◌⊎◌, refl, ap₂, ◌∙◌, sym, inl, inr, Bool, true, false, Option, some, [], ◌∷◌, length,
  arith, ◌==◌, ==_iff, Bool-cases, nat_key,
}
use clockchain.Prelude.Table.{lookup, contains_key, IsDistinct}
use clockchain.Prelude.Ordered.{set_contains}
use clockchain.Wire.{Hash}
use clockchain.Wire.Event.{Payload, Decision}
use clockchain.Wire.Signed.{Crypto, Signed}
use clockchain.Ledger.{Events, parents_of}
use clockchain.Ledger.Authority.{
  Grant, Authority, Lineages, Revocations, add_revocation, revocations, covers, outside, signer,
  trace, traced, lineages,
}
use clockchain.Ledger.Derive.{derive}
use clockchain.Ledger.Order.{key_held, later}
use clockchain.Ledger.Rounds.{Takes}
use clockchain.Ledger.Schedule.{schedule-takes}
use clockchain.Ledger.Selections.{set_contains-first}
use clockchain.Ledger.Totals.{IsTraced}
use clockchain.Ledger.Active.{derive_from-IsRuled}
use clockchain.Ledger.Governed.{Makes, IsGoverned, IsMade}
use clockchain.Ledger.Lineage.{IsLineage}
use clockchain.Ledger.Trace.{trace-Returns}

-- A revocation that is collected comes from an event.
add_revocation-found :
    (id : Hash) (payload : Payload) (rest : Revocations) (r : Hash) (target : Hash) (cascade : Bool)
    → lookup r (add_revocation id payload rest) ≡ some (target, cascade)
    → ((id ≡ r) × ((d : Decision) × (payload ≡ Payload.revoke target cascade d)))
      ⊎ (lookup r rest ≡ some (target, cascade))
unfolding add_revocation lookup
add_revocation-found id (Payload.revoke t c d) rest r target cascade h =
    elim (Bool-cases (id == r)) [
      | inl same ↦
          let h' = rw same at h in
          let both : ◌≡◌ {A = Option (Hash × Bool)} (some (t, c)) (some (target, cascade)) = h' in
          let t_eq : t ≡ target = ground (arith, both) in
          let c_eq : c ≡ cascade = ground (arith, both) in
          inl ((==_iff id r).0 same, (d, ap₂ (λ x y. Payload.revoke x y d) t_eq c_eq))
      | inr differ ↦ let h' = rw differ at h in inr h'
    ]
add_revocation-found id (Payload.genesis _ _ _) rest r target cascade h = inr h
add_revocation-found id _ rest r target cascade h = inr h

revocations-found :
    (items : Events) (r : Hash) (target : Hash) (cascade : Bool)
    → IsDistinct items
    → lookup r (revocations items) ≡ some (target, cascade)
    → (e : Signed) × (d : Decision) × (lookup r items ≡ some e)
      × (e.envelope.payload ≡ Payload.revoke target cascade d)
unfolding revocations lookup
revocations-found [] r target cascade d h = absurd (ground (arith, h))
revocations-found ((id, e) ∷ items) r target cascade d h =
    elim (add_revocation-found id e.envelope.payload (revocations items) r target cascade h) [
      | inl (id_eq, (decision, p)) ↦ (e, decision, ground (arith, id_eq), p)
      | inr h' ↦
          let (f, decision, held, p) = revocations-found items r target cascade d.1 h' in
          (f, decision, later id r e f items d held, p)
    ]

module _ {SecretKey : Type 0} (crypto : Crypto SecretKey) (valid : Events) (rank : Hash → ℕ)
    (gov : IsGoverned crypto valid rank) where
  trace-Takes :
      Takes valid traced
        (trace crypto)
        (λ (l : Lineages). length l.ancestors)
        (IsLineage crypto valid)
  trace-Takes = record {
    takes = λ id e l held inv new ready.
        let (l', eq, (inv', adds, size)) =
          trace-Returns crypto valid rank id e l gov held inv new ready in
        (l', eq, inv', adds, size);
  }

  abbrev empty : Lineages
  empty = record { ancestors = []; lineage = []; grants = [] }

  empty-IsLineage : IsLineage crypto valid empty
  unfolding lookup
  empty-IsLineage = record {
    closed = λ x e p h. absurd (ground (arith, h));
    made = λ y f g grant h. absurd (ground (arith, h));
    same = λ g. refl;
    origin = λ g grant i h. absurd (ground (arith, h));
    owned = λ g grant h. absurd (ground (arith, h));
  }

  untraced : (x : Hash) → traced x empty ≡ false
  unfolding lookup
  untraced x = refl

  path_made :
      (l : Lineages)
      → IsLineage crypto valid l
      → ((x : Hash) → contains_key x valid ≡ true → traced x l ≡ true)
      → (g : Hash) → IsMade crypto valid g
      → contains_key g l.lineage ≡ true
  path_made l inv all g (y, f, grant, held, makes) =
      inv.made y f g grant (all y (ground (arith, held))) held makes

  lineages-IsTraced :
      (l : Lineages) × (lineages crypto valid ≡ some l)
      × IsTraced crypto valid (revocations valid) l
      × IsLineage crypto valid l
  unfolding lineages
  lineages-IsTraced =
      let (l, eq, inv, all) =
        schedule-takes valid traced (trace crypto) (λ l. length l.ancestors)
          (IsLineage crypto valid) trace-Takes rank empty gov.ordered empty-IsLineage refl
          untraced in
      let is_path =
        λ (g : Hash) (m : IsMade crypto valid g). path_made l inv (λ x. (all x).1) g m in
      (
        l,
        eq,
        record {
          past = λ x known. (all x).1 known;
          paths = λ g known. sym (inv.same g) ∙ known;
          signers = λ x e held. is_path (signer crypto x e) (gov.signed x e held);
          revoking = λ r known.
              let ((target, cascade), r_held) = key_held r (revocations valid) known in
              let (e, d, held, p) =
                revocations-found valid r target cascade gov.ordered.distinct r_held in
              let (parent, parent_eq, _) = gov.revoked r e target cascade d held p in
              (
                e,
                parent,
                held,
                parent_eq,
                gov.ordered.known r e parent held
                    (set_contains-first parent (parents_of e) parent_eq),
              );
          targets = λ r target cascade r_held.
              let (e, d, held, p) =
                revocations-found valid r target cascade gov.ordered.distinct r_held in
              let (_, _, m) = gov.revoked r e target cascade d held p in
              inv.same target ∙ is_path target m;
          issuers = inv.origin;
        },
        inv,
      )

  -- What is read from the authority of a governed ledger.
  pub record IsView (a : Authority) : Type 0 where
    pub known : (g : Hash) → set_contains g a.active ≡ true → contains_key g a.grants ≡ true
    pub owned :
        (g : Hash) (grant : Grant)
        → lookup g a.grants ≡ some grant
        → (y : Hash) × (f : Signed) × (lookup y valid ≡ some f) × Makes crypto valid y f g grant
    pub issuers :
        (g : Hash) (grant : Grant) (i : Hash)
        → lookup g a.grants ≡ some grant
        → grant.issuer ≡ some i
        → contains_key i a.grants ≡ true
    pub effective : (x : Hash) → contains_key x valid ≡ true → contains_key x a.effects ≡ true

  pub derive-IsView : (a : Authority) × (derive crypto valid ≡ some a) × IsView a
  unfolding derive
  derive-IsView =
      let (l, l_eq, t, inv) = lineages-IsTraced in
      let (a, a_eq, ruled) =
        derive_from-IsRuled crypto valid (revocations valid) l t rank gov.ordered in
      let here_ = λ (g : Hash) (grant : Grant) (held : lookup g a.grants ≡ some grant).
        ap (lookup g) (sym ruled.made) ∙ held in
      (
        a,
        rw l_eq a_eq,
        record {
          known = ruled.known;
          owned = λ g grant held. inv.owned g grant (here_ g grant held);
          issuers = λ g grant i held issuer.
              let path = inv.origin g grant i (here_ g grant held) issuer in
              ap (contains_key i) ruled.made ∙ (inv.same i ∙ path);
          effective = ruled.ruled;
        },
      )

  -- The authority of a governed ledger is found: the loops end and no index fails. An active grant is
  -- one that was made; no effective revocation covers it; and each effective revocation that covers
  -- its issuer has the event that issued it in its past. Every event has an effect.
  pub derive-active :
      (l : Lineages) × (a : Authority) × (lineages crypto valid ≡ some l)
      × (derive crypto valid ≡ some a)
      × ((g : Hash)
          → set_contains g a.active ≡ true
          → (contains_key g a.grants ≡ true)
            × ((r : Hash)
                → set_contains r a.effective_revokes ≡ true
                → covers (revocations valid) l r g ≡ some false)
            × ((grant : Grant) (i : Hash) (r : Hash)
                → lookup g a.grants ≡ some grant
                → grant.issuer ≡ some i
                → set_contains r a.effective_revokes ≡ true
                → covers (revocations valid) l r i ≡ some true
                → outside valid l grant.issued_by_event r ≡ some false))
      × ((x : Hash) → contains_key x valid ≡ true → contains_key x a.effects ≡ true)
  unfolding derive
  derive-active =
      let (l, l_eq, t, _) = lineages-IsTraced in
      let (a, a_eq, ruled) =
        derive_from-IsRuled crypto valid (revocations valid) l t rank gov.ordered in
      (
        l,
        a,
        l_eq,
        rw l_eq a_eq,
        λ g m. (
          ruled.known g m,
          λ r k. ruled.uncovered g r m k,
          λ grant i r held issuer k covered.
              let both = ruled.unopposed g grant i m held issuer r k in
              let both' = rw covered at both in both',
        ),
        ruled.ruled,
      )
