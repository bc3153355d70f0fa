-- ===== src/Admission/Checks.antt =====
-- `evaluate` of crates/cc-ledger/src/v1.rs returns on each kind of payload, and what it finds valid is
-- founded in the past.
use clockchain.Prelude.{
  ℕ, ◌≡◌, refl, ap, ◌∙◌, subst, inl, inr, Bool, true, not, ◌&&◌, some, [], arith, ◌==◌, ==_iff,
  Bool-cases, if◌then◌else◌, nat_key,
}
use clockchain.Prelude.Table.{lookup}
use clockchain.Prelude.Ordered.{set_contains}
use clockchain.Wire.{Hash}
use clockchain.Wire.Event.{kind_of, decision_of, Payload, Decision}
use clockchain.Wire.Signed.{Crypto, Signed}
use clockchain.Ledger.{Events, parents_of, choice_of, first}
use clockchain.Ledger.Authority.{Authority, grant_made}
use clockchain.Ledger.Parts.{MadeBefore}
use clockchain.Edges.{Cause, Statuses, status_valid, status_invalid, is_subject}
use clockchain.Admission.Payloads.{
  Context, is_body, is_active_grant, is_revoked_grant, check_correction, check_delegate,
  check_revoke, check_by_kind,
}
use clockchain.Admission.Past.{IsAdmitted}
use clockchain.Admission.Union.{IsUnion}
use clockchain.Admission.Scope.{in_scope-Returns}
use clockchain.Admission.Bodies.{body-Returns}
use clockchain.Admission.Views.{GrantsApart, ViewOf, grant_rank, view-Falls, view-MadeBefore}
use clockchain.Edges.Standing.{accepted, Outcome}
use clockchain.Admission.Founded.{
  IsFounded, creates-HasBody, inherits-HasBody, plain-Acts, delegate-Acts,
}
use clockchain.Admission.Resolved.{parent_mem, made_before, own_grant, check_resolve-Outcome}

module _ {SecretKey : Type 0} (crypto : Crypto SecretKey) (all : Events) (rank : Hash → ℕ)
    (out : Statuses) (a : IsAdmitted crypto all rank out) (apart : GrantsApart crypto all)
    (id : Hash) (e : Signed) (held : lookup id all ≡ some e)
    (ok : (p : Hash) → set_contains p (parents_of e) ≡ true → accepted out p ≡ true)
    (union : Events) (u : IsUnion crypto all rank (parents_of e) [] union) (view : Authority)
    (v : ViewOf crypto all rank union u.part view) (grant : Hash)
    (named : e.envelope.grant ≡ some grant) (active : set_contains grant view.active ≡ true)
    (parent : Hash) (p_eq : first (parents_of e) ≡ some parent) where
  abbrev context : Context
  context = record { all = all; past = union; view = view }

  check_correction-Outcome :
      (new_body : Hash) (d : Decision)
      → e.envelope.payload ≡ Payload.correction new_body d
      → Outcome
          (check_correction crypto context e.envelope grant parent new_body d)
          (IsFounded crypto all out id e)
  unfolding check_correction grant_made choice_of
  check_correction-Outcome new_body d is =
      let (old, eq) = body-Returns crypto all rank out a parent (
        ok parent (
          parent_mem crypto all rank out a apart id e held ok union u view v grant named active
            parent p_eq)) in
      (
        if not (is_body d.old old && is_body d.new new_body)
            then status_invalid Cause.decision_mismatch
            else status_valid,
        rw eq refl,
        λ _. record {
          parents = ok;
          acts =
              plain-Acts crypto all id e grant named
                (own_grant crypto all rank out a apart id e held ok union u view v grant named
                  active parent p_eq)
                (ap (grant_made crypto id e) is)
                (λ target cascade k h. absurd (ground (arith, is, h)));
          body = creates-HasBody crypto all e new_body (ap choice_of is);
        },
      )

  check_delegate-Outcome :
      (grantee issuer subject : Hash) (d : Decision)
      → e.envelope.payload ≡ Payload.delegate grantee issuer d
      → e.envelope.subject ≡ some subject
      → Outcome
          (some (check_delegate crypto context e.envelope grant grantee issuer d))
          (IsFounded crypto all out id e)
  unfolding check_delegate choice_of
  check_delegate-Outcome grantee issuer subject d is named_subject = (
    _,
    refl,
    λ ok'. elim (Bool-cases (issuer == grant)) [
      | inr other ↦ absurd (let ok'' = rw other at ok' in ground (arith, ok''))
      | inl same ↦
          let issuer_eq = (==_iff issuer grant).0 same in
          let is' = is ∙ ap (λ (g : Hash). Payload.delegate grantee g d) issuer_eq in
          let (p, m, before) =
            view-MadeBefore crypto all rank id e held union u view v grant (v.known grant active) in
          record {
            parents = ok;
            acts =
                delegate-Acts crypto all id e grant grantee subject p d is' named_subject named
                  (own_grant crypto all rank out a apart id e held ok union u view v grant named
                    active parent p_eq)
                  m before;
            body = inherits-HasBody crypto all e parent p_eq (ap choice_of is);
          }
    ],
  )

  check_revoke-Outcome :
      (target : Hash) (cascade : Bool) (d : Decision)
      → e.envelope.payload ≡ Payload.revoke target cascade d
      → Outcome
          (check_revoke crypto context e.envelope grant target cascade d)
          (IsFounded crypto all out id e)
  unfolding check_revoke grant_made choice_of
  check_revoke-Outcome target cascade d is = elim (Bool-cases (set_contains target view.active)) [
    | inr gone ↦
        (status_invalid Cause.revocation_scope, rw gone refl, λ ok'. absurd (ground (arith, ok')))
    | inl here_ ↦
        let known = v.known target here_ in
        let (b, eq) =
          in_scope-Returns view (grant_rank crypto all rank union u.part view v)
            (view-Falls crypto all rank union u.part view v apart) grant target known in
        (
          if not b
              then status_invalid Cause.revocation_scope
              else if not (is_active_grant d.old target && is_revoked_grant d.new target cascade)
              then status_invalid Cause.decision_mismatch
              else status_valid,
          rw here_ (rw eq refl),
          λ _. record {
            parents = ok;
            acts =
                plain-Acts crypto all id e grant named
                  (own_grant crypto all rank out a apart id e held ok union u view v grant named
                    active parent p_eq)
                  (ap (grant_made crypto id e) is)
                  (λ t c k h.
                    let same : target ≡ t = ground (arith, is, h) in
                    (
                      parent,
                      p_eq,
                      subst (MadeBefore crypto all id) same (
                          (made_before crypto all rank out a apart id e held ok union u view v grant
                              named active parent p_eq)
                            target known),
                    ));
            body = inherits-HasBody crypto all e parent p_eq (ap choice_of is);
          },
        )
  ]

  -- Of a subject event that has a decision, each kind of payload is checked.
  pub check_by_kind-Outcome :
      (payload : Payload) (subject : Hash) (d : Decision)
      → e.envelope.payload ≡ payload
      → e.envelope.subject ≡ some subject
      → decision_of payload ≡ some d
      → is_subject e ≡ true
      → Outcome
          (check_by_kind crypto context e.envelope grant parent payload)
          (IsFounded crypto all out id e)
  unfolding check_by_kind decision_of is_subject kind_of
  check_by_kind-Outcome (Payload.correction b d) s d' is at_ has sub =
      check_correction-Outcome b d is
  check_by_kind-Outcome (Payload.delegate g i d) s d' is at_ has sub =
      check_delegate-Outcome g i s d is at_
  check_by_kind-Outcome (Payload.revoke t c d) s d' is at_ has sub = check_revoke-Outcome t c d is
  check_by_kind-Outcome (Payload.resolve c ds d) s d' is at_ has sub =
      check_resolve-Outcome crypto all rank out a apart id e held ok union u view v grant named
        active parent p_eq c ds d is
  check_by_kind-Outcome (Payload.genesis _ _ _) s d' is at_ has sub = absurd (ground (arith, has))
  check_by_kind-Outcome (Payload.edge_assert _ _ _) s d' is at_ has sub =
      absurd (ground (arith, is, sub))
  check_by_kind-Outcome (Payload.edge_reaffirm _ _ _ _) s d' is at_ has sub =
      absurd (ground (arith, is, sub))
  check_by_kind-Outcome (Payload.attestation _ _ _ _) s d' is at_ has sub =
      absurd (ground (arith, has))
