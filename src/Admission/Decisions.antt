-- ===== src/Admission/Decisions.antt =====
-- A genesis event, and the decision of an event whose parents are valid, in `evaluate` of
-- crates/cc-ledger/src/v1.rs.
use clockchain.Prelude.{
  ℕ, ◌≡◌, refl, ap, ◌∙◌, sym, inl, inr, true, false, not, ◌&&◌, none, some, [], ◌∷◌, is_empty,
  arith, Bool-cases, Option-cases, if◌then◌else◌, nat_key,
}
use clockchain.Prelude.Table.{lookup}
use clockchain.Prelude.Ordered.{set_contains}
use clockchain.Wire.{Hash}
use clockchain.Wire.Event.{kind_of, decision_of}
use clockchain.Wire.Signed.{Crypto, Signed}
use clockchain.Ledger.{Events, parents_of, choice_of}
use clockchain.Edges.{
  Cause, Statuses, status_valid, status_invalid, status_pending, is_genesis, is_subject,
}
use clockchain.Edges.Evaluate.{is_absent, decided}
use clockchain.Admission.{is_authority, same_kind, genesis_header, evaluate_decision}
use clockchain.Admission.Past.{IsAdmitted, IsAuthorized}
use clockchain.Admission.Views.{GrantsApart}
use clockchain.Admission.Founded.{IsFounded, creates-HasBody, genesis-Acts}
use clockchain.Edges.Standing.{accepted, Outcome}
use clockchain.Admission.Authorized.{evaluate_authority-Outcome}
use clockchain.Admission.Parents.{genesis_payload}

module _ {SecretKey : Type 0} (crypto : Crypto SecretKey) (all : Events) (rank : Hash → ℕ)
    (out : Statuses) (a : IsAdmitted crypto all rank out) (apart : GrantsApart crypto all)
    (id : Hash) (e : Signed) (held : lookup id all ≡ some e) (sub : is_subject e ≡ true) where
  -- What a valid event is.
  abbrev pub Admits : Type 0
  Admits =
      IsFounded crypto all out id e
      × (is_genesis (kind_of e.envelope.payload) ≡ false → IsAuthorized crypto all e)

  pub genesis-Outcome :
      is_genesis (kind_of e.envelope.payload) ≡ true
      → Outcome
          (some (if genesis_header e.envelope then status_valid else status_invalid Cause.genesis))
          Admits
  unfolding choice_of set_contains
  genesis-Outcome g = elim (Bool-cases (genesis_header e.envelope)) [
    | inr wrong ↦ (status_invalid Cause.genesis, rw wrong refl, λ ok. absurd (ground (arith, ok)))
    | inl right ↦
        let (n, b, ev, is) = genesis_payload e.envelope.payload g in
        let no_grant : e.envelope.grant ≡ none = ground (arith, right) in
        let no_parents : parents_of e ≡ [] = ground (arith, right) in
        (
          status_valid,
          rw right refl,
          λ _. (
            record {
              parents = λ p m.
                  let m' = ap (set_contains p) (sym no_parents) ∙ m in absurd (ground (arith, m'));
              acts = genesis-Acts crypto all id e n b ev is no_grant held;
              body = creates-HasBody crypto all e b (ap choice_of is);
            },
            λ h. absurd (ground (arith, g, h)),
          ),
        )
  ]

  pub evaluate_decision-Outcome :
      (subject grant : Hash)
      → ((p : Hash) → set_contains p (parents_of e) ≡ true → accepted out p ≡ true)
      → is_empty (parents_of e) ≡ false
      → e.envelope.subject ≡ some subject
      → e.envelope.grant ≡ some grant
      → Outcome (evaluate_decision crypto all e.envelope subject grant) Admits
  unfolding evaluate_decision
  evaluate_decision-Outcome subject grant ok some_ at_ named =
      elim (Option-cases (lookup subject all)) [
        | inl gone ↦ (
          status_pending Cause.subject_missing (subject ∷ []),
          rw (gone, evaluate_decision) refl,
          λ k. absurd (ground (arith, k)),
        )
        | inr (genesis, g_held) ↦
            elim (Bool-cases (is_genesis (kind_of genesis.envelope.payload))) [
              | inr other ↦ (
                status_invalid Cause.wrong_subject,
                rw (g_held, evaluate_decision) (rw other refl),
                λ k. absurd (ground (arith, k)),
              )
              | inl first_ ↦ elim (Option-cases (decision_of e.envelope.payload)) [
                | inl none_ ↦ (
                  status_invalid Cause.decision_missing,
                  rw (g_held, evaluate_decision) (rw first_ (rw (none_, evaluate_decision) refl)),
                  λ k. absurd (ground (arith, k)),
                )
                | inr (d, has) ↦
                    elim (Bool-cases
                      (same_kind d.kind (kind_of e.envelope.payload) && decided d (parents_of e))) [
                        | inr wrong ↦ (
                          status_invalid Cause.decision_mismatch,
                          rw (g_held, evaluate_decision)
                              (rw first_ (rw (has, evaluate_decision) (rw wrong refl))),
                          λ k. absurd (ground (arith, k)),
                        )
                        | inl right ↦
                            elim (Bool-cases (
                              is_authority (kind_of e.envelope.payload)
                              && not (is_absent e.envelope.asserted_time))) [
                                | inl timed ↦ (
                                  status_invalid Cause.authority_time_edit,
                                  rw (g_held, evaluate_decision)
                                      (rw first_
                                        (rw (has, evaluate_decision) (rw right (rw timed refl)))),
                                  λ k. absurd (ground (arith, k)),
                                )
                                | inr untimed ↦
                                    let (status, eq, admits) =
                                      evaluate_authority-Outcome crypto all rank out a apart id e
                                        held ok grant subject d sub some_ at_ named has in
                                    (
                                      status,
                                      rw (g_held, evaluate_decision)
                                          (rw first_ (
                                            rw (has, evaluate_decision)
                                              (rw right (rw untimed eq)))),
                                      λ k.
                                          let (founded, authorized) = admits k in
                                          (founded, λ _. authorized),
                                    )
                              ]
                      ]
              ]
            ]
      ]
