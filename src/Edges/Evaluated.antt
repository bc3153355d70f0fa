-- ===== src/Edges/Evaluated.antt =====
-- `evaluate` of crates/cc-ledger/src/v1/edges.rs returns for an event whose dependencies are settled,
-- and the parents of what it finds valid are valid.
use clockchain.Prelude.{
  ◌≡◌, refl, ap, ◌∙◌, inl, inr, true, false, ◌&&◌, some, List, [], ◌∷◌, ◌++◌, Bytes, is_empty,
  arith, ◌==◌, Bool-cases, nat_key,
}
use clockchain.Prelude.Table.{lookup, contains_key}
use clockchain.Prelude.Ordered.{set_contains}
use clockchain.Wire.{Hash}
use clockchain.Wire.Event.{Pins, ParentPins, Decision, TargetKind, Payload, Envelope, kind_of}
use clockchain.Wire.Signed.{Signed}
use clockchain.Ledger.{Events, parents_of}
use clockchain.Ledger.Derive.{is_none}
use clockchain.Ledger.Authority.{set_union}
use clockchain.Ledger.Order.{key_held}
use clockchain.Ledger.Totals.{any_of-Returns}
use clockchain.Edges.{
  Cause, Statuses, Subjects, status_invalid, status_pending, is_invalid, is_pending, is_subject,
  is_attestation, is_edge_assert, absent,
}
use clockchain.Edges.Evaluate.{
  is_absent, any_state, other_edge, evaluate_chain, evaluate_reaffirm, evaluate_attestation,
  evaluate_payload, evaluate,
}
use clockchain.Edges.Classify.{edge_dependency, all_settled}
use clockchain.Edges.Standing.{Outcome, absent-known, states_of-Returns}
use clockchain.Edges.Staged.{IsStaged}
use clockchain.Edges.Chain.{
  set_contains-append, assert_of, Linked, other_edge-Returns, other_edge-Linked,
}
use clockchain.Edges.Returned.{
  ParentsValid, no_parents, evaluate_assert-Outcome, evaluate_repeat-Returns, Settled,
  all_settled-Settled,
}
use clockchain.Edges.Kinds.{
  set_contains-last, set_contains-only, plain_kind, plain-subject, union-is_empty,
}

module _ (all : Events) (out : Statuses) (s : Subjects) (t : IsStaged all s out) where
  -- What a reaffirmation waits for has a status.
  dependency_known :
      (e : Envelope) (edge : Hash) (base : Signed)
      → lookup edge all ≡ some base
      → is_attestation (kind_of base.envelope.payload) ≡ false
      → ((p : Hash) → set_contains p e.parents ≡ true → Linked all p)
      → Settled all out s t (e.parents ++ edge ∷ [])
      → (p : Hash) → set_contains p (e.parents ++ edge ∷ []) ≡ true
      → contains_key p out ≡ true
  dependency_known e edge base held plain linked settled p m =
      elim (Bool-cases (set_contains p e.parents)) [
        | inl own ↦ let (f, f_held, link) = linked p own in settled p f m f_held link.edge
        | inr other ↦
            let m' : set_contains p (edge ∷ []) ≡ true =
              ground (arith, set_contains-append p e.parents (edge ∷ []), m, other) in
            let p_eq = set_contains-only p edge m' in
            settled p base m (ap (λ k. lookup k all) p_eq ∙ held) plain
      ]

  evaluate_chain-Outcome :
      (e : Envelope) (edge : Hash) (old : List ParentPins) (new : Pins) (d : Decision)
      → ((p : Hash) → set_contains p (e.parents ++ edge ∷ []) ≡ true → contains_key p all ≡ true)
      → Settled all out s t (e.parents ++ edge ∷ [])
      → Outcome (evaluate_chain all out s e edge old new d) (ParentsValid all out s t e.parents)
  unfolding evaluate_chain
  evaluate_chain-Outcome e edge old new d known settled =
      let in_parents = λ (p : Hash) (m : set_contains p e.parents ≡ true).
        (let k : set_contains p (e.parents ++ edge ∷ []) ≡ true =
            ground (arith, set_contains-append p e.parents (edge ∷ []), m) in
          k) in
      let last : set_contains edge (e.parents ++ edge ∷ []) ≡ true =
        ground (arith, set_contains-append edge e.parents (edge ∷ []), set_contains-last edge) in
      let (base, held) = key_held edge all (known edge last) in
      elim (Bool-cases (is_edge_assert (kind_of base.envelope.payload))) [
        | inr other ↦ (
          status_invalid Cause.wrong_edge,
          rw held (rw other refl),
          λ k. absurd (ground (arith, k)),
        )
        | inl asserts ↦
            let (b, b_eq, all_) =
              any_of-Returns (other_edge all edge) e.parents
                (λ p m. other_edge-Returns all edge p (known p (in_parents p m))) in
            elim (Bool-cases b) [
              | inl wrong ↦ (
                status_invalid Cause.wrong_edge,
                rw held (rw asserts (rw b_eq (rw wrong refl))),
                λ k. absurd (ground (arith, k)),
              )
              | inr right ↦
                  let linked = λ (p : Hash) (m : set_contains p e.parents ≡ true).
                    other_edge-Linked all edge p (all_ right p m) in
                  let (pins, has, plain) = assert_of base.envelope.payload asserts in
                  let classified =
                    λ (p : Hash) (m : set_contains p (e.parents ++ edge ∷ []) ≡ true).
                      dependency_known e edge base held plain linked settled p m in
                  let (states, s_eq, ok) =
                    states_of-Returns out (e.parents ++ edge ∷ []) classified in
                  elim (Bool-cases (any_state is_invalid states)) [
                    | inl bad ↦ (
                      status_invalid Cause.ancestor,
                      rw held (rw asserts (rw b_eq (rw right (rw s_eq (rw bad refl))))),
                      λ k. absurd (ground (arith, k)),
                    )
                    | inr good ↦ elim (Bool-cases (e.author == base.envelope.author)) [
                      | inr another ↦ (
                        status_invalid Cause.edge_author,
                        rw held
                            (rw asserts (rw b_eq (rw right (rw s_eq (rw good (rw another refl)))))),
                        λ k. absurd (ground (arith, k)),
                      )
                      | inl own ↦ elim (Bool-cases (any_state is_pending states)) [
                        | inl waits ↦ (
                          status_pending Cause.ancestor [],
                          rw held (
                              rw asserts
                                (rw b_eq (rw right (rw s_eq (rw good (rw own (rw waits refl))))))),
                          λ k. absurd (ground (arith, k)),
                        )
                        | inr done ↦
                            let valid = λ (p : Hash) (m : set_contains p e.parents ≡ true).
                              ok good done p (in_parents p m) in
                            let (status, eq) =
                              evaluate_repeat-Returns all out s t e pins old new d valid linked in
                            (
                              status,
                              rw held (
                                  rw asserts (
                                    rw b_eq (
                                      rw right
                                        (rw s_eq (rw good (rw own (rw done (rw has eq)))))))),
                              λ _. valid,
                            )
                      ]
                    ]
                  ]
            ]
      ]

  evaluate_reaffirm-Outcome :
      (e : Envelope) (edge : Hash) (old : List ParentPins) (new : Pins) (d : Decision)
      → Settled all out s t (e.parents ++ edge ∷ [])
      → Outcome (evaluate_reaffirm all out s e edge old new d) (ParentsValid all out s t e.parents)
  unfolding evaluate_reaffirm
  evaluate_reaffirm-Outcome e edge old new d settled = elim (Bool-cases (is_empty e.parents)) [
    | inl none_ ↦ (status_invalid Cause.parents, rw none_ refl, λ k. absurd (ground (arith, k)))
    | inr some_ ↦
        elim (Bool-cases (is_empty (set_union [] (absent (e.parents ++ edge ∷ []) all)))) [
          | inr missing ↦ (
            status_pending Cause.parent_missing
                (set_union [] (absent (e.parents ++ edge ∷ []) all)),
            rw some_ (rw missing refl),
            λ k. absurd (ground (arith, k)),
          )
          | inl full ↦
              let gone = union-is_empty (absent (e.parents ++ edge ∷ []) all) full in
              let (status, eq, ok) =
                evaluate_chain-Outcome e edge old new d
                  (λ p m. absent-known (e.parents ++ edge ∷ []) all p gone m) settled in
              (status, rw some_ (rw full eq), ok)
        ]
  ]

  evaluate_attestation-Outcome :
      (e : Envelope) (kind : TargetKind) (target : Hash) (artifact_kind : Bytes)
      → Outcome
          (some (evaluate_attestation all out s e kind target artifact_kind))
          (ParentsValid all out s t e.parents)
  unfolding evaluate_attestation
  evaluate_attestation-Outcome e kind target artifact_kind =
      elim (Bool-cases (is_empty e.parents)) [
        | inr some_ ↦ (status_invalid Cause.parents, rw some_ refl, λ k. absurd (ground (arith, k)))
        | inl none_ ↦ (
          evaluate_attestation all out s e kind target artifact_kind,
          refl,
          λ _. no_parents all out s t e.parents none_,
        )
      ]

  evaluate_payload-Outcome :
      (e : Envelope) (payload : Payload)
      → Settled all out s t (e.parents ++ edge_dependency payload)
      → plain_kind payload ≡ false
      → Outcome (evaluate_payload all out s e payload) (ParentsValid all out s t e.parents)
  unfolding evaluate_payload
  evaluate_payload-Outcome e (Payload.edge_assert relation pins d) settled h =
      evaluate_assert-Outcome all out s t e relation pins d
  evaluate_payload-Outcome e (Payload.edge_reaffirm edge old new d) settled h =
      evaluate_reaffirm-Outcome e edge old new d settled
  evaluate_payload-Outcome e (Payload.attestation kind target artifact_kind _) settled h =
      evaluate_attestation-Outcome e kind target artifact_kind
  evaluate_payload-Outcome e (Payload.genesis _ _ _) settled h = absurd (ground (arith, h))
  evaluate_payload-Outcome e (Payload.correction _ _) settled h = absurd (ground (arith, h))
  evaluate_payload-Outcome e (Payload.delegate _ _ _) settled h = absurd (ground (arith, h))
  evaluate_payload-Outcome e (Payload.revoke _ _ _) settled h = absurd (ground (arith, h))
  evaluate_payload-Outcome e (Payload.resolve _ _ _) settled h = absurd (ground (arith, h))

  -- An edge or media event whose dependencies are settled gets a status, and the parents of a valid
  -- one are valid.
  pub evaluate-Outcome :
      (id : Hash) (e : Signed)
      → lookup id all ≡ some e
      → is_subject e ≡ false
      → all_settled all out (parents_of e ++ edge_dependency e.envelope.payload) ≡ true
      → Outcome (evaluate all out s id) (ParentsValid all out s t (parents_of e))
  unfolding evaluate
  evaluate-Outcome id e held media ready =
      elim (Bool-cases (
        is_none e.envelope.subject
        && (is_absent e.envelope.subject_key
            && (is_none e.envelope.grant && is_absent e.envelope.asserted_time)))) [
              | inr headed ↦ (
                status_invalid Cause.non_subject_header,
                rw held (rw headed refl),
                λ k. absurd (ground (arith, k)),
              )
              | inl bare ↦
                  let settled =
                    all_settled-Settled all out s t
                      (parents_of e ++ edge_dependency e.envelope.payload) ready in
                  let (status, eq, ok) =
                    evaluate_payload-Outcome e.envelope e.envelope.payload settled
                      (plain-subject e media) in
                  (status, rw held (rw bare eq), ok)
            ]
