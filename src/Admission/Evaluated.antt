-- ===== src/Admission/Evaluated.antt =====
-- `evaluate` of crates/cc-ledger/src/v1.rs returns for an event that is ready, and what it finds valid
-- is founded and authorized.
use clockchain.Prelude.{
  ℕ, ◌≡◌, refl, ap, ◌∙◌, inl, inr, true, false, ◌||◌, Option, some, List, [], is_empty, arith,
  Bool-cases, Option-cases, nat_key,
}
use clockchain.Prelude.Table.{lookup, contains_key}
use clockchain.Prelude.Ordered.{set_contains}
use clockchain.Wire.{Hash}
use clockchain.Wire.Event.{kind_of}
use clockchain.Wire.Signed.{Crypto, Signed}
use clockchain.Ledger.{Events, parents_of, ◌>>=◌, any_absent}
use clockchain.Ledger.Order.{any_absent-taken}
use clockchain.Edges.{
  State, Cause, Status, Statuses, status_invalid, status_pending, is_invalid, is_pending,
  is_genesis, is_subject, absent,
}
use clockchain.Edges.Evaluate.{any_state}
use clockchain.Admission.{
  no_precision, wrong_count, no_header, evaluate_parents, evaluate_child, evaluate_header,
  evaluate_subject,
}
use clockchain.Admission.Classify.{is_ready}
use clockchain.Admission.Past.{IsAdmitted}
use clockchain.Admission.Views.{GrantsApart}
use clockchain.Edges.Standing.{accepted, Outcome, absent-known, states_of-Returns}
use clockchain.Admission.Parents.{not_subject-Returns, check_parents-Returns}
use clockchain.Admission.Decisions.{Admits, genesis-Outcome, evaluate_decision-Outcome}

module _ {SecretKey : Type 0} (crypto : Crypto SecretKey) (all : Events) (rank : Hash → ℕ)
    (out : Statuses) (a : IsAdmitted crypto all rank out) (apart : GrantsApart crypto all)
    (id : Hash) (e : Signed) (held : lookup id all ≡ some e) (sub : is_subject e ≡ true) where
  evaluate_parents-Outcome :
      (subject grant : Hash) (states : List State)
      → ((p : Hash) → set_contains p (parents_of e) ≡ true → contains_key p all ≡ true)
      → (any_state is_invalid states ≡ false
          → any_state is_pending states ≡ false
          → (p : Hash) → set_contains p (parents_of e) ≡ true
          → accepted out p ≡ true)
      → is_empty (parents_of e) ≡ false
      → e.envelope.subject ≡ some subject
      → e.envelope.grant ≡ some grant
      → Outcome
          (evaluate_parents crypto all e.envelope subject grant states)
          (Admits crypto all rank out a apart id e held sub)
  unfolding evaluate_parents
  evaluate_parents-Outcome subject grant states known ok some_ at_ named =
      elim (Bool-cases (any_state is_invalid states)) [
        | inl bad ↦ (status_invalid Cause.ancestor, rw bad refl, λ k. absurd (ground (arith, k)))
        | inr good ↦
            let (mismatch, eq) =
              check_parents-Returns all subject e.envelope.subject_key (parents_of e) known in
            elim (Option-cases mismatch) [
              | inr (cause, is) ↦ (
                status_invalid cause,
                rw good (rw eq (rw is refl)),
                λ k. absurd (ground (arith, k)),
              )
              | inl none_ ↦ elim (Bool-cases (any_state is_pending states)) [
                | inl waits ↦ (
                  status_pending Cause.ancestor [],
                  rw good (rw eq (rw none_ (rw waits refl))),
                  λ k. absurd (ground (arith, k)),
                )
                | inr done ↦
                    let (status, s_eq, admits) =
                      evaluate_decision-Outcome crypto all rank out a apart id e held sub subject
                        grant (ok good done) some_ at_ named in
                    (status, rw good (rw eq (rw none_ (rw done s_eq))), admits)
              ]
            ]
      ]

  evaluate_child-Outcome :
      (subject grant : Hash)
      → is_ready all out e ≡ true
      → is_genesis (kind_of e.envelope.payload) ≡ false
      → is_empty (parents_of e) ≡ false
      → e.envelope.subject ≡ some subject
      → e.envelope.grant ≡ some grant
      → Outcome
          (evaluate_child crypto all out e.envelope subject grant)
          (Admits crypto all rank out a apart id e held sub)
  unfolding evaluate_child is_ready
  evaluate_child-Outcome subject grant ready plain some_ at_ named =
      elim (Bool-cases (is_empty (absent (parents_of e) all))) [
        | inr missing ↦ (
          status_pending Cause.parent_missing (absent (parents_of e) all),
          rw missing refl,
          λ k. absurd (ground (arith, k)),
        )
        | inl none_ ↦
            let known = λ (p : Hash) (m : set_contains p (parents_of e) ≡ true).
              absent-known (parents_of e) all p none_ m in
            let (b, eq, own) = not_subject-Returns all (parents_of e) known in
            elim (Bool-cases b) [
              | inl other ↦ (
                status_invalid Cause.wrong_subject,
                rw none_ (rw eq (rw other refl)),
                λ k. absurd (ground (arith, k)),
              )
              | inr subjects ↦
                  let taken : any_absent contains_key (parents_of e) out ≡ false =
                    ground (arith, ready, plain, own subjects) in
                  let (states, s_eq, ok) =
                    states_of-Returns out (parents_of e)
                      (λ p m. any_absent-taken contains_key (parents_of e) out p taken m) in
                  let (status, e_eq, admits) =
                    evaluate_parents-Outcome subject grant states known ok some_ at_ named in
                  (status, rw none_ (rw eq (rw subjects (rw s_eq e_eq))), admits)
            ]
      ]

  header_step :
      (subject grant : Hash) (status : Status)
      → (is_empty (parents_of e) || wrong_count (kind_of e.envelope.payload) (parents_of e)) ≡ false
      → no_header e.envelope ≡ false
      → e.envelope.subject ≡ some subject
      → e.envelope.grant ≡ some grant
      → evaluate_child crypto all out e.envelope subject grant ≡ some status
      → evaluate_header crypto all out e.envelope ≡ some status
  unfolding evaluate_header
  header_step subject grant status right full at_ named eq = rw right (
      rw full (
        ap
          (λ (s : Option Hash).
            s >>= (λ t. e.envelope.grant >>= (λ g. evaluate_child crypto all out e.envelope t g)))
          at_
        ∙ (ap (λ (g : Option Hash). g >>= (λ h. evaluate_child crypto all out e.envelope subject h))
              named
            ∙ eq)))

  evaluate_header-Outcome :
      is_ready all out e ≡ true
      → is_genesis (kind_of e.envelope.payload) ≡ false
      → Outcome
          (evaluate_header crypto all out e.envelope)
          (Admits crypto all rank out a apart id e held sub)
  unfolding evaluate_header
  evaluate_header-Outcome ready plain =
      elim (Bool-cases
        (is_empty (parents_of e) || wrong_count (kind_of e.envelope.payload) (parents_of e))) [
          | inl wrong ↦
              (status_invalid Cause.parents, rw wrong refl, λ k. absurd (ground (arith, k)))
          | inr right ↦ elim (Bool-cases (no_header e.envelope)) [
            | inl bare ↦ (
              status_invalid Cause.subject_header,
              rw right (rw bare refl),
              λ k. absurd (ground (arith, k)),
            )
            | inr full ↦ elim (Option-cases e.envelope.subject) [
              | inl none_ ↦ absurd (ground (arith, full, none_))
              | inr (subject, at_) ↦ elim (Option-cases e.envelope.grant) [
                | inl none_ ↦ absurd (ground (arith, full, none_))
                | inr (grant, named) ↦
                    let (status, eq, admits) =
                      evaluate_child-Outcome subject grant ready plain (ground (arith, right)) at_
                        named in
                    (status, header_step subject grant status right full at_ named eq, admits)
              ]
            ]
          ]
        ]

  -- An event that is ready gets a status, and a valid one is founded and authorized.
  pub evaluate_subject-Outcome :
      is_ready all out e ≡ true
      → Outcome
          (evaluate_subject crypto all out id)
          (Admits crypto all rank out a apart id e held sub)
  unfolding evaluate_subject
  evaluate_subject-Outcome ready = elim (Bool-cases (no_precision e.envelope.asserted_time)) [
    | inl bad ↦
        (status_invalid Cause.precision, rw held (rw bad refl), λ k. absurd (ground (arith, k)))
    | inr good ↦ elim (Bool-cases (is_genesis (kind_of e.envelope.payload))) [
      | inl first_ ↦
          let (status, eq, admits) =
            genesis-Outcome crypto all rank out a apart id e held sub first_ in
          (status, rw held (rw good (rw first_ eq)), admits)
      | inr plain ↦
          let (status, eq, admits) = evaluate_header-Outcome ready plain in
          (status, rw held (rw good (rw plain eq)), admits)
    ]
  ]
