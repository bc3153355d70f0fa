-- ===== src/Edges/Assertion.antt =====
-- The assertion of an edge that `evaluate` of crates/cc-ledger/src/v1/edges.rs finds valid.
use clockchain.Prelude.{
  is_empty, ◌≡◌, ◌≢◌, ◌↔◌, refl, ap, ◌∙◌, sym, inl, inr, true, false, some, [], ◌++◌, Bytes,
  bytes_eq, bytes_eq_iff, arith, ◌==◌, ==_iff, Bool-cases, Option-cases, nat_key,
}
use clockchain.Prelude.Table.{lookup}
use clockchain.Wire.{Hash}
use clockchain.Wire.Event.{Pins, Decision, Payload, Envelope}
use clockchain.Wire.Signed.{Signed}
use clockchain.Ledger.{Events}
use clockchain.Ledger.Authority.{set_union}
use clockchain.Edges.{
  Status, status_valid, is_valid, Statuses, Subjects, combine_pins, check_pin, check_pins,
}
use clockchain.Edges.Evaluate.{
  disputes, relations, any_equal, check_dispute, evaluate_assert, evaluate_payload, evaluate,
}
use clockchain.Edges.Bound.{IsBound, check_pins-IsBound}
use clockchain.Edges.Decided.{
  IsDecided, header, deciding, tests-IsDecided, IsDecided-header, IsDecided-deciding,
}

-- A valid status of `combine_pins` is the one that the code makes.
combine_pins-exact :
    (a b : Status) → is_valid (combine_pins a b).state ≡ true → combine_pins a b ≡ status_valid
unfolding combine_pins
combine_pins-exact a b h = elim (Bool-cases (is_empty (set_union [] (a.missing ++ b.missing)))) [
  | inl none_ ↦ ground (arith, h, none_)
  | inr some_ ↦ ground (arith, h, some_)
]

-- A dispute is of another subject, by the author of the disputing one.
abbrev pub IsCounterclaim : Events → Envelope → Pins → Type 0
IsCounterclaim all e pins =
    (pins.source.subject ≢ pins.target.subject)
    × (subject : Signed) × (lookup pins.source.subject all ≡ some subject)
    × (subject.envelope.author ≡ e.author)

module _ (all : Events) (out : Statuses) (s : Subjects) where
  pub record IsAssertion (e : Envelope) (relation : Bytes) (pins : Pins) (d : Decision)
      : Type 0 where
    pub decision : IsDecided e pins d
    pub governed : any_equal relation relations ≡ true
    pub source : IsBound all out s pins.source
    pub target : IsBound all out s pins.target
    pub disputing : relation ≡ disputes → IsCounterclaim all e pins

  check_pins-exact :
      (pins : Pins) (status : Status)
      → check_pins all out s pins ≡ some status
      → is_valid status.state ≡ true
      → status ≡ status_valid
  unfolding check_pins
  check_pins-exact pins status h ok = elim (Option-cases (check_pin all out s pins.source)) [
    | inl gone ↦ absurd (let h' = rw gone at h in ground (arith, h'))
    | inr (a, a_eq) ↦
        let h₁ = rw a_eq at h in
        elim (Option-cases (check_pin all out s pins.target)) [
          | inl gone ↦ absurd (let h₂ = rw gone at h₁ in ground (arith, h₂))
          | inr (b, b_eq) ↦
              let h₂ = rw b_eq at h₁ in
              let same : combine_pins a b ≡ status = ground (arith, h₂) in
              let ok' = ap (λ (x : Status). is_valid x.state) same ∙ ok in
              sym same ∙ combine_pins-exact a b ok'
        ]
  ]

  check_dispute-IsCounterclaim :
      (e : Envelope) (relation : Bytes) (pins : Pins)
      → check_dispute all out s e relation pins ≡ some status_valid
      → relation ≡ disputes
      → IsCounterclaim all e pins
  unfolding check_dispute
  check_dispute-IsCounterclaim e relation pins h is =
      let disputing : bytes_eq relation disputes ≡ true = (bytes_eq_iff relation disputes).1 is in
      let h₁ = rw disputing at h in
      elim (Bool-cases (pins.source.subject == pins.target.subject)) [
        | inl same ↦ absurd (let h₂ = rw same at h₁ in ground (arith, h₂))
        | inr differ ↦
            let h₂ = rw differ at h₁ in
            elim (Option-cases (lookup pins.source.subject all)) [
              | inl gone ↦ absurd (let h₃ = rw gone at h₂ in ground (arith, h₃))
              | inr (subject, held) ↦
                  let h₃ = rw held at h₂ in
                  (
                    λ same. ground (arith, differ, same),
                    subject,
                    held,
                    (==_iff subject.envelope.author e.author).0 (ground (arith, h₃)),
                  )
            ]
      ]

  IsCounterclaim-check_dispute :
      (e : Envelope) (relation : Bytes) (pins : Pins)
      → (relation ≡ disputes → IsCounterclaim all e pins)
      → check_dispute all out s e relation pins ≡ some status_valid
  unfolding check_dispute
  IsCounterclaim-check_dispute e relation pins h = elim (Bool-cases (bytes_eq relation disputes)) [
    | inr other ↦ rw other refl
    | inl disputing ↦
        let (apart, subject, held, author) = h ((bytes_eq_iff relation disputes).0 disputing) in
        let differ : (pins.source.subject == pins.target.subject) ≡ false =
          ground (arith, apart, ==_iff pins.source.subject pins.target.subject) in
        let same : (subject.envelope.author == e.author) ≡ true =
          (==_iff subject.envelope.author e.author).1 author in
        rw disputing (rw differ (rw held (rw same refl)))
  ]

  evaluate_assert-IsAssertion :
      (e : Envelope) (relation : Bytes) (pins : Pins) (d : Decision)
      → header e ≡ true
      → evaluate_assert all out s e relation pins d ≡ some status_valid
      → IsAssertion e relation pins d
  unfolding evaluate_assert
  evaluate_assert-IsAssertion e relation pins d head h = elim (Bool-cases (is_empty e.parents)) [
    | inr some_ ↦ absurd (let h₁ = rw some_ at h in ground (arith, h₁))
    | inl no_parents ↦
        let h₁ = rw no_parents at h in
        elim (Bool-cases (deciding e pins d)) [
          | inr other ↦ absurd (let h₂ = rw other at h₁ in ground (arith, h₂))
          | inl decides ↦
              let h₂ = rw decides at h₁ in
              elim (Bool-cases (any_equal relation relations)) [
                | inr other ↦ absurd (let h₃ = rw other at h₂ in ground (arith, h₃))
                | inl governed ↦
                    let h₃ = rw governed at h₂ in
                    elim (Option-cases (check_pins all out s pins)) [
                      | inl gone ↦ absurd (let h₄ = rw gone at h₃ in ground (arith, h₄))
                      | inr (status, eq) ↦
                          let h₄ = rw eq at h₃ in
                          elim (Bool-cases (is_valid status.state)) [
                            | inr other ↦
                                absurd (let h₅ = rw other at h₄ in ground (arith, h₅, other))
                            | inl ok ↦
                                let h₅ = rw ok at h₄ in
                                let (source, target) =
                                  (check_pins-IsBound all out s pins).0
                                    (eq ∙ ap some (check_pins-exact pins status eq ok)) in
                                record {
                                  decision = tests-IsDecided e pins d head no_parents decides;
                                  governed = governed;
                                  source = source;
                                  target = target;
                                  disputing = check_dispute-IsCounterclaim e relation pins h₅;
                                }
                          ]
                    ]
              ]
        ]
  ]

  IsAssertion-evaluate_assert :
      (e : Envelope) (relation : Bytes) (pins : Pins) (d : Decision)
      → IsAssertion e relation pins d
      → evaluate_assert all out s e relation pins d ≡ some status_valid
  unfolding evaluate_assert
  IsAssertion-evaluate_assert e relation pins d a =
      let no_parents : is_empty e.parents ≡ true = ground (arith, a.decision.parents) in
      let decides : deciding e pins d ≡ true = IsDecided-deciding e pins d a.decision in
      let bound = (check_pins-IsBound all out s pins).1 (a.source, a.target) in
      rw no_parents (
        rw decides
          (rw a.governed (rw bound (IsCounterclaim-check_dispute e relation pins a.disputing))))

  -- `evaluate` answers that an event which asserts an edge is valid exactly when it has no subject
  -- header and no parents, its decision is about exactly its pins, its relation is governed, both pins
  -- say what the ledger says, and a dispute is of another subject by the author of the disputing one.
  pub evaluate-IsAssertion :
      (id : Hash) (event : Signed) (relation : Bytes) (pins : Pins) (d : Decision)
      → lookup id all ≡ some event
      → event.envelope.payload ≡ Payload.edge_assert relation pins d
      → (evaluate all out s id ≡ some status_valid) ↔ IsAssertion event.envelope relation pins d
  unfolding evaluate evaluate_payload evaluate_assert check_dispute
  evaluate-IsAssertion id event relation pins d held is = (
    λ h.
        let h₁ = rw held at h in
        elim (Bool-cases (header event.envelope)) [
          | inr other ↦ absurd (let h₂ = rw other at h₁ in ground (arith, h₂))
          | inl head ↦
              let h₂ = rw head at h₁ in
              let h₃ = rw is at h₂ in
              evaluate_assert-IsAssertion event.envelope relation pins d head h₃
        ],
    λ a.
        let head = IsDecided-header event.envelope pins d a.decision in
        rw held (rw head (rw is (IsAssertion-evaluate_assert event.envelope relation pins d a))),
  )
