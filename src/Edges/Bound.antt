-- ===== src/Edges/Bound.antt =====
-- The pins that check_pins of crates/cc-ledger/src/v1/edges.rs finds valid.
use clockchain.Prelude.{
  is_empty, ◌≡◌, ◌↔◌, ◌⊎◌, refl, ap, ◌∙◌, inl, inr, true, false, Option, some, [], ◌∷◌, ◌++◌, arith,
  ◌==◌, ==_iff, Bool-cases, Option-cases, nat_key,
}
use clockchain.Prelude.Table.{lookup, contains_key}
use clockchain.Wire.Event.{Pin, Pins, kind_of}
use clockchain.Wire.Signed.{Signed}
use clockchain.Ledger.{Events, Revision, unwrap_or}
use clockchain.Ledger.Authority.{set_union}
use clockchain.Edges.{
  State, Status, status_valid, is_invalid, is_pending, Statuses, is_genesis, is_subject, Subjects,
  absent, dedup, check_revision, misplaced, check_basis, check_pin, combine_pins, check_pins,
}

state_cases : (x : State) → (x ≡ State.valid) ⊎ ((is_invalid x ≡ true) ⊎ (is_pending x ≡ true))
state_cases State.valid = inl refl
state_cases State.invalid = inr (inl refl)
state_cases State.pending = inr (inr refl)

pub combine_pins-valid :
    (a b : Status)
    → (combine_pins a b).state ≡ State.valid
    → (a.state ≡ State.valid) × (b.state ≡ State.valid)
unfolding combine_pins
combine_pins-valid a b h = elim (Bool-cases (is_empty (set_union [] (a.missing ++ b.missing)))) [
  | inl none_ ↦ elim (state_cases a.state) [
    | inr (inl a_bad) ↦ absurd (ground (arith, h, a_bad, none_))
    | inr (inr a_open) ↦ absurd (ground (arith, h, a_open, none_))
    | inl a_ok ↦ elim (state_cases b.state) [
      | inl b_ok ↦ (a_ok, b_ok)
      | inr (inl b_bad) ↦ absurd (ground (arith, h, a_ok, b_bad, none_))
      | inr (inr b_open) ↦ absurd (ground (arith, h, a_ok, b_open, none_))
    ]
  ]
  | inr some_ ↦ absurd (ground (arith, h, some_))
]

combined :
    ◌≡◌ {A = Option Status} (some (combine_pins status_valid status_valid)) (some status_valid)
unfolding combine_pins set_union
combined = refl

module _ (all : Events) (out : Statuses) (s : Subjects) where
  -- A pin says what the ledger says: its subject is a genesis event, its basis a valid event of that
  -- subject which selects the pinned revision, and the revision has the pinned body.
  pub record IsBound (pin : Pin) : Type 0 where
    pub subject : Signed
    pub basis : Signed
    pub status : Status
    pub revision : Revision
    pub subject_held : lookup pin.subject all ≡ some subject
    pub basis_held : lookup pin.basis all ≡ some basis
    pub status_held : lookup pin.basis out ≡ some status
    pub selects : lookup pin.basis s.selected ≡ some pin.revision
    pub revision_held : lookup pin.revision s.revisions ≡ some revision
    pub starts : is_genesis (kind_of subject.envelope.payload) ≡ true
    pub about : is_subject basis ≡ true
    pub same_subject : unwrap_or basis.envelope.subject pin.basis ≡ pin.subject
    pub admitted : status.state ≡ State.valid
    pub same_body : revision.body ≡ pin.body

  -- What a valid revision of a pin is.
  abbrev pub Selects : Pin → Type 0
  Selects pin =
      (revision : Revision) × (lookup pin.basis s.selected ≡ some pin.revision)
      × (lookup pin.revision s.revisions ≡ some revision)
      × (revision.body ≡ pin.body)

  check_revision-Selects :
      (pin : Pin) (state : State) (status : Status)
      → check_revision all out s pin state ≡ some status
      → status.state ≡ State.valid
      → (state ≡ State.valid) × Selects pin
  unfolding check_revision
  check_revision-Selects pin State.invalid status h v = absurd (ground (arith, h, v))
  check_revision-Selects pin State.pending status h v = absurd (ground (arith, h, v))
  check_revision-Selects pin State.valid status h v =
      elim (Option-cases (lookup pin.basis s.selected)) [
        | inl gone ↦ absurd (let h' = rw gone at h in ground (arith, h'))
        | inr (r, held) ↦
            let h₁ = rw held at h in
            elim (Bool-cases (r == pin.revision)) [
              | inr differ ↦ absurd (let h₂ = rw differ at h₁ in ground (arith, h₂, v))
              | inl same ↦
                  let h₂ = rw same at h₁ in
                  elim (Option-cases (lookup pin.revision s.revisions)) [
                    | inl gone ↦ absurd (let h₃ = rw gone at h₂ in ground (arith, h₃))
                    | inr (revision, at_) ↦
                        let h₃ = rw at_ at h₂ in
                        elim (Bool-cases (revision.body == pin.body)) [
                          | inr differ ↦ absurd (let h₄ = rw differ at h₃ in ground (arith, h₄, v))
                          | inl same_body ↦ (
                            refl,
                            (
                              revision,
                              held ∙ ap some ((==_iff r pin.revision).0 same),
                              at_,
                              (==_iff revision.body pin.body).0 same_body,
                            ),
                          )
                        ]
                  ]
            ]
      ]

  Selects-check_revision :
      (pin : Pin) → Selects pin → check_revision all out s pin State.valid ≡ some status_valid
  unfolding check_revision
  Selects-check_revision pin (revision, held, at_, same) =
      let r_same : (pin.revision == pin.revision) ≡ true =
        (==_iff pin.revision pin.revision).1 refl in
      let body_same : (revision.body == pin.body) ≡ true = (==_iff revision.body pin.body).1 same in
      rw held (rw r_same (rw at_ (rw body_same refl)))

  check_basis-IsBound :
      (pin : Pin) (status : Status)
      → check_basis all out s pin ≡ some status
      → status.state ≡ State.valid
      → IsBound pin
  unfolding check_basis misplaced
  check_basis-IsBound pin status h v = elim (Option-cases (lookup pin.basis all)) [
    | inl gone ↦ absurd (let h' = rw gone at h in ground (arith, h'))
    | inr (basis, basis_held) ↦
        let h₁ = rw basis_held at h in
        elim (Option-cases (lookup pin.subject all)) [
          | inl gone ↦ absurd (let h₂ = rw gone at h₁ in ground (arith, h₂))
          | inr (subject, subject_held) ↦
              let h₂ = rw subject_held at h₁ in
              elim (Bool-cases (misplaced pin subject basis)) [
                | inl wrong ↦ absurd (let h₃ = rw wrong at h₂ in ground (arith, h₃, v))
                | inr right ↦
                    let h₃ = rw right at h₂ in
                    elim (Option-cases (lookup pin.basis out)) [
                      | inl gone ↦ absurd (let h₄ = rw gone at h₃ in ground (arith, h₄))
                      | inr (found, status_held) ↦
                          let h₄ = rw status_held at h₃ in
                          let (admitted, (revision, held, at_, same)) =
                            check_revision-Selects pin found.state status h₄ v in
                          record {
                            subject = subject;
                            basis = basis;
                            status = found;
                            revision = revision;
                            subject_held = subject_held;
                            basis_held = basis_held;
                            status_held = status_held;
                            selects = held;
                            revision_held = at_;
                            starts = ground (arith, right);
                            about = ground (arith, right);
                            same_subject =
                                (==_iff (unwrap_or basis.envelope.subject pin.basis) pin.subject).0
                                  (ground (arith, right));
                            admitted = admitted;
                            same_body = same;
                          }
                    ]
              ]
        ]
  ]

  IsBound-check_basis : (pin : Pin) → IsBound pin → check_basis all out s pin ≡ some status_valid
  unfolding check_basis misplaced
  IsBound-check_basis pin b =
      let about : (unwrap_or b.basis.envelope.subject pin.basis == pin.subject) ≡ true =
        (==_iff (unwrap_or b.basis.envelope.subject pin.basis) pin.subject).1 b.same_subject in
      let right : misplaced pin b.subject b.basis ≡ false = rw (b.starts, b.about, about) refl in
      let found =
        Selects-check_revision pin (b.revision, b.selects, b.revision_held, b.same_body) in
      rw b.basis_held (rw b.subject_held (rw right (rw b.status_held (rw b.admitted found))))

  pub check_pin-IsBound :
      (pin : Pin) (status : Status)
      → check_pin all out s pin ≡ some status
      → status.state ≡ State.valid
      → IsBound pin
  unfolding check_pin
  check_pin-IsBound pin status h v =
      elim (Bool-cases (is_empty (dedup (absent (pin.subject ∷ pin.basis ∷ []) all)))) [
        | inl known ↦ let h' = rw known at h in check_basis-IsBound pin status h' v
        | inr missing ↦ absurd (let h' = rw missing at h in ground (arith, h', v))
      ]

  IsBound-check_pin : (pin : Pin) → IsBound pin → check_pin all out s pin ≡ some status_valid
  unfolding check_pin absent dedup
  IsBound-check_pin pin b =
      let subject_known : contains_key pin.subject all ≡ true = ground (arith, b.subject_held) in
      let basis_known : contains_key pin.basis all ≡ true = ground (arith, b.basis_held) in
      rw subject_known (rw basis_known (IsBound-check_basis pin b))

  -- `check_pins` answers that the pins of an edge are valid exactly when both say what the ledger
  -- says: the subject is a genesis event; the basis is a valid event of that subject, and selects the
  -- pinned revision; and the revision has the pinned body.
  pub check_pins-IsBound :
      (pins : Pins)
      → (check_pins all out s pins ≡ some status_valid)
        ↔ (IsBound pins.source × IsBound pins.target)
  unfolding check_pins
  check_pins-IsBound pins = (
    λ h. elim (Option-cases (check_pin all out s pins.source)) [
      | inl gone ↦ absurd (let h' = rw gone at h in ground (arith, h'))
      | inr (a, a_eq) ↦
          let h₁ = rw a_eq at h in
          elim (Option-cases (check_pin all out s pins.target)) [
            | inl gone ↦ absurd (let h₂ = rw gone at h₁ in ground (arith, h₂))
            | inr (b, b_eq) ↦
                let h₂ = rw b_eq at h₁ in
                let same : combine_pins a b ≡ status_valid = ground (arith, h₂) in
                let (a_ok, b_ok) = combine_pins-valid a b (ap (λ (x : Status). x.state) same) in
                (
                  check_pin-IsBound pins.source a a_eq a_ok,
                  check_pin-IsBound pins.target b b_eq b_ok,
                )
          ]
    ],
    λ (a, b). rw (IsBound-check_pin pins.source a) (rw (IsBound-check_pin pins.target b) combined),
  )
