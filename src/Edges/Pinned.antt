-- ===== src/Edges/Pinned.antt =====
-- `check_pins` of crates/cc-ledger/src/v1/edges.rs returns once subject events are classified.
use clockchain.Prelude.{
  ◌≡◌, refl, subst, inl, inr, true, not, some, List, [], ◌∷◌, is_empty, arith, ◌==◌, ==_iff,
  Bool-cases, if◌then◌else◌, nat_key,
}
use clockchain.Prelude.Table.{lookup, contains_key}
use clockchain.Prelude.Ordered.{set_contains}
use clockchain.Wire.{Hash}
use clockchain.Wire.Event.{Pin, Pins}
use clockchain.Ledger.{Events}
use clockchain.Ledger.Order.{key_held}
use clockchain.Ledger.Totals.{Returns}
use clockchain.Edges.{
  State, Cause, Status, Statuses, Subjects, status_valid, status_invalid, status_pending, is_valid,
  is_subject, absent, dedup, check_revision, misplaced, check_basis, check_pin, combine_pins,
  check_pins,
}
use clockchain.Edges.Bound.{check_pin-IsBound, combine_pins-valid}
use clockchain.Edges.Standing.{accepted, absent-known}
use clockchain.Edges.Staged.{IsStaged}

dedup-is_empty : (xs : List Hash) → is_empty (dedup xs) ≡ true → is_empty xs ≡ true
unfolding dedup
dedup-is_empty [] h = refl
dedup-is_empty (x ∷ xs) h = absurd (ground (arith, h))

is_valid-eq : (x : State) → is_valid x ≡ true → x ≡ State.valid
is_valid-eq State.valid h = refl
is_valid-eq State.invalid h = absurd (ground (arith, h))
is_valid-eq State.pending h = absurd (ground (arith, h))

module _ (all : Events) (out : Statuses) (s : Subjects) (t : IsStaged all s out) where
  check_revision-Returns :
      (pin : Pin) (state : State)
      → (state ≡ State.valid
          → (r : Hash) × (lookup pin.basis s.selected ≡ some r)
            × (contains_key r s.revisions ≡ true))
      → Returns (check_revision all out s pin state)
  unfolding check_revision
  check_revision-Returns pin State.invalid h = (status_invalid Cause.pin_invalid, refl)
  check_revision-Returns pin State.pending h = (status_pending Cause.pin_pending [], refl)
  check_revision-Returns pin State.valid h =
      let (r, selected, known) = h refl in
      elim (Bool-cases (r == pin.revision)) [
        | inr differ ↦ (status_invalid Cause.pin_revision, rw selected (rw differ refl))
        | inl same ↦
            let (revision, at_) = key_held pin.revision s.revisions (
              subst (λ (k : Hash). contains_key k s.revisions ≡ true)
                ((==_iff r pin.revision).0 same) known) in
            (
              if not (revision.body == pin.body)
                  then status_invalid Cause.pin_body
                  else status_valid,
              rw selected (rw same (rw at_ refl)),
            )
      ]

  check_basis-Returns :
      (pin : Pin)
      → contains_key pin.subject all ≡ true
      → contains_key pin.basis all ≡ true
      → Returns (check_basis all out s pin)
  unfolding check_basis misplaced
  check_basis-Returns pin subject_known basis_known =
      let (basis, basis_held) = key_held pin.basis all basis_known in
      let (subject, subject_held) = key_held pin.subject all subject_known in
      elim (Bool-cases (misplaced pin subject basis)) [
        | inl wrong ↦
            (status_invalid Cause.pin_subject, rw basis_held (rw subject_held (rw wrong refl)))
        | inr right ↦
            let sub : is_subject basis ≡ true = ground (arith, right) in
            let (status, at_) =
              key_held pin.basis out (t.subjects pin.basis basis basis_held sub) in
            let (found, eq) = check_revision-Returns pin status.state (λ v.
              let ok : accepted out pin.basis ≡ true = ground (arith, at_, v) in
              t.selects pin.basis basis ok basis_held sub) in
            (found, rw basis_held (rw subject_held (rw right (rw at_ eq))))
      ]

  check_pin-Returns : (pin : Pin) → Returns (check_pin all out s pin)
  unfolding check_pin set_contains
  check_pin-Returns pin =
      let ends : List Hash = pin.subject ∷ pin.basis ∷ [] in
      elim (Bool-cases (is_empty (dedup (absent (pin.subject ∷ pin.basis ∷ []) all)))) [
        | inr missing ↦ (
          status_pending Cause.pin_missing (dedup (absent (pin.subject ∷ pin.basis ∷ []) all)),
          rw missing refl,
        )
        | inl none_ ↦
            let gone = dedup-is_empty (absent ends all) none_ in
            let subject_in : set_contains pin.subject ends ≡ true = ground arith in
            let basis_in : set_contains pin.basis ends ≡ true = ground arith in
            let (found, eq) =
              check_basis-Returns pin (absent-known ends all pin.subject gone subject_in)
                (absent-known ends all pin.basis gone basis_in) in
            (found, rw none_ eq)
      ]

  -- The check of two pins returns, and if they are valid, the source has a known subject.
  pub check_pins-Returns :
      (pins : Pins)
      → (status : Status) × (check_pins all out s pins ≡ some status)
        × (is_valid status.state ≡ true → contains_key pins.source.subject all ≡ true)
  unfolding check_pins
  check_pins-Returns pins =
      let (a, a_eq) = check_pin-Returns pins.source in
      let (b, b_eq) = check_pin-Returns pins.target in
      (
        combine_pins a b,
        rw a_eq (rw b_eq refl),
        λ v.
            let ok : (combine_pins a b).state ≡ State.valid =
              is_valid-eq (combine_pins a b).state v in
            let bound =
              check_pin-IsBound all out s pins.source a a_eq (combine_pins-valid a b ok).0 in
            let held = bound.subject_held in ground (arith, held),
      )
