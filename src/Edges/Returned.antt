-- ===== src/Edges/Returned.antt =====
-- The parts of `evaluate` in crates/cc-ledger/src/v1/edges.rs: an assertion, what a reaffirmation
-- repeats, and the dependencies that are settled.
use clockchain.Prelude.{
  ◌≡◌, refl, ap, ◌∙◌, sym, inl, inr, true, false, not, ◌&&◌, ◌||◌, some, List, [], ◌∷◌, Bytes,
  is_empty, arith, ◌==◌, ==_iff, Bool-cases, if◌then◌else◌, nat_key, bytes_eq, bytes_eq_sound,
}
use clockchain.Prelude.Table.{lookup, contains_key}
use clockchain.Prelude.Ordered.{set_contains}
use clockchain.Wire.{Hash}
use clockchain.Wire.Event.{Pins, ParentPins, Decision, Envelope, kind_of}
use clockchain.Wire.Signed.{Signed}
use clockchain.Ledger.{Events}
use clockchain.Ledger.Order.{key_held}
use clockchain.Ledger.Totals.{Returns}
use clockchain.Edges.{
  Cause, Statuses, Subjects, status_valid, status_invalid, is_valid, is_attestation, is_edge_assert,
  is_edge_reaffirm,
}
use clockchain.Edges.Evaluate.{
  disputes, relations, any_equal, is_nothing, is_pins, is_parent_pins, decided, or_else,
  parents_pinned, pins_differ, check_dispute, evaluate_assert, evaluate_repeat,
}
use clockchain.Edges.Classify.{is_settled, all_settled}
use clockchain.Edges.Standing.{accepted, Outcome}
use clockchain.Edges.Staged.{IsStaged, accepted-cone}
use clockchain.Edges.Pinned.{check_pins-Returns}
use clockchain.Edges.Chain.{Linked, comparable-Returns, pins_differ-Returns}

module _ (all : Events) (out : Statuses) (s : Subjects) (t : IsStaged all s out) where
  -- The parents of an event are valid.
  abbrev pub ParentsValid : List Hash → Type 0
  ParentsValid ps = (p : Hash) → set_contains p ps ≡ true → accepted out p ≡ true

  pub no_parents : (ps : List Hash) → is_empty ps ≡ true → ParentsValid ps
  unfolding set_contains
  no_parents [] h p m = absurd (ground (arith, m))
  no_parents (x ∷ xs) h p m = absurd (ground (arith, h))

  check_dispute-Returns :
      (e : Envelope) (relation : Bytes) (pins : Pins)
      → contains_key pins.source.subject all ≡ true
      → Returns (check_dispute all out s e relation pins)
  unfolding check_dispute
  check_dispute-Returns e relation pins known = elim (Bool-cases (bytes_eq relation disputes)) [
    | inr other ↦ (status_valid, rw other refl)
    | inl dispute ↦ elim (Bool-cases (pins.source.subject == pins.target.subject)) [
      | inl same ↦ (status_invalid Cause.dispute_counterclaim, rw dispute (rw same refl))
      | inr apart ↦
          let (subject, held) = key_held pins.source.subject all known in
          (
            if not (subject.envelope.author == e.author)
                then status_invalid Cause.dispute_counterclaim
                else status_valid,
            rw dispute (rw apart (rw held refl)),
          )
    ]
  ]

  pub evaluate_assert-Outcome :
      (e : Envelope) (relation : Bytes) (pins : Pins) (d : Decision)
      → Outcome (evaluate_assert all out s e relation pins d) (ParentsValid e.parents)
  unfolding evaluate_assert
  evaluate_assert-Outcome e relation pins d = elim (Bool-cases (is_empty e.parents)) [
    | inr some_ ↦ (status_invalid Cause.parents, rw some_ refl, λ k. absurd (ground (arith, k)))
    | inl none_ ↦
        let fine = no_parents e.parents none_ in
        elim (Bool-cases (
          is_edge_assert d.kind
          && (decided d e.parents && (is_nothing d.old && is_pins d.new pins)))) [
            | inr wrong ↦
                (status_invalid Cause.decision_mismatch, rw none_ (rw wrong refl), λ _. fine)
            | inl right ↦ elim (Bool-cases (any_equal relation relations)) [
              | inr wild ↦
                  (status_invalid Cause.relation, rw none_ (rw right (rw wild refl)), λ _. fine)
              | inl governed ↦
                  let (status, eq, known) = check_pins-Returns all out s t pins in
                  elim (Bool-cases (is_valid status.state)) [
                    | inr bad ↦
                        (status, rw none_ (rw right (rw governed (rw eq (rw bad refl)))), λ _. fine)
                    | inl ok ↦
                        let (found, f_eq) = check_dispute-Returns e relation pins (known ok) in
                        (found, rw none_ (rw right (rw governed (rw eq (rw ok f_eq)))), λ _. fine)
                  ]
            ]
          ]
  ]

  differ-Returns :
      (ps : List Hash) (old : List ParentPins)
      → ((p : Hash) → set_contains p ps ≡ true → Linked all p)
      → Returns (or_else (some (not (bytes_eq (parents_pinned old) ps))) (pins_differ all old))
  differ-Returns ps old linked = elim (Bool-cases (bytes_eq (parents_pinned old) ps)) [
    | inr other ↦ (true, rw other refl)
    | inl same ↦
        let ps_eq = bytes_eq_sound (parents_pinned old) ps same in
        let (b, eq) =
          pins_differ-Returns all old (λ p m. linked p (ap (set_contains p) (sym ps_eq) ∙ m)) in
        (b, rw same eq)
  ]

  pub evaluate_repeat-Returns :
      (e : Envelope) (base : Pins) (old : List ParentPins) (new : Pins) (d : Decision)
      → ParentsValid e.parents
      → ((p : Hash) → set_contains p e.parents ≡ true → Linked all p)
      → Returns (evaluate_repeat all out s e base old new d)
  unfolding evaluate_repeat
  evaluate_repeat-Returns e base old new d ok linked =
      let (same, same_eq) =
        comparable-Returns all e.parents (λ p m. accepted-cone all s out t p (ok p m)) in
      elim (Bool-cases same) [
        | inl related ↦ (status_invalid Cause.comparable_parents, rw same_eq (rw related refl))
        | inr unrelated ↦
            elim (Bool-cases (
              new.source.subject == base.source.subject
              && new.target.subject == base.target.subject)) [
                | inr moved ↦ (
                  status_invalid Cause.endpoint_changed,
                  rw same_eq (rw unrelated (rw moved refl)),
                )
                | inl still ↦
                    let (differ, d_eq) = differ-Returns e.parents old linked in
                    let (status, s_eq, _) = check_pins-Returns all out s t new in
                    elim (Bool-cases (
                      differ
                      || not (
                          is_edge_reaffirm d.kind
                          && (decided d e.parents
                              && (is_parent_pins d.old old && is_pins d.new new))))) [
                                | inl wrong ↦ (
                                  status_invalid Cause.decision_mismatch,
                                  rw same_eq (rw unrelated (rw still (rw d_eq (rw wrong refl)))),
                                )
                                | inr right ↦ (
                                  status,
                                  rw same_eq (rw unrelated (rw still (rw d_eq (rw right s_eq)))),
                                )
                              ]
              ]
      ]

  -- Every dependency has a status, or is media.
  abbrev pub Settled : List Hash → Type 0
  Settled ds =
      (d : Hash) (e : Signed)
      → set_contains d ds ≡ true
      → lookup d all ≡ some e
      → is_attestation (kind_of e.envelope.payload) ≡ false
      → contains_key d out ≡ true

  pub all_settled-Settled : (ds : List Hash) → all_settled all out ds ≡ true → Settled ds
  unfolding all_settled is_settled set_contains
  all_settled-Settled [] h d e m held plain = absurd (ground (arith, m))
  all_settled-Settled (x ∷ ds) h d e m held plain = elim (Bool-cases (d == x)) [
    | inr differ ↦
        all_settled-Settled ds (ground (arith, h)) d e (ground (arith, m, differ)) held plain
    | inl same ↦
        let d_eq = (==_iff d x).0 same in
        let x_held = ap (λ k. lookup k all) (sym d_eq) ∙ held in
        let known : contains_key x out ≡ true = ground (arith, h, x_held, plain) in
        ap (λ k. contains_key k out) d_eq ∙ known
  ]
