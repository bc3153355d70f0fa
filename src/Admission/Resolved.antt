-- ===== src/Admission/Resolved.antt =====
-- A resolution in `evaluate` of crates/cc-ledger/src/v1.rs: what it selects is made in its past.
use clockchain.Prelude.{
  ℕ, ◌≡◌, refl, ap, ◌∙◌, sym, subst, inl, inr, true, not, ◌&&◌, ◌||◌, some, List, [], bytes_eq,
  bytes_eq_sound, arith, Bool-cases, Option-cases, if◌then◌else◌, nat_key,
}
use clockchain.Prelude.Table.{lookup, contains_key}
use clockchain.Prelude.Ordered.{set_contains}
use clockchain.Wire.{Hash}
use clockchain.Wire.Event.{Payload, Decision, Selection, Disposition}
use clockchain.Wire.Signed.{Crypto, Signed}
use clockchain.Ledger.{Events, parents_of, choice_of, Revision, first, revisions}
use clockchain.Ledger.Authority.{Authority, grant_made}
use clockchain.Ledger.Derive.{is_eligible}
use clockchain.Ledger.Search.{Reaches}
use clockchain.Ledger.Order.{key_held}
use clockchain.Ledger.Totals.{Returns}
use clockchain.Ledger.Parts.{MadeBefore}
use clockchain.Ledger.Selections.{set_contains-first}
use clockchain.Edges.{Cause, Statuses, status_valid, status_invalid}
use clockchain.Edges.Evaluate.{is_absent}
use clockchain.Admission.Payloads.{
  Context, is_heads, is_selection, parents_disposed, any_unreasoned, is_selected, is_merged,
  any_action, any_unrelated, check_selected, check_selection, check_resolve,
}
use clockchain.Admission.Past.{MadeInPast, HasBody, IsAdmitted}
use clockchain.Admission.Union.{IsUnion}
use clockchain.Admission.Views.{GrantsApart, ViewOf, view-MadeBefore, parent-MadeBefore}
use clockchain.Admission.Revised.{or_else-Returns, revisions-IsMadeBy, any_unrelated-Returns}
use clockchain.Edges.Standing.{accepted, Outcome}
use clockchain.Admission.Founded.{IsFounded, creates-HasBody, chooses-HasBody, plain-Acts}

module _ {SecretKey : Type 0} (crypto : Crypto SecretKey) (all : Events) (rank : Hash → ℕ)
    (out : Statuses) (a : IsAdmitted crypto all rank out) (apart : GrantsApart crypto all)
    (id : Hash) (e : Signed) (held : lookup id all ≡ some e)
    (ok : (p : Hash) → set_contains p (parents_of e) ≡ true → accepted out p ≡ true)
    (union : Events) (u : IsUnion crypto all rank (parents_of e) [] union) (view : Authority)
    (v : ViewOf crypto all rank union u.part view) (grant : Hash)
    (named : e.envelope.grant ≡ some grant) (active : set_contains grant view.active ≡ true)
    (parent : Hash) (p_eq : first (parents_of e) ≡ some parent) where
  abbrev context : Context
  context = record { all = all; past = union; view = view }

  pub parent_mem : set_contains parent (parents_of e) ≡ true
  parent_mem = set_contains-first parent (parents_of e) p_eq

  pub made_before : (g : Hash) → contains_key g view.grants ≡ true → MadeBefore crypto all id g
  made_before g known =
      let (p, m, made) = view-MadeBefore crypto all rank id e held union u view v g known in
      parent-MadeBefore crypto all rank id e held union u view v p g m made

  pub own_grant : MadeBefore crypto all id grant
  own_grant = made_before grant (v.known grant active)

  from_parent :
      (x : Hash)
      → contains_key x union ≡ true
      → (p : Hash) × (set_contains p (parents_of e) ≡ true) × Reaches all p x
  unfolding lookup
  from_parent x known = elim (u.reached x known) [
    | inl none_ ↦ absurd (ground (arith, none_))
    | inr reach ↦ reach
  ]

  -- A revision that the past makes.
  chosen_known :
      (r : Hash) (made : Revision)
      → lookup r (revisions crypto union) ≡ some made
      → MadeInPast crypto all e r × (contains_key made.creating_event union ≡ true)
  chosen_known r made h =
      let (x, f, b, f_held, makes, own, at_) =
        revisions-IsMadeBy crypto union r made u.part.distinct h in
      let known : contains_key x union ≡ true = ground (arith, f_held) in
      let created = subst (λ (y : Hash). contains_key y union ≡ true) (sym at_) known in
      let (p, m, reach) = from_parent made.creating_event created in
      ((p, made, m, reach, (x, f, b, u.part.within x f f_held, makes, own, at_)), created)

  check_selected-Returns :
      (ds : List Disposition) (r : Revision)
      → parents_disposed ds ≡ parents_of e
      → contains_key r.creating_event union ≡ true
      → Returns (check_selected crypto context e.envelope grant ds r)
  unfolding check_selected
  check_selected-Returns ds r same known =
      let (effect, eq) =
        key_held r.creating_event view.effects (v.effective r.creating_event known) in
      elim (Bool-cases (is_eligible effect.reason)) [
        | inr buried ↦ (status_invalid Cause.revision_ineligible, rw eq (rw buried refl))
        | inl alive ↦ elim (Bool-cases (is_absent e.envelope.asserted_time)) [
          | inr timed ↦ (status_invalid Cause.selection_time_edit, rw eq (rw alive (rw timed refl)))
          | inl untimed ↦
              let disposed = λ (q : Hash) (m : set_contains q (parents_disposed ds) ≡ true).
                u.covers q (ap (set_contains q) (sym same) ∙ m) in
              let (b, b_eq) =
                or_else-Returns (some (any_action is_merged ds || not (any_action is_selected ds)))
                  (any_unrelated union r.creating_event ds) (_, refl)
                  (any_unrelated-Returns union r.creating_event ds u.part.closed disposed) in
              (
                if b then status_invalid Cause.disposition_mismatch else status_valid,
                rw eq (rw alive (rw untimed (rw b_eq refl))),
              )
        ]
      ]

  choosing-IsFounded :
      (selection : Selection) (ds : List Disposition) (d : Decision)
      → e.envelope.payload ≡ Payload.resolve selection ds d
      → HasBody crypto all e
      → IsFounded crypto all out id e
  unfolding grant_made
  choosing-IsFounded selection ds d is has = record {
    parents = ok;
    acts =
        plain-Acts crypto all id e grant named own_grant (ap (grant_made crypto id e) is)
          (λ target cascade k h. absurd (ground (arith, is, h)));
    body = has;
  }

  check_selection-Outcome :
      (selection : Selection) (ds : List Disposition) (d : Decision)
      → e.envelope.payload ≡ Payload.resolve selection ds d
      → parents_disposed ds ≡ parents_of e
      → Outcome
          (check_selection crypto context e.envelope grant selection ds)
          (IsFounded crypto all out id e)
  unfolding check_selection choice_of
  check_selection-Outcome (Selection.merged_body b) ds d is same = (
    if any_action is_selected ds || not (any_action is_merged ds)
        then status_invalid Cause.disposition_mismatch
        else status_valid,
    refl,
    λ _.
        choosing-IsFounded (Selection.merged_body b) ds d is
          (creates-HasBody crypto all e b (ap choice_of is)),
  )
  check_selection-Outcome (Selection.revision r) ds d is same =
      elim (Option-cases (lookup r (revisions crypto union))) [
        | inl gone ↦ (
          status_invalid Cause.revision_unreachable,
          rw (gone, check_selection) refl,
          λ ok'. absurd (ground (arith, ok')),
        )
        | inr (made, found) ↦
            let (known, created) = chosen_known r made found in
            let (status, eq) = check_selected-Returns ds made same created in
            (
              status,
              rw (found, check_selection) eq,
              λ _.
                  choosing-IsFounded (Selection.revision r) ds d is
                    (chooses-HasBody crypto all e r known (ap choice_of is)),
            )
      ]

  pub check_resolve-Outcome :
      (selection : Selection) (ds : List Disposition) (d : Decision)
      → e.envelope.payload ≡ Payload.resolve selection ds d
      → Outcome
          (check_resolve crypto context e.envelope grant selection ds d)
          (IsFounded crypto all out id e)
  unfolding check_resolve
  check_resolve-Outcome selection ds d is =
      let first_ = not (is_heads d.old (parents_of e) && is_selection d.new selection) in
      let second = not (bytes_eq (parents_disposed ds) (parents_of e)) || any_unreasoned ds in
      elim (Bool-cases (first_ || second)) [
        | inl wrong ↦ (
          status_invalid Cause.decision_mismatch,
          rw wrong refl,
          λ ok'. absurd (ground (arith, ok')),
        )
        | inr right ↦
            let same =
              bytes_eq_sound (parents_disposed ds) (parents_of e) (ground (arith, right)) in
            let (status, eq, ok') = check_selection-Outcome selection ds d is same in
            (status, rw right eq, ok')
      ]
