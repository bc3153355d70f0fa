-- ===== src/Admission/Payloads.antt =====
-- What `evaluate` of crates/cc-ledger/src/v1.rs asks of each kind of subject event, once its author is
-- known to act under an active grant.
use clockchain.Prelude.{
  Bool, true, false, not, ◌&&◌, ◌||◌, Option, none, some, List, [], ◌∷◌, bytes_eq, is_empty, ◌==◌,
  if◌then◌else◌, nat_key,
}
use clockchain.Prelude.Table.{lookup, contains_key}
use clockchain.Prelude.Ordered.{set_contains}
use clockchain.Wire.{Hash}
use clockchain.Wire.Event.{
  DispositionKind, Disposition, Value, Decision, Selection, Payload, Envelope,
}
use clockchain.Wire.Signed.{Crypto}
use clockchain.Ledger.{Events, ◌>>=◌, Revision, cone, body, revisions}
use clockchain.Ledger.Authority.{Grant, Authority}
use clockchain.Ledger.Derive.{is_eligible, in_scope}
use clockchain.Edges.{Cause, Status, status_valid, status_invalid}
use clockchain.Edges.Evaluate.{is_absent, is_nothing, or_else}

-- What an event is checked against: all candidates, its past, and the authority that the past gives.
pub record Context : Type 0 where
  pub all : Events
  pub past : Events
  pub view : Authority

abbrev pub is_body : Value → Hash → Bool
is_body (Value.body a) b = a == b
is_body _ b = false

abbrev pub is_grant : Value → Hash → Hash → Bool
is_grant (Value.grant i g) issuer grantee = i == issuer && g == grantee
is_grant _ issuer grantee = false

abbrev pub is_active_grant : Value → Hash → Bool
is_active_grant (Value.active_grant a) b = a == b
is_active_grant _ b = false

abbrev pub is_revoked_grant : Value → Hash → Bool → Bool
is_revoked_grant (Value.revoked_grant a c) b d = a == b && (if c then d else not d)
is_revoked_grant _ b d = false

abbrev pub is_heads : Value → List Hash → Bool
is_heads (Value.heads a) b = bytes_eq a b
is_heads _ b = false

abbrev pub is_revision : Value → Hash → Bool
is_revision (Value.revision a) b = a == b
is_revision _ b = false

abbrev pub is_selection : Value → Selection → Bool
is_selection v (Selection.merged_body b) = is_body v b
is_selection v (Selection.revision r) = is_revision v r

unfoldable pub any_holder : Hash → List (Hash × Grant) → Bool
any_holder key [] = false
any_holder key ((_, grant) ∷ grants) = grant.holder == key || any_holder key grants

abbrev pub parents_disposed : List Disposition → List Hash
parents_disposed [] = []
parents_disposed (d ∷ ds) = d.parent ∷ parents_disposed ds

unfoldable pub any_unreasoned : List Disposition → Bool
any_unreasoned [] = false
any_unreasoned (d ∷ ds) = is_empty d.rationale || any_unreasoned ds

abbrev pub is_selected : DispositionKind → Bool
is_selected DispositionKind.selected = true
is_selected _ = false

abbrev pub is_merged : DispositionKind → Bool
is_merged DispositionKind.merged = true
is_merged _ = false

unfoldable pub any_action : (DispositionKind → Bool) → List Disposition → Bool
any_action f [] = false
any_action f (d ∷ ds) = f d.action || any_action f ds

-- Whether a selected parent does not descend from the event that created the revision.
unfoldable pub any_unrelated : Events → Hash → List Disposition → Option Bool
any_unrelated past creator [] = some false
any_unrelated past creator (d ∷ ds) =
    or_else
      (if is_selected d.action
        then cone past d.parent >>= (λ m. some (not (contains_key creator m)))
        else some false)
      (any_unrelated past creator ds)

module _ {SecretKey : Type 0} (crypto : Crypto SecretKey) (c : Context) (e : Envelope)
    (grant : Hash) where
  unfoldable pub check_correction : Hash → Hash → Decision → Option Status
  check_correction parent new_body d = do
    old ← body crypto c.all parent
    some (
        if not (is_body d.old old && is_body d.new new_body)
        then status_invalid Cause.decision_mismatch
        else status_valid)

  unfoldable pub check_delegate : Hash → Hash → Decision → Status
  check_delegate grantee issuer d =
      if not (issuer == grant)
      then status_invalid Cause.issuer_grant_mismatch
      else if not (crypto.is_key grantee)
      then status_invalid Cause.key
      else if any_holder grantee c.view.grants
      then status_invalid Cause.key_not_fresh
      else if not (is_nothing d.old && is_grant d.new issuer grantee)
      then status_invalid Cause.decision_mismatch
      else status_valid

  unfoldable pub check_revoke : Hash → Bool → Decision → Option Status
  check_revoke target cascade d = do
    outside_scope ←
        or_else (some (not (set_contains target c.view.active)))
          (in_scope c.view grant target >>= (λ b. some (not b)))
    some (
        if outside_scope
        then status_invalid Cause.revocation_scope
        else if not (is_active_grant d.old target && is_revoked_grant d.new target cascade)
        then status_invalid Cause.decision_mismatch
        else status_valid)

  -- The dispositions of a resolution that selects a revision of the past.
  unfoldable pub check_selected : List Disposition → Revision → Option Status
  check_selected dispositions r = do
    effect ← lookup r.creating_event c.view.effects
    if not (is_eligible effect.reason)
        then some (status_invalid Cause.revision_ineligible)
        else if not (is_absent e.asserted_time)
        then some (status_invalid Cause.selection_time_edit)
        else do
          mismatch ←
              or_else
                (some
                  (any_action is_merged dispositions || not (any_action is_selected dispositions)))
                (any_unrelated c.past r.creating_event dispositions)
          some (if mismatch then status_invalid Cause.disposition_mismatch else status_valid)

  unfoldable pub check_selection : Selection → List Disposition → Option Status
  check_selection (Selection.merged_body _) dispositions = some (
      if any_action is_selected dispositions || not (any_action is_merged dispositions)
      then status_invalid Cause.disposition_mismatch
      else status_valid)
  check_selection (Selection.revision revision) dispositions =
      elim (lookup revision (revisions crypto c.past)) [
        | none ↦ some (status_invalid Cause.revision_unreachable)
        | some r ↦ check_selected dispositions r
      ]

  unfoldable pub check_resolve : Selection → List Disposition → Decision → Option Status
  check_resolve selection dispositions d =
      if not (is_heads d.old e.parents && is_selection d.new selection)
        || (not (bytes_eq (parents_disposed dispositions) e.parents) || any_unreasoned dispositions)
      then some (status_invalid Cause.decision_mismatch)
      else check_selection selection dispositions

  unfoldable pub check_by_kind : Hash → Payload → Option Status
  check_by_kind parent (Payload.correction new_body d) = check_correction parent new_body d
  check_by_kind parent (Payload.delegate grantee issuer d) = some (check_delegate grantee issuer d)
  check_by_kind parent (Payload.revoke target cascade d) = check_revoke target cascade d
  check_by_kind parent (Payload.resolve selection dispositions d) =
      check_resolve selection dispositions d
  check_by_kind parent _ = none
