-- ===== src/Edges.antt =====
-- Edges and media of crates/cc-ledger/src/v1/edges.rs: the statuses of crates/cc-ledger/src/v1.rs, the
-- subjects that edges read, their pins, and the status of an edge or media event. An index of a
-- missing key, which panics, is `none`, and so is `unreachable!`.
pub mod Evaluate
pub mod Classify
pub mod Endpoint
pub mod Standing
mod Bound
mod Decided
mod Assertion
pub mod Staged
pub mod Pinned
mod Kinds
pub mod Chain
mod Returned
mod Evaluated
pub mod Kept
pub mod Passes
pub mod Classified
mod Tests
use clockchain.Prelude.{
  is_empty, ℕ, suc, ◌+◌, Bool, true, false, not, ◌&&◌, ◌||◌, Option, none, some, List, [], ◌∷◌,
  ◌++◌, Bytes, bytes_eq, map, length, ltb, ◌==◌, if◌then◌else◌, nat_key,
}
use clockchain.Prelude.Table.{lookup, contains_key}
use clockchain.Wire.{Hash}
use clockchain.Wire.Event.{
  Pin, Pins, ParentPins, Kind, TargetKind, Value, Decision, Payload, Envelope, kind_of,
}
use clockchain.Wire.Signed.{Crypto, Signed}
use clockchain.Ledger.{Events, ◌>>=◌, Revision, unwrap_or, cone, selections, revisions}
use clockchain.Ledger.Authority.{any_of, set_union, and_then}

pub data State : Type 0 where
  valid pending invalid : State

-- Why an event is not valid; the code writes the name of the cause as a string.
pub data Cause : Type 0 where
  nothing pin_missing pin_subject pin_invalid pin_pending pin_revision pin_body non_subject_header
        parents decision_mismatch relation dispute_counterclaim parent_missing wrong_edge ancestor
        edge_author comparable_parents endpoint_changed artifact_kind revision_missing
        target_missing attestation_target target_invalid target_pending cycle precision genesis
        subject_header subject_key_changed subject_missing decision_missing authority_time_edit
        parent_authority issuer_grant_mismatch key key_not_fresh revocation_scope
        disposition_mismatch revision_unreachable revision_ineligible selection_time_edit
        wrong_subject :
      Cause

pub record Status : Type 0 where
  pub state : State
  pub reason : Cause
  pub missing : List Hash

abbrev pub status_valid : Status
status_valid = record { state = State.valid; reason = Cause.nothing; missing = [] }

abbrev pub status_invalid : Cause → Status
status_invalid reason = record { state = State.invalid; reason = reason; missing = [] }

abbrev pub status_pending : Cause → List Hash → Status
status_pending reason missing = record { state = State.pending; reason = reason; missing = missing }

abbrev pub is_valid : State → Bool
is_valid State.valid = true
is_valid _ = false

abbrev pub is_invalid : State → Bool
is_invalid State.invalid = true
is_invalid _ = false

abbrev pub is_pending : State → Bool
is_pending State.pending = true
is_pending _ = false

abbrev pub Statuses : Type 0
Statuses = List (Hash × Status)

abbrev pub is_genesis : Kind → Bool
is_genesis Kind.genesis = true
is_genesis _ = false

abbrev pub is_edge_assert : Kind → Bool
is_edge_assert Kind.edge_assert = true
is_edge_assert _ = false

abbrev pub is_edge_reaffirm : Kind → Bool
is_edge_reaffirm Kind.edge_reaffirm = true
is_edge_reaffirm _ = false

abbrev pub is_attestation : Kind → Bool
is_attestation Kind.attestation = true
is_attestation _ = false

unfoldable pub is_subject : Signed → Bool
is_subject e =
    let k = kind_of e.envelope.payload in
    not (is_edge_assert k || is_edge_reaffirm k || is_attestation k)

pub record Subjects : Type 0 where
  pub valid : Events
  pub selected : List (Hash × Hash)
  pub revisions : List (Hash × Revision)

-- The subject events that are valid.
unfoldable pub valid_subjects : Events → Statuses → Option Events
valid_subjects [] out = some []
valid_subjects ((id, e) ∷ events) out = do
  keep ← and_then (some (is_subject e)) (lookup id out >>= (λ status. some (is_valid status.state)))
  rest ← valid_subjects events out
  some (if keep then (id, e) ∷ rest else rest)

module _ {SecretKey : Type 0} (crypto : Crypto SecretKey) where
  -- `Subjects::new`.
  unfoldable pub new_subjects : Events → Statuses → Option Subjects
  new_subjects candidates out = do
    subjects ← valid_subjects candidates out
    selected ← selections crypto subjects
    some (record { valid = subjects; selected = selected; revisions = revisions crypto subjects })

unfoldable pub pins_of : Payload → Option Pins
pins_of (Payload.edge_assert _ pins _) = some pins
pins_of (Payload.edge_reaffirm _ _ new _) = some new
pins_of _ = none

unfoldable pub edge_of : Hash → Payload → Option Hash
edge_of id (Payload.edge_assert _ _ _) = some id
edge_of id (Payload.edge_reaffirm edge _ _ _) = some edge
edge_of id _ = none

unfoldable pub absent : List Hash → Events → List Hash
absent [] all = []
absent (r ∷ rs) all = if contains_key r all then absent rs all else r ∷ absent rs all

-- `Vec::dedup`: of equal neighbours the first stays.
unfoldable pub dedup_after : Hash → List Hash → List Hash
dedup_after x [] = []
dedup_after x (y ∷ ys) = if x == y then dedup_after x ys else y ∷ dedup_after y ys

unfoldable pub dedup : List Hash → List Hash
dedup [] = []
dedup (x ∷ xs) = x ∷ dedup_after x xs

-- Whether the basis is not an event of the pinned subject.
unfoldable pub misplaced : Pin → Signed → Signed → Bool
misplaced pin subject basis =
    not (is_genesis (kind_of subject.envelope.payload))
    || not (is_subject basis)
    || not (unwrap_or basis.envelope.subject pin.basis == pin.subject)

-- What `check_pins` makes of the two results.
unfoldable pub combine_pins : Status → Status → Status
combine_pins a b =
    let missing = set_union [] (a.missing ++ b.missing) in
    if is_invalid a.state
    then a
    else if is_invalid b.state
    then b
    else if not (is_empty missing)
    then status_pending Cause.pin_missing missing
    else if is_pending a.state
    then a
    else if is_pending b.state
    then b
    else status_valid

module _ (all : Events) (out : Statuses) (s : Subjects) where
  -- The pin of a basis whose status is found.
  unfoldable pub check_revision : Pin → State → Option Status
  check_revision pin State.invalid = some (status_invalid Cause.pin_invalid)
  check_revision pin State.pending = some (status_pending Cause.pin_pending [])
  check_revision pin State.valid = do
    selected ← lookup pin.basis s.selected
    if not (selected == pin.revision) then some (status_invalid Cause.pin_revision) else do
      revision ← lookup pin.revision s.revisions
      some (if not (revision.body == pin.body) then status_invalid Cause.pin_body else status_valid)

  unfoldable pub check_basis : Pin → Option Status
  check_basis pin = do
    basis ← lookup pin.basis all
    subject ← lookup pin.subject all
    if misplaced pin subject basis
        then some (status_invalid Cause.pin_subject)
        else lookup pin.basis out >>= (λ status. check_revision pin status.state)

  unfoldable pub check_pin : Pin → Option Status
  check_pin pin =
      let missing = dedup (absent (pin.subject ∷ pin.basis ∷ []) all) in
      if not (is_empty missing)
      then some (status_pending Cause.pin_missing missing)
      else check_basis pin

  unfoldable pub check_pins : Pins → Option Status
  check_pins pins = do a ← check_pin pins.source; b ← check_pin pins.target; some (combine_pins a b)
