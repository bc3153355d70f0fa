-- ===== src/Admission.antt =====
-- The admission of subject events: `evaluate`, `classify` and `analyze` of
-- crates/cc-ledger/src/v1.rs. An index of a missing key, which panics, is `none`, and so is a loop
-- that does not end.
pub mod Payloads
pub mod Classify
mod Past
mod Union
mod Scope
mod Bodies
pub mod Views
mod Revised
mod Founded
mod Resolved
mod Checks
mod Authorized
mod Parents
mod Decisions
mod Evaluated
mod Stored
mod Passes
mod Admitted
mod Accepted
pub mod Analyzed
pub mod Tests
use clockchain.Prelude.{
  ℕ, ◌+◌, Bool, true, false, not, ◌&&◌, ◌||◌, Option, none, some, List, [], ◌∷◌, ◌++◌, Bytes,
  bytes_eq, is_empty, length, ltb, ◌==◌, if◌then◌else◌, nat_key,
}
use clockchain.Prelude.Table.{lookup, contains_key}
use clockchain.Prelude.Ordered.{map_insert, set_contains}
use clockchain.Wire.{Hash}
use clockchain.Wire.Event.{
  SubjectKey, AssertedTime, Kind, Decision, Payload, Envelope, kind_of, decision_of,
}
use clockchain.Wire.Signed.{Crypto, Signed}
use clockchain.Ledger.{Events, ◌>>=◌, cone, first, parents_of}
use clockchain.Ledger.Authority.{Authority, any_of}
use clockchain.Ledger.Derive.{derive}
use clockchain.Edges.{
  State, Cause, Status, Statuses, status_valid, status_invalid, status_pending, is_invalid,
  is_pending, is_genesis, is_subject, absent,
}
use clockchain.Edges.Evaluate.{is_absent, decided, or_else, states_of, any_state, count_in}
use clockchain.Admission.Payloads.{Context, check_by_kind}

abbrev pub is_resolve : Kind → Bool
is_resolve Kind.resolve = true
is_resolve _ = false

abbrev pub is_authority : Kind → Bool
is_authority Kind.delegate = true
is_authority Kind.revoke = true
is_authority _ = false

-- The equality of kinds that the code derives.
unfoldable pub same_kind : Kind → Kind → Bool
same_kind Kind.genesis Kind.genesis = true
same_kind Kind.correction Kind.correction = true
same_kind Kind.delegate Kind.delegate = true
same_kind Kind.revoke Kind.revoke = true
same_kind Kind.resolve Kind.resolve = true
same_kind Kind.edge_assert Kind.edge_assert = true
same_kind Kind.edge_reaffirm Kind.edge_reaffirm = true
same_kind Kind.attestation Kind.attestation = true
same_kind _ _ = false

unfoldable pub same_subject_key : Option SubjectKey → Option SubjectKey → Bool
same_subject_key none none = true
same_subject_key (some a) (some b) =
    bytes_eq a.kind b.kind && (bytes_eq a.namespace b.namespace && bytes_eq a.value b.value)
same_subject_key _ _ = false

abbrev pub no_precision : Option AssertedTime → Bool
no_precision none = false
no_precision (some t) = is_empty t.precision

-- A genesis event has only a subject key.
abbrev pub genesis_header : Envelope → Bool
genesis_header e =
    is_absent e.subject
    && (is_absent e.grant && (is_empty e.parents && not (is_absent e.subject_key)))

-- A resolution has more than one parent, another event has one.
abbrev pub wrong_count : Kind → List Hash → Bool
wrong_count kind parents =
    if is_resolve kind then ltb (length parents) 2 else not (length parents == 1)

abbrev pub no_header : Envelope → Bool
no_header e = is_absent e.subject || (is_absent e.subject_key || is_absent e.grant)

unfoldable pub not_subject : Events → Hash → Option Bool
not_subject all p = do e ← lookup p all; some (not (is_subject e))

-- The subject of a parent.
abbrev pub subject_of : Hash → Envelope → Option Hash
subject_of p e = if is_genesis (kind_of e.payload) then some p else e.subject

abbrev pub is_hash : Option Hash → Hash → Bool
is_hash none h = false
is_hash (some g) h = g == h

-- The loop over the parents that compares subjects and subject keys: the cause, if one is found.
unfoldable pub check_parents : Events → Hash → Option SubjectKey → List Hash → Option (Option Cause)
check_parents all subject key [] = some none
check_parents all subject key (p ∷ ps) = do
  parent ← lookup p all
  if not (is_hash (subject_of p parent.envelope) subject)
      then some (some Cause.wrong_subject)
      else if not (same_subject_key parent.envelope.subject_key key)
      then some (some Cause.subject_key_changed)
      else check_parents all subject key ps

unfoldable pub cones_of : Events → List Hash → Option (List Events)
cones_of all [] = some []
cones_of all (p ∷ ps) = do m ← cone all p; rest ← cones_of all ps; some (m ∷ rest)

-- Whether two of the parents are in one cone.
unfoldable pub any_comparable : List Hash → List Events → Bool
any_comparable parents [] = false
any_comparable parents (m ∷ cones) = ltb 1 (count_in parents m) || any_comparable parents cones

unfoldable pub insert_all : Events → Events → Events
insert_all [] past = past
insert_all ((id, e) ∷ events) past = insert_all events (map_insert id e past)

unfoldable pub union_of : List Events → Events → Events
union_of [] past = past
union_of (m ∷ cones) past = union_of cones (insert_all m past)

module _ {SecretKey : Type 0} (crypto : Crypto SecretKey) where
  -- Whether a grant is not active in the past of one parent.
  unfoldable pub any_inactive : Hash → List Events → Option Bool
  any_inactive grant [] = some false
  any_inactive grant (m ∷ cones) = do
    view ← derive crypto m
    or_else (some (not (set_contains grant view.active))) (any_inactive grant cones)

  -- Whether the author may not act under the grant.
  unfoldable pub unauthorized : Authority → List Events → Hash → Hash → Option Bool
  unauthorized view cones grant author = or_else (some (not (set_contains grant view.active))) (
      or_else (lookup grant view.grants >>= (λ g. some (not (g.holder == author))))
        (any_inactive grant cones))

  module _ (all : Events) where
    -- An event whose header, parents and decision are in order.
    unfoldable pub evaluate_authority : Envelope → Hash → Option Status
    evaluate_authority e grant = do
      parent ← first e.parents
      cones ← cones_of all e.parents
      if is_resolve (kind_of e.payload) && any_comparable e.parents cones
          then some (status_invalid Cause.comparable_parents)
          else do
            let past = union_of cones []
            view ← derive crypto past
            refused ← unauthorized view cones grant e.author
            if refused
                then some (status_invalid Cause.parent_authority)
                else check_by_kind crypto (record { all = all; past = past; view = view }) e grant
                    parent e.payload

    -- The subject and the decision of an event whose parents are valid.
    unfoldable pub evaluate_decision : Envelope → Hash → Hash → Option Status
    evaluate_decision e subject grant = elim (lookup subject all) [
      | none ↦ some (status_pending Cause.subject_missing (subject ∷ []))
      | some genesis ↦
          if not (is_genesis (kind_of genesis.envelope.payload))
          then some (status_invalid Cause.wrong_subject)
          else elim (decision_of e.payload) [
            | none ↦ some (status_invalid Cause.decision_missing)
            | some d ↦
                if not (same_kind d.kind (kind_of e.payload) && decided d e.parents)
                then some (status_invalid Cause.decision_mismatch)
                else if is_authority (kind_of e.payload) && not (is_absent e.asserted_time)
                then some (status_invalid Cause.authority_time_edit)
                else evaluate_authority e grant
          ]
    ]

    -- The states of the parents, and their subjects.
    unfoldable pub evaluate_parents : Envelope → Hash → Hash → List State → Option Status
    evaluate_parents e subject grant states =
        if any_state is_invalid states then some (status_invalid Cause.ancestor) else do
          mismatch ← check_parents all subject e.subject_key e.parents
          elim mismatch [
            | some cause ↦ some (status_invalid cause)
            | none ↦
                if any_state is_pending states
                then some (status_pending Cause.ancestor [])
                else evaluate_decision e subject grant
          ]

    unfoldable pub evaluate_child : Statuses → Envelope → Hash → Hash → Option Status
    evaluate_child out e subject grant =
        let missing = absent e.parents all in
        if not (is_empty missing) then some (status_pending Cause.parent_missing missing) else do
          other ← any_of (not_subject all) e.parents
          if other
              then some (status_invalid Cause.wrong_subject)
              else do states ← states_of out e.parents; evaluate_parents e subject grant states

    -- An event that is not a genesis has a subject, a subject key and a grant.
    unfoldable pub evaluate_header : Statuses → Envelope → Option Status
    evaluate_header out e =
        if is_empty e.parents || wrong_count (kind_of e.payload) e.parents
        then some (status_invalid Cause.parents)
        else if no_header e
        then some (status_invalid Cause.subject_header)
        else do subject ← e.subject; grant ← e.grant; evaluate_child out e subject grant

    unfoldable pub evaluate_subject : Statuses → Hash → Option Status
    evaluate_subject out id = do
      event ← lookup id all
      let e = event.envelope
      if no_precision e.asserted_time
          then some (status_invalid Cause.precision)
          else if is_genesis (kind_of e.payload)
          then some (if genesis_header e then status_valid else status_invalid Cause.genesis)
          else evaluate_header out e
