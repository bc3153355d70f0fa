-- ===== src/Admission/Classify.antt =====
-- The order in which subject events are classified: `classify` and `analyze` of
-- crates/cc-ledger/src/v1.rs.
use clockchain.Prelude.{
  ℕ, zero, suc, ◌+◌, Bool, true, false, not, ◌&&◌, ◌||◌, Option, none, some, List, [], ◌∷◌, length,
  ltb, ◌==◌, if◌then◌else◌, nat_key,
}
use clockchain.Prelude.Table.{lookup, contains_key}
use clockchain.Prelude.Ordered.{map_insert}
use clockchain.Wire.{Hash}
use clockchain.Wire.Event.{kind_of}
use clockchain.Wire.Signed.{Crypto, Signed}
use clockchain.Ledger.{Events, ◌>>=◌, parents_of, any_absent}
use clockchain.Ledger.Authority.{Authority}
use clockchain.Ledger.Derive.{derive}
use clockchain.Edges.{Cause, Statuses, status_invalid, is_valid, is_genesis, is_subject}
use clockchain.Edges.Classify as Media
use clockchain.Admission.{evaluate_subject}

unfoldable pub count_subjects : Events → ℕ
count_subjects [] = 0
count_subjects ((_, e) ∷ all) = (if is_subject e then 1 else 0) + count_subjects all

-- Whether a parent is not a known subject event.
unfoldable pub any_foreign : Events → List Hash → Bool
any_foreign all [] = false
any_foreign all (p ∷ ps) =
    not (elim (lookup p all) [ none ↦ false | some e ↦ is_subject e ]) || any_foreign all ps

-- An event is evaluated once its parents are, or if one of them never will be.
unfoldable pub is_ready : Events → Statuses → Signed → Bool
is_ready all out e =
    is_genesis (kind_of e.envelope.payload)
    || (any_foreign all (parents_of e) || not (any_absent contains_key (parents_of e) out))

-- Events that wait for each other: what is left gets a status.
unfoldable pub close_subjects : Events → Statuses → Statuses
close_subjects [] out = out
close_subjects ((id, e) ∷ events) out = close_subjects events (
    if is_subject e && not (contains_key id out)
    then map_insert id (status_invalid Cause.cycle) out
    else out)

module _ {SecretKey : Type 0} (crypto : Crypto SecretKey) (all : Events) where
  -- One pass over the events.
  unfoldable pub subject_pass : Events → Statuses → Option Statuses
  subject_pass [] out = some out
  subject_pass ((id, e) ∷ events) out =
      elim (contains_key id out || not (is_subject e) || not (is_ready all out e)) [
        | true ↦ subject_pass events out
        | false ↦ elim (evaluate_subject crypto all out id) [
          | none ↦ none
          | some status ↦ subject_pass events (map_insert id status out)
        ]
      ]

  -- The outer loop: a pass that adds nothing is the last.
  unfoldable pub subject_passes : ℕ → Statuses → Option Statuses
  subject_passes zero out = none
  subject_passes (suc fuel) out = elim (ltb (length out) (count_subjects all)) [
    | false ↦ some out
    | true ↦ elim (subject_pass all out) [
      | none ↦ none
      | some out' ↦ elim (length out' == length out) [
        | true ↦ subject_passes fuel (close_subjects all out')
        | false ↦ subject_passes fuel out'
      ]
    ]
  ]

  -- A pass adds a status, or closing does, so that one more pass than subjects is enough.
  unfoldable pub classify_subjects : Option Statuses
  classify_subjects = subject_passes (suc (count_subjects all)) []

  unfoldable pub admission : Option Statuses
  admission = do out ← classify_subjects; Media.classify crypto all out

pub record Analysis : Type 0 where
  pub admission : Statuses
  pub authority : Authority

-- The subject events that are valid, where every event has a status.
unfoldable pub admitted_subjects : Events → Statuses → Option Events
admitted_subjects [] out = some []
admitted_subjects ((id, e) ∷ events) out = do
  status ← lookup id out
  rest ← admitted_subjects events out
  some (if is_valid status.state && is_subject e then (id, e) ∷ rest else rest)

module _ {SecretKey : Type 0} (crypto : Crypto SecretKey) where
  unfoldable pub analyze : Events → Option Analysis
  analyze candidates = do
    statuses ← admission crypto candidates
    valid ← admitted_subjects candidates statuses
    view ← derive crypto valid
    some (record { admission = statuses; authority = view })
