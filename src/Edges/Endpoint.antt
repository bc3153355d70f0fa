-- ===== src/Edges/Endpoint.antt =====
-- The state of a pin against the current reading of its subject: `endpoint` of
-- crates/cc-ledger/src/v1/edges.rs, with SubjectReading of crates/cc-ledger/src/v1/projection.rs.
use clockchain.Prelude.{
  Bool, true, false, not, Option, none, some, List, ◌==◌, if◌then◌else◌, nat_key,
}
use clockchain.Prelude.Table.{lookup}
use clockchain.Prelude.Ordered.{set_contains}
use clockchain.Wire.{Hash}
use clockchain.Wire.Event.{Pin, Selection, Payload}
use clockchain.Ledger.{◌>>=◌, first}
use clockchain.Ledger.Authority.{any_of, select_not}
use clockchain.Edges.{Subjects}

-- The states of a reading, which the code writes as strings.
pub data ReadingState : Type 0 where
  resolved contested no_current_body : ReadingState

pub record SubjectReading : Type 0 where
  pub subject : Hash
  pub frontier : List Hash
  pub state : ReadingState
  pub frozen : Bool

-- Why a pin is not current, which the code writes as a string.
pub data Stale : Type 0 where
  subject_contested no_body basis_not_ancestor revision_changed revision_created_since_basis : Stale

-- Whether an event makes a revision, apart from the genesis.
unfoldable pub creates : Payload → Bool
creates (Payload.correction _ _) = true
creates (Payload.resolve (Selection.merged_body _) _ _) = true
creates (Payload.resolve (Selection.revision _) _ _) = false
creates _ = false

unfoldable pub set_difference : List Hash → List Hash → List Hash
set_difference xs ys = select_not (λ x. set_contains x ys) xs

module _ (s : Subjects) (ancestors : List (Hash × List Hash)) where
  -- The pin of a subject whose reading is resolved, at the head of the subject.
  unfoldable pub endpoint_at : Pin → Hash → Option (Option Stale)
  endpoint_at pin head = do
    past ← lookup head ancestors
    if not (set_contains pin.basis past) then some (some Stale.basis_not_ancestor) else do
      selected ← lookup head s.selected
      if not (selected == pin.revision) then some (some Stale.revision_changed) else do
        basis_past ← lookup pin.basis ancestors
        created ←
            any_of (λ id. lookup id s.valid >>= (λ e. some (creates e.envelope.payload)))
              (set_difference past basis_past)
        some (if created then some Stale.revision_created_since_basis else none)

  unfoldable pub endpoint : List (Hash × SubjectReading) → Pin → Option (Option Stale)
  endpoint subjects pin = elim (lookup pin.subject subjects) [
    | none ↦ none
    | some reading ↦ elim reading.state [
      | contested ↦ some (some Stale.subject_contested)
      | no_current_body ↦ some (some Stale.no_body)
      | resolved ↦ first reading.frontier >>= endpoint_at pin
    ]
  ]
