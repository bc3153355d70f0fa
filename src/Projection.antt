-- ===== src/Projection.antt =====
-- The readings of subjects: `project` of crates/cc-ledger/src/v1/projection.rs, up to the edges. An
-- index of a missing key, which panics, is `none`.
mod Sets
mod Frontier
mod Rows
mod Readings
mod Pasts
mod Projected
mod Tests
use clockchain.Prelude.{
  ℕ, Bool, true, false, not, ◌&&◌, ◌||◌, Option, none, some, List, [], ◌∷◌, ◌++◌, length, ltb, ◌==◌,
  if◌then◌else◌, nat_key,
}
use clockchain.Prelude.Table.{lookup}
use clockchain.Prelude.Ordered.{map_insert, set_contains}
use clockchain.Wire.{Hash}
use clockchain.Wire.Event.{kind_of}
use clockchain.Wire.Signed.{Crypto, Signed}
use clockchain.Ledger.{Events, ◌>>=◌, unwrap_or, cone, selections}
use clockchain.Ledger.Authority.{
  Reason, eligible, root_relinquished, Authority, any_of, select_not, filter_of, set_union, keys,
}
use clockchain.Ledger.Derive.{is_eligible}
use clockchain.Ledger.Where.{events_where}
use clockchain.Edges.{is_genesis}
use clockchain.Edges.Endpoint.{ReadingState, SubjectReading, set_difference}
use clockchain.Admission.Classify.{admitted_subjects, Analysis, analyze}

pub data ProjectionState : Type 0 where
  head superseded branch pending invalid : ProjectionState

-- Why an event is where it is, which the code writes as a string.
pub data Standing : Type 0 where
  plain contested : Standing
  suppressed : Reason → Standing

-- What the loop keeps of an event: its state, the reason, and whether it is of the frontier.
pub record Row : Type 0 where
  pub state : ProjectionState
  pub reason : Standing
  pub frontier : Bool

abbrev pub Ancestors : Type 0
Ancestors = List (Hash × List Hash)

unfoldable pub ancestors_of : Events → Events → Option Ancestors
ancestors_of valid [] = some []
ancestors_of valid ((id, _) ∷ events) = do
  past ← cone valid id
  rest ← ancestors_of valid events
  some ((id, keys past) ∷ rest)

-- The events of a subject.
unfoldable pub events_of : Hash → Events → List Hash
events_of subject events =
    keys (events_where (λ id e. unwrap_or e.envelope.subject id == subject) events)

unfoldable pub set_intersection : List Hash → List Hash → List Hash
set_intersection xs ys = select_not (λ x. not (set_contains x ys)) xs

abbrev pub is_relinquished : Reason → Bool
is_relinquished root_relinquished = true
is_relinquished _ = false

unfoldable pub classify_row : List Hash → List Hash → Hash → Reason → Row
classify_row frontier common id reason =
    let here_ = set_contains id frontier in
    if is_relinquished reason
    then record {
      state = ProjectionState.superseded;
      reason = Standing.suppressed reason;
      frontier = here_;
    }
    else if not (is_eligible reason)
    then record {
      state = ProjectionState.branch;
      reason = Standing.suppressed reason;
      frontier = here_;
    }
    else if length frontier == 1 && here_
    then record { state = ProjectionState.head; reason = Standing.plain; frontier = here_ }
    else if ltb 1 (length frontier) && (here_ || not (set_contains id common))
    then record { state = ProjectionState.branch; reason = Standing.contested; frontier = here_ }
    else record { state = ProjectionState.superseded; reason = Standing.plain; frontier = here_ }

unfoldable pub state_of : List Hash → ReadingState
state_of [] = ReadingState.no_current_body
state_of (_ ∷ []) = ReadingState.resolved
state_of (_ ∷ _ ∷ _) = ReadingState.contested

module _ (a : Authority) (ancestors : Ancestors) where
  unfoldable pub has_effect : Hash → Option Bool
  has_effect id = do effect ← lookup id a.effects; some (is_eligible effect.reason)

  -- The proper ancestors of some events.
  unfoldable pub consumed_by : List Hash → List Hash → Option (List Hash)
  consumed_by [] consumed = some consumed
  consumed_by (id ∷ ids) consumed = do
    past ← lookup id ancestors
    consumed_by ids (set_union consumed (select_not (λ p. p == id) past))

  unfoldable pub frontier_of : List Hash → Option (List Hash)
  frontier_of ids = do
    left ← filter_of has_effect ids
    consumed ← consumed_by (left ++ set_intersection a.effective_revokes ids) []
    some (set_difference left consumed)

  unfoldable pub shared_by : List Hash → List Hash → Option (List Hash)
  shared_by [] common = some common
  shared_by (id ∷ ids) common = do
    past ← lookup id ancestors
    shared_by ids (set_intersection common past)

  -- The ancestors that the events of a frontier have in common.
  unfoldable pub common_of : List Hash → Option (List Hash)
  common_of [] = some []
  common_of (id ∷ ids) = do past ← lookup id ancestors; shared_by ids past

  unfoldable pub put_rows :
      List Hash → List Hash → List Hash → List (Hash × Row) → Option (List (Hash × Row))
  put_rows frontier common [] states = some states
  put_rows frontier common (id ∷ ids) states = do
    effect ← lookup id a.effects
    put_rows frontier common ids
        (map_insert id (classify_row frontier common id effect.reason) states)

  -- Whether no active grant is of the subject.
  unfoldable pub is_frozen : Hash → Option Bool
  is_frozen subject = do
    governed ←
        any_of (λ g. lookup g a.grants >>= (λ grant. some (grant.subject == subject))) a.active
    some (not governed)

  -- One subject: its reading, and the rows of its events.
  unfoldable pub read_subject :
      Events → Hash → List (Hash × Row) → Option (SubjectReading × List (Hash × Row))
  read_subject valid subject states = do
    let ids = events_of subject valid
    frontier ← frontier_of ids
    common ← common_of frontier
    states' ← put_rows frontier common ids states
    frozen ← is_frozen subject
    some (
      record { subject = subject; frontier = frontier; state = state_of frontier; frozen = frozen },
      states',
    )

  unfoldable pub read_subjects :
      Events → Events → List (Hash × Row) → Option (List SubjectReading × List (Hash × Row))
  read_subjects valid [] states = some ([], states)
  read_subjects valid ((id, e) ∷ events) states = elim (is_genesis (kind_of e.envelope.payload)) [
    | false ↦ read_subjects valid events states
    | true ↦ elim (read_subject valid id states) [
      | none ↦ none
      | some (reading, states') ↦ elim (read_subjects valid events states') [
        | none ↦ none
        | some (readings, states'') ↦ some (reading ∷ readings, states'')
      ]
    ]
  ]

module _ {SecretKey : Type 0} (crypto : Crypto SecretKey) where
  -- The revisions that events select, the readings of subjects and the rows of their events.
  unfoldable pub project_subjects :
      Events → Option (List (Hash × Hash) × List SubjectReading × List (Hash × Row))
  project_subjects candidates = do
    analysis ← analyze crypto candidates
    valid ← admitted_subjects candidates analysis.admission
    selected ← selections crypto valid
    ancestors ← ancestors_of valid valid
    (readings, states) ← read_subjects analysis.authority ancestors valid valid []
    some (selected, readings, states)
