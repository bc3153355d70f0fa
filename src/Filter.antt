-- ===== src/Filter.antt =====
-- The feasibility filter of crates/cc-filter: the types that its judgments are made of (src/ids.rs,
-- src/phi.rs, src/verdict.rs, src/view.rs of that crate).
pub mod Reach
pub mod Judge
pub mod Records
pub mod Digest
pub mod Snapshot
pub mod Slices
pub mod Fuel
pub mod Labels
pub mod Walk
pub mod Windows
pub mod Factors
pub mod Agree
pub mod Evidence
pub mod Sound
mod Tests
mod SnapshotTests
use clockchain.Prelude.{
  ℕ, ◌-◌, ◌^◌, ◌≤◌, ◌≡◌, Bool, true, false, Option, none, some, List, [], ◌∷◌, map, Bytes, Result,
  ok, err,
}

-- A coordinate in its canonical form: a signed 256-bit number with 2^255 added, which keeps the
-- order. An `EntityId`, of 64 bits, has 2^63 added, and an `EventId` is the number that its bytes
-- spell, so that the orders of the program are those of the numbers.
abbrev pub Tick : Type 0
Tick = ℕ

abbrev pub EntityId : Type 0
EntityId = ℕ

abbrev pub EventId : Type 0
EventId = ℕ

abbrev pub ClaimType : Type 0
ClaimType = ℕ

abbrev pub HopBound : Type 0
HopBound = ℕ

abbrev pub WalkLen : Type 0
WalkLen = ℕ

-- `Tick::SENTINEL`, the greatest coordinate.
abbrev pub sentinel : Tick
sentinel = 2 ^ 256 - 1

pub record WalkStep : Type 0 where
  pub entity : EntityId
  pub via : EventId

pub record PhiSupport : Type 0 where
  pub hops : WalkLen
  pub witness : List WalkStep

unfoldable pub reflexive : PhiSupport
reflexive = record { hops = 0; witness = [] }

-- `PhiSupport::consulted`
unfoldable pub consulted_of : PhiSupport → List EventId
consulted_of s = map (λ (step : WalkStep). step.via) s.witness

-- `WindowStart` and `WindowEnd` of crates/cc-core.
pub data Start : Type 0 where
  unknown : Start
  known : Tick → Start

pub data WindowEnd : Type 0 where
  known_open : WindowEnd
  known_closed : Tick → WindowEnd
  unknown_closure : WindowEnd

pub record Windowed : Type 0 where
  pub start : Start
  pub end : WindowEnd
  pub derived_from : List EventId

unfoldable pub unrecorded_window : Windowed
unrecorded_window = record { start = unknown; end = unknown_closure; derived_from = [] }

pub data Admitted : Type 0 where
  valid : List EventId → Admitted
  unrecorded : Admitted
  outside_validity : Tick → List EventId → Admitted

pub record Edge : Type 0 where
  pub other : EntityId
  pub via : EventId

pub data ViewError : Type 0 where
  backend : Bytes → ViewError
  decode : Bytes → ViewError

-- The trait `CorpusView`: what the filter may ask of a store.
pub record CorpusView : Type 0 where
  pub neighbors : EntityId → Tick → Result (List Edge) ViewError
  pub neighbors_many : List EntityId → Tick → Result (List (EntityId × List Edge)) ViewError
  pub window : EntityId → Tick → Result Windowed ViewError
  pub admissibility : ClaimType → Tick → Result Admitted ViewError
  pub corpus_digest : Bytes

pub data AbsenceWitness : Type 0 where
  no_recorded_start : EntityId → AbsenceWitness
  before_recorded_start : EntityId → Tick → AbsenceWitness
  claim_type_unrecorded : ClaimType → AbsenceWitness
  no_evidenced_walk : EntityId → EntityId → HopBound → AbsenceWitness

pub data ContraryWitness : Type 0 where
  after_recorded_cessation : EntityId → Tick → List EventId → ContraryWitness
  claim_type_outside_validity : ClaimType → Tick → List EventId → ContraryWitness

pub data Verdict : Type 0 where
  supported : PhiSupport → Verdict
  unsupported : List AbsenceWitness → Verdict
  contradicted : ContraryWitness → Verdict

pub data VerdictKind : Type 0 where
  is_supported is_unsupported is_contradicted : VerdictKind

unfoldable pub kind : Verdict → VerdictKind
kind (supported _) = is_supported
kind (unsupported _) = is_unsupported
kind (contradicted _) = is_contradicted

unfoldable pub support_of : Verdict → Option PhiSupport
support_of (supported s) = some s
support_of _ = none

pub record Judgment : Type 0 where
  pub verdict : Verdict
  pub filter_version : Bytes
  pub corpus_digest : Bytes

pub record ConsensusProjection : Type 0 where
  pub kind : VerdictKind
  pub support : Option PhiSupport
  pub filter_version : Bytes

unfoldable pub consensus_projection : Judgment → ConsensusProjection
unfolding kind support_of
consensus_projection j = record {
  kind = kind j.verdict;
  support = support_of j.verdict;
  filter_version = j.filter_version;
}

pub record Certificate : Type 0 where
  pub judgment : Judgment
  pub consulted : List EventId
  pub absences : List AbsenceWitness
  pub contradictions : List ContraryWitness

pub data QueryError : Type 0 where
  hop_bound_exceeds_governed : HopBound → HopBound → QueryError
  query_time_is_sentinel : QueryError

pub data FilterError : Type 0 where
  view : ViewError → FilterError
  malformed : QueryError → FilterError

pub data Reachability : Type 0 where
  within : PhiSupport → Reachability
  none_within : AbsenceWitness → Reachability
