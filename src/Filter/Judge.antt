-- ===== src/Filter/Judge.antt =====
-- The filter product (crates/cc-filter/src/filter.rs): the factors, the hot path `feasibility` and
-- the audit path `certify`.
use clockchain.Prelude.{
  Bool, true, false, Option, none, some, List, [], ◌∷◌, ◌++◌, ltb, ◌==◌, if◌then◌else◌, Bytes,
  Result, ok, err, ◌>>=◌, ◌≡◌, arith,
}
use clockchain.Prelude.Ordered.{set_of}
use clockchain.Filter.{
  Tick, EntityId, EventId, ClaimType, HopBound, sentinel, PhiSupport, consulted_of, unknown, known,
  known_closed, Windowed, Admitted, valid, unrecorded, outside_validity, ViewError, CorpusView,
  AbsenceWitness, no_recorded_start, before_recorded_start, claim_type_unrecorded, ContraryWitness,
  after_recorded_cessation, claim_type_outside_validity, Verdict, supported, unsupported,
  contradicted, Judgment, Certificate, hop_bound_exceeds_governed, query_time_is_sentinel,
  FilterError, view, malformed, Reachability, within, none_within,
}
use clockchain.Filter.Reach.{known_k}

pub record FeasibilityQuery : Type 0 where
  pub subjects : EntityId × EntityId
  pub t_q : Tick
  pub claim : ClaimType
  pub k : HopBound

pub data FactorOutcome : Type 0 where
  holds : FactorOutcome
  absent : AbsenceWitness → FactorOutcome
  contrary : ContraryWitness → FactorOutcome

-- `params.k_max`, and the version that `version_of` names the parameters by.
pub record Filter : Type 0 where
  pub k_max : HopBound
  pub version : Bytes

-- The arms that look at the start, once no recorded cessation is before `t_q`.
unfoldable pub start_factor : Windowed → Tick → EntityId → FactorOutcome
start_factor w t_q f = elim w.start [
  | unknown ↦ absent (no_recorded_start f)
  | known s ↦ if ltb t_q s then absent (before_recorded_start f s) else holds
]

unfoldable pub window_factor : Windowed → Tick → EntityId → FactorOutcome
unfolding start_factor
window_factor w t_q f = elim w.end [
  | known_closed e ↦
      if ltb e t_q
      then contrary (after_recorded_cessation f e w.derived_from)
      else start_factor w t_q f
  | _ ↦ start_factor w t_q f
]

unfoldable pub admiss_factor : Admitted → ClaimType → FactorOutcome
admiss_factor (valid _) c = holds
admiss_factor unrecorded c = absent (claim_type_unrecorded c)
admiss_factor (outside_validity band_end derived_from) c =
    contrary (claim_type_outside_validity c band_end derived_from)

unfoldable pub admitted_provenance : Admitted → List EventId
admitted_provenance (valid derived_from) = derived_from
admitted_provenance unrecorded = []
admitted_provenance (outside_validity _ derived_from) = derived_from

-- The variables of the loop of `combine`.
pub record Tally : Type 0 where
  pub absences : List AbsenceWitness
  pub first_zero_is_contrary : Option ContraryWitness
  pub any_zero : Bool

unfoldable pub tally : List FactorOutcome → Tally → Tally
tally [] t = t
tally (holds ∷ os) t = tally os t
tally (absent w ∷ os) t = tally os (record t { absences = t.absences ++ w ∷ []; any_zero = true })
tally (contrary w ∷ os) t = tally os (record t {
  first_zero_is_contrary = if t.any_zero then t.first_zero_is_contrary else some w;
  any_zero = true;
})

-- What `combine` reads off the tally; `none` is the panic of its `expect`.
unfoldable pub conclude : Tally → Option PhiSupport → Option Verdict
conclude t support = elim t.first_zero_is_contrary [
  | some by_ ↦ some (contradicted by_)
  | none ↦
      if t.any_zero
      then some (unsupported t.absences)
      else elim support [ none ↦ none | some s ↦ some (supported s) ]
]

unfoldable pub combine : List FactorOutcome → Option PhiSupport → Option Verdict
unfolding tally conclude
combine outcomes support =
    conclude
      (tally outcomes (record { absences = []; first_zero_is_contrary = none; any_zero = false }))
      support

unfoldable pub absences_of : List FactorOutcome → List AbsenceWitness
absences_of [] = []
absences_of (absent w ∷ os) = w ∷ absences_of os
absences_of (_ ∷ os) = absences_of os

unfoldable pub contradictions_of : List FactorOutcome → List ContraryWitness
contradictions_of [] = []
contradictions_of (contrary w ∷ os) = w ∷ contradictions_of os
contradictions_of (_ ∷ os) = contradictions_of os

-- `FilterError::from` on the error of a read.
abbrev pub read {ℓ} : {A : Type ℓ} → Result A ViewError → Result A FilterError
read (ok a) = ok a
read (err e) = err (view e)

pub read-ok {ℓ} : {A : Type ℓ} {x : Result A ViewError} {a : A} → read x ≡ ok a → x ≡ ok a
read-ok {x = ok b} h = ground arith
read-ok {x = err e} h = absurd (ground arith)

-- What `certify` makes of the reachability.
abbrev pub reach_outcome : Reachability → FactorOutcome
reach_outcome (within s) = holds
reach_outcome (none_within w) = absent w

abbrev pub reach_support : Reachability → Option PhiSupport
reach_support (within s) = some s
reach_support (none_within w) = none

abbrev pub reach_consulted : Reachability → List EventId
reach_consulted (within s) = consulted_of s
reach_consulted (none_within w) = []

module _ (f : Filter) where
  unfoldable pub check_query : FeasibilityQuery → Result (Unit {0}) FilterError
  check_query q =
      if ltb f.k_max q.k
      then err (malformed (hop_bound_exceeds_governed q.k f.k_max))
      else if q.t_q == sentinel
      then err (malformed query_time_is_sentinel)
      else ok tt

  module _ (v : CorpusView) where
    abbrev pub judge : Verdict → Judgment
    judge verdict = record {
      verdict = verdict;
      filter_version = f.version;
      corpus_digest = v.corpus_digest;
    }

    -- A factor of the hot path: return on a zero, else go on.
    unfoldable pub settle :
        FactorOutcome → Result Judgment FilterError → Result Judgment FilterError
    settle holds rest = rest
    settle (absent w) rest = ok (judge (unsupported (w ∷ [])))
    settle (contrary w) rest = ok (judge (contradicted w))

    unfoldable pub feasibility : FeasibilityQuery → Result Judgment FilterError
    unfolding settle
    feasibility q = do
      _ ← check_query q
      w0 ← read (v.window q.subjects.0 q.t_q)
      settle (window_factor w0 q.t_q q.subjects.0) (do
        w1 ← read (v.window q.subjects.1 q.t_q)
        settle (window_factor w1 q.t_q q.subjects.1) (do
          a ← read (v.admissibility q.claim q.t_q)
          settle (admiss_factor a q.claim) (do
            reach ← read (known_k v q.subjects.0 q.subjects.1 q.k q.t_q)
            ok (elim reach [
              | within support ↦ judge (supported support)
              | none_within w ↦ judge (unsupported (w ∷ []))
            ]))))

    -- The certificate from the outcomes; `none` is a panic.
    unfoldable pub certificate_of :
        List FactorOutcome → List EventId → Option PhiSupport → Option Certificate
    certificate_of outcomes consulted support = elim (combine outcomes support) [
      | none ↦ none
      | some verdict ↦ some (record {
        judgment = judge verdict;
        consulted = set_of consulted;
        absences = absences_of outcomes;
        contradictions = contradictions_of outcomes;
      })
    ]

    -- The audit path reads every factor, and only then folds.
    unfoldable pub certify : FeasibilityQuery → Result (Option Certificate) FilterError
    certify q = do
      _ ← check_query q
      w0 ← read (v.window q.subjects.0 q.t_q)
      w1 ← read (v.window q.subjects.1 q.t_q)
      a ← read (v.admissibility q.claim q.t_q)
      reach ← read (known_k v q.subjects.0 q.subjects.1 q.k q.t_q)
      ok (
          certificate_of
            (window_factor w0 q.t_q q.subjects.0
              ∷ window_factor w1 q.t_q q.subjects.1
              ∷ admiss_factor a q.claim
              ∷ reach_outcome reach
              ∷ [])
            (w0.derived_from ++ w1.derived_from ++ admitted_provenance a ++ reach_consulted reach)
            (reach_support reach))
