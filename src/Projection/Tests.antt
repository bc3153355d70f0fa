-- ===== src/Projection/Tests.antt =====
-- The reading of a small ledger by `project` of crates/cc-ledger/src/v1/projection.rs.
use clockchain.Prelude.{
  ◌≡◌, ◌↔◌, refl, true, false, some, List, [], ◌∷◌, All, map, nat_key, bytes_eq,
}
use clockchain.Prelude.Table.{lookup}
use clockchain.Wire.{Hash}
use clockchain.Ledger.{Events}
use clockchain.Ledger.Authority.{keys}
use clockchain.Ledger.Selections.{Selects}
use clockchain.Ledger.Where.{events_where}
use clockchain.Edges.Endpoint.{ReadingState, SubjectReading}
use clockchain.Admission.Classify.{Analysis, admitted_subjects, analyze}
use clockchain.Admission.Tests.{toy, ledger, ledger-IsDistinct, apart}
use clockchain.Edges.Endpoint.{set_difference}
use clockchain.Prelude.Ordered.{map_insert, set_insert, set_contains}
use clockchain.Wire.{to_be_bytes}
use clockchain.Wire.Event.{kind_of, decision_of}
use clockchain.Wire.Signed.{concat_hashes, domain_bytes, domain_hash, root_grant}
use clockchain.Ledger.{
  any_absent, round, rounds, schedule, cone, cone_loop, links, push_all, body, body_loop, choice_of,
}
use clockchain.Ledger.Authority.{
  lineages, trace, gather, set_union, grant_made, register, path_of, revocations, add_revocation,
  signer, filter_of, any_of, covers, outside, controls_of, select_not,
}
use clockchain.Ledger.Derive.{
  derive, derive_from, sort_by_depth, depth, insert_by_depth, relinquishes, effective_from,
  takes_effect, cancellations, cancellations_from, cancel, buried, effects_from, suppress_loop,
  suppress, inherited_controls, max_length,
}
use clockchain.Edges.{is_subject, absent, dedup, dedup_after}
use clockchain.Edges.Evaluate.{states_of, any_state, decided}
use clockchain.Admission.{
  same_kind, same_subject_key, not_subject, check_parents, cones_of, any_comparable, insert_all,
  union_of, any_inactive, unauthorized, evaluate_authority, evaluate_decision, evaluate_parents,
  evaluate_child, evaluate_header, evaluate_subject,
}
use clockchain.Admission.Payloads.{check_by_kind, check_correction}
use clockchain.Admission.Classify.{
  count_subjects, is_ready, any_foreign, close_subjects, subject_pass, subject_passes,
  classify_subjects,
}
use clockchain.Admission.Classify.{admission}
use clockchain.Ledger.{
  selections, select, selected, revisions_from, collect, revision_of, revisions,
}
use clockchain.Wire.Signed.{revision_id}
use clockchain.Edges.{valid_subjects, new_subjects}
use clockchain.Edges.Evaluate.{evaluate, evaluate_payload, evaluate_attestation, evaluate_target}
use clockchain.Edges.Classify.{
  classify, classify_stage, passes, pass, close_cycles, ids_of, is_settled, all_settled,
}
use clockchain.Projection.{
  ancestors_of, read_subjects, read_subject, events_of, frontier_of, consumed_by, has_effect,
  common_of, shared_by, set_intersection, put_rows, classify_row, state_of, is_frozen,
  ProjectionState, Standing, Row, Ancestors, project_subjects,
}
use clockchain.Projection.Pasts.{starts}
use clockchain.Projection.Projected.{IsRead, project_subjects-AreReadings}

-- The correction is the head.
project_test :
    project_subjects toy ledger
    ≡ some (
      (1, 1) ∷ (2, 2) ∷ [],
      record { subject = 1; frontier = 2 ∷ []; state = ReadingState.resolved; frozen = false } ∷ [],
      (1, record { state = ProjectionState.superseded; reason = Standing.plain; frontier = false })
          ∷ (2, record { state = ProjectionState.head; reason = Standing.plain; frontier = true })
          ∷ [],
    )
unfolding project_subjects analyze admitted_subjects ancestors_of read_subjects read_subject
    events_of frontier_of consumed_by has_effect common_of shared_by set_intersection set_difference
    put_rows classify_row state_of is_frozen admission classify classify_stage passes pass
    close_cycles ids_of is_settled all_settled new_subjects valid_subjects selections select
    selected revisions revisions_from collect revision_of revision_id evaluate evaluate_payload
    evaluate_attestation evaluate_target classify_subjects subject_passes subject_pass
    close_subjects count_subjects is_ready any_foreign any_absent lookup map_insert set_contains
    is_subject kind_of decision_of evaluate_subject evaluate_header evaluate_child evaluate_parents
    evaluate_decision evaluate_authority not_subject any_of states_of any_state absent dedup
    dedup_after check_parents same_subject_key same_kind bytes_eq decided cones_of cone cone_loop
    links push_all any_comparable insert_all union_of unauthorized any_inactive check_by_kind
    check_correction body body_loop choice_of derive derive_from lineages schedule rounds round
    trace gather set_union set_insert grant_made register path_of root_grant domain_hash
    domain_bytes concat_hashes to_be_bytes revocations add_revocation sort_by_depth depth
    insert_by_depth relinquishes signer filter_of effective_from takes_effect covers outside
    cancellations cancellations_from cancel controls_of buried effects_from suppress_loop suppress
    inherited_controls max_length select_not
project_test = refl

project_subjects-AreReadings_example :
    (a : Analysis) × (valid : Events) × (ancestors : Ancestors) × (selected : List (Hash × Hash))
    × (readings : List SubjectReading) × (states : List (Hash × Row)) × (analyze toy ledger
        ≡ some a)
    × (admitted_subjects ledger a.admission ≡ some valid)
    × (project_subjects toy ledger ≡ some (selected, readings, states))
    × ((x r : Hash) → (lookup x selected ≡ some r) ↔ Selects toy valid x r)
    × All (IsRead valid a.authority ancestors states) readings
    × (map (λ (r : SubjectReading). r.subject) readings ≡ keys (events_where starts valid))
project_subjects-AreReadings_example =
    project_subjects-AreReadings toy ledger ledger-IsDistinct apart
