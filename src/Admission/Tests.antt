-- ===== src/Admission/Tests.antt =====
-- A ledger for `classify` of crates/cc-ledger/src/v1.rs: a genesis, a correction by the holder of the
-- root grant, one by another author, an event without its parent and a cycle.
use clockchain.Prelude.{
  ℕ, ◌≡◌, ◌↔◌, refl, true, Option, none, some, List, [], ◌∷◌, arith, nat_key, bytes_eq, get_or,
}
use clockchain.Prelude.Table.{lookup, contains_key, IsDistinct}
use clockchain.Prelude.Ordered.{map_insert, set_insert, set_contains}
use clockchain.Wire.{Hash, to_be_bytes}
use clockchain.Wire.Event.{
  SubjectKey, Kind, TargetKind, Value, Decision, Payload, kind_of, decision_of,
}
use clockchain.Wire.Signed.{Crypto, Signed, concat_hashes, domain_bytes, domain_hash, root_grant}
use clockchain.Ledger.{
  Events, any_absent, round, rounds, schedule, cone, cone_loop, links, push_all, body, body_loop,
  choice_of,
}
use clockchain.Ledger.Authority.{
  Grant, lineages, trace, gather, set_union, grant_made, register, path_of, revocations,
  add_revocation, signer, filter_of, any_of, covers, outside, controls_of, select_not,
}
use clockchain.Ledger.Derive.{
  derive, derive_from, sort_by_depth, depth, insert_by_depth, relinquishes, effective_from,
  takes_effect, cancellations, cancellations_from, cancel, buried, effects_from, suppress_loop,
  suppress, inherited_controls, max_length,
}
use clockchain.Ledger.Governed.{Makes}
use clockchain.Edges.{
  Cause, Statuses, status_valid, status_invalid, status_pending, is_subject, absent, dedup,
  dedup_after,
}
use clockchain.Edges.Evaluate.{states_of, any_state, decided}
use clockchain.Admission.{
  same_kind, same_subject_key, not_subject, check_parents, cones_of, any_comparable, insert_all,
  union_of, any_inactive, unauthorized, evaluate_authority, evaluate_decision, evaluate_parents,
  evaluate_child, evaluate_header, evaluate_subject,
}
use clockchain.Admission.Payloads.{check_by_kind, check_correction}
use clockchain.Admission.Classify.{
  count_subjects, is_ready, any_foreign, close_subjects, subject_pass, subject_passes,
  classify_subjects,
}
use clockchain.Admission.Views.{GrantsApart}
use clockchain.Admission.Classify.{admission, Analysis, analyze}
use clockchain.Ledger.{
  selections, select, selected, revisions_from, collect, revision_of, revisions,
}
use clockchain.Wire.Signed.{revision_id}
use clockchain.Edges.{valid_subjects, new_subjects}
use clockchain.Edges.Evaluate.{evaluate, evaluate_payload, evaluate_attestation, evaluate_target}
use clockchain.Edges.Classify.{
  classify, classify_stage, passes, pass, close_cycles, ids_of, is_settled, all_settled,
}
use clockchain.Admission.Analyzed.{IsAnalysis, analyze-IsAnalysis}
use clockchain.Admission.Admitted.{classify_subjects-Returns}

-- The hash of a root grant is 0.
abbrev pub toy : Crypto ℕ
toy = record {
  hash = λ p. get_or p 81 0;
  is_key = λ a. true;
  verify = λ a p s. true;
  author = λ key. key;
  sign_message = λ key p. [];
}

abbrev subject_key : Option SubjectKey
subject_key = some (record { kind = b'k' ∷ []; namespace = b'n' ∷ []; value = b'v' ∷ [] })

abbrev decision : List Hash → Decision
decision parents = record {
  kind = Kind.correction;
  rationale = b'r' ∷ [];
  evidence = 50 ∷ [];
  parents = parents;
  old = Value.body 70;
  new = Value.body 71;
}

abbrev start : Signed
start = record {
  envelope = record {
    instance = 0;
    author = 9;
    subject = none;
    subject_key = subject_key;
    grant = none;
    parents = [];
    asserted_time = none;
    payload = Payload.genesis 60 70 [];
  };
  id = 1;
  bytes = [];
}

abbrev correction : Hash → Hash → List Hash → Signed
correction id author parents = record {
  envelope = record {
    instance = 0;
    author = author;
    subject = some 1;
    subject_key = subject_key;
    grant = some 0;
    parents = parents;
    asserted_time = none;
    payload = Payload.correction 71 (decision parents);
  };
  id = id;
  bytes = [];
}

-- Media about the correction.
abbrev attestation : Signed
attestation = record {
  envelope = record {
    instance = 0;
    author = 5;
    subject = none;
    subject_key = none;
    grant = none;
    parents = [];
    asserted_time = none;
    payload = Payload.attestation TargetKind.event 2 (b'a' ∷ []) 90;
  };
  id = 7;
  bytes = [];
}

abbrev pub ledger : Events
ledger =
    (1, start)
    ∷ (2, correction 2 9 (1 ∷ []))
    ∷ (3, correction 3 8 (1 ∷ []))
    ∷ (4, correction 4 9 (77 ∷ []))
    ∷ (5, correction 5 9 (6 ∷ []))
    ∷ (6, correction 6 9 (5 ∷ []))
    ∷ (7, attestation)
    ∷ []

classify_test :
    classify_subjects toy ledger
    ≡ some (
        (1, status_valid)
        ∷ (2, status_valid)
        ∷ (3, status_invalid Cause.parent_authority)
        ∷ (4, status_pending Cause.parent_missing (77 ∷ []))
        ∷ (5, status_invalid Cause.cycle)
        ∷ (6, status_invalid Cause.cycle)
        ∷ [])
unfolding classify_subjects subject_passes subject_pass close_subjects count_subjects is_ready
    any_foreign any_absent lookup map_insert set_contains is_subject kind_of decision_of
    evaluate_subject evaluate_header evaluate_child evaluate_parents evaluate_decision
    evaluate_authority not_subject any_of states_of any_state absent dedup dedup_after check_parents
    same_subject_key same_kind bytes_eq decided cones_of cone cone_loop links push_all
    any_comparable insert_all union_of unauthorized any_inactive check_by_kind check_correction body
    body_loop choice_of derive derive_from lineages schedule rounds round trace gather set_union
    set_insert grant_made register path_of root_grant domain_hash domain_bytes concat_hashes
    to_be_bytes revocations add_revocation sort_by_depth depth insert_by_depth relinquishes signer
    filter_of effective_from takes_effect covers outside cancellations cancellations_from cancel
    controls_of buried effects_from suppress_loop suppress inherited_controls max_length select_not
classify_test = refl

admission_test :
    admission toy ledger
    ≡ some (
        (1, status_valid)
        ∷ (2, status_valid)
        ∷ (3, status_invalid Cause.parent_authority)
        ∷ (4, status_pending Cause.parent_missing (77 ∷ []))
        ∷ (5, status_invalid Cause.cycle)
        ∷ (6, status_invalid Cause.cycle)
        ∷ (7, status_valid)
        ∷ [])
unfolding admission classify classify_stage passes pass close_cycles ids_of is_settled all_settled
    new_subjects valid_subjects selections select selected revisions revisions_from collect
    revision_of revision_id evaluate evaluate_payload evaluate_attestation evaluate_target
    classify_subjects subject_passes subject_pass close_subjects count_subjects is_ready any_foreign
    any_absent lookup map_insert set_contains is_subject kind_of decision_of evaluate_subject
    evaluate_header evaluate_child evaluate_parents evaluate_decision evaluate_authority not_subject
    any_of states_of any_state absent dedup dedup_after check_parents same_subject_key same_kind
    bytes_eq decided cones_of cone cone_loop links push_all any_comparable insert_all union_of
    unauthorized any_inactive check_by_kind check_correction body body_loop choice_of derive
    derive_from lineages schedule rounds round trace gather set_union set_insert grant_made register
    path_of root_grant domain_hash domain_bytes concat_hashes to_be_bytes revocations add_revocation
    sort_by_depth depth insert_by_depth relinquishes signer filter_of effective_from takes_effect
    covers outside cancellations cancellations_from cancel controls_of buried effects_from
    suppress_loop suppress inherited_controls max_length select_not
admission_test = refl

pub ledger-IsDistinct : IsDistinct ledger
unfolding lookup
ledger-IsDistinct = (refl, (refl, (refl, (refl, (refl, (refl, (refl, tt)))))))

-- What makes a grant is the genesis event.
maker :
    (x : Hash) (e : Signed) (g : Hash) (a : Grant)
    → lookup x ledger ≡ some e
    → Makes toy ledger x e g a
    → x ≡ 1
unfolding lookup grant_made
maker x e g a held makes = ground (arith, held, makes)

pub apart : GrantsApart toy ledger
apart x y e f g a b x_held y_held x_makes y_makes =
    ground (arith, maker x e g a x_held x_makes, maker y f g b y_held y_makes)

classify_subjects-Returns_example :
    (out : Statuses) × (classify_subjects toy ledger ≡ some out)
    × ((x : Hash)
        → (contains_key x out ≡ true)
          ↔ ((e : Signed) × (lookup x ledger ≡ some e) × (is_subject e ≡ true)))
classify_subjects-Returns_example = classify_subjects-Returns toy ledger ledger-IsDistinct apart

analyze-IsAnalysis_example :
    (a : Analysis) × (analyze toy ledger ≡ some a) × IsAnalysis toy ledger a
analyze-IsAnalysis_example = analyze-IsAnalysis toy ledger ledger-IsDistinct apart
