-- ===== src/Edges/Tests.antt =====
-- Two subjects and a dispute between them, for crates/cc-ledger/src/v1/edges.rs.
use clockchain.Prelude.{
  List, false, ℕ, ◌≡◌, ◌↔◌, refl, true, none, some, [], ◌∷◌, bytes_eq, get_or, nat_key,
}
use clockchain.Prelude.Table.{lookup}
use clockchain.Prelude.Ordered.{map_insert, set_contains}
use clockchain.Wire.{Hash, to_be_bytes}
use clockchain.Wire.Event.{Pins, Kind, TargetKind, Value, Decision, Payload, kind_of}
use clockchain.Wire.Signed.{Crypto, Signed, concat_hashes, domain_bytes, domain_hash, revision_id}
use clockchain.Ledger.{
  Events, choice_of, any_absent, round, rounds, schedule, selected, select, selections, revision_of,
  collect, revisions_from, revisions,
}
use clockchain.Ledger.Authority.{set_union, any_of, select_not}
use clockchain.Edges.{
  Cause, status_valid, status_invalid, status_pending, Statuses, Subjects, is_subject,
  valid_subjects, new_subjects, absent, dedup, dedup_after, check_revision, misplaced, check_basis,
  check_pin, combine_pins, check_pins,
}
use clockchain.Edges.Evaluate.{
  disputes, any_equal, pin_eq, pins_eq, decided, check_dispute, evaluate_assert, evaluate_payload,
  evaluate, evaluate_attestation, evaluate_target,
}
use clockchain.Edges.Classify.{
  classify, classify_stage, passes, pass, close_cycles, ids_of, is_settled, all_settled,
}
use clockchain.Edges.Endpoint.{
  SubjectReading, resolved, Stale, creates, set_difference, endpoint_at, endpoint,
}
use clockchain.Edges.Assertion.{IsAssertion, evaluate-IsAssertion}

-- The hash of a revision is the last byte of its event.
abbrev toy : Crypto ℕ
toy = record {
  hash = λ p. get_or p 81 0;
  is_key = λ a. true;
  verify = λ a p s. true;
  author = λ key. key;
  sign_message = λ key p. [];
}

abbrev signed : Hash → Hash → Payload → Signed
signed id author payload = record {
  envelope = record {
    instance = 0;
    author = author;
    subject = none;
    subject_key = none;
    grant = none;
    parents = [];
    asserted_time = none;
    payload = payload;
  };
  id = id;
  bytes = [];
}

abbrev both_pins : Pins
both_pins = record {
  source = record { subject = 1; basis = 1; revision = 1; body = 70 };
  target = record { subject = 2; basis = 2; revision = 2; body = 80 };
}

abbrev decision : Decision
decision = record {
  kind = Kind.edge_assert;
  rationale = b'r' ∷ [];
  evidence = 50 ∷ [];
  parents = [];
  old = Value.nothing;
  new = Value.pins both_pins;
}

abbrev dispute : Hash → Hash → Signed
dispute id author = signed id author (Payload.edge_assert disputes both_pins decision)

-- The author of event 1 disputes event 2, and so does another.
abbrev all : Events
all =
    (1, signed 1 9 (Payload.genesis 60 70 []))
    ∷ (2, signed 2 8 (Payload.genesis 61 80 []))
    ∷ (3, dispute 3 9)
    ∷ (4, dispute 4 7)
    ∷ (5, signed 5 7 (Payload.attestation TargetKind.revision 3 (b'a' ∷ []) 90))
    ∷ []

abbrev statuses : Statuses
statuses = (1, status_valid) ∷ (2, status_valid) ∷ []

abbrev subjects : Subjects
subjects = record {
  valid =
      (1, signed 1 9 (Payload.genesis 60 70 [])) ∷ (2, signed 2 8 (Payload.genesis 61 80 [])) ∷ [];
  selected = (1, 1) ∷ (2, 2) ∷ [];
  revisions =
      (1, record { id = 1; subject = 1; creating_event = 1; body = 70; asserted_time = none })
      ∷ (2, record { id = 2; subject = 2; creating_event = 2; body = 80; asserted_time = none })
      ∷ [];
}

subjects_test : new_subjects toy all statuses ≡ some subjects
unfolding new_subjects valid_subjects lookup selections schedule rounds round any_absent select
    selected choice_of map_insert revisions revisions_from collect revision_of revision_id
    domain_hash domain_bytes concat_hashes to_be_bytes is_subject kind_of
subjects_test = refl

dispute_test : evaluate all statuses subjects 3 ≡ some status_valid
unfolding evaluate evaluate_payload evaluate_assert decided any_equal check_dispute check_pins
    check_pin check_basis check_revision misplaced combine_pins absent dedup dedup_after set_union
    pins_eq pin_eq lookup bytes_eq kind_of is_subject
dispute_test = refl

other_author_test :
    evaluate all statuses subjects 4 ≡ some (status_invalid Cause.dispute_counterclaim)
unfolding evaluate evaluate_payload evaluate_assert decided any_equal check_dispute check_pins
    check_pin check_basis check_revision misplaced combine_pins absent dedup dedup_after set_union
    pins_eq pin_eq lookup bytes_eq kind_of is_subject
other_author_test = refl

media_test :
    evaluate all statuses subjects 5 ≡ some (status_pending Cause.revision_missing (3 ∷ []))
unfolding evaluate evaluate_payload evaluate_attestation evaluate_target lookup
media_test = refl

classify_test :
    classify toy all statuses
    ≡ some (
        (1, status_valid)
        ∷ (2, status_valid)
        ∷ (3, status_valid)
        ∷ (4, status_invalid Cause.dispute_counterclaim)
        ∷ (5, status_pending Cause.revision_missing (3 ∷ []))
        ∷ [])
unfolding classify classify_stage passes pass close_cycles ids_of is_settled all_settled map_insert
    new_subjects valid_subjects is_subject kind_of lookup selections schedule rounds round
    any_absent select selected choice_of revisions revisions_from collect revision_of revision_id
    domain_hash domain_bytes concat_hashes to_be_bytes evaluate evaluate_payload evaluate_assert
    decided bytes_eq any_equal check_dispute check_pins check_pin check_basis check_revision
    misplaced combine_pins absent dedup dedup_after set_union pins_eq pin_eq evaluate_attestation
    evaluate_target
classify_test = refl

-- The first subject is corrected by event 6.
abbrev corrected : Subjects
corrected = record subjects {
  valid =
      (1, signed 1 9 (Payload.genesis 60 70 []))
      ∷ (6, signed 6 9 (Payload.correction 71 decision))
      ∷ [];
  selected = (1, 1) ∷ (6, 6) ∷ [];
}

abbrev reading : Hash → SubjectReading
reading head = record { subject = 1; frontier = head ∷ []; state = resolved; frozen = false }

abbrev pasts : List (Hash × List Hash)
pasts = (1, 1 ∷ []) ∷ (6, 1 ∷ 6 ∷ []) ∷ []

current_test : endpoint corrected pasts ((1, reading 1) ∷ []) both_pins.source ≡ some none
unfolding endpoint endpoint_at lookup any_of set_difference set_contains select_not
current_test = refl

corrected_test :
    endpoint corrected pasts ((1, reading 6) ∷ []) both_pins.source
    ≡ some (some Stale.revision_changed)
unfolding endpoint endpoint_at lookup set_contains
corrected_test = refl

created_test :
    endpoint corrected pasts ((1, reading 6) ∷ []) (record both_pins.source { revision = 6 })
    ≡ some (some Stale.revision_created_since_basis)
unfolding endpoint endpoint_at lookup any_of set_difference set_contains select_not creates
created_test = refl

third_held : lookup 3 all ≡ some (dispute 3 9)
unfolding lookup
third_held = refl

evaluate-IsAssertion_example :
    (evaluate all statuses subjects 3 ≡ some status_valid)
    ↔ IsAssertion all statuses subjects (dispute 3 9).envelope disputes both_pins decision
evaluate-IsAssertion_example =
    evaluate-IsAssertion all statuses subjects 3 (dispute 3 9) disputes both_pins decision
      third_held refl
