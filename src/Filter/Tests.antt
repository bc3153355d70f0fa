-- ===== src/Filter/Tests.antt =====
-- Runs of the filter of crates/cc-filter over a small corpus.
use clockchain.Prelude.{
  ℕ, ◌≢◌, arith, ◌≤◌, ◌≡◌, ◌↔◌, refl, some, List, [], ◌∷◌, map, length, ◌==◌, if◌then◌else◌, Result,
  ok, err,
}
use clockchain.Prelude.Table.{lookup}
use clockchain.Prelude.Ordered.{set_insert, map_insert, set_contains, set_of}
use clockchain.Filter.{
  EventId, sentinel, Tick, EntityId, PhiSupport, reflexive, consulted_of, unrecorded_window, kind,
  support_of, known, known_open, known_closed, Windowed, valid, Edge, ViewError, CorpusView,
  after_recorded_cessation, supported, contradicted, consensus_projection, Judgment, Certificate,
  within,
}
use clockchain.Filter.Reach.{
  Search, edge_lt, edge_eq, edge_insert, canonical, canonical_neighbors, label_edges, label_level,
  met, find_step, expand, advance, search_loop, shortest_distance, labels_loop, backward_labels,
  greedy_walk, known_k,
}
use clockchain.Filter.Fuel.{search_loop-enough}
use clockchain.Filter.Walk.{IsWalk, known_k-IsWalk}
use clockchain.Filter.Judge.{
  Filter, FeasibilityQuery, holds, contrary, start_factor, window_factor, admiss_factor,
  admitted_provenance, tally, conclude, combine, absences_of, contradictions_of, check_query,
  settle, feasibility, certificate_of, certify,
}
use clockchain.Filter.Factors.{InWindow, IsRuling, window_factor-IsRuling}
use clockchain.Filter.Windows.{
  ExistenceWindow, stored_start, stored_end, start_state, closure_state, from_stored, from_core,
  window_factor-stored,
}
use clockchain.Filter.Agree.{SameRuling, certify-agrees}
use clockchain.Filter.Sound.{feasibility-supported}

-- One moment joins 1 and 2, one joins 2 and 3, and 7 ended at 40.
abbrev neighbors : EntityId → Tick → Result (List Edge) ViewError
neighbors e t =
    if e == 1
    then ok (record { other = 2; via = 10 } ∷ [])
    else if e == 2
    then ok (record { other = 3; via = 11 } ∷ record { other = 1; via = 10 } ∷ [])
    else if e == 3
    then ok (record { other = 2; via = 11 } ∷ [])
    else ok []

abbrev neighbors_many : List EntityId → Tick → Result (List (EntityId × List Edge)) ViewError
neighbors_many es t = ok (map (λ e. (e, elim (neighbors e t) [ ok edges ↦ edges | err _ ↦ [] ])) es)

abbrev corpus : CorpusView
corpus = record {
  neighbors = neighbors;
  neighbors_many = neighbors_many;
  window = λ e t. ok (
      if e == 7
      then record { start = known 4; end = known_closed 40; derived_from = 12 ∷ [] }
      else record { start = known 5; end = known_open; derived_from = 13 ∷ [] });
  admissibility = λ c t. ok (valid (14 ∷ []));
  corpus_digest = 255 ∷ [];
}

abbrev filter : Filter
filter = record { k_max = 4; version = 1 ∷ [] }

abbrev ask : EntityId → EntityId → FeasibilityQuery
ask a b = record { subjects = (a, b); t_q = 50; claim = 1; k = 4 }

abbrev path : PhiSupport
path = record {
  hops = 2;
  witness = record { entity = 2; via = 10 } ∷ record { entity = 3; via = 11 } ∷ [];
}

abbrev certificate : Certificate
certificate = record {
  judgment = record { verdict = supported path; filter_version = 1 ∷ []; corpus_digest = 255 ∷ [] };
  consulted = 10 ∷ 11 ∷ 13 ∷ 14 ∷ [];
  absences = [];
  contradictions = [];
}

abbrev ended : Windowed
ended = record { start = known 4; end = known_closed 40; derived_from = 12 ∷ [] }

program : Unit {0}
unfolding lookup set_insert set_of set_contains map_insert reflexive consulted_of unrecorded_window
    kind support_of consensus_projection edge_lt edge_eq edge_insert canonical canonical_neighbors
    label_edges label_level met find_step expand advance search_loop shortest_distance labels_loop
    backward_labels greedy_walk known_k start_factor window_factor admiss_factor admitted_provenance
    tally conclude combine absences_of contradictions_of check_query settle feasibility
    certificate_of certify
program = tt

finds : known_k corpus 1 3 4 50 ≡ ok (within path)
unfolding program
finds = refl

certifies : certify filter corpus (ask 1 3) ≡ ok (some certificate)
unfolding program
certifies = refl

-- A recorded cessation is named though the subject has no walk either.
revokes :
    feasibility filter corpus (ask 3 7)
    ≡ ok (record {
      verdict = contradicted (after_recorded_cessation 7 40 (12 ∷ []));
      filter_version = 1 ∷ [];
      corpus_digest = 255 ∷ [];
    })
unfolding program
revokes = refl

known_k-IsWalk_example :
    IsWalk corpus 50 1 path.witness 3 × (length path.witness ≡ path.hops) × (path.hops ≤ 4)
known_k-IsWalk_example = known_k-IsWalk corpus 1 3 4 50 path finds

window_factor-IsRuling_example :
    (window_factor ended 50 7 ≡ contrary (after_recorded_cessation 7 40 (12 ∷ [])))
    ↔ IsRuling ended 50 7 (contrary (after_recorded_cessation 7 40 (12 ∷ [])))
window_factor-IsRuling_example =
    window_factor-IsRuling ended 50 7 (contrary (after_recorded_cessation 7 40 (12 ∷ [])))

certify-agrees_example :
    (cert : Certificate) × (j : Judgment) × (some certificate ≡ some cert)
    × (feasibility filter corpus (ask 1 3) ≡ ok j)
    × (consensus_projection j ≡ consensus_projection cert.judgment)
    × (j.corpus_digest ≡ cert.judgment.corpus_digest)
    × SameRuling j.verdict cert.judgment.verdict
certify-agrees_example = certify-agrees filter corpus (ask 1 3) (some certificate) certifies

abbrev lived : ExistenceWindow
lived = record { start = known 4; end = known_closed 40 }

window_factor-stored_example :
    (from_stored (start_state lived) (stored_start lived) (closure_state lived) (stored_end lived)
      ≡ lived)
    × ((window_factor (from_core lived (12 ∷ [])) 30 7 ≡ holds)
        ↔ ((stored_start lived ≤ 30) × (30 ≤ stored_end lived)))
window_factor-stored_example = window_factor-stored lived (12 ∷ []) 30 7 (omega arith)

judges : feasibility filter corpus (ask 1 3) ≡ ok certificate.judgment
unfolding program
judges = refl

feasibility-supported_example :
    (4 ≤ filter.k_max)
    × (◌≢◌ {A = ℕ} 50 sentinel)
    × ((w0 : Windowed) × (corpus.window 1 50 ≡ ok w0) × InWindow w0 50)
    × ((w1 : Windowed) × (corpus.window 3 50 ≡ ok w1) × InWindow w1 50)
    × ((es : List EventId) × (corpus.admissibility 1 50 ≡ ok (valid es)))
    × IsWalk corpus 50 1 path.witness 3
    × (length path.witness ≡ path.hops)
    × (path.hops ≤ 4)
feasibility-supported_example =
    feasibility-supported filter corpus (ask 1 3) certificate.judgment path judges refl

abbrev begun : Search
begun = record {
  dist_f = (1, 0) ∷ [];
  dist_b = (3, 0) ∷ [];
  frontier_f = 1 ∷ [];
  frontier_b = 3 ∷ [];
  depth_f = 0;
  depth_b = 0;
}

search_loop-enough_example : search_loop corpus 9 begun 4 50 ≡ search_loop corpus 4 begun 4 50
search_loop-enough_example = search_loop-enough corpus 4 5 begun 4 50 (omega arith)
