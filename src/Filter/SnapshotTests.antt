-- ===== src/Filter/SnapshotTests.antt =====
-- The in-memory corpus of crates/cc-filter/src/snapshot.rs on three records.
use clockchain.Prelude.{◌≡◌, refl, List, [], ◌∷◌, Bytes, nat_key, ok, err}
use clockchain.Prelude.Table.{lookup}
use clockchain.Prelude.Ordered.{map_insert}
use clockchain.Filter.{known, known_open, known_closed, unrecorded_window, Edge}
use clockchain.Filter.Reach.{edge_eq}
use clockchain.Filter.Walk.{has_edge}
use clockchain.Filter.Records.{
  Record, co_occurrence, window_record, admissibility_record, ruled_valid, contradictory_record,
  quad_lt, neighbor_lt, insert_by,
}
use clockchain.Filter.Digest.{digest_of}
use clockchain.Filter.Snapshot.{
  SnapshotCorpus, stamp_insert, start_eq, end_eq, ruling_eq, adjoin, project, project_all,
  from_records, slice, snapshot_neighbors, latest, snapshot_window, snapshot_admissibility,
  many_loop, view_of,
}
use clockchain.Filter.Slices.{any_evidences, neighbors-evidences, neighbors-symmetric}

program : Unit {0}
unfolding digest_of lookup map_insert edge_eq unrecorded_window quad_lt neighbor_lt insert_by
    stamp_insert start_eq end_eq ruling_eq adjoin project project_all from_records slice
    snapshot_neighbors latest snapshot_window snapshot_admissibility many_loop view_of
program = tt

-- Any function serves as the hash.
abbrev sha256 : Bytes → Bytes
sha256 x = 0 ∷ []

-- 2 meets 1 at 5 and again at 9, by one event; the window of 1 is closed at 7.
abbrev records : List Record
records =
    co_occurrence 2 1 5 30
    ∷ window_record 1 7 31 (known 2) (known_closed 6)
    ∷ co_occurrence 1 2 9 30
    ∷ window_record 1 3 32 (known 2) known_open
    ∷ admissibility_record 4 3 33 ruled_valid
    ∷ []

abbrev corpus : SnapshotCorpus
corpus = record {
  projection = record {
    cooccurrence =
        record { lo = 1; hi = 2; at_ = 5; via = 30 }
        ∷ record { lo = 1; hi = 2; at_ = 9; via = 30 }
        ∷ [];
    adjacency =
        (1, record { other = 2; via = 30; at_ = 5 } ∷ record { other = 2; via = 30; at_ = 9 } ∷ [])
        ∷ (
          2,
          record { other = 1; via = 30; at_ = 5 } ∷ record { other = 1; via = 30; at_ = 9 } ∷ [],
        )
        ∷ [];
    windows =
        (1, ((3, 32), (known 2, known_open)) ∷ ((7, 31), (known 2, known_closed 6)) ∷ []) ∷ [];
    admissibility = (4, ((3, 33), ruled_valid) ∷ []) ∷ [];
  };
  digest = 0 ∷ [];
}

projects : from_records sha256 records ≡ ok corpus
unfolding program
projects = refl

-- One edge though the event stands twice, and none before the moment.
dedups : snapshot_neighbors corpus 1 10 ≡ ok (record { other = 2; via = 30 } ∷ [])
unfolding program
dedups = refl

not_yet : snapshot_neighbors corpus 1 4 ≡ ok []
unfolding program
not_yet = refl

-- A later record does not touch an earlier coordinate.
still_open :
    snapshot_window corpus 1 6
    ≡ ok (record { start = known 2; end = known_open; derived_from = 32 ∷ [] })
unfolding program
still_open = refl

rejects :
    from_records sha256 (window_record 1 7 31 (known 2) known_open ∷ records)
    ≡ err (contradictory_record 7 31)
unfolding program
rejects = refl

neighbors-evidences_example :
    (es : List Edge) × (snapshot_neighbors corpus 1 6 ≡ ok es)
    × ((e : Edge) → has_edge e es ≡ any_evidences 1 e 6 records)
neighbors-evidences_example = neighbors-evidences sha256 records corpus 1 6 projects

back : snapshot_neighbors corpus 2 10 ≡ ok (record { other = 1; via = 30 } ∷ [])
unfolding program
back = refl

neighbors-symmetric_example :
    has_edge (record { other = 2; via = 30 }) (record { other = 2; via = 30 } ∷ [])
    ≡ has_edge (record { other = 1; via = 30 }) (record { other = 1; via = 30 } ∷ [])
neighbors-symmetric_example =
    neighbors-symmetric sha256 records corpus 1 2 30 10 (record { other = 2; via = 30 } ∷ [])
      (record { other = 1; via = 30 } ∷ []) projects dedups back
