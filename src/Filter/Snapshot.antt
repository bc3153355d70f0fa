-- ===== src/Filter/Snapshot.antt =====
-- The in-memory corpus (crates/cc-filter/src/snapshot.rs): the projection of its records, and the
-- view of it. SHA-256 is the parameter `sha256`.
use clockchain.Prelude.{
  ℕ, ◌-◌, ◌^◌, Bool, true, false, ◌&&◌, Option, none, some, List, [], ◌∷◌, ltb, leb, ◌==◌,
  if◌then◌else◌, nat_key, Bytes, Result, ok, err, ◌>>=◌,
}
use clockchain.Prelude.Table.{lookup}
use clockchain.Prelude.Ordered.{map_insert}
use clockchain.Filter.{
  Tick, EntityId, EventId, ClaimType, Start, unknown, known, WindowEnd, known_open, known_closed,
  unknown_closure, Windowed, unrecorded_window, Admitted, valid, unrecorded, outside_validity, Edge,
  ViewError, CorpusView,
}
use clockchain.Filter.Reach.{edge_eq}
use clockchain.Filter.Records.{
  Ruling, Record, SnapshotError, Quad, Neighbor, quad_lt, neighbor_lt, insert_by, Adjacency, Stamp,
  stamp_lt, Stamped, WindowIndex, AdmissIndex, ruled_valid, ruled_outside, co_occurrence,
  window_record, admissibility_record, self_co_occurrence, contradictory_record,
}
use clockchain.Filter.Digest.{digest_of}

-- `entry(k).or_default()`
abbrev pub or_default {ℓ} : {A : Type ℓ} → ℕ → List (ℕ × List A) → List A
or_default k m = elim (lookup k m) [ none ↦ [] | some xs ↦ xs ]

-- `BTreeMap::insert` over stamps: the value that was there, and the map.
unfoldable pub stamp_insert {ℓ} : {V : Type ℓ} → Stamp → V → Stamped V → Option V × Stamped V
stamp_insert s v [] = (none, (s, v) ∷ [])
stamp_insert s v ((s', w) ∷ m) =
    let (prev, rest) = stamp_insert s v m in
    if stamp_lt s s'
    then (none, (s, v) ∷ (s', w) ∷ m)
    else if stamp_lt s' s
    then (prev, (s', w) ∷ rest)
    else (some w, (s, v) ∷ m)

-- `!=` on the values of the two indexes.
unfoldable pub start_eq : Start → Start → Bool
start_eq unknown unknown = true
start_eq (known a) (known b) = a == b
start_eq _ _ = false

unfoldable pub end_eq : WindowEnd → WindowEnd → Bool
end_eq known_open known_open = true
end_eq (known_closed a) (known_closed b) = a == b
end_eq unknown_closure unknown_closure = true
end_eq _ _ = false

unfoldable pub ruling_eq : Ruling → Ruling → Bool
ruling_eq ruled_valid ruled_valid = true
ruling_eq (ruled_outside a) (ruled_outside b) = a == b
ruling_eq _ _ = false

pub record Projection : Type 0 where
  pub cooccurrence : List Quad
  pub adjacency : Adjacency
  pub windows : WindowIndex
  pub admissibility : AdmissIndex

-- `adjacency.entry(e).or_default().insert(n)`
unfoldable pub adjoin : EntityId → Neighbor → Adjacency → Adjacency
adjoin e n adjacency = map_insert e (insert_by neighbor_lt n (or_default e adjacency)) adjacency

-- One round of the loop of `from_records`.
unfoldable pub project : Record → Projection → Result Projection SnapshotError
unfolding adjoin
project (co_occurrence a b at_ via) p =
    let lo = if ltb a b then a else b in
    let hi = if ltb a b then b else a in
    if a == b
    then err (self_co_occurrence a)
    else ok (record p {
      cooccurrence =
          insert_by quad_lt (record { lo = lo; hi = hi; at_ = at_; via = via }) p.cooccurrence;
      adjacency =
          adjoin hi (record { other = lo; via = via; at_ = at_ })
            (adjoin lo (record { other = hi; via = via; at_ = at_ }) p.adjacency);
    })
project (window_record entity recorded_at via start end) p =
    let (prev, stamped) =
      stamp_insert (recorded_at, via) (start, end) (or_default entity p.windows) in
    let next = record p { windows = map_insert entity stamped p.windows } in
    elim prev [
      | none ↦ ok next
      | some (start', end') ↦
          if start_eq start' start && end_eq end' end
          then ok next
          else err (contradictory_record recorded_at via)
    ]
project (admissibility_record claim recorded_at via ruling) p =
    let (prev, stamped) =
      stamp_insert (recorded_at, via) ruling (or_default claim p.admissibility) in
    let next = record p { admissibility = map_insert claim stamped p.admissibility } in
    elim prev [
      | none ↦ ok next
      | some ruling' ↦
          if ruling_eq ruling' ruling then ok next else err (contradictory_record recorded_at via)
    ]

unfoldable pub project_all : List Record → Projection → Result Projection SnapshotError
project_all [] p = ok p
project_all (r ∷ rs) p = do p' ← project r p; project_all rs p'

abbrev pub empty_projection : Projection
empty_projection = record { cooccurrence = []; adjacency = []; windows = []; admissibility = [] }

pub record SnapshotCorpus : Type 0 where
  pub projection : Projection
  pub digest : Bytes

-- `SnapshotCorpus::from_records`
unfoldable pub from_records : (Bytes → Bytes) → List Record → Result SnapshotCorpus SnapshotError
from_records sha256 records = do
  p ← project_all records empty_projection
  ok (record { projection = p; digest = digest_of sha256 p.cooccurrence p.windows p.admissibility })

-- The loop of `neighbors`, with the last edge that it pushed.
unfoldable pub slice : Tick → Option Edge → List Neighbor → List Edge
slice as_of last [] = []
slice as_of last (n ∷ ns) =
    let e : Edge = record { other = n.other; via = n.via } in
    let rest = slice as_of last ns in
    let pushed = e ∷ slice as_of (some e) ns in
    if leb n.at_ as_of
    then (if (elim last [ none ↦ false | some l ↦ edge_eq l e ]) then rest else pushed)
    else rest

unfoldable pub snapshot_neighbors : SnapshotCorpus → EntityId → Tick → Result (List Edge) ViewError
snapshot_neighbors c entity as_of = elim (lookup entity c.projection.adjacency) [
  | none ↦ ok []
  | some adj ↦ ok (slice as_of none adj)
]

-- `EventId::from_bytes([0xff; 32])`
abbrev pub max_event_id : EventId
max_event_id = 2 ^ 256 - 1

-- `range(..=bound).next_back()`
unfoldable pub latest {ℓ} : {V : Type ℓ} → Stamp → Stamped V → Option (Stamp × V)
latest bound [] = none
latest bound ((s, v) ∷ m) =
    let rest = latest bound m in
    if stamp_lt bound s then rest else elim rest [ none ↦ some (s, v) | some x ↦ some x ]

unfoldable pub snapshot_window : SnapshotCorpus → EntityId → Tick → Result Windowed ViewError
unfolding unrecorded_window latest
snapshot_window c entity as_of =
    elim (latest (as_of, max_event_id) (or_default entity c.projection.windows)) [
      | some ((_, via), (start, end)) ↦
          ok (record { start = start; end = end; derived_from = via ∷ [] })
      | none ↦ ok unrecorded_window
    ]

abbrev admitted_by : Ruling → EventId → Admitted
admitted_by ruled_valid via = valid (via ∷ [])
admitted_by (ruled_outside band_end) via = outside_validity band_end (via ∷ [])

unfoldable pub snapshot_admissibility :
    SnapshotCorpus → ClaimType → Tick → Result Admitted ViewError
unfolding latest
snapshot_admissibility c claim as_of =
    elim (latest (as_of, max_event_id) (or_default claim c.projection.admissibility)) [
      | some ((_, via), ruling) ↦ ok (admitted_by ruling via)
      | none ↦ ok unrecorded
    ]

-- The default `neighbors_many` of the trait: the loop over `neighbors`.
unfoldable pub many_loop :
    (EntityId → Tick → Result (List Edge) ViewError)
    → List EntityId
    → Tick
    → List (EntityId × List Edge)
    → Result (List (EntityId × List Edge)) ViewError
many_loop neighbors [] as_of out = ok out
many_loop neighbors (e ∷ es) as_of out = do
  edges ← neighbors e as_of
  many_loop neighbors es as_of (map_insert e edges out)

unfoldable pub view_of : SnapshotCorpus → CorpusView
view_of c = record {
  neighbors = snapshot_neighbors c;
  neighbors_many = λ es as_of. many_loop (snapshot_neighbors c) es as_of [];
  window = snapshot_window c;
  admissibility = snapshot_admissibility c;
  corpus_digest = c.digest;
}
