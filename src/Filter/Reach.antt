-- ===== src/Filter/Reach.antt =====
-- Bounded reachability (crates/cc-filter/src/reach.rs): the bidirectional search for the distance,
-- the backward labels, and the least walk.
use clockchain.Prelude.{
  is_empty, ℕ, zero, suc, ◌+◌, Bool, false, not, ◌&&◌, ◌||◌, Option, none, some, List, [], ◌∷◌, ltb,
  leb, ◌==◌, if◌then◌else◌, length, min, Bytes, Result, ok, err, nat_key, ◌>>=◌,
}
use clockchain.Prelude.Table.{lookup}
use clockchain.Prelude.Ordered.{set_insert, map_insert}
use clockchain.Filter.{
  Tick, EntityId, HopBound, WalkStep, reflexive, Edge, ViewError, decode, CorpusView,
  no_evidenced_walk, Reachability, within, none_within,
}

-- The text of the decoding error, in ASCII.
abbrev pub inconsistent_labels : Bytes
inconsistent_labels =
    98 ∷ 97 ∷ 99 ∷ 107 ∷ 119 ∷ 97 ∷ 114 ∷ 100 ∷ 32 ∷ 100 ∷ 105 ∷ 115 ∷ 116 ∷ 97 ∷ 110 ∷ 99 ∷ 101
    ∷ 32 ∷ 108 ∷ 97 ∷ 98 ∷ 101 ∷ 108 ∷ 115 ∷ 32 ∷ 97 ∷ 114 ∷ 101 ∷ 32 ∷ 105 ∷ 110 ∷ 99 ∷ 111 ∷ 110
    ∷ 115 ∷ 105 ∷ 115 ∷ 116 ∷ 101 ∷ 110 ∷ 116 ∷ 32 ∷ 119 ∷ 105 ∷ 116 ∷ 104 ∷ 32 ∷ 116 ∷ 104 ∷ 101
    ∷ 32 ∷ 110 ∷ 101 ∷ 105 ∷ 103 ∷ 104 ∷ 98 ∷ 111 ∷ 117 ∷ 114 ∷ 32 ∷ 114 ∷ 101 ∷ 108 ∷ 97 ∷ 116
    ∷ 105 ∷ 111 ∷ 110 ∷ []

-- The derived order of `Edge`, by `(other, via)`.
unfoldable pub edge_lt : Edge → Edge → Bool
edge_lt a b = ltb a.other b.other || (a.other == b.other && ltb a.via b.via)

unfoldable pub edge_eq : Edge → Edge → Bool
edge_eq a b = a.other == b.other && a.via == b.via

unfoldable pub edge_insert : Edge → List Edge → List Edge
edge_insert e [] = e ∷ []
edge_insert e (f ∷ es) =
    if edge_lt e f then e ∷ f ∷ es else if edge_eq e f then f ∷ es else f ∷ edge_insert e es

-- `edges.sort_unstable(); edges.dedup();`
unfoldable pub canonical : List Edge → List Edge
canonical [] = []
canonical (e ∷ es) = edge_insert e (canonical es)

module _ (v : CorpusView) where
  unfoldable pub canonical_neighbors : EntityId → Tick → Result (List Edge) ViewError
  canonical_neighbors entity as_of = do edges ← v.neighbors entity as_of; ok (canonical edges)

-- Distances by entity, as `BTreeMap<EntityId, u16>`, and the frontier, as `BTreeSet<EntityId>`.
abbrev pub Labels : Type 0
Labels = List (EntityId × ℕ)

abbrev pub Level : Type 0
Level = Labels × List EntityId

-- The loop over the edges of one entity: only a vacant entry is labelled.
unfoldable pub label_edges : ℕ → List Edge → Level → Level
label_edges depth [] (dist, next) = (dist, next)
label_edges depth (edge ∷ edges) (dist, next) =
    label_edges depth edges (elim (lookup edge.other dist) [
      | none ↦ (map_insert edge.other depth dist, set_insert edge.other next)
      | some _ ↦ (dist, next)
    ])

-- The loop over the entities of the level, with what the store fetched.
unfoldable pub label_level : ℕ → List (EntityId × List Edge) → List EntityId → Level → Level
unfolding label_edges
label_level depth fetched [] level = level
label_level depth fetched (e ∷ es) level = label_level depth fetched es (
    label_edges depth (canonical (elim (lookup e fetched) [ none ↦ [] | some edges ↦ edges ]))
      level)

-- The least `df + db` over the entities that both sides have labelled.
unfoldable pub met : Labels → Labels → Option ℕ
met [] dist_b = none
met ((e, df) ∷ dist_f) dist_b =
    let rest = met dist_f dist_b in
    elim (lookup e dist_b) [
      | none ↦ rest
      | some db ↦ elim rest [ none ↦ some (df + db) | some d ↦ some (min (df + db) d) ]
    ]

pub record Search : Type 0 where
  pub dist_f : Labels
  pub dist_b : Labels
  pub frontier_f : List EntityId
  pub frontier_b : List EntityId
  pub depth_f : ℕ
  pub depth_b : ℕ

-- `find(|e| back.get(&e.other) == Some(&(remaining - 1)))`
unfoldable pub find_step : ℕ → Labels → List Edge → Option Edge
find_step wanted back [] = none
find_step wanted back (e ∷ es) =
    if (elim (lookup e.other back) [ none ↦ false | some d ↦ d == wanted ])
    then some e
    else find_step wanted back es

module _ (v : CorpusView) where
  unfoldable pub expand : List EntityId → Labels → ℕ → Tick → Result Level ViewError
  unfolding label_level
  expand frontier dist depth as_of = do
    fetched ← v.neighbors_many frontier as_of
    ok (label_level depth fetched frontier (dist, []))

  -- One round of the search: the side with the smaller frontier goes one level deeper.
  unfoldable pub advance : Search → Tick → Result Search ViewError
  advance s as_of =
      if leb (length s.frontier_f) (length s.frontier_b)
      then (do
        (dist, frontier) ← expand s.frontier_f s.dist_f (s.depth_f + 1) as_of
        ok (record s { dist_f = dist; frontier_f = frontier; depth_f = s.depth_f + 1 }))
      else (do
        (dist, frontier) ← expand s.frontier_b s.dist_b (s.depth_b + 1) as_of
        ok (record s { dist_b = dist; frontier_b = frontier; depth_b = s.depth_b + 1 }))

  -- The `while` loop. Each round adds one to the two depths, so `k_hops` rounds are enough.
  unfoldable pub search_loop : ℕ → Search → ℕ → Tick → Result (Option ℕ) ViewError
  search_loop zero s k_hops as_of = ok none
  search_loop (suc fuel) s k_hops as_of =
      let next = advance s as_of >>= λ s'. elim (met s'.dist_f s'.dist_b) [
        | some d ↦ ok (if leb d k_hops then some d else none)
        | none ↦ search_loop fuel s' k_hops as_of
      ] in
      if ltb (s.depth_f + s.depth_b) k_hops
        && not (is_empty s.frontier_f)
        && not (is_empty s.frontier_b)
      then next
      else ok none

  unfoldable pub shortest_distance : EntityId → EntityId → ℕ → Tick → Result (Option ℕ) ViewError
  shortest_distance from to k_hops as_of =
      search_loop k_hops
        (record {
          dist_f = (from, 0) ∷ [];
          dist_b = (to, 0) ∷ [];
          frontier_f = from ∷ [];
          frontier_b = to ∷ [];
          depth_f = 0;
          depth_b = 0;
        })
        k_hops as_of

  -- `for level in 1..=depth`, with `rounds` levels left.
  unfoldable pub labels_loop : ℕ → ℕ → List EntityId → Labels → Tick → Result Labels ViewError
  labels_loop zero level frontier dist as_of = ok dist
  labels_loop (suc rounds) level frontier dist as_of =
      let next = expand frontier dist level as_of >>= λ (dist', frontier').
      labels_loop rounds (level + 1) frontier' dist' as_of in
      if is_empty frontier then ok dist else next

  unfoldable pub backward_labels : EntityId → ℕ → Tick → Result Labels ViewError
  unfolding labels_loop
  backward_labels target depth as_of = labels_loop depth 1 (target ∷ []) ((target, 0) ∷ []) as_of

  -- `for remaining in (1..=d).rev()`, from `cur`.
  unfoldable pub greedy_walk : ℕ → EntityId → Labels → Tick → Result (List WalkStep) ViewError
  greedy_walk zero cur back as_of = ok []
  greedy_walk (suc remaining) cur back as_of = do
    edges ← canonical_neighbors v cur as_of
    elim (find_step remaining back edges) [
      | none ↦ err (decode inconsistent_labels)
      | some step ↦ do
        rest ← greedy_walk remaining step.other back as_of
        ok (record { entity = step.other; via = step.via } ∷ rest)
    ]

  unfoldable pub known_k : EntityId → EntityId → HopBound → Tick → Result Reachability ViewError
  known_k from to k as_of =
      let unreachable = none_within (no_evidenced_walk from to k) in
      if from == to then ok (within reflexive) else if k == 0 then ok unreachable else (do
        distance ← shortest_distance from to k as_of
        elim distance [
          | none ↦ ok unreachable
          | some d ↦ do
            back ← backward_labels to d as_of
            witness ← greedy_walk d from back as_of
            ok (within (record { hops = d; witness = witness }))
        ])
