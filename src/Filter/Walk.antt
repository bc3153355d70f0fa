-- ===== src/Filter/Walk.antt =====
-- The witness of crates/cc-filter/src/reach.rs is a walk: the edges it takes are edges of the view.
use clockchain.Prelude.{
  ℕ, zero, suc, ◌≤◌, ◌≡◌, ◌≢◌, inl, inr, refl, sym, ap, ◌∙◌, subst, Bool, true, false, ◌||◌, some,
  List, [], ◌∷◌, ◌==◌, length, arith, ok, nat_key, ok-bind, Bool-cases, Option-cases,
}
use clockchain.Prelude.Table.{lookup}
use clockchain.Filter.{
  Tick, EntityId, HopBound, WalkStep, PhiSupport, reflexive, Edge, CorpusView, within,
}
use clockchain.Filter.Labels.{ZeroAt, ZeroAt-lookup, search_loop-bounds, backward_labels-ZeroAt}
use clockchain.Filter.Reach.{
  edge_lt, edge_eq, edge_insert, canonical, canonical_neighbors, Labels, shortest_distance,
  backward_labels, find_step, greedy_walk, known_k,
}

-- Membership of an edge.
abbrev pub has_edge : Edge → List Edge → Bool
has_edge e [] = false
has_edge e (f ∷ es) = edge_eq e f || has_edge e es

has_edge-insert :
    (e f : Edge) (es : List Edge) → has_edge e (edge_insert f es) ≡ (edge_eq e f || has_edge e es)
unfolding edge_insert edge_eq edge_lt
has_edge-insert e f [] = refl
has_edge-insert e f (g ∷ es) = ground (arith, has_edge-insert e f es)

has_edge-canonical : (e : Edge) (es : List Edge) → has_edge e (canonical es) ≡ has_edge e es
unfolding canonical
has_edge-canonical e [] = refl
has_edge-canonical e (f ∷ es) =
    ground (arith, has_edge-insert e f (canonical es), has_edge-canonical e es)

-- `steps` leads from `from` to `to` along edges of the view.
abbrev pub IsWalk : CorpusView → Tick → EntityId → List WalkStep → EntityId → Type 0
IsWalk v t from [] to_ = from ≡ to_
IsWalk v t from (step ∷ steps) to_ =
    ((es : List Edge) × (v.neighbors from t ≡ ok es)
      × (has_edge (record { other = step.entity; via = step.via }) es ≡ true))
    × IsWalk v t step.entity steps to_

find_step-finds :
    (wanted : ℕ) (back : Labels) (es : List Edge) (e : Edge)
    → find_step wanted back es ≡ some e
    → (has_edge e es ≡ true) × (lookup e.other back ≡ some wanted)
unfolding find_step edge_eq
find_step-finds wanted back [] e h = absurd (ground arith)
find_step-finds wanted back (f ∷ es) e h = elim (Option-cases (lookup f.other back)) [
  | inl no_label ↦
      let h' = rw no_label at h in
      let (mem, label) = find_step-finds wanted back es e h' in (ground (arith, mem), label)
  | inr (w, e_w) ↦
      let h' = rw e_w at h in
      elim (Bool-cases (w == wanted)) [
        | inl same ↦
            let h'' = rw same at h' in
            let e' : f ≡ e = ground (arith, h'') in
            subst (λ x. (has_edge x (f ∷ es) ≡ true) × (lookup x.other back ≡ some wanted)) e'
              (ground arith, ground (arith, e_w, same))
        | inr differ ↦
            let h'' = rw differ at h' in
            let (mem, label) = find_step-finds wanted back es e h'' in (ground (arith, mem), label)
      ]
]

canonical_neighbors-ok :
    (v : CorpusView) (e : EntityId) (t : Tick) (edges : List Edge)
    → canonical_neighbors v e t ≡ ok edges
    → (es : List Edge) × (v.neighbors e t ≡ ok es) × (canonical es ≡ edges)
unfolding canonical_neighbors
canonical_neighbors-ok v e t edges h =
    let (es, hes, h') = ok-bind {x = v.neighbors e t} {f = λ es. ok (canonical es)} h in
    (es, hes, ground (arith, h'))

module _ (v : CorpusView) (t : Tick) (to_ : EntityId) (back : Labels) where
  abbrev step_of : Edge → WalkStep
  step_of e = record { entity = e.other; via = e.via }

  -- The walk takes exactly as many steps as it was asked for.
  greedy_walk-IsWalk :
      (d : ℕ) (cur : EntityId) (steps : List WalkStep)
      → ZeroAt to_ back
      → (d ≡ 0 → cur ≡ to_)
      → greedy_walk v d cur back t ≡ ok steps
      → IsWalk v t cur steps to_ × (length steps ≡ d)
  unfolding greedy_walk
  greedy_walk-IsWalk zero cur steps z start h =
      let e : [] ≡ steps = ground arith in
      subst (λ s. IsWalk v t cur s to_ × (length s ≡ 0)) e (start refl, refl)
  greedy_walk-IsWalk (suc r) cur steps z start h =
      let (edges, he, h1) = ok-bind h in
      let (es, hes, e) = canonical_neighbors-ok v cur t edges he in
      elim (Option-cases (find_step r back edges)) [
        | inl no_step ↦ absurd (let h1' = rw no_step at h1 in ground (arith, h1'))
        | inr (step, found) ↦
            let h1' = rw found at h1 in
            let (rest, hr, h3) = ok-bind h1' in
            let (mem, label) = find_step-finds r back edges step found in
            let arrives : r ≡ 0 → step.other ≡ to_ =
              λ e0. ZeroAt-lookup to_ step.other back z (label ∙ ap some e0) in
            let (walks, long) = greedy_walk-IsWalk r step.other rest z arrives hr in
            let mem' : has_edge step es ≡ true =
              sym (has_edge-canonical step es) ∙ (ap (has_edge step) e ∙ mem) in
            let e' : step_of step ∷ rest ≡ steps = ground (arith, h3) in
            subst (λ s. IsWalk v t cur s to_ × (length s ≡ suc r)) e'
              (((es, hes, mem'), walks), ap suc long)
      ]

shortest_distance-bounds :
    (v : CorpusView) (from to_ : EntityId) (k : ℕ) (t : Tick) (d : ℕ)
    → from ≢ to_
    → shortest_distance v from to_ k t ≡ ok (some d)
    → (1 ≤ d) × (d ≤ k)
unfolding shortest_distance
shortest_distance-bounds v from to_ k t d ne h =
    search_loop-bounds v from to_ k _ k t d ne (((λ z. refl), tt), ((λ z. refl), tt)) h

-- When two subjects are found to be within reach, the support is evidence of it: its witness is a
-- walk from the first to the second along edges of the view at that time, it has as many steps as
-- the support counts hops, and they are no more than the bound.
pub known_k-IsWalk :
    (v : CorpusView) (from to_ : EntityId) (k : HopBound) (t : Tick) (s : PhiSupport)
    → known_k v from to_ k t ≡ ok (within s)
    → IsWalk v t from s.witness to_ × (length s.witness ≡ s.hops) × (s.hops ≤ k)
unfolding known_k reflexive
known_k-IsWalk v from to_ k t s h = elim (Bool-cases (from == to_)) [
  | inl same ↦
      let h' = rw same at h in
      let e : reflexive ≡ s = ground (arith, h') in
      subst
        (λ (x : PhiSupport).
          IsWalk v t from x.witness to_ × (length x.witness ≡ x.hops) × (x.hops ≤ k))
        e (ground (arith, same), refl, omega arith)
  | inr differ ↦
      let h' = rw differ at h in
      elim (Bool-cases (k == 0)) [
        | inl none_ ↦ absurd (let h'' = rw none_ at h' in ground (arith, h''))
        | inr some_ ↦
            let h'' = rw some_ at h' in
            let (dist, hd, h1) = ok-bind {x = shortest_distance v from to_ k t} h'' in
            elim (Option-cases dist) [
              | inl far ↦ absurd (let h2 = rw far at h1 in ground (arith, h2))
              | inr (d, near) ↦
                  let h2 = rw near at h1 in
                  let (back, hb, h3) = ok-bind {x = backward_labels v to_ d t} h2 in
                  let (steps, hs, h4) = ok-bind {x = greedy_walk v d from back t} h3 in
                  let bounds =
                    shortest_distance-bounds v from to_ k t d (ground (arith, differ))
                      (hd ∙ ap ok near) in
                  let (walks, long) =
                    greedy_walk-IsWalk v t to_ back d from steps
                      (backward_labels-ZeroAt v to_ d t back hb)
                      (λ z. absurd (let pos = bounds.0 in omega arith)) hs in
                  let e : record { hops = d; witness = steps } ≡ s = ground (arith, h4) in
                  subst
                    (λ (x : PhiSupport).
                      IsWalk v t from x.witness to_ × (length x.witness ≡ x.hops) × (x.hops ≤ k))
                    e (walks, long, bounds.1)
            ]
      ]
]
