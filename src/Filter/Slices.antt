-- ===== src/Filter/Slices.antt =====
-- The edges that the in-memory corpus of crates/cc-filter/src/snapshot.rs shows at a time, against
-- its records.
use clockchain.Prelude.{
  ◌≡◌, refl, sym, ap, ◌∙◌, inl, inr, Bool, false, ◌&&◌, ◌||◌, Option, none, some, List, [], ◌∷◌,
  arith, ltb, leb, ◌==◌, ==_iff, nat_key, Bytes, ok, ok-bind, ok-injective, Bool-cases,
  Option-cases,
}
use clockchain.Prelude.Table.{lookup}
use clockchain.Prelude.Ordered.{lookup-map_insert}
use clockchain.Filter.{Tick, EntityId, EventId, Edge}
use clockchain.Filter.Reach.{edge_eq}
use clockchain.Filter.Walk.{has_edge}
use clockchain.Filter.Records.{
  Record, co_occurrence, window_record, admissibility_record, Neighbor, neighbor_lt, insert_by,
  Adjacency,
}
use clockchain.Filter.Snapshot.{
  or_default, Projection, adjoin, project, project_all, empty_projection, SnapshotCorpus,
  from_records, slice, snapshot_neighbors,
}

-- The element shows the edge at `t`.
abbrev shows : Edge → Tick → Neighbor → Bool
shows e t n = n.other == e.other && (n.via == e.via && leb n.at_ t)

abbrev any_shows : Edge → Tick → List Neighbor → Bool
any_shows e t [] = false
any_shows e t (n ∷ ns) = shows e t n || any_shows e t ns

is_last : Edge → Option Edge → Bool
is_last e none = false
is_last e (some l) = edge_eq l e

slice-shows :
    (e : Edge) (t : Tick) (last : Option Edge) (ns : List Neighbor)
    → (has_edge e (slice t last ns) || is_last e last) ≡ (any_shows e t ns || is_last e last)
unfolding slice edge_eq is_last
slice-shows e t none [] = refl
slice-shows e t (some l) [] = refl
slice-shows e t none (n ∷ ns) =
    let as_is = slice-shows e t none ns in
    let pushed = slice-shows e t (some (record { other = n.other; via = n.via })) ns in
    ground (arith, as_is, pushed)
slice-shows e t (some l) (n ∷ ns) =
    let as_is = slice-shows e t (some l) ns in
    let pushed = slice-shows e t (some (record { other = n.other; via = n.via })) ns in
    ground (arith, as_is, pushed)

insert_by-shows :
    (e : Edge) (t : Tick) (n : Neighbor) (ns : List Neighbor)
    → any_shows e t (insert_by neighbor_lt n ns) ≡ (shows e t n || any_shows e t ns)
unfolding insert_by neighbor_lt
insert_by-shows e t n [] = refl
insert_by-shows e t n (m ∷ ms) = ground (arith, insert_by-shows e t n ms)

-- The edges of `x` in the adjacency at `t`.
abbrev linked : Edge → Tick → EntityId → Adjacency → Bool
linked e t x adjacency = any_shows e t (or_default x adjacency)

adjoin-linked :
    (e : Edge) (t : Tick) (x y : EntityId) (n : Neighbor) (adjacency : Adjacency)
    → linked e t x (adjoin y n adjacency) ≡ ((y == x && shows e t n) || linked e t x adjacency)
unfolding adjoin
adjoin-linked e t x y n adjacency =
    let l = lookup-map_insert y x (insert_by neighbor_lt n (or_default y adjacency)) adjacency in
    let i = insert_by-shows e t n (or_default y adjacency) in
    elim (Bool-cases (y == x)) [
      | inl same ↦
          let yx : y ≡ x = (==_iff y x).0 same in
          let l' : or_default x (adjoin y n adjacency)
              ≡ insert_by neighbor_lt n (or_default y adjacency) =
            ground (arith, l, same) in
          let here : linked e t y adjacency ≡ linked e t x adjacency =
            ap (λ z. linked e t z adjacency) yx in
          ap (any_shows e t) l' ∙ ground (arith, i, here, same)
      | inr differ ↦ ground (arith, l, differ)
    ]

-- A record of one moment that the entity shares with the other by `t`, evidenced by `via`.
abbrev pub evidences : EntityId → Edge → Tick → Record → Bool
evidences x e t (co_occurrence a b at_ via) =
    ((a == x && b == e.other) || (b == x && a == e.other)) && (via == e.via && leb at_ t)
evidences x e t _ = false

abbrev pub any_evidences : EntityId → Edge → Tick → List Record → Bool
any_evidences x e t [] = false
any_evidences x e t (r ∷ rs) = evidences x e t r || any_evidences x e t rs

joined :
    (e : Edge) (t : Tick) (x lo hi : EntityId) (at_ : Tick) (via : EventId) (adjacency : Adjacency)
    → linked e t x (
        adjoin hi
          (record { other = lo; via = via; at_ = at_ })
          (adjoin lo (record { other = hi; via = via; at_ = at_ }) adjacency))
      ≡ (evidences x e t (co_occurrence lo hi at_ via) || linked e t x adjacency)
joined e t x lo hi at_ via adjacency =
    let n : Neighbor = record { other = lo; via = via; at_ = at_ } in
    let m : Neighbor = record { other = hi; via = via; at_ = at_ } in
    let first = adjoin-linked e t x lo m adjacency in
    let second = adjoin-linked e t x hi n (adjoin lo m adjacency) in ground (arith, first, second)

project-linked :
    (e : Edge) (t : Tick) (x : EntityId) (r : Record) (p p' : Projection)
    → project r p ≡ ok p'
    → linked e t x p'.adjacency ≡ (evidences x e t r || linked e t x p.adjacency)
unfolding project
project-linked e t x (co_occurrence a b at_ via) p p' h = elim (Bool-cases (a == b)) [
  | inl same ↦ absurd (let h' = rw same at h in ground (arith, h'))
  | inr differ ↦
      let h' = rw differ at h in
      let eq = ap (λ (q : Projection). q.adjacency) (ok-injective h') in
      ap (linked e t x) (sym eq) ∙ elim (Bool-cases (ltb a b)) [
        | inl lt ↦ rw lt (joined e t x a b at_ via p.adjacency)
        | inr ge ↦ rw ge (joined e t x b a at_ via p.adjacency ∙ ground arith)
      ]
]
project-linked e t x (window_record entity at_ via start end) p p' h = ground (arith, h)
project-linked e t x (admissibility_record claim at_ via ruling) p p' h = ground (arith, h)

project_all-linked :
    (e : Edge) (t : Tick) (x : EntityId) (rs : List Record) (p p' : Projection)
    → project_all rs p ≡ ok p'
    → linked e t x p'.adjacency ≡ (any_evidences x e t rs || linked e t x p.adjacency)
unfolding project_all
project_all-linked e t x [] p p' h =
    ap (λ (q : Projection). linked e t x q.adjacency) (sym (ok-injective h))
project_all-linked e t x (r ∷ rs) p p' h =
    let (q, first, rest) = ok-bind h in
    let one = project-linked e t x r p q first in
    let others = project_all-linked e t x rs q p' rest in ground (arith, one, others)

neighbors-linked :
    (c : SnapshotCorpus) (x : EntityId) (t : Tick)
    → (es : List Edge) × (snapshot_neighbors c x t ≡ ok es)
      × ((e : Edge) → has_edge e es ≡ linked e t x c.projection.adjacency)
unfolding snapshot_neighbors is_last
neighbors-linked c x t = elim (Option-cases (lookup x c.projection.adjacency)) [
  | inl none_ ↦ ([], rw (none_, snapshot_neighbors) refl, λ e. ground (arith, none_))
  | inr (ns, some_) ↦ (
    slice t none ns,
    rw (some_, snapshot_neighbors) refl,
    λ e. (let s = slice-shows e t none ns in ground (arith, some_, s)),
  )
]

-- The in-memory corpus shows at a time exactly the edges of its records up to that time: a
-- neighbour with the event that evidences it, in either direction of the moment that they share,
-- whatever the order of the records and whatever else is recorded, or recorded later.
pub neighbors-evidences :
    (sha256 : Bytes → Bytes) (rs : List Record) (c : SnapshotCorpus) (x : EntityId) (t : Tick)
    → from_records sha256 rs ≡ ok c
    → (es : List Edge) × (snapshot_neighbors c x t ≡ ok es)
      × ((e : Edge) → has_edge e es ≡ any_evidences x e t rs)
unfolding from_records lookup
neighbors-evidences sha256 rs c x t h =
    let (p, projected, built) = ok-bind h in
    let (es, reads, shown) = neighbors-linked c x t in
    let pc = ap (λ (d : SnapshotCorpus). d.projection) (ok-injective built) in
    (
      es,
      reads,
      λ e.
          let all = project_all-linked e t x rs empty_projection p projected in
          let same = ap (λ (q : Projection). linked e t x q.adjacency) pc in
          let seen = shown e in ground (arith, all, same, seen),
    )

evidences-symmetric :
    (x y : EntityId) (via : EventId) (t : Tick) (rs : List Record)
    → any_evidences x (record { other = y; via = via }) t rs
      ≡ any_evidences y (record { other = x; via = via }) t rs
evidences-symmetric x y via t [] = refl
evidences-symmetric x y via t (co_occurrence a b at_ v ∷ rs) =
    ground (arith, evidences-symmetric x y via t rs)
evidences-symmetric x y via t (window_record _ _ _ _ _ ∷ rs) = evidences-symmetric x y via t rs
evidences-symmetric x y via t (admissibility_record _ _ _ _ ∷ rs) = evidences-symmetric x y via t rs

-- At any time the edges of the in-memory corpus go both ways: `y` is a neighbour of `x` by an event
-- exactly when `x` is one of `y` by that event.
pub neighbors-symmetric :
    (sha256 : Bytes → Bytes) (rs : List Record) (c : SnapshotCorpus) (x y : EntityId)
    (via : EventId) (t : Tick) (xs ys : List Edge)
    → from_records sha256 rs ≡ ok c
    → snapshot_neighbors c x t ≡ ok xs
    → snapshot_neighbors c y t ≡ ok ys
    → has_edge (record { other = y; via = via }) xs ≡ has_edge (record { other = x; via = via }) ys
neighbors-symmetric sha256 rs c x y via t xs ys h read_x read_y =
    let (es, reads, shown) = neighbors-evidences sha256 rs c x t h in
    let (es', reads', shown') = neighbors-evidences sha256 rs c y t h in
    let ex = ok-injective (sym read_x ∙ reads) in
    let ey = ok-injective (sym read_y ∙ reads') in
    ap (has_edge (record { other = y; via = via })) ex
    ∙ shown (record { other = y; via = via })
    ∙ evidences-symmetric x y via t rs
    ∙ sym (shown' (record { other = x; via = via }))
    ∙ sym (ap (has_edge (record { other = x; via = via })) ey)
