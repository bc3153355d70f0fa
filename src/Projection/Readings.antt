-- ===== src/Projection/Readings.antt =====
-- The reading of a subject in `project` of crates/cc-ledger/src/v1/projection.rs.
use clockchain.Prelude.{
  ◌≡◌, ◌↔◌, refl, ap, ◌∙◌, sym, inl, inr, Bool, true, false, not, some, List, [], ◌∷◌, arith, ◌==◌,
  ==_iff, Bool-cases, nat_key,
}
use clockchain.Prelude.Table.{lookup, contains_key}
use clockchain.Prelude.Ordered.{map_insert, lookup-map_insert, set_contains}
use clockchain.Wire.{Hash}
use clockchain.Ledger.{Events, ◌>>=◌}
use clockchain.Ledger.Authority.{Effect, Grant, Authority}
use clockchain.Ledger.Order.{key_held}
use clockchain.Ledger.Totals.{Returns, any_of-Returns}
use clockchain.Edges.Endpoint.{ReadingState, SubjectReading}
use clockchain.Projection.{
  ProjectionState, Row, Ancestors, events_of, has_effect, shared_by, common_of, classify_row,
  put_rows, state_of, is_frozen, read_subject, set_intersection,
}
use clockchain.Projection.Sets.{events_of-lookup}
use clockchain.Projection.Frontier.{IsSurveyed, IsCurrent, frontier_of-IsCurrent}
use clockchain.Projection.Rows.{
  state_of-resolved, any_of-true, classify_row-head, classify_row-frontier,
}

apart : (x y : Hash) → (x == y) ≡ false → (y == x) ≡ false
apart x y h = elim (Bool-cases (y == x)) [
  | inr differ ↦ differ
  | inl same ↦
      let back = (==_iff x y).1 (sym ((==_iff y x).0 same)) in absurd (ground (arith, h, back))
]

module _ (valid : Events) (a : Authority) (ancestors : Ancestors) where
  -- What the reading of a subject says.
  pub record IsReading (reading : SubjectReading) : Type 0 where
    pub current :
        (x : Hash)
        → (set_contains x reading.frontier ≡ true) ↔ IsCurrent valid a ancestors reading.subject x
    pub resolved :
        (reading.state ≡ ReadingState.resolved) ↔ ((x : Hash) × (reading.frontier ≡ x ∷ []))
    pub frozen : (reading.frozen ≡ false) ↔ (
        (g : Hash) × (grant : Grant) × (set_contains g a.active ≡ true)
        × (lookup g a.grants ≡ some grant)
        × (grant.subject ≡ reading.subject))

  -- The row of an event of the subject: it is the head exactly if it is the whole frontier.
  abbrev pub HasRow : SubjectReading → List (Hash × Row) → Hash → Type 0
  HasRow reading states x =
      (row : Row) × (lookup x states ≡ some row)
      × ((row.state ≡ ProjectionState.head) ↔ (reading.frontier ≡ x ∷ []))
      × (row.frontier ≡ set_contains x reading.frontier)

  module _ (w : IsSurveyed valid a ancestors) where
    shared_by-Returns :
        (ids common : List Hash)
        → ((x : Hash) → set_contains x ids ≡ true → contains_key x valid ≡ true)
        → Returns (shared_by a ancestors ids common)
    unfolding shared_by set_contains
    shared_by-Returns [] common known = (common, refl)
    shared_by-Returns (id ∷ ids) common known =
        let (past, held, _) = w.pasts id (known id (ground (arith, (==_iff id id).1 refl))) in
        let (common', eq) =
          shared_by-Returns ids (set_intersection common past)
            (λ x m. known x (ground (arith, m))) in
        (common', rw held eq)

    common_of-Returns :
        (ids : List Hash)
        → ((x : Hash) → set_contains x ids ≡ true → contains_key x valid ≡ true)
        → Returns (common_of a ancestors ids)
    unfolding common_of set_contains
    common_of-Returns [] known = ([], refl)
    common_of-Returns (id ∷ ids) known =
        let (past, held, _) = w.pasts id (known id (ground (arith, (==_iff id id).1 refl))) in
        let (common', eq) = shared_by-Returns ids past (λ x m. known x (ground (arith, m))) in
        (common', rw held eq)

    -- The rows of a list of events.
    put_rows-lookup :
        (frontier common ids : List Hash) (states : List (Hash × Row))
        → ((x : Hash) → set_contains x ids ≡ true → contains_key x valid ≡ true)
        → (states' : List (Hash × Row)) × (put_rows a ancestors frontier common ids states
            ≡ some states')
          × ((x : Hash)
              → set_contains x ids ≡ true
              → (effect : Effect) × (lookup x a.effects ≡ some effect)
                × (lookup x states' ≡ some (classify_row frontier common x effect.reason)))
          × ((x : Hash) → set_contains x ids ≡ false → lookup x states' ≡ lookup x states)
    unfolding put_rows set_contains
    put_rows-lookup frontier common [] states known =
        (states, refl, λ x m. absurd (ground (arith, m)), λ x m. refl)
    put_rows-lookup frontier common (id ∷ ids) states known =
        let (effect, held) =
          key_held id a.effects (w.effects id (known id (ground (arith, (==_iff id id).1 refl)))) in
        let row = classify_row frontier common id effect.reason in
        let (states', eq, rows, others) =
          put_rows-lookup frontier common ids (map_insert id row states)
            (λ x m. known x (ground (arith, m))) in
        (
          states',
          rw held eq,
          λ x m. elim (Bool-cases (set_contains x ids)) [
            | inl later_ ↦ rows x later_
            | inr last ↦
                let same : (id == x) ≡ true =
                  (==_iff id x).1 (sym ((==_iff x id).0 (ground (arith, m, last)))) in
                let x_eq = (==_iff id x).0 same in
                let put = lookup-map_insert id x row states in
                let put' = rw same at put in
                (
                  effect,
                  ap (λ k. lookup k a.effects) (sym x_eq) ∙ held,
                  others x last
                      ∙ (put' ∙ ap (λ k. some (classify_row frontier common k effect.reason)) x_eq),
                )
          ],
          λ x m.
              let put = lookup-map_insert id x row states in
              let differ : (id == x) ≡ false = apart x id (ground (arith, m)) in
              let put' = rw differ at put in others x (ground (arith, m)) ∙ put',
        )

    is_frozen-Returns :
        (subject : Hash)
        → (frozen : Bool) × (is_frozen a ancestors subject ≡ some frozen)
          × ((frozen ≡ false) ↔ (
              (g : Hash) × (grant : Grant) × (set_contains g a.active ≡ true)
              × (lookup g a.grants ≡ some grant)
              × (grant.subject ≡ subject)))
    unfolding is_frozen
    is_frozen-Returns subject =
        let test = λ (g : Hash).
          lookup g a.grants >>= (λ (grant : Grant). some (grant.subject == subject)) in
        let (b, eq, never) = any_of-Returns test a.active (λ g m.
          let (grant, held) = key_held g a.grants (w.granted g m) in
          (grant.subject == subject, rw held refl)) in
        (
          not b,
          rw eq refl,
          (
            λ h.
                let (g, m, is) =
                  any_of-true test a.active
                    (eq ∙ ap some (let k : b ≡ true = ground (arith, h) in k)) in
                let (grant, held) = key_held g a.grants (w.granted g m) in
                let is' = rw held at is in
                let same : (grant.subject == subject) ≡ true = ground (arith, is') in
                (g, grant, m, held, (==_iff grant.subject subject).0 same),
            λ (g, grant, m, held, same). elim (Bool-cases b) [
              | inl yes_ ↦ ground (arith, yes_)
              | inr none_ ↦
                  let no_ = never none_ g m in
                  let no' = rw held at no_ in
                  let same' = (==_iff grant.subject subject).1 same in
                  absurd (ground (arith, no', same'))
            ],
          ),
        )

    -- The reading of a subject is found. Its frontier has exactly the eligible events that are in the
    -- past of no other eligible event of the subject and of no effective revocation of it; it is
    -- resolved exactly if that is one event, and frozen exactly if no active grant is of it. Every
    -- event of the subject has a row, which is the head exactly if the event is the whole frontier, and
    -- the rows of other events stay.
    pub read_subject-IsReading :
        (subject : Hash) (states : List (Hash × Row))
        → (reading : SubjectReading) × (states' : List (Hash × Row)) × (read_subject a ancestors
              valid subject states
            ≡ some (reading, states'))
          × (reading.subject ≡ subject)
          × IsReading reading
          × ((x : Hash)
              → set_contains x (events_of subject valid) ≡ true
              → HasRow reading states' x)
          × ((x : Hash)
              → set_contains x (events_of subject valid) ≡ false
              → lookup x states' ≡ lookup x states)
    unfolding read_subject has_effect
    read_subject-IsReading subject states =
        let ids = events_of subject valid in
        let known = λ (x : Hash) (m : set_contains x ids ≡ true).
          (let (e, held, _) = (events_of-lookup subject valid x w.distinct).0 m in
            let k : contains_key x valid ≡ true = ground (arith, held) in k) in
        let (frontier, f_eq, current) = frontier_of-IsCurrent valid a ancestors w subject in
        let (common, c_eq) =
          common_of-Returns frontier (λ x m. let (own, _, _) = (current x).0 m in known x own) in
        let (states', s_eq, rows, others) = put_rows-lookup frontier common ids states known in
        let (frozen, z_eq, freezes) = is_frozen-Returns subject in
        (
          record {
            subject = subject;
            frontier = frontier;
            state = state_of frontier;
            frozen = frozen;
          },
          states',
          rw f_eq (rw c_eq (rw s_eq (rw z_eq refl))),
          refl,
          record { current = current; resolved = state_of-resolved frontier; frozen = freezes },
          (λ x m.
              let (effect, held, at_) = rows x m in
              (
                classify_row frontier common x effect.reason,
                at_,
                classify_row-head frontier common x effect.reason (λ n.
                    let (_, alive, _) = (current x).0 n in
                    let alive' = rw held at alive in ground (arith, alive')),
                classify_row-frontier frontier common x effect.reason,
              )),
          others,
        )
