-- ===== src/Projection/Frontier.antt =====
-- The frontier of a subject in `project` of crates/cc-ledger/src/v1/projection.rs is found, and is what
-- it means.
use clockchain.Prelude.{
  ◌≡◌, ◌↔◌, ◌⊎◌, refl, subst, inl, inr, true, false, ◌||◌, some, List, [], ◌∷◌, ◌++◌, arith, ◌==◌,
  ==_iff, Bool-cases, nat_key,
}
use clockchain.Prelude.Table.{lookup, contains_key, IsDistinct}
use clockchain.Prelude.Ordered.{set_contains}
use clockchain.Wire.{Hash}
use clockchain.Ledger.{Events}
use clockchain.Ledger.Authority.{Authority, select_not, set_union}
use clockchain.Ledger.Derive.{is_eligible}
use clockchain.Ledger.Order.{key_held}
use clockchain.Ledger.Search.{Reaches}
use clockchain.Ledger.Totals.{Returns, set_contains-union, filter_of-Returns}
use clockchain.Edges.Endpoint.{set_difference}
use clockchain.Edges.Chain.{set_contains-append}
use clockchain.Projection.{
  Ancestors, events_of, set_intersection, has_effect, consumed_by, frontier_of,
}
use clockchain.Projection.Sets.{
  set_contains-select_not, set_contains-difference, set_contains-intersection, none_in,
  events_of-lookup,
}

module _ (valid : Events) (a : Authority) (ancestors : Ancestors) where
  -- What the reading of subjects is given: every event has an effect and its ancestors.
  pub record IsSurveyed : Type 0 where
    pub distinct : IsDistinct valid
    pub effects : (x : Hash) → contains_key x valid ≡ true → contains_key x a.effects ≡ true
    pub pasts :
        (x : Hash)
        → contains_key x valid ≡ true
        → (past : List Hash) × (lookup x ancestors ≡ some past)
          × ((y : Hash) → (set_contains y past ≡ true) ↔ Reaches valid x y)
    pub granted : (g : Hash) → set_contains g a.active ≡ true → contains_key g a.grants ≡ true

  -- An event of some that has another in its past.
  abbrev pub Consumes : List Hash → Hash → Type 0
  Consumes ids x = (y : Hash) × (set_contains y ids ≡ true) × ((x == y) ≡ false) × Reaches valid y x

  -- The events that stay: eligible ones that are in the past of no other eligible event of the
  -- subject, and of no effective revocation of it.
  abbrev pub IsCurrent : Hash → Hash → Type 0
  IsCurrent subject x =
      (set_contains x (events_of subject valid) ≡ true)
      × (has_effect a ancestors x ≡ some true)
      × ((y : Hash)
          → set_contains y (events_of subject valid) ≡ true
          → (has_effect a ancestors y ≡ some true) ⊎ (set_contains y a.effective_revokes ≡ true)
          → (x == y) ≡ false
          → ¬ Reaches valid y x)

  module _ (w : IsSurveyed) where
    pub has_effect-Returns :
        (x : Hash) → contains_key x valid ≡ true → Returns (has_effect a ancestors x)
    unfolding has_effect
    has_effect-Returns x known =
        let (effect, held) = key_held x a.effects (w.effects x known) in
        (is_eligible effect.reason, rw held refl)

    from_step :
        (id : Hash) (ids consumed proper : List Hash) (x : Hash)
        → set_contains x (set_union consumed proper)
          ≡ (set_contains x consumed || set_contains x proper)
        → ((x == id) ≡ false → Reaches valid id x → set_contains x proper ≡ true)
        → (set_contains x consumed ≡ true) ⊎ Consumes (id ∷ ids) x
        → (set_contains x (set_union consumed proper) ≡ true) ⊎ Consumes ids x
    unfolding set_contains
    from_step id ids consumed proper x joined own (inl m) = inl (ground (arith, joined, m))
    from_step id ids consumed proper x joined own (inr (y, m, differ, r)) =
        elim (Bool-cases (y == id)) [
          | inr other ↦ inr (y, ground (arith, m, other), differ, r)
          | inl same ↦
              let y_eq = (==_iff y id).0 same in
              let differ' = subst (λ (z : Hash). (x == z) ≡ false) y_eq differ in
              let r' = subst (λ (z : Hash). Reaches valid z x) y_eq r in
              let now = own differ' r' in inl (ground (arith, joined, now))
        ]

    consumed_by-Consumes :
        (ids consumed : List Hash)
        → ((x : Hash) → set_contains x ids ≡ true → contains_key x valid ≡ true)
        → (all : List Hash) × (consumed_by a ancestors ids consumed ≡ some all)
          × ((x : Hash)
              → (set_contains x all ≡ true) ↔ ((set_contains x consumed ≡ true) ⊎ Consumes ids x))
    unfolding consumed_by set_contains
    consumed_by-Consumes [] consumed known = (
      consumed,
      refl,
      λ x. (λ h. inl h, λ h. elim h [ inl m ↦ m | inr (y, m, _, _) ↦ absurd (ground (arith, m)) ]),
    )
    consumed_by-Consumes (id ∷ ids) consumed known =
        let (past, held, means) = w.pasts id (known id (ground (arith, (==_iff id id).1 refl))) in
        let proper = select_not (λ p. p == id) past in
        let (all, eq, in_all) =
          consumed_by-Consumes ids (set_union consumed proper)
            (λ x m. known x (ground (arith, m))) in
        (
          all,
          rw held eq,
          λ x.
              let joined = set_contains-union x consumed proper in
              let own = set_contains-select_not (λ p. p == id) past x in
              (
                λ m. elim ((in_all x).0 m) [
                  | inr (y, n, differ, r) ↦ inr (y, ground (arith, n), differ, r)
                  | inl n ↦ elim (Bool-cases (set_contains x consumed)) [
                    | inl old ↦ inl old
                    | inr new ↦ inr (
                      id,
                      ground (arith, (==_iff id id).1 refl),
                      ground (arith, joined, n, new, own),
                      (means x).0 (ground (arith, joined, n, new, own)),
                    )
                  ]
                ],
                λ h. (in_all x).1 (
                    from_step id ids consumed proper x joined
                      (λ differ r. ground (arith, own, differ, (means x).1 r)) h),
              ),
        )

    -- The frontier of a subject is found, and its events are those that stay.
    pub frontier_of-IsCurrent :
        (subject : Hash)
        → (frontier : List Hash) × (frontier_of a ancestors (events_of subject valid)
            ≡ some frontier)
          × ((x : Hash) → (set_contains x frontier ≡ true) ↔ IsCurrent subject x)
    unfolding frontier_of
    frontier_of-IsCurrent subject =
        let ids = events_of subject valid in
        let known = λ (x : Hash) (m : set_contains x ids ≡ true).
          (let (e, held, _) = (events_of-lookup subject valid x w.distinct).0 m in
            let k : contains_key x valid ≡ true = ground (arith, held) in k) in
        let (left, left_eq, in_left) =
          filter_of-Returns (has_effect a ancestors) ids
            (λ x m. has_effect-Returns x (known x m)) in
        let revokes = set_intersection a.effective_revokes ids in
        let members = λ (y : Hash). set_contains-append y left revokes in
        let both = λ (y : Hash). set_contains-intersection y a.effective_revokes ids in
        let (consumed, c_eq, in_consumed) = consumed_by-Consumes (left ++ revokes) [] (λ y m.
          known y (elim (Bool-cases (set_contains y left)) [
            | inl l ↦ ((in_left y).0 l).0
            | inr r ↦ ground (arith, members y, both y, m, r)
          ])) in
        (
          set_difference left consumed,
          rw left_eq (rw c_eq refl),
          λ x.
              let gone = set_contains-difference x left consumed in
              (
                λ m.
                    let l : set_contains x left ≡ true = ground (arith, gone, m) in
                    let free : set_contains x consumed ≡ false = ground (arith, gone, m) in
                    let (own, alive) = (in_left x).0 l in
                    (
                      own,
                      alive,
                      λ y y_own why differ r.
                          let y_in : set_contains y (left ++ revokes) ≡ true = elim why [
                            | inl y_alive ↦
                                let k = (in_left y).1 (y_own, y_alive) in
                                ground (arith, members y, k)
                            | inr revoked ↦ ground (arith, members y, both y, revoked, y_own)
                          ] in
                          let bad = (in_consumed x).1 (inr (y, y_in, differ, r)) in
                          absurd (ground (arith, bad, free)),
                    ),
                λ (own, alive, unconsumed).
                    let l = (in_left x).1 (own, alive) in
                    elim (Bool-cases (set_contains x consumed)) [
                      | inr free ↦ ground (arith, gone, l, free)
                      | inl bad ↦ elim ((in_consumed x).0 bad) [
                        | inl nothing ↦ absurd (none_in x nothing)
                        | inr (y, y_in, differ, r) ↦ elim (Bool-cases (set_contains y left)) [
                          | inl y_left ↦
                              let (y_own, y_alive) = (in_left y).0 y_left in
                              absurd (unconsumed y y_own (inl y_alive) differ r)
                          | inr not_left ↦
                              let y_own : set_contains y ids ≡ true =
                                ground (arith, members y, both y, y_in, not_left) in
                              let y_revokes : set_contains y a.effective_revokes ≡ true =
                                ground (arith, members y, both y, y_in, not_left) in
                              absurd (unconsumed y y_own (inr y_revokes) differ r)
                        ]
                      ]
                    ],
              ),
        )
