-- ===== src/Ledger/Suppression.antt =====
-- The last loop of `derive` in crates/cc-ledger/src/v1/authority.rs ends: a round that changes
-- anything makes an event ineligible.
use clockchain.Prelude.{
  is_empty, ℕ, zero, suc, ◌+◌, ◌≤◌, ◌<◌, ◌≡◌, ◌⊎◌, refl, ap, ◌∙◌, inl, inr, Bool, true, false, none,
  some, List, [], ◌∷◌, length, arith, ◌==◌, ==_iff, Bool-cases, if◌then◌else◌, nat_key,
}
use clockchain.Prelude.Table.{lookup, contains_key}
use clockchain.Prelude.Ordered.{map_insert, lookup-map_insert, set_contains}
use clockchain.Wire.{Hash}
use clockchain.Wire.Signed.{Signed}
use clockchain.Ledger.{Events, parents_of}
use clockchain.Ledger.Authority.{Effect, revoked_ancestor, set_union}
use clockchain.Ledger.Derive.{is_eligible, suppresses, inherited_controls, suppress, suppress_loop}
use clockchain.Ledger.Order.{Held, key_held}
use clockchain.Ledger.Totals.{Returns}

abbrev Effects : Type 0
Effects = List (Hash × Effect)

abbrev eligible_at : Hash → Effects → Bool
eligible_at x effects = elim (lookup x effects) [
  | none ↦ false
  | some effect ↦ is_eligible effect.reason
]

-- How many events are eligible.
abbrev eligibles : Events → Effects → ℕ
eligibles [] effects = 0
eligibles ((id, e) ∷ events) effects =
    (if eligible_at id effects then 1 else 0) + eligibles events effects

abbrev revoked : List Hash → Effect
revoked controls = record { reason = revoked_ancestor; controlling_revokes = controls }

eligibles_le : (events : Events) (effects : Effects) → eligibles events effects ≤ length events
eligibles_le [] effects = omega arith
eligibles_le ((id, e) ∷ events) effects = ground (arith, eligibles_le events effects)

eligible_at-insert :
    (x id : Hash) (controls : List Hash) (effects : Effects)
    → eligible_at x (map_insert id (revoked controls) effects)
      ≡ (if id == x then false else eligible_at x effects)
eligible_at-insert x id controls effects =
    ground (arith, lookup-map_insert id x (revoked controls) effects)

eligibles-insert_le :
    (events : Events) (id : Hash) (controls : List Hash) (effects : Effects)
    → eligibles events (map_insert id (revoked controls) effects) ≤ eligibles events effects
eligibles-insert_le [] id controls effects = omega arith
eligibles-insert_le ((x, e) ∷ events) id controls effects = ground (
  arith,
  eligible_at-insert x id controls effects,
  eligibles-insert_le events id controls effects,
)

eligibles-insert :
    (events : Events) (id : Hash) (e : Signed) (controls : List Hash) (effects : Effects)
    → lookup id events ≡ some e
    → eligible_at id effects ≡ true
    → eligibles events (map_insert id (revoked controls) effects) < eligibles events effects
unfolding lookup
eligibles-insert [] id e controls effects held was = absurd (ground (arith, held))
eligibles-insert ((x, f) ∷ events) id e controls effects held was = elim (Bool-cases (x == id)) [
  | inl same ↦
      let x_eq = (==_iff x id).0 same in
      let before : eligible_at x effects ≡ true = ap (λ k. eligible_at k effects) x_eq ∙ was in
      let after : eligible_at x (map_insert id (revoked controls) effects) ≡ false =
        ground (arith, eligible_at-insert x id controls effects, x_eq) in
      let rest = eligibles-insert_le events id controls effects in
      rw (before, after) (omega (arith, rest))
  | inr differ ↦
      let held' = rw differ at held in
      let kept : eligible_at x (map_insert id (revoked controls) effects) ≡ eligible_at x effects =
        ground (arith, eligible_at-insert x id controls effects, differ) in
      let rest = eligibles-insert events id e controls effects held' was in
      rw kept (omega (arith, rest))
]

inherited_controls-Returns :
    (ps : List Hash) (effects : Effects) (out : List Hash)
    → ((p : Hash) → set_contains p ps ≡ true → contains_key p effects ≡ true)
    → Returns (inherited_controls ps effects out)
unfolding inherited_controls set_contains
inherited_controls-Returns [] effects out h = (out, refl)
inherited_controls-Returns (p ∷ ps) effects out h =
    let (effect, held) = key_held p effects (h p (ground arith)) in
    let (controls, eq) =
      inherited_controls-Returns ps effects
        (if suppresses effect.reason then set_union out effect.controlling_revokes else out)
        (λ q m. h q (ground (arith, m))) in
    (controls, rw held eq)

-- Every event has an effect.
abbrev pub HasEffects : Events → Effects → Type 0
HasEffects valid effects = (x : Hash) → contains_key x valid ≡ true → contains_key x effects ≡ true

module _ (valid : Events)
    (known : (x : Hash) (e : Signed) (p : Hash)
      → lookup x valid ≡ some e
      → set_contains p (parents_of e) ≡ true
      → contains_key p valid ≡ true) where
  suppress-Returns :
      (items : Events) (effects : Effects) (changed : Bool)
      → Held valid items
      → HasEffects valid effects
      → (effects' : Effects) × (changed' : Bool) × (suppress items effects changed
          ≡ some (effects', changed'))
        × HasEffects valid effects'
        × (eligibles valid effects' ≤ eligibles valid effects)
        × (changed' ≡ true
            → (changed ≡ true) ⊎ (eligibles valid effects' < eligibles valid effects))
  unfolding suppress
  suppress-Returns [] effects changed held has =
      (effects, changed, refl, has, omega arith, λ e. inl e)
  suppress-Returns ((id, e) ∷ items) effects changed held has =
      let (effect, at_) = key_held id effects (has id (ground (arith, held.0))) in
      elim (Bool-cases (is_eligible effect.reason)) [
        | inr settled ↦
            let (f, c, eq, has', le, ruling) = suppress-Returns items effects changed held.1 has in
            (f, c, rw (at_, suppress) (rw (settled, suppress) eq), has', le, ruling)
        | inl open_ ↦
            let (controls, c_eq) =
              inherited_controls-Returns (parents_of e) effects []
                (λ p m. has p (known id e p held.0 m)) in
            elim (Bool-cases (is_empty controls)) [
              | inl clear ↦
                  let (f, c, eq, has', le, ruling) =
                    suppress-Returns items effects changed held.1 has in
                  (
                    f,
                    c,
                    rw (at_, suppress)
                        (rw (open_, suppress) (rw (c_eq, suppress) (rw (clear, suppress) eq))),
                    has',
                    le,
                    ruling,
                  )
              | inr bound ↦
                  let next = map_insert id (revoked controls) effects in
                  let fewer =
                    eligibles-insert valid id e controls effects held.0
                      (ground (arith, at_, open_)) in
                  let (f, c, eq, has', le, ruling) = suppress-Returns items next true held.1 (λ x m.
                    ground (arith, lookup-map_insert id x (revoked controls) effects, has x m)) in
                  (
                    f,
                    c,
                    rw (at_, suppress)
                        (rw (open_, suppress) (rw (c_eq, suppress) (rw (bound, suppress) eq))),
                    has',
                    omega (arith, le, fewer),
                    λ e. inr (omega (arith, le, fewer)),
                  )
            ]
      ]

  suppress_loop_lem :
      (fuel : ℕ) (effects : Effects)
      → Held valid valid
      → HasEffects valid effects
      → eligibles valid effects < fuel
      → (effects' : Effects) × (suppress_loop fuel valid effects ≡ some effects')
        × HasEffects valid effects'
  unfolding suppress_loop
  suppress_loop_lem zero effects held has lt = absurd (omega arith)
  suppress_loop_lem (suc fuel) effects held has lt =
      let (f, c, eq, has', le, ruling) = suppress-Returns valid effects false held has in
      elim (Bool-cases c) [
        | inr done ↦
            let eq' : suppress valid effects false ≡ some (f, false) =
              eq ∙ ap (λ b. some (f, b)) done in
            (f, rw (eq', suppress_loop) refl, has')
        | inl more ↦
            let eq' : suppress valid effects false ≡ some (f, true) =
              eq ∙ ap (λ b. some (f, b)) more in
            let lt' : eligibles valid f < eligibles valid effects = elim (ruling more) [
              | inl absurd_ ↦ absurd (ground (arith, absurd_))
              | inr less ↦ less
            ] in
            let (g, eq'', has'') = suppress_loop_lem fuel f held has' (omega (arith, lt', lt)) in
            (g, rw (eq', suppress_loop) eq'', has'')
      ]

  -- One round more than events is enough.
  pub suppress_loop-Returns :
      (effects : Effects)
      → Held valid valid
      → HasEffects valid effects
      → (effects' : Effects) × (suppress_loop (suc (length valid)) valid effects ≡ some effects')
        × HasEffects valid effects'
  suppress_loop-Returns effects held has =
      suppress_loop_lem (suc (length valid)) effects held has
        (omega (arith, eligibles_le valid effects))
