-- ===== src/Ledger/Derive.antt =====
-- The authority that the lineages of a ledger give, `derive` and `in_scope` of
-- crates/cc-ledger/src/v1/authority.rs.
use clockchain.Prelude.{
  is_empty, ℕ, zero, suc, Bool, true, false, not, ◌&&◌, ◌||◌, Option, none, some, List, [], ◌∷◌,
  length, leb, ◌==◌, max, if◌then◌else◌, nat_key,
}
use clockchain.Prelude.Table.{lookup, contains_key}
use clockchain.Prelude.Ordered.{map_insert, set_contains}
use clockchain.Wire.{Hash}
use clockchain.Wire.Signed.{Crypto}
use clockchain.Ledger.{Events, parents_of, ◌>>=◌}
use clockchain.Ledger.Authority.{
  Grant, Reason, eligible, root_relinquished, revoked_concurrent, canceled_grant,
  canceled_authority, revoked_ancestor, Effect, Authority, Lineages, any_of, select_not, filter_of,
  set_union, keys, Revocations, revocations, covers, outside, and_then, controls_of, signer,
  lineages,
}

unfoldable pub depth : Lineages → Hash → Option ℕ
depth l g = do path ← lookup g l.lineage; some (length path)

-- `sort_by_key`, which is stable, on the depths of the grants.
unfoldable pub insert_by_depth : ℕ → Hash → List (ℕ × Hash) → List (ℕ × Hash)
insert_by_depth d g [] = (d, g) ∷ []
insert_by_depth d g ((c, h) ∷ order) =
    if leb d c then (d, g) ∷ (c, h) ∷ order else (c, h) ∷ insert_by_depth d g order

unfoldable pub sort_by_depth : Lineages → List Hash → Option (List (ℕ × Hash))
sort_by_depth l [] = some []
sort_by_depth l (g ∷ gs) = do
  d ← depth l g
  order ← sort_by_depth l gs
  some (insert_by_depth d g order)

abbrev pub controls_at : Hash → List (Hash × List Hash) → List Hash
controls_at g canceled = elim (lookup g canceled) [ none ↦ [] | some controls ↦ controls ]

-- The body of the loop of `cancellations`, for a grant that was issued.
unfoldable pub cancel :
    Events
    → Revocations
    → Lineages
    → List Hash
    → Hash
    → Hash
    → Hash
    → List (Hash × List Hash)
    → Option (List (Hash × List Hash))
cancel valid revokes l effective g issuer event canceled = do
  found ← controls_of valid revokes l effective issuer event
  let controls = set_union (controls_at issuer canceled) found
  some (if is_empty controls then canceled else map_insert g controls canceled)

unfoldable pub cancellations_from :
    Events
    → Revocations
    → Lineages
    → List Hash
    → List (ℕ × Hash)
    → List (Hash × List Hash)
    → Option (List (Hash × List Hash))
cancellations_from valid revokes l effective [] canceled = some canceled
cancellations_from valid revokes l effective ((_, g) ∷ order) canceled = elim (lookup g l.grants) [
  | none ↦ none
  | some grant ↦ elim grant.issuer [
    | none ↦ cancellations_from valid revokes l effective order canceled
    | some issuer ↦
        elim (cancel valid revokes l effective g issuer grant.issued_by_event canceled) [
          | none ↦ none
          | some canceled' ↦ cancellations_from valid revokes l effective order canceled'
        ]
  ]
]

abbrev pub is_none : Option Hash → Bool
is_none none = true
is_none (some _) = false

-- The depths `1..=max_depth`, as the number of rounds with the first depth.
unfoldable pub max_length : List (Hash × List Hash) → ℕ
max_length [] = 0
max_length ((_, path) ∷ lineage) = max (length path) (max_length lineage)

unfoldable pub cancellations :
    Events → Revocations → Lineages → List (ℕ × Hash) → List Hash → Option (List (Hash × List Hash))
cancellations valid revokes l order effective =
    cancellations_from valid revokes l effective order []

-- Whether an effective revocation covers a grant.
unfoldable pub buried : Revocations → Lineages → List Hash → Hash → Option Bool
buried revokes l effective g = any_of (λ r. covers revokes l r g) effective

abbrev pub negated : Option Bool → Option Bool
negated none = none
negated (some b) = some (not b)

abbrev pub effect_by : List Hash → List (Hash × List Hash) → Hash → Hash → List Hash → Effect
effect_by relinquished canceled id g controls =
    if set_contains id relinquished
    then record { reason = root_relinquished; controlling_revokes = id ∷ [] }
    else if not (is_empty controls)
    then record { reason = revoked_concurrent; controlling_revokes = controls }
    else elim (lookup id canceled) [
      | some found ↦ record { reason = canceled_grant; controlling_revokes = found }
      | none ↦ elim (lookup g canceled) [
        | some found ↦ record { reason = canceled_authority; controlling_revokes = found }
        | none ↦ record { reason = eligible; controlling_revokes = [] }
      ]
    ]

abbrev pub is_eligible : Reason → Bool
is_eligible eligible = true
is_eligible _ = false

abbrev pub suppresses : Reason → Bool
suppresses eligible = false
suppresses root_relinquished = false
suppresses _ = true

-- The revocations that control the parents of an event.
unfoldable pub inherited_controls :
    List Hash → List (Hash × Effect) → List Hash → Option (List Hash)
inherited_controls [] effects out = some out
inherited_controls (p ∷ ps) effects out = do
  effect ← lookup p effects
  inherited_controls ps effects
      (if suppresses effect.reason then set_union out effect.controlling_revokes else out)

-- One round of the last loop of `derive`, with whether it changed anything.
unfoldable pub suppress :
    Events → List (Hash × Effect) → Bool → Option (List (Hash × Effect) × Bool)
suppress [] effects changed = some (effects, changed)
suppress ((id, e) ∷ events) effects changed = elim (lookup id effects) [
  | none ↦ none
  | some effect ↦ elim (is_eligible effect.reason) [
    | false ↦ suppress events effects changed
    | true ↦ elim (inherited_controls (parents_of e) effects []) [
      | none ↦ none
      | some controls ↦ elim (is_empty controls) [
        | true ↦ suppress events effects changed
        | false ↦
            suppress events
              (map_insert id (record { reason = revoked_ancestor; controlling_revokes = controls })
                effects)
              true
      ]
    ]
  ]
]

-- A round that changes something makes an event ineligible, so that one more round than events is
-- enough.
unfoldable pub suppress_loop : ℕ → Events → List (Hash × Effect) → Option (List (Hash × Effect))
suppress_loop zero valid effects = none
suppress_loop (suc fuel) valid effects = elim (suppress valid effects false) [
  | none ↦ none
  | some (effects', false) ↦ some effects'
  | some (effects', true) ↦ suppress_loop fuel valid effects'
]

module _ {SecretKey : Type 0} (crypto : Crypto SecretKey) where
  module _ (valid : Events) (revokes : Revocations) (l : Lineages) where
    -- A root grant's holder gives it up.
    unfoldable pub relinquishes : Hash → Option Bool
    relinquishes r = do
      (target, _) ← lookup r revokes
      e ← lookup r valid
      and_then (some (signer crypto r e == target))
          (lookup target l.grants >>= (λ grant. some (is_none grant.issuer)))

    -- Whether a revocation takes effect at a depth.
    unfoldable pub takes_effect :
        ℕ → List Hash → List (Hash × List Hash) → List Hash → Hash → Option Bool
    takes_effect d relinquished canceled effective r = do
      e ← lookup r valid
      let g = signer crypto r e
      own ← depth l g
      and_then
          (some (own == d && (not (set_contains r relinquished) && not (contains_key g canceled))))
          (negated (any_of (λ q. and_then (covers revokes l q g) (outside valid l r q)) effective))

    -- The loop over the depths.
    unfoldable pub effective_from :
        ℕ → ℕ → List (ℕ × Hash) → List Hash → List Hash → Option (List Hash)
    effective_from zero d order relinquished effective = some effective
    effective_from (suc more) d order relinquished effective = do
      canceled ← cancellations valid revokes l order effective
      batch ← filter_of (takes_effect d relinquished canceled effective) (keys revokes)
      effective_from more (suc d) order relinquished (set_union effective batch)

    unfoldable pub effects_from :
        List Hash
        → List (Hash × List Hash)
        → List Hash
        → Events
        → List (Hash × Effect)
        → Option (List (Hash × Effect))
    effects_from relinquished canceled effective [] out = some out
    effects_from relinquished canceled effective ((id, e) ∷ events) out =
        elim (controls_of valid revokes l effective (signer crypto id e) id) [
          | none ↦ none
          | some controls ↦
              effects_from relinquished canceled effective events (
                map_insert id (effect_by relinquished canceled id (signer crypto id e) controls)
                  out)
        ]

  -- `derive`, once the maps of its first loop are made.
  unfoldable pub derive_from : Events → Revocations → Lineages → Option Authority
  derive_from valid revokes l = do
    order ← sort_by_depth l (keys l.grants)
    relinquished ← filter_of (relinquishes valid revokes l) (keys revokes)
    effective ←
        effective_from valid revokes l (max_length l.lineage) 1 order relinquished relinquished
    canceled ← cancellations valid revokes l order effective
    tombstones ← filter_of (buried revokes l effective) (keys l.grants)
    effects ← effects_from valid revokes l relinquished canceled effective valid []
    suppressed ← suppress_loop (suc (length valid)) valid effects
    some (record {
      grants = l.grants;
      active =
          select_not (λ g. contains_key g canceled || set_contains g tombstones) (keys l.grants);
      tombstones = tombstones;
      effective_revokes = effective;
      canceled = keys canceled;
      effects = suppressed;
    })

  unfoldable pub derive : Events → Option Authority
  derive valid = do l ← lineages crypto valid; derive_from valid (revocations valid) l

unfoldable pub in_scope_loop : ℕ → List (Hash × Grant) → Hash → Hash → Option Bool
in_scope_loop zero grants signed_by g = none
in_scope_loop (suc fuel) grants signed_by g = elim (lookup g grants) [
  | none ↦ none
  | some grant ↦ elim grant.issuer [
    | none ↦ some false
    | some issuer ↦ elim (issuer == signed_by) [
      | true ↦ some true
      | false ↦ in_scope_loop fuel grants signed_by issuer
    ]
  ]
]

-- Grants are issued by earlier ones, so that one more round than grants is enough.
unfoldable pub in_scope : Authority → Hash → Hash → Option Bool
in_scope view signed_by target =
    if signed_by == target
    then lookup target view.grants >>= (λ grant. some (is_none grant.issuer))
    else in_scope_loop (suc (length view.grants)) view.grants signed_by target
