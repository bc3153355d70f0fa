-- ===== src/Ledger/Effects.antt =====
-- What takes effect, and the effects of events, in `derive` of
-- crates/cc-ledger/src/v1/authority.rs, on a governed ledger.
use clockchain.Prelude.{
  ℕ, zero, suc, ◌≡◌, refl, ◌∙◌, sym, inl, inr, Bool, true, false, not, ◌&&◌, ◌||◌, Option, some,
  List, [], ◌∷◌, length, arith, ◌==◌, Bool-cases, nat_key,
}
use clockchain.Prelude.Table.{lookup, contains_key}
use clockchain.Prelude.Ordered.{map_insert, lookup-map_insert, set_contains}
use clockchain.Wire.{Hash}
use clockchain.Wire.Signed.{Crypto}
use clockchain.Ledger.{Events}
use clockchain.Ledger.Authority.{
  Effect, Lineages, Revocations, any_of, filter_of, set_union, keys, covers, outside, and_then,
  signer,
}
use clockchain.Ledger.Derive.{
  depth, is_none, cancellations, buried, negated, relinquishes, takes_effect, effective_from,
  effect_by, effects_from,
}
use clockchain.Ledger.Order.{Held, key_held}
use clockchain.Ledger.Rulings.{ranked, CancelsOpposed, cancellations_from-Returns}
use clockchain.Ledger.Totals.{
  Returns, IsTraced, set_contains-union, set_contains-keys, filter_of-Returns, any_of-Returns,
  and_then-Returns, covers-Returns, outside-Returns, AreRevokes, controls_of-Returns,
}

negated-Returns : (a : Option Bool) → Returns a → Returns (negated a)
negated-Returns a (b, eq) = (not b, rw eq refl)

module _ {SecretKey : Type 0} (crypto : Crypto SecretKey) (valid : Events) (revokes : Revocations)
    (l : Lineages) (t : IsTraced crypto valid revokes l) where
  pub cancellations-Returns :
      (effective : List Hash) (order : List (ℕ × Hash))
      → AreRevokes crypto valid revokes l t effective
      → ((g : Hash) → set_contains g (ranked order) ≡ true → contains_key g l.grants ≡ true)
      → (canceled : List (Hash × List Hash)) × (cancellations valid revokes l order effective
          ≡ some canceled)
        × CancelsOpposed crypto valid revokes l t effective (ranked order) canceled
  unfolding cancellations
  cancellations-Returns effective order all known =
      let (c, eq, _, rules) =
        cancellations_from-Returns crypto valid revokes l t effective order [] all known in
      (c, eq, rules)

  key_known : (r : Hash) → set_contains r (keys revokes) ≡ true → contains_key r revokes ≡ true
  key_known r m = sym (set_contains-keys r revokes) ∙ m

  relinquishes-Returns :
      (r : Hash) → contains_key r revokes ≡ true → Returns (relinquishes crypto valid revokes l r)
  unfolding relinquishes
  relinquishes-Returns r known =
      let ((target, cascade), held) = key_held r revokes known in
      let (e, p, e_held, _, _) = t.revoking r known in
      let (grant, g_held) = key_held target l.grants (t.targets r target cascade held) in
      let own = signer crypto r e == target in
      elim (Bool-cases own) [
        | inl same ↦ (is_none grant.issuer, rw held (rw e_held (rw (same, g_held) refl)))
        | inr other ↦ (false, rw held (rw e_held (rw other refl)))
      ]

  pub relinquished-AreRevokes :
      (ys : List Hash) × (filter_of (relinquishes crypto valid revokes l) (keys revokes) ≡ some ys)
      × AreRevokes crypto valid revokes l t ys
  relinquished-AreRevokes =
      let (ys, eq, keeps) =
        filter_of-Returns (relinquishes crypto valid revokes l) (keys revokes)
          (λ r m. relinquishes-Returns r (key_known r m)) in
      (ys, eq, λ r m. key_known r ((keeps r).0 m).0)

  takes_effect-Returns :
      (d : ℕ) (relinquished : List Hash) (canceled : List (Hash × List Hash))
      (effective : List Hash) (r : Hash)
      → AreRevokes crypto valid revokes l t effective
      → contains_key r revokes ≡ true
      → Returns (takes_effect crypto valid revokes l d relinquished canceled effective r)
  unfolding takes_effect depth
  takes_effect-Returns d relinquished canceled effective r all known =
      let (e, p, e_held, _, _) = t.revoking r known in
      let path = t.signers r e e_held in
      let (steps, at_) = key_held (signer crypto r e) l.lineage path in
      let test =
        λ (q : Hash). and_then (covers revokes l q (signer crypto r e)) (outside valid l r q) in
      let (b, b_eq, _) = any_of-Returns test effective (λ q m.
        and_then-Returns (covers revokes l q (signer crypto r e)) (outside valid l r q)
          (covers-Returns crypto valid revokes l t q (signer crypto r e) (all q m) path)
          (outside-Returns crypto valid revokes l t r q (all q m))) in
      let (c, c_eq) =
        and_then-Returns
          (some (
            length steps == d
            && (not (set_contains r relinquished)
                && not (contains_key (signer crypto r e) canceled))))
          (negated (any_of test effective)) (_, refl)
          (negated-Returns (any_of test effective) (b, b_eq)) in
      (c, rw e_held (rw at_ c_eq))

  pub effective_from-Returns :
      (more d : ℕ) (order : List (ℕ × Hash)) (relinquished effective : List Hash)
      → AreRevokes crypto valid revokes l t effective
      → ((g : Hash) → set_contains g (ranked order) ≡ true → contains_key g l.grants ≡ true)
      → (ys : List Hash) × (effective_from crypto valid revokes l more d order relinquished
            effective
          ≡ some ys)
        × AreRevokes crypto valid revokes l t ys
  unfolding effective_from
  effective_from-Returns zero d order relinquished effective all known = (effective, refl, all)
  effective_from-Returns (suc more) d order relinquished effective all known =
      let (canceled, c_eq, _) = cancellations-Returns effective order all known in
      let (batch, b_eq, keeps) =
        filter_of-Returns (takes_effect crypto valid revokes l d relinquished canceled effective)
          (keys revokes)
          (λ r m. takes_effect-Returns d relinquished canceled effective r all (key_known r m)) in
      let (ys, eq, all') =
        effective_from-Returns more (suc d) order relinquished (set_union effective batch)
          (λ r m.
            let merged = set_contains-union r effective batch in
            elim (Bool-cases (set_contains r effective)) [
              | inl old ↦ all r old
              | inr new ↦ key_known r ((keeps r).0 (ground (arith, merged, m, new))).0
            ])
          known in
      (ys, rw c_eq (rw b_eq eq), all')

  -- A grant that is not buried is covered by no effective revocation.
  pub buried-Returns :
      (effective : List Hash) (g : Hash)
      → AreRevokes crypto valid revokes l t effective
      → contains_key g l.lineage ≡ true
      → (b : Bool) × (buried revokes l effective g ≡ some b)
        × (b ≡ false
            → (r : Hash) → set_contains r effective ≡ true
            → covers revokes l r g ≡ some false)
  unfolding buried
  buried-Returns effective g all path =
      any_of-Returns (λ r. covers revokes l r g) effective
        (λ r m. covers-Returns crypto valid revokes l t r g (all r m) path)

  -- Every event gets an effect.
  pub effects_from-Returns :
      (relinquished : List Hash) (canceled : List (Hash × List Hash)) (effective : List Hash)
      (events : Events) (out : List (Hash × Effect))
      → AreRevokes crypto valid revokes l t effective
      → Held valid events
      → (effects : List (Hash × Effect)) × (effects_from crypto valid revokes l relinquished
            canceled effective events out
          ≡ some effects)
        × ((x : Hash)
            → (contains_key x out || contains_key x events) ≡ true
            → contains_key x effects ≡ true)
  unfolding effects_from lookup
  effects_from-Returns relinquished canceled effective [] out all held =
      (out, refl, λ x m. ground (arith, m))
  effects_from-Returns relinquished canceled effective ((id, e) ∷ events) out all held =
      let path = t.signers id e held.0 in
      let (controls, eq, _) =
        controls_of-Returns crypto valid revokes l t effective (signer crypto id e) id all path in
      let effect = effect_by relinquished canceled id (signer crypto id e) controls in
      let (effects, eq', every) =
        effects_from-Returns relinquished canceled effective events (map_insert id effect out) all
          held.1 in
      (
        effects,
        rw (eq, effects_from) eq',
        λ x m. every x (ground (arith, lookup-map_insert id x effect out, m)),
      )
