-- ===== src/Ledger/Active.antt =====
-- The authority that `derive_from` gives on traced lineages, for `derive` of
-- crates/cc-ledger/src/v1/authority.rs.
use clockchain.Prelude.{
  ℕ, ◌≡◌, refl, ap, ◌∙◌, sym, inl, inr, Bool, true, false, ◌||◌, some, List, [], ◌∷◌, arith, ◌==◌,
  ==_iff, Bool-cases, nat_key,
}
use clockchain.Prelude.Table.{lookup, contains_key}
use clockchain.Prelude.Ordered.{set_contains}
use clockchain.Wire.{Hash}
use clockchain.Wire.Signed.{Crypto}
use clockchain.Ledger.{Events}
use clockchain.Ledger.Authority.{Grant, Authority, Lineages, Revocations, select_not, keys, covers}
use clockchain.Ledger.Derive.{buried, max_length, derive_from}
use clockchain.Ledger.Order.{IsOrdered, Held-self}
use clockchain.Ledger.Totals.{IsTraced, set_contains-keys, filter_of-Returns, AreRevokes}
use clockchain.Ledger.Rulings.{ranked, sort_by_depth-Returns, Unopposed}
use clockchain.Ledger.Effects.{
  cancellations-Returns, relinquished-AreRevokes, effective_from-Returns, buried-Returns,
  effects_from-Returns,
}
use clockchain.Ledger.Suppression.{HasEffects, suppress_loop-Returns}

set_contains-select_not :
    (p : Hash → Bool) (xs : List Hash) (x : Hash)
    → set_contains x (select_not p xs) ≡ true
    → (set_contains x xs ≡ true) × (p x ≡ false)
unfolding select_not set_contains
set_contains-select_not p [] x m = absurd (ground (arith, m))
set_contains-select_not p (y ∷ xs) x m = elim (Bool-cases (p y)) [
  | inl out ↦
      let m' = rw out at m in let k = set_contains-select_not p xs x m' in (ground (arith, k), k.1)
  | inr kept ↦
      let m' = rw kept at m in
      elim (Bool-cases (x == y)) [
        | inl same ↦ (ground (arith, same), ap p ((==_iff x y).0 same) ∙ kept)
        | inr differ ↦
            let k = set_contains-select_not p xs x (ground (arith, m', differ)) in
            (ground (arith, k), k.1)
      ]
]

module _ {SecretKey : Type 0} (crypto : Crypto SecretKey) (valid : Events) (revokes : Revocations)
    (l : Lineages) (t : IsTraced crypto valid revokes l) where
  -- What an active grant is: one that was made, that no effective revocation covers, and that was
  -- not issued against an effective revocation of its issuer, which would have to have the issuing
  -- event in its past.
  pub record IsRuled (a : Authority) : Type 0 where
    pub made : a.grants ≡ l.grants
    pub effective : AreRevokes crypto valid revokes l t a.effective_revokes
    pub known : (g : Hash) → set_contains g a.active ≡ true → contains_key g a.grants ≡ true
    pub uncovered :
        (g : Hash) (r : Hash)
        → set_contains g a.active ≡ true
        → set_contains r a.effective_revokes ≡ true
        → covers revokes l r g ≡ some false
    pub unopposed :
        (g : Hash) (grant : Grant) (i : Hash)
        → set_contains g a.active ≡ true
        → lookup g a.grants ≡ some grant
        → grant.issuer ≡ some i
        → Unopposed crypto valid revokes l t a.effective_revokes i grant.issued_by_event
    pub ruled : HasEffects valid a.effects

  pub derive_from-IsRuled :
      (rank : Hash → ℕ)
      → IsOrdered valid rank
      → (a : Authority) × (derive_from crypto valid revokes l ≡ some a) × IsRuled a
  unfolding derive_from
  derive_from-IsRuled rank o =
      let grants_known = λ (g : Hash) (m : set_contains g (keys l.grants) ≡ true).
        sym (set_contains-keys g l.grants) ∙ m in
      let (order, order_eq, same) =
        sort_by_depth-Returns l (keys l.grants) (λ g m. t.paths g (grants_known g m)) in
      let ordered = λ (g : Hash) (m : set_contains g (ranked order) ≡ true).
        grants_known g (sym (same g) ∙ m) in
      let (given_up, given_eq, given_all) = relinquished-AreRevokes crypto valid revokes l t in
      let (effective, eff_eq, all) =
        effective_from-Returns crypto valid revokes l t (max_length l.lineage) 1 order given_up
          given_up given_all ordered in
      let (canceled, c_eq, rules) =
        cancellations-Returns crypto valid revokes l t effective order all ordered in
      let (tombs, t_eq, buries) =
        filter_of-Returns (buried revokes l effective) (keys l.grants) (λ g m.
          let (b, eq, _) =
            buried-Returns crypto valid revokes l t effective g all
              (t.paths g (grants_known g m)) in
          (b, eq)) in
      let (effects, e_eq, every) =
        effects_from-Returns crypto valid revokes l t given_up canceled effective valid [] all
          (Held-self valid o.distinct) in
      let (suppressed, s_eq, has) =
        suppress_loop-Returns valid o.known effects (Held-self valid o.distinct)
          (λ x m. every x (ground (arith, m))) in
      let out = λ (g : Hash). contains_key g canceled || set_contains g tombs in
      (
        record {
          grants = l.grants;
          active = select_not out (keys l.grants);
          tombstones = tombs;
          effective_revokes = effective;
          canceled = keys canceled;
          effects = suppressed;
        },
        rw order_eq (rw given_eq (rw eff_eq (rw c_eq (rw t_eq (rw e_eq (rw s_eq refl)))))),
        record {
          made = refl;
          effective = all;
          known = λ g m. grants_known g (set_contains-select_not out (keys l.grants) g m).0;
          uncovered = λ g r m k.
              let (there, kept) = set_contains-select_not out (keys l.grants) g m in
              let (b, b_eq, none_) =
                buried-Returns crypto valid revokes l t effective g all
                  (t.paths g (grants_known g there)) in
              elim (Bool-cases b) [
                | inl covered ↦
                    let tomb = (buries g).1 (there, b_eq ∙ ap some covered) in
                    absurd (ground (arith, tomb, kept))
                | inr free ↦ none_ free r k
              ];
          unopposed = λ g grant i m held issued.
              let (there, kept) = set_contains-select_not out (keys l.grants) g m in
              rules g grant i (same g ∙ there) held issued (ground (arith, kept));
          ruled = has;
        },
      )
