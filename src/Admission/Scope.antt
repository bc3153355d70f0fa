-- ===== src/Admission/Scope.antt =====
-- `in_scope` of crates/cc-ledger/src/v1/authority.rs returns where grants are issued by earlier ones.
use clockchain.Prelude.{
  ℕ, zero, suc, ◌<◌, ◌≡◌, refl, inl, inr, true, false, some, arith, ◌==◌, Bool-cases, Option-cases,
  length, nat_key,
}
use clockchain.Prelude.Table.{lookup, contains_key}
use clockchain.Wire.{Hash}
use clockchain.Ledger.Authority.{Grant, Authority}
use clockchain.Ledger.Derive.{is_none, in_scope, in_scope_loop}
use clockchain.Ledger.Order.{key_held}
use clockchain.Ledger.Totals.{Returns}
use clockchain.Ledger.Places.{place, place_lt, place_below}

-- A number falls from each grant to the grant that issued it.
abbrev pub Falls : Authority → (Hash → ℕ) → Type 0
Falls view rank =
    (g : Hash) (grant : Grant) (i : Hash)
    → lookup g view.grants ≡ some grant
    → grant.issuer ≡ some i
    → (contains_key i view.grants ≡ true) × (rank i < rank g)

module _ (view : Authority) (rank : Hash → ℕ) (falls : Falls view rank) where
  in_scope_loop-Returns :
      (fuel : ℕ) (signed_by g : Hash)
      → contains_key g view.grants ≡ true
      → place rank view.grants (rank g) < fuel
      → Returns (in_scope_loop fuel view.grants signed_by g)
  unfolding in_scope_loop
  in_scope_loop-Returns zero signed_by g known lt = absurd (omega arith)
  in_scope_loop-Returns (suc fuel) signed_by g known lt =
      let (grant, held) = key_held g view.grants known in
      elim (Option-cases grant.issuer) [
        | inl root ↦ (false, rw (held, in_scope_loop) (rw (root, in_scope_loop) refl))
        | inr (i, issuer) ↦ elim (Bool-cases (i == signed_by)) [
          | inl same ↦ (
            true,
            rw (held, in_scope_loop) (rw (issuer, in_scope_loop) (rw (same, in_scope_loop) refl)),
          )
          | inr differ ↦
              let (i_known, below) = falls g grant i held issuer in
              let (by_, i_held) = key_held i view.grants i_known in
              let lower =
                place_lt rank view.grants i by_ (rank i) (rank g) i_held (omega arith) below in
              let (b, eq) =
                in_scope_loop-Returns fuel signed_by i i_known (omega (arith, lower, lt)) in
              (
                b,
                rw (held, in_scope_loop)
                    (rw (issuer, in_scope_loop) (rw (differ, in_scope_loop) eq)),
              )
        ]
      ]

  pub in_scope-Returns :
      (signed_by target : Hash)
      → contains_key target view.grants ≡ true
      → Returns (in_scope view signed_by target)
  unfolding in_scope
  in_scope-Returns signed_by target known =
      let (grant, held) = key_held target view.grants known in
      elim (Bool-cases (signed_by == target)) [
        | inl own ↦ (is_none grant.issuer, rw own (rw held refl))
        | inr other ↦
            let below = place_below rank view.grants target grant held in
            let (b, eq) =
              in_scope_loop-Returns (suc (length view.grants)) signed_by target known
                (omega (arith, below)) in
            (b, rw other eq)
      ]
