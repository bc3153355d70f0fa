-- ===== src/Projection/Pasts.antt =====
-- The ancestors of every event in `project` of crates/cc-ledger/src/v1/projection.rs, and the
-- genesis events that it goes over.
use clockchain.Prelude.{
  ◌≡◌, ◌↔◌, refl, ◌∙◌, sym, subst, inl, inr, Bool, true, false, none, some, List, [], ◌∷◌, arith,
  ◌==◌, ==_iff, Bool-cases, nat_key,
}
use clockchain.Prelude.Table.{lookup, contains_key}
use clockchain.Prelude.Ordered.{set_contains}
use clockchain.Wire.{Hash}
use clockchain.Wire.Event.{kind_of}
use clockchain.Wire.Signed.{Signed}
use clockchain.Ledger.{Events}
use clockchain.Ledger.Authority.{keys}
use clockchain.Ledger.Cone.{cone-Reaches}
use clockchain.Ledger.Search.{Reaches, IsClosed}
use clockchain.Ledger.Totals.{set_contains-keys}
use clockchain.Ledger.Where.{events_where}
use clockchain.Edges.{is_genesis}
use clockchain.Projection.{Ancestors, ancestors_of}

-- The ancestors of every event are found: what is reached from it.
pub ancestors_of-Reaches :
    (valid items : Events)
    → IsClosed valid
    → ((x : Hash) → contains_key x items ≡ true → contains_key x valid ≡ true)
    → (ancestors : Ancestors) × (ancestors_of valid items ≡ some ancestors)
      × ((x : Hash)
          → contains_key x items ≡ true
          → (past : List Hash) × (lookup x ancestors ≡ some past)
            × ((y : Hash) → (set_contains y past ≡ true) ↔ Reaches valid x y))
unfolding ancestors_of lookup
ancestors_of-Reaches valid [] closed known = ([], refl, λ x h. absurd (ground (arith, h)))
ancestors_of-Reaches valid ((id, e) ∷ items) closed known =
    let (m, eq, reached, _) =
      cone-Reaches valid id closed (known id (ground (arith, (==_iff id id).1 refl))) in
    let (rest, r_eq, pasts) =
      ancestors_of-Reaches valid items closed (λ x h. known x (ground (arith, h))) in
    (
      (id, keys m) ∷ rest,
      rw eq (rw r_eq refl),
      λ x h. elim (Bool-cases (id == x)) [
        | inr differ ↦
            let (past, held, means) = pasts x (ground (arith, h, differ)) in
            (past, rw differ held, means)
        | inl same ↦
            let x_eq = (==_iff id x).0 same in
            (
              keys m,
              rw same refl,
              λ y.
                  let listed = set_contains-keys y m in
                  (
                    λ n.
                        subst (λ (z : Hash). Reaches valid z y) x_eq
                          ((reached y).0 (sym listed ∙ n)),
                    λ r.
                        listed
                        ∙ (reached y).1 (subst (λ (z : Hash). Reaches valid z y) (sym x_eq) r),
                  ),
            )
      ],
    )

abbrev pub starts : Hash → Signed → Bool
starts id e = is_genesis (kind_of e.envelope.payload)

-- A key of later events is another one.
pub new_key :
    (id s : Hash) (items : Events)
    → lookup id items ≡ none
    → set_contains s (keys (events_where starts items)) ≡ true
    → (id == s) ≡ false
unfolding set_contains lookup
new_key id s [] gone m = absurd (ground (arith, m))
new_key id s ((y, f) ∷ items) gone m =
    let differ : (y == id) ≡ false = ground (arith, gone) in
    let gone' : lookup id items ≡ none = ground (arith, gone) in
    elim (Bool-cases (starts y f)) [
      | inr other ↦ let m' = rw other at m in new_key id s items gone' m'
      | inl first_ ↦
          let m' = rw first_ at m in
          elim (Bool-cases (s == y)) [
            | inr later_ ↦ new_key id s items gone' (ground (arith, m', later_))
            | inl same ↦ elim (Bool-cases (id == s)) [
              | inr apart_ ↦ apart_
              | inl both ↦
                  let y_eq = (==_iff y id).1 (sym ((==_iff id s).0 both ∙ (==_iff s y).0 same)) in
                  absurd (ground (arith, y_eq, differ))
            ]
          ]
    ]
