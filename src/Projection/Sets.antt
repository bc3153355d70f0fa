-- ===== src/Projection/Sets.antt =====
-- The sets of events in `project` of crates/cc-ledger/src/v1/projection.rs.
use clockchain.Prelude.{
  ◌≡◌, ◌↔◌, refl, ap, ◌∙◌, sym, inl, inr, Bool, true, not, ◌&&◌, some, List, [], ◌∷◌, arith, ◌==◌,
  ==_iff, Bool-cases, nat_key,
}
use clockchain.Prelude.Table.{lookup, contains_key, IsDistinct}
use clockchain.Prelude.Ordered.{set_contains}
use clockchain.Wire.{Hash}
use clockchain.Wire.Signed.{Signed}
use clockchain.Ledger.{Events, unwrap_or}
use clockchain.Ledger.Authority.{select_not}
use clockchain.Ledger.Order.{key_held}
use clockchain.Ledger.Totals.{set_contains-keys}
use clockchain.Ledger.Where.{events_where, lookup-events_where, events_where-lookup}
use clockchain.Edges.Endpoint.{set_difference}
use clockchain.Projection.{events_of, set_intersection}

pub set_contains-select_not :
    (p : Hash → Bool) (xs : List Hash) (x : Hash)
    → set_contains x (select_not p xs) ≡ (set_contains x xs && not (p x))
unfolding select_not set_contains
set_contains-select_not p [] x = refl
set_contains-select_not p (y ∷ xs) x =
    let rest = set_contains-select_not p xs x in
    elim (Bool-cases (x == y)) [
      | inl same ↦
          let p_eq : p x ≡ p y = ap p ((==_iff x y).0 same) in
          elim (Bool-cases (p y)) [
            | inl drop ↦ ground (arith, rest, same, drop, p_eq)
            | inr kept ↦ ground (arith, rest, same, kept, p_eq)
          ]
      | inr differ ↦ elim (Bool-cases (p y)) [
        | inl drop ↦ ground (arith, rest, differ, drop)
        | inr kept ↦ ground (arith, rest, differ, kept)
      ]
    ]

pub set_contains-difference :
    (x : Hash) (xs ys : List Hash)
    → set_contains x (set_difference xs ys) ≡ (set_contains x xs && not (set_contains x ys))
unfolding set_difference
set_contains-difference x xs ys = set_contains-select_not (λ y. set_contains y ys) xs x

pub set_contains-intersection :
    (x : Hash) (xs ys : List Hash)
    → set_contains x (set_intersection xs ys) ≡ (set_contains x xs && set_contains x ys)
unfolding set_intersection
set_contains-intersection x xs ys =
    ground (arith, set_contains-select_not (λ y. not (set_contains y ys)) xs x)

pub none_in : (x : Hash) → set_contains x [] ≡ true → ⊥
unfolding set_contains
none_in x m = ground (arith, m)

-- An event is listed with its subject exactly if it is of it.
pub events_of-lookup :
    (subject : Hash) (valid : Events) (x : Hash)
    → IsDistinct valid
    → (set_contains x (events_of subject valid) ≡ true) ↔ (
        (e : Signed) × (lookup x valid ≡ some e)
        × ((unwrap_or e.envelope.subject x == subject) ≡ true))
unfolding events_of
events_of-lookup subject valid x d =
    let keep = λ (id : Hash) (e : Signed). unwrap_or e.envelope.subject id == subject in
    let listed = set_contains-keys x (events_where keep valid) in
    (
      λ m.
          let (e, held) = key_held x (events_where keep valid) (sym listed ∙ m) in
          let (own, is) = events_where-lookup keep valid x e d held in (e, own, is),
      λ (e, held, is).
          let at_ = lookup-events_where keep valid x e held is in
          listed
          ∙ (let k : contains_key x (events_where keep valid) ≡ true = ground (arith, at_) in k),
    )
