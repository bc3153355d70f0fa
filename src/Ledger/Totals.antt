-- ===== src/Ledger/Totals.antt =====
-- The tests of `derive` in crates/cc-ledger/src/v1/authority.rs do not panic on a governed ledger.
use clockchain.Prelude.{
  ◌≡◌, ◌↔◌, refl, ap, ◌∙◌, sym, inl, inr, Bool, true, false, not, ◌||◌, Option, some, List, [], ◌∷◌,
  arith, ◌==◌, ==_iff, Bool-cases, nat_key,
}
use clockchain.Prelude.Table.{lookup, contains_key}
use clockchain.Prelude.Ordered.{set_insert, set_contains, set_contains-insert}
use clockchain.Wire.{Hash}
use clockchain.Wire.Signed.{Crypto, Signed}
use clockchain.Ledger.{Events, parents_of, first}
use clockchain.Ledger.Authority.{
  Grant, Lineages, Revocations, any_of, filter_of, set_union, keys, covers, outside, and_then,
  controls_of, signer,
}
use clockchain.Ledger.Order.{key_held}

-- A computation that does not panic.
abbrev pub Returns : {A : Type 0} → Option A → Type 0
Returns {A} m = (a : A) × (m ≡ some a)

pub set_contains-union :
    (x : Hash) (s t : List Hash)
    → set_contains x (set_union s t) ≡ (set_contains x s || set_contains x t)
unfolding set_union set_contains
set_contains-union x s [] = ground arith
set_contains-union x s (y ∷ t) =
    ground (arith, set_contains-union x (set_insert y s) t, set_contains-insert x y s)

pub set_contains-keys :
    {V : Type 0} (x : Hash) (m : List (Hash × V)) → set_contains x (keys m) ≡ contains_key x m
unfolding set_contains lookup
set_contains-keys x [] = refl
set_contains-keys x ((k, v) ∷ m) = ground (arith, set_contains-keys x m)

-- A filter whose test does not panic keeps what passes the test.
pub filter_of-Returns :
    (p : Hash → Option Bool) (xs : List Hash)
    → ((x : Hash) → set_contains x xs ≡ true → Returns (p x))
    → (ys : List Hash) × (filter_of p xs ≡ some ys)
      × ((x : Hash) → (set_contains x ys ≡ true) ↔ ((set_contains x xs ≡ true) × (p x ≡ some true)))
unfolding filter_of set_contains
filter_of-Returns p [] h = ([], refl, λ x. (λ m. absurd (ground (arith, m)), λ m. m.0))
filter_of-Returns p (x ∷ xs) h =
    let (b, b_eq) = h x (ground arith) in
    let (ys, eq, keeps) = filter_of-Returns p xs (λ y m. h y (ground (arith, m))) in
    elim (Bool-cases b) [
      | inl yes_ ↦
          let now : p x ≡ some true = b_eq ∙ ap some yes_ in
          (
            x ∷ ys,
            rw (now, eq) refl,
            λ y. (
              λ m. elim (Bool-cases (y == x)) [
                | inl same ↦
                    let y_eq = (==_iff y x).0 same in (ground (arith, same), ap p y_eq ∙ now)
                | inr differ ↦
                    let k = (keeps y).0 (ground (arith, m, differ)) in (ground (arith, k), k.1)
              ],
              λ m. elim (Bool-cases (y == x)) [
                | inl same ↦ ground (arith, same)
                | inr differ ↦
                    let k = (keeps y).1 (ground (arith, m, differ), m.1) in ground (arith, k)
              ],
            ),
          )
      | inr no_ ↦
          let now : p x ≡ some false = b_eq ∙ ap some no_ in
          (
            ys,
            rw (now, eq) refl,
            λ y. (
              λ m. let k = (keeps y).0 m in (ground (arith, k), k.1),
              λ m. elim (Bool-cases (y == x)) [
                | inl same ↦
                    let clash : ◌≡◌ {A = Option Bool} (some false) (some true) =
                      sym now ∙ ap p (sym ((==_iff y x).0 same)) ∙ m.1 in
                    absurd (ground (arith, clash))
                | inr differ ↦ (keeps y).1 (ground (arith, m, differ), m.1)
              ],
            ),
          )
    ]

-- A test of some element that does not panic; if it fails, it fails for each.
pub any_of-Returns :
    (p : Hash → Option Bool) (xs : List Hash)
    → ((x : Hash) → set_contains x xs ≡ true → Returns (p x))
    → (b : Bool) × (any_of p xs ≡ some b)
      × (b ≡ false → (x : Hash) → set_contains x xs ≡ true → p x ≡ some false)
unfolding any_of set_contains
any_of-Returns p [] h = (false, refl, λ e x m. absurd (ground (arith, m)))
any_of-Returns p (x ∷ xs) h =
    let (b, b_eq) = h x (ground arith) in
    let (c, c_eq, all) = any_of-Returns p xs (λ y m. h y (ground (arith, m))) in
    elim (Bool-cases b) [
      | inl holds ↦ (true, rw (b_eq ∙ ap some holds, any_of) refl, λ e. absurd (ground (arith, e)))
      | inr fails ↦
          let now : p x ≡ some false = b_eq ∙ ap some fails in
          (
            c,
            rw (now, any_of) c_eq,
            λ e y m. elim (Bool-cases (y == x)) [
              | inl same ↦ ap p ((==_iff y x).0 same) ∙ now
              | inr differ ↦ all e y (ground (arith, m, differ))
            ],
          )
    ]

pub and_then-Returns : (a b : Option Bool) → Returns a → Returns b → Returns (and_then a b)
and_then-Returns a b (true, p) (c, q) = (c, rw p q)
and_then-Returns a b (false, p) (c, q) = (false, rw p refl)

-- What holds of the maps of `derive` on a governed ledger.
pub record IsTraced {SecretKey : Type 0} (crypto : Crypto SecretKey) (valid : Events)
    (revokes : Revocations) (l : Lineages) : Type 0 where
  pub past : (x : Hash) → contains_key x valid ≡ true → contains_key x l.ancestors ≡ true
  pub paths : (g : Hash) → contains_key g l.grants ≡ true → contains_key g l.lineage ≡ true
  pub signers :
      (x : Hash) (e : Signed)
      → lookup x valid ≡ some e
      → contains_key (signer crypto x e) l.lineage ≡ true
  pub revoking :
      (r : Hash)
      → contains_key r revokes ≡ true
      → (e : Signed) × (p : Hash) × (lookup r valid ≡ some e)
        × (first (parents_of e) ≡ some p)
        × (contains_key p valid ≡ true)
  pub targets :
      (r : Hash) (target : Hash) (cascade : Bool)
      → lookup r revokes ≡ some (target, cascade)
      → contains_key target l.grants ≡ true
  pub issuers :
      (g : Hash) (grant : Grant) (i : Hash)
      → lookup g l.grants ≡ some grant
      → grant.issuer ≡ some i
      → contains_key i l.lineage ≡ true

module _ {SecretKey : Type 0} (crypto : Crypto SecretKey) (valid : Events) (revokes : Revocations)
    (l : Lineages) (t : IsTraced crypto valid revokes l) where
  pub covers-Returns :
      (r g : Hash)
      → contains_key r revokes ≡ true
      → contains_key g l.lineage ≡ true
      → Returns (covers revokes l r g)
  unfolding covers
  covers-Returns r g known path =
      let ((target, cascade), held) = key_held r revokes known in
      let (steps, at_) = key_held g l.lineage path in
      elim (Bool-cases (target == g)) [
        | inl own ↦ (true, rw held (rw own refl))
        | inr other ↦ elim (Bool-cases cascade) [
          | inl deep ↦ (set_contains target steps, rw held (rw (other, deep, at_) refl))
          | inr flat ↦ (false, rw held (rw (other, flat) refl))
        ]
      ]

  pub outside-Returns : (x r : Hash) → contains_key r revokes ≡ true → Returns (outside valid l x r)
  unfolding outside
  outside-Returns x r known =
      let (e, p, held, p_eq, p_known) = t.revoking r known in
      let (earlier, at_) = key_held p l.ancestors (t.past p p_known) in
      (not (set_contains x earlier), rw held (rw p_eq (rw at_ refl)))

  -- A set of revocations.
  abbrev pub AreRevokes : List Hash → Type 0
  AreRevokes effective =
      (r : Hash) → set_contains r effective ≡ true → contains_key r revokes ≡ true

  pub controls_of-Returns :
      (effective : List Hash) (g x : Hash)
      → AreRevokes effective
      → contains_key g l.lineage ≡ true
      → (ys : List Hash) × (controls_of valid revokes l effective g x ≡ some ys)
        × ((r : Hash)
            → (set_contains r ys ≡ true) ↔ (
                (set_contains r effective ≡ true)
                × (and_then (covers revokes l r g) (outside valid l x r) ≡ some true)))
  unfolding controls_of
  controls_of-Returns effective g x all path =
      filter_of-Returns (λ r. and_then (covers revokes l r g) (outside valid l x r)) effective
        (λ r m.
          and_then-Returns (covers revokes l r g) (outside valid l x r)
            (covers-Returns r g (all r m) path) (outside-Returns x r (all r m)))
