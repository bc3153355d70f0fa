-- ===== src/Ledger/Places.antt =====
-- An order of the events of a ledger of crates/cc-ledger/src/v1, counted in the ledger.
use clockchain.Prelude.{
  ℕ, ◌+◌, ◌≤◌, ◌<◌, ◌≡◌, ap, inl, inr, true, some, List, [], ◌∷◌, arith, ltb, ◌==◌, ==_iff,
  Bool-cases, if◌then◌else◌, length, nat_key,
}
use clockchain.Prelude.Table.{lookup, contains_key, IsDistinct}
use clockchain.Prelude.Ordered.{set_contains}
use clockchain.Wire.{Hash}
use clockchain.Wire.Signed.{Signed}
use clockchain.Ledger.{Events, parents_of}
use clockchain.Ledger.Order.{IsOrdered, key_held}

-- How many entries of a map rank below a number.
abbrev pub place : {V : Type 0} → (Hash → ℕ) → List (Hash × V) → ℕ → ℕ
place rank [] r = 0
place rank ((id, _) ∷ m) r = (if ltb (rank id) r then 1 else 0) + place rank m r

module _ {V : Type 0} (rank : Hash → ℕ) where
  place_le : (m : List (Hash × V)) (r : ℕ) → place rank m r ≤ length m
  place_le [] r = omega arith
  place_le ((id, v) ∷ m) r = ground (arith, place_le m r)

  place_mono : (m : List (Hash × V)) (r s : ℕ) → r ≤ s → place rank m r ≤ place rank m s
  place_mono [] r s le = omega arith
  place_mono ((id, v) ∷ m) r s le = ground (arith, place_mono m r s le)

  -- An entry between two numbers tells their places apart.
  pub place_lt :
      (m : List (Hash × V)) (x : Hash) (v : V) (r s : ℕ)
      → lookup x m ≡ some v
      → r ≤ rank x
      → rank x < s
      → place rank m r < place rank m s
  unfolding lookup
  place_lt [] x v r s held le lt = absurd (ground (arith, held))
  place_lt ((id, w) ∷ m) x v r s held le lt = elim (Bool-cases (id == x)) [
    | inl same ↦
        let rank_eq = ap rank ((==_iff id x).0 same) in
        ground (arith, place_mono m r s (omega (arith, le, lt)), rank_eq, le, lt)
    | inr differ ↦
        let held' = rw differ at held in ground (arith, place_lt m x v r s held' le lt, le, lt)
  ]

  pub place_below :
      (m : List (Hash × V)) (x : Hash) (v : V)
      → lookup x m ≡ some v
      → place rank m (rank x) < length m
  unfolding lookup
  place_below [] x v held = absurd (ground (arith, held))
  place_below ((id, w) ∷ m) x v held = elim (Bool-cases (id == x)) [
    | inl same ↦
        let rank_eq = ap rank ((==_iff id x).0 same) in ground (arith, place_le m (rank x), rank_eq)
    | inr differ ↦ let held' = rw differ at held in ground (arith, place_below m x v held')
  ]

-- Parents are known and rank lower.
pub record IsRanked (valid : Events) (rank : Hash → ℕ) : Type 0 where
  pub distinct : IsDistinct valid
  pub known :
      (x : Hash) (e : Signed) (p : Hash)
      → lookup x valid ≡ some e
      → set_contains p (parents_of e) ≡ true
      → contains_key p valid ≡ true
  pub before :
      (x : Hash) (e : Signed) (p : Hash)
      → lookup x valid ≡ some e
      → set_contains p (parents_of e) ≡ true
      → rank p < rank x

pub IsRanked-IsOrdered :
    (valid : Events) (rank : Hash → ℕ)
    → IsRanked valid rank
    → IsOrdered valid (λ x. place rank valid (rank x))
IsRanked-IsOrdered valid rank k = record {
  distinct = k.distinct;
  below = λ x e held. place_below rank valid x e held;
  known = k.known;
  before = λ x e p held m.
      let (f, p_held) = key_held p valid (k.known x e p held m) in
      place_lt rank valid p f (rank p) (rank x) p_held (omega arith) (k.before x e p held m);
}
