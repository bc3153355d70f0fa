-- ===== src/Prelude/Ordered.antt =====
-- `BTreeSet` and `BTreeMap` over numbers: ascending lists without repetition.
use Prim.Native.Nat.{ℕ, suc, ◌≤◌, ◌<◌}
use mathlib.Core.Path.{◌≡◌, refl}
use mathlib.Core.Logic.{inl, inr}
use mathlib.Core.Bool.{Bool, false, ◌||◌}
use mathlib.Core.Option.{none, some}
use mathlib.Core.List.{List, [], ◌∷◌}
use native.Mathlib.Omega.{arith}
use clockchain.Prelude.Tests.{ltb, ◌==◌, if◌then◌else◌, Bool-cases, ltb→lt}
use clockchain.Prelude.Lists.{length}
use clockchain.Prelude.Results.{nat_key}
use clockchain.Prelude.Table.{lookup, contains_key, remove, IsDistinct}

unfoldable pub set_insert : ℕ → List ℕ → List ℕ
set_insert x [] = x ∷ []
set_insert x (y ∷ ys) =
    if ltb x y then x ∷ y ∷ ys else if x == y then y ∷ ys else y ∷ set_insert x ys

unfoldable pub set_of : List ℕ → List ℕ
unfolding set_insert
set_of [] = []
set_of (x ∷ xs) = set_insert x (set_of xs)

unfoldable pub set_contains : ℕ → List ℕ → Bool
set_contains x [] = false
set_contains x (y ∷ ys) = x == y || set_contains x ys

pub set_contains-insert :
    (x y : ℕ) (ys : List ℕ) → set_contains x (set_insert y ys) ≡ (x == y || set_contains x ys)
unfolding set_insert set_contains
set_contains-insert x y [] = refl
set_contains-insert x y (z ∷ zs) = ground (arith, set_contains-insert x y zs)

pub set_contains-of : (x : ℕ) (ys : List ℕ) → set_contains x (set_of ys) ≡ set_contains x ys
unfolding set_of set_contains
set_contains-of x [] = refl
set_contains-of x (y ∷ ys) =
    ground (arith, set_contains-insert x y (set_of ys), set_contains-of x ys)

unfoldable pub map_insert {κ} : {V : Type κ} → ℕ → V → List (ℕ × V) → List (ℕ × V)
map_insert k v [] = (k, v) ∷ []
map_insert k v ((j, w) ∷ m) =
    if ltb k j
    then (k, v) ∷ (j, w) ∷ m
    else if k == j
    then (k, v) ∷ m
    else (j, w) ∷ map_insert k v m

pub lookup-map_insert {κ} :
    {V : Type κ} (k j : ℕ) (v : V) (m : List (ℕ × V))
    → lookup j (map_insert k v m) ≡ (if k == j then some v else lookup j m)
unfolding map_insert lookup
lookup-map_insert k j v [] = refl
lookup-map_insert k j v ((i, w) ∷ m) = ground (arith, lookup-map_insert k j v m)

pub length-map_insert {κ} :
    {V : Type κ} (k : ℕ) (v : V) (m : List (ℕ × V))
    → contains_key k m ≡ false
    → length (map_insert k v m) ≡ suc (length m)
unfolding map_insert lookup
length-map_insert k v [] h = refl
length-map_insert k v ((j, w) ∷ m) h = ground (arith, h, length-map_insert k v m)

-- The keys ascend.
abbrev pub Below {κ} : {V : Type κ} → ℕ → List (ℕ × V) → Type 0
Below t [] = Unit
Below t ((j, _) ∷ m) = (t < j) × Below t m

abbrev pub IsAscending {κ} : {V : Type κ} → List (ℕ × V) → Type 0
IsAscending [] = Unit
IsAscending ((j, _) ∷ m) = Below j m × IsAscending m

module _ {κ} {V : Type κ} where
  Below-le : (t u : ℕ) (m : List (ℕ × V)) → t ≤ u → Below u m → Below t m
  Below-le t u [] le b = tt
  Below-le t u ((j, v) ∷ m) le b = (let lt = b.0 in omega arith, Below-le t u m le b.1)

  pub lookup-Below : (t u : ℕ) (m : List (ℕ × V)) → u ≤ t → Below t m → lookup u m ≡ none
  unfolding lookup
  lookup-Below t u [] le b = refl
  lookup-Below t u ((j, v) ∷ m) le b = let lt = b.0 in ground (arith, lookup-Below t u m le b.1)

  map_insert-Below :
      (t k : ℕ) (v : V) (m : List (ℕ × V)) → t < k → Below t m → Below t (map_insert k v m)
  unfolding map_insert
  map_insert-Below t k v [] lt b = (lt, tt)
  map_insert-Below t k v ((j, w) ∷ m) lt b = elim (Bool-cases (ltb k j)) [
    | inl e ↦ rw e (lt, b)
    | inr ge ↦ elim (Bool-cases (k == j)) [
      | inl e ↦ rw (ge, e) (lt, b.1)
      | inr ne ↦ rw (ge, ne) (b.0, map_insert-Below t k v m lt b.1)
    ]
  ]

  pub map_insert-IsAscending :
      (k : ℕ) (v : V) (m : List (ℕ × V)) → IsAscending m → IsAscending (map_insert k v m)
  unfolding map_insert
  map_insert-IsAscending k v [] a = (tt, tt)
  map_insert-IsAscending k v ((j, w) ∷ m) a = elim (Bool-cases (ltb k j)) [
    | inl e ↦ let lt = ltb→lt k j e in rw e ((lt, Below-le k j m (omega arith) a.0), a)
    | inr ge ↦ elim (Bool-cases (k == j)) [
      | inl e ↦ rw (ge, e) (Below-le k j m (ground (arith, e)) a.0, a.1)
      | inr ne ↦
          rw (ge, ne)
            (
              map_insert-Below j k v m (ground (arith, ge, ne)) a.0,
              map_insert-IsAscending k v m a.1,
            )
    ]
  ]

  remove-Below : (t u : ℕ) (m : List (ℕ × V)) → Below t m → Below t (remove u m)
  unfolding remove
  remove-Below t u [] b = tt
  remove-Below t u ((j, w) ∷ m) b = elim (Bool-cases (j == u)) [
    | inl e ↦ rw e b.1
    | inr ne ↦ rw ne (b.0, remove-Below t u m b.1)
  ]

  pub remove-IsAscending : (u : ℕ) (m : List (ℕ × V)) → IsAscending m → IsAscending (remove u m)
  unfolding remove
  remove-IsAscending u [] a = tt
  remove-IsAscending u ((j, w) ∷ m) a = elim (Bool-cases (j == u)) [
    | inl e ↦ rw e a.1
    | inr ne ↦ rw ne (remove-Below j u m a.0, remove-IsAscending u m a.1)
  ]

  pub IsAscending-IsDistinct : (m : List (ℕ × V)) → IsAscending m → IsDistinct m
  IsAscending-IsDistinct [] a = tt
  IsAscending-IsDistinct ((j, w) ∷ m) a =
      (lookup-Below j j m (omega arith) a.0, IsAscending-IsDistinct m a.1)

  -- What stands behind the least key stands in the whole.
  pub lookup-tail :
      (t : ℕ) (v : V) (u : ℕ) (w : V) (m : List (ℕ × V))
      → IsAscending ((t, v) ∷ m)
      → lookup u m ≡ some w
      → lookup u ((t, v) ∷ m) ≡ some w
  unfolding lookup
  lookup-tail t v u w m a held = elim (Bool-cases (t == u)) [
    | inl same ↦
        let gone = lookup-Below t u m (ground (arith, same)) a.0 in
        absurd (ground (arith, gone, held))
    | inr differ ↦ rw differ held
  ]
