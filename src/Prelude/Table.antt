-- ===== src/Prelude/Table.antt =====
-- A map as an association list, for `HashMap` and `BTreeMap` where the order of the entries is not
-- used. Writing a key replaces its entry, so that a key stands in the list once.
use Prim.Native.Nat.{suc, ◌≤◌}
use mathlib.Core.Path.{◌≡◌, refl}
use mathlib.Core.Logic.{inl, inr}
use mathlib.Core.Bool.{Bool, true, false}
use mathlib.Core.Option.{Option, none, some}
use mathlib.Core.List.{List, [], ◌∷◌}
use native.Mathlib.Omega.{arith}
use clockchain.Prelude.Tests.{if◌then◌else◌, Bool-cases}
use clockchain.Prelude.Lists.{length}
use clockchain.Prelude.Results.{Key}

module _ {ℓ κ} {K : Type ℓ} {V : Type κ} ⦃key : Key K⦄ where
  unfoldable pub lookup : K → List (K × V) → Option V
  lookup k [] = none
  lookup k ((j, v) ∷ m) = if key.same j k then some v else lookup k m

  unfoldable pub insert : K → V → List (K × V) → List (K × V)
  insert k v [] = (k, v) ∷ []
  insert k v ((j, w) ∷ m) = if key.same j k then (k, v) ∷ m else (j, w) ∷ insert k v m

  unfoldable pub remove : K → List (K × V) → List (K × V)
  remove k [] = []
  remove k ((j, w) ∷ m) = if key.same j k then m else (j, w) ∷ remove k m

  -- `HashMap::retain`, by a test of the value.
  unfoldable pub retain : (V → Bool) → List (K × V) → List (K × V)
  retain p [] = []
  retain p ((j, w) ∷ m) = if p w then (j, w) ∷ retain p m else retain p m

  abbrev pub contains_key : K → List (K × V) → Bool
  contains_key k m = elim (lookup k m) [ none ↦ false | some _ ↦ true ]

  -- No key stands twice.
  abbrev pub IsDistinct : List (K × V) → Type κ
  IsDistinct [] = Unit
  IsDistinct ((j, w) ∷ m) = (lookup j m ≡ none) × IsDistinct m

  pub lookup-insert :
      (k j : K) (v : V) (m : List (K × V))
      → lookup j (insert k v m) ≡ (if key.same k j then some v else lookup j m)
  unfolding lookup insert
  lookup-insert k j v [] = refl
  lookup-insert k j v ((i, w) ∷ m) =
      ground (arith, key.same_iff k j, key.same_iff i k, key.same_iff i j, lookup-insert k j v m)

  pub lookup-insert_self : (k : K) (v : V) (m : List (K × V)) → lookup k (insert k v m) ≡ some v
  lookup-insert_self k v m = ground (arith, lookup-insert k k v m, key.same_iff k k)

  pub insert-IsDistinct :
      (k : K) (v : V) (m : List (K × V)) → IsDistinct m → IsDistinct (insert k v m)
  unfolding insert lookup
  insert-IsDistinct k v [] d = (refl, tt)
  insert-IsDistinct k v ((j, w) ∷ m) d = elim (Bool-cases (key.same j k)) [
    | inl e ↦ rw e (ground (arith, key.same_iff j k), d.1)
    | inr ne ↦ rw ne (
      ground (arith, lookup-insert k j v m, key.same_iff k j, key.same_iff j k),
      insert-IsDistinct k v m d.1,
    )
  ]

  pub length-insert :
      (k : K) (v : V) (m : List (K × V))
      → length (insert k v m) ≡ (if contains_key k m then length m else suc (length m))
  unfolding insert lookup
  length-insert k v [] = refl
  length-insert k v ((j, w) ∷ m) = ground (arith, length-insert k v m)

  pub lookup-remove :
      (k j : K) (m : List (K × V))
      → IsDistinct m
      → lookup j (remove k m) ≡ (if key.same k j then none else lookup j m)
  unfolding lookup remove
  lookup-remove k j [] d = ground arith
  lookup-remove k j ((i, w) ∷ m) d =
      ground (arith, key.same_iff k j, key.same_iff i k, key.same_iff i j, lookup-remove k j m d.1)

  pub lookup-remove-none :
      (k j : K) (m : List (K × V)) → lookup j m ≡ none → lookup j (remove k m) ≡ none
  unfolding lookup remove
  lookup-remove-none k j [] h = refl
  lookup-remove-none k j ((i, w) ∷ m) h = ground (arith, lookup-remove-none k j m)

  pub remove-IsDistinct : (k : K) (m : List (K × V)) → IsDistinct m → IsDistinct (remove k m)
  unfolding remove
  remove-IsDistinct k [] d = tt
  remove-IsDistinct k ((j, w) ∷ m) d = elim (Bool-cases (key.same j k)) [
    | inl e ↦ rw e d.1
    | inr ne ↦ rw ne (lookup-remove-none k j m d.0, remove-IsDistinct k m d.1)
  ]

  pub lookup-retain-none :
      (p : V → Bool) (k : K) (m : List (K × V)) → lookup k m ≡ none → lookup k (retain p m) ≡ none
  unfolding lookup retain
  lookup-retain-none p k [] h = refl
  lookup-retain-none p k ((j, w) ∷ m) h = ground (arith, lookup-retain-none p k m)

  pub lookup-retain :
      (p : V → Bool) (k : K) (m : List (K × V))
      → IsDistinct m
      → lookup k (retain p m)
        ≡ elim (lookup k m) [ none ↦ none | some w ↦ if p w then some w else none ]
  unfolding lookup retain
  lookup-retain p k [] d = refl
  lookup-retain p k ((j, w) ∷ m) d =
      ground (arith, key.same_iff j k, lookup-retain p k m d.1, lookup-retain-none p k m)

  pub retain-IsDistinct : (p : V → Bool) (m : List (K × V)) → IsDistinct m → IsDistinct (retain p m)
  unfolding retain
  retain-IsDistinct p [] d = tt
  retain-IsDistinct p ((j, w) ∷ m) d = elim (Bool-cases (p w)) [
    | inl e ↦ rw e (lookup-retain-none p j m d.0, retain-IsDistinct p m d.1)
    | inr ne ↦ rw ne (retain-IsDistinct p m d.1)
  ]

  pub length-retain-le : (p : V → Bool) (m : List (K × V)) → length (retain p m) ≤ length m
  unfolding retain
  length-retain-le p [] = omega arith
  length-retain-le p ((j, w) ∷ m) = ground (arith, length-retain-le p m)
