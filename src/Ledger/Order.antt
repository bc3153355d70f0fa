-- ===== src/Ledger/Order.antt =====
-- The order of the events of a ledger of crates/cc-ledger/src/v1, in which parents come first, and
-- what is absent of the parents of an event.
use clockchain.Prelude.{
  ℕ, ◌≤◌, ◌<◌, ◌≡◌, refl, ap, ◌∙◌, sym, subst, inl, inr, Bool, true, false, ◌||◌, none, some, List,
  [], ◌∷◌, arith, ltb, ◌==◌, ==_iff, Bool-cases, Option-cases, length, nat_key,
}
use clockchain.Prelude.Table.{lookup, contains_key, IsDistinct}
use clockchain.Prelude.Ordered.{set_contains}
use clockchain.Wire.{Hash}
use clockchain.Wire.Signed.{Signed}
use clockchain.Ledger.{Events, parents_of, any_absent}

-- Parents are known and come first; the events are fewer than their places.
pub record IsOrdered (valid : Events) (rank : Hash → ℕ) : Type 0 where
  pub distinct : IsDistinct valid
  pub below : (x : Hash) (e : Signed) → lookup x valid ≡ some e → rank x < length valid
  pub known :
      (x : Hash) (e : Signed) (p : Hash)
      → lookup x valid ≡ some e
      → set_contains p (parents_of e) ≡ true
      → contains_key p valid ≡ true
  pub before :
      (x : Hash) (e : Signed) (p : Hash)
      → lookup x valid ≡ some e
      → set_contains p (parents_of e) ≡ true
      → rank p < rank x

-- The entries of a map are what it holds under their keys.
abbrev pub Held : Events → Events → Type 0
Held valid [] = Unit {0}
Held valid ((id, e) ∷ items) = (lookup id valid ≡ some e) × Held valid items

pub not_ltb : (a b : ℕ) → ltb a b ≡ false → b ≤ a
not_ltb a b h = ground (arith, h)

-- What stands further on is another key.
pub later :
    (id x : Hash) (e f : Signed) (items : Events)
    → IsDistinct ((id, e) ∷ items)
    → lookup x items ≡ some f
    → lookup x ((id, e) ∷ items) ≡ some f
unfolding lookup
later id x e f items d held = elim (Bool-cases (id == x)) [
  | inl same ↦
      let gone : lookup x items ≡ none =
        ap (λ t. lookup t items) (sym ((==_iff id x).0 same)) ∙ d.0 in
      absurd (ground (arith, gone, held))
  | inr differ ↦ rw differ held
]

Held-later :
    (id : Hash) (e : Signed) (items others : Events)
    → IsDistinct ((id, e) ∷ items)
    → Held items others
    → Held ((id, e) ∷ items) others
Held-later id e items [] d h = tt
Held-later id e items ((j, f) ∷ others) d h =
    (later id j e f items d h.0, Held-later id e items others d h.1)

pub Held-self : (items : Events) → IsDistinct items → Held items items
unfolding lookup
Held-self [] d = tt
Held-self ((id, e) ∷ items) d = (ground arith, Held-later id e items items d (Held-self items d.1))

pub key_held :
    {V : Type 0} (x : Hash) (m : List (Hash × V))
    → contains_key x m ≡ true
    → (v : V) × (lookup x m ≡ some v)
key_held x m h = elim (Option-cases (lookup x m)) [
  | inl gone ↦ absurd (ground (arith, gone, h))
  | inr found ↦ found
]

pub any_absent_none :
    {S : Type 0} (taken : Hash → S → Bool) (ps : List Hash) (s : S)
    → ((p : Hash) → set_contains p ps ≡ true → taken p s ≡ true)
    → any_absent taken ps s ≡ false
unfolding any_absent set_contains
any_absent_none taken [] s h = refl
any_absent_none taken (p ∷ ps) s h =
    let rest = any_absent_none taken ps s (λ q m. h q (ground (arith, m))) in
    ground (arith, h p (ground arith), rest)

-- Whatever is absent is one of the list.
pub any_absent-taken :
    {S : Type 0} (taken : Hash → S → Bool) (ps : List Hash) (s : S) (p : Hash)
    → any_absent taken ps s ≡ false
    → set_contains p ps ≡ true
    → taken p s ≡ true
unfolding any_absent set_contains
any_absent-taken taken [] s p h m = absurd (ground (arith, m))
any_absent-taken taken (q ∷ ps) s p h m = elim (Bool-cases (p == q)) [
  | inl same ↦
      let q_taken : taken q s ≡ true = ground (arith, h) in
      subst (λ x. taken x s ≡ true) (sym ((==_iff p q).0 same)) q_taken
  | inr differ ↦ any_absent-taken taken ps s p (ground (arith, h)) (ground (arith, m, differ))
]

module _ {S : Type 0} (taken : Hash → S → Bool) where
  pub any_absent-grows :
      (ps : List Hash) (s s' : S)
      → ((x : Hash) → taken x s ≡ true → taken x s' ≡ true)
      → any_absent taken ps s ≡ false
      → any_absent taken ps s' ≡ false
  any_absent-grows ps s s' more h =
      any_absent_none taken ps s' (λ p m. more p (any_absent-taken taken ps s p h m))

  pub taken_after :
      (id x : Hash) (s s' : S)
      → ((y : Hash) → taken y s' ≡ (id == y || taken y s))
      → taken x s ≡ true
      → taken x s' ≡ true
  taken_after id x s s' adds h = ground (arith, adds x, h)
