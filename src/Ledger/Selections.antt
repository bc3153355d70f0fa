-- ===== src/Ledger/Selections.antt =====
-- The revision that each event selects, `selections` of crates/cc-ledger/src/v1/projection.rs.
use clockchain.Prelude.{
  ℕ, ◌≡◌, ◌↔◌, refl, ap, ◌∙◌, sym, subst, inl, inr, true, false, ◌||◌, Option, some, List, [], ◌∷◌,
  arith, ◌==◌, ==_iff, Bool-cases, length, nat_key,
}
use clockchain.Prelude.Table.{lookup, contains_key}
use clockchain.Prelude.Ordered.{length-map_insert, map_insert, lookup-map_insert, set_contains}
use clockchain.Wire.{Hash}
use clockchain.Wire.Signed.{Crypto, Signed}
use clockchain.Ledger.{
  Events, parents_of, Choice, create, choose, inherit, choice_of, first, own_revision, selected,
  select, any_absent, selections,
}
use clockchain.Ledger.Order.{IsOrdered, any_absent-taken, key_held}
use clockchain.Ledger.Rounds.{Takes}
use clockchain.Ledger.Schedule.{schedule-takes}

-- An event that does not change the body has a parent.
abbrev pub HasParents : Events → Type 0
HasParents valid =
    (x : Hash) (e : Signed)
    → lookup x valid ≡ some e
    → choice_of e.envelope.payload ≡ inherit
    → (p : Hash) × (first (parents_of e) ≡ some p)

pub set_contains-first : (p : Hash) (ps : List Hash) → first ps ≡ some p → set_contains p ps ≡ true
unfolding set_contains
set_contains-first p [] h = absurd (ground (arith, h))
set_contains-first p (q ∷ ps) h = ground (arith, h)

pub contains_key-put :
    {V : Type 0} (k j : Hash) (v : V) (m : List (Hash × V))
    → contains_key j (map_insert k v m) ≡ (k == j || contains_key j m)
contains_key-put k j v m = ground (arith, lookup-map_insert k j v m)

nothing : (x r : Hash) → lookup x [] ≡ some r → ⊥
unfolding lookup
nothing x r h = ground (arith, h)

empty : (x : Hash) → contains_key {V = Hash} x [] ≡ false
unfolding lookup
empty x = refl

module _ {SecretKey : Type 0} (crypto : Crypto SecretKey) (valid : Events) where
  -- The selection by its meaning: a body makes the event's own revision the selected one, a
  -- resolution names it, and any other event keeps its first parent's.
  pub data Selects : Hash → Hash → Type 0 where
    created :
        {x : Hash} {r : Hash} {e : Signed} {b : Hash}
        → lookup x valid ≡ some e
        → choice_of e.envelope.payload ≡ create b
        → r ≡ own_revision crypto x e
        → Selects x r
    chosen :
        {x : Hash} {r : Hash} {e : Signed}
        → lookup x valid ≡ some e
        → choice_of e.envelope.payload ≡ choose r
        → Selects x r
    inherited :
        {x : Hash} {r : Hash} {e : Signed} {p : Hash}
        → lookup x valid ≡ some e
        → choice_of e.envelope.payload ≡ inherit
        → first (parents_of e) ≡ some p
        → Selects p r
        → Selects x r

  abbrev Right : List (Hash × Hash) → Type 0
  Right out = (x : Hash) (r : Hash) → lookup x out ≡ some r → Selects x r

  selected-Selects :
      (x : Hash) (e : Signed) (c : Choice) (out : List (Hash × Hash))
      → lookup x valid ≡ some e
      → choice_of e.envelope.payload ≡ c
      → (c ≡ inherit → (p : Hash) × (first (parents_of e) ≡ some p))
      → Right out
      → any_absent contains_key (parents_of e) out ≡ false
      → (r : Hash) × (selected crypto x e c out ≡ some r) × Selects x r
  unfolding selected
  selected-Selects x e (create b) out held c_eq parent right ready =
      (own_revision crypto x e, refl, created held c_eq refl)
  selected-Selects x e (choose r) out held c_eq parent right ready = (r, refl, chosen held c_eq)
  selected-Selects x e inherit out held c_eq parent right ready =
      let (p, p_eq) = parent refl in
      let there = set_contains-first p (parents_of e) p_eq in
      let (r, r_eq) =
        key_held p out (any_absent-taken contains_key (parents_of e) out p ready there) in
      (r, rw p_eq r_eq, inherited held c_eq p_eq (right p r r_eq))

  select-Takes : HasParents valid → Takes valid contains_key (select crypto) length Right
  unfolding select
  select-Takes parents = record {
    takes = λ x e out held right new ready.
        let (r, eq, s) =
          selected-Selects x e (choice_of e.envelope.payload) out held refl (parents x e held) right
            ready in
        (
          map_insert x r out,
          rw eq refl,
          λ y t h.
              let put = lookup-map_insert x y r out in
              elim (Bool-cases (x == y)) [
                | inl same ↦
                    let put' = rw same at put in
                    let r_eq : ◌≡◌ {A = Option Hash} (some r) (some t) = sym put' ∙ h in
                    let r_eq' : r ≡ t = ground (arith, r_eq) in
                    subst (λ z. Selects z t) ((==_iff x y).0 same) (subst (Selects x) r_eq' s)
                | inr differ ↦ let put' = rw differ at put in right y t (sym put' ∙ h)
              ],
          λ y. contains_key-put x y r out,
          length-map_insert x r out new,
        );
  }

  same_event : (x : Hash) (e f : Signed) → lookup x valid ≡ some e → lookup x valid ≡ some f → e ≡ f
  same_event x e f h k =
      let both : ◌≡◌ {A = Option Signed} (some e) (some f) = sym h ∙ k in ground (arith, both)

  -- What an event does, by its choice.
  ByChoice : Hash → Signed → Choice → Hash → Type 0
  ByChoice x e (create b) t = own_revision crypto x e ≡ t
  ByChoice x e (choose r) t = r ≡ t
  ByChoice x e inherit t = (p : Hash) × (first (parents_of e) ≡ some p) × Selects p t

  Selects-ByChoice :
      (x : Hash) (e : Signed) (t : Hash)
      → lookup x valid ≡ some e
      → Selects x t
      → ByChoice x e (choice_of e.envelope.payload) t
  unfolding ByChoice
  Selects-ByChoice x e t h (created {e = f} {b} k c r) =
      let e_eq = same_event x f e k h in
      subst (λ (g : Signed). ByChoice x g (choice_of g.envelope.payload) t) e_eq
        (subst (λ d. ByChoice x f d t) (sym c) (sym r))
  Selects-ByChoice x e t h (chosen {e = f} k c) =
      let e_eq = same_event x f e k h in
      subst (λ (g : Signed). ByChoice x g (choice_of g.envelope.payload) t) e_eq
        (subst (λ d. ByChoice x f d t) (sym c) refl)
  Selects-ByChoice x e t h (inherited {e = f} {p} k c p_eq u) =
      let e_eq = same_event x f e k h in
      subst (λ (g : Signed). ByChoice x g (choice_of g.envelope.payload) t) e_eq
        (subst (λ d. ByChoice x f d t) (sym c) (p, p_eq, u))

  -- An event selects one revision at most.
  pub Selects-unique : {x r t : Hash} → Selects x r → Selects x t → r ≡ t
  unfolding ByChoice
  Selects-unique {x} {t} (created {e} {b} h c r) s =
      let other = subst (λ d. ByChoice x e d t) c (Selects-ByChoice x e t h s) in r ∙ other
  Selects-unique {x} {t} (chosen {e} h c) s =
      subst (λ d. ByChoice x e d t) c (Selects-ByChoice x e t h s)
  Selects-unique {x} {t} (inherited {e} {p} h c p_eq u) s =
      let (q, q_eq, w) = subst (λ d. ByChoice x e d t) c (Selects-ByChoice x e t h s) in
      let both : ◌≡◌ {A = Option Hash} (some q) (some p) = sym q_eq ∙ p_eq in
      let same : q ≡ p = ground (arith, both) in Selects-unique u (subst (λ z. Selects z t) same w)

  Selects-known : {x r : Hash} → Selects x r → contains_key x valid ≡ true
  Selects-known (created h c r) = ground (arith, h)
  Selects-known (chosen h c) = ground (arith, h)
  Selects-known (inherited h c p u) = ground (arith, h)

  -- Where events have an order and an event that does not change the body has a parent, every event
  -- selects the revision that its meaning gives, and no other; the code finds them all.
  pub selections-Selects :
      (rank : Hash → ℕ)
      → IsOrdered valid rank
      → HasParents valid
      → (out : List (Hash × Hash)) × (selections crypto valid ≡ some out)
        × ((x : Hash) → (contains_key x out ≡ true) ↔ (contains_key x valid ≡ true))
        × ((x : Hash) (r : Hash) → (lookup x out ≡ some r) ↔ Selects x r)
  unfolding selections
  selections-Selects rank o parents =
      let (out, eq, right, keys) =
        schedule-takes valid contains_key (select crypto) length Right (select-Takes parents) rank
          [] o (λ x r h. absurd (nothing x r h)) refl empty in
      (
        out,
        eq,
        keys,
        λ x r. (
          right x r,
          λ s.
              let (t, held) = key_held x out ((keys x).1 (Selects-known s)) in
              held ∙ ap some (Selects-unique (right x t held) s),
        ),
      )
