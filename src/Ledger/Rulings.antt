-- ===== src/Ledger/Rulings.antt =====
-- The rulings of `derive` in crates/cc-ledger/src/v1/authority.rs, on a governed ledger: what is
-- canceled, which revocations take effect, and what an event's effect is.
use clockchain.Prelude.{
  is_empty, ℕ, ◌≡◌, refl, ap, ◌∙◌, sym, subst, inl, inr, true, false, ◌||◌, Option, none, some,
  List, [], ◌∷◌, length, arith, ◌==◌, ==_iff, Bool-cases, Option-cases, nat_key,
}
use clockchain.Prelude.Table.{lookup, contains_key}
use clockchain.Prelude.Ordered.{map_insert, lookup-map_insert, set_contains}
use clockchain.Wire.{Hash}
use clockchain.Wire.Signed.{Crypto}
use clockchain.Ledger.{Events}
use clockchain.Ledger.Authority.{Grant, Lineages, Revocations, set_union, covers, outside, and_then}
use clockchain.Ledger.Derive.{
  depth, insert_by_depth, sort_by_depth, controls_at, cancel, cancellations_from,
}
use clockchain.Ledger.Order.{key_held}
use clockchain.Ledger.Totals.{
  IsTraced, set_contains-union, and_then-Returns, covers-Returns, outside-Returns, AreRevokes,
  controls_of-Returns,
}

-- The grants of an order.
abbrev pub ranked : List (ℕ × Hash) → List Hash
ranked [] = []
ranked ((_, g) ∷ order) = g ∷ ranked order

set_contains-insert_by_depth :
    (x : Hash) (d : ℕ) (g : Hash) (order : List (ℕ × Hash))
    → set_contains x (ranked (insert_by_depth d g order))
      ≡ (x == g || set_contains x (ranked order))
unfolding insert_by_depth set_contains
set_contains-insert_by_depth x d g [] = refl
set_contains-insert_by_depth x d g ((c, h) ∷ order) =
    ground (arith, set_contains-insert_by_depth x d g order)

pub sort_by_depth-Returns :
    (l : Lineages) (gs : List Hash)
    → ((g : Hash) → set_contains g gs ≡ true → contains_key g l.lineage ≡ true)
    → (order : List (ℕ × Hash)) × (sort_by_depth l gs ≡ some order)
      × ((g : Hash) → set_contains g (ranked order) ≡ set_contains g gs)
unfolding sort_by_depth depth set_contains
sort_by_depth-Returns l [] h = ([], refl, λ g. refl)
sort_by_depth-Returns l (g ∷ gs) h =
    let (path, held) = key_held g l.lineage (h g (ground arith)) in
    let (order, eq, same) = sort_by_depth-Returns l gs (λ x m. h x (ground (arith, m))) in
    (
      insert_by_depth (length path) g order,
      rw held (rw eq refl),
      λ x. ground (arith, set_contains-insert_by_depth x (length path) g order, same x),
    )

empty_none : (s : List Hash) (x : Hash) → is_empty s ≡ true → set_contains x s ≡ false
unfolding set_contains
empty_none [] x h = refl
empty_none (y ∷ s) x h = absurd (ground (arith, h))

pub some_injective : {A : Type 0} {a b : A} → ◌≡◌ {A = Option A} (some a) (some b) → a ≡ b
some_injective h = ground (arith, h)

not_before :
    (g : Hash) (c c' : List (Hash × List Hash))
    → ((h : Hash) → contains_key h c ≡ true → contains_key h c' ≡ true)
    → contains_key g c' ≡ false
    → contains_key g c ≡ false
not_before g c c' mono gone = elim (Bool-cases (contains_key g c)) [
  | inl there ↦ let later = mono g there in absurd (ground (arith, later, gone))
  | inr absent ↦ absent
]

module _ {SecretKey : Type 0} (crypto : Crypto SecretKey) (valid : Events) (revokes : Revocations)
    (l : Lineages) (t : IsTraced crypto valid revokes l) where
  -- No effective revocation covers the grant without having the event in its past.
  abbrev pub Unopposed : List Hash → Hash → Hash → Type 0
  Unopposed effective g x =
      (r : Hash)
      → set_contains r effective ≡ true
      → and_then (covers revokes l r g) (outside valid l x r) ≡ some false

  cancel-Returns :
      (effective : List Hash) (g issuer x : Hash) (canceled : List (Hash × List Hash))
      → AreRevokes crypto valid revokes l t effective
      → contains_key issuer l.lineage ≡ true
      → (canceled' : List (Hash × List Hash)) × (cancel valid revokes l effective g issuer x
            canceled
          ≡ some canceled')
        × ((h : Hash) → contains_key h canceled ≡ true → contains_key h canceled' ≡ true)
        × (contains_key g canceled' ≡ false → Unopposed effective issuer x)
  unfolding cancel
  cancel-Returns effective g issuer x canceled all path =
      let (found, eq, finds) =
        controls_of-Returns crypto valid revokes l t effective issuer x all path in
      let controls = set_union (controls_at issuer canceled) found in
      elim (Bool-cases (is_empty controls)) [
        | inl none_ ↦ (
          canceled,
          rw eq (rw none_ refl),
          λ h m. m,
          λ gone r m.
              let (b, b_eq) =
                and_then-Returns (covers revokes l r issuer) (outside valid l x r)
                  (covers-Returns crypto valid revokes l t r issuer (all r m) path)
                  (outside-Returns crypto valid revokes l t x r (all r m)) in
              let absent = empty_none controls r none_ in
              let merged = set_contains-union r (controls_at issuer canceled) found in
              elim (Bool-cases b) [
                | inl holds ↦
                    let there = (finds r).1 (m, b_eq ∙ ap some holds) in
                    absurd (ground (arith, absent, merged, there))
                | inr fails ↦ b_eq ∙ ap some fails
              ],
        )
        | inr some_ ↦ (
          map_insert g controls canceled,
          rw eq (rw some_ refl),
          λ h m. ground (arith, lookup-map_insert g h controls canceled, m),
          λ gone. absurd (ground (arith, lookup-map_insert g g controls canceled, gone)),
        )
      ]

  -- Where a grant is not canceled, its issue was not opposed.
  abbrev pub CancelsOpposed : List Hash → List Hash → List (Hash × List Hash) → Type 0
  CancelsOpposed effective gs canceled =
      (g : Hash) (grant : Grant) (i : Hash)
      → set_contains g gs ≡ true
      → lookup g l.grants ≡ some grant
      → grant.issuer ≡ some i
      → contains_key g canceled ≡ false
      → Unopposed effective i grant.issued_by_event

  root_step :
      (effective : List Hash) (d : ℕ) (g : Hash) (grant : Grant) (order : List (ℕ × Hash))
      (canceled : List (Hash × List Hash))
      → lookup g l.grants ≡ some grant
      → grant.issuer ≡ none
      → cancellations_from valid revokes l effective ((d, g) ∷ order) canceled
        ≡ cancellations_from valid revokes l effective order canceled
  unfolding cancellations_from
  root_step effective d g grant order canceled held root =
      rw (held, cancellations_from) (rw (root, cancellations_from) refl)

  issued_step :
      (effective : List Hash) (d : ℕ) (g : Hash) (grant : Grant) (i : Hash)
      (order : List (ℕ × Hash)) (canceled canceled' : List (Hash × List Hash))
      → lookup g l.grants ≡ some grant
      → grant.issuer ≡ some i
      → cancel valid revokes l effective g i grant.issued_by_event canceled ≡ some canceled'
      → cancellations_from valid revokes l effective ((d, g) ∷ order) canceled
        ≡ cancellations_from valid revokes l effective order canceled'
  unfolding cancellations_from
  issued_step effective d g grant i order canceled canceled' held issued eq =
      rw (held, cancellations_from)
        (rw (issued, cancellations_from) (rw (eq, cancellations_from) refl))

  nil_step :
      (effective : List Hash) (canceled : List (Hash × List Hash))
      → cancellations_from valid revokes l effective [] canceled ≡ some canceled
  unfolding cancellations_from
  nil_step effective canceled = refl

  pub cancellations_from-Returns :
      (effective : List Hash) (order : List (ℕ × Hash)) (canceled : List (Hash × List Hash))
      → AreRevokes crypto valid revokes l t effective
      → ((g : Hash) → set_contains g (ranked order) ≡ true → contains_key g l.grants ≡ true)
      → (canceled' : List (Hash × List Hash)) × (cancellations_from valid revokes l effective order
            canceled
          ≡ some canceled')
        × ((h : Hash) → contains_key h canceled ≡ true → contains_key h canceled' ≡ true)
        × CancelsOpposed effective (ranked order) canceled'
  unfolding set_contains
  cancellations_from-Returns effective [] canceled all known =
      (canceled, nil_step effective canceled, λ h m. m, λ g grant i m. absurd (ground (arith, m)))
  cancellations_from-Returns effective ((d, g) ∷ order) canceled all known =
      let (grant, held) = key_held g l.grants (known g (ground arith)) in
      let later =
        λ (x : Hash) (m : set_contains x (ranked order) ≡ true). known x (ground (arith, m)) in
      elim (Option-cases grant.issuer) [
        | inl root ↦
            let (c, eq, mono, rules) =
              cancellations_from-Returns effective order canceled all later in
            (
              c,
              root_step effective d g grant order canceled held root ∙ eq,
              mono,
              λ h grant' i m held' issued gone. elim (Bool-cases (h == g)) [
                | inl same ↦
                    let both : ◌≡◌ {A = Option Grant} (some grant') (some grant) =
                      sym held' ∙ ap (λ k. lookup k l.grants) ((==_iff h g).0 same) ∙ held in
                    let clash : ◌≡◌ {A = Option Hash} none (some i) =
                      sym root
                      ∙ ap (λ (k : Grant). k.issuer) (sym (some_injective both))
                      ∙ issued in
                    absurd (ground (arith, clash))
                | inr differ ↦ rules h grant' i (ground (arith, m, differ)) held' issued gone
              ],
            )
        | inr (i, issued) ↦
            let (c₁, eq₁, mono₁, rule) =
              cancel-Returns effective g i grant.issued_by_event canceled all
                (t.issuers g grant i held issued) in
            let (c, eq, mono, rules) = cancellations_from-Returns effective order c₁ all later in
            (
              c,
              issued_step effective d g grant i order canceled c₁ held issued eq₁ ∙ eq,
              λ h m. mono h (mono₁ h m),
              λ h grant' j m held' issued' gone. elim (Bool-cases (h == g)) [
                | inl same ↦
                    let h_eq = (==_iff h g).0 same in
                    let both : ◌≡◌ {A = Option Grant} (some grant') (some grant) =
                      sym held' ∙ ap (λ k. lookup k l.grants) h_eq ∙ held in
                    let grant_eq = some_injective both in
                    let i_eq : ◌≡◌ {A = Option Hash} (some i) (some j) =
                      sym issued ∙ ap (λ (k : Grant). k.issuer) (sym grant_eq) ∙ issued' in
                    let event_eq : grant.issued_by_event ≡ grant'.issued_by_event =
                      ap (λ (k : Grant). k.issued_by_event) (sym grant_eq) in
                    let gone₁ =
                      not_before g c₁ c mono (ap (λ k. contains_key k c) (sym h_eq) ∙ gone) in
                    subst (λ k. Unopposed effective j k) event_eq
                      (subst (λ k. Unopposed effective k grant.issued_by_event)
                        (some_injective i_eq) (rule gone₁))
                | inr differ ↦ rules h grant' j (ground (arith, m, differ)) held' issued' gone
              ],
            )
      ]
