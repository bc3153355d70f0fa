-- ===== src/Ledger/Rounds.antt =====
-- One round over the events, in the loops of crates/cc-ledger/src/v1 that take an event after its
-- parents.
use clockchain.Prelude.{
  ℕ, suc, ◌+◌, ◌≡◌, refl, ◌∙◌, sym, subst, inl, inr, Bool, true, false, ◌||◌, Option, some, [], ◌∷◌,
  arith, ◌==◌, ==_iff, Bool-cases, length, nat_key,
}
use clockchain.Prelude.Table.{lookup, contains_key, IsDistinct}
use clockchain.Wire.{Hash}
use clockchain.Wire.Signed.{Signed}
use clockchain.Ledger.{Events, parents_of, any_absent, round}
use clockchain.Ledger.Order.{Held, any_absent-grows, taken_after}
use clockchain.Ledger.Missing.{missing, missing_fewer}

-- What a step is to do, and the invariant that it needs: an event that is not taken, whose parents
-- are, is taken and nothing else is.
pub record Takes {S : Type 0} (valid : Events) (taken : Hash → S → Bool)
    (take_event : Hash → Signed → S → Option S) (size : S → ℕ) (Inv : S → Type 0) : Type 0 where
  pub takes :
      (id : Hash) (e : Signed) (s : S)
      → lookup id valid ≡ some e
      → Inv s
      → taken id s ≡ false
      → any_absent taken (parents_of e) s ≡ false
      → (s' : S) × (take_event id e s ≡ some s')
        × Inv s'
        × ((x : Hash) → taken x s' ≡ (id == x || taken x s))
        × (size s' ≡ suc (size s))

module _ {S : Type 0} (valid : Events) (taken : Hash → S → Bool)
    (take_event : Hash → Signed → S → Option S) (size : S → ℕ) (Inv : S → Type 0)
    (steps : Takes valid taken take_event size Inv) where
  pub record IsTaking (s : S) : Type 0 where
    pub inv : Inv s
    pub counted : size s + missing taken valid s ≡ length valid
    pub only : (x : Hash) → taken x s ≡ true → contains_key x valid ≡ true

  step-IsTaking :
      (id : Hash) (e : Signed) (s : S)
      → IsDistinct valid
      → lookup id valid ≡ some e
      → IsTaking s
      → taken id s ≡ false
      → any_absent taken (parents_of e) s ≡ false
      → (s' : S) × (take_event id e s ≡ some s')
        × IsTaking s'
        × ((x : Hash) → taken x s' ≡ (id == x || taken x s))
  step-IsTaking id e s d held t new ready =
      let (s', eq, inv, adds, grows) = steps.takes id e s held t.inv new ready in
      let fewer = missing_fewer taken valid id e s s' d adds held new in
      let known : contains_key id valid ≡ true = ground (arith, held) in
      (
        s',
        eq,
        record {
          inv = inv;
          counted = omega (arith, fewer, grows, t.counted);
          only = λ x h. elim (Bool-cases (id == x)) [
            | inl same ↦ subst (λ y. contains_key y valid ≡ true) ((==_iff id x).0 same) known
            | inr differ ↦ t.only x (ground (arith, adds x, h, differ))
          ];
        },
        adds,
      )

  round_nil : (s : S) → round taken take_event [] s ≡ some s
  unfolding round
  round_nil s = refl

  round_skip :
      (id : Hash) (e : Signed) (rest : Events) (s : S)
      → (taken id s || any_absent taken (parents_of e) s) ≡ true
      → round taken take_event ((id, e) ∷ rest) s ≡ round taken take_event rest s
  unfolding round
  round_skip id e rest s h = rw (h, round) refl

  round_take :
      (id : Hash) (e : Signed) (rest : Events) (s s' : S)
      → taken id s ≡ false
      → any_absent taken (parents_of e) s ≡ false
      → take_event id e s ≡ some s'
      → round taken take_event ((id, e) ∷ rest) s ≡ round taken take_event rest s'
  unfolding round
  round_take id e rest s s' new ready eq =
      let test : (taken id s || any_absent taken (parents_of e) s) ≡ false = rw (new, ready) refl in
      rw (test, round) (rw (eq, round) refl)

  -- A round takes every event of the list whose parents were taken before it.
  pub round_lem :
      (items : Events) (s : S)
      → IsDistinct valid
      → Held valid items
      → IsTaking s
      → (s' : S) × (round taken take_event items s ≡ some s')
        × IsTaking s'
        × ((x : Hash) → taken x s ≡ true → taken x s' ≡ true)
        × ((x : Hash) (e : Signed)
            → lookup x items ≡ some e
            → any_absent taken (parents_of e) s ≡ false
            → taken x s' ≡ true)
  unfolding lookup
  round_lem [] s d held t = (s, round_nil s, t, λ x h. h, λ x e h ready. absurd (ground (arith, h)))
  round_lem ((id, e) ∷ items) s d held t =
      elim (Bool-cases (taken id s || any_absent taken (parents_of e) s)) [
        | inl skip ↦
            let (s', eq, t', more, all) = round_lem items s d held.1 t in
            (
              s',
              round_skip id e items s skip ∙ eq,
              t',
              more,
              λ x f h ready. elim (Bool-cases (id == x)) [
                | inl same ↦
                    let h' = rw same at h in
                    let f_eq : ◌≡◌ {A = Option Signed} (some e) (some f) = h' in
                    let e_eq : e ≡ f = ground (arith, f_eq) in
                    let ready' : any_absent taken (parents_of e) s ≡ false =
                      subst (λ (g : Signed). any_absent taken (parents_of g) s ≡ false) (sym e_eq)
                        ready in
                    let x_eq = (==_iff id x).0 same in
                    more x (subst (λ y. taken y s ≡ true) x_eq (ground (arith, skip, ready')))
                | inr differ ↦ let h' = rw differ at h in all x f h' ready
              ],
            )
        | inr act ↦
            let new : taken id s ≡ false = ground (arith, act) in
            let ready : any_absent taken (parents_of e) s ≡ false = ground (arith, act) in
            let (s₁, eq₁, t₁, adds) = step-IsTaking id e s d held.0 t new ready in
            let grows = λ (x : Hash) (h : taken x s ≡ true). taken_after taken id x s s₁ adds h in
            let (s', eq, t', more, all) = round_lem items s₁ d held.1 t₁ in
            (
              s',
              round_take id e items s s₁ new ready eq₁ ∙ eq,
              t',
              λ x h. more x (grows x h),
              λ x f h ready'. elim (Bool-cases (id == x)) [
                | inl same ↦ more x (ground (arith, adds x, same))
                | inr differ ↦
                    let h' = rw differ at h in
                    all x f h' (any_absent-grows taken (parents_of f) s s₁ grows ready')
              ],
            )
      ]
