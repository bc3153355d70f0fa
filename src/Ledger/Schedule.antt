-- ===== src/Ledger/Schedule.antt =====
-- The rounds in which crates/cc-ledger/src/v1 takes events after their parents: where the parents are
-- known and the events have an order that puts parents first, every event is taken.
use clockchain.Prelude.{
  ℕ, zero, suc, ◌+◌, ◌≤◌, ◌<◌, ◌≡◌, refl, ◌∙◌, inl, inr, Bool, true, false, Option, some, arith,
  ltb, ltb→lt, ◌↔◌, Bool-cases, length, nat_key,
}
use clockchain.Prelude.Table.{lookup, contains_key}
use clockchain.Prelude.Ordered.{set_contains}
use clockchain.Wire.{Hash}
use clockchain.Wire.Signed.{Signed}
use clockchain.Ledger.{Events, parents_of, round, rounds, schedule}
use clockchain.Ledger.Order.{Held-self, key_held, not_ltb, any_absent_none, IsOrdered}
use clockchain.Ledger.Missing.{missing, missing_all, missing_zero, missing_none}
use clockchain.Ledger.Rounds.{Takes, IsTaking, round_lem}

module _ {S : Type 0} (valid : Events) (taken : Hash → S → Bool)
    (take_event : Hash → Signed → S → Option S) (size : S → ℕ) (Inv : S → Type 0)
    (steps : Takes valid taken take_event size Inv) where
  rounds_done :
      (fuel : ℕ) (s : S)
      → ltb (size s) (length valid) ≡ false
      → rounds taken take_event size (suc fuel) valid s ≡ some s
  unfolding rounds
  rounds_done fuel s h = rw (h, rounds) refl

  rounds_more :
      (fuel : ℕ) (s s' : S)
      → ltb (size s) (length valid) ≡ true
      → round taken take_event valid s ≡ some s'
      → rounds taken take_event size (suc fuel) valid s ≡ rounds taken take_event size fuel valid s'
  unfolding rounds
  rounds_more fuel s s' h eq = rw (h, rounds) (rw (eq, rounds) refl)

  parent_taken :
      (rank : Hash → ℕ) (k : ℕ) (s : S)
      → IsOrdered valid rank
      → ((x : Hash) (e : Signed) → lookup x valid ≡ some e → rank x < k → taken x s ≡ true)
      → (x : Hash) (e : Signed) (p : Hash) → lookup x valid ≡ some e
      → set_contains p (parents_of e) ≡ true
      → rank x < suc k
      → taken p s ≡ true
  parent_taken rank k s o h x e p held m lt =
      let (d, at_) = key_held p valid (o.known x e p held m) in
      h p d at_ (omega (arith, o.before x e p held m))

  -- While an event is missing, not all places are done.
  unfinished :
      (rank : Hash → ℕ) (k : ℕ) (s : S)
      → IsOrdered valid rank
      → IsTaking valid taken take_event size Inv steps s
      → ((x : Hash) (e : Signed) → lookup x valid ≡ some e → rank x < k → taken x s ≡ true)
      → k ≤ length valid
      → ltb (size s) (length valid) ≡ true
      → k < length valid
  unfinished rank k s o t h small more = elim (Bool-cases (ltb k (length valid))) [
    | inl lt ↦ ltb→lt k (length valid) lt
    | inr ge ↦
        let all = λ (x : Hash) (e : Signed) (held : lookup x valid ≡ some e).
          h x e held (omega (arith, o.below x e held, not_ltb k (length valid) ge)) in
        let done = missing_zero taken valid s all o.distinct in
        absurd (ground (arith, more, t.counted, done))
  ]

  -- After `k` rounds the events of the first `k` places are taken.
  rounds_lem :
      (rank : Hash → ℕ) (fuel k : ℕ) (s : S)
      → IsOrdered valid rank
      → IsTaking valid taken take_event size Inv steps s
      → ((x : Hash) (e : Signed) → lookup x valid ≡ some e → rank x < k → taken x s ≡ true)
      → k ≤ length valid
      → k + fuel ≡ suc (length valid)
      → (s' : S) × (rounds taken take_event size fuel valid s ≡ some s')
        × IsTaking valid taken take_event size Inv steps s'
        × ((x : Hash) (e : Signed) → lookup x valid ≡ some e → taken x s' ≡ true)
  rounds_lem rank zero k s o t h small total = absurd (omega arith)
  rounds_lem rank (suc fuel) k s o t h small total =
      elim (Bool-cases (ltb (size s) (length valid))) [
        | inr done ↦
            let none_left : missing taken valid s ≡ 0 = ground (arith, t.counted, done) in
            (
              s,
              rounds_done fuel s done,
              t,
              λ x e held. missing_none taken valid s x e none_left held,
            )
        | inl more ↦
            let (s₁, eq₁, t₁, grows, all) =
              round_lem valid taken take_event size Inv steps valid s o.distinct
                (Held-self valid o.distinct) t in
            let early =
              λ (x : Hash) (e : Signed) (held : lookup x valid ≡ some e) (lt : rank x < suc k).
                all x e held (
                  any_absent_none taken (parents_of e) s
                    (λ p m. parent_taken rank k s o h x e p held m lt)) in
            let below : k < length valid = unfinished rank k s o t h small more in
            let (s', eq, t', every) =
              rounds_lem rank fuel (suc k) s₁ o t₁ early (omega arith) (omega arith) in
            (s', rounds_more fuel s s₁ more eq₁ ∙ eq, t', every)
      ]

  -- Events in an order are all taken, within the rounds that the code allows.
  pub schedule-takes :
      (rank : Hash → ℕ) (s : S)
      → IsOrdered valid rank
      → Inv s
      → size s ≡ 0
      → ((x : Hash) → taken x s ≡ false)
      → (s' : S) × (schedule taken take_event size valid s ≡ some s')
        × Inv s'
        × ((x : Hash) → (taken x s' ≡ true) ↔ (contains_key x valid ≡ true))
  unfolding schedule
  schedule-takes rank s o inv empty fresh =
      let t : IsTaking valid taken take_event size Inv steps s = record {
        inv = inv;
        counted = omega (arith, missing_all taken valid s fresh, empty);
        only = λ x h. absurd (ground (arith, h, fresh x));
      } in
      let (s', eq, t', every) =
        rounds_lem rank (suc (length valid)) 0 s o t (λ x e held lt. absurd (omega arith))
          (omega arith) (omega arith) in
      (s', eq, t'.inv, λ x. (t'.only x, λ h. let (e, held) = key_held x valid h in every x e held))
