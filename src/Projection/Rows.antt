-- ===== src/Projection/Rows.antt =====
-- The row of an event of a subject in `project` of crates/cc-ledger/src/v1/projection.rs.
use clockchain.Prelude.{
  ◌≡◌, ◌↔◌, refl, ap, ◌∙◌, sym, subst, inl, inr, Bool, true, false, not, ◌&&◌, ◌||◌, Option, none,
  some, List, [], ◌∷◌, arith, ltb, length, ◌==◌, ==_iff, Bool-cases, Option-cases, nat_key,
}
use clockchain.Prelude.Ordered.{set_contains}
use clockchain.Wire.{Hash}
use clockchain.Ledger.Authority.{
  Reason, eligible, root_relinquished, revoked_concurrent, canceled_grant, canceled_authority,
  revoked_ancestor, any_of,
}
use clockchain.Ledger.Derive.{is_eligible}
use clockchain.Edges.Endpoint.{ReadingState}
use clockchain.Projection.{ProjectionState, is_relinquished, classify_row, state_of}

-- A set with one element.
single :
    (x : Hash) (xs : List Hash) → (length xs == 1) ≡ true → set_contains x xs ≡ true → xs ≡ x ∷ []
unfolding set_contains
single x [] h m = absurd (ground (arith, h))
single x (y ∷ []) h m = ap (λ z. z ∷ []) (sym ((==_iff x y).0 (ground (arith, m))))
single x (y ∷ z ∷ xs) h m = absurd (ground (arith, h))

pub single_mem : (x : Hash) → set_contains x (x ∷ []) ≡ true
unfolding set_contains
single_mem x = ground (arith, (==_iff x x).1 refl)

pub state_of-resolved :
    (xs : List Hash) → (state_of xs ≡ ReadingState.resolved) ↔ ((x : Hash) × (xs ≡ x ∷ []))
unfolding state_of
state_of-resolved [] = (λ h. absurd (ground (arith, h)), λ (x, h). absurd (ground (arith, h)))
state_of-resolved (x ∷ []) = (λ _. (x, refl), λ _. refl)
state_of-resolved (x ∷ y ∷ xs) =
    (λ h. absurd (ground (arith, h)), λ (z, h). absurd (ground (arith, h)))

any_gone :
    (p : Hash → Option Bool) (y : Hash) (xs : List Hash) → p y ≡ none → any_of p (y ∷ xs) ≡ none
unfolding any_of
any_gone p y xs gone = rw (gone, any_of) refl

any_step :
    (p : Hash → Option Bool) (y : Hash) (xs : List Hash)
    → p y ≡ some false
    → any_of p (y ∷ xs) ≡ some true
    → any_of p xs ≡ some true
unfolding any_of
any_step p y xs now h =
    let same : any_of p (y ∷ xs) ≡ any_of p xs = rw (now, any_of) refl in sym same ∙ h

pub any_of-true :
    (p : Hash → Option Bool) (xs : List Hash)
    → any_of p xs ≡ some true
    → (x : Hash) × (set_contains x xs ≡ true) × (p x ≡ some true)
unfolding any_of set_contains
any_of-true p [] h = absurd (ground (arith, h))
any_of-true p (y ∷ xs) h = elim (Option-cases (p y)) [
  | inl gone ↦ absurd (let k = sym (any_gone p y xs gone) ∙ h in ground (arith, k))
  | inr (b, at_) ↦ elim (Bool-cases b) [
    | inl holds ↦ (y, ground (arith, (==_iff y y).1 refl), at_ ∙ ap some holds)
    | inr fails ↦
        let now : p y ≡ some false = at_ ∙ ap some fails in
        let (x, m, is) = any_of-true p xs (any_step p y xs now h) in (x, ground (arith, m), is)
  ]
]

is_relinquished-eligible : (r : Reason) → is_eligible r ≡ true → is_relinquished r ≡ false
is_relinquished-eligible eligible h = refl
is_relinquished-eligible root_relinquished h = absurd (ground (arith, h))
is_relinquished-eligible revoked_concurrent h = refl
is_relinquished-eligible canceled_grant h = refl
is_relinquished-eligible canceled_authority h = refl
is_relinquished-eligible revoked_ancestor h = refl

-- A row is of the head exactly if its event is the frontier.
pub classify_row-head :
    (frontier common : List Hash) (x : Hash) (reason : Reason)
    → (set_contains x frontier ≡ true → is_eligible reason ≡ true)
    → ((classify_row frontier common x reason).state ≡ ProjectionState.head) ↔ (frontier ≡ x ∷ [])
unfolding classify_row
classify_row-head frontier common x reason alive = (
  λ h. elim (Bool-cases (is_relinquished reason)) [
    | inl gone ↦ absurd (let h' = rw gone at h in ground (arith, h'))
    | inr here_ ↦
        let h₁ = rw here_ at h in
        elim (Bool-cases (is_eligible reason)) [
          | inr buried ↦ absurd (let h₂ = rw buried at h₁ in ground (arith, h₂))
          | inl fine ↦
              let h₂ = rw fine at h₁ in
              elim (Bool-cases (length frontier == 1 && set_contains x frontier)) [
                | inl only ↦ single x frontier (ground (arith, only)) (ground (arith, only))
                | inr other ↦
                    let h₃ = rw other at h₂ in
                    elim (Bool-cases (
                      ltb 1 (length frontier)
                      && (set_contains x frontier || not (set_contains x common)))) [
                        | inl open_ ↦ absurd (let h₄ = rw open_ at h₃ in ground (arith, h₄))
                        | inr old ↦ absurd (let h₄ = rw old at h₃ in ground (arith, h₄))
                      ]
              ]
        ]
  ],
  λ is.
      let m : set_contains x frontier ≡ true = ap (set_contains x) is ∙ single_mem x in
      let size : (length frontier == 1) ≡ true =
        subst (λ (xs : List Hash). (length xs == 1) ≡ true) (sym is) refl in
      let fine = alive m in
      rw (is_relinquished-eligible reason fine) (rw fine (rw size (rw m refl))),
)

pub classify_row-frontier :
    (frontier common : List Hash) (x : Hash) (reason : Reason)
    → (classify_row frontier common x reason).frontier ≡ set_contains x frontier
unfolding classify_row
classify_row-frontier frontier common x reason = elim (Bool-cases (is_relinquished reason)) [
  | inl gone ↦ rw gone refl
  | inr here_ ↦ elim (Bool-cases (is_eligible reason)) [
    | inr buried ↦ rw here_ (rw buried refl)
    | inl fine ↦ elim (Bool-cases (length frontier == 1 && set_contains x frontier)) [
      | inl only ↦ rw here_ (rw fine (rw only refl))
      | inr other ↦
          elim (Bool-cases
            (ltb 1 (length frontier) && (set_contains x frontier || not (set_contains x common)))) [
              | inl open_ ↦ rw here_ (rw fine (rw other (rw open_ refl)))
              | inr old ↦ rw here_ (rw fine (rw other (rw old refl)))
            ]
    ]
  ]
]
