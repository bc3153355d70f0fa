-- ===== src/Cache/Generations.antt =====
-- The generation of crates/cc-gateway/src/cache.rs over a run.
use clockchain.Prelude.{
  ℕ, ◌≤◌, ◌≡◌, refl, sym, ap, ◌∙◌, inl, inr, none, some, List, [], ◌∷◌, arith, ltb, if◌then◌else◌,
  Bool-cases, Option-cases, Bytes, bytes_eq, bytes_eq_iff, bytes_key,
}
use clockchain.Cache.{Entry, Cache, clear, new, observe, get, put}
use clockchain.Cache.Invariant.{stored, store-stored}
use clockchain.Cache.WellFormed.{put-cases}
use clockchain.Cache.Answers.{Op, observes, gets, puts, step, run, Has, touch-generation}

get-generation :
    (c : Cache) (digest key : Bytes) → (get c digest key).0.inner.generation ≡ c.inner.generation
unfolding get
get-generation c digest key = ground (arith, touch-generation c.inner key)

put-generation :
    (c : Cache) (digest key : Bytes) (e : Entry)
    → (put c digest key e).inner.generation ≡ c.inner.generation
unfolding stored
put-generation c digest key e = elim (put-cases c digest key e) [
  | inl same ↦ rw same refl
  | inr (current, no_key, fits, stores) ↦
      ap (λ (x : Cache). x.inner.generation) (stores ∙ store-stored c key e)
]

-- An observation takes its place unless the generation was requested later.
observe-generation :
    (c : Cache) (digest : Bytes) (requested : ℕ)
    → (observe c digest requested).inner.generation ≡ elim c.inner.generation [
      | none ↦ some (digest, requested)
      | some (d, at_) ↦ if ltb requested at_ then some (d, at_) else some (digest, requested)
    ]
unfolding observe clear
observe-generation c digest requested = elim (Option-cases c.inner.generation) [
  | inl unset ↦ rw unset refl
  | inr ((d, at_), set_) ↦ elim (Bool-cases (bytes_eq d digest)) [
    | inl same ↦ let dd = (bytes_eq_iff d digest).0 same in ground (arith, set_, same, dd)
    | inr differ ↦ ground (arith, set_, differ)
  ]
]

-- The generation was observed.
run-observed :
    (f m : ℕ) (ops : List Op) (d : Bytes) (t : ℕ)
    → (run (new f m) ops).inner.generation ≡ some (d, t)
    → Has (observes d t) ops
unfolding run step new
run-observed f m [] d t h = ground (arith, h)
run-observed f m (gets d' k ∷ ops) d t h =
    inr (run-observed f m ops d t (sym (get-generation (run (new f m) ops) d' k) ∙ h))
run-observed f m (puts d' k e ∷ ops) d t h =
    inr (run-observed f m ops d t (sym (put-generation (run (new f m) ops) d' k e) ∙ h))
run-observed f m (observes d' t' ∷ ops) d t h =
    let g = sym (observe-generation (run (new f m) ops) d' t') ∙ h in
    elim (Option-cases (run (new f m) ops).inner.generation) [
      | inl unset ↦ inl (let g' = rw unset at g in ground (arith, g'))
      | inr ((d0, t0), set_) ↦
          let g' = rw set_ at g in
          elim (Bool-cases (ltb t' t0)) [
            | inl older ↦ let g2 = rw older at g' in inr (run-observed f m ops d t (set_ ∙ g2))
            | inr newer ↦ inl (let g2 = rw newer at g' in ground (arith, g2))
          ]
    ]

-- No observation was requested later.
run-latest :
    (f m : ℕ) (ops : List Op) (digest : Bytes) (requested : ℕ)
    → Has (observes digest requested) ops
    → (d : Bytes) × (t : ℕ) × ((run (new f m) ops).inner.generation ≡ some (d, t)) × (requested ≤ t)
unfolding run step
run-latest f m [] digest requested h = absurd h
run-latest f m (gets d' k ∷ ops) digest requested (inl e) = absurd (ground (arith, e))
run-latest f m (gets d' k ∷ ops) digest requested (inr h) =
    let (d, t, g, le) = run-latest f m ops digest requested h in
    (d, t, get-generation (run (new f m) ops) d' k ∙ g, le)
run-latest f m (puts d' k e' ∷ ops) digest requested (inl e) = absurd (ground (arith, e))
run-latest f m (puts d' k e' ∷ ops) digest requested (inr h) =
    let (d, t, g, le) = run-latest f m ops digest requested h in
    (d, t, put-generation (run (new f m) ops) d' k e' ∙ g, le)
run-latest f m (observes d' t' ∷ ops) digest requested (inl e) =
    let g = observe-generation (run (new f m) ops) d' t' in
    let le : requested ≤ t' = ground (arith, e) in
    elim (Option-cases (run (new f m) ops).inner.generation) [
      | inl unset ↦ (d', t', g ∙ rw unset refl, le)
      | inr ((d0, t0), set_) ↦ elim (Bool-cases (ltb t' t0)) [
        | inl older ↦ (d0, t0, g ∙ rw (set_, older) refl, ground (arith, older, le))
        | inr newer ↦ (d', t', g ∙ rw (set_, newer) refl, le)
      ]
    ]
run-latest f m (observes d' t' ∷ ops) digest requested (inr h) =
    let g = observe-generation (run (new f m) ops) d' t' in
    let (d, t, set_, le) = run-latest f m ops digest requested h in
    elim (Bool-cases (ltb t' t)) [
      | inl older ↦ (d, t, g ∙ rw (set_, older) refl, le)
      | inr newer ↦ (d', t', g ∙ rw (set_, newer) refl, ground (arith, newer, le))
    ]

-- The generation is never rolled back: after any calls on a new cache it is one of the observations
-- made, and none of the others was requested later.
pub run-generation :
    (freshness max_bytes : ℕ) (ops : List Op) (digest : Bytes) (requested : ℕ)
    → Has (observes digest requested) ops
    → (d : Bytes) × (t : ℕ) × ((run (new freshness max_bytes) ops).inner.generation ≡ some (d, t))
      × Has (observes d t) ops
      × (requested ≤ t)
run-generation f m ops digest requested h =
    let (d, t, set_, le) = run-latest f m ops digest requested h in
    (d, t, set_, run-observed f m ops d t set_, le)
