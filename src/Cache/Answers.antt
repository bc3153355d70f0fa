-- ===== src/Cache/Answers.antt =====
-- Runs of crates/cc-gateway/src/cache.rs from an empty cache: what it answers, and for which digest.
use clockchain.Prelude.{
  ℕ, ◌+◌, ◌≡◌, ◌≢◌, ◌⊎◌, refl, sym, ap, ap₂, ◌∙◌, inl, inr, true, some, List, [], ◌∷◌, arith, ltb,
  Bool-cases, Option-cases, nat_key, Bytes, bytes_eq, bytes_eq_iff, bytes_key,
}
use clockchain.Prelude.Table.{lookup, insert, lookup-insert}
use clockchain.Cache.{Entry, Inner, Cache, clear, touch, new, observe, is_current, get, put}
use clockchain.Cache.Invariant.{IsWell, stored, kept, store-stored}
use clockchain.Cache.WellFormed.{put-cases, new-IsWell, observe-IsWell, get-IsWell, put-IsWell}
use clockchain.Cache.Recency.{kept-subset, lookup-store}

-- The calls that change a cache.
pub data Op : Type 0 where
  observes : Bytes → ℕ → Op
  gets : Bytes → Bytes → Op
  puts : Bytes → Bytes → Entry → Op

unfoldable pub step : Cache → Op → Cache
step c (observes digest requested) = observe c digest requested
step c (gets digest key) = (get c digest key).0
step c (puts digest key e) = put c digest key e

-- A run, the latest call first.
unfoldable pub run : Cache → List Op → Cache
run c [] = c
run c (op ∷ ops) = step (run c ops) op

abbrev pub Has : Op → List Op → Type 0
Has op [] = ⊥
Has op (o ∷ ops) = (op ≡ o) ⊎ Has op ops

-- Whatever is called on a new cache, it is well formed: the entries and the order of use name each
-- other, each key and each tick once, the ticks lie between one and the last, the count of bytes is
-- that of the entries, and it is at most the bound.
pub run-IsWell :
    (freshness max_bytes : ℕ) (ops : List Op) → IsWell (run (new freshness max_bytes) ops)
unfolding run step
run-IsWell f m [] = new-IsWell f m
run-IsWell f m (observes d t ∷ ops) = observe-IsWell (run (new f m) ops) d t (run-IsWell f m ops)
run-IsWell f m (gets d k ∷ ops) = get-IsWell (run (new f m) ops) d k (run-IsWell f m ops)
run-IsWell f m (puts d k e ∷ ops) = put-IsWell (run (new f m) ops) d k e (run-IsWell f m ops)

-- Every entry was put under the digest of the generation.
abbrev pub IsPut : Cache → List Op → Type 0
IsPut c ops =
    (k : Bytes) (e : Entry) (u : ℕ)
    → lookup k c.inner.entries ≡ some (e, u)
    → (d : Bytes) × (t : ℕ) × (c.inner.generation ≡ some (d, t)) × Has (puts d k e) ops

pub touch-generation : (i : Inner) (key : Bytes) → (touch i key).generation ≡ i.generation
unfolding touch
touch-generation i key = elim (Option-cases (lookup key i.entries)) [
  | inl no_key ↦ rw (no_key, touch) refl
  | inr (x, held) ↦ rw (held, touch) refl
]

-- A use changes no entry but for its tick.
touch-entries :
    (i : Inner) (key : Bytes) (e' : Entry) (used : ℕ)
    → lookup key i.entries ≡ some (e', used)
    → (k : Bytes) (e : Entry) (u : ℕ) → lookup k (touch i key).entries ≡ some (e, u)
    → (u' : ℕ) × (lookup k i.entries ≡ some (e, u'))
unfolding touch
touch-entries i key e' used found k e u held =
    let h : lookup k (insert key (e', i.tick + 1) i.entries) ≡ some (e, u) =
      rw (found, touch) at held in
    let l = lookup-insert key k (e', i.tick + 1) i.entries in
    elim (Bool-cases (bytes_eq key k)) [
      | inl same ↦ (
        used,
        ap (λ x. lookup x i.entries) (sym ((bytes_eq_iff key k).0 same))
            ∙ found
            ∙ ap (λ x. some (x, used)) (ground (arith, h, l, same)),
      )
      | inr differ ↦ (u, ground (arith, h, l, differ))
    ]

module _ (c : Cache) (ops : List Op) (p : IsPut c ops) where
  observe-IsPut :
      (digest : Bytes) (requested : ℕ)
      → IsPut (observe c digest requested) (observes digest requested ∷ ops)
  unfolding observe clear lookup
  observe-IsPut digest requested k e u held = elim (Option-cases c.inner.generation) [
    | inl unset ↦ absurd (let h = rw unset at held in ground (arith, h))
    | inr ((d, at_), set_) ↦ elim (Bool-cases (ltb requested at_)) [
      | inl older ↦
          let h = rw (set_, older) at held in
          let (d', t', g, has) = p k e u h in (d', t', rw (set_, older) (sym set_ ∙ g), inr has)
      | inr newer ↦ elim (Bool-cases (bytes_eq d digest)) [
        | inl same ↦
            let h = rw (set_, newer, same) at held in
            let (d', t', g, has) = p k e u h in
            let dd : d ≡ d' = ground (arith, set_, g) in
            (d', requested, rw (set_, newer, same) (ap (λ x. some (x, requested)) dd), inr has)
        | inr differ ↦ absurd (let h = rw (set_, newer, differ) at held in ground (arith, h))
      ]
    ]
  ]

  get-IsPut : (digest key : Bytes) → IsPut (get c digest key).0 (gets digest key ∷ ops)
  unfolding get
  get-IsPut digest key k e u held = elim (Bool-cases (is_current c.inner digest)) [
    | inr stale ↦
        let h = rw stale at held in let (d, t, g, has) = p k e u h in (d, t, rw stale g, inr has)
    | inl current ↦ elim (Option-cases (lookup key c.inner.entries)) [
      | inl no_key ↦
          let h = rw (current, no_key) at held in
          let (d, t, g, has) = p k e u h in (d, t, rw (current, no_key) g, inr has)
      | inr ((e', used), found) ↦
          let (u', at_k) =
            touch-entries c.inner key e' used found k e u (rw (current, found) at held) in
          let (d, t, g, has) = p k e u' at_k in
          (d, t, rw (current, found) (touch-generation c.inner key ∙ g), inr has)
    ]
  ]

  put-IsPut :
      (digest key : Bytes) (e : Entry)
      → IsWell c
      → IsPut (put c digest key e) (puts digest key e ∷ ops)
  unfolding is_current stored
  put-IsPut digest key new_ w k e u held = elim (put-cases c digest key new_) [
    | inl same ↦ let (d, t, g, has) = p k e u (rw same at held) in (d, t, rw same g, inr has)
    | inr (current, no_key, fits, stores) ↦
        let h = rw stores at held in
        let generation : (put c digest key new_).inner.generation ≡ c.inner.generation =
          ap (λ (x : Cache). x.inner.generation) (stores ∙ store-stored c key new_) in
        elim (Bool-cases (bytes_eq key k)) [
          | inr differ ↦
              let ne : key ≢ k =
                λ eq. (let yes = (bytes_eq_iff key k).1 eq in ground (arith, yes, differ)) in
              let at_k =
                kept-subset c key new_ w k (e, u) (sym (lookup-store c key new_ w k ne) ∙ h) in
              let (d, t, g, has) = p k e u at_k in (d, t, generation ∙ g, inr has)
          | inl same ↦ elim (Option-cases c.inner.generation) [
            | inl unset ↦ absurd (let cur = rw unset at current in ground (arith, cur))
            | inr ((d, t), set_) ↦
                let cur : bytes_eq d digest ≡ true = rw set_ at current in
                let dd = (bytes_eq_iff d digest).0 cur in
                let kk = (bytes_eq_iff key k).0 same in
                let stored_ : lookup k (stored c key new_ (kept c key new_)).inner.entries
                    ≡ some (e, u) =
                  ap (λ (x : Cache). lookup k x.inner.entries) (sym (store-stored c key new_))
                  ∙ h in
                let l =
                  lookup-insert key k (new_, c.inner.tick + 1)
                    (insert key (new_, 0) (kept c key new_).1) in
                let ee : e ≡ new_ = ground (arith, stored_, l, same) in
                (
                  d,
                  t,
                  generation ∙ set_,
                  inl (ap (λ x. puts x k e) dd ∙ ap₂ (λ x y. puts digest x y) (sym kk) ee),
                )
          ]
        ]
  ]

pub run-IsPut :
    (freshness max_bytes : ℕ) (ops : List Op) → IsPut (run (new freshness max_bytes) ops) ops
unfolding run step new lookup
run-IsPut f m [] = λ k e u held. absurd (ground (arith, held))
run-IsPut f m (observes d t ∷ ops) = observe-IsPut (run (new f m) ops) ops (run-IsPut f m ops) d t
run-IsPut f m (gets d k ∷ ops) = get-IsPut (run (new f m) ops) ops (run-IsPut f m ops) d k
run-IsPut f m (puts d k e ∷ ops) =
    put-IsPut (run (new f m) ops) ops (run-IsPut f m ops) d k e (run-IsWell f m ops)
