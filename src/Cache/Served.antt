-- ===== src/Cache/Served.antt =====
-- What `get` of crates/cc-gateway/src/cache.rs answers.
use clockchain.Prelude.{
  ℕ, ◌+◌, ◌≤◌, ◌≡◌, refl, ap, ◌∙◌, subst, inl, inr, true, false, none, some, List, arith, ltb,
  Bool-cases, Option-cases, nat_key, Bytes, bytes_eq_iff, bytes_key,
}
use clockchain.Prelude.Table.{contains_key, lookup, insert, lookup-insert_self}
use clockchain.Cache.{
  Entry, Entries, Order, Inner, Cache, size_of, new, is_current, get, store, put,
}
use clockchain.Cache.Invariant.{stored, kept, store-stored}
use clockchain.Cache.Answers.{Op, puts, run, Has, run-IsPut}

get-answers :
    (c : Cache) (digest key : Bytes) (e : Entry)
    → (get c digest key).1 ≡ some e
    → (is_current c.inner digest ≡ true) × ((u : ℕ) × (lookup key c.inner.entries ≡ some (e, u)))
unfolding get
get-answers c digest key e h = elim (Bool-cases (is_current c.inner digest)) [
  | inr stale ↦ absurd (let h' = rw stale at h in ground (arith, h'))
  | inl current ↦ elim (Option-cases (lookup key c.inner.entries)) [
    | inl no_key ↦ absurd (let h' = rw (current, no_key) at h in ground (arith, h'))
    | inr ((e', u), held) ↦
        let h' = rw (current, held) at h in
        let ee : e' ≡ e = ground (arith, h') in (current, (u, held ∙ ap (λ x. some (x, u)) ee))
  ]
]

get-held :
    (c : Cache) (digest key : Bytes) (e : Entry) (u : ℕ)
    → is_current c.inner digest ≡ true
    → lookup key c.inner.entries ≡ some (e, u)
    → (get c digest key).1 ≡ some e
unfolding get
get-held c digest key e u current held = rw (current, held) refl

current-digest :
    (i : Inner) (digest : Bytes)
    → is_current i digest ≡ true
    → (t : ℕ) × (i.generation ≡ some (digest, t))
unfolding is_current
current-digest i digest h = elim (Option-cases i.generation) [
  | inl unset ↦ absurd (let h' = rw unset at h in ground (arith, h'))
  | inr ((d, t), set_) ↦
      let same = (bytes_eq_iff d digest).0 (rw set_ at h) in (t, set_ ∙ ap (λ x. some (x, t)) same)
]

-- The cache never answers with what was not put under that very digest and key: whatever was called
-- before on a new cache, an answer to `get` is an entry that a `put` brought for them.
pub get-Has :
    (freshness max_bytes : ℕ) (ops : List Op) (digest key : Bytes) (e : Entry)
    → (get (run (new freshness max_bytes) ops) digest key).1 ≡ some e
    → Has (puts digest key e) ops
get-Has f m ops digest key e h =
    let c = run (new f m) ops in
    let (current, (u, held)) = get-answers c digest key e h in
    let (t, set_) = current-digest c.inner digest current in
    let (d, t', g, has) = run-IsPut f m ops key e u held in
    let dd : d ≡ digest = ground (arith, g, set_) in subst (λ x. Has (puts x key e) ops) dd has

current-stored :
    (c : Cache) (key : Bytes) (e : Entry) (k : Order × Entries × ℕ) (digest : Bytes)
    → is_current c.inner digest ≡ true
    → is_current (stored c key e k).inner digest ≡ true
unfolding is_current stored
current-stored c key e k digest h = h

put-stores :
    (c : Cache) (digest key : Bytes) (e : Entry)
    → is_current c.inner digest ≡ true
    → lookup key c.inner.entries ≡ none
    → size_of key e ≤ c.max_bytes
    → put c digest key e ≡ store c key e
unfolding put
put-stores c digest key e current no_key fits =
    let small : ltb c.max_bytes (size_of key e) ≡ false = ground (arith, fits) in
    rw (current, no_key, contains_key, small) refl

-- An entry that is put under the current digest, under a new key and within the byte bound, is what
-- the next `get` of its key answers.
pub get-put :
    (c : Cache) (digest key : Bytes) (e : Entry)
    → is_current c.inner digest ≡ true
    → lookup key c.inner.entries ≡ none
    → size_of key e ≤ c.max_bytes
    → (get (put c digest key e) digest key).1 ≡ some e
unfolding stored
get-put c digest key e current no_key fits =
    let stores = put-stores c digest key e current no_key fits ∙ store-stored c key e in
    rw stores (
      get-held (stored c key e (kept c key e)) digest key e (c.inner.tick + 1)
        (current-stored c key e (kept c key e) digest current)
        (lookup-insert_self key (e, c.inner.tick + 1) (insert key (e, 0) (kept c key e).1)))
