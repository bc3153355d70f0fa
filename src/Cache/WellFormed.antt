-- ===== src/Cache/WellFormed.antt =====
-- The operations of crates/cc-gateway/src/cache.rs keep a cache well formed.
use clockchain.Prelude.{
  ℕ, ◌≤◌, ◌≡◌, ◌⊎◌, refl, inl, inr, true, Option, none, some, arith, ltb, Bool-cases, Option-cases,
  nat_key, Bytes, bytes_eq, bytes_key,
}
use clockchain.Prelude.Table.{lookup, contains_key}
use clockchain.Cache.{
  Entry, Cache, size_of, clear, touch, observe, is_current, get, store, put, new,
}
use clockchain.Cache.Invariant.{IsWell, used-IsLinked, used-IsTicked, store-IsWell}

-- `put` either leaves the cache as it is, or stores an entry that fits under a new key.
pub put-cases :
    (c : Cache) (digest key : Bytes) (e : Entry)
    → (put c digest key e ≡ c)
      ⊎ ((is_current c.inner digest ≡ true)
          × (lookup key c.inner.entries ≡ none)
          × (size_of key e ≤ c.max_bytes)
          × (put c digest key e ≡ store c key e))
unfolding put
put-cases c digest key e = elim (Bool-cases (is_current c.inner digest)) [
  | inr stale ↦ inl (rw stale refl)
  | inl current ↦ elim (Option-cases (lookup key c.inner.entries)) [
    | inr (v, held) ↦ inl (rw (current, held, contains_key) refl)
    | inl no_key ↦ elim (Bool-cases (ltb c.max_bytes (size_of key e))) [
      | inl big ↦ inl (rw (current, no_key, contains_key, big) refl)
      | inr fits ↦
          inr (current, no_key, ground (arith, fits), rw (current, no_key, contains_key, fits) refl)
    ]
  ]
]

pub put-IsWell :
    (c : Cache) (digest key : Bytes) (e : Entry) → IsWell c → IsWell (put c digest key e)
put-IsWell c digest key e w = elim (put-cases c digest key e) [
  | inl same ↦ rw same w
  | inr (current, no_key, fits, stores) ↦ rw stores (store-IsWell c key e w no_key fits)
]

touch-IsWell :
    (c : Cache) (key : Bytes) (e : Entry) (used : ℕ)
    → IsWell c
    → lookup key c.inner.entries ≡ some (e, used)
    → IsWell (record c { inner = touch c.inner key })
unfolding touch
touch-IsWell c key e used w held =
    rw (held, touch)
      (record {
        linked =
            used-IsLinked c.inner.entries c.inner.order c.inner.bytes c.inner.tick key e used
              w.linked w.ticked held;
        ticked = used-IsTicked c.inner.tick used key c.inner.order w.linked.ascending w.ticked;
        bounded = w.bounded;
      })

pub get-IsWell : (c : Cache) (digest key : Bytes) → IsWell c → IsWell (get c digest key).0
unfolding get
get-IsWell c digest key w = elim (Bool-cases (is_current c.inner digest)) [
  | inr stale ↦ rw stale w
  | inl current ↦ elim (Option-cases (lookup key c.inner.entries)) [
    | inl no_key ↦ rw (current, no_key) w
    | inr ((e, used), held) ↦ rw (current, held) (touch-IsWell c key e used w held)
  ]
]

empty-IsWell :
    (c : Cache) (generation : Option (Bytes × ℕ))
    → IsWell (record c { inner = clear (record c.inner { generation = generation }) })
unfolding clear lookup
empty-IsWell c generation = record {
  linked = record {
    distinct = tt;
    ascending = tt;
    counted = refl;
    link = λ k u. ((λ h. absurd (ground (arith, h))), λ (e, h). absurd (ground (arith, h)));
  };
  ticked = λ u k h. absurd (ground (arith, h));
  bounded = omega arith;
}

pub observe-IsWell :
    (c : Cache) (digest : Bytes) (requested : ℕ) → IsWell c → IsWell (observe c digest requested)
unfolding observe
observe-IsWell c digest requested w = elim (Option-cases c.inner.generation) [
  | inl unset ↦ rw unset (empty-IsWell c (some (digest, requested)))
  | inr ((d, at_), set_) ↦ elim (Bool-cases (ltb requested at_)) [
    | inl older ↦
        rw (set_, older) (record { linked = w.linked; ticked = w.ticked; bounded = w.bounded })
    | inr newer ↦ elim (Bool-cases (bytes_eq d digest)) [
      | inl same ↦
          rw (set_, newer, same)
            (record { linked = w.linked; ticked = w.ticked; bounded = w.bounded })
      | inr differ ↦ rw (set_, newer, differ) (empty-IsWell c (some (digest, requested)))
    ]
  ]
]

pub new-IsWell : (freshness max_bytes : ℕ) → IsWell (new freshness max_bytes)
unfolding new clear
new-IsWell freshness max_bytes = empty-IsWell (new freshness max_bytes) none
