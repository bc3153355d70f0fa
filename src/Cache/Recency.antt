-- ===== src/Cache/Recency.antt =====
-- `put` of crates/cc-gateway/src/cache.rs evicts the least recently used first.
use clockchain.Prelude.{
  ℕ, ◌+◌, ◌<◌, ◌≡◌, ◌≢◌, sym, ap, ◌∙◌, inl, inr, false, some, ◌∷◌, arith, leb, Bool-cases, nat_key,
  Bytes, bytes_eq, bytes_eq_iff, bytes_key,
}
use clockchain.Prelude.Table.{lookup, insert, remove, lookup-remove, lookup-insert}
use clockchain.Prelude.Ordered.{lookup-Below}
use clockchain.Cache.{Entry, Entries, Order, Cache, size_of, store, put}
use clockchain.Cache.Evict.{IsLinked, evict-keeps, pop-IsLinked}
use clockchain.Cache.Invariant.{IsWell, stored, kept, store-stored}
use clockchain.Cache.WellFormed.{put-cases}

module _ (all : Entries) where
  -- Of the entries of `all`, what is left holds every one that was used after one that is left.
  abbrev Recent : Entries → Type 0
  Recent entries =
      (j i : Bytes) (ej ei : Entry) (uj ui : ℕ)
      → lookup j entries ≡ some (ej, uj)
      → lookup i all ≡ some (ei, ui)
      → uj < ui
      → lookup i entries ≡ some (ei, ui)

  pop-Recent :
      (tick : ℕ) (old : Bytes) (order : Order) (entries : Entries) (bytes : ℕ) (e : Entry)
      → IsLinked entries ((tick, old) ∷ order) bytes
      → lookup old entries ≡ some (e, tick)
      → Recent entries
      → Recent (remove old entries)
  pop-Recent tick old order entries bytes e h has r j i ej ei uj ui at_j at_i lt =
      let popped = pop-IsLinked tick old order entries bytes e h has in
      let in_order = (popped.link j uj).1 (ej, at_j) in
      let drop_j = lookup-remove old j entries h.distinct in
      let drop_i = lookup-remove old i entries h.distinct in
      let was_j : lookup j entries ≡ some (ej, uj) = ground (arith, drop_j, at_j) in
      let was_i = r j i ej ei uj ui was_j at_i lt in
      let below = lookup-Below tick uj order in
      elim (Bool-cases (leb uj tick)) [
        | inl le ↦
            absurd (
              let gone = below (ground (arith, le)) h.ascending.0 in ground (arith, gone, in_order))
        | inr more ↦ elim (Bool-cases (bytes_eq old i)) [
          | inr other ↦ ground (arith, drop_i, other, was_i)
          | inl same ↦
              let at_old : lookup i entries ≡ some (e, tick) =
                ap (λ k. lookup k entries) (sym ((bytes_eq_iff old i).0 same)) ∙ has in
              absurd (ground (arith, was_i, at_old, more, lt))
        ]
      ]

-- What eviction keeps, it keeps as it was.
module _ (c : Cache) (key : Bytes) (e : Entry) (w : IsWell c) where
  pub kept-subset :
      (j : Bytes) (x : Entry × ℕ)
      → lookup j (kept c key e).1 ≡ some x
      → lookup j c.inner.entries ≡ some x
  kept-subset =
      (evict-keeps
        (λ order entries bytes.
          (j : Bytes) (x : Entry × ℕ)
          → lookup j entries ≡ some x
          → lookup j c.inner.entries ≡ some x)
        (λ tick old order entries bytes e' h has sub j x at_j.
          sub j x (let d = lookup-remove old j entries h.distinct in ground (arith, d, at_j)))
        c.max_bytes (size_of key e) c.inner.order c.inner.entries c.inner.bytes w.linked
        (λ j x at_j. at_j)).1

  kept-Recent : Recent c.inner.entries (kept c key e).1
  kept-Recent =
      (evict-keeps (λ order entries bytes. Recent c.inner.entries entries)
        (λ tick old order entries bytes e' h has r.
          pop-Recent c.inner.entries tick old order entries bytes e' h has r)
        c.max_bytes (size_of key e) c.inner.order c.inner.entries c.inner.bytes w.linked
        (λ j i ej ei uj ui at_j at_i lt. at_i)).1

  -- The other keys after the entry is stored.
  pub lookup-store :
      (j : Bytes) → key ≢ j → lookup j (store c key e).inner.entries ≡ lookup j (kept c key e).1
  unfolding stored
  lookup-store j ne =
      let differ : bytes_eq key j ≡ false = (elim (Bool-cases (bytes_eq key j)) [
        | inl same ↦ absurd (ne ((bytes_eq_iff key j).0 same))
        | inr d ↦ d
      ]) in
      let first = lookup-insert key j (e, c.inner.tick + 1) (insert key (e, 0) (kept c key e).1) in
      let second = lookup-insert key j (e, 0) (kept c key e).1 in
      ap (λ (x : Cache). lookup j x.inner.entries) (store-stored c key e)
      ∙ ground (arith, first, second, differ)

-- Eviction is by least recent use: when an entry outlives a `put`, so does, as it was, every entry
-- that was used after it.
pub put-recency :
    (c : Cache) (digest key : Bytes) (e : Entry) (j i : Bytes) (ej ei : Entry) (uj ui : ℕ)
    → IsWell c
    → lookup j c.inner.entries ≡ some (ej, uj)
    → lookup i c.inner.entries ≡ some (ei, ui)
    → uj < ui
    → lookup j (put c digest key e).inner.entries ≡ some (ej, uj)
    → lookup i (put c digest key e).inner.entries ≡ some (ei, ui)
put-recency c digest key e j i ej ei uj ui w at_j at_i lt left = elim (put-cases c digest key e) [
  | inl same ↦ rw same at_i
  | inr (current, no_key, fits, stores) ↦
      let new_j : key ≢ j = λ same.
        (let h = ap (λ k. lookup k c.inner.entries) same in ground (arith, h, no_key, at_j)) in
      let new_i : key ≢ i = λ same.
        (let h = ap (λ k. lookup k c.inner.entries) same in ground (arith, h, no_key, at_i)) in
      let left' = rw stores at left in
      let kept_j = sym (lookup-store c key e w j new_j) ∙ left' in
      rw stores
        (lookup-store c key e w i new_i ∙ kept-Recent c key e w j i ej ei uj ui kept_j at_i lt)
]
