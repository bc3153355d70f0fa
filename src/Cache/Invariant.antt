-- ===== src/Cache/Invariant.antt =====
-- What every operation of crates/cc-gateway/src/cache.rs keeps true of a cache.
use clockchain.Prelude.{
  ℕ, ◌+◌, ◌≤◌, ◌≡◌, refl, sym, ◌∙◌, subst, inl, inr, none, some, arith, ◌==◌, Bool-cases,
  Option-cases, nat_key, Bytes, bytes_eq_iff, bytes_key,
}
use clockchain.Prelude.Table.{
  lookup, insert, remove, insert-IsDistinct, lookup-remove, lookup-remove-none, lookup-insert,
  lookup-insert_self,
}
use clockchain.Prelude.Ordered.{
  map_insert, lookup-map_insert, IsAscending, IsAscending-IsDistinct, lookup-tail,
  map_insert-IsAscending, remove-IsAscending,
}
use clockchain.Cache.{Entry, Entries, Order, Cache, size_of, touch, evict, store}
use clockchain.Cache.Link.{unlink, place}
use clockchain.Cache.Evict.{total-insert_new, total-insert_same, IsLinked, evict-keeps, evict-fits}

-- The ticks in the order lie between one and `tick`.
abbrev pub IsTicked : ℕ → Order → Type 0
IsTicked tick order = (u : ℕ) (k : Bytes) → lookup u order ≡ some k → (1 ≤ u) × (u ≤ tick)

-- The entries and the order name each other, the count of bytes is right, and it is within bounds.
pub record IsWell (c : Cache) : Type 0 where
  pub linked : IsLinked c.inner.entries c.inner.order c.inner.bytes
  pub ticked : IsTicked c.inner.tick c.inner.order
  pub bounded : c.inner.bytes ≤ c.max_bytes

unused : (tick : ℕ) (order : Order) (u : ℕ) → IsTicked tick order → (u ≡ 0) → lookup u order ≡ none
unused tick order u h e = elim (Option-cases (lookup u order)) [
  | inl no_key ↦ no_key
  | inr (k, key) ↦ absurd (let (lo, hi) = h u k key in omega arith)
]

fresh_next : (tick : ℕ) (order : Order) → IsTicked tick order → lookup (tick + 1) order ≡ none
fresh_next tick order h = elim (Option-cases (lookup (tick + 1) order)) [
  | inl no_key ↦ no_key
  | inr (k, key) ↦ absurd (let (lo, hi) = h (tick + 1) k key in omega arith)
]

-- A new tick at the end.
next-IsTicked :
    (tick : ℕ) (key : Bytes) (order : Order)
    → IsTicked tick order
    → IsTicked (tick + 1) (map_insert (tick + 1) key order)
next-IsTicked tick key order h u k held =
    let e = lookup-map_insert (tick + 1) u key order in
    elim (Bool-cases (tick + 1 == u)) [
      | inl same ↦ (ground (arith, same), ground (arith, same))
      | inr differ ↦ let (lo, hi) = h u k (ground (arith, e, differ, held)) in (lo, omega arith)
    ]

remove-IsTicked :
    (tick used : ℕ) (order : Order)
    → IsAscending order
    → IsTicked tick order
    → IsTicked tick (remove used order)
remove-IsTicked tick used order a h u k held =
    let e = lookup-remove used u order (IsAscending-IsDistinct order a) in
    elim (Bool-cases (used == u)) [
      | inl same ↦ absurd (ground (arith, same, e, held))
      | inr differ ↦ h u k (ground (arith, differ, e, held))
    ]

module _ (entries : Entries) (order : Order) (bytes tick : ℕ) (key : Bytes) (e : Entry) where
  -- The use of a held key.
  pub used-IsLinked :
      (used : ℕ)
      → IsLinked entries order bytes
      → IsTicked tick order
      → lookup key entries ≡ some (e, used)
      → IsLinked
          (insert key (e, tick + 1) entries)
          (map_insert (tick + 1) key (remove used order))
          bytes
  used-IsLinked used h t has =
      let drops =
        λ (v : ℕ). lookup-remove used v order (IsAscending-IsDistinct order h.ascending) in
      let gone = λ (j : Bytes). lookup-remove key j entries h.distinct in
      let none_key : lookup key (remove key entries) ≡ none =
        (let g = gone key in let same = (bytes_eq_iff key key).1 refl in ground (arith, g, same)) in
      record {
        distinct = insert-IsDistinct key (e, tick + 1) entries h.distinct;
        ascending =
            map_insert-IsAscending (tick + 1) key (remove used order)
              (remove-IsAscending used order h.ascending);
        counted = h.counted ∙ sym (total-insert_same key e used (tick + 1) entries has);
        link =
            place (λ k. lookup k (remove key entries))
              (λ k. lookup k (insert key (e, tick + 1) entries)) (λ u. lookup u (remove used order))
              (λ u. lookup u (map_insert (tick + 1) key (remove used order))) key (tick + 1) e
              (unlink (λ k. lookup k entries) (λ k. lookup k (remove key entries))
                (λ u. lookup u order) (λ u. lookup u (remove used order)) key used e h.link has gone
                drops)
              none_key
              (fresh_next tick (remove used order) (remove-IsTicked tick used order h.ascending t))
              (λ j.
                let g = gone j in
                let i = lookup-insert key j (e, tick + 1) entries in ground (arith, g, i))
              (λ v. lookup-map_insert (tick + 1) v key (remove used order));
      }

  -- A new key, which `put` enters with tick zero and then uses.
  stored-IsLinked :
      IsLinked entries order bytes
      → IsTicked tick order
      → lookup key entries ≡ none
      → IsLinked
          (insert key (e, tick + 1) (insert key (e, 0) entries))
          (map_insert (tick + 1) key (remove 0 order))
          (bytes + size_of key e)
  stored-IsLinked h t no_key =
      let drops = λ (v : ℕ). lookup-remove 0 v order (IsAscending-IsDistinct order h.ascending) in
      let distinct = insert-IsDistinct key (e, 0) entries h.distinct in
      let held : lookup key (insert key (e, 0) entries) ≡ some (e, 0) =
        (let i = lookup-insert key key (e, 0) entries in
          let same = (bytes_eq_iff key key).1 refl in ground (arith, i, same)) in
      let ascending = remove-IsAscending 0 order h.ascending in
      record {
        distinct = insert-IsDistinct key (e, tick + 1) (insert key (e, 0) entries) distinct;
        ascending = map_insert-IsAscending (tick + 1) key (remove 0 order) ascending;
        counted =
            (let c = h.counted in
              let first = total-insert_new key e 0 entries no_key in
              let second = total-insert_same key e 0 (tick + 1) (insert key (e, 0) entries) held in
              omega arith);
        link =
            place (λ k. lookup k entries)
              (λ k. lookup k (insert key (e, tick + 1) (insert key (e, 0) entries)))
              (λ u. lookup u order) (λ u. lookup u (map_insert (tick + 1) key (remove 0 order))) key
              (tick + 1) e h.link no_key (fresh_next tick order t)
              (λ j.
                let i = lookup-insert key j (e, tick + 1) (insert key (e, 0) entries) in
                let i' = lookup-insert key j (e, 0) entries in ground (arith, i, i'))
              (λ v.
                let d = drops v in
                let zero_free = unused tick order v t in
                let m = lookup-map_insert (tick + 1) v key (remove 0 order) in
                elim (Bool-cases (0 == v)) [
                  | inl z ↦
                      let free = zero_free (ground (arith, z)) in ground (arith, d, m, free, z)
                  | inr nz ↦ ground (arith, d, m, nz)
                ]);
      }

-- The cache after `store`, over what eviction leaves.
unfoldable pub stored : Cache → Bytes → Entry → Order × Entries × ℕ → Cache
stored c key e (order, entries, bytes) = record c {
  inner = record c.inner {
    entries = insert key (e, c.inner.tick + 1) (insert key (e, 0) entries);
    order = map_insert (c.inner.tick + 1) key (remove 0 order);
    tick = c.inner.tick + 1;
    bytes = bytes + size_of key e;
  };
}

abbrev pub kept : Cache → Bytes → Entry → Order × Entries × ℕ
kept c key e = evict c.max_bytes (size_of key e) c.inner.order c.inner.entries c.inner.bytes

pub store-stored :
    (c : Cache) (key : Bytes) (e : Entry) → store c key e ≡ stored c key e (kept c key e)
unfolding store touch stored
store-stored c key e =
    let held = lookup-insert_self key (e, 0) (kept c key e).1 in rw (held, touch) refl

abbrev pub Kept : Cache → Bytes → Order → Entries → ℕ → Type 0
Kept c key order entries bytes = IsTicked c.inner.tick order × (lookup key entries ≡ none)

-- Eviction of a well-formed cache, where `key` is new.
pub kept-IsLinked :
    (c : Cache) (key : Bytes) (e : Entry)
    → IsWell c
    → lookup key c.inner.entries ≡ none
    → IsLinked (kept c key e).1 (kept c key e).0 (kept c key e).2
      × Kept c key (kept c key e).0 (kept c key e).1 (kept c key e).2
kept-IsLinked c key e w no_key =
    evict-keeps (Kept c key)
      (λ tick old order entries bytes e' h has (t, absent). (
        (λ u k held. t u k (lookup-tail tick old u k order h.ascending held)),
        lookup-remove-none old key entries absent,
      ))
      c.max_bytes (size_of key e) c.inner.order c.inner.entries c.inner.bytes w.linked
      (w.ticked, no_key)

pub store-IsWell :
    (c : Cache) (key : Bytes) (e : Entry)
    → IsWell c
    → lookup key c.inner.entries ≡ none
    → size_of key e ≤ c.max_bytes
    → IsWell (store c key e)
unfolding stored
store-IsWell c key e w no_key fits =
    let (linked, (ticked, absent)) = kept-IsLinked c key e w no_key in
    subst IsWell (sym (store-stored c key e)) (record {
      linked =
          stored-IsLinked (kept c key e).1 (kept c key e).0 (kept c key e).2 c.inner.tick key e
            linked ticked absent;
      ticked =
          next-IsTicked c.inner.tick key (remove 0 (kept c key e).0)
            (remove-IsTicked c.inner.tick 0 (kept c key e).0 linked.ascending ticked);
      bounded =
          evict-fits c.max_bytes (size_of key e) c.inner.order c.inner.entries c.inner.bytes fits
            w.linked;
    })

pub used-IsTicked :
    (tick used : ℕ) (key : Bytes) (order : Order)
    → IsAscending order
    → IsTicked tick order
    → IsTicked (tick + 1) (map_insert (tick + 1) key (remove used order))
used-IsTicked tick used key order a t =
    next-IsTicked tick key (remove used order) (remove-IsTicked tick used order a t)
