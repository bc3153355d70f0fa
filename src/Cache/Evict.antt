-- ===== src/Cache/Evict.antt =====
-- The eviction loop of `put` in crates/cc-gateway/src/cache.rs.
use clockchain.Prelude.{
  ℕ, ◌+◌, ◌-◌, ◌≤◌, ◌≡◌, refl, sym, ap₂, inl, inr, none, some, [], ◌∷◌, arith, ◌==◌, ltb,
  Bool-cases, nat_key, Bytes, bytes_eq, bytes_eq_iff, bytes_eq_refl, bytes_key,
}
use clockchain.Prelude.Table.{lookup, insert, remove, IsDistinct, remove-IsDistinct, lookup-remove}
use clockchain.Prelude.Ordered.{IsAscending, lookup-Below}
use clockchain.Cache.{Entry, Entries, Order, size_of, evict}
use clockchain.Cache.Link.{Link, unlink}

-- The bytes of all entries.
abbrev pub total : Entries → ℕ
total [] = 0
total ((k, (e, _)) ∷ m) = size_of k e + total m

pub total-insert_new :
    (k : Bytes) (e : Entry) (u : ℕ) (m : Entries)
    → lookup k m ≡ none
    → total (insert k (e, u) m) ≡ size_of k e + total m
unfolding insert lookup
total-insert_new k e u [] h = refl
total-insert_new k e u ((j, (f, v)) ∷ m) h = elim (Bool-cases (bytes_eq j k)) [
  | inl same ↦ absurd (ground (arith, same, h))
  | inr differ ↦
      let rest = total-insert_new k e u m (ground (arith, differ, h)) in rw differ (omega arith)
]

pub total-insert_same :
    (k : Bytes) (e : Entry) (u t : ℕ) (m : Entries)
    → lookup k m ≡ some (e, u)
    → total (insert k (e, t) m) ≡ total m
unfolding insert lookup
total-insert_same k e u t [] h = absurd (ground (arith, h))
total-insert_same k e u t ((j, (f, v)) ∷ m) h = elim (Bool-cases (bytes_eq j k)) [
  | inl same ↦
      let jk = (bytes_eq_iff j k).0 same in
      let fe : f ≡ e = ground (arith, same, h) in
      rw same (ap₂ (λ x y. size_of x y + total m) (sym jk) (sym fe))
  | inr differ ↦
      let rest = total-insert_same k e u t m (ground (arith, differ, h)) in rw differ (omega arith)
]

total-remove :
    (k : Bytes) (e : Entry) (u : ℕ) (m : Entries)
    → lookup k m ≡ some (e, u)
    → size_of k e + total (remove k m) ≡ total m
unfolding remove lookup
total-remove k e u [] h = absurd (ground (arith, h))
total-remove k e u ((j, (f, v)) ∷ m) h = elim (Bool-cases (bytes_eq j k)) [
  | inl same ↦
      let jk = (bytes_eq_iff j k).0 same in
      let fe : f ≡ e = ground (arith, same, h) in
      rw same (ap₂ (λ x y. size_of x y + total m) (sym jk) (sym fe))
  | inr differ ↦
      let rest = total-remove k e u m (ground (arith, differ, h)) in rw differ (omega arith)
]

-- The entries and the order name each other, and the bytes are those of the entries.
pub record IsLinked (entries : Entries) (order : Order) (bytes : ℕ) : Type 0 where
  pub distinct : IsDistinct entries
  pub ascending : IsAscending order
  pub counted : bytes ≡ total entries
  pub link : Link (λ k. lookup k entries) (λ u. lookup u order)

module _ (tick : ℕ) (old : Bytes) (order : Order) (entries : Entries) (bytes : ℕ) where
  -- The least tick's key has an entry with that tick.
  head-linked :
      IsLinked entries ((tick, old) ∷ order) bytes
      → (e : Entry) × (lookup old entries ≡ some (e, tick))
  unfolding lookup
  head-linked h = (h.link old tick).0 (ground arith)

  pub pop-IsLinked :
      (e : Entry)
      → IsLinked entries ((tick, old) ∷ order) bytes
      → lookup old entries ≡ some (e, tick)
      → IsLinked (remove old entries) order (bytes - size_of old e)
  unfolding lookup
  pop-IsLinked e h has = record {
    distinct = remove-IsDistinct old entries h.distinct;
    ascending = h.ascending.1;
    counted = (let c = h.counted in let r = total-remove old e tick entries has in omega arith);
    link =
        unlink (λ k. lookup k entries) (λ k. lookup k (remove old entries))
          (λ u. lookup u ((tick, old) ∷ order)) (λ u. lookup u order) old tick e h.link has
          (λ j. lookup-remove old j entries h.distinct)
          (λ v. elim (Bool-cases (tick == v)) [
            | inl e_v ↦
                let gone = lookup-Below tick v order (ground (arith, e_v)) h.ascending.0 in
                ground (arith, e_v, gone)
            | inr ne_v ↦ ground (arith, ne_v)
          ]);
  }

-- What eviction keeps is linked, and has every property that dropping the key of the least tick
-- keeps.
module _ {κ} (P : Order → Entries → ℕ → Type κ)
    (keeps : (tick : ℕ) (old : Bytes) (order : Order) (entries : Entries) (bytes : ℕ) (e : Entry)
      → IsLinked entries ((tick, old) ∷ order) bytes
      → lookup old entries ≡ some (e, tick)
      → P ((tick, old) ∷ order) entries bytes
      → P order (remove old entries) (bytes - size_of old e)) where
  pub evict-keeps :
      (max_bytes size : ℕ) (order : Order) (entries : Entries) (bytes : ℕ)
      → IsLinked entries order bytes
      → P order entries bytes
      → IsLinked
          (evict max_bytes size order entries bytes).1
          (evict max_bytes size order entries bytes).0
          (evict max_bytes size order entries bytes).2
        × P
            (evict max_bytes size order entries bytes).0
            (evict max_bytes size order entries bytes).1
            (evict max_bytes size order entries bytes).2
  unfolding evict
  evict-keeps max_bytes size [] entries bytes h p = (h, p)
  evict-keeps max_bytes size ((tick, old) ∷ order) entries bytes h p =
      let (e, has) = head-linked tick old order entries bytes h in
      elim (Bool-cases (ltb max_bytes (bytes + size))) [
        | inr stop ↦ rw stop (h, p)
        | inl more ↦
            rw (more, has)
              (evict-keeps max_bytes size order (remove old entries) (bytes - size_of old e)
                (pop-IsLinked tick old order entries bytes e h has)
                (keeps tick old order entries bytes e h has p))
      ]

-- No entry is without a tick.
unordered-total :
    (entries : Entries) → Link (λ k. lookup k entries) (λ u. lookup u []) → total entries ≡ 0
unfolding lookup
unordered-total [] link = refl
unordered-total ((k, (e, u)) ∷ m) link =
    absurd (let held = (link k u).1 (e, rw (bytes_eq_refl k) refl) in ground (arith, held))

-- Eviction makes room.
pub evict-fits :
    (max_bytes size : ℕ) (order : Order) (entries : Entries) (bytes : ℕ)
    → size ≤ max_bytes
    → IsLinked entries order bytes
    → (evict max_bytes size order entries bytes).2 + size ≤ max_bytes
unfolding evict
evict-fits max_bytes size [] entries bytes le h =
    let c = h.counted in let z = unordered-total entries h.link in omega arith
evict-fits max_bytes size ((tick, old) ∷ order) entries bytes le h =
    let (e, has) = head-linked tick old order entries bytes h in
    elim (Bool-cases (ltb max_bytes (bytes + size))) [
      | inr stop ↦ rw stop (ground (arith, stop))
      | inl more ↦
          rw (more, has)
            (evict-fits max_bytes size order (remove old entries) (bytes - size_of old e) le
              (pop-IsLinked tick old order entries bytes e h has))
    ]
