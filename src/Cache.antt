-- ===== src/Cache.antt =====
-- The response cache of crates/cc-gateway/src/cache.rs: entries of one corpus digest, within a byte
-- bound, the least recently used evicted first. An `Instant` and a `Duration` are numbers of
-- nanoseconds; the lock is held through a whole call, so a run is a sequence of calls. The tick
-- counts the uses and is taken not to reach 2^64.
pub mod Link
pub mod Evict
pub mod Invariant
pub mod WellFormed
pub mod Recency
pub mod Answers
pub mod Served
pub mod Generations
mod Tests
use clockchain.Prelude.{
  ℕ, suc, ◌+◌, ◌-◌, Bool, true, false, not, ◌||◌, Option, none, some, List, [], ◌∷◌, ltb, leb, ◌==◌,
  if◌then◌else◌, length, nat_key, Bytes, bytes_eq, bytes_key,
}
use clockchain.Prelude.Table.{lookup, insert, remove, contains_key}
use clockchain.Prelude.Ordered.{map_insert}

pub record Entry : Type 0 where
  pub status : ℕ
  pub body : Bytes

abbrev pub Entries : Type 0
Entries = List (Bytes × (Entry × ℕ))

-- The ticks in ascending order, each with its key.
abbrev pub Order : Type 0
Order = List (ℕ × Bytes)

pub record Inner : Type 0 where
  pub generation : Option (Bytes × ℕ)
  pub entries : Entries
  pub order : Order
  pub tick : ℕ
  pub bytes : ℕ

pub record Cache : Type 0 where
  pub freshness : ℕ
  pub max_bytes : ℕ
  pub inner : Inner

unfoldable pub clear : Inner → Inner
clear i = record i { entries = []; order = []; bytes = 0 }

-- The use of `key` at a new tick; the key's earlier tick, if it is held, leaves the order.
unfoldable pub touch : Inner → Bytes → Inner
touch i key =
    let tick = i.tick + 1 in
    elim (lookup key i.entries) [
      | some (entry, used) ↦ record i {
        entries = insert key (entry, tick) i.entries;
        order = map_insert tick key (remove used i.order);
        tick = tick;
      }
      | none ↦ record i { order = map_insert tick key i.order; tick = tick }
    ]

unfoldable pub new : ℕ → ℕ → Cache
new freshness max_bytes = record {
  freshness = freshness;
  max_bytes = max_bytes;
  inner = record { generation = none; entries = []; order = []; tick = 0; bytes = 0 };
}

unfoldable pub fresh_digest : Cache → ℕ → Option Bytes
fresh_digest c now = elim c.inner.generation [
  | some (d, at_) ↦ if ltb (now - at_) c.freshness then some d else none
  | none ↦ none
]

unfoldable pub observe : Cache → Bytes → ℕ → Cache
unfolding clear
observe c digest requested =
    let started = record c {
      inner = clear (record c.inner { generation = some (digest, requested) });
    } in
    elim c.inner.generation [
      | some (d, at_) ↦
          if ltb requested at_
          then c
          else if bytes_eq d digest
          then record c { inner = record c.inner { generation = some (d, requested) } }
          else started
      | none ↦ started
    ]

-- `matches!(&inner.generation, Some((d, _)) if d == digest)`
unfoldable pub is_current : Inner → Bytes → Bool
is_current i digest = elim i.generation [ some (d, _) ↦ bytes_eq d digest | none ↦ false ]

unfoldable pub get : Cache → Bytes → Bytes → Cache × Option Entry
unfolding touch
get c digest key =
    if not (is_current c.inner digest) then (c, none) else elim (lookup key c.inner.entries) [
      | none ↦ (c, none)
      | some (entry, _) ↦ (record c { inner = touch c.inner key }, some entry)
    ]

-- `key.len() + body.len()`
abbrev pub size_of : Bytes → Entry → ℕ
size_of key entry = length key + length entry.body

-- The `while` loop of `put`, on the order that it pops.
unfoldable pub evict : ℕ → ℕ → Order → Entries → ℕ → Order × Entries × ℕ
evict max_bytes size [] entries bytes = ([], entries, bytes)
evict max_bytes size ((tick, old) ∷ order) entries bytes =
    let rest : Order × Entries × ℕ = elim (lookup old entries) [
      | none ↦ evict max_bytes size order entries bytes
      | some (e, _) ↦ evict max_bytes size order (remove old entries) (bytes - size_of old e)
    ] in
    if ltb max_bytes (bytes + size) then rest else ((tick, old) ∷ order, entries, bytes)

-- What `put` does once it is to keep the entry.
unfoldable pub store : Cache → Bytes → Entry → Cache
unfolding touch
store c key entry =
    let size = size_of key entry in
    let (order, entries, bytes) =
      evict c.max_bytes size c.inner.order c.inner.entries c.inner.bytes in
    record c {
      inner =
          touch
            (record c.inner {
              entries = insert key (entry, 0) entries;
              order = order;
              bytes = bytes + size;
            })
            key;
    }

unfoldable pub put : Cache → Bytes → Bytes → Entry → Cache
put c digest key entry =
    if not (is_current c.inner digest)
    then c
    else if contains_key key c.inner.entries || ltb c.max_bytes (size_of key entry)
    then c
    else store c key entry
