-- ===== src/Ledger.antt =====
-- Readings of the admitted events in crates/cc-ledger/src/v1/authority.rs and projection.rs: the
-- causal cone of an event, the revision that each event selects, and the body of an event. A map is
-- a list in the order of its keys. An index into a map or a vector is an option whose `none` is the
-- panic; a loop that does not end runs out of its fuel, which is `none` too.
pub mod Authority
pub mod Derive
pub mod Search
pub mod Cone
pub mod Order
pub mod Missing
mod Rounds
mod Schedule
pub mod Selections
pub mod Bodies
pub mod Totals
mod Rulings
mod Effects
mod Suppression
mod Active
pub mod Governed
mod Lineage
mod Trace
pub mod Derived
pub mod Places
pub mod Parts
pub mod Where
mod Tests
mod Contest
use clockchain.Prelude.{
  ℕ, zero, suc, ◌+◌, ◌<◌, Bool, true, false, not, ◌||◌, Option, none, some, List, [], ◌∷◌, length,
  ltb, nat_key,
}
use clockchain.Prelude.Table.{lookup, contains_key}
use clockchain.Prelude.Ordered.{map_insert, set_contains}
use clockchain.Wire.{Hash}
use clockchain.Wire.Event.{AssertedTime, Selection, Payload}
use clockchain.Wire.Signed.{Crypto, Signed, revision_id}

-- `BTreeMap<Hash, Signed>`.
abbrev pub Events : Type 0
Events = List (Hash × Signed)

infixl 5 ◌>>=◌
abbrev pub ◌>>=◌ {ℓ κ} : {A : Type ℓ} {B : Type κ} → Option A → (A → Option B) → Option B
none >>= f = none
some a >>= f = f a

abbrev pub parents_of : Signed → List Hash
parents_of e = e.envelope.parents

-- A vector as a stack, its last element first.
unfoldable pub push_all : List Hash → List Hash → List Hash
push_all [] todo = todo
push_all (p ∷ ps) todo = push_all ps (p ∷ todo)

-- The loop of `cone`.
unfoldable pub cone_loop : ℕ → Events → List Hash → Events → Option Events
cone_loop zero all todo found = none
cone_loop (suc fuel) all [] found = some found
cone_loop (suc fuel) all (id ∷ todo) found = elim (contains_key id found) [
  | true ↦ cone_loop fuel all todo found
  | false ↦ elim (lookup id all) [
    | none ↦ none
    | some e ↦ cone_loop fuel all (push_all (parents_of e) todo) (map_insert id e found)
  ]
]

-- How many parents the events have together.
unfoldable pub links : Events → ℕ
links [] = 0
links ((_, e) ∷ all) = length (parents_of e) + links all

-- Each round pops one id: the head, or a parent of an event that is found for the first time.
unfoldable pub cone : Events → Hash → Option Events
unfolding cone_loop links
cone all head = cone_loop (suc (suc (links all))) all (head ∷ []) []

-- What an event does to its subject's body.
pub data Choice : Type 0 where
  create : (body : Hash) → Choice
  choose : (revision : Hash) → Choice
  inherit : Choice

unfoldable pub choice_of : Payload → Choice
choice_of (Payload.genesis _ b _) = create b
choice_of (Payload.correction b _) = create b
choice_of (Payload.resolve (Selection.merged_body b) _ _) = create b
choice_of (Payload.resolve (Selection.revision r) _ _) = choose r
choice_of _ = inherit

abbrev pub unwrap_or : Option Hash → Hash → Hash
unwrap_or none d = d
unwrap_or (some h) d = h

abbrev pub first : List Hash → Option Hash
first [] = none
first (p ∷ _) = some p

pub record Revision : Type 0 where
  pub id : Hash
  pub subject : Hash
  pub creating_event : Hash
  pub body : Hash
  pub asserted_time : Option AssertedTime

abbrev pub body_of : Option Revision → Option Hash
body_of none = none
body_of (some v) = some v.body

-- The loops that take an event once its parents are taken, in rounds over all events until each is
-- taken: `while out.len() < valid.len() { for (&id, e) in valid { … } }`.
unfoldable pub any_absent : {S : Type 0} → (Hash → S → Bool) → List Hash → S → Bool
any_absent taken [] s = false
any_absent taken (p ∷ ps) s = not (taken p s) || any_absent taken ps s

module _ {S : Type 0} (taken : Hash → S → Bool) (take_event : Hash → Signed → S → Option S) where
  unfoldable pub round : Events → S → Option S
  unfolding any_absent
  round [] s = some s
  round ((id, e) ∷ rest) s = elim (taken id s || any_absent taken (parents_of e) s) [
    | true ↦ round rest s
    | false ↦ elim (take_event id e s) [ none ↦ none | some s' ↦ round rest s' ]
  ]

  unfoldable pub rounds : (S → ℕ) → ℕ → Events → S → Option S
  unfolding round
  rounds size zero valid s = none
  rounds size (suc fuel) valid s = elim (ltb (size s) (length valid)) [
    | true ↦ elim (round valid s) [ none ↦ none | some s' ↦ rounds size fuel valid s' ]
    | false ↦ some s
  ]

  -- A round takes an event at least, so that one more round than events is enough.
  unfoldable pub schedule : (S → ℕ) → Events → S → Option S
  unfolding rounds
  schedule size valid s = rounds size (suc (length valid)) valid s

module _ {SecretKey : Type 0} (crypto : Crypto SecretKey) where
  -- The revision that an event would create.
  abbrev pub own_revision : Hash → Signed → Hash
  own_revision id e = revision_id crypto (unwrap_or e.envelope.subject id) id

  unfoldable pub selected : Hash → Signed → Choice → List (Hash × Hash) → Option Hash
  selected id e (create _) out = some (own_revision id e)
  selected id e (choose r) out = some r
  selected id e inherit out = do p ← first (parents_of e); lookup p out

  unfoldable pub select : Hash → Signed → List (Hash × Hash) → Option (List (Hash × Hash))
  unfolding selected choice_of
  select id e out = do
    r ← selected id e (choice_of e.envelope.payload) out
    some (map_insert id r out)

  unfoldable pub selections : Events → Option (List (Hash × Hash))
  selections valid = schedule contains_key select length valid []

  unfoldable pub revision_of : Hash → Signed → Hash → Revision
  revision_of id e b = record {
    id = own_revision id e;
    subject = unwrap_or e.envelope.subject id;
    creating_event = id;
    body = b;
    asserted_time = e.envelope.asserted_time;
  }

  unfoldable pub collect : Hash → Signed → Choice → List (Hash × Revision) → List (Hash × Revision)
  unfolding revision_of
  collect id e (create b) out = map_insert (own_revision id e) (revision_of id e b) out
  collect id e (choose _) out = out
  collect id e inherit out = out

  unfoldable pub revisions_from : Events → List (Hash × Revision) → List (Hash × Revision)
  unfolding collect choice_of
  revisions_from [] out = out
  revisions_from ((id, e) ∷ rest) out =
      revisions_from rest (collect id e (choice_of e.envelope.payload) out)

  unfoldable pub revisions : Events → List (Hash × Revision)
  unfolding revisions_from
  revisions valid = revisions_from valid []

  -- The loop of `body`, which follows the first parents.
  unfoldable pub body_loop : ℕ → Events → Hash → Option Hash
  unfolding choice_of revisions
  body_loop zero all id = none
  body_loop (suc fuel) all id = do
    e ← lookup id all
    elim (choice_of e.envelope.payload) [
      | create b ↦ some b
      | choose r ↦ body_of (lookup r (revisions all))
      | inherit ↦ elim (first (parents_of e)) [ none ↦ none | some p ↦ body_loop fuel all p ]
    ]

  unfoldable pub body : Events → Hash → Option Hash
  unfolding body_loop
  body all id = body_loop (suc (length all)) all id
