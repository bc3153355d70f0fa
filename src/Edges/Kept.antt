-- ===== src/Edges/Kept.antt =====
-- What the loops of `classify` in crates/cc-ledger/src/v1/edges.rs keep, and how many events are left.
use clockchain.Prelude.{
  ℕ, ◌+◌, ◌≤◌, ◌<◌, ◌≡◌, ap, ◌∙◌, sym, inl, inr, true, false, some, List, [], ◌∷◌, arith, ◌==◌,
  ==_iff, Bool-cases, Option-cases, if◌then◌else◌, length, nat_key,
}
use clockchain.Prelude.Table.{lookup, contains_key}
use clockchain.Prelude.Ordered.{map_insert, lookup-map_insert, set_contains}
use clockchain.Wire.{Hash}
use clockchain.Edges.{Status, Statuses}

-- What is classified stays so.
abbrev pub Keeps : Statuses → Statuses → Type 0
Keeps out out' =
    (x : Hash) (status : Status) → lookup x out ≡ some status → lookup x out' ≡ some status

pub Keeps-contains_key :
    (out out' : Statuses) (x : Hash)
    → Keeps out out'
    → contains_key x out ≡ true
    → contains_key x out' ≡ true
Keeps-contains_key out out' x keeps h = elim (Option-cases (lookup x out)) [
  | inl gone ↦ absurd (ground (arith, gone, h))
  | inr (status, at_) ↦ let at' = keeps x status at_ in ground (arith, at')
]

pub put-Keeps :
    (id : Hash) (status : Status) (out : Statuses)
    → contains_key id out ≡ false
    → Keeps out (map_insert id status out)
put-Keeps id status out new x old at_ = elim (Bool-cases (id == x)) [
  | inl same ↦
      let gone = ap (λ k. contains_key k out) (sym ((==_iff id x).0 same)) ∙ new in
      absurd (ground (arith, gone, at_))
  | inr differ ↦
      let put = lookup-map_insert id x status out in let put' = rw differ at put in put' ∙ at_
]

-- How many events have no status.
abbrev pub unclassified : List Hash → Statuses → ℕ
unclassified [] out = 0
unclassified (id ∷ ids) out = (if contains_key id out then 0 else 1) + unclassified ids out

unclassified_le :
    (ids : List Hash) (out out' : Statuses)
    → Keeps out out'
    → unclassified ids out' ≤ unclassified ids out
unclassified_le [] out out' keeps = omega arith
unclassified_le (id ∷ ids) out out' keeps =
    let rest = unclassified_le ids out out' keeps in
    elim (Bool-cases (contains_key id out)) [
      | inl known ↦
          let known' = Keeps-contains_key out out' id keeps known in
          ground (arith, known, known', rest)
      | inr new ↦ ground (arith, new, rest)
    ]

pub unclassified_lt :
    (ids : List Hash) (out out' : Statuses) (x : Hash)
    → Keeps out out'
    → set_contains x ids ≡ true
    → contains_key x out ≡ false
    → contains_key x out' ≡ true
    → unclassified ids out' < unclassified ids out
unfolding set_contains
unclassified_lt [] out out' x keeps m old now = absurd (ground (arith, m))
unclassified_lt (id ∷ ids) out out' x keeps m old now = elim (Bool-cases (x == id)) [
  | inl same ↦
      let x_eq = (==_iff x id).0 same in
      let rest = unclassified_le ids out out' keeps in
      let old' = ap (λ k. contains_key k out) (sym x_eq) ∙ old in
      let now' = ap (λ k. contains_key k out') (sym x_eq) ∙ now in ground (arith, old', now', rest)
  | inr differ ↦
      let rest = unclassified_lt ids out out' x keeps (ground (arith, m, differ)) old now in
      elim (Bool-cases (contains_key id out)) [
        | inl known ↦
            let known' = Keeps-contains_key out out' id keeps known in
            ground (arith, known, known', rest)
        | inr new ↦ ground (arith, new, rest)
      ]
]

pub unclassified-length : (ids : List Hash) (out : Statuses) → unclassified ids out ≤ length ids
unclassified-length [] out = omega arith
unclassified-length (id ∷ ids) out = ground (arith, unclassified-length ids out)
