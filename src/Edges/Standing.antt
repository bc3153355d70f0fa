-- ===== src/Edges/Standing.antt =====
-- What the statuses of crates/cc-ledger/src/v1.rs say: which events are valid, and the states of a
-- list of parents.
use clockchain.Prelude.{
  ◌≡◌, refl, sym, subst, inl, inr, Bool, true, false, ◌||◌, Option, none, some, List, [], ◌∷◌,
  is_empty, arith, ◌==◌, ==_iff, Bool-cases, if◌then◌else◌, nat_key,
}
use clockchain.Prelude.Table.{lookup, contains_key}
use clockchain.Prelude.Ordered.{map_insert, lookup-map_insert, set_contains}
use clockchain.Wire.{Hash}
use clockchain.Ledger.{Events}
use clockchain.Ledger.Order.{key_held}
use clockchain.Edges.{State, Status, Statuses, is_valid, is_invalid, is_pending, absent}
use clockchain.Edges.Evaluate.{states_of, any_state}

-- Whether an event is classified as valid.
abbrev pub accepted : Statuses → Hash → Bool
accepted out x = elim (lookup x out) [ none ↦ false | some status ↦ is_valid status.state ]

-- A status is found, and a valid one proves something.
abbrev pub Outcome : Option Status → Type 0 → Type 0
Outcome x P = (status : Status) × (x ≡ some status) × (is_valid status.state ≡ true → P)

pub contains_key-put :
    (id x : Hash) (status : Status) (out : Statuses)
    → contains_key x (map_insert id status out) ≡ (id == x || contains_key x out)
contains_key-put id x status out = ground (arith, lookup-map_insert id x status out)

pub accepted-put :
    (id x : Hash) (status : Status) (out : Statuses)
    → accepted (map_insert id status out) x
      ≡ (if id == x then is_valid status.state else accepted out x)
accepted-put id x status out = ground (arith, lookup-map_insert id x status out)

pub accepted-contains_key :
    (out : Statuses) (x : Hash) → accepted out x ≡ true → contains_key x out ≡ true
accepted-contains_key out x h = ground (arith, h)

pub absent-known :
    (ps : List Hash) (all : Events) (p : Hash)
    → is_empty (absent ps all) ≡ true
    → set_contains p ps ≡ true
    → contains_key p all ≡ true
unfolding absent set_contains
absent-known [] all p h m = absurd (ground (arith, m))
absent-known (q ∷ ps) all p h m = elim (Bool-cases (contains_key q all)) [
  | inr gone ↦ absurd (let h' = rw gone at h in ground (arith, h'))
  | inl known ↦
      let h' = rw known at h in
      elim (Bool-cases (p == q)) [
        | inl same ↦
            subst (λ (x : Hash). contains_key x all ≡ true) (sym ((==_iff p q).0 same)) known
        | inr differ ↦ absent-known ps all p h' (ground (arith, m, differ))
      ]
]

state_valid : (s : State) → is_invalid s ≡ false → is_pending s ≡ false → is_valid s ≡ true
state_valid State.valid a b = refl
state_valid State.invalid a b = absurd (ground (arith, a))
state_valid State.pending a b = absurd (ground (arith, b))

pub states_of-Returns :
    (out : Statuses) (ps : List Hash)
    → ((p : Hash) → set_contains p ps ≡ true → contains_key p out ≡ true)
    → (states : List State) × (states_of out ps ≡ some states)
      × (any_state is_invalid states ≡ false
          → any_state is_pending states ≡ false
          → (p : Hash) → set_contains p ps ≡ true
          → accepted out p ≡ true)
unfolding states_of any_state set_contains
states_of-Returns out [] known = ([], refl, λ a b p m. absurd (ground (arith, m)))
states_of-Returns out (q ∷ ps) known =
    let (status, held) = key_held q out (known q (ground arith)) in
    let (states, eq, all) = states_of-Returns out ps (λ p m. known p (ground (arith, m))) in
    (
      status.state ∷ states,
      rw held (rw eq refl),
      λ a b p m. elim (Bool-cases (p == q)) [
        | inl same ↦
            let ok = state_valid status.state (ground (arith, a)) (ground (arith, b)) in
            let now : accepted out q ≡ true = ground (arith, held, ok) in
            subst (λ (x : Hash). accepted out x ≡ true) (sym ((==_iff p q).0 same)) now
        | inr differ ↦ all (ground (arith, a)) (ground (arith, b)) p (ground (arith, m, differ))
      ],
    )
