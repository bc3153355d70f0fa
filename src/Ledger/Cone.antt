-- ===== src/Ledger/Cone.antt =====
-- The cone of an event, `cone` of crates/cc-ledger/src/v1/authority.rs, holds exactly the event and
-- what it descends from.
use clockchain.Prelude.{
  ℕ, zero, suc, ◌+◌, ◌<◌, ◌≡◌, ◌↔◌, refl, ap, ◌∙◌, sym, subst, inl, inr, true, false, Option, some,
  List, [], ◌∷◌, arith, ◌==◌, ==_iff, Bool-cases, Option-cases, length, nat_key,
}
use clockchain.Prelude.Table.{lookup, contains_key}
use clockchain.Prelude.Ordered.{IsAscending, map_insert, set_contains}
use clockchain.Wire.{Hash}
use clockchain.Wire.Signed.{Signed}
use clockchain.Ledger.{Events, parents_of, push_all, cone_loop, links, cone}
use clockchain.Ledger.Search.{
  Reaches, here, there, IsClosed, length-push_all, left, left_nil, left-insert, IsSearch,
  skip-IsSearch, visit-IsSearch,
}

Reaches-contains_key :
    (all : Events) (head x : Hash)
    → IsClosed all
    → contains_key head all ≡ true
    → Reaches all head x
    → contains_key x all ≡ true
Reaches-contains_key all head _ closed known here = known
Reaches-contains_key all head _ closed known (there {x} {e} {p} r h m) = closed x e p h m

contains_key-some :
    (x : Hash) (m : Events) → contains_key x m ≡ true → (e : Signed) × (lookup x m ≡ some e)
contains_key-some x m h = elim (Option-cases (lookup x m)) [
  | inl gone ↦ absurd (ground (arith, gone, h))
  | inr found ↦ found
]

head_mem : (x : Hash) (xs : List Hash) → set_contains x (x ∷ xs) ≡ true
unfolding set_contains
head_mem x xs = ground arith

cone_loop_old :
    (fuel : ℕ) (all : Events) (id : Hash) (todo : List Hash) (found : Events)
    → contains_key id found ≡ true
    → cone_loop (suc fuel) all (id ∷ todo) found ≡ cone_loop fuel all todo found
unfolding cone_loop
cone_loop_old fuel all id todo found old = rw (old, cone_loop) refl

cone_loop_new :
    (fuel : ℕ) (all : Events) (id : Hash) (todo : List Hash) (found : Events) (e : Signed)
    → contains_key id found ≡ false
    → lookup id all ≡ some e
    → cone_loop (suc fuel) all (id ∷ todo) found
      ≡ cone_loop fuel all (push_all (parents_of e) todo) (map_insert id e found)
unfolding cone_loop
cone_loop_new fuel all id todo found e new known = rw (new, cone_loop) (rw (known, cone_loop) refl)

cone_loop_lem :
    (fuel : ℕ) (all : Events) (head : Hash) (todo : List Hash) (found : Events)
    → ((x : Hash) → Reaches all head x → contains_key x all ≡ true)
    → IsSearch all head todo found
    → length todo + left all found < fuel
    → (m : Events) × (cone_loop fuel all todo found ≡ some m) × IsSearch all head [] m
unfolding cone_loop
cone_loop_lem zero all head todo found known s h = absurd (omega arith)
cone_loop_lem (suc fuel) all head [] found known s h = (found, refl, s)
cone_loop_lem (suc fuel) all head (id ∷ todo) found known s h =
    elim (Bool-cases (contains_key id found)) [
      | inl old ↦
          let (m, e, t) =
            cone_loop_lem fuel all head todo found known
              (skip-IsSearch all head id todo found old s) (omega arith) in
          (m, cone_loop_old fuel all id todo found old ∙ e, t)
      | inr new ↦
          let reached = s.todo_reached id (head_mem id todo) in
          let (e, at_) = contains_key-some id all (known id reached) in
          let fewer = left-insert all found id e at_ new in
          let more = length-push_all (parents_of e) todo in
          let (m, eq, t) =
            cone_loop_lem fuel all head (push_all (parents_of e) todo) (map_insert id e found) known
              (visit-IsSearch all head id todo found e at_ s) (omega arith) in
          (m, cone_loop_new fuel all id todo found e new at_ ∙ eq, t)
    ]

start-IsSearch : (all : Events) (head : Hash) → IsSearch all head (head ∷ []) []
unfolding set_contains lookup
start-IsSearch all head = record {
  todo_reached = λ x h.
      let same : (x == head) ≡ true = ground (arith, h) in
      subst (Reaches all head) (sym ((==_iff x head).0 same)) here;
  found_reached = λ x h. absurd (ground (arith, h));
  agrees = λ x e h. absurd (ground (arith, h));
  followed = λ x e p h m. absurd (ground (arith, h));
  started = ground arith;
  ascending = tt;
}

-- Where nothing is left to do, the parents of what was found were found.
Reaches-found :
    (all : Events) (head : Hash) (m : Events)
    → IsSearch all head [] m
    → (x : Hash) → Reaches all head x
    → contains_key x m ≡ true
unfolding set_contains
Reaches-found all head m s _ here = ground (arith, s.started)
Reaches-found all head m s _ (there {x} {e} {p} r h parent) =
    let (d, at_) = contains_key-some x m (Reaches-found all head m s x r) in
    let same : ◌≡◌ {A = Option Signed} (some d) (some e) = sym (s.agrees x d at_) ∙ h in
    let d_eq : d ≡ e = ground (arith, same) in
    let parent' : set_contains p (parents_of d) ≡ true =
      ap (λ (t : Signed). set_contains p (parents_of t)) d_eq ∙ parent in
    ground (arith, s.followed x d p at_ parent')

-- The cone of an event from which only known events are reached.
pub cone-found :
    (all : Events) (head : Hash)
    → ((x : Hash) → Reaches all head x → contains_key x all ≡ true)
    → (m : Events) × (cone all head ≡ some m)
      × ((x : Hash) → (contains_key x m ≡ true) ↔ Reaches all head x)
      × ((x : Hash) → contains_key x m ≡ true → lookup x m ≡ lookup x all)
      × IsAscending m
unfolding cone
cone-found all head known =
    let (m, e, s) =
      cone_loop_lem (suc (suc (links all))) all head (head ∷ []) [] known (start-IsSearch all head)
        (omega (arith, left_nil all)) in
    (
      m,
      e,
      λ x. (s.found_reached x, Reaches-found all head m s x),
      λ x h. let (d, at_) = contains_key-some x m h in at_ ∙ sym (s.agrees x d at_),
      s.ascending,
    )

-- If the parents of every known event are known, the cone of a known event is found; it holds exactly
-- what is reached from the event by parents, each with its own event.
pub cone-Reaches :
    (all : Events) (head : Hash)
    → IsClosed all
    → contains_key head all ≡ true
    → (m : Events) × (cone all head ≡ some m)
      × ((x : Hash) → (contains_key x m ≡ true) ↔ Reaches all head x)
      × ((x : Hash) → contains_key x m ≡ true → lookup x m ≡ lookup x all)
cone-Reaches all head closed known =
    let (m, e, reached, agrees, _) =
      cone-found all head (λ x r. Reaches-contains_key all head x closed known r) in
    (m, e, reached, agrees)
