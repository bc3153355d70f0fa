-- ===== src/Ledger/Search.antt =====
-- What the loop of `cone` in crates/cc-ledger/src/v1/authority.rs keeps, and what it has left.
use clockchain.Prelude.{
  ℕ, ◌+◌, ◌≤◌, ◌≡◌, refl, ap, ◌∙◌, sym, subst, inl, inr, true, false, ◌||◌, Option, some, List, [],
  ◌∷◌, arith, ◌==◌, ==_iff, Bool-cases, if◌then◌else◌, length, nat_key,
}
use clockchain.Prelude.Table.{lookup, contains_key}
use clockchain.Prelude.Ordered.{
  map_insert, lookup-map_insert, map_insert-IsAscending, IsAscending, set_contains,
}
use clockchain.Wire.{Hash}
use clockchain.Wire.Signed.{Signed}
use clockchain.Ledger.{Events, parents_of, push_all, links}

-- From the head by parents.
pub data Reaches (all : Events) (head : Hash) : Hash → Type 0 where
  here : Reaches all head head
  there :
      {x : Hash} {e : Signed} {p : Hash}
      → Reaches all head x
      → lookup x all ≡ some e
      → set_contains p (parents_of e) ≡ true
      → Reaches all head p

-- Every parent is known.
abbrev pub IsClosed : Events → Type 0
IsClosed all =
    (x : Hash) (e : Signed) (p : Hash)
    → lookup x all ≡ some e
    → set_contains p (parents_of e) ≡ true
    → contains_key p all ≡ true

set_contains-push_all :
    (x : Hash) (ps todo : List Hash)
    → set_contains x (push_all ps todo) ≡ (set_contains x ps || set_contains x todo)
unfolding push_all set_contains
set_contains-push_all x [] todo = refl
set_contains-push_all x (p ∷ ps) todo = ground (arith, set_contains-push_all x ps (p ∷ todo))

pub length-push_all : (ps todo : List Hash) → length (push_all ps todo) ≡ length ps + length todo
unfolding push_all
length-push_all [] todo = omega arith
length-push_all (p ∷ ps) todo = omega (arith, length-push_all ps (p ∷ todo))

-- The parents of the events that are not found yet.
pub left : Events → Events → ℕ
left [] found = 0
left ((id, e) ∷ all) found =
    (if contains_key id found then 0 else length (parents_of e)) + left all found

pub left_nil : (all : Events) → left all [] ≡ links all
unfolding left links lookup
left_nil [] = refl
left_nil ((id, e) ∷ all) = omega (arith, left_nil all)

contains_key-map_insert :
    (j k : Hash) (e : Signed) (m : Events)
    → contains_key j (map_insert k e m) ≡ (k == j || contains_key j m)
contains_key-map_insert j k e m = ground (arith, lookup-map_insert k j e m)

left-insert_le :
    (all found : Events) (k : Hash) (e : Signed) → left all (map_insert k e found) ≤ left all found
unfolding left
left-insert_le [] found k e = omega arith
left-insert_le ((id, d) ∷ all) found k e =
    ground (arith, contains_key-map_insert id k e found, left-insert_le all found k e)

-- An event that is found for the first time takes its parents away from what is left.
pub left-insert :
    (all found : Events) (k : Hash) (e : Signed)
    → lookup k all ≡ some e
    → contains_key k found ≡ false
    → left all (map_insert k e found) + length (parents_of e) ≤ left all found
unfolding left lookup
left-insert [] found k e h new = absurd (ground (arith, h))
left-insert ((id, d) ∷ all) found k e h new = elim (Bool-cases (id == k)) [
  | inl same ↦
      let h' = rw same at h in
      let d_eq : ◌≡◌ {A = Option Signed} (some d) (some e) = h' in
      let id_eq = (==_iff id k).0 same in
      let size : length (parents_of d) ≡ length (parents_of e) = ground (arith, d_eq) in
      ground (arith, contains_key-map_insert id k e found, left-insert_le all found k e, id_eq)
  | inr differ ↦
      let h' = rw differ at h in
      ground (arith, contains_key-map_insert id k e found, left-insert all found k e h' new)
]

pub record IsSearch (all : Events) (head : Hash) (todo : List Hash) (found : Events) : Type 0 where
  pub todo_reached : (x : Hash) → set_contains x todo ≡ true → Reaches all head x
  pub found_reached : (x : Hash) → contains_key x found ≡ true → Reaches all head x
  pub agrees : (x : Hash) (e : Signed) → lookup x found ≡ some e → lookup x all ≡ some e
  pub followed :
      (x : Hash) (e : Signed) (p : Hash)
      → lookup x found ≡ some e
      → set_contains p (parents_of e) ≡ true
      → (contains_key p found || set_contains p todo) ≡ true
  pub started : (contains_key head found || set_contains head todo) ≡ true
  pub ascending : IsAscending found

module _ (all : Events) (head id : Hash) (todo : List Hash) (found : Events) where
  pub skip-IsSearch :
      contains_key id found ≡ true
      → IsSearch all head (id ∷ todo) found
      → IsSearch all head todo found
  unfolding set_contains
  skip-IsSearch old s = record {
    todo_reached = λ x h. s.todo_reached x (ground (arith, h));
    found_reached = s.found_reached;
    agrees = s.agrees;
    followed = λ x e p h m. ground (arith, s.followed x e p h m, old);
    started = ground (arith, s.started, old);
    ascending = s.ascending;
  }

  pub visit-IsSearch :
      (e : Signed)
      → lookup id all ≡ some e
      → IsSearch all head (id ∷ todo) found
      → IsSearch all head (push_all (parents_of e) todo) (map_insert id e found)
  unfolding set_contains
  visit-IsSearch e known s = record {
    todo_reached = λ x h.
        let pushed = set_contains-push_all x (parents_of e) todo in
        elim (Bool-cases (set_contains x (parents_of e))) [
          | inl parent ↦ there (s.todo_reached id (ground arith)) known parent
          | inr other ↦ s.todo_reached x (ground (arith, pushed, h, other))
        ];
    found_reached = λ x h. elim (Bool-cases (id == x)) [
      | inl same ↦
          subst (Reaches all head) ((==_iff id x).0 same) (s.todo_reached id (ground arith))
      | inr differ ↦
          s.found_reached x (ground (arith, contains_key-map_insert x id e found, h, differ))
    ];
    agrees = λ x d h.
        let put = lookup-map_insert id x e found in
        elim (Bool-cases (id == x)) [
          | inl same ↦
              let x_eq = (==_iff id x).0 same in
              let put' = rw same at put in
              let d_eq : ◌≡◌ {A = Option Signed} (some e) (some d) = sym put' ∙ h in
              ap (λ t. lookup t all) (sym x_eq) ∙ known ∙ d_eq
          | inr differ ↦ let put' = rw differ at put in s.agrees x d (sym put' ∙ h)
        ];
    followed = λ x d p h m.
        let put = lookup-map_insert id x e found in
        let pushed = set_contains-push_all p (parents_of e) todo in
        let kept = contains_key-map_insert p id e found in
        elim (Bool-cases (id == x)) [
          | inl same ↦
              let put' = rw same at put in
              let d_eq : ◌≡◌ {A = Option Signed} (some e) (some d) = sym put' ∙ h in
              let e_eq : e ≡ d = ground (arith, d_eq) in
              let parent : set_contains p (parents_of e) ≡ true =
                ap (λ (t : Signed). set_contains p (parents_of t)) e_eq ∙ m in
              ground (arith, kept, pushed, parent)
          | inr differ ↦
              let put' = rw differ at put in
              let old = s.followed x d p (sym put' ∙ h) m in ground (arith, kept, pushed, old)
        ];
    started =
        let pushed = set_contains-push_all head (parents_of e) todo in
        let kept = contains_key-map_insert head id e found in
        ground (arith, s.started, pushed, kept);
    ascending = map_insert-IsAscending id e found s.ascending;
  }
