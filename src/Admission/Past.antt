-- ===== src/Admission/Past.antt =====
-- The past of an event whose parents are valid, in `evaluate` of crates/cc-ledger/src/v1.rs: the
-- cones of the parents, and their union.
use clockchain.Prelude.{
  ℕ, ◌<◌, ◌≡◌, ◌↔◌, ◌⊎◌, refl, ap, ◌∙◌, sym, inl, inr, true, false, ◌||◌, Option, some, [], ◌∷◌,
  arith, ◌==◌, ==_iff, Bool-cases, Option-cases, length, nat_key,
}
use clockchain.Prelude.Table.{lookup, contains_key}
use clockchain.Prelude.Ordered.{
  map_insert, lookup-map_insert, IsAscending, map_insert-IsAscending, IsAscending-IsDistinct,
  set_contains,
}
use clockchain.Wire.{Hash}
use clockchain.Wire.Signed.{Crypto, Signed}
use clockchain.Ledger.{Events, parents_of, choice_of, choose, inherit, first, cone}
use clockchain.Wire.Event.{kind_of}
use clockchain.Ledger.Authority.{Authority, Grant}
use clockchain.Ledger.Derive.{derive}
use clockchain.Ledger.Search.{Reaches, here, there}
use clockchain.Ledger.Cone.{cone-found}
use clockchain.Ledger.Order.{Held, Held-self, key_held}
use clockchain.Ledger.Parts.{Acts, IsPart}
use clockchain.Edges.{Statuses, is_genesis, is_subject}
use clockchain.Admission.Revised.{IsMadeBy}
use clockchain.Ledger.{Revision}
use clockchain.Edges.Standing.{accepted}
use clockchain.Admission.{insert_all}

pub Reaches-trans :
    (all : Events) (a b c : Hash) → Reaches all a b → Reaches all b c → Reaches all a c
Reaches-trans all a b _ r here = r
Reaches-trans all a b _ r (there {x} s held m) = there (Reaches-trans all a b x r s) held m

module _ {SecretKey : Type 0} (crypto : Crypto SecretKey) (all : Events) where
  -- A revision that an event in the past of another makes.
  abbrev pub MadeInPast : Signed → Hash → Type 0
  MadeInPast e r =
      (p : Hash) × (v : Revision) × (set_contains p (parents_of e) ≡ true)
      × Reaches all p v.creating_event
      × IsMadeBy crypto all r v

  -- An event that keeps the body has a parent, and one that chooses a revision chooses one that is made.
  pub record HasBody (e : Signed) : Type 0 where
    pub rooted :
        choice_of e.envelope.payload ≡ inherit → (p : Hash) × (first (parents_of e) ≡ some p)
    pub chosen : (r : Hash) → choice_of e.envelope.payload ≡ choose r → MadeInPast e r

  -- The author of an event holds the grant that it names, and the grant is active in the authority
  -- that the past of the event gives.
  pub record IsAuthorized (e : Signed) : Type 0 where
    pub grant : Hash
    pub past : Events
    pub view : Authority
    pub given : Grant
    pub named : e.envelope.grant ≡ some grant
    pub within : (x : Hash) (f : Signed) → lookup x past ≡ some f → lookup x all ≡ some f
    pub reached :
        (x : Hash)
        → (contains_key x past ≡ true)
          ↔ ((p : Hash) × (set_contains p (parents_of e) ≡ true) × Reaches all p x)
    pub derives : derive crypto past ≡ some view
    pub active : set_contains grant view.active ≡ true
    pub held : lookup grant view.grants ≡ some given
    pub holds : given.holder ≡ e.envelope.author

  -- The statuses so far: of subject events, in the order in which they were found; the parents of a
  -- valid event are valid, and it acts under what its past makes.
  pub record IsAdmitted (rank : Hash → ℕ) (out : Statuses) : Type 0 where
    pub subjects :
        (x : Hash)
        → contains_key x out ≡ true
        → (e : Signed) × (lookup x all ≡ some e) × (is_subject e ≡ true)
    pub below : (x : Hash) → contains_key x out ≡ true → rank x < length out
    pub parents :
        (x : Hash) (e : Signed) (p : Hash)
        → accepted out x ≡ true
        → lookup x all ≡ some e
        → set_contains p (parents_of e) ≡ true
        → (accepted out p ≡ true) × (rank p < rank x)
    pub acts :
        (x : Hash) (e : Signed)
        → accepted out x ≡ true
        → lookup x all ≡ some e
        → Acts crypto all x e
    pub bodies : (x : Hash) (e : Signed) → accepted out x ≡ true → lookup x all ≡ some e → HasBody e
    pub authorized :
        (x : Hash) (e : Signed)
        → accepted out x ≡ true
        → lookup x all ≡ some e
        → is_genesis (kind_of e.envelope.payload) ≡ false
        → IsAuthorized e

  module _ (rank : Hash → ℕ) (out : Statuses) (a : IsAdmitted rank out) where
    pub accepted_known : (x : Hash) → accepted out x ≡ true → contains_key x all ≡ true
    accepted_known x h = let (e, held, _) = a.subjects x (ground (arith, h)) in ground (arith, held)

    pub accepted-Reaches :
        (x y : Hash) → accepted out x ≡ true → Reaches all x y → accepted out y ≡ true
    accepted-Reaches x _ h here = h
    accepted-Reaches x _ h (there {x = y} {e} {p} r held m) =
        (a.parents y e p (accepted-Reaches x y h r) held m).0

    -- The cone of a valid event is a governed part.
    pub cone-IsPart :
        (p : Hash)
        → accepted out p ≡ true
        → (m : Events) × (cone all p ≡ some m)
          × IsPart crypto all rank m
          × ((x : Hash) → (contains_key x m ≡ true) ↔ Reaches all p x)
    cone-IsPart p h =
        let ok = λ (x : Hash) (r : Reaches all p x). accepted-Reaches p x h r in
        let (m, eq, reached, agrees, ascending) =
          cone-found all p (λ x r. accepted_known x (ok x r)) in
        let in_all = λ (x : Hash) (e : Signed) (held : lookup x m ≡ some e).
          sym (agrees x (ground (arith, held))) ∙ held in
        let valid_in = λ (x : Hash) (e : Signed) (held : lookup x m ≡ some e).
          ok x ((reached x).0 (ground (arith, held))) in
        (
          m,
          eq,
          record {
            distinct = IsAscending-IsDistinct m ascending;
            within = in_all;
            closed = λ x e q held n.
                (reached q).1 (there ((reached x).0 (ground (arith, held))) (in_all x e held) n);
            ranked = λ x e q held n. (a.parents x e q (valid_in x e held) (in_all x e held) n).1;
            acts = λ x e held. a.acts x e (valid_in x e held) (in_all x e held);
          },
          reached,
        )

  Held-within :
      (part items : Events)
      → ((x : Hash) (e : Signed) → lookup x part ≡ some e → lookup x all ≡ some e)
      → Held part items
      → Held all items
  Held-within part [] w h = tt
  Held-within part ((id, e) ∷ items) w h = (w id e h.0, Held-within part items w h.1)

  insert_all_lem :
      (items past : Events)
      → Held all items
      → IsAscending past
      → ((x : Hash) (e : Signed) → lookup x past ≡ some e → lookup x all ≡ some e)
      → IsAscending (insert_all items past)
        × ((x : Hash) (e : Signed)
            → lookup x (insert_all items past) ≡ some e
            → lookup x all ≡ some e)
        × ((x : Hash)
            → contains_key x (insert_all items past)
              ≡ (contains_key x items || contains_key x past))
  unfolding insert_all lookup
  insert_all_lem [] past held asc w = (asc, w, λ x. refl)
  insert_all_lem ((id, e) ∷ items) past held asc w =
      let (asc', w', keys) =
        insert_all_lem items (map_insert id e past) held.1 (map_insert-IsAscending id e past asc)
          (λ x f h. elim (Bool-cases (id == x)) [
            | inl same ↦
                let put = lookup-map_insert id x e past in
                let put' = rw same at put in
                let f_eq : ◌≡◌ {A = Option Signed} (some e) (some f) = sym put' ∙ h in
                ap (λ k. lookup k all) (sym ((==_iff id x).0 same)) ∙ held.0 ∙ f_eq
            | inr differ ↦
                let put = lookup-map_insert id x e past in
                let put' = rw differ at put in w x f (sym put' ∙ h)
          ]) in
      (asc', w', λ x. ground (arith, keys x, lookup-map_insert id x e past))

  -- An entry of the union is one of either.
  insert_all-either :
      (m past : Events) (x : Hash) (e : Signed)
      → ((y : Hash) (f : Signed) → lookup y m ≡ some f → lookup y all ≡ some f)
      → ((y : Hash) (f : Signed) → lookup y past ≡ some f → lookup y all ≡ some f)
      → lookup x all ≡ some e
      → (contains_key x m || contains_key x past) ≡ true
      → (lookup x m ≡ some e) ⊎ (lookup x past ≡ some e)
  insert_all-either m past x e u v held known = elim (Option-cases (lookup x m)) [
    | inr (f, f_held) ↦ inl (f_held ∙ (sym (u x f f_held) ∙ held))
    | inl gone ↦
        let (f, f_held) = key_held x past (ground (arith, known, gone)) in
        inr (f_held ∙ (sym (v x f f_held) ∙ held))
  ]

  -- The union of two parts is a part.
  pub insert_all-IsPart :
      (rank : Hash → ℕ) (m past : Events)
      → IsPart crypto all rank m
      → IsPart crypto all rank past
      → IsAscending past
      → IsPart crypto all rank (insert_all m past)
        × IsAscending (insert_all m past)
        × ((x : Hash)
            → contains_key x (insert_all m past) ≡ (contains_key x m || contains_key x past))
  insert_all-IsPart rank m past u v asc =
      let (asc', w, keys) =
        insert_all_lem m past (Held-within m m u.within (Held-self m u.distinct)) asc v.within in
      let either = λ (x : Hash) (e : Signed) (held : lookup x (insert_all m past) ≡ some e).
        insert_all-either m past x e u.within v.within (w x e held) (
          sym (keys x)
          ∙ (let k : contains_key x (insert_all m past) ≡ true = ground (arith, held) in k)) in
      (
        record {
          distinct = IsAscending-IsDistinct (insert_all m past) asc';
          within = w;
          closed = λ x e p held n. elim (either x e held) [
            | inl h ↦ ground (arith, keys p, u.closed x e p h n)
            | inr h ↦ ground (arith, keys p, v.closed x e p h n)
          ];
          ranked = λ x e p held n. elim (either x e held) [
            | inl h ↦ u.ranked x e p h n
            | inr h ↦ v.ranked x e p h n
          ];
          acts = λ x e held. elim (either x e held) [ inl h ↦ u.acts x e h | inr h ↦ v.acts x e h ];
        },
        asc',
        keys,
      )
