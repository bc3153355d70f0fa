-- ===== src/Ledger/Tests.antt =====
-- A small ledger for crates/cc-ledger/src/v1: a genesis, a correction and a delegation in a row.
use clockchain.Prelude.{
  ℕ, ◌-◌, ◌<◌, ◌≡◌, ◌↔◌, ◌⊎◌, refl, ◌∙◌, sym, inl, inr, true, Option, none, some, List, [], ◌∷◌,
  arith, get_or, nat_key,
}
use clockchain.Prelude.Table.{lookup, contains_key}
use clockchain.Prelude.Ordered.{map_insert, set_contains}
use clockchain.Wire.{Hash, to_be_bytes}
use clockchain.Wire.Event.{Kind, Value, Decision, Payload}
use clockchain.Wire.Signed.{Crypto, Signed, concat_hashes, domain_bytes, domain_hash, revision_id}
use clockchain.Ledger.{
  Events, parents_of, push_all, cone_loop, links, cone, choice_of, Choice, first, create, choose,
  own_revision, selected, select, any_absent, round, rounds, schedule, selections, Revision,
  revisions, body_loop, body,
}
use clockchain.Ledger.Search.{Reaches, IsClosed}
use clockchain.Ledger.Cone.{cone-Reaches}
use clockchain.Ledger.Order.{IsOrdered}
use clockchain.Ledger.Selections.{HasParents, Selects, selections-Selects}
use clockchain.Ledger.Bodies.{NoClash, ChoosesKnown, body-selections}

-- The hash of a revision is the last byte of its event.
abbrev pub toy : Crypto ℕ
toy = record {
  hash = λ p. get_or p 81 0;
  is_key = λ a. true;
  verify = λ a p s. true;
  author = λ key. key;
  sign_message = λ key p. [];
}

abbrev pub decision : Kind → Decision
decision k = record {
  kind = k;
  rationale = b'r' ∷ [];
  evidence = 50 ∷ [];
  parents = [];
  old = Value.nothing;
  new = Value.nothing;
}

abbrev pub signed : Hash → List Hash → Option Hash → Payload → Signed
signed id parents subject payload = record {
  envelope = record {
    instance = 0;
    author = 9;
    subject = subject;
    subject_key = none;
    grant = none;
    parents = parents;
    asserted_time = none;
    payload = payload;
  };
  id = id;
  bytes = [];
}

abbrev pub first_event : Signed
first_event = signed 1 [] none (Payload.genesis 60 70 [])

abbrev second_event : Signed
second_event = signed 2 (1 ∷ []) (some 1) (Payload.correction 80 (decision Kind.correction))

abbrev third_event : Signed
third_event = signed 3 (2 ∷ []) (some 1) (Payload.delegate 61 62 (decision Kind.delegate))

abbrev small : Events
small = (1, first_event) ∷ (2, second_event) ∷ (3, third_event) ∷ []

cone_test : cone small 2 ≡ some ((1, first_event) ∷ (2, second_event) ∷ [])
unfolding cone cone_loop links push_all map_insert lookup
cone_test = refl

selections_test : selections toy small ≡ some ((1, 1) ∷ (2, 2) ∷ (3, 2) ∷ [])
unfolding selections schedule rounds round any_absent select selected choice_of map_insert lookup
    revision_id domain_hash domain_bytes concat_hashes to_be_bytes
selections_test = refl

body_test : body toy small 3 ≡ some 80
unfolding body body_loop choice_of lookup
body_test = refl

-- The entries of the ledger.
abbrev IsEntry : Hash → Signed → Type 0
IsEntry x e =
    ((x ≡ 1) × (e ≡ first_event)) ⊎ (((x ≡ 2) × (e ≡ second_event)) ⊎ ((x ≡ 3) × (e ≡ third_event)))

entries : (x : Hash) (e : Signed) → lookup x small ≡ some e → IsEntry x e
unfolding lookup
entries x e h = ground (arith, h)

-- A fact of the three entries.
by_entry :
    (P : Hash → Signed → Type 0) (x : Hash) (e : Signed)
    → P 1 first_event
    → P 2 second_event
    → P 3 third_event
    → lookup x small ≡ some e
    → P x e
by_entry P x e p q r h = elim (entries x e h) [
  | inl (x_eq, e_eq) ↦ rw (x_eq, e_eq) p
  | inr (inl (x_eq, e_eq)) ↦ rw (x_eq, e_eq) q
  | inr (inr (x_eq, e_eq)) ↦ rw (x_eq, e_eq) r
]

small-IsClosed : IsClosed small
unfolding lookup set_contains
small-IsClosed x e p h m =
    by_entry (λ y f. set_contains p (parents_of f) ≡ true → contains_key p small ≡ true) x e
      (λ k. absurd (ground (arith, k))) (λ k. ground (arith, k)) (λ k. ground (arith, k)) h m

small-IsOrdered : IsOrdered small (λ x. x - 1)
unfolding lookup set_contains
small-IsOrdered = record {
  distinct = (refl, (refl, (refl, tt)));
  below = λ x e h. by_entry (λ y f. y - 1 < 3) x e (omega arith) (omega arith) (omega arith) h;
  known = small-IsClosed;
  before = λ x e p h m.
      by_entry (λ y f. set_contains p (parents_of f) ≡ true → p - 1 < y - 1) x e
        (λ k. absurd (ground (arith, k))) (λ k. ground (arith, k)) (λ k. ground (arith, k)) h m;
}

small-HasParents : HasParents small
unfolding choice_of
small-HasParents x e h c =
    by_entry
      (λ y f.
        choice_of f.envelope.payload ≡ Choice.inherit
        → (p : Hash) × (first (parents_of f) ≡ some p))
      x e (λ k. absurd (ground (arith, k))) (λ k. absurd (ground (arith, k))) (λ k. (2, refl)) h c

own_1 : own_revision toy 1 first_event ≡ 1
unfolding revision_id domain_hash domain_bytes concat_hashes to_be_bytes
own_1 = refl

own_2 : own_revision toy 2 second_event ≡ 2
unfolding revision_id domain_hash domain_bytes concat_hashes to_be_bytes
own_2 = refl

-- The revision of an event here is its number.
own_number :
    (x : Hash) (e : Signed) (b : Hash)
    → lookup x small ≡ some e
    → choice_of e.envelope.payload ≡ create b
    → own_revision toy x e ≡ x
unfolding choice_of
own_number x e b h c =
    by_entry (λ y f. choice_of f.envelope.payload ≡ create b → own_revision toy y f ≡ y) x e
      (λ k. own_1) (λ k. own_2) (λ k. absurd (ground (arith, k))) h c

small-NoClash : NoClash toy small
small-NoClash x y e f b c h k p q same = sym (own_number x e b h p) ∙ same ∙ own_number y f c k q

small-ChoosesKnown : ChoosesKnown toy small
unfolding choice_of
small-ChoosesKnown x e r h c =
    by_entry
      (λ y f. choice_of f.envelope.payload ≡ choose r → contains_key r (revisions toy small) ≡ true)
      x e (λ k. absurd (ground (arith, k))) (λ k. absurd (ground (arith, k)))
      (λ k. absurd (ground (arith, k))) h c

three_known : contains_key 3 small ≡ true
unfolding lookup
three_known = refl

cone-Reaches_example :
    (m : Events) × (cone small 3 ≡ some m)
    × ((x : Hash) → (contains_key x m ≡ true) ↔ Reaches small 3 x)
    × ((x : Hash) → contains_key x m ≡ true → lookup x m ≡ lookup x small)
cone-Reaches_example = cone-Reaches small 3 small-IsClosed three_known

selections-Selects_example :
    (out : List (Hash × Hash)) × (selections toy small ≡ some out)
    × ((x : Hash) → (contains_key x out ≡ true) ↔ (contains_key x small ≡ true))
    × ((x : Hash) (r : Hash) → (lookup x out ≡ some r) ↔ Selects toy small x r)
selections-Selects_example =
    selections-Selects toy small (λ x. x - 1) small-IsOrdered small-HasParents

body-selections_example :
    (out : List (Hash × Hash)) × (r : Hash) × (v : Revision) × (selections toy small ≡ some out)
    × (lookup 3 out ≡ some r)
    × (lookup r (revisions toy small) ≡ some v)
    × (body toy small 3 ≡ some v.body)
body-selections_example =
    body-selections toy small (λ x. x - 1) 3 small-IsOrdered small-HasParents small-NoClash
      small-ChoosesKnown three_known
