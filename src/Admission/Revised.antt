-- ===== src/Admission/Revised.antt =====
-- The revisions of the past that a resolution selects, in `evaluate` of crates/cc-ledger/src/v1.rs.
use clockchain.Prelude.{
  ◌≡◌, ◌⊎◌, refl, ap, ◌∙◌, sym, subst, inl, inr, Bool, true, false, not, Option, some, List, [],
  ◌∷◌, arith, ◌==◌, ==_iff, Bool-cases, nat_key,
}
use clockchain.Prelude.Table.{lookup, contains_key, IsDistinct}
use clockchain.Prelude.Ordered.{map_insert, lookup-map_insert, set_contains}
use clockchain.Wire.{Hash}
use clockchain.Wire.Event.{Disposition}
use clockchain.Wire.Signed.{Crypto, Signed}
use clockchain.Ledger.{
  Events, Choice, create, choose, inherit, choice_of, Revision, own_revision, revision_of, collect,
  revisions_from, revisions,
}
use clockchain.Ledger.Search.{IsClosed}
use clockchain.Ledger.Cone.{cone-Reaches}
use clockchain.Ledger.Order.{Held, Held-self}
use clockchain.Ledger.Totals.{Returns}
use clockchain.Ledger.Bodies.{Choice-cases}
use clockchain.Edges.Evaluate.{or_else}
use clockchain.Admission.Payloads.{is_selected, parents_disposed, any_unrelated}

pub or_else-Returns : (a b : Option Bool) → Returns a → Returns b → Returns (or_else a b)
or_else-Returns a b (true, p) (c, q) = (true, rw p refl)
or_else-Returns a b (false, p) (c, q) = (c, rw p q)

module _ {SecretKey : Type 0} (crypto : Crypto SecretKey) (all : Events) where
  -- A revision that an event of the ledger makes.
  abbrev pub IsMadeBy : Hash → Revision → Type 0
  IsMadeBy r v =
      (x : Hash) × (e : Signed) × (b : Hash) × (lookup x all ≡ some e)
      × (choice_of e.envelope.payload ≡ create b)
      × (own_revision crypto x e ≡ r)
      × (v.creating_event ≡ x)

  collect_create :
      (x : Hash) (e : Signed) (b : Hash) (c : Choice) (out : List (Hash × Revision))
      → c ≡ create b
      → collect crypto x e c out
        ≡ map_insert (own_revision crypto x e) (revision_of crypto x e b) out
  unfolding collect
  collect_create x e b c out eq = rw eq refl

  collect_other :
      (x : Hash) (e : Signed) (c : Choice) (out : List (Hash × Revision))
      → ((r : Hash) × (c ≡ choose r)) ⊎ (c ≡ inherit)
      → collect crypto x e c out ≡ out
  unfolding collect
  collect_other x e c out (inl (r, eq)) = rw eq refl
  collect_other x e c out (inr eq) = rw eq refl

  revision_of-creating_event :
      (x : Hash) (e : Signed) (b : Hash) → (revision_of crypto x e b).creating_event ≡ x
  unfolding revision_of
  revision_of-creating_event x e b = refl

  -- What a map of revisions holds is made by an entry, or was there.
  revisions_from-IsMadeBy :
      (items : Events) (out : List (Hash × Revision)) (r : Hash) (v : Revision)
      → Held all items
      → lookup r (revisions_from crypto items out) ≡ some v
      → (lookup r out ≡ some v) ⊎ IsMadeBy r v
  unfolding revisions_from
  revisions_from-IsMadeBy [] out r v held h = inl h
  revisions_from-IsMadeBy ((x, e) ∷ items) out r v held h =
      elim (revisions_from-IsMadeBy items (collect crypto x e (choice_of e.envelope.payload) out) r
        v held.1 h) [
          | inr made ↦ inr made
          | inl there_ ↦ elim (Choice-cases (choice_of e.envelope.payload)) [
            | inr other ↦ inl (
                sym (ap (lookup r) (collect_other x e (choice_of e.envelope.payload) out other))
                ∙ there_)
            | inl (b, makes) ↦
                let put =
                  sym
                    (ap (lookup r) (collect_create x e b (choice_of e.envelope.payload) out makes))
                  ∙ there_ in
                let at_ =
                  lookup-map_insert (own_revision crypto x e) r (revision_of crypto x e b) out in
                elim (Bool-cases (own_revision crypto x e == r)) [
                  | inl same ↦
                      let at' = rw same at at_ in
                      let v_eq : ◌≡◌ {A = Option Revision} (some (revision_of crypto x e b))
                          (some v) =
                        sym at' ∙ put in
                      let w_eq : revision_of crypto x e b ≡ v = ground (arith, v_eq) in
                      inr (
                        x,
                        e,
                        b,
                        held.0,
                        makes,
                        (==_iff (own_revision crypto x e) r).0 same,
                        ap (λ (w : Revision). w.creating_event) (sym w_eq)
                            ∙ revision_of-creating_event x e b,
                      )
                  | inr differ ↦ let at' = rw differ at at_ in inl (sym at' ∙ put)
                ]
          ]
        ]

  collect_kept :
      (x : Hash) (e : Signed) (c : Choice) (out : List (Hash × Revision)) (r : Hash)
      → contains_key r out ≡ true
      → contains_key r (collect crypto x e c out) ≡ true
  collect_kept x e c out r h = elim (Choice-cases c) [
    | inr other ↦ ap (contains_key r) (collect_other x e c out other) ∙ h
    | inl (b, makes) ↦
        let at_ = lookup-map_insert (own_revision crypto x e) r (revision_of crypto x e b) out in
        ap (contains_key r) (collect_create x e b c out makes) ∙ ground (arith, at_, h)
  ]

  revisions_from_kept :
      (items : Events) (out : List (Hash × Revision)) (r : Hash)
      → contains_key r out ≡ true
      → contains_key r (revisions_from crypto items out) ≡ true
  unfolding revisions_from
  revisions_from_kept [] out r h = h
  revisions_from_kept ((x, e) ∷ items) out r h =
      revisions_from_kept items (collect crypto x e (choice_of e.envelope.payload) out) r
        (collect_kept x e (choice_of e.envelope.payload) out r h)

  revisions_from_own :
      (items : Events) (out : List (Hash × Revision)) (x : Hash) (e : Signed) (b : Hash)
      → lookup x items ≡ some e
      → choice_of e.envelope.payload ≡ create b
      → contains_key (own_revision crypto x e) (revisions_from crypto items out) ≡ true
  unfolding revisions_from lookup
  revisions_from_own [] out x e b h makes = absurd (ground (arith, h))
  revisions_from_own ((y, f) ∷ items) out x e b h makes = elim (Bool-cases (y == x)) [
    | inr differ ↦
        let h' = rw differ at h in
        revisions_from_own items (collect crypto y f (choice_of f.envelope.payload) out) x e b h'
          makes
    | inl same ↦
        let h' = rw same at h in
        let f_eq : f ≡ e =
          (let k : ◌≡◌ {A = Option Signed} (some f) (some e) = h' in ground (arith, k)) in
        let makes' = ap (λ (k : Signed). choice_of k.envelope.payload) f_eq ∙ makes in
        let at_ =
          lookup-map_insert (own_revision crypto y f) (own_revision crypto y f)
            (revision_of crypto y f b) out in
        let now : contains_key (own_revision crypto y f)
              (collect crypto y f (choice_of f.envelope.payload) out)
            ≡ true =
          ap (contains_key (own_revision crypto y f))
            (collect_create y f b (choice_of f.envelope.payload) out makes')
          ∙ ground (arith, at_) in
        let kept =
          revisions_from_kept items (collect crypto y f (choice_of f.envelope.payload) out)
            (own_revision crypto y f) now in
        subst
          (λ (k : Hash).
            contains_key k
              (revisions_from crypto items (collect crypto y f (choice_of f.envelope.payload) out))
            ≡ true)
          (ap (λ (k : Hash). own_revision crypto k f) ((==_iff y x).0 same)
            ∙ ap (own_revision crypto x) f_eq)
          kept
  ]

  -- A revision that an event makes is a revision of the ledger.
  pub IsMadeBy-revisions :
      (r : Hash) (v : Revision) → IsMadeBy r v → contains_key r (revisions crypto all) ≡ true
  unfolding revisions
  IsMadeBy-revisions r v (x, e, b, held, makes, own, _) =
      subst (λ (k : Hash). contains_key k (revisions_from crypto all []) ≡ true) own
        (revisions_from_own all [] x e b held makes)

pub revisions-IsMadeBy :
    {SecretKey : Type 0} (crypto : Crypto SecretKey) (part : Events) (r : Hash) (v : Revision)
    → IsDistinct part
    → lookup r (revisions crypto part) ≡ some v
    → IsMadeBy crypto part r v
unfolding revisions lookup
revisions-IsMadeBy crypto part r v d h =
    elim (revisions_from-IsMadeBy crypto part part [] r v (Held-self part d) h) [
      | inl none_ ↦ absurd (ground (arith, none_))
      | inr made ↦ made
    ]

-- The cones of the parents that a resolution selects are found.
pub any_unrelated-Returns :
    (past : Events) (creator : Hash) (ds : List Disposition)
    → IsClosed past
    → ((q : Hash) → set_contains q (parents_disposed ds) ≡ true → contains_key q past ≡ true)
    → Returns (any_unrelated past creator ds)
unfolding any_unrelated set_contains
any_unrelated-Returns past creator [] closed known = (false, refl)
any_unrelated-Returns past creator (d ∷ ds) closed known =
    let rest = any_unrelated-Returns past creator ds closed (λ q m. known q (ground (arith, m))) in
    elim (Bool-cases (is_selected d.action)) [
      | inr other ↦ let (b, eq) = rest in (b, rw other eq)
      | inl chosen ↦
          let (m, eq, _, _) = cone-Reaches past d.parent closed (known d.parent (ground arith)) in
          let (b, b_eq) =
            or_else-Returns (some (not (contains_key creator m))) (any_unrelated past creator ds)
              (_, refl) rest in
          (b, rw chosen (rw eq b_eq))
    ]
