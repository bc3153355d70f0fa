-- ===== src/Ledger/Bodies.antt =====
-- The body of an event, `body` of crates/cc-ledger/src/v1/authority.rs, against the revision that
-- `selections` of projection.rs selects for it.
use clockchain.Prelude.{
  ℕ, zero, suc, ◌<◌, ◌≡◌, ◌≢◌, ◌⊎◌, refl, ap, ap₂, ◌∙◌, sym, subst, inl, inr, true, Option, none,
  some, List, [], ◌∷◌, arith, ◌==◌, ==_iff, Bool-cases, length, nat_key,
}
use clockchain.Prelude.Table.{lookup, contains_key, IsDistinct}
use clockchain.Prelude.Ordered.{lookup-map_insert}
use clockchain.Wire.{Hash}
use clockchain.Wire.Signed.{Crypto, Signed}
use clockchain.Ledger.{
  Events, parents_of, Choice, create, choose, inherit, choice_of, first, own_revision, Revision,
  revision_of, collect, revisions_from, revisions, body_of, body_loop, body, selections,
}
use clockchain.Ledger.Order.{IsOrdered, key_held, later}
use clockchain.Ledger.Selections.{
  HasParents, Selects, set_contains-first, selections-Selects, created, chosen, inherited,
}

-- The three things that an event can do.
pub Choice-cases :
    (c : Choice) → ((b : Hash) × (c ≡ create b)) ⊎ (((r : Hash) × (c ≡ choose r)) ⊎ (c ≡ inherit))
Choice-cases (create b) = inl (b, refl)
Choice-cases (choose r) = inr (inl (r, refl))
Choice-cases inherit = inr (inr refl)

module _ {SecretKey : Type 0} (crypto : Crypto SecretKey) where
  -- Two events that make revisions make different ones.
  abbrev pub NoClash : Events → Type 0
  NoClash valid =
      (x : Hash) (y : Hash) (e : Signed) (f : Signed) (b : Hash) (c : Hash)
      → lookup x valid ≡ some e
      → lookup y valid ≡ some f
      → choice_of e.envelope.payload ≡ create b
      → choice_of f.envelope.payload ≡ create c
      → own_revision crypto x e ≡ own_revision crypto y f
      → x ≡ y

  -- No event of a list makes the revision.
  Foreign : Hash → Events → Type 0
  Foreign r items =
      (y : Hash) (f : Signed) (c : Hash)
      → lookup y items ≡ some f
      → choice_of f.envelope.payload ≡ create c
      → own_revision crypto y f ≢ r

  collect_other :
      (id : Hash) (e : Signed) (c : Choice) (out : List (Hash × Revision)) (r : Hash)
      → ((b : Hash) → c ≡ create b → own_revision crypto id e ≢ r)
      → lookup r (collect crypto id e c out) ≡ lookup r out
  unfolding collect
  collect_other id e (create b) out r other =
      let put = lookup-map_insert (own_revision crypto id e) r (revision_of crypto id e b) out in
      elim (Bool-cases (own_revision crypto id e == r)) [
        | inl same ↦ absurd (other b refl ((==_iff (own_revision crypto id e) r).0 same))
        | inr differ ↦ rw differ at put
      ]
  collect_other id e (choose _) out r other = refl
  collect_other id e inherit out r other = refl

  revisions_from_other :
      (items : Events) (out : List (Hash × Revision)) (r : Hash)
      → IsDistinct items
      → Foreign r items
      → lookup r (revisions_from crypto items out) ≡ lookup r out
  unfolding revisions_from lookup Foreign
  revisions_from_other [] out r d foreign = refl
  revisions_from_other ((id, e) ∷ items) out r d foreign =
      revisions_from_other items (collect crypto id e (choice_of e.envelope.payload) out) r d.1
        (λ y f c h k. foreign y f c (later id y e f items d h) k)
      ∙ collect_other id e (choice_of e.envelope.payload) out r
          (λ b k. foreign id e b (ground arith) k)

  collect_own :
      (x : Hash) (e : Signed) (b : Hash) (c : Choice) (out : List (Hash × Revision))
      → c ≡ create b
      → lookup (own_revision crypto x e) (collect crypto x e c out)
        ≡ some (revision_of crypto x e b)
  unfolding collect
  collect_own x e b c out k =
      let own = own_revision crypto x e in
      let put = lookup-map_insert own own (revision_of crypto x e b) out in
      let same = (==_iff own own).1 refl in
      let put' = rw same at put in
      subst (λ t. lookup own (collect crypto x e t out) ≡ some (revision_of crypto x e b)) (sym k)
        put'

  -- The revision that an event makes is among the revisions, with its body.
  revisions_from_own :
      (items : Events) (out : List (Hash × Revision)) (x : Hash) (e : Signed) (b : Hash)
      → IsDistinct items
      → NoClash items
      → lookup x items ≡ some e
      → choice_of e.envelope.payload ≡ create b
      → lookup (own_revision crypto x e) (revisions_from crypto items out)
        ≡ some (revision_of crypto x e b)
  unfolding revisions_from lookup Foreign
  revisions_from_own [] out x e b d clash h k = absurd (ground (arith, h))
  revisions_from_own ((id, f) ∷ items) out x e b d clash h k = elim (Bool-cases (id == x)) [
    | inl same ↦
        let x_eq = (==_iff id x).0 same in
        let h' = rw same at h in
        let both : ◌≡◌ {A = Option Signed} (some f) (some e) = h' in
        let e_eq : f ≡ e = ground (arith, both) in
        let held : lookup x ((id, f) ∷ items) ≡ some e = h in
        let gone : lookup x items ≡ none = ap (λ t. lookup t items) (sym x_eq) ∙ d.0 in
        let others =
          revisions_from_other items (collect crypto id f (choice_of f.envelope.payload) out)
            (own_revision crypto x e) d.1
            (λ y g c p q same_own.
              let y_eq = clash x y e g b c held (later id y f g items d p) k q (sym same_own) in
              let gone' : lookup y items ≡ none = ap (λ t. lookup t items) (sym y_eq) ∙ gone in
              absurd (ground (arith, gone', p))) in
        let choice_eq : choice_of f.envelope.payload ≡ create b =
          ap (λ (t : Signed). choice_of t.envelope.payload) e_eq ∙ k in
        let own = collect_own id f b (choice_of f.envelope.payload) out choice_eq in
        let names : own_revision crypto id f ≡ own_revision crypto x e =
          ap₂ (λ (t : Hash) (g : Signed). own_revision crypto t g) x_eq e_eq in
        let values : revision_of crypto id f b ≡ revision_of crypto x e b =
          ap₂ (λ (t : Hash) (g : Signed). revision_of crypto t g b) x_eq e_eq in
        others
        ∙ ap (λ t. lookup t (collect crypto id f (choice_of f.envelope.payload) out)) (sym names)
        ∙ own
        ∙ ap some values
    | inr differ ↦
        let h' = rw differ at h in
        revisions_from_own items (collect crypto id f (choice_of f.envelope.payload) out) x e b d.1
          (λ y z g i c c' p q.
            clash y z g i c c' (later id y f g items d p) (later id z f i items d q))
          h' k
  ]

  -- A revision that is chosen is among those that the events make.
  abbrev pub ChoosesKnown : Events → Type 0
  ChoosesKnown valid =
      (x : Hash) (e : Signed) (r : Hash)
      → lookup x valid ≡ some e
      → choice_of e.envelope.payload ≡ choose r
      → contains_key r (revisions crypto valid) ≡ true

  -- The body of the revision that an event selects.
  Carries : Events → Hash → Hash → Type 0
  Carries valid x b =
      (r : Hash) × (v : Revision) × Selects crypto valid x r
      × (lookup r (revisions crypto valid) ≡ some v)
      × (v.body ≡ b)

  revisions_lem :
      (valid : Events) (r : Hash)
      → lookup r (revisions crypto valid) ≡ lookup r (revisions_from crypto valid [])
  unfolding revisions
  revisions_lem valid r = refl

  revision_body : (x : Hash) (e : Signed) (b : Hash) → (revision_of crypto x e b).body ≡ b
  unfolding revision_of
  revision_body x e b = refl

  pub body_step :
      (fuel : ℕ) (valid : Events) (x : Hash) (e : Signed)
      → lookup x valid ≡ some e
      → body_loop crypto (suc fuel) valid x ≡ elim (choice_of e.envelope.payload) [
        | create b ↦ some b
        | choose r ↦ body_of (lookup r (revisions crypto valid))
        | inherit ↦ elim (first (parents_of e)) [
          | none ↦ none
          | some p ↦ body_loop crypto fuel valid p
        ]
      ]
  unfolding body_loop
  body_step fuel valid x e h = rw h refl

  body_loop-Carries :
      (valid : Events) (rank : Hash → ℕ) (fuel : ℕ) (x : Hash)
      → IsOrdered valid rank
      → HasParents valid
      → NoClash valid
      → ChoosesKnown valid
      → contains_key x valid ≡ true
      → rank x < fuel
      → (b : Hash) × (body_loop crypto fuel valid x ≡ some b) × Carries valid x b
  unfolding Carries
  body_loop-Carries valid rank zero x o parents clash knows known lt = absurd (omega arith)
  body_loop-Carries valid rank (suc fuel) x o parents clash knows known lt =
      let (e, held) = key_held x valid known in
      let step = body_step fuel valid x e held in
      elim (Choice-cases (choice_of e.envelope.payload)) [
        | inl (b, c) ↦
            let step' = rw c at step in
            let own = revisions_from_own valid [] x e b o.distinct clash held c in
            (
              b,
              step',
              (
                own_revision crypto x e,
                revision_of crypto x e b,
                created held c refl,
                revisions_lem valid (own_revision crypto x e) ∙ own,
                revision_body x e b,
              ),
            )
        | inr (inl (r, c)) ↦
            let step' = rw c at step in
            let (v, at_) = key_held r (revisions crypto valid) (knows x e r held c) in
            (v.body, step' ∙ rw at_ refl, (r, v, chosen held c, at_, refl))
        | inr (inr c) ↦
            let step' = rw c at step in
            let (p, p_eq) = parents x e held c in
            let step'' = rw p_eq at step' in
            let m = set_contains-first p (parents_of e) p_eq in
            let before = o.before x e p held m in
            let (b, eq, (r, v, s, at_, same)) =
              body_loop-Carries valid rank fuel p o parents clash knows (o.known x e p held m)
                (omega (arith, before, lt)) in
            (b, step'' ∙ eq, (r, v, inherited held c p_eq s, at_, same))
      ]

  -- Two readings of a known event agree where events have an order, an event that does not change
  -- the body has a parent, no two events make one revision and a chosen revision was made: the body
  -- that `body` finds is the body of the revision that `selections` selects for it, and both find one.
  pub body-selections :
      (valid : Events) (rank : Hash → ℕ) (x : Hash)
      → IsOrdered valid rank
      → HasParents valid
      → NoClash valid
      → ChoosesKnown valid
      → contains_key x valid ≡ true
      → (out : List (Hash × Hash)) × (r : Hash) × (v : Revision) × (selections crypto valid
          ≡ some out)
        × (lookup x out ≡ some r)
        × (lookup r (revisions crypto valid) ≡ some v)
        × (body crypto valid x ≡ some v.body)
  unfolding body Carries
  body-selections valid rank x o parents clash knows known =
      let (out, eq, _, selects) = selections-Selects crypto valid rank o parents in
      let (e, held) = key_held x valid known in
      let (b, found, (r, v, s, at_, same)) =
        body_loop-Carries valid rank (suc (length valid)) x o parents clash knows known
          (omega (arith, o.below x e held)) in
      (out, r, v, eq, (selects x r).1 s, at_, found ∙ ap some (sym same))
