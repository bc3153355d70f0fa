-- ===== src/Edges/Classified.antt =====
-- `classify` of crates/cc-ledger/src/v1/edges.rs returns, keeps what is classified and gives every event
-- a status.
use clockchain.Prelude.{
  suc, ◌≡◌, refl, ap, ◌∙◌, sym, inl, inr, Bool, true, false, not, ◌&&◌, Option, some, [], ◌∷◌,
  arith, ◌==◌, ==_iff, Bool-cases, if◌then◌else◌, length, nat_key,
}
use clockchain.Prelude.Table.{lookup, contains_key, IsDistinct}
use clockchain.Prelude.Ordered.{set_contains}
use clockchain.Wire.{Hash}
use clockchain.Wire.Event.{kind_of}
use clockchain.Wire.Signed.{Crypto, Signed}
use clockchain.Ledger.{Events}
use clockchain.Ledger.Order.{key_held, later}
use clockchain.Edges.{Status, Statuses, Subjects, is_subject, is_attestation, new_subjects}
use clockchain.Edges.Classify.{ids_of, close_cycles, classify_stage, classify}
use clockchain.Edges.Staged.{IsStaged}
use clockchain.Edges.Kept.{Keeps, Keeps-contains_key, unclassified-length}
use clockchain.Edges.Passes.{AreMedia, passes-Returns, close_cycles-Closed, Closed}

-- Whether a loop is for an event.
abbrev staged : Bool → Signed → Bool
staged media e =
    not (is_subject e)
    && (if media
        then is_attestation (kind_of e.envelope.payload)
        else not (is_attestation (kind_of e.envelope.payload)))

module _ (s : Subjects) where
  ids_of-AreMedia :
      (media : Bool) (all items : Events)
      → IsDistinct items
      → ((x : Hash) (e : Signed) → lookup x items ≡ some e → lookup x all ≡ some e)
      → AreMedia all s (ids_of media items)
  unfolding ids_of set_contains lookup
  ids_of-AreMedia media all [] d within x m = absurd (ground (arith, m))
  ids_of-AreMedia media all ((id, e) ∷ items) d within x m =
      let rest = λ (n : set_contains x (ids_of media items) ≡ true).
        ids_of-AreMedia media all items d.1 (λ y f h. within y f (later id y e f items d h)) x n in
      elim (Bool-cases (staged media e)) [
        | inr other ↦ let m' = rw other at m in rest m'
        | inl own ↦
            let m' = rw own at m in
            elim (Bool-cases (x == id)) [
              | inr differ ↦ rest (ground (arith, m', differ))
              | inl same ↦
                  let x_eq = (==_iff x id).0 same in
                  let here_ : lookup id ((id, e) ∷ items) ≡ some e =
                    ground (arith, (==_iff id id).1 refl) in
                  let held = within id e here_ in
                  let plain : is_subject e ≡ false = ground (arith, own) in
                  (e, ap (λ k. lookup k all) x_eq ∙ held, plain)
            ]
      ]

mem-ids_of :
    (media : Bool) (items : Events) (x : Hash) (e : Signed)
    → lookup x items ≡ some e
    → staged media e ≡ true
    → set_contains x (ids_of media items) ≡ true
unfolding ids_of set_contains lookup
mem-ids_of media [] x e h own = absurd (ground (arith, h))
mem-ids_of media ((id, f) ∷ items) x e h own = elim (Bool-cases (id == x)) [
  | inl same ↦
      let h' = rw same at h in
      let f_eq : f ≡ e =
        (let k : ◌≡◌ {A = Option Signed} (some f) (some e) = h' in ground (arith, k)) in
      let f_own : staged media f ≡ true = ap (staged media) f_eq ∙ own in
      let back : (x == id) ≡ true = (==_iff x id).1 (sym ((==_iff id x).0 same)) in
      rw f_own (ground (arith, back))
  | inr differ ↦
      let h' = rw differ at h in
      let rest = mem-ids_of media items x e h' own in
      elim (Bool-cases (staged media f)) [
        | inl f_own ↦ rw f_own (ground (arith, rest))
        | inr other ↦ rw other rest
      ]
]

module _ (all : Events) (distinct : IsDistinct all) (s : Subjects) where
  -- A stage gives its events statuses.
  classify_stage-Returns :
      (media : Bool) (out : Statuses)
      → IsStaged all s out
      → (out' : Statuses) × (classify_stage all s media out ≡ some out')
        × IsStaged all s out'
        × Keeps out out'
        × ((x : Hash) (e : Signed)
            → lookup x all ≡ some e
            → staged media e ≡ true
            → contains_key x out' ≡ true)
  unfolding classify_stage Closed
  classify_stage-Returns media out t =
      let ids = ids_of media all in
      let are = ids_of-AreMedia s media all all distinct (λ x e h. h) in
      let size = unclassified-length ids out in
      let (out₁, eq, t₁, keeps) =
        passes-Returns all s (suc (length ids)) ids out are t (omega (arith, size)) in
      let (t', keeps', done) = close_cycles-Closed all s ids out₁ are t₁ in
      (
        close_cycles all s (ids_of media all) out₁,
        rw eq refl,
        t',
        λ x status h. keeps' x status (keeps x status h),
        λ x e held own. done x (mem-ids_of media all x e held own),
      )

  -- From the statuses of the subject events, the classification of edges and media ends; it keeps
  -- those and gives every other event a status.
  pub classify-Returns :
      {SecretKey : Type 0} (crypto : Crypto SecretKey) (out : Statuses)
      → new_subjects crypto all out ≡ some s
      → IsStaged all s out
      → (out' : Statuses) × (classify crypto all out ≡ some out')
        × Keeps out out'
        × IsStaged all s out'
        × ((x : Hash) → contains_key x out' ≡ contains_key x all)
  unfolding classify
  classify-Returns crypto out s_eq t =
      let (out₁, eq₁, t₁, keeps₁, edges) = classify_stage-Returns false out t in
      let (out₂, eq₂, t₂, keeps₂, media) = classify_stage-Returns true out₁ t₁ in
      let keeps = λ (x : Hash) (status : Status) (h : lookup x out ≡ some status).
        keeps₂ x status (keeps₁ x status h) in
      let complete = λ (x : Hash) (e : Signed) (held : lookup x all ≡ some e).
        (let k : contains_key x out₂ ≡ true = elim (Bool-cases (is_subject e)) [
          | inl sub ↦ Keeps-contains_key out out₂ x keeps (t.subjects x e held sub)
          | inr other ↦ elim (Bool-cases (is_attestation (kind_of e.envelope.payload))) [
            | inl att ↦ media x e held (ground (arith, other, att))
            | inr edge ↦
                Keeps-contains_key out₁ out₂ x keeps₂ (edges x e held (ground (arith, other, edge)))
          ]
        ] in
          k) in
      (
        out₂,
        rw s_eq (rw eq₁ eq₂),
        keeps,
        t₂,
        λ x. elim (Bool-cases (contains_key x all)) [
          | inl known ↦
              let (e, held) = key_held x all known in
              let now = complete x e held in ground (arith, now, known)
          | inr unknown ↦ elim (Bool-cases (contains_key x out₂)) [
            | inl has ↦ let known = t₂.known x has in absurd (ground (arith, known, unknown))
            | inr none_ ↦ ground (arith, none_, unknown)
          ]
        ],
      )
