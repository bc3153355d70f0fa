-- ===== src/Admission/Stored.antt =====
-- The statuses that `classify` of crates/cc-ledger/src/v1.rs stores: a new one keeps the invariant.
use clockchain.Prelude.{
  ℕ, ◌<◌, ◌≡◌, refl, ap, ◌∙◌, sym, subst, inl, inr, Bool, true, false, Option, some, [], ◌∷◌, arith,
  ◌==◌, ==_iff, Bool-cases, if◌then◌else◌, length, nat_key,
}
use clockchain.Prelude.Table.{lookup, contains_key}
use clockchain.Prelude.Ordered.{map_insert, length-map_insert, set_contains}
use clockchain.Wire.{Hash}
use clockchain.Wire.Event.{kind_of}
use clockchain.Wire.Signed.{Crypto, Signed}
use clockchain.Ledger.{Events, parents_of}
use clockchain.Ledger.Parts.{Acts}
use clockchain.Edges.{Status, Statuses, is_valid, is_genesis, is_subject}
use clockchain.Admission.Classify.{count_subjects}
use clockchain.Admission.Past.{HasBody, IsAdmitted, IsAuthorized}
use clockchain.Ledger.Where.{events_where}
use clockchain.Edges.Standing.{accepted, contains_key-put, accepted-put, accepted-contains_key}
use clockchain.Admission.Founded.{IsFounded}

-- The events that the loops classify.
abbrev pub of_subject : Hash → Signed → Bool
of_subject id e = is_subject e

abbrev pub subject_events : Events → Events
subject_events all = events_where of_subject all

pub length-subject_events : (all : Events) → length (subject_events all) ≡ count_subjects all
unfolding count_subjects
length-subject_events [] = refl
length-subject_events ((id, e) ∷ all) = ground (arith, length-subject_events all)

module _ {SecretKey : Type 0} (crypto : Crypto SecretKey) (all : Events) (rank : Hash → ℕ)
    (out : Statuses) (a : IsAdmitted crypto all rank out) (id : Hash) (e : Signed)
    (held : lookup id all ≡ some e) (sub : is_subject e ≡ true) (new : contains_key id out ≡ false)
    (status : Status)
    (admits : is_valid status.state ≡ true
      → IsFounded crypto all out id e
        × (is_genesis (kind_of e.envelope.payload) ≡ false → IsAuthorized crypto all e)) where
  -- The new event ranks above the others.
  abbrev pub rank_with : Hash → ℕ
  rank_with y = if id == y then length out else rank y

  -- A fact of the new event, or of an old one.
  of_put :
      (P : Hash → Signed → Type 0)
      → (is_valid status.state ≡ true → P id e)
      → ((x : Hash) (f : Signed) → accepted out x ≡ true → lookup x all ≡ some f → P x f)
      → (x : Hash) (f : Signed) → accepted (map_insert id status out) x ≡ true
      → lookup x all ≡ some f
      → P x f
  of_put P now old x f ok x_held = elim (Bool-cases (id == x)) [
    | inl same ↦
        let x_eq = (==_iff id x).0 same in
        let f_eq : ◌≡◌ {A = Option Signed} (some e) (some f) =
          sym held ∙ (ap (λ k. lookup k all) x_eq ∙ x_held) in
        let e_eq : e ≡ f = ground (arith, f_eq) in
        let valid : is_valid status.state ≡ true =
          ground (arith, accepted-put id x status out, ok, same) in
        subst (λ (y : Hash). P y f) x_eq (subst (λ (k : Signed). P id k) e_eq (now valid))
    | inr differ ↦ old x f (ground (arith, accepted-put id x status out, ok, differ)) x_held
  ]

  parent_put :
      (p : Hash)
      → accepted out p ≡ true
      → (accepted (map_insert id status out) p ≡ true) × ((id == p) ≡ false)
  parent_put p ok = elim (Bool-cases (id == p)) [
    | inl same ↦
        let known = accepted-contains_key out p ok in
        let gone = ap (λ k. contains_key k out) (sym ((==_iff id p).0 same)) ∙ new in
        absurd (ground (arith, known, gone))
    | inr differ ↦ (ground (arith, accepted-put id p status out, ok, differ), differ)
  ]

  pub put-IsAdmitted : IsAdmitted crypto all rank_with (map_insert id status out)
  put-IsAdmitted = record {
    subjects = λ x known. elim (Bool-cases (id == x)) [
      | inl same ↦ (e, ap (λ k. lookup k all) (sym ((==_iff id x).0 same)) ∙ held, sub)
      | inr differ ↦ a.subjects x (ground (arith, contains_key-put id x status out, known, differ))
    ];
    below = λ x known.
        let size = length-map_insert id status out new in
        elim (Bool-cases (id == x)) [
          | inl same ↦ ground (arith, size, same)
          | inr differ ↦
              let old =
                a.below x (ground (arith, contains_key-put id x status out, known, differ)) in
              ground (arith, size, old, differ)
        ];
    parents = λ x f p ok x_held m.
        of_put
          (λ y g.
            set_contains p (parents_of g) ≡ true
            → (accepted (map_insert id status out) p ≡ true) × (rank_with p < rank_with y))
          (λ valid n.
            let (founded, _) = admits valid in
            let p_ok = founded.parents p n in
            let (kept, differ) = parent_put p p_ok in
            let lower = a.below p (accepted-contains_key out p p_ok) in
            (kept, ground (arith, differ, lower)))
          (λ y g y_ok y_held n.
            let (p_ok, lower) = a.parents y g p y_ok y_held n in
            let (kept, differ) = parent_put p p_ok in
            let (_, other) = parent_put y y_ok in (kept, ground (arith, differ, other, lower)))
          x f ok x_held m;
    acts = of_put (λ y g. Acts crypto all y g) (λ valid. (admits valid).0.acts) a.acts;
    bodies = of_put (λ y g. HasBody crypto all g) (λ valid. (admits valid).0.body) a.bodies;
    authorized = λ x f ok x_held.
        of_put (λ y g. is_genesis (kind_of g.envelope.payload) ≡ false → IsAuthorized crypto all g)
          (λ valid. (admits valid).1) a.authorized x f ok x_held;
  }
