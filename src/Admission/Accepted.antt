-- ===== src/Admission/Accepted.antt =====
-- The subject events that `classify` of crates/cc-ledger/src/v1.rs finds valid: they are governed, and
-- what edges read of them is found.
use clockchain.Prelude.{
  ℕ, ◌≡◌, refl, ap, ◌∙◌, sym, subst, inl, inr, Bool, true, ◌&&◌, Option, some, [], ◌∷◌, arith,
  ==_iff, Bool-cases, nat_key,
}
use clockchain.Prelude.Table.{lookup, contains_key, IsDistinct}
use clockchain.Wire.{Hash}
use clockchain.Wire.Signed.{Crypto, Signed}
use clockchain.Ledger.{Events, ◌>>=◌, revision_of, revisions}
use clockchain.Ledger.Authority.{and_then}
use clockchain.Ledger.Order.{key_held, later}
use clockchain.Ledger.Places.{place}
use clockchain.Ledger.Parts.{IsPart, part-IsOrdered}
use clockchain.Ledger.Selections.{
  HasParents, Selects, created, chosen, inherited, selections-Selects,
}
use clockchain.Ledger.Where.{
  events_where, events_where-IsDistinct, lookup-events_where, events_where-lookup,
}
use clockchain.Edges.{Statuses, Subjects, is_valid, is_subject, valid_subjects, new_subjects}
use clockchain.Edges.Standing.{accepted, accepted-contains_key}
use clockchain.Edges.Staged.{IsStaged}
use clockchain.Admission.Revised.{IsMadeBy-revisions}
use clockchain.Admission.Past.{IsAdmitted, accepted-Reaches}

-- Whether an event is a valid subject event.
abbrev pub of_valid : Statuses → Hash → Signed → Bool
of_valid out id e = is_subject e && accepted out id

abbrev pub valid_events : Events → Statuses → Events
valid_events all out = events_where (of_valid out) all

valid_step :
    (out : Statuses) (id : Hash) (e : Signed)
    → (is_subject e ≡ true → contains_key id out ≡ true)
    → and_then (some (is_subject e)) (lookup id out >>= (λ status. some (is_valid status.state)))
      ≡ some (of_valid out id e)
valid_step out id e known = elim (Bool-cases (is_subject e)) [
  | inr other ↦ rw other refl
  | inl own ↦
      let (status, at_) = key_held id out (known own) in
      let same : accepted out id ≡ is_valid status.state = ground (arith, at_) in
      rw own (rw at_ (ap some (sym same)))
]

-- The filter of the code is this one, where every subject event has a status.
pub valid_subjects-events :
    (items : Events) (out : Statuses)
    → IsDistinct items
    → ((x : Hash) (e : Signed)
        → lookup x items ≡ some e
        → is_subject e ≡ true
        → contains_key x out ≡ true)
    → valid_subjects items out ≡ some (valid_events items out)
unfolding valid_subjects lookup
valid_subjects-events [] out d known = refl
valid_subjects-events ((id, e) ∷ items) out d known =
    let step = valid_step out id e (known id e (ground (arith, (==_iff id id).1 refl))) in
    let rest =
      valid_subjects-events items out d.1 (λ x f h own. known x f (later id x e f items d h) own) in
    rw step (rw rest refl)

module _ {SecretKey : Type 0} (crypto : Crypto SecretKey) (all : Events) (distinct : IsDistinct all)
    (rank : Hash → ℕ) (out : Statuses) (a : IsAdmitted crypto all rank out) where
  abbrev part : Events
  part = valid_events all out

  accepted_held :
      (x : Hash)
      → accepted out x ≡ true
      → (e : Signed) × (lookup x all ≡ some e) × (is_subject e ≡ true) × (lookup x part ≡ some e)
  accepted_held x ok =
      let (e, held, own) = a.subjects x (accepted-contains_key out x ok) in
      (e, held, own, lookup-events_where (of_valid out) all x e held (ground (arith, own, ok)))

  pub part_held :
      (x : Hash) (e : Signed)
      → lookup x part ≡ some e
      → (lookup x all ≡ some e) × (accepted out x ≡ true) × (is_subject e ≡ true)
  part_held x e h =
      let (held, kept) = events_where-lookup (of_valid out) all x e distinct h in
      (held, ground (arith, kept), ground (arith, kept))

  -- The valid subject events are a governed part.
  pub valid_events-IsPart : IsPart crypto all rank part
  valid_events-IsPart = record {
    distinct = events_where-IsDistinct (of_valid out) all distinct;
    within = λ x e h. (part_held x e h).0;
    closed = λ x e p h m.
        let (held, ok, _) = part_held x e h in
        let (p_ok, _) = a.parents x e p ok held m in
        let (f, _, _, f_held) = accepted_held p p_ok in ground (arith, f_held);
    ranked = λ x e p h m. let (held, ok, _) = part_held x e h in (a.parents x e p ok held m).1;
    acts = λ x e h. let (held, ok, _) = part_held x e h in a.acts x e ok held;
  }

  pub valid_events-HasParents : HasParents part
  valid_events-HasParents x e h keeps =
      let (held, ok, _) = part_held x e h in (a.bodies x e ok held).rooted keeps

  -- A revision that a valid event selects is one that a valid event makes.
  Selects-revisions :
      (x r : Hash) → Selects crypto part x r → contains_key r (revisions crypto part) ≡ true
  unfolding revision_of
  Selects-revisions x r (created {e} {b} held makes own) =
      IsMadeBy-revisions crypto part r (revision_of crypto x e b)
        (x, e, b, held, makes, sym own, refl)
  Selects-revisions x r (chosen {e} h chooses) =
      let (held, ok, _) = part_held x e h in
      let (p, v, m, reach, (y, f, b, f_held, makes, own, at_)) =
        (a.bodies x e ok held).chosen r chooses in
      let (p_ok, _) = a.parents x e p ok held m in
      let y_ok = accepted-Reaches crypto all rank out a p v.creating_event p_ok reach in
      let y_ok' = subst (λ (z : Hash). accepted out z ≡ true) at_ y_ok in
      let f_in = lookup-events_where (of_valid out) all y f f_held (
        let (g, g_held, g_own, _) = accepted_held y y_ok' in
        let g_eq : ◌≡◌ {A = Option Signed} (some g) (some f) = sym g_held ∙ f_held in
        let f_own : is_subject f ≡ true =
          ap is_subject (let k : f ≡ g = ground (arith, g_eq) in k) ∙ g_own in
        ground (arith, f_own, y_ok')) in
      IsMadeBy-revisions crypto part r v (y, f, b, f_in, makes, own, at_)
  Selects-revisions x r (inherited {p} h keeps p_eq s) = Selects-revisions p r s

  -- What edges read of the subjects is found, and the classification of edges can start.
  pub new_subjects-IsStaged :
      ((x : Hash) (e : Signed)
        → lookup x all ≡ some e
        → is_subject e ≡ true
        → contains_key x out ≡ true)
      → (s : Subjects) × (new_subjects crypto all out ≡ some s) × IsStaged all s out
  unfolding new_subjects
  new_subjects-IsStaged complete =
      let ordered = part-IsOrdered crypto all rank part valid_events-IsPart in
      let (selected, eq, keys, selects) =
        selections-Selects crypto part (λ x. place rank part (rank x)) ordered
          valid_events-HasParents in
      (
        record { valid = part; selected = selected; revisions = revisions crypto part },
        rw (valid_subjects-events all out distinct complete) (rw eq refl),
        record {
          known = λ x h. let (e, held, _) = a.subjects x h in ground (arith, held);
          subjects = complete;
          parents = λ x e p ok held m. (a.parents x e p ok held m).0;
          selects = λ x e ok held own.
              let (f, _, _, f_held) = accepted_held x ok in
              let (r, at_) = key_held x selected ((keys x).1 (ground (arith, f_held))) in
              (r, at_, Selects-revisions x r ((selects x r).0 at_));
        },
      )
