-- ===== src/Projection/Projected.antt =====
-- All readings of subjects in `project` of crates/cc-ledger/src/v1/projection.rs: they are found,
-- whatever the candidates are.
use clockchain.Prelude.{
  ◌≡◌, ◌↔◌, refl, ap, ap₂, ◌∙◌, sym, subst, inl, inr, true, false, Option, some, List, [], ◌∷◌, All,
  map, arith, ◌==◌, ==_iff, Bool-cases, nat_key,
}
use clockchain.Prelude.Table.{lookup, IsDistinct}
use clockchain.Prelude.Ordered.{set_contains}
use clockchain.Wire.{Hash}
use clockchain.Wire.Event.{kind_of}
use clockchain.Wire.Signed.{Crypto, Signed}
use clockchain.Ledger.{Events, unwrap_or}
use clockchain.Ledger.Authority.{Authority, keys}
use clockchain.Ledger.Parts.{part-IsOrdered}
use clockchain.Ledger.Places.{place}
use clockchain.Ledger.Selections.{Selects, selections-Selects}
use clockchain.Ledger.Where.{events_where}
use clockchain.Edges.{is_genesis}
use clockchain.Edges.Endpoint.{SubjectReading}
use clockchain.Admission.Views.{GrantsApart}
use clockchain.Admission.Classify.{Analysis, admitted_subjects, analyze}
use clockchain.Admission.Analyzed.{analyze-IsPart}
use clockchain.Projection.{Row, Ancestors, events_of, read_subject, read_subjects, project_subjects}
use clockchain.Projection.Sets.{events_of-lookup}
use clockchain.Projection.Frontier.{IsSurveyed}
use clockchain.Projection.Readings.{IsReading, HasRow, read_subject-IsReading}
use clockchain.Projection.Pasts.{ancestors_of-Reaches, starts, new_key}

module _ (valid : Events) (a : Authority) (ancestors : Ancestors) where
  -- A reading, and rows of all events of its subject.
  abbrev pub IsRead : List (Hash × Row) → SubjectReading → Type 0
  IsRead states reading =
      IsReading valid a ancestors reading
      × ((x : Hash)
          → set_contains x (events_of reading.subject valid) ≡ true
          → HasRow valid a ancestors reading states x)

module _ (valid : Events) (a : Authority) (ancestors : Ancestors)
    (w : IsSurveyed valid a ancestors) where
  read_skip :
      (id : Hash) (e : Signed) (events : Events) (states : List (Hash × Row))
      → is_genesis (kind_of e.envelope.payload) ≡ false
      → read_subjects a ancestors valid ((id, e) ∷ events) states
        ≡ read_subjects a ancestors valid events states
  unfolding read_subjects
  read_skip id e events states h = rw (h, read_subjects) refl

  read_step :
      (id : Hash) (e : Signed) (events : Events) (states states' states'' : List (Hash × Row))
      (reading : SubjectReading) (readings : List SubjectReading)
      → is_genesis (kind_of e.envelope.payload) ≡ true
      → read_subject a ancestors valid id states ≡ some (reading, states')
      → read_subjects a ancestors valid events states' ≡ some (readings, states'')
      → read_subjects a ancestors valid ((id, e) ∷ events) states
        ≡ some (reading ∷ readings, states'')
  unfolding read_subjects
  read_step id e events states states' states'' reading readings h eq rest =
      rw (h, read_subjects) (rw (eq, read_subjects) (rw (rest, read_subjects) refl))

  -- No event is of two subjects.
  events_of-apart :
      (x s t : Hash)
      → set_contains x (events_of s valid) ≡ true
      → (s == t) ≡ false
      → set_contains x (events_of t valid) ≡ false
  events_of-apart x s t m differ = elim (Bool-cases (set_contains x (events_of t valid))) [
    | inr none_ ↦ none_
    | inl both ↦
        let (e, held, is_s) = (events_of-lookup s valid x w.distinct).0 m in
        let (f, f_held, is_t) = (events_of-lookup t valid x w.distinct).0 both in
        let same : ◌≡◌ {A = Option Signed} (some f) (some e) = sym f_held ∙ held in
        let f_eq : f ≡ e = ground (arith, same) in
        let s_eq = (==_iff (unwrap_or e.envelope.subject x) s).0 is_s in
        let t_eq = (==_iff (unwrap_or f.envelope.subject x) t).0 is_t in
        let joined : s ≡ t =
          sym s_eq ∙ (sym (ap (λ (g : Signed). unwrap_or g.envelope.subject x) f_eq) ∙ t_eq) in
        let now = (==_iff s t).1 joined in absurd (ground (arith, now, differ))
  ]

  -- The events of no subject of a list keep their rows.
  abbrev Untouched : Events → List (Hash × Row) → List (Hash × Row) → Type 0
  Untouched items states states' =
      (x : Hash)
      → ((s : Hash)
          → set_contains s (keys (events_where starts items)) ≡ true
          → set_contains x (events_of s valid) ≡ false)
      → lookup x states' ≡ lookup x states

  -- One reading for each genesis event, in their order.
  read_subjects-AreReadings :
      (items : Events) (states : List (Hash × Row))
      → IsDistinct items
      → (readings : List SubjectReading) × (states' : List (Hash × Row)) × (read_subjects a
            ancestors valid items states
          ≡ some (readings, states'))
        × All (IsRead valid a ancestors states') readings
        × (map (λ (r : SubjectReading). r.subject) readings ≡ keys (events_where starts items))
        × Untouched items states states'
  unfolding read_subjects set_contains
  read_subjects-AreReadings [] states d = ([], states, refl, tt, refl, λ x h. refl)
  read_subjects-AreReadings ((id, e) ∷ items) states d =
      elim (Bool-cases (is_genesis (kind_of e.envelope.payload))) [
        | inr other ↦
            let (readings, states', eq, are, ids, kept) =
              read_subjects-AreReadings items states d.1 in
            (
              readings,
              states',
              read_skip id e items states other ∙ eq,
              are,
              rw other ids,
              λ x h. kept x (rw other at h),
            )
        | inl first_ ↦
            let (reading, states₁, eq₁, own, is, rows, others) =
              read_subject-IsReading valid a ancestors w id states in
            let (readings, states', eq, are, ids, kept) =
              read_subjects-AreReadings items states₁ d.1 in
            let later_ = λ (x : Hash) (m : set_contains x (events_of id valid) ≡ true).
              kept x (λ s n. events_of-apart x id s m (new_key id s items d.0 n)) in
            (
              reading ∷ readings,
              states',
              read_step id e items states states₁ states' reading readings first_ eq₁ eq,
              (
                (
                  is,
                  λ x m.
                      let m' =
                        subst (λ (z : Hash). set_contains x (events_of z valid) ≡ true) own m in
                      let (row, at_, head_, front) = rows x m' in
                      (row, later_ x m' ∙ at_, head_, front),
                ),
                are,
              ),
              rw first_ (ap₂ (λ (x : Hash) (xs : List Hash). x ∷ xs) own ids),
              λ x h.
                  let h' = rw first_ at h in
                  kept x (λ s n. h' s (ground (arith, n)))
                  ∙ others x (h' id (ground (arith, (==_iff id id).1 refl))),
            )
      ]

module _ {SecretKey : Type 0} (crypto : Crypto SecretKey) (all : Events) (distinct : IsDistinct all)
    (apart : GrantsApart crypto all) where
  -- The readings of subjects are found and no index fails, whatever the candidates are, if ids
  -- stand once and no two events make one grant. A valid event selects the revision that its
  -- meaning gives. There is one reading for each valid genesis event, in order. Its frontier has
  -- exactly the eligible events that are in the past of no other eligible event of the subject and
  -- of no effective revocation of it; it is resolved exactly if that is one event, and frozen
  -- exactly if no active grant is of it. Every event of the subject has a row, which is the head
  -- exactly if the event is the whole frontier.
  pub project_subjects-AreReadings :
      (a : Analysis) × (valid : Events) × (ancestors : Ancestors) × (selected : List (Hash × Hash))
      × (readings : List SubjectReading) × (states : List (Hash × Row)) × (analyze crypto all
          ≡ some a)
      × (admitted_subjects all a.admission ≡ some valid)
      × (project_subjects crypto all ≡ some (selected, readings, states))
      × ((x r : Hash) → (lookup x selected ≡ some r) ↔ Selects crypto valid x r)
      × All (IsRead valid a.authority ancestors states) readings
      × (map (λ (r : SubjectReading). r.subject) readings ≡ keys (events_where starts valid))
  unfolding project_subjects
  project_subjects-AreReadings =
      let (a, valid, rank, eq, valid_eq, part, rooted, effects, is) =
        analyze-IsPart crypto all distinct apart in
      let (ancestors, anc_eq, pasts) = ancestors_of-Reaches valid valid part.closed (λ x h. h) in
      let (selected, s_eq, _, selects) =
        selections-Selects crypto valid (λ x. place rank valid (rank x))
          (part-IsOrdered crypto all rank valid part) rooted in
      let surveyed : IsSurveyed valid a.authority ancestors = record {
        distinct = part.distinct;
        effects = effects;
        pasts = pasts;
        granted = is.active;
      } in
      let (readings, states, r_eq, are, ids, _) =
        read_subjects-AreReadings valid a.authority ancestors surveyed valid [] part.distinct in
      (
        a,
        valid,
        ancestors,
        selected,
        readings,
        states,
        eq,
        valid_eq,
        rw eq (rw valid_eq (rw s_eq (rw anc_eq (rw r_eq refl)))),
        selects,
        are,
        ids,
      )
