-- ===== src/Admission/Admitted.antt =====
-- `classify` of crates/cc-ledger/src/v1.rs on the subject events: it ends, whatever the candidates are,
-- and what it finds valid is governed.
use clockchain.Prelude.{
  ℕ, zero, suc, ◌<◌, ◌≡◌, ◌↔◌, refl, ◌∙◌, inl, inr, true, false, some, [], arith, ltb, ◌==◌,
  Bool-cases, length, nat_key,
}
use clockchain.Prelude.Table.{lookup, contains_key, IsDistinct}
use clockchain.Wire.{Hash}
use clockchain.Wire.Signed.{Crypto, Signed}
use clockchain.Ledger.{Events}
use clockchain.Ledger.Order.{Held-self}
use clockchain.Ledger.Missing.{missing, missing_all, missing_zero, missing_none}
use clockchain.Edges.{Status, Statuses, is_subject}
use clockchain.Admission.Classify.{
  count_subjects, close_subjects, subject_pass, subject_passes, classify_subjects,
}
use clockchain.Admission.Views.{GrantsApart}
use clockchain.Admission.Stored.{of_subject, subject_events, length-subject_events}
use clockchain.Ledger.Where.{lookup-events_where, events_where-lookup, events_where-IsDistinct}
use clockchain.Admission.Passes.{IsPassing, pass-IsPassing, close-IsPassing}

module _ {SecretKey : Type 0} (crypto : Crypto SecretKey) (all : Events)
    (distinct : IsDistinct all) where
  passes_done :
      (fuel : ℕ) (out : Statuses)
      → ltb (length out) (count_subjects all) ≡ false
      → subject_passes crypto all (suc fuel) out ≡ some out
  unfolding subject_passes
  passes_done fuel out h = rw (h, subject_passes) refl

  passes_more :
      (fuel : ℕ) (out out' : Statuses)
      → ltb (length out) (count_subjects all) ≡ true
      → subject_pass crypto all all out ≡ some out'
      → (length out' == length out) ≡ false
      → subject_passes crypto all (suc fuel) out ≡ subject_passes crypto all fuel out'
  unfolding subject_passes
  passes_more fuel out out' h eq grown =
      rw (h, subject_passes) (rw (eq, subject_passes) (rw (grown, subject_passes) refl))

  passes_close :
      (fuel : ℕ) (out out' : Statuses)
      → ltb (length out) (count_subjects all) ≡ true
      → subject_pass crypto all all out ≡ some out'
      → (length out' == length out) ≡ true
      → subject_passes crypto all (suc fuel) out
        ≡ subject_passes crypto all fuel (close_subjects all out')
  unfolding subject_passes
  passes_close fuel out out' h eq same =
      rw (h, subject_passes) (rw (eq, subject_passes) (rw (same, subject_passes) refl))

  -- Every subject event has a status.
  abbrev pub IsComplete : Statuses → Type 0
  IsComplete out =
      (x : Hash) (e : Signed)
      → lookup x all ≡ some e
      → is_subject e ≡ true
      → contains_key x out ≡ true

  IsComplete-zero :
      (out : Statuses) → IsComplete out → missing contains_key (subject_events all) out ≡ 0
  IsComplete-zero out done =
      missing_zero contains_key (subject_events all) out
        (λ x e h.
          let (held, own) = events_where-lookup of_subject all x e distinct h in done x e held own)
        (events_where-IsDistinct of_subject all distinct)

  zero-IsComplete :
      (out : Statuses) → missing contains_key (subject_events all) out ≡ 0 → IsComplete out
  zero-IsComplete out none_left x e held own =
      missing_none contains_key (subject_events all) out x e none_left
        (lookup-events_where of_subject all x e held own)

  start-IsPassing : IsPassing crypto all distinct []
  unfolding lookup
  start-IsPassing = record {
    rank = λ x. 0;
    admitted = record {
      subjects = λ x h. absurd (ground (arith, h));
      below = λ x h. absurd (ground (arith, h));
      parents = λ x e p h held m. absurd (ground (arith, h));
      acts = λ x e h held. absurd (ground (arith, h));
      bodies = λ x e h held. absurd (ground (arith, h));
      authorized = λ x e h held g. absurd (ground (arith, h));
    };
    counted =
        let size = length-subject_events all in
        let fresh = missing_all (contains_key {V = Status}) (subject_events all) [] (λ x. refl) in
        omega (arith, size, fresh);
  }

  module _ (apart : GrantsApart crypto all) where
    passes-Returns :
        (fuel : ℕ) (out : Statuses)
        → IsPassing crypto all distinct out
        → missing contains_key (subject_events all) out < fuel
        → (out' : Statuses) × (subject_passes crypto all fuel out ≡ some out')
          × IsPassing crypto all distinct out'
          × IsComplete out'
    passes-Returns zero out s lt = absurd (omega arith)
    passes-Returns (suc fuel) out s lt = elim (Bool-cases (ltb (length out) (count_subjects all))) [
      | inr done ↦
          let none_left : missing contains_key (subject_events all) out ≡ 0 =
            ground (arith, s.counted, done) in
          (out, passes_done fuel out done, s, zero-IsComplete out none_left)
      | inl more ↦
          let (out₁, eq₁, t, le) =
            pass-IsPassing crypto all distinct apart all out (Held-self all distinct) s in
          elim (Bool-cases (length out₁ == length out)) [
            | inr grown ↦
                let fewer : missing contains_key (subject_events all) out₁ < fuel =
                  ground (arith, s.counted, t.counted, le, grown, lt) in
                let (out', eq, t', all_) = passes-Returns fuel out₁ t fewer in
                (out', passes_more fuel out out₁ more eq₁ grown ∙ eq, t', all_)
            | inl same ↦
                let (t₂, _, closed) =
                  close-IsPassing crypto all distinct all out₁ (Held-self all distinct) t in
                let none_left = IsComplete-zero (close_subjects all out₁) closed in
                let room : 0 < fuel = ground (arith, s.counted, more, lt) in
                let (out', eq, t', all_) =
                  passes-Returns fuel (close_subjects all out₁) t₂
                    (omega (arith, none_left, room)) in
                (out', passes_close fuel out out₁ more eq₁ same ∙ eq, t', all_)
          ]
    ]

    pub classify_subjects-IsPassing :
        (out : Statuses) × (classify_subjects crypto all ≡ some out)
        × IsPassing crypto all distinct out
        × IsComplete out
    unfolding classify_subjects lookup
    classify_subjects-IsPassing =
        let size = length-subject_events all in
        let fresh = missing_all (contains_key {V = Status}) (subject_events all) [] (λ x. refl) in
        passes-Returns (suc (count_subjects all)) [] start-IsPassing (omega (arith, size, fresh))

    -- The classification of subject events ends and no index fails, whatever the candidates are, if ids
    -- stand once and no two events make one grant. It gives exactly the subject events a status.
    pub classify_subjects-Returns :
        (out : Statuses) × (classify_subjects crypto all ≡ some out)
        × ((x : Hash)
            → (contains_key x out ≡ true)
              ↔ ((e : Signed) × (lookup x all ≡ some e) × (is_subject e ≡ true)))
    classify_subjects-Returns =
        let (out, eq, s, done) = classify_subjects-IsPassing in
        (out, eq, λ x. (s.admitted.subjects x, λ (e, held, own). done x e held own))
