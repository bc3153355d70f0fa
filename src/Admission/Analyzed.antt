-- ===== src/Admission/Analyzed.antt =====
-- `analyze` of crates/cc-ledger/src/v1.rs: the statuses of all events, and the authority of the valid
-- subject events.
use clockchain.Prelude.{
  ℕ, ◌≡◌, refl, ap, ◌∙◌, sym, inl, inr, Bool, true, ◌&&◌, Option, some, [], ◌∷◌, arith, ==_iff,
  Bool-cases, if◌then◌else◌, nat_key,
}
use clockchain.Prelude.Table.{lookup, contains_key, IsDistinct}
use clockchain.Prelude.Ordered.{set_contains}
use clockchain.Wire.{Hash}
use clockchain.Wire.Signed.{Crypto, Signed}
use clockchain.Ledger.{Events, parents_of}
use clockchain.Ledger.Authority.{Grant}
use clockchain.Ledger.Order.{key_held, later}
use clockchain.Ledger.Governed.{Makes}
use clockchain.Ledger.Selections.{HasParents}
use clockchain.Ledger.Places.{place}
use clockchain.Ledger.Parts.{IsPart, part-IsGoverned}
use clockchain.Ledger.Derived.{derive-IsView}
use clockchain.Ledger.Where.{lookup-events_where}
use clockchain.Edges.{Status, Statuses, is_valid, is_subject}
use clockchain.Edges.Standing.{accepted, accepted-contains_key}
use clockchain.Edges.Kept.{Keeps}
use clockchain.Edges.Classified.{classify-Returns}
use clockchain.Admission.Views.{GrantsApart}
use clockchain.Admission.Classify.{admission, Analysis, admitted_subjects, analyze}
use clockchain.Admission.Admitted.{classify_subjects-IsPassing}
use clockchain.Admission.Accepted.{
  of_valid, valid_events, valid_events-IsPart, valid_events-HasParents, part_held,
  new_subjects-IsStaged,
}

-- Whether a subject event is valid stays so.
kept_status :
    (out out' : Statuses) (id : Hash) (e : Signed) (status : Status)
    → (is_subject e ≡ true → contains_key id out ≡ true)
    → Keeps out out'
    → lookup id out' ≡ some status
    → (is_valid status.state && is_subject e) ≡ of_valid out id e
kept_status out out' id e status known keeps at_ = elim (Bool-cases (is_subject e)) [
  | inr other ↦ ground (arith, other)
  | inl own ↦
      let (old, old_at) = key_held id out (known own) in
      let both : ◌≡◌ {A = Option Status} (some old) (some status) =
        sym (keeps id old old_at) ∙ at_ in
      let old_eq : old ≡ status = ground (arith, both) in
      let now : accepted out id ≡ is_valid status.state =
        (let k : accepted out id ≡ is_valid old.state = ground (arith, old_at) in
          k ∙ ap (λ (t : Status). is_valid t.state) old_eq) in
      ground (arith, own, now)
]

-- The filter of `analyze` finds the valid subject events of the first loop.
admitted_subjects-events :
    (items : Events) (out out' : Statuses)
    → IsDistinct items
    → ((x : Hash) (e : Signed)
        → lookup x items ≡ some e
        → is_subject e ≡ true
        → contains_key x out ≡ true)
    → Keeps out out'
    → ((x : Hash) (e : Signed) → lookup x items ≡ some e → contains_key x out' ≡ true)
    → admitted_subjects items out' ≡ some (valid_events items out)
unfolding admitted_subjects lookup
admitted_subjects-events [] out out' d known keeps complete = refl
admitted_subjects-events ((id, e) ∷ items) out out' d known keeps complete =
    let here_ : lookup id ((id, e) ∷ items) ≡ some e = ground (arith, (==_iff id id).1 refl) in
    let (status, at_) = key_held id out' (complete id e here_) in
    let rest =
      admitted_subjects-events items out out' d.1
        (λ x f h own. known x f (later id x e f items d h) own) keeps
        (λ x f h. complete x f (later id x e f items d h)) in
    let same = kept_status out out' id e status (known id e here_) keeps at_ in
    rw at_ (
      rw rest (
        ap
          (λ (b : Bool).
            some (if b then (id, e) ∷ valid_events items out else valid_events items out))
          same))

module _ {SecretKey : Type 0} (crypto : Crypto SecretKey) (all : Events) where
  -- What `analyze` answers: every event has a status, and the parents of a valid
  -- event are valid; each grant is made by a valid subject event,
  -- an active one is known with its issuer, and each valid subject event has an effect.
  pub record IsAnalysis (a : Analysis) : Type 0 where
    pub total : (x : Hash) → contains_key x a.admission ≡ contains_key x all
    pub parents :
        (x : Hash) (e : Signed) (p : Hash)
        → accepted a.admission x ≡ true
        → lookup x all ≡ some e
        → set_contains p (parents_of e) ≡ true
        → accepted a.admission p ≡ true
    pub made :
        (g : Hash) (grant : Grant)
        → lookup g a.authority.grants ≡ some grant
        → (x : Hash) × (e : Signed) × (lookup x all ≡ some e)
          × (is_subject e ≡ true)
          × (accepted a.admission x ≡ true)
          × Makes crypto all x e g grant
    pub active :
        (g : Hash)
        → set_contains g a.authority.active ≡ true
        → contains_key g a.authority.grants ≡ true
    pub issuers :
        (g : Hash) (grant : Grant) (i : Hash)
        → lookup g a.authority.grants ≡ some grant
        → grant.issuer ≡ some i
        → contains_key i a.authority.grants ≡ true
    pub effects :
        (x : Hash) (e : Signed)
        → lookup x all ≡ some e
        → is_subject e ≡ true
        → accepted a.admission x ≡ true
        → contains_key x a.authority.effects ≡ true

  module _ (distinct : IsDistinct all) (apart : GrantsApart crypto all) where
    -- The answer, with the valid subject events that it is about.
    pub analyze-IsPart :
        (a : Analysis) × (valid : Events) × (rank : Hash → ℕ) × (analyze crypto all ≡ some a)
        × (admitted_subjects all a.admission ≡ some valid)
        × IsPart crypto all rank valid
        × HasParents valid
        × ((x : Hash) → contains_key x valid ≡ true → contains_key x a.authority.effects ≡ true)
        × IsAnalysis a
    unfolding analyze admission
    analyze-IsPart =
        let (out, eq, pass, complete) = classify_subjects-IsPassing crypto all distinct apart in
        let (s, s_eq, staged) =
          new_subjects-IsStaged crypto all distinct pass.rank out pass.admitted complete in
        let (out', eq', keeps, staged', total) =
          classify-Returns all distinct s crypto out s_eq staged in
        let w = valid_events-IsPart crypto all distinct pass.rank out pass.admitted in
        let found = λ (x : Hash) (e : Signed) (h : lookup x (valid_events all out) ≡ some e).
          part_held crypto all distinct pass.rank out pass.admitted x e h in
        let (view, view_eq, v) =
          derive-IsView crypto (valid_events all out)
            (λ x. place pass.rank (valid_events all out) (pass.rank x))
            (part-IsGoverned crypto all pass.rank (valid_events all out) w) in
        let known' = λ (x : Hash) (e : Signed) (held : lookup x all ≡ some e).
          total x ∙ (let k : contains_key x all ≡ true = ground (arith, held) in k) in
        let valid_eq = admitted_subjects-events all out out' distinct complete keeps known' in
        (
          record { admission = out'; authority = view },
          valid_events all out,
          pass.rank,
          rw (eq, admission) (rw (eq', admission) (rw valid_eq (rw view_eq refl))),
          valid_eq,
          w,
          valid_events-HasParents crypto all distinct pass.rank out pass.admitted,
          v.effective,
          record {
            total = total;
            parents = staged'.parents;
            made = λ g grant h.
                let (x, e, e_held, makes) = v.owned g grant h in
                let (held, ok, own) = found x e e_held in
                let (status, at_) = key_held x out (accepted-contains_key out x ok) in
                let at' = keeps x status at_ in
                let now : accepted out' x ≡ true = ground (arith, at_, at', ok) in
                (x, e, held, own, now, makes);
            active = v.known;
            issuers = v.issuers;
            effects = λ x e held own ok.
                let (status, at_) = key_held x out' (known' x e held) in
                let same = kept_status out out' x e status (complete x e held) keeps at_ in
                let now : of_valid out x e ≡ true = ground (arith, at_, same, own, ok) in
                let e_held = lookup-events_where (of_valid out) all x e held now in
                v.effective x (ground (arith, e_held));
          },
        )

    -- The analysis ends and no index fails, whatever the candidates are, if ids stand once and no two
    -- events make one grant. Every event has a status, and the parents of a valid event are valid; a
    -- grant of the authority is made by a valid subject event, an active one is there, and so is the
    -- issuer of each; and every valid subject event has an effect.
    pub analyze-IsAnalysis : (a : Analysis) × (analyze crypto all ≡ some a) × IsAnalysis a
    analyze-IsAnalysis = let (a, _, _, eq, _, _, _, _, is) = analyze-IsPart in (a, eq, is)
