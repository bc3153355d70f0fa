-- ===== src/Filter/Agree.antt =====
-- The two paths of crates/cc-filter/src/filter.rs: the certificate against the short-circuiting
-- judgment.
use clockchain.Prelude.{
  ◌≡◌, refl, ◌∙◌, true, Option, none, some, List, [], ◌∷◌, ◌++◌, arith, append-nil, append_assoc,
  ok, ok-bind,
}
use clockchain.Prelude.Ordered.{set_of}
use clockchain.Filter.{
  EventId, Windowed, Admitted, PhiSupport, CorpusView, AbsenceWitness, Verdict, supported,
  unsupported, contradicted, kind, support_of, Judgment, Certificate, consensus_projection,
  Reachability, within, none_within,
}
use clockchain.Filter.Reach.{known_k}
use clockchain.Filter.Judge.{
  FeasibilityQuery, FactorOutcome, holds, absent, contrary, Filter, Tally, tally, conclude, combine,
  absences_of, contradictions_of, settle, feasibility, reach_outcome, reach_support, certificate_of,
  certify, check_query, read-ok, window_factor, admiss_factor, judge, admitted_provenance,
  reach_consulted,
}

-- The same ruling: the same support, the same contrary evidence, or the first of the absences.
abbrev pub SameRuling : Verdict → Verdict → Type 0
SameRuling (supported s) (supported s') = s ≡ s'
SameRuling (contradicted c) (contradicted c') = c ≡ c'
SameRuling (unsupported as_) (unsupported bs) =
    (a : AbsenceWitness) × (rest : List AbsenceWitness) × (as_ ≡ a ∷ []) × (bs ≡ a ∷ rest)
SameRuling _ _ = ⊥

-- The verdict of the first zero.
unfoldable pub hot : List FactorOutcome → Reachability → Verdict
hot [] (within s) = supported s
hot [] (none_within w) = unsupported (w ∷ [])
hot (holds ∷ os) r = hot os r
hot (absent w ∷ os) r = unsupported (w ∷ [])
hot (contrary w ∷ os) r = contradicted w

-- After a zero only the absences grow.
tally-after :
    (os : List FactorOutcome) (t : Tally)
    → t.any_zero ≡ true
    → tally os t ≡ record {
      absences = t.absences ++ absences_of os;
      first_zero_is_contrary = t.first_zero_is_contrary;
      any_zero = true;
    }
unfolding tally absences_of
tally-after [] t z = ground (arith, append-nil t.absences)
tally-after (holds ∷ os) t z = tally-after os t z
tally-after (absent w ∷ os) t z = ground (
  arith,
  tally-after os (record t { absences = t.absences ++ w ∷ []; any_zero = true }),
  append_assoc t.absences (w ∷ []) (absences_of os),
)
tally-after (contrary w ∷ os) t z = rw z (
    tally-after os (record t { first_zero_is_contrary = t.first_zero_is_contrary; any_zero = true })
      refl)

combine-hot :
    (os : List FactorOutcome) (r : Reachability)
    → (w : Verdict) × (combine (os ++ reach_outcome r ∷ []) (reach_support r) ≡ some w)
      × SameRuling (hot os r) w
unfolding combine tally conclude hot
combine-hot [] (within s) = (supported s, refl, refl)
combine-hot [] (none_within w) = (unsupported (w ∷ []), refl, (w, [], refl, refl))
combine-hot (holds ∷ os) r = combine-hot os r
combine-hot (absent w ∷ os) r =
    let after =
      tally-after (os ++ reach_outcome r ∷ [])
        (record { absences = w ∷ []; first_zero_is_contrary = none; any_zero = true }) refl in
    (
      unsupported (w ∷ absences_of (os ++ reach_outcome r ∷ [])),
      rw after refl,
      (w, absences_of (os ++ reach_outcome r ∷ []), refl, refl),
    )
combine-hot (contrary w ∷ os) r =
    let after =
      tally-after (os ++ reach_outcome r ∷ [])
        (record { absences = []; first_zero_is_contrary = some w; any_zero = true }) refl in
    (contradicted w, rw after refl, refl)

abbrev pub factors : FeasibilityQuery → Windowed → Windowed → Admitted → List FactorOutcome
factors q w0 w1 a =
    window_factor w0 q.t_q q.subjects.0
    ∷ window_factor w1 q.t_q q.subjects.1
    ∷ admiss_factor a q.claim
    ∷ []

module _ (f : Filter) (v : CorpusView) where
  settle-hot :
      (o0 o1 o2 : FactorOutcome) (r : Reachability)
      → settle f v o0 (
          settle f v o1 (
            settle f v o2 (
              ok (elim r [
                | within support ↦ judge f v (supported support)
                | none_within w ↦ judge f v (unsupported (w ∷ []))
              ]))))
        ≡ ok (judge f v (hot (o0 ∷ o1 ∷ o2 ∷ []) r))
  unfolding settle hot
  settle-hot (absent w) o1 o2 r = refl
  settle-hot (contrary w) o1 o2 r = refl
  settle-hot holds (absent w) o2 r = refl
  settle-hot holds (contrary w) o2 r = refl
  settle-hot holds holds (absent w) r = refl
  settle-hot holds holds (contrary w) r = refl
  settle-hot holds holds holds (within s) = refl
  settle-hot holds holds holds (none_within w) = refl

  -- What `certify` has read when it returns.
  abbrev pub Reads : FeasibilityQuery → Windowed → Windowed → Admitted → Reachability → Type 0
  Reads q w0 w1 a r =
      (check_query f q ≡ ok tt)
      × (v.window q.subjects.0 q.t_q ≡ ok w0)
      × (v.window q.subjects.1 q.t_q ≡ ok w1)
      × (v.admissibility q.claim q.t_q ≡ ok a)
      × (known_k v q.subjects.0 q.subjects.1 q.k q.t_q ≡ ok r)

  feasibility-Reads :
      (q : FeasibilityQuery) (w0 w1 : Windowed) (a : Admitted) (r : Reachability)
      → Reads q w0 w1 a r
      → feasibility f v q ≡ ok (judge f v (hot (factors q w0 w1 a) r))
  unfolding feasibility
  feasibility-Reads q w0 w1 a r (c, e0, e1, ea, er) = rw (c, e0, e1, ea, er) (settle-hot _ _ _ r)

  certify-Reads :
      (q : FeasibilityQuery) (c : Option Certificate)
      → certify f v q ≡ ok c
      → (w0 : Windowed) × (w1 : Windowed) × (a : Admitted) × (r : Reachability) × Reads q w0 w1 a r
        × (c
            ≡ certificate_of f v
                (factors q w0 w1 a ++ reach_outcome r ∷ [])
                (w0.derived_from ++ w1.derived_from ++ admitted_provenance a ++ reach_consulted r)
                (reach_support r))
  unfolding certify
  certify-Reads q c h =
      let (u, hu, h0) = ok-bind h in
      let (w0, e0, h1) = ok-bind h0 in
      let (w1, e1, h2) = ok-bind h1 in
      let (a, ea, h3) = ok-bind h2 in
      let (r, er, h4) = ok-bind h3 in
      (w0, w1, a, r, (hu, read-ok e0, read-ok e1, read-ok ea, read-ok er), ground arith)

  SameRuling-projection :
      (a b : Verdict)
      → SameRuling a b
      → consensus_projection (judge f v a) ≡ consensus_projection (judge f v b)
  unfolding consensus_projection kind support_of
  SameRuling-projection (supported s) (supported s') h = ground arith
  SameRuling-projection (contradicted c) (contradicted c') h = refl
  SameRuling-projection (unsupported as_) (unsupported bs) h = refl
  SameRuling-projection (supported s) (contradicted c) h = absurd h
  SameRuling-projection (supported s) (unsupported bs) h = absurd h
  SameRuling-projection (contradicted c) (supported s) h = absurd h
  SameRuling-projection (contradicted c) (unsupported bs) h = absurd h
  SameRuling-projection (unsupported as_) (supported s) h = absurd h
  SameRuling-projection (unsupported as_) (contradicted c) h = absurd h

  abbrev pub certificate : List FactorOutcome → List EventId → Verdict → Certificate
  certificate outcomes consulted w = record {
    judgment = judge f v w;
    consulted = set_of consulted;
    absences = absences_of outcomes;
    contradictions = contradictions_of outcomes;
  }

  certificate_of-combine :
      (os : List FactorOutcome) (es : List EventId) (support : Option PhiSupport) (w : Verdict)
      → combine os support ≡ some w
      → certificate_of f v os es support ≡ some (certificate os es w)
  unfolding certificate_of
  certificate_of-combine os es support w h = rw (h, certificate_of) refl

  -- The certificate of a query, from what was read.
  pub certify-inverts :
      (q : FeasibilityQuery) (c : Option Certificate)
      → certify f v q ≡ ok c
      → (w0 : Windowed) × (w1 : Windowed) × (a : Admitted) × (r : Reachability) × (w : Verdict)
        × Reads q w0 w1 a r
        × (c
            ≡ some (
                certificate
                  (factors q w0 w1 a ++ reach_outcome r ∷ [])
                  (w0.derived_from ++ w1.derived_from ++ admitted_provenance a ++ reach_consulted r)
                  w))
        × SameRuling (hot (factors q w0 w1 a) r) w
  certify-inverts q c h =
      let (w0, w1, a, r, reads, e) = certify-Reads q c h in
      let os = factors q w0 w1 a in
      let (w, folded, same) = combine-hot os r in
      (w0, w1, a, r, w, reads, e ∙ certificate_of-combine _ _ (reach_support r) w folded, same)

  -- When the audit path reads all it needs, it does not panic and returns a certificate, and the hot
  -- path on the same query returns a judgment with the same consensus projection, the same corpus
  -- digest and the same ruling: the same support, the same contrary evidence, or, of the audit
  -- path's absences, the first alone.
  pub certify-agrees :
      (q : FeasibilityQuery) (c : Option Certificate)
      → certify f v q ≡ ok c
      → (cert : Certificate) × (j : Judgment) × (c ≡ some cert)
        × (feasibility f v q ≡ ok j)
        × (consensus_projection j ≡ consensus_projection cert.judgment)
        × (j.corpus_digest ≡ cert.judgment.corpus_digest)
        × SameRuling j.verdict cert.judgment.verdict
  certify-agrees q c h =
      let (w0, w1, a, r, w, reads, e, same) = certify-inverts q c h in
      let os = factors q w0 w1 a in
      (
        _,
        judge f v (hot os r),
        e,
        feasibility-Reads q w0 w1 a r reads,
        SameRuling-projection (hot os r) w same,
        refl,
        same,
      )
