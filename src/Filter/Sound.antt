-- ===== src/Filter/Sound.antt =====
-- What a supported judgment of crates/cc-filter/src/filter.rs rests on.
use clockchain.Prelude.{
  ◌≤◌, ◌≡◌, ◌≢◌, refl, ap, ◌∙◌, List, [], ◌∷◌, arith, length, Result, ok, ◌>>=◌, ok-bind,
  ok-injective,
}
use clockchain.Filter.{
  EventId, ClaimType, sentinel, PhiSupport, CorpusView, Windowed, Admitted, valid, unrecorded,
  outside_validity, supported, unsupported, Judgment, FilterError, Reachability, within,
  none_within,
}
use clockchain.Filter.Reach.{known_k}
use clockchain.Filter.Walk.{IsWalk, known_k-IsWalk}
use clockchain.Filter.Judge.{
  FeasibilityQuery, FactorOutcome, holds, absent, contrary, Filter, settle, feasibility,
  check_query, read, read-ok, window_factor, admiss_factor, judge,
}
use clockchain.Filter.Factors.{InWindow, window_factor-IsRuling}

module _ (f : Filter) (v : CorpusView) where
  settle-supported :
      (o : FactorOutcome) (rest : Result Judgment FilterError) (j : Judgment) (s : PhiSupport)
      → settle f v o rest ≡ ok j
      → j.verdict ≡ supported s
      → (o ≡ holds) × (rest ≡ ok j)
  unfolding settle
  settle-supported holds rest j s h e = (refl, h)
  settle-supported (absent w) rest j s h e =
      absurd (let j' = ap (λ (x : Judgment). x.verdict) (ok-injective h) in ground (arith, j', e))
  settle-supported (contrary w) rest j s h e =
      absurd (let j' = ap (λ (x : Judgment). x.verdict) (ok-injective h) in ground (arith, j', e))

  admiss_factor-holds :
      (a : Admitted) (c : ClaimType)
      → admiss_factor a c ≡ holds
      → (es : List EventId) × (a ≡ valid es)
  unfolding admiss_factor
  admiss_factor-holds (valid es) c h = (es, refl)
  admiss_factor-holds unrecorded c h = absurd (ground (arith, h))
  admiss_factor-holds (outside_validity b es) c h = absurd (ground (arith, h))

  asked : (q : FeasibilityQuery) → check_query f q ≡ ok tt → (q.k ≤ f.k_max) × (q.t_q ≢ sentinel)
  unfolding check_query
  asked q h = (ground (arith, h), λ e. ground (arith, h, e))

  -- What `feasibility` does once it has read the claim's ruling, the second window, the first.
  abbrev after_ruling : FeasibilityQuery → Admitted → Result Judgment FilterError
  after_ruling q a = settle f v (admiss_factor a q.claim) (do
    reach ← read (known_k v q.subjects.0 q.subjects.1 q.k q.t_q)
    ok (elim reach [
      | within support ↦ judge f v (supported support)
      | none_within w ↦ judge f v (unsupported (w ∷ []))
    ]))

  abbrev after_second : FeasibilityQuery → Windowed → Result Judgment FilterError
  after_second q w1 =
      settle f v (window_factor w1 q.t_q q.subjects.1)
        (read (v.admissibility q.claim q.t_q) >>= after_ruling q)

  abbrev after_first : FeasibilityQuery → Windowed → Result Judgment FilterError
  after_first q w0 =
      settle f v (window_factor w0 q.t_q q.subjects.0)
        (read (v.window q.subjects.1 q.t_q) >>= after_second q)

  reached :
      (r : Reachability) (j : Judgment) (s : PhiSupport)
      → ◌≡◌ {A = Result Judgment FilterError}
          (ok (elim r [
            | within support ↦ judge f v (supported support)
            | none_within w ↦ judge f v (unsupported (w ∷ []))
          ]))
          (ok j)
      → j.verdict ≡ supported s
      → r ≡ within s
  reached (within s') j s h e =
      (let j' = ap (λ (x : Judgment). x.verdict) (ok-injective h) in ground (arith, j', e))
  reached (none_within w) j s h e =
      absurd (let j' = ap (λ (x : Judgment). x.verdict) (ok-injective h) in ground (arith, j', e))

  -- A supported judgment rests on the record: the query was within the governed bound and named no
  -- sentinel; each subject's recorded window holds the coordinate; the claim type is recorded as
  -- valid there; and the support is a walk between the subjects, in the view at that coordinate, of
  -- as many steps as it counts hops, no more than the bound asked for.
  pub feasibility-supported :
      (q : FeasibilityQuery) (j : Judgment) (s : PhiSupport)
      → feasibility f v q ≡ ok j
      → j.verdict ≡ supported s
      → (q.k ≤ f.k_max)
        × (q.t_q ≢ sentinel)
        × ((w0 : Windowed) × (v.window q.subjects.0 q.t_q ≡ ok w0) × InWindow w0 q.t_q)
        × ((w1 : Windowed) × (v.window q.subjects.1 q.t_q ≡ ok w1) × InWindow w1 q.t_q)
        × ((es : List EventId) × (v.admissibility q.claim q.t_q ≡ ok (valid es)))
        × IsWalk v q.t_q q.subjects.0 s.witness q.subjects.1
        × (length s.witness ≡ s.hops)
        × (s.hops ≤ q.k)
  unfolding feasibility
  feasibility-supported q j s h e =
      let (u, hc, h0) = ok-bind {f = λ _. read (v.window q.subjects.0 q.t_q) >>= after_first q} h in
      let (w0, e0, h1) = ok-bind {x = read (v.window q.subjects.0 q.t_q)} {f = after_first q} h0 in
      let (in0, h2) =
        settle-supported (window_factor w0 q.t_q q.subjects.0)
          (read (v.window q.subjects.1 q.t_q) >>= after_second q) j s h1 e in
      let (w1, e1, h3) = ok-bind {x = read (v.window q.subjects.1 q.t_q)} {f = after_second q} h2 in
      let (in1, h4) =
        settle-supported (window_factor w1 q.t_q q.subjects.1)
          (read (v.admissibility q.claim q.t_q) >>= after_ruling q) j s h3 e in
      let (a, ea, h5) =
        ok-bind {x = read (v.admissibility q.claim q.t_q)} {f = after_ruling q} h4 in
      let (ruled, h6) =
        settle-supported (admiss_factor a q.claim)
          (do
            reach ← read (known_k v q.subjects.0 q.subjects.1 q.k q.t_q)
            ok (elim reach [
              | within support ↦ judge f v (supported support)
              | none_within w ↦ judge f v (unsupported (w ∷ []))
            ]))
          j s h5 e in
      let (r, er, h7) = ok-bind {x = read (known_k v q.subjects.0 q.subjects.1 q.k q.t_q)} h6 in
      let (es, is_valid) = admiss_factor-holds a q.claim ruled in
      let (bound, coordinate) = asked q hc in
      let (walked, long, short) =
        known_k-IsWalk v q.subjects.0 q.subjects.1 q.k q.t_q s
          (read-ok er ∙ ap ok (reached r j s h7 e)) in
      (
        bound,
        coordinate,
        (w0, read-ok e0, (window_factor-IsRuling w0 q.t_q q.subjects.0 holds).0 in0),
        (w1, read-ok e1, (window_factor-IsRuling w1 q.t_q q.subjects.1 holds).0 in1),
        (es, read-ok ea ∙ ap ok is_valid),
        walked,
        long,
        short,
      )
