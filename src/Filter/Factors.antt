-- ===== src/Filter/Factors.antt =====
-- The factors of crates/cc-filter/src/filter.rs against what the record says.
use clockchain.Prelude.{
  ◌≤◌, ◌<◌, ◌≡◌, subst, ◌↔◌, ◌⊎◌, inl, inr, refl, List, arith, ltb, Bool-cases,
}
use clockchain.Filter.{
  Tick, EntityId, Start, unknown, known, WindowEnd, known_open, known_closed, unknown_closure,
  Windowed, no_recorded_start, before_recorded_start, after_recorded_cessation, EventId,
}
use clockchain.Filter.Judge.{FactorOutcome, holds, absent, contrary, window_factor, start_factor}

-- A recorded cessation before `t`.
abbrev pub CeasedBefore : Windowed → Tick → Type 0
CeasedBefore w t = (e : Tick) × (w.end ≡ known_closed e) × (e < t)

-- The coordinate lies in the window: an evidenced start at or before it, and no recorded cessation
-- before it.
abbrev pub InWindow : Windowed → Tick → Type 0
InWindow w t =
    ((s : Tick) × (w.start ≡ known s) × (s ≤ t)) × ((e : Tick) → w.end ≡ known_closed e → t ≤ e)

-- What the record says about the coordinate, as one of the three outcomes.
abbrev pub IsRuling : Windowed → Tick → EntityId → FactorOutcome → Type 0
IsRuling w t f holds = InWindow w t
IsRuling w t f (absent a) =
    ¬ CeasedBefore w t
    × (((w.start ≡ unknown) × (a ≡ no_recorded_start f))
        ⊎ ((s : Tick) × (w.start ≡ known s) × (t < s) × (a ≡ before_recorded_start f s)))
IsRuling w t f (contrary c) =
    (e : Tick) × (w.end ≡ known_closed e)
    × (e < t)
    × (c ≡ after_recorded_cessation f e w.derived_from)

ruling :
    (st : Start) (en : WindowEnd) (d : List EventId) (t : Tick) (f : EntityId)
    → IsRuling
        (record { start = st; end = en; derived_from = d })
        t
        f
        (window_factor (record { start = st; end = en; derived_from = d }) t f)
unfolding window_factor start_factor
ruling unknown known_open d t f = ((λ c. ground (arith, c)), inl (refl, refl))
ruling unknown unknown_closure d t f = ((λ c. ground (arith, c)), inl (refl, refl))
ruling unknown (known_closed e) d t f = elim (Bool-cases (ltb e t)) [
  | inl lt ↦ rw lt (e, refl, ground arith, refl)
  | inr ge ↦ rw ge ((λ (e', eq, le). ground arith), inl (refl, refl))
]
ruling (known s) known_open d t f = elim (Bool-cases (ltb t s)) [
  | inl lt ↦ rw lt ((λ (e', eq, le). ground arith), inr (s, refl, ground arith, refl))
  | inr ge ↦ rw ge ((s, refl, ground arith), λ e' eq. ground arith)
]
ruling (known s) unknown_closure d t f = elim (Bool-cases (ltb t s)) [
  | inl lt ↦ rw lt ((λ (e', eq, le). ground arith), inr (s, refl, ground arith, refl))
  | inr ge ↦ rw ge ((s, refl, ground arith), λ e' eq. ground arith)
]
ruling (known s) (known_closed e) d t f = elim (Bool-cases (ltb e t)) [
  | inl lt ↦ rw lt (e, refl, ground arith, refl)
  | inr ge ↦ elim (Bool-cases (ltb t s)) [
    | inl lt ↦ rw (ge, lt) ((λ (e', eq, le). ground arith), inr (s, refl, ground arith, refl))
    | inr ge' ↦ rw (ge, ge') ((s, refl, ground arith), λ e' eq. ground arith)
  ]
]

unique :
    (w : Windowed) (t : Tick) (f : EntityId) (o p : FactorOutcome)
    → IsRuling w t f o
    → IsRuling w t f p
    → o ≡ p
unique w t f holds holds a b = refl
unique w t f holds (absent x) ((s, e, le), within) (unceased, inl (u, eq)) = ground arith
unique w t f holds (absent x) ((s, e, le), within) (unceased, inr (s', e', lt, eq)) = ground arith
unique w t f holds (contrary x) (_, within) (e, eq, lt, c) =
    let h = within e eq in absurd (omega arith)
unique w t f (absent x) holds (unceased, inl (u, eq)) ((s, e, le), within) = ground arith
unique w t f (absent x) holds (unceased, inr (s', e', lt, eq)) ((s, e, le), within) = ground arith
unique w t f (absent x) (absent y) (_, inl (u, e)) (_, inl (u', e')) = ground arith
unique w t f (absent x) (absent y) (_, inl (u, e)) (_, inr (s, u', lt, e')) = ground arith
unique w t f (absent x) (absent y) (_, inr (s, u', lt, e')) (_, inl (u, e)) = ground arith
unique w t f (absent x) (absent y) (_, inr (s, u', lt, e')) (_, inr (s', u, lt', e)) = ground arith
unique w t f (absent x) (contrary y) (unceased, _) (e, eq, lt, c) = absurd (unceased (e, eq, lt))
unique w t f (contrary y) holds (e, eq, lt, c) (_, within) =
    let h = within e eq in absurd (omega arith)
unique w t f (contrary y) (absent x) (e, eq, lt, c) (unceased, _) = absurd (unceased (e, eq, lt))
unique w t f (contrary x) (contrary y) (e, eq, lt, c) (e', eq', lt', c') = ground arith

-- The factor of a window answers what the record says, and nothing else: it holds exactly when the
-- coordinate lies in the window; it is contrary, with that cessation, exactly when a recorded
-- cessation is before the coordinate, whatever is known of the start; and it is absent exactly when
-- no such cessation is recorded and the start is unknown or after the coordinate.
pub window_factor-IsRuling :
    (w : Windowed) (t_q : Tick) (f : EntityId) (o : FactorOutcome)
    → (window_factor w t_q f ≡ o) ↔ IsRuling w t_q f o
window_factor-IsRuling w t_q f o =
    let r = ruling w.start w.end w.derived_from t_q f in
    ((λ e. subst (IsRuling w t_q f) e r), λ h. unique w t_q f (window_factor w t_q f) o r h)
