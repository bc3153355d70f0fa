-- ===== src/Admission/Passes.antt =====
-- The passes of `classify` in crates/cc-ledger/src/v1.rs over the subject events: each returns, and
-- together they end.
use clockchain.Prelude.{
  ℕ, ◌+◌, ◌≤◌, ◌≡◌, refl, ap, ◌∙◌, subst, inl, inr, true, false, not, ◌||◌, ◌&&◌, Option, some, [],
  ◌∷◌, arith, ◌==◌, ==_iff, Bool-cases, length, nat_key,
}
use clockchain.Prelude.Table.{lookup, contains_key, IsDistinct}
use clockchain.Prelude.Ordered.{map_insert, length-map_insert}
use clockchain.Wire.{Hash}
use clockchain.Wire.Event.{kind_of}
use clockchain.Wire.Signed.{Crypto, Signed}
use clockchain.Ledger.{Events}
use clockchain.Ledger.Order.{Held}
use clockchain.Ledger.Missing.{missing, missing_fewer}
use clockchain.Edges.{Cause, Status, Statuses, status_invalid, is_valid, is_genesis, is_subject}
use clockchain.Admission.{evaluate_subject}
use clockchain.Admission.Classify.{count_subjects, is_ready, close_subjects, subject_pass}
use clockchain.Admission.Past.{IsAdmitted, IsAuthorized}
use clockchain.Admission.Views.{GrantsApart}
use clockchain.Admission.Founded.{IsFounded}
use clockchain.Admission.Evaluated.{evaluate_subject-Outcome}
use clockchain.Ledger.Where.{lookup-events_where, events_where-IsDistinct}
use clockchain.Edges.Standing.{contains_key-put}
use clockchain.Admission.Stored.{of_subject, subject_events, rank_with, put-IsAdmitted}

module _ {SecretKey : Type 0} (crypto : Crypto SecretKey) (all : Events)
    (distinct : IsDistinct all) where
  -- The statuses so far, and what is left to classify.
  pub record IsPassing (out : Statuses) : Type 0 where
    pub rank : Hash → ℕ
    pub admitted : IsAdmitted crypto all rank out
    pub counted : length out + missing contains_key (subject_events all) out ≡ count_subjects all

  put-IsPassing :
      (out : Statuses) (id : Hash) (e : Signed) (status : Status)
      → IsPassing out
      → lookup id all ≡ some e
      → is_subject e ≡ true
      → contains_key id out ≡ false
      → (is_valid status.state ≡ true
          → IsFounded crypto all out id e
            × (is_genesis (kind_of e.envelope.payload) ≡ false → IsAuthorized crypto all e))
      → IsPassing (map_insert id status out)
  put-IsPassing out id e status s held sub new admits = record {
    rank = rank_with crypto all s.rank out s.admitted id e held sub new status admits;
    admitted = put-IsAdmitted crypto all s.rank out s.admitted id e held sub new status admits;
    counted =
        let size = length-map_insert id status out new in
        let fewer =
          missing_fewer contains_key (subject_events all) id e out (map_insert id status out)
            (events_where-IsDistinct of_subject all distinct)
            (λ x. contains_key-put id x status out)
            (lookup-events_where of_subject all id e held sub) new in
        omega (arith, size, fewer, s.counted);
  }

  pass_skip :
      (id : Hash) (e : Signed) (items : Events) (out : Statuses)
      → (contains_key id out || not (is_subject e) || not (is_ready all out e)) ≡ true
      → subject_pass crypto all ((id, e) ∷ items) out ≡ subject_pass crypto all items out
  unfolding subject_pass
  pass_skip id e items out h = rw (h, subject_pass) refl

  pass_take :
      (id : Hash) (e : Signed) (items : Events) (out : Statuses) (status : Status)
      → (contains_key id out || not (is_subject e) || not (is_ready all out e)) ≡ false
      → evaluate_subject crypto all out id ≡ some status
      → subject_pass crypto all ((id, e) ∷ items) out
        ≡ subject_pass crypto all items (map_insert id status out)
  unfolding subject_pass
  pass_take id e items out status h eq = rw (h, subject_pass) (rw (eq, subject_pass) refl)

  pass_nil : (out : Statuses) → subject_pass crypto all [] out ≡ some out
  unfolding subject_pass
  pass_nil out = refl

  module _ (apart : GrantsApart crypto all) where
    -- A pass returns.
    pub pass-IsPassing :
        (items : Events) (out : Statuses)
        → Held all items
        → IsPassing out
        → (out' : Statuses) × (subject_pass crypto all items out ≡ some out')
          × IsPassing out'
          × (length out ≤ length out')
    pass-IsPassing [] out held s = (out, pass_nil out, s, omega arith)
    pass-IsPassing ((id, e) ∷ items) out held s =
        elim (Bool-cases (contains_key id out || not (is_subject e) || not (is_ready all out e))) [
          | inl skip ↦
              let (out', eq, t, le) = pass-IsPassing items out held.1 s in
              (out', pass_skip id e items out skip ∙ eq, t, le)
          | inr act ↦
              let sub : is_subject e ≡ true = ground (arith, act) in
              let new : contains_key id out ≡ false = ground (arith, act) in
              let (status, eq, admits) =
                evaluate_subject-Outcome crypto all s.rank out s.admitted apart id e held.0 sub
                  (ground (arith, act)) in
              let t = put-IsPassing out id e status s held.0 sub new admits in
              let (out', eq', t', le) = pass-IsPassing items (map_insert id status out) held.1 t in
              let size = length-map_insert id status out new in
              (out', pass_take id e items out status act eq ∙ eq', t', omega (arith, size, le))
        ]

  -- Closing gives what is left a status.
  pub close-IsPassing :
      (items : Events) (out : Statuses)
      → Held all items
      → IsPassing out
      → IsPassing (close_subjects items out)
        × ((x : Hash)
            → contains_key x out ≡ true
            → contains_key x (close_subjects items out) ≡ true)
        × ((x : Hash) (e : Signed)
            → lookup x items ≡ some e
            → is_subject e ≡ true
            → contains_key x (close_subjects items out) ≡ true)
  unfolding close_subjects lookup
  close-IsPassing [] out held s = (s, λ x h. h, λ x e h sub. absurd (ground (arith, h)))
  close-IsPassing ((id, e) ∷ items) out held s =
      elim (Bool-cases (is_subject e && not (contains_key id out))) [
        | inl left ↦
            let sub : is_subject e ≡ true = ground (arith, left) in
            let new : contains_key id out ≡ false = ground (arith, left) in
            let t =
              put-IsPassing out id e (status_invalid Cause.cycle) s held.0 sub new
                (λ ok. absurd (ground (arith, ok))) in
            let (t', kept, all_) =
              close-IsPassing items (map_insert id (status_invalid Cause.cycle) out) held.1 t in
            let put = λ (x : Hash). contains_key-put id x (status_invalid Cause.cycle) out in
            rw left (
              t',
              λ x h. kept x (ground (arith, put x, h)),
              λ x f h own. elim (Bool-cases (id == x)) [
                | inl same ↦ kept x (ground (arith, put x, same))
                | inr differ ↦ let h' = rw differ at h in all_ x f h' own
              ],
            )
        | inr done ↦
            let (t', kept, all_) = close-IsPassing items out held.1 s in
            rw done (
              t',
              kept,
              λ x f h own. elim (Bool-cases (id == x)) [
                | inl same ↦
                    let h' = rw same at h in
                    let e_eq : ◌≡◌ {A = Option Signed} (some e) (some f) = h' in
                    let e_own : is_subject e ≡ true =
                      ap is_subject (let k : e ≡ f = ground (arith, e_eq) in k) ∙ own in
                    let known : contains_key id out ≡ true = ground (arith, done, e_own) in
                    kept x
                      (subst (λ (y : Hash). contains_key y out ≡ true) ((==_iff id x).0 same) known)
                | inr differ ↦ let h' = rw differ at h in all_ x f h' own
              ],
            )
      ]
