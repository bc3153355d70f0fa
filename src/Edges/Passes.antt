-- ===== src/Edges/Passes.antt =====
-- The loops of `classify` in crates/cc-ledger/src/v1/edges.rs: each pass returns and keeps what is
-- classified, and the passes end.
use clockchain.Prelude.{
  ℕ, zero, suc, ◌<◌, ◌≡◌, ◌⊎◌, refl, ap, ◌∙◌, inl, inr, Bool, true, false, some, List, [], ◌∷◌,
  ◌++◌, arith, ◌==◌, ==_iff, Bool-cases, nat_key,
}
use clockchain.Prelude.Table.{lookup, contains_key}
use clockchain.Prelude.Ordered.{map_insert, set_contains}
use clockchain.Wire.{Hash}
use clockchain.Wire.Signed.{Signed}
use clockchain.Ledger.{Events, parents_of}
use clockchain.Edges.{Cause, Status, Statuses, Subjects, status_invalid, is_subject}
use clockchain.Edges.Evaluate.{evaluate}
use clockchain.Edges.Classify.{edge_dependency, all_settled, pass, passes, close_cycles}
use clockchain.Edges.Standing.{contains_key-put}
use clockchain.Edges.Staged.{IsStaged, put-IsStaged}
use clockchain.Edges.Evaluated.{evaluate-Outcome}
use clockchain.Edges.Kept.{Keeps, Keeps-contains_key, put-Keeps, unclassified, unclassified_lt}

module _ (all : Events) (s : Subjects) where
  -- The events that the loops go over.
  abbrev pub AreMedia : List Hash → Type 0
  AreMedia ids =
      (x : Hash)
      → set_contains x ids ≡ true
      → (e : Signed) × (lookup x all ≡ some e) × (is_subject e ≡ false)

  pass_known :
      (id : Hash) (ids : List Hash) (out : Statuses) (changed : Bool)
      → contains_key id out ≡ true
      → pass all s (id ∷ ids) out changed ≡ pass all s ids out changed
  unfolding pass
  pass_known id ids out changed h = rw (h, pass) refl

  pass_waits :
      (id : Hash) (ids : List Hash) (out : Statuses) (changed : Bool) (e : Signed)
      → contains_key id out ≡ false
      → lookup id all ≡ some e
      → all_settled all out (parents_of e ++ edge_dependency e.envelope.payload) ≡ false
      → pass all s (id ∷ ids) out changed ≡ pass all s ids out changed
  unfolding pass
  pass_waits id ids out changed e h held w = rw (h, pass) (rw (held, pass) (rw (w, pass) refl))

  pass_takes :
      (id : Hash) (ids : List Hash) (out : Statuses) (changed : Bool) (e : Signed) (status : Status)
      → contains_key id out ≡ false
      → lookup id all ≡ some e
      → all_settled all out (parents_of e ++ edge_dependency e.envelope.payload) ≡ true
      → evaluate all out s id ≡ some status
      → pass all s (id ∷ ids) out changed ≡ pass all s ids (map_insert id status out) true
  unfolding pass
  pass_takes id ids out changed e status h held w eq =
      rw (h, pass) (rw (held, pass) (rw (w, pass) (rw (eq, pass) refl)))

  -- Of some events, one that had no status has one.
  Classified : List Hash → Statuses → Statuses → Type 0
  Classified ids out out' =
      (x : Hash) × (set_contains x ids ≡ true)
      × (contains_key x out ≡ false)
      × (contains_key x out' ≡ true)

  pass_done : (out : Statuses) (changed : Bool) → pass all s [] out changed ≡ some (out, changed)
  unfolding pass
  pass_done out changed = refl

  later_of :
      (id : Hash) (ids : List Hash) (out out' : Statuses) (changed : Bool)
      → (changed ≡ true) ⊎ Classified ids out out'
      → (changed ≡ true) ⊎ Classified (id ∷ ids) out out'
  unfolding Classified set_contains
  later_of id ids out out' changed (inl h) = inl h
  later_of id ids out out' changed (inr (x, m, old, now)) = inr (x, ground (arith, m), old, now)

  pass-Returns :
      (ids : List Hash) (out : Statuses) (changed : Bool)
      → AreMedia ids
      → IsStaged all s out
      → (out' : Statuses) × (changed' : Bool) × (pass all s ids out changed ≡ some (out', changed'))
        × IsStaged all s out'
        × Keeps out out'
        × (changed' ≡ true → (changed ≡ true) ⊎ Classified ids out out')
  unfolding Classified set_contains
  pass-Returns [] out changed media t =
      (out, changed, pass_done out changed, t, λ x status h. h, λ h. inl h)
  pass-Returns (id ∷ ids) out changed media t =
      let (e, held, own) = media id (ground arith) in
      let rest = λ (x : Hash) (m : set_contains x ids ≡ true). media x (ground (arith, m)) in
      elim (Bool-cases (contains_key id out)) [
        | inl known ↦
            let (out', changed', eq, t', keeps, why) = pass-Returns ids out changed rest t in
            (
              out',
              changed',
              pass_known id ids out changed known ∙ eq,
              t',
              keeps,
              λ h. later_of id ids out out' changed (why h),
            )
        | inr new ↦
            elim (Bool-cases
              (all_settled all out (parents_of e ++ edge_dependency e.envelope.payload))) [
                | inr waits ↦
                    let (out', changed', eq, t', keeps, why) =
                      pass-Returns ids out changed rest t in
                    (
                      out',
                      changed',
                      pass_waits id ids out changed e new held waits ∙ eq,
                      t',
                      keeps,
                      λ h. later_of id ids out out' changed (why h),
                    )
                | inl ready ↦
                    let (status, s_eq, ok) = evaluate-Outcome all out s t id e held own ready in
                    let (out', changed', eq, t', keeps, why) =
                      pass-Returns ids (map_insert id status out) true rest
                        (put-IsStaged all s out t id e status held new ok) in
                    let put : contains_key id (map_insert id status out) ≡ true =
                      ground (arith, contains_key-put id id status out, (==_iff id id).1 refl) in
                    (
                      out',
                      changed',
                      pass_takes id ids out changed e status new held ready s_eq ∙ eq,
                      t',
                      λ x old at_. keeps x old (put-Keeps id status out new x old at_),
                      λ h. inr (
                        id,
                        ground (arith, (==_iff id id).1 refl),
                        new,
                        Keeps-contains_key (map_insert id status out) out' id keeps put,
                      ),
                    )
              ]
      ]

  passes_last :
      (fuel : ℕ) (ids : List Hash) (out out' : Statuses)
      → pass all s ids out false ≡ some (out', false)
      → passes all s (suc fuel) ids out ≡ some out'
  unfolding passes
  passes_last fuel ids out out' eq = rw (eq, passes) refl

  passes_more :
      (fuel : ℕ) (ids : List Hash) (out out' : Statuses)
      → pass all s ids out false ≡ some (out', true)
      → passes all s (suc fuel) ids out ≡ passes all s fuel ids out'
  unfolding passes
  passes_more fuel ids out out' eq = rw (eq, passes) refl

  -- The passes end, for each classifies an event or is the last.
  pub passes-Returns :
      (fuel : ℕ) (ids : List Hash) (out : Statuses)
      → AreMedia ids
      → IsStaged all s out
      → unclassified ids out < fuel
      → (out' : Statuses) × (passes all s fuel ids out ≡ some out')
        × IsStaged all s out'
        × Keeps out out'
  unfolding Classified
  passes-Returns zero ids out media t lt = absurd (omega (arith, lt))
  passes-Returns (suc fuel) ids out media t lt =
      let (out₁, changed, eq, t₁, keeps, why) = pass-Returns ids out false media t in
      elim (Bool-cases changed) [
        | inr still ↦
            (out₁, passes_last fuel ids out out₁ (eq ∙ ap (λ c. some (out₁, c)) still), t₁, keeps)
        | inl more ↦ elim (why more) [
          | inl never ↦ absurd (ground (arith, never))
          | inr (x, m, old, now) ↦
              let fewer = unclassified_lt ids out out₁ x keeps m old now in
              let (out', eq', t', keeps') =
                passes-Returns fuel ids out₁ media t₁ (omega (arith, fewer, lt)) in
              (
                out',
                passes_more fuel ids out out₁ (eq ∙ ap (λ c. some (out₁, c)) more) ∙ eq',
                t',
                λ y status h. keeps' y status (keeps y status h),
              )
        ]
      ]

  -- What the closing adds is invalid, and every event of the list has a status then.
  unfoldable pub Closed : List Hash → Statuses → Statuses → Type 0
  Closed ids out out' =
      IsStaged all s out'
      × Keeps out out'
      × ((x : Hash) → set_contains x ids ≡ true → contains_key x out' ≡ true)

  pub close_cycles-Closed :
      (ids : List Hash) (out : Statuses)
      → AreMedia ids
      → IsStaged all s out
      → Closed ids out (close_cycles all s ids out)
  unfolding Closed close_cycles set_contains
  close_cycles-Closed [] out media t = (t, λ x status h. h, λ x m. absurd (ground (arith, m)))
  close_cycles-Closed (id ∷ ids) out media t =
      let (e, held, own) = media id (ground arith) in
      let rest = λ (x : Hash) (m : set_contains x ids ≡ true). media x (ground (arith, m)) in
      elim (Bool-cases (contains_key id out)) [
        | inl known ↦
            let (t', keeps, done) = close_cycles-Closed ids out rest t in
            rw known (
              t',
              keeps,
              λ x m. elim (Bool-cases (x == id)) [
                | inl same ↦
                    ap (λ k. contains_key k (close_cycles all s ids out)) ((==_iff x id).0 same)
                    ∙ Keeps-contains_key out (close_cycles all s ids out) id keeps known
                | inr differ ↦ done x (ground (arith, m, differ))
              ],
            )
        | inr new ↦
            let out₁ = map_insert id (status_invalid Cause.cycle) out in
            let put : contains_key id out₁ ≡ true = ground (
              arith,
              contains_key-put id id (status_invalid Cause.cycle) out,
              (==_iff id id).1 refl,
            ) in
            let t₁ =
              put-IsStaged all s out t id e (status_invalid Cause.cycle) held new
                (λ v. absurd (ground (arith, v))) in
            let (t', keeps, done) = close_cycles-Closed ids out₁ rest t₁ in
            rw new (
              t',
              λ x old at_.
                  keeps x old (put-Keeps id (status_invalid Cause.cycle) out new x old at_),
              λ x m. elim (Bool-cases (x == id)) [
                | inl same ↦
                    ap (λ k. contains_key k (close_cycles all s ids out₁)) ((==_iff x id).0 same)
                    ∙ Keeps-contains_key out₁ (close_cycles all s ids out₁) id keeps put
                | inr differ ↦ done x (ground (arith, m, differ))
              ],
            )
      ]
