-- ===== src/Admission/Bodies.antt =====
-- `body` of crates/cc-ledger/src/v1/authority.rs returns for a valid event.
use clockchain.Prelude.{ℕ, zero, suc, ◌<◌, ◌≡◌, ap, ◌∙◌, inl, inr, true, arith, length, nat_key}
use clockchain.Wire.{Hash}
use clockchain.Wire.Signed.{Crypto}
use clockchain.Ledger.{Events, parents_of, choice_of, body_of, revisions, body_loop, body}
use clockchain.Ledger.Order.{key_held}
use clockchain.Ledger.Totals.{Returns}
use clockchain.Ledger.Places.{place, place_lt, place_below}
use clockchain.Ledger.Selections.{set_contains-first}
use clockchain.Ledger.Bodies.{Choice-cases, body_step}
use clockchain.Edges.{Statuses}
use clockchain.Edges.Standing.{accepted}
use clockchain.Admission.Revised.{IsMadeBy-revisions}
use clockchain.Admission.Past.{IsAdmitted, accepted_known}

module _ {SecretKey : Type 0} (crypto : Crypto SecretKey) (all : Events) (rank : Hash → ℕ)
    (out : Statuses) (a : IsAdmitted crypto all rank out) where
  body_loop-Returns :
      (fuel : ℕ) (x : Hash)
      → accepted out x ≡ true
      → place rank all (rank x) < fuel
      → Returns (body_loop crypto fuel all x)
  body_loop-Returns zero x ok lt = absurd (omega arith)
  body_loop-Returns (suc fuel) x ok lt =
      let (e, held) = key_held x all (accepted_known crypto all rank out a x ok) in
      let has = a.bodies x e ok held in
      let step = body_step crypto fuel all x e held in
      elim (Choice-cases (choice_of e.envelope.payload)) [
        | inl (b, makes) ↦ let step' = rw makes at step in (b, step')
        | inr (inl (r, chooses)) ↦
            let (_, made, _, _, makes) = has.chosen r chooses in
            let known = IsMadeBy-revisions crypto all r made makes in
            let (v, v_held) = key_held r (revisions crypto all) known in
            let step' = rw chooses at step in (v.body, step' ∙ ap body_of v_held)
        | inr (inr keeps) ↦
            let (p, p_eq) = has.rooted keeps in
            let m = set_contains-first p (parents_of e) p_eq in
            let (p_ok, below) = a.parents x e p ok held m in
            let (f, p_held) = key_held p all (accepted_known crypto all rank out a p p_ok) in
            let lower = place_lt rank all p f (rank p) (rank x) p_held (omega arith) below in
            let (b, eq) = body_loop-Returns fuel p p_ok (omega (arith, lower, lt)) in
            let step' = rw keeps at step in let step'' = rw p_eq at step' in (b, step'' ∙ eq)
      ]

  pub body-Returns : (x : Hash) → accepted out x ≡ true → Returns (body crypto all x)
  unfolding body
  body-Returns x ok =
      let (e, held) = key_held x all (accepted_known crypto all rank out a x ok) in
      let below = place_below rank all x e held in
      body_loop-Returns (suc (length all)) x ok (omega (arith, below))
