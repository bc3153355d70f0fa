-- ===== src/Ledger/Where.antt =====
-- The events of a map that the code filters, in crates/cc-ledger/src/v1.rs.
use clockchain.Prelude.{
  ◌≡◌, refl, ap₂, ◌∙◌, sym, inl, inr, Bool, true, Option, none, some, [], ◌∷◌, arith, ◌==◌, ==_iff,
  Bool-cases, if◌then◌else◌, nat_key,
}
use clockchain.Prelude.Table.{lookup, IsDistinct}
use clockchain.Wire.{Hash}
use clockchain.Wire.Signed.{Signed}
use clockchain.Ledger.{Events}
use clockchain.Ledger.Order.{later}

module _ (keep : Hash → Signed → Bool) where
  abbrev pub events_where : Events → Events
  events_where [] = []
  events_where ((id, e) ∷ all) =
      let rest = events_where all in if keep id e then (id, e) ∷ rest else rest

  events_where-none :
      (x : Hash) (all : Events) → lookup x all ≡ none → lookup x (events_where all) ≡ none
  unfolding lookup
  events_where-none x [] h = refl
  events_where-none x ((id, e) ∷ all) h = ground (arith, h, events_where-none x all)

  pub events_where-IsDistinct : (all : Events) → IsDistinct all → IsDistinct (events_where all)
  events_where-IsDistinct [] d = tt
  events_where-IsDistinct ((id, e) ∷ all) d = elim (Bool-cases (keep id e)) [
    | inl own ↦ rw own (events_where-none id all d.0, events_where-IsDistinct all d.1)
    | inr other ↦ rw other (events_where-IsDistinct all d.1)
  ]

  pub lookup-events_where :
      (all : Events) (x : Hash) (e : Signed)
      → lookup x all ≡ some e
      → keep x e ≡ true
      → lookup x (events_where all) ≡ some e
  unfolding lookup
  lookup-events_where [] x e h own = absurd (ground (arith, h))
  lookup-events_where ((id, f) ∷ all) x e h own = elim (Bool-cases (id == x)) [
    | inl same ↦
        let h' = rw same at h in
        let f_eq : f ≡ e =
          (let k : ◌≡◌ {A = Option Signed} (some f) (some e) = h' in ground (arith, k)) in
        let f_own : keep id f ≡ true = ap₂ keep ((==_iff id x).0 same) f_eq ∙ own in
        rw f_own (rw same h')
    | inr differ ↦
        let h' = rw differ at h in
        let rest = lookup-events_where all x e h' own in
        elim (Bool-cases (keep id f)) [
          | inl kept ↦ rw kept (rw differ rest)
          | inr out ↦ rw out rest
        ]
  ]

  pub events_where-lookup :
      (all : Events) (x : Hash) (e : Signed)
      → IsDistinct all
      → lookup x (events_where all) ≡ some e
      → (lookup x all ≡ some e) × (keep x e ≡ true)
  unfolding lookup
  events_where-lookup [] x e d h = absurd (ground (arith, h))
  events_where-lookup ((id, f) ∷ all) x e d h = elim (Bool-cases (keep id f)) [
    | inr out ↦
        let h' = rw out at h in
        let (held, own) = events_where-lookup all x e d.1 h' in (later id x f e all d held, own)
    | inl kept ↦
        let h' = rw kept at h in
        elim (Bool-cases (id == x)) [
          | inl same ↦
              let h'' = rw same at h' in
              let f_eq : ◌≡◌ {A = Option Signed} (some f) (some e) = h'' in
              let e_eq : e ≡ f = ground (arith, f_eq) in
              (rw same h'', ap₂ keep (sym ((==_iff id x).0 same)) e_eq ∙ kept)
          | inr differ ↦
              let h'' = rw differ at h' in
              let (held, own) = events_where-lookup all x e d.1 h'' in
              (later id x f e all d held, own)
        ]
  ]
