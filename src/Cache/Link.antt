-- ===== src/Cache/Link.antt =====
-- The entries and the order of crates/cc-gateway/src/cache.rs, as two maps that are each other's
-- inverse.
use clockchain.Prelude.{
  ℕ, ◌≡◌, ◌↔◌, refl, sym, ap, ◌∙◌, inl, inr, Option, none, some, arith, ◌==◌, if◌then◌else◌,
  Bool-cases, Bytes, bytes_eq, bytes_eq_iff,
}
use clockchain.Cache.{Entry}

-- A tick stands in the order with a key exactly when the key's entry has that tick.
abbrev pub Link : (Bytes → Option (Entry × ℕ)) → (ℕ → Option Bytes) → Type 0
Link es os = (k : Bytes) (u : ℕ) → (os u ≡ some k) ↔ ((e : Entry) × (es k ≡ some (e, u)))

module _ (es es' : Bytes → Option (Entry × ℕ)) (os os' : ℕ → Option Bytes) where
  -- An entry and its tick leave together.
  pub unlink :
      (k : Bytes) (u : ℕ) (e : Entry)
      → Link es os
      → es k ≡ some (e, u)
      → ((j : Bytes) → es' j ≡ (if bytes_eq k j then none else es j))
      → ((v : ℕ) → os' v ≡ (if u == v then none else os v))
      → Link es' os'
  unlink k u e link has gone_e gone_o j v =
      let from = (link j v).0 in
      let into = (link j v).1 in
      let gone_j = gone_e j in
      let gone_v = gone_o v in
      let at_u = (link k u).1 (e, has) in
      elim (Bool-cases (bytes_eq k j)) [
        | inl same ↦
            let kj = (bytes_eq_iff k j).0 same in
            let none_j : es' j ≡ none = gone_j ∙ rw same refl in
            (
              (λ h. elim (Bool-cases (u == v)) [
                | inl e_u ↦ absurd (ground (arith, gone_v, h, e_u))
                | inr ne_u ↦
                    let h' : os v ≡ some j = ground (arith, gone_v, h, ne_u) in
                    let (x, at_v) = from h' in
                    let at_j : es j ≡ some (e, u) = ap es (sym kj) ∙ has in
                    absurd (ground (arith, at_v, at_j, ne_u))
              ]),
              λ (x, h). absurd (ground (arith, none_j, h)),
            )
        | inr differ ↦
            let same_j : es' j ≡ es j = gone_j ∙ rw differ refl in
            (
              (λ h. elim (Bool-cases (u == v)) [
                | inl e_u ↦ absurd (ground (arith, gone_v, h, e_u))
                | inr ne_u ↦
                    let h' : os v ≡ some j = ground (arith, gone_v, h, ne_u) in
                    let (x, at_v) = from h' in (x, same_j ∙ at_v)
              ]),
              λ (x, h). elim (Bool-cases (u == v)) [
                | inl e_u ↦
                    let at_v = into (x, sym same_j ∙ h) in
                    let eq : u ≡ v = ground (arith, e_u) in
                    let at_u' : os v ≡ some k = ap os (sym eq) ∙ at_u in
                    absurd (
                      let kj : k ≡ j = ground (arith, at_v, at_u') in
                      let yes = (bytes_eq_iff k j).1 kj in ground (arith, yes, differ))
                | inr ne_u ↦
                    let at_v = into (x, sym same_j ∙ h) in ground (arith, gone_v, ne_u, at_v)
              ],
            )
      ]

  -- A fresh key takes a fresh tick.
  pub place :
      (k : Bytes) (t : ℕ) (e : Entry)
      → Link es os
      → es k ≡ none
      → os t ≡ none
      → ((j : Bytes) → es' j ≡ (if bytes_eq k j then some (e, t) else es j))
      → ((v : ℕ) → os' v ≡ (if t == v then some k else os v))
      → Link es' os'
  place k t e link no_e no_o new_e new_o j v =
      let from = (link j v).0 in
      let into = (link j v).1 in
      let e_j = new_e j in
      let o_v = new_o v in
      elim (Bool-cases (bytes_eq k j)) [
        | inl same ↦
            let kj = (bytes_eq_iff k j).0 same in
            let at_j : es' j ≡ some (e, t) = e_j ∙ rw same refl in
            (
              (λ h. elim (Bool-cases (t == v)) [
                | inl e_t ↦ (e, at_j ∙ ap (λ n. some (e, n)) (ground (arith, e_t)))
                | inr ne_t ↦
                    let h' : os v ≡ some j = ground (arith, o_v, h, ne_t) in
                    let (x, at_v) = from h' in
                    let none_j : es j ≡ none = ap es (sym kj) ∙ no_e in
                    absurd (ground (arith, at_v, none_j))
              ]),
              λ (x, h). ground (arith, at_j, h, o_v, kj),
            )
        | inr differ ↦
            let same_j : es' j ≡ es j = e_j ∙ rw differ refl in
            (
              (λ h. elim (Bool-cases (t == v)) [
                | inl e_t ↦ absurd (
                    let kj : k ≡ j = ground (arith, o_v, h, e_t) in
                    let yes = (bytes_eq_iff k j).1 kj in ground (arith, yes, differ))
                | inr ne_t ↦
                    let h' : os v ≡ some j = ground (arith, o_v, h, ne_t) in
                    let (x, at_v) = from h' in (x, same_j ∙ at_v)
              ]),
              λ (x, h). elim (Bool-cases (t == v)) [
                | inl e_t ↦
                    let at_v = into (x, sym same_j ∙ h) in
                    let eq : t ≡ v = ground (arith, e_t) in
                    let none_v : os v ≡ none = ap os (sym eq) ∙ no_o in
                    absurd (ground (arith, at_v, none_v))
                | inr ne_t ↦ let at_v = into (x, sym same_j ∙ h) in ground (arith, o_v, ne_t, at_v)
              ],
            )
      ]
