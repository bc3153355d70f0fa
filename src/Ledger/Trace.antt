-- ===== src/Ledger/Trace.antt =====
-- The first loop of `derive` in crates/cc-ledger/src/v1/authority.rs on a governed ledger.
use clockchain.Prelude.{
  ℕ, ◌≡◌, refl, ap, ◌∙◌, inl, inr, true, false, Option, none, some, List, [], ◌∷◌, arith,
  Option-cases, nat_key,
}
use clockchain.Prelude.Table.{lookup, contains_key}
use clockchain.Prelude.Ordered.{set_insert, set_contains}
use clockchain.Wire.{Hash}
use clockchain.Wire.Signed.{Crypto, Signed}
use clockchain.Ledger.{Events, parents_of, any_absent}
use clockchain.Ledger.Authority.{
  Grant, Lineages, set_union, gather, path_of, register, trace, traced,
}
use clockchain.Ledger.Search.{Reaches, here, there}
use clockchain.Ledger.Order.{any_absent-taken, key_held}
use clockchain.Ledger.Totals.{Returns}
use clockchain.Ledger.Governed.{Makes, IsGoverned}
use clockchain.Ledger.Lineage.{IsLineage, Traces, plain-Traces, granting-Traces}

module _ {SecretKey : Type 0} (crypto : Crypto SecretKey) (valid : Events) where
  traced-Reaches :
      (l : Lineages) (p y : Hash)
      → IsLineage crypto valid l
      → traced p l ≡ true
      → Reaches valid p y
      → traced y l ≡ true
  traced-Reaches l p _ inv known here = known
  traced-Reaches l p _ inv known (there {x} {e} {p = q} r held m) =
      inv.closed x e q (traced-Reaches l p x inv known r) held m

  gather-Returns :
      (ps : List Hash) (ancestors : List (Hash × List Hash)) (past : List Hash)
      → ((p : Hash) → set_contains p ps ≡ true → contains_key p ancestors ≡ true)
      → Returns (gather ps ancestors past)
  unfolding gather set_contains
  gather-Returns [] ancestors past h = (past, refl)
  gather-Returns (p ∷ ps) ancestors past h =
      let (earlier, held) = key_held p ancestors (h p (ground arith)) in
      let (all, eq) =
        gather-Returns ps ancestors (set_union past earlier) (λ q m. h q (ground (arith, m))) in
      (all, rw held eq)

  path_of-Returns :
      (issuer : Option Hash) (lineage : List (Hash × List Hash))
      → ((i : Hash) → issuer ≡ some i → contains_key i lineage ≡ true)
      → Returns (path_of issuer lineage)
  unfolding path_of
  path_of-Returns none lineage h = ([], refl)
  path_of-Returns (some i) lineage h = key_held i lineage (h i refl)

  issuer_known :
      (rank : Hash → ℕ) (id : Hash) (e : Signed) (g : Hash) (grant : Grant) (i : Hash)
      (l : Lineages)
      → IsGoverned crypto valid rank
      → lookup id valid ≡ some e
      → IsLineage crypto valid l
      → any_absent traced (parents_of e) l ≡ false
      → Makes crypto valid id e g grant
      → grant.issuer ≡ some i
      → contains_key i l.lineage ≡ true
  issuer_known rank id e g grant i l gov held inv ready makes issuer =
      let (p, y, f, given, m, reach, y_held, y_makes) =
        gov.issued id e g grant i held makes issuer in
      let p_traced = any_absent-taken traced (parents_of e) l p ready m in
      inv.made y f i given (traced-Reaches l p y inv p_traced reach) y_held y_makes

  pub trace-Returns :
      (rank : Hash → ℕ) (id : Hash) (e : Signed) (l : Lineages)
      → IsGoverned crypto valid rank
      → lookup id valid ≡ some e
      → IsLineage crypto valid l
      → traced id l ≡ false
      → any_absent traced (parents_of e) l ≡ false
      → (l' : Lineages) × (trace crypto id e l ≡ some l') × Traces crypto valid id l l'
  unfolding trace register
  trace-Returns rank id e l gov held inv new ready =
      let parents = λ (p : Hash) (m : set_contains p (parents_of e) ≡ true).
        any_absent-taken traced (parents_of e) l p ready m in
      let (past, past_eq) = gather-Returns (parents_of e) l.ancestors (id ∷ []) parents in
      let (m, made_eq) = gov.complete id e held in
      elim (Option-cases m) [
        | inl none_ ↦
            let eq = made_eq ∙ ap some none_ in
            (
              _,
              rw past_eq (rw eq refl),
              plain-Traces crypto valid id e past l held inv ready eq new,
            )
        | inr ((g, grant), some_) ↦
            let eq = made_eq ∙ ap some some_ in
            let issuers = λ (i : Hash) (issuer : grant.issuer ≡ some i).
              issuer_known rank id e g grant i l gov held inv ready eq issuer in
            let (path, path_eq) = path_of-Returns grant.issuer l.lineage issuers in
            (
              _,
              rw past_eq (rw eq (rw path_eq refl)),
              granting-Traces crypto valid id e past (set_insert g path) g grant l held inv ready eq
                  issuers new,
            )
      ]
