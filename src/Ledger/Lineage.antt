-- ===== src/Ledger/Lineage.antt =====
-- What the maps of the first loop of `derive` in crates/cc-ledger/src/v1/authority.rs hold.
use clockchain.Prelude.{
  suc, ◌≡◌, refl, ap, ap₂, ◌∙◌, sym, subst, inl, inr, true, false, ◌||◌, Option, none, some, List,
  length, arith, ◌==◌, ==_iff, Bool-cases, nat_key,
}
use clockchain.Prelude.Table.{lookup, contains_key}
use clockchain.Prelude.Ordered.{map_insert, lookup-map_insert, length-map_insert, set_contains}
use clockchain.Wire.{Hash}
use clockchain.Wire.Signed.{Crypto, Signed}
use clockchain.Ledger.{Events, parents_of, any_absent}
use clockchain.Ledger.Authority.{Grant, Lineages, grant_made, traced}
use clockchain.Ledger.Order.{any_absent-taken}
use clockchain.Ledger.Selections.{contains_key-put}
use clockchain.Ledger.Rulings.{some_injective}
use clockchain.Ledger.Governed.{Makes}

module _ {SecretKey : Type 0} (crypto : Crypto SecretKey) (valid : Events) where
  pub record IsLineage (l : Lineages) : Type 0 where
    pub closed :
        (x : Hash) (e : Signed) (p : Hash)
        → traced x l ≡ true
        → lookup x valid ≡ some e
        → set_contains p (parents_of e) ≡ true
        → traced p l ≡ true
    pub made :
        (y : Hash) (f : Signed) (g : Hash) (grant : Grant)
        → traced y l ≡ true
        → lookup y valid ≡ some f
        → Makes crypto valid y f g grant
        → contains_key g l.lineage ≡ true
    pub same : (g : Hash) → contains_key g l.grants ≡ contains_key g l.lineage
    pub origin :
        (g : Hash) (grant : Grant) (i : Hash)
        → lookup g l.grants ≡ some grant
        → grant.issuer ≡ some i
        → contains_key i l.lineage ≡ true
    pub owned :
        (g : Hash) (grant : Grant)
        → lookup g l.grants ≡ some grant
        → (y : Hash) × (f : Signed) × (lookup y valid ≡ some f) × Makes crypto valid y f g grant

  -- What a step leaves: the event is traced, and with its grant, if it makes one, the maps are as
  -- before.
  abbrev pub Traces : Hash → Lineages → Lineages → Type 0
  Traces id l l' =
      IsLineage l'
      × ((x : Hash) → traced x l' ≡ (id == x || traced x l))
      × (length l'.ancestors ≡ suc (length l.ancestors))

  traced-put :
      (id x : Hash) (past : List Hash) (l l' : Lineages)
      → l'.ancestors ≡ map_insert id past l.ancestors
      → traced x l' ≡ (id == x || traced x l)
  traced-put id x past l l' e = ap (contains_key x) e ∙ contains_key-put id x past l.ancestors

  closed-put :
      (id : Hash) (e : Signed) (past : List Hash) (l l' : Lineages)
      → l'.ancestors ≡ map_insert id past l.ancestors
      → lookup id valid ≡ some e
      → IsLineage l
      → any_absent traced (parents_of e) l ≡ false
      → (x : Hash) (f : Signed) (p : Hash) → traced x l' ≡ true
      → lookup x valid ≡ some f
      → set_contains p (parents_of f) ≡ true
      → traced p l' ≡ true
  closed-put id e past l l' eq held inv ready x f p known x_held m =
      let put_x = traced-put id x past l l' eq in
      let put_p = traced-put id p past l l' eq in
      elim (Bool-cases (id == x)) [
        | inl same ↦
            let f_eq : ◌≡◌ {A = Option Signed} (some f) (some e) =
              sym x_held ∙ ap (λ k. lookup k valid) (sym ((==_iff id x).0 same)) ∙ held in
            let m' =
              subst (λ (k : Signed). set_contains p (parents_of k) ≡ true) (some_injective f_eq)
                m in
            let now = any_absent-taken traced (parents_of e) l p ready m' in
            ground (arith, put_p, now)
        | inr differ ↦
            let old = inv.closed x f p (ground (arith, put_x, known, differ)) x_held m in
            ground (arith, put_p, old)
      ]

  pub plain-Traces :
      (id : Hash) (e : Signed) (past : List Hash) (l : Lineages)
      → lookup id valid ≡ some e
      → IsLineage l
      → any_absent traced (parents_of e) l ≡ false
      → grant_made crypto id e e.envelope.payload ≡ some none
      → traced id l ≡ false
      → Traces id l (record l { ancestors = map_insert id past l.ancestors })
  plain-Traces id e past l held inv ready none_made new =
      let l' = record l { ancestors = map_insert id past l.ancestors } in
      (
        record {
          closed = closed-put id e past l l' refl held inv ready;
          made = λ y f g grant known y_held makes.
              let put = traced-put id y past l l' refl in
              elim (Bool-cases (id == y)) [
                | inl same ↦
                    let y_eq = (==_iff id y).0 same in
                    let f_eq : ◌≡◌ {A = Option Signed} (some e) (some f) =
                      sym held ∙ ap (λ k. lookup k valid) y_eq ∙ y_held in
                    let clash : ◌≡◌ {A = Option (Option (Hash × Grant))} (some none)
                        (some (some (g, grant))) =
                      sym none_made
                      ∙ ap₂ (λ (k : Hash) (s : Signed). grant_made crypto k s s.envelope.payload)
                          y_eq (some_injective f_eq)
                      ∙ makes in
                    absurd (ground (arith, clash))
                | inr differ ↦
                    inv.made y f g grant (ground (arith, put, known, differ)) y_held makes
              ];
          same = inv.same;
          origin = inv.origin;
          owned = inv.owned;
        },
        λ x. traced-put id x past l l' refl,
        length-map_insert id past l.ancestors new,
      )

  pub granting-Traces :
      (id : Hash) (e : Signed) (past path : List Hash) (g : Hash) (grant : Grant) (l : Lineages)
      → lookup id valid ≡ some e
      → IsLineage l
      → any_absent traced (parents_of e) l ≡ false
      → Makes crypto valid id e g grant
      → ((i : Hash) → grant.issuer ≡ some i → contains_key i l.lineage ≡ true)
      → traced id l ≡ false
      → Traces id l (record l {
        ancestors = map_insert id past l.ancestors;
        lineage = map_insert g path l.lineage;
        grants = map_insert g grant l.grants;
      })
  granting-Traces id e past path g grant l held inv ready makes_it issuers new =
      let l' : Lineages = record l {
        ancestors = map_insert id past l.ancestors;
        lineage = map_insert g path l.lineage;
        grants = map_insert g grant l.grants;
      } in
      (
        record {
          closed = closed-put id e past l l' refl held inv ready;
          made = λ y f h given known y_held makes.
              let put = traced-put id y past l l' refl in
              let put_h = contains_key-put g h path l.lineage in
              elim (Bool-cases (id == y)) [
                | inl same ↦
                    let y_eq = (==_iff id y).0 same in
                    let f_eq : ◌≡◌ {A = Option Signed} (some e) (some f) =
                      sym held ∙ ap (λ k. lookup k valid) y_eq ∙ y_held in
                    let both : ◌≡◌ {A = Option (Option (Hash × Grant))} (some (some (g, grant)))
                        (some (some (h, given))) =
                      sym makes_it
                      ∙ ap₂ (λ (k : Hash) (s : Signed). grant_made crypto k s s.envelope.payload)
                          y_eq (some_injective f_eq)
                      ∙ makes in
                    let h_eq : g ≡ h = ap (λ t. t.0) (some_injective (some_injective both)) in
                    ground (arith, put_h, h_eq)
                | inr differ ↦
                    let old =
                      inv.made y f h given (ground (arith, put, known, differ)) y_held makes in
                    ground (arith, put_h, old)
              ];
          same = λ h. ground (
            arith,
            contains_key-put g h path l.lineage,
            contains_key-put g h grant l.grants,
            inv.same h,
          );
          origin = λ h given i h_held issuer.
              let put = lookup-map_insert g h grant l.grants in
              let put_i = contains_key-put g i path l.lineage in
              elim (Bool-cases (g == h)) [
                | inl same ↦
                    let put' = rw same at put in
                    let both : ◌≡◌ {A = Option Grant} (some grant) (some given) =
                      sym put' ∙ h_held in
                    let issuer' : grant.issuer ≡ some i =
                      ap (λ (k : Grant). k.issuer) (some_injective both) ∙ issuer in
                    let old = issuers i issuer' in ground (arith, put_i, old)
                | inr differ ↦
                    let put' = rw differ at put in
                    let old = inv.origin h given i (sym put' ∙ h_held) issuer in
                    ground (arith, put_i, old)
              ];
          owned = λ h given h_held.
              let put = lookup-map_insert g h grant l.grants in
              elim (Bool-cases (g == h)) [
                | inl same ↦
                    let put' = rw same at put in
                    let both : ◌≡◌ {A = Option Grant} (some grant) (some given) =
                      sym put' ∙ h_held in
                    (
                      id,
                      e,
                      held,
                      makes_it
                          ∙ ap₂ (λ (k : Hash) (m : Grant). some (some (k, m))) ((==_iff g h).0 same)
                              (some_injective both),
                    )
                | inr differ ↦ let put' = rw differ at put in inv.owned h given (sym put' ∙ h_held)
              ];
        },
        λ x. traced-put id x past l l' refl,
        length-map_insert id past l.ancestors new,
      )
