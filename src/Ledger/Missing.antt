-- ===== src/Ledger/Missing.antt =====
-- How many events the loops of crates/cc-ledger/src/v1 have not taken yet.
use clockchain.Prelude.{
  ℕ, suc, ◌+◌, ◌≡◌, refl, ap, ◌∙◌, sym, subst, inl, inr, Bool, true, false, ◌||◌, none, some, [],
  ◌∷◌, arith, ◌==◌, ==_iff, Bool-cases, if◌then◌else◌, length, nat_key,
}
use clockchain.Prelude.Table.{lookup, IsDistinct}
use clockchain.Wire.{Hash}
use clockchain.Wire.Signed.{Signed}
use clockchain.Ledger.{Events}
use clockchain.Ledger.Order.{later}

-- How many events of a list are not taken.
abbrev pub missing : {S : Type 0} → (Hash → S → Bool) → Events → S → ℕ
missing taken [] s = 0
missing taken ((id, e) ∷ items) s = (if taken id s then 0 else 1) + missing taken items s

module _ {S : Type 0} (taken : Hash → S → Bool) where
  missing_kept :
      (items : Events) (id : Hash) (s s' : S)
      → ((x : Hash) → taken x s' ≡ (id == x || taken x s))
      → lookup id items ≡ none
      → missing taken items s' ≡ missing taken items s
  unfolding lookup
  missing_kept [] id s s' h gone = refl
  missing_kept ((j, e) ∷ items) id s s' h gone =
      ground (arith, h j, missing_kept items id s s' h (ground (arith, gone)), gone)

  pub missing_all :
      (items : Events) (s : S)
      → ((x : Hash) → taken x s ≡ false)
      → missing taken items s ≡ length items
  missing_all [] s h = refl
  missing_all ((id, e) ∷ items) s h = ground (arith, h id, missing_all items s h)

  pub missing_fewer :
      (items : Events) (id : Hash) (e : Signed) (s s' : S)
      → IsDistinct items
      → ((x : Hash) → taken x s' ≡ (id == x || taken x s))
      → lookup id items ≡ some e
      → taken id s ≡ false
      → suc (missing taken items s') ≡ missing taken items s
  unfolding lookup
  missing_fewer [] id e s s' d h held new = absurd (ground (arith, held))
  missing_fewer ((j, f) ∷ items) id e s s' d h held new = elim (Bool-cases (j == id)) [
    | inl same ↦
        let j_eq = (==_iff j id).0 same in
        let gone : lookup id items ≡ none = ap (λ t. lookup t items) (sym j_eq) ∙ d.0 in
        let rest = missing_kept items id s s' h gone in
        let now : taken j s' ≡ true = ground (arith, h j, same) in
        let old : taken j s ≡ false = ap (λ t. taken t s) j_eq ∙ new in
        rw (now, old) (omega (arith, rest))
    | inr differ ↦
        let held' = rw differ at held in
        let rest = missing_fewer items id e s s' d.1 h held' new in
        let kept : taken j s' ≡ taken j s = ground (arith, h j, differ) in
        rw kept (omega (arith, rest))
  ]

  pub missing_zero :
      (items : Events) (s : S)
      → ((x : Hash) (e : Signed) → lookup x items ≡ some e → taken x s ≡ true)
      → IsDistinct items
      → missing taken items s ≡ 0
  unfolding lookup
  missing_zero [] s h d = refl
  missing_zero ((id, e) ∷ items) s h d =
      let now = h id e (ground arith) in
      let rest = missing_zero items s (λ x f held. h x f (later id x e f items d held)) d.1 in
      ground (arith, now, rest)

  pub missing_none :
      (items : Events) (s : S) (x : Hash) (e : Signed)
      → missing taken items s ≡ 0
      → lookup x items ≡ some e
      → taken x s ≡ true
  unfolding lookup
  missing_none [] s x e h held = absurd (ground (arith, held))
  missing_none ((id, f) ∷ items) s x e h held = elim (Bool-cases (id == x)) [
    | inl same ↦
        let now : taken id s ≡ true = ground (arith, h) in
        subst (λ y. taken y s ≡ true) ((==_iff id x).0 same) now
    | inr differ ↦
        let held' = rw differ at held in missing_none items s x e (ground (arith, h)) held'
  ]
