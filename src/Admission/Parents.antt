-- ===== src/Admission/Parents.antt =====
-- The loops over the parents in `evaluate` of crates/cc-ledger/src/v1.rs return.
use clockchain.Prelude.{
  ◌≡◌, refl, inl, inr, Bool, true, false, Option, none, some, List, [], ◌∷◌, arith, Bool-cases,
  nat_key,
}
use clockchain.Prelude.Table.{contains_key}
use clockchain.Prelude.Ordered.{set_contains}
use clockchain.Wire.{Hash}
use clockchain.Wire.Event.{SubjectKey, Payload, kind_of}
use clockchain.Ledger.{Events}
use clockchain.Ledger.Authority.{any_of}
use clockchain.Ledger.Order.{key_held}
use clockchain.Ledger.Totals.{Returns}
use clockchain.Edges.{Cause, is_genesis, is_subject}
use clockchain.Admission.{same_subject_key, not_subject, subject_of, is_hash, check_parents}
use clockchain.Admission.Classify.{any_foreign}

pub not_subject-Returns :
    (all : Events) (ps : List Hash)
    → ((p : Hash) → set_contains p ps ≡ true → contains_key p all ≡ true)
    → (b : Bool) × (any_of (not_subject all) ps ≡ some b) × (b ≡ false → any_foreign all ps ≡ false)
unfolding any_of not_subject any_foreign set_contains
not_subject-Returns all [] known = (false, refl, λ _. refl)
not_subject-Returns all (p ∷ ps) known =
    let (e, held) = key_held p all (known p (ground arith)) in
    elim (Bool-cases (is_subject e)) [
      | inr other ↦
          let now : not_subject all p ≡ some true = rw held (rw other refl) in
          (true, rw (now, any_of) refl, λ h. absurd (ground (arith, h)))
      | inl sub ↦
          let now : not_subject all p ≡ some false = rw held (rw sub refl) in
          let (b, eq, all_) = not_subject-Returns all ps (λ q m. known q (ground (arith, m))) in
          (b, rw (now, any_of) eq, λ h. ground (arith, held, sub, all_ h))
    ]

pub check_parents-Returns :
    (all : Events) (subject : Hash) (key : Option SubjectKey) (ps : List Hash)
    → ((p : Hash) → set_contains p ps ≡ true → contains_key p all ≡ true)
    → Returns (check_parents all subject key ps)
unfolding check_parents set_contains
check_parents-Returns all subject key [] known = (none, refl)
check_parents-Returns all subject key (p ∷ ps) known =
    let (e, held) = key_held p all (known p (ground arith)) in
    elim (Bool-cases (is_hash (subject_of p e.envelope) subject)) [
      | inr other ↦ (some Cause.wrong_subject, rw held (rw other refl))
      | inl same ↦ elim (Bool-cases (same_subject_key e.envelope.subject_key key)) [
        | inr changed ↦ (some Cause.subject_key_changed, rw held (rw same (rw changed refl)))
        | inl kept ↦
            let (c, eq) =
              check_parents-Returns all subject key ps (λ q m. known q (ground (arith, m))) in
            (c, rw held (rw same (rw kept eq)))
      ]
    ]

pub genesis_payload :
    (payload : Payload)
    → is_genesis (kind_of payload) ≡ true
    → (nonce : Hash) × (b : Hash) × (evidence : List Hash) × (payload
        ≡ Payload.genesis nonce b evidence)
unfolding kind_of
genesis_payload (Payload.genesis n b ev) h = (n, b, ev, refl)
genesis_payload (Payload.correction _ _) h = absurd (ground (arith, h))
genesis_payload (Payload.delegate _ _ _) h = absurd (ground (arith, h))
genesis_payload (Payload.revoke _ _ _) h = absurd (ground (arith, h))
genesis_payload (Payload.resolve _ _ _) h = absurd (ground (arith, h))
genesis_payload (Payload.edge_assert _ _ _) h = absurd (ground (arith, h))
genesis_payload (Payload.edge_reaffirm _ _ _ _) h = absurd (ground (arith, h))
genesis_payload (Payload.attestation _ _ _ _) h = absurd (ground (arith, h))
