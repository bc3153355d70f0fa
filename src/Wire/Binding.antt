-- ===== src/Wire/Binding.antt =====
-- What the identifiers of crates/cc-core/src/v1.rs bind: SHA-256 hashes of preimages with their
-- domains in front.
use clockchain.Prelude.{
  ℕ, ◌≡◌, ◌≢◌, ◌⊎◌, refl, ap, ◌∙◌, sym, inl, inr, All, [], ◌∷◌, ◌++◌, append-nil, append-injective,
  arith, drop, get_or, Bytes, bytes-cases, ok, ok-injective,
}
use clockchain.Wire.{Hash, to_be_bytes, number, string_wire, from_be_bytes}
use clockchain.Wire.Event.{Envelope}
use clockchain.Wire.Signed.{
  Crypto, Signed, preimage, event_domain, root_grant_domain, revision_domain, concat_hashes,
  domain_bytes, domain_hash, root_grant, revision_id, decode, get_canonical, get_envelope,
}
use clockchain.Wire.Digits.{IsByte, length-to_be_bytes, from_be_bytes-to_be_bytes}
use clockchain.Wire.Laws.{Fits}
use clockchain.Wire.EventLaws.{IsHash}
use clockchain.Wire.Envelopes.{IsEnvelope, get_envelope-domain}
use clockchain.Wire.Canonical.{
  signed_part, signed_part-Fits, preimage_lem, get_canonical-preimage, decode-canonical,
}

module _ {SecretKey : Type 0} (crypto : Crypto SecretKey) where
  -- Two different strings of bytes with one hash.
  abbrev pub Collide : Bytes → Bytes → Type 0
  Collide p q = (p ≢ q) × (crypto.hash p ≡ crypto.hash q)

  -- Two events have one id exactly when they have one envelope, unless their preimages collide.
  pub decode-binds :
      (b c : Bytes) (s t : Signed)
      → All IsByte b
      → All IsByte c
      → decode crypto b ≡ ok s
      → decode crypto c ≡ ok t
      → (s.envelope ≡ t.envelope → s.id ≡ t.id)
        × (s.id ≡ t.id → (s.envelope ≡ t.envelope) ⊎ Collide (signed_part b) (signed_part c))
  decode-binds b c s t all_b all_c h k =
      let (_, _, x, p, _, _, id_s, _) = decode-canonical crypto b s all_b h in
      let (_, _, y, q, _, _, id_t, _) = decode-canonical crypto c t all_c k in
      (
        λ same.
            let equal : signed_part b ≡ signed_part c =
              ok-injective (sym p ∙ ap preimage same ∙ q) in
            id_s ∙ ap crypto.hash equal ∙ sym id_t,
        λ same. elim (bytes-cases (signed_part b) (signed_part c)) [
          | inl equal ↦
              let v = get_canonical-preimage s.envelope (signed_part b) x p in
              let w = get_canonical-preimage t.envelope (signed_part c) y q in
              inl (ok-injective (sym v ∙ ap get_canonical equal ∙ w))
          | inr differ ↦ inr (differ, sym id_s ∙ same ∙ id_t)
        ],
      )

-- What is hashed for a grant and for a revision, behind the domain.
root_grant_bytes :
    (g : Hash) → drop 20 (domain_bytes root_grant_domain (g ∷ [])) ≡ to_be_bytes 32 g ++ []
unfolding domain_bytes concat_hashes to_be_bytes
root_grant_bytes g = refl

revision_bytes :
    (a b : Hash)
    → drop 18 (domain_bytes revision_domain (a ∷ b ∷ []))
      ≡ to_be_bytes 32 a ++ (to_be_bytes 32 b ++ [])
unfolding domain_bytes concat_hashes to_be_bytes
revision_bytes a b = refl

-- The fourth byte is the length of the domain.
fourth : Bytes → ℕ
fourth b = get_or b 3 0

fourth-root_grant : (g : Hash) → fourth (domain_bytes root_grant_domain (g ∷ [])) ≡ 16
unfolding domain_bytes to_be_bytes fourth
fourth-root_grant g = refl

fourth-revision : (a b : Hash) → fourth (domain_bytes revision_domain (a ∷ b ∷ [])) ≡ 14
unfolding domain_bytes to_be_bytes fourth
fourth-revision a b = refl

to_be_bytes-injective :
    (a b : Hash) → IsHash a → IsHash b → to_be_bytes 32 a ≡ to_be_bytes 32 b → a ≡ b
to_be_bytes-injective a b x y e =
    sym (from_be_bytes-to_be_bytes 32 a x)
    ∙ ap (from_be_bytes 0) e
    ∙ from_be_bytes-to_be_bytes 32 b y

-- The event's domain, with its length in front.
abbrev domain_written : Bytes
domain_written = 0 ∷ 0 ∷ 0 ∷ 11 ∷ event_domain

put_domain : (w : Bytes) → string_wire.put event_domain [] ≡ ok w → w ≡ domain_written
unfolding string_wire number to_be_bytes
put_domain w h = sym (ok-injective h)

fourth-preimage :
    (v : Envelope) (p : Bytes) → IsEnvelope v → Fits p → preimage v ≡ ok p → fourth p ≡ 11
unfolding fourth
fourth-preimage v p x fits h =
    let law = preimage_lem v p x h in
    let got : get_envelope p ≡ ok (v, []) = ap get_envelope (sym (append-nil p)) ∙ law.read [] in
    let (d, r, p_eq, domain) = get_envelope-domain p v [] fits got in
    let d_eq = put_domain d (domain.written []) in ap fourth (p_eq ∙ ap (λ t. t ++ r) d_eq)

module _ {SecretKey : Type 0} (crypto : Crypto SecretKey) where
  -- Root grants of two subjects differ, and revisions of two subjects or events, unless what is
  -- hashed for them collides.
  pub domain_hash-binds :
      (a b c d : Hash)
      → IsHash a
      → IsHash b
      → IsHash c
      → IsHash d
      → (root_grant crypto a ≡ root_grant crypto c
          → (a ≡ c)
            ⊎ Collide crypto
                (domain_bytes root_grant_domain (a ∷ []))
                (domain_bytes root_grant_domain (c ∷ [])))
        × (revision_id crypto a b ≡ revision_id crypto c d
            → ((a ≡ c) × (b ≡ d))
              ⊎ Collide crypto
                  (domain_bytes revision_domain (a ∷ b ∷ []))
                  (domain_bytes revision_domain (c ∷ d ∷ [])))
  unfolding root_grant revision_id domain_hash
  domain_hash-binds a b c d is_a is_b is_c is_d = (
    λ same.
        let p = domain_bytes root_grant_domain (a ∷ []) in
        let q = domain_bytes root_grant_domain (c ∷ []) in
        elim (bytes-cases p q) [
          | inl equal ↦
              let tails = sym (root_grant_bytes a) ∙ ap (drop 20) equal ∙ root_grant_bytes c in
              inl (
                to_be_bytes-injective a c is_a is_c
                  (append-injective (to_be_bytes 32 a) (to_be_bytes 32 c) [] []
                    (length-to_be_bytes 32 a ∙ sym (length-to_be_bytes 32 c)) tails).0)
          | inr differ ↦ inr (differ, same)
        ],
    λ same.
        let p = domain_bytes revision_domain (a ∷ b ∷ []) in
        let q = domain_bytes revision_domain (c ∷ d ∷ []) in
        elim (bytes-cases p q) [
          | inl equal ↦
              let tails = sym (revision_bytes a b) ∙ ap (drop 18) equal ∙ revision_bytes c d in
              let (first, others) =
                append-injective (to_be_bytes 32 a) (to_be_bytes 32 c) (to_be_bytes 32 b ++ [])
                  (to_be_bytes 32 d ++ []) (length-to_be_bytes 32 a ∙ sym (length-to_be_bytes 32 c))
                  tails in
              let (second, _) =
                append-injective (to_be_bytes 32 b) (to_be_bytes 32 d) [] []
                  (length-to_be_bytes 32 b ∙ sym (length-to_be_bytes 32 d)) others in
              inl (
                to_be_bytes-injective a c is_a is_c first,
                to_be_bytes-injective b d is_b is_d second,
              )
          | inr differ ↦ inr (differ, same)
        ],
  )

  -- Ids of different kinds are different: an event is never named like a root grant or a revision,
  -- nor a root grant like a revision, unless what is hashed for the two collides.
  pub id_apart :
      (bytes : Bytes) (s : Signed) (g a b : Hash)
      → All IsByte bytes
      → decode crypto bytes ≡ ok s
      → (s.id ≡ root_grant crypto g
          → Collide crypto (signed_part bytes) (domain_bytes root_grant_domain (g ∷ [])))
        × (s.id ≡ revision_id crypto a b
            → Collide crypto (signed_part bytes) (domain_bytes revision_domain (a ∷ b ∷ [])))
        × (root_grant crypto g ≡ revision_id crypto a b
            → Collide crypto
                (domain_bytes root_grant_domain (g ∷ []))
                (domain_bytes revision_domain (a ∷ b ∷ [])))
  unfolding root_grant revision_id domain_hash
  id_apart bytes s g a b all h =
      let (_, bound, x, p, _, _, id, _) = decode-canonical crypto bytes s all h in
      let fits = signed_part-Fits bytes all bound in
      let event = fourth-preimage s.envelope (signed_part bytes) x fits p in
      let grant = fourth-root_grant g in
      let revision = fourth-revision a b in
      (
        λ same. (
          λ e. let clash = ap fourth e in absurd (omega (arith, event, grant, clash)),
          sym id ∙ same,
        ),
        λ same. (
          λ e. let clash = ap fourth e in absurd (omega (arith, event, revision, clash)),
          sym id ∙ same,
        ),
        λ same.
            (λ e. let clash = ap fourth e in absurd (omega (arith, grant, revision, clash)), same),
      )
