-- ===== src/Wire/Envelopes.antt =====
-- Envelopes on the wire of crates/cc-core/src/v1.rs.
use clockchain.Prelude.{
  ℕ, ◌≡◌, refl, ap, ◌∙◌, sym, subst, inl, inr, All, ◌++◌, append_assoc, arith, ◌==◌, ==_iff,
  Bool-cases, Bytes, bytes_eq, bytes_eq_sound, bytes_eq_refl, ok, ok-bind, ok-injective,
}
use clockchain.Wire.{utf8_lead, utf8_from, is_utf8, number, string_wire}
use clockchain.Wire.Event.{Payload, Envelope, kind_of}
use clockchain.Wire.Signed.{
  Header, event_domain, canon_version, constants_version, header_wire, header_of, envelope_of,
  put_payload, get_payload, put_envelope, get_body, get_constants, get_versions, get_domain,
  get_envelope,
}
use clockchain.Wire.Laws.{Fits, Fits-rest, Encodes, Lawful, IsAny, number-Lawful, both-Lawful}
use clockchain.Wire.Containers.{IsText, string_wire-Lawful, Optional, option-Lawful}
use clockchain.Wire.EventLaws.{
  IsHash, hash_wire-Lawful, hash_set-Lawful, IsSubjectKey, subject_key_wire-Lawful, IsAssertedTime,
  asserted_time_wire-Lawful, kind_wire-Lawful,
}
use clockchain.Wire.Payloads.{IsPayload, EncodesPayload, put_payload_lem, get_payload_lem}

abbrev IsHeader : Header → Type 0
IsHeader (i, (k, (a, (s, (key, (g, (p, t))))))) =
    IsHash i
    × (IsAny k
        × (IsHash a
            × (Optional IsHash s
                × (Optional IsSubjectKey key
                    × (Optional IsHash g × (All IsHash p × Optional IsAssertedTime t))))))

header_wire-Lawful : Lawful header_wire IsHeader
unfolding header_wire
header_wire-Lawful = both-Lawful hash_wire-Lawful (
    both-Lawful kind_wire-Lawful (
      both-Lawful hash_wire-Lawful (
        both-Lawful (option-Lawful hash_wire-Lawful) (
          both-Lawful (option-Lawful subject_key_wire-Lawful) (
            both-Lawful (option-Lawful hash_wire-Lawful)
              (both-Lawful hash_set-Lawful (option-Lawful asserted_time_wire-Lawful)))))))

-- The values that the types of Rust allow.
abbrev pub IsEnvelope : Envelope → Type 0
IsEnvelope e =
    IsHash e.instance
    × (IsHash e.author
        × (Optional IsHash e.subject
            × (Optional IsSubjectKey e.subject_key
                × (Optional IsHash e.grant
                    × (All IsHash e.parents
                        × (Optional IsAssertedTime e.asserted_time × IsPayload e.payload))))))

-- The envelope is written as these bytes, and read off them whatever follows.
pub record EncodesEnvelope (v : Envelope) (e : Bytes) : Type 0 where
  pub written : (w : Bytes) → put_envelope v w ≡ ok (w ++ e)
  pub read : (rest : Bytes) → get_envelope (e ++ rest) ≡ ok (v, rest)

-- Behind the header that an envelope has, its payload completes it.
after_header :
    (v : Envelope) (p rest : Bytes)
    → EncodesPayload v.payload p
    → get_body (header_of v) (p ++ rest) ≡ ok (v, rest)
unfolding get_body envelope_of header_of
after_header v p rest payload = rw (payload.read rest) refl

module _ (v : Envelope) (d c k h p : Bytes) (domain : Encodes string_wire event_domain d)
    (canon : Encodes (number 2) canon_version c)
    (constants : Encodes (number 2) constants_version k)
    (header : Encodes header_wire (header_of v) h) (payload : EncodesPayload v.payload p) where
  put_envelope_parts : (w : Bytes) → put_envelope v w ≡ ok (w ++ (d ++ (c ++ (k ++ (h ++ p)))))
  unfolding put_envelope
  put_envelope_parts w =
      rw
        (
          domain.written w,
          canon.written (w ++ d),
          constants.written ((w ++ d) ++ c),
          header.written (((w ++ d) ++ c) ++ k),
        )
        (payload.written ((((w ++ d) ++ c) ++ k) ++ h) ∙ simp append_assoc)

  get_envelope_parts :
      (rest : Bytes) → get_envelope ((d ++ (c ++ (k ++ (h ++ p)))) ++ rest) ≡ ok (v, rest)
  unfolding get_envelope get_domain get_versions get_constants
  get_envelope_parts rest =
      let same = bytes_eq_refl event_domain in
      rw
        (
          append_assoc,
          domain.read ((c ++ (k ++ (h ++ p))) ++ rest),
          same,
          append_assoc,
          canon.read ((k ++ (h ++ p)) ++ rest),
          append_assoc,
          constants.read ((h ++ p) ++ rest),
          append_assoc,
          header.read (p ++ rest),
        )
        (after_header v p rest payload)

  envelope-Encodes : EncodesEnvelope v (d ++ (c ++ (k ++ (h ++ p))))
  envelope-Encodes = record { written = put_envelope_parts; read = get_envelope_parts }

header_of-envelope_of :
    (h : Header) (p : Payload) → kind_of p ≡ h.1.0 → header_of (envelope_of h p) ≡ h
unfolding envelope_of header_of
header_of-envelope_of (i, (k, (a, (s, (key, (g, (ps, t))))))) p e =
    ap (λ j. (i, (j, (a, (s, (key, (g, (ps, t)))))))) e

payload_of : (h : Header) (p : Payload) → (envelope_of h p).payload ≡ p
unfolding envelope_of
payload_of h p = refl

IsHeader-header_of : (v : Envelope) → IsEnvelope v → IsHeader (header_of v)
unfolding header_of
IsHeader-header_of v x =
    (x.0, (tt, (x.1.0, (x.1.1.0, (x.1.1.1.0, (x.1.1.1.1.0, (x.1.1.1.1.1.0, x.1.1.1.1.1.1.0)))))))

event_domain-IsText : IsText event_domain
unfolding is_utf8 utf8_from utf8_lead
event_domain-IsText = refl

-- Whatever `put_envelope` writes is an encoding of the envelope.
pub put_envelope_lem :
    (v : Envelope) (w w' : Bytes)
    → IsEnvelope v
    → put_envelope v w ≡ ok w'
    → (e : Bytes) × (w' ≡ w ++ e) × EncodesEnvelope v e
unfolding put_envelope
put_envelope_lem v w w' x h =
    let (w₁, domain, h₁) = ok-bind {x = string_wire.put event_domain w} h in
    let (d, d_eq, d_law) = string_wire-Lawful.of_put event_domain w w₁ event_domain-IsText domain in
    let (w₂, canon, h₂) = ok-bind {x = (number 2).put canon_version w₁} h₁ in
    let (c, c_eq, c_law) = (number-Lawful 2).of_put canon_version w₁ w₂ (omega arith) canon in
    let (w₃, constants, h₃) = ok-bind {x = (number 2).put constants_version w₂} h₂ in
    let (k, k_eq, k_law) =
      (number-Lawful 2).of_put constants_version w₂ w₃ (omega arith) constants in
    let (w₄, header, h₄) =
      ok-bind {x = header_wire.put (header_of v) w₃} {f = put_payload v.payload} h₃ in
    let (h, h_eq, h_law) =
      header_wire-Lawful.of_put (header_of v) w₃ w₄ (IsHeader-header_of v x) header in
    let (p, p_eq, p_law) = put_payload_lem v.payload w₄ w' x.1.1.1.1.1.1.1 h₄ in
    (
      d ++ (c ++ (k ++ (h ++ p))),
      p_eq
          ∙ ap (λ t. t ++ p)
              (h_eq ∙ ap (λ t. t ++ h) (k_eq ∙ ap (λ t. t ++ k) (c_eq ∙ ap (λ t. t ++ c) d_eq)))
          ∙ simp append_assoc,
      envelope-Encodes v d c k h p d_law c_law k_law h_law p_law,
    )

-- The reads in the order of the code.
get_body_lem :
    (header : Header) (b : Bytes) (v : Envelope) (rest : Bytes)
    → Fits b
    → get_body header b ≡ ok (v, rest)
    → (header ≡ header_of v)
      × IsPayload v.payload
      × ((p : Bytes) × (b ≡ p ++ rest) × EncodesPayload v.payload p)
unfolding get_body
get_body_lem header b v rest fits h =
    let ((payload, r), got, done) = ok-bind {x = get_payload header.1.0 b} h in
    let (kinds, x, (p, p_eq, p_law)) = get_payload_lem header.1.0 b payload r fits got in
    let same : (envelope_of header payload, r) ≡ (v, rest) = ok-injective done in
    let v_eq : envelope_of header payload ≡ v = ap (λ t. t.0) same in
    let left : r ≡ rest = ap (λ t. t.1) same in
    let payload_eq : payload ≡ v.payload =
      sym (payload_of header payload) ∙ ap (λ (t : Envelope). t.payload) v_eq in
    (
      sym (header_of-envelope_of header payload kinds) ∙ ap header_of v_eq,
      subst IsPayload payload_eq x,
      (p, p_eq ∙ ap (λ t. p ++ t) left, subst (λ t. EncodesPayload t p) payload_eq p_law),
    )

get_constants_lem :
    (version : ℕ) (b : Bytes) (v : Envelope) (rest : Bytes)
    → Fits b
    → get_constants version b ≡ ok (v, rest)
    → (version ≡ constants_version)
      × IsHeader (header_of v)
      × IsPayload v.payload
      × ((h : Bytes) × (p : Bytes) × (b ≡ h ++ (p ++ rest))
          × Encodes header_wire (header_of v) h
          × EncodesPayload v.payload p)
unfolding get_constants
get_constants_lem version b v rest fits h = elim (Bool-cases (version == constants_version)) [
  | inl current ↦
      let h' = rw current at h in
      let ((header, r), got, h'') = ok-bind {x = header_wire.get b} h' in
      let (x, (e, e_eq, e_law)) = header_wire-Lawful.of_get b header r fits got in
      let (same, y, (p, p_eq, p_law)) =
        get_body_lem header r v rest (Fits-rest b e r e_eq fits) h'' in
      (
        (==_iff version constants_version).0 current,
        subst IsHeader same x,
        y,
        (
          e,
          p,
          e_eq ∙ ap (λ t. e ++ t) p_eq,
          subst (λ t. Encodes header_wire t e) same e_law,
          p_law,
        ),
      )
  | inr other ↦ let h' = rw other at h in absurd (ground (arith, h'))
]

get_versions_lem :
    (version : ℕ) (b : Bytes) (v : Envelope) (rest : Bytes)
    → Fits b
    → get_versions version b ≡ ok (v, rest)
    → (version ≡ canon_version)
      × ((constants : ℕ) × (k : Bytes) × (r : Bytes) × (b ≡ k ++ r)
          × Encodes (number 2) constants k
          × Fits r
          × (get_constants constants r ≡ ok (v, rest)))
unfolding get_versions
get_versions_lem version b v rest fits h = elim (Bool-cases (version == canon_version)) [
  | inl current ↦
      let h' = rw current at h in
      let ((constants, r), got, h'') = ok-bind {x = (number 2).get b} h' in
      let (_, (k, k_eq, k_law)) = (number-Lawful 2).of_get b constants r fits got in
      (
        (==_iff version canon_version).0 current,
        (constants, k, r, k_eq, k_law, Fits-rest b k r k_eq fits, h''),
      )
  | inr other ↦ let h' = rw other at h in absurd (ground (arith, h'))
]

get_domain_lem :
    (domain b : Bytes) (v : Envelope) (rest : Bytes)
    → Fits b
    → get_domain domain b ≡ ok (v, rest)
    → (domain ≡ event_domain)
      × ((version : ℕ) × (c : Bytes) × (r : Bytes) × (b ≡ c ++ r)
          × Encodes (number 2) version c
          × Fits r
          × (get_versions version r ≡ ok (v, rest)))
unfolding get_domain
get_domain_lem domain b v rest fits h = elim (Bool-cases (bytes_eq domain event_domain)) [
  | inl known ↦
      let h' = rw known at h in
      let ((version, r), got, h'') = ok-bind {x = (number 2).get b} h' in
      let (_, (c, c_eq, c_law)) = (number-Lawful 2).of_get b version r fits got in
      (
        bytes_eq_sound domain event_domain known,
        (version, c, r, c_eq, c_law, Fits-rest b c r c_eq fits, h''),
      )
  | inr other ↦ let h' = rw other at h in absurd (ground (arith, h'))
]

IsEnvelope-header_of : (v : Envelope) → IsHeader (header_of v) → IsPayload v.payload → IsEnvelope v
unfolding header_of
IsEnvelope-header_of v x y = (
  x.0,
  (x.1.1.0, (x.1.1.1.0, (x.1.1.1.1.0, (x.1.1.1.1.1.0, (x.1.1.1.1.1.1.0, (x.1.1.1.1.1.1.1, y)))))),
)

-- Whatever `get_envelope` reads was an encoding of what it returns.
pub get_envelope_lem :
    (b : Bytes) (v : Envelope) (rest : Bytes)
    → Fits b
    → get_envelope b ≡ ok (v, rest)
    → IsEnvelope v × ((e : Bytes) × (b ≡ e ++ rest) × EncodesEnvelope v e)
unfolding get_envelope
get_envelope_lem b v rest fits h =
    let ((domain, r₁), got, h₁) = ok-bind {x = string_wire.get b} h in
    let (_, (d, d_eq, d_law)) = string_wire-Lawful.of_get b domain r₁ fits got in
    let (domain_eq, (version, c, r₂, c_eq, c_law, fits₂, h₂)) =
      get_domain_lem domain r₁ v rest (Fits-rest b d r₁ d_eq fits) h₁ in
    let (version_eq, (constants, k, r₃, k_eq, k_law, fits₃, h₃)) =
      get_versions_lem version r₂ v rest fits₂ h₂ in
    let (constants_eq, x, y, (e, p, e_eq, e_law, p_law)) =
      get_constants_lem constants r₃ v rest fits₃ h₃ in
    (
      IsEnvelope-header_of v x y,
      (
        d ++ (c ++ (k ++ (e ++ p))),
        d_eq
            ∙ ap (λ t. d ++ t) (c_eq ∙ ap (λ t. c ++ t) (k_eq ∙ ap (λ t. k ++ t) e_eq))
            ∙ simp append_assoc,
        envelope-Encodes v d c k e p (subst (λ t. Encodes string_wire t d) domain_eq d_law)
            (subst (λ t. Encodes (number 2) t c) version_eq c_law)
            (subst (λ t. Encodes (number 2) t k) constants_eq k_law) e_law p_law,
      ),
    )

-- An envelope starts with its domain.
pub get_envelope-domain :
    (b : Bytes) (v : Envelope) (rest : Bytes)
    → Fits b
    → get_envelope b ≡ ok (v, rest)
    → (d : Bytes) × (r : Bytes) × (b ≡ d ++ r) × Encodes string_wire event_domain d
unfolding get_envelope
get_envelope-domain b v rest fits h =
    let ((domain, r₁), got, h₁) = ok-bind {x = string_wire.get b} h in
    let (_, (d, d_eq, d_law)) = string_wire-Lawful.of_get b domain r₁ fits got in
    let (domain_eq, _) = get_domain_lem domain r₁ v rest (Fits-rest b d r₁ d_eq fits) h₁ in
    (d, r₁, d_eq, subst (λ t. Encodes string_wire t d) domain_eq d_law)
