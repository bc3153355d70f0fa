-- ===== src/Wire/Canonical.antt =====
-- `Signed::sign` and `Signed::decode` of crates/cc-core/src/v1.rs: what was signed decodes, and what
-- decodes is canonical.
use clockchain.Prelude.{
  is_empty, ◌+◌, ◌-◌, ◌≤◌, ◌≡◌, refl, ap, ◌∙◌, sym, subst, inl, inr, true, false, All, All-take, [],
  ◌++◌, append-nil, arith, ltb, Bool-cases, if◌then◌else◌, length, length-append, length-take, take,
  drop, take-append, drop-append, Bytes, bytes_eq, bytes_eq_sound, bytes_eq_refl, ok, err, ok-bind,
  ok-injective,
}
use clockchain.Wire.{max_envelope, subject_key_encoding, envelope_too_large}
use clockchain.Wire.Event.{Envelope}
use clockchain.Wire.Signed.{
  Crypto, Signed, bad_subject_key, put_envelope, preimage, get_envelope, check_canonical,
  get_canonical, check_signature, decode, sign,
}
use clockchain.Wire.Laws.{Fits}
use clockchain.Wire.Digits.{IsByte}
use clockchain.Wire.Containers.{ltb-ge}
use clockchain.Wire.Envelopes.{IsEnvelope, EncodesEnvelope, put_envelope_lem, get_envelope_lem}

-- Where the code writes a preimage, it wrote the envelope's one encoding.
pub preimage-ok :
    (v : Envelope) (p : Bytes)
    → preimage v ≡ ok p
    → (bad_subject_key v.subject_key ≡ false)
      × (put_envelope v [] ≡ ok p)
      × (length p + 64 ≤ max_envelope)
unfolding preimage
preimage-ok v p h = elim (Bool-cases (bad_subject_key v.subject_key)) [
  | inl bad ↦ let h' = rw bad at h in absurd (ground (arith, h'))
  | inr good ↦
      let h' = rw good at h in
      let (w, put, checked) = ok-bind {x = put_envelope v []} h' in
      elim (Bool-cases (ltb max_envelope (length w + 64))) [
        | inl large ↦ let h'' = rw large at checked in absurd (ground (arith, h''))
        | inr fits ↦
            let h'' = rw fits at checked in
            let same : w ≡ p = ok-injective h'' in
            (
              good,
              put ∙ ap ok same,
              subst (λ t. length t + 64 ≤ max_envelope) same
                  (ltb-ge max_envelope (length w + 64) fits),
            )
      ]
]

pub preimage_lem :
    (v : Envelope) (p : Bytes) → IsEnvelope v → preimage v ≡ ok p → EncodesEnvelope v p
preimage_lem v p x h =
    let (_, put, _) = preimage-ok v p h in
    let (e, e_eq, law) = put_envelope_lem v [] p x put in subst (EncodesEnvelope v) (sym e_eq) law

-- What `check_canonical` compares: an encoding is written again as it was, unless its subject key is
-- ill sized or it is too large.
preimage-Encodes :
    (v : Envelope) (e : Bytes)
    → EncodesEnvelope v e
    → preimage v ≡ (
        if bad_subject_key v.subject_key
        then err subject_key_encoding
        else if ltb max_envelope (length e + 64)
        then err envelope_too_large
        else ok e)
unfolding preimage
preimage-Encodes v e law = rw (law.written []) refl

-- A preimage that is read to its end is refused only for the size of its subject key, or for its
-- own: once nothing is left to read, the comparison with the envelope written again never fails.
pub get_canonical-read :
    (bytes : Bytes) (v : Envelope)
    → Fits bytes
    → get_envelope bytes ≡ ok (v, [])
    → get_canonical bytes ≡ (
        if bad_subject_key v.subject_key
        then err subject_key_encoding
        else if ltb max_envelope (length bytes + 64)
        then err envelope_too_large
        else ok v)
unfolding get_canonical check_canonical
get_canonical-read bytes v fits h =
    let (_, (e, e_eq, law)) = get_envelope_lem bytes v [] fits h in
    let same : bytes ≡ e = e_eq ∙ append-nil e in
    let written = preimage-Encodes v bytes (subst (EncodesEnvelope v) (sym same) law) in
    let again = bytes_eq_refl bytes in
    elim (Bool-cases (bad_subject_key v.subject_key)) [
      | inl bad ↦ let written' = rw bad at written in rw (h, written', bad) refl
      | inr good ↦
          let written' = rw good at written in
          elim (Bool-cases (ltb max_envelope (length bytes + 64))) [
            | inl large ↦
                let written'' = rw large at written' in rw (h, written'', good, large) refl
            | inr small ↦
                let written'' = rw small at written' in rw (h, written'', again, good, small) refl
          ]
    ]

get_canonical-ok :
    (bytes : Bytes) (v : Envelope)
    → Fits bytes
    → get_canonical bytes ≡ ok v
    → IsEnvelope v × (preimage v ≡ ok bytes)
unfolding get_canonical check_canonical
get_canonical-ok bytes v fits h =
    let ((u, rest), got, h') = ok-bind {x = get_envelope bytes} h in
    let (x, _) = get_envelope_lem bytes u rest fits got in
    elim (Bool-cases (is_empty rest)) [
      | inl done ↦
          let h'' = rw done at h' in
          let (again, written, h₃) = ok-bind {x = preimage u} h'' in
          elim (Bool-cases (bytes_eq again bytes)) [
            | inl equal ↦
                let h₄ = rw equal at h₃ in
                let same : u ≡ v = ok-injective h₄ in
                (
                  subst IsEnvelope same x,
                  ap preimage (sym same) ∙ written ∙ ap ok (bytes_eq_sound again bytes equal),
                )
            | inr differ ↦ let h₄ = rw differ at h₃ in absurd (ground (arith, h₄))
          ]
      | inr more ↦ let h'' = rw more at h' in absurd (ground (arith, h''))
    ]

pub get_canonical-preimage :
    (v : Envelope) (p : Bytes) → IsEnvelope v → preimage v ≡ ok p → get_canonical p ≡ ok v
unfolding get_canonical check_canonical
get_canonical-preimage v p x h =
    let law = preimage_lem v p x h in
    let got : get_envelope p ≡ ok (v, []) = ap get_envelope (sym (append-nil p)) ∙ law.read [] in
    rw (got, h, bytes_eq_refl p) refl

-- The bytes that are signed, and the signature behind them.
abbrev pub signed_part : Bytes → Bytes
signed_part bytes = take (length bytes - 64) bytes

pub signed_part-Fits :
    (bytes : Bytes) → All IsByte bytes → length bytes ≤ max_envelope → Fits (signed_part bytes)
signed_part-Fits bytes all bound =
    let size = length-take (length bytes - 64) bytes in
    (All-take IsByte (length bytes - 64) bytes all, omega (arith, bound, size))

abbrev pub signature_part : Bytes → Bytes
signature_part bytes = drop (length bytes - 64) bytes

module _ {SecretKey : Type 0} (crypto : Crypto SecretKey) where
  check_signature-ok :
      (v : Envelope) (p signature whole : Bytes) (s : Signed)
      → check_signature crypto v p signature whole ≡ ok s
      → (crypto.is_key v.author ≡ true)
        × (crypto.verify v.author p signature ≡ true)
        × (s ≡ record { envelope = v; id = crypto.hash p; bytes = whole })
  unfolding check_signature
  check_signature-ok v p signature whole s h = elim (Bool-cases (crypto.is_key v.author)) [
    | inl key ↦ elim (Bool-cases (crypto.verify v.author p signature)) [
      | inl good ↦ let h' = rw (key, good) at h in (key, good, sym (ok-injective h'))
      | inr bad ↦ let h' = rw (key, bad) at h in absurd (ground (arith, h'))
    ]
    | inr none ↦ let h' = rw none at h in absurd (ground (arith, h'))
  ]

  -- What decodes is as long as a signature at least and at most an envelope; it ends in a signature
  -- of the rest by the envelope's author, and the rest is the envelope's preimage, whose hash is the
  -- event's id. The event keeps the bytes, and its envelope has values of the types only.
  pub decode-canonical :
      (bytes : Bytes) (s : Signed)
      → All IsByte bytes
      → decode crypto bytes ≡ ok s
      → (64 ≤ length bytes)
        × (length bytes ≤ max_envelope)
        × IsEnvelope s.envelope
        × (preimage s.envelope ≡ ok (signed_part bytes))
        × (crypto.is_key s.envelope.author ≡ true)
        × (crypto.verify s.envelope.author (signed_part bytes) (signature_part bytes) ≡ true)
        × (s.id ≡ crypto.hash (signed_part bytes))
        × (s.bytes ≡ bytes)
  unfolding decode
  decode-canonical bytes s all h = elim (Bool-cases (ltb max_envelope (length bytes))) [
    | inl large ↦ let h' = rw large at h in absurd (ground (arith, h'))
    | inr small ↦ elim (Bool-cases (ltb (length bytes) 64)) [
      | inl short ↦ let h' = rw (small, short) at h in absurd (ground (arith, h'))
      | inr enough ↦
          let h' = rw (small, enough) at h in
          let (v, got, h'') = ok-bind {x = get_canonical (signed_part bytes)} h' in
          let bound : length bytes ≤ max_envelope = ltb-ge max_envelope (length bytes) small in
          let fits = signed_part-Fits bytes all bound in
          let (x, written) = get_canonical-ok (signed_part bytes) v fits got in
          let (key, good, same) =
            check_signature-ok v (signed_part bytes) (signature_part bytes) bytes s h'' in
          let v_eq : v ≡ s.envelope = ap (λ (t : Signed). t.envelope) (sym same) in
          (
            ltb-ge (length bytes) 64 enough,
            bound,
            subst IsEnvelope v_eq x,
            ap preimage (sym v_eq) ∙ written,
            ap (λ (t : Envelope). crypto.is_key t.author) (sym v_eq) ∙ key,
            ap (λ (t : Envelope). crypto.verify t.author (signed_part bytes) (signature_part bytes))
                  (sym v_eq)
                ∙ good,
            ap (λ (t : Signed). t.id) same,
            ap (λ (t : Signed). t.bytes) same,
          )
    ]
  ]

  decode-append :
      (v : Envelope) (p signature : Bytes)
      → IsEnvelope v
      → preimage v ≡ ok p
      → length signature ≡ 64
      → crypto.is_key v.author ≡ true
      → crypto.verify v.author p signature ≡ true
      → decode crypto (p ++ signature)
        ≡ ok (record { envelope = v; id = crypto.hash p; bytes = p ++ signature })
  unfolding decode check_signature
  decode-append v p signature x h size key good =
      let total = length-append p signature in
      let (_, _, bound) = preimage-ok v p h in
      let small : ltb max_envelope (length (p ++ signature)) ≡ false = ground arith in
      let enough : ltb (length (p ++ signature)) 64 ≡ false = ground arith in
      let split : length (p ++ signature) - 64 ≡ length p = omega arith in
      let head = take-append (length p) p signature refl in
      let tail = drop-append (length p) p signature refl in
      let got = get_canonical-preimage v p x h in
      rw (small, enough, split, head, tail, got, key, good) refl

  -- What is signed decodes to the envelope with the key's author, under the hash of its preimage.
  -- Of the signature scheme it is used that a signature has 64 bytes and is verified, and that the
  -- author of a key is a key.
  pub sign-decode :
      (key : SecretKey) (envelope : Envelope) (p : Bytes)
      → IsEnvelope (record envelope { author = crypto.author key })
      → preimage (record envelope { author = crypto.author key }) ≡ ok p
      → length (crypto.sign_message key p) ≡ 64
      → crypto.is_key (crypto.author key) ≡ true
      → crypto.verify (crypto.author key) p (crypto.sign_message key p) ≡ true
      → sign crypto key envelope
        ≡ ok (record {
          envelope = record envelope { author = crypto.author key };
          id = crypto.hash p;
          bytes = p ++ crypto.sign_message key p;
        })
  unfolding sign
  sign-decode key envelope p x h size known good =
      let own = record envelope { author = crypto.author key } in
      rw h (decode-append own p (crypto.sign_message key p) x h size known good)
