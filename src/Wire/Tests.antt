-- ===== src/Wire/Tests.antt =====
-- Events of crates/cc-core/src/v1.rs on the wire: a genesis and a delegation, with a toy hash and a
-- toy signature.
use clockchain.Prelude.{
  ℕ, ◌%◌, ◌≤◌, ◌≡◌, ◌⊎◌, refl, true, none, some, All, [], ◌∷◌, ◌++◌, arith, length, replicate,
  Bytes, bytes_eq, ok, err,
}
use clockchain.Wire.{
  max_envelope, to_be_bytes, from_be_bytes, number, take_bytes, bool_of, bool_wire, utf8_lead,
  utf8_from, is_utf8, string_wire, option_put, option_wire, any_descent, put_each, get_each,
  set_body, set_wire, tags, both, via, noncanonical, invalid_utf8, noncanonical_set,
}
use clockchain.Wire.Event.{
  Kind, Value, Payload, Envelope, kind_of, subject_key_wire, asserted_time_wire, kind_tag,
  kind_variant, kind_wire, put_variant, variants, value_put, value_body, value_wire, decision_wire,
}
use clockchain.Wire.Signed.{
  Crypto, Signed, domain_bytes, root_grant_domain, revision_domain, root_grant, revision_id,
  put_payload, get_payload, header_wire, header_of, envelope_of, bad_subject_key, put_envelope,
  preimage, get_body, get_constants, get_versions, get_domain, get_envelope, check_canonical,
  get_canonical, check_signature, decode, sign,
}
use clockchain.Wire.Digits.{IsByte}
use clockchain.Wire.Laws.{Fits}
use clockchain.Wire.Envelopes.{IsEnvelope}
use clockchain.Wire.Canonical.{signed_part, signature_part, decode-canonical, sign-decode}
use clockchain.Wire.Binding.{Collide, decode-binds, id_apart}
use clockchain.Wire.Ordered.{Ascending, HasSizes, decode-ordered}

abbrev toy_sign : ℕ → Bytes → Bytes
toy_sign key p = replicate 62 7 ++ (key % 256 ∷ length p % 256 ∷ [])

abbrev toy : Crypto ℕ
toy = record {
  hash = λ p. length p;
  is_key = λ a. true;
  verify = λ a p s. bytes_eq s (toy_sign a p);
  author = λ key. key;
  sign_message = toy_sign;
}

abbrev genesis_event : Envelope
genesis_event = record {
  instance = 5;
  author = 9;
  subject = none;
  subject_key = some (record { kind = b'k' ∷ []; namespace = b'n' ∷ []; value = b'v' ∷ [] });
  grant = none;
  parents = [];
  asserted_time = none;
  payload = Payload.genesis 1 2 (3 ∷ 4 ∷ []);
}

abbrev delegation : Envelope
delegation = record {
  instance = 5;
  author = 9;
  subject = some 17;
  subject_key = some (record { kind = b'k' ∷ []; namespace = b'n' ∷ []; value = b'v' ∷ [] });
  grant = some 18;
  parents = 17 ∷ 20 ∷ [];
  asserted_time = none;
  payload = Payload.delegate 33 18 (record {
    kind = Kind.delegate;
    rationale = b'r' ∷ [];
    evidence = 3 ∷ [];
    parents = 17 ∷ [];
    old = Value.nothing;
    new = Value.grant 18 33;
  });
}

abbrev written : Envelope → Bytes
written e = elim (preimage e) [ ok p ↦ p | err _ ↦ [] ]

abbrev whole : Envelope → Bytes
whole e = written e ++ toy_sign 9 (written e)

abbrev event : Envelope → Signed
event e = record { envelope = e; id = length (written e); bytes = whole e }

genesis_written : preimage genesis_event ≡ ok (written genesis_event)
unfolding preimage bad_subject_key put_envelope string_wire number to_be_bytes header_wire header_of
    both kind_wire tags kind_tag kind_of option_wire option_put bool_wire subject_key_wire
    asserted_time_wire via set_wire any_descent put_each put_payload
genesis_written = refl

delegation_written : preimage delegation ≡ ok (written delegation)
unfolding preimage bad_subject_key put_envelope string_wire number to_be_bytes header_wire header_of
    both kind_wire tags kind_tag kind_of option_wire option_put bool_wire subject_key_wire
    asserted_time_wire via set_wire any_descent put_each put_payload decision_wire value_wire
    variants value_put put_variant
delegation_written = refl

genesis_bytes : All IsByte (whole genesis_event)
unfolding preimage bad_subject_key put_envelope string_wire number to_be_bytes header_wire header_of
    both kind_wire tags kind_tag kind_of option_wire option_put bool_wire subject_key_wire
    asserted_time_wire via set_wire any_descent put_each put_payload decision_wire value_wire
    variants value_put put_variant
genesis_bytes = omega arith

delegation_bytes : All IsByte (whole delegation)
unfolding preimage bad_subject_key put_envelope string_wire number to_be_bytes header_wire header_of
    both kind_wire tags kind_tag kind_of option_wire option_put bool_wire subject_key_wire
    asserted_time_wire via set_wire any_descent put_each put_payload decision_wire value_wire
    variants value_put put_variant
delegation_bytes = omega arith

genesis_decoded : decode toy (whole genesis_event) ≡ ok (event genesis_event)
unfolding preimage bad_subject_key put_envelope string_wire number to_be_bytes header_wire header_of
    both kind_wire tags kind_tag kind_of option_wire option_put bool_wire subject_key_wire
    asserted_time_wire via set_wire any_descent put_each put_payload decision_wire value_wire
    variants value_put put_variant take_bytes from_be_bytes bool_of is_utf8 utf8_from utf8_lead
    get_each set_body kind_variant value_body get_payload envelope_of get_body get_constants
    get_versions get_domain get_envelope check_canonical get_canonical bytes_eq check_signature
    decode
genesis_decoded = refl

delegation_decoded : decode toy (whole delegation) ≡ ok (event delegation)
unfolding preimage bad_subject_key put_envelope string_wire number to_be_bytes header_wire header_of
    both kind_wire tags kind_tag kind_of option_wire option_put bool_wire subject_key_wire
    asserted_time_wire via set_wire any_descent put_each put_payload decision_wire value_wire
    variants value_put put_variant take_bytes from_be_bytes bool_of is_utf8 utf8_from utf8_lead
    get_each set_body kind_variant value_body get_payload envelope_of get_body get_constants
    get_versions get_domain get_envelope check_canonical get_canonical bytes_eq check_signature
    decode
delegation_decoded = refl

genesis_IsEnvelope : IsEnvelope genesis_event
unfolding is_utf8 utf8_from utf8_lead
genesis_IsEnvelope = (
  omega arith,
  (
    omega arith,
    (tt, ((refl, (refl, refl)), (tt, (tt, (tt, (omega arith, (omega arith, omega arith))))))),
  ),
)

decode-canonical_example :
    (64 ≤ length (whole genesis_event))
    × (length (whole genesis_event) ≤ max_envelope)
    × IsEnvelope genesis_event
    × (preimage genesis_event ≡ ok (signed_part (whole genesis_event)))
    × (true ≡ true)
    × (bytes_eq
          (signature_part (whole genesis_event))
          (toy_sign 9 (signed_part (whole genesis_event)))
        ≡ true)
    × (length (written genesis_event) ≡ length (signed_part (whole genesis_event)))
    × (whole genesis_event ≡ whole genesis_event)
decode-canonical_example =
    decode-canonical toy (whole genesis_event) (event genesis_event) genesis_bytes genesis_decoded

sign-decode_example : sign toy 9 genesis_event ≡ ok (event genesis_event)
unfolding bytes_eq preimage bad_subject_key put_envelope string_wire number to_be_bytes header_wire
    header_of both kind_wire tags kind_tag kind_of option_wire option_put bool_wire subject_key_wire
    asserted_time_wire via set_wire any_descent put_each put_payload decision_wire value_wire
    variants value_put put_variant
sign-decode_example =
    sign-decode toy 9 genesis_event (written genesis_event) genesis_IsEnvelope genesis_written refl
      refl refl

decode-binds_example :
    (genesis_event ≡ delegation → length (written genesis_event) ≡ length (written delegation))
    × (length (written genesis_event) ≡ length (written delegation)
        → (genesis_event ≡ delegation)
          ⊎ Collide toy (signed_part (whole genesis_event)) (signed_part (whole delegation)))
decode-binds_example =
    decode-binds toy (whole genesis_event) (whole delegation) (event genesis_event)
      (event delegation) genesis_bytes delegation_bytes genesis_decoded delegation_decoded

decode-ordered_example : Ascending (17 ∷ 20 ∷ []) × (2 ≤ 1024) × HasSizes delegation.subject_key
decode-ordered_example =
    decode-ordered toy (whole delegation) (event delegation) delegation_bytes delegation_decoded

id_apart_example :
    (length (written genesis_event) ≡ root_grant toy 1
      → Collide toy (signed_part (whole genesis_event)) (domain_bytes root_grant_domain (1 ∷ [])))
    × (length (written genesis_event) ≡ revision_id toy 2 3
        → Collide toy
            (signed_part (whole genesis_event))
            (domain_bytes revision_domain (2 ∷ 3 ∷ [])))
    × (root_grant toy 1 ≡ revision_id toy 2 3
        → Collide toy
            (domain_bytes root_grant_domain (1 ∷ []))
            (domain_bytes revision_domain (2 ∷ 3 ∷ [])))
id_apart_example =
    id_apart toy (whole genesis_event) (event genesis_event) 1 2 3 genesis_bytes genesis_decoded

genesis-Fits : Fits (written genesis_event)
unfolding preimage bad_subject_key put_envelope string_wire number to_be_bytes header_wire header_of
    both kind_wire tags kind_tag kind_of option_wire option_put bool_wire subject_key_wire
    asserted_time_wire via set_wire any_descent put_each put_payload decision_wire value_wire
    variants value_put put_variant
genesis-Fits = omega arith

genesis_read : get_envelope (written genesis_event) ≡ ok (genesis_event, [])
unfolding preimage bad_subject_key put_envelope string_wire number to_be_bytes header_wire header_of
    both kind_wire tags kind_tag kind_of option_wire option_put bool_wire subject_key_wire
    asserted_time_wire via set_wire any_descent put_each put_payload decision_wire value_wire
    variants value_put put_variant take_bytes from_be_bytes bool_of is_utf8 utf8_from utf8_lead
    get_each set_body kind_variant value_body get_payload envelope_of get_body get_constants
    get_versions get_domain get_envelope check_canonical get_canonical bytes_eq check_signature
    decode
genesis_read = refl

-- A byte behind the payload is refused.
trailing : get_canonical (written genesis_event ++ (0 ∷ [])) ≡ err noncanonical
unfolding preimage bad_subject_key put_envelope string_wire number to_be_bytes header_wire header_of
    both kind_wire tags kind_tag kind_of option_wire option_put bool_wire subject_key_wire
    asserted_time_wire via set_wire any_descent put_each put_payload decision_wire value_wire
    variants value_put put_variant take_bytes from_be_bytes bool_of is_utf8 utf8_from utf8_lead
    get_each set_body kind_variant value_body get_payload envelope_of get_body get_constants
    get_versions get_domain get_envelope check_canonical get_canonical bytes_eq check_signature
    decode
trailing = refl

-- A continuation byte alone is no text.
bad_text : string_wire.get (0 ∷ 0 ∷ 0 ∷ 1 ∷ 0x80 ∷ []) ≡ err invalid_utf8
unfolding string_wire number take_bytes from_be_bytes is_utf8 utf8_from utf8_lead
bad_text = refl

-- Sets are not sorted by the writer.
unsorted : preimage (record genesis_event { parents = 2 ∷ 1 ∷ [] }) ≡ err noncanonical_set
unfolding preimage bad_subject_key put_envelope string_wire number to_be_bytes header_wire header_of
    both kind_wire tags kind_tag kind_of option_wire option_put bool_wire subject_key_wire
    asserted_time_wire via set_wire any_descent put_each put_payload decision_wire value_wire
    variants value_put put_variant
unsorted = refl
