-- ===== src/Wire/Signed.antt =====
-- The envelope's preimage, and `Signed`, of crates/cc-core/src/v1.rs. SHA-256 and Ed25519 are those
-- of third-party packages, and so are parameters.
use clockchain.Prelude.{
  is_empty, ℕ, ◌+◌, ◌-◌, ◌%◌, ◌^◌, Bool, false, not, ◌||◌, Option, none, some, List, [], ◌∷◌, ◌++◌,
  length, take, drop, ltb, ◌==◌, if◌then◌else◌, Bytes, bytes_eq, Result, ok, err, ◌>>=◌,
}
use clockchain.Wire.{
  WireError, truncated, subject_key_encoding, envelope_too_large, unsupported_encoding,
  unsupported_constants, noncanonical, bad_signature, Hash, max_envelope, Wire, to_be_bytes, number,
  hash_wire, bool_wire, string_wire, option_wire, both, read_as,
}
use clockchain.Wire.Event.{
  SubjectKey, AssertedTime, Pins, TargetKind, Kind, Payload, Envelope, kind_of, hash_set,
  subject_key_wire, asserted_time_wire, pins_wire, parent_pins_set, disposition_set, kind_wire,
  target_kind_wire, selection_wire, decision_wire, Decision, Selection, Disposition, ParentPins,
}

pub record Crypto (SecretKey : Type 0) : Type 0 where
  pub hash : Bytes → Hash
  pub is_key : Hash → Bool
  pub verify : Hash → Bytes → Bytes → Bool
  pub author : SecretKey → Hash
  pub sign_message : SecretKey → Bytes → Bytes

-- The fields of each kind of payload.
abbrev pub genesis_fields : Wire (Hash × (Hash × List Hash))
genesis_fields = both hash_wire (both hash_wire hash_set)

abbrev pub correction_fields : Wire (Hash × Decision)
correction_fields = both hash_wire decision_wire

abbrev pub delegate_fields : Wire (Hash × (Hash × Decision))
delegate_fields = both hash_wire (both hash_wire decision_wire)

abbrev pub revoke_fields : Wire (Hash × (Bool × Decision))
revoke_fields = both hash_wire (both bool_wire decision_wire)

abbrev pub resolve_fields : Wire (Selection × (List Disposition × Decision))
resolve_fields = both selection_wire (both disposition_set decision_wire)

abbrev pub edge_assert_fields : Wire (Bytes × (Pins × Decision))
edge_assert_fields = both string_wire (both pins_wire decision_wire)

abbrev pub edge_reaffirm_fields : Wire (Hash × (List ParentPins × (Pins × Decision)))
edge_reaffirm_fields = both hash_wire (both parent_pins_set (both pins_wire decision_wire))

abbrev pub attestation_fields : Wire (TargetKind × (Hash × (Bytes × Hash)))
attestation_fields = both target_kind_wire (both hash_wire (both string_wire hash_wire))

-- `Payload::put_payload`.
unfoldable pub put_payload : Payload → Bytes → Result Bytes WireError
put_payload (Payload.genesis a b c) w = genesis_fields.put (a, (b, c)) w
put_payload (Payload.correction a b) w = correction_fields.put (a, b) w
put_payload (Payload.delegate a b c) w = delegate_fields.put (a, (b, c)) w
put_payload (Payload.revoke a b c) w = revoke_fields.put (a, (b, c)) w
put_payload (Payload.resolve a b c) w = resolve_fields.put (a, (b, c)) w
put_payload (Payload.edge_assert a b c) w = edge_assert_fields.put (a, (b, c)) w
put_payload (Payload.edge_reaffirm a b c d) w = edge_reaffirm_fields.put (a, (b, (c, d))) w
put_payload (Payload.attestation a b c d) w = attestation_fields.put (a, (b, (c, d))) w

-- `Payload::get_payload`.
unfoldable pub get_payload : Kind → Bytes → Result (Payload × Bytes) WireError
get_payload Kind.genesis r = read_as (λ (a, (b, c)). Payload.genesis a b c) genesis_fields r
get_payload Kind.correction r = read_as (λ (a, b). Payload.correction a b) correction_fields r
get_payload Kind.delegate r = read_as (λ (a, (b, c)). Payload.delegate a b c) delegate_fields r
get_payload Kind.revoke r = read_as (λ (a, (b, c)). Payload.revoke a b c) revoke_fields r
get_payload Kind.resolve r = read_as (λ (a, (b, c)). Payload.resolve a b c) resolve_fields r
get_payload Kind.edge_assert r =
    read_as (λ (a, (b, c)). Payload.edge_assert a b c) edge_assert_fields r
get_payload Kind.edge_reaffirm r =
    read_as (λ (a, (b, (c, d))). Payload.edge_reaffirm a b c d) edge_reaffirm_fields r
get_payload Kind.attestation r =
    read_as (λ (a, (b, (c, d))). Payload.attestation a b c d) attestation_fields r

-- "cc.event.v1".
abbrev pub event_domain : Bytes
event_domain = b'c' ∷ b'c' ∷ b'.' ∷ b'e' ∷ b'v' ∷ b'e' ∷ b'n' ∷ b't' ∷ b'.' ∷ b'v' ∷ b'1' ∷ []

abbrev pub canon_version : ℕ
canon_version = 1

abbrev pub constants_version : ℕ
constants_version = 0

-- The fields between the versions and the payload.
abbrev pub Header : Type 0
Header =
    Hash
    × (Kind
        × (Hash
            × (Option Hash
                × (Option SubjectKey × (Option Hash × (List Hash × Option AssertedTime))))))

unfoldable pub header_wire : Wire Header
header_wire = both hash_wire (
    both kind_wire (
      both hash_wire (
        both (option_wire hash_wire) (
          both (option_wire subject_key_wire)
            (both (option_wire hash_wire) (both hash_set (option_wire asserted_time_wire)))))))

unfoldable pub header_of : Envelope → Header
header_of e = (
  e.instance,
  (
    kind_of e.payload,
    (e.author, (e.subject, (e.subject_key, (e.grant, (e.parents, e.asserted_time))))),
  ),
)

unfoldable pub envelope_of : Header → Payload → Envelope
envelope_of (i, (_, (a, (s, (k, (g, (p, t))))))) payload = record {
  instance = i;
  author = a;
  subject = s;
  subject_key = k;
  grant = g;
  parents = p;
  asserted_time = t;
  payload = payload;
}

abbrev pub ill_sized : Bytes → Bool
ill_sized s = is_empty s || ltb 1024 (length s)

-- The check of the subject key at the head of `preimage`.
unfoldable pub bad_subject_key : Option SubjectKey → Bool
bad_subject_key none = false
bad_subject_key (some key) = ill_sized key.kind || (ill_sized key.namespace || ill_sized key.value)

abbrev checked_size : Bytes → Result Bytes WireError
checked_size w = if ltb max_envelope (length w + 64) then err envelope_too_large else ok w

-- What `preimage` writes, once the subject key is checked.
unfoldable pub put_envelope : Envelope → Bytes → Result Bytes WireError
put_envelope e w₀ = do
  w₁ ← string_wire.put event_domain w₀
  w₂ ← (number 2).put canon_version w₁
  w₃ ← (number 2).put constants_version w₂
  w₄ ← header_wire.put (header_of e) w₃
  put_payload e.payload w₄

-- `Envelope::preimage`.
unfoldable pub preimage : Envelope → Result Bytes WireError
preimage e =
    if bad_subject_key e.subject_key
    then err subject_key_encoding
    else do w ← put_envelope e []; checked_size w

pub record Signed : Type 0 where
  pub envelope : Envelope
  pub id : Hash
  pub bytes : Bytes

-- The reads of `Signed::decode`, the last one first.
unfoldable pub get_body : Header → Bytes → Result (Envelope × Bytes) WireError
get_body header r = do
  (payload, rest) ← get_payload header.1.0 r
  ok (envelope_of header payload, rest)

unfoldable pub get_constants : ℕ → Bytes → Result (Envelope × Bytes) WireError
get_constants version r =
    if not (version == constants_version)
    then err unsupported_constants
    else do (header, rest) ← header_wire.get r; get_body header rest

unfoldable pub get_versions : ℕ → Bytes → Result (Envelope × Bytes) WireError
get_versions version r =
    if not (version == canon_version)
    then err unsupported_encoding
    else do (constants, rest) ← (number 2).get r; get_constants constants rest

unfoldable pub get_domain : Bytes → Bytes → Result (Envelope × Bytes) WireError
get_domain domain r =
    if not (bytes_eq domain event_domain)
    then err unsupported_encoding
    else do (version, rest) ← (number 2).get r; get_versions version rest

unfoldable pub get_envelope : Bytes → Result (Envelope × Bytes) WireError
get_envelope r = do (domain, rest) ← string_wire.get r; get_domain domain rest

-- `!r.0.is_empty() || envelope.preimage()? != preimage`.
unfoldable pub check_canonical : Envelope → Bytes → Bytes → Result Envelope WireError
check_canonical envelope rest bytes = if not (is_empty rest) then err noncanonical else do
  again ← preimage envelope
  if bytes_eq again bytes then ok envelope else err noncanonical

unfoldable pub get_canonical : Bytes → Result Envelope WireError
get_canonical bytes = do (envelope, rest) ← get_envelope bytes; check_canonical envelope rest bytes

unfoldable pub concat_hashes : List Hash → Bytes
concat_hashes [] = []
concat_hashes (id ∷ ids) = to_be_bytes 32 id ++ concat_hashes ids

-- "cc.root-grant.v1" and "cc.revision.v1".
abbrev pub root_grant_domain : Bytes
root_grant_domain =
    b'c' ∷ b'c' ∷ b'.' ∷ b'r' ∷ b'o' ∷ b'o' ∷ b't' ∷ b'-' ∷ b'g' ∷ b'r' ∷ b'a' ∷ b'n' ∷ b't' ∷ b'.'
    ∷ b'v' ∷ b'1' ∷ []

abbrev pub revision_domain : Bytes
revision_domain =
    b'c' ∷ b'c' ∷ b'.' ∷ b'r' ∷ b'e' ∷ b'v' ∷ b'i' ∷ b's' ∷ b'i' ∷ b'o' ∷ b'n' ∷ b'.' ∷ b'v' ∷ b'1'
    ∷ []

-- What `domain_hash` hashes.
unfoldable pub domain_bytes : Bytes → List Hash → Bytes
domain_bytes domain ids = to_be_bytes 4 (length domain % 2 ^ 32) ++ (domain ++ concat_hashes ids)

module _ {SecretKey : Type 0} (crypto : Crypto SecretKey) where
  unfoldable pub domain_hash : Bytes → List Hash → Hash
  domain_hash domain ids = crypto.hash (domain_bytes domain ids)

  unfoldable pub root_grant : Hash → Hash
  root_grant genesis = domain_hash root_grant_domain (genesis ∷ [])

  unfoldable pub revision_id : Hash → Hash → Hash
  revision_id subject creating_event = domain_hash revision_domain (subject ∷ creating_event ∷ [])

  unfoldable pub check_signature : Envelope → Bytes → Bytes → Bytes → Result Signed WireError
  check_signature envelope bytes signature whole =
      if not (crypto.is_key envelope.author)
      then err bad_signature
      else if not (crypto.verify envelope.author bytes signature)
      then err bad_signature
      else ok (record { envelope = envelope; id = crypto.hash bytes; bytes = whole })

  -- `Signed::decode`.
  unfoldable pub decode : Bytes → Result Signed WireError
  decode bytes =
      if ltb max_envelope (length bytes)
      then err envelope_too_large
      else if ltb (length bytes) 64
      then err truncated
      else let split = length bytes - 64 in
        do
          envelope ← get_canonical (take split bytes)
          check_signature envelope (take split bytes) (drop split bytes) bytes

  -- `Signed::sign`.
  unfoldable pub sign : SecretKey → Envelope → Result Signed WireError
  sign key envelope = do
    bytes ← preimage (record envelope { author = crypto.author key })
    decode (bytes ++ crypto.sign_message key bytes)
