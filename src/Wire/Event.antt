-- ===== src/Wire/Event.antt =====
-- Events on the wire: the types of crates/cc-core/src/v1.rs and their codecs.
use clockchain.Prelude.{
  ℕ, Bool, Option, none, some, List, Bytes, Result, ok, err, ◌>>=◌, ◌==◌, if◌then◌else◌,
}
use clockchain.Wire.{
  WireError, unknown_value_tag, unknown_selection_tag, Hash, Wire, number, hash_wire, bool_wire,
  string_wire, set_wire, tags, both, via, read_as,
}

pub record SubjectKey : Type 0 where
  pub kind : Bytes
  pub namespace : Bytes
  pub value : Bytes

pub record AssertedTime : Type 0 where
  pub coordinate : Hash
  pub precision : Bytes

pub record Pin : Type 0 where
  pub subject : Hash
  pub basis : Hash
  pub revision : Hash
  pub body : Hash

pub record Pins : Type 0 where
  pub source : Pin
  pub target : Pin

pub record ParentPins : Type 0 where
  pub parent : Hash
  pub pins : Pins

pub data DispositionKind : Type 0 where
  selected merged not_selected : DispositionKind

pub record Disposition : Type 0 where
  pub parent : Hash
  pub action : DispositionKind
  pub rationale : Bytes

pub data Kind : Type 0 where
  genesis correction delegate revoke resolve edge_assert edge_reaffirm attestation : Kind

pub data TargetKind : Type 0 where
  event revision : TargetKind

pub data Value : Type 0 where
  nothing : Value
  body : Hash → Value
  grant : (issuer grantee : Hash) → Value
  active_grant : Hash → Value
  revoked_grant : (grant : Hash) (cascade : Bool) → Value
  heads : List Hash → Value
  revision : Hash → Value
  pins : Pins → Value
  parent_pins : List ParentPins → Value

pub record Decision : Type 0 where
  pub kind : Kind
  pub rationale : Bytes
  pub evidence : List Hash
  pub parents : List Hash
  pub old : Value
  pub new : Value

pub data Selection : Type 0 where
  revision : Hash → Selection
  merged_body : Hash → Selection

pub data Payload : Type 0 where
  genesis : (nonce body : Hash) (evidence : List Hash) → Payload
  correction : (body : Hash) (decision : Decision) → Payload
  delegate : (grantee issuer : Hash) (decision : Decision) → Payload
  revoke : (target : Hash) (cascade : Bool) (decision : Decision) → Payload
  resolve :
      (selection : Selection) (dispositions : List Disposition) (decision : Decision) → Payload
  edge_assert : (relation : Bytes) (pins : Pins) (decision : Decision) → Payload
  edge_reaffirm : (edge : Hash) (old : List ParentPins) (new : Pins) (decision : Decision) → Payload
  attestation :
      (target_kind : TargetKind) (target : Hash) (artifact_kind : Bytes) (artifact : Hash) → Payload

pub record Envelope : Type 0 where
  pub instance : Hash
  pub author : Hash
  pub subject : Option Hash
  pub subject_key : Option SubjectKey
  pub grant : Option Hash
  pub parents : List Hash
  pub asserted_time : Option AssertedTime
  pub payload : Payload

-- `Payload::kind`.
unfoldable pub kind_of : Payload → Kind
kind_of (Payload.genesis _ _ _) = Kind.genesis
kind_of (Payload.correction _ _) = Kind.correction
kind_of (Payload.delegate _ _ _) = Kind.delegate
kind_of (Payload.revoke _ _ _) = Kind.revoke
kind_of (Payload.resolve _ _ _) = Kind.resolve
kind_of (Payload.edge_assert _ _ _) = Kind.edge_assert
kind_of (Payload.edge_reaffirm _ _ _ _) = Kind.edge_reaffirm
kind_of (Payload.attestation _ _ _ _) = Kind.attestation

-- `Payload::decision`.
unfoldable pub decision_of : Payload → Option Decision
decision_of (Payload.correction _ d) = some d
decision_of (Payload.delegate _ _ d) = some d
decision_of (Payload.revoke _ _ d) = some d
decision_of (Payload.resolve _ _ d) = some d
decision_of (Payload.edge_assert _ _ d) = some d
decision_of (Payload.edge_reaffirm _ _ _ d) = some d
decision_of _ = none

abbrev pub same_hash : Hash → Hash
same_hash h = h

abbrev pub hash_set : Wire (List Hash)
hash_set = set_wire same_hash hash_wire

unfoldable pub subject_key_wire : Wire SubjectKey
subject_key_wire =
    via (λ (k : SubjectKey). (k.kind, (k.namespace, k.value)))
      (λ (a, (b, c)). record { kind = a; namespace = b; value = c })
      (both string_wire (both string_wire string_wire))

unfoldable pub asserted_time_wire : Wire AssertedTime
asserted_time_wire =
    via (λ (t : AssertedTime). (t.coordinate, t.precision))
      (λ (a, b). record { coordinate = a; precision = b }) (both hash_wire string_wire)

unfoldable pub pin_wire : Wire Pin
pin_wire =
    via (λ (p : Pin). (p.subject, (p.basis, (p.revision, p.body))))
      (λ (a, (b, (c, d))). record { subject = a; basis = b; revision = c; body = d })
      (both hash_wire (both hash_wire (both hash_wire hash_wire)))

unfoldable pub pins_wire : Wire Pins
pins_wire =
    via (λ (p : Pins). (p.source, p.target)) (λ (a, b). record { source = a; target = b })
      (both pin_wire pin_wire)

unfoldable pub parent_pins_wire : Wire ParentPins
parent_pins_wire =
    via (λ (p : ParentPins). (p.parent, p.pins)) (λ (a, b). record { parent = a; pins = b })
      (both hash_wire pins_wire)

abbrev pub parent_pins_set : Wire (List ParentPins)
parent_pins_set = set_wire (λ p. p.parent) parent_pins_wire

unfoldable pub disposition_tag : DispositionKind → ℕ
disposition_tag selected = 1
disposition_tag merged = 2
disposition_tag not_selected = 3

unfoldable pub disposition_variant : ℕ → Option DispositionKind
disposition_variant t =
    if t == 1
    then some selected
    else if t == 2
    then some merged
    else if t == 3
    then some not_selected
    else none

unfoldable pub disposition_wire : Wire Disposition
disposition_wire =
    via (λ (d : Disposition). (d.parent, (d.action, d.rationale)))
      (λ (a, (b, c)). record { parent = a; action = b; rationale = c })
      (both hash_wire (both (tags disposition_tag disposition_variant) string_wire))

abbrev pub disposition_set : Wire (List Disposition)
disposition_set = set_wire (λ d. d.parent) disposition_wire

unfoldable pub kind_tag : Kind → ℕ
kind_tag Kind.genesis = 1
kind_tag Kind.correction = 2
kind_tag Kind.delegate = 3
kind_tag Kind.revoke = 4
kind_tag Kind.resolve = 5
kind_tag Kind.edge_assert = 6
kind_tag Kind.edge_reaffirm = 7
kind_tag Kind.attestation = 8

unfoldable pub kind_variant : ℕ → Option Kind
kind_variant t =
    if t == 1
    then some Kind.genesis
    else if t == 2
    then some Kind.correction
    else if t == 3
    then some Kind.delegate
    else if t == 4
    then some Kind.revoke
    else if t == 5
    then some Kind.resolve
    else if t == 6
    then some Kind.edge_assert
    else if t == 7
    then some Kind.edge_reaffirm
    else if t == 8
    then some Kind.attestation
    else none

unfoldable pub kind_wire : Wire Kind
kind_wire = tags kind_tag kind_variant

unfoldable pub target_tag : TargetKind → ℕ
target_tag TargetKind.event = 1
target_tag TargetKind.revision = 2

unfoldable pub target_variant : ℕ → Option TargetKind
target_variant t =
    if t == 1 then some TargetKind.event else if t == 2 then some TargetKind.revision else none

unfoldable pub target_kind_wire : Wire TargetKind
target_kind_wire = tags target_tag target_variant

-- A variant's tag, then its fields.
unfoldable pub put_variant {ℓ} : {A : Type ℓ} → ℕ → Wire A → A → Bytes → Result Bytes WireError
put_variant tag c fields w = do w' ← (number 2).put tag w; c.put fields w'

-- Variants with fields, told apart by a tag.
unfoldable pub variants {ℓ} :
    {B : Type ℓ}
    → (B → Bytes → Result Bytes WireError)
    → (ℕ → Bytes → Result (B × Bytes) WireError)
    → Wire B
variants put get_fields = record {
  put = put;
  get = λ r. do
    (t, rest) ← (number 2).get r
    get_fields t rest;
}

unfoldable pub value_put : Value → Bytes → Result Bytes WireError
value_put Value.nothing w = (number 2).put 0 w
value_put (Value.body h) w = put_variant 1 hash_wire h w
value_put (Value.grant i g) w = put_variant 2 (both hash_wire hash_wire) (i, g) w
value_put (Value.active_grant g) w = put_variant 3 hash_wire g w
value_put (Value.revoked_grant g c) w = put_variant 4 (both hash_wire bool_wire) (g, c) w
value_put (Value.heads hs) w = put_variant 5 hash_set hs w
value_put (Value.revision r) w = put_variant 6 hash_wire r w
value_put (Value.pins p) w = put_variant 7 pins_wire p w
value_put (Value.parent_pins ps) w = put_variant 8 parent_pins_set ps w

unfoldable pub value_body : ℕ → Bytes → Result (Value × Bytes) WireError
value_body t r =
    if t == 0
    then ok (Value.nothing, r)
    else if t == 1
    then read_as Value.body hash_wire r
    else if t == 2
    then read_as (λ (i, g). Value.grant i g) (both hash_wire hash_wire) r
    else if t == 3
    then read_as Value.active_grant hash_wire r
    else if t == 4
    then read_as (λ (g, c). Value.revoked_grant g c) (both hash_wire bool_wire) r
    else if t == 5
    then read_as Value.heads hash_set r
    else if t == 6
    then read_as Value.revision hash_wire r
    else if t == 7
    then read_as Value.pins pins_wire r
    else if t == 8
    then read_as Value.parent_pins parent_pins_set r
    else err unknown_value_tag

unfoldable pub value_wire : Wire Value
value_wire = variants value_put value_body

unfoldable pub selection_put : Selection → Bytes → Result Bytes WireError
selection_put (Selection.revision r) w = put_variant 0 hash_wire r w
selection_put (Selection.merged_body b) w = put_variant 1 hash_wire b w

unfoldable pub selection_body : ℕ → Bytes → Result (Selection × Bytes) WireError
selection_body t r =
    if t == 0
    then read_as Selection.revision hash_wire r
    else if t == 1
    then read_as Selection.merged_body hash_wire r
    else err unknown_selection_tag

unfoldable pub selection_wire : Wire Selection
selection_wire = variants selection_put selection_body

unfoldable pub decision_wire : Wire Decision
decision_wire =
    via (λ (d : Decision). (d.kind, (d.rationale, (d.evidence, (d.parents, (d.old, d.new))))))
      (λ (a, (b, (c, (d, (e, f))))). record {
        kind = a;
        rationale = b;
        evidence = c;
        parents = d;
        old = e;
        new = f;
      })
      (both kind_wire
        (both string_wire (both hash_set (both hash_set (both value_wire value_wire)))))
