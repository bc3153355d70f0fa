-- ===== src/Wire/Payloads.antt =====
-- Payloads on the wire of crates/cc-core/src/v1.rs, each by the fields of its kind.
use clockchain.Prelude.{◌≡◌, refl, ap, ◌∙◌, sym, subst, All, ◌++◌, Bytes, ok}
use clockchain.Wire.{Wire, read_as}
use clockchain.Wire.Event.{Kind, Payload, kind_of}
use clockchain.Wire.Signed.{
  genesis_fields, correction_fields, delegate_fields, revoke_fields, resolve_fields,
  edge_assert_fields, edge_reaffirm_fields, attestation_fields, put_payload, get_payload,
}
use clockchain.Wire.Laws.{Fits, Encodes, Lawful, IsAny, bool_wire-Lawful, both-Lawful, read_as-ok}
use clockchain.Wire.Containers.{IsText, string_wire-Lawful}
use clockchain.Wire.EventLaws.{
  IsHash, hash_wire-Lawful, hash_set-Lawful, IsPins, pins_wire-Lawful, IsParentPins,
  parent_pins_set-Lawful, IsDisposition, disposition_set-Lawful, target_kind_wire-Lawful,
}
use clockchain.Wire.Values.{IsSelection, selection_wire-Lawful, IsDecision, decision_wire-Lawful}

abbrev pub IsPayload : Payload → Type 0
IsPayload (Payload.genesis a b c) = IsHash a × (IsHash b × All IsHash c)
IsPayload (Payload.correction a b) = IsHash a × IsDecision b
IsPayload (Payload.delegate a b c) = IsHash a × (IsHash b × IsDecision c)
IsPayload (Payload.revoke a b c) = IsHash a × (IsAny b × IsDecision c)
IsPayload (Payload.resolve a b c) = IsSelection a × (All IsDisposition b × IsDecision c)
IsPayload (Payload.edge_assert a b c) = IsText a × (IsPins b × IsDecision c)
IsPayload (Payload.edge_reaffirm a b c d) =
    IsHash a × (All IsParentPins b × (IsPins c × IsDecision d))
IsPayload (Payload.attestation a b c d) = IsAny a × (IsHash b × (IsText c × IsHash d))

pub record EncodesPayload (p : Payload) (e : Bytes) : Type 0 where
  pub written : (w : Bytes) → put_payload p w ≡ ok (w ++ e)
  pub read : (rest : Bytes) → get_payload (kind_of p) (e ++ rest) ≡ ok (p, rest)

module _ {A : Type 0} (build : A → Payload) (k : Kind) (c : Wire A) {P : A → Type 0}
    (law : Lawful c P) (puts : (a : A) (w : Bytes) → put_payload (build a) w ≡ c.put a w)
    (gets : (a : A) (r : Bytes) → get_payload (kind_of (build a)) r ≡ read_as build c r) where
  payload-Encodes : (a : A) (e : Bytes) → Encodes c a e → EncodesPayload (build a) e
  payload-Encodes a e p = record {
    written = λ w. puts a w ∙ p.written w;
    read = λ rest. gets a (e ++ rest) ∙ rw (p.read rest) refl;
  }

  payload-put :
      (a : A) (w w' : Bytes)
      → P a
      → put_payload (build a) w ≡ ok w'
      → (e : Bytes) × (w' ≡ w ++ e) × EncodesPayload (build a) e
  payload-put a w w' x h =
      let (e, e_eq, e_law) = law.of_put a w w' x (sym (puts a w) ∙ h) in
      (e, e_eq, payload-Encodes a e e_law)

  payload-get :
      (b : Bytes) (v : Payload) (rest : Bytes)
      → ((a : A) → P a → IsPayload (build a))
      → ((a : A) → kind_of (build a) ≡ k)
      → Fits b
      → read_as build c b ≡ ok (v, rest)
      → (kind_of v ≡ k) × IsPayload v × ((e : Bytes) × (b ≡ e ++ rest) × EncodesPayload v e)
  payload-get b v rest good kinds fits h =
      let (a, made, x, (e, e_eq, e_law)) = read_as-ok {f = build} {c = c} law fits h in
      (
        ap kind_of (sym made) ∙ kinds a,
        subst IsPayload made (good a x),
        (e, e_eq, subst (λ t. EncodesPayload t e) made (payload-Encodes a e e_law)),
      )

pub put_payload_lem :
    (p : Payload) (w w' : Bytes)
    → IsPayload p
    → put_payload p w ≡ ok w'
    → (e : Bytes) × (w' ≡ w ++ e) × EncodesPayload p e
unfolding put_payload get_payload kind_of
put_payload_lem (Payload.genesis a b c) w w' x h =
    payload-put (λ (a, (b, c)). Payload.genesis a b c) Kind.genesis genesis_fields
      (both-Lawful hash_wire-Lawful (both-Lawful hash_wire-Lawful hash_set-Lawful)) (λ f w. refl)
      (λ f r. refl) (a, (b, c)) w w' x h
put_payload_lem (Payload.correction a b) w w' x h =
    payload-put (λ (a, b). Payload.correction a b) Kind.correction correction_fields
      (both-Lawful hash_wire-Lawful decision_wire-Lawful) (λ f w. refl) (λ f r. refl) (a, b) w w' x
      h
put_payload_lem (Payload.delegate a b c) w w' x h =
    payload-put (λ (a, (b, c)). Payload.delegate a b c) Kind.delegate delegate_fields
      (both-Lawful hash_wire-Lawful (both-Lawful hash_wire-Lawful decision_wire-Lawful))
      (λ f w. refl) (λ f r. refl) (a, (b, c)) w w' x h
put_payload_lem (Payload.revoke a b c) w w' x h =
    payload-put (λ (a, (b, c)). Payload.revoke a b c) Kind.revoke revoke_fields
      (both-Lawful hash_wire-Lawful (both-Lawful bool_wire-Lawful decision_wire-Lawful))
      (λ f w. refl) (λ f r. refl) (a, (b, c)) w w' x h
put_payload_lem (Payload.resolve a b c) w w' x h =
    payload-put (λ (a, (b, c)). Payload.resolve a b c) Kind.resolve resolve_fields
      (both-Lawful selection_wire-Lawful (both-Lawful disposition_set-Lawful decision_wire-Lawful))
      (λ f w. refl) (λ f r. refl) (a, (b, c)) w w' x h
put_payload_lem (Payload.edge_assert a b c) w w' x h =
    payload-put (λ (a, (b, c)). Payload.edge_assert a b c) Kind.edge_assert edge_assert_fields
      (both-Lawful string_wire-Lawful (both-Lawful pins_wire-Lawful decision_wire-Lawful))
      (λ f w. refl) (λ f r. refl) (a, (b, c)) w w' x h
put_payload_lem (Payload.edge_reaffirm a b c d) w w' x h =
    payload-put (λ (a, (b, (c, d))). Payload.edge_reaffirm a b c d) Kind.edge_reaffirm
      edge_reaffirm_fields
      (both-Lawful hash_wire-Lawful
        (both-Lawful parent_pins_set-Lawful (both-Lawful pins_wire-Lawful decision_wire-Lawful)))
      (λ f w. refl) (λ f r. refl) (a, (b, (c, d))) w w' x h
put_payload_lem (Payload.attestation a b c d) w w' x h =
    payload-put (λ (a, (b, (c, d))). Payload.attestation a b c d) Kind.attestation
      attestation_fields
      (both-Lawful target_kind_wire-Lawful
        (both-Lawful hash_wire-Lawful (both-Lawful string_wire-Lawful hash_wire-Lawful)))
      (λ f w. refl) (λ f r. refl) (a, (b, (c, d))) w w' x h

pub get_payload_lem :
    (k : Kind) (b : Bytes) (v : Payload) (rest : Bytes)
    → Fits b
    → get_payload k b ≡ ok (v, rest)
    → (kind_of v ≡ k) × IsPayload v × ((e : Bytes) × (b ≡ e ++ rest) × EncodesPayload v e)
unfolding put_payload get_payload kind_of
get_payload_lem Kind.genesis b v rest fits h =
    payload-get (λ (a, (b, c)). Payload.genesis a b c) Kind.genesis genesis_fields
      (both-Lawful hash_wire-Lawful (both-Lawful hash_wire-Lawful hash_set-Lawful)) (λ f w. refl)
      (λ f r. refl) b v rest (λ f x. x) (λ f. refl) fits h
get_payload_lem Kind.correction b v rest fits h =
    payload-get (λ (a, b). Payload.correction a b) Kind.correction correction_fields
      (both-Lawful hash_wire-Lawful decision_wire-Lawful) (λ f w. refl) (λ f r. refl) b v rest
      (λ f x. x) (λ f. refl) fits h
get_payload_lem Kind.delegate b v rest fits h =
    payload-get (λ (a, (b, c)). Payload.delegate a b c) Kind.delegate delegate_fields
      (both-Lawful hash_wire-Lawful (both-Lawful hash_wire-Lawful decision_wire-Lawful))
      (λ f w. refl) (λ f r. refl) b v rest (λ f x. x) (λ f. refl) fits h
get_payload_lem Kind.revoke b v rest fits h =
    payload-get (λ (a, (b, c)). Payload.revoke a b c) Kind.revoke revoke_fields
      (both-Lawful hash_wire-Lawful (both-Lawful bool_wire-Lawful decision_wire-Lawful))
      (λ f w. refl) (λ f r. refl) b v rest (λ f x. x) (λ f. refl) fits h
get_payload_lem Kind.resolve b v rest fits h =
    payload-get (λ (a, (b, c)). Payload.resolve a b c) Kind.resolve resolve_fields
      (both-Lawful selection_wire-Lawful (both-Lawful disposition_set-Lawful decision_wire-Lawful))
      (λ f w. refl) (λ f r. refl) b v rest (λ f x. x) (λ f. refl) fits h
get_payload_lem Kind.edge_assert b v rest fits h =
    payload-get (λ (a, (b, c)). Payload.edge_assert a b c) Kind.edge_assert edge_assert_fields
      (both-Lawful string_wire-Lawful (both-Lawful pins_wire-Lawful decision_wire-Lawful))
      (λ f w. refl) (λ f r. refl) b v rest (λ f x. x) (λ f. refl) fits h
get_payload_lem Kind.edge_reaffirm b v rest fits h =
    payload-get (λ (a, (b, (c, d))). Payload.edge_reaffirm a b c d) Kind.edge_reaffirm
      edge_reaffirm_fields
      (both-Lawful hash_wire-Lawful
        (both-Lawful parent_pins_set-Lawful (both-Lawful pins_wire-Lawful decision_wire-Lawful)))
      (λ f w. refl) (λ f r. refl) b v rest (λ f x. x) (λ f. refl) fits h
get_payload_lem Kind.attestation b v rest fits h =
    payload-get (λ (a, (b, (c, d))). Payload.attestation a b c d) Kind.attestation
      attestation_fields
      (both-Lawful target_kind_wire-Lawful
        (both-Lawful hash_wire-Lawful (both-Lawful string_wire-Lawful hash_wire-Lawful)))
      (λ f w. refl) (λ f r. refl) b v rest (λ f x. x) (λ f. refl) fits h
