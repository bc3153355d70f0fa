-- ===== src/Edges/Kinds.antt =====
-- The kinds of event and the sets of ids that `evaluate` of crates/cc-ledger/src/v1/edges.rs tests.
use clockchain.Prelude.{
  ◌≡◌, refl, Bool, true, false, ◌||◌, List, [], ◌∷◌, is_empty, arith, ==_iff, nat_key,
}
use clockchain.Prelude.Ordered.{set_contains}
use clockchain.Wire.{Hash}
use clockchain.Wire.Event.{Payload, kind_of}
use clockchain.Wire.Signed.{Signed}
use clockchain.Ledger.Authority.{set_union}
use clockchain.Ledger.Totals.{set_contains-union}
use clockchain.Edges.{is_subject, is_attestation, is_edge_assert, is_edge_reaffirm}

pub set_contains-last : (x : Hash) → set_contains x (x ∷ []) ≡ true
unfolding set_contains
set_contains-last x = ground arith

pub set_contains-only : (x y : Hash) → set_contains x (y ∷ []) ≡ true → x ≡ y
unfolding set_contains
set_contains-only x y m = (==_iff x y).0 (ground (arith, m))

-- Whether a payload is of a subject event.
abbrev pub plain_kind : Payload → Bool
plain_kind (Payload.edge_assert _ _ _) = false
plain_kind (Payload.edge_reaffirm _ _ _ _) = false
plain_kind (Payload.attestation _ _ _ _) = false
plain_kind _ = true

plain_of :
    (payload : Payload)
    → (is_edge_assert (kind_of payload)
        || is_edge_reaffirm (kind_of payload)
        || is_attestation (kind_of payload))
      ≡ true
    → plain_kind payload ≡ false
unfolding kind_of
plain_of (Payload.edge_assert _ _ _) h = refl
plain_of (Payload.edge_reaffirm _ _ _ _) h = refl
plain_of (Payload.attestation _ _ _ _) h = refl
plain_of (Payload.genesis _ _ _) h = absurd (ground (arith, h))
plain_of (Payload.correction _ _) h = absurd (ground (arith, h))
plain_of (Payload.delegate _ _ _) h = absurd (ground (arith, h))
plain_of (Payload.revoke _ _ _) h = absurd (ground (arith, h))
plain_of (Payload.resolve _ _ _) h = absurd (ground (arith, h))

pub plain-subject : (e : Signed) → is_subject e ≡ false → plain_kind e.envelope.payload ≡ false
unfolding is_subject
plain-subject e h = plain_of e.envelope.payload (ground (arith, h))

no_member : (x : Hash) (ys : List Hash) → is_empty ys ≡ true → set_contains x ys ≡ false
unfolding set_contains
no_member x [] h = refl
no_member x (y ∷ ys) h = absurd (ground (arith, h))

pub union-is_empty : (xs : List Hash) → is_empty (set_union [] xs) ≡ true → is_empty xs ≡ true
unfolding set_contains
union-is_empty [] h = refl
union-is_empty (x ∷ xs) h =
    let held = set_contains-union x [] (x ∷ xs) in
    absurd (ground (arith, held, no_member x (set_union [] (x ∷ xs)) h))
