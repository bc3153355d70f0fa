-- ===== src/Ledger/Governed.antt =====
-- What admission gives to `derive` of crates/cc-ledger/src/v1/authority.rs: a governed ledger.
use clockchain.Prelude.{ℕ, ◌≡◌, Bool, true, some, nat_key}
use clockchain.Prelude.Table.{lookup}
use clockchain.Prelude.Ordered.{set_contains}
use clockchain.Wire.{Hash}
use clockchain.Wire.Event.{Payload, Decision}
use clockchain.Wire.Signed.{Crypto, Signed}
use clockchain.Ledger.{Events, parents_of, first}
use clockchain.Ledger.Authority.{Grant, signer, grant_made}
use clockchain.Ledger.Search.{Reaches}
use clockchain.Ledger.Order.{IsOrdered}
use clockchain.Ledger.Totals.{Returns}

module _ {SecretKey : Type 0} (crypto : Crypto SecretKey) (valid : Events) where
  -- An event of the ledger makes the grant.
  abbrev pub Makes : Hash → Signed → Hash → Grant → Type 0
  Makes y f g grant = grant_made crypto y f f.envelope.payload ≡ some (some (g, grant))

  abbrev pub IsMade : Hash → Type 0
  IsMade g =
      (y : Hash) × (f : Signed) × (grant : Grant) × (lookup y valid ≡ some f) × Makes y f g grant

  -- What admission sees to: events have an order; a delegation names its subject, and its issuer is
  -- made by an event in its past; an event is signed under a grant that is made; and a revocation
  -- has a parent and a target that is made.
  pub record IsGoverned (rank : Hash → ℕ) : Type 0 where
    pub ordered : IsOrdered valid rank
    pub complete :
        (x : Hash) (e : Signed)
        → lookup x valid ≡ some e
        → Returns (grant_made crypto x e e.envelope.payload)
    pub issued :
        (x : Hash) (e : Signed) (g : Hash) (grant : Grant) (i : Hash)
        → lookup x valid ≡ some e
        → Makes x e g grant
        → grant.issuer ≡ some i
        → (p : Hash) × (y : Hash) × (f : Signed) × (by_ : Grant) × (set_contains p (parents_of e)
            ≡ true)
          × Reaches valid p y
          × (lookup y valid ≡ some f)
          × Makes y f i by_
    pub signed : (x : Hash) (e : Signed) → lookup x valid ≡ some e → IsMade (signer crypto x e)
    pub revoked :
        (x : Hash) (e : Signed) (target : Hash) (cascade : Bool) (d : Decision)
        → lookup x valid ≡ some e
        → e.envelope.payload ≡ Payload.revoke target cascade d
        → (p : Hash) × (first (parents_of e) ≡ some p) × IsMade target
