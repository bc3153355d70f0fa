-- ===== src/Admission/Founded.antt =====
-- What `evaluate` of crates/cc-ledger/src/v1.rs finds of a valid event, by the kind of its payload.
use clockchain.Prelude.{
  ◌≡◌, ap, ◌∙◌, sym, subst, Bool, true, Option, none, some, arith, nat_key, List,
}
use clockchain.Prelude.Table.{lookup}
use clockchain.Prelude.Ordered.{set_contains}
use clockchain.Wire.{Hash}
use clockchain.Wire.Event.{Payload, Decision}
use clockchain.Wire.Signed.{Crypto, Signed, root_grant}
use clockchain.Ledger.{
  Events, parents_of, ◌>>=◌, create, choose, inherit, choice_of, unwrap_or, first,
}
use clockchain.Ledger.Authority.{Grant, signer, grant_made}
use clockchain.Ledger.Search.{here}
use clockchain.Ledger.Parts.{MadeBefore, Acts}
use clockchain.Edges.{Statuses}
use clockchain.Edges.Standing.{accepted}
use clockchain.Admission.Past.{MadeInPast, HasBody}

module _ {SecretKey : Type 0} (crypto : Crypto SecretKey) (all : Events) where
  -- The parents of a valid event are valid, and it acts under what its past makes.
  pub record IsFounded (out : Statuses) (id : Hash) (e : Signed) : Type 0 where
    pub parents : (p : Hash) → set_contains p (parents_of e) ≡ true → accepted out p ≡ true
    pub acts : Acts crypto all id e
    pub body : HasBody crypto all e

  pub creates-HasBody :
      (e : Signed) (b : Hash) → choice_of e.envelope.payload ≡ create b → HasBody crypto all e
  creates-HasBody e b h = record {
    rooted = λ k. absurd (ground (arith, h, k));
    chosen = λ r k. absurd (ground (arith, h, k));
  }

  pub inherits-HasBody :
      (e : Signed) (p : Hash)
      → first (parents_of e) ≡ some p
      → choice_of e.envelope.payload ≡ inherit
      → HasBody crypto all e
  inherits-HasBody e p p_eq h = record {
    rooted = λ k. (p, p_eq);
    chosen = λ r k. absurd (ground (arith, h, k));
  }

  pub chooses-HasBody :
      (e : Signed) (r : Hash)
      → MadeInPast crypto all e r
      → choice_of e.envelope.payload ≡ choose r
      → HasBody crypto all e
  chooses-HasBody e r known h = record {
    rooted = λ k. absurd (ground (arith, h, k));
    chosen = λ q k.
        let r_eq : r ≡ q = ground (arith, h, k) in subst (MadeInPast crypto all e) r_eq known;
  }

  -- The grant that an event names is the one that it is signed under.
  signer_named :
      (id : Hash) (e : Signed) (grant : Hash)
      → e.envelope.grant ≡ some grant
      → grant ≡ signer crypto id e
  unfolding signer
  signer_named id e grant h = ap (λ g. unwrap_or g (root_grant crypto id)) (sym h)

  -- An event that makes no grant.
  pub plain-Acts :
      (id : Hash) (e : Signed) (grant : Hash)
      → e.envelope.grant ≡ some grant
      → MadeBefore crypto all id grant
      → grant_made crypto id e e.envelope.payload ≡ some none
      → ((target : Hash) (cascade : Bool) (d : Decision)
          → e.envelope.payload ≡ Payload.revoke target cascade d
          → (p : Hash) × (first (parents_of e) ≡ some p) × MadeBefore crypto all id target)
      → Acts crypto all id e
  plain-Acts id e grant named made plain revoked = record {
    complete = (none, plain);
    issued = λ g given i makes issuer.
        let clash : ◌≡◌ {A = Option (Option (Hash × Grant))} (some none) (some (some (g, given))) =
          sym plain ∙ makes in
        absurd (ground (arith, clash));
    signed = subst (MadeBefore crypto all id) (signer_named id e grant named) made;
    revoked = revoked;
  }

  -- An event that delegates the grant under which it is signed.
  pub delegate-Acts :
      (id : Hash) (e : Signed) (grant grantee subject p : Hash) (d : Decision)
      → e.envelope.payload ≡ Payload.delegate grantee grant d
      → e.envelope.subject ≡ some subject
      → e.envelope.grant ≡ some grant
      → MadeBefore crypto all id grant
      → set_contains p (parents_of e) ≡ true
      → MadeBefore crypto all p grant
      → Acts crypto all id e
  unfolding grant_made
  delegate-Acts id e grant grantee subject p d is named_subject named made m before =
      let grant_of : Grant = record {
        issued_by_event = id;
        issuer = some grant;
        holder = grantee;
        subject = subject;
      } in
      let makes_it : grant_made crypto id e e.envelope.payload ≡ some (some (id, grant_of)) =
        ap (grant_made crypto id e) is
        ∙ ap
            (λ (s : Option Hash). s >>= (λ t. some (
              some (
                id,
                (record {
                  issued_by_event = id;
                  issuer = some grant;
                  holder = grantee;
                  subject = t;
                }),
              ))))
            named_subject in
      record {
        complete = (some (id, grant_of), makes_it);
        issued = λ g given i makes issuer.
            let both : ◌≡◌ {A = Option (Option (Hash × Grant))} (some (some (id, grant_of)))
                (some (some (g, given))) =
              sym makes_it ∙ makes in
            let i_eq : grant ≡ i = ground (arith, both, issuer) in
            (p, m, subst (MadeBefore crypto all p) i_eq before);
        signed = subst (MadeBefore crypto all id) (signer_named id e grant named) made;
        revoked = λ target cascade k h. absurd (ground (arith, is, h));
      }

  -- A genesis event makes the root grant, under which it is signed.
  pub genesis-Acts :
      (id : Hash) (e : Signed) (nonce b : Hash) (evidence : List Hash)
      → e.envelope.payload ≡ Payload.genesis nonce b evidence
      → e.envelope.grant ≡ none
      → lookup id all ≡ some e
      → Acts crypto all id e
  unfolding grant_made signer
  genesis-Acts id e nonce b evidence is none_ held =
      let root : Grant = record {
        issued_by_event = id;
        issuer = none;
        holder = e.envelope.author;
        subject = id;
      } in
      let makes_it : grant_made crypto id e e.envelope.payload
          ≡ some (some (root_grant crypto id, root)) =
        ap (grant_made crypto id e) is in
      record {
        complete = (some (root_grant crypto id, root), makes_it);
        issued = λ g given i makes issuer.
            let both : ◌≡◌ {A = Option (Option (Hash × Grant))}
                (some (some (root_grant crypto id, root))) (some (some (g, given))) =
              sym makes_it ∙ makes in
            absurd (ground (arith, both, issuer));
        signed =
            subst (MadeBefore crypto all id)
              (ap (λ g. unwrap_or g (root_grant crypto id)) (sym none_))
              (id, e, root, here, held, makes_it);
        revoked = λ target cascade k h. absurd (ground (arith, is, h));
      }
