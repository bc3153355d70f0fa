-- ===== src/Ledger/Contest.antt =====
-- A ledger for crates/cc-ledger/src/v1/authority.rs in which a delegation is revoked.
use clockchain.Prelude.{
  ◌-◌, ◌<◌, ◌≡◌, ◌⊎◌, refl, sym, subst, inl, inr, Bool, true, false, none, some, List, [], ◌∷◌,
  arith, nat_key,
}
use clockchain.Prelude.Table.{lookup, contains_key}
use clockchain.Prelude.Ordered.{map_insert, set_insert, set_contains}
use clockchain.Wire.{Hash, to_be_bytes}
use clockchain.Wire.Event.{Kind, Decision, Payload}
use clockchain.Wire.Signed.{Signed, concat_hashes, domain_bytes, domain_hash, root_grant}
use clockchain.Ledger.{Events, parents_of, first, any_absent, round, rounds, schedule}
use clockchain.Ledger.Authority.{
  Grant, Authority, Lineages, eligible, revoked_concurrent, lineages, trace, gather, set_union,
  grant_made, register, path_of, revocations, add_revocation, signer, filter_of, any_of, covers,
  outside, controls_of, select_not,
}
use clockchain.Ledger.Derive.{
  derive, derive_from, sort_by_depth, depth, insert_by_depth, relinquishes, effective_from,
  takes_effect, cancellations, cancellations_from, cancel, buried, effects_from, suppress_loop,
  suppress, inherited_controls, max_length, in_scope, in_scope_loop,
}
use clockchain.Ledger.Search.{Reaches, here}
use clockchain.Ledger.Order.{IsOrdered}
use clockchain.Ledger.Totals.{Returns}
use clockchain.Ledger.Governed.{Makes, IsMade, IsGoverned}
use clockchain.Ledger.Derived.{derive-active}
use clockchain.Ledger.Tests.{toy, decision, signed, first_event}

-- The root grant, whose hash is 0 here, delegates to 2 and revokes 2 again, while 2 delegates to 4.
abbrev acting : Hash → List Hash → Hash → Payload → Signed
acting id parents grant payload = record {
  envelope = record (signed id parents (some 1) payload).envelope { grant = some grant };
  id = id;
  bytes = [];
}

abbrev given : Signed
given = acting 2 (1 ∷ []) 0 (Payload.delegate 61 0 (decision Kind.delegate))

abbrev taken : Signed
taken = acting 3 (2 ∷ []) 0 (Payload.revoke 2 false (decision Kind.revoke))

abbrev passed : Signed
passed = acting 4 (2 ∷ []) 2 (Payload.delegate 62 2 (decision Kind.delegate))

abbrev contested : Events
contested = (1, first_event) ∷ (2, given) ∷ (3, taken) ∷ (4, passed) ∷ []

abbrev contested_authority : Authority
contested_authority = record {
  grants =
      (0, record { issued_by_event = 1; issuer = none; holder = 9; subject = 1 })
      ∷ (2, record { issued_by_event = 2; issuer = some 0; holder = 61; subject = 1 })
      ∷ (4, record { issued_by_event = 4; issuer = some 2; holder = 62; subject = 1 })
      ∷ [];
  active = 0 ∷ [];
  tombstones = 2 ∷ [];
  effective_revokes = 3 ∷ [];
  canceled = 4 ∷ [];
  effects =
      (1, record { reason = eligible; controlling_revokes = [] })
      ∷ (2, record { reason = eligible; controlling_revokes = [] })
      ∷ (3, record { reason = eligible; controlling_revokes = [] })
      ∷ (4, record { reason = revoked_concurrent; controlling_revokes = 3 ∷ [] })
      ∷ [];
}

contested_test : derive toy contested ≡ some contested_authority
unfolding derive derive_from lineages schedule rounds round any_absent trace gather set_union
    set_insert set_contains grant_made register path_of root_grant domain_hash domain_bytes
    concat_hashes to_be_bytes revocations add_revocation lookup map_insert sort_by_depth depth
    insert_by_depth relinquishes signer filter_of effective_from takes_effect any_of covers outside
    cancellations cancellations_from cancel controls_of buried effects_from suppress_loop suppress
    inherited_controls max_length select_not
contested_test = refl

scope_test : in_scope contested_authority 0 4 ≡ some true
unfolding in_scope in_scope_loop lookup
scope_test = refl

abbrev IsEntry : Hash → Signed → Type 0
IsEntry x e =
    ((x ≡ 1) × (e ≡ first_event))
    ⊎ (((x ≡ 2) × (e ≡ given)) ⊎ (((x ≡ 3) × (e ≡ taken)) ⊎ ((x ≡ 4) × (e ≡ passed))))

entries : (x : Hash) (e : Signed) → lookup x contested ≡ some e → IsEntry x e
unfolding lookup
entries x e h = ground (arith, h)

-- A fact of the four entries.
by_entry :
    (P : Hash → Signed → Type 0) (x : Hash) (e : Signed)
    → P 1 first_event
    → P 2 given
    → P 3 taken
    → P 4 passed
    → lookup x contested ≡ some e
    → P x e
by_entry P x e p q r s h = elim (entries x e h) [
  | inl (x_eq, e_eq) ↦ rw (x_eq, e_eq) p
  | inr (inl (x_eq, e_eq)) ↦ rw (x_eq, e_eq) q
  | inr (inr (inl (x_eq, e_eq))) ↦ rw (x_eq, e_eq) r
  | inr (inr (inr (x_eq, e_eq))) ↦ rw (x_eq, e_eq) s
]

contested-IsOrdered : IsOrdered contested (λ x. x - 1)
unfolding lookup set_contains
contested-IsOrdered = record {
  distinct = (refl, (refl, (refl, (refl, tt))));
  below = λ x e h.
      by_entry (λ y f. y - 1 < 4) x e (omega arith) (omega arith) (omega arith) (omega arith) h;
  known = λ x e p h m.
      by_entry (λ y f. set_contains p (parents_of f) ≡ true → contains_key p contested ≡ true) x e
        (λ k. absurd (ground (arith, k))) (λ k. ground (arith, k)) (λ k. ground (arith, k))
        (λ k. ground (arith, k)) h m;
  before = λ x e p h m.
      by_entry (λ y f. set_contains p (parents_of f) ≡ true → p - 1 < y - 1) x e
        (λ k. absurd (ground (arith, k))) (λ k. ground (arith, k)) (λ k. ground (arith, k))
        (λ k. ground (arith, k)) h m;
}

abbrev root : Grant
root = record { issued_by_event = 1; issuer = none; holder = 9; subject = 1 }

abbrev lent : Grant
lent = record { issued_by_event = 2; issuer = some 0; holder = 61; subject = 1 }

root_made : Makes toy contested 1 first_event 0 root
unfolding grant_made root_grant domain_hash domain_bytes concat_hashes to_be_bytes
root_made = refl

root-IsMade : IsMade toy contested 0
unfolding lookup
root-IsMade = (1, first_event, root, refl, root_made)

lent-IsMade : IsMade toy contested 2
unfolding lookup grant_made
lent-IsMade = (2, given, lent, refl, refl)

first_signer : signer toy 1 first_event ≡ 0
unfolding signer root_grant domain_hash domain_bytes concat_hashes to_be_bytes
first_signer = refl

-- Every issuer is made before.
contested_issued :
    (x : Hash) (e : Signed) (g : Hash) (grant : Grant) (i : Hash)
    → lookup x contested ≡ some e
    → Makes toy contested x e g grant
    → grant.issuer ≡ some i
    → (p : Hash) × (y : Hash) × (f : Signed) × (by_ : Grant) × (set_contains p (parents_of e)
        ≡ true)
      × Reaches contested p y
      × (lookup y contested ≡ some f)
      × Makes toy contested y f i by_
unfolding grant_made set_contains lookup
contested_issued x e g grant i h m k =
    by_entry
      (λ y f.
        Makes toy contested y f g grant
        → (p : Hash) × (z : Hash) × (made : Signed) × (by_ : Grant) × (set_contains p (parents_of f)
            ≡ true)
          × Reaches contested p z
          × (lookup z contested ≡ some made)
          × Makes toy contested z made i by_)
      x e (λ m'. absurd (ground (arith, k, m')))
      (λ m'. (
        1,
        1,
        first_event,
        root,
        refl,
        here,
        refl,
        subst (λ j. Makes toy contested 1 first_event j root)
            (let j : 0 ≡ i = ground (arith, k, m') in j) root_made,
      ))
      (λ m'. absurd (ground (arith, k, m')))
      (λ m'. (
        2,
        2,
        given,
        lent,
        refl,
        here,
        refl,
        subst (λ j. Makes toy contested 2 given j lent) (let j : 2 ≡ i = ground (arith, k, m') in j)
            refl,
      ))
      h m

contested_revoked :
    (x : Hash) (e : Signed) (target : Hash) (cascade : Bool) (d : Decision)
    → lookup x contested ≡ some e
    → e.envelope.payload ≡ Payload.revoke target cascade d
    → (p : Hash) × (first (parents_of e) ≡ some p) × IsMade toy contested target
contested_revoked x e target cascade d h k =
    by_entry
      (λ y f.
        f.envelope.payload ≡ Payload.revoke target cascade d
        → (p : Hash) × (first (parents_of f) ≡ some p) × IsMade toy contested target)
      x e (λ k'. absurd (ground (arith, k'))) (λ k'. absurd (ground (arith, k')))
      (λ k'. (
        2,
        refl,
        subst (IsMade toy contested) (let j : 2 ≡ target = ground (arith, k') in j) lent-IsMade,
      ))
      (λ k'. absurd (ground (arith, k'))) h k

contested-IsGoverned : IsGoverned toy contested (λ x. x - 1)
unfolding grant_made signer
contested-IsGoverned = record {
  ordered = contested-IsOrdered;
  complete = λ x e h.
      by_entry (λ y f. Returns (grant_made toy y f f.envelope.payload)) x e
        (some (0, root), root_made) (some (2, lent), refl) (none, refl)
        (some (4, record { issued_by_event = 4; issuer = some 2; holder = 62; subject = 1 }), refl)
        h;
  issued = contested_issued;
  signed = λ x e h.
      by_entry (λ y f. IsMade toy contested (signer toy y f)) x e
        (subst (IsMade toy contested) (sym first_signer) root-IsMade) root-IsMade root-IsMade
        lent-IsMade h;
  revoked = contested_revoked;
}

derive-active_example :
    (l : Lineages) × (a : Authority) × (lineages toy contested ≡ some l)
    × (derive toy contested ≡ some a)
    × ((g : Hash)
        → set_contains g a.active ≡ true
        → (contains_key g a.grants ≡ true)
          × ((r : Hash)
              → set_contains r a.effective_revokes ≡ true
              → covers (revocations contested) l r g ≡ some false)
          × ((grant : Grant) (i : Hash) (r : Hash)
              → lookup g a.grants ≡ some grant
              → grant.issuer ≡ some i
              → set_contains r a.effective_revokes ≡ true
              → covers (revocations contested) l r i ≡ some true
              → outside contested l grant.issued_by_event r ≡ some false))
    × ((x : Hash) → contains_key x contested ≡ true → contains_key x a.effects ≡ true)
derive-active_example = derive-active toy contested (λ x. x - 1) contested-IsGoverned
