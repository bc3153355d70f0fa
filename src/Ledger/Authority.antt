-- ===== src/Ledger/Authority.antt =====
-- Who may act, `derive` and `in_scope` of crates/cc-ledger/src/v1/authority.rs.
use clockchain.Prelude.{
  Bool, true, false, not, Option, none, some, List, [], ◌∷◌, length, ◌==◌, if◌then◌else◌, nat_key,
}
use clockchain.Prelude.Table.{lookup, contains_key}
use clockchain.Prelude.Ordered.{map_insert, set_insert, set_contains}
use clockchain.Wire.{Hash}
use clockchain.Wire.Event.{Payload}
use clockchain.Wire.Signed.{Crypto, Signed, root_grant}
use clockchain.Ledger.{Events, parents_of, ◌>>=◌, first, unwrap_or, schedule}

pub record Grant : Type 0 where
  pub issued_by_event : Hash
  pub issuer : Option Hash
  pub holder : Hash
  pub subject : Hash

-- The reasons of an effect; the empty text is `eligible`.
pub data Reason : Type 0 where
  eligible root_relinquished revoked_concurrent canceled_grant canceled_authority : Reason
  revoked_ancestor : Reason

pub record Effect : Type 0 where
  pub reason : Reason
  pub controlling_revokes : List Hash

pub record Authority : Type 0 where
  pub grants : List (Hash × Grant)
  pub active : List Hash
  pub tombstones : List Hash
  pub effective_revokes : List Hash
  pub canceled : List Hash
  pub effects : List (Hash × Effect)

-- `Iterator::any` and `filter` with a test that may panic.
unfoldable pub any_of : (Hash → Option Bool) → List Hash → Option Bool
any_of p [] = some false
any_of p (x ∷ xs) = elim (p x) [ none ↦ none | some true ↦ some true | some false ↦ any_of p xs ]

unfoldable pub select_not : (Hash → Bool) → List Hash → List Hash
select_not p [] = []
select_not p (x ∷ xs) = let rest = select_not p xs in if p x then rest else x ∷ rest

unfoldable pub filter_of : (Hash → Option Bool) → List Hash → Option (List Hash)
filter_of p [] = some []
filter_of p (x ∷ xs) = do keep ← p x; rest ← filter_of p xs; some (if keep then x ∷ rest else rest)

unfoldable pub set_union : List Hash → List Hash → List Hash
set_union s [] = s
set_union s (x ∷ xs) = set_union (set_insert x s) xs

abbrev pub keys : {V : Type 0} → List (Hash × V) → List Hash
keys [] = []
keys ((k, _) ∷ m) = k ∷ keys m

-- The maps of the first loop of `derive`.
pub record Lineages : Type 0 where
  pub ancestors : List (Hash × List Hash)
  pub lineage : List (Hash × List Hash)
  pub grants : List (Hash × Grant)

unfoldable pub gather : List Hash → List (Hash × List Hash) → List Hash → Option (List Hash)
gather [] ancestors past = some past
gather (p ∷ ps) ancestors past = do
  earlier ← lookup p ancestors
  gather ps ancestors (set_union past earlier)

-- A revocation: its target, and whether it reaches what the target issued.
abbrev pub Revocations : Type 0
Revocations = List (Hash × (Hash × Bool))

unfoldable pub add_revocation : Hash → Payload → Revocations → Revocations
add_revocation id (Payload.revoke target cascade _) rest = (id, (target, cascade)) ∷ rest
add_revocation id _ rest = rest

unfoldable pub revocations : Events → Revocations
revocations [] = []
revocations ((id, e) ∷ valid) = add_revocation id e.envelope.payload (revocations valid)

unfoldable pub covers : Revocations → Lineages → Hash → Hash → Option Bool
covers revokes l r g = do
  (target, cascade) ← lookup r revokes
  if target == g
      then some true
      else if cascade
      then lookup g l.lineage >>= (λ path. some (set_contains target path))
      else some false

unfoldable pub outside : Events → Lineages → Hash → Hash → Option Bool
outside valid l e r = do
  revoke ← lookup r valid
  p ← first (parents_of revoke)
  past ← lookup p l.ancestors
  some (not (set_contains e past))

-- `a && b`, where `b` is computed only if `a` holds.
abbrev pub and_then : Option Bool → Option Bool → Option Bool
and_then none b = none
and_then (some false) b = some false
and_then (some true) b = b

-- The revocations that cover a grant and do not have the event in their past.
unfoldable pub controls_of :
    Events → Revocations → Lineages → List Hash → Hash → Hash → Option (List Hash)
controls_of valid revokes l effective g event =
    filter_of (λ r. and_then (covers revokes l r g) (outside valid l event r)) effective

unfoldable pub path_of : Option Hash → List (Hash × List Hash) → Option (List Hash)
path_of none lineage = some []
path_of (some issuer) lineage = lookup issuer lineage

unfoldable pub register : Option (Hash × Grant) → Lineages → Option Lineages
register none l = some l
register (some (g, grant)) l = do
  path ← path_of grant.issuer l.lineage
  some (record l {
    lineage = map_insert g (set_insert g path) l.lineage;
    grants = map_insert g grant l.grants;
  })

abbrev pub traced : Hash → Lineages → Bool
traced id l = contains_key id l.ancestors

module _ {SecretKey : Type 0} (crypto : Crypto SecretKey) where
  -- The grant under which an event is signed.
  unfoldable pub signer : Hash → Signed → Hash
  signer id e = unwrap_or e.envelope.grant (root_grant crypto id)

  -- The grant that an event makes; a delegation without a subject is a panic.
  unfoldable pub grant_made : Hash → Signed → Payload → Option (Option (Hash × Grant))
  grant_made id e (Payload.genesis _ _ _) = some (
      some (
        root_grant crypto id,
        record { issued_by_event = id; issuer = none; holder = e.envelope.author; subject = id },
      ))
  grant_made id e (Payload.delegate grantee issuer _) = do
    subject ← e.envelope.subject
    some (
        some (
          id,
          record {
            issued_by_event = id;
            issuer = some issuer;
            holder = grantee;
            subject = subject;
          },
        ))
  grant_made id e _ = some none

  -- The body of the first loop of `derive`.
  unfoldable pub trace : Hash → Signed → Lineages → Option Lineages
  trace id e l = do
    past ← gather (parents_of e) l.ancestors (id ∷ [])
    made ← grant_made id e e.envelope.payload
    register made (record l { ancestors = map_insert id past l.ancestors })

  unfoldable pub lineages : Events → Option Lineages
  lineages valid =
      schedule traced trace (λ l. length l.ancestors) valid
        (record { ancestors = []; lineage = []; grants = [] })
