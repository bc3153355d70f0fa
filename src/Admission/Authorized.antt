-- ===== src/Admission/Authorized.antt =====
-- The authority of an event, in `evaluate` of crates/cc-ledger/src/v1.rs: it is derived from the past,
-- which returns, and the author of a valid event holds an active grant.
use clockchain.Prelude.{
  ℕ, ◌≡◌, ◌↔◌, refl, inl, inr, Bool, true, false, not, ◌&&◌, some, List, [], ◌∷◌, All, is_empty,
  arith, ◌==◌, ==_iff, Bool-cases, nat_key,
}
use clockchain.Prelude.Table.{lookup, contains_key}
use clockchain.Prelude.Ordered.{set_contains}
use clockchain.Wire.{Hash}
use clockchain.Wire.Event.{kind_of, decision_of, Decision}
use clockchain.Wire.Signed.{Crypto, Signed}
use clockchain.Ledger.{Events, parents_of, first}
use clockchain.Ledger.Authority.{Grant, Authority}
use clockchain.Ledger.Derive.{derive}
use clockchain.Ledger.Search.{Reaches}
use clockchain.Ledger.Order.{key_held}
use clockchain.Ledger.Totals.{Returns}
use clockchain.Ledger.Derived.{derive-IsView}
use clockchain.Ledger.Places.{place}
use clockchain.Ledger.Parts.{IsPart, part-IsGoverned, part-Reaches}
use clockchain.Edges.{Cause, Statuses, status_invalid, is_subject}
use clockchain.Admission.{
  is_resolve, any_comparable, union_of, any_inactive, unauthorized, evaluate_authority,
}
use clockchain.Admission.Past.{IsAdmitted, IsAuthorized}
use clockchain.Admission.Union.{IsUnion, past-IsUnion}
use clockchain.Admission.Views.{GrantsApart, ViewOf}
use clockchain.Admission.Revised.{or_else-Returns}
use clockchain.Admission.Founded.{IsFounded}
use clockchain.Edges.Standing.{accepted, Outcome}
use clockchain.Admission.Checks.{check_by_kind-Outcome}

head_of : (ps : List Hash) → is_empty ps ≡ false → (p : Hash) × (first ps ≡ some p)
head_of [] h = absurd (ground (arith, h))
head_of (p ∷ ps) h = (p, refl)

module _ {SecretKey : Type 0} (crypto : Crypto SecretKey) (all : Events) (rank : Hash → ℕ) where
  part-View :
      (part : Events) (w : IsPart crypto all rank part)
      → (view : Authority) × (derive crypto part ≡ some view) × ViewOf crypto all rank part w view
  part-View part w =
      derive-IsView crypto part (λ x. place rank part (rank x))
        (part-IsGoverned crypto all rank part w)

  any_inactive-Returns :
      (grant : Hash) (cones : List Events)
      → All (IsPart crypto all rank) cones
      → Returns (any_inactive crypto grant cones)
  unfolding any_inactive
  any_inactive-Returns grant [] parts = (false, refl)
  any_inactive-Returns grant (m ∷ cones) parts =
      let (view, eq, _) = part-View m parts.0 in
      let (b, b_eq) =
        or_else-Returns (some (not (set_contains grant view.active)))
          (any_inactive crypto grant cones) (_, refl) (any_inactive-Returns grant cones parts.1) in
      (b, rw eq b_eq)

  -- An author who is not refused holds the grant, and it is active.
  unauthorized-Returns :
      (part : Events) (w : IsPart crypto all rank part) (view : Authority)
      (v : ViewOf crypto all rank part w view) (cones : List Events) (grant author : Hash)
      → All (IsPart crypto all rank) cones
      → (b : Bool) × (unauthorized crypto view cones grant author ≡ some b)
        × (b ≡ false
            → (set_contains grant view.active ≡ true)
              × (given : Grant) × (lookup grant view.grants ≡ some given)
              × (given.holder ≡ author))
  unfolding unauthorized
  unauthorized-Returns part w view v cones grant author parts =
      elim (Bool-cases (set_contains grant view.active)) [
        | inr gone ↦ (true, rw gone refl, λ h. absurd (ground (arith, h)))
        | inl active ↦
            let (given, held) = key_held grant view.grants (v.known grant active) in
            elim (Bool-cases (given.holder == author)) [
              | inr other ↦
                  (true, rw active (rw held (rw other refl)), λ h. absurd (ground (arith, h)))
              | inl same ↦
                  let (b, eq) = any_inactive-Returns grant cones parts in
                  (
                    b,
                    rw active (rw held (rw same eq)),
                    λ _. (active, given, held, (==_iff given.holder author).0 same),
                  )
            ]
      ]

  module _ (out : Statuses) (a : IsAdmitted crypto all rank out) (apart : GrantsApart crypto all)
      (id : Hash) (e : Signed) (held : lookup id all ≡ some e)
      (ok : (p : Hash) → set_contains p (parents_of e) ≡ true → accepted out p ≡ true) where
    union_reached :
        (union : Events)
        → IsUnion crypto all rank (parents_of e) [] union
        → (x : Hash)
        → (contains_key x union ≡ true)
          ↔ ((p : Hash) × (set_contains p (parents_of e) ≡ true) × Reaches all p x)
    unfolding lookup
    union_reached union u x = (
      λ h. elim (u.reached x h) [ inl none_ ↦ absurd (ground (arith, none_)) | inr r ↦ r ],
      λ (p, m, r). (part-Reaches crypto all rank union u.part p x (u.covers p m) r).1,
    )

    pub evaluate_authority-Outcome :
        (grant subject : Hash) (d : Decision)
        → is_subject e ≡ true
        → is_empty (parents_of e) ≡ false
        → e.envelope.subject ≡ some subject
        → e.envelope.grant ≡ some grant
        → decision_of e.envelope.payload ≡ some d
        → Outcome
            (evaluate_authority crypto all e.envelope grant)
            (IsFounded crypto all out id e × IsAuthorized crypto all e)
    unfolding evaluate_authority
    evaluate_authority-Outcome grant subject d sub some_ at_ named has =
        let (parent, p_eq) = head_of (parents_of e) some_ in
        let (cones, c_eq, parts, u) = past-IsUnion crypto all rank out a (parents_of e) ok in
        let union = union_of cones [] in
        let (view, v_eq, v) = part-View union u.part in
        elim (Bool-cases
          (is_resolve (kind_of e.envelope.payload) && any_comparable (parents_of e) cones)) [
            | inl related ↦ (
              status_invalid Cause.comparable_parents,
              rw p_eq (rw c_eq (rw related refl)),
              λ ok'. absurd (ground (arith, ok')),
            )
            | inr apart_ ↦
                let (b, b_eq, may) =
                  unauthorized-Returns union u.part view v cones grant e.envelope.author parts in
                elim (Bool-cases b) [
                  | inl refused ↦ (
                    status_invalid Cause.parent_authority,
                    rw p_eq (rw c_eq (rw apart_ (rw v_eq (rw b_eq (rw refused refl))))),
                    λ ok'. absurd (ground (arith, ok')),
                  )
                  | inr allowed ↦
                      let (active, given, g_held, holds) = may allowed in
                      let (status, eq, founded) =
                        check_by_kind-Outcome crypto all rank out a apart id e held ok union u view
                          v grant named active parent p_eq e.envelope.payload subject d refl at_ has
                          sub in
                      (
                        status,
                        rw p_eq (rw c_eq (rw apart_ (rw v_eq (rw b_eq (rw allowed eq))))),
                        λ ok'. (
                          founded ok',
                          record {
                            grant = grant;
                            past = union;
                            view = view;
                            given = given;
                            named = named;
                            within = u.part.within;
                            reached = union_reached union u;
                            derives = v_eq;
                            active = active;
                            held = g_held;
                            holds = holds;
                          },
                        ),
                      )
                ]
          ]
