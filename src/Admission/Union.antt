-- ===== src/Admission/Union.antt =====
-- The cones of the parents of an event, and their union, in `evaluate` of
-- crates/cc-ledger/src/v1.rs.
use clockchain.Prelude.{
  ℕ, ◌≡◌, ◌↔◌, ◌⊎◌, refl, sym, subst, inl, inr, true, ◌||◌, some, List, [], ◌∷◌, All, arith, ◌==◌,
  ==_iff, Bool-cases, nat_key,
}
use clockchain.Prelude.Table.{lookup, contains_key}
use clockchain.Prelude.Ordered.{IsAscending, set_contains}
use clockchain.Wire.{Hash}
use clockchain.Wire.Signed.{Crypto}
use clockchain.Ledger.{Events}
use clockchain.Ledger.Search.{Reaches, here}
use clockchain.Ledger.Parts.{IsPart}
use clockchain.Edges.{Statuses}
use clockchain.Admission.{cones_of, insert_all, union_of}
use clockchain.Edges.Standing.{accepted}
use clockchain.Admission.Past.{IsAdmitted, cone-IsPart, insert_all-IsPart}

module _ {SecretKey : Type 0} (crypto : Crypto SecretKey) (all : Events) (rank : Hash → ℕ) where
  -- What the union of the cones of some parents with a part is.
  pub record IsUnion (ps : List Hash) (past union : Events) : Type 0 where
    pub part : IsPart crypto all rank union
    pub reached :
        (x : Hash)
        → contains_key x union ≡ true
        → (contains_key x past ≡ true) ⊎ ((p : Hash) × (set_contains p ps ≡ true) × Reaches all p x)
    pub kept : (x : Hash) → contains_key x past ≡ true → contains_key x union ≡ true
    pub covers : (p : Hash) → set_contains p ps ≡ true → contains_key p union ≡ true

  IsUnion-step :
      (p : Hash) (ps : List Hash) (m past union : Events)
      → ((x : Hash) → (contains_key x m ≡ true) ↔ Reaches all p x)
      → ((x : Hash)
          → contains_key x (insert_all m past) ≡ (contains_key x m || contains_key x past))
      → IsUnion ps (insert_all m past) union
      → IsUnion (p ∷ ps) past union
  unfolding set_contains
  IsUnion-step p ps m past union reach keys u = record {
    part = u.part;
    reached = λ x h. elim (u.reached x h) [
      | inr (q, n, r) ↦ inr (q, ground (arith, n), r)
      | inl put ↦ elim (Bool-cases (contains_key x m)) [
        | inl known ↦ inr (p, ground arith, (reach x).0 known)
        | inr other ↦ inl (ground (arith, keys x, put, other))
      ]
    ];
    kept = λ x h. u.kept x (ground (arith, keys x, h));
    covers = λ q n. elim (Bool-cases (q == p)) [
      | inl same ↦
          let own : contains_key p m ≡ true = (reach p).1 here in
          let put = u.kept p (ground (arith, keys p, own)) in
          subst (λ (y : Hash). contains_key y union ≡ true) (sym ((==_iff q p).0 same)) put
      | inr differ ↦ u.covers q (ground (arith, n, differ))
    ];
  }

  nothing-IsPart : IsPart crypto all rank []
  unfolding lookup
  nothing-IsPart = record {
    distinct = tt;
    within = λ x e h. absurd (ground (arith, h));
    closed = λ x e p h m. absurd (ground (arith, h));
    ranked = λ x e p h m. absurd (ground (arith, h));
    acts = λ x e h. absurd (ground (arith, h));
  }

  module _ (out : Statuses) (a : IsAdmitted crypto all rank out) where
    cones_of-IsUnion :
        (ps : List Hash)
        → ((p : Hash) → set_contains p ps ≡ true → accepted out p ≡ true)
        → (cones : List Events) × (cones_of all ps ≡ some cones)
          × All (IsPart crypto all rank) cones
          × ((past : Events)
              → IsPart crypto all rank past
              → IsAscending past
              → IsUnion ps past (union_of cones past))
    unfolding cones_of union_of set_contains
    cones_of-IsUnion [] ok = (
      [],
      refl,
      tt,
      λ past w asc. record {
        part = w;
        reached = λ x h. inl h;
        kept = λ x h. h;
        covers = λ p m. absurd (ground (arith, m));
      },
    )
    cones_of-IsUnion (p ∷ ps) ok =
        let (m, eq, part, reach) = cone-IsPart crypto all rank out a p (ok p (ground arith)) in
        let (cones, eqs, parts, unions) = cones_of-IsUnion ps (λ q n. ok q (ground (arith, n))) in
        (
          m ∷ cones,
          rw eq (rw eqs refl),
          (part, parts),
          λ past w asc.
              let (w', asc', keys) = insert_all-IsPart crypto all rank m past part w asc in
              IsUnion-step p ps m past (union_of cones (insert_all m past)) reach keys
                (unions (insert_all m past) w' asc'),
        )

    -- The past of an event whose parents are valid is found, and is governed.
    pub past-IsUnion :
        (ps : List Hash)
        → ((p : Hash) → set_contains p ps ≡ true → accepted out p ≡ true)
        → (cones : List Events) × (cones_of all ps ≡ some cones)
          × All (IsPart crypto all rank) cones
          × IsUnion ps [] (union_of cones [])
    past-IsUnion ps ok =
        let (cones, eq, parts, unions) = cones_of-IsUnion ps ok in
        (cones, eq, parts, unions [] nothing-IsPart tt)
