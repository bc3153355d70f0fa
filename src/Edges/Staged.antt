-- ===== src/Edges/Staged.antt =====
-- What holds while `classify` of crates/cc-ledger/src/v1/edges.rs runs: subject events have a status,
-- and the parents of a valid event are valid.
use clockchain.Prelude.{
  ◌≡◌, ap, ◌∙◌, sym, subst, inl, inr, true, false, Option, some, arith, ◌==◌, ==_iff, Bool-cases,
  nat_key,
}
use clockchain.Prelude.Table.{lookup, contains_key}
use clockchain.Prelude.Ordered.{map_insert, set_contains}
use clockchain.Wire.{Hash}
use clockchain.Wire.Signed.{Signed}
use clockchain.Ledger.{Events, parents_of, cone}
use clockchain.Ledger.Search.{Reaches, here, there}
use clockchain.Ledger.Cone.{cone-found}
use clockchain.Ledger.Totals.{Returns}
use clockchain.Edges.{Status, Statuses, Subjects, is_valid, is_subject}
use clockchain.Edges.Standing.{accepted, contains_key-put, accepted-put, accepted-contains_key}

module _ (all : Events) (s : Subjects) where
  pub record IsStaged (out : Statuses) : Type 0 where
    pub known : (x : Hash) → contains_key x out ≡ true → contains_key x all ≡ true
    pub subjects :
        (x : Hash) (e : Signed)
        → lookup x all ≡ some e
        → is_subject e ≡ true
        → contains_key x out ≡ true
    pub parents :
        (x : Hash) (e : Signed) (p : Hash)
        → accepted out x ≡ true
        → lookup x all ≡ some e
        → set_contains p (parents_of e) ≡ true
        → accepted out p ≡ true
    pub selects :
        (x : Hash) (e : Signed)
        → accepted out x ≡ true
        → lookup x all ≡ some e
        → is_subject e ≡ true
        → (r : Hash) × (lookup x s.selected ≡ some r) × (contains_key r s.revisions ≡ true)

  module _ (out : Statuses) (t : IsStaged out) where
    accepted-Reaches :
        (x y : Hash) → accepted out x ≡ true → Reaches all x y → accepted out y ≡ true
    accepted-Reaches x _ h here = h
    accepted-Reaches x _ h (there {x = y} {e} {p} r held m) =
        t.parents y e p (accepted-Reaches x y h r) held m

    -- The cone of a valid event is found.
    pub accepted-cone : (x : Hash) → accepted out x ≡ true → Returns (cone all x)
    accepted-cone x h =
        let (m, eq, _, _, _) =
          cone-found all x
            (λ y r. t.known y (accepted-contains_key out y (accepted-Reaches x y h r))) in
        (m, eq)

    module _ (id : Hash) (e : Signed) (status : Status) (held : lookup id all ≡ some e)
        (new : contains_key id out ≡ false) where
      other : (x : Hash) → contains_key x out ≡ true → (id == x) ≡ false
      other x known = elim (Bool-cases (id == x)) [
        | inl same ↦
            let gone = ap (λ k. contains_key k out) (sym ((==_iff id x).0 same)) ∙ new in
            absurd (ground (arith, known, gone))
        | inr differ ↦ differ
      ]

      kept : (x : Hash) → accepted out x ≡ true → accepted (map_insert id status out) x ≡ true
      kept x ok =
          let differ = other x (accepted-contains_key out x ok) in
          ground (arith, accepted-put id x status out, differ, ok)

      -- A status of an event that has none yet.
      pub put-IsStaged :
          (is_valid status.state ≡ true
            → (p : Hash) → set_contains p (parents_of e) ≡ true
            → accepted out p ≡ true)
          → IsStaged (map_insert id status out)
      put-IsStaged ok = record {
        known = λ x h. elim (Bool-cases (id == x)) [
          | inl same ↦
              let here_ : contains_key id all ≡ true = ground (arith, held) in
              ap (λ k. contains_key k all) (sym ((==_iff id x).0 same)) ∙ here_
          | inr differ ↦ t.known x (ground (arith, contains_key-put id x status out, differ, h))
        ];
        subjects = λ x f x_held sub.
            let known = t.subjects x f x_held sub in
            ground (arith, contains_key-put id x status out, known);
        parents = λ x f p x_ok x_held m. elim (Bool-cases (id == x)) [
          | inl same ↦
              let x_eq = (==_iff id x).0 same in
              let f_eq : ◌≡◌ {A = Option Signed} (some f) (some e) =
                sym x_held ∙ (ap (λ k. lookup k all) (sym x_eq) ∙ held) in
              let e_eq : f ≡ e = ground (arith, f_eq) in
              let m' = subst (λ (g : Signed). set_contains p (parents_of g) ≡ true) e_eq m in
              let valid : is_valid status.state ≡ true =
                ground (arith, accepted-put id x status out, x_ok, same) in
              kept p (ok valid p m')
          | inr differ ↦
              let old : accepted out x ≡ true =
                ground (arith, accepted-put id x status out, x_ok, differ) in
              kept p (t.parents x f p old x_held m)
        ];
        selects = λ x f x_ok x_held sub.
            let differ = other x (t.subjects x f x_held sub) in
            t.selects x f (ground (arith, accepted-put id x status out, x_ok, differ)) x_held sub;
      }
