-- ===== src/Ledger/Parts.antt =====
-- The parts of a set of candidates of crates/cc-ledger/src/v1 that are governed: those with the
-- parents of every event, where every event acts under a grant of its past.
use clockchain.Prelude.{ℕ, ◌<◌, ◌≤◌, ◌≡◌, ◌∙◌, sym, true, Bool, some, arith, nat_key}
use clockchain.Prelude.Table.{lookup, contains_key, IsDistinct}
use clockchain.Prelude.Ordered.{set_contains}
use clockchain.Wire.{Hash}
use clockchain.Wire.Event.{Payload, Decision}
use clockchain.Wire.Signed.{Crypto, Signed}
use clockchain.Ledger.{Events, parents_of, first}
use clockchain.Ledger.Authority.{Grant, signer, grant_made}
use clockchain.Ledger.Search.{Reaches, here, there}
use clockchain.Ledger.Order.{IsOrdered, key_held}
use clockchain.Ledger.Totals.{Returns}
use clockchain.Ledger.Governed.{Makes, IsMade, IsGoverned}
use clockchain.Ledger.Places.{place, IsRanked-IsOrdered}

module _ {SecretKey : Type 0} (crypto : Crypto SecretKey) (all : Events) where
  -- A grant that an event in the past of another makes.
  abbrev pub MadeBefore : Hash → Hash → Type 0
  MadeBefore x g =
      (y : Hash) × (f : Signed) × (grant : Grant) × Reaches all x y
      × (lookup y all ≡ some f)
      × Makes crypto all y f g grant

  -- What an admitted event does: what it names is made in its past.
  pub record Acts (x : Hash) (e : Signed) : Type 0 where
    pub complete : Returns (grant_made crypto x e e.envelope.payload)
    pub issued :
        (g : Hash) (grant : Grant) (i : Hash)
        → Makes crypto all x e g grant
        → grant.issuer ≡ some i
        → (p : Hash) × (set_contains p (parents_of e) ≡ true) × MadeBefore p i
    pub signed : MadeBefore x (signer crypto x e)
    pub revoked :
        (target : Hash) (cascade : Bool) (d : Decision)
        → e.envelope.payload ≡ Payload.revoke target cascade d
        → (p : Hash) × (first (parents_of e) ≡ some p) × MadeBefore x target

  -- A part of the candidates with all parents.
  pub record IsPart (rank : Hash → ℕ) (part : Events) : Type 0 where
    pub distinct : IsDistinct part
    pub within : (x : Hash) (e : Signed) → lookup x part ≡ some e → lookup x all ≡ some e
    pub closed :
        (x : Hash) (e : Signed) (p : Hash)
        → lookup x part ≡ some e
        → set_contains p (parents_of e) ≡ true
        → contains_key p part ≡ true
    pub ranked :
        (x : Hash) (e : Signed) (p : Hash)
        → lookup x part ≡ some e
        → set_contains p (parents_of e) ≡ true
        → rank p < rank x
    pub acts : (x : Hash) (e : Signed) → lookup x part ≡ some e → Acts x e

  module _ (rank : Hash → ℕ) (part : Events) (w : IsPart rank part) where
    part-agrees :
        (x : Hash) (e : Signed)
        → contains_key x part ≡ true
        → lookup x all ≡ some e
        → lookup x part ≡ some e
    part-agrees x e known held =
        let (f, f_held) = key_held x part known in f_held ∙ (sym (w.within x f f_held) ∙ held)

    -- What is reached from an event of the part is of the part.
    pub part-Reaches :
        (x y : Hash)
        → contains_key x part ≡ true
        → Reaches all x y
        → Reaches part x y × (contains_key y part ≡ true)
    part-Reaches x _ known here = (here, known)
    part-Reaches x _ known (there {x = y} {e} {p} r held m) =
        let (s, y_known) = part-Reaches x y known r in
        let held' = part-agrees y e y_known held in (there s held' m, w.closed y e p held' m)

    -- What is reached ranks no higher.
    pub part-Reaches_le :
        (x y : Hash) → contains_key x part ≡ true → Reaches all x y → rank y ≤ rank x
    part-Reaches_le x _ known here = omega arith
    part-Reaches_le x _ known (there {x = y} {e} {p} r held m) =
        let (_, y_known) = part-Reaches x y known r in
        let below = w.ranked y e p (part-agrees y e y_known held) m in
        omega (arith, below, part-Reaches_le x y known r)

    MadeBefore-IsMade :
        (x g : Hash) → contains_key x part ≡ true → MadeBefore x g → IsMade crypto part g
    MadeBefore-IsMade x g known (y, f, grant, r, held, makes) =
        let (_, y_known) = part-Reaches x y known r in
        (y, f, grant, part-agrees y f y_known held, makes)

    pub part-IsOrdered : IsOrdered part (λ x. place rank part (rank x))
    part-IsOrdered =
        IsRanked-IsOrdered part rank
          (record { distinct = w.distinct; known = w.closed; before = w.ranked })

    pub part-IsGoverned : IsGoverned crypto part (λ x. place rank part (rank x))
    part-IsGoverned = record {
      ordered = part-IsOrdered;
      complete = λ x e held. (w.acts x e held).complete;
      issued = λ x e g grant i held makes issuer.
          let (p, m, (y, f, by_, r, f_held, made)) =
            (w.acts x e held).issued g grant i makes issuer in
          let (s, y_known) = part-Reaches p y (w.closed x e p held m) r in
          (p, y, f, by_, m, s, part-agrees y f y_known f_held, made);
      signed = λ x e held.
          MadeBefore-IsMade x (signer crypto x e) (ground (arith, held)) (w.acts x e held).signed;
      revoked = λ x e target cascade d held is.
          let (p, eq, made) = (w.acts x e held).revoked target cascade d is in
          (p, eq, MadeBefore-IsMade x target (ground (arith, held)) made);
    }
