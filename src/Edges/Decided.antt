-- ===== src/Edges/Decided.antt =====
-- The header and the decision of an asserted edge, in `evaluate` of
-- crates/cc-ledger/src/v1/edges.rs.
use clockchain.Prelude.{
  is_empty, ◌≡◌, ◌≢◌, refl, ap, ◌∙◌, Bool, true, false, ◌&&◌, none, [], bytes_eq, bytes_eq_sound,
  arith, ==_iff, nat_key,
}
use clockchain.Wire.Event.{Pin, Pins, Value, Decision, Envelope}
use clockchain.Ledger.Derive.{is_none}
use clockchain.Edges.{is_edge_assert}
use clockchain.Edges.Evaluate.{is_absent, pin_eq, pins_eq, is_nothing, is_pins, decided}

pin_eq_sound : (a b : Pin) → pin_eq a b ≡ true → a ≡ b
unfolding pin_eq
pin_eq_sound a b h = ground (
  arith,
  h,
  ==_iff a.subject b.subject,
  ==_iff a.basis b.basis,
  ==_iff a.revision b.revision,
  ==_iff a.body b.body,
)

pin_eq_refl : (a : Pin) → pin_eq a a ≡ true
unfolding pin_eq
pin_eq_refl a = ground (arith)

pins_eq_sound : (a b : Pins) → pins_eq a b ≡ true → a ≡ b
unfolding pins_eq
pins_eq_sound a b h =
    ground (arith, pin_eq_sound a.source b.source, pin_eq_sound a.target b.target, h)

pins_eq_refl : (a : Pins) → pins_eq a a ≡ true
unfolding pins_eq
pins_eq_refl a = ground (arith, pin_eq_refl a.source, pin_eq_refl a.target)

is_nothing_sound : (v : Value) → is_nothing v ≡ true → v ≡ Value.nothing
is_nothing_sound v h = ground (arith, h)

is_pins_sound : (v : Value) (p : Pins) → is_pins v p ≡ true → v ≡ Value.pins p
is_pins_sound (Value.pins q) p h = ap Value.pins (pins_eq_sound q p h)
is_pins_sound Value.nothing p h = absurd (ground (arith, h))
is_pins_sound (Value.body _) p h = absurd (ground (arith, h))
is_pins_sound (Value.grant _ _) p h = absurd (ground (arith, h))
is_pins_sound (Value.active_grant _) p h = absurd (ground (arith, h))
is_pins_sound (Value.revoked_grant _ _) p h = absurd (ground (arith, h))
is_pins_sound (Value.heads _) p h = absurd (ground (arith, h))
is_pins_sound (Value.revision _) p h = absurd (ground (arith, h))
is_pins_sound (Value.parent_pins _) p h = absurd (ground (arith, h))

-- An assertion has no subject header and no parents; its decision is about exactly its pins.
pub record IsDecided (e : Envelope) (pins : Pins) (d : Decision) : Type 0 where
  pub subject : e.subject ≡ none
  pub subject_key : is_absent e.subject_key ≡ true
  pub grant : e.grant ≡ none
  pub asserted_time : is_absent e.asserted_time ≡ true
  pub parents : e.parents ≡ []
  pub kind : is_edge_assert d.kind ≡ true
  pub same_parents : d.parents ≡ []
  pub rationale : d.rationale ≢ []
  pub evidence : d.evidence ≢ []
  pub old : d.old ≡ Value.nothing
  pub new : d.new ≡ Value.pins pins

-- The tests of the header and of the decision.
abbrev pub header : Envelope → Bool
header e =
    is_none e.subject && (is_absent e.subject_key && (is_none e.grant && is_absent e.asserted_time))

abbrev pub deciding : Envelope → Pins → Decision → Bool
deciding e pins d =
    is_edge_assert d.kind && (decided d e.parents && (is_nothing d.old && is_pins d.new pins))

pub tests-IsDecided :
    (e : Envelope) (pins : Pins) (d : Decision)
    → header e ≡ true
    → is_empty e.parents ≡ true
    → deciding e pins d ≡ true
    → IsDecided e pins d
unfolding decided
tests-IsDecided e pins d h p k =
    let no_parents : e.parents ≡ [] = ground (arith, p) in
    let same : bytes_eq d.parents e.parents ≡ true = ground (arith, k) in
    record {
      subject = ground (arith, h);
      subject_key = ground (arith, h);
      grant = ground (arith, h);
      asserted_time = ground (arith, h);
      parents = no_parents;
      kind = ground (arith, k);
      same_parents = bytes_eq_sound d.parents e.parents same ∙ no_parents;
      rationale = λ none_. ground (arith, k, none_);
      evidence = λ none_. ground (arith, k, none_);
      old = is_nothing_sound d.old (ground (arith, k));
      new = is_pins_sound d.new pins (ground (arith, k));
    }

pub IsDecided-header :
    (e : Envelope) (pins : Pins) (d : Decision) → IsDecided e pins d → header e ≡ true
IsDecided-header e pins d i = ground (arith, i.subject, i.subject_key, i.grant, i.asserted_time)

pub IsDecided-deciding :
    (e : Envelope) (pins : Pins) (d : Decision) → IsDecided e pins d → deciding e pins d ≡ true
unfolding decided bytes_eq
IsDecided-deciding e pins d i =
    let rationale : is_empty d.rationale ≡ false = ground (arith, i.rationale) in
    let evidence : is_empty d.evidence ≡ false = ground (arith, i.evidence) in
    let same : bytes_eq d.parents e.parents ≡ true = rw (i.same_parents, i.parents) refl in
    let old : is_nothing d.old ≡ true = rw i.old refl in
    let new : is_pins d.new pins ≡ true = rw i.new (pins_eq_refl pins) in
    rw i.kind (rw same (rw rationale (rw evidence (rw old new))))
