-- ===== src/Wire/Values.antt =====
-- Values, selections and decisions on the wire of crates/cc-core/src/v1.rs: variants with fields.
use clockchain.Prelude.{
  ℕ, zero, suc, ◌<◌, ◌≡◌, refl, ap, ◌∙◌, sym, subst, ◌++◌, append_assoc, arith, All, Bytes, Result,
  ok, err, ok-bind, ok-injective,
}
use clockchain.Wire.{
  unknown_value_tag, unknown_selection_tag, WireError, Wire, number, hash_wire, bool_wire, both,
  read_as,
}
use clockchain.Wire.Event.{
  Value, Decision, Selection, put_variant, variants, value_put, value_body, value_wire, hash_set,
  parent_pins_set, selection_put, selection_body, selection_wire, decision_wire, pins_wire,
}
use clockchain.Wire.Laws.{
  Fits, Fits-rest, Encodes, Lawful, number-Lawful, IsAny, bool_wire-Lawful, both-Lawful, via-Lawful,
  read_as-ok,
}
use clockchain.Wire.Containers.{IsText, string_wire-Lawful}
use clockchain.Wire.EventLaws.{
  IsHash, hash_wire-Lawful, hash_set-Lawful, IsPins, pins_wire-Lawful, IsParentPins,
  parent_pins_set-Lawful, kind_wire-Lawful,
}

module _ {B : Type 0} (put : B → Bytes → Result Bytes WireError)
    (body : ℕ → Bytes → Result (B × Bytes) WireError) where
  module _ {A : Type 0} (build : A → B) (tag : ℕ) (c : Wire A) {P : A → Type 0} (law : Lawful c P)
      (puts : (a : A) (w : Bytes) → put (build a) w ≡ put_variant tag c a w)
      (gets : (r : Bytes) → body tag r ≡ read_as build c r) where
    variant-Encodes :
        (a : A) (e f : Bytes)
        → Encodes (number 2) tag e
        → Encodes c a f
        → Encodes (variants put body) (build a) (e ++ f)
    unfolding variants put_variant
    variant-Encodes a e f p q = record {
      written = λ w. puts a w ∙ rw (p.written w, q.written (w ++ e), append_assoc) refl;
      read =
          λ rest. rw (append_assoc, p.read (f ++ rest)) (gets (f ++ rest) ∙ rw (q.read rest) refl);
    }

    variant-put :
        (a : A) (w w' : Bytes)
        → tag < 65536
        → P a
        → put (build a) w ≡ ok w'
        → (e : Bytes) × (w' ≡ w ++ e) × Encodes (variants put body) (build a) e
    unfolding put_variant
    variant-put a w w' small x h =
        let h' : put_variant tag c a w ≡ ok w' = sym (puts a w) ∙ h in
        let (w₁, first, h'') = ok-bind {x = (number 2).put tag w} {f = c.put a} h' in
        let (e, e_eq, e_law) = (number-Lawful 2).of_put tag w w₁ small first in
        let (f, f_eq, f_law) = law.of_put a w₁ w' x h'' in
        (
          e ++ f,
          f_eq ∙ ap (λ t. t ++ f) e_eq ∙ append_assoc w e f,
          variant-Encodes a e f e_law f_law,
        )

    variant-get :
        (Q : B → Type 0) (e r : Bytes) (v : B) (rest : Bytes)
        → ((a : A) → P a → Q (build a))
        → Encodes (number 2) tag e
        → Fits r
        → body tag r ≡ ok (v, rest)
        → Q v × ((f : Bytes) × (e ++ r ≡ f ++ rest) × Encodes (variants put body) v f)
    variant-get Q e r v rest good p fits h =
        let h' : read_as build c r ≡ ok (v, rest) = sym (gets r) ∙ h in
        let (a, made, x, (f, f_eq, f_law)) = read_as-ok {f = build} {c = c} law fits h' in
        (
          subst Q made (good a x),
          (
            e ++ f,
            ap (λ t. e ++ t) f_eq ∙ sym (append_assoc e f rest),
            subst (λ t. Encodes (variants put body) t (e ++ f)) made
                (variant-Encodes a e f p f_law),
          ),
        )

abbrev pub IsValue : Value → Type 0
IsValue Value.nothing = Unit
IsValue (Value.body h) = IsHash h
IsValue (Value.grant i g) = IsHash i × IsHash g
IsValue (Value.active_grant g) = IsHash g
IsValue (Value.revoked_grant g c) = IsHash g × IsAny c
IsValue (Value.heads hs) = All IsHash hs
IsValue (Value.revision r) = IsHash r
IsValue (Value.pins p) = IsPins p
IsValue (Value.parent_pins ps) = All IsParentPins ps

nothing-Encodes : (e : Bytes) → Encodes (number 2) 0 e → Encodes value_wire Value.nothing e
unfolding value_wire variants value_put value_body
nothing-Encodes e p = record { written = p.written; read = λ rest. rw (p.read rest) refl }

value_put_lem :
    (v : Value) (w w' : Bytes)
    → IsValue v
    → value_put v w ≡ ok w'
    → (e : Bytes) × (w' ≡ w ++ e) × Encodes value_wire v e
unfolding value_wire value_put value_body
value_put_lem Value.nothing w w' x h =
    let (e, e_eq, e_law) = (number-Lawful 2).of_put 0 w w' (omega arith) h in
    (e, e_eq, nothing-Encodes e e_law)
value_put_lem (Value.body hash) w w' x h =
    variant-put value_put value_body Value.body 1 hash_wire hash_wire-Lawful (λ a w. refl)
      (λ r. refl) hash w w' (omega arith) x h
value_put_lem (Value.grant i g) w w' x h =
    variant-put value_put value_body (λ (i, g). Value.grant i g) 2 (both hash_wire hash_wire)
      (both-Lawful hash_wire-Lawful hash_wire-Lawful) (λ a w. refl) (λ r. refl) (i, g) w w'
      (omega arith) x h
value_put_lem (Value.active_grant g) w w' x h =
    variant-put value_put value_body Value.active_grant 3 hash_wire hash_wire-Lawful (λ a w. refl)
      (λ r. refl) g w w' (omega arith) x h
value_put_lem (Value.revoked_grant g c) w w' x h =
    variant-put value_put value_body (λ (g, c). Value.revoked_grant g c) 4
      (both hash_wire bool_wire) (both-Lawful hash_wire-Lawful bool_wire-Lawful) (λ a w. refl)
      (λ r. refl) (g, c) w w' (omega arith) x h
value_put_lem (Value.heads hs) w w' x h =
    variant-put value_put value_body Value.heads 5 hash_set hash_set-Lawful (λ a w. refl)
      (λ r. refl) hs w w' (omega arith) x h
value_put_lem (Value.revision r) w w' x h =
    variant-put value_put value_body Value.revision 6 hash_wire hash_wire-Lawful (λ a w. refl)
      (λ r. refl) r w w' (omega arith) x h
value_put_lem (Value.pins p) w w' x h =
    variant-put value_put value_body Value.pins 7 pins_wire pins_wire-Lawful (λ a w. refl)
      (λ r. refl) p w w' (omega arith) x h
value_put_lem (Value.parent_pins ps) w w' x h =
    variant-put value_put value_body Value.parent_pins 8 parent_pins_set parent_pins_set-Lawful
      (λ a w. refl) (λ r. refl) ps w w' (omega arith) x h

value_body_unknown :
    (t : ℕ) (r : Bytes)
    → value_body (suc (suc (suc (suc (suc (suc (suc (suc (suc t))))))))) r ≡ err unknown_value_tag
unfolding value_body
value_body_unknown t r = ground arith

value_body_lem :
    (t : ℕ) (e r : Bytes) (v : Value) (rest : Bytes)
    → Encodes (number 2) t e
    → Fits r
    → value_body t r ≡ ok (v, rest)
    → IsValue v × ((f : Bytes) × (e ++ r ≡ f ++ rest) × Encodes value_wire v f)
unfolding value_wire value_body value_put
value_body_lem zero e r v rest p fits h =
    let same : (Value.nothing, r) ≡ (v, rest) = ok-injective h in
    let v_eq : Value.nothing ≡ v = ap (λ t. t.0) same in
    let left : r ≡ rest = ap (λ t. t.1) same in
    (
      subst IsValue v_eq tt,
      (e, ap (λ t. e ++ t) left, subst (λ t. Encodes value_wire t e) v_eq (nothing-Encodes e p)),
    )
value_body_lem (suc zero) e r v rest p fits h =
    variant-get value_put value_body Value.body 1 hash_wire hash_wire-Lawful (λ a w. refl)
      (λ r. refl) IsValue e r v rest (λ a x. x) p fits h
value_body_lem (suc (suc zero)) e r v rest p fits h =
    variant-get value_put value_body (λ (i, g). Value.grant i g) 2 (both hash_wire hash_wire)
      (both-Lawful hash_wire-Lawful hash_wire-Lawful) (λ a w. refl) (λ r. refl) IsValue e r v rest
      (λ a x. x) p fits h
value_body_lem (suc (suc (suc zero))) e r v rest p fits h =
    variant-get value_put value_body Value.active_grant 3 hash_wire hash_wire-Lawful (λ a w. refl)
      (λ r. refl) IsValue e r v rest (λ a x. x) p fits h
value_body_lem (suc (suc (suc (suc zero)))) e r v rest p fits h =
    variant-get value_put value_body (λ (g, c). Value.revoked_grant g c) 4
      (both hash_wire bool_wire) (both-Lawful hash_wire-Lawful bool_wire-Lawful) (λ a w. refl)
      (λ r. refl) IsValue e r v rest (λ a x. x) p fits h
value_body_lem (suc (suc (suc (suc (suc zero))))) e r v rest p fits h =
    variant-get value_put value_body Value.heads 5 hash_set hash_set-Lawful (λ a w. refl)
      (λ r. refl) IsValue e r v rest (λ a x. x) p fits h
value_body_lem (suc (suc (suc (suc (suc (suc zero)))))) e r v rest p fits h =
    variant-get value_put value_body Value.revision 6 hash_wire hash_wire-Lawful (λ a w. refl)
      (λ r. refl) IsValue e r v rest (λ a x. x) p fits h
value_body_lem (suc (suc (suc (suc (suc (suc (suc zero))))))) e r v rest p fits h =
    variant-get value_put value_body Value.pins 7 pins_wire pins_wire-Lawful (λ a w. refl)
      (λ r. refl) IsValue e r v rest (λ a x. x) p fits h
value_body_lem (suc (suc (suc (suc (suc (suc (suc (suc zero)))))))) e r v rest p fits h =
    variant-get value_put value_body Value.parent_pins 8 parent_pins_set parent_pins_set-Lawful
      (λ a w. refl) (λ r. refl) IsValue e r v rest (λ a x. x) p fits h
value_body_lem (suc (suc (suc (suc (suc (suc (suc (suc (suc t))))))))) e r v rest p fits h =
    let refused = value_body_unknown t r in absurd (ground (arith, refused, h))

pub value_wire-Lawful : Lawful value_wire IsValue
unfolding value_wire variants
value_wire-Lawful = record {
  of_put = value_put_lem;
  of_get = λ b v rest fits h.
      let ((t, r), first, h') = ok-bind {x = (number 2).get b} h in
      let (_, (e, e_eq, e_law)) = (number-Lawful 2).of_get b t r fits first in
      let (x, (f, f_eq, f_law)) =
        value_body_lem t e r v rest e_law (Fits-rest b e r e_eq fits) h' in
      (x, (f, e_eq ∙ f_eq, f_law));
}

abbrev pub IsSelection : Selection → Type 0
IsSelection (Selection.revision r) = IsHash r
IsSelection (Selection.merged_body b) = IsHash b

selection_put_lem :
    (v : Selection) (w w' : Bytes)
    → IsSelection v
    → selection_put v w ≡ ok w'
    → (e : Bytes) × (w' ≡ w ++ e) × Encodes selection_wire v e
unfolding selection_wire selection_put selection_body
selection_put_lem (Selection.revision r) w w' x h =
    variant-put selection_put selection_body Selection.revision 0 hash_wire hash_wire-Lawful
      (λ a w. refl) (λ r. refl) r w w' (omega arith) x h
selection_put_lem (Selection.merged_body b) w w' x h =
    variant-put selection_put selection_body Selection.merged_body 1 hash_wire hash_wire-Lawful
      (λ a w. refl) (λ r. refl) b w w' (omega arith) x h

selection_body_unknown :
    (t : ℕ) (r : Bytes) → selection_body (suc (suc t)) r ≡ err unknown_selection_tag
unfolding selection_body
selection_body_unknown t r = ground arith

selection_body_lem :
    (t : ℕ) (e r : Bytes) (v : Selection) (rest : Bytes)
    → Encodes (number 2) t e
    → Fits r
    → selection_body t r ≡ ok (v, rest)
    → IsSelection v × ((f : Bytes) × (e ++ r ≡ f ++ rest) × Encodes selection_wire v f)
unfolding selection_wire selection_body selection_put
selection_body_lem zero e r v rest p fits h =
    variant-get selection_put selection_body Selection.revision 0 hash_wire hash_wire-Lawful
      (λ a w. refl) (λ r. refl) IsSelection e r v rest (λ a x. x) p fits h
selection_body_lem (suc zero) e r v rest p fits h =
    variant-get selection_put selection_body Selection.merged_body 1 hash_wire hash_wire-Lawful
      (λ a w. refl) (λ r. refl) IsSelection e r v rest (λ a x. x) p fits h
selection_body_lem (suc (suc t)) e r v rest p fits h =
    let refused = selection_body_unknown t r in absurd (ground (arith, refused, h))

pub selection_wire-Lawful : Lawful selection_wire IsSelection
unfolding selection_wire variants
selection_wire-Lawful = record {
  of_put = selection_put_lem;
  of_get = λ b v rest fits h.
      let ((t, r), first, h') = ok-bind {x = (number 2).get b} h in
      let (_, (e, e_eq, e_law)) = (number-Lawful 2).of_get b t r fits first in
      let (x, (f, f_eq, f_law)) =
        selection_body_lem t e r v rest e_law (Fits-rest b e r e_eq fits) h' in
      (x, (f, e_eq ∙ f_eq, f_law));
}

abbrev pub IsDecision : Decision → Type 0
IsDecision d =
    IsAny d.kind
    × (IsText d.rationale
        × (All IsHash d.evidence × (All IsHash d.parents × (IsValue d.old × IsValue d.new))))

pub decision_wire-Lawful : Lawful decision_wire IsDecision
unfolding decision_wire
decision_wire-Lawful =
    via-Lawful _ _ (λ b. refl) (λ a. refl)
      (both-Lawful kind_wire-Lawful (
        both-Lawful string_wire-Lawful (
          both-Lawful hash_set-Lawful
            (both-Lawful hash_set-Lawful (both-Lawful value_wire-Lawful value_wire-Lawful)))))
