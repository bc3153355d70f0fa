-- ===== src/Edges/Evaluate.antt =====
-- The status of an edge or media event: `evaluate` of crates/cc-ledger/src/v1/edges.rs.
use clockchain.Prelude.{
  is_empty, ℕ, ◌+◌, Bool, true, false, not, ◌&&◌, ◌||◌, Option, none, some, List, [], ◌∷◌, ◌++◌,
  Bytes, bytes_eq, length, ltb, ◌==◌, if◌then◌else◌, nat_key,
}
use clockchain.Prelude.Table.{lookup, contains_key}
use clockchain.Wire.{Hash}
use clockchain.Wire.Event.{
  Pin, Pins, ParentPins, TargetKind, Value, Decision, Payload, Envelope, kind_of,
}
use clockchain.Ledger.{Events, ◌>>=◌, cone}
use clockchain.Ledger.Authority.{any_of, set_union}
use clockchain.Ledger.Derive.{is_none}
use clockchain.Edges.{
  State, Cause, Status, status_valid, status_invalid, status_pending, is_valid, is_invalid,
  is_pending, Statuses, is_edge_assert, is_edge_reaffirm, is_attestation, Subjects, pins_of,
  edge_of, absent, check_pins,
}

-- The governed names of relations, in the order of the code.
abbrev pub disputes : Bytes
disputes = b'd' ∷ b'i' ∷ b's' ∷ b'p' ∷ b'u' ∷ b't' ∷ b'e' ∷ b's' ∷ []

abbrev pub relations : List Bytes
relations =
    (b'c' ∷ b'a' ∷ b'u' ∷ b's' ∷ b'a' ∷ b't' ∷ b'i' ∷ b'o' ∷ b'n' ∷ [])
    ∷ (b'c' ∷ b'o' ∷ b'_' ∷ b'o' ∷ b'c' ∷ b'c' ∷ b'u' ∷ b'r' ∷ b'r' ∷ b'e' ∷ b'n' ∷ b'c' ∷ b'e'
        ∷ [])
    ∷ disputes
    ∷ (b'i' ∷ b'n' ∷ b'f' ∷ b'l' ∷ b'u' ∷ b'e' ∷ b'n' ∷ b'c' ∷ b'e' ∷ [])
    ∷ (b'p' ∷ b'a' ∷ b'r' ∷ b't' ∷ b'i' ∷ b'c' ∷ b'i' ∷ b'p' ∷ b'a' ∷ b't' ∷ b'i' ∷ b'o' ∷ b'n'
        ∷ [])
    ∷ []

unfoldable pub any_equal : Bytes → List Bytes → Bool
any_equal x [] = false
any_equal x (y ∷ ys) = bytes_eq x y || any_equal x ys

-- The equality tests that the code derives.
abbrev pub is_absent : {A : Type 0} → Option A → Bool
is_absent none = true
is_absent (some _) = false

unfoldable pub pin_eq : Pin → Pin → Bool
pin_eq a b =
    a.subject == b.subject && (a.basis == b.basis && (a.revision == b.revision && a.body == b.body))

unfoldable pub pins_eq : Pins → Pins → Bool
pins_eq a b = pin_eq a.source b.source && pin_eq a.target b.target

unfoldable pub parent_pins_eq : List ParentPins → List ParentPins → Bool
parent_pins_eq [] [] = true
parent_pins_eq (a ∷ as_) (b ∷ bs) =
    a.parent == b.parent && (pins_eq a.pins b.pins && parent_pins_eq as_ bs)
parent_pins_eq _ _ = false

abbrev pub is_nothing : Value → Bool
is_nothing Value.nothing = true
is_nothing _ = false

abbrev pub is_pins : Value → Pins → Bool
is_pins (Value.pins a) b = pins_eq a b
is_pins _ b = false

abbrev pub is_parent_pins : Value → List ParentPins → Bool
is_parent_pins (Value.parent_pins a) b = parent_pins_eq a b
is_parent_pins _ b = false

-- A decision has the parents of its event, a rationale and evidence.
unfoldable pub decided : Decision → List Hash → Bool
decided d ps = bytes_eq d.parents ps && (not (is_empty d.rationale) && not (is_empty d.evidence))

abbrev pub or_else : Option Bool → Option Bool → Option Bool
or_else none b = none
or_else (some true) b = some true
or_else (some false) b = b

unfoldable pub states_of : Statuses → List Hash → Option (List State)
states_of out [] = some []
states_of out (p ∷ ps) = do
  status ← lookup p out
  states ← states_of out ps
  some (status.state ∷ states)

unfoldable pub any_state : (State → Bool) → List State → Bool
any_state f [] = false
any_state f (s ∷ states) = f s || any_state f states

-- How many of the parents are in a cone.
unfoldable pub count_in : List Hash → Events → ℕ
count_in [] m = 0
count_in (p ∷ ps) m = (if contains_key p m then 1 else 0) + count_in ps m

unfoldable pub other_edge : Events → Hash → Hash → Option Bool
other_edge all edge p = do
  e ← lookup p all
  some (elim (edge_of p e.envelope.payload) [ none ↦ true | some i ↦ not (i == edge) ])

-- Whether two parents are in the cone of one.
unfoldable pub comparable : Events → List Hash → Option Bool
comparable all ps =
    if ltb 1 (length ps)
    then any_of (λ p. cone all p >>= (λ m. some (ltb 1 (count_in ps m)))) ps
    else some false

abbrev pub parents_pinned : List ParentPins → List Hash
parents_pinned [] = []
parents_pinned (o ∷ old) = o.parent ∷ parents_pinned old

unfoldable pub pins_differ : Events → List ParentPins → Option Bool
pins_differ all [] = some false
pins_differ all (o ∷ old) = do
  e ← lookup o.parent all
  pins ← pins_of e.envelope.payload
  or_else (some (not (pins_eq o.pins pins))) (pins_differ all old)

module _ (all : Events) (out : Statuses) (s : Subjects) where
  -- The rule for disputes, once the pins are valid.
  unfoldable pub check_dispute : Envelope → Bytes → Pins → Option Status
  check_dispute e relation pins =
      if bytes_eq relation disputes
      then (if pins.source.subject == pins.target.subject
          then some (status_invalid Cause.dispute_counterclaim)
          else lookup pins.source.subject all >>= (λ subject. some (
              if not (subject.envelope.author == e.author)
              then status_invalid Cause.dispute_counterclaim
              else status_valid)))
      else some status_valid

  unfoldable pub evaluate_assert : Envelope → Bytes → Pins → Decision → Option Status
  evaluate_assert e relation pins d =
      if not (is_empty e.parents)
      then some (status_invalid Cause.parents)
      else if not (
          is_edge_assert d.kind
          && (decided d e.parents && (is_nothing d.old && is_pins d.new pins)))
      then some (status_invalid Cause.decision_mismatch)
      else if not (any_equal relation relations)
      then some (status_invalid Cause.relation)
      else check_pins all out s pins >>= (λ status.
        if not (is_valid status.state) then some status else check_dispute e relation pins)

  -- What a reaffirmation is to repeat, once its ancestors are valid.
  unfoldable pub evaluate_repeat :
      Envelope → Pins → List ParentPins → Pins → Decision → Option Status
  evaluate_repeat e base old new d = do
    same_parents ← comparable all e.parents
    if same_parents
        then some (status_invalid Cause.comparable_parents)
        else if not
            (new.source.subject == base.source.subject && new.target.subject == base.target.subject)
        then some (status_invalid Cause.endpoint_changed)
        else do
          differ ←
              or_else (some (not (bytes_eq (parents_pinned old) e.parents))) (pins_differ all old)
          if differ
                || not (
                    is_edge_reaffirm d.kind
                    && (decided d e.parents && (is_parent_pins d.old old && is_pins d.new new)))
              then some (status_invalid Cause.decision_mismatch)
              else check_pins all out s new

  -- The ancestors of a reaffirmation, once they are known.
  unfoldable pub evaluate_chain :
      Envelope → Hash → List ParentPins → Pins → Decision → Option Status
  evaluate_chain e edge old new d = do
    base ← lookup edge all
    wrong ←
        or_else (some (not (is_edge_assert (kind_of base.envelope.payload))))
          (any_of (other_edge all edge) e.parents)
    if wrong then some (status_invalid Cause.wrong_edge) else do
      states ← states_of out (e.parents ++ edge ∷ [])
      if any_state is_invalid states
          then some (status_invalid Cause.ancestor)
          else if not (e.author == base.envelope.author)
          then some (status_invalid Cause.edge_author)
          else if any_state is_pending states
          then some (status_pending Cause.ancestor [])
          else do base_pins ← pins_of base.envelope.payload; evaluate_repeat e base_pins old new d

  unfoldable pub evaluate_reaffirm :
      Envelope → Hash → List ParentPins → Pins → Decision → Option Status
  evaluate_reaffirm e edge old new d =
      let missing = set_union [] (absent (e.parents ++ edge ∷ []) all) in
      if is_empty e.parents
      then some (status_invalid Cause.parents)
      else if not (is_empty missing)
      then some (status_pending Cause.parent_missing missing)
      else evaluate_chain e edge old new d

  unfoldable pub evaluate_target : TargetKind → Hash → Status
  evaluate_target TargetKind.revision target =
      if contains_key target s.revisions
      then status_valid
      else status_pending Cause.revision_missing (target ∷ [])
  evaluate_target TargetKind.event target = elim (lookup target all) [
    | none ↦ status_pending Cause.target_missing (target ∷ [])
    | some t ↦
        if is_attestation (kind_of t.envelope.payload)
        then status_invalid Cause.attestation_target
        else elim (lookup target out) [
          | none ↦ status_valid
          | some status ↦
              if is_invalid status.state
              then status_invalid Cause.target_invalid
              else if is_pending status.state
              then status_pending Cause.target_pending []
              else status_valid
        ]
  ]

  unfoldable pub evaluate_attestation : Envelope → TargetKind → Hash → Bytes → Status
  evaluate_attestation e kind target artifact_kind =
      if not (is_empty e.parents)
      then status_invalid Cause.parents
      else if is_empty artifact_kind
      then status_invalid Cause.artifact_kind
      else evaluate_target kind target

  -- By the payload; subject events do not come here.
  unfoldable pub evaluate_payload : Envelope → Payload → Option Status
  evaluate_payload e (Payload.edge_assert relation pins d) = evaluate_assert e relation pins d
  evaluate_payload e (Payload.edge_reaffirm edge old new d) = evaluate_reaffirm e edge old new d
  evaluate_payload e (Payload.attestation kind target artifact_kind _) =
      some (evaluate_attestation e kind target artifact_kind)
  evaluate_payload e _ = none

  unfoldable pub evaluate : Hash → Option Status
  evaluate id = do
    event ← lookup id all
    let e = event.envelope
    if not (
          is_none e.subject
          && (is_absent e.subject_key && (is_none e.grant && is_absent e.asserted_time)))
        then some (status_invalid Cause.non_subject_header)
        else evaluate_payload e e.payload
