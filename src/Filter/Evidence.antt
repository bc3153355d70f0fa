-- ===== src/Filter/Evidence.antt =====
-- What a certificate of crates/cc-filter/src/filter.rs lists: the events that it consulted, and the
-- factors that vanished.
use clockchain.Prelude.{◌≡◌, ◌⊎◌, true, List, []}
use clockchain.Prelude.Ordered.{set_contains}
use clockchain.Filter.{
  Windowed, Admitted, EventId, consulted_of, ContraryWitness, after_recorded_cessation,
  claim_type_outside_validity, Verdict, supported, unsupported, contradicted, Certificate,
  Reachability,
}
use clockchain.Filter.Judge.{Filter, reach_consulted, admitted_provenance}

-- The events that the evidence of a verdict names.
abbrev pub contrary_events : ContraryWitness → List EventId
contrary_events (after_recorded_cessation _ _ es) = es
contrary_events (claim_type_outside_validity _ _ es) = es

abbrev pub evidence_of : Verdict → List EventId
evidence_of (supported s) = consulted_of s
evidence_of (unsupported _) = []
evidence_of (contradicted c) = contrary_events c

-- A certificate lists an event.
abbrev pub Lists : Certificate → EventId → Type 0
Lists cert e = set_contains e cert.consulted ≡ true

-- An event is among those behind what was read: the two windows, the ruling and the walk.
abbrev pub IsBehind : Windowed → Windowed → Admitted → Reachability → EventId → Type 0
IsBehind w0 w1 a r e =
    (set_contains e w0.derived_from ≡ true)
    ⊎ ((set_contains e w1.derived_from ≡ true)
        ⊎ ((set_contains e (admitted_provenance a) ≡ true)
            ⊎ (set_contains e (reach_consulted r) ≡ true)))
