-- ===== src/Edges/Classify.antt =====
-- The order in which edges and media are classified: `classify` of crates/cc-ledger/src/v1/edges.rs.
use clockchain.Prelude.{
  ℕ, zero, suc, Bool, true, false, not, ◌&&◌, ◌||◌, Option, none, some, List, [], ◌∷◌, ◌++◌, length,
  if◌then◌else◌, nat_key,
}
use clockchain.Prelude.Table.{lookup, contains_key}
use clockchain.Prelude.Ordered.{map_insert}
use clockchain.Wire.{Hash}
use clockchain.Wire.Event.{Payload, kind_of}
use clockchain.Wire.Signed.{Crypto}
use clockchain.Ledger.{Events, parents_of, ◌>>=◌}
use clockchain.Edges.{
  Cause, status_invalid, Statuses, is_attestation, is_subject, Subjects, new_subjects,
}
use clockchain.Edges.Evaluate.{evaluate}

-- The edges, or the media events.
unfoldable pub ids_of : Bool → Events → List Hash
ids_of media [] = []
ids_of media ((id, e) ∷ events) =
    let rest = ids_of media events in
    let is_media = is_attestation (kind_of e.envelope.payload) in
    if not (is_subject e) && (if media then is_media else not is_media) then id ∷ rest else rest

-- What an event of a payload waits for, after its parents.
abbrev pub edge_dependency : Payload → List Hash
edge_dependency (Payload.edge_reaffirm edge _ _ _) = edge ∷ []
edge_dependency _ = []

-- A dependency that is classified, unknown or media is not waited for.
unfoldable pub is_settled : Events → Statuses → Hash → Bool
is_settled candidates out d = contains_key d out || elim (lookup d candidates) [
  | none ↦ true
  | some c ↦ is_attestation (kind_of c.envelope.payload)
]

unfoldable pub all_settled : Events → Statuses → List Hash → Bool
all_settled candidates out [] = true
all_settled candidates out (d ∷ ds) = is_settled candidates out d && all_settled candidates out ds

module _ (candidates : Events) (s : Subjects) where
  -- One pass over the events, with whether it classified any.
  unfoldable pub pass : List Hash → Statuses → Bool → Option (Statuses × Bool)
  pass [] out changed = some (out, changed)
  pass (id ∷ ids) out changed = elim (contains_key id out) [
    | true ↦ pass ids out changed
    | false ↦ elim (lookup id candidates) [
      | none ↦ none
      | some e ↦
          elim (all_settled candidates out (parents_of e ++ edge_dependency e.envelope.payload)) [
            | false ↦ pass ids out changed
            | true ↦ elim (evaluate candidates out s id) [
              | none ↦ none
              | some status ↦ pass ids (map_insert id status out) true
            ]
          ]
    ]
  ]

  -- A pass that changes something classifies an event, so that one more pass than events is enough.
  unfoldable pub passes : ℕ → List Hash → Statuses → Option Statuses
  passes zero ids out = none
  passes (suc fuel) ids out = elim (pass ids out false) [
    | none ↦ none
    | some (out', false) ↦ some out'
    | some (out', true) ↦ passes fuel ids out'
  ]

  -- What is left depends on itself.
  unfoldable pub close_cycles : List Hash → Statuses → Statuses
  close_cycles [] out = out
  close_cycles (id ∷ ids) out =
      close_cycles ids
        (if contains_key id out then out else map_insert id (status_invalid Cause.cycle) out)

  unfoldable pub classify_stage : Bool → Statuses → Option Statuses
  classify_stage media out = do
    let ids = ids_of media candidates
    out' ← passes (suc (length ids)) ids out
    some (close_cycles ids out')

module _ {SecretKey : Type 0} (crypto : Crypto SecretKey) where
  -- `classify`: edges, and then media.
  unfoldable pub classify : Events → Statuses → Option Statuses
  classify candidates out = do
    s ← new_subjects crypto candidates out
    out' ← classify_stage candidates s false out
    classify_stage candidates s true out'
