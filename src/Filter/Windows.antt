-- ===== src/Filter/Windows.antt =====
-- The existence windows of crates/cc-core/src/lib.rs in their stored form, and `Windowed::from_core`
-- of crates/cc-filter/src/view.rs.
use clockchain.Prelude.{◌≤◌, ◌<◌, ◌≡◌, ◌↔◌, refl, List, arith}
use clockchain.Filter.{
  Tick, EntityId, EventId, sentinel, Start, unknown, known, WindowEnd, known_open, known_closed,
  unknown_closure, Windowed,
}
use clockchain.Filter.Judge.{holds, window_factor}
use clockchain.Filter.Factors.{InWindow, window_factor-IsRuling}

pub record ExistenceWindow : Type 0 where
  pub start : Start
  pub end : WindowEnd

pub data ClosureState : Type 0 where
  open_state closed_state unknown_state : ClosureState

pub data StartState : Type 0 where
  known_start unknown_start : StartState

unfoldable pub stored_end : ExistenceWindow → Tick
stored_end w = elim w.end [ known_closed t ↦ t | _ ↦ sentinel ]

unfoldable pub stored_start : ExistenceWindow → Tick
stored_start w = elim w.start [ known t ↦ t | unknown ↦ sentinel ]

unfoldable pub closure_state : ExistenceWindow → ClosureState
closure_state w = elim w.end [
  | known_open ↦ open_state
  | known_closed _ ↦ closed_state
  | unknown_closure ↦ unknown_state
]

unfoldable pub start_state : ExistenceWindow → StartState
start_state w = elim w.start [ known _ ↦ known_start | unknown ↦ unknown_start ]

unfoldable pub from_stored : StartState → Tick → ClosureState → Tick → ExistenceWindow
from_stored start_state stored_start closure stored_end = record {
  start = elim start_state [ known_start ↦ known stored_start | unknown_start ↦ unknown ];
  end = elim closure [
    | open_state ↦ known_open
    | closed_state ↦ known_closed stored_end
    | unknown_state ↦ unknown_closure
  ];
}

unfoldable pub from_core : ExistenceWindow → List EventId → Windowed
from_core w derived_from = record { start = w.start; end = w.end; derived_from = derived_from }

reads_back :
    (st : Start) (en : WindowEnd)
    → from_stored
        (start_state (record { start = st; end = en }))
        (stored_start (record { start = st; end = en }))
        (closure_state (record { start = st; end = en }))
        (stored_end (record { start = st; end = en }))
      ≡ record { start = st; end = en }
unfolding from_stored start_state stored_start closure_state stored_end
reads_back unknown known_open = refl
reads_back unknown (known_closed e) = refl
reads_back unknown unknown_closure = refl
reads_back (known s) known_open = refl
reads_back (known s) (known_closed e) = refl
reads_back (known s) unknown_closure = refl

between :
    (st : Start) (en : WindowEnd) (es : List EventId) (t : Tick)
    → t < sentinel
    → InWindow (record { start = st; end = en; derived_from = es }) t ↔ (
        (stored_start (record { start = st; end = en }) ≤ t)
        × (t ≤ stored_end (record { start = st; end = en })))
unfolding stored_start stored_end
between unknown en es t lt =
    ((λ ((s, e, le), inside). absurd (ground (arith, e))), λ (lo, hi). absurd (omega arith))
between (known s) known_open es t lt = (
  (λ ((s', e, le), inside). (ground (arith, e, le), omega arith)),
  λ (lo, hi). ((s, refl, lo), λ e eq. ground (arith, eq)),
)
between (known s) unknown_closure es t lt = (
  (λ ((s', e, le), inside). (ground (arith, e, le), omega arith)),
  λ (lo, hi). ((s, refl, lo), λ e eq. ground (arith, eq)),
)
between (known s) (known_closed c) es t lt = (
  (λ ((s', e, le), inside). (ground (arith, e, le), inside c refl)),
  λ (lo, hi). ((s, refl, lo), λ e eq. ground (arith, eq, hi)),
)

-- A stored window reads back as it was, and, at any coordinate below the sentinel, the filter's
-- factor holds exactly when the coordinate lies between the two stored numbers: the sentinel in
-- place of what is not known decides as the record does.
pub window_factor-stored :
    (w : ExistenceWindow) (derived_from : List EventId) (t_q : Tick) (f : EntityId)
    → t_q < sentinel
    → (from_stored (start_state w) (stored_start w) (closure_state w) (stored_end w) ≡ w)
      × ((window_factor (from_core w derived_from) t_q f ≡ holds)
          ↔ ((stored_start w ≤ t_q) × (t_q ≤ stored_end w)))
unfolding from_core
window_factor-stored w es t_q f lt =
    let ruling = window_factor-IsRuling (from_core w es) t_q f holds in
    let inside = between w.start w.end es t_q lt in
    (reads_back w.start w.end, ((λ h. inside.0 (ruling.0 h)), λ h. ruling.1 (inside.1 h)))
