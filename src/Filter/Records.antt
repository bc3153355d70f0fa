-- ===== src/Filter/Records.antt =====
-- The records of crates/cc-filter/src/snapshot.rs, and the sets and indexes that they are projected
-- into.
use clockchain.Prelude.{Bool, ◌&&◌, ◌||◌, List, [], ◌∷◌, ltb, ◌==◌, if◌then◌else◌, nat_key}
use clockchain.Filter.{Tick, EntityId, EventId, ClaimType, Start, WindowEnd}

pub data Ruling : Type 0 where
  ruled_valid : Ruling
  ruled_outside : Tick → Ruling

pub data Record : Type 0 where
  co_occurrence : EntityId → EntityId → Tick → EventId → Record
  window_record : EntityId → Tick → EventId → Start → WindowEnd → Record
  admissibility_record : ClaimType → Tick → EventId → Ruling → Record

pub data SnapshotError : Type 0 where
  self_co_occurrence : EntityId → SnapshotError
  contradictory_record : Tick → EventId → SnapshotError

-- `(lo, hi, at, via)` of a co-occurrence, and `(other, via, at)` in the adjacency of an entity.
pub record Quad : Type 0 where
  pub lo : EntityId
  pub hi : EntityId
  pub at_ : Tick
  pub via : EventId

pub record Neighbor : Type 0 where
  pub other : EntityId
  pub via : EventId
  pub at_ : Tick

-- The derived orders.
unfoldable pub quad_lt : Quad → Quad → Bool
quad_lt a b =
    ltb a.lo b.lo
    || (a.lo == b.lo
        && (ltb a.hi b.hi
            || (a.hi == b.hi && (ltb a.at_ b.at_ || (a.at_ == b.at_ && ltb a.via b.via)))))

unfoldable pub neighbor_lt : Neighbor → Neighbor → Bool
neighbor_lt a b =
    ltb a.other b.other
    || (a.other == b.other && (ltb a.via b.via || (a.via == b.via && ltb a.at_ b.at_)))

-- `BTreeSet::insert`, by an order.
unfoldable pub insert_by {ℓ} : {A : Type ℓ} → (A → A → Bool) → A → List A → List A
insert_by lt x [] = x ∷ []
insert_by lt x (y ∷ ys) =
    let rest = insert_by lt x ys in
    if lt x y then x ∷ y ∷ ys else if lt y x then y ∷ rest else y ∷ ys

abbrev pub Adjacency : Type 0
Adjacency = List (EntityId × List Neighbor)

-- `(recorded_at, via)`, in its order.
abbrev pub Stamp : Type 0
Stamp = Tick × EventId

abbrev pub stamp_lt : Stamp → Stamp → Bool
stamp_lt (t, v) (t', v') = ltb t t' || (t == t' && ltb v v')

abbrev pub Stamped {ℓ} : Type ℓ → Type ℓ
Stamped V = List (Stamp × V)

abbrev pub WindowIndex : Type 0
WindowIndex = List (EntityId × Stamped (Start × WindowEnd))

abbrev pub AdmissIndex : Type 0
AdmissIndex = List (ClaimType × Stamped Ruling)
