-- ===== src/Filter/Digest.antt =====
-- The corpus digest: `digest_of` of crates/cc-filter/src/snapshot.rs and `framed` of src/ids.rs.
-- SHA-256 is the parameter `sha256`.
use clockchain.Prelude.{ℕ, zero, suc, ◌+◌, ◌/◌, ◌%◌, ◌^◌, List, [], ◌∷◌, ◌++◌, length, Bytes}
use clockchain.Filter.{
  Tick, EntityId, EventId, ClaimType, Start, unknown, known, WindowEnd, known_open, known_closed,
  unknown_closure,
}
use clockchain.Filter.Records.{
  Ruling, ruled_valid, ruled_outside, Quad, Stamped, WindowIndex, AdmissIndex,
}

-- `to_be_bytes` of an integer of `w` bytes.
unfoldable pub be_bytes : ℕ → ℕ → Bytes
be_bytes zero n = []
be_bytes (suc w) n = n / 256 ^ w % 256 ∷ be_bytes w n

-- A field behind its length; no field here is longer than 32 bytes.
unfoldable pub framed : Bytes → Bytes → Bytes
framed out x = out ++ be_bytes 4 (length x) ++ x

unfoldable pub put_tick : Bytes → Tick → Bytes
put_tick out t = framed out (be_bytes 32 t)

-- `EntityId::to_canon_bytes`: the number itself, in two's complement.
unfoldable pub entity_bytes : EntityId → Bytes
entity_bytes e = be_bytes 8 ((e + 2 ^ 63) % 2 ^ 64)

abbrev event_bytes : EventId → Bytes
event_bytes via = be_bytes 32 via

unfoldable pub claim_bytes : ClaimType → Bytes
claim_bytes c = be_bytes 4 c

-- The text `cc.filter.snapshot.v0`, and the names of the three sections, in ASCII.
abbrev pub dst_corpus : Bytes
dst_corpus =
    99 ∷ 99 ∷ 46 ∷ 102 ∷ 105 ∷ 108 ∷ 116 ∷ 101 ∷ 114 ∷ 46 ∷ 115 ∷ 110 ∷ 97 ∷ 112 ∷ 115 ∷ 104 ∷ 111
    ∷ 116 ∷ 46 ∷ 118 ∷ 48 ∷ []

abbrev section_cooccurrence : Bytes
section_cooccurrence = 99 ∷ 111 ∷ 111 ∷ 99 ∷ 99 ∷ 117 ∷ 114 ∷ 114 ∷ 101 ∷ 110 ∷ 99 ∷ 101 ∷ []

abbrev section_windows : Bytes
section_windows = 119 ∷ 105 ∷ 110 ∷ 100 ∷ 111 ∷ 119 ∷ 115 ∷ []

abbrev section_admissibility : Bytes
section_admissibility =
    97 ∷ 100 ∷ 109 ∷ 105 ∷ 115 ∷ 115 ∷ 105 ∷ 98 ∷ 105 ∷ 108 ∷ 105 ∷ 116 ∷ 121 ∷ []

unfoldable pub put_quads : Bytes → List Quad → Bytes
put_quads buf [] = buf
put_quads buf (q ∷ qs) =
    put_quads
      (framed (put_tick (framed (framed buf (entity_bytes q.lo)) (entity_bytes q.hi)) q.at_)
        (event_bytes q.via))
      qs

unfoldable pub put_start : Bytes → Start → Bytes
put_start buf unknown = framed buf (0 ∷ [])
put_start buf (known t) = put_tick (framed buf (1 ∷ [])) t

unfoldable pub put_end : Bytes → WindowEnd → Bytes
put_end buf known_open = framed buf (0 ∷ [])
put_end buf unknown_closure = framed buf (1 ∷ [])
put_end buf (known_closed t) = put_tick (framed buf (2 ∷ [])) t

unfoldable pub put_ruling : Bytes → Ruling → Bytes
put_ruling buf ruled_valid = framed buf (0 ∷ [])
put_ruling buf (ruled_outside band_end) = put_tick (framed buf (1 ∷ [])) band_end

unfoldable pub put_windows_of : Bytes → EntityId → Stamped (Start × WindowEnd) → Bytes
put_windows_of buf entity [] = buf
put_windows_of buf entity (((recorded_at, via), (start, end)) ∷ m) =
    put_windows_of
      (put_end
        (put_start
          (framed (put_tick (framed buf (entity_bytes entity)) recorded_at) (event_bytes via))
          start)
        end)
      entity m

unfoldable pub put_windows : Bytes → WindowIndex → Bytes
put_windows buf [] = buf
put_windows buf ((entity, m) ∷ ms) = put_windows (put_windows_of buf entity m) ms

unfoldable pub put_rulings_of : Bytes → ClaimType → Stamped Ruling → Bytes
put_rulings_of buf claim [] = buf
put_rulings_of buf claim (((recorded_at, via), ruling) ∷ m) =
    put_rulings_of
      (put_ruling (framed (put_tick (framed buf (claim_bytes claim)) recorded_at) (event_bytes via))
        ruling)
      claim m

unfoldable pub put_rulings : Bytes → AdmissIndex → Bytes
put_rulings buf [] = buf
put_rulings buf ((claim, m) ∷ ms) = put_rulings (put_rulings_of buf claim m) ms

unfoldable pub digest_of : (Bytes → Bytes) → List Quad → WindowIndex → AdmissIndex → Bytes
digest_of sha256 cooccurrence windows admissibility =
    let a = put_quads (framed (framed [] dst_corpus) section_cooccurrence) cooccurrence in
    let b = put_windows (framed a section_windows) windows in
    sha256 (put_rulings (framed b section_admissibility) admissibility)
