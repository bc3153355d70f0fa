-- ===== src/Wire/Ordered.antt =====
-- What the sets and the subject keys of crates/cc-core/src/v1.rs are, in an event that decodes.
use clockchain.Prelude.{
  ◌≤◌, ◌<◌, ◌≡◌, false, Option, none, some, All, List, [], ◌∷◌, arith, length, Bytes, ok, ok-bind,
}
use clockchain.Wire.{Hash, Wire, max_set, any_descent, number, string_wire, both, hash_wire}
use clockchain.Wire.Event.{Envelope, SubjectKey, same_hash}
use clockchain.Wire.Signed.{
  Crypto, Signed, ill_sized, bad_subject_key, put_envelope, event_domain, header_wire, header_of,
  decode, canon_version, constants_version, put_payload,
}
use clockchain.Wire.Digits.{IsByte}
use clockchain.Wire.Sets.{set-put_ordered}
use clockchain.Wire.Canonical.{signed_part, preimage-ok, decode-canonical}

both-put_ok :
    {A B : Type 0} (c : Wire A) (d : Wire B) (a : A) (b : B) (w w' : Bytes)
    → (both c d).put (a, b) w ≡ ok w'
    → (w₁ : Bytes) × (c.put a w ≡ ok w₁) × (d.put b w₁ ≡ ok w')
unfolding both
both-put_ok c d a b w w' h = ok-bind {x = c.put a w} {f = d.put b} h

-- The header's set of parents is among what is written.
header-parents :
    (v : Envelope) (w w' : Bytes)
    → header_wire.put (header_of v) w ≡ ok w'
    → (any_descent same_hash v.parents ≡ false) × (length v.parents ≤ max_set)
unfolding header_wire header_of
header-parents v w w' h =
    let (w₁, _, h₁) = both-put_ok _ _ _ _ _ _ h in
    let (w₂, _, h₂) = both-put_ok _ _ _ _ _ _ h₁ in
    let (w₃, _, h₃) = both-put_ok _ _ _ _ _ _ h₂ in
    let (w₄, _, h₄) = both-put_ok _ _ _ _ _ _ h₃ in
    let (w₅, _, h₅) = both-put_ok _ _ _ _ _ _ h₄ in
    let (w₆, _, h₆) = both-put_ok _ _ _ _ _ _ h₅ in
    let (w₇, put, _) = both-put_ok _ _ _ _ _ _ h₆ in
    set-put_ordered same_hash hash_wire v.parents w₆ w₇ put

put_envelope-parents :
    (v : Envelope) (w w' : Bytes)
    → put_envelope v w ≡ ok w'
    → (any_descent same_hash v.parents ≡ false) × (length v.parents ≤ max_set)
unfolding put_envelope
put_envelope-parents v w w' h =
    let (w₁, _, h₁) = ok-bind {x = string_wire.put event_domain w} h in
    let (w₂, _, h₂) = ok-bind {x = (number 2).put canon_version w₁} h₁ in
    let (w₃, _, h₃) = ok-bind {x = (number 2).put constants_version w₂} h₂ in
    let (w₄, header, _) =
      ok-bind {x = header_wire.put (header_of v) w₃} {f = put_payload v.payload} h₃ in
    header-parents v w₃ w₄ header

-- Each is smaller than all that follow it.
abbrev pub Ascending : List Hash → Type 0
Ascending [] = Unit
Ascending (x ∷ xs) = All (λ y. x < y) xs × Ascending xs

All-above : (x y : Hash) (xs : List Hash) → x < y → All (λ z. y < z) xs → All (λ z. x < z) xs
All-above x y [] lt all = tt
All-above x y (z ∷ xs) lt all = (omega arith, All-above x y xs lt all.1)

any_descent-Ascending : (xs : List Hash) → any_descent same_hash xs ≡ false → Ascending xs
unfolding any_descent
any_descent-Ascending [] h = tt
any_descent-Ascending (x ∷ []) h = (tt, tt)
any_descent-Ascending (x ∷ y ∷ xs) h =
    let lt : x < y = ground arith in
    let ih = any_descent-Ascending (y ∷ xs) (ground arith) in ((lt, All-above x y xs lt ih.0), ih)

-- A string of 1 to 1024 bytes, and a subject key of three of them, if there is one.
abbrev pub IsSized : Bytes → Type 0
IsSized s = (1 ≤ length s) × (length s ≤ 1024)

abbrev pub HasSizes : Option SubjectKey → Type 0
HasSizes none = Unit
HasSizes (some key) = IsSized key.kind × IsSized key.namespace × IsSized key.value

ill_sized-IsSized : (s : Bytes) → ill_sized s ≡ false → IsSized s
ill_sized-IsSized [] h = absurd (ground arith)
ill_sized-IsSized (b ∷ s) h = ground arith

bad_subject_key-HasSizes : (k : Option SubjectKey) → bad_subject_key k ≡ false → HasSizes k
unfolding bad_subject_key
bad_subject_key-HasSizes none h = tt
bad_subject_key-HasSizes (some k) h = (
  ill_sized-IsSized k.kind (ground arith),
  ill_sized-IsSized k.namespace (ground arith),
  ill_sized-IsSized k.value (ground arith),
)

-- In an event that decodes every parent is smaller than all the parents that follow it, so that none
-- stands twice, and there are at most 1024; the subject key, if there is one, has a kind, a namespace
-- and a value of 1 to 1024 bytes each.
pub decode-ordered :
    {SecretKey : Type 0} (crypto : Crypto SecretKey) (bytes : Bytes) (s : Signed)
    → All IsByte bytes
    → decode crypto bytes ≡ ok s
    → Ascending s.envelope.parents
      × (length s.envelope.parents ≤ 1024)
      × HasSizes s.envelope.subject_key
decode-ordered crypto bytes s all h =
    let (_, _, _, p, _, _, _, _) = decode-canonical crypto bytes s all h in
    let (good, put, _) = preimage-ok s.envelope (signed_part bytes) p in
    let (sorted, few) = put_envelope-parents s.envelope [] (signed_part bytes) put in
    (
      any_descent-Ascending s.envelope.parents sorted,
      few,
      bad_subject_key-HasSizes s.envelope.subject_key good,
    )
