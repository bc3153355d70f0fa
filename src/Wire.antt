-- ===== src/Wire.antt =====
-- The strict wire format of crates/cc-core/src/v1.rs: the reader, the writer and the codecs of
-- numbers, strings, options and sets, with which the macros `record!` and `tags!` build the others.
-- A string of Rust is the list of its UTF-8 bytes. A hash is the number that its 32 bytes write in
-- base 256, highest first, so that the order of hashes is the order of numbers.
pub mod Event
pub mod Signed
mod Digits
mod Laws
mod Containers
mod Sets
mod EventLaws
mod Values
mod Payloads
mod Envelopes
mod Canonical
mod Binding
mod Ordered
mod Tests
use clockchain.Prelude.{
  ℕ, zero, suc, ◌+◌, ◌*◌, ◌/◌, ◌%◌, ◌^◌, Bool, true, false, ◌&&◌, ◌||◌, Option, none, some, List,
  [], ◌∷◌, ◌++◌, length, take, drop, ltb, leb, ◌==◌, if◌then◌else◌, Bytes, Result, ok, err, ◌>>=◌,
}

pub data WireError : Type 0 where
  truncated noncanonical_bool string_too_large invalid_utf8 noncanonical_set : WireError
  unknown_tag unknown_value_tag unknown_selection_tag subject_key_encoding : WireError
  envelope_too_large unsupported_encoding unsupported_constants noncanonical : WireError
  bad_signature receipt_domain receipt_result : WireError

-- `Hash`, which is `[u8; 32]`.
abbrev pub Hash : Type 0
Hash = ℕ

abbrev pub max_envelope : ℕ
max_envelope = 1024 * 1024

abbrev pub max_set : ℕ
max_set = 1024

-- The trait `Wire`. A writer is what is written so far, a reader what is left to read.
pub record Wire {ℓ} (A : Type ℓ) : Type ℓ where
  pub put : A → Bytes → Result Bytes WireError
  pub get : Bytes → Result (A × Bytes) WireError

-- `Reader::take`.
unfoldable pub take_bytes : ℕ → Bytes → Result (Bytes × Bytes) WireError
take_bytes n r = if ltb (length r) n then err truncated else ok (take n r, drop n r)

-- `to_be_bytes` in `n` bytes.
unfoldable pub to_be_bytes : ℕ → ℕ → Bytes
to_be_bytes zero x = []
to_be_bytes (suc n) x = to_be_bytes n (x / 256) ++ (x % 256 ∷ [])

-- `from_be_bytes`, after the digits read so far.
unfoldable pub from_be_bytes : ℕ → Bytes → ℕ
from_be_bytes acc [] = acc
from_be_bytes acc (b ∷ bs) = from_be_bytes (acc * 256 + b) bs

-- `number!`, and `[u8; N]`.
unfoldable pub number : ℕ → Wire ℕ
number n = record {
  put = λ x w. ok (w ++ to_be_bytes n x);
  get = λ r. do
    (bytes, rest) ← take_bytes n r
    ok (from_be_bytes 0 bytes, rest);
}

abbrev pub hash_wire : Wire Hash
hash_wire = number 32

unfoldable pub bool_of : Bytes → Bytes → Result (Bool × Bytes) WireError
bool_of [] rest = err truncated
bool_of (b ∷ _) rest =
    if b == 0 then ok (false, rest) else if b == 1 then ok (true, rest) else err noncanonical_bool

unfoldable pub bool_wire : Wire Bool
bool_wire = record {
  put = λ v w. ok (w ++ ((if v then 1 else 0) ∷ []));
  get = λ r. do
    (bytes, rest) ← take_bytes 1 r
    bool_of bytes rest;
}

-- The bytes that may follow a leading byte of UTF-8, as ranges; none if no character starts so.
abbrev continuation : ℕ × ℕ
continuation = (0x80, 0xbf)

abbrev in_range : ℕ → ℕ → ℕ → Bool
in_range lo hi b = leb lo b && leb b hi

unfoldable pub utf8_lead : ℕ → Option (List (ℕ × ℕ))
utf8_lead b =
    if ltb b 0x80
    then some []
    else if in_range 0xc2 0xdf b
    then some (continuation ∷ [])
    else if b == 0xe0
    then some ((0xa0, 0xbf) ∷ continuation ∷ [])
    else if b == 0xed
    then some ((0x80, 0x9f) ∷ continuation ∷ [])
    else if in_range 0xe1 0xef b
    then some (continuation ∷ continuation ∷ [])
    else if b == 0xf0
    then some ((0x90, 0xbf) ∷ continuation ∷ continuation ∷ [])
    else if in_range 0xf1 0xf3 b
    then some (continuation ∷ continuation ∷ continuation ∷ [])
    else if b == 0xf4
    then some ((0x80, 0x8f) ∷ continuation ∷ continuation ∷ [])
    else none

unfoldable pub utf8_from : List (ℕ × ℕ) → Bytes → Bool
unfolding utf8_lead
utf8_from [] [] = true
utf8_from (_ ∷ _) [] = false
utf8_from [] (b ∷ bs) = elim (utf8_lead b) [ none ↦ false | some next ↦ utf8_from next bs ]
utf8_from ((lo, hi) ∷ next) (b ∷ bs) = in_range lo hi b && utf8_from next bs

-- Whether `String::from_utf8` takes the bytes.
unfoldable pub is_utf8 : Bytes → Bool
unfolding utf8_from
is_utf8 = utf8_from []

abbrev from_utf8 : Bytes → Bytes → Result (Bytes × Bytes) WireError
from_utf8 bytes rest = if is_utf8 bytes then ok (bytes, rest) else err invalid_utf8

unfoldable pub string_wire : Wire Bytes
string_wire = record {
  put = λ s w. if ltb max_envelope (length s) then err string_too_large else do
    w' ← (number 4).put (length s % 2 ^ 32) w
    ok (w' ++ s);
  get = λ r. do
    (n, rest) ← (number 4).get r
    (bytes, rest') ← take_bytes n rest
    from_utf8 bytes rest';
}

-- What `get` reads, under a constructor.
abbrev pub read_as {ℓ κ} :
    {A : Type ℓ} {B : Type κ} → (A → B) → Wire A → Bytes → Result (B × Bytes) WireError
read_as f c r = do (a, rest) ← c.get r; ok (f a, rest)

module _ {ℓ} {A : Type ℓ} where
  unfoldable pub option_put : Wire A → Option A → Bytes → Result Bytes WireError
  option_put c none w = bool_wire.put false w
  option_put c (some v) w = do w' ← bool_wire.put true w; c.put v w'

  unfoldable pub option_wire : Wire A → Wire (Option A)
  unfolding option_put
  option_wire c = record {
    put = option_put c;
    get = λ r. do
      (present, rest) ← bool_wire.get r
      if present then read_as some c rest else ok (none, rest);
  }

  -- `windows(2).any(|p| p[0].reference() >= p[1].reference())`.
  unfoldable pub any_descent : (A → Hash) → List A → Bool
  any_descent reference [] = false
  any_descent reference (_ ∷ []) = false
  any_descent reference (a ∷ b ∷ vs) =
      leb (reference b) (reference a) || any_descent reference (b ∷ vs)

  unfoldable pub put_each : Wire A → List A → Bytes → Result Bytes WireError
  put_each c [] w = ok w
  put_each c (v ∷ vs) w = do w' ← c.put v w; put_each c vs w'

  unfoldable pub get_each : Wire A → ℕ → Bytes → Result (List A × Bytes) WireError
  get_each c zero r = ok ([], r)
  get_each c (suc n) r = do (v, rest) ← c.get r; (vs, rest') ← get_each c n rest; ok (v ∷ vs, rest')

  abbrev pub checked_set : (A → Hash) → List A × Bytes → Result (List A × Bytes) WireError
  checked_set reference (vs, rest) =
      if any_descent reference vs then err noncanonical_set else ok (vs, rest)

  unfoldable pub set_body : (A → Hash) → Wire A → ℕ → Bytes → Result (List A × Bytes) WireError
  unfolding any_descent get_each
  set_body reference c n r =
      if ltb max_set n
      then err noncanonical_set
      else do found ← get_each c n r; checked_set reference found

  -- `Set<T>`, by the trait `Reference`.
  unfoldable pub set_wire : (A → Hash) → Wire A → Wire (List A)
  unfolding any_descent put_each set_body
  set_wire reference c = record {
    put = λ vs w.
        if ltb max_set (length vs) || any_descent reference vs then err noncanonical_set else do
          w' ← (number 4).put (length vs % 2 ^ 32) w
          put_each c vs w';
    get = λ r. do
      (n, rest) ← (number 4).get r
      set_body reference c n rest;
  }

  -- `tags!`: a variant's number, and the variant of a number.
  unfoldable pub tags : (A → ℕ) → (ℕ → Option A) → Wire A
  tags tag variant = record {
    put = λ v w. (number 2).put (tag v) w;
    get = λ r. do
      (t, rest) ← (number 2).get r
      elim (variant t) [ none ↦ err unknown_tag | some v ↦ ok (v, rest) ];
  }

module _ {ℓ κ} {A : Type ℓ} {B : Type κ} where
  -- One field after the other, and the fields of a struct: the repetition of `record!`.
  unfoldable pub both : Wire A → Wire B → Wire (A × B)
  both c d = record {
    put = λ (a, b) w. do
      w' ← c.put a w
      d.put b w';
    get = λ r. do
      (a, rest) ← c.get r
      (b, rest') ← d.get rest
      ok ((a, b), rest');
  }

  unfoldable pub via : (B → A) → (A → B) → Wire A → Wire B
  via fields build c = record { put = λ b w. c.put (fields b) w; get = λ r. read_as build c r }
