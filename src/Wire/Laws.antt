-- ===== src/Wire/Laws.antt =====
-- What the codecs of crates/cc-core/src/v1.rs have in common: what one of them writes, and nothing
-- else, it reads back.
use clockchain.Prelude.{
  ℕ, ◌^◌, ◌≤◌, ◌<◌, ◌≡◌, refl, ap, ap₂, ◌∙◌, sym, subst, inl, inr, Bool, true, false, [], ◌∷◌, ◌++◌,
  append_assoc, arith, ltb, Bool-cases, if◌then◌else◌, length, length-append, length-take, take,
  drop, take-append, drop-append, take-append-drop, All, All-take, Bytes, ok, ok-bind, ok-injective,
}
use clockchain.Wire.{
  Wire, max_envelope, take_bytes, to_be_bytes, from_be_bytes, number, bool_of, bool_wire, both, via,
  read_as,
}
use clockchain.Wire.Digits.{
  IsByte, length-to_be_bytes, from_be_bytes-to_be_bytes, to_be_bytes-from_be_bytes,
}

-- What a buffer of the wire is: bytes, and no more of them than an envelope has.
abbrev pub Fits : Bytes → Type 0
Fits b = All IsByte b × (length b ≤ max_envelope)

-- The codec writes the value as these bytes, and reads it off them whatever follows.
pub record Encodes {A : Type 0} (c : Wire A) (v : A) (e : Bytes) : Type 0 where
  pub written : (w : Bytes) → c.put v w ≡ ok (w ++ e)
  pub read : (rest : Bytes) → c.get (e ++ rest) ≡ ok (v, rest)

pub record Lawful {A : Type 0} (c : Wire A) (IsValue : A → Type 0) : Type 0 where
  pub of_put :
      (v : A) (w w' : Bytes)
      → IsValue v
      → c.put v w ≡ ok w'
      → (e : Bytes) × (w' ≡ w ++ e) × Encodes c v e
  pub of_get :
      (b : Bytes) (v : A) (rest : Bytes)
      → Fits b
      → c.get b ≡ ok (v, rest)
      → IsValue v × ((e : Bytes) × (b ≡ e ++ rest) × Encodes c v e)

-- What stands behind a prefix.
All-rest : (e rest : Bytes) → All IsByte (e ++ rest) → All IsByte rest
All-rest [] rest a = a
All-rest (x ∷ e) rest a = All-rest e rest a.1

pub Fits-rest : (b e rest : Bytes) → b ≡ e ++ rest → Fits b → Fits rest
Fits-rest b e rest split fits =
    let size = length-append e rest in
    let all = subst (All IsByte) split fits.0 in
    (All-rest e rest all, omega (arith, ap length split))

pub take_bytes-append :
    (n : ℕ) (e rest : Bytes) → length e ≡ n → take_bytes n (e ++ rest) ≡ ok (e, rest)
unfolding take_bytes
take_bytes-append n e rest h =
    let size = length-append e rest in
    ground (arith, take-append n e rest (sym h), drop-append n e rest (sym h))

pub take_bytes-ok :
    (n : ℕ) (r e rest : Bytes)
    → take_bytes n r ≡ ok (e, rest)
    → (r ≡ e ++ rest) × (length e ≡ n) × (e ≡ take n r)
unfolding take_bytes
take_bytes-ok n r e rest h = elim (Bool-cases (ltb (length r) n)) [
  | inl short ↦ absurd (ground (arith, h))
  | inr enough ↦
      let h' = rw enough at h in
      let pair : (take n r, drop n r) ≡ (e, rest) = ok-injective h' in
      let size = length-take n r in
      let whole = take-append-drop n r in
      (ground (arith, pair), ground (arith, pair), ground (arith, pair))
]

abbrev pub InWidth : ℕ → ℕ → Type 0
InWidth n x = x < 256 ^ n

number-Encodes : (n x : ℕ) → x < 256 ^ n → Encodes (number n) x (to_be_bytes n x)
unfolding number
number-Encodes n x h = record {
  written = λ w. refl;
  read = λ rest. rw (
    take_bytes-append n (to_be_bytes n x) rest (length-to_be_bytes n x),
    from_be_bytes-to_be_bytes n x h,
  );
}

number-get :
    (n : ℕ) (b : Bytes) (v : ℕ) (rest : Bytes)
    → Fits b
    → (number n).get b ≡ ok (v, rest)
    → (v < 256 ^ n) × (b ≡ to_be_bytes n v ++ rest)
unfolding number
number-get n b v rest fits h =
    let ((bytes, r), taken, e) = ok-bind {x = take_bytes n b} h in
    let (split, size, prefix) = take_bytes-ok n b bytes r taken in
    let all : All IsByte bytes = subst (All IsByte) (sym prefix) (All-take IsByte n b fits.0) in
    let (digits, bound) = to_be_bytes-from_be_bytes n bytes size all in
    let value : from_be_bytes 0 bytes ≡ v = ground (arith, e) in
    let left : r ≡ rest = ground (arith, e) in
    let written = sym digits ∙ ap (to_be_bytes n) value in
    (rw (← value) bound, split ∙ ap₂ (λ x y. x ++ y) written left)

pub number-Lawful : (n : ℕ) → Lawful (number n) (InWidth n)
unfolding number
number-Lawful n = record {
  of_put = λ v w w' bound h. (to_be_bytes n v, sym (ok-injective h), number-Encodes n v bound);
  of_get = λ b v rest fits h.
      let (bound, split) = number-get n b v rest fits h in
      (bound, (to_be_bytes n v, split, number-Encodes n v bound));
}

-- A value of a type whose every value can be written.
abbrev pub IsAny : {A : Type 0} → A → Type 0
IsAny v = Unit {0}

bool-Encodes : (v : Bool) → Encodes bool_wire v ((if v then 1 else 0) ∷ [])
unfolding bool_wire take_bytes bool_of
bool-Encodes true = record { written = λ w. refl; read = λ rest. ground arith }
bool-Encodes false = record { written = λ w. refl; read = λ rest. ground arith }

bool_of-ok :
    (bytes r : Bytes) (v : Bool) (rest : Bytes)
    → length bytes ≡ 1
    → bool_of bytes r ≡ ok (v, rest)
    → (bytes ≡ (if v then 1 else 0) ∷ []) × (r ≡ rest)
unfolding bool_of
bool_of-ok [] r v rest size h = absurd (omega arith)
bool_of-ok (b ∷ []) r v rest size h = ground (arith, h)
bool_of-ok (b ∷ c ∷ bs) r v rest size h = absurd (omega arith)

pub bool_wire-Lawful : Lawful bool_wire IsAny
unfolding bool_wire
bool_wire-Lawful = record {
  of_put = λ v w w' _ h. ((if v then 1 else 0) ∷ [], sym (ok-injective h), bool-Encodes v);
  of_get = λ b v rest fits h.
      let ((bytes, r), taken, e) = ok-bind {x = take_bytes 1 b} h in
      let (split, size, _) = take_bytes-ok 1 b bytes r taken in
      let (byte, left) = bool_of-ok bytes r v rest size e in
      (tt, ((if v then 1 else 0) ∷ [], split ∙ ap₂ (λ x y. x ++ y) byte left, bool-Encodes v));
}

module _ {A B : Type 0} (c : Wire A) (d : Wire B) where
  pub both-Encodes :
      (a : A) (b : B) (e f : Bytes)
      → Encodes c a e
      → Encodes d b f
      → Encodes (both c d) (a, b) (e ++ f)
  unfolding both
  both-Encodes a b e f p q = record {
    written = λ w. rw (p.written w, q.written (w ++ e), append_assoc);
    read = λ rest. rw (append_assoc, p.read (f ++ rest), q.read rest);
  }

-- The values of a pair, by those of its parts.
abbrev pub Both : {A B : Type 0} → (A → Type 0) → (B → Type 0) → A × B → Type 0
Both P Q (a, b) = P a × Q b

module _ {A B : Type 0} {c : Wire A} {d : Wire B} {P : A → Type 0} {Q : B → Type 0} (p : Lawful c P)
    (q : Lawful d Q) where
  both-put :
      (a : A) (b : B) (w w' : Bytes)
      → P a
      → Q b
      → (both c d).put (a, b) w ≡ ok w'
      → (e : Bytes) × (w' ≡ w ++ e) × Encodes (both c d) (a, b) e
  unfolding both
  both-put a b w w' x y h =
      let (w₁, first, h') = ok-bind {x = c.put a w} h in
      let (e, e_eq, e_law) = p.of_put a w w₁ x first in
      let (f, f_eq, f_law) = q.of_put b w₁ w' y h' in
      (
        e ++ f,
        f_eq ∙ ap (λ t. t ++ f) e_eq ∙ append_assoc w e f,
        both-Encodes c d a b e f e_law f_law,
      )

  both-get :
      (bytes : Bytes) (v : A × B) (rest : Bytes)
      → Fits bytes
      → (both c d).get bytes ≡ ok (v, rest)
      → Both P Q v × ((e : Bytes) × (bytes ≡ e ++ rest) × Encodes (both c d) v e)
  unfolding both
  both-get bytes v rest fits h =
      let ((a, r₁), first, h') = ok-bind {x = c.get bytes} h in
      let ((b, r₂), second, done) = ok-bind {x = d.get r₁} h' in
      let (x, (e, e_eq, e_law)) = p.of_get bytes a r₁ fits first in
      let (y, (f, f_eq, f_law)) = q.of_get r₁ b r₂ (Fits-rest bytes e r₁ e_eq fits) second in
      let same : ((a, b), r₂) ≡ (v, rest) = ok-injective done in
      let v_eq : (a, b) ≡ v = ap (λ t. t.0) same in
      let left : r₂ ≡ rest = ap (λ t. t.1) same in
      (
        subst (Both P Q) v_eq (x, y),
        (
          e ++ f,
          e_eq ∙ ap (λ t. e ++ t) (f_eq ∙ ap (λ t. f ++ t) left) ∙ sym (append_assoc e f rest),
          subst (λ t. Encodes (both c d) t (e ++ f)) v_eq (both-Encodes c d a b e f e_law f_law),
        ),
      )

  pub both-Lawful : Lawful (both c d) (Both P Q)
  both-Lawful = record {
    of_put = λ (a, b) w w' v h. both-put a b w w' v.0 v.1 h;
    of_get = both-get;
  }

read_as-Encodes :
    {A B : Type 0} (f : A → B) (c : Wire A) (a : A) (e rest : Bytes)
    → Encodes c a e
    → read_as f c (e ++ rest) ≡ ok (f a, rest)
read_as-Encodes f c a e rest p = rw (p.read rest) refl

-- What is read under a constructor was read by the codec.
pub read_as-ok :
    {A B : Type 0} {f : A → B} {c : Wire A} {P : A → Type 0} {b : Bytes} {v : B} {rest : Bytes}
    → Lawful c P
    → Fits b
    → read_as f c b ≡ ok (v, rest)
    → (a : A) × (f a ≡ v) × P a × ((e : Bytes) × (b ≡ e ++ rest) × Encodes c a e)
read_as-ok {f} {c} {b} {v} {rest} law fits h =
    let ((a, r), got, done) = ok-bind {x = c.get b} h in
    let same : (f a, r) ≡ (v, rest) = ok-injective done in
    let (x, (e, e_eq, e_law)) = law.of_get b a r fits got in
    let left : r ≡ rest = ap (λ t. t.1) same in
    (a, ap (λ t. t.0) same, x, (e, e_eq ∙ ap (λ t. e ++ t) left, e_law))

module _ {A B : Type 0} {c : Wire A} {P : A → Type 0} (fields : B → A) (build : A → B)
    (back : (b : B) → build (fields b) ≡ b) (forth : (a : A) → fields (build a) ≡ a)
    (law : Lawful c P) where
  via-Encodes : (b : B) (e : Bytes) → Encodes c (fields b) e → Encodes (via fields build c) b e
  unfolding via
  via-Encodes b e p = record {
    written = p.written;
    read = λ rest. read_as-Encodes build c (fields b) e rest p ∙ ap (λ t. ok (t, rest)) (back b);
  }

  pub via-Lawful : Lawful (via fields build c) (λ b. P (fields b))
  unfolding via
  via-Lawful = record {
    of_put = λ b w w' x h.
        let (e, e_eq, e_law) = law.of_put (fields b) w w' x h in (e, e_eq, via-Encodes b e e_law);
    of_get = λ bytes b rest fits h.
        let (a, made, x, (e, e_eq, e_law)) = read_as-ok {f = build} {c = c} law fits h in
        let same : a ≡ fields b = sym (forth a) ∙ ap fields made in
        (subst P same x, (e, e_eq, via-Encodes b e (subst (λ t. Encodes c t e) same e_law)));
  }
