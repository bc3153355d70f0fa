-- ===== src/Wire/Containers.antt =====
-- Strings, options, sets and tags on the wire of crates/cc-core/src/v1.rs.
use clockchain.Prelude.{
  ℕ, ◌%◌, ◌^◌, ◌≤◌, ◌<◌, ◌≡◌, refl, ap, ap₂, ◌∙◌, sym, subst, inl, inr, true, false, Option, none,
  some, ◌++◌, append_assoc, arith, ltb, Bool-cases, Option-cases, length, length-append, Bytes, ok,
  ok-bind, ok-injective,
}
use clockchain.Wire.{
  Wire, max_envelope, take_bytes, number, bool_wire, is_utf8, string_wire, option_put, option_wire,
  tags,
}
use clockchain.Wire.Laws.{
  Fits, Fits-rest, Encodes, Lawful, take_bytes-append, take_bytes-ok, number-Lawful, IsAny,
  bool_wire-Lawful, read_as-ok,
}

-- A string of Rust.
abbrev pub IsText : Bytes → Type 0
IsText s = is_utf8 s ≡ true

string-Encodes :
    (s e : Bytes)
    → length s ≤ max_envelope
    → is_utf8 s ≡ true
    → Encodes (number 4) (length s % 2 ^ 32) e
    → Encodes string_wire s (e ++ s)
unfolding string_wire
string-Encodes s e short text p =
    let low : length s % 2 ^ 32 ≡ length s = omega arith in
    let fits : ltb max_envelope (length s) ≡ false = ground arith in
    record {
      written = λ w. rw (fits, p.written w, append_assoc);
      read = λ rest. rw (
        append_assoc,
        p.read (s ++ rest),
        take_bytes-append (length s % 2 ^ 32) s rest (sym low),
        text,
      );
    }

low_width : (s : Bytes) → length s % 2 ^ 32 < 256 ^ 4
low_width s = omega arith

pub ltb-ge : (a b : ℕ) → ltb a b ≡ false → b ≤ a
ltb-ge a b h = ground (arith, h)

string-put :
    (s w w' : Bytes)
    → IsText s
    → string_wire.put s w ≡ ok w'
    → (e : Bytes) × (w' ≡ w ++ e) × Encodes string_wire s e
unfolding string_wire
string-put s w w' text h = elim (Bool-cases (ltb max_envelope (length s))) [
  | inl long ↦ let h' = rw long at h in absurd (ground (arith, h'))
  | inr short ↦
      let h' = rw short at h in
      let (w₁, first, done) = ok-bind {x = (number 4).put (length s % 2 ^ 32) w} h' in
      let (e, e_eq, e_law) =
        (number-Lawful 4).of_put (length s % 2 ^ 32) w w₁ (low_width s) first in
      let whole : w₁ ++ s ≡ w' = ok-injective done in
      (
        e ++ s,
        sym whole ∙ ap (λ t. t ++ s) e_eq ∙ append_assoc w e s,
        string-Encodes s e (ltb-ge max_envelope (length s) short) text e_law,
      )
]

-- The length in front of a string that was read.
string_tag :
    (n : ℕ) (bytes s r₁ r₂ : Bytes)
    → length bytes ≡ n
    → r₁ ≡ bytes ++ r₂
    → bytes ≡ s
    → length r₁ ≤ max_envelope
    → (n ≡ length s % 2 ^ 32) × (length s ≤ max_envelope)
string_tag n bytes s r₁ r₂ size split s_eq short =
    let total = length-append bytes r₂ in
    (omega (arith, ap length s_eq, ap length split), omega (arith, ap length s_eq, ap length split))

string-get :
    (b s rest : Bytes)
    → Fits b
    → string_wire.get b ≡ ok (s, rest)
    → IsText s × ((e : Bytes) × (b ≡ e ++ rest) × Encodes string_wire s e)
unfolding string_wire
string-get b s rest fits h =
    let ((n, r₁), first, h') = ok-bind {x = (number 4).get b} h in
    let ((bytes, r₂), taken, h'') = ok-bind {x = take_bytes n r₁} h' in
    let (_, (e, e_eq, e_law)) = (number-Lawful 4).of_get b n r₁ fits first in
    let (split, size, _) = take_bytes-ok n r₁ bytes r₂ taken in
    let short = (Fits-rest b e r₁ e_eq fits).1 in
    elim (Bool-cases (is_utf8 bytes)) [
      | inl text ↦
          let done = rw text at h'' in
          let same : (bytes, r₂) ≡ (s, rest) = ok-injective done in
          let s_eq : bytes ≡ s = ap (λ t. t.0) same in
          let left : r₂ ≡ rest = ap (λ t. t.1) same in
          let (n_eq, bound) = string_tag n bytes s r₁ r₂ size split s_eq short in
          (
            rw (← s_eq) text,
            (
              e ++ s,
              e_eq
                  ∙ ap (λ t. e ++ t) (split ∙ ap₂ (λ x y. x ++ y) s_eq left)
                  ∙ sym (append_assoc e s rest),
              string-Encodes s e bound (rw (← s_eq) text)
                  (subst (λ t. Encodes (number 4) t e) n_eq e_law),
            ),
          )
      | inr bad ↦ let done = rw bad at h'' in absurd (ground (arith, done))
    ]

pub string_wire-Lawful : Lawful string_wire IsText
string_wire-Lawful = record { of_put = string-put; of_get = string-get }

module _ {A : Type 0} (tag : A → ℕ) (variant : ℕ → Option A) where
  tags-Encodes :
      (v : A) (e : Bytes)
      → variant (tag v) ≡ some v
      → Encodes (number 2) (tag v) e
      → Encodes (tags tag variant) v e
  unfolding tags
  tags-Encodes v e known p = record { written = p.written; read = λ rest. rw (p.read rest, known) }

  pub tags-Lawful :
      ((v : A) → variant (tag v) ≡ some v)
      → ((v : A) → tag v < 65536)
      → ((t : ℕ) (v : A) → variant t ≡ some v → tag v ≡ t)
      → Lawful (tags tag variant) IsAny
  unfolding tags
  tags-Lawful known small only = record {
    of_put = λ v w w' _ h.
        let (e, e_eq, e_law) = (number-Lawful 2).of_put (tag v) w w' (small v) h in
        (e, e_eq, tags-Encodes v e (known v) e_law);
    of_get = λ b v rest fits h.
        let ((t, r), first, h') = ok-bind {x = (number 2).get b} h in
        let (bound, (e, e_eq, e_law)) = (number-Lawful 2).of_get b t r fits first in
        elim (Option-cases (variant t)) [
          | inl unknown ↦ let h'' = rw unknown at h' in absurd (ground (arith, h''))
          | inr (u, found) ↦
              let h'' = rw found at h' in
              let same : (u, r) ≡ (v, rest) = ok-injective h'' in
              let u_eq : u ≡ v = ap (λ t. t.0) same in
              let left : r ≡ rest = ap (λ t. t.1) same in
              let t_eq : t ≡ tag v = sym (only t u found) ∙ ap tag u_eq in
              (
                tt,
                (
                  e,
                  e_eq ∙ ap (λ t. e ++ t) left,
                  tags-Encodes v e (known v) (subst (λ t. Encodes (number 2) t e) t_eq e_law),
                ),
              )
        ];
  }

abbrev pub Optional : {A : Type 0} → (A → Type 0) → Option A → Type 0
Optional P none = Unit {0}
Optional P (some v) = P v

module _ {A : Type 0} {c : Wire A} {P : A → Type 0} (law : Lawful c P) where
  option-Encodes-none : (e : Bytes) → Encodes bool_wire false e → Encodes (option_wire c) none e
  unfolding option_wire option_put
  option-Encodes-none e p = record { written = p.written; read = λ rest. rw (p.read rest) refl }

  option-Encodes-some :
      (v : A) (e f : Bytes)
      → Encodes bool_wire true e
      → Encodes c v f
      → Encodes (option_wire c) (some v) (e ++ f)
  unfolding option_wire option_put
  option-Encodes-some v e f p q = record {
    written = λ w. rw (p.written w, q.written (w ++ e), append_assoc);
    read = λ rest. rw (append_assoc, p.read (f ++ rest), q.read rest) refl;
  }

  option_put_lem :
      (v : Option A) (w w' : Bytes)
      → Optional P v
      → option_put c v w ≡ ok w'
      → (e : Bytes) × (w' ≡ w ++ e) × Encodes (option_wire c) v e
  unfolding option_put
  option_put_lem none w w' x h =
      let (e, e_eq, e_law) = bool_wire-Lawful.of_put false w w' tt h in
      (e, e_eq, option-Encodes-none e e_law)
  option_put_lem (some v) w w' x h =
      let (w₁, first, h') = ok-bind {x = bool_wire.put true w} {f = c.put v} h in
      let (e, e_eq, e_law) = bool_wire-Lawful.of_put true w w₁ tt first in
      let (f, f_eq, f_law) = law.of_put v w₁ w' x h' in
      (
        e ++ f,
        f_eq ∙ ap (λ t. t ++ f) e_eq ∙ append_assoc w e f,
        option-Encodes-some v e f e_law f_law,
      )

  option-get :
      (b : Bytes) (v : Option A) (rest : Bytes)
      → Fits b
      → (option_wire c).get b ≡ ok (v, rest)
      → Optional P v × ((e : Bytes) × (b ≡ e ++ rest) × Encodes (option_wire c) v e)
  unfolding option_wire
  option-get b v rest fits h =
      let ((present, r), first, h') = ok-bind {x = bool_wire.get b} h in
      let (_, (e, e_eq, e_law)) = bool_wire-Lawful.of_get b present r fits first in
      let fits' = Fits-rest b e r e_eq fits in
      elim (Bool-cases present) [
        | inl there ↦
            let h'' = rw there at h' in
            let (a, made, x, (f, f_eq, f_law)) = read_as-ok {f = some} {c = c} law fits' h'' in
            let both =
              option-Encodes-some a e f (subst (λ t. Encodes bool_wire t e) there e_law) f_law in
            (
              subst (Optional P) made x,
              (
                e ++ f,
                e_eq ∙ ap (λ t. e ++ t) f_eq ∙ sym (append_assoc e f rest),
                subst (λ t. Encodes (option_wire c) t (e ++ f)) made both,
              ),
            )
        | inr absent ↦
            let h'' = rw absent at h' in
            let same : (none, r) ≡ (v, rest) = ok-injective h'' in
            let v_eq : none ≡ v = ap (λ t. t.0) same in
            let left : r ≡ rest = ap (λ t. t.1) same in
            let law = option-Encodes-none e (subst (λ t. Encodes bool_wire t e) absent e_law) in
            (
              subst (Optional P) v_eq tt,
              (e, e_eq ∙ ap (λ t. e ++ t) left, subst (λ t. Encodes (option_wire c) t e) v_eq law),
            )
      ]

  pub option-Lawful : Lawful (option_wire c) (Optional P)
  unfolding option_wire
  option-Lawful = record { of_put = option_put_lem; of_get = option-get }
