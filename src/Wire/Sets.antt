-- ===== src/Wire/Sets.antt =====
-- Sets on the wire of crates/cc-core/src/v1.rs: at most `MAX_SET` elements in ascending order.
use clockchain.Prelude.{
  ℕ, zero, suc, ◌%◌, ◌^◌, ◌≤◌, ◌≡◌, refl, ap, ◌∙◌, sym, subst, inl, inr, false, List, [], ◌∷◌, ◌++◌,
  append_assoc, append-nil, arith, ltb, Bool-cases, length, All, Bytes, ok, ok-bind, ok-injective,
}
use clockchain.Wire.{
  Hash, Wire, max_set, number, any_descent, put_each, get_each, set_body, set_wire,
}
use clockchain.Wire.Laws.{Fits, Fits-rest, Encodes, Lawful, number-Lawful}
use clockchain.Wire.Containers.{ltb-ge}

-- The elements one after another.
record EncodesEach {A : Type 0} (c : Wire A) (vs : List A) (e : Bytes) : Type 0 where
  written : (w : Bytes) → put_each c vs w ≡ ok (w ++ e)
  read : (rest : Bytes) → get_each c (length vs) (e ++ rest) ≡ ok (vs, rest)

module _ {A : Type 0} (c : Wire A) where
  EncodesEach-nil : EncodesEach c [] []
  unfolding put_each get_each
  EncodesEach-nil = record { written = λ w. ap ok (sym (append-nil w)); read = λ rest. refl }

  EncodesEach-cons :
      (v : A) (vs : List A) (e f : Bytes)
      → Encodes c v e
      → EncodesEach c vs f
      → EncodesEach c (v ∷ vs) (e ++ f)
  unfolding put_each get_each
  EncodesEach-cons v vs e f p q = record {
    written = λ w. rw (p.written w, q.written (w ++ e), append_assoc);
    read = λ rest. rw (append_assoc, p.read (f ++ rest), q.read rest);
  }

module _ {A : Type 0} {c : Wire A} {P : A → Type 0} (law : Lawful c P) where
  put_each_lem :
      (vs : List A) (w w' : Bytes)
      → All P vs
      → put_each c vs w ≡ ok w'
      → (e : Bytes) × (w' ≡ w ++ e) × EncodesEach c vs e
  unfolding put_each
  put_each_lem [] w w' x h = ([], sym (ok-injective h) ∙ sym (append-nil w), EncodesEach-nil c)
  put_each_lem (v ∷ vs) w w' x h =
      let (w₁, first, h') = ok-bind {x = c.put v w} {f = put_each c vs} h in
      let (e, e_eq, e_law) = law.of_put v w w₁ x.0 first in
      let (f, f_eq, f_law) = put_each_lem vs w₁ w' x.1 h' in
      (
        e ++ f,
        f_eq ∙ ap (λ t. t ++ f) e_eq ∙ append_assoc w e f,
        EncodesEach-cons c v vs e f e_law f_law,
      )

  get_each_lem :
      (n : ℕ) (b : Bytes) (vs : List A) (rest : Bytes)
      → Fits b
      → get_each c n b ≡ ok (vs, rest)
      → (length vs ≡ n) × All P vs × ((e : Bytes) × (b ≡ e ++ rest) × EncodesEach c vs e)
  unfolding get_each
  get_each_lem zero b vs rest fits h =
      let same : ([], b) ≡ (vs, rest) = ok-injective h in
      let vs_eq : [] ≡ vs = ap (λ t. t.0) same in
      let left : b ≡ rest = ap (λ t. t.1) same in
      (
        ap length (sym vs_eq),
        subst (All P) vs_eq tt,
        ([], left, subst (λ t. EncodesEach c t []) vs_eq (EncodesEach-nil c)),
      )
  get_each_lem (suc n) b vs rest fits h =
      let ((u, r₁), first, h') = ok-bind {x = c.get b} h in
      let ((us, r₂), others, done) = ok-bind {x = get_each c n r₁} h' in
      let (x, (e, e_eq, e_law)) = law.of_get b u r₁ fits first in
      let (size, xs, (f, f_eq, f_law)) =
        get_each_lem n r₁ us r₂ (Fits-rest b e r₁ e_eq fits) others in
      let same : (u ∷ us, r₂) ≡ (vs, rest) = ok-injective done in
      let vs_eq : u ∷ us ≡ vs = ap (λ t. t.0) same in
      let left : r₂ ≡ rest = ap (λ t. t.1) same in
      (
        ap length (sym vs_eq) ∙ ap suc size,
        subst (All P) vs_eq (x, xs),
        (
          e ++ f,
          e_eq ∙ ap (λ t. e ++ t) (f_eq ∙ ap (λ t. f ++ t) left) ∙ sym (append_assoc e f rest),
          subst (λ t. EncodesEach c t (e ++ f)) vs_eq (EncodesEach-cons c u us e f e_law f_law),
        ),
      )

module _ {A : Type 0} (reference : A → Hash) {c : Wire A} {P : A → Type 0} (law : Lawful c P) where
  set-Encodes :
      (vs : List A) (e f : Bytes)
      → length vs ≤ max_set
      → any_descent reference vs ≡ false
      → Encodes (number 4) (length vs % 2 ^ 32) e
      → EncodesEach c vs f
      → Encodes (set_wire reference c) vs (e ++ f)
  unfolding set_wire set_body
  set-Encodes vs e f small sorted p q =
      let low : length vs % 2 ^ 32 ≡ length vs = omega arith in
      let few : ltb max_set (length vs) ≡ false = ground arith in
      record {
        written = λ w. rw (few, sorted, p.written w, q.written (w ++ e), append_assoc);
        read = λ rest. rw (append_assoc, p.read (f ++ rest), low, few, q.read rest, sorted) refl;
      }

  set-put :
      (vs : List A) (w w' : Bytes)
      → All P vs
      → (set_wire reference c).put vs w ≡ ok w'
      → (e : Bytes) × (w' ≡ w ++ e) × Encodes (set_wire reference c) vs e
  unfolding set_wire
  set-put vs w w' x h = elim (Bool-cases (ltb max_set (length vs))) [
    | inl many ↦ let h' = rw many at h in absurd (ground (arith, h'))
    | inr few ↦ elim (Bool-cases (any_descent reference vs)) [
      | inl descent ↦ let h' = rw (few, descent) at h in absurd (ground (arith, h'))
      | inr sorted ↦
          let h' = rw (few, sorted) at h in
          let (w₁, first, h'') =
            ok-bind {x = (number 4).put (length vs % 2 ^ 32) w} {f = put_each c vs} h' in
          let (e, e_eq, e_law) =
            (number-Lawful 4).of_put (length vs % 2 ^ 32) w w₁ (omega arith) first in
          let (f, f_eq, f_law) = put_each_lem law vs w₁ w' x h'' in
          (
            e ++ f,
            f_eq ∙ ap (λ t. t ++ f) e_eq ∙ append_assoc w e f,
            set-Encodes vs e f (ltb-ge max_set (length vs) few) sorted e_law f_law,
          )
    ]
  ]

  set_body_lem :
      (n : ℕ) (b : Bytes) (vs : List A) (rest : Bytes)
      → Fits b
      → set_body reference c n b ≡ ok (vs, rest)
      → (length vs ≡ n)
        × (n ≤ max_set)
        × (any_descent reference vs ≡ false)
        × All P vs
        × ((e : Bytes) × (b ≡ e ++ rest) × EncodesEach c vs e)
  unfolding set_body
  set_body_lem n b vs rest fits h = elim (Bool-cases (ltb max_set n)) [
    | inl many ↦ let h' = rw many at h in absurd (ground (arith, h'))
    | inr few ↦
        let h' = rw few at h in
        let ((us, r), got, checked) = ok-bind {x = get_each c n b} h' in
        let (size, xs, (e, e_eq, e_law)) = get_each_lem law n b us r fits got in
        elim (Bool-cases (any_descent reference us)) [
          | inl descent ↦ let h'' = rw descent at checked in absurd (ground (arith, h''))
          | inr sorted ↦
              let h'' = rw sorted at checked in
              let same : (us, r) ≡ (vs, rest) = ok-injective h'' in
              let vs_eq : us ≡ vs = ap (λ t. t.0) same in
              let left : r ≡ rest = ap (λ t. t.1) same in
              (
                ap length (sym vs_eq) ∙ size,
                ltb-ge max_set n few,
                ap (any_descent reference) (sym vs_eq) ∙ sorted,
                subst (All P) vs_eq xs,
                (e, e_eq ∙ ap (λ t. e ++ t) left, subst (λ t. EncodesEach c t e) vs_eq e_law),
              )
        ]
  ]

  set-get :
      (b : Bytes) (vs : List A) (rest : Bytes)
      → Fits b
      → (set_wire reference c).get b ≡ ok (vs, rest)
      → All P vs × ((e : Bytes) × (b ≡ e ++ rest) × Encodes (set_wire reference c) vs e)
  unfolding set_wire
  set-get b vs rest fits h =
      let ((n, r), first, h') = ok-bind {x = (number 4).get b} h in
      let (_, (e, e_eq, e_law)) = (number-Lawful 4).of_get b n r fits first in
      let (size, small, sorted, xs, (f, f_eq, f_law)) =
        set_body_lem n r vs rest (Fits-rest b e r e_eq fits) h' in
      let n_eq : n ≡ length vs % 2 ^ 32 = omega (arith, size, small) in
      (
        xs,
        (
          e ++ f,
          e_eq ∙ ap (λ t. e ++ t) f_eq ∙ sym (append_assoc e f rest),
          set-Encodes vs e f (omega (arith, size, small)) sorted
              (subst (λ t. Encodes (number 4) t e) n_eq e_law) f_law,
        ),
      )

  pub set-Lawful : Lawful (set_wire reference c) (All P)
  set-Lawful = record { of_put = set-put; of_get = set-get }

-- What a codec of sets has written is in order and within the bound.
pub set-put_ordered :
    {A : Type 0} (reference : A → Hash) (c : Wire A) (vs : List A) (w w' : Bytes)
    → (set_wire reference c).put vs w ≡ ok w'
    → (any_descent reference vs ≡ false) × (length vs ≤ max_set)
unfolding set_wire
set-put_ordered reference c vs w w' h = elim (Bool-cases (ltb max_set (length vs))) [
  | inl many ↦ let h' = rw many at h in absurd (ground (arith, h'))
  | inr few ↦ elim (Bool-cases (any_descent reference vs)) [
    | inl descent ↦ let h' = rw (few, descent) at h in absurd (ground (arith, h'))
    | inr sorted ↦ (sorted, ltb-ge max_set (length vs) few)
  ]
]
