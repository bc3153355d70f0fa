-- ===== src/Filter/Labels.antt =====
-- The distance labels of crates/cc-filter/src/reach.rs: only the start of a side has the label zero.
use clockchain.Prelude.{
  is_empty, ℕ, zero, suc, ◌+◌, ◌≤◌, ◌≡◌, ◌≢◌, inl, inr, refl, sym, ◌∙◌, subst, Bool, not, ◌&&◌,
  none, some, List, [], ◌∷◌, ltb, leb, ◌==◌, length, arith, All, ok, nat_key, ok-bind, Bool-cases,
  Option-cases,
}
use clockchain.Prelude.Table.{lookup}
use clockchain.Prelude.Ordered.{set_insert, map_insert}
use clockchain.Filter.{Tick, EntityId, Edge, CorpusView}
use clockchain.Filter.Reach.{
  canonical, Labels, Level, label_edges, label_level, met, Search, expand, advance, search_loop,
  labels_loop, backward_labels,
}

-- Only `x` is labelled with zero.
abbrev pub ZeroAt : EntityId → Labels → Type 0
ZeroAt x dist = All (λ (p : EntityId × ℕ). p.1 ≡ 0 → p.0 ≡ x) dist

pub ZeroAt-lookup :
    (x e : EntityId) (dist : Labels) → ZeroAt x dist → lookup e dist ≡ some 0 → e ≡ x
unfolding lookup
ZeroAt-lookup x e [] z h = absurd (ground arith)
ZeroAt-lookup x e ((j, w) ∷ m) z h =
    let rest = ZeroAt-lookup x e m z.1 in let here = z.0 in ground (arith, rest, here)

map_insert-ZeroAt :
    (x e : EntityId) (d : ℕ) (dist : Labels)
    → 1 ≤ d
    → ZeroAt x dist
    → ZeroAt x (map_insert e d dist)
unfolding map_insert
map_insert-ZeroAt x e d [] le z = ((λ h. absurd (omega arith)), tt)
map_insert-ZeroAt x e d ((j, w) ∷ m) le z = elim (Bool-cases (ltb e j)) [
  | inl lt ↦ rw lt ((λ h. absurd (omega arith)), z)
  | inr ge ↦ elim (Bool-cases (e == j)) [
    | inl eq ↦ rw (ge, eq) ((λ h. absurd (omega arith)), z.1)
    | inr ne ↦ rw (ge, ne) (z.0, map_insert-ZeroAt x e d m le z.1)
  ]
]

label_edges-ZeroAt :
    (x : EntityId) (d : ℕ) (edges : List Edge) (dist : Labels) (next : List EntityId)
    → 1 ≤ d
    → ZeroAt x dist
    → ZeroAt x (label_edges d edges (dist, next)).0
unfolding label_edges
label_edges-ZeroAt x d [] dist next le z = z
label_edges-ZeroAt x d (e ∷ es) dist next le z = elim (Option-cases (lookup e.other dist)) [
  | inl no_label ↦
      rw (no_label, label_edges)
        (label_edges-ZeroAt x d es (map_insert e.other d dist) (set_insert e.other next) le
          (map_insert-ZeroAt x e.other d dist le z))
  | inr (w, label) ↦ rw (label, label_edges) (label_edges-ZeroAt x d es dist next le z)
]

label_level-ZeroAt :
    (x : EntityId) (d : ℕ) (fetched : List (EntityId × List Edge)) (es : List EntityId)
    (dist : Labels) (next : List EntityId)
    → 1 ≤ d
    → ZeroAt x dist
    → ZeroAt x (label_level d fetched es (dist, next)).0
unfolding label_level
label_level-ZeroAt x d fetched [] dist next le z = z
label_level-ZeroAt x d fetched (e ∷ es) dist next le z = label_level-ZeroAt x d fetched es _ _ le (
    label_edges-ZeroAt x d (canonical (elim (lookup e fetched) [ none ↦ [] | some edges ↦ edges ]))
      dist next le z)

-- The least sum is not zero when the two sides start apart.
met-pos :
    (x y : EntityId) (dist_f dist_b : Labels) (d : ℕ)
    → x ≢ y
    → ZeroAt x dist_f
    → ZeroAt y dist_b
    → met dist_f dist_b ≡ some d
    → 1 ≤ d
unfolding met
met-pos x y [] dist_b d ne zf zb h = absurd (ground arith)
met-pos x y ((e, df) ∷ m) dist_b d ne zf zb h =
    let back = ZeroAt-lookup y e dist_b zb in
    let here = zf.0 in
    let rest : (c : ℕ) → met m dist_b ≡ some c → 1 ≤ c = λ c. met-pos x y m dist_b c ne zf.1 zb in
    elim (Option-cases (lookup e dist_b)) [
      | inl no_label ↦ rest d (ground (arith, no_label, h))
      | inr (zero, label) ↦
          let e_y = back label in
          let apart : df ≢ 0 = λ z. ne (sym (here z) ∙ e_y) in
          elim (Option-cases (met m dist_b)) [
            | inl no_met ↦ ground (arith, label, no_met, h, apart)
            | inr (c, e_c) ↦ let le = rest c e_c in ground (arith, label, e_c, h, apart, le)
          ]
      | inr (suc db, label) ↦ elim (Option-cases (met m dist_b)) [
        | inl no_met ↦ ground (arith, label, no_met, h)
        | inr (c, e_c) ↦ let le = rest c e_c in ground (arith, label, e_c, h, le)
      ]
    ]

step_pos : (n : ℕ) → 1 ≤ n + 1
step_pos n = omega arith

module _ (v : CorpusView) where
  pub expand-ZeroAt :
      (x : EntityId) (frontier : List EntityId) (dist : Labels) (d : ℕ) (t : Tick) (l : Level)
      → 1 ≤ d
      → ZeroAt x dist
      → expand v frontier dist d t ≡ ok l
      → ZeroAt x l.0
  unfolding expand
  expand-ZeroAt x frontier dist d t l le z h =
      let (fetched, hf, hl) =
        ok-bind {x = v.neighbors_many frontier t}
          {f = λ fetched. ok (label_level d fetched frontier (dist, []))} h in
      let e : label_level d fetched frontier (dist, []) ≡ l = ground arith in
      subst (λ (r : Level). ZeroAt x r.0) e (label_level-ZeroAt x d fetched frontier dist [] le z)

  -- What holds of the search from `x` and `y` at every round.
  abbrev Apart : EntityId → EntityId → Search → Type 0
  Apart x y s = ZeroAt x s.dist_f × ZeroAt y s.dist_b

  advance-Apart :
      (x y : EntityId) (s : Search) (t : Tick) (s' : Search)
      → Apart x y s
      → advance v s t ≡ ok s'
      → Apart x y s'
  unfolding advance
  advance-Apart x y s t s' (zf, zb) h =
      elim (Bool-cases (leb (length s.frontier_f) (length s.frontier_b))) [
        | inl forward ↦
            let h' = rw forward at h in
            let (l, hl, e) = ok-bind h' in
            let e' : s' ≡ record s { dist_f = l.0; frontier_f = l.1; depth_f = s.depth_f + 1 } =
              ground arith in
            subst (Apart x y) (sym e') (
              expand-ZeroAt x s.frontier_f s.dist_f (s.depth_f + 1) t l (step_pos s.depth_f) zf hl,
              zb,
            )
        | inr backward ↦
            let h' = rw backward at h in
            let (l, hl, e) = ok-bind h' in
            let e' : s' ≡ record s { dist_b = l.0; frontier_b = l.1; depth_b = s.depth_b + 1 } =
              ground arith in
            subst (Apart x y) (sym e') (
              zf,
              expand-ZeroAt y s.frontier_b s.dist_b (s.depth_b + 1) t l (step_pos s.depth_b) zb hl,
            )
      ]

  pub search_loop-bounds :
      (x y : EntityId) (fuel : ℕ) (s : Search) (k : ℕ) (t : Tick) (d : ℕ)
      → x ≢ y
      → Apart x y s
      → search_loop v fuel s k t ≡ ok (some d)
      → (1 ≤ d) × (d ≤ k)
  unfolding search_loop
  search_loop-bounds x y zero s k t d ne apart h = absurd (ground arith)
  search_loop-bounds x y (suc fuel) s k t d ne apart h =
      let test : Bool =
        ltb (s.depth_f + s.depth_b) k
        && not (is_empty s.frontier_f)
        && not (is_empty s.frontier_b) in
      elim (Bool-cases test) [
        | inr stop ↦ absurd (let h' = rw stop at h in ground (arith, h'))
        | inl more ↦
            let h' = rw more at h in
            let (s', hs, rest) = ok-bind h' in
            let apart' = advance-Apart x y s t s' apart hs in
            elim (Option-cases (met s'.dist_f s'.dist_b)) [
              | inl no_met ↦
                  let rest' = rw no_met at rest in
                  search_loop-bounds x y fuel s' k t d ne apart' rest'
              | inr (c, e) ↦
                  let rest' = rw e at rest in
                  let pos = met-pos x y s'.dist_f s'.dist_b c ne apart'.0 apart'.1 e in
                  (ground (arith, rest', pos), ground (arith, rest'))
            ]
      ]

  labels_loop-ZeroAt :
      (x : EntityId) (rounds level : ℕ) (frontier : List EntityId) (dist : Labels) (t : Tick)
      (back : Labels)
      → 1 ≤ level
      → ZeroAt x dist
      → labels_loop v rounds level frontier dist t ≡ ok back
      → ZeroAt x back
  unfolding labels_loop
  labels_loop-ZeroAt x zero level frontier dist t back le z h =
      let e : dist ≡ back = ground arith in subst (ZeroAt x) e z
  labels_loop-ZeroAt x (suc rounds) level frontier dist t back le z h =
      elim (Bool-cases (is_empty frontier)) [
        | inl empty ↦
            let h' = rw empty at h in
            let e : dist ≡ back = ground (arith, h') in subst (ZeroAt x) e z
        | inr more ↦
            let h' = rw more at h in
            let (l, hl, rest) = ok-bind h' in
            labels_loop-ZeroAt x rounds (level + 1) l.1 l.0 t back (let le' = le in omega arith)
              (expand-ZeroAt x frontier dist level t l le z hl) rest
      ]

  pub backward_labels-ZeroAt :
      (target : EntityId) (depth : ℕ) (t : Tick) (back : Labels)
      → backward_labels v target depth t ≡ ok back
      → ZeroAt target back
  unfolding backward_labels
  backward_labels-ZeroAt target depth t back h =
      labels_loop-ZeroAt target depth 1 (target ∷ []) ((target, 0) ∷ []) t back (omega arith)
        ((λ z. refl), tt) h
