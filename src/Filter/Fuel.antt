-- ===== src/Filter/Fuel.antt =====
-- The loop of `shortest_distance` in crates/cc-filter/src/reach.rs ends within its bound.
use clockchain.Prelude.{
  is_empty, ℕ, zero, suc, ◌+◌, ◌≤◌, ◌≡◌, refl, ap, ◌⊎◌, inl, inr, Bool, false, not, ◌&&◌, Option,
  none, some, arith, ltb, leb, if◌then◌else◌, length, Result, ok, err, ok-bind, ok-injective,
  Bool-cases,
}
use clockchain.Filter.{Tick, ViewError, CorpusView}
use clockchain.Filter.Reach.{met, Search, expand, advance, search_loop}

Result-cases {ℓ κ} :
    {A : Type ℓ} {E : Type κ} (r : Result A E) → ((a : A) × (r ≡ ok a)) ⊎ ((e : E) × (r ≡ err e))
Result-cases (ok a) = inl (a, refl)
Result-cases (err e) = inr (e, refl)

module _ (v : CorpusView) where
  -- A round adds one to the depths.
  advance-depth :
      (s : Search) (t : Tick) (s' : Search)
      → advance v s t ≡ ok s'
      → s'.depth_f + s'.depth_b ≡ s.depth_f + s.depth_b + 1
  unfolding advance
  advance-depth s t s' h = elim (Bool-cases (leb (length s.frontier_f) (length s.frontier_b))) [
    | inl forward ↦
        let h' = rw forward at h in
        let (l, hl, e) = ok-bind {x = expand v s.frontier_f s.dist_f (s.depth_f + 1) t} h' in
        let e' : record s { dist_f = l.0; frontier_f = l.1; depth_f = s.depth_f + 1 } ≡ s' =
          ok-injective e in
        let f = ap (λ (x : Search). x.depth_f) e' in
        let b = ap (λ (x : Search). x.depth_b) e' in omega arith
    | inr backward ↦
        let h' = rw backward at h in
        let (l, hl, e) = ok-bind {x = expand v s.frontier_b s.dist_b (s.depth_b + 1) t} h' in
        let e' : record s { dist_b = l.0; frontier_b = l.1; depth_b = s.depth_b + 1 } ≡ s' =
          ok-injective e in
        let f = ap (λ (x : Search). x.depth_f) e' in
        let b = ap (λ (x : Search). x.depth_b) e' in omega arith
  ]

  -- Fuel for the rounds that the bound leaves to the two depths is enough: more of it changes nothing
  -- in what the loop returns, so that the loop ends by its own test.
  pub search_loop-enough :
      (fuel more : ℕ) (s : Search) (k_hops : ℕ) (t : Tick)
      → k_hops ≤ s.depth_f + s.depth_b + fuel
      → search_loop v (fuel + more) s k_hops t ≡ search_loop v fuel s k_hops t
  unfolding search_loop
  search_loop-enough zero zero s k t le = refl
  search_loop-enough zero (suc more) s k t le =
      let stop : ltb (s.depth_f + s.depth_b) k ≡ false = ground (arith, le) in
      let shift : zero + suc more ≡ suc more = omega arith in rw (shift, stop) refl
  search_loop-enough (suc fuel) more s k t le =
      let test : Bool =
        ltb (s.depth_f + s.depth_b) k
        && not (is_empty s.frontier_f)
        && not (is_empty s.frontier_b) in
      let shift : suc fuel + more ≡ suc (fuel + more) = omega arith in
      rw shift (elim (Bool-cases test) [
        | inr stop ↦ rw stop refl
        | inl go ↦ elim (Result-cases (advance v s t)) [
          | inr (e, fails) ↦ rw (go, fails) refl
          | inl (s', steps) ↦
              let deeper = advance-depth s t s' steps in
              let ih = search_loop-enough fuel more s' k t (omega arith) in
              rw (go, steps)
                (ap
                  (λ x. elim (met s'.dist_f s'.dist_b) as (λ _. Result (Option ℕ) ViewError) [
                    | none ↦ x
                    | some d ↦ ok (if leb d k then some d else none)
                  ])
                  ih)
        ]
      ])
