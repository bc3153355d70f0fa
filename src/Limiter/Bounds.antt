-- ===== src/Limiter/Bounds.antt =====
-- The constants of a limiter, and the bound on its table (crates/cc-gateway/src/limit.rs).
use native.Mathlib.Nat.{mod-lt, div-add-mod}
use clockchain.Prelude.{
  ℕ, suc, ◌+◌, ◌-◌, ◌*◌, ◌/◌, ◌%◌, ◌≤◌, ◌<◌, ◌≡◌, ◌⊎◌, inl, inr, zero, max, true, false, not, ◌&&◌,
  arith, ltb, leb, Bool-cases, length, err,
}
use clockchain.Prelude.Table.{
  retain, contains_key, IsDistinct, insert-IsDistinct, retain-IsDistinct, length-insert,
  length-retain-le,
}
use clockchain.Limiter.{
  IpAddr, ip_key, Limiter, client_key, div_ceil, with_capacity, schedule, meter, check_at,
}

div_ceil-bounds : (a b : ℕ) → 0 < b → (a ≤ div_ceil a b * b) × (div_ceil a b * b < a + b)
unfolding div_ceil
div_ceil-bounds a b h =
    let x = a + (b - 1) in
    let e : b * (x / b) + x % b ≡ x = div-add-mod x b in
    let l : x % b < b = mod-lt x h in (omega arith, omega arith)

-- One request costs the least whole number of nanoseconds of which `rate` fill a minute, and the
-- tolerance is the cost of a burst less one request.
pub with_capacity-interval :
    (rate cap : ℕ)
    → 0 < rate
    → (60_000_000_000 ≤ (with_capacity rate cap).interval * rate)
      × ((with_capacity rate cap).interval * rate < 60_000_000_000 + rate)
      × ((with_capacity rate cap).tolerance + (with_capacity rate cap).interval
          ≡ (with_capacity rate cap).interval * rate)
unfolding with_capacity
with_capacity-interval rate cap h =
    let e : max rate 1 ≡ rate = omega arith in
    let (lo, hi) = div_ceil-bounds 60_000_000_000 rate h in
    rw e (lo, hi, cost (div_ceil 60_000_000_000 rate) rate h)
  where
    cost : (i r : ℕ) → 0 < r → i * (r - 1) + i ≡ i * r
    cost i zero p = absurd (omega arith)
    cost i (suc r) p = let e : suc r - 1 ≡ r = omega arith in rw e (omega arith)

-- No client stands twice in the table, and no more clients than allowed.
pub record IsBounded (l : Limiter) : Type 0 where
  pub distinct : IsDistinct l.tat
  pub bounded : length l.tat ≤ l.max_tracked

pub with_capacity-IsBounded : (rate cap : ℕ) → IsBounded (with_capacity rate cap)
unfolding with_capacity
with_capacity-IsBounded rate cap = record { distinct = tt; bounded = omega arith }

meter-IsBounded :
    (l : Limiter) (key : IpAddr) (now : ℕ)
    → IsBounded l
    → (contains_key key l.tat ≡ true) ⊎ (length l.tat < l.max_tracked)
    → IsBounded (meter l key now).0
unfolding meter
meter-IsBounded l key now h room =
    elim (Bool-cases (ltb l.tolerance (schedule l.tat key now - now))) [
      | inl late ↦ rw late h
      | inr early ↦
          let tat = schedule l.tat key now + l.interval in
          rw early (record {
            distinct = insert-IsDistinct key tat l.tat h.distinct;
            bounded = ground (arith, length-insert key tat l.tat, h.bounded);
          })
    ]

-- The limiter after `table.retain(|_, tat| *tat > now)`.
abbrev pub pruned : Limiter → ℕ → Limiter
pruned l now = record l { tat = retain (λ tat. ltb now tat) l.tat }

-- The three ways through `check_at`: a client with a place is metered, a full table is pruned first,
-- and a new client is refused if that makes no room.
pub data Way (l : Limiter) (ip : IpAddr) (now : ℕ) : Type 0 where
  placed :
      (contains_key (client_key ip) l.tat ≡ true) ⊎ (length l.tat < l.max_tracked)
      → check_at l ip now ≡ meter l (client_key ip) now
      → Way l ip now
  made_room :
      contains_key (client_key ip) l.tat ≡ false
      → length (pruned l now).tat < l.max_tracked
      → check_at l ip now ≡ meter (pruned l now) (client_key ip) now
      → Way l ip now
  full :
      contains_key (client_key ip) l.tat ≡ false
      → l.max_tracked ≤ length (pruned l now).tat
      → check_at l ip now ≡ (pruned l now, err l.interval)
      → Way l ip now

pub way : (l : Limiter) (ip : IpAddr) (now : ℕ) → Way l ip now
unfolding check_at
way l ip now =
    elim (Bool-cases
      (not (contains_key (client_key ip) l.tat) && leb l.max_tracked (length l.tat))) [
        | inr room ↦ placed (ground arith) (rw room)
        | inl crowded ↦ elim (Bool-cases (leb l.max_tracked (length (pruned l now).tat))) [
          | inl still ↦ full (ground arith) (ground arith) (rw (crowded, still))
          | inr gone ↦ made_room (ground arith) (ground arith) (rw (crowded, gone))
        ]
      ]

pruned-IsBounded : (l : Limiter) (now : ℕ) → IsBounded l → IsBounded (pruned l now)
pruned-IsBounded l now h = record {
  distinct = retain-IsDistinct (λ tat. ltb now tat) l.tat h.distinct;
  bounded = omega (arith, length-retain-le (λ tat. ltb now tat) l.tat, h.bounded);
}

-- A call keeps the table within its bound and each client in it once, whoever calls and whenever.
pub check_at-IsBounded :
    (l : Limiter) (ip : IpAddr) (now : ℕ) → IsBounded l → IsBounded (check_at l ip now).0
check_at-IsBounded l ip now h = elim (way l ip now) [
  | placed room e ↦ rw e (meter-IsBounded l (client_key ip) now h room)
  | made_room new room e ↦
      rw e
        (meter-IsBounded (pruned l now) (client_key ip) now (pruned-IsBounded l now h) (inr room))
  | full new crowded e ↦ rw e (pruned-IsBounded l now h)
]
