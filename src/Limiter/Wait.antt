-- ===== src/Limiter/Wait.antt =====
-- The waiting time of a refusal, and the burst (crates/cc-gateway/src/limit.rs).
use native.Mathlib.Nat.{mul-le-mul_right}
use clockchain.Prelude.{
  ℕ, zero, suc, ◌+◌, ◌-◌, ◌*◌, ◌≤◌, ◌<◌, ◌≡◌, ap, ◌∙◌, ◌≢◌, ◌↔◌, ◌⊎◌, inl, inr, refl, none, min,
  true, false, arith, ltb, Bool-cases, length, replicate, ok, err,
}
use clockchain.Prelude.Table.{insert, contains_key, lookup, lookup-insert_self, lookup-retain-none}
use clockchain.Limiter.{
  IpAddr, ip_key, ip_eq_iff, Limiter, client_key, with_capacity, schedule, meter, check_at,
}
use clockchain.Limiter.Bounds.{with_capacity-interval, pruned, placed, made_room, full, way}
use clockchain.Limiter.Isolation.{is_ok}
use clockchain.Limiter.Window.{admitted}

meter-admits :
    (l : Limiter) (key : IpAddr) (now : ℕ)
    → schedule l.tat key now ≤ now + l.tolerance
    → meter l key now
      ≡ (record l { tat = insert key (schedule l.tat key now + l.interval) l.tat }, ok tt)
unfolding meter
meter-admits l key now h = ground arith

meter-refuses :
    (l : Limiter) (key : IpAddr) (now : ℕ)
    → now + l.tolerance < schedule l.tat key now
    → meter l key now ≡ (l, err (schedule l.tat key now - now - l.tolerance))
unfolding meter
meter-refuses l key now h = ground arith

check_at-placed :
    (l : Limiter) (ip : IpAddr) (now : ℕ)
    → (contains_key (client_key ip) l.tat ≡ true) ⊎ (length l.tat < l.max_tracked)
    → check_at l ip now ≡ meter l (client_key ip) now
unfolding check_at
check_at-placed l ip now h = ground arith

absent-pruned :
    (l : Limiter) (ip : IpAddr) (now : ℕ)
    → contains_key (client_key ip) l.tat ≡ false
    → contains_key (client_key ip) (pruned l now).tat ≡ false
absent-pruned l ip now new =
    let absent : lookup (client_key ip) l.tat ≡ none = ground arith in
    let gone = lookup-retain-none (λ tat. ltb now tat) (client_key ip) l.tat absent in
    rw (gone, contains_key) refl

-- A client that is not in the table is never too early.
meter-newcomer :
    (l : Limiter) (key : IpAddr) (now wait : ℕ)
    → contains_key key l.tat ≡ false
    → (meter l key now).1 ≢ err wait
meter-newcomer l key now wait new h =
    let absent : lookup key l.tat ≡ none = ground arith in
    let admits = meter-admits l key now (rw (absent, schedule) (omega arith)) in
    let h' = rw admits at h in absurd (ground arith)

-- Refused for coming too early: the wait is exact, and nothing changes.
abbrev pub TooEarly : Limiter → IpAddr → ℕ → ℕ → ℕ → Type 0
TooEarly l ip now wait later =
    (contains_key (client_key ip) l.tat ≡ true)
    × (0 < wait)
    × ((check_at l ip now).0 ≡ l)
    × ((is_ok (check_at l ip later).1 ≡ true) ↔ (now + wait ≤ later))

-- Turned away from a table that is full of clients with a schedule ahead: the wait is one interval,
-- and the idle clients are dropped.
abbrev pub TurnedAway : Limiter → IpAddr → ℕ → ℕ → Type 0
TurnedAway l ip now wait =
    (contains_key (client_key ip) l.tat ≡ false)
    × (l.max_tracked ≤ length (pruned l now).tat)
    × (wait ≡ l.interval)
    × ((check_at l ip now).0 ≡ pruned l now)

check_at-early :
    (l : Limiter) (ip : IpAddr) (now wait later : ℕ)
    → contains_key (client_key ip) l.tat ≡ true
    → (check_at l ip now).1 ≡ err wait
    → now ≤ later
    → TooEarly l ip now wait later
unfolding meter
check_at-early l ip now wait later k h le =
    let first = check_at-placed l ip now (inl k) in
    let second = check_at-placed l ip later (inl k) in
    let h' = rw first at h in
    rw (first, second) (k, ground arith, ground arith, (λ v. ground arith, λ v. ground arith))

-- A request is refused in two ways. Either the client is in the table and comes too early: then it
-- is told exactly how long to wait, a positive time after which its next request, if it comes first,
-- is admitted and before which it is not, and the limiter does not change. Or the client is not in
-- the table, which is full even without its idle clients: then it is told to wait one interval, and
-- the idle clients are dropped.
pub check_at-wait :
    (l : Limiter) (ip : IpAddr) (now wait later : ℕ)
    → (check_at l ip now).1 ≡ err wait
    → now ≤ later
    → TooEarly l ip now wait later ⊎ TurnedAway l ip now wait
check_at-wait l ip now wait later h le = elim (Bool-cases (contains_key (client_key ip) l.tat)) [
  | inl known ↦ inl (check_at-early l ip now wait later known h le)
  | inr new ↦ elim (way l ip now) [
    | placed room e ↦
        let h' = rw e at h in absurd (meter-newcomer l (client_key ip) now wait new h')
    | made_room _ room e ↦
        let h' = rw e at h in
        let absent = absent-pruned l ip now new in
        absurd (meter-newcomer (pruned l now) (client_key ip) now wait absent h')
    | full _ crowded e ↦ let h' = rw e at h in inr (new, crowded, ground arith, rw e refl)
  ]
]

-- The burst, from any point of a client's schedule that is `used` intervals ahead of now.
admitted-replicate :
    (n used rate : ℕ) (l : Limiter) (ip : IpAddr) (now : ℕ)
    → 0 < l.interval
    → l.tolerance + l.interval ≡ l.interval * rate
    → used ≤ rate
    → schedule l.tat (client_key ip) now ≡ now + used * l.interval
    → (contains_key (client_key ip) l.tat ≡ true) ⊎ (length l.tat < l.max_tracked)
    → (used ≡ rate → contains_key (client_key ip) l.tat ≡ true)
    → admitted l (client_key ip) (replicate n (ip, now)) ≡ min n (rate - used)
unfolding admitted
admitted-replicate zero used rate l ip now pos tol u s room out = omega arith
admitted-replicate (suc n) used rate l ip now pos tol u s room out =
    let key = client_key ip in
    let place = check_at-placed l ip now room in
    elim (Bool-cases (ltb used rate)) [
      | inl more ↦
          let below : suc used ≤ rate = ground arith in
          let mul : suc used * l.interval ≤ rate * l.interval = mul-le-mul_right l.interval below in
          let admits = meter-admits l key now (omega arith) in
          let tat = schedule l.tat key now + l.interval in
          let found = lookup-insert_self key tat l.tat in
          let known : contains_key key (insert key tat l.tat) ≡ true = rw (found, contains_key) in
          let ih =
            admitted-replicate n (suc used) rate (record l { tat = insert key tat l.tat }) ip now
              pos tol below (rw (found, schedule) (omega arith)) (inl known) (λ _. known) in
          rw place (rw admits (ground (arith, ip_eq_iff key key)))
      | inr spent ↦
          let e : used ≡ rate = ground arith in
          let refuses = meter-refuses l key now (
            let full : schedule l.tat key now ≡ now + rate * l.interval = rw e at s in
            omega arith) in
          let ih = admitted-replicate n used rate l ip now pos tol u s (inl (out e)) out in
          rw place (rw refuses (ground arith))
    ]

-- A new client is admitted exactly `rate` times at one instant, however often it asks.
pub burst :
    (rate cap n : ℕ) (ip : IpAddr) (now : ℕ)
    → 0 < rate
    → 0 < cap
    → admitted (with_capacity rate cap) (client_key ip) (replicate n (ip, now)) ≡ min n rate
unfolding with_capacity lookup
burst rate cap n ip now h c =
    let (lo, hi, cost) = with_capacity-interval rate cap h in
    admitted-replicate n 0 rate (with_capacity rate cap) ip now
      (positive (with_capacity rate cap).interval rate lo) cost (omega arith) (omega arith) (inr c)
      (λ e. absurd (omega arith))
    ∙ ap (min n) (omega arith)
  where
    positive : (i r : ℕ) → 60_000_000_000 ≤ i * r → 0 < i
    positive zero r p = absurd (omega arith)
    positive (suc i) r p = omega arith
