-- ===== src/Limiter/Isolation.antt =====
-- What a call changes of the schedules (crates/cc-gateway/src/limit.rs). The schedule of a client is
-- where its next request would stand; a client that is not in the table is served as an idle one.
use clockchain.Prelude.{
  ℕ, ◌+◌, ◌-◌, ◌≤◌, ◌≡◌, inl, inr, max, Bool, true, false, ◌&&◌, List, arith, ltb, if◌then◌else◌,
  Bool-cases, Result, ok, err,
}
use clockchain.Prelude.Table.{IsDistinct, lookup-insert, lookup-retain}
use clockchain.Limiter.{
  IpAddr, ip_key, ip_eq, ip_eq_iff, Limiter, client_key, schedule, meter, check_at,
}
use clockchain.Limiter.Bounds.{pruned, placed, made_room, full, way}

-- A schedule never lies in the past, and only time moves it forward.
pub schedule_bounds :
    (table : List (IpAddr × ℕ)) (k : IpAddr) (t now : ℕ)
    → t ≤ now
    → (now ≤ schedule table k now) × (schedule table k t ≤ schedule table k now)
schedule_bounds table k t now h = ground arith

-- Dropping the idle clients at `now` changes no schedule from then on.
pruned-schedule :
    (l : Limiter) (k : IpAddr) (now later : ℕ)
    → IsDistinct l.tat
    → now ≤ later
    → schedule (pruned l now).tat k later ≡ schedule l.tat k later
pruned-schedule l k now later d h = ground (arith, lookup-retain (λ tat. ltb now tat) k l.tat d)

-- The answer admits.
abbrev pub is_ok : Result (Unit {0}) ℕ → Bool
is_ok (ok _) = true
is_ok (err _) = false

-- The client's own next place in line, if it was admitted.
meter-schedule :
    (l : Limiter) (key k : IpAddr) (now later : ℕ)
    → now ≤ later
    → schedule (meter l key now).0.tat k later ≡ (
        if ip_eq key k
        then (if is_ok (meter l key now).1
            then max (schedule l.tat key now + l.interval) later
            else schedule l.tat k later)
        else schedule l.tat k later)
unfolding meter
meter-schedule l key k now later h =
    elim (Bool-cases (ltb l.tolerance (schedule l.tat key now - now))) [
      | inl late ↦ rw late (ground arith)
      | inr early ↦
          let tat = schedule l.tat key now + l.interval in
          rw early (ground (arith, lookup-insert key k tat l.tat, ip_eq_iff key k))
    ]

-- Only an admitted request moves a schedule, and only its own client's: each call leaves every other
-- client's schedule as it was, from `now` on, also where it drops idle clients to make room.
pub check_at-schedule :
    (l : Limiter) (ip k : IpAddr) (now later : ℕ)
    → IsDistinct l.tat
    → now ≤ later
    → schedule (check_at l ip now).0.tat k later ≡ (
        if ip_eq (client_key ip) k && is_ok (check_at l ip now).1
        then max (schedule l.tat k now + l.interval) later
        else schedule l.tat k later)
check_at-schedule l ip k now later d h = elim (way l ip now) [
  | placed room e ↦
      rw e (
        ground (arith, meter-schedule l (client_key ip) k now later h, ip_eq_iff (client_key ip) k))
  | made_room new room e ↦ rw e (
      ground (
        arith,
        meter-schedule (pruned l now) (client_key ip) k now later h,
        ip_eq_iff (client_key ip) k,
        pruned-schedule l k now later d h,
        pruned-schedule l k now now d,
      ))
  | full new crowded e ↦ rw e (ground (arith, pruned-schedule l k now later d h))
]

meter-tolerance :
    (l : Limiter) (key : IpAddr) (now : ℕ)
    → is_ok (meter l key now).1 ≡ true
    → schedule l.tat key now ≤ now + l.tolerance
unfolding meter
meter-tolerance l key now h = ground arith

-- An admitted request was within the tolerance.
pub check_at-tolerance :
    (l : Limiter) (ip : IpAddr) (now : ℕ)
    → IsDistinct l.tat
    → is_ok (check_at l ip now).1 ≡ true
    → schedule l.tat (client_key ip) now ≤ now + l.tolerance
check_at-tolerance l ip now d h = elim (way l ip now) [
  | placed room e ↦ meter-tolerance l (client_key ip) now (rw e at h)
  | made_room new room e ↦
      rw (pruned-schedule l (client_key ip) now now d (omega arith)) at
        (meter-tolerance (pruned l now) (client_key ip) now (rw e at h))
  | full new crowded e ↦ absurd (ground arith)
]
