-- ===== src/Limiter.antt =====
-- The per-client rate limit of crates/cc-gateway/src/limit.rs: the generic cell rate algorithm over
-- a bounded table. An `Instant` and a `Duration` are numbers of nanoseconds; the lock is held
-- through a whole call, so a run is a sequence of calls.
pub mod Address
pub mod Bounds
pub mod Window
pub mod Wait
pub mod Isolation
mod Tests
use clockchain.Prelude.{
  ℕ, zero, suc, ◌+◌, ◌-◌, ◌*◌, ◌/◌, ◌≡◌, ◌↔◌, refl, max, Bool, true, false, not, ◌&&◌, Option, none,
  some, List, [], ◌∷◌, arith, ltb, leb, ◌==◌, ==_iff, if◌then◌else◌, length, Result, ok, err, Key,
}
use clockchain.Prelude.Table.{lookup, insert, retain, contains_key}

-- `std::net::IpAddr`: 32 bits, or eight segments of 16 bits.
pub record Segments : Type 0 where
  pub s0 : ℕ
  pub s1 : ℕ
  pub s2 : ℕ
  pub s3 : ℕ
  pub s4 : ℕ
  pub s5 : ℕ
  pub s6 : ℕ
  pub s7 : ℕ

pub data IpAddr : Type 0 where
  v4 : ℕ → IpAddr
  v6 : Segments → IpAddr

abbrev segments_eq : Segments → Segments → Bool
segments_eq a b =
    a.s0 == b.s0
    && (a.s1 == b.s1
        && (a.s2 == b.s2
            && (a.s3 == b.s3
                && (a.s4 == b.s4 && (a.s5 == b.s5 && (a.s6 == b.s6 && a.s7 == b.s7))))))

unfoldable pub ip_eq : IpAddr → IpAddr → Bool
ip_eq (v4 a) (v4 b) = a == b
ip_eq (v6 a) (v6 b) = segments_eq a b
ip_eq _ _ = false

pub ip_eq_iff : (a b : IpAddr) → (ip_eq a b ≡ true) ↔ (a ≡ b)
unfolding ip_eq
ip_eq_iff (v4 a) (v4 b) = ground arith
ip_eq_iff (v6 a) (v6 b) = ground arith
ip_eq_iff (v4 a) (v6 b) = ground arith
ip_eq_iff (v6 a) (v4 b) = ground arith

instance abbrev pub ip_key : Key IpAddr
ip_key = record { same = ip_eq; same_iff = ip_eq_iff }

-- `Ipv6Addr::to_ipv4_mapped`: `::ffff:a.b.c.d` and no other.
unfoldable pub to_ipv4_mapped : Segments → Option ℕ
to_ipv4_mapped s =
    if s.s0 == 0 && s.s1 == 0 && s.s2 == 0 && s.s3 == 0 && s.s4 == 0 && s.s5 == 0xffff
    then some (s.s6 * 0x10000 + s.s7)
    else none

unfoldable pub client_key : IpAddr → IpAddr
client_key (v4 a) = v4 a
client_key (v6 s) = elim (to_ipv4_mapped s) [
  | some a ↦ v4 a
  | none ↦ v6 (record s { s4 = 0; s5 = 0; s6 = 0; s7 = 0 })
]

abbrev pub max_tracked_default : ℕ
max_tracked_default = 100_000

-- `tat` holds the theoretical arrival time of each client's next request.
pub record Limiter : Type 0 where
  pub interval : ℕ
  pub tolerance : ℕ
  pub max_tracked : ℕ
  pub tat : List (IpAddr × ℕ)

-- `u64::div_ceil`
unfoldable pub div_ceil : ℕ → ℕ → ℕ
div_ceil a b = (a + (b - 1)) / b

unfoldable pub with_capacity : ℕ → ℕ → Limiter
unfolding div_ceil
with_capacity rate_per_minute max_tracked =
    let rate = max rate_per_minute 1 in
    let interval = div_ceil 60_000_000_000 rate in
    record {
      interval = interval;
      tolerance = interval * (rate - 1);
      max_tracked = max_tracked;
      tat = [];
    }

unfoldable pub new : ℕ → Limiter
unfolding with_capacity
new rate_per_minute = with_capacity rate_per_minute max_tracked_default

-- `table.get(&key).copied().unwrap_or(now).max(now)`
abbrev pub schedule : List (IpAddr × ℕ) → IpAddr → ℕ → ℕ
schedule table key now = elim (lookup key table) [ none ↦ now | some tat ↦ max tat now ]

-- What `check_at` does once the client has a place in the table.
unfoldable pub meter : Limiter → IpAddr → ℕ → Limiter × Result (Unit {0}) ℕ
meter l key now =
    let tat = schedule l.tat key now in
    let ahead = tat - now in
    if ltb l.tolerance ahead
    then (l, err (ahead - l.tolerance))
    else (record l { tat = insert key (tat + l.interval) l.tat }, ok tt)

-- The whole of `check_at`: the limiter after the call, and its answer.
unfoldable pub check_at : Limiter → IpAddr → ℕ → Limiter × Result (Unit {0}) ℕ
check_at l ip now =
    let key = client_key ip in
    if not (contains_key key l.tat) && leb l.max_tracked (length l.tat)
    then (let pruned = record l { tat = retain (λ tat. ltb now tat) l.tat } in
        if leb pruned.max_tracked (length pruned.tat)
        then (pruned, err pruned.interval)
        else meter pruned key now)
    else meter l key now
