-- ===== src/Limiter/Tests.antt =====
-- The theorems on small limiters, and the tests of crates/cc-gateway/src/limit.rs.
use clockchain.Prelude.{◌+◌, ◌≡◌, ◌↔◌, ◌⊎◌, refl, ◌&&◌, [], ◌∷◌, arith, if◌then◌else◌, max, err}
use clockchain.Prelude.Table.{lookup, insert, retain}
use clockchain.Limiter.{
  Segments, v4, v6, ip_eq, ip_key, to_ipv4_mapped, client_key, Limiter, div_ceil, with_capacity,
  schedule, meter, check_at,
}
use clockchain.Limiter.Address.{SameClient, client_key-buckets}
use clockchain.Limiter.Bounds.{IsBounded, with_capacity-IsBounded, check_at-IsBounded}
use clockchain.Limiter.Isolation.{is_ok, check_at-schedule}
use clockchain.Limiter.Window.{Requests, admitted}
use clockchain.Limiter.Wait.{TooEarly, TurnedAway, check_at-wait}

program : Unit {0}
unfolding lookup insert retain ip_eq to_ipv4_mapped client_key div_ceil with_capacity meter check_at
    admitted
program = tt

abbrev three : Limiter
three = with_capacity 3 100

-- Three at once, then a wait of twenty seconds.
abbrev used : Limiter
used = record three { tat = (v4 1, 60_000_000_000) ∷ [] }

refills : (check_at used (v4 1) 0).1 ≡ err 20_000_000_000
unfolding program
refills = refl

abbrev net : Segments
net = record { s0 = 0x2001; s1 = 0xdb8; s2 = 1; s3 = 2; s4 = 0; s5 = 0; s6 = 0; s7 = 1 }

client_key-buckets_example :
    ((client_key (v6 net) ≡ client_key (v6 (record net { s7 = 9 })))
      ↔ SameClient (v6 net) (v6 (record net { s7 = 9 })))
    × (client_key (client_key (v6 net)) ≡ client_key (v6 net))
client_key-buckets_example = client_key-buckets (v6 net) (v6 (record net { s7 = 9 }))

check_at-IsBounded_example : IsBounded (check_at three (v4 1) 5).0
check_at-IsBounded_example = check_at-IsBounded three (v4 1) 5 (with_capacity-IsBounded 3 100)

check_at-schedule_example : schedule (check_at three (v4 1) 5).0.tat (v4 2) 9 ≡ (
    if ip_eq (client_key (v4 1)) (v4 2) && is_ok (check_at three (v4 1) 5).1
    then max (schedule three.tat (v4 2) 5 + three.interval) 9
    else schedule three.tat (v4 2) 9)
check_at-schedule_example =
    check_at-schedule three (v4 1) (v4 2) 5 9 (with_capacity-IsBounded 3 100).distinct (omega arith)

abbrev calls : Requests
calls = (v4 1, 5) ∷ (v4 2, 6) ∷ (v4 1, 20_000_000_000) ∷ []

check_at-wait_example :
    TooEarly used (v4 1) 0 20_000_000_000 7 ⊎ TurnedAway used (v4 1) 0 20_000_000_000
unfolding program
check_at-wait_example = check_at-wait used (v4 1) 0 20_000_000_000 7 refl (omega arith)
