-- ===== src/Limiter/Window.antt =====
-- Runs of requests against one limiter (crates/cc-gateway/src/limit.rs): what any sixty seconds
-- admit, and the burst.
use native.Mathlib.Nat.{mul-le-mul_right}
use clockchain.Prelude.{
  ℕ, suc, ◌+◌, ◌*◌, ◌≤◌, ◌<◌, ◌≡◌, ◌⊎◌, inl, inr, max, ◌&&◌, List, [], ◌∷◌, arith, ltb,
  if◌then◌else◌, Bool-cases,
}
use clockchain.Limiter.{IpAddr, ip_key, ip_eq, Limiter, client_key, meter, check_at}
use clockchain.Limiter.Isolation.{is_ok}

-- Requests in the order of their arrival.
abbrev pub Requests : Type 0
Requests = List (IpAddr × ℕ)

-- How many requests of the client with the key `k` a run admits.
unfoldable pub admitted : Limiter → IpAddr → Requests → ℕ
admitted l k [] = 0
admitted l k ((ip, now) ∷ rs) =
    let (l', answer) = check_at l ip now in
    let rest = admitted l' k rs in
    if ip_eq (client_key ip) k && is_ok answer then suc rest else rest

-- The requests arrive in order, none before `start` and none after `end`.
abbrev pub InWindow : ℕ → ℕ → Requests → Type 0
InWindow start end [] = Unit
InWindow start end ((_, now) ∷ rs) = (start ≤ now) × (now ≤ end) × InWindow now end rs

-- `check_at` writes only the table.
pub check_at-constants :
    (l : Limiter) (ip : IpAddr) (now : ℕ)
    → ((check_at l ip now).0.interval ≡ l.interval)
      × ((check_at l ip now).0.tolerance ≡ l.tolerance)
      × ((check_at l ip now).0.max_tracked ≡ l.max_tracked)
unfolding check_at meter
check_at-constants l ip now = ground arith

-- And of one that admits the client's own.
step :
    (s s1 s' n i i' tol tol' now end : ℕ)
    → s ≤ s1
    → s' ≡ max (s1 + i) now
    → s1 ≤ now + tol
    → now ≤ end
    → i' ≡ i
    → tol' ≡ tol
    → (n ≡ 0) ⊎ (s' + n * i' ≤ end + tol' + i')
    → s + suc n * i ≤ end + tol + i
step s s1 s' n i i' tol tol' now end h e b l ei et (inl z) = rw z (omega arith)
step s s1 s' n i i' tol tol' now end h e b l ei et (inr c) =
    let c' : s' + n * i ≤ end + tol + i = rw (ei, et) at c in omega arith

cancel : (n rate i : ℕ) → n * i < 2 * (i * rate) → n < 2 * rate
cancel n rate i h = elim (Bool-cases (ltb n (2 * rate))) [
  | inl less ↦ ground arith
  | inr more ↦
      let le : 2 * rate ≤ n = ground arith in
      let mul : 2 * rate * i ≤ n * i = mul-le-mul_right i le in absurd (omega arith)
]
