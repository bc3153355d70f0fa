-- ===== src/Limiter/Address.antt =====
-- The bucket of an address (`client_key` of crates/cc-gateway/src/limit.rs).
use clockchain.Prelude.{
  ℕ, ◌≡◌, refl, ◌↔◌, ◌⊎◌, inl, inr, ap, sym, ◌∙◌, none, some, arith, Option-cases,
}
use clockchain.Limiter.{Segments, IpAddr, v4, v6, to_ipv4_mapped, client_key}

-- The two addresses lie in one /64.
abbrev pub SameNet : Segments → Segments → Type 0
SameNet a b = (a.s0 ≡ b.s0) × (a.s1 ≡ b.s1) × (a.s2 ≡ b.s2) × (a.s3 ≡ b.s3)

client_key_twice : (ip : IpAddr) → client_key (client_key ip) ≡ client_key ip
unfolding client_key to_ipv4_mapped
client_key_twice (v4 a) = refl
client_key_twice (v6 a) = ground arith

-- The IPv4 address that an address carries, as itself or mapped.
abbrev pub Carries : IpAddr → ℕ → Type 0
Carries (v4 a) n = a ≡ n
Carries (v6 s) n = to_ipv4_mapped s ≡ some n

-- Two addresses of one client: they carry one IPv4 address, or they carry none and share a /64.
abbrev pub SameClient : IpAddr → IpAddr → Type 0
SameClient a b =
    ((n : ℕ) × Carries a n × Carries b n)
    ⊎ ((s : Segments) × (t : Segments) × (a ≡ v6 s)
        × (b ≡ v6 t)
        × (to_ipv4_mapped s ≡ none)
        × (to_ipv4_mapped t ≡ none)
        × SameNet s t)

shares : (a b : IpAddr) → client_key a ≡ client_key b → SameClient a b
unfolding client_key
shares (v4 m) (v4 n) h = inl (n, ground arith, refl)
shares (v4 m) (v6 t) h = elim (Option-cases (to_ipv4_mapped t)) [
  | inl bare ↦ absurd (ground (arith, bare, h))
  | inr (n, carried) ↦ inl (n, ground (arith, carried, h), carried)
]
shares (v6 s) (v4 n) h = elim (Option-cases (to_ipv4_mapped s)) [
  | inl bare ↦ absurd (ground (arith, bare, h))
  | inr (m, carried) ↦ inl (m, carried, ground (arith, carried, h))
]
shares (v6 s) (v6 t) h = elim (Option-cases (to_ipv4_mapped s)) [
  | inl bare ↦ elim (Option-cases (to_ipv4_mapped t)) [
    | inl bare' ↦ inr (
      s,
      t,
      refl,
      refl,
      bare,
      bare',
      (
        ground (arith, bare, bare', h),
        ground (arith, bare, bare', h),
        ground (arith, bare, bare', h),
        ground (arith, bare, bare', h),
      ),
    )
    | inr (n, carried) ↦ absurd (ground (arith, bare, carried, h))
  ]
  | inr (m, carried) ↦ elim (Option-cases (to_ipv4_mapped t)) [
    | inl bare ↦ absurd (ground (arith, bare, carried, h))
    | inr (n, carried') ↦ inl (m, carried, ground (arith, carried, carried', h))
  ]
]

carries : (a : IpAddr) (n : ℕ) → Carries a n → client_key a ≡ v4 n
unfolding client_key
carries (v4 m) n h = ap v4 h
carries (v6 s) n h = ground (arith, h)

same : (a b : IpAddr) → SameClient a b → client_key a ≡ client_key b
unfolding client_key
same a b (inl (n, ca, cb)) = carries a n ca ∙ sym (carries b n cb)
same a b (inr (s, t, ea, eb, bare, bare', (e0, e1, e2, e3))) =
    rw (ea, eb) (ground (arith, bare, bare', e0, e1, e2, e3))

-- Two addresses share a bucket exactly when they carry one IPv4 address, as itself or mapped, or are
-- IPv6 addresses of one /64 that carry none; and a bucket is its own bucket.
pub client_key-buckets :
    (a b : IpAddr)
    → ((client_key a ≡ client_key b) ↔ SameClient a b) × (client_key (client_key a) ≡ client_key a)
unfolding client_key
client_key-buckets a b = ((shares a b, same a b), client_key_twice a)
