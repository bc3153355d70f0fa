-- ===== src/Cache/Tests.antt =====
-- The tests of crates/cc-gateway/src/cache.rs, and the theorems on their caches.
use clockchain.Prelude.{
  ℕ, ◌≤◌, ◌≡◌, refl, inl, inr, true, none, some, List, [], ◌∷◌, arith, nat_key, Bytes, bytes_eq,
  bytes_key,
}
use clockchain.Prelude.Table.{lookup, insert, remove}
use clockchain.Prelude.Ordered.{map_insert}
use clockchain.Cache.{
  Entry, Cache, clear, touch, new, fresh_digest, observe, is_current, get, evict, store, put,
}
use clockchain.Cache.Invariant.{IsWell}
use clockchain.Cache.Recency.{put-recency}
use clockchain.Cache.Answers.{Op, observes, gets, puts, step, run, run-IsWell, Has}
use clockchain.Cache.Served.{get-Has, get-put}
use clockchain.Cache.Generations.{run-generation}

program : Unit {0}
unfolding bytes_eq lookup insert remove map_insert clear touch new fresh_digest observe is_current
    get evict store put step run
program = tt

abbrev d1 : Bytes
d1 = 1 ∷ []

abbrev d2 : Bytes
d2 = 2 ∷ []

abbrev entry : ℕ → Entry
entry n = record { status = 200; body = n ∷ n ∷ [] }

-- `/a`, `/b` and `/c`
abbrev a : Bytes
a = 47 ∷ 97 ∷ []

abbrev b : Bytes
b = 47 ∷ 98 ∷ []

abbrev c : Bytes
c = 47 ∷ 99 ∷ []

-- The calls of the test of eviction but its last, the latest first.
abbrev calls : List Op
calls = gets d1 a ∷ puts d1 b (entry 8) ∷ puts d1 a (entry 7) ∷ observes d1 5 ∷ []

abbrev two_fit : Cache
two_fit = run (new 5 8) calls

evicts_b : (get (put two_fit d1 c (entry 9)) d1 b).1 ≡ none
unfolding program
evicts_b = refl

keeps_a : (get (put two_fit d1 c (entry 9)) d1 a).1 ≡ some (entry 7)
unfolding program
keeps_a = refl

starts_anew : (get (observe two_fit d2 6) d2 a).1 ≡ none
unfolding program
starts_anew = refl

stays : fresh_digest (observe two_fit d2 4) 7 ≡ some d1
unfolding program
stays = refl

expires : fresh_digest two_fit 10 ≡ none
unfolding program
expires = refl

run-IsWell_example : IsWell two_fit
run-IsWell_example = run-IsWell 5 8 calls

abbrev wide : List Op
wide = puts d1 b (entry 8) ∷ puts d1 a (entry 7) ∷ observes d1 5 ∷ []

first_use : lookup a (run (new 5 12) wide).inner.entries ≡ some (entry 7, 1)
unfolding program
first_use = refl

second_use : lookup b (run (new 5 12) wide).inner.entries ≡ some (entry 8, 2)
unfolding program
second_use = refl

outlives : lookup a (put (run (new 5 12) wide) d1 c (entry 9)).inner.entries ≡ some (entry 7, 1)
unfolding program
outlives = refl

put-recency_example :
    lookup b (put (run (new 5 12) wide) d1 c (entry 9)).inner.entries ≡ some (entry 8, 2)
put-recency_example =
    put-recency (run (new 5 12) wide) d1 c (entry 9) a b (entry 7) (entry 8) 1 2
      (run-IsWell 5 12 wide) first_use second_use (omega arith) outlives

serves : (get (run (new 5 8) calls) d1 a).1 ≡ some (entry 7)
unfolding program
serves = refl

get-Has_example : Has (puts d1 a (entry 7)) calls
get-Has_example = get-Has 5 8 calls d1 a (entry 7) serves

current : is_current two_fit.inner d1 ≡ true
unfolding program
current = refl

new_key : lookup c two_fit.inner.entries ≡ none
unfolding program
new_key = refl

bound : 4 ≤ two_fit.max_bytes
unfolding program
bound = omega arith

get-put_example : (get (put two_fit d1 c (entry 9)) d1 c).1 ≡ some (entry 9)
get-put_example = get-put two_fit d1 c (entry 9) current new_key bound

run-generation_example :
    (d : Bytes) × (t : ℕ) × (two_fit.inner.generation ≡ some (d, t))
    × Has (observes d t) calls
    × (5 ≤ t)
run-generation_example = run-generation 5 8 calls d1 5 (inr (inr (inr (inl refl))))
