-- ===== src/Driver/Tenants.antt =====
-- python/bench/replay_multitenant.py: lemmas on the salted keys and on the flood.
use native.Mathlib.Nat.{suc-mul}
use mooncake_kvcache_tiered.Base.{
  count-append, ℕ, zero, suc, ◌+◌, ◌*◌, ◌<◌, ◌≡◌, refl, List, [], ◌∷◌, ◌++◌, arith, count, nat_key,
  if◌then◌else◌, leb, ltb, ◌&&◌, length,
}
use mooncake_kvcache_tiered.Framework.{TraceRecord}
use mooncake_kvcache_tiered.Driver.{salted, tenant_salt, range, flood_from, flood_records}

-- Hash ids below the salt get the same salted key only if both the ids and the tenants are the same.
salted_inj :
    (t u g h : ℕ) → g < tenant_salt → h < tenant_salt → salted t g ≡ salted u h → (t ≡ u) × (g ≡ h)
unfolding salted
salted_inj t u g h a b e = (omega arith, omega arith)

-- The ids of all requests, in order.
abbrev pub ids_of : List (TraceRecord ℕ) → List ℕ
ids_of [] = []
ids_of (r ∷ rs) = r.hash_ids ++ ids_of rs

-- 1 from `a` to below `b`, else 0.
abbrev pub within : ℕ → ℕ → ℕ → ℕ
within a b j = if leb a j && ltb j b then 1 else 0

count-range : (j start n : ℕ) → count j (range start n) ≡ within start (start + n) j
unfolding range
count-range j start zero = ground arith
count-range j start (suc n) = ground (arith, count-range j (suc start) n)

count-flood_from :
    (j n i next b : ℕ) → count j (ids_of (flood_from n i next b)) ≡ within next (next + n * b) j
unfolding flood_from
count-flood_from j zero i next b = ground arith
count-flood_from j (suc n) i next b = ground (
  arith,
  count-append j (range next b) (ids_of (flood_from n (suc i) (next + b) b)),
  count-range j next b,
  count-flood_from j n (suc i) (next + b) b,
  suc-mul n b,
)

length-flood_from : (n i next b : ℕ) → length (flood_from n i next b) ≡ n
unfolding flood_from
length-flood_from zero i next b = refl
length-flood_from (suc n) i next b = omega (arith, length-flood_from n (suc i) (next + b) b)

-- The flood has as many requests as asked for, and uses each id from 1 to the number of its blocks
-- exactly once and no other.
flood_records_lem :
    (n b : ℕ)
    → (length (flood_records n b) ≡ n)
      × ((j : ℕ) → count j (ids_of (flood_records n b)) ≡ within 1 (1 + n * b) j)
unfolding flood_records
flood_records_lem n b = (length-flood_from n 0 1 b, λ j. count-flood_from j n 0 1 b)
