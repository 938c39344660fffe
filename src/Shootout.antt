-- ===== src/Shootout.antt =====
-- python/bench/shootout.py: the comparison of all cache policies on a trace. What is printed is the
-- list of the rows, in their order.
pub mod Ranking
pub mod Rows
use Prim.Native.String.{String}
use mooncake_kvcache_tiered.Base.{
  ℕ, zero, suc, ◌+◌, ◌-◌, ◌*◌, ◌/◌, min, Bool, true, false, Option, none, some, List, [], ◌∷◌, map,
  length, if◌then◌else◌, ltb, leb, ◌==◌, Result, ok, raise, at_index, ◌>>=◌, nat_key,
}
use mooncake_kvcache_tiered.Text.{Text, int_of}
use mooncake_kvcache_tiered.Json.{Json, traverse}
use mooncake_kvcache_tiered.Policy.Registry.{
  PolicyClass, lru, sieve, s3fifo, prefix_lru, s3fifo_prefix,
}
use mooncake_kvcache_tiered.Framework.{ReplayStep, Ratio, build_replay_plan, rates, sorted}
use mooncake_kvcache_tiered.Framework.Replay.{Replayed, simulate_replay, throughput}
use mooncake_kvcache_tiered.Framework.Trace.{parse_trace}

-- The keys of `POLICIES`.
abbrev pub name_of : PolicyClass → String
name_of lru = "lru"
name_of sieve = "sieve"
name_of s3fifo = "s3fifo"
name_of prefix_lru = "prefix_lru"
name_of s3fifo_prefix = "s3fifo_prefix"

-- `sorted(POLICIES)`
abbrev pub sorted_policies : List PolicyClass
sorted_policies = lru ∷ prefix_lru ∷ s3fifo ∷ s3fifo_prefix ∷ sieve ∷ []

-- The place of a name among the sorted ones, by which names are compared.
abbrev pub place_of : PolicyClass → ℕ
place_of lru = 0
place_of prefix_lru = 1
place_of s3fifo = 2
place_of s3fifo_prefix = 3
place_of sieve = 4

pub record Row : Type 0 where
  pub hit_rate : Ratio
  pub policy : PolicyClass
  pub p50 : ℕ
  pub p99 : ℕ
  pub reuse : Ratio
  pub throughput : Ratio

unfoldable pub run_policy : List (ReplayStep ℕ) → ℕ → PolicyClass → Result Row
run_policy plan pool c = do
  r ← simulate_replay plan pool (name_of c)
  let ordered = sorted r.ttft_samples in
      (at_index ordered (length ordered / 2) >>= λ p50.
      at_index ordered (min (length ordered - 1) (99 * length ordered / 100)) >>= λ p99.
      ok (record {
        hit_rate = (rates r.events).0;
        policy = c;
        p50 = p50;
        p99 = p99;
        reuse = (rates r.events).1;
        throughput = throughput r;
      }))

-- `a` before `b` in the order of `results.sort(reverse=True)`. No two rows have the same name.
unfoldable pub precedes : Row → Row → Bool
precedes a b =
    let x = a.hit_rate.num * b.hit_rate.den in
    let y = b.hit_rate.num * a.hit_rate.den in
    if ltb y x then true else if x == y then leb (place_of b.policy) (place_of a.policy) else false

unfoldable pub insert_row : Row → List Row → List Row
insert_row a [] = a ∷ []
insert_row a (b ∷ rows) =
    let rest = insert_row a rows in if precedes a b then a ∷ b ∷ rows else b ∷ rest

unfoldable pub sort_rows : List Row → List Row
sort_rows [] = []
sort_rows (a ∷ rows) = insert_row a (sort_rows rows)

unfoldable pub compare_policies : List (ReplayStep ℕ) → ℕ → Result (List Row)
compare_policies plan pool =
    traverse (run_policy plan pool) sorted_policies >>= λ rows. ok (sort_rows rows)

module _ (loads : Text → Result Json) (files : Text → Option (List Text)) where
  unfoldable pub pool_of : List Text → Result ℕ
  pool_of [] = ok 4096
  pool_of (n ∷ rest) = int_of n

  -- The exit code, and the rows that are printed.
  unfoldable pub main : List Text → Result (ℕ × List Row)
  main [] = ok (2, [])
  main (path ∷ rest) = do
    pool ← pool_of rest
    records ← parse_trace loads (files path)
    rows ← compare_policies (build_replay_plan records) pool
    ok (0, rows)
