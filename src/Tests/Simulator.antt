-- ===== src/Tests/Simulator.antt =====
-- The two tiers at concrete states.
use mooncake_kvcache_tiered.Base.{
  ℕ, ◌+◌, ◌*◌, ◌≤◌, ◌≡◌, refl, max, [], ◌∷◌, arith, length, ok, nat_key,
}
use mooncake_kvcache_tiered.Dict.{occurs}
use mooncake_kvcache_tiered.Policy.{CachePolicy}
use mooncake_kvcache_tiered.Policy.Lru.Laws.{lru_policy}
use mooncake_kvcache_tiered.Policy.S3Fifo.Methods.{s3fifo_policy}
use mooncake_kvcache_tiered.Tiered.{
  Sim, default_costs, init, process_request, process_all, prefetch_for_request,
}
use mooncake_kvcache_tiered.Tiered.Requests.{process_all_bounds}
use mooncake_kvcache_tiered.Tiered.Exclusive.{IsExclusive}
use mooncake_kvcache_tiered.Tiered.Prefetch.{held, held-prefetch, lru-FillsFirst}
use mooncake_kvcache_tiered.Tiered.Outcome.{
  count_true, process_request_counts, process_request_ttft,
}

abbrev lru : CachePolicy ℕ
lru = lru_policy

-- One block in the fast tier, its successor in the slow one.
abbrev two_tiers : Sim lru lru
two_tiers = record {
  fast = record { capacity = 1; store = (1, tt) ∷ [] };
  slow = record { capacity = 2; store = (2, tt) ∷ [] };
  successor = (1, 2) ∷ [];
  prefetch_depth = 8;
  costs = default_costs;
}

two_tiers-IsExclusive : IsExclusive lru lru 1 2 two_tiers
unfolding occurs
two_tiers-IsExclusive = record {
  fast_valid = record {
    positive = omega arith;
    bounded = omega arith;
    distinct = λ j. ground arith;
  };
  slow_valid = record {
    positive = omega arith;
    bounded = omega arith;
    distinct = λ j. ground arith;
  };
  fast_capacity = refl;
  slow_capacity = refl;
  once = λ j. ground arith;
}

process_all_bounds_example :
    (s : Sim s3fifo_policy lru) × (init s3fifo_policy lru 2 4 8 default_costs ≡ ok s)
    × (s3fifo_policy.size
          (process_all s3fifo_policy lru ((1 ∷ 2 ∷ 3 ∷ []) ∷ (1 ∷ 4 ∷ []) ∷ []) s).fast
        ≤ 2)
    × (lru.size (process_all s3fifo_policy lru ((1 ∷ 2 ∷ 3 ∷ []) ∷ (1 ∷ 4 ∷ []) ∷ []) s).slow ≤ 4)
    × ((j : ℕ)
        → s3fifo_policy.occurs j
              (process_all s3fifo_policy lru ((1 ∷ 2 ∷ 3 ∷ []) ∷ (1 ∷ 4 ∷ []) ∷ []) s).fast
            + lru.occurs j
                (process_all s3fifo_policy lru ((1 ∷ 2 ∷ 3 ∷ []) ∷ (1 ∷ 4 ∷ []) ∷ []) s).slow
          ≤ 1)
process_all_bounds_example =
    process_all_bounds s3fifo_policy lru 2 4 8 default_costs ((1 ∷ 2 ∷ 3 ∷ []) ∷ (1 ∷ 4 ∷ []) ∷ [])
      (omega arith) (omega arith)

held-prefetch_example :
    held lru lru 2 (prefetch_for_request lru lru (1 ∷ []) two_tiers).0 ≡ held lru lru 2 two_tiers
held-prefetch_example =
    held-prefetch lru lru 1 2 lru-FillsFirst 2 (1 ∷ []) two_tiers two_tiers-IsExclusive

process_request_counts_example :
    let o = (process_request lru lru (1 ∷ 2 ∷ 3 ∷ []) two_tiers).1 in
    (o.fast_hits + o.slow_hits + o.misses ≡ 3)
    × (length o.block_hits ≡ 3)
    × (count_true o.block_hits ≡ o.fast_hits + o.slow_hits)
process_request_counts_example = process_request_counts lru lru (1 ∷ 2 ∷ 3 ∷ []) two_tiers

process_request_ttft_example :
    let o = (process_request lru lru (1 ∷ 2 ∷ 3 ∷ []) two_tiers).1 in
    (80 ≤ o.ttft) × (o.misses * 80 ≤ o.ttft) × (o.ttft ≤ max 1 3 * 80)
process_request_ttft_example = process_request_ttft lru lru (1 ∷ 2 ∷ 3 ∷ []) two_tiers (omega arith)
