-- ===== src/Tests/Metrics.antt =====
-- The metrics and the replay at concrete inputs.
use Prim.Native.String.{String}
use mooncake_kvcache_tiered.Base.{
  ℕ, ◌+◌, refl, ◌≤◌, ◌<◌, ◌≡◌, ◌⊎◌, min, true, false, none, some, List, [], ◌∷◌, length, ok, raise,
  value_error, Error, nat_key, arith,
}
use mooncake_kvcache_tiered.Dict.{Dict, occurs}
use mooncake_kvcache_tiered.Policy.Registry.{PolicyClass, find_class}
use mooncake_kvcache_tiered.Framework.{
  TraceRecord, Percentiles, AccessEvent, percentiles, rates, build_replay_plan,
}
use mooncake_kvcache_tiered.Framework.Ranks.{IsPercentile, percentiles-IsPercentile}
use mooncake_kvcache_tiered.Framework.Rates.{lookups, hits, rates_lem}
use mooncake_kvcache_tiered.Framework.Replay.{
  RunConfig, RunReport, Target, replay, commit_of, Replayed, simulate_replay,
  simulate_tiered_replay,
}
use mooncake_kvcache_tiered.Framework.Warm.{AllWarm, simulate_replay-AllWarm}
use mooncake_kvcache_tiered.Framework.WarmTiers.{simulate_tiered_replay-AllWarm}
use mooncake_kvcache_tiered.Framework.Pools.{IsFaster, simulate_replay_mono}
use mooncake_kvcache_tiered.Framework.Report.{Ordered, IsFraction, policy_name, replay_lem}

abbrev samples : List ℕ
samples = 80 ∷ 400 ∷ 160 ∷ 80 ∷ 240 ∷ []

percentiles-IsPercentile_example :
    ((samples ≡ []) × (percentiles samples ≡ raise value_error))
    ⊎ ((q : Percentiles) × (percentiles samples ≡ ok q)
        × IsPercentile 50 q.p50 samples
        × IsPercentile 90 q.p90 samples
        × IsPercentile 99 q.p99 samples
        × (q.p50 ≤ q.p90)
        × (q.p90 ≤ q.p99))
percentiles-IsPercentile_example = percentiles-IsPercentile samples

abbrev access_log : List (AccessEvent ℕ)
access_log =
    record { hash_id = 1; hit = false }
    ∷ record { hash_id = 2; hit = false }
    ∷ record { hash_id = 1; hit = true }
    ∷ []

rates_lem_example :
    ((rates access_log).0.num ≤ (rates access_log).0.den)
    × (0 < (rates access_log).0.den)
    × ((rates access_log).1.num ≤ (rates access_log).1.den)
    × (0 < (rates access_log).1.den)
    × ((rates access_log).1.num ≤ (rates access_log).0.num)
    × ((0 < length access_log)
        → ((rates access_log).0.den ≡ length access_log)
          × (seen : Dict ℕ (Unit {0})) × (reused : Dict ℕ (Unit {0})) × ((rates access_log).1.num
              ≡ length reused)
          × ((rates access_log).1.den ≡ length seen)
          × ((j : ℕ) → occurs j seen ≡ min 1 (lookups j access_log))
          × ((j : ℕ) → occurs j reused ≡ min 1 (hits j access_log)))
rates_lem_example = rates_lem access_log

abbrev trace : List (TraceRecord ℕ)
trace =
    record { timestamp = 0; input_length = 1024; output_length = 10; hash_ids = 1 ∷ 2 ∷ [] }
    ∷ record { timestamp = 5; input_length = 1536; output_length = 20; hash_ids = 1 ∷ 2 ∷ 3 ∷ [] }
    ∷ []

simulate_replay_mono_example :
    (r : Replayed ℕ) × (q : Replayed ℕ) × (simulate_replay (build_replay_plan trace) 2 "lru" ≡ ok r)
    × (simulate_replay (build_replay_plan trace) 3 "lru" ≡ ok q)
    × IsFaster r q
simulate_replay_mono_example =
    simulate_replay_mono (build_replay_plan trace) 2 3 (omega arith) (omega arith)

abbrev config : RunConfig
config = record {
  target = Target.baseline;
  hardware = record { rdma = false; gpu_direct = true; nvme = false };
  mooncake_commit = "";
  policy = "";
  prefetch = true;
}

replay_lem_example :
    ((find_class (policy_name config) ≡ none) → replay config trace (ok "abc") ≡ raise value_error)
    × ((c : PolicyClass)
        → find_class (policy_name config) ≡ some c
        → ((e : Error)
            → commit_of config (ok "abc") ≡ raise e
            → replay config trace (ok "abc") ≡ raise e)
          × ((commit : String)
              → commit_of config (ok "abc") ≡ ok commit
              → (report : RunReport) × (replay config trace (ok "abc") ≡ ok report)
                × (report.mooncake_commit ≡ commit)
                × IsFraction report.cache_hit_rate
                × IsFraction report.reuse_rate
                × Ordered report.ttft
                × Ordered report.e2e_latency))
replay_lem_example = replay_lem config trace (ok "abc")

sieve_is_known : find_class "sieve" ≡ some PolicyClass.sieve
unfolding find_class
sieve_is_known = refl

simulate_replay-AllWarm_example :
    (r : Replayed ℕ) × (simulate_replay (build_replay_plan trace) 2 "sieve" ≡ ok r)
    × AllWarm [] r.events
    × (0 < length r.events
        → (rates r.events).0.num + (rates r.events).1.den ≤ (rates r.events).0.den)
simulate_replay-AllWarm_example =
    simulate_replay-AllWarm (build_replay_plan trace) 2 "sieve" PolicyClass.sieve sieve_is_known
      (omega arith)

simulate_tiered_replay-AllWarm_example :
    (r : Replayed ℕ) × (simulate_tiered_replay (build_replay_plan trace) 1 4 "sieve" true ≡ ok r)
    × AllWarm [] r.events
    × (0 < length r.events
        → (rates r.events).0.num + (rates r.events).1.den ≤ (rates r.events).0.den)
simulate_tiered_replay-AllWarm_example =
    simulate_tiered_replay-AllWarm (build_replay_plan trace) 1 4 "sieve" true PolicyClass.sieve
      sieve_is_known (omega arith) (omega arith)
