-- ===== src/Framework/Replay.antt =====
-- python/bench/framework.py: the replay of a trace, over one policy and over the two tiers, and
-- `replay`, which makes the report. The records of the trace and the locked commit are given.
use Prim.Native.String.{String}
use text.Mathlib.Text.{◌==◌ as str_eq}
use mooncake_kvcache_tiered.Base.{
  ℕ, suc, ◌+◌, ◌*◌, max, Bool, List, [], ◌∷◌, ◌++◌, Key, if◌then◌else◌, ltb, Result, ok, ◌>>=◌,
}
use mooncake_kvcache_tiered.Policy.{CachePolicy}
use mooncake_kvcache_tiered.Policy.Registry.{policy_of, make_policy}
use mooncake_kvcache_tiered.Tiered.{TieredCosts, Sim, default_costs, process_request}
use mooncake_kvcache_tiered.Framework.{
  TraceRecord, ReplayStep, Percentiles, AccessEvent, Ratio, build_replay_plan, percentiles, rates,
}

-- What a replay returns, with the two totals of which the throughput is made.
pub record Replayed (K : Type 0) : Type 0 where
  pub events : List (AccessEvent K)
  pub ttft_samples : List ℕ
  pub e2e_samples : List ℕ
  pub total_tokens : ℕ
  pub total_time : ℕ

abbrev pub nothing : {K : Type 0} → Replayed K
nothing = record {
  events = [];
  ttft_samples = [];
  e2e_samples = [];
  total_tokens = 0;
  total_time = 0;
}

-- Tokens in 0.05 ms.
unfoldable pub throughput : {K : Type 0} → Replayed K → Ratio
throughput r =
    if ltb 0 r.total_time
    then record { num = r.total_tokens; den = r.total_time }
    else record { num = 0; den = 1 }

-- A request at the front of what the others give.
abbrev pub add_request :
    {K : Type 0} → TraceRecord K → List (AccessEvent K) → ℕ → TieredCosts → Replayed K → Replayed K
add_request t events ttft costs r =
    let e2e = ttft + t.output_length * costs.decode_per_token in
    record {
      events = events ++ r.events;
      ttft_samples = ttft ∷ r.ttft_samples;
      e2e_samples = e2e ∷ r.e2e_samples;
      total_tokens = t.input_length + t.output_length + r.total_tokens;
      total_time = e2e + r.total_time;
    }

-- `zip(record.hash_ids, outcome.block_hits)`
unfoldable pub zip_events : {K : Type 0} → List K → List Bool → List (AccessEvent K)
zip_events [] bs = []
zip_events (k ∷ ks) [] = []
zip_events (k ∷ ks) (b ∷ bs) = record { hash_id = k; hit = b } ∷ zip_events ks bs

module _ {K : Type 0} ⦃key : Key K⦄ where
  module _ (policy : CachePolicy K) where
    -- The accesses of a request from the block index `i` on, and how many of them miss.
    unfoldable pub access_blocks :
        ℕ → List K → policy.State → policy.State × List (AccessEvent K) × ℕ
    access_blocks i [] s = (s, [], 0)
    access_blocks i (k ∷ ks) s =
        let (s', gone, hit) = policy.access k i s in
        let (s'', events, misses) = access_blocks (suc i) ks s' in
        (s'', record { hash_id = k; hit = hit } ∷ events, if hit then misses else suc misses)

    unfoldable pub replay_plan : List (ReplayStep K) → policy.State → Replayed K
    replay_plan [] s = nothing
    replay_plan (step ∷ plan) s =
        let (s', events, misses) = access_blocks 0 step.trace_record.hash_ids s in
        add_request step.trace_record events (max misses 1 * default_costs.prefill_per_block)
          default_costs (replay_plan plan s')

  module _ (fast slow : CachePolicy K) where
    -- The new simulator, with the prefetching of the project.
    abbrev pub start_tiered : fast.State → slow.State → Bool → Sim fast slow
    start_tiered f s prefetch = record {
      fast = f;
      slow = s;
      successor = [];
      prefetch_depth = if prefetch then 8 else 0;
      costs = default_costs;
    }

    unfoldable pub replay_tiered : List (ReplayStep K) → Sim fast slow → Replayed K
    replay_tiered [] s = nothing
    replay_tiered (step ∷ plan) s =
        let (s', outcome) = process_request fast slow step.trace_record.hash_ids s in
        add_request step.trace_record (zip_events step.trace_record.hash_ids outcome.block_hits)
          outcome.ttft default_costs (replay_tiered plan s')

  unfoldable pub simulate_replay : List (ReplayStep K) → ℕ → String → Result (Replayed K)
  simulate_replay plan pool_blocks policy_name = do
    p ← make_policy K policy_name pool_blocks
    ok (replay_plan (policy_of K p.0) plan p.1)

  -- The constructor of `TieredSimulator` makes the fast policy first.
  unfoldable pub simulate_tiered_replay :
      List (ReplayStep K) → ℕ → ℕ → String → Bool → Result (Replayed K)
  simulate_tiered_replay plan fast_blocks slow_blocks policy_name prefetch = do
    f ← make_policy K policy_name fast_blocks
    s ← make_policy K "lru" slow_blocks
    ok (
        replay_tiered (policy_of K f.0) (policy_of K s.0) plan
          (start_tiered (policy_of K f.0) (policy_of K s.0) f.1 s.1 prefetch))

pub record HardwareProfile : Type 0 where
  pub rdma : Bool
  pub gpu_direct : Bool
  pub nvme : Bool

pub data Target : Type 0 where
  project baseline : Target

-- `RunConfig` but the path of the trace and the seed, which nothing reads.
pub record RunConfig : Type 0 where
  pub target : Target
  pub hardware : HardwareProfile
  pub mooncake_commit : String
  pub policy : String
  pub prefetch : Bool

pub record RunReport : Type 0 where
  pub config : RunConfig
  pub mooncake_commit : String
  pub throughput : Ratio
  pub ttft : Percentiles
  pub e2e_latency : Percentiles
  pub cache_hit_rate : Ratio
  pub reuse_rate : Ratio
  pub skipped : List String

abbrev pub pool_of : Target → ℕ
pool_of project = 4096
pool_of baseline = 1024

-- `a or b`
unfoldable pub or_else : String → String → String
or_else a b = if str_eq a "" then b else a

-- The commit of the report: the lock is read only if the configuration has none.
abbrev pub commit_of : RunConfig → Result String → Result String
commit_of cfg locked = if str_eq cfg.mooncake_commit "" then locked else ok cfg.mooncake_commit

abbrev pub default_policy : Target → String
default_policy project = "s3fifo"
default_policy baseline = "lru"

-- The table of required capabilities, in the order of the names.
unfoldable pub skipped : HardwareProfile → List String
skipped h =
    (if h.gpu_direct then [] else "gpu_direct_bench" ∷ [])
    ++ (if h.nvme then [] else "nvme_tier_bench" ∷ [])
    ++ (if h.rdma then [] else "rdma_transfer_bench" ∷ [])

-- `percentiles(samples) if samples else empty`
unfoldable pub percentiles_or_zero : List ℕ → Result Percentiles
percentiles_or_zero [] = ok (record { p50 = 0; p90 = 0; p99 = 0 })
percentiles_or_zero (x ∷ xs) = percentiles (x ∷ xs)

module _ {K : Type 0} ⦃key : Key K⦄ where
  unfoldable pub simulate : Target → String → Bool → List (ReplayStep K) → Result (Replayed K)
  simulate project policy_name prefetch plan =
      simulate_tiered_replay plan (pool_of project) (pool_of project * 4) policy_name prefetch
  simulate baseline policy_name prefetch plan = simulate_replay plan (pool_of baseline) policy_name

  unfoldable pub replay : RunConfig → List (TraceRecord K) → Result String → Result RunReport
  replay cfg records locked = do
    r ←
        simulate cfg.target (or_else cfg.policy (default_policy cfg.target)) cfg.prefetch
          (build_replay_plan records)
    commit ← commit_of cfg locked
    t ← percentiles_or_zero r.ttft_samples
    e ← percentiles_or_zero r.e2e_samples
    ok (record {
      config = cfg;
      mooncake_commit = commit;
      throughput = throughput r;
      ttft = t;
      e2e_latency = e;
      cache_hit_rate = (rates r.events).0;
      reuse_rate = (rates r.events).1;
      skipped = skipped cfg.hardware;
    })
