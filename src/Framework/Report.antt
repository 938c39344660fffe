-- ===== src/Framework/Report.antt =====
-- python/bench/framework.py: lemmas on `replay`.
use Prim.Native.String.{String}
use mooncake_kvcache_tiered.Base.{
  ℕ, ◌≤◌, ◌<◌, ◌≡◌, refl, Bool, none, some, List, [], ◌∷◌, Key, arith, Result, ok, raise,
  value_error, Error, inl, inr,
}
use mooncake_kvcache_tiered.Policy.Registry.{PolicyClass, find_class, make_policy-raises}
use mooncake_kvcache_tiered.Framework.{
  TraceRecord, ReplayStep, Percentiles, Ratio, build_replay_plan, rates,
}
use mooncake_kvcache_tiered.Framework.Ranks.{percentiles-IsPercentile}
use mooncake_kvcache_tiered.Framework.Rates.{rates_lem}
use mooncake_kvcache_tiered.Framework.Replay.{
  commit_of, Replayed, RunConfig, RunReport, Target, or_else, default_policy, percentiles_or_zero,
  simulate, replay, simulate_replay, simulate_tiered_replay, throughput, skipped,
}
use mooncake_kvcache_tiered.Framework.Samples.{
  IsSampled, simulate_replay_lem, simulate_tiered_replay_lem,
}

-- The percentiles are in order.
abbrev pub Ordered : Percentiles → Type 0
Ordered q = (q.p50 ≤ q.p90) × (q.p90 ≤ q.p99)

-- The numerator is at most the denominator, which is positive.
abbrev pub IsFraction : Ratio → Type 0
IsFraction r = (r.num ≤ r.den) × (0 < r.den)

percentiles_or_zero_lem :
    (xs : List ℕ) → (q : Percentiles) × (percentiles_or_zero xs ≡ ok q) × Ordered q
unfolding percentiles_or_zero
percentiles_or_zero_lem [] =
    (record { p50 = 0; p90 = 0; p99 = 0 }, refl, (omega arith, omega arith))
percentiles_or_zero_lem (x ∷ xs) = elim (percentiles-IsPercentile (x ∷ xs)) [
  | inl (none_left, e) ↦ absurd cc
  | inr (q, e, a, b, c, low, high) ↦ (q, e, (low, high))
]

-- The name of the policy that a configuration asks for.
abbrev pub policy_name : RunConfig → String
policy_name cfg = or_else cfg.policy (default_policy cfg.target)

module _ {K : Type 0} ⦃key : Key K⦄ where
  simulate-IsSampled :
      (t : Target) (name : String) (prefetch : Bool) (plan : List (ReplayStep K)) (c : PolicyClass)
      → find_class name ≡ some c
      → (r : Replayed K) × (simulate t name prefetch plan ≡ ok r) × IsSampled plan r
  unfolding simulate
  simulate-IsSampled Target.project name prefetch plan c e =
      simulate_tiered_replay_lem plan 4096 16384 name prefetch c e (omega arith) (omega arith)
  simulate-IsSampled Target.baseline name prefetch plan c e =
      let (r, i, v, m) = simulate_replay_lem plan 1024 name c e (omega arith) in (r, i, v)

  simulate-raises :
      (t : Target) (name : String) (prefetch : Bool) (plan : List (ReplayStep K))
      → find_class name ≡ none
      → simulate t name prefetch plan ≡ raise value_error
  unfolding simulate simulate_replay simulate_tiered_replay
  simulate-raises Target.project name prefetch plan e =
      rw ((make_policy-raises K name 4096).1 (inl e))
  simulate-raises Target.baseline name prefetch plan e =
      rw ((make_policy-raises K name 1024).1 (inl e))

  -- `replay` with an unknown policy raises `ValueError`, whatever the lock. With a known policy it
  -- raises what reading the lock raises, if the configuration names no commit; else it returns a
  -- report of the commit, whose rates are fractions between 0 and 1 and whose percentiles are in order.
  pub replay_lem :
      (cfg : RunConfig) (records : List (TraceRecord K)) (locked : Result String)
      → ((find_class (policy_name cfg) ≡ none) → replay cfg records locked ≡ raise value_error)
        × ((c : PolicyClass)
            → find_class (policy_name cfg) ≡ some c
            → ((e : Error) → commit_of cfg locked ≡ raise e → replay cfg records locked ≡ raise e)
              × ((commit : String)
                  → commit_of cfg locked ≡ ok commit
                  → (report : RunReport) × (replay cfg records locked ≡ ok report)
                    × (report.mooncake_commit ≡ commit)
                    × IsFraction report.cache_hit_rate
                    × IsFraction report.reuse_rate
                    × Ordered report.ttft
                    × Ordered report.e2e_latency))
  unfolding replay
  replay_lem cfg records locked = (
    λ e.
        rw
          (simulate-raises cfg.target (policy_name cfg) cfg.prefetch (build_replay_plan records) e),
    λ c e.
        let (r, i, v) =
          simulate-IsSampled cfg.target (policy_name cfg) cfg.prefetch (build_replay_plan records) c
            e in
        let (t, j, low) = percentiles_or_zero_lem r.ttft_samples in
        let (u, k, high) = percentiles_or_zero_lem r.e2e_samples in
        let (a, b, x, y, z, w) = rates_lem r.events in
        (
          λ err h. rw (i, h),
          λ commit h. (
            record {
              config = cfg;
              mooncake_commit = commit;
              throughput = throughput r;
              ttft = t;
              e2e_latency = u;
              cache_hit_rate = (rates r.events).0;
              reuse_rate = (rates r.events).1;
              skipped = skipped cfg.hardware;
            },
            rw (i, h, j, k),
            refl,
            (a, b),
            (x, y),
            low,
            high,
          ),
        ),
  )
