-- ===== src/Framework/Main.antt =====
-- python/bench/framework.py: `BenchmarkFramework.replay` of a file, and `main`. The files are given
-- as a function, with nothing for a path that has none.
use Prim.Native.String.{String}
use mooncake_kvcache_tiered.Base.{
  ℕ, ◌≡◌, refl, ◌≢◌, false, true, Option, some, List, [], ◌∷◌, length, Result, ok, raise, Error,
  ◌>>=◌, nat_key,
}
use mooncake_kvcache_tiered.Text.{Text}
use mooncake_kvcache_tiered.Json.{Json}
use mooncake_kvcache_tiered.Policy.Registry.{PolicyClass, find_class, lru, s3fifo}
use mooncake_kvcache_tiered.Framework.{TraceRecord}
use mooncake_kvcache_tiered.Framework.Replay.{
  RunConfig, RunReport, Target, project, baseline, replay, or_else,
}
use mooncake_kvcache_tiered.Framework.Report.{replay_lem, Ordered, IsFraction, policy_name}
use mooncake_kvcache_tiered.Framework.Trace.{parse_trace}

-- `RunConfig` with a target and the defaults.
abbrev pub default_config : Target → RunConfig
default_config target = record {
  target = target;
  hardware = (record { rdma = false; gpu_direct = false; nvme = false });
  mooncake_commit = "";
  policy = "";
  prefetch = true;
}

-- A report of a commit whose rates are fractions and whose percentiles are in order.
pub record IsReport (commit : String) (report : RunReport) : Type 0 where
  pub mooncake_commit : report.mooncake_commit ≡ commit
  pub hit_rate : IsFraction report.cache_hit_rate
  pub reuse_rate : IsFraction report.reuse_rate
  pub ttft : Ordered report.ttft
  pub e2e : Ordered report.e2e_latency

module _ (loads : Text → Result Json) (files : Text → Option (List Text))
    (locked : Result String) where
  unfoldable pub replay_file : RunConfig → Text → Result RunReport
  replay_file cfg path = do records ← parse_trace loads (files path); replay cfg records locked

  -- The exit code, and the reports that are printed.
  unfoldable pub main : List Text → Result (ℕ × List RunReport)
  main [] = ok (2, [])
  main (path ∷ []) = do
    b ← replay_file (default_config baseline) path
    p ← replay_file (default_config project) path
    ok (0, b ∷ p ∷ [])
  main (path ∷ second ∷ args) = ok (2, [])

  default_class :
      (t : Target) → (c : PolicyClass) × (find_class (policy_name (default_config t)) ≡ some c)
  unfolding find_class or_else
  default_class project = (s3fifo, refl)
  default_class baseline = (lru, refl)

  replay_file_lem :
      (t : Target) (path : Text) (records : List (TraceRecord ℕ))
      → parse_trace loads (files path) ≡ ok records
      → ((e : Error) → locked ≡ raise e → replay_file (default_config t) path ≡ raise e)
        × ((commit : String)
            → locked ≡ ok commit
            → (report : RunReport) × (replay_file (default_config t) path ≡ ok report)
              × IsReport commit report)
  unfolding replay_file
  replay_file_lem t path records h =
      let (c, f) = default_class t in
      let (fails, works) = (replay_lem (default_config t) records locked).1 c f in
      (
        λ e l. rw h (fails e l),
        λ commit l.
            let (report, r, m, hit, reuse, ttft, e2e) = works commit l in
            (
              report,
              rw h r,
              record {
                mooncake_commit = m;
                hit_rate = (hit.0, hit.1);
                reuse_rate = (reuse.0, reuse.1);
                ttft = (ttft.0, ttft.1);
                e2e = (e2e.0, e2e.1);
              },
            ),
      )

  -- `main` returns 2 unless it has one argument. With the path of a trace that is read and a lock
  -- that is read it raises nothing, returns 0 and prints two reports, of the locked commit, whose
  -- rates are fractions between 0 and 1 and whose percentiles are in order. What reading the trace
  -- raises it raises, and else what reading the lock raises.
  pub main_lem :
      (path : Text)
      → ((args : List Text) → length args ≢ 1 → main args ≡ ok (2, []))
        × ((e : Error) → parse_trace loads (files path) ≡ raise e → main (path ∷ []) ≡ raise e)
        × ((records : List (TraceRecord ℕ))
            → parse_trace loads (files path) ≡ ok records
            → ((e : Error) → locked ≡ raise e → main (path ∷ []) ≡ raise e)
              × ((commit : String)
                  → locked ≡ ok commit
                  → (b : RunReport) × (p : RunReport) × (main (path ∷ []) ≡ ok (0, b ∷ p ∷ []))
                    × IsReport commit b
                    × IsReport commit p))
  unfolding main replay_file
  main_lem path = (
    elim [ [] ↦ λ h. refl | ◌∷◌ a [] ↦ λ h. absurd (h refl) | ◌∷◌ a (◌∷◌ b args) ↦ λ h. refl ],
    λ e h. rw h refl,
    λ records h. (
      λ e l. rw (main, (replay_file_lem baseline path records h).0 e l) refl,
      λ commit l.
          let (b, i, v) = (replay_file_lem baseline path records h).1 commit l in
          let (p, j, w) = (replay_file_lem project path records h).1 commit l in
          (b, p, rw (main, i, j) refl, v, w),
    ),
  )
