-- ===== src/Shootout/Rows.antt =====
-- python/bench/shootout.py: lemmas on the rows that are printed.
use mooncake_kvcache_tiered.Base.{
  ℕ, suc, ◌-◌, ◌*◌, ◌/◌, ◌≤◌, ◌<◌, ◌≡◌, inr, refl, ap, subst, ◌∙◌, min, some, Option, List, [], ◌∷◌,
  map, length, arith, All, Result, ok, raise, value_error, index_error, at_index, nat_key,
}
use mathlib.Core.List.{Perm}
use mooncake_kvcache_tiered.Text.{Text}
use mooncake_kvcache_tiered.Json.{Json, traverse}
use mooncake_kvcache_tiered.Policy.Registry.{
  PolicyClass, lru, sieve, s3fifo, prefix_lru, s3fifo_prefix, find_class, make_policy-raises,
}
use mooncake_kvcache_tiered.Framework.{
  ReplayStep, TraceRecord, rates, sorted, build_replay_plan, plan_from,
}
use mooncake_kvcache_tiered.Framework.Order.{
  sorted-Sorted, length-sorted, at_index-sorted, get_elem?-mono,
}
use mooncake_kvcache_tiered.Framework.Rates.{rates_lem}
use mooncake_kvcache_tiered.Framework.Replay.{simulate_replay, throughput}
use mooncake_kvcache_tiered.Framework.Report.{IsFraction}
use mooncake_kvcache_tiered.Framework.Samples.{simulate_replay_lem}
use mooncake_kvcache_tiered.Framework.Trace.{parse_trace}
use mooncake_kvcache_tiered.Shootout.{
  Row, name_of, sorted_policies, run_policy, sort_rows, compare_policies, pool_of, main,
}
use mooncake_kvcache_tiered.Shootout.Ranking.{
  IsRanked, sort_rows-IsRanked, Perm-sort_rows, All-sort_rows,
}

-- The percentiles are in order, and the rates fractions.
pub record IsRow (r : Row) : Type 0 where
  pub ordered : r.p50 ≤ r.p99
  pub hit_rate : IsFraction r.hit_rate
  pub reuse : IsFraction r.reuse

find_class-name_of : (c : PolicyClass) → find_class (name_of c) ≡ some c
unfolding find_class
find_class-name_of lru = refl
find_class-name_of sieve = refl
find_class-name_of s3fifo = refl
find_class-name_of prefix_lru = refl
find_class-name_of s3fifo_prefix = refl

run_policy_lem :
    (plan : List (ReplayStep ℕ)) (pool : ℕ) (c : PolicyClass)
    → 0 < length plan
    → 0 < pool
    → (r : Row) × (run_policy plan pool c ≡ ok r) × (r.policy ≡ c) × IsRow r
unfolding run_policy
run_policy_lem plan pool c h g =
    let (r, i, v, m) = simulate_replay_lem plan pool (name_of c) c (find_class-name_of c) g in
    let n = length r.ttft_samples in
    let many : 0 < n = omega (arith, v.sampled) in
    let (p50, e, f, low, low') = at_index-sorted r.ttft_samples (n / 2) (omega arith) in
    let (p99, e', f', up, up') =
      at_index-sorted r.ttft_samples (min (n - 1) (99 * n / 100)) (omega arith) in
    let (a, b, x, y, z, w) = rates_lem r.events in
    (
      record {
        hit_rate = (rates r.events).0;
        policy = c;
        p50 = p50;
        p99 = p99;
        reuse = (rates r.events).1;
        throughput = throughput r;
      },
      rw (i, length-sorted r.ttft_samples, e, e') refl,
      refl,
      record {
        ordered =
            get_elem?-mono (sorted r.ttft_samples) (n / 2) (min (n - 1) (99 * n / 100)) p50 p99
              (sorted-Sorted r.ttft_samples) (omega arith) f f';
        hit_rate = (a, b);
        reuse = (x, y);
      },
    )

run_policy-zero :
    (plan : List (ReplayStep ℕ)) (c : PolicyClass) → run_policy plan 0 c ≡ raise value_error
unfolding run_policy simulate_replay
run_policy-zero plan c = rw ((make_policy-raises ℕ (name_of c) 0).1 (inr refl)) refl

at_index-none : (xs : List ℕ) (i : ℕ) → length xs ≡ 0 → at_index xs i ≡ raise index_error
at_index-none [] i h = refl
at_index-none (x ∷ xs) i h = absurd (omega arith)

run_policy-none :
    (plan : List (ReplayStep ℕ)) (pool : ℕ) (c : PolicyClass)
    → length plan ≡ 0
    → 0 < pool
    → run_policy plan pool c ≡ raise index_error
unfolding run_policy
run_policy-none plan pool c h g =
    let (r, i, v, m) = simulate_replay_lem plan pool (name_of c) c (find_class-name_of c) g in
    rw
      (
        i,
        at_index-none (sorted r.ttft_samples) (length (sorted r.ttft_samples) / 2)
            (length-sorted r.ttft_samples ∙ v.sampled ∙ h),
      )
      refl

length-plan_from : (i : ℕ) (rs : List (TraceRecord ℕ)) → length (plan_from i rs) ≡ length rs
unfolding plan_from
length-plan_from i [] = refl
length-plan_from i (r ∷ rs) = ap suc (length-plan_from (suc i) rs)

length-build_replay_plan : (rs : List (TraceRecord ℕ)) → length (build_replay_plan rs) ≡ length rs
unfolding build_replay_plan
length-build_replay_plan rs = length-plan_from 0 rs

compare_policies_lem :
    (plan : List (ReplayStep ℕ)) (pool : ℕ)
    → 0 < length plan
    → 0 < pool
    → (rows : List Row) × (compare_policies plan pool ≡ ok rows)
      × Perm (map (λ r. r.policy) rows) sorted_policies
      × IsRanked rows
      × All IsRow rows
unfolding compare_policies traverse
compare_policies_lem plan pool h g =
    let (a, ia, ca, va) = run_policy_lem plan pool lru h g in
    let (b, ib, cb, vb) = run_policy_lem plan pool prefix_lru h g in
    let (c, ic, cc', vc) = run_policy_lem plan pool s3fifo h g in
    let (d, id, cd, vd) = run_policy_lem plan pool s3fifo_prefix h g in
    let (e, ie, ce, ve) = run_policy_lem plan pool sieve h g in
    let rows = a ∷ b ∷ c ∷ d ∷ e ∷ [] in
    let names : map (λ r. r.policy) rows ≡ sorted_policies = rw (ca, cb, cc', cd, ce) refl in
    (
      sort_rows rows,
      rw (ia, ib, ic, id, ie) refl,
      subst (λ cs. Perm (map (λ r. r.policy) (sort_rows rows)) cs) names (Perm-sort_rows rows),
      sort_rows-IsRanked rows,
      All-sort_rows IsRow rows (va, (vb, (vc, (vd, (ve, tt))))),
    )

module _ (loads : Text → Result Json) (files : Text → Option (List Text)) where
  -- `main` returns 2 without arguments. With a trace and a number of blocks that are read it raises
  -- `ValueError` for no blocks and `IndexError` for a trace without requests. For any others it
  -- raises nothing, returns 0 and prints a row for each of the five policies, exactly once: none has
  -- a lower hit rate than the next, nor with the same rate a smaller name; in each p50 is at most p99
  -- and the rates are fractions between 0 and 1.
  pub main-IsRanked :
      (path : Text) (rest : List Text) (pool : ℕ) (records : List (TraceRecord ℕ))
      → pool_of loads files rest ≡ ok pool
      → parse_trace loads (files path) ≡ ok records
      → (main loads files [] ≡ ok (2, []))
        × (pool ≡ 0 → main loads files (path ∷ rest) ≡ raise value_error)
        × (0 < pool → records ≡ [] → main loads files (path ∷ rest) ≡ raise index_error)
        × (0 < pool
            → 0 < length records
            → (rows : List Row) × (main loads files (path ∷ rest) ≡ ok (0, rows))
              × Perm (map (λ r. r.policy) rows) sorted_policies
              × IsRanked rows
              × All IsRow rows)
  unfolding main compare_policies traverse
  main-IsRanked path rest pool records h g = (
    refl,
    λ e. rw (h, g, e, run_policy-zero (build_replay_plan records) lru) refl,
    λ p e.
        rw
          (
            h,
            g,
            run_policy-none (build_replay_plan records) pool lru
                (length-build_replay_plan records ∙ ap length e) p,
          )
          refl,
    λ p n.
        let (rows, i, v, w, z) =
          compare_policies_lem (build_replay_plan records) pool
            (omega (arith, length-build_replay_plan records)) p in
        (rows, rw (h, g, i) refl, v, w, z),
  )
