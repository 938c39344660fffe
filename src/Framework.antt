-- ===== src/Framework.antt =====
-- python/bench/framework.py: the data of the benchmark framework and its metrics. Samples are whole
-- numbers of 0.05 ms. A rate is a pair, of the numerator and the denominator.
pub mod Order
pub mod Ranks
pub mod Rates
pub mod Replay
pub mod Samples
pub mod Pools
pub mod Warm
pub mod WarmTiers
pub mod Report
pub mod Trace
pub mod Main
use mooncake_kvcache_tiered.Base.{
  ℕ, zero, suc, ◌+◌, ◌-◌, ◌*◌, ◌/◌, max, Bool, true, false, Option, none, some, List, [], ◌∷◌, Key,
  if◌then◌else◌, leb, length, get_elem?, Result, ok, raise, value_error, index_error, ◌>>=◌,
}
use mooncake_kvcache_tiered.Dict.{Dict, set}

pub record TraceRecord (K : Type 0) : Type 0 where
  pub timestamp : ℕ
  pub input_length : ℕ
  pub output_length : ℕ
  pub hash_ids : List K

pub record ReplayStep (K : Type 0) : Type 0 where
  pub arrival_index : ℕ
  pub trace_record : TraceRecord K

pub record Percentiles : Type 0 where
  pub p50 : ℕ
  pub p90 : ℕ
  pub p99 : ℕ

pub record AccessEvent (K : Type 0) : Type 0 where
  pub hash_id : K
  pub hit : Bool

pub record Ratio : Type 0 where
  pub num : ℕ
  pub den : ℕ

-- `enumerate(records)` from `i` on.
unfoldable pub plan_from : {K : Type 0} → ℕ → List (TraceRecord K) → List (ReplayStep K)
plan_from i [] = []
plan_from i (r ∷ rs) = record { arrival_index = i; trace_record = r } ∷ plan_from (suc i) rs

unfoldable pub build_replay_plan : {K : Type 0} → List (TraceRecord K) → List (ReplayStep K)
build_replay_plan records = plan_from 0 records

-- Python's `sorted`.
unfoldable pub insert : ℕ → List ℕ → List ℕ
insert x [] = x ∷ []
insert x (y ∷ ys) = if leb x y then x ∷ y ∷ ys else y ∷ insert x ys

unfoldable pub sorted : List ℕ → List ℕ
sorted [] = []
sorted (x ∷ xs) = insert x (sorted xs)

-- `max(1, ceil(p / 100 * n))`
unfoldable pub rank : ℕ → ℕ → ℕ
rank p n = max 1 ((p * n + 99) / 100)

unfoldable pub nearest_rank : List ℕ → ℕ → Result ℕ
nearest_rank ordered p = elim (get_elem? ordered (rank p (length ordered) - 1)) [
  | none ↦ raise index_error
  | some v ↦ ok v
]

unfoldable pub percentiles : List ℕ → Result Percentiles
percentiles [] = raise value_error
percentiles (x ∷ xs) =
    let ordered = sorted (x ∷ xs) in
    nearest_rank ordered 50 >>= λ a. nearest_rank ordered 90 >>= λ b.
    nearest_rank ordered 99 >>= λ c. ok (record { p50 = a; p90 = b; p99 = c })

module _ {K : Type 0} ⦃key : Key K⦄ where
  unfoldable pub hit_count : List (AccessEvent K) → ℕ
  hit_count [] = 0
  hit_count (e ∷ es) = (if e.hit then 1 else 0) + hit_count es

  -- The loop over the events, with the sets `seen` and `reused`.
  unfoldable pub collect_keys :
      List (AccessEvent K)
      → Dict K (Unit {0})
      → Dict K (Unit {0})
      → Dict K (Unit {0}) × Dict K (Unit {0})
  collect_keys [] seen reused = (seen, reused)
  collect_keys (e ∷ es) seen reused =
      collect_keys es (set e.hash_id tt seen) (if e.hit then set e.hash_id tt reused else reused)

  -- `Cache_Hit_Rate` and `Reuse_Rate`.
  unfoldable pub rates : List (AccessEvent K) → Ratio × Ratio
  rates [] = (record { num = 0; den = 1 }, record { num = 0; den = 1 })
  rates (e ∷ es) =
      let (seen, reused) = collect_keys (e ∷ es) [] [] in
      (
        record { num = hit_count (e ∷ es); den = length (e ∷ es) },
        record { num = length reused; den = length seen },
      )
