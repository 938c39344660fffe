-- ===== src/Tests/Policies.antt =====
-- The cache policies at concrete states.
use mooncake_kvcache_tiered.Base.{
  ℕ, ◌+◌, ◌≡◌, refl, max, true, false, some, [], ◌∷◌, arith, ok, ℕ_discrete, same, count, nat_key,
  newest, length, ◌≤◌, List,
}
use mooncake_kvcache_tiered.Dict.{Dict, lookup, contains, occurs, set, move_to_end}
use mooncake_kvcache_tiered.Dict
use mooncake_kvcache_tiered.Dict.Trim.{trim}
use mooncake_kvcache_tiered.Policy.Lru.{LruPolicy}
use mooncake_kvcache_tiered.Policy.Lru
use mooncake_kvcache_tiered.Policy.Lru.Newest.{run, recency}
use mooncake_kvcache_tiered.Policy.Lru.Recency.{run-newest}
use mooncake_kvcache_tiered.Policy.Sieve.{SievePolicy, Swept}
use mooncake_kvcache_tiered.Policy.Sieve
use mooncake_kvcache_tiered.Policy.Sieve.Sweep.{Takes, evict_lem}
use mooncake_kvcache_tiered.Policy.S3Fifo.{S3FifoPolicy, resident}
use mooncake_kvcache_tiered.Policy.S3Fifo
use mooncake_kvcache_tiered.Policy.S3Fifo.Laws.{occurs-admit}
use mooncake_kvcache_tiered.Policy.S3Fifo.Scan.{access_all, IsNew, IsOnce, access_all-main}
use mooncake_kvcache_tiered.Policy.PrefixLru.{victim}
use mooncake_kvcache_tiered.Policy.S3FifoPrefix.{S3FifoPrefixPolicy}
use mooncake_kvcache_tiered.Policy.Calls.{Call, mentions, run_calls, run_calls_lem}
use mooncake_kvcache_tiered.Policy.Registry.{
  instantiate, PolicyClass, find_class, policy_of, make_policy,
}

abbrev lru_of : ℕ → LruPolicy ℕ
lru_of cap = record { capacity = cap; store = [] }

lru_two : Lru.init 2 ≡ ok (lru_of 2)
unfolding Lru.init
lru_two = refl

lru_three : Lru.init 3 ≡ ok (lru_of 3)
unfolding Lru.init
lru_three = refl

run-newest_example :
    (run (1 ∷ 2 ∷ 1 ∷ 3 ∷ []) (lru_of 2)).store ≡ newest 2 (recency (1 ∷ 2 ∷ 1 ∷ 3 ∷ []) [])
run-newest_example = run-newest 2 (lru_of 2) (1 ∷ 2 ∷ 1 ∷ 3 ∷ []) lru_two

hit_of_two : (Lru.access 1 0 (run (1 ∷ 2 ∷ []) (lru_of 2))).2 ≡ true
unfolding Lru.access run Lru.admit contains trim move_to_end set lookup Dict.remove ℕ_discrete
hit_of_two = refl

-- The hand stands at a visited key.
abbrev sieve_full : SievePolicy ℕ
sieve_full = record { capacity = 2; store = (1, false) ∷ (2, true) ∷ []; cursor = some 2 }

evict_lem_example :
    (r : Swept ℕ) × (Sieve.evict sieve_full
      ≡ (record sieve_full { store = r.store; cursor = r.cursor }, r.victim ∷ []))
    × Takes sieve_full.store r
evict_lem_example = evict_lem sieve_full (omega arith)

-- The small queue is full, its key was used once, and so was the oldest of the main queue.
abbrev s3fifo_full : S3FifoPolicy ℕ
s3fifo_full = record {
  capacity = 3;
  small_cap = 1;
  main_cap = 2;
  ghost_cap = 6;
  small = (1, 1) ∷ [];
  main = (2, 1) ∷ (3, 0) ∷ [];
  ghost = (4, tt) ∷ [];
}

s3fifo_full-IsValid : S3Fifo.IsValid s3fifo_full
unfolding occurs
s3fifo_full-IsValid = record {
  positive = omega arith;
  split = refl;
  small_bounded = omega arith;
  main_bounded = omega arith;
  ghost_bounded = omega arith;
  apart = λ j. ground arith;
}

occurs-admit_example :
    resident 3 (S3Fifo.admit 5 s3fifo_full).0 + count 3 (S3Fifo.admit 5 s3fifo_full).1
    ≡ max (same {K = ℕ} 3 5) (resident 3 s3fifo_full)
occurs-admit_example = occurs-admit 5 s3fifo_full s3fifo_full-IsValid 3

abbrev s3fifo_once : S3FifoPolicy ℕ
s3fifo_once = record s3fifo_full { small = (1, 0) ∷ [] }

scan-IsNew : IsNew (7 ∷ 8 ∷ 9 ∷ []) s3fifo_once
unfolding occurs
scan-IsNew = λ j. ground arith

access_all-main_example :
    ((access_all (7 ∷ 8 ∷ 9 ∷ []) 0 s3fifo_once).main ≡ s3fifo_once.main)
    × IsOnce (access_all (7 ∷ 8 ∷ 9 ∷ []) 0 s3fifo_once).small
access_all-main_example = access_all-main (7 ∷ 8 ∷ 9 ∷ []) 0 s3fifo_once scan-IsNew (refl, tt)

abbrev depths : Dict ℕ ℕ
depths = (1, 4) ∷ (2, 9) ∷ (3, 0) ∷ []

abbrev shallow : S3FifoPrefixPolicy ℕ
shallow = record { base = s3fifo_full; admit_depth = 8 }

sieve_is_known : find_class "sieve" ≡ some PolicyClass.sieve
unfolding find_class
sieve_is_known = refl

-- Two accesses and an admission of an LRU cache with room for two blocks.
abbrev three_calls : List (Call ℕ)
three_calls = Call.access 1 0 ∷ Call.access 2 1 ∷ Call.admit 3 ∷ []

makes_lru : make_policy ℕ "lru" 2 ≡ ok (PolicyClass.lru, lru_of 2)
unfolding make_policy find_class instantiate Lru.init
makes_lru = refl

run_calls_lem_example :
    (length (run_calls (policy_of ℕ PolicyClass.lru) three_calls (lru_of 2)).0.store ≤ 2)
    × ((j : ℕ)
        → (occurs j (run_calls (policy_of ℕ PolicyClass.lru) three_calls (lru_of 2)).0.store ≤ 1)
          × (occurs j (run_calls (policy_of ℕ PolicyClass.lru) three_calls (lru_of 2)).0.store
                + count j (run_calls (policy_of ℕ PolicyClass.lru) three_calls (lru_of 2)).1
              ≤ mentions j three_calls))
run_calls_lem_example = run_calls_lem "lru" 2 (PolicyClass.lru, lru_of 2) three_calls makes_lru
