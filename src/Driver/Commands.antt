-- ===== src/Driver/Commands.antt =====
-- python/bench/replay_cpp.py and python/bench/replay_multitenant.py: the two command lines. The
-- constructor of the compiled store is given: it takes the bytes of the two layers and the weights of
-- the tenants 1 and 2 in percent, if there are any.
use mooncake_kvcache_tiered.Base.{
  ℕ, max, ◌+◌, ◌*◌, ◌≡◌, refl, if◌then◌else◌, Option, none, some, List, [], ◌∷◌, length, get_elem?,
  Result, ok, ◌>>=◌, All, arith, eq, ℕ_discrete,
}
use mooncake_kvcache_tiered.Text.{Text, text_key, text_dec, int_of}
use mooncake_kvcache_tiered.Json.{Json, traverse}
use mooncake_kvcache_tiered.Framework.{TraceRecord, Ratio}
use mooncake_kvcache_tiered.Framework.Report.{IsFraction}
use mooncake_kvcache_tiered.Framework.Trace.{parse_trace}
use mooncake_kvcache_tiered.Driver.{
  BlockStore, Stats, hit_rate, limit_requests, replay, replay_pair, flood_records,
}
use mooncake_kvcache_tiered.Driver.Counts.{blocks_of, replay_counts, tally_pair_counts}

-- `_BLOCK_BYTES`
abbrev pub block_bytes : ℕ
block_bytes = 256

-- `"FLOOD"`
abbrev pub flood_name : Text
flood_name = 70 ∷ 76 ∷ 79 ∷ 79 ∷ 68 ∷ []

-- The argument at a place, or a default.
unfoldable pub int_or : List Text → ℕ → ℕ → Result ℕ
int_or args i default = elim (get_elem? args i) [ none ↦ ok default | some t ↦ int_of t ]

unfoldable pub limit_of : List Text → Result (Option ℕ)
limit_of args = elim (get_elem? args 2) [ none ↦ ok none | some t ↦ int_of t >>= λ n. ok (some n) ]

-- The four sets of weights that are compared.
abbrev pub weight_sets : List (Option (ℕ × ℕ))
weight_sets = none ∷ some (50, 50) ∷ some (75, 25) ∷ some (90, 10) ∷ []

-- A fraction between 0 and 1 of the blocks of all requests, or of one if there are none.
abbrev pub IsRate : List (TraceRecord ℕ) → Ratio → Type 0
IsRate records r = IsFraction r × (r.den ≡ max 1 (blocks_of records))

module _ (store : BlockStore) (open_store : ℕ → ℕ → Option (ℕ × ℕ) → store.State)
    (loads : Text → Result Json) (files : Text → Option (List Text)) where
  -- `main` of replay_cpp.py; `none` is the exit with the usage.
  unfoldable pub replay_command : List Text → Result (Option Stats)
  replay_command [] = ok none
  replay_command (path ∷ rest) = do
    fast_blocks ← int_or rest 0 4096
    slow_factor ← int_or rest 1 4
    max_requests ← limit_of rest
    records ← parse_trace loads (files path)
    ok (
        some (
          replay store records max_requests (
            open_store (fast_blocks * block_bytes) (fast_blocks * slow_factor * block_bytes) none)))

  unfoldable pub second_records : Text → List (TraceRecord ℕ) → Result (List (TraceRecord ℕ))
  second_records path_b records_a =
      if eq path_b flood_name
      then ok (flood_records (length records_a) 32)
      else parse_trace loads (files path_b)

  unfoldable pub replay_paths : Text → Text → ℕ → ℕ → Option (ℕ × ℕ) → Result (Ratio × Ratio)
  replay_paths path_a path_b fast_blocks slow_factor weights = do
    records_a ← parse_trace loads (files path_a)
    records_b ← second_records path_b records_a
    ok (
        replay_pair store records_a records_b (
          open_store (fast_blocks * block_bytes) (fast_blocks * slow_factor * block_bytes) weights))

  -- `main` of replay_multitenant.py.
  unfoldable pub pair_command : List Text → Result (Option (List (Ratio × Ratio)))
  pair_command [] = ok none
  pair_command (path_a ∷ []) = ok none
  pair_command (path_a ∷ path_b ∷ rest) = do
    fast_blocks ← int_or rest 0 4096
    slow_factor ← int_or rest 1 4
    rates ← traverse (replay_paths path_a path_b fast_blocks slow_factor) weight_sets
    ok (some rates)

  -- Without arguments `main` of replay_cpp.py prints its usage. With the path of a trace that is read
  -- and numbers that are read, or are left out, it counts the requests up to the limit and each of
  -- their blocks as a hit or a miss, and the rate is a fraction between 0 and 1.
  replay_command_lem :
      (path : Text) (rest : List Text) (fast_blocks slow_factor : ℕ) (max_requests : Option ℕ)
      (records : List (TraceRecord ℕ))
      → int_or rest 0 4096 ≡ ok fast_blocks
      → int_or rest 1 4 ≡ ok slow_factor
      → limit_of rest ≡ ok max_requests
      → parse_trace loads (files path) ≡ ok records
      → (replay_command [] ≡ ok none)
        × (q : Stats) × (replay_command (path ∷ rest) ≡ ok (some q))
        × (q.requests ≡ length (limit_requests max_requests records))
        × (q.blocks ≡ blocks_of (limit_requests max_requests records))
        × (q.hits + q.misses ≡ q.blocks)
        × IsFraction q.rate
  unfolding replay_command
  replay_command_lem path rest fast_blocks slow_factor max_requests records e f g h =
      let s =
        open_store (fast_blocks * block_bytes) (fast_blocks * slow_factor * block_bytes) none in
      let (requests, blocks, sum, le, positive) = replay_counts store records max_requests s in
      (
        refl,
        replay store records max_requests s,
        rw (e, f, g, h) refl,
        requests,
        blocks,
        sum,
        (le, positive),
      )

  second_records-flood :
      (records_a : List (TraceRecord ℕ))
      → second_records flood_name records_a ≡ ok (flood_records (length records_a) 32)
  unfolding second_records text_dec ℕ_discrete
  second_records-flood records_a = refl

  replay_pair-IsRate :
      (xs ys : List (TraceRecord ℕ)) (s : store.State)
      → IsRate xs (replay_pair store xs ys s).0 × IsRate ys (replay_pair store xs ys s).1
  unfolding replay_pair hit_rate
  replay_pair-IsRate xs ys s =
      let (a, b, le_a, le_b) = tally_pair_counts store xs ys s in
      (((ground arith, ground arith), ground arith), ((ground arith, ground arith), ground arith))

  -- With fewer than two arguments `main` of replay_multitenant.py prints its usage. With the path of a
  -- trace that is read, a second trace that is read or is the flood, and numbers that are read or are
  -- left out, it prints a pair of rates for each of the four sets of weights, all of them fractions
  -- between 0 and 1 of the blocks of all requests of their trace. The flood has as many requests as the first trace.
  pub pair_command_lem :
      (path_a path_b : Text) (rest : List Text) (fast_blocks slow_factor : ℕ)
      (records_a records_b : List (TraceRecord ℕ))
      → int_or rest 0 4096 ≡ ok fast_blocks
      → int_or rest 1 4 ≡ ok slow_factor
      → parse_trace loads (files path_a) ≡ ok records_a
      → second_records path_b records_a ≡ ok records_b
      → (pair_command [] ≡ ok none)
        × (pair_command (path_a ∷ []) ≡ ok none)
        × (second_records flood_name records_a ≡ ok (flood_records (length records_a) 32))
        × (rates : List (Ratio × Ratio)) × (pair_command (path_a ∷ path_b ∷ rest) ≡ ok (some rates))
        × (length rates ≡ 4)
        × All (λ r. IsRate records_a r.0 × IsRate records_b r.1) rates
  unfolding pair_command replay_paths traverse
  pair_command_lem path_a path_b rest fast_blocks slow_factor records_a records_b e f g h =
      let rate : Option (ℕ × ℕ) → Ratio × Ratio = λ weights. replay_pair store records_a records_b (
        open_store (fast_blocks * block_bytes) (fast_blocks * slow_factor * block_bytes) weights) in
      let fair = λ (weights : Option (ℕ × ℕ)). replay_pair-IsRate records_a records_b (
        open_store (fast_blocks * block_bytes) (fast_blocks * slow_factor * block_bytes) weights) in
      (
        refl,
        refl,
        second_records-flood records_a,
        rate none ∷ rate (some (50, 50)) ∷ rate (some (75, 25)) ∷ rate (some (90, 10)) ∷ [],
        rw (e, f, g, h) refl,
        refl,
        (fair none, (fair (some (50, 50)), (fair (some (75, 25)), (fair (some (90, 10)), tt)))),
      )
