-- ===== src/Online/Opening.antt =====
-- scripts/bench_online.py: lemmas on the sessions that `run` starts with.
use mooncake_kvcache_tiered.Base.{ℕ, ◌≡◌, Option, List, length}
use mooncake_kvcache_tiered.Text.{Text}
use mooncake_kvcache_tiered.Json.{Json}
use mooncake_kvcache_tiered.Online.{Random}
use mooncake_kvcache_tiered.Online.Summary.{pair_up}

module _ (random : Random) where
  abbrev Started : ℕ → random.State × List (Text × Option (List Text)) → Type 0
  Started n r = length r.1 ≡ n

  abbrev Built : ℕ → random.State × List (Text × List Text) → Type 0
  Built n r = length r.1 ≡ n

  abbrev Loaded : ℕ → random.State × List Text × List (List Text) → Type 0
  Loaded n r = length (pair_up r.1 r.2) ≡ n
