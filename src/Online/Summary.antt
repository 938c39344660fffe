-- ===== src/Online/Summary.antt =====
-- scripts/bench_online.py: the sessions that `run` starts with, and the numbers that it prints, not
-- rounded. A quotient is a pair, of the numerator and the denominator.
use mooncake_kvcache_tiered.Base.{
  ℕ, zero, suc, ◌+◌, ◌-◌, ◌*◌, ◌/◌, ◌%◌, min, Option, none, some, List, [], ◌∷◌, ◌++◌, map, length,
  at_index, total, Result, ok, raise, value_error, zero_division, ◌>>=◌, if◌then◌else◌, ◌==◌,
}
use mooncake_kvcache_tiered.Text.{Text}
use mooncake_kvcache_tiered.Json.{Json}
use mooncake_kvcache_tiered.Framework.{Ratio, sorted}
use mooncake_kvcache_tiered.Online.{Random, make_text}
use mooncake_kvcache_tiered.Online.Dataset.{load_sharegpt}
use mooncake_kvcache_tiered.Online.Request.{Sample}
use mooncake_kvcache_tiered.Online.Schedule.{Config}

-- Each prefix with its questions.
unfoldable pub pair_up : List Text → List (List Text) → List (Text × Option (List Text))
pair_up [] qs = []
pair_up (p ∷ ps) [] = []
pair_up (p ∷ ps) (q ∷ qs) = (p, some q) ∷ pair_up ps qs

module _ (random : Random) where
  -- Sessions that share their first words and have no questions of their own.
  unfoldable pub extend_prefix :
      Text → ℕ → random.State → random.State × List (Text × Option (List Text))
  extend_prefix shared_prefix zero rng = (rng, [])
  extend_prefix shared_prefix (suc n) rng =
      let (rng', text) = make_text random 512 rng in
      let (rng'', rest) = extend_prefix shared_prefix n rng' in
      (rng'', (shared_prefix ++ 32 ∷ text, none) ∷ rest)

  -- `sharegpt` is nothing if no file is named, or what is at the path.
  unfoldable pub open_sessions :
      (Text → Result Json)
      → Config
      → Option (Option Text)
      → Result (random.State × List (Text × Option (List Text)))
  open_sessions loads cfg none =
      let (rng, shared_prefix) = make_text random cfg.prefix_tokens (random.seed 42) in
      ok (extend_prefix shared_prefix cfg.sessions rng)
  open_sessions loads cfg (some file) =
      load_sharegpt random loads file cfg.sessions (cfg.prefix_tokens * 4) (random.seed 42) >>= λ r.
      ok (r.0, pair_up r.1 r.2)

-- `statistics.median`, of sorted values.
unfoldable pub median : List ℕ → Result Ratio
median [] = raise value_error
median (x ∷ xs) =
    let n = length (x ∷ xs) in
    let one = at_index (x ∷ xs) (n / 2) >>= λ v. ok (record { num = v; den = 1 }) in
    let two = at_index (x ∷ xs) (n / 2 - 1) >>= λ v.
    at_index (x ∷ xs) (n / 2) >>= λ w. ok (record { num = v + w; den = 2 }) in
    if n % 2 == 1 then one else two

-- `p(0.95)`
unfoldable pub p95 : List ℕ → Result ℕ
p95 ttfts = at_index ttfts (min (length ttfts - 1) (95 * length ttfts / 100))

-- `statistics.mean`
unfoldable pub mean : List ℕ → Result Ratio
mean [] = raise value_error
mean (x ∷ xs) = ok (record { num = total (λ t. t) (x ∷ xs); den = length (x ∷ xs) })

unfoldable pub divide : ℕ → ℕ → Result Ratio
divide a zero = raise zero_division
divide a (suc b) = ok (record { num = a; den = suc b })

pub record Summary : Type 0 where
  pub requests : ℕ
  pub ttft_p50 : Ratio
  pub ttft_p95 : ℕ
  pub ttft_mean : Ratio
  pub wall : ℕ
  pub gen_tokens : ℕ
  pub token_rate : Ratio

unfoldable pub summarize : List Sample → ℕ → Result Summary
summarize results wall =
    let ttfts = sorted (map (λ s. s.ttft) results) in
    let total_tokens = total (λ s. s.tokens) results in
    median ttfts >>= λ a. p95 ttfts >>= λ b. mean ttfts >>= λ c. divide total_tokens wall >>= λ d.
    ok (record {
      requests = length results;
      ttft_p50 = a;
      ttft_p95 = b;
      ttft_mean = c;
      wall = wall;
      gen_tokens = total_tokens;
      token_rate = d;
    })
