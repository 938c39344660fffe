-- ===== src/Tiered/Outcome.antt =====
-- python/bench/tiered.py: lemmas on the result of a request.
use native.Mathlib.Nat.{mul-le-mul_left, mul-le-mul_right}
use mooncake_kvcache_tiered.Base.{
  ℕ, suc, ◌+◌, ◌*◌, ◌≤◌, max, ◌≡◌, refl, Bool, true, false, List, [], ◌∷◌, ◌++◌, Key, arith, inl,
  inr, Bool-cases, Option-cases, if◌then◌else◌, length, length-append, ◌||◌,
}
use mooncake_kvcache_tiered.Policy.{CachePolicy}
use mooncake_kvcache_tiered.Tiered.{
  TieredCosts, Sim, Loop, serve, link, serve_all, begin, ttft, prefetch_for_request,
  process_request,
}

-- The number of hits in a log.
abbrev pub count_true : List Bool → ℕ
count_true [] = 0
count_true (b ∷ bs) = (if b then 1 else 0) + count_true bs

count_true-append : (xs ys : List Bool) → count_true (xs ++ ys) ≡ count_true xs + count_true ys
count_true-append [] ys = omega arith
count_true-append (x ∷ xs) ys = omega (arith, count_true-append xs ys)

module _ {K : Type 0} ⦃key : Key K⦄ (fast slow : CachePolicy K) where
  -- What the counters say of the `n` blocks that were served.
  pub record Counted (n : ℕ) (p : Loop fast slow) : Type 0 where
    served : p.fast_hits + p.slow_hits + p.misses ≡ n
    pub logged : length p.block_hits ≡ n
    pub hits : count_true p.block_hits ≡ p.fast_hits + p.slow_hits

  serve-Counted :
      (n : ℕ) (k : K) (p : Loop fast slow) → Counted n p → Counted (suc n) (serve fast slow k p)
  serve-Counted n k p c = elim (Bool-cases (fast.contains k p.sim.fast)) [
    | inl hit ↦
        unfold serve in
        rw hit (
          ground (
            arith,
            length-append p.block_hits (true ∷ []),
            count_true-append p.block_hits (true ∷ []),
          ))
    | inr out ↦ elim (Bool-cases (slow.contains k p.sim.slow)) [
      | inl below ↦
          unfold serve in
          rw (out, below)
            (ground (
              arith,
              length-append p.block_hits (true ∷ []),
              count_true-append p.block_hits (true ∷ []),
            ))
      | inr miss ↦
          unfold serve in
          rw (out, miss)
            (ground (
              arith,
              length-append p.block_hits (false ∷ []),
              count_true-append p.block_hits (false ∷ []),
            ))
    ]
  ]

  -- The answer for a block is whether one of the tiers has it when its turn comes.
  block_hits-serve :
      (k : K) (p : Loop fast slow)
      → (serve fast slow k p).block_hits
        ≡ p.block_hits ++ (fast.contains k p.sim.fast || slow.contains k p.sim.slow) ∷ []
  unfolding serve
  block_hits-serve k p = ground arith

  link-Counted : (n : ℕ) (k : K) (p : Loop fast slow) → Counted n p → Counted n (link fast slow k p)
  link-Counted n k p c = elim (Option-cases p.prev) [
    | inl e ↦ unfold link in rw (e, link) (ground arith)
    | inr (j, e) ↦ unfold link in rw (e, link) (ground arith)
  ]

  serve_all-Counted :
      (n : ℕ) (ks : List K) (p : Loop fast slow)
      → Counted n p
      → Counted (n + length ks) (serve_all fast slow ks p)
  unfolding serve_all
  serve_all-Counted n [] p c = record {
    served = omega (arith, c.served);
    logged = omega (arith, c.logged);
    hits = c.hits;
  }
  serve_all-Counted n (k ∷ ks) p c =
      let rest =
        serve_all-Counted (suc n) ks _ (link-Counted (suc n) k _ (serve-Counted n k p c)) in
      record {
        served = omega (arith, rest.served);
        logged = omega (arith, rest.logged);
        hits = rest.hits;
      }

  -- Every block of a request is a hit of one tier or a miss, the log has an entry for each block, and
  -- its hits are those of the two tiers.
  pub process_request_counts :
      (ks : List K) (s : Sim fast slow)
      → let o = (process_request fast slow ks s).1 in
        (o.fast_hits + o.slow_hits + o.misses ≡ length ks)
        × (length o.block_hits ≡ length ks)
        × (count_true o.block_hits ≡ o.fast_hits + o.slow_hits)
  unfolding process_request
  process_request_counts ks s =
      let c =
        serve_all-Counted 0 ks (begin fast slow (prefetch_for_request fast slow ks s).0)
          (record { served = refl; logged = refl; hits = refl }) in
      (omega (arith, c.served), omega (arith, c.logged), c.hits)

  ttft_bounds :
      (c : TieredCosts) (misses slow_hits n : ℕ)
      → c.promote_per_block ≤ c.prefill_per_block
      → misses + slow_hits ≤ n
      → (c.prefill_per_block ≤ ttft fast slow c misses slow_hits)
        × (misses * c.prefill_per_block ≤ ttft fast slow c misses slow_hits)
        × (ttft fast slow c misses slow_hits ≤ max 1 n * c.prefill_per_block)
  unfolding ttft
  ttft_bounds c misses slow_hits n h le = omega (
    arith,
    mul-le-mul_right c.prefill_per_block le,
    mul-le-mul_left slow_hits h,
    mul-le-mul_right {m = n} {n = max 1 n} c.prefill_per_block (omega arith),
    mul-le-mul_right {m = 1} {n = max 1 n} c.prefill_per_block (omega arith),
  )

  -- If a promotion costs no more than the prefill of a block, the time to the first token is at least
  -- the prefill of one block and that of the misses, and at most the prefill of all blocks of the
  -- request, counted as one block if it has none.
  pub process_request_ttft :
      (ks : List K) (s : Sim fast slow)
      → s.costs.promote_per_block ≤ s.costs.prefill_per_block
      → let o = (process_request fast slow ks s).1 in
        (s.costs.prefill_per_block ≤ o.ttft)
        × (o.misses * s.costs.prefill_per_block ≤ o.ttft)
        × (o.ttft ≤ max 1 (length ks) * s.costs.prefill_per_block)
  process_request_ttft ks s h =
      let o = (process_request fast slow ks s).1 in
      unfold process_request in
      ttft_bounds s.costs o.misses o.slow_hits (length ks) h
        (omega (arith, process_request_counts ks s))
