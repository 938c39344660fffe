-- ===== src/Framework/WarmTiers.antt =====
-- python/bench/framework.py: what a replay over two tiers may count as a hit.
use Prim.Native.String.{String}
use mathlib.Core.List.{append_assoc, append-nil}
use mooncake_kvcache_tiered.Base.{
  ℕ, ◌+◌, ◌≤◌, ◌<◌, ◌≡◌, refl, sym, ap, subst, ◌∙◌, Bool, true, false, some, List, [], ◌∷◌, ◌++◌,
  Key, count, arith, length, ok, inl, inr, Bool-cases, Option-cases,
}
use mooncake_kvcache_tiered.Policy.{CachePolicy}
use mooncake_kvcache_tiered.Policy.Registry.{PolicyClass, find_class, policy_of, make_policy_lem}
use mooncake_kvcache_tiered.Tiered.{
  Sim, Loop, begin, serve, link, serve_all, process_request, prefetch_for_request,
}
use mooncake_kvcache_tiered.Tiered.Exclusive.{IsExclusive, prefetch-IsExclusive}
use mooncake_kvcache_tiered.Tiered.Requests.{serve-IsExclusive, link-IsExclusive}
use mooncake_kvcache_tiered.Tiered.Prefetch.{held}
use mooncake_kvcache_tiered.Tiered.Known.{prefetch-le, serve-le}
use mooncake_kvcache_tiered.Framework.{ReplayStep, rates}
use mooncake_kvcache_tiered.Framework.Replay.{
  Replayed, zip_events, replay_tiered, simulate_tiered_replay, start_tiered,
}
use mooncake_kvcache_tiered.Framework.Warm.{AllWarm, after, AllWarm-append, rates-AllWarm}

module _ {K : Type 0} ⦃key : Key K⦄ (fast slow : CachePolicy K) (m n : ℕ) where
  -- Exclusive tiers that hold none but the keys of the past.
  record IsKnown (past : List K) (s : Sim fast slow) : Type 0 where
    exclusive : IsExclusive fast slow m n s
    known : (j : K) → 0 < held fast slow j s → 0 < count j past

  link-held :
      (j k : K) (p : Loop fast slow)
      → (held fast slow j (link fast slow k p).sim ≡ held fast slow j p.sim)
        × ((link fast slow k p).block_hits ≡ p.block_hits)
  unfolding link
  link-held j k p = elim (Option-cases p.prev) [
    | inl e ↦ rw (e, link) (refl, refl)
    | inr (i, e) ↦ rw (e, link) (refl, refl)
  ]

  serve-hit :
      (k : K) (p : Loop fast slow)
      → (b : Bool) × ((serve fast slow k p).block_hits ≡ p.block_hits ++ b ∷ [])
        × (b ≡ true → 0 < held fast slow k p.sim)
  unfolding serve
  serve-hit k p = elim (Bool-cases (fast.contains k p.sim.fast)) [
    | inl hit ↦ (true, rw hit refl, λ e. ground (arith, fast.contains-occurs k p.sim.fast))
    | inr out ↦ elim (Bool-cases (slow.contains k p.sim.slow)) [
      | inl below ↦
          (true, rw (out, below) refl, λ e. ground (arith, slow.contains-occurs k p.sim.slow))
      | inr miss ↦ (false, rw (out, miss) refl, λ e. absurd cc)
    ]
  ]

  block-IsKnown :
      (past : List K) (k : K) (p : Loop fast slow)
      → IsKnown past p.sim
      → IsKnown (k ∷ past) (link fast slow k (serve fast slow k p)).sim
  block-IsKnown past k p v = record {
    exclusive =
        link-IsExclusive fast slow m n k (serve fast slow k p)
          (serve-IsExclusive fast slow m n k p v.exclusive);
    known = λ j. ground (
      arith,
      (link-held j k (serve fast slow k p)).0,
      serve-le fast slow m n j k p v.exclusive,
      v.known j,
    );
  }

  serve_all-AllWarm :
      (past : List K) (ks : List K) (p : Loop fast slow)
      → IsKnown past p.sim
      → (bs : List Bool) × ((serve_all fast slow ks p).block_hits ≡ p.block_hits ++ bs)
        × AllWarm past (zip_events ks bs)
        × IsKnown (after past (zip_events ks bs)) (serve_all fast slow ks p).sim
  unfolding serve_all zip_events
  serve_all-AllWarm past [] p v =
      ([], sym (append-nil p.block_hits), tt, record { exclusive = v.exclusive; known = v.known })
  serve_all-AllWarm past (k ∷ ks) p v =
      let q = link fast slow k (serve fast slow k p) in
      let (b, e, h) = serve-hit k p in
      let (bs, f, w, u) = serve_all-AllWarm (k ∷ past) ks q (block-IsKnown past k p v) in
      (
        b ∷ bs,
        f
            ∙ ap (λ xs. xs ++ bs) ((link-held k k (serve fast slow k p)).1 ∙ e)
            ∙ append_assoc p.block_hits (b ∷ []) bs,
        (λ i. v.known k (h i), w),
        record { exclusive = u.exclusive; known = u.known },
      )

  process_request-AllWarm :
      (past : List K) (ks : List K) (s : Sim fast slow)
      → IsKnown past s
      → AllWarm past (zip_events ks (process_request fast slow ks s).1.block_hits)
        × IsKnown
            (after past (zip_events ks (process_request fast slow ks s).1.block_hits))
            (process_request fast slow ks s).0
  unfolding process_request
  process_request-AllWarm past ks s v =
      let s' = (prefetch_for_request fast slow ks s).0 in
      let known : IsKnown past s' = record {
        exclusive = prefetch-IsExclusive fast slow m n ks s v.exclusive;
        known = λ j. ground (arith, prefetch-le fast slow m n j ks s v.exclusive, v.known j);
      } in
      let (bs, e, w, u) = serve_all-AllWarm past ks (begin fast slow s') known in
      subst
        (λ cs.
          AllWarm past (zip_events ks cs)
          × IsKnown (after past (zip_events ks cs))
              (serve_all fast slow ks (begin fast slow s')).sim)
        (sym e) (w, record { exclusive = u.exclusive; known = u.known })

  replay_tiered-AllWarm :
      (past : List K) (plan : List (ReplayStep K)) (s : Sim fast slow)
      → IsKnown past s
      → AllWarm past (replay_tiered fast slow plan s).events
  unfolding replay_tiered
  replay_tiered-AllWarm past [] s v = tt
  replay_tiered-AllWarm past (step ∷ plan) s v =
      let ks = step.trace_record.hash_ids in
      let (s', outcome) = process_request fast slow ks s in
      let (w, u) = process_request-AllWarm past ks s v in
      AllWarm-append past (zip_events ks outcome.block_hits)
        (replay_tiered fast slow plan s').events w
        (replay_tiered-AllWarm (after past (zip_events ks outcome.block_hits)) plan s'
          (record { exclusive = u.exclusive; known = u.known }))

module _ {K : Type 0} ⦃key : Key K⦄ where
  -- The replay over two tiers that are not empty raises nothing, for a fast policy of any known class,
  -- with or without prefetching. Each of its hits is on a block that the trace asked for before. So,
  -- if there is any event, the first time of each block is a miss: the hits and the different blocks,
  -- which `rates` counts, are no more than the events.
  pub simulate_tiered_replay-AllWarm :
      (plan : List (ReplayStep K)) (m n : ℕ) (name : String) (prefetch : Bool) (c : PolicyClass)
      → find_class name ≡ some c
      → 0 < m
      → 0 < n
      → (r : Replayed K) × (simulate_tiered_replay plan m n name prefetch ≡ ok r)
        × AllWarm [] r.events
        × (0 < length r.events
            → (rates r.events).0.num + (rates r.events).1.den ≤ (rates r.events).0.den)
  unfolding simulate_tiered_replay find_class
  simulate_tiered_replay-AllWarm plan m n name prefetch c e h g =
      let (f, i, v, size, empty) = make_policy_lem K name c m e h in
      let (s, j, v', size', empty') = make_policy_lem K "lru" PolicyClass.lru n refl g in
      let fast = policy_of K c in
      let slow = policy_of K PolicyClass.lru in
      let sim = start_tiered fast slow f s prefetch in
      let known : IsKnown fast slow m n [] sim = record {
        exclusive = record {
          fast_valid = v;
          slow_valid = v';
          fast_capacity = size;
          slow_capacity = size';
          once = λ k. omega (arith, empty k, empty' k);
        };
        known = λ k q. absurd (omega (arith, q, empty k, empty' k));
      } in
      let w = replay_tiered-AllWarm fast slow m n [] plan sim known in
      (
        replay_tiered fast slow plan sim,
        rw (i, j) refl,
        w,
        λ q. rates-AllWarm (replay_tiered fast slow plan sim).events w q,
      )
