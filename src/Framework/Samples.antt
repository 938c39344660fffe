-- ===== src/Framework/Samples.antt =====
-- python/bench/framework.py: lemmas on what a replay logs and measures.
use Prim.Native.String.{String}
use mooncake_kvcache_tiered.Base.{
  ℕ, suc, ◌+◌, ◌*◌, ◌≤◌, ◌<◌, ◌≡◌, refl, ap, ◌∙◌, Bool, some, List, [], ◌∷◌, ◌++◌, map, Key, arith,
  length, length-map, length-append, ok,
}
use mooncake_kvcache_tiered.Policy.{CachePolicy}
use mooncake_kvcache_tiered.Policy.Registry.{PolicyClass, find_class, policy_of, make_policy_lem}
use mooncake_kvcache_tiered.Tiered.{TieredCosts, Sim, default_costs, process_request}
use mooncake_kvcache_tiered.Tiered.Outcome.{process_request_counts}
use mooncake_kvcache_tiered.Framework.{ReplayStep, AccessEvent, hit_count}
use mooncake_kvcache_tiered.Framework.Replay.{
  Replayed, add_request, zip_events, access_blocks, replay_plan, replay_tiered, simulate_replay,
  simulate_tiered_replay, start_tiered, nothing,
}

module _ {K : Type 0} where
  -- The keys of all requests, in the order of the trace.
  abbrev pub keys_of : List (ReplayStep K) → List K
  keys_of [] = []
  keys_of (step ∷ plan) = step.trace_record.hash_ids ++ keys_of plan

  abbrev pub tokens_of : List (ReplayStep K) → ℕ
  tokens_of [] = 0
  tokens_of (step ∷ plan) =
      step.trace_record.input_length + step.trace_record.output_length + tokens_of plan

  abbrev pub event_keys : List (AccessEvent K) → List K
  event_keys = map (λ e. e.hash_id)

  event_keys-append :
      (es fs : List (AccessEvent K)) → event_keys (es ++ fs) ≡ event_keys es ++ event_keys fs
  event_keys-append [] fs = refl
  event_keys-append (e ∷ es) fs = ap (◌∷◌ e.hash_id) (event_keys-append es fs)

abbrev pub sum : List ℕ → ℕ
sum [] = 0
sum (x ∷ xs) = x + sum xs

-- The lists are equally long, and no element of the first is above its partner.
abbrev pub Within : List ℕ → List ℕ → Type 0
Within [] [] = Unit {0}
Within [] (y ∷ ys) = ⊥
Within (x ∷ xs) [] = ⊥
Within (x ∷ xs) (y ∷ ys) = (x ≤ y) × Within xs ys

module _ {K : Type 0} where
  -- The log has the keys of the trace in its order; there is a sample of each kind for each request,
  -- the time to the first token never above the latency; the totals are those of the requests.
  pub record IsSampled (plan : List (ReplayStep K)) (r : Replayed K) : Type 0 where
    pub logged : event_keys r.events ≡ keys_of plan
    pub sampled : length r.ttft_samples ≡ length plan
    pub within : Within r.ttft_samples r.e2e_samples
    pub tokens : r.total_tokens ≡ tokens_of plan
    pub time : r.total_time ≡ sum r.e2e_samples

  add_request-IsSampled :
      (step : ReplayStep K) (events : List (AccessEvent K)) (ttft : ℕ) (costs : TieredCosts)
      (plan : List (ReplayStep K)) (r : Replayed K)
      → event_keys events ≡ step.trace_record.hash_ids
      → IsSampled plan r
      → IsSampled (step ∷ plan) (add_request step.trace_record events ttft costs r)
  add_request-IsSampled step events ttft costs plan r h v = record {
    logged =
        event_keys-append events r.events
        ∙ ap (λ ks. ks ++ event_keys r.events) h
        ∙ ap (λ ks. step.trace_record.hash_ids ++ ks) v.logged;
    sampled = ap suc v.sampled;
    within = (omega arith, v.within);
    tokens = omega (arith, v.tokens);
    time = omega (arith, v.time);
  }

  nothing-IsSampled : IsSampled [] (nothing {K = K})
  nothing-IsSampled = record {
    logged = refl;
    sampled = refl;
    within = tt;
    tokens = refl;
    time = refl;
  }

  event_keys-zip_events :
      (ks : List K) (bs : List Bool) → length bs ≡ length ks → event_keys (zip_events ks bs) ≡ ks
  unfolding zip_events
  event_keys-zip_events [] bs h = refl
  event_keys-zip_events (k ∷ ks) [] h = absurd (omega arith)
  event_keys-zip_events (k ∷ ks) (b ∷ bs) h = ap (◌∷◌ k) (event_keys-zip_events ks bs (omega arith))

module _ {K : Type 0} ⦃key : Key K⦄ (policy : CachePolicy K) where
  event_keys-access_blocks :
      (i : ℕ) (ks : List K) (s : policy.State) → event_keys (access_blocks policy i ks s).1 ≡ ks
  unfolding access_blocks
  event_keys-access_blocks i [] s = refl
  event_keys-access_blocks i (k ∷ ks) s =
      ap (◌∷◌ k) (event_keys-access_blocks (suc i) ks (policy.access k i s).0)

  access_blocks-misses :
      (i : ℕ) (ks : List K) (s : policy.State)
      → hit_count (access_blocks policy i ks s).1 + (access_blocks policy i ks s).2 ≡ length ks
  unfolding access_blocks hit_count
  access_blocks-misses i [] s = refl
  access_blocks-misses i (k ∷ ks) s =
      ground (arith, access_blocks-misses (suc i) ks (policy.access k i s).0)

  replay_plan-IsSampled :
      (plan : List (ReplayStep K)) (s : policy.State) → IsSampled plan (replay_plan policy plan s)
  unfolding replay_plan
  replay_plan-IsSampled [] s = nothing-IsSampled
  replay_plan-IsSampled (step ∷ plan) s =
      add_request-IsSampled step _ _ default_costs plan _
        (event_keys-access_blocks 0 step.trace_record.hash_ids s)
        (replay_plan-IsSampled plan (access_blocks policy 0 step.trace_record.hash_ids s).0)

  pub hit_count-append :
      (es fs : List (AccessEvent K)) → hit_count (es ++ fs) ≡ hit_count es + hit_count fs
  unfolding hit_count
  hit_count-append [] fs = omega arith
  hit_count-append (e ∷ es) fs = omega (arith, hit_count-append es fs)

  -- Each miss of the log is paid for in a time to the first token.
  replay_plan-misses :
      (plan : List (ReplayStep K)) (s : policy.State)
      → 80 * length (replay_plan policy plan s).events
        ≤ 80 * hit_count (replay_plan policy plan s).events
          + sum (replay_plan policy plan s).ttft_samples
  unfolding replay_plan hit_count
  replay_plan-misses [] s = omega arith
  replay_plan-misses (step ∷ plan) s =
      let ks = step.trace_record.hash_ids in
      let (s', events, misses) = access_blocks policy 0 ks s in
      let rest = (replay_plan policy plan s').events in
      omega (
        arith,
        replay_plan-misses plan s',
        hit_count-append events rest,
        length-append events rest,
        access_blocks-misses 0 ks s,
        ap length (event_keys-access_blocks 0 ks s),
        length-map events (λ e. e.hash_id),
      )

module _ {K : Type 0} ⦃key : Key K⦄ (fast slow : CachePolicy K) where
  replay_tiered-IsSampled :
      (plan : List (ReplayStep K)) (s : Sim fast slow)
      → IsSampled plan (replay_tiered fast slow plan s)
  unfolding replay_tiered
  replay_tiered-IsSampled [] s = nothing-IsSampled
  replay_tiered-IsSampled (step ∷ plan) s =
      let ks = step.trace_record.hash_ids in
      add_request-IsSampled step _ _ default_costs plan _
        (event_keys-zip_events ks (process_request fast slow ks s).1.block_hits
          (process_request_counts fast slow ks s).1)
        (replay_tiered-IsSampled plan (process_request fast slow ks s).0)

module _ {K : Type 0} ⦃key : Key K⦄ where
  -- With a known policy and a positive pool the replay over one policy raises nothing. Its log has
  -- the keys of the trace in its order; there is a sample of each kind for each request, a time to
  -- the first token never above its latency; the totals are those of the requests; and every miss
  -- costs 4 ms of the times to the first token.
  pub simulate_replay_lem :
      (plan : List (ReplayStep K)) (pool : ℕ) (name : String) (c : PolicyClass)
      → find_class name ≡ some c
      → 0 < pool
      → (r : Replayed K) × (simulate_replay plan pool name ≡ ok r)
        × IsSampled plan r
        × (80 * length r.events ≤ 80 * hit_count r.events + sum r.ttft_samples)
  unfolding simulate_replay
  simulate_replay_lem plan pool name c e h =
      let (s, i, v, size, empty) = make_policy_lem K name c pool e h in
      (
        replay_plan (policy_of K c) plan s,
        rw i,
        replay_plan-IsSampled (policy_of K c) plan s,
        replay_plan-misses (policy_of K c) plan s,
      )

  -- With a known policy and room in both tiers the replay over two tiers raises nothing. Its log
  -- has the keys of the trace in its order; there is a sample of each kind for each request, a time
  -- to the first token never above its latency; and the totals are those of the requests.
  pub simulate_tiered_replay_lem :
      (plan : List (ReplayStep K)) (m n : ℕ) (name : String) (prefetch : Bool) (c : PolicyClass)
      → find_class name ≡ some c
      → 0 < m
      → 0 < n
      → (r : Replayed K) × (simulate_tiered_replay plan m n name prefetch ≡ ok r) × IsSampled plan r
  unfolding simulate_tiered_replay find_class
  simulate_tiered_replay_lem plan m n name prefetch c e h g =
      let (f, i, v, size, empty) = make_policy_lem K name c m e h in
      let (s, j, v', size', empty') = make_policy_lem K "lru" PolicyClass.lru n refl g in
      let sim = start_tiered (policy_of K c) (policy_of K PolicyClass.lru) f s prefetch in
      (
        replay_tiered (policy_of K c) (policy_of K PolicyClass.lru) plan sim,
        rw (i, j),
        replay_tiered-IsSampled (policy_of K c) (policy_of K PolicyClass.lru) plan sim,
      )
