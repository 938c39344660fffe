-- ===== src/Framework/Pools.antt =====
-- python/bench/framework.py: the replay over `lru` with two sizes of the pool.
use mooncake_kvcache_tiered.Base.{ℕ, suc, ◌≤◌, ◌<◌, ◌≡◌, refl, List, [], ◌∷◌, Key, arith, ok}
use mooncake_kvcache_tiered.Dict.{Dict}
use mooncake_kvcache_tiered.Policy.Lru.{LruPolicy, access}
use mooncake_kvcache_tiered.Policy.Lru.Newest.{use_key}
use mooncake_kvcache_tiered.Policy.Lru.Laws.{lru_policy}
use mooncake_kvcache_tiered.Policy.Lru.Inclusion.{
  IsInner, access-IsInner, access-hit-IsInner, init-IsInner,
}
use mooncake_kvcache_tiered.Policy.{CachePolicy}
use mooncake_kvcache_tiered.Policy.Registry.{make_policy, instantiate, find_class}
use mooncake_kvcache_tiered.Framework.{ReplayStep, hit_count}
use mooncake_kvcache_tiered.Framework.Replay.{Replayed, access_blocks, replay_plan, simulate_replay}
use mooncake_kvcache_tiered.Framework.Samples.{Within, hit_count-append}

module _ {K : Type 0} ⦃key : Key K⦄ where
  -- What the second replay hits and the times that it takes, against the first.
  pub record IsFaster (r q : Replayed K) : Type 0 where
    pub hits : hit_count r.events ≤ hit_count q.events
    pub ttft : Within q.ttft_samples r.ttft_samples
    pub e2e : Within q.e2e_samples r.e2e_samples
    pub tokens : q.total_tokens ≡ r.total_tokens
    pub time : q.total_time ≤ r.total_time

  access_blocks-IsInner :
      (i : ℕ) (ks : List K) (h : Dict K (Unit {0})) (s t : LruPolicy K)
      → IsInner h s t
      → (h' : Dict K (Unit {0})) × IsInner h'
          (access_blocks lru_policy i ks s).0
          (access_blocks lru_policy i ks t).0
        × (hit_count (access_blocks lru_policy i ks s).1
            ≤ hit_count (access_blocks lru_policy i ks t).1)
        × ((access_blocks lru_policy i ks t).2 ≤ (access_blocks lru_policy i ks s).2)
  unfolding access_blocks hit_count
  access_blocks-IsInner i [] h s t v = (h, v, omega arith, omega arith)
  access_blocks-IsInner i (k ∷ ks) h s t v =
      let (h', w, more, less) =
        access_blocks-IsInner (suc i) ks (use_key k h) (access k i s).0 (access k i t).0
          (access-IsInner h k i s t v) in
      let hit = access-hit-IsInner h k i s t v in (h', w, ground arith, ground arith)

  replay_plan-IsFaster :
      (plan : List (ReplayStep K)) (h : Dict K (Unit {0})) (s t : LruPolicy K)
      → IsInner h s t
      → IsFaster (replay_plan lru_policy plan s) (replay_plan lru_policy plan t)
  unfolding replay_plan hit_count
  replay_plan-IsFaster [] h s t v = record {
    hits = omega arith;
    ttft = tt;
    e2e = tt;
    tokens = refl;
    time = omega arith;
  }
  replay_plan-IsFaster (step ∷ plan) h s t v =
      let ks = step.trace_record.hash_ids in
      let (h', w, more, less) = access_blocks-IsInner 0 ks h s t v in
      let a = access_blocks lru_policy 0 ks s in
      let b = access_blocks lru_policy 0 ks t in
      let f = replay_plan-IsFaster plan h' a.0 b.0 w in
      record {
        hits = omega (
          arith,
          more,
          f.hits,
          hit_count-append lru_policy a.1 (replay_plan lru_policy plan a.0).events,
          hit_count-append lru_policy b.1 (replay_plan lru_policy plan b.0).events,
        );
        ttft = (omega (arith, less), f.ttft);
        e2e = (omega (arith, less), f.e2e);
        tokens = omega (arith, f.tokens);
        time = omega (arith, less, f.time);
      }

  -- Of two pools the larger one, with the policy `lru`, has as many hits or more in a replay of the
  -- same plan. No request waits longer for its first token or for its end, the tokens are as many,
  -- and the whole takes no longer. Both replays raise nothing, if the pools are not empty.
  pub simulate_replay_mono :
      (plan : List (ReplayStep K)) (m n : ℕ)
      → 0 < m
      → m ≤ n
      → (r : Replayed K) × (q : Replayed K) × (simulate_replay plan m "lru" ≡ ok r)
        × (simulate_replay plan n "lru" ≡ ok q)
        × IsFaster r q
  unfolding simulate_replay make_policy instantiate find_class
  simulate_replay_mono plan m n pos le =
      let policy : CachePolicy K = lru_policy in
      let (s, i, v, size, empty) = policy.init_positive m pos in
      let (t, j, w, size', empty') = policy.init_positive n (omega arith) in
      (
        replay_plan lru_policy plan s,
        replay_plan lru_policy plan t,
        rw i refl,
        rw j refl,
        replay_plan-IsFaster plan [] s t (init-IsInner m n s t le i j),
      )
