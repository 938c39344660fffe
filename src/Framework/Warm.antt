-- ===== src/Framework/Warm.antt =====
-- python/bench/framework.py: what a replay over one policy may count as a hit.
use Prim.Native.String.{String}
use mooncake_kvcache_tiered.Base.{
  ℕ, suc, ◌+◌, ◌≤◌, ◌<◌, ◌≡◌, refl, true, some, List, [], ◌∷◌, ◌++◌, Key, count, arith, length, ok,
  if◌then◌else◌,
}
use mooncake_kvcache_tiered.Dict.{Dict, set, occurs}
use mooncake_kvcache_tiered.Dict.Laws.{length-set, occurs-set}
use mooncake_kvcache_tiered.Policy.{CachePolicy}
use mooncake_kvcache_tiered.Policy.Registry.{PolicyClass, find_class, policy_of, make_policy_lem}
use mooncake_kvcache_tiered.Framework.{ReplayStep, AccessEvent, hit_count, collect_keys, rates}
use mooncake_kvcache_tiered.Framework.Replay.{Replayed, access_blocks, replay_plan, simulate_replay}

module _ {K : Type 0} ⦃key : Key K⦄ where
  -- A hit is on a key that is among those before it.
  abbrev pub AllWarm : List K → List (AccessEvent K) → Type 0
  AllWarm past [] = Unit {0}
  AllWarm past (e ∷ es) = (e.hit ≡ true → 0 < count e.hash_id past) × AllWarm (e.hash_id ∷ past) es

  abbrev pub after : List K → List (AccessEvent K) → List K
  after past [] = past
  after past (e ∷ es) = after (e.hash_id ∷ past) es

  pub AllWarm-append :
      (past : List K) (es fs : List (AccessEvent K))
      → AllWarm past es
      → AllWarm (after past es) fs
      → AllWarm past (es ++ fs)
  AllWarm-append past [] fs h g = g
  AllWarm-append past (e ∷ es) fs h g = (h.0, AllWarm-append (e.hash_id ∷ past) es fs h.1 g)

  -- What is not a hit is at most a new key.
  length-collect_seen :
      (past : List K) (es : List (AccessEvent K)) (seen reused : Dict K (Unit {0}))
      → AllWarm past es
      → ((j : K) → 0 < count j past → 0 < occurs j seen)
      → length (collect_keys es seen reused).0 + hit_count es ≤ length seen + length es
  unfolding collect_keys hit_count
  length-collect_seen past [] seen reused w h = omega arith
  length-collect_seen past (e ∷ es) seen reused w h = ground (
    arith,
    w.0,
    h e.hash_id,
    length-set e.hash_id tt seen,
    length-collect_seen (e.hash_id ∷ past) es (set e.hash_id tt seen)
        (if e.hit then set e.hash_id tt reused else reused) w.1
        (λ j. ground (arith, occurs-set j e.hash_id tt seen, h j)),
  )

  pub rates-AllWarm :
      (es : List (AccessEvent K))
      → AllWarm [] es
      → 0 < length es
      → (rates es).0.num + (rates es).1.den ≤ (rates es).0.den
  unfolding rates
  rates-AllWarm [] w h = absurd (omega arith)
  rates-AllWarm (e ∷ es) w h =
      omega (arith, length-collect_seen [] (e ∷ es) [] [] w (λ j g. absurd (omega (arith, g))))

module _ {K : Type 0} ⦃key : Key K⦄ (policy : CachePolicy K) where
  -- A valid state that holds none but the keys of the past.
  record IsKnown (past : List K) (s : policy.State) : Type 0 where
    valid : policy.IsValid s
    known : (j : K) → 0 < policy.occurs j s → 0 < count j past

  access-IsKnown :
      (past : List K) (k : K) (i : ℕ) (s : policy.State)
      → IsKnown past s
      → IsKnown (k ∷ past) (policy.access k i s).0
  access-IsKnown past k i s v = record {
    valid = policy.access-IsValid k i s v.valid;
    known = λ j. ground (arith, policy.occurs-access j k i s v.valid, v.known j);
  }

  access_blocks-AllWarm :
      (past : List K) (i : ℕ) (ks : List K) (s : policy.State)
      → IsKnown past s
      → AllWarm past (access_blocks policy i ks s).1
        × IsKnown (after past (access_blocks policy i ks s).1) (access_blocks policy i ks s).0
  unfolding access_blocks
  access_blocks-AllWarm past i [] s v = (tt, record { valid = v.valid; known = v.known })
  access_blocks-AllWarm past i (k ∷ ks) s v =
      let (w, u) =
        access_blocks-AllWarm (k ∷ past) (suc i) ks (policy.access k i s).0
          (access-IsKnown past k i s v) in
      (
        (ground (arith, policy.access-contains k i s, policy.contains-occurs k s, v.known k), w),
        record { valid = u.valid; known = u.known },
      )

  replay_plan-AllWarm :
      (past : List K) (plan : List (ReplayStep K)) (s : policy.State)
      → IsKnown past s
      → AllWarm past (replay_plan policy plan s).events
  unfolding replay_plan
  replay_plan-AllWarm past [] s v = tt
  replay_plan-AllWarm past (step ∷ plan) s v =
      let (s', events, misses) = access_blocks policy 0 step.trace_record.hash_ids s in
      let (w, u) = access_blocks-AllWarm past 0 step.trace_record.hash_ids s v in
      AllWarm-append past events (replay_plan policy plan s').events w (
        replay_plan-AllWarm (after past events) plan s'
          (record { valid = u.valid; known = u.known }))

module _ {K : Type 0} ⦃key : Key K⦄ where
  -- The replay over one policy of any known class, with a pool that is not empty, raises nothing.
  -- Each of its hits is on a block that the trace asked for before. So, if there is any event, the
  -- first time of each block is a miss: the hits and the different blocks, which `rates` counts, are
  -- no more than the events.
  pub simulate_replay-AllWarm :
      (plan : List (ReplayStep K)) (pool : ℕ) (name : String) (c : PolicyClass)
      → find_class name ≡ some c
      → 0 < pool
      → (r : Replayed K) × (simulate_replay plan pool name ≡ ok r)
        × AllWarm [] r.events
        × (0 < length r.events
            → (rates r.events).0.num + (rates r.events).1.den ≤ (rates r.events).0.den)
  unfolding simulate_replay
  simulate_replay-AllWarm plan pool name c e h =
      let (s, i, v, size, empty) = make_policy_lem K name c pool e h in
      let known : IsKnown (policy_of K c) [] s = record {
        valid = v;
        known = λ j g. absurd (omega (arith, g, empty j));
      } in
      let w = replay_plan-AllWarm (policy_of K c) [] plan s known in
      (
        replay_plan (policy_of K c) plan s,
        rw i refl,
        w,
        λ g. rates-AllWarm (replay_plan (policy_of K c) plan s).events w g,
      )
