-- ===== src/Offload/Settle.antt =====
-- python/vllm_adapter/offloading_spec.py: lemmas on what `evict` puts back into the queues
-- after its loop.
use mooncake_kvcache_tiered.Base.{
  count-append, ℕ, ◌+◌, ◌≤◌, ◌≡◌, refl, Bool, true, false, List, [], ◌∷◌, ◌++◌, Key, count, arith,
}
use mooncake_kvcache_tiered.Dict.{Dict, occurs}
use mooncake_kvcache_tiered.Dict.Laws.{occurs-remove}
use mooncake_kvcache_tiered.Offload.State.{S3FifoCachePolicy, Eviction}
use mooncake_kvcache_tiered.Offload.Loop.{put_back, victims_of}
use mooncake_kvcache_tiered.Offload.Methods.{settle, start, collect_victims, is_blocked}
use mooncake_kvcache_tiered.Offload.Kept.{keys_of, count_free, Kept}
use mooncake_kvcache_tiered.Offload.Collect.{Stopped, collect-Stopped, collect-Kept}
use mooncake_kvcache_tiered.Offload.Valid.{IsValidBut, IsValid}

module _ {K : Type 0} ⦃key : Key K⦄ where
  -- Keys that stand once, in the list or in the queue, stand once in the new queue.
  occurs-put_back :
      (ks : List K) (d : Dict K (Unit {0}))
      → ((i : K) → count i ks + occurs i d ≤ 1)
      → (j : K) → occurs j (put_back ks d) ≡ count j ks + occurs j d
  unfolding put_back occurs
  occurs-put_back [] d h j = omega arith
  occurs-put_back (k ∷ ks) d h j = ground (
    arith,
    occurs-remove j k (put_back ks d),
    occurs-put_back ks d (λ i. ground (arith, h i)) j,
    h j,
    h k,
  )

  count-victims_of :
      (j : K) (vs : List (K × Bool))
      → count j (victims_of true vs) + count j (victims_of false vs) ≡ count j (keys_of vs)
  unfolding victims_of
  count-victims_of j [] = refl
  count-victims_of j ((k, true) ∷ vs) = omega (arith, count-victims_of j vs)
  count-victims_of j ((k, false) ∷ vs) = omega (arith, count-victims_of j vs)

module _ {K B : Type 0} ⦃key : Key K⦄ where
  -- The blocks that may be evicted: those in `evictable` that are not in `protected`.
  abbrev pub count_evictable : List K → S3FifoCachePolicy K B → ℕ
  count_evictable protected s =
      count_free (is_blocked protected s) s.small + count_free (is_blocked protected s) s.main

module _ {K B : Type 0} ⦃key : Key K⦄ (s : S3FifoCachePolicy K B) (v : IsValid s) where
  abbrev pub held : K → ℕ
  held j = occurs j s.blocks

  module _ (blocked : K → Bool) (free : ℕ) (e : Eviction K)
      (w : Kept blocked held v.once free e) where
    -- With enough victims the queues hold the blocks but the victims.
    pub settle_success : IsValidBut (keys_of e.victims) (settle true e s)
    unfolding settle
    settle_success = record {
      once = v.once;
      queued = λ j. ground (
        arith,
        occurs-put_back (e.skipped_small ++ []) e.small
            (λ i. omega (arith, count-append i e.skipped_small [], w.placed i, v.once i)) j,
        occurs-put_back (e.skipped_main ++ []) e.main
            (λ i. omega (arith, count-append i e.skipped_main [], w.placed i, v.once i)) j,
        count-append j e.skipped_small [],
        count-append j e.skipped_main [],
        w.placed j,
      );
      counted = w.freqs;
      marked = v.marked;
      apart = v.apart;
      ghosts_bounded = v.ghosts_bounded;
      ghosts_none = v.ghosts_none;
    }

    -- With too few of them the queues hold all blocks.
    pub settle_failure : IsValid (settle false e s)
    unfolding settle
    settle_failure = record {
      once = v.once;
      queued = λ j. ground (
        arith,
        occurs-put_back (e.skipped_small ++ victims_of true e.victims) e.small
            (λ i. omega (
              arith,
              count-append i e.skipped_small (victims_of true e.victims),
              count-victims_of i e.victims,
              w.placed i,
              v.once i,
            ))
            j,
        occurs-put_back (e.skipped_main ++ victims_of false e.victims) e.main
            (λ i. omega (
              arith,
              count-append i e.skipped_main (victims_of false e.victims),
              count-victims_of i e.victims,
              w.placed i,
              v.once i,
            ))
            j,
        count-append j e.skipped_small (victims_of true e.victims),
        count-append j e.skipped_main (victims_of false e.victims),
        count-victims_of j e.victims,
        w.placed j,
      );
      counted = w.freqs;
      marked = v.marked;
      apart = v.apart;
      ghosts_bounded = v.ghosts_bounded;
      ghosts_none = v.ghosts_none;
    }

  module _ (n : ℕ) (protected : List K) where
    pub collect_victims-Kept :
        Kept
          (is_blocked protected s)
          held
          v.once
          (count_evictable protected s)
          (collect_victims n protected s)
    unfolding collect_victims
    collect_victims-Kept =
        collect-Kept (is_blocked protected s) s.small_budget held v.once
          (count_evictable protected s) _ n (start s)
          (record {
            placed = λ j. omega (arith, v.queued j);
            freqs = v.counted;
            left = omega arith;
            victims_free = tt;
          })

    pub collect_victims-Stopped :
        Stopped (is_blocked protected s) s.small_budget n (collect_victims n protected s)
    unfolding collect_victims
    collect_victims-Stopped =
        collect-Stopped (is_blocked protected s) s.small_budget _ n (start s) (omega arith)
          (omega arith)
