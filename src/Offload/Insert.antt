-- ===== src/Offload/Insert.antt =====
-- python/vllm_adapter/offloading_spec.py: lemmas on `insert`.
use mooncake_kvcache_tiered.Base.{
  ◌≡◌, Bool, false, none, some, Key, arith, inl, inr, Option-cases, ite,
}
use mooncake_kvcache_tiered.Dict.{Dict, contains, lookup, set}
use mooncake_kvcache_tiered.Dict.Laws.{
  occurs-set, occurs-remove, contains-occurs, lookup-set, length-remove,
}
use mooncake_kvcache_tiered.Offload.State.{S3FifoCachePolicy, NoneValue}
use mooncake_kvcache_tiered.Offload.Loop.{pop_value}
use mooncake_kvcache_tiered.Offload.Methods.{get, insert}
use mooncake_kvcache_tiered.Offload.Valid.{IsValid, AllNone, AllNone-remove, lookup-AllNone}

module _ {K : Type 0} ⦃key : Key K⦄ where
  pop_value-none : (k : K) (d : Dict K NoneValue) → AllNone d → pop_value k d ≡ none
  unfolding pop_value
  pop_value-none k d h = elim (Option-cases (lookup k d)) [
    | inl e ↦ rw (e, pop_value)
    | inr (v, e) ↦ rw (e, pop_value) (lookup-AllNone k d v h e)
  ]

module _ {K B : Type 0} ⦃key : Key K⦄ (idle : B → Bool) where
  -- On a valid state `insert` puts every key into the small queue and none into the main queue,
  -- one that is a ghost no less: no ghost is ever admitted to the main queue at once.
  pub insert-small :
      (k : K) (block : B) (s : S3FifoCachePolicy K B)
      → IsValid s
      → ((insert idle k block s).small ≡ set k tt s.small) × ((insert idle k block s).main ≡ s.main)
  unfolding insert
  insert-small k block s v =
      (rw (pop_value-none k s.ghost v.ghosts_none), rw (pop_value-none k s.ghost v.ghosts_none))

  -- To insert a key that is not held keeps a valid state valid. The block is found under the key,
  -- what is held under other keys is not changed, and the key is in `evictable` exactly when the
  -- block is idle.
  pub insert-IsValid :
      (k : K) (block : B) (s : S3FifoCachePolicy K B)
      → IsValid s
      → contains k s.blocks ≡ false
      → IsValid (insert idle k block s)
        × ((j : K) → get j (insert idle k block s) ≡ ite (key.dec j k) (some block) (get j s))
        × (contains k (insert idle k block s).evictable ≡ idle block)
  unfolding insert get
  insert-IsValid k block s v h = (
    record {
      once = λ j. ground (arith, occurs-set j k block s.blocks, v.once j);
      queued = λ j. rw (pop_value-none k s.ghost v.ghosts_none) (
          ground (
            arith,
            occurs-set j k block s.blocks,
            occurs-set j k tt s.small,
            contains-occurs k s.blocks,
            h,
            v.queued j,
            v.queued k,
          ));
      counted =
          λ j. ground (arith, occurs-set j k block s.blocks, occurs-set j k 0 s.freq, v.counted j);
      marked = λ j.
          ground (arith, occurs-set j k block s.blocks, occurs-set j k tt s.evictable, v.marked j);
      apart =
          λ j. ground (arith, occurs-set j k block s.blocks, occurs-remove j k s.ghost, v.apart j);
      ghosts_bounded = omega (arith, length-remove k s.ghost, v.ghosts_bounded);
      ghosts_none = AllNone-remove k s.ghost v.ghosts_none;
    },
    λ j. lookup-set j k block s.blocks,
    ground (
      arith,
      contains-occurs k (set k tt s.evictable),
      occurs-set k k tt s.evictable,
      contains-occurs k s.evictable,
      contains-occurs k s.blocks,
      v.marked k,
      h,
    ),
  )
