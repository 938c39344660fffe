-- ===== src/Offload/Methods.antt =====
-- python/vllm_adapter/offloading_spec.py: the methods of `S3FIFOCachePolicy`. `idle` is the test
-- `block.ref_cnt == 0` of vLLM's blocks.
use mooncake_kvcache_tiered.Base.{
  ℕ, zero, suc, ◌+◌, ◌*◌, Bool, true, false, not, ◌||◌, Option, none, some, List, [], ◌∷◌, ◌++◌,
  Key, key_error, Result, ok, raise, if◌then◌else◌, length, ◌==◌, ◌>>=◌,
}
use mooncake_kvcache_tiered.Dict.{Dict, lookup, contains, set, move_to_end, occurs}
use mooncake_kvcache_tiered.Dict
use mooncake_kvcache_tiered.Dict.Trim.{trim}
use mooncake_kvcache_tiered.Offload.State.{S3FifoCachePolicy, Eviction, is_not_none}
use mooncake_kvcache_tiered.Offload.Loop.{
  collect, main_weight, put_back, victims_of, touch_keys, pop_value, elem,
}

module _ {K B : Type 0} ⦃key : Key K⦄ where
  unfoldable pub get : K → S3FifoCachePolicy K B → Option B
  get k s = lookup k s.blocks

  unfoldable pub remove : K → S3FifoCachePolicy K B → Result (S3FifoCachePolicy K B)
  remove k s =
      if contains k s.blocks
      then ok (record s {
        blocks = Dict.remove k s.blocks;
        freq = Dict.remove k s.freq;
        small = Dict.remove k s.small;
        main = Dict.remove k s.main;
        evictable = Dict.remove k s.evictable;
      })
      else raise key_error

  unfoldable pub touch : List K → S3FifoCachePolicy K B → S3FifoCachePolicy K B
  touch ks s = record s { freq = touch_keys ks s.freq }

  unfoldable pub mark_evictable : K → S3FifoCachePolicy K B → S3FifoCachePolicy K B
  mark_evictable k s = record s { evictable = set k tt s.evictable }

  unfoldable pub mark_non_evictable : K → S3FifoCachePolicy K B → S3FifoCachePolicy K B
  mark_non_evictable k s = record s { evictable = Dict.remove k s.evictable }

  unfoldable pub ghost_insert : K → S3FifoCachePolicy K B → S3FifoCachePolicy K B
  ghost_insert k s = record s {
    ghost = (trim s.ghost_capacity (move_to_end k (set k none s.ghost))).0;
  }

  -- The queues after the loop. What was skipped goes back to the front; so do the victims, behind
  -- it, if there were too few.
  unfoldable pub settle : Bool → Eviction K → S3FifoCachePolicy K B → S3FifoCachePolicy K B
  settle succeeded e s = record s {
    small =
        put_back (e.skipped_small ++ (if succeeded then [] else victims_of true e.victims)) e.small;
    main =
        put_back (e.skipped_main ++ (if succeeded then [] else victims_of false e.victims)) e.main;
    freq = e.freq;
  }

  -- What the last loop does with a victim; its block is returned.
  unfoldable pub drop_victim : K → Bool → S3FifoCachePolicy K B → Result (S3FifoCachePolicy K B × B)
  drop_victim k from_small s = elim (lookup k s.blocks) [
    | none ↦ raise key_error
    | some b ↦
        let s' = record s {
          blocks = Dict.remove k s.blocks;
          freq = Dict.remove k s.freq;
          evictable = Dict.remove k s.evictable;
        } in
        ok (if from_small then ghost_insert k s' else s', b)
  ]

  unfoldable pub drop_victims :
      List (K × Bool) → S3FifoCachePolicy K B → Result (S3FifoCachePolicy K B × List (K × B))
  drop_victims [] s = ok (s, [])
  drop_victims ((k, from_small) ∷ vs) s =
      drop_victim k from_small s >>= λ r. drop_victims vs r.0 >>= λ q. ok (q.0, (k, r.1) ∷ q.1)

  abbrev pub start : S3FifoCachePolicy K B → Eviction K
  start s = record {
    small = s.small;
    main = s.main;
    freq = s.freq;
    victims = [];
    skipped_small = [];
    skipped_main = [];
  }

  -- `key in protected or key not in self.evictable`
  unfoldable pub is_blocked : List K → S3FifoCachePolicy K B → K → Bool
  is_blocked protected s k = elem k protected || not (contains k s.evictable)

  -- The loop, with a round for each key of the small queue more than the main queue can make.
  unfoldable pub collect_victims : ℕ → List K → S3FifoCachePolicy K B → Eviction K
  collect_victims n protected s =
      collect (2 * length s.small + main_weight s.main s.freq) (is_blocked protected s)
        s.small_budget n (start s)

  unfoldable pub evict :
      ℕ → List K → S3FifoCachePolicy K B → Result (S3FifoCachePolicy K B × Option (List (K × B)))
  evict zero protected s = ok (s, some [])
  evict (suc n) protected s =
      let e = collect_victims (suc n) protected s in
      if length e.victims == suc n
      then (drop_victims e.victims (settle true e s) >>= λ r. ok (r.0, some r.1))
      else ok (settle false e s, none)

module _ {K B : Type 0} ⦃key : Key K⦄ (idle : B → Bool) where
  -- A key whose entry in `ghost` was not `None` goes to the main queue at once.
  unfoldable pub insert : K → B → S3FifoCachePolicy K B → S3FifoCachePolicy K B
  insert k block s =
      let remembered = is_not_none (pop_value k s.ghost) in
      record s {
        blocks = set k block s.blocks;
        freq = set k 0 s.freq;
        ghost = Dict.remove k s.ghost;
        main = if remembered then set k tt s.main else s.main;
        small = if remembered then s.small else set k tt s.small;
        evictable = if idle block then set k tt s.evictable else s.evictable;
      }
