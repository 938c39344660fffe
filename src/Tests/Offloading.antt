-- ===== src/Tests/Offloading.antt =====
-- `S3FIFOCachePolicy` at concrete states.
use mooncake_kvcache_tiered.Base.{
  ℕ, ◌+◌, ◌≤◌, ◌<◌, min, count, ◌≡◌, ◌≢◌, ◌⊎◌, refl, Bool, true, false, Option, none, some, List,
  [], ◌∷◌, arith, ok, raise, key_error, ℕ_discrete, nat_key, ◌==◌,
}
use mooncake_kvcache_tiered.Dict.{lookup, contains, occurs, set}
use mooncake_kvcache_tiered.Offload.State.{S3FifoCachePolicy, init, clear}
use mooncake_kvcache_tiered.Offload.Loop.{freq_of, elem}
use mooncake_kvcache_tiered.Offload.Loop
use mooncake_kvcache_tiered.Offload.Methods.{
  get, mark_evictable, mark_non_evictable, remove, touch, insert, evict, is_blocked,
}
use mooncake_kvcache_tiered.Offload.Kept.{count_free}
use mooncake_kvcache_tiered.Offload.Valid.{IsValid}
use mooncake_kvcache_tiered.Offload.Settle.{count_evictable}
use mooncake_kvcache_tiered.Offload.Evict.{Evicted, evict-Evicted, evict-none}
use mooncake_kvcache_tiered.Offload.Insert.{insert-small}
use mooncake_kvcache_tiered.Offload.Contract.{put_block, drop_blocks, evicted_keys, contract_lem}
use mooncake_kvcache_tiered.Offload.Calls.{begins, calls, inserts, touches, reached_lem}

-- Two blocks in the small queue and one in the main queue; the key 4 is a ghost.
abbrev three_blocks : S3FifoCachePolicy ℕ ℕ
three_blocks = record {
  small_budget = 1;
  ghost_capacity = 20;
  blocks = (1, 10) ∷ (2, 20) ∷ (3, 30) ∷ [];
  small = (1, tt) ∷ (2, tt) ∷ [];
  main = (3, tt) ∷ [];
  freq = (1, 0) ∷ (2, 2) ∷ (3, 1) ∷ [];
  evictable = (1, tt) ∷ (2, tt) ∷ [];
  ghost = (4, none) ∷ [];
}

three_blocks-IsValid : IsValid three_blocks
unfolding occurs
three_blocks-IsValid = record {
  once = λ j. ground arith;
  queued = λ j. ground arith;
  counted = λ j. ground arith;
  marked = λ j. ground arith;
  apart = λ j. ground arith;
  ghosts_bounded = omega arith;
  ghosts_none = (refl, tt);
}

two_evictable : 2 ≤ count_evictable [] three_blocks
unfolding count_free is_blocked elem contains ℕ_discrete
two_evictable = omega arith

one_unprotected : count_evictable (2 ∷ []) three_blocks < 2
unfolding count_free is_blocked elem contains ℕ_discrete
one_unprotected = omega arith

abbrev idle : ℕ → Bool
idle block = block == 0

-- The ghost is inserted into the small queue.
insert_ghost : (insert idle 4 40 three_blocks).small ≡ (1, tt) ∷ (2, tt) ∷ (4, tt) ∷ []
unfolding insert Loop.pop_value lookup set ℕ_discrete
insert_ghost = refl

evict-Evicted_example :
    (s' : S3FifoCachePolicy ℕ ℕ) × (r : List (ℕ × ℕ)) × (evict 2 [] three_blocks ≡ ok (s', some r))
    × Evicted 2 [] three_blocks s' r
evict-Evicted_example = evict-Evicted 2 [] three_blocks three_blocks-IsValid two_evictable

evict-none_example :
    (s' : S3FifoCachePolicy ℕ ℕ) × (evict 2 (2 ∷ []) three_blocks ≡ ok (s', none))
    × IsValid s'
    × (s'.blocks ≡ three_blocks.blocks)
    × (s'.evictable ≡ three_blocks.evictable)
    × (s'.ghost ≡ three_blocks.ghost)
evict-none_example = evict-none 2 (2 ∷ []) three_blocks three_blocks-IsValid one_unprotected

not_held : contains 4 three_blocks.blocks ≡ false
unfolding contains ℕ_discrete
not_held = refl

insert-small_example :
    ((insert idle 4 0 three_blocks).small ≡ set 4 tt three_blocks.small)
    × ((insert idle 4 0 three_blocks).main ≡ three_blocks.main)
insert-small_example = insert-small idle 4 0 three_blocks three_blocks-IsValid

-- A block in a new policy.
abbrev inserted : S3FifoCachePolicy ℕ ℕ
inserted = insert idle 1 0 (init 10)

nothing_held : contains {V = ℕ} 1 (init {K = ℕ} 10).blocks ≡ false
unfolding init contains
nothing_held = refl

reached_lem_example :
    IsValid (touch (1 ∷ []) inserted)
    × ((n : ℕ) (protected : List ℕ)
        → (s' : S3FifoCachePolicy ℕ ℕ) × (r : Option (List (ℕ × ℕ))) × (evict n protected
              (touch (1 ∷ []) inserted)
            ≡ ok (s', r)))
    × ((k : ℕ)
        → ((contains k (touch (1 ∷ []) inserted).blocks ≡ true)
            × (s' : S3FifoCachePolicy ℕ ℕ) × (remove k (touch (1 ∷ []) inserted) ≡ ok s'))
          ⊎ ((contains k (touch (1 ∷ []) inserted).blocks ≡ false)
              × (remove k (touch (1 ∷ []) inserted) ≡ raise key_error)))
    × ((k : ℕ) → freq_of k (touch (1 ∷ []) inserted).freq ≤ 3)
    × ((k : ℕ) (ks : List ℕ)
        → contains k (touch (1 ∷ []) inserted).blocks ≡ true
        → freq_of k (touch ks (touch (1 ∷ []) inserted)).freq
          ≡ min (freq_of k (touch (1 ∷ []) inserted).freq + count k ks) 3)
reached_lem_example =
    reached_lem idle 10 (touch (1 ∷ []) inserted)
      (calls (calls begins (inserts 1 0 nothing_held)) (touches (1 ∷ [])))

contract_lem_example :
    ((k block j : ℕ)
      → get j (insert idle k block three_blocks) ≡ put_block k block (λ i. get i three_blocks) j)
    × ((k : ℕ)
        → get k three_blocks ≢ none
        → (s' : S3FifoCachePolicy ℕ ℕ) × (remove k three_blocks ≡ ok s')
          × ((j : ℕ) → get j s' ≡ drop_blocks (k ∷ []) (λ i. get i three_blocks) j))
    × ((n : ℕ) (protected : List ℕ)
        → (s' : S3FifoCachePolicy ℕ ℕ) × (r : Option (List (ℕ × ℕ))) × (evict n protected
              three_blocks
            ≡ ok (s', r))
          × ((j : ℕ) → get j s' ≡ drop_blocks (evicted_keys r) (λ i. get i three_blocks) j))
    × ((ks : List ℕ) (j : ℕ) → get j (touch ks three_blocks) ≡ get j three_blocks)
    × ((k j : ℕ) → get j (mark_evictable k three_blocks) ≡ get j three_blocks)
    × ((k j : ℕ) → get j (mark_non_evictable k three_blocks) ≡ get j three_blocks)
    × ((j : ℕ) → get j (clear three_blocks) ≡ none)
contract_lem_example = contract_lem idle three_blocks three_blocks-IsValid
