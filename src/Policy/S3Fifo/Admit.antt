-- ===== src/Policy/S3Fifo/Admit.antt =====
-- python/bench/policies.py: lemmas on `S3FifoPolicy._insert_main` and `_insert_small`.
use mooncake_kvcache_tiered.Base.{
  suc, ◌-◌, ℕ, ◌+◌, ◌≤◌, max, ◌≡◌, refl, Key, same, count, arith, length,
}
use mooncake_kvcache_tiered.Dict.{Distinct, set, occurs}
use mooncake_kvcache_tiered.Dict.Laws.{length-set, occurs-set}
use mooncake_kvcache_tiered.Dict.Trim.{length-trim, occurs-trim}
use mooncake_kvcache_tiered.Policy.S3Fifo.{S3FifoPolicy, weight, insert_main, pass_on}
use mooncake_kvcache_tiered.Policy.S3Fifo.Queues.{
  length-shrink_main_gone, length-shrink_main, occurs-shrink_main,
}

module _ {K : Type 0} ⦃key : Key K⦄ where
  -- The limits are fixed.
  pub record SameCaps (s t : S3FifoPolicy K) : Type 0 where
    pub capacity_eq : t.capacity ≡ s.capacity
    pub small_cap_eq : t.small_cap ≡ s.small_cap
    pub main_cap_eq : t.main_cap ≡ s.main_cap
    pub ghost_cap_eq : t.ghost_cap ≡ s.ghost_cap

  pub occurs-insert_main :
      (j k : K) (s : S3FifoPolicy K)
      → Distinct s.main
      → occurs j (insert_main k s).0.main + count j (insert_main k s).1
        ≡ max (same j k) (occurs j s.main)
  unfolding insert_main
  occurs-insert_main j k s d = ground (
    arith,
    occurs-shrink_main j (weight (set k 0 s.main)) s.main_cap (set k 0 s.main) distinct,
    occurs-set j k 0 s.main,
  )
    where
      distinct : Distinct (set k 0 s.main)
      distinct i = ground (arith, occurs-set i k 0 s.main, d i)

  pub length-insert_main :
      (k : K) (s : S3FifoPolicy K) → length (insert_main k s).0.main ≤ s.main_cap
  unfolding insert_main
  length-insert_main k s =
      length-shrink_main (weight (set k 0 s.main)) s.main_cap (set k 0 s.main) (omega arith)

  pub length-insert_main_gone :
      (k : K) (s : S3FifoPolicy K) → length (insert_main k s).1 ≤ suc (length s.main) - s.main_cap
  unfolding insert_main
  length-insert_main_gone k s = ground (
    arith,
    length-shrink_main_gone (weight (set k 0 s.main)) s.main_cap (set k 0 s.main),
    length-set k 0 s.main,
  )

  pub insert_main-SameCaps : (k : K) (s : S3FifoPolicy K) → SameCaps s (insert_main k s).0
  unfolding insert_main
  insert_main-SameCaps k s = ground arith

  -- The small queue and the ghosts stay.
  pub insert_main_others :
      (k : K) (s : S3FifoPolicy K)
      → ((insert_main k s).0.small ≡ s.small) × ((insert_main k s).0.ghost ≡ s.ghost)
  unfolding insert_main
  insert_main_others k s = (refl, refl)

  -- What a key that leaves the small queue does to the other two.
  module _ (victim : K) (freq : ℕ) (s : S3FifoPolicy K) (main-Distinct : Distinct s.main) where
    pub occurs-pass_on :
        (j : K)
        → occurs victim s.main ≡ 0
        → occurs j (pass_on victim freq s).0.main + count j (pass_on victim freq s).1
          ≡ same j victim + occurs j s.main
    unfolding pass_on
    occurs-pass_on j h = ground (arith, occurs-insert_main j victim s main-Distinct)

    pub pass_on_apart :
        (j : K)
        → occurs victim s.main ≡ 0
        → occurs victim s.ghost ≡ 0
        → occurs j (pass_on victim freq s).0.main + occurs j (pass_on victim freq s).0.ghost
          ≤ same j victim + occurs j s.main + occurs j s.ghost
    unfolding pass_on
    pass_on_apart j h g = ground (
      arith,
      occurs-insert_main j victim s main-Distinct,
      insert_main_others victim s,
      occurs-trim j s.ghost_cap (set victim tt s.ghost),
      occurs-set j victim tt s.ghost,
    )

    pub pass_on_bounds :
        length s.main ≤ s.main_cap
        → length s.ghost ≤ s.ghost_cap
        → (length (pass_on victim freq s).0.main ≤ s.main_cap)
          × (length (pass_on victim freq s).0.ghost ≤ s.ghost_cap)
          × SameCaps s (pass_on victim freq s).0
    unfolding pass_on
    pass_on_bounds m g = ground (
      arith,
      length-insert_main victim s,
      insert_main_others victim s,
      insert_main-SameCaps victim s,
      length-trim s.ghost_cap (set victim tt s.ghost),
    )

    pub length-pass_on_gone : length s.main ≤ s.main_cap → length (pass_on victim freq s).1 ≤ 1
    unfolding pass_on
    length-pass_on_gone m = ground (arith, length-insert_main_gone victim s)
