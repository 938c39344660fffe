-- ===== src/Offload/Evict.antt =====
-- python/vllm_adapter/offloading_spec.py: lemmas on `evict`, by whether there are enough blocks
-- to evict.
use mooncake_kvcache_tiered.Base.{
  ℕ, zero, suc, subst, ◌+◌, ◌≤◌, ◌<◌, ◌≡◌, refl, ap, sym, Bool, true, false, none, some, List, [],
  ◌∷◌, Key, count, arith, length, length-map, inl, inr, ok, ◌||◌, not, ◌==◌,
}
use mooncake_kvcache_tiered.Dict.{occurs, contains}
use mooncake_kvcache_tiered.Offload.State.{S3FifoCachePolicy}
use mooncake_kvcache_tiered.Offload.Loop.{elem}
use mooncake_kvcache_tiered.Offload.Methods.{evict, settle, collect_victims, is_blocked}
use mooncake_kvcache_tiered.Offload.Kept.{keys_of, AllFree, count_free}
use mooncake_kvcache_tiered.Offload.Valid.{IsValid, Held, dropped_keys}
use mooncake_kvcache_tiered.Offload.Drop.{drop_victims_lem}
use mooncake_kvcache_tiered.Offload.Settle.{
  count_evictable, settle_success, settle_failure, collect_victims-Kept, collect_victims-Stopped,
}

module _ {K B : Type 0} ⦃key : Key K⦄ where
  -- The keys are in `evictable`, and not in `protected`.
  abbrev pub AllEvictable : List K → S3FifoCachePolicy K B → List K → Type 0
  AllEvictable protected s [] = Unit {0}
  AllEvictable protected s (k ∷ ks) =
      (elem k protected ≡ false) × (contains k s.evictable ≡ true) × AllEvictable protected s ks

  AllFree-AllEvictable :
      (protected : List K) (s : S3FifoCachePolicy K B) (vs : List (K × Bool))
      → AllFree (is_blocked protected s) vs
      → AllEvictable protected s (keys_of vs)
  unfolding is_blocked
  AllFree-AllEvictable protected s [] h = tt
  AllFree-AllEvictable protected s ((k, b) ∷ vs) h = (
    unprotected (elem k protected) (contains k s.evictable) h.0,
    marked (elem k protected) (contains k s.evictable) h.0,
    AllFree-AllEvictable protected s vs h.1,
  )
    where
      unprotected : (b c : Bool) → (b || not c) ≡ false → b ≡ false
      unprotected false c h = refl
      unprotected true c h = cc

      marked : (b c : Bool) → (b || not c) ≡ false → c ≡ true
      marked b true h = refl
      marked true false h = cc
      marked false false h = cc

  -- What `evict` has done when it returns `r`.
  pub record Evicted (n : ℕ) (protected : List K) (s s' : S3FifoCachePolicy K B) (r : List (K × B))
      : Type 0 where
    pub valid : IsValid s'
    pub amount : length r ≡ n
    pub allowed : AllEvictable protected s (dropped_keys r)
    pub returned : Held s.blocks r
    pub others : (j : K) → occurs j s'.blocks + count j (dropped_keys r) ≡ occurs j s.blocks

  module _ (n : ℕ) (protected : List K) (s : S3FifoCachePolicy K B) (v : IsValid s) where
    collected_enough :
        n ≤ count_evictable protected s
        → (length (collect_victims n protected s).victims == n) ≡ true
    unfolding count_free
    collected_enough h =
        let kept = collect_victims-Kept s v n protected in
        elim (collect_victims-Stopped s v n protected) [
          | inl p ↦ ground (arith, p)
          | inr (less, p, q) ↦ absurd (
              omega (
                arith,
                kept.left,
                ap (count_free (is_blocked protected s)) p,
                ap (count_free (is_blocked protected s)) q,
              ))
        ]

    collected_few :
        count_evictable protected s < n
        → (length (collect_victims n protected s).victims == n) ≡ false
    collected_few h = ground (arith, (collect_victims-Kept s v n protected).left)

  evicted :
      (n : ℕ) (protected : List K) (s : S3FifoCachePolicy K B) (v : IsValid s)
      → suc n ≤ count_evictable protected s
      → (s' : S3FifoCachePolicy K B) × (r : List (K × B)) × (evict (suc n) protected s
          ≡ ok (s', some r))
        × Evicted (suc n) protected s s' r
  unfolding evict settle
  evicted n protected s v h =
      let found = collected_enough (suc n) protected s v h in
      let kept = collect_victims-Kept s v (suc n) protected in
      let vs = (collect_victims (suc n) protected s).victims in
      let (s', r, run, valid, names, held_before, others) =
        drop_victims_lem vs (settle true (collect_victims (suc n) protected s) s)
          (settle_success s v (is_blocked protected s) (count_evictable protected s) _ kept) in
      (
        s',
        r,
        rw (found, evict, run),
        record {
          valid = valid;
          amount =
              ground
                (arith, length-map r (λ x. x.0), length-map vs (λ x. x.0), ap length names, found);
          allowed =
              subst (AllEvictable protected s) (sym names)
                (AllFree-AllEvictable protected s vs kept.victims_free);
          returned = held_before;
          others = λ j. rw names (others j);
        },
      )

  -- On a valid state with at least `n` blocks in `evictable` but not in `protected`, `evict n`
  -- raises nothing and returns `n` blocks: all of them in `evictable` and none in `protected`, each
  -- with the block that the policy held; the state stays valid, and only these blocks are gone.
  pub evict-Evicted :
      (n : ℕ) (protected : List K) (s : S3FifoCachePolicy K B)
      → IsValid s
      → n ≤ count_evictable protected s
      → (s' : S3FifoCachePolicy K B) × (r : List (K × B)) × (evict n protected s ≡ ok (s', some r))
        × Evicted n protected s s' r
  unfolding evict
  evict-Evicted zero protected s v h = (
    s,
    [],
    refl,
    record { valid = v; amount = refl; allowed = tt; returned = tt; others = λ j. omega arith },
  )
  evict-Evicted (suc n) protected s v h = evicted n protected s v h

  -- On a valid state with fewer than `n` blocks in `evictable` but not in `protected`, `evict n`
  -- raises nothing and returns nothing; the state stays valid, and no block, no mark and no ghost
  -- has changed.
  pub evict-none :
      (n : ℕ) (protected : List K) (s : S3FifoCachePolicy K B)
      → IsValid s
      → count_evictable protected s < n
      → (s' : S3FifoCachePolicy K B) × (evict n protected s ≡ ok (s', none))
        × IsValid s'
        × (s'.blocks ≡ s.blocks)
        × (s'.evictable ≡ s.evictable)
        × (s'.ghost ≡ s.ghost)
  unfolding evict settle
  evict-none zero protected s v h = absurd (omega arith)
  evict-none (suc n) protected s v h = (
    settle false (collect_victims (suc n) protected s) s,
    rw (collected_few (suc n) protected s v h, evict),
    settle_failure s v (is_blocked protected s) (count_evictable protected s) _
        (collect_victims-Kept s v (suc n) protected),
    refl,
    refl,
    refl,
  )
