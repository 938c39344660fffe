-- ===== src/Tiered/Exclusive.antt =====
-- python/bench/tiered.py: the invariant of the two tiers, and lemmas on moves and prefetching.
use mooncake_kvcache_tiered.Base.{
  ℕ, zero, suc, ◌+◌, ◌≤◌, ◌≡◌, refl, ◌∙◌, Bool, true, false, List, [], ◌∷◌, Key, count, arith, ltb,
  inl, inr, Bool-cases, Option-cases, if◌then◌else◌, length, ◌||◌,
}
use mooncake_kvcache_tiered.Dict.{lookup}
use mooncake_kvcache_tiered.Policy.{CachePolicy}
use mooncake_kvcache_tiered.Tiered.{
  Sim, demote, admit_fast, promote, chase, chase_all, prefetch_for_request,
}

module _ {K : Type 0} ⦃key : Key K⦄ (fast slow : CachePolicy K) (m n : ℕ) where
  -- Both tiers are valid, with room for `m` and `n` blocks, and no block is in both.
  pub record IsExclusive (s : Sim fast slow) : Type 0 where
    pub fast_valid : fast.IsValid s.fast
    pub slow_valid : slow.IsValid s.slow
    pub fast_capacity : fast.capacity s.fast ≡ m
    pub slow_capacity : slow.capacity s.slow ≡ n
    pub once : (j : K) → fast.occurs j s.fast + slow.occurs j s.slow ≤ 1

  demote-IsValid :
      (ks : List K) (s : slow.State) → slow.IsValid s → slow.IsValid (demote fast slow ks s)
  unfolding demote
  demote-IsValid [] s v = v
  demote-IsValid (k ∷ ks) s v = demote-IsValid ks (slow.admit k s).0 (slow.admit-IsValid k s v)

  capacity-demote :
      (ks : List K) (s : slow.State)
      → slow.IsValid s
      → slow.capacity (demote fast slow ks s) ≡ slow.capacity s
  unfolding demote
  capacity-demote [] s v = refl
  capacity-demote (k ∷ ks) s v =
      capacity-demote ks (slow.admit k s).0 (slow.admit-IsValid k s v) ∙ slow.capacity-admit k s v

  -- A block of the slow tier was there, or was demoted.
  occurs-demote-le :
      (j : K) (ks : List K) (s : slow.State)
      → slow.IsValid s
      → slow.occurs j (demote fast slow ks s) ≤ slow.occurs j s + count j ks
  unfolding demote
  occurs-demote-le j [] s v = omega arith
  occurs-demote-le j (k ∷ ks) s v = omega (
    arith,
    occurs-demote-le j ks (slow.admit k s).0 (slow.admit-IsValid k s v),
    slow.occurs-admit j k s v,
  )

  pub admit_fast-IsExclusive :
      (k : K) (s : Sim fast slow)
      → slow.occurs k s.slow ≡ 0
      → IsExclusive s
      → IsExclusive (admit_fast fast slow k s)
  unfolding admit_fast
  admit_fast-IsExclusive k s h v = record {
    fast_valid = fast.admit-IsValid k s.fast v.fast_valid;
    slow_valid = demote-IsValid (fast.admit k s.fast).1 s.slow v.slow_valid;
    fast_capacity = fast.capacity-admit k s.fast v.fast_valid ∙ v.fast_capacity;
    slow_capacity = capacity-demote (fast.admit k s.fast).1 s.slow v.slow_valid ∙ v.slow_capacity;
    once = λ j. ground (
      arith,
      fast.occurs-admit j k s.fast v.fast_valid,
      occurs-demote-le j (fast.admit k s.fast).1 s.slow v.slow_valid,
      v.once j,
    );
  }

  pub promote-IsExclusive :
      (k : K) (s : Sim fast slow) → IsExclusive s → IsExclusive (promote fast slow k s)
  unfolding promote
  promote-IsExclusive k s v =
      admit_fast-IsExclusive k (record s { slow = (slow.remove k s.slow).0 })
        (ground (arith, slow.occurs-remove k k s.slow v.slow_valid, v.once k))
        (record {
          fast_valid = v.fast_valid;
          slow_valid = slow.remove-IsValid k s.slow v.slow_valid;
          fast_capacity = v.fast_capacity;
          slow_capacity = slow.capacity-remove k s.slow ∙ v.slow_capacity;
          once = λ j. omega (arith, slow.occurs-remove j k s.slow v.slow_valid, v.once j);
        })

  pub promote_if-IsExclusive :
      (b : Bool) (k : K) (s : Sim fast slow)
      → IsExclusive s
      → IsExclusive (if b then promote fast slow k s else s)
  promote_if-IsExclusive true k s v = promote-IsExclusive k s v
  promote_if-IsExclusive false k s v = v

  chase-IsExclusive :
      (budget : ℕ) (k : K) (s : Sim fast slow)
      → IsExclusive s
      → IsExclusive (chase fast slow budget k s).0
  unfolding chase
  chase-IsExclusive zero k s v = v
  chase-IsExclusive (suc budget) k s v = elim (Option-cases (lookup k s.successor)) [
    | inl e ↦ rw (e, chase) v
    | inr (next, e) ↦
        rw (e, chase)
          (chase-IsExclusive budget next _
            (promote_if-IsExclusive (slow.contains next s.slow) next s v))
  ]

  pub chase_if-IsExclusive :
      (b : Bool) (budget : ℕ) (k : K) (s : Sim fast slow)
      → IsExclusive s
      → IsExclusive (if b then chase fast slow budget k s else (s, 0)).0
  chase_if-IsExclusive true budget k s v = chase-IsExclusive budget k s v
  chase_if-IsExclusive false budget k s v = v

  chase_all-IsExclusive :
      (budget : ℕ) (ks : List K) (s : Sim fast slow)
      → IsExclusive s
      → IsExclusive (chase_all fast slow budget ks s).0
  unfolding chase_all
  chase_all-IsExclusive budget [] s v = v
  chase_all-IsExclusive budget (k ∷ ks) s v =
      chase_all-IsExclusive budget ks _
        (chase_if-IsExclusive (fast.contains k s.fast || slow.contains k s.slow) budget k s v)

  pub prefetch-IsExclusive :
      (ks : List K) (s : Sim fast slow)
      → IsExclusive s
      → IsExclusive (prefetch_for_request fast slow ks s).0
  prefetch-IsExclusive ks s v = elim (Bool-cases (ltb 0 s.prefetch_depth)) [
    | inl on ↦
        unfold prefetch_for_request in
        rw on (chase_all-IsExclusive (length ks + s.prefetch_depth) ks s v)
    | inr off ↦ unfold prefetch_for_request in rw off v
  ]
