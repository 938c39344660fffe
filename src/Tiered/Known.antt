-- ===== src/Tiered/Known.antt =====
-- python/bench/tiered.py: what the two tiers hold after a step, against what they held before, whatever
-- the two policies evict.
use mooncake_kvcache_tiered.Base.{
  ℕ, zero, suc, ◌+◌, ◌≤◌, ◌≡◌, Bool, true, false, List, [], ◌∷◌, Key, same, count, arith, ltb, inl,
  inr, Bool-cases, Option-cases, if◌then◌else◌, length, ◌||◌,
}
use mooncake_kvcache_tiered.Dict.{lookup}
use mooncake_kvcache_tiered.Policy.{CachePolicy}
use mooncake_kvcache_tiered.Tiered.{
  Sim, Loop, demote, admit_fast, promote, chase, chase_all, prefetch_for_request, serve,
}
use mooncake_kvcache_tiered.Tiered.Exclusive.{
  IsExclusive, chase_if-IsExclusive, promote_if-IsExclusive,
}
use mooncake_kvcache_tiered.Tiered.Prefetch.{held}

module _ {K : Type 0} ⦃key : Key K⦄ (fast slow : CachePolicy K) where
  demote-le :
      (j : K) (gone : List K) (s : slow.State)
      → slow.IsValid s
      → slow.occurs j (demote fast slow gone s) ≤ count j gone + slow.occurs j s
  unfolding demote
  demote-le j [] s v = omega arith
  demote-le j (k ∷ gone) s v = omega (
    arith,
    demote-le j gone (slow.admit k s).0 (slow.admit-IsValid k s v),
    slow.occurs-admit j k s v,
  )

  admit_fast-le :
      (j k : K) (s : Sim fast slow)
      → fast.IsValid s.fast
      → slow.IsValid s.slow
      → held fast slow j (admit_fast fast slow k s) ≤ same j k + held fast slow j s
  unfolding admit_fast
  admit_fast-le j k s v w =
      omega (arith, fast.occurs-admit j k s.fast v, demote-le j (fast.admit k s.fast).1 s.slow w)

module _ {K : Type 0} ⦃key : Key K⦄ (fast slow : CachePolicy K) (m n : ℕ) where
  promote-le :
      (j k : K) (s : Sim fast slow)
      → IsExclusive fast slow m n s
      → slow.contains k s.slow ≡ true
      → held fast slow j (promote fast slow k s) ≤ held fast slow j s
  unfolding promote
  promote-le j k s v h = ground (
    arith,
    slow.contains-occurs k s.slow,
    slow.occurs-remove j k s.slow v.slow_valid,
    admit_fast-le fast slow j k (record s { slow = (slow.remove k s.slow).0 }) v.fast_valid
        (slow.remove-IsValid k s.slow v.slow_valid),
  )

  promote_if-le :
      (j k : K) (s : Sim fast slow)
      → IsExclusive fast slow m n s
      → held fast slow j (if slow.contains k s.slow then promote fast slow k s else s)
        ≤ held fast slow j s
  promote_if-le j k s v = elim (Bool-cases (slow.contains k s.slow)) [
    | inl e ↦ rw e (promote-le j k s v e)
    | inr e ↦ rw e (omega arith)
  ]

  chase-le :
      (j : K) (budget : ℕ) (k : K) (s : Sim fast slow)
      → IsExclusive fast slow m n s
      → held fast slow j (chase fast slow budget k s).0 ≤ held fast slow j s
  unfolding chase
  chase-le j zero k s v = omega arith
  chase-le j (suc budget) k s v = elim (Option-cases (lookup k s.successor)) [
    | inl e ↦ rw (e, chase) (omega arith)
    | inr (next, e) ↦
        rw (e, chase)
          (omega (
            arith,
            chase-le j budget next _
                (promote_if-IsExclusive fast slow m n (slow.contains next s.slow) next s v),
            promote_if-le j next s v,
          ))
  ]

  chase_if-le :
      (j : K) (b : Bool) (budget : ℕ) (k : K) (s : Sim fast slow)
      → IsExclusive fast slow m n s
      → held fast slow j (if b then chase fast slow budget k s else (s, 0)).0 ≤ held fast slow j s
  chase_if-le j true budget k s v = chase-le j budget k s v
  chase_if-le j false budget k s v = omega arith

  chase_all-le :
      (j : K) (budget : ℕ) (ks : List K) (s : Sim fast slow)
      → IsExclusive fast slow m n s
      → held fast slow j (chase_all fast slow budget ks s).0 ≤ held fast slow j s
  unfolding chase_all
  chase_all-le j budget [] s v = omega arith
  chase_all-le j budget (k ∷ ks) s v =
      let b = fast.contains k s.fast || slow.contains k s.slow in
      omega (
        arith,
        chase_all-le j budget ks _ (chase_if-IsExclusive fast slow m n b budget k s v),
        chase_if-le j b budget k s v,
      )

  -- Prefetching brings no block in.
  pub prefetch-le :
      (j : K) (ks : List K) (s : Sim fast slow)
      → IsExclusive fast slow m n s
      → held fast slow j (prefetch_for_request fast slow ks s).0 ≤ held fast slow j s
  prefetch-le j ks s v = elim (Bool-cases (ltb 0 s.prefetch_depth)) [
    | inl on ↦
        unfold prefetch_for_request in rw on (chase_all-le j (length ks + s.prefetch_depth) ks s v)
    | inr off ↦ unfold prefetch_for_request in rw off (omega arith)
  ]

  -- A block of a request brings in none but itself.
  pub serve-le :
      (j k : K) (p : Loop fast slow)
      → IsExclusive fast slow m n p.sim
      → held fast slow j (serve fast slow k p).sim ≤ same j k + held fast slow j p.sim
  unfolding serve
  serve-le j k p v = elim (Bool-cases (fast.contains k p.sim.fast)) [
    | inl hit ↦ rw hit (omega (arith, fast.occurs-touch j k p.sim.fast))
    | inr out ↦ elim (Bool-cases (slow.contains k p.sim.slow)) [
      | inl below ↦ rw (out, below) (omega (arith, promote-le j k p.sim v below))
      | inr miss ↦ rw (out, miss) (admit_fast-le fast slow j k p.sim v.fast_valid v.slow_valid)
    ]
  ]
