-- ===== src/Tiered/Prefetch.antt =====
-- python/bench/tiered.py: lemmas on where `_prefetch_for_request` moves blocks. `FillsFirst` is
-- what the slow tier must do; the LRU policy of the default configuration is an instance.
use mooncake_kvcache_tiered.Base.{
  ℕ, zero, suc, ◌+◌, ◌≤◌, ◌<◌, max, ◌≡◌, refl, ◌∙◌, ap, Bool, true, false, List, [], ◌∷◌, Key,
  count, arith, ltb, inl, inr, ◌⊎◌, Bool-cases, Option-cases, if◌then◌else◌, length, ◌||◌,
}
use mooncake_kvcache_tiered.Dict.{lookup, set, move_to_end}
use mooncake_kvcache_tiered.Dict.Laws.{length-set, length-move_to_end}
use mooncake_kvcache_tiered.Dict.Trim.{trim-le}
use mooncake_kvcache_tiered.Policy.{CachePolicy}
use mooncake_kvcache_tiered.Policy.Lru.{admit}
use mooncake_kvcache_tiered.Policy.Lru.Laws.{lru_policy}
use mooncake_kvcache_tiered.Tiered.{
  Sim, demote, admit_fast, promote, chase, chase_all, prefetch_for_request,
}
use mooncake_kvcache_tiered.Tiered.Exclusive.{
  IsExclusive, chase_if-IsExclusive, promote_if-IsExclusive,
}

-- An admission to a policy that is not full evicts nothing.
abbrev pub FillsFirst : {K : Type 0} ⦃key : Key K⦄ → CachePolicy K → Type 0
FillsFirst {K} p =
    (k : K) (s : p.State) → p.IsValid s → p.size s < p.capacity s → (p.admit k s).1 ≡ []

pub lru-FillsFirst : {K : Type 0} ⦃key : Key K⦄ → FillsFirst (lru_policy {K = K})
unfolding admit
lru-FillsFirst k s v h =
    ap (λ r. r.1)
      (trim-le s.capacity (move_to_end k (set k tt s.store))
        (omega (arith, length-move_to_end k (set k tt s.store), length-set k tt s.store)))

short-cases {ℓ} : {A : Type ℓ} (xs : List A) → length xs ≤ 1 → (xs ≡ []) ⊎ ((x : A) × (xs ≡ x ∷ []))
short-cases [] h = inl refl
short-cases (x ∷ []) h = inr (x, refl)
short-cases (x ∷ y ∷ xs) h = absurd (omega arith)

module _ {K : Type 0} ⦃key : Key K⦄ (fast slow : CachePolicy K) where
  -- How often the two tiers hold a block.
  abbrev pub held : K → Sim fast slow → ℕ
  held j s = fast.occurs j s.fast + slow.occurs j s.slow

module _ {K : Type 0} ⦃key : Key K⦄ (fast slow : CachePolicy K) (m n : ℕ)
    (fills : FillsFirst slow) where
  -- A block is demoted into the room that another one left.
  occurs-demote :
      (j : K) (gone : List K) (s : slow.State)
      → slow.IsValid s
      → length gone ≤ 1
      → slow.size s < slow.capacity s
      → slow.occurs j (demote fast slow gone s) ≡ max (count j gone) (slow.occurs j s)
  occurs-demote j gone s v h room = elim (short-cases gone h) [
    | inl e ↦ rw e (unfold demote in omega arith)
    | inr (k, e) ↦
        rw e (
          unfold demote in
          omega (arith, slow.occurs-admit j k s v, ap (count j) (fills k s v room)))
  ]

  held-promote :
      (j k : K) (s : Sim fast slow)
      → IsExclusive fast slow m n s
      → slow.contains k s.slow ≡ true
      → held fast slow j (promote fast slow k s) ≡ held fast slow j s
  unfolding promote admit_fast
  held-promote j k s v h = ground (
    arith,
    slow.contains-occurs k s.slow,
    slow.occurs-remove j k s.slow v.slow_valid,
    fast.occurs-admit j k s.fast v.fast_valid,
    occurs-demote j (fast.admit k s.fast).1 (slow.remove k s.slow).0
        (slow.remove-IsValid k s.slow v.slow_valid) (fast.length-admit k s.fast v.fast_valid),
    room,
    v.once j,
    v.once k,
  )
    where
      room : slow.size (slow.remove k s.slow).0 < slow.capacity (slow.remove k s.slow).0
      room = ground (
        arith,
        slow.contains-occurs k s.slow,
        slow.size-remove k s.slow v.slow_valid,
        slow.size-le-capacity s.slow v.slow_valid,
        slow.capacity-remove k s.slow,
        slow.occurs-le-size k s.slow,
      )

  held-promote_if :
      (j k : K) (s : Sim fast slow)
      → IsExclusive fast slow m n s
      → held fast slow j (if slow.contains k s.slow then promote fast slow k s else s)
        ≡ held fast slow j s
  held-promote_if j k s v = elim (Bool-cases (slow.contains k s.slow)) [
    | inl e ↦ rw e (held-promote j k s v e)
    | inr e ↦ rw e
  ]

  held-chase :
      (j : K) (budget : ℕ) (k : K) (s : Sim fast slow)
      → IsExclusive fast slow m n s
      → held fast slow j (chase fast slow budget k s).0 ≡ held fast slow j s
  unfolding chase
  held-chase j zero k s v = refl
  held-chase j (suc budget) k s v = elim (Option-cases (lookup k s.successor)) [
    | inl e ↦ rw (e, chase)
    | inr (next, e) ↦
        rw (e, chase)
          (held-chase j budget next _
              (promote_if-IsExclusive fast slow m n (slow.contains next s.slow) next s v)
            ∙ held-promote_if j next s v)
  ]

  held-chase_if :
      (j : K) (b : Bool) (budget : ℕ) (k : K) (s : Sim fast slow)
      → IsExclusive fast slow m n s
      → held fast slow j (if b then chase fast slow budget k s else (s, 0)).0 ≡ held fast slow j s
  held-chase_if j true budget k s v = held-chase j budget k s v
  held-chase_if j false budget k s v = refl

  held-chase_all :
      (j : K) (budget : ℕ) (ks : List K) (s : Sim fast slow)
      → IsExclusive fast slow m n s
      → held fast slow j (chase_all fast slow budget ks s).0 ≡ held fast slow j s
  unfolding chase_all
  held-chase_all j budget [] s v = refl
  held-chase_all j budget (k ∷ ks) s v =
      let b = fast.contains k s.fast || slow.contains k s.slow in
      held-chase_all j budget ks _ (chase_if-IsExclusive fast slow m n b budget k s v)
      ∙ held-chase_if j b budget k s v

  -- Prefetching for a request loses no block and brings none in: each block is held by the two
  -- tiers together as often as before. The tiers must be exclusive, and the slow one evict only when
  -- it is full.
  pub held-prefetch :
      (j : K) (ks : List K) (s : Sim fast slow)
      → IsExclusive fast slow m n s
      → held fast slow j (prefetch_for_request fast slow ks s).0 ≡ held fast slow j s
  held-prefetch j ks s v = elim (Bool-cases (ltb 0 s.prefetch_depth)) [
    | inl on ↦
        unfold prefetch_for_request in
        rw on (held-chase_all j (length ks + s.prefetch_depth) ks s v)
    | inr off ↦ unfold prefetch_for_request in rw off
  ]
