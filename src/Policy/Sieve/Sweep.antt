-- ===== src/Policy/Sieve/Sweep.antt =====
-- python/bench/policies.py: lemmas on the loop of `SievePolicy._evict`.
use mooncake_kvcache_tiered.Base.{
  ℕ, zero, suc, ◌+◌, ◌-◌, ◌%◌, ◌<◌, ◌≡◌, refl, ◌∙◌, Bool, true, false, none, some, List, [], ◌∷◌,
  Key, same, count, arith, ltb, length, get_elem?, inl, inr, Bool-cases, if◌then◌else◌, length-map,
  if_pos, if_neg,
}
use mooncake_kvcache_tiered.Dict.{Dict, Distinct, lookup, set, occurs}
use mooncake_kvcache_tiered.Dict
use mooncake_kvcache_tiered.Dict.Laws.{
  occurs-set, occurs-remove, length-remove, length-set, occurs-le-length,
}
use mooncake_kvcache_tiered.Dict.Trim.{keys}
use mooncake_kvcache_tiered.Policy.Sieve.{
  SievePolicy, Swept, visited_count, is_visited, start, sweep, evict,
}
use native.Mathlib.Nat.{mod-lt}

get_elem?-lt {ℓ} :
    {A : Type ℓ} (xs : List A) (i : ℕ) → i < length xs → (x : A) × (get_elem? xs i ≡ some x)
get_elem?-lt [] i h = absurd (omega arith)
get_elem?-lt (x ∷ xs) zero h = (x, refl)
get_elem?-lt (x ∷ xs) (suc i) h = get_elem?-lt xs i (omega arith)

module _ {K : Type 0} ⦃key : Key K⦄ where
  count-get_elem? : (xs : List K) (i : ℕ) (x : K) → get_elem? xs i ≡ some x → 0 < count x xs
  count-get_elem? [] i x h = cc
  count-get_elem? (y ∷ xs) zero x h = ground arith
  count-get_elem? (y ∷ xs) (suc i) x h = omega (arith, count-get_elem? xs i x h)

  count-keys : (j : K) (d : Dict K Bool) → count j (keys d) ≡ occurs j d
  unfolding occurs
  count-keys j [] = refl
  count-keys j (e ∷ d) = omega (arith, count-keys j d)

  -- Passing a visited key leaves one visited key less.
  visited_count-set :
      (k : K) (d : Dict K Bool)
      → is_visited k d ≡ true
      → visited_count (set k false d) + 1 ≡ visited_count d
  unfolding is_visited visited_count set lookup
  visited_count-set k [] h = cc
  visited_count-set k ((j, b) ∷ d) h = elim (key.dec k j) [
    | yes p ↦ rw (if_pos (key.dec k j) p) (ground arith)
    | no p ↦ rw (if_neg (key.dec k j) p) (ground (arith, visited_count-set k d))
  ]

  -- The loop stops at some key of the store, and takes that key alone.
  pub record Takes (d : Dict K Bool) (r : Swept K) : Type 0 where
    pub stored : 0 < occurs r.victim d
    pub taken : (j : K) → occurs j r.store ≡ occurs j d - same j r.victim
    pub shorter : length r.store + 1 ≡ length d

  -- A pass over a key changes no key and no length.
  occurs_passed :
      (j k : K) (d : Dict K Bool) → 0 < occurs k d → occurs j (set k false d) ≡ occurs j d
  occurs_passed j k d h = ground (arith, occurs-set j k false d)

  passed-Takes :
      (k : K) (d : Dict K Bool) (r : Swept K) → 0 < occurs k d → Takes (set k false d) r → Takes d r
  passed-Takes k d r h t = record {
    stored = omega (arith, occurs_passed r.victim k d h, t.stored);
    taken = λ j. omega (arith, occurs_passed j k d h, t.taken j);
    shorter = omega (arith, length-set k false d, t.shorter);
  }

  sweep_pass :
      (fuel i : ℕ) (ks : List K) (d : Dict K Bool) (k : K)
      → get_elem? ks (i % length ks) ≡ some k
      → is_visited k d ≡ true
      → sweep (suc fuel) ks i d ≡ sweep fuel ks (i + 1) (set k false d)
  unfolding sweep
  sweep_pass fuel i ks d k e t = rw (e, sweep, t)

  -- The hand takes an unvisited key, and moves on to the next one.
  sweep_stop :
      (fuel i : ℕ) (ks : List K) (d : Dict K Bool) (k : K)
      → get_elem? ks (i % length ks) ≡ some k
      → is_visited k d ≡ false
      → (r : Swept K) × (sweep (suc fuel) ks i d ≡ some r)
        × (r.victim ≡ k)
        × (r.store ≡ Dict.remove k d)
  unfolding sweep
  sweep_stop fuel i ks d k e t = (
    record {
      store = Dict.remove k d;
      cursor = if ltb 1 (length ks) then get_elem? ks ((i + 1) % length ks) else none;
      victim = k;
    },
    rw (e, sweep, t),
    refl,
    refl,
  )

  removed-Takes :
      (k : K) (d : Dict K Bool) (r : Swept K)
      → 0 < occurs k d
      → r.victim ≡ k
      → r.store ≡ Dict.remove k d
      → Takes d r
  removed-Takes k d r h v e = record {
    stored = ground arith;
    taken = λ j. ground (arith, occurs-remove j k d);
    shorter = ground (arith, length-remove k d, occurs-le-length k d);
  }

  -- With more fuel than visited keys the loop ends by taking a key.
  sweep-Takes :
      (fuel i : ℕ) (ks : List K) (d : Dict K Bool)
      → visited_count d < fuel
      → 0 < length ks
      → ((j : K) → count j ks ≡ occurs j d)
      → (r : Swept K) × (sweep fuel ks i d ≡ some r) × Takes d r
  sweep-Takes zero i ks d f n same_keys = absurd (omega arith)
  sweep-Takes (suc fuel) i ks d f n same_keys =
      let (k, e) = get_elem?-lt ks (i % length ks) (mod-lt i n) in
      let here : 0 < occurs k d =
        omega (arith, count-get_elem? ks (i % length ks) k e, same_keys k) in
      elim (Bool-cases (is_visited k d)) [
        | inl t ↦
            let (r, run, takes) =
              sweep-Takes fuel (i + 1) ks (set k false d) (omega (arith, visited_count-set k d t)) n
                (λ j. omega (arith, same_keys j, occurs_passed j k d here)) in
            (r, sweep_pass fuel i ks d k e t ∙ run, passed-Takes k d r here takes)
        | inr t ↦
            let (r, run, v, rest) = sweep_stop fuel i ks d k e t in
            (r, run, removed-Takes k d r here v rest)
      ]

  -- An eviction from a store that is not empty takes one key, and reports it.
  pub evict_lem :
      (s : SievePolicy K)
      → 0 < length s.store
      → (r : Swept K) × (evict s ≡ (record s { store = r.store; cursor = r.cursor }, r.victim ∷ []))
        × Takes s.store r
  unfolding evict
  evict_lem s n =
      let (r, run, takes) =
        sweep-Takes (visited_count s.store + 1) (start s.cursor s.store) (keys s.store) s.store
          (omega arith) (omega (arith, length-map s.store (λ e. e.0)))
          (λ j. count-keys j s.store) in
      (r, rw (run, evict), takes)
