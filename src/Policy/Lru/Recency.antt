-- ===== src/Policy/Lru/Recency.antt =====
-- python/bench/policies.py: `LRUPolicy` against an unbounded list of the keys by recency.
use mooncake_kvcache_tiered.Base.{
  ℕ, ◌≤◌, ◌<◌, ◌≡◌, refl, subst, List, [], ◌∷◌, Key, arith, ltb, length, length-append, newest, ok,
  inl, inr, Bool-cases,
}
use mooncake_kvcache_tiered.Dict.{Dict, Distinct, lookup, contains, set, move_to_end, occurs}
use mooncake_kvcache_tiered.Dict
use mooncake_kvcache_tiered.Dict.Laws.{contains-occurs, length-remove}
use mooncake_kvcache_tiered.Dict.Trim.{trim-newest}
use mooncake_kvcache_tiered.Policy.Lru.{LruPolicy, IsValid, init, access}
use mooncake_kvcache_tiered.Policy.Lru.Laws.{access-IsValid}
use mooncake_kvcache_tiered.Policy.Lru.Newest.{
  newest-le, use_key, recency, run, occurs-use_key, newest-use_key-newest, move_to_end_present,
  move_to_end-set,
}

module _ {K : Type 0} ⦃key : Key K⦄ where
  -- An access makes the key the most recent one and keeps what fits.
  pub access-newest :
      (k : K) (i : ℕ) (s : LruPolicy K)
      → IsValid s
      → (access k i s).0.store ≡ newest s.capacity (use_key k s.store)
  access-newest k i s v = elim (Bool-cases (contains k s.store)) [
    | inl e ↦
        let here : 0 < occurs k s.store = ground (arith, contains-occurs k s.store) in
        rw (newest-le s.capacity (use_key k s.store) (fits here))
          (unfold access in rw e (move_to_end_present k s.store here))
    | inr e ↦
        unfold access in
        rw (e, trim-newest s.capacity (move_to_end k (set k tt s.store)), move_to_end-set k s.store)
  ]
    where
      fits : 0 < occurs k s.store → length (use_key k s.store) ≤ s.capacity
      fits h =
          unfold use_key in
          omega (
            arith,
            length-append (Dict.remove k s.store) ((k, tt) ∷ []),
            length-remove k s.store,
            v.bounded,
          )

  pub capacity-access : (k : K) (i : ℕ) (s : LruPolicy K) → (access k i s).0.capacity ≡ s.capacity
  unfolding access
  capacity-access k i s = ground arith

  run-newest_from :
      (ks : List K) (s : LruPolicy K) (h : Dict K (Unit {0}))
      → IsValid s
      → Distinct h
      → s.store ≡ newest s.capacity h
      → (run ks s).store ≡ newest s.capacity (recency ks h)
  unfolding run recency
  run-newest_from [] s h v d e = e
  run-newest_from (k ∷ ks) s h v d e =
      subst (λ c. (run ks (access k 0 s).0).store ≡ newest c (recency ks (use_key k h)))
        (capacity-access k 0 s)
        (run-newest_from ks (access k 0 s).0 (use_key k h) (access-IsValid k 0 s v)
          (λ j. occurs-use_key j k h d) step)
    where
      step : (access k 0 s).0.store ≡ newest (access k 0 s).0.capacity (use_key k h)
      step =
          rw (capacity-access k 0 s, access-newest k 0 s v, e)
            (newest-use_key-newest s.capacity k h d)

  run-IsValid : (ks : List K) (s : LruPolicy K) → IsValid s → IsValid (run ks s)
  unfolding run
  run-IsValid [] s v = v
  run-IsValid (k ∷ ks) s v = run-IsValid ks (access k 0 s).0 (access-IsValid k 0 s v)

  -- `init` refuses the capacity 0 only, and gives an empty valid cache.
  pub init_lem :
      (cap : ℕ) (s : LruPolicy K)
      → init cap ≡ ok s
      → IsValid s × (s.store ≡ []) × (s.capacity ≡ cap)
  unfolding init occurs
  init_lem cap s e = ground arith

  -- A new cache of capacity `cap` holds, after any accesses, the `cap` most recently used keys, the
  -- latest last.
  pub run-newest :
      (cap : ℕ) (s : LruPolicy K) (ks : List K)
      → init cap ≡ ok s
      → (run ks s).store ≡ newest cap (recency ks [])
  run-newest cap s ks e =
      let (v, empty, c) = init_lem cap s e in
      subst (λ n. (run ks s).store ≡ newest n (recency ks [])) c
        (run-newest_from ks s [] v (λ j. unfold occurs in omega arith)
          (rw empty (unfold newest in refl)))

  occurs-newest-le : (n : ℕ) (k : K) (h : Dict K (Unit {0})) → occurs k (newest n h) ≤ occurs k h
  unfolding newest occurs
  occurs-newest-le n k [] = omega arith
  occurs-newest-le n k ((j, u) ∷ h) = ground (arith, occurs-newest-le n k h)

  pub occurs-newest_mono :
      (m n : ℕ) (k : K) (h : Dict K (Unit {0}))
      → m ≤ n
      → occurs k (newest m h) ≤ occurs k (newest n h)
  unfolding newest occurs
  occurs-newest_mono m n k [] le = omega arith
  occurs-newest_mono m n k ((j, u) ∷ h) le =
      ground (arith, occurs-newest_mono m n k h, occurs-newest-le m k h)

  pub access-hit : (k : K) (i : ℕ) (s : LruPolicy K) → (access k i s).2 ≡ ltb 0 (occurs k s.store)
  unfolding access
  access-hit k i s = ground (arith, contains-occurs k s.store)
