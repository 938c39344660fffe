-- ===== src/Tiered/Requests.antt =====
-- python/bench/tiered.py: the invariant of the two tiers over the requests.
use mooncake_kvcache_tiered.Base.{
  ℕ, ◌+◌, ◌≤◌, ◌<◌, ◌≡◌, ◌∙◌, List, [], ◌∷◌, Key, arith, inl, inr, Bool-cases, Option-cases, ok,
}
use mooncake_kvcache_tiered.Policy.{CachePolicy}
use mooncake_kvcache_tiered.Tiered.{
  TieredCosts, Sim, Loop, init, serve, link, serve_all, process_request, process_all,
}
use mooncake_kvcache_tiered.Tiered.Exclusive.{
  IsExclusive, admit_fast-IsExclusive, promote-IsExclusive, prefetch-IsExclusive,
}

module _ {K : Type 0} ⦃key : Key K⦄ (fast slow : CachePolicy K) (m n : ℕ) where
  touched-IsExclusive :
      (k : K) (s : Sim fast slow)
      → IsExclusive fast slow m n s
      → IsExclusive fast slow m n (record s { fast = fast.touch k s.fast })
  touched-IsExclusive k s v = record {
    fast_valid = fast.touch-IsValid k s.fast v.fast_valid;
    slow_valid = v.slow_valid;
    fast_capacity = fast.capacity-touch k s.fast ∙ v.fast_capacity;
    slow_capacity = v.slow_capacity;
    once = λ j. omega (arith, fast.occurs-touch j k s.fast, v.once j);
  }

  pub serve-IsExclusive :
      (k : K) (p : Loop fast slow)
      → IsExclusive fast slow m n p.sim
      → IsExclusive fast slow m n (serve fast slow k p).sim
  serve-IsExclusive k p v = elim (Bool-cases (fast.contains k p.sim.fast)) [
    | inl hit ↦ unfold serve in rw hit (touched-IsExclusive k p.sim v)
    | inr out ↦ elim (Bool-cases (slow.contains k p.sim.slow)) [
      | inl below ↦ unfold serve in rw (out, below) (promote-IsExclusive fast slow m n k p.sim v)
      | inr miss ↦
          unfold serve in
          rw (out, miss)
            (admit_fast-IsExclusive fast slow m n k p.sim
              (ground (arith, slow.contains-occurs k p.sim.slow)) v)
    ]
  ]

  pub link-IsExclusive :
      (k : K) (p : Loop fast slow)
      → IsExclusive fast slow m n p.sim
      → IsExclusive fast slow m n (link fast slow k p).sim
  link-IsExclusive k p v = elim (Option-cases p.prev) [
    | inl e ↦ unfold link in rw (e, link) v
    | inr (j, e) ↦
        unfold link in
        rw (e, link)
          (record {
            fast_valid = v.fast_valid;
            slow_valid = v.slow_valid;
            fast_capacity = v.fast_capacity;
            slow_capacity = v.slow_capacity;
            once = v.once;
          })
  ]

  serve_all-IsExclusive :
      (ks : List K) (p : Loop fast slow)
      → IsExclusive fast slow m n p.sim
      → IsExclusive fast slow m n (serve_all fast slow ks p).sim
  unfolding serve_all
  serve_all-IsExclusive [] p v = v
  serve_all-IsExclusive (k ∷ ks) p v =
      serve_all-IsExclusive ks _ (link-IsExclusive k _ (serve-IsExclusive k p v))

  -- A request, its prefetching included, keeps both tiers valid and apart.
  process_request-IsExclusive :
      (ks : List K) (s : Sim fast slow)
      → IsExclusive fast slow m n s
      → IsExclusive fast slow m n (process_request fast slow ks s).0
  unfolding process_request
  process_request-IsExclusive ks s v =
      serve_all-IsExclusive ks _ (prefetch-IsExclusive fast slow m n ks s v)

  process_all-IsExclusive :
      (rs : List (List K)) (s : Sim fast slow)
      → IsExclusive fast slow m n s
      → IsExclusive fast slow m n (process_all fast slow rs s)
  unfolding process_all
  process_all-IsExclusive [] s v = v
  process_all-IsExclusive (ks ∷ rs) s v =
      process_all-IsExclusive rs _ (process_request-IsExclusive ks s v)

  -- A new simulator with room in both tiers is empty and exclusive.
  pub init_lem :
      (depth : ℕ) (costs : TieredCosts)
      → 0 < m
      → 0 < n
      → (s : Sim fast slow) × (init fast slow m n depth costs ≡ ok s) × IsExclusive fast slow m n s
  unfolding init
  init_lem depth costs p q =
      let (f, fe, fv, fc, fn) = fast.init_positive m p in
      let (l, le, lv, lc, ln) = slow.init_positive n q in
      (
        record { fast = f; slow = l; successor = []; prefetch_depth = depth; costs = costs },
        rw (fe, le),
        record {
          fast_valid = fv;
          slow_valid = lv;
          fast_capacity = fc;
          slow_capacity = lc;
          once = λ j. omega (arith, fn j, ln j);
        },
      )

  -- From a new simulator on, whatever the requests, each tier holds at most as many blocks as it
  -- has room for, none is in both, and none twice in one.
  pub process_all_bounds :
      (depth : ℕ) (costs : TieredCosts) (rs : List (List K))
      → 0 < m
      → 0 < n
      → (s : Sim fast slow) × (init fast slow m n depth costs ≡ ok s)
        × (fast.size (process_all fast slow rs s).fast ≤ m)
        × (slow.size (process_all fast slow rs s).slow ≤ n)
        × ((j : K)
            → fast.occurs j (process_all fast slow rs s).fast
                + slow.occurs j (process_all fast slow rs s).slow
              ≤ 1)
  process_all_bounds depth costs rs p q =
      let (s, e, v) = init_lem depth costs p q in
      let w = process_all-IsExclusive rs s v in
      let after = process_all fast slow rs s in
      (
        s,
        e,
        omega (arith, fast.size-le-capacity after.fast w.fast_valid, w.fast_capacity),
        omega (arith, slow.size-le-capacity after.slow w.slow_valid, w.slow_capacity),
        w.once,
      )
