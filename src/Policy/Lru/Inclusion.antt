-- ===== src/Policy/Lru/Inclusion.antt =====
-- python/bench/policies.py: two caches of the class `LRUPolicy`, of which one holds what the other does.
use mooncake_kvcache_tiered.Base.{ℕ, ◌≤◌, ◌≡◌, refl, true, [], Key, arith, newest, ok}
use mooncake_kvcache_tiered.Dict.{Dict, Distinct, occurs}
use mooncake_kvcache_tiered.Policy.Lru.{LruPolicy, IsValid, init, access}
use mooncake_kvcache_tiered.Policy.Lru.Laws.{access-IsValid}
use mooncake_kvcache_tiered.Policy.Lru.Newest.{use_key, occurs-use_key, newest-use_key-newest}
use mooncake_kvcache_tiered.Policy.Lru.Recency.{
  access-newest, capacity-access, init_lem, occurs-newest_mono, access-hit,
}

module _ {K : Type 0} ⦃key : Key K⦄ where
  -- Both caches hold the newest keys of one history, as many as each has room for.
  pub record IsInner (h : Dict K (Unit {0})) (s t : LruPolicy K) : Type 0 where
    pub once : Distinct h
    pub smaller : s.capacity ≤ t.capacity
    pub inner_valid : IsValid s
    pub outer_valid : IsValid t
    pub inner : s.store ≡ newest s.capacity h
    pub outer : t.store ≡ newest t.capacity h

  access-newest_from :
      (h : Dict K (Unit {0})) (k : K) (i : ℕ) (s : LruPolicy K)
      → IsValid s
      → Distinct h
      → s.store ≡ newest s.capacity h
      → (access k i s).0.store ≡ newest (access k i s).0.capacity (use_key k h)
  access-newest_from h k i s v d e =
      rw (capacity-access k i s, access-newest k i s v, e) (newest-use_key-newest s.capacity k h d)

  pub access-IsInner :
      (h : Dict K (Unit {0})) (k : K) (i : ℕ) (s t : LruPolicy K)
      → IsInner h s t
      → IsInner (use_key k h) (access k i s).0 (access k i t).0
  access-IsInner h k i s t v = record {
    once = λ j. occurs-use_key j k h v.once;
    smaller = omega (arith, v.smaller, capacity-access k i s, capacity-access k i t);
    inner_valid = access-IsValid k i s v.inner_valid;
    outer_valid = access-IsValid k i t v.outer_valid;
    inner = access-newest_from h k i s v.inner_valid v.once v.inner;
    outer = access-newest_from h k i t v.outer_valid v.once v.outer;
  }

  -- The larger cache answers with a hit whenever the smaller one does.
  pub access-hit-IsInner :
      (h : Dict K (Unit {0})) (k : K) (i : ℕ) (s t : LruPolicy K)
      → IsInner h s t
      → (access k i s).2 ≡ true
      → (access k i t).2 ≡ true
  access-hit-IsInner h k i s t v hit = ground (
    arith,
    access-hit k i s,
    access-hit k i t,
    v.inner,
    v.outer,
    occurs-newest_mono s.capacity t.capacity k h v.smaller,
  )

  pub init-IsInner :
      (m n : ℕ) (s t : LruPolicy K) → m ≤ n → init m ≡ ok s → init n ≡ ok t → IsInner [] s t
  init-IsInner m n s t le p q =
      let (v, empty, c) = init_lem m s p in
      let (w, empty', c') = init_lem n t q in
      record {
        once = λ j. unfold occurs in omega arith;
        smaller = omega (arith, le, c, c');
        inner_valid = v;
        outer_valid = w;
        inner = rw empty (unfold newest in refl);
        outer = rw empty' (unfold newest in refl);
      }
