-- ===== src/Policy/S3Fifo/Methods.antt =====
-- python/bench/policies.py: lemmas on the other methods of `S3FifoPolicy`, and it as an
-- instance of the interface.
use mooncake_kvcache_tiered.Base.{
  raise, value_error, [], ◌/◌, ◌*◌, ℕ, ◌+◌, ◌-◌, ◌≤◌, ◌<◌, min, max, ◌≡◌, refl, true, false, Key,
  same, arith, length, inl, inr, Bool-cases, Option-cases, if◌then◌else◌, ok, ap, count,
}
use mooncake_kvcache_tiered.Dict.{Dict, occurs, lookup}
use mooncake_kvcache_tiered.Dict.Laws.{
  occurs-le-length, contains-occurs, occurs-set, occurs-remove, length-set, length-remove,
  lookup-some_occurs,
}
use mooncake_kvcache_tiered.Policy.{CachePolicy}
use mooncake_kvcache_tiered.Policy.S3Fifo.{
  S3FifoPolicy, IsValid, init, admit, contains_key, resident, bump, touch, access, remove,
}
use mooncake_kvcache_tiered.Policy.S3Fifo.Laws.{
  length-admit, occurs-admit, admit-IsValid, capacity-admit, contains_key-occurs,
}

module _ {K : Type 0} ⦃key : Key K⦄ where
  occurs-bump : (j k : K) (d : Dict K ℕ) → occurs j (bump k d) ≡ occurs j d
  unfolding bump
  occurs-bump j k d = elim (Option-cases (lookup k d)) [
    | inl e ↦ rw (e, bump)
    | inr (f, e) ↦
        rw (e, bump, occurs-set j k (min (f + 1) 3) d) (ground (arith, lookup-some_occurs k d f e))
  ]

  length-bump : (k : K) (d : Dict K ℕ) → length (bump k d) ≡ length d
  unfolding bump
  length-bump k d = elim (Option-cases (lookup k d)) [
    | inl e ↦ rw (e, bump)
    | inr (f, e) ↦
        rw (e, bump, length-set k (min (f + 1) 3) d) (ground (arith, lookup-some_occurs k d f e))
  ]

  pub resident-le : (k : K) (s : S3FifoPolicy K) → IsValid s → resident k s ≤ 1
  resident-le k s v = omega (arith, v.apart k)

  module _ (k : K) (s : S3FifoPolicy K) where
    pub occurs-touch : (j : K) → resident j (touch k s) ≡ resident j s
    unfolding touch
    occurs-touch j = ground (arith, occurs-bump j k s.small, occurs-bump j k s.main)

    pub capacity-touch : (touch k s).capacity ≡ s.capacity
    unfolding touch
    capacity-touch = ground arith

    ghost-touch : (touch k s).ghost ≡ s.ghost
    unfolding touch
    ghost-touch = ground arith

    pub touch-IsValid : IsValid s → IsValid (touch k s)
    touch-IsValid v = record {
      positive = unfold touch in ground arith;
      split = unfold touch in ground arith;
      small_bounded = unfold touch in ground (arith, length-bump k s.small);
      main_bounded = unfold touch in ground (arith, length-bump k s.main);
      ghost_bounded = unfold touch in ground arith;
      apart = λ j. omega (arith, occurs-touch j, ap (occurs j) ghost-touch, v.apart j);
    }

    -- An access of a resident key is a hit that touches it; any other is a miss that admits the key,
    -- and evicts what the admission evicts.
    access-touch-admit :
        (i : ℕ)
        → access k i s ≡ (
            if contains_key k s
            then (touch k s, [], true)
            else ((admit k s).0, (admit k s).1, false))
    unfolding access touch contains_key
    access-touch-admit i = ground arith

    pub access-IsValid : (i : ℕ) → IsValid s → IsValid (access k i s).0
    access-IsValid i v = rw (access-touch-admit i) (elim (Bool-cases (contains_key k s)) [
      | inl e ↦ rw e (touch-IsValid v)
      | inr e ↦ rw e (admit-IsValid k s v)
    ])

    pub capacity-access : (i : ℕ) → IsValid s → (access k i s).0.capacity ≡ s.capacity
    capacity-access i v = rw (access-touch-admit i) (elim (Bool-cases (contains_key k s)) [
      | inl e ↦ rw e capacity-touch
      | inr e ↦ rw e (capacity-admit k s v)
    ])

    pub occurs-access :
        (j : K) (i : ℕ)
        → IsValid s
        → (resident j s ≤ resident j (access k i s).0 + count j (access k i s).1)
          × (resident j (access k i s).0 + count j (access k i s).1 ≤ max (same j k) (resident j s))
    occurs-access j i v = rw (access-touch-admit i) (elim (Bool-cases (contains_key k s)) [
      | inl e ↦ rw e (omega (arith, occurs-touch j), omega (arith, occurs-touch j))
      | inr e ↦ rw e (omega (arith, occurs-admit k s v j), omega (arith, occurs-admit k s v j))
    ])

    pub access-contains : (i : ℕ) → (access k i s).2 ≡ contains_key k s
    access-contains i = rw (access-touch-admit i) (ground arith)

    pub remove-IsValid : IsValid s → IsValid (remove k s).0
    remove-IsValid v = record {
      positive = unfold remove in ground arith;
      split = unfold remove in ground arith;
      small_bounded = unfold remove in ground (arith, length-remove k s.small);
      main_bounded = unfold remove in ground (arith, length-remove k s.main);
      ghost_bounded = unfold remove in ground arith;
      apart = λ j.
          unfold remove in
          ground (arith, occurs-remove j k s.small, occurs-remove j k s.main, v.apart j);
    }

    pub capacity-remove : (remove k s).0.capacity ≡ s.capacity
    unfolding remove
    capacity-remove = ground arith

    pub occurs-remove_key :
        (j : K) → IsValid s → resident j (remove k s).0 ≡ resident j s - same j k
    unfolding remove
    occurs-remove_key j v = ground (
      arith,
      contains-occurs k s.small,
      occurs-remove j k s.small,
      occurs-remove j k s.main,
      v.apart j,
    )

    pub size-remove :
        IsValid s
        → length (remove k s).0.small + length (remove k s).0.main
          ≡ length s.small + length s.main - resident k s
    unfolding remove
    size-remove v = ground (
      arith,
      contains-occurs k s.small,
      length-remove k s.small,
      length-remove k s.main,
      occurs-le-length k s.small,
      occurs-le-length k s.main,
      v.apart k,
    )

    pub remove-contains : IsValid s → (remove k s).1 ≡ contains_key k s
    unfolding remove contains_key
    remove-contains v = ground arith

  pub resident-le-size :
      (k : K) (s : S3FifoPolicy K) → resident k s ≤ length s.small + length s.main
  resident-le-size k s = omega (arith, occurs-le-length k s.small, occurs-le-length k s.main)

  pub size-le-capacity :
      (s : S3FifoPolicy K) → IsValid s → length s.small + length s.main ≤ s.capacity
  size-le-capacity s v = omega arith

  pub init_zero : init {K = K} 0 ≡ raise value_error
  unfolding init
  init_zero = refl

  -- A new cache is empty.
  pub init_positive :
      (cap : ℕ)
      → 0 < cap
      → (s : S3FifoPolicy K) × (init cap ≡ ok s)
        × IsValid s
        × (s.capacity ≡ cap)
        × ((k : K) → resident k s ≡ 0)
  unfolding init occurs
  init_positive cap h = (
    record {
      capacity = cap;
      small_cap = max 1 (cap / 10);
      main_cap = cap - max 1 (cap / 10);
      ghost_cap = cap * 2;
      small = [];
      main = [];
      ghost = [];
    },
    ground arith,
    ground arith,
    refl,
    λ k. refl,
  )

  abbrev pub s3fifo_policy : CachePolicy K
  s3fifo_policy = record {
    State = S3FifoPolicy K;
    init = init;
    access = access;
    contains = contains_key;
    touch = touch;
    admit = admit;
    remove = remove;
    capacity = λ s. s.capacity;
    size = λ s. length s.small + length s.main;
    occurs = resident;
    IsValid = IsValid;
    init_zero = init_zero;
    init_positive = init_positive;
    size-le-capacity = size-le-capacity;
    occurs-le = resident-le;
    occurs-le-size = resident-le-size;
    contains-occurs = contains_key-occurs;
    access-IsValid = λ k i s. access-IsValid k s i;
    access-contains = λ k i s. access-contains k s i;
    capacity-access = λ k i s. capacity-access k s i;
    occurs-access = λ j k i s. occurs-access k s j i;
    touch-IsValid = touch-IsValid;
    capacity-touch = capacity-touch;
    occurs-touch = λ j k s. occurs-touch k s j;
    admit-IsValid = admit-IsValid;
    capacity-admit = capacity-admit;
    occurs-admit = λ j k s v. occurs-admit k s v j;
    length-admit = length-admit;
    size-remove = size-remove;
    remove-IsValid = remove-IsValid;
    capacity-remove = capacity-remove;
    occurs-remove = λ j k s. occurs-remove_key k s j;
    remove-contains = remove-contains;
  }
