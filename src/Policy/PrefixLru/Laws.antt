-- ===== src/Policy/PrefixLru/Laws.antt =====
-- python/bench/policies.py: `PrefixAwareLRUPolicy` as an instance of the interface.
use mooncake_kvcache_tiered.Base.{
  ◌≤◌, ◌-◌, raise, value_error, [], ℕ, ◌+◌, ◌<◌, max, ◌≡◌, refl, true, Key, same, count, arith, ltb,
  length, ok, inl, inr, Bool-cases,
}
use mooncake_kvcache_tiered.Dict.{contains, set, move_to_end, occurs}
use mooncake_kvcache_tiered.Dict.Laws.{
  occurs-le-length, length-set, contains-occurs, occurs-set, occurs-remove, occurs-move_to_end,
  length-remove, length-move_to_end,
}
use mooncake_kvcache_tiered.Policy.{CachePolicy}
use mooncake_kvcache_tiered.Policy.PrefixLru.{
  PrefixLruPolicy, IsValid, init, admit, admit_at, touch, access, remove, contains_key,
}
use mooncake_kvcache_tiered.Policy.PrefixLru.Evict.{
  length-evict_over_gone, length-evict_over, occurs-evict_over,
}

module _ {K : Type 0} ⦃key : Key K⦄ where
  occurs-admit_at :
      (j k : K) (i : ℕ) (s : PrefixLruPolicy K)
      → occurs j (admit_at k i s).0.store + count j (admit_at k i s).1
        ≡ max (same j k) (occurs j s.store)
  unfolding admit_at
  occurs-admit_at j k i s =
      let store = move_to_end k (set k i s.store) in
      omega (
        arith,
        occurs-evict_over j (length store) s.capacity store,
        occurs-move_to_end j k (set k i s.store),
        occurs-set j k i s.store,
      )

  admit_at-IsValid :
      (k : K) (i : ℕ) (s : PrefixLruPolicy K) → IsValid s → IsValid (admit_at k i s).0
  admit_at-IsValid k i s v = record {
    positive = unfold admit_at in v.positive;
    bounded =
        unfold admit_at in
        length-evict_over (length (move_to_end k (set k i s.store))) s.capacity
          (move_to_end k (set k i s.store)) (omega arith);
    distinct = λ j. ground (arith, occurs-admit_at j k i s, v.distinct j);
  }

  pub occurs-admit :
      (j k : K) (s : PrefixLruPolicy K)
      → occurs j (admit k s).0.store + count j (admit k s).1 ≡ max (same j k) (occurs j s.store)
  unfolding admit
  occurs-admit j k s = occurs-admit_at j k 0 s

  pub admit-IsValid : (k : K) (s : PrefixLruPolicy K) → IsValid s → IsValid (admit k s).0
  unfolding admit
  admit-IsValid k s v = admit_at-IsValid k 0 s v

  -- What `touch` and a hit of `access` do.
  renewed-IsValid :
      (k : K) (s : PrefixLruPolicy K)
      → IsValid s
      → IsValid (record s { store = move_to_end k s.store })
  renewed-IsValid k s v = record {
    positive = v.positive;
    bounded = omega (arith, length-move_to_end k s.store);
    distinct = λ j. omega (arith, occurs-move_to_end j k s.store, v.distinct j);
  }

  pub touch-IsValid : (k : K) (s : PrefixLruPolicy K) → IsValid s → IsValid (touch k s)
  touch-IsValid k s v = elim (Bool-cases (contains k s.store)) [
    | inl e ↦ unfold touch in rw e (renewed-IsValid k s v)
    | inr e ↦ unfold touch in rw e v
  ]

  pub capacity-touch : (k : K) (s : PrefixLruPolicy K) → (touch k s).capacity ≡ s.capacity
  unfolding touch
  capacity-touch k s = ground arith

  pub occurs-touch :
      (j k : K) (s : PrefixLruPolicy K) → occurs j (touch k s).store ≡ occurs j s.store
  unfolding touch
  occurs-touch j k s = ground (arith, occurs-move_to_end j k s.store)

  pub remove-IsValid : (k : K) (s : PrefixLruPolicy K) → IsValid s → IsValid (remove k s).0
  unfolding remove
  remove-IsValid k s v = record {
    positive = v.positive;
    bounded = omega (arith, length-remove k s.store);
    distinct = λ j. omega (arith, occurs-remove j k s.store, v.distinct j);
  }

  -- A hit of `access` also notes the depth.
  noted-IsValid :
      (k : K) (i : ℕ) (s : PrefixLruPolicy K)
      → contains k s.store ≡ true
      → IsValid s
      → IsValid (record s { store = set k i (move_to_end k s.store) })
  noted-IsValid k i s here v = record {
    positive = v.positive;
    bounded = ground (
      arith,
      contains-occurs k s.store,
      length-set k i (move_to_end k s.store),
      length-move_to_end k s.store,
      occurs-move_to_end k k s.store,
    );
    distinct = λ j. ground (
      arith,
      occurs-set j k i (move_to_end k s.store),
      occurs-move_to_end j k s.store,
      v.distinct j,
    );
  }

  pub access-IsValid :
      (k : K) (i : ℕ) (s : PrefixLruPolicy K) → IsValid s → IsValid (access k i s).0
  access-IsValid k i s v = elim (Bool-cases (contains k s.store)) [
    | inl e ↦ unfold access in rw e (noted-IsValid k i s e v)
    | inr e ↦ unfold access in rw e (admit_at-IsValid k i s v)
  ]

  capacity-admit_at :
      (k : K) (i : ℕ) (s : PrefixLruPolicy K) → (admit_at k i s).0.capacity ≡ s.capacity
  unfolding admit_at
  capacity-admit_at k i s = refl

  pub capacity-access :
      (k : K) (i : ℕ) (s : PrefixLruPolicy K) → IsValid s → (access k i s).0.capacity ≡ s.capacity
  unfolding access
  capacity-access k i s v = elim (Bool-cases (contains k s.store)) [
    | inl e ↦ rw e refl
    | inr e ↦ rw e (capacity-admit_at k i s)
  ]

  pub occurs-access :
      (j k : K) (i : ℕ) (s : PrefixLruPolicy K)
      → IsValid s
      → (occurs j s.store ≤ occurs j (access k i s).0.store + count j (access k i s).1)
        × (occurs j (access k i s).0.store + count j (access k i s).1
            ≤ max (same j k) (occurs j s.store))
  unfolding access
  occurs-access j k i s v = elim (Bool-cases (contains k s.store)) [
    | inl e ↦ rw e (
      ground (
        arith,
        contains-occurs k s.store,
        occurs-set j k i (move_to_end k s.store),
        occurs-move_to_end j k s.store,
      ),
      ground (
        arith,
        contains-occurs k s.store,
        occurs-set j k i (move_to_end k s.store),
        occurs-move_to_end j k s.store,
      ),
    )
    | inr e ↦ rw e (omega (arith, occurs-admit_at j k i s), omega (arith, occurs-admit_at j k i s))
  ]

  pub access-contains :
      (k : K) (i : ℕ) (s : PrefixLruPolicy K) → (access k i s).2 ≡ contains_key k s
  unfolding access contains_key
  access-contains k i s = ground arith

  pub contains_key-occurs :
      (k : K) (s : PrefixLruPolicy K) → contains_key k s ≡ ltb 0 (occurs k s.store)
  unfolding contains_key
  contains_key-occurs k s = contains-occurs k s.store

  pub capacity-admit :
      (k : K) (s : PrefixLruPolicy K) → IsValid s → (admit k s).0.capacity ≡ s.capacity
  unfolding admit admit_at
  capacity-admit k s v = refl

  pub capacity-remove : (k : K) (s : PrefixLruPolicy K) → (remove k s).0.capacity ≡ s.capacity
  unfolding remove
  capacity-remove k s = refl

  pub occurs-remove_key :
      (j k : K) (s : PrefixLruPolicy K)
      → IsValid s
      → occurs j (remove k s).0.store ≡ occurs j s.store - same j k
  unfolding remove
  occurs-remove_key j k s v = occurs-remove j k s.store

  pub remove-contains :
      (k : K) (s : PrefixLruPolicy K) → IsValid s → (remove k s).1 ≡ contains_key k s
  unfolding remove contains_key
  remove-contains k s v = refl

  pub length-admit : (k : K) (s : PrefixLruPolicy K) → IsValid s → length (admit k s).1 ≤ 1
  unfolding admit admit_at
  length-admit k s v =
      let store = move_to_end k (set k 0 s.store) in
      ground (
        arith,
        length-evict_over_gone (length store) s.capacity store,
        length-move_to_end k (set k 0 s.store),
        length-set k 0 s.store,
        v.bounded,
      )

  pub size-remove :
      (k : K) (s : PrefixLruPolicy K)
      → IsValid s
      → length (remove k s).0.store ≡ length s.store - occurs k s.store
  unfolding remove
  size-remove k s v = ground (arith, length-remove k s.store, v.distinct k)

  pub init_zero : init {K = K} 0 ≡ raise value_error
  unfolding init
  init_zero = refl

  -- A new cache is empty.
  pub init_positive :
      (cap : ℕ)
      → 0 < cap
      → (s : PrefixLruPolicy K) × (init cap ≡ ok s)
        × IsValid s
        × (s.capacity ≡ cap)
        × ((k : K) → occurs k s.store ≡ 0)
  unfolding init occurs
  init_positive cap h =
      (record { capacity = cap; store = [] }, ground arith, ground arith, refl, λ k. refl)

  abbrev pub prefix_lru_policy : CachePolicy K
  prefix_lru_policy = record {
    State = PrefixLruPolicy K;
    init = init;
    access = access;
    contains = contains_key;
    touch = touch;
    admit = admit;
    remove = remove;
    capacity = λ s. s.capacity;
    size = λ s. length s.store;
    occurs = λ k s. occurs k s.store;
    IsValid = IsValid;
    init_zero = init_zero;
    init_positive = init_positive;
    size-le-capacity = λ s v. v.bounded;
    occurs-le = λ k s v. v.distinct k;
    occurs-le-size = λ k s. occurs-le-length k s.store;
    contains-occurs = contains_key-occurs;
    access-IsValid = access-IsValid;
    access-contains = access-contains;
    capacity-access = capacity-access;
    occurs-access = occurs-access;
    touch-IsValid = touch-IsValid;
    capacity-touch = capacity-touch;
    occurs-touch = occurs-touch;
    admit-IsValid = admit-IsValid;
    capacity-admit = capacity-admit;
    occurs-admit = λ j k s v. occurs-admit j k s;
    length-admit = length-admit;
    size-remove = size-remove;
    remove-IsValid = remove-IsValid;
    capacity-remove = capacity-remove;
    occurs-remove = occurs-remove_key;
    remove-contains = remove-contains;
  }
