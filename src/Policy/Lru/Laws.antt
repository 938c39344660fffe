-- ===== src/Policy/Lru/Laws.antt =====
-- python/bench/policies.py: `LRUPolicy` as an instance of the interface.
use mooncake_kvcache_tiered.Base.{
  ◌≤◌, ◌-◌, raise, value_error, [], ℕ, ◌+◌, ◌<◌, max, ◌≡◌, refl, Key, same, count, arith, ltb,
  length, ok, inl, inr, Bool-cases,
}
use mooncake_kvcache_tiered.Dict.{contains, set, move_to_end, occurs}
use mooncake_kvcache_tiered.Dict.Laws.{
  occurs-le-length, length-set, contains-occurs, occurs-set, occurs-remove, occurs-move_to_end,
  length-remove, length-move_to_end,
}
use mooncake_kvcache_tiered.Dict.Trim.{length-trim_gone, length-trim, occurs-trim}
use mooncake_kvcache_tiered.Policy.{CachePolicy}
use mooncake_kvcache_tiered.Policy.Lru.{
  LruPolicy, IsValid, init, admit, touch, access, remove, contains_key,
}

module _ {K : Type 0} ⦃key : Key K⦄ where
  pub occurs-admit :
      (j k : K) (s : LruPolicy K)
      → occurs j (admit k s).0.store + count j (admit k s).1 ≡ max (same j k) (occurs j s.store)
  unfolding admit
  occurs-admit j k s = ground (
    arith,
    occurs-trim j s.capacity (move_to_end k (set k tt s.store)),
    occurs-move_to_end j k (set k tt s.store),
    occurs-set j k tt s.store,
  )

  pub admit-IsValid : (k : K) (s : LruPolicy K) → IsValid s → IsValid (admit k s).0
  admit-IsValid k s v = record {
    positive = unfold admit in v.positive;
    bounded =
        unfold admit in omega (arith, length-trim s.capacity (move_to_end k (set k tt s.store)));
    distinct = λ j. ground (arith, occurs-admit j k s, v.distinct j);
  }

  -- What `touch` and a hit of `access` do.
  renewed-IsValid :
      (k : K) (s : LruPolicy K) → IsValid s → IsValid (record s { store = move_to_end k s.store })
  renewed-IsValid k s v = record {
    positive = v.positive;
    bounded = omega (arith, length-move_to_end k s.store);
    distinct = λ j. omega (arith, occurs-move_to_end j k s.store, v.distinct j);
  }

  pub touch-IsValid : (k : K) (s : LruPolicy K) → IsValid s → IsValid (touch k s)
  touch-IsValid k s v = elim (Bool-cases (contains k s.store)) [
    | inl e ↦ unfold touch in rw e (renewed-IsValid k s v)
    | inr e ↦ unfold touch in rw e v
  ]

  pub capacity-touch : (k : K) (s : LruPolicy K) → (touch k s).capacity ≡ s.capacity
  unfolding touch
  capacity-touch k s = ground arith

  pub occurs-touch : (j k : K) (s : LruPolicy K) → occurs j (touch k s).store ≡ occurs j s.store
  unfolding touch
  occurs-touch j k s = ground (arith, occurs-move_to_end j k s.store)

  pub remove-IsValid : (k : K) (s : LruPolicy K) → IsValid s → IsValid (remove k s).0
  unfolding remove
  remove-IsValid k s v = record {
    positive = v.positive;
    bounded = omega (arith, length-remove k s.store);
    distinct = λ j. omega (arith, occurs-remove j k s.store, v.distinct j);
  }

  pub access-IsValid : (k : K) (i : ℕ) (s : LruPolicy K) → IsValid s → IsValid (access k i s).0
  access-IsValid k i s v = elim (Bool-cases (contains k s.store)) [
    | inl e ↦ unfold access in rw e (renewed-IsValid k s v)
    | inr e ↦ unfold access in rw e (admit-IsValid k s v)
  ]

  pub capacity-admit : (k : K) (s : LruPolicy K) → IsValid s → (admit k s).0.capacity ≡ s.capacity
  unfolding admit
  capacity-admit k s v = refl

  pub capacity-access :
      (k : K) (i : ℕ) (s : LruPolicy K) → IsValid s → (access k i s).0.capacity ≡ s.capacity
  unfolding access
  capacity-access k i s v = elim (Bool-cases (contains k s.store)) [
    | inl e ↦ rw e refl
    | inr e ↦ rw e (capacity-admit k s v)
  ]

  pub occurs-access :
      (j k : K) (i : ℕ) (s : LruPolicy K)
      → IsValid s
      → (occurs j s.store ≤ occurs j (access k i s).0.store + count j (access k i s).1)
        × (occurs j (access k i s).0.store + count j (access k i s).1
            ≤ max (same j k) (occurs j s.store))
  unfolding access
  occurs-access j k i s v = elim (Bool-cases (contains k s.store)) [
    | inl e ↦ rw e (
      omega (arith, occurs-move_to_end j k s.store),
      omega (arith, occurs-move_to_end j k s.store),
    )
    | inr e ↦ rw e (omega (arith, occurs-admit j k s), omega (arith, occurs-admit j k s))
  ]

  pub access-contains : (k : K) (i : ℕ) (s : LruPolicy K) → (access k i s).2 ≡ contains_key k s
  unfolding access contains_key
  access-contains k i s = ground arith

  pub contains_key-occurs : (k : K) (s : LruPolicy K) → contains_key k s ≡ ltb 0 (occurs k s.store)
  unfolding contains_key
  contains_key-occurs k s = contains-occurs k s.store

  pub capacity-remove : (k : K) (s : LruPolicy K) → (remove k s).0.capacity ≡ s.capacity
  unfolding remove
  capacity-remove k s = refl

  pub occurs-remove_key :
      (j k : K) (s : LruPolicy K)
      → IsValid s
      → occurs j (remove k s).0.store ≡ occurs j s.store - same j k
  unfolding remove
  occurs-remove_key j k s v = occurs-remove j k s.store

  pub remove-contains : (k : K) (s : LruPolicy K) → IsValid s → (remove k s).1 ≡ contains_key k s
  unfolding remove contains_key
  remove-contains k s v = refl

  pub length-admit : (k : K) (s : LruPolicy K) → IsValid s → length (admit k s).1 ≤ 1
  unfolding admit
  length-admit k s v = ground (
    arith,
    length-trim_gone s.capacity (move_to_end k (set k tt s.store)),
    length-move_to_end k (set k tt s.store),
    length-set k tt s.store,
    v.bounded,
  )

  pub size-remove :
      (k : K) (s : LruPolicy K)
      → IsValid s
      → length (remove k s).0.store ≡ length s.store - occurs k s.store
  unfolding remove
  size-remove k s v = ground (arith, length-remove k s.store, v.distinct k)

  pub init_zero : init {K = K} 0 ≡ raise value_error
  unfolding init
  init_zero = refl

  -- A new cache is empty.
  pub init_positive :
      (cap : ℕ)
      → 0 < cap
      → (s : LruPolicy K) × (init cap ≡ ok s)
        × IsValid s
        × (s.capacity ≡ cap)
        × ((k : K) → occurs k s.store ≡ 0)
  unfolding init occurs
  init_positive cap h =
      (record { capacity = cap; store = [] }, ground arith, ground arith, refl, λ k. refl)

  abbrev pub lru_policy : CachePolicy K
  lru_policy = record {
    State = LruPolicy K;
    init = init;
    access = access;
    contains = contains_key;
    touch = touch;
    admit = admit;
    remove = remove;
    capacity = λ s. s.capacity;
    size = λ s. length s.store;
    occurs = λ k s. occurs k s.store;
    IsValid = IsValid;
    init_zero = init_zero;
    init_positive = init_positive;
    size-le-capacity = λ s v. v.bounded;
    occurs-le = λ k s v. v.distinct k;
    occurs-le-size = λ k s. occurs-le-length k s.store;
    contains-occurs = contains_key-occurs;
    access-IsValid = access-IsValid;
    access-contains = access-contains;
    capacity-access = capacity-access;
    occurs-access = occurs-access;
    touch-IsValid = touch-IsValid;
    capacity-touch = capacity-touch;
    occurs-touch = occurs-touch;
    admit-IsValid = admit-IsValid;
    capacity-admit = capacity-admit;
    occurs-admit = λ j k s v. occurs-admit j k s;
    length-admit = length-admit;
    size-remove = size-remove;
    remove-IsValid = remove-IsValid;
    capacity-remove = capacity-remove;
    occurs-remove = occurs-remove_key;
    remove-contains = remove-contains;
  }
