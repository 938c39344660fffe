-- ===== src/Policy/Sieve/Methods.antt =====
-- python/bench/policies.py: lemmas on the other methods of `SievePolicy`, and it as an instance
-- of the interface.
use mooncake_kvcache_tiered.Base.{
  ◌-◌, raise, value_error, [], none, ℕ, ◌<◌, ◌≡◌, refl, true, Key, same, arith, ltb, length, ok,
  inl, inr, Bool-cases, ◌≤◌, count, max, ◌+◌,
}
use mooncake_kvcache_tiered.Dict.{contains, set, occurs}
use mooncake_kvcache_tiered.Dict.Laws.{
  occurs-le-length, length-set, contains-occurs, occurs-set, occurs-remove, length-remove,
}
use mooncake_kvcache_tiered.Policy.{CachePolicy}
use mooncake_kvcache_tiered.Policy.Sieve.{
  SievePolicy, IsValid, init, admit, touch, access, remove, contains_key,
}
use mooncake_kvcache_tiered.Policy.Sieve.Laws.{
  occurs-admit, capacity-admit, admit_gone, admit-IsValid,
}

module _ {K : Type 0} ⦃key : Key K⦄ where
  -- What `touch` and a hit of `access` do.
  visited-IsValid :
      (k : K) (s : SievePolicy K)
      → contains k s.store ≡ true
      → IsValid s
      → IsValid (record s { store = set k true s.store })
  visited-IsValid k s here v = record {
    positive = v.positive;
    bounded = ground (arith, contains-occurs k s.store, length-set k true s.store);
    distinct =
        λ j. ground (arith, contains-occurs k s.store, occurs-set j k true s.store, v.distinct j);
  }

  pub touch-IsValid : (k : K) (s : SievePolicy K) → IsValid s → IsValid (touch k s)
  touch-IsValid k s v = elim (Bool-cases (contains k s.store)) [
    | inl e ↦ unfold touch in rw e (visited-IsValid k s e v)
    | inr e ↦ unfold touch in rw e v
  ]

  pub capacity-touch : (k : K) (s : SievePolicy K) → (touch k s).capacity ≡ s.capacity
  unfolding touch
  capacity-touch k s = ground arith

  pub occurs-touch : (j k : K) (s : SievePolicy K) → occurs j (touch k s).store ≡ occurs j s.store
  unfolding touch
  occurs-touch j k s = ground (arith, contains-occurs k s.store, occurs-set j k true s.store)

  pub remove-IsValid : (k : K) (s : SievePolicy K) → IsValid s → IsValid (remove k s).0
  unfolding remove
  remove-IsValid k s v = record {
    positive = v.positive;
    bounded = omega (arith, length-remove k s.store);
    distinct = λ j. omega (arith, occurs-remove j k s.store, v.distinct j);
  }

  pub access-IsValid : (k : K) (i : ℕ) (s : SievePolicy K) → IsValid s → IsValid (access k i s).0
  access-IsValid k i s v = elim (Bool-cases (contains k s.store)) [
    | inl e ↦ unfold access in rw e (visited-IsValid k s e v)
    | inr e ↦ unfold access in rw e (admit-IsValid s v k)
  ]

  pub capacity-access :
      (k : K) (i : ℕ) (s : SievePolicy K) → IsValid s → (access k i s).0.capacity ≡ s.capacity
  unfolding access
  capacity-access k i s v = elim (Bool-cases (contains k s.store)) [
    | inl e ↦ rw e refl
    | inr e ↦ rw e (capacity-admit s v k)
  ]

  pub occurs-access :
      (j k : K) (i : ℕ) (s : SievePolicy K)
      → IsValid s
      → (occurs j s.store ≤ occurs j (access k i s).0.store + count j (access k i s).1)
        × (occurs j (access k i s).0.store + count j (access k i s).1
            ≤ max (same j k) (occurs j s.store))
  unfolding access
  occurs-access j k i s v = elim (Bool-cases (contains k s.store)) [
    | inl e ↦ rw e (
      ground (arith, contains-occurs k s.store, occurs-set j k true s.store),
      ground (arith, contains-occurs k s.store, occurs-set j k true s.store),
    )
    | inr e ↦ rw e (omega (arith, occurs-admit s v k j), omega (arith, occurs-admit s v k j))
  ]

  pub access-contains : (k : K) (i : ℕ) (s : SievePolicy K) → (access k i s).2 ≡ contains_key k s
  unfolding access contains_key
  access-contains k i s = ground arith

  pub contains_key-occurs :
      (k : K) (s : SievePolicy K) → contains_key k s ≡ ltb 0 (occurs k s.store)
  unfolding contains_key
  contains_key-occurs k s = contains-occurs k s.store

  pub capacity-remove : (k : K) (s : SievePolicy K) → (remove k s).0.capacity ≡ s.capacity
  unfolding remove
  capacity-remove k s = refl

  pub occurs-remove_key :
      (j k : K) (s : SievePolicy K)
      → IsValid s
      → occurs j (remove k s).0.store ≡ occurs j s.store - same j k
  unfolding remove
  occurs-remove_key j k s v = occurs-remove j k s.store

  pub remove-contains : (k : K) (s : SievePolicy K) → IsValid s → (remove k s).1 ≡ contains_key k s
  unfolding remove contains_key
  remove-contains k s v = refl

  pub size-remove :
      (k : K) (s : SievePolicy K)
      → IsValid s
      → length (remove k s).0.store ≡ length s.store - occurs k s.store
  unfolding remove
  size-remove k s v = ground (arith, length-remove k s.store, v.distinct k)

  pub init_zero : init {K = K} 0 ≡ raise value_error
  unfolding init
  init_zero = refl

  -- A new cache is empty.
  pub init_positive :
      (cap : ℕ)
      → 0 < cap
      → (s : SievePolicy K) × (init cap ≡ ok s)
        × IsValid s
        × (s.capacity ≡ cap)
        × ((k : K) → occurs k s.store ≡ 0)
  unfolding init occurs
  init_positive cap h = (
    record { capacity = cap; store = []; cursor = none },
    ground arith,
    ground arith,
    refl,
    λ k. refl,
  )

  abbrev pub sieve_policy : CachePolicy K
  sieve_policy = record {
    State = SievePolicy K;
    init = init;
    access = access;
    contains = contains_key;
    touch = touch;
    admit = admit;
    remove = remove;
    capacity = λ s. s.capacity;
    size = λ s. length s.store;
    occurs = λ k s. occurs k s.store;
    IsValid = IsValid;
    init_zero = init_zero;
    init_positive = init_positive;
    size-le-capacity = λ s v. v.bounded;
    occurs-le = λ k s v. v.distinct k;
    occurs-le-size = λ k s. occurs-le-length k s.store;
    contains-occurs = contains_key-occurs;
    access-IsValid = access-IsValid;
    access-contains = access-contains;
    capacity-access = capacity-access;
    occurs-access = occurs-access;
    touch-IsValid = touch-IsValid;
    capacity-touch = capacity-touch;
    occurs-touch = occurs-touch;
    admit-IsValid = λ k s v. admit-IsValid s v k;
    capacity-admit = λ k s v. capacity-admit s v k;
    occurs-admit = λ j k s v. occurs-admit s v k j;
    length-admit = λ k s v. admit_gone s v k;
    size-remove = size-remove;
    remove-IsValid = remove-IsValid;
    capacity-remove = capacity-remove;
    occurs-remove = occurs-remove_key;
    remove-contains = remove-contains;
  }
