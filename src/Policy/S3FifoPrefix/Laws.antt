-- ===== src/Policy/S3FifoPrefix/Laws.antt =====
-- python/bench/policies.py: lemmas on the bypass of `S3FifoPrefixPolicy`, and it as an instance
-- of the interface.
use mooncake_kvcache_tiered.Base.{
  ℕ, ◌≤◌, same, count, ◌+◌, ◌<◌, ◌/◌, max, ◌≡◌, refl, true, false, [], Key, arith, length, ok,
  raise, value_error, inl, inr, Bool-cases, ◌↔◌,
}
use mooncake_kvcache_tiered.Dict.{occurs}
use mooncake_kvcache_tiered.Dict.Laws.{contains-occurs}
use mooncake_kvcache_tiered.Policy.{CachePolicy}
use mooncake_kvcache_tiered.Policy.S3Fifo
use mooncake_kvcache_tiered.Policy.S3Fifo.{S3FifoPolicy, resident}
use mooncake_kvcache_tiered.Policy.S3Fifo.Laws
use mooncake_kvcache_tiered.Policy.S3Fifo.Methods
use mooncake_kvcache_tiered.Policy.S3FifoPrefix.{
  S3FifoPrefixPolicy, init, access, contains_key, touch, admit, remove, bypasses,
}

module _ {K : Type 0} ⦃key : Key K⦄ where
  -- A block bypasses the cache exactly when no queue knows it and it is deeper than the limit.
  bypasses_iff :
      (k : K) (i : ℕ) (s : S3FifoPrefixPolicy K)
      → (bypasses k i s ≡ true)
        ↔ ((resident k s.base + occurs k s.base.ghost ≡ 0) × (s.admit_depth < i))
  unfolding bypasses
  bypasses_iff k i s = ground (
    arith,
    contains-occurs k s.base.small,
    contains-occurs k s.base.main,
    contains-occurs k s.base.ghost,
  )

  -- A bypass is a miss that leaves the cache as it was; any other access is that of the base class.
  access-bypasses :
      (k : K) (i : ℕ) (s : S3FifoPrefixPolicy K)
      → ((bypasses k i s ≡ true) → access k i s ≡ (s, [], false))
        × ((bypasses k i s ≡ false)
            → ((access k i s).0.base ≡ (S3Fifo.access k i s.base).0)
              × ((access k i s).1 ≡ (S3Fifo.access k i s.base).1)
              × ((access k i s).2 ≡ (S3Fifo.access k i s.base).2))
  unfolding access
  access-bypasses k i s = ground arith

  pub access-contains :
      (k : K) (i : ℕ) (s : S3FifoPrefixPolicy K) → (access k i s).2 ≡ contains_key k s
  access-contains k i s = elim (Bool-cases (bypasses k i s)) [
    | inl t ↦
        rw ((access-bypasses k i s).0 t)
          (ground (arith, (bypasses_iff k i s).0 t, Laws.contains_key-occurs k s.base))
    | inr t ↦ rw ((access-bypasses k i s).1 t).2 (Methods.access-contains k s.base i)
  ]

  pub access-IsValid :
      (k : K) (i : ℕ) (s : S3FifoPrefixPolicy K)
      → S3Fifo.IsValid s.base
      → S3Fifo.IsValid (access k i s).0.base
  access-IsValid k i s v = elim (Bool-cases (bypasses k i s)) [
    | inl t ↦ rw ((access-bypasses k i s).0 t) v
    | inr t ↦ rw ((access-bypasses k i s).1 t).0 (Methods.access-IsValid k s.base i v)
  ]

  pub capacity-access :
      (k : K) (i : ℕ) (s : S3FifoPrefixPolicy K)
      → S3Fifo.IsValid s.base
      → (access k i s).0.base.capacity ≡ s.base.capacity
  capacity-access k i s v = elim (Bool-cases (bypasses k i s)) [
    | inl t ↦ rw ((access-bypasses k i s).0 t) refl
    | inr t ↦ rw ((access-bypasses k i s).1 t).0 (Methods.capacity-access k s.base i v)
  ]

  pub occurs-access :
      (j k : K) (i : ℕ) (s : S3FifoPrefixPolicy K)
      → S3Fifo.IsValid s.base
      → (resident j s.base ≤ resident j (access k i s).0.base + count j (access k i s).1)
        × (resident j (access k i s).0.base + count j (access k i s).1
            ≤ max (same j k) (resident j s.base))
  occurs-access j k i s v = elim (Bool-cases (bypasses k i s)) [
    | inl t ↦ rw ((access-bypasses k i s).0 t) (omega arith, omega arith)
    | inr t ↦
        let (b, g, h) = (access-bypasses k i s).1 t in
        rw (b, g) (Methods.occurs-access k s.base j i v)
  ]

  pub init_zero : init {K = K} 0 ≡ raise value_error
  unfolding init S3Fifo.init
  init_zero = refl

  pub init_positive :
      (cap : ℕ)
      → 0 < cap
      → (s : S3FifoPrefixPolicy K) × (init cap ≡ ok s)
        × S3Fifo.IsValid s.base
        × (s.base.capacity ≡ cap)
        × ((k : K) → resident k s.base ≡ 0)
  unfolding init
  init_positive cap h =
      let (b, e, v, c, n) = Methods.init_positive {K = K} cap h in
      (record { base = b; admit_depth = max 8 (cap / 4) }, rw e, v, c, n)

  abbrev pub s3fifo_prefix_policy : CachePolicy K
  s3fifo_prefix_policy = record {
    State = S3FifoPrefixPolicy K;
    init = init;
    access = access;
    contains = contains_key;
    touch = touch;
    admit = admit;
    remove = remove;
    capacity = λ s. s.base.capacity;
    size = λ s. length s.base.small + length s.base.main;
    occurs = λ k s. resident k s.base;
    IsValid = λ s. S3Fifo.IsValid s.base;
    init_zero = init_zero;
    init_positive = init_positive;
    size-le-capacity = λ s. Methods.size-le-capacity s.base;
    occurs-le = λ k s. Methods.resident-le k s.base;
    occurs-le-size = λ k s. Methods.resident-le-size k s.base;
    contains-occurs = λ k s. Laws.contains_key-occurs k s.base;
    access-IsValid = access-IsValid;
    access-contains = access-contains;
    capacity-access = capacity-access;
    occurs-access = occurs-access;
    touch-IsValid = λ k s. Methods.touch-IsValid k s.base;
    capacity-touch = λ k s. Methods.capacity-touch k s.base;
    occurs-touch = λ j k s. Methods.occurs-touch k s.base j;
    admit-IsValid = λ k s. Laws.admit-IsValid k s.base;
    capacity-admit = λ k s. Laws.capacity-admit k s.base;
    occurs-admit = λ j k s v. Laws.occurs-admit k s.base v j;
    length-admit = λ k s. Laws.length-admit k s.base;
    size-remove = λ k s. Methods.size-remove k s.base;
    remove-IsValid = λ k s. Methods.remove-IsValid k s.base;
    capacity-remove = λ k s. Methods.capacity-remove k s.base;
    occurs-remove = λ j k s. Methods.occurs-remove_key k s.base j;
    remove-contains = λ k s. Methods.remove-contains k s.base;
  }
