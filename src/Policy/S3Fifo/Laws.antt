-- ===== src/Policy/S3Fifo/Laws.antt =====
-- python/bench/policies.py: lemmas on `S3FifoPolicy.admit`.
use mooncake_kvcache_tiered.Base.{
  count-append, length-append, ◌-◌, ℕ, ◌+◌, ◌≤◌, ◌<◌, max, ◌≡◌, [], ◌∷◌, Key, same, count, arith,
  ltb, length, inl, inr, ◌⊎◌,
}
use mooncake_kvcache_tiered.Dict.{Dict, Distinct, contains, set, occurs}
use mooncake_kvcache_tiered.Dict
use mooncake_kvcache_tiered.Dict.Laws.{
  length-set, contains-occurs, occurs-set, occurs-remove, length-remove,
}
use mooncake_kvcache_tiered.Policy.S3Fifo.{
  S3FifoPolicy, IsValid, insert_main, pass_on, shrink_small, insert_small, admit, contains_key,
  resident,
}
use mooncake_kvcache_tiered.Policy.S3Fifo.Admit.{
  length-insert_main_gone, length-pass_on_gone, SameCaps, occurs-insert_main, length-insert_main,
  insert_main-SameCaps, insert_main_others, occurs-pass_on, pass_on_apart, pass_on_bounds,
}

module _ {K : Type 0} ⦃key : Key K⦄ where
  -- The entries `d` of the small queue, and the two other queues, share no key.
  abbrev Apart : Dict K ℕ → S3FifoPolicy K → Type 0
  Apart d s = (j : K) → occurs j d + occurs j s.main + occurs j s.ghost ≤ 1

  module _ (victim : K) (freq : ℕ) (d : Dict K ℕ) (s : S3FifoPolicy K)
      (apart : Apart ((victim, freq) ∷ d) s) where
    alone : (occurs victim s.main ≡ 0) × (occurs victim s.ghost ≡ 0)
    unfolding occurs
    alone = ground (arith, apart victim)

    main-Distinct : Distinct s.main
    main-Distinct j = ground (arith, apart j)

    Apart-pass_on : Apart d (pass_on victim freq s).0
    unfolding occurs
    Apart-pass_on j = ground (arith, alone, apart j, pass_on_apart victim freq s main-Distinct j)

  occurs-shrink_small :
      (j : K) (d : Dict K ℕ) (s : S3FifoPolicy K)
      → Apart d s
      → resident j (shrink_small d s).0 + count j (shrink_small d s).1
        ≡ occurs j d + occurs j s.main
  unfolding shrink_small occurs
  occurs-shrink_small j [] s a = omega arith
  occurs-shrink_small j ((victim, freq) ∷ d) s a = ground (
    arith,
    alone victim freq d s a,
    occurs-pass_on victim freq s (main-Distinct victim freq d s a) j,
    occurs-shrink_small j d (pass_on victim freq s).0 (Apart-pass_on victim freq d s a),
    count-append j (pass_on victim freq s).1 (shrink_small d (pass_on victim freq s).0).1,
  )

  shrink_small-Apart :
      (j : K) (d : Dict K ℕ) (s : S3FifoPolicy K)
      → Apart d s
      → resident j (shrink_small d s).0 + occurs j (shrink_small d s).0.ghost ≤ 1
  unfolding shrink_small occurs
  shrink_small-Apart j [] s a = omega (arith, a j)
  shrink_small-Apart j ((victim, freq) ∷ d) s a = ground (
    arith,
    a j,
    shrink_small-Apart j d (pass_on victim freq s).0 (Apart-pass_on victim freq d s a),
  )

  shrink_small_bounds :
      (d : Dict K ℕ) (s : S3FifoPolicy K)
      → Apart d s
      → length s.main ≤ s.main_cap
      → length s.ghost ≤ s.ghost_cap
      → (length (shrink_small d s).0.small ≤ s.small_cap)
        × (length (shrink_small d s).0.main ≤ s.main_cap)
        × (length (shrink_small d s).0.ghost ≤ s.ghost_cap)
        × SameCaps s (shrink_small d s).0
  unfolding shrink_small
  shrink_small_bounds [] s a m g = omega arith
  shrink_small_bounds ((victim, freq) ∷ d) s a m g = ground (
    arith,
    pass_on_bounds victim freq s (main-Distinct victim freq d s a) m g,
    shrink_small_bounds d (pass_on victim freq s).0 (Apart-pass_on victim freq d s a),
  )

  length-shrink_small_gone :
      (d : Dict K ℕ) (s : S3FifoPolicy K)
      → Apart d s
      → length s.main ≤ s.main_cap
      → length s.ghost ≤ s.ghost_cap
      → length (shrink_small d s).1 ≤ length d - s.small_cap
  unfolding shrink_small
  length-shrink_small_gone [] s a m g = omega arith
  length-shrink_small_gone ((victim, freq) ∷ d) s a m g = ground (
    arith,
    pass_on_bounds victim freq s (main-Distinct victim freq d s a) m g,
    length-pass_on_gone victim freq s (main-Distinct victim freq d s a) m,
    length-shrink_small_gone d (pass_on victim freq s).0 (Apart-pass_on victim freq d s a),
    length-append (pass_on victim freq s).1 (shrink_small d (pass_on victim freq s).0).1,
  )

  pub contains_key-occurs : (k : K) (s : S3FifoPolicy K) → contains_key k s ≡ ltb 0 (resident k s)
  unfolding contains_key
  contains_key-occurs k s = ground (arith, contains-occurs k s.small, contains-occurs k s.main)

  module _ (k : K) (s : S3FifoPolicy K) (v : IsValid s) where
    -- Where `admit` inserts into the small queue.
    Apart-insert_small : resident k s ≡ 0 → occurs k s.ghost ≡ 0 → Apart (set k 0 s.small) s
    Apart-insert_small r g j = ground (arith, occurs-set j k 0 s.small, v.apart j)

    -- What `admit` does with a ghost: it forgets it, and the key goes to the main queue.
    abbrev revived : S3FifoPolicy K
    revived = record s { ghost = Dict.remove k s.ghost }

    -- The three branches of `admit`.
    admit_cases :
        ((0 < resident k s) × (admit k s ≡ (s, [])))
        ⊎ (((resident k s ≡ 0) × (0 < occurs k s.ghost) × (admit k s ≡ insert_main k revived))
            ⊎ ((resident k s ≡ 0)
                × (occurs k s.ghost ≡ 0)
                × (admit k s ≡ shrink_small (set k 0 s.small) s)))
    unfolding admit insert_small
    admit_cases =
        ground
          (arith, contains-occurs k s.small, contains-occurs k s.main, contains-occurs k s.ghost)

    revived-Distinct : Distinct s.main
    revived-Distinct j = omega (arith, v.apart j)

    -- In a valid cache an admission loses no key: each is held as often as before, the admitted key
    -- once, but for the keys that are reported as evicted.
    pub occurs-admit :
        (j : K) → resident j (admit k s).0 + count j (admit k s).1 ≡ max (same j k) (resident j s)
    occurs-admit j = elim admit_cases [
      | inl (r, e) ↦ rw e (ground (arith, v.apart j))
      | inr (inl (r, g, e)) ↦ rw e (
          ground (
            arith,
            insert_main_others k revived,
            occurs-insert_main j k revived revived-Distinct,
            v.apart j,
          ))
      | inr (inr (r, g, e)) ↦ rw e (
          ground (
            arith,
            occurs-shrink_small j (set k 0 s.small) s (Apart-insert_small r g),
            occurs-set j k 0 s.small,
            v.apart j,
          ))
    ]

    admit_apart : (j : K) → resident j (admit k s).0 + occurs j (admit k s).0.ghost ≤ 1
    admit_apart j = elim admit_cases [
      | inl (r, e) ↦ rw e (v.apart j)
      | inr (inl (r, g, e)) ↦ rw e (
          ground (
            arith,
            insert_main_others k revived,
            occurs-insert_main j k revived revived-Distinct,
            occurs-remove j k s.ghost,
            v.apart j,
          ))
      | inr (inr (r, g, e)) ↦
          rw e (shrink_small-Apart j (set k 0 s.small) s (Apart-insert_small r g))
    ]

    admit_bounds :
        (length (admit k s).0.small ≤ s.small_cap)
        × (length (admit k s).0.main ≤ s.main_cap)
        × (length (admit k s).0.ghost ≤ s.ghost_cap)
        × SameCaps s (admit k s).0
    admit_bounds = elim admit_cases [
      | inl (r, e) ↦ rw e (ground arith)
      | inr (inl (r, g, e)) ↦ rw e (
          ground (
            arith,
            insert_main_others k revived,
            length-insert_main k revived,
            insert_main-SameCaps k revived,
            length-remove k s.ghost,
          ))
      | inr (inr (r, g, e)) ↦ rw e (
          shrink_small_bounds (set k 0 s.small) s (Apart-insert_small r g) v.main_bounded
            v.ghost_bounded)
    ]

    -- An admission keeps a valid cache valid: each queue within its capacity, and no key twice in
    -- the three queues.
    pub admit-IsValid : IsValid (admit k s).0
    admit-IsValid = record {
      positive = omega (arith, admit_bounds);
      split = omega (arith, admit_bounds);
      small_bounded = omega (arith, admit_bounds);
      main_bounded = omega (arith, admit_bounds);
      ghost_bounded = omega (arith, admit_bounds);
      apart = admit_apart;
    }

    pub capacity-admit : (admit k s).0.capacity ≡ s.capacity
    capacity-admit = omega (arith, admit_bounds)

    pub length-admit : length (admit k s).1 ≤ 1
    length-admit = elim admit_cases [
      | inl (r, e) ↦ rw e (omega arith)
      | inr (inl (r, g, e)) ↦
          rw e (omega (arith, length-insert_main_gone k revived, v.main_bounded))
      | inr (inr (r, g, e)) ↦ rw e (
          ground (
            arith,
            length-shrink_small_gone (set k 0 s.small) s (Apart-insert_small r g) v.main_bounded
                v.ghost_bounded,
            length-set k 0 s.small,
            v.small_bounded,
          ))
    ]
