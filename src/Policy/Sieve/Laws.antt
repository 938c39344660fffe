-- ===== src/Policy/Sieve/Laws.antt =====
-- python/bench/policies.py: lemmas on `SievePolicy.admit`.
use mooncake_kvcache_tiered.Base.{
  ◌≤◌, [], ◌+◌, ◌<◌, max, ◌≡◌, false, Key, same, count, arith, leb, length, inl, inr, ◌⊎◌,
  Bool-cases,
}
use mooncake_kvcache_tiered.Dict.{set, occurs}
use mooncake_kvcache_tiered.Dict.Laws.{length-set, contains-occurs, occurs-set}
use mooncake_kvcache_tiered.Policy.Sieve.{SievePolicy, IsValid, make_room, admit}
use mooncake_kvcache_tiered.Policy.Sieve.Sweep.{evict_lem}

module _ {K : Type 0} ⦃key : Key K⦄ where
  module _ (s : SievePolicy K) (v : IsValid s) where
    -- The store into which `admit` puts a new key has room for it.
    length-make_room : length (make_room s).0.store < s.capacity
    length-make_room = elim (Bool-cases (leb s.capacity (length s.store))) [
      | inl full ↦
          let (r, e, t) = evict_lem s (ground (arith, v.positive)) in
          unfold make_room in rw (full, e) (omega (arith, t.shorter, v.bounded))
      | inr room ↦ unfold make_room in rw room (ground arith)
    ]

    capacity-make_room : (make_room s).0.capacity ≡ s.capacity
    capacity-make_room = elim (Bool-cases (leb s.capacity (length s.store))) [
      | inl full ↦
          let (r, e, t) = evict_lem s (ground (arith, v.positive)) in
          unfold make_room in rw (full, e)
      | inr room ↦ unfold make_room in rw room
    ]

    make_room_gone : length (make_room s).1 ≤ 1
    make_room_gone = elim (Bool-cases (leb s.capacity (length s.store))) [
      | inl full ↦
          let (r, e, t) = evict_lem s (ground (arith, v.positive)) in
          unfold make_room in rw (full, e) (omega arith)
      | inr room ↦ unfold make_room in rw room (omega arith)
    ]

    occurs-make_room :
        (j : K) → occurs j (make_room s).0.store + count j (make_room s).1 ≡ occurs j s.store
    occurs-make_room j = elim (Bool-cases (leb s.capacity (length s.store))) [
      | inl full ↦
          let (r, e, t) = evict_lem s (ground (arith, v.positive)) in
          unfold make_room in rw (full, e) (ground (arith, t.taken j, t.stored, v.distinct j))
      | inr room ↦ unfold make_room in rw room (omega arith)
    ]

    module _ (k : K) where
      admit_present : 0 < occurs k s.store → admit k s ≡ (s, [])
      unfolding admit
      admit_present h = ground (arith, contains-occurs k s.store)

      admit_new :
          occurs k s.store ≡ 0
          → admit k s ≡ (
            record (make_room s).0 { store = set k false (make_room s).0.store },
            (make_room s).1,
          )
      unfolding admit
      admit_new h = ground (arith, contains-occurs k s.store)

      present-or-new : (0 < occurs k s.store) ⊎ (occurs k s.store ≡ 0)
      present-or-new = ground arith

      pub occurs-admit :
          (j : K)
          → occurs j (admit k s).0.store + count j (admit k s).1 ≡ max (same j k) (occurs j s.store)
      occurs-admit j = elim present-or-new [
        | inl h ↦ rw (admit_present h) (ground (arith, v.distinct j))
        | inr h ↦ rw (admit_new h) (
            ground (
              arith,
              occurs-set j k false (make_room s).0.store,
              occurs-make_room j,
              occurs-make_room k,
              v.distinct j,
            ))
      ]

      pub capacity-admit : (admit k s).0.capacity ≡ s.capacity
      capacity-admit = elim present-or-new [
        | inl h ↦ rw (admit_present h)
        | inr h ↦ rw (admit_new h) capacity-make_room
      ]

      pub length-admit : length (admit k s).0.store ≤ s.capacity
      length-admit = elim present-or-new [
        | inl h ↦ rw (admit_present h) v.bounded
        | inr h ↦
            rw (admit_new h)
              (omega (arith, length-set k false (make_room s).0.store, length-make_room))
      ]

      pub admit_gone : length (admit k s).1 ≤ 1
      admit_gone = elim present-or-new [
        | inl h ↦ rw (admit_present h) (omega arith)
        | inr h ↦ rw (admit_new h) make_room_gone
      ]

      pub admit-IsValid : IsValid (admit k s).0
      admit-IsValid = record {
        positive = omega (arith, capacity-admit, v.positive);
        bounded = omega (arith, capacity-admit, length-admit);
        distinct = λ j. ground (arith, occurs-admit j, v.distinct j);
      }
