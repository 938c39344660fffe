-- ===== src/Framework/Rates.antt =====
-- python/bench/framework.py: lemmas on `rates`.
use mooncake_kvcache_tiered.Base.{
  ℕ, ◌+◌, ◌≤◌, ◌<◌, ◌≡◌, refl, max, min, List, [], ◌∷◌, Key, same, arith, if◌then◌else◌, length,
}
use mooncake_kvcache_tiered.Dict.{Dict, set, occurs, remove}
use mooncake_kvcache_tiered.Dict.Laws.{
  length-set, occurs-set, length-remove, occurs-remove, occurs-le-length,
}
use mooncake_kvcache_tiered.Framework.{AccessEvent, hit_count, collect_keys, rates}

module _ {K : Type 0} ⦃key : Key K⦄ where
  hit_count-le : (es : List (AccessEvent K)) → hit_count es ≤ length es
  unfolding hit_count
  hit_count-le [] = omega arith
  hit_count-le (e ∷ es) = ground (arith, hit_count-le es)

  -- How many events are of the key, and how many of these are hits.
  abbrev pub lookups : K → List (AccessEvent K) → ℕ
  lookups j [] = 0
  lookups j (e ∷ es) = same j e.hash_id + lookups j es

  abbrev pub hits : K → List (AccessEvent K) → ℕ
  hits j [] = 0
  hits j (e ∷ es) = (if e.hit then same j e.hash_id else 0) + hits j es

  occurs-collect_seen :
      (j : K) (es : List (AccessEvent K)) (seen reused : Dict K (Unit {0}))
      → occurs j (collect_keys es seen reused).0 ≡ max (occurs j seen) (min 1 (lookups j es))
  unfolding collect_keys
  occurs-collect_seen j [] seen reused = ground arith
  occurs-collect_seen j (e ∷ es) seen reused = ground (
    arith,
    occurs-set j e.hash_id tt seen,
    occurs-collect_seen j es (set e.hash_id tt seen)
        (if e.hit then set e.hash_id tt reused else reused),
  )

  occurs-collect_reused :
      (j : K) (es : List (AccessEvent K)) (seen reused : Dict K (Unit {0}))
      → occurs j (collect_keys es seen reused).1 ≡ max (occurs j reused) (min 1 (hits j es))
  unfolding collect_keys
  occurs-collect_reused j [] seen reused = ground arith
  occurs-collect_reused j (e ∷ es) seen reused = ground (
    arith,
    occurs-set j e.hash_id tt reused,
    occurs-collect_reused j es (set e.hash_id tt seen)
        (if e.hit then set e.hash_id tt reused else reused),
  )

  length-collect_reused :
      (es : List (AccessEvent K)) (seen reused : Dict K (Unit {0}))
      → length (collect_keys es seen reused).1 ≤ length reused + hit_count es
  unfolding collect_keys hit_count
  length-collect_reused [] seen reused = omega arith
  length-collect_reused (e ∷ es) seen reused = ground (
    arith,
    length-set e.hash_id tt reused,
    length-collect_reused es (set e.hash_id tt seen)
        (if e.hit then set e.hash_id tt reused else reused),
  )

  hits-le-lookups : (j : K) (es : List (AccessEvent K)) → hits j es ≤ lookups j es
  hits-le-lookups j [] = omega arith
  hits-le-lookups j (e ∷ es) = ground (arith, hits-le-lookups j es)

  -- A dictionary that has every key at most as often as another is no longer than it.
  length-le_of_occurs :
      (d e : Dict K (Unit {0})) → ((j : K) → occurs j d ≤ occurs j e) → length d ≤ length e
  unfolding occurs
  length-le_of_occurs [] e h = omega arith
  length-le_of_occurs ((k, u) ∷ d) e h = ground (
    arith,
    h k,
    length-remove k e,
    occurs-le-length k e,
    length-le_of_occurs d (remove k e) (λ j. ground (arith, h j, occurs-remove j k e)),
  )

  -- Both rates have a positive denominator and a numerator that is no greater, and no more blocks
  -- are reused than there are hits. On a log with an event, the hit rate is of all events, and the
  -- reuse rate is of the distinct keys of the log, of which it counts those with a hit.
  pub rates_lem :
      (es : List (AccessEvent K))
      → ((rates es).0.num ≤ (rates es).0.den)
        × (0 < (rates es).0.den)
        × ((rates es).1.num ≤ (rates es).1.den)
        × (0 < (rates es).1.den)
        × ((rates es).1.num ≤ (rates es).0.num)
        × ((0 < length es)
            → ((rates es).0.den ≡ length es)
              × (seen : Dict K (Unit {0})) × (reused : Dict K (Unit {0})) × ((rates es).1.num
                  ≡ length reused)
              × ((rates es).1.den ≡ length seen)
              × ((j : K) → occurs j seen ≡ min 1 (lookups j es))
              × ((j : K) → occurs j reused ≡ min 1 (hits j es)))
  unfolding rates occurs
  rates_lem [] =
      (omega arith, omega arith, omega arith, omega arith, omega arith, λ h. absurd (omega arith))
  rates_lem (e ∷ es) =
      let seen = (collect_keys (e ∷ es) [] []).0 in
      let reused = (collect_keys (e ∷ es) [] []).1 in
      let of_seen : (j : K) → occurs j seen ≡ min 1 (lookups j (e ∷ es)) =
        λ j. omega (arith, occurs-collect_seen j (e ∷ es) [] []) in
      let of_reused : (j : K) → occurs j reused ≡ min 1 (hits j (e ∷ es)) =
        λ j. omega (arith, occurs-collect_reused j (e ∷ es) [] []) in
      (
        hit_count-le (e ∷ es),
        omega arith,
        length-le_of_occurs reused seen
            (λ j. omega (arith, of_seen j, of_reused j, hits-le-lookups j (e ∷ es))),
        ground (arith, of_seen e.hash_id, occurs-le-length e.hash_id seen),
        omega (arith, length-collect_reused (e ∷ es) [] []),
        λ h. (refl, seen, reused, refl, refl, of_seen, of_reused),
      )
