-- ===== src/Offload/Kept.antt =====
-- python/vllm_adapter/offloading_spec.py: the invariant of the loop of `evict`, and lemmas on a
-- round.
use mooncake_kvcache_tiered.Base.{
  count-append, ℕ, ◌+◌, ◌-◌, ◌≤◌, ◌≡◌, ap, Bool, true, false, List, [], ◌∷◌, ◌++◌, map, Key, same,
  count, arith, length, length-append, if◌then◌else◌,
}
use mooncake_kvcache_tiered.Dict.{Dict, set, occurs}
use mooncake_kvcache_tiered.Dict.Laws.{occurs-set}
use mooncake_kvcache_tiered.Offload.State.{Eviction}
use mooncake_kvcache_tiered.Offload.Loop.{freq_of, take_small, take_main}

module _ {K : Type 0} ⦃key : Key K⦄ where
  abbrev pub keys_of : List (K × Bool) → List K
  keys_of = map (λ v. v.0)

  count-keys_of-snoc :
      (j k : K) (b : Bool) (vs : List (K × Bool))
      → count j (keys_of (vs ++ (k, b) ∷ [])) ≡ count j (keys_of vs) + same j k
  count-keys_of-snoc j k b [] = omega arith
  count-keys_of-snoc j k b (v ∷ vs) = omega (arith, count-keys_of-snoc j k b vs)

  module _ (blocked : K → Bool) where
    -- The keys of a queue that may be evicted.
    unfoldable pub count_free : Dict K (Unit {0}) → ℕ
    count_free [] = 0
    count_free ((k, _) ∷ d) = (if blocked k then 0 else 1) + count_free d

    count_free-set :
        (k : K) (d : Dict K (Unit {0}))
        → occurs k d ≡ 0
        → count_free (set k tt d) ≡ count_free d + (if blocked k then 0 else 1)
    unfolding count_free set occurs
    count_free-set k [] h = omega arith
    count_free-set k ((j, u) ∷ d) h = ground (arith, count_free-set k d)

    abbrev pub AllFree : List (K × Bool) → Type 0
    AllFree [] = Unit {0}
    AllFree (v ∷ vs) = (blocked v.0 ≡ false) × AllFree vs

    AllFree-snoc :
        (k : K) (b : Bool) (vs : List (K × Bool))
        → AllFree vs
        → blocked k ≡ false
        → AllFree (vs ++ (k, b) ∷ [])
    AllFree-snoc k b [] a h = (h, tt)
    AllFree-snoc k b (v ∷ vs) a h = (a.0, AllFree-snoc k b vs a.1 h)

    -- How often a key stands somewhere.
    abbrev pub places : K → Eviction K → ℕ
    places j e =
        occurs j e.small
        + occurs j e.main
        + count j (keys_of e.victims)
        + count j e.skipped_small
        + count j e.skipped_main

    module _ (held : K → ℕ) (once : (j : K) → held j ≤ 1) (free : ℕ) where
      pub record Kept (e : Eviction K) : Type 0 where
        pub placed : (j : K) → places j e ≡ held j
        pub freqs : (j : K) → occurs j e.freq ≡ held j
        pub left : count_free e.small + count_free e.main + length e.victims ≡ free
        pub victims_free : AllFree e.victims

      module _ (k : K) (rest : Dict K (Unit {0})) (e : Eviction K) (p : e.small ≡ (k, tt) ∷ rest)
          (v : Kept e) where
        small_occurs : (j : K) → occurs j e.small ≡ same j k + occurs j rest
        unfolding occurs
        small_occurs j = ap (occurs j) p

        small_free : count_free e.small ≡ (if blocked k then 0 else 1) + count_free rest
        unfolding count_free
        small_free = ap count_free p

        placed-take_small : (j : K) → places j (take_small blocked k rest e) ≡ held j
        unfolding take_small
        placed-take_small j = ground (
          arith,
          small_occurs j,
          small_occurs k,
          v.placed j,
          v.placed k,
          once j,
          once k,
          occurs-set j k tt e.main,
          count-keys_of-snoc j k true e.victims,
          count-append j e.skipped_small (k ∷ []),
        )

        freqs-take_small : (j : K) → occurs j (take_small blocked k rest e).freq ≡ held j
        unfolding take_small
        freqs-take_small j =
            ground (arith, small_occurs k, v.placed k, v.freqs j, occurs-set j k 0 e.freq)

        left-take_small :
            count_free (take_small blocked k rest e).small
              + count_free (take_small blocked k rest e).main
              + length (take_small blocked k rest e).victims
            ≡ free
        unfolding take_small
        left-take_small = ground (
          arith,
          small_occurs k,
          small_free,
          v.placed k,
          v.left,
          once k,
          count_free-set k e.main,
          length-append e.victims ((k, true) ∷ []),
        )

        victims-take_small : AllFree (take_small blocked k rest e).victims
        unfolding take_small
        victims-take_small =
            ground (arith, v.victims_free, AllFree-snoc k true e.victims v.victims_free)

        pub Kept-take_small : Kept (take_small blocked k rest e)
        Kept-take_small = record {
          placed = placed-take_small;
          freqs = freqs-take_small;
          left = left-take_small;
          victims_free = victims-take_small;
        }

      module _ (k : K) (rest : Dict K (Unit {0})) (e : Eviction K) (p : e.main ≡ (k, tt) ∷ rest)
          (v : Kept e) where
        main_occurs : (j : K) → occurs j e.main ≡ same j k + occurs j rest
        unfolding occurs
        main_occurs j = ap (occurs j) p

        main_free : count_free e.main ≡ (if blocked k then 0 else 1) + count_free rest
        unfolding count_free
        main_free = ap count_free p

        placed-take_main : (j : K) → places j (take_main blocked k rest e) ≡ held j
        unfolding take_main
        placed-take_main j = ground (
          arith,
          main_occurs j,
          main_occurs k,
          v.placed j,
          v.placed k,
          once j,
          once k,
          occurs-set j k tt rest,
          count-keys_of-snoc j k false e.victims,
          count-append j e.skipped_main (k ∷ []),
        )

        freqs-take_main : (j : K) → occurs j (take_main blocked k rest e).freq ≡ held j
        unfolding take_main
        freqs-take_main j = ground (
          arith,
          main_occurs k,
          v.placed k,
          v.freqs j,
          occurs-set j k (freq_of k e.freq - 1) e.freq,
        )

        left-take_main :
            count_free (take_main blocked k rest e).small
              + count_free (take_main blocked k rest e).main
              + length (take_main blocked k rest e).victims
            ≡ free
        unfolding take_main
        left-take_main = ground (
          arith,
          main_occurs k,
          main_free,
          v.placed k,
          v.left,
          once k,
          count_free-set k rest,
          length-append e.victims ((k, false) ∷ []),
        )

        victims-take_main : AllFree (take_main blocked k rest e).victims
        unfolding take_main
        victims-take_main =
            ground (arith, v.victims_free, AllFree-snoc k false e.victims v.victims_free)

        pub Kept-take_main : Kept (take_main blocked k rest e)
        Kept-take_main = record {
          placed = placed-take_main;
          freqs = freqs-take_main;
          left = left-take_main;
          victims_free = victims-take_main;
        }
