-- ===== src/Policy/PrefixLru/Evict.antt =====
-- python/bench/policies.py: lemmas on `PrefixAwareLRUPolicy._evict` and on the loop that calls
-- it.
use mooncake_kvcache_tiered.Base.{
  ℕ, zero, suc, ◌+◌, ◌-◌, ◌≤◌, ◌<◌, ◌≡◌, refl, subst, none, some, [], ◌∷◌, Key, same, count, arith,
  length, take, inl, inr, ◌⊎◌, Option-cases,
}
use mathlib.Core.Option.{some-injective}
use mooncake_kvcache_tiered.Dict.{Dict, Distinct, set, move_to_end, occurs}
use mooncake_kvcache_tiered.Dict
use mooncake_kvcache_tiered.Dict.Laws.{occurs-remove, length-remove}
use mooncake_kvcache_tiered.Policy.PrefixLru.{candidate_window, deeper, deepest, victim, evict_over}

module _ {K : Type 0} where
  -- No entry of the list is deeper.
  abbrev pub NoDeeper : ℕ → Dict K ℕ → Type 0
  NoDeeper n [] = Unit {0}
  NoDeeper n (e ∷ d) = (e.1 ≤ n) × NoDeeper n d

  deeper-cases : (best e : K × ℕ) → (deeper best e ≡ e) ⊎ (deeper best e ≡ best)
  deeper-cases best e = ground arith

  victim-none : (d : Dict K ℕ) → victim d ≡ none → length d ≡ 0
  unfolding victim
  victim-none [] h = refl
  victim-none (x ∷ d) h = cc

module _ {K : Type 0} ⦃key : Key K⦄ where
  occurs-deepest :
      (best : K × ℕ) (d : Dict K ℕ)
      → 0 < same (deepest best d).0 best.0 + occurs (deepest best d).0 d
  unfolding deepest occurs
  occurs-deepest best [] = ground arith
  occurs-deepest best (e ∷ d) = elim (deeper-cases best e) [
    | inl q ↦ omega (arith, subst found q (occurs-deepest (deeper best e) d))
    | inr q ↦ omega (arith, subst found q (occurs-deepest (deeper best e) d))
  ]
    where
      found : K × ℕ → Type 0
      found y = 0 < same (deepest (deeper best e) d).0 y.0 + occurs (deepest (deeper best e) d).0 d

  occurs-take-le : (n : ℕ) (j : K) (d : Dict K ℕ) → occurs j (take n d) ≤ occurs j d
  unfolding occurs
  occurs-take-le zero j d = omega arith
  occurs-take-le (suc n) j [] = omega arith
  occurs-take-le (suc n) j (e ∷ d) = omega (arith, occurs-take-le n j d)

  -- The victim is one of the sixteen least recently used keys.
  occurs-victim :
      (d : Dict K ℕ) (e : K × ℕ) → victim d ≡ some e → 0 < occurs e.0 (take candidate_window d)
  unfolding victim occurs
  occurs-victim [] e h = cc
  occurs-victim (x ∷ d) e h =
      subst (λ (y : K × ℕ). 0 < same y.0 x.0 + occurs y.0 (take 15 d)) (some-injective _ _ h)
        (occurs-deepest x (take 15 d))

  -- With the length as fuel the loop ends because the store fits.
  pub length-evict_over :
      (fuel cap : ℕ) (d : Dict K ℕ) → length d ≤ fuel → length (evict_over fuel cap d).0 ≤ cap
  unfolding evict_over
  length-evict_over zero cap d h = omega arith
  length-evict_over (suc fuel) cap d h = elim (Option-cases (victim d)) [
    | inl e ↦ rw (e, evict_over) (omega (arith, victim-none d e))
    | inr (x, e) ↦
        rw (e, evict_over)
          (ground (
            arith,
            length-remove x.0 d,
            occurs-victim d x e,
            occurs-take-le candidate_window x.0 d,
            length-evict_over fuel cap (Dict.remove x.0 d),
          ))
  ]

  pub occurs-evict_over :
      (j : K) (fuel cap : ℕ) (d : Dict K ℕ)
      → occurs j (evict_over fuel cap d).0 + count j (evict_over fuel cap d).1 ≡ occurs j d
  unfolding evict_over
  occurs-evict_over j zero cap d = omega arith
  occurs-evict_over j (suc fuel) cap d = elim (Option-cases (victim d)) [
    | inl e ↦ rw (e, evict_over) (omega arith)
    | inr (x, e) ↦
        rw (e, evict_over)
          (ground (
            arith,
            occurs-remove j x.0 d,
            occurs-victim d x e,
            occurs-take-le candidate_window x.0 d,
            occurs-evict_over j fuel cap (Dict.remove x.0 d),
          ))
  ]

  pub length-evict_over_gone :
      (fuel cap : ℕ) (d : Dict K ℕ) → length (evict_over fuel cap d).1 ≤ length d - cap
  unfolding evict_over
  length-evict_over_gone zero cap d = omega arith
  length-evict_over_gone (suc fuel) cap d = elim (Option-cases (victim d)) [
    | inl e ↦ rw (e, evict_over) (omega arith)
    | inr (x, e) ↦
        rw (e, evict_over)
          (ground (
            arith,
            length-remove x.0 d,
            occurs-victim d x e,
            occurs-take-le candidate_window x.0 d,
            length-evict_over_gone fuel cap (Dict.remove x.0 d),
          ))
  ]
