-- ===== src/Offload/Rounds.antt =====
-- python/vllm_adapter/offloading_spec.py: the cases and the measure of a round of the loop of
-- `evict`.
use mathlib.Core.Option.{some-injective}
use mooncake_kvcache_tiered.Base.{
  ℕ, suc, ◌+◌, ◌-◌, ◌*◌, ◌≤◌, ◌<◌, ◌≡◌, refl, sym, ◌∙◌, none-ne-some, Bool, none, some, [], ◌∷◌,
  Key, arith, length, ltb, inl, inr, ◌⊎◌, ite, if_pos, if_neg, Bool-cases,
}
use mooncake_kvcache_tiered.Dict.{Dict, set}
use mooncake_kvcache_tiered.Dict.Laws.{lookup-set}
use mooncake_kvcache_tiered.Offload.State.{Eviction}
use mooncake_kvcache_tiered.Offload.Loop.{freq_of, take_small, take_main, choose, step, main_weight}

module _ {K : Type 0} ⦃key : Key K⦄ where
  -- The measure of the loop.
  abbrev pub weight : Eviction K → ℕ
  weight e = 2 * length e.small + main_weight e.main e.freq

  pub freq_of-set :
      (j k : K) (n : ℕ) (d : Dict K ℕ) → freq_of j (set k n d) ≡ ite (key.dec j k) n (freq_of j d)
  unfolding freq_of
  freq_of-set j k n d = rw (lookup-set j k n d, freq_of) (ground arith)

  -- To lower the frequency of a key makes the main queue no heavier.
  main_weight_lower :
      (k : K) (n : ℕ) (d : Dict K (Unit {0})) (f : Dict K ℕ)
      → n ≤ freq_of k f
      → main_weight d (set k n f) ≤ main_weight d f
  unfolding main_weight
  main_weight_lower k n [] f h = omega arith
  main_weight_lower k n ((j, u) ∷ d) f h =
      ground (arith, freq_of-set j k n f, main_weight_lower k n d f h)

  main_weight-set-le :
      (k : K) (d : Dict K (Unit {0})) (f : Dict K ℕ)
      → main_weight (set k tt d) f ≤ main_weight d f + suc (freq_of k f)
  unfolding main_weight set
  main_weight-set-le k [] f = omega arith
  main_weight-set-le k ((j, u) ∷ d) f = elim (key.dec k j) [
    | yes p ↦ rw (if_pos (key.dec k j) p) (omega arith)
    | no p ↦ rw (if_neg (key.dec k j) p) (omega (arith, main_weight-set-le k d f))
  ]

  module _ (blocked : K → Bool) where
    weight-take_small :
        (k : K) (rest : Dict K (Unit {0})) (e : Eviction K)
        → weight (take_small blocked k rest e) < 2 * suc (length rest) + main_weight e.main e.freq
    unfolding take_small
    weight-take_small k rest e = ground (
      arith,
      main_weight-set-le k e.main (set k 0 e.freq),
      main_weight_lower k 0 e.main e.freq,
      freq_of-set k k 0 e.freq,
    )

    weight-take_main :
        (k : K) (rest : Dict K (Unit {0})) (e : Eviction K)
        → weight (take_main blocked k rest e)
          < 2 * length e.small + (suc (freq_of k e.freq) + main_weight rest e.freq)
    unfolding take_main
    weight-take_main k rest e = ground (
      arith,
      main_weight-set-le k rest (set k (freq_of k e.freq - 1) e.freq),
      main_weight_lower k (freq_of k e.freq - 1) rest e.freq,
      freq_of-set k k (freq_of k e.freq - 1) e.freq,
    )

    choose-cases :
        (budget : ℕ) (small main : Dict K (Unit {0})) (e : Eviction K)
        → ((choose blocked budget small main e ≡ none) × (small ≡ []) × (main ≡ []))
          ⊎ (((k : K) × (rest : Dict K (Unit {0})) × (small ≡ (k, tt) ∷ rest)
                × (choose blocked budget small main e ≡ some (take_small blocked k rest e)))
              ⊎ ((k : K) × (rest : Dict K (Unit {0})) × (main ≡ (k, tt) ∷ rest)
                  × (choose blocked budget small main e ≡ some (take_main blocked k rest e))))
    unfolding choose
    choose-cases budget [] [] e = inl (refl, refl, refl)
    choose-cases budget [] ((k, u) ∷ main) e = inr (inr (k, main, refl, refl))
    choose-cases budget ((j, u) ∷ small) [] e = inr (inl (j, small, refl, refl))
    choose-cases budget ((j, u) ∷ small) ((k, v) ∷ main) e =
        elim (Bool-cases (ltb budget (suc (length small)))) [
          | inl over ↦ inr (inl (j, small, refl, rw over))
          | inr under ↦ inr (inr (k, main, refl, rw under))
        ]

    -- A round takes the oldest key of one of the queues; there is none if both are empty.
    pub step-cases :
        (budget : ℕ) (e : Eviction K)
        → ((step blocked budget e ≡ none) × (e.small ≡ []) × (e.main ≡ []))
          ⊎ (((k : K) × (rest : Dict K (Unit {0})) × (e.small ≡ (k, tt) ∷ rest)
                × (step blocked budget e ≡ some (take_small blocked k rest e)))
              ⊎ ((k : K) × (rest : Dict K (Unit {0})) × (e.main ≡ (k, tt) ∷ rest)
                  × (step blocked budget e ≡ some (take_main blocked k rest e))))
    unfolding step
    step-cases budget e = choose-cases budget e.small e.main e

    -- Each round lowers the measure.
    pub weight-step :
        (budget : ℕ) (e e' : Eviction K) → step blocked budget e ≡ some e' → weight e' < weight e
    unfolding main_weight take_small take_main
    weight-step budget e e' h = elim (step-cases budget e) [
      | inl (s, p, q) ↦ absurd (none-ne-some (sym s ∙ h))
      | inr (inl (k, rest, p, s)) ↦
          let same_end : take_small blocked k rest e ≡ e' = some-injective _ _ (sym s ∙ h) in
          rw (← same_end, p) (weight-take_small k rest e)
      | inr (inr (k, rest, p, s)) ↦
          let same_end : take_main blocked k rest e ≡ e' = some-injective _ _ (sym s ∙ h) in
          rw (← same_end, p) (weight-take_main k rest e)
    ]
