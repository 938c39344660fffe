-- ===== src/Offload/Collect.antt =====
-- python/vllm_adapter/offloading_spec.py: lemmas on how the loop of `evict` ends.
use mooncake_kvcache_tiered.Base.{
  ℕ, zero, suc, ◌≤◌, ◌<◌, ◌≡◌, refl, sym, ◌∙◌, subst, none-ne-some, Bool, true, false, none, some,
  [], ◌∷◌, Key, arith, length, length-append, ltb, inl, inr, ◌⊎◌, Bool-cases, Option-cases,
}
use mooncake_kvcache_tiered.Dict.{Dict}
use mooncake_kvcache_tiered.Offload.State.{Eviction}
use mooncake_kvcache_tiered.Offload.Loop.{take_small, take_main, step, main_weight, collect}
use mooncake_kvcache_tiered.Offload.Rounds.{weight, step-cases, weight-step}
use mooncake_kvcache_tiered.Offload.Kept.{Kept, Kept-take_small, Kept-take_main}
use mathlib.Core.Option.{some-injective}

module _ {K : Type 0} ⦃key : Key K⦄ (blocked : K → Bool) (budget : ℕ) where
  length-take_small :
      (k : K) (rest : Dict K (Unit {0})) (e : Eviction K)
      → length (take_small blocked k rest e).victims ≤ suc (length e.victims)
  unfolding take_small
  length-take_small k rest e = ground (arith, length-append e.victims ((k, true) ∷ []))

  length-take_main :
      (k : K) (rest : Dict K (Unit {0})) (e : Eviction K)
      → length (take_main blocked k rest e).victims ≤ suc (length e.victims)
  unfolding take_main
  length-take_main k rest e = ground (arith, length-append e.victims ((k, false) ∷ []))

  -- A round finds one victim at most.
  length-step :
      (e e' : Eviction K)
      → step blocked budget e ≡ some e'
      → length e'.victims ≤ suc (length e.victims)
  length-step e e' h = elim (step-cases blocked budget e) [
    | inl (s, p, q) ↦ absurd (none-ne-some (sym s ∙ h))
    | inr (inl (k, rest, p, s)) ↦
        subst (λ (x : Eviction K). length x.victims ≤ suc (length e.victims))
          (some-injective _ _ (sym s ∙ h)) (length-take_small k rest e)
    | inr (inr (k, rest, p, s)) ↦
        subst (λ (x : Eviction K). length x.victims ≤ suc (length e.victims))
          (some-injective _ _ (sym s ∙ h)) (length-take_main k rest e)
  ]

  step-none : (e : Eviction K) → step blocked budget e ≡ none → (e.small ≡ []) × (e.main ≡ [])
  step-none e h = elim (step-cases blocked budget e) [
    | inl (s, p, q) ↦ (p, q)
    | inr (inl (k, rest, p, s)) ↦ absurd (none-ne-some (sym h ∙ s))
    | inr (inr (k, rest, p, s)) ↦ absurd (none-ne-some (sym h ∙ s))
  ]

  weight-zero : (e : Eviction K) → weight e ≡ 0 → (e.small ≡ []) × (e.main ≡ [])
  weight-zero e h = (empty_small e.small (omega arith), empty_main e.main (omega arith))
    where
      empty_small : (d : Dict K (Unit {0})) → length d ≡ 0 → d ≡ []
      empty_small [] z = refl
      empty_small (x ∷ d) z = absurd (omega arith)

      empty_main : (d : Dict K (Unit {0})) → main_weight d e.freq ≡ 0 → d ≡ []
      empty_main [] z = refl
      empty_main (x ∷ d) z = absurd (unfold main_weight in omega arith)

  -- How the loop may stop.
  abbrev pub Stopped : ℕ → Eviction K → Type 0
  Stopped n e = (length e.victims ≡ n) ⊎ ((length e.victims < n) × (e.small ≡ []) × (e.main ≡ []))

  pub collect-Stopped :
      (fuel n : ℕ) (e : Eviction K)
      → weight e ≤ fuel
      → length e.victims ≤ n
      → Stopped n (collect fuel blocked budget n e)
  unfolding collect
  collect-Stopped zero n e w h = elim (Bool-cases (ltb (length e.victims) n)) [
    | inl more ↦ (let (p, q) = weight-zero e (omega arith) in inr (ground arith, p, q))
    | inr done ↦ inl (ground arith)
  ]
  collect-Stopped (suc fuel) n e w h = elim (Bool-cases (ltb (length e.victims) n)) [
    | inl more ↦ elim (Option-cases (step blocked budget e)) [
      | inl s ↦ rw (more, s, collect) (let (p, q) = step-none e s in inr (ground arith, p, q))
      | inr (e', s) ↦
          rw (more, s, collect)
            (collect-Stopped fuel n e' (omega (arith, weight-step blocked budget e e' s))
              (ground (arith, length-step e e' s)))
    ]
    | inr done ↦ rw (done, collect) (inl (ground arith))
  ]

  module _ (held : K → ℕ) (once : (j : K) → held j ≤ 1) (free : ℕ) where
    abbrev IsKept : Eviction K → Type 0
    IsKept = Kept blocked held once free

    Kept-step : (e e' : Eviction K) → step blocked budget e ≡ some e' → IsKept e → IsKept e'
    Kept-step e e' h v = elim (step-cases blocked budget e) [
      | inl (s, p, q) ↦ absurd (none-ne-some (sym s ∙ h))
      | inr (inl (k, rest, p, s)) ↦
          subst IsKept (some-injective _ _ (sym s ∙ h))
            (Kept-take_small blocked held once free k rest e p v)
      | inr (inr (k, rest, p, s)) ↦
          subst IsKept (some-injective _ _ (sym s ∙ h))
            (Kept-take_main blocked held once free k rest e p v)
    ]

    pub collect-Kept :
        (fuel n : ℕ) (e : Eviction K) → IsKept e → IsKept (collect fuel blocked budget n e)
    unfolding collect
    collect-Kept zero n e v = v
    collect-Kept (suc fuel) n e v = elim (Bool-cases (ltb (length e.victims) n)) [
      | inl more ↦ elim (Option-cases (step blocked budget e)) [
        | inl s ↦ rw (more, s, collect) v
        | inr (e', s) ↦ rw (more, s, collect) (collect-Kept fuel n e' (Kept-step e e' s v))
      ]
      | inr done ↦ rw (done, collect) v
    ]
