-- ===== src/Policy/Registry.antt =====
-- python/bench/policies.py: `POLICIES` and `make_policy`.
use Prim.Native.String.{String}
use text.Mathlib.Text.{◌==◌ as str_eq}
use mooncake_kvcache_tiered.Base.{
  ℕ, zero, suc, Option, none, some, Key, Result, ok, raise, value_error, if◌then◌else◌, ◌>>=◌, ◌<◌,
  ◌≡◌, ◌↔◌, ◌⊎◌, inl, inr, refl, arith, Option-cases, ok-ne-raise,
}
use mooncake_kvcache_tiered.Policy.{CachePolicy}
use mooncake_kvcache_tiered.Policy.Lru.Laws.{lru_policy}
use mooncake_kvcache_tiered.Policy.Sieve.Methods.{sieve_policy}
use mooncake_kvcache_tiered.Policy.S3Fifo.Methods.{s3fifo_policy}
use mooncake_kvcache_tiered.Policy.S3FifoPrefix.Laws.{s3fifo_prefix_policy}
use mooncake_kvcache_tiered.Policy.PrefixLru.Laws.{prefix_lru_policy}

-- The classes that `POLICIES` lists.
pub data PolicyClass : Type 0 where
  lru sieve s3fifo prefix_lru s3fifo_prefix : PolicyClass

-- `POLICIES[name]`.
unfoldable pub find_class : String → Option PolicyClass
find_class name =
    if str_eq name "lru"
    then some lru
    else if str_eq name "sieve"
    then some sieve
    else if str_eq name "s3fifo"
    then some s3fifo
    else if str_eq name "prefix_lru"
    then some prefix_lru
    else if str_eq name "s3fifo_prefix"
    then some s3fifo_prefix
    else none

module _ (K : Type 0) ⦃key : Key K⦄ where
  abbrev pub policy_of : PolicyClass → CachePolicy K
  policy_of lru = lru_policy
  policy_of sieve = sieve_policy
  policy_of s3fifo = s3fifo_policy
  policy_of prefix_lru = prefix_lru_policy
  policy_of s3fifo_prefix = s3fifo_prefix_policy

  -- An instance of one of the classes.
  abbrev pub Policy : Type 0
  Policy = (c : PolicyClass) × (policy_of c).State

  unfoldable pub instantiate : PolicyClass → ℕ → Result Policy
  instantiate c capacity = do s ← (policy_of c).init capacity; ok (c, s)

  -- A missing name is a `ValueError` too.
  unfoldable pub make_policy : String → ℕ → Result Policy
  make_policy name capacity = elim (find_class name) [
    | none ↦ raise value_error
    | some c ↦ instantiate c capacity
  ]

  -- A known name with a positive capacity gives an empty valid policy of that class and capacity.
  pub make_policy_lem :
      (name : String) (c : PolicyClass) (cap : ℕ)
      → find_class name ≡ some c
      → 0 < cap
      → (s : (policy_of c).State) × (make_policy name cap ≡ ok (c, s))
        × (policy_of c).IsValid s
        × ((policy_of c).capacity s ≡ cap)
        × ((k : K) → (policy_of c).occurs k s ≡ 0)
  unfolding make_policy instantiate
  make_policy_lem name c cap e h =
      let (s, i, v, n, empty) = (policy_of c).init_positive cap h in
      (s, rw (e, make_policy, i), v, n, empty)

  instantiate-raises :
      (c : PolicyClass) (cap : ℕ) → (instantiate c cap ≡ raise value_error) ↔ (cap ≡ 0)
  unfolding instantiate
  instantiate-raises c zero = (λ h. refl, λ h. rw (policy_of c).init_zero)
  instantiate-raises c (suc n) =
      let (s, i, v, n', empty) = (policy_of c).init_positive (suc n) (omega arith) in
      (λ h. absurd (ok-ne-raise _ _ (rw (i, ◌>>=◌) at h)), λ h. absurd (omega arith))

  -- `make_policy` raises exactly for an unknown name and for the capacity 0.
  pub make_policy-raises :
      (name : String) (cap : ℕ)
      → (make_policy name cap ≡ raise value_error) ↔ ((find_class name ≡ none) ⊎ (cap ≡ 0))
  unfolding make_policy
  make_policy-raises name cap = elim (Option-cases (find_class name)) [
    | inl e ↦ rw (e, make_policy) (λ h. inl refl, λ h. refl)
    | inr (c, e) ↦
        rw (e, make_policy)
          (
            λ h. inr ((instantiate-raises c cap).0 h),
            elim [ inl n ↦ cc | inr z ↦ (instantiate-raises c cap).1 z ],
          )
  ]
