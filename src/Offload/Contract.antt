-- ===== src/Offload/Contract.antt =====
-- python/vllm_adapter/offloading_spec.py: `S3FIFOCachePolicy` as a map from keys to blocks, which is
-- what vLLM's manager sees of it.
use mooncake_kvcache_tiered.Base.{
  ℕ, zero, suc, ◌≡◌, ◌≢◌, refl, ap, ◌∙◌, Bool, true, false, Option, none, some, List, [], ◌∷◌, Key,
  arith, ok, inl, inr, Bool-cases, Option-cases, if◌then◌else◌, length, ◌==◌, OnOk, OnOk-bind,
  OnOk-eq, ite,
}
use mooncake_kvcache_tiered.Dict.{Dict, Distinct, lookup, contains, set, occurs}
use mooncake_kvcache_tiered.Dict
use mooncake_kvcache_tiered.Dict.Laws.{
  lookup-set, lookup-remove_ne, lookup_of_not-occurs, occurs-remove, contains-occurs,
}
use mooncake_kvcache_tiered.Offload.State.{S3FifoCachePolicy, clear}
use mooncake_kvcache_tiered.Offload.Loop.{elem}
use mooncake_kvcache_tiered.Offload.Methods.{
  get, insert, remove, touch, mark_evictable, mark_non_evictable, settle, drop_victim, drop_victims,
  collect_victims, evict, ghost_insert,
}
use mooncake_kvcache_tiered.Offload.Touch.{remove-IsValid}
use mooncake_kvcache_tiered.Offload.Calls.{evict-total}
use mooncake_kvcache_tiered.Offload.Valid.{IsValid, dropped, dropped_keys}

-- The map of the blocks, and what the operations do to it.
module _ {K B : Type 0} ⦃key : Key K⦄ where
  abbrev pub put_block : K → B → (K → Option B) → K → Option B
  put_block k b f j = ite (key.dec j k) (some b) (f j)

  abbrev pub drop_blocks : List K → (K → Option B) → K → Option B
  drop_blocks ks f j = if elem j ks then none else f j

  -- The keys that `evict` returns.
  abbrev pub evicted_keys : Option (List (K × B)) → List K
  evicted_keys none = []
  evicted_keys (some r) = dropped_keys r

  -- The dictionary without the keys.
  abbrev without : List K → Dict K B → Dict K B
  without [] d = d
  without (k ∷ ks) d = without ks (Dict.remove k d)

  lookup-remove :
      (j k : K) (d : Dict K B)
      → Distinct d
      → lookup j (Dict.remove k d) ≡ ite (key.dec j k) none (lookup j d)
  lookup-remove j k d o = ground (
    arith,
    lookup_of_not-occurs j (Dict.remove k d),
    occurs-remove j k d,
    o j,
    lookup-remove_ne j k d,
  )

  Distinct-remove : (k : K) (d : Dict K B) → Distinct d → Distinct (Dict.remove k d)
  Distinct-remove k d o j = omega (arith, occurs-remove j k d, o j)

  lookup-without :
      (j : K) (ks : List K) (d : Dict K B)
      → Distinct d
      → lookup j (without ks d) ≡ drop_blocks ks (λ i. lookup i d) j
  unfolding elem
  lookup-without j [] d o = refl
  lookup-without j (k ∷ ks) d o =
      ground (
        arith,
        lookup-without j ks (Dict.remove k d) (Distinct-remove k d o),
        lookup-remove j k d o,
      )

  drop_victim-blocks :
      (k : K) (b : Bool) (s : S3FifoCachePolicy K B)
      → OnOk (λ r. r.0.blocks ≡ Dict.remove k s.blocks) (drop_victim k b s)
  unfolding drop_victim ghost_insert
  drop_victim-blocks k b s = elim (Option-cases (lookup k s.blocks)) [
    | inl e ↦ rw (e, drop_victim) tt
    | inr (block, e) ↦ rw (e, drop_victim) (either b)
  ]
    where
      either :
          (b : Bool)
          → (if b then ghost_insert k (dropped k s) else dropped k s).blocks
            ≡ Dict.remove k s.blocks
      either true = refl
      either false = refl

  drop_victims-blocks :
      (vs : List (K × Bool)) (s : S3FifoCachePolicy K B)
      → OnOk (λ q. q.0.blocks ≡ without (dropped_keys q.1) s.blocks) (drop_victims vs s)
  unfolding drop_victims drop_victim
  drop_victims-blocks [] s = refl
  drop_victims-blocks ((k, b) ∷ vs) s =
      OnOk-bind (λ r. r.0.blocks ≡ Dict.remove k s.blocks) _ (drop_victim k b s) _
        (drop_victim-blocks k b s)
        (λ r h.
          OnOk-bind (λ q. q.0.blocks ≡ without (dropped_keys q.1) r.0.blocks) _
            (drop_victims vs r.0) _ (drop_victims-blocks vs r.0)
            (λ q i. i ∙ ap (without (dropped_keys q.1)) h))

  evict-blocks :
      (n : ℕ) (protected : List K) (s : S3FifoCachePolicy K B)
      → OnOk (λ q. q.0.blocks ≡ without (evicted_keys q.1) s.blocks) (evict n protected s)
  unfolding evict settle
  evict-blocks zero protected s = refl
  evict-blocks (suc n) protected s =
      let e = collect_victims (suc n) protected s in
      elim (Bool-cases (length e.victims == suc n)) [
        | inl c ↦ rw c (
            OnOk-bind (λ q. q.0.blocks ≡ without (dropped_keys q.1) s.blocks) _
              (drop_victims e.victims (settle true e s)) _
              (drop_victims-blocks e.victims (settle true e s)) (λ r i. i))
        | inr c ↦ rw c refl
      ]

  remove-blocks :
      (k : K) (s : S3FifoCachePolicy K B)
      → OnOk (λ t. t.blocks ≡ Dict.remove k s.blocks) (remove k s)
  unfolding remove
  remove-blocks k s = elim (Bool-cases (contains k s.blocks)) [
    | inl c ↦ rw (c, remove) refl
    | inr c ↦ rw (c, remove) tt
  ]

  get-without :
      (ks : List K) (s s' : S3FifoCachePolicy K B)
      → IsValid s
      → s'.blocks ≡ without ks s.blocks
      → (j : K) → get j s' ≡ drop_blocks ks (λ i. get i s) j
  unfolding get
  get-without ks s s' v e j = ap (lookup j) e ∙ lookup-without j ks s.blocks v.once

  remove-held :
      (k : K) (s : S3FifoCachePolicy K B)
      → IsValid s
      → get k s ≢ none
      → (s' : S3FifoCachePolicy K B) × (remove k s ≡ ok s')
        × ((j : K) → get j s' ≡ drop_blocks (k ∷ []) (λ i. get i s) j)
  unfolding get
  remove-held k s v h = elim (remove-IsValid k s v) [
    | inl (c, s', e, w, o) ↦
        (s', e, get-without (k ∷ []) s s' v (OnOk-eq _ (remove k s) s' (remove-blocks k s) e))
    | inr (c, e) ↦
        absurd (h (lookup_of_not-occurs k s.blocks (ground (arith, contains-occurs k s.blocks))))
  ]

module _ {K B : Type 0} ⦃key : Key K⦄ (idle : B → Bool) where
  -- On a valid state the blocks that `get` finds are a map that `insert` extends by its block, from
  -- which `remove` takes a key that is held and `evict` exactly the keys that it returns, which is none if it
  -- fails, which `touch` and the marks leave as it is, and which `clear` empties.
  pub contract_lem :
      (s : S3FifoCachePolicy K B)
      → IsValid s
      → ((k : K) (block : B) (j : K)
          → get j (insert idle k block s) ≡ put_block k block (λ i. get i s) j)
        × ((k : K)
            → get k s ≢ none
            → (s' : S3FifoCachePolicy K B) × (remove k s ≡ ok s')
              × ((j : K) → get j s' ≡ drop_blocks (k ∷ []) (λ i. get i s) j))
        × ((n : ℕ) (protected : List K)
            → (s' : S3FifoCachePolicy K B) × (r : Option (List (K × B))) × (evict n protected s
                ≡ ok (s', r))
              × ((j : K) → get j s' ≡ drop_blocks (evicted_keys r) (λ i. get i s) j))
        × ((ks : List K) (j : K) → get j (touch ks s) ≡ get j s)
        × ((k j : K) → get j (mark_evictable k s) ≡ get j s)
        × ((k j : K) → get j (mark_non_evictable k s) ≡ get j s)
        × ((j : K) → get j (clear s) ≡ none)
  unfolding get insert touch mark_evictable mark_non_evictable clear lookup
  contract_lem s v = (
    λ k block j. lookup-set j k block s.blocks,
    λ k h. remove-held k s v h,
    λ n protected.
        let (s', r, e, w) = evict-total idle n protected s v in
        (
          s',
          r,
          e,
          get-without (evicted_keys r) s s' v
              (OnOk-eq _ (evict n protected s) (s', r) (evict-blocks n protected s) e),
        ),
    λ ks j. refl,
    λ k j. refl,
    λ k j. refl,
    λ j. refl,
  )
