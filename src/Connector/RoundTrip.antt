-- ===== src/Connector/RoundTrip.antt =====
-- python/vllm_adapter/connector.py: `load_kv` after `store_kv`.
use mooncake_kvcache_tiered.Base.{
  ◌<◌, ◌≡◌, refl, ◌∙◌, none, some, List, [], ◌∷◌, Key, arith, count, length, ok, inl, inr,
}
use mooncake_kvcache_tiered.Dict.{lookup}
use mooncake_kvcache_tiered.Connector.{
  TieredStore, Scheduler, ProjectKvConnector, store_kv, load_kv,
}
use mooncake_kvcache_tiered.Connector.Store.{StoreLaws}
use mooncake_kvcache_tiered.Connector.Puts.{latest, latest-some, store_kv_lem}
use mooncake_kvcache_tiered.Connector.Loads.{absent, load_kv_lem}

module _ {K V : Type 0} ⦃key : Key K⦄ (scheduler : Scheduler K) (store : TieredStore K V)
    (laws : StoreLaws store) where
  absent-none :
      (ks : List K) (s : store.State)
      → ((j : K) → 0 < count j ks → (v : V) × (laws.view j s ≡ some v))
      → absent scheduler store laws ks s ≡ []
  absent-none [] s h = refl
  absent-none (k ∷ ks) s h =
      let (v, e) = h k (ground arith) in
      rw (absent, e) (absent-none ks s (λ j g. h j (omega arith)))

  -- Over a store that keeps what is put into it, to load the keys that were just stored, with as many
  -- payloads, misses none of them and gives each the last payload that was stored for it, whatever
  -- the store held before.
  pub load_kv-store_kv :
      (ks : List K) (vs : List V) (c : ProjectKvConnector scheduler store)
      → length ks ≡ length vs
      → (c' : ProjectKvConnector scheduler store) × (store_kv scheduler store ks vs c ≡ ok c')
        × ((load_kv scheduler store ks c').1.missing ≡ [])
        × ((j : K)
            → 0 < count j ks
            → (v : V) × (lookup j (load_kv scheduler store ks c').1.loaded ≡ some v)
              × (latest j ks vs none ≡ some v))
  load_kv-store_kv ks vs c h = elim (store_kv_lem scheduler store laws ks vs c) [
    | inl (n, e) ↦ absurd (n h)
    | inr (g, c', e, views, registered, config) ↦
        let (kept, loaded, missing) = load_kv_lem scheduler store laws ks c' in
        (
          c',
          e,
          missing
              ∙ absent-none ks c'.store_state (λ j p.
                let (v, q, r) = latest-some j ks vs (laws.view j c.store_state) h p in
                (v, views j ∙ q)),
          λ j p.
              let (v, q, r) = latest-some j ks vs (laws.view j c.store_state) h p in
              (v, loaded j ∙ ground (arith, p) ∙ views j ∙ q, r),
        )
  ]
