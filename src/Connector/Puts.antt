-- ===== src/Connector/Puts.antt =====
-- python/vllm_adapter/connector.py: lemmas on `store_kv`.
use Prim.Native.String.{String}
use mooncake_kvcache_tiered.Base.{
  ◌<◌, ◌⊎◌, ◌≡◌, ◌≢◌, refl, ap, sym, ◌∙◌, Bool, true, false, Option, none, some, List, [], ◌∷◌, Key,
  arith, count, if◌then◌else◌, ltb, length, ◌==◌, ok, raise, value_error, ite, if_pos, if_neg,
  Bool-cases, inl, inr,
}
use mooncake_kvcache_tiered.Connector.{
  TieredStore, Scheduler, ProjectKvConnector, put_all, store_kv,
}
use mooncake_kvcache_tiered.Connector.Store.{StoreLaws}

module _ {K V : Type 0} ⦃key : Key K⦄ where
  -- The payload that the lists give a key last, or `o` if they give it none.
  abbrev pub latest : K → List K → List V → Option V → Option V
  latest j [] vs o = o
  latest j (k ∷ ks) [] o = o
  latest j (k ∷ ks) (v ∷ vs) o = latest j ks vs (ite (key.dec j k) (some v) o)

  latest-absent :
      (j : K) (ks : List K) (vs : List V) (o : Option V) → count j ks ≡ 0 → latest j ks vs o ≡ o
  latest-absent j [] vs o h = refl
  latest-absent j (k ∷ ks) [] o h = refl
  latest-absent j (k ∷ ks) (v ∷ vs) o h =
      latest-absent j ks vs _ (omega arith) ∙ if_neg (key.dec j k) (λ p. ground arith) _ _

  -- A key of the lists has a payload, which what was there before does not change.
  pub latest-some :
      (j : K) (ks : List K) (vs : List V) (o : Option V)
      → length ks ≡ length vs
      → 0 < count j ks
      → (v : V) × (latest j ks vs o ≡ some v) × (latest j ks vs none ≡ some v)
  latest-some j [] vs o h g = absurd (omega arith)
  latest-some j (k ∷ ks) [] o h g = absurd (omega arith)
  latest-some j (k ∷ ks) (v ∷ vs) o h g = elim (Bool-cases (ltb 0 (count j ks))) [
    | inl e ↦
        let (w, p, q) =
          latest-some j ks vs (ite (key.dec j k) (some v) o) (omega arith) (ground arith) in
        let (x, r, t) =
          latest-some j ks vs (ite (key.dec j k) (some v) none) (omega arith) (ground arith) in
        (w, p, r ∙ sym t ∙ q)
    | inr e ↦
        let p : j ≡ k = ground (arith, e, g) in
        let last : count j ks ≡ 0 = ground (arith, e) in
        (
          v,
          latest-absent j ks vs _ last ∙ if_pos (key.dec j k) p _ _,
          latest-absent j ks vs _ last ∙ if_pos (key.dec j k) p _ _,
        )
  ]

module _ {K V : Type 0} ⦃key : Key K⦄ (scheduler : Scheduler K) (store : TieredStore K V)
    (laws : StoreLaws store) where
  -- The registrations of the keys, in order.
  abbrev pub register_all : List K → String → scheduler.State → scheduler.State
  register_all [] node t = t
  register_all (k ∷ ks) node t = register_all ks node (scheduler.register_block k node t)

  view-put_all :
      (j : K) (ks : List K) (vs : List V) (c : ProjectKvConnector scheduler store)
      → laws.view j (put_all scheduler store ks vs c).store_state
        ≡ latest j ks vs (laws.view j c.store_state)
  unfolding put_all
  view-put_all j [] vs c = refl
  view-put_all j (k ∷ ks) [] c = refl
  view-put_all j (k ∷ ks) (v ∷ vs) c =
      view-put_all j ks vs _ ∙ ap (latest j ks vs) (laws.view-put j k v c.store_state)

  scheduler-put_all :
      (ks : List K) (vs : List V) (c : ProjectKvConnector scheduler store)
      → length ks ≡ length vs
      → ((put_all scheduler store ks vs c).scheduler_state
          ≡ register_all ks c.self_node c.scheduler_state)
        × ((put_all scheduler store ks vs c).config ≡ c.config)
  unfolding put_all
  scheduler-put_all [] vs c h = (refl, refl)
  scheduler-put_all (k ∷ ks) [] c h = absurd (omega arith)
  scheduler-put_all (k ∷ ks) (v ∷ vs) c h = scheduler-put_all ks vs _ (omega arith)

  -- The state after the loop and the recording.
  abbrev recorded :
      Bool
      → List K
      → List V
      → ProjectKvConnector scheduler store
      → ProjectKvConnector scheduler store
  recorded b ks vs c =
      let c' = put_all scheduler store ks vs c in
      if b then record c' { store_state = store.record_sequence ks c'.store_state } else c'

  recorded_lem :
      (b : Bool) (ks : List K) (vs : List V) (c : ProjectKvConnector scheduler store)
      → length ks ≡ length vs
      → ((j : K)
          → laws.view j (recorded b ks vs c).store_state
            ≡ latest j ks vs (laws.view j c.store_state))
        × ((recorded b ks vs c).scheduler_state ≡ register_all ks c.self_node c.scheduler_state)
        × ((recorded b ks vs c).config ≡ c.config)
  recorded_lem true ks vs c h =
      let (p, q) = scheduler-put_all ks vs c h in
      (
        λ j.
            laws.view-record_sequence j ks (put_all scheduler store ks vs c).store_state
            ∙ view-put_all j ks vs c,
        p,
        q,
      )
  recorded_lem false ks vs c h =
      let (p, q) = scheduler-put_all ks vs c h in (λ j. view-put_all j ks vs c, p, q)

  -- Over a store that keeps what is put into it, `store_kv` raises `ValueError` exactly when the
  -- two lists differ in length. Otherwise each key of the list has the last payload given to it,
  -- other keys have what they had, and the keys are registered for the node in their order; the
  -- configuration does not change.
  pub store_kv_lem :
      (ks : List K) (vs : List V) (c : ProjectKvConnector scheduler store)
      → ((length ks ≢ length vs) × (store_kv scheduler store ks vs c ≡ raise value_error))
        ⊎ ((length ks ≡ length vs)
            × (c' : ProjectKvConnector scheduler store) × (store_kv scheduler store ks vs c ≡ ok c')
            × ((j : K) → laws.view j c'.store_state ≡ latest j ks vs (laws.view j c.store_state))
            × (c'.scheduler_state ≡ register_all ks c.self_node c.scheduler_state)
            × (c'.config ≡ c.config))
  unfolding store_kv
  store_kv_lem ks vs c = elim (Bool-cases (length ks == length vs)) [
    | inr e ↦ inl ((λ h. ground (arith, h)), rw e)
    | inl e ↦
        let same_length : length ks ≡ length vs = ground (arith, e) in
        let (views, registered, configured) =
          recorded_lem c.config.prefix_reuse_enabled ks vs c same_length in
        inr (
          same_length,
          recorded c.config.prefix_reuse_enabled ks vs c,
          rw (e, store_kv),
          views,
          registered,
          configured,
        )
  ]
