-- ===== src/Connector/Loads.antt =====
-- python/vllm_adapter/connector.py: lemmas on `load_kv`.
use mathlib.Core.List.{append-nil, append_assoc}
use mooncake_kvcache_tiered.Base.{
  ◌≡◌, refl, ap, sym, ◌∙◌, Option, none, some, List, [], ◌∷◌, ◌++◌, Key, arith, count,
  if◌then◌else◌, ltb, ite, Option-cases, inl, inr,
}
use mooncake_kvcache_tiered.Dict.{set, lookup}
use mooncake_kvcache_tiered.Dict.Laws.{lookup-set}
use mooncake_kvcache_tiered.Connector.{
  TieredStore, Scheduler, ProjectKvConnector, LoadResult, load_all, prefetch_keys, load_kv,
}
use mooncake_kvcache_tiered.Connector.Store.{StoreLaws}

module _ {K V : Type 0} ⦃key : Key K⦄ (scheduler : Scheduler K) (store : TieredStore K V)
    (laws : StoreLaws store) where
  -- The keys that the store does not have, in the order of the request.
  abbrev pub absent : List K → store.State → List K
  absent [] s = []
  absent (k ∷ ks) s = elim (laws.view k s) [ none ↦ k ∷ absent ks s | some v ↦ absent ks s ]

  -- What a request for `ks` adds for a key to the payload `o` that it has.
  abbrev pub found : K → List K → store.State → Option V → Option V
  found j ks s o =
      if ltb 0 (count j ks) then (elim (laws.view j s) [ none ↦ o | some v ↦ some v ]) else o

  found-none :
      (j k : K) (ks : List K) (s : store.State) (o : Option V)
      → laws.view k s ≡ none
      → found j ks s o ≡ found j (k ∷ ks) s o
  found-none j k ks s o e = ground (arith, e)

  found-some :
      (j k : K) (ks : List K) (s : store.State) (v : V) (o : Option V)
      → laws.view k s ≡ some v
      → found j ks s (ite (key.dec j k) (some v) o) ≡ found j (k ∷ ks) s o
  found-some j k ks s v o e = ground (arith, e)

  -- What the loop of `load_kv` has done after the keys `ks`, from the store `s` and the result `r`.
  record Loads (ks : List K) (s : store.State) (r : LoadResult K V)
      (q : store.State × LoadResult K V) : Type 0 where
    kept : (j : K) → laws.view j q.0 ≡ laws.view j s
    loaded : (j : K) → lookup j q.1.loaded ≡ found j ks s (lookup j r.loaded)
    missing : q.1.missing ≡ r.missing ++ absent ks s

  absent-view :
      (ks : List K) (s t : store.State)
      → ((j : K) → laws.view j t ≡ laws.view j s)
      → absent ks t ≡ absent ks s
  absent-view [] s t h = refl
  absent-view (k ∷ ks) s t h = elim (Option-cases (laws.view k s)) [
    | inl e ↦ rw (absent, h k ∙ e, e) (ap (◌∷◌ k) (absent-view ks s t h))
    | inr (v, e) ↦ rw (absent, h k ∙ e, e) (absent-view ks s t h)
  ]

  found-view :
      (j : K) (ks : List K) (s t : store.State) (o : Option V)
      → laws.view j t ≡ laws.view j s
      → found j ks t o ≡ found j ks s o
  found-view j ks s t o h = rw h

  module _ (k : K) (ks : List K) (s t : store.State)
      (same_view : (j : K) → laws.view j t ≡ laws.view j s) (r : LoadResult K V)
      (q : store.State × LoadResult K V) where
    Loads-none :
        laws.view k s ≡ none
        → Loads ks t (record r { missing = r.missing ++ k ∷ [] }) q
        → Loads (k ∷ ks) s r q
    Loads-none e h = record {
      kept = λ j. h.kept j ∙ same_view j;
      loaded = λ j.
          h.loaded j
          ∙ found-view j ks s t (lookup j r.loaded) (same_view j)
          ∙ found-none j k ks s (lookup j r.loaded) e;
      missing =
          h.missing
          ∙ append_assoc r.missing (k ∷ []) (absent ks t)
          ∙ rw (absent, e, absent-view ks s t same_view);
    }

    Loads-some :
        (v : V)
        → laws.view k s ≡ some v
        → Loads ks t (record r { loaded = set k v r.loaded }) q
        → Loads (k ∷ ks) s r q
    Loads-some v e h = record {
      kept = λ j. h.kept j ∙ same_view j;
      loaded = λ j.
          h.loaded j
          ∙ found-view j ks s t (lookup j (set k v r.loaded)) (same_view j)
          ∙ ap (found j ks s) (lookup-set j k v r.loaded)
          ∙ found-some j k ks s v (lookup j r.loaded) e;
      missing = h.missing ∙ rw (absent, e, absent-view ks s t same_view);
    }

  load_all-Loads :
      (ks : List K) (s : store.State) (r : LoadResult K V)
      → Loads ks s r (load_all scheduler store ks s r)
  unfolding load_all
  load_all-Loads [] s r = record {
    kept = λ j. refl;
    loaded = λ j. refl;
    missing = sym (append-nil r.missing);
  }
  load_all-Loads (k ∷ ks) s r =
      let t = (store.get k s).0 in
      let same_view : (j : K) → laws.view j t ≡ laws.view j s = λ j. laws.view-get j k s in
      elim (Option-cases (laws.view k s)) [
        | inl e ↦
            rw (laws.get-view k s ∙ e, load_all)
              (Loads-none k ks s t same_view r _ e
                (load_all-Loads ks t (record r { missing = r.missing ++ k ∷ [] })))
        | inr (v, e) ↦
            rw (laws.get-view k s ∙ e, load_all)
              (Loads-some k ks s t same_view r _ v e
                (load_all-Loads ks t (record r { loaded = set k v r.loaded })))
      ]

  view-prefetch_keys :
      (j : K) (ks : List K) (s : store.State)
      → laws.view j (prefetch_keys scheduler store ks s) ≡ laws.view j s
  unfolding prefetch_keys
  view-prefetch_keys j [] s = laws.view-prefetch j [] s
  view-prefetch_keys j (k ∷ ks) s =
      laws.view-prefetch_chain_multi j (k ∷ ks) 8 (store.prefetch (k ∷ ks) s)
      ∙ laws.view-prefetch j (k ∷ ks) s

  pub load_kv_lem :
      (ks : List K) (c : ProjectKvConnector scheduler store)
      → let (c', r) = load_kv scheduler store ks c in
        ((j : K) → laws.view j c'.store_state ≡ laws.view j c.store_state)
        × ((j : K)
            → lookup j r.loaded ≡ (if ltb 0 (count j ks) then laws.view j c.store_state else none))
        × (r.missing ≡ absent ks c.store_state)
  unfolding load_kv lookup
  load_kv_lem ks c =
      let s =
        if c.config.prefix_reuse_enabled
        then prefetch_keys scheduler store ks c.store_state
        else c.store_state in
      let same_view : (j : K) → laws.view j s ≡ laws.view j c.store_state =
        λ j. ground (arith, view-prefetch_keys j ks c.store_state) in
      let h = load_all-Loads ks s (record { loaded = []; missing = [] }) in
      (
        λ j. h.kept j ∙ same_view j,
        λ j. h.loaded j ∙ ground (arith, same_view j),
        h.missing ∙ absent-view ks c.store_state s same_view,
      )
