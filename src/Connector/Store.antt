-- ===== src/Connector/Store.antt =====
-- What the connector relies on of a store, and a store in memory that has it.
use mooncake_kvcache_tiered.Base.{ℕ, ◌≡◌, refl, Option, some, List, Key, ite}
use mooncake_kvcache_tiered.Dict.{Dict, lookup, set}
use mooncake_kvcache_tiered.Dict.Laws.{lookup-set}
use mooncake_kvcache_tiered.Connector.{TieredStore}

-- `view` is what a `get` would return. To put a block changes the view of its key alone; to read, to
-- prefetch and to record move blocks between the tiers at most.
pub record StoreLaws {K V : Type 0} ⦃key : Key K⦄ (store : TieredStore K V) : Type 0 where
  pub view : K → store.State → Option V
  pub get-view : (k : K) (s : store.State) → (store.get k s).1 ≡ view k s
  pub view-get : (j k : K) (s : store.State) → view j (store.get k s).0 ≡ view j s
  pub view-put :
      (j k : K) (v : V) (s : store.State)
      → view j (store.put k v s) ≡ ite (key.dec j k) (some v) (view j s)
  pub view-prefetch :
      (j : K) (ks : List K) (s : store.State) → view j (store.prefetch ks s) ≡ view j s
  pub view-record_sequence :
      (j : K) (ks : List K) (s : store.State) → view j (store.record_sequence ks s) ≡ view j s
  pub view-prefetch_chain_multi :
      (j : K) (ks : List K) (n : ℕ) (s : store.State)
      → view j (store.prefetch_chain_multi ks n s).0 ≡ view j s

module _ {K V : Type 0} ⦃key : Key K⦄ where
  -- A dictionary of the blocks, with the last recorded sequence.
  abbrev pub memory_store : TieredStore K V
  memory_store = record {
    State = Dict K V × List K;
    put = λ k v s. (set k v s.0, s.1);
    get = λ k s. (s, lookup k s.0);
    prefetch = λ ks s. s;
    record_sequence = λ ks s. (s.0, ks);
    prefetch_chain_multi = λ ks n s. (s, 0);
  }

  abbrev pub memory_store_laws : StoreLaws memory_store
  memory_store_laws = record {
    view = λ k s. lookup k s.0;
    get-view = λ k s. refl;
    view-get = λ j k s. refl;
    view-put = λ j k v s. lookup-set j k v s.0;
    view-prefetch = λ j ks s. refl;
    view-record_sequence = λ j ks s. refl;
    view-prefetch_chain_multi = λ j ks n s. refl;
  }
