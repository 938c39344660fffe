-- ===== src/Tests/Transfers.antt =====
-- The connector at a store in memory.
use Prim.Native.String.{String}
use mooncake_kvcache_tiered.Base.{
  ℕ, ◌≡◌, ◌<◌, refl, true, false, none, some, List, [], ◌∷◌, count, ok, nat_key,
}
use mooncake_kvcache_tiered.Dict.{lookup}
use mooncake_kvcache_tiered.Connector.{
  Scheduler, TieredStore, ProjectKvConnector, store_kv, load_kv,
}
use mooncake_kvcache_tiered.Connector.Store.{StoreLaws, memory_store, memory_store_laws}
use mooncake_kvcache_tiered.Connector.Puts.{latest}
use mooncake_kvcache_tiered.Connector.RoundTrip.{load_kv-store_kv}

-- The scheduler remembers the registrations.
abbrev registry : Scheduler ℕ
registry = record { State = List (ℕ × String); register_block = λ k node t. (k, node) ∷ t }

abbrev memory : TieredStore ℕ ℕ
memory = memory_store

abbrev memory_laws : StoreLaws memory
memory_laws = memory_store_laws

abbrev connector : ProjectKvConnector registry memory
connector = record {
  config = record {
    prefix_reuse_enabled = true;
    capabilities = record { rdma = false; gpu_direct = false; nvme = true };
  };
  self_node = "127.0.0.1:0";
  scheduler_state = [];
  store_state = ((1, 10) ∷ [], []);
}

load_kv-store_kv_example :
    (c' : ProjectKvConnector registry memory) × (store_kv registry memory
        (2 ∷ 1 ∷ [])
        (20 ∷ 11 ∷ [])
        connector
      ≡ ok c')
    × ((load_kv registry memory (2 ∷ 1 ∷ []) c').1.missing ≡ [])
    × ((j : ℕ)
        → 0 < count j (2 ∷ 1 ∷ [])
        → (v : ℕ) × (lookup j (load_kv registry memory (2 ∷ 1 ∷ []) c').1.loaded ≡ some v)
          × (latest j (2 ∷ 1 ∷ []) (20 ∷ 11 ∷ []) none ≡ some v))
load_kv-store_kv_example =
    load_kv-store_kv registry memory memory_laws (2 ∷ 1 ∷ []) (20 ∷ 11 ∷ []) connector refl
