-- ===== src/Connector.antt =====
-- python/vllm_adapter/connector.py: the connector between vLLM, the tiered store and the scheduler.
-- The keys are `BlockKey`s, of which only the equality matters; `V` are the payloads.
pub mod Store
pub mod Puts
pub mod Loads
pub mod RoundTrip
use Prim.Native.String.{String}
use mooncake_kvcache_tiered.Base.{
  ℕ, Bool, true, false, Option, none, some, List, [], ◌∷◌, ◌++◌, Key, if◌then◌else◌, length, ◌==◌,
  Result, ok, raise, value_error,
}
use mooncake_kvcache_tiered.Dict.{Dict, set}

pub record Capabilities : Type 0 where
  pub rdma : Bool
  pub gpu_direct : Bool
  pub nvme : Bool

pub record ConnectorConfig : Type 0 where
  pub prefix_reuse_enabled : Bool
  pub capabilities : Capabilities

pub record LoadResult (K V : Type 0) : Type 0 where
  pub loaded : Dict K V
  pub missing : List K

-- The protocol `TieredStore`, but `exists` and `prefetch_chain`, which the connector does not call.
-- A `get` may move the block between the tiers.
pub record TieredStore (K V : Type 0) : Type 1 where
  pub State : Type 0
  pub put : K → V → State → State
  pub get : K → State → State × Option V
  pub prefetch : List K → State → State
  pub record_sequence : List K → State → State
  pub prefetch_chain_multi : List K → ℕ → State → State × ℕ

-- The protocol `Scheduler`, but `route`, which the connector does not call.
pub record Scheduler (K : Type 0) : Type 1 where
  pub State : Type 0
  pub register_block : K → String → State → State

module _ {K V : Type 0} ⦃key : Key K⦄ (scheduler : Scheduler K) (store : TieredStore K V) where
  -- `ProjectKVConnector`, with the states of the objects that it holds.
  pub record ProjectKvConnector : Type 0 where
    pub config : ConnectorConfig
    pub self_node : String
    pub scheduler_state : scheduler.State
    pub store_state : store.State

  -- The loop of `store_kv` over the zipped lists.
  unfoldable pub put_all : List K → List V → ProjectKvConnector → ProjectKvConnector
  put_all [] vs c = c
  put_all (k ∷ ks) [] c = c
  put_all (k ∷ ks) (v ∷ vs) c = put_all ks vs (record c {
    store_state = store.put k v c.store_state;
    scheduler_state = scheduler.register_block k c.self_node c.scheduler_state;
  })

  unfoldable pub store_kv : List K → List V → ProjectKvConnector → Result ProjectKvConnector
  store_kv ks vs c =
      if length ks == length vs
      then (let c' = put_all ks vs c in
          ok (
            if c.config.prefix_reuse_enabled
            then record c' { store_state = store.record_sequence ks c'.store_state }
            else c'))
      else raise value_error

  -- The loop of `load_kv`.
  unfoldable pub load_all : List K → store.State → LoadResult K V → store.State × LoadResult K V
  load_all [] s r = (s, r)
  load_all (k ∷ ks) s r =
      let (s', payload) = store.get k s in
      load_all ks s' (elim payload [
        | none ↦ record r { missing = r.missing ++ k ∷ [] }
        | some v ↦ record r { loaded = set k v r.loaded }
      ])

  -- The prefetching before it. No chain is followed without a key, and its budget is 8.
  unfoldable pub prefetch_keys : List K → store.State → store.State
  prefetch_keys [] s = store.prefetch [] s
  prefetch_keys (k ∷ ks) s = (store.prefetch_chain_multi (k ∷ ks) 8 (store.prefetch (k ∷ ks) s)).0

  unfoldable pub load_kv : List K → ProjectKvConnector → ProjectKvConnector × LoadResult K V
  load_kv ks c =
      let s =
        if c.config.prefix_reuse_enabled then prefetch_keys ks c.store_state else c.store_state in
      let (s', r) = load_all ks s (record { loaded = []; missing = [] }) in
      (record c { store_state = s' }, r)

  unfoldable pub supports : ProjectKvConnector → Capabilities
  supports c = c.config.capabilities
