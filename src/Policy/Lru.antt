-- ===== src/Policy/Lru.antt =====
-- python/bench/policies.py: `LRUPolicy`. The store holds the least recently used key first.
pub mod Laws
pub mod Newest
pub mod Recency
pub mod Inclusion
use mooncake_kvcache_tiered.Base.{
  ℕ, ◌≤◌, ◌<◌, Bool, List, [], Key, Error, value_error, Result, ok, raise, if◌then◌else◌, length,
  ltb, true, false,
}
use mooncake_kvcache_tiered.Dict.{Dict, Distinct, contains, set, move_to_end, occurs}
use mooncake_kvcache_tiered.Dict
use mooncake_kvcache_tiered.Dict.Trim.{trim}

pub record LruPolicy (K : Type 0) : Type 0 where
  pub capacity : ℕ
  pub store : Dict K (Unit {0})

module _ {K : Type 0} where
  -- `capacity <= 0` is refused by the base class.
  unfoldable pub init : ℕ → Result (LruPolicy K)
  init capacity =
      if ltb 0 capacity then ok (record { capacity = capacity; store = [] }) else raise value_error

module _ {K : Type 0} ⦃key : Key K⦄ where
  unfoldable pub admit : K → LruPolicy K → LruPolicy K × List K
  admit k s =
      let (kept, gone) = trim s.capacity (move_to_end k (set k tt s.store)) in
      (record s { store = kept }, gone)

  unfoldable pub contains_key : K → LruPolicy K → Bool
  contains_key k s = contains k s.store

  unfoldable pub touch : K → LruPolicy K → LruPolicy K
  touch k s = if contains k s.store then record s { store = move_to_end k s.store } else s

  unfoldable pub access : K → ℕ → LruPolicy K → LruPolicy K × List K × Bool
  unfolding admit
  access k block_index s =
      if contains k s.store
      then (record s { store = move_to_end k s.store }, [], true)
      else (let (s', gone) = admit k s in (s', gone, false))

  unfoldable pub remove : K → LruPolicy K → LruPolicy K × Bool
  remove k s = (record s { store = Dict.remove k s.store }, contains k s.store)

  pub record IsValid (s : LruPolicy K) : Type 0 where
    pub positive : 0 < s.capacity
    pub bounded : length s.store ≤ s.capacity
    pub distinct : Distinct s.store
