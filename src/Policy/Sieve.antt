-- ===== src/Policy/Sieve.antt =====
-- python/bench/policies.py: `SievePolicy`. The store maps a key to its visited bit, in the order
-- of insertion; `cursor` is the key where the hand of the eviction stands.
pub mod Laws
pub mod Methods
pub mod Sweep
use mooncake_kvcache_tiered.Base.{
  ℕ, zero, suc, ◌+◌, ◌%◌, ◌≤◌, ◌<◌, Bool, true, false, Option, none, some, List, [], ◌∷◌, Key,
  value_error, Result, ok, raise, if◌then◌else◌, length, get_elem?, leb, ltb, ite,
}
use mooncake_kvcache_tiered.Dict.{Dict, Distinct, lookup, contains, set}
use mooncake_kvcache_tiered.Dict
use mooncake_kvcache_tiered.Dict.Trim.{keys}

pub record SievePolicy (K : Type 0) : Type 0 where
  pub capacity : ℕ
  pub store : Dict K Bool
  pub cursor : Option K

module _ {K : Type 0} where
  unfoldable pub init : ℕ → Result (SievePolicy K)
  init capacity =
      if ltb 0 capacity
      then ok (record { capacity = capacity; store = []; cursor = none })
      else raise value_error

  -- The entries that a sweep would pass.
  unfoldable pub visited_count : Dict K Bool → ℕ
  visited_count [] = 0
  visited_count ((_, visited) ∷ d) = (if visited then 1 else 0) + visited_count d

-- What the loop of `_evict` ends with.
pub record Swept (K : Type 0) : Type 0 where
  pub store : Dict K Bool
  pub cursor : Option K
  pub victim : K

module _ {K : Type 0} ⦃key : Key K⦄ where
  -- `d.get(k, False)`
  unfoldable pub is_visited : K → Dict K Bool → Bool
  is_visited k d = elim (lookup k d) [ none ↦ false | some visited ↦ visited ]

  -- `ks.index(k)` for a key that is in the list.
  unfoldable pub index_of : K → List K → ℕ
  index_of k [] = 0
  index_of k (j ∷ ks) = ite (key.dec k j) 0 (suc (index_of k ks))

  -- The hand starts where it stopped, if that key is still there.
  unfoldable pub start : Option K → Dict K Bool → ℕ
  start none d = 0
  start (some k) d = if contains k d then index_of k (keys d) else 0

  -- The loop of `_evict` over the keys `ks` that it took at its start, on fuel. A visited key loses
  -- its bit and is passed; the first one without it is the victim.
  unfoldable pub sweep : ℕ → List K → ℕ → Dict K Bool → Option (Swept K)
  sweep zero ks i d = none
  sweep (suc fuel) ks i d = elim (get_elem? ks (i % length ks)) [
    | none ↦ none
    | some k ↦
        let rest = sweep fuel ks (i + 1) (set k false d) in
        if is_visited k d
        then rest
        else some (record {
          store = Dict.remove k d;
          cursor = if ltb 1 (length ks) then get_elem? ks ((i + 1) % length ks) else none;
          victim = k;
        })
  ]

  -- Nothing happens to an empty store; else each passed key had its bit set, which bounds the fuel.
  unfoldable pub evict : SievePolicy K → SievePolicy K × List K
  evict s =
      elim (sweep (visited_count s.store + 1) (keys s.store) (start s.cursor s.store) s.store) [
        | none ↦ (s, [])
        | some r ↦ (record s { store = r.store; cursor = r.cursor }, r.victim ∷ [])
      ]

  -- `if len(store) >= capacity: _evict()`
  unfoldable pub make_room : SievePolicy K → SievePolicy K × List K
  make_room s = if leb s.capacity (length s.store) then evict s else (s, [])

  unfoldable pub admit : K → SievePolicy K → SievePolicy K × List K
  admit k s =
      let (s', gone) = make_room s in
      if contains k s.store then (s, []) else (record s' { store = set k false s'.store }, gone)

  unfoldable pub contains_key : K → SievePolicy K → Bool
  contains_key k s = contains k s.store

  unfoldable pub touch : K → SievePolicy K → SievePolicy K
  touch k s = if contains k s.store then record s { store = set k true s.store } else s

  unfoldable pub access : K → ℕ → SievePolicy K → SievePolicy K × List K × Bool
  access k block_index s =
      if contains k s.store
      then (record s { store = set k true s.store }, [], true)
      else (let (s', gone) = admit k s in (s', gone, false))

  unfoldable pub remove : K → SievePolicy K → SievePolicy K × Bool
  remove k s = (record s { store = Dict.remove k s.store }, contains k s.store)

  pub record IsValid (s : SievePolicy K) : Type 0 where
    pub positive : 0 < s.capacity
    pub bounded : length s.store ≤ s.capacity
    pub distinct : Distinct s.store
