-- ===== src/Policy/PrefixLru.antt =====
-- python/bench/policies.py: `PrefixAwareLRUPolicy`. The store maps a key to its depth in the
-- request that used it last, the least recently used key first.
pub mod Evict
pub mod Laws
use mooncake_kvcache_tiered.Base.{
  ℕ, zero, suc, ◌≤◌, ◌<◌, Bool, true, false, Option, none, some, List, [], ◌∷◌, Key, value_error,
  Result, ok, raise, if◌then◌else◌, length, ltb, take,
}
use mooncake_kvcache_tiered.Dict.{Dict, Distinct, contains, set, move_to_end}
use mooncake_kvcache_tiered.Dict

pub record PrefixLruPolicy (K : Type 0) : Type 0 where
  pub capacity : ℕ
  pub store : Dict K ℕ

abbrev pub candidate_window : ℕ
candidate_window = 16

module _ {K : Type 0} where
  unfoldable pub init : ℕ → Result (PrefixLruPolicy K)
  init capacity =
      if ltb 0 capacity then ok (record { capacity = capacity; store = [] }) else raise value_error

  abbrev pub deeper : K × ℕ → K × ℕ → K × ℕ
  deeper best e = if ltb best.1 e.1 then e else best

  -- `max(..., key=depth)`: the first of the deepest entries.
  unfoldable pub deepest : K × ℕ → Dict K ℕ → K × ℕ
  deepest best [] = best
  deepest best (e ∷ d) = deepest (deeper best e) d

  unfoldable pub choose : Dict K ℕ → Option (K × ℕ)
  choose [] = none
  choose (e ∷ d) = some (deepest e d)

  -- The victim of `_evict`.
  unfoldable pub victim : Dict K ℕ → Option (K × ℕ)
  unfolding choose
  victim d = choose (take candidate_window d)

module _ {K : Type 0} ⦃key : Key K⦄ where
  -- The loop of `admit`, which calls `_evict`, on fuel.
  unfoldable pub evict_over : ℕ → ℕ → Dict K ℕ → Dict K ℕ × List K
  evict_over zero cap d = (d, [])
  evict_over (suc fuel) cap d = elim (victim d) [
    | none ↦ (d, [])
    | some e ↦
        let (kept, gone) = evict_over fuel cap (Dict.remove e.0 d) in
        if ltb cap (length d) then (kept, e.0 ∷ gone) else (d, [])
  ]

  unfoldable pub admit_at : K → ℕ → PrefixLruPolicy K → PrefixLruPolicy K × List K
  admit_at k block_index s =
      let store = move_to_end k (set k block_index s.store) in
      let (kept, gone) = evict_over (length store) s.capacity store in
      (record s { store = kept }, gone)

  -- `admit` with its default depth, as the simulator calls it.
  unfoldable pub admit : K → PrefixLruPolicy K → PrefixLruPolicy K × List K
  unfolding admit_at
  admit k s = admit_at k 0 s

  unfoldable pub contains_key : K → PrefixLruPolicy K → Bool
  contains_key k s = contains k s.store

  unfoldable pub touch : K → PrefixLruPolicy K → PrefixLruPolicy K
  touch k s = if contains k s.store then record s { store = move_to_end k s.store } else s

  unfoldable pub access : K → ℕ → PrefixLruPolicy K → PrefixLruPolicy K × List K × Bool
  access k block_index s =
      if contains k s.store
      then (record s { store = set k block_index (move_to_end k s.store) }, [], true)
      else (let (s', gone) = admit_at k block_index s in (s', gone, false))

  unfoldable pub remove : K → PrefixLruPolicy K → PrefixLruPolicy K × Bool
  remove k s = (record s { store = Dict.remove k s.store }, contains k s.store)

  pub record IsValid (s : PrefixLruPolicy K) : Type 0 where
    pub positive : 0 < s.capacity
    pub bounded : length s.store ≤ s.capacity
    pub distinct : Distinct s.store
