-- ===== src/Dict.antt =====
-- Python's dictionaries, which keep the order of insertion, and the methods of `OrderedDict` that
-- the caches use. An entry is a pair of a key and a value; the first entry is the oldest.
pub mod Laws
pub mod Trim
use mooncake_kvcache_tiered.Base.{
  ℕ, ◌≤◌, Bool, true, false, Option, none, some, List, [], ◌∷◌, ◌++◌, Key, ite, same, ◌+◌,
}

abbrev pub Dict : Type 0 → Type 0 → Type 0
Dict K V = List (K × V)

module _ {K V : Type 0} ⦃key : Key K⦄ where
  -- `d.get(k)`
  unfoldable pub lookup : K → Dict K V → Option V
  lookup k [] = none
  lookup k ((j, v) ∷ d) = ite (key.dec k j) (some v) (lookup k d)

  -- `k in d`
  unfoldable pub contains : K → Dict K V → Bool
  contains k [] = false
  contains k ((j, _) ∷ d) = ite (key.dec k j) true (contains k d)

  -- `d[k] = v`: an existing key keeps its place, a new one goes to the end.
  unfoldable pub set : K → V → Dict K V → Dict K V
  set k v [] = (k, v) ∷ []
  set k v ((j, w) ∷ d) = ite (key.dec k j) ((j, v) ∷ d) ((j, w) ∷ set k v d)

  -- `d.pop(k, None)`: an absent key changes nothing.
  unfoldable pub remove : K → Dict K V → Dict K V
  remove k [] = []
  remove k ((j, w) ∷ d) = ite (key.dec k j) d ((j, w) ∷ remove k d)

  -- `d.move_to_end(k)` for a present key. Every call follows a test or a write of the key.
  unfoldable pub move_to_end : K → Dict K V → Dict K V
  move_to_end k d = elim (lookup k d) [ none ↦ d | some v ↦ remove k d ++ (k, v) ∷ [] ]

  -- How many entries have the key.
  unfoldable pub occurs : K → Dict K V → ℕ
  occurs k [] = 0
  occurs k ((j, _) ∷ d) = same k j + occurs k d

  -- No key has two entries.
  abbrev pub Distinct : Dict K V → Type 0
  Distinct d = (j : K) → occurs j d ≤ 1
