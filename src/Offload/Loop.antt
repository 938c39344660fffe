-- ===== src/Offload/Loop.antt =====
-- python/vllm_adapter/offloading_spec.py: the loop of `evict`, round by round, and the helpers of the
-- methods that work on one dictionary.
use mathlib.Core.Bool.{beq}
use mooncake_kvcache_tiered.Base.{
  ℕ, zero, suc, ◌+◌, ◌-◌, min, Bool, true, false, ◌||◌, Option, none, some, List, [], ◌∷◌, ◌++◌,
  Key, if◌then◌else◌, length, ltb, eq,
}
use mooncake_kvcache_tiered.Dict.{Dict, lookup, contains, set, move_to_end, occurs}
use mooncake_kvcache_tiered.Dict
use mooncake_kvcache_tiered.Offload.State.{Eviction, NoneValue, freq_cap}

module _ {K : Type 0} ⦃key : Key K⦄ where
  -- `freq.get(k, 0)`
  unfoldable pub freq_of : K → Dict K ℕ → ℕ
  freq_of k d = elim (lookup k d) [ none ↦ 0 | some n ↦ n ]

  -- `k in ks` for a set given by its elements.
  unfoldable pub elem : K → List K → Bool
  elem k [] = false
  elem k (j ∷ ks) = eq k j || elem k ks

  -- One round on a key taken from the small queue, of which `rest` is left.
  unfoldable pub take_small : (K → Bool) → K → Dict K (Unit {0}) → Eviction K → Eviction K
  take_small blocked k rest e =
      if ltb 0 (freq_of k e.freq)
      then record e { small = rest; freq = set k 0 e.freq; main = set k tt e.main }
      else if blocked k
      then record e { small = rest; skipped_small = e.skipped_small ++ k ∷ [] }
      else record e { small = rest; victims = e.victims ++ (k, true) ∷ [] }

  -- One round on a key taken from the main queue.
  unfoldable pub take_main : (K → Bool) → K → Dict K (Unit {0}) → Eviction K → Eviction K
  take_main blocked k rest e =
      if ltb 0 (freq_of k e.freq)
      then record e { freq = set k (freq_of k e.freq - 1) e.freq; main = set k tt rest }
      else if blocked k
      then record e { main = rest; skipped_main = e.skipped_main ++ k ∷ [] }
      else record e { main = rest; victims = e.victims ++ (k, false) ∷ [] }

  -- The small queue is chosen when it is over its budget or the main queue is empty. `none` is
  -- the `break`, at two empty queues.
  unfoldable pub choose :
      (K → Bool) → ℕ → Dict K (Unit {0}) → Dict K (Unit {0}) → Eviction K → Option (Eviction K)
  choose blocked budget [] [] e = none
  choose blocked budget [] ((k, _) ∷ main) e = some (take_main blocked k main e)
  choose blocked budget ((j, _) ∷ small) [] e = some (take_small blocked j small e)
  choose blocked budget ((j, _) ∷ small) ((k, _) ∷ main) e =
      if ltb budget (suc (length small))
      then some (take_small blocked j small e)
      else some (take_main blocked k main e)

  unfoldable pub step : (K → Bool) → ℕ → Eviction K → Option (Eviction K)
  unfolding choose
  step blocked budget e = choose blocked budget e.small e.main e

  -- The rounds that a main queue can make.
  unfoldable pub main_weight : Dict K (Unit {0}) → Dict K ℕ → ℕ
  main_weight [] f = 0
  main_weight ((k, _) ∷ d) f = suc (freq_of k f) + main_weight d f

  -- `while len(victims) < n`, on fuel.
  unfoldable pub collect : ℕ → (K → Bool) → ℕ → ℕ → Eviction K → Eviction K
  collect zero blocked budget n e = e
  collect (suc fuel) blocked budget n e =
      if ltb (length e.victims) n
      then (elim (step blocked budget e) [ none ↦ e | some e' ↦ collect fuel blocked budget n e' ])
      else e

  -- `OrderedDict([(k, None) for k in ks] + list(d.items()))`, if `ks` is not empty.
  unfoldable pub put_back : List K → Dict K (Unit {0}) → Dict K (Unit {0})
  put_back [] d = d
  put_back (k ∷ ks) d = (k, tt) ∷ Dict.remove k (put_back ks d)

  unfoldable pub touch_key : K → Dict K ℕ → Dict K ℕ
  touch_key k d = elim (lookup k d) [ none ↦ d | some n ↦ set k (min (n + 1) freq_cap) d ]

  unfoldable pub touch_keys : List K → Dict K ℕ → Dict K ℕ
  touch_keys [] d = d
  touch_keys (k ∷ ks) d = touch_keys ks (touch_key k d)

  -- The victims of a queue, in the order in which they were taken.
  unfoldable pub victims_of : Bool → List (K × Bool) → List K
  victims_of b [] = []
  victims_of b ((k, from_small) ∷ vs) =
      let rest = victims_of b vs in if beq b from_small then k ∷ rest else rest

  -- `d.pop(k, None)`, of which `insert` asks whether it is not `None`.
  unfoldable pub pop_value : K → Dict K NoneValue → NoneValue
  pop_value k d = elim (lookup k d) [ none ↦ none | some v ↦ v ]
