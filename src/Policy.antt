-- ===== src/Policy.antt =====
-- python/bench/policies.py: the interface of the cache policies. `CachePolicy` gives the methods
-- of the base class, with the keys that `on_evict` is called with as a list in the order of the
-- calls, and the laws that the simulator of `bench/tiered.py` relies on.
pub mod Lru
pub mod Sieve
pub mod PrefixLru
pub mod S3Fifo
pub mod S3FifoPrefix
pub mod Registry
pub mod Calls
use mooncake_kvcache_tiered.Base.{
  ℕ, ◌+◌, ◌-◌, ◌≤◌, max, ◌≡◌, Bool, List, Key, same, count, length, ltb, ◌<◌, Result, ok, raise,
  value_error,
}

pub record CachePolicy (K : Type 0) ⦃key : Key K⦄ : Type 1 where
  pub State : Type 0
  -- The constructor, which refuses the capacity 0.
  pub init : ℕ → Result State
  -- The methods. `access` returns whether the key was there.
  pub access : K → ℕ → State → State × List K × Bool
  pub contains : K → State → Bool
  pub touch : K → State → State
  pub admit : K → State → State × List K
  pub remove : K → State → State × Bool
  -- The number of blocks, its limit, and how often a key is held.
  pub capacity : State → ℕ
  pub size : State → ℕ
  pub occurs : K → State → ℕ
  pub IsValid : State → Type 0
  pub init_zero : init 0 ≡ raise value_error
  pub init_positive :
      (cap : ℕ)
      → 0 < cap
      → (s : State) × (init cap ≡ ok s)
        × IsValid s
        × (capacity s ≡ cap)
        × ((k : K) → occurs k s ≡ 0)
  pub size-le-capacity : (s : State) → IsValid s → size s ≤ capacity s
  pub occurs-le : (k : K) (s : State) → IsValid s → occurs k s ≤ 1
  pub occurs-le-size : (k : K) (s : State) → occurs k s ≤ size s
  pub contains-occurs : (k : K) (s : State) → contains k s ≡ ltb 0 (occurs k s)
  pub access-IsValid : (k : K) (i : ℕ) (s : State) → IsValid s → IsValid (access k i s).0
  pub access-contains : (k : K) (i : ℕ) (s : State) → (access k i s).2 ≡ contains k s
  pub capacity-access :
      (k : K) (i : ℕ) (s : State) → IsValid s → capacity (access k i s).0 ≡ capacity s
  -- An access brings in no key but its own, and what is no longer held was passed to `on_evict`.
  pub occurs-access :
      (j k : K) (i : ℕ) (s : State)
      → IsValid s
      → (occurs j s ≤ occurs j (access k i s).0 + count j (access k i s).1)
        × (occurs j (access k i s).0 + count j (access k i s).1 ≤ max (same j k) (occurs j s))
  pub touch-IsValid : (k : K) (s : State) → IsValid s → IsValid (touch k s)
  pub capacity-touch : (k : K) (s : State) → capacity (touch k s) ≡ capacity s
  pub occurs-touch : (j k : K) (s : State) → occurs j (touch k s) ≡ occurs j s
  pub admit-IsValid : (k : K) (s : State) → IsValid s → IsValid (admit k s).0
  pub capacity-admit : (k : K) (s : State) → IsValid s → capacity (admit k s).0 ≡ capacity s
  -- An admitted key is held once; what is no longer held was passed to `on_evict`.
  pub occurs-admit :
      (j k : K) (s : State)
      → IsValid s
      → occurs j (admit k s).0 + count j (admit k s).1 ≡ max (same j k) (occurs j s)
  -- An admission evicts one block at most.
  pub length-admit : (k : K) (s : State) → IsValid s → length (admit k s).1 ≤ 1
  pub size-remove : (k : K) (s : State) → IsValid s → size (remove k s).0 ≡ size s - occurs k s
  pub remove-IsValid : (k : K) (s : State) → IsValid s → IsValid (remove k s).0
  pub capacity-remove : (k : K) (s : State) → capacity (remove k s).0 ≡ capacity s
  pub occurs-remove :
      (j k : K) (s : State) → IsValid s → occurs j (remove k s).0 ≡ occurs j s - same j k
  pub remove-contains : (k : K) (s : State) → IsValid s → (remove k s).1 ≡ contains k s
