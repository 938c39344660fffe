-- ===== src/Offload/State.antt =====
-- python/vllm_adapter/offloading_spec.py: the fields of `S3FIFOCachePolicy`. Its keys and blocks are
-- those of vLLM: `K` with an equality, and any type `B`. A set of keys is a dictionary without values.
use mooncake_kvcache_tiered.Base.{ℕ, ◌*◌, ◌/◌, max, Bool, true, false, Option, none, some, List, []}
use mooncake_kvcache_tiered.Dict.{Dict}

-- What an entry of `ghost` holds: Python's `None`, which is `none` here. The type has another
-- value, so that the test `is not None` in `insert` is not decided by the type.
abbrev pub NoneValue : Type 0
NoneValue = Option (Unit {0})

abbrev pub is_not_none : NoneValue → Bool
is_not_none none = false
is_not_none (some _) = true

pub record S3FifoCachePolicy (K B : Type 0) : Type 0 where
  pub small_budget : ℕ
  pub ghost_capacity : ℕ
  pub blocks : Dict K B
  pub small : Dict K (Unit {0})
  pub main : Dict K (Unit {0})
  pub freq : Dict K ℕ
  pub evictable : Dict K (Unit {0})
  pub ghost : Dict K NoneValue

-- `_FREQ_CAP`
abbrev pub freq_cap : ℕ
freq_cap = 3

-- The variables of the loop of `evict`. A victim comes with whether it is of the small queue.
pub record Eviction (K : Type 0) : Type 0 where
  pub small : Dict K (Unit {0})
  pub main : Dict K (Unit {0})
  pub freq : Dict K ℕ
  pub victims : List (K × Bool)
  pub skipped_small : List K
  pub skipped_main : List K

module _ {K B : Type 0} where
  unfoldable pub init : ℕ → S3FifoCachePolicy K B
  init capacity = record {
    small_budget = max 1 (capacity / 10);
    ghost_capacity = max 1 (2 * capacity);
    blocks = [];
    small = [];
    main = [];
    freq = [];
    evictable = [];
    ghost = [];
  }

  unfoldable pub clear : S3FifoCachePolicy K B → S3FifoCachePolicy K B
  clear s = record s { blocks = []; small = []; main = []; freq = []; evictable = []; ghost = [] }
