-- ===== src/Policy/S3FifoPrefix.antt =====
-- python/bench/policies.py: `S3FifoPrefixPolicy`. Blocks deep in a request bypass the cache.
pub mod Laws
use mooncake_kvcache_tiered.Base.{
  ℕ, ◌/◌, max, Bool, true, false, not, ◌&&◌, List, [], Key, Result, ok, if◌then◌else◌, ltb, ◌>>=◌,
}
use mooncake_kvcache_tiered.Dict.{contains}
use mooncake_kvcache_tiered.Policy.S3Fifo
use mooncake_kvcache_tiered.Policy.S3Fifo.{S3FifoPolicy}

pub record S3FifoPrefixPolicy (K : Type 0) : Type 0 where
  pub base : S3FifoPolicy K
  pub admit_depth : ℕ

abbrev pub admit_depth_factor : ℕ
admit_depth_factor = 4

module _ {K : Type 0} where
  unfoldable pub init : ℕ → Result (S3FifoPrefixPolicy K)
  init capacity = do
    base ← S3Fifo.init capacity
    ok (record { base = base; admit_depth = max 8 (capacity / admit_depth_factor) })

module _ {K : Type 0} ⦃key : Key K⦄ where
  -- The three tests of `access` before it calls the base class.
  unfoldable pub bypasses : K → ℕ → S3FifoPrefixPolicy K → Bool
  bypasses k block_index s =
      (not (contains k s.base.small) && not (contains k s.base.main))
      && (ltb s.admit_depth block_index && not (contains k s.base.ghost))

  unfoldable pub access : K → ℕ → S3FifoPrefixPolicy K → S3FifoPrefixPolicy K × List K × Bool
  access k block_index s =
      let (base, gone, hit) = S3Fifo.access k block_index s.base in
      if bypasses k block_index s then (s, [], false) else (record s { base = base }, gone, hit)

  -- The inherited methods.
  abbrev pub contains_key : K → S3FifoPrefixPolicy K → Bool
  contains_key k s = S3Fifo.contains_key k s.base

  abbrev pub touch : K → S3FifoPrefixPolicy K → S3FifoPrefixPolicy K
  touch k s = record s { base = S3Fifo.touch k s.base }

  abbrev pub admit : K → S3FifoPrefixPolicy K → S3FifoPrefixPolicy K × List K
  admit k s = let (base, gone) = S3Fifo.admit k s.base in (record s { base = base }, gone)

  abbrev pub remove : K → S3FifoPrefixPolicy K → S3FifoPrefixPolicy K × Bool
  remove k s = let (base, found) = S3Fifo.remove k s.base in (record s { base = base }, found)
