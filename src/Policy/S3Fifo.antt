-- ===== src/Policy/S3Fifo.antt =====
-- python/bench/policies.py: `S3FifoPolicy`. `small` and `main` map a key to its frequency, the
-- oldest entry first; `ghost` remembers keys that were evicted after a single use.
pub mod Queues
pub mod Scan
pub mod Methods
pub mod Laws
pub mod Admit
use mooncake_kvcache_tiered.Base.{
  ℕ, zero, suc, ◌+◌, ◌-◌, ◌*◌, ◌/◌, ◌≤◌, ◌<◌, min, max, Bool, true, false, ◌||◌, none, some, List,
  [], ◌∷◌, ◌++◌, ◌≡◌, Key, value_error, Result, ok, raise, if◌then◌else◌, length, ltb,
}
use mooncake_kvcache_tiered.Dict.{Dict, lookup, contains, set, occurs}
use mooncake_kvcache_tiered.Dict
use mooncake_kvcache_tiered.Dict.Trim.{trim}

pub record S3FifoPolicy (K : Type 0) : Type 0 where
  pub capacity : ℕ
  pub small_cap : ℕ
  pub main_cap : ℕ
  pub ghost_cap : ℕ
  pub small : Dict K ℕ
  pub main : Dict K ℕ
  pub ghost : Dict K (Unit {0})

module _ {K : Type 0} where
  unfoldable pub init : ℕ → Result (S3FifoPolicy K)
  init capacity =
      let small_cap = max 1 (capacity / 10) in
      if ltb 0 capacity
      then ok (record {
        capacity = capacity;
        small_cap = small_cap;
        main_cap = capacity - small_cap;
        ghost_cap = capacity * 2;
        small = [];
        main = [];
        ghost = [];
      })
      else raise value_error

  -- The rounds that the loop of `_insert_main` can make: each lowers a frequency or drops a key.
  unfoldable pub weight : Dict K ℕ → ℕ
  weight [] = 0
  weight ((_, freq) ∷ d) = suc freq + weight d

module _ {K : Type 0} ⦃key : Key K⦄ where
  -- `d[k] = min(d[k] + 1, 3)` for a key that is in `d`.
  unfoldable pub bump : K → Dict K ℕ → Dict K ℕ
  bump k d = elim (lookup k d) [ none ↦ d | some freq ↦ set k (min (freq + 1) 3) d ]

  -- A key of the main queue with a frequency goes back to the end with one less.
  unfoldable pub requeue : K → ℕ → Dict K ℕ → Dict K ℕ
  requeue victim freq d = if ltb 0 freq then set victim (freq - 1) d else d

  -- One without is evicted, before the later ones.
  unfoldable pub evicted : K → ℕ → List K → List K
  evicted victim freq gone = if ltb 0 freq then gone else victim ∷ gone

  -- The loop of `_insert_main` on fuel.
  unfoldable pub shrink_main : ℕ → ℕ → Dict K ℕ → Dict K ℕ × List K
  shrink_main zero cap d = (d, [])
  shrink_main (suc fuel) cap [] = ([], [])
  shrink_main (suc fuel) cap ((victim, freq) ∷ d) =
      let (kept, gone) = shrink_main fuel cap (requeue victim freq d) in
      if ltb cap (length ((victim, freq) ∷ d))
      then (kept, evicted victim freq gone)
      else ((victim, freq) ∷ d, [])

  unfoldable pub insert_main : K → S3FifoPolicy K → S3FifoPolicy K × List K
  insert_main k s =
      let main = set k 0 s.main in
      let (kept, gone) = shrink_main (weight main) s.main_cap main in
      (record s { main = kept }, gone)

  -- What `_insert_small` does with a key that it takes out of the small queue.
  unfoldable pub pass_on : K → ℕ → S3FifoPolicy K → S3FifoPolicy K × List K
  pass_on victim freq s =
      if ltb 0 freq
      then insert_main victim s
      else (record s { ghost = (trim s.ghost_cap (set victim tt s.ghost)).0 }, victim ∷ [])

  -- The loop of `_insert_small` over the entries of the small queue.
  unfoldable pub shrink_small : Dict K ℕ → S3FifoPolicy K → S3FifoPolicy K × List K
  shrink_small [] s = (record s { small = [] }, [])
  shrink_small ((victim, freq) ∷ d) s =
      let (s', gone) = pass_on victim freq s in
      let (s'', more) = shrink_small d s' in
      if ltb s.small_cap (length ((victim, freq) ∷ d))
      then (s'', gone ++ more)
      else (record s { small = (victim, freq) ∷ d }, [])

  unfoldable pub insert_small : K → S3FifoPolicy K → S3FifoPolicy K × List K
  insert_small k s = shrink_small (set k 0 s.small) s

  unfoldable pub contains_key : K → S3FifoPolicy K → Bool
  contains_key k s = contains k s.small || contains k s.main

  unfoldable pub admit : K → S3FifoPolicy K → S3FifoPolicy K × List K
  unfolding contains_key
  admit k s =
      if contains_key k s
      then (s, [])
      else if contains k s.ghost
      then insert_main k (record s { ghost = Dict.remove k s.ghost })
      else insert_small k s

  unfoldable pub touch : K → S3FifoPolicy K → S3FifoPolicy K
  touch k s =
      if contains k s.small
      then record s { small = bump k s.small }
      else if contains k s.main
      then record s { main = bump k s.main }
      else s

  unfoldable pub access : K → ℕ → S3FifoPolicy K → S3FifoPolicy K × List K × Bool
  access k block_index s =
      if contains k s.small
      then (record s { small = bump k s.small }, [], true)
      else if contains k s.main
      then (record s { main = bump k s.main }, [], true)
      else (let (s', gone) = admit k s in (s', gone, false))

  -- The second queue is looked at only if the first does not have the key.
  unfoldable pub remove : K → S3FifoPolicy K → S3FifoPolicy K × Bool
  remove k s =
      if contains k s.small
      then (record s { small = Dict.remove k s.small }, true)
      else (record s { main = Dict.remove k s.main }, contains k s.main)

  abbrev pub resident : K → S3FifoPolicy K → ℕ
  resident k s = occurs k s.small + occurs k s.main

  pub record IsValid (s : S3FifoPolicy K) : Type 0 where
    pub positive : 0 < s.small_cap
    pub split : s.small_cap + s.main_cap ≡ s.capacity
    pub small_bounded : length s.small ≤ s.small_cap
    pub main_bounded : length s.main ≤ s.main_cap
    pub ghost_bounded : length s.ghost ≤ s.ghost_cap
    -- No key stands twice in the three queues.
    pub apart : (j : K) → occurs j s.small + occurs j s.main + occurs j s.ghost ≤ 1
