-- ===== src/Driver.antt =====
-- python/bench/replay_cpp.py and python/bench/replay_multitenant.py: the drivers that replay a trace
-- over the compiled store. The store is given; a block key is its hash id.
pub mod Counts
pub mod Roomy
pub mod Tenants
pub mod Commands
use mooncake_kvcache_tiered.Base.{
  ℕ, zero, suc, ◌+◌, ◌*◌, max, Bool, true, false, Option, none, some, List, [], ◌∷◌, ◌++◌, map,
  if◌then◌else◌, ltb, length, take, get_elem?,
}
use mooncake_kvcache_tiered.Framework.{TraceRecord, Ratio}

-- The methods of the binding's `TieredStore` that the drivers call. A `put` has a tenant or none.
pub record BlockStore : Type 1 where
  pub State : Type 0
  pub prefetch_chain_multi : List ℕ → State → State
  pub exists : ℕ → State → Bool
  pub get : ℕ → State → State
  pub put : Option ℕ → ℕ → State → State
  pub record_sequence : List ℕ → State → State

-- `hits / total if total else 0.0`
unfoldable pub hit_rate : ℕ → ℕ → Ratio
hit_rate hits total =
    if ltb 0 total then record { num = hits; den = total } else record { num = 0; den = 1 }

unfoldable pub limit_requests : Option ℕ → List (TraceRecord ℕ) → List (TraceRecord ℕ)
limit_requests none records = records
limit_requests (some n) records = take n records

-- The statistics of `replay_cpp.replay`.
pub record Stats : Type 0 where
  pub requests : ℕ
  pub blocks : ℕ
  pub hits : ℕ
  pub misses : ℕ
  pub rate : Ratio

module _ (store : BlockStore) where
  -- The loop over the keys of a request: the store after it, the hits and the misses.
  unfoldable pub serve_keys : Option ℕ → List ℕ → store.State → store.State × ℕ × ℕ
  serve_keys tenant [] s = (s, 0, 0)
  serve_keys tenant (k ∷ ks) s =
      let found = store.exists k s in
      let (s', hits, misses) =
        serve_keys tenant ks (if found then store.get k s else store.put tenant k s) in
      (s', if found then suc hits else hits, if found then misses else suc misses)

  -- A request with the prefetching before it and the recording after it.
  unfoldable pub serve_request : Option ℕ → List ℕ → store.State → store.State × ℕ × ℕ
  serve_request tenant ks s =
      let (s', hits, misses) = serve_keys tenant ks (store.prefetch_chain_multi ks s) in
      (store.record_sequence ks s', hits, misses)

  -- The loop over the records: the hits and the misses.
  unfoldable pub replay_records : List (TraceRecord ℕ) → store.State → ℕ × ℕ
  replay_records [] s = (0, 0)
  replay_records (r ∷ rs) s =
      let (s', found, missed) = serve_request none r.hash_ids s in
      let (hits, misses) = replay_records rs s' in (found + hits, missed + misses)

  unfoldable pub replay : List (TraceRecord ℕ) → Option ℕ → store.State → Stats
  replay records max_requests s =
      let kept = limit_requests max_requests records in
      let (hits, misses) = replay_records kept s in
      record {
        requests = length kept;
        blocks = hits + misses;
        hits = hits;
        misses = misses;
        rate = hit_rate hits (hits + misses);
      }

-- `_TENANT_SALT`, 2 ^ 48.
abbrev pub tenant_salt : ℕ
tenant_salt = 281474976710656

-- The key space of a tenant.
unfoldable pub salted : ℕ → ℕ → ℕ
salted tenant h = h + tenant * tenant_salt

-- The variables of `replay_pair`, for the tenants 1 and 2.
pub record Tally (S : Type 0) : Type 0 where
  pub state : S
  pub hits_a : ℕ
  pub total_a : ℕ
  pub hits_b : ℕ
  pub total_b : ℕ

module _ (store : BlockStore) where
  -- The turn of a tenant in round `i`: nothing, if its records are at an end.
  unfoldable pub turn_a : List (TraceRecord ℕ) → ℕ → Tally store.State → Tally store.State
  turn_a records i t = elim (get_elem? records i) [
    | none ↦ t
    | some r ↦
        let (s, hits, misses) = serve_request store (some 1) (map (salted 1) r.hash_ids) t.state in
        record t { state = s; hits_a = t.hits_a + hits; total_a = t.total_a + (hits + misses) }
  ]

  unfoldable pub turn_b : List (TraceRecord ℕ) → ℕ → Tally store.State → Tally store.State
  turn_b records i t = elim (get_elem? records i) [
    | none ↦ t
    | some r ↦
        let (s, hits, misses) = serve_request store (some 2) (map (salted 2) r.hash_ids) t.state in
        record t { state = s; hits_b = t.hits_b + hits; total_b = t.total_b + (hits + misses) }
  ]

  -- `n` rounds from round `i` on, the tenant 1 first in each.
  unfoldable pub rounds :
      ℕ → ℕ → List (TraceRecord ℕ) → List (TraceRecord ℕ) → Tally store.State → Tally store.State
  rounds zero i records_a records_b t = t
  rounds (suc n) i records_a records_b t =
      rounds n (suc i) records_a records_b (turn_b records_b i (turn_a records_a i t))

  unfoldable pub tally_pair :
      List (TraceRecord ℕ) → List (TraceRecord ℕ) → store.State → Tally store.State
  tally_pair records_a records_b s =
      rounds (max (length records_a) (length records_b)) 0 records_a records_b
        (record { state = s; hits_a = 0; total_a = 0; hits_b = 0; total_b = 0 })

  unfoldable pub replay_pair :
      List (TraceRecord ℕ) → List (TraceRecord ℕ) → store.State → Ratio × Ratio
  replay_pair records_a records_b s =
      let t = tally_pair records_a records_b s in
      (hit_rate t.hits_a t.total_a, hit_rate t.hits_b t.total_b)

-- `range(start, start + n)`
unfoldable pub range : ℕ → ℕ → List ℕ
range start zero = []
range start (suc n) = start ∷ range (suc start) n

-- The loop of `_flood_records` from the request `i` and the block `next_id` on.
unfoldable pub flood_from : ℕ → ℕ → ℕ → ℕ → List (TraceRecord ℕ)
flood_from zero i next_id blocks_per_request = []
flood_from (suc n) i next_id blocks_per_request =
    record {
      timestamp = i;
      input_length = blocks_per_request * 512;
      output_length = 1;
      hash_ids = range next_id blocks_per_request;
    }
    ∷ flood_from n (suc i) (next_id + blocks_per_request) blocks_per_request

unfoldable pub flood_records : ℕ → ℕ → List (TraceRecord ℕ)
flood_records n blocks_per_request = flood_from n 0 1 blocks_per_request
