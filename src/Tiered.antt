-- ===== src/Tiered.antt =====
-- python/bench/tiered.py: the simulator of the two tiers, over any two policies. Times are whole
-- numbers of 0.05 ms, the greatest common unit of the three costs.
pub mod Exclusive
pub mod Requests
pub mod Outcome
pub mod Prefetch
pub mod Known
use mooncake_kvcache_tiered.Base.{
  ℕ, zero, suc, ◌+◌, ◌*◌, max, Bool, true, false, Option, none, some, List, [], ◌∷◌, ◌++◌, Key,
  if◌then◌else◌, ltb, length, Result, ok, ◌>>=◌, ◌||◌,
}
use mooncake_kvcache_tiered.Dict.{Dict, lookup, set}
use mooncake_kvcache_tiered.Policy.{CachePolicy}

pub record TieredCosts : Type 0 where
  pub prefill_per_block : ℕ
  pub promote_per_block : ℕ
  pub decode_per_token : ℕ

-- 4.0, 0.5 and 0.05 ms.
abbrev pub default_costs : TieredCosts
default_costs = record { prefill_per_block = 80; promote_per_block = 10; decode_per_token = 1 }

pub record RequestOutcome : Type 0 where
  pub fast_hits : ℕ
  pub slow_hits : ℕ
  pub misses : ℕ
  pub ttft : ℕ
  pub block_hits : List Bool

-- The fields of `TieredSimulator`, for tiers with the states `F` and `S`.
pub record TieredSimulator (K F S : Type 0) : Type 0 where
  pub fast : F
  pub slow : S
  pub successor : Dict K K
  pub prefetch_depth : ℕ
  pub costs : TieredCosts

-- The variables of the loop of `process_request`.
pub record Progress (K F S : Type 0) : Type 0 where
  pub sim : TieredSimulator K F S
  pub fast_hits : ℕ
  pub slow_hits : ℕ
  pub misses : ℕ
  pub block_hits : List Bool
  pub prev : Option K

module _ {K : Type 0} ⦃key : Key K⦄ (fast slow : CachePolicy K) where
  abbrev pub Sim : Type 0
  Sim = TieredSimulator K fast.State slow.State

  abbrev pub Loop : Type 0
  Loop = Progress K fast.State slow.State

  unfoldable pub init : ℕ → ℕ → ℕ → TieredCosts → Result Sim
  init fast_blocks slow_blocks depth costs = do
    f ← fast.init fast_blocks
    s ← slow.init slow_blocks
    ok (record { fast = f; slow = s; successor = []; prefetch_depth = depth; costs = costs })

  -- `fast.on_evict` is `slow.admit`: what the fast tier evicts goes to the slow one, in order. What
  -- the slow tier evicts is lost.
  unfoldable pub demote : List K → slow.State → slow.State
  demote [] s = s
  demote (k ∷ ks) s = demote ks (slow.admit k s).0

  -- `self._fast.admit(k)` with its callbacks.
  unfoldable pub admit_fast : K → Sim → Sim
  admit_fast k s =
      let (f, gone) = fast.admit k s.fast in record s { fast = f; slow = demote gone s.slow }

  -- A block of the slow tier moves to the fast one.
  unfoldable pub promote : K → Sim → Sim
  promote k s = admit_fast k (record s { slow = (slow.remove k s.slow).0 })

  -- The loop of `_prefetch_for_request` from one anchor: `budget` steps along the successors.
  unfoldable pub chase : ℕ → K → Sim → Sim × ℕ
  chase zero cursor s = (s, 0)
  chase (suc budget) cursor s = elim (lookup cursor s.successor) [
    | none ↦ (s, 0)
    | some next ↦
        let held = slow.contains next s.slow in
        let (s', promoted) = chase budget next (if held then promote next s else s) in
        (s', if held then suc promoted else promoted)
  ]

  unfoldable pub chase_all : ℕ → List K → Sim → Sim × ℕ
  chase_all budget [] s = (s, 0)
  chase_all budget (anchor ∷ anchors) s =
      let held = fast.contains anchor s.fast || slow.contains anchor s.slow in
      let (s', promoted) = if held then chase budget anchor s else (s, 0) in
      let (s'', more) = chase_all budget anchors s' in (s'', promoted + more)

  unfoldable pub prefetch_for_request : List K → Sim → Sim × ℕ
  prefetch_for_request hash_ids s =
      if ltb 0 s.prefetch_depth
      then chase_all (length hash_ids + s.prefetch_depth) hash_ids s
      else (s, 0)

  -- One block of the request, without the successor graph.
  unfoldable pub serve : K → Loop → Loop
  serve k p =
      if fast.contains k p.sim.fast
      then record p {
        sim = record (p.sim) { fast = fast.touch k p.sim.fast };
        fast_hits = suc p.fast_hits;
        block_hits = p.block_hits ++ true ∷ [];
      }
      else if slow.contains k p.sim.slow
      then record p {
        sim = promote k p.sim;
        slow_hits = suc p.slow_hits;
        block_hits = p.block_hits ++ true ∷ [];
      }
      else record p {
        sim = admit_fast k p.sim;
        misses = suc p.misses;
        block_hits = p.block_hits ++ false ∷ [];
      }

  -- `successor[prev] = k` if there is a previous block, and `prev = k`.
  unfoldable pub link : K → Loop → Loop
  link k p = elim p.prev [
    | none ↦ record p { prev = some k }
    | some j ↦ record p {
      sim = record (p.sim) { successor = set j k p.sim.successor };
      prev = some k;
    }
  ]

  unfoldable pub serve_all : List K → Loop → Loop
  serve_all [] p = p
  serve_all (k ∷ ks) p = serve_all ks (link k (serve k p))

  abbrev pub begin : Sim → Loop
  begin s = record {
    sim = s;
    fast_hits = 0;
    slow_hits = 0;
    misses = 0;
    block_hits = [];
    prev = none;
  }

  unfoldable pub ttft : TieredCosts → ℕ → ℕ → ℕ
  ttft c misses slow_hits =
      max (misses * c.prefill_per_block + slow_hits * c.promote_per_block) c.prefill_per_block

  unfoldable pub process_request : List K → Sim → Sim × RequestOutcome
  process_request hash_ids s =
      let p = serve_all hash_ids (begin (prefetch_for_request hash_ids s).0) in
      (
        p.sim,
        record {
          fast_hits = p.fast_hits;
          slow_hits = p.slow_hits;
          misses = p.misses;
          ttft = ttft s.costs p.misses p.slow_hits;
          block_hits = p.block_hits;
        },
      )

  -- The requests of a trace, one after the other.
  unfoldable pub process_all : List (List K) → Sim → Sim
  process_all [] s = s
  process_all (ks ∷ rest) s = process_all rest (process_request ks s).0
