-- ===== src/Online/Progress.antt =====
-- scripts/bench_online.py: lemmas on how `run` goes on and how it ends.
use mooncake_kvcache_tiered.Base.{ℕ, ◌≤◌, ◌≡◌, ◌⊎◌, Option, List, ◌∷◌, ◌++◌, length, arith, All}
use mooncake_kvcache_tiered.Text.{Text}
use mooncake_kvcache_tiered.Online.{Random}
use mooncake_kvcache_tiered.Online.Schedule.{
  Config, ready, waiting, flying, finished, Task, Shared, Move, System, Reach, start_system,
}
use mooncake_kvcache_tiered.Online.Slots.{in_flight}
use mooncake_kvcache_tiered.Online.Runs.{Reach-IsRun}

module _ (random : Random) where
  abbrev pub AllFinished : List (Task random) → Type 0
  AllFinished = All (λ t. t.phase ≡ finished)

  -- A task of the list that fulfils a predicate.
  record Pick (P : Task random → Type 0) (ts : List (Task random)) : Type 0 where
    before : List (Task random)
    task : Task random
    after : List (Task random)
    split : ts ≡ before ++ task ∷ after
    holds : P task

  -- A task that needs no place of the semaphore.
  abbrev IsFree : Task random → Type 0
  IsFree t = ((h : Text) × (t.phase ≡ ready h)) ⊎ ((p : Text) × (t.phase ≡ flying p))

  abbrev IsWaiting : Task random → Type 0
  IsWaiting t = (p : Text) × (t.phase ≡ waiting p)

  abbrev CanMove : Config → Shared random → Task random → Type 0
  CanMove cfg s t = (s' : Shared random) × (t' : Task random) × Move random cfg s t s' t'

  module _ (cfg : Config) (ss : List (Text × Option (List Text))) (rng : random.State)
      (parallel : length ss ≡ cfg.sessions) where
    -- However the tasks are interleaved, there are never more requests under way than `concurrency`.
    pub in_flight-le-concurrency :
        (n : ℕ) (s : System random)
        → Reach random cfg (start_system random cfg ss rng) n s
        → in_flight random s.tasks ≤ cfg.concurrency
    in_flight-le-concurrency n s r = omega (arith, (Reach-IsRun random cfg ss rng parallel r).slots)
