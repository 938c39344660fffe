-- ===== src/Online/Runs.antt =====
-- scripts/bench_online.py: lemmas on the runs of `run`, whatever the order in which the tasks move.
use mooncake_kvcache_tiered.Base.{
  ℕ, zero, suc, ◌+◌, ◌-◌, ◌*◌, ◌≤◌, ◌≡◌, refl, ap, ◌∙◌, Option, List, [], ◌∷◌, ◌++◌, length, arith,
  map, total, total-append, total-put, total-map, total-constant, All, All-append, All-at, All-put,
}
use mooncake_kvcache_tiered.Text.{Text}
use mooncake_kvcache_tiered.Online.{Random}
use mooncake_kvcache_tiered.Online.Schedule.{
  Config, scanner, ready, Task, System, Step, pick, Reach, begin, later, start_system,
  scanner_tasks, session_task,
}
use mooncake_kvcache_tiered.Online.Slots.{
  busy, stopped, effort, counted, failures, InRounds, in_flight, answered, work, stopped_tasks,
  Move-IsMove,
}

module _ (random : Random) where
  -- How many of the tasks are sessions.
  abbrev pub sessions_of : List (Task random) → ℕ
  sessions_of = total (λ t. counted t.worker 1)

  -- What every reachable system fulfils, `bound` being the moves that the start has left.
  pub record IsRun (cfg : Config) (bound n : ℕ) (s : System random) : Type 0 where
    pub slots : s.shared.free + in_flight random s.tasks ≡ cfg.concurrency
    pub counts : length s.shared.results ≡ answered random s.tasks
    pub rounds : All (λ t. InRounds cfg.rounds t.phase t.round) s.tasks
    pub steps : n + work random cfg s.tasks ≤ bound
    pub stops : stopped_tasks random s.tasks ≤ failures s.shared.failed
    pub sessions : sessions_of s.tasks ≡ cfg.sessions

  Step-IsRun :
      (cfg : Config) (bound n : ℕ) {s s' : System random}
      → Step random cfg s s'
      → IsRun cfg bound n s
      → IsRun cfg bound (suc n) s'
  Step-IsRun cfg bound n (pick before after {t} {t'} f m) v =
      let i = Move-IsMove random m in
      let less = i.less (All-at _ before t after v.rounds) in
      record {
        slots = omega (arith, v.slots, i.slots, put (λ t. busy t.phase));
        counts = omega (arith, v.counts, i.counts, put (λ t. counted t.worker t.round));
        rounds = All-put _ before t t' after i.rounds v.rounds;
        steps = omega (arith, v.steps, less, put (λ t. effort t.phase (cfg.rounds - t.round)));
        stops = omega (arith, v.stops, i.stops, ap failures f, put (λ t. stopped t.phase));
        sessions =
            omega
              (arith, v.sessions, put (λ t. counted t.worker 1), ap (λ w. counted w 1) i.worker);
      }
    where
      put :
          (f : Task random → ℕ)
          → total f (before ++ t' ∷ after) + f t ≡ total f (before ++ t ∷ after) + f t'
      put f = total-put f before t t' after

  scanner_tasks-total :
      (f : Task random → ℕ) (n i m : ℕ)
      → ((own : random.State)
          → f (record { worker = scanner; own = own; round = 0; phase = ready []; posted = [] })
            ≡ n)
      → total f (scanner_tasks random i m) ≡ m * n
  unfolding scanner_tasks
  scanner_tasks-total f n i zero h = omega arith
  scanner_tasks-total f n i (suc m) h =
      grind (arith, h (random.seed (1000 + i)), scanner_tasks-total f n (suc i) m h)

  pub scanner_tasks-All :
      (P : Task random → Type 0) (i m : ℕ)
      → ((own : random.State)
          → P (record { worker = scanner; own = own; round = 0; phase = ready []; posted = [] }))
      → All P (scanner_tasks random i m)
  unfolding scanner_tasks
  scanner_tasks-All P i zero h = tt
  scanner_tasks-All P i (suc m) h = (h (random.seed (1000 + i)), scanner_tasks-All P (suc i) m h)

  pub session_tasks-All :
      (P : Task random → Type 0) (ss : List (Text × Option (List Text)))
      → ((p : Text × Option (List Text)) → P (session_task random p))
      → All P (map (session_task random) ss)
  session_tasks-All P [] h = tt
  session_tasks-All P (p ∷ ss) h = (h p, session_tasks-All P ss h)

  start_total :
      (cfg : Config) (f : Task random → ℕ) (a b : ℕ) (ss : List (Text × Option (List Text)))
      → length ss ≡ cfg.sessions
      → ((p : Text × Option (List Text)) → f (session_task random p) ≡ a)
      → ((own : random.State)
          → f (record { worker = scanner; own = own; round = 0; phase = ready []; posted = [] })
            ≡ b)
      → total f (map (session_task random) ss ++ scanner_tasks random 0 cfg.scan_sessions)
        ≡ cfg.sessions * a + cfg.scan_sessions * b
  start_total cfg f a b ss l g h =
      total-append f (map (session_task random) ss) (scanner_tasks random 0 cfg.scan_sessions)
      ∙ rw
          (
            total-map f (session_task random) ss,
            total-constant (λ p. f (session_task random p)) a ss g,
            l,
            scanner_tasks-total f b 0 cfg.scan_sessions h,
          )
          refl

  -- The most steps that a run takes.
  abbrev pub longest : Config → ℕ
  longest cfg = (cfg.sessions + cfg.scan_sessions) * (3 * cfg.rounds + 1)

  start-IsRun :
      (cfg : Config) (ss : List (Text × Option (List Text))) (rng : random.State)
      → length ss ≡ cfg.sessions
      → IsRun cfg (longest cfg) 0 (start_system random cfg ss rng)
  unfolding start_system session_task
  start-IsRun cfg ss rng l = record {
    slots = grind (arith, start_total cfg (λ t. busy t.phase) 0 0 ss l (λ p. refl) (λ own. refl));
    counts =
        grind (
          arith,
          start_total cfg (λ t. counted t.worker t.round) 0 0 ss l (λ p. refl) (λ own. refl),
        );
    rounds =
        All-append _ (map (session_task random) ss) (scanner_tasks random 0 cfg.scan_sessions)
          (session_tasks-All (λ t. InRounds cfg.rounds t.phase t.round) ss (λ p. omega arith))
          (scanner_tasks-All (λ t. InRounds cfg.rounds t.phase t.round) 0 cfg.scan_sessions
            (λ own. omega arith));
    steps = grind (
      arith,
      start_total cfg (λ t. effort t.phase (cfg.rounds - t.round)) (3 * cfg.rounds + 1)
          (3 * cfg.rounds + 1) ss l (λ p. omega arith) (λ own. omega arith),
    );
    stops =
        grind (arith, start_total cfg (λ t. stopped t.phase) 0 0 ss l (λ p. refl) (λ own. refl));
    sessions =
        grind (arith, start_total cfg (λ t. counted t.worker 1) 1 0 ss l (λ p. refl) (λ own. refl));
  }

  pub Reach-IsRun :
      (cfg : Config) (ss : List (Text × Option (List Text))) (rng : random.State) {n : ℕ}
      {s : System random}
      → length ss ≡ cfg.sessions
      → Reach random cfg (start_system random cfg ss rng) n s
      → IsRun cfg (longest cfg) n s
  Reach-IsRun cfg ss rng l begin = start-IsRun cfg ss rng l
  Reach-IsRun cfg ss rng l (later r step) =
      Step-IsRun cfg (longest cfg) _ step (Reach-IsRun cfg ss rng l r)
