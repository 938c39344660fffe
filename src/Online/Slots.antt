-- ===== src/Online/Slots.antt =====
-- scripts/bench_online.py: lemmas on the semaphore, the results and the end of `run`, whatever the
-- order in which the tasks move.
use mooncake_kvcache_tiered.Base.{
  ℕ, suc, ◌+◌, ◌-◌, ◌*◌, ◌≤◌, ◌<◌, ◌≡◌, refl, subst, Option, none, some, List, [], ◌∷◌, length,
  length-append, total, Error, arith,
}
use mooncake_kvcache_tiered.Online.{Random}
use mooncake_kvcache_tiered.Online.Request.{Sample}
use mooncake_kvcache_tiered.Online.Schedule.{
  Config, Worker, session, scanner, Phase, ready, waiting, flying, finished, broken, Task, Shared,
  Move, ask, refuse, leave, enter, answer, lose, add_result, receive_shared, receive_task,
}

-- Whether a request is under way.
abbrev pub busy : Phase → ℕ
busy (flying prompt) = 1
busy (ready history) = 0
busy (waiting prompt) = 0
busy finished = 0
busy broken = 0

abbrev pub stopped : Phase → ℕ
stopped broken = 1
stopped (flying prompt) = 0
stopped (ready history) = 0
stopped (waiting prompt) = 0
stopped finished = 0

-- How many moves are left, with `left` rounds to answer.
abbrev pub effort : Phase → ℕ → ℕ
effort (ready history) left = 3 * left + 1
effort (waiting prompt) left = 3 * left
effort (flying prompt) left = 3 * left - 1
effort finished left = 0
effort broken left = 0

-- What is known of the rounds of a task in each phase.
abbrev pub InRounds : ℕ → Phase → ℕ → Type 0
InRounds rounds (ready history) r = r ≤ rounds
InRounds rounds (waiting prompt) r = r < rounds
InRounds rounds (flying prompt) r = r < rounds
InRounds rounds finished r = r ≡ rounds
InRounds rounds broken r = r < rounds

abbrev pub counted : Worker → ℕ → ℕ
counted (session start questions) round = round
counted scanner round = 0

abbrev pub failures : Option Error → ℕ
failures none = 0
failures (some e) = 1

module _ (random : Random) where
  abbrev pub in_flight : List (Task random) → ℕ
  in_flight = total (λ t. busy t.phase)

  abbrev pub answered : List (Task random) → ℕ
  answered = total (λ t. counted t.worker t.round)

  abbrev pub work : Config → List (Task random) → ℕ
  work cfg = total (λ t. effort t.phase (cfg.rounds - t.round))

  abbrev pub stopped_tasks : List (Task random) → ℕ
  stopped_tasks = total (λ t. stopped t.phase)

  -- What a move keeps or lowers.
  pub record IsMove (cfg : Config) (s : Shared random) (t : Task random) (s' : Shared random)
      (t' : Task random) : Type 0 where
    pub slots : s'.free + busy t'.phase ≡ s.free + busy t.phase
    pub counts :
        length s'.results + counted t.worker t.round ≡ length s.results + counted t'.worker t'.round
    pub rounds : InRounds cfg.rounds t.phase t.round → InRounds cfg.rounds t'.phase t'.round
    pub less :
        InRounds cfg.rounds t.phase t.round
        → effort t'.phase (cfg.rounds - t'.round) < effort t.phase (cfg.rounds - t.round)
    pub worker : t'.worker ≡ t.worker
    pub stops : stopped t'.phase ≤ stopped t.phase + failures s'.failed

  length-add_result :
      (w : Worker) (sample : Sample) (results : List Sample) (r : ℕ)
      → length (add_result w sample results) + counted w r ≡ length results + counted w (suc r)
  unfolding add_result
  length-add_result (session start questions) sample results r =
      omega (arith, length-append results (sample ∷ []))
  length-add_result scanner sample results r = omega arith

  pub Move-IsMove :
      {cfg : Config} {s : Shared random} {t : Task random} {s' : Shared random} {t' : Task random}
      → Move random cfg s t s' t'
      → IsMove cfg s t s' t'
  unfolding receive_shared receive_task
  Move-IsMove (ask e l h) = record {
    slots = rw e refl;
    counts = refl;
    rounds = λ g. l;
    less = λ g. rw e (omega arith);
    worker = refl;
    stops = omega arith;
  }
  Move-IsMove (refuse e l h) = record {
    slots = rw e refl;
    counts = refl;
    rounds = λ g. omega arith;
    less = λ g. rw e (omega arith);
    worker = refl;
    stops = omega arith;
  }
  Move-IsMove {cfg} {t} (leave e l) = record {
    slots = rw e refl;
    counts = refl;
    rounds = λ g. let h = subst (λ p. InRounds cfg.rounds p t.round) e g in omega (arith, h);
    less = λ g. rw e (omega arith);
    worker = refl;
    stops = omega arith;
  }
  Move-IsMove {cfg} {t} (enter e l) = record {
    slots = rw e (omega arith);
    counts = refl;
    rounds = λ g. subst (λ p. InRounds cfg.rounds p t.round) e g;
    less = λ g. let h = subst (λ p. InRounds cfg.rounds p t.round) e g in rw e (omega (arith, h));
    worker = refl;
    stops = omega arith;
  }
  Move-IsMove {cfg} {s} {t} (answer e sample) = record {
    slots = rw e (omega arith);
    counts = length-add_result t.worker sample s.results t.round;
    rounds = λ g. subst (λ p. InRounds cfg.rounds p t.round) e g;
    less = λ g. let h = subst (λ p. InRounds cfg.rounds p t.round) e g in rw e (omega (arith, h));
    worker = refl;
    stops = omega arith;
  }
  Move-IsMove {cfg} {t} (lose e error) = record {
    slots = rw e (omega arith);
    counts = refl;
    rounds = λ g. let h = subst (λ p. InRounds cfg.rounds p t.round) e g in omega (arith, h);
    less = λ g. let h = subst (λ p. InRounds cfg.rounds p t.round) e g in rw e (omega (arith, h));
    worker = refl;
    stops = omega arith;
  }
