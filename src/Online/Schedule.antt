-- ===== src/Online/Schedule.antt =====
-- scripts/bench_online.py: the sessions and scanners of `run`, which `asyncio.gather` interleaves. A
-- task moves from one place where it may wait to the next: it makes its prompt, enters the semaphore,
-- and gets the answer. The moves in between cannot be interrupted.
use mooncake_kvcache_tiered.Base.{
  ℕ, zero, suc, ◌+◌, ◌-◌, ◌%◌, ◌<◌, ◌≤◌, ◌≡◌, Option, none, some, List, [], ◌∷◌, ◌++◌, length,
  get_elem?, Result, ok, raise, Error, index_error, zero_division, ◌>>=◌, map,
}
use mooncake_kvcache_tiered.Text.{Text}
use mooncake_kvcache_tiered.Online.{Random, make_text}
use mooncake_kvcache_tiered.Online.Request.{Sample}

-- The arguments of the command that `run` reads, but for those of the requests and the data set.
pub record Config : Type 0 where
  pub sessions : ℕ
  pub rounds : ℕ
  pub prefix_tokens : ℕ
  pub max_tokens : ℕ
  pub concurrency : ℕ
  pub scan_sessions : ℕ

-- `" 用户问题："`
abbrev pub question_mark : Text
question_mark = 32 ∷ 29992 ∷ 25143 ∷ 38382 ∷ 39064 ∷ 65306 ∷ []

-- `" 摘要："`
abbrev pub summary_mark : Text
summary_mark = 32 ∷ 25688 ∷ 35201 ∷ 65306 ∷ []

-- `run_session`, with its prefix and its questions if they come from a data set, or `run_scanner`.
pub data Worker : Type 0 where
  session : Text → Option (List Text) → Worker
  scanner : Worker

-- Where a task stands: at the head of its loop, with the history; before the semaphore, or waiting
-- for the answer, with the prompt; at its end; or stopped by an exception.
pub data Phase : Type 0 where
  ready waiting flying : Text → Phase
  finished broken : Phase

-- A scanner's answers are not counted.
unfoldable pub add_result : Worker → Sample → List Sample → List Sample
add_result (session start questions) sample results = results ++ sample ∷ []
add_result scanner sample results = results

module _ (random : Random) where
  -- `own` is the generator of a scanner, `posted` the prompts that it sent, the latest first.
  pub record Task : Type 0 where
    pub worker : Worker
    pub own : random.State
    pub round : ℕ
    pub phase : Phase
    pub posted : List Text

  -- What the tasks share: the generator `rng`, the free places of the semaphore, the results, and
  -- the exception that `gather` passes on.
  pub record Shared : Type 0 where
    pub rng : random.State
    pub free : ℕ
    pub results : List Sample
    pub failed : Option Error

  -- `qs[r % len(qs)]`, or a text of 32 words.
  unfoldable pub question : Option (List Text) → ℕ → random.State → Result (random.State × Text)
  question none round rng = ok (make_text random 32 rng)
  question (some []) round rng = raise zero_division
  question (some (q ∷ qs)) round rng = elim (get_elem? (q ∷ qs) (round % length (q ∷ qs))) [
    | none ↦ raise index_error
    | some text ↦ ok (rng, text)
  ]

  -- The shared generator, the task's own, and the prompt of its next round.
  unfoldable pub next_prompt :
      Config
      → Worker
      → random.State
      → ℕ
      → Text
      → random.State
      → Result (random.State × random.State × Text)
  next_prompt cfg (session start questions) own round history rng =
      question questions round rng >>= λ q. ok (q.0, own, history ++ question_mark ++ q.1)
  next_prompt cfg scanner own round history rng =
      let (own', text) = make_text random cfg.prefix_tokens own in
      ok (rng, own', text ++ summary_mark)

  -- The next history, and the generator after it is made.
  unfoldable pub next_history : Config → Worker → Text → random.State → random.State × Text
  next_history cfg (session start questions) prompt rng =
      let (rng', text) = make_text random cfg.max_tokens rng in (rng', prompt ++ 32 ∷ text)
  next_history cfg scanner prompt rng = (rng, [])

  -- The end of a round: the semaphore is left.
  unfoldable pub receive_shared : Config → Worker → Text → Sample → Shared → Shared
  receive_shared cfg worker prompt sample s = record {
    rng = (next_history cfg worker prompt s.rng).0;
    free = suc s.free;
    results = add_result worker sample s.results;
    failed = s.failed;
  }

  unfoldable pub receive_task : Config → Text → Shared → Task → Task
  receive_task cfg prompt s t = record {
    worker = t.worker;
    own = t.own;
    round = suc t.round;
    phase = ready (next_history cfg t.worker prompt s.rng).1;
    posted = t.posted;
  }

  -- The moves of one task. An answer is any result of `_one_request`.
  pub data Move (cfg : Config) (s : Shared) (t : Task) : Shared → Task → Type 0 where
    ask :
        {history prompt : Text} {rng own : random.State}
        → t.phase ≡ ready history
        → t.round < cfg.rounds
        → next_prompt cfg t.worker t.own t.round history s.rng ≡ ok (rng, own, prompt)
        → Move cfg s t (record s { rng = rng }) (record t { own = own; phase = waiting prompt })
    refuse :
        {history : Text} {e : Error}
        → t.phase ≡ ready history
        → t.round < cfg.rounds
        → next_prompt cfg t.worker t.own t.round history s.rng ≡ raise e
        → Move cfg s t (record s { failed = some e }) (record t { phase = broken })
    leave :
        {history : Text}
        → t.phase ≡ ready history
        → cfg.rounds ≤ t.round
        → Move cfg s t s (record t { phase = finished })
    enter :
        {prompt : Text}
        → t.phase ≡ waiting prompt
        → 0 < s.free
        → Move cfg s t
            (record s { free = s.free - 1 })
            (record t { phase = flying prompt; posted = prompt ∷ t.posted })
    answer :
        {prompt : Text}
        → t.phase ≡ flying prompt
        → (sample : Sample)
        → Move cfg s t (receive_shared cfg t.worker prompt sample s) (receive_task cfg prompt s t)
    lose :
        {prompt : Text}
        → t.phase ≡ flying prompt
        → (e : Error)
        → Move cfg s t
            (record s { free = suc s.free; failed = some e })
            (record t { phase = broken })

  pub record System : Type 0 where
    pub shared : Shared
    pub tasks : List Task

  -- Any task may move, until one has failed.
  pub data Step (cfg : Config) : System → System → Type 0 where
    pick :
        (before after : List Task) {s s' : Shared} {t t' : Task}
        → s.failed ≡ none
        → Move cfg s t s' t'
        → Step cfg
            (record { shared = s; tasks = before ++ t ∷ after })
            (record { shared = s'; tasks = before ++ t' ∷ after })

  unfoldable pub session_task : Text × Option (List Text) → Task
  session_task p = record {
    worker = session p.0 p.1;
    own = random.seed 0;
    round = 0;
    phase = ready p.0;
    posted = [];
  }

  -- The scanners `i`, `i + 1`, and so on.
  unfoldable pub scanner_tasks : ℕ → ℕ → List Task
  scanner_tasks i zero = []
  scanner_tasks i (suc n) =
      record {
        worker = scanner;
        own = random.seed (1000 + i);
        round = 0;
        phase = ready [];
        posted = [];
      }
      ∷ scanner_tasks (suc i) n

  -- The start, from the prefixes of the sessions and their questions.
  unfoldable pub start_system : Config → List (Text × Option (List Text)) → random.State → System
  start_system cfg sessions rng = record {
    shared = (record { rng = rng; free = cfg.concurrency; results = []; failed = none });
    tasks = map session_task sessions ++ scanner_tasks 0 cfg.scan_sessions;
  }

  -- The systems that `n` steps reach.
  pub data Reach (cfg : Config) (start : System) : ℕ → System → Type 0 where
    begin : Reach cfg start 0 start
    later : {n : ℕ} {s t : System} → Reach cfg start n s → Step cfg s t → Reach cfg start (suc n) t
