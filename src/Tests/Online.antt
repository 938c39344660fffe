-- ===== src/Tests/Online.antt =====
-- The online benchmark at concrete data sets, answers and runs.
use mooncake_kvcache_tiered.Base.{
  ℕ, suc, ◌%◌, ◌≤◌, ◌≡◌, refl, Option, some, List, [], ◌∷◌, ◌++◌, map, arith, All,
}
use mathlib.Core.List.Perm
use mooncake_kvcache_tiered.Text.{Text}
use mooncake_kvcache_tiered.Online.{Random, make_text, make_words, choice, word_at}
use mooncake_kvcache_tiered.Online.Request.{Sample}
use mooncake_kvcache_tiered.Online.Schedule.{
  Config, session, ask, leave, enter, answer, System, pick, Reach, begin, later, start_system,
  scanner_tasks, session_task, next_prompt, next_history, question, receive_shared, receive_task,
  add_result,
}
use mooncake_kvcache_tiered.Online.Slots.{in_flight}
use mooncake_kvcache_tiered.Online.Progress.{in_flight-le-concurrency}
use mooncake_kvcache_tiered.Online.Prompts.{
  workers_of, scanners, HasChain, InSent, prompts_continue,
}

-- Counts instead of drawing numbers, and leaves lists as they are.
abbrev pub counter : Random
counter = record {
  State = ℕ;
  seed = λ n. n;
  below = λ n s. (suc s, s % n);
  shuffle = λ xs s. (suc s, xs);
  below-lt = λ n s h. omega arith;
  shuffle-Perm = λ xs s. Perm.refl xs;
}

abbrev pub config : Config
config = record {
  sessions = 1;
  rounds = 2;
  prefix_tokens = 3;
  max_tokens = 1;
  concurrency = 1;
  scan_sessions = 0;
}

-- A session with one question, which is asked in both rounds.
abbrev prefixes : List (Text × Option (List Text))
prefixes = (97 ∷ [], some ((98 ∷ []) ∷ [])) ∷ []

abbrev reply : Sample
reply = record { ttft = 2; total = 5; tokens = 3 }

abbrev asked_twice :
    (s : System counter) × Reach counter config (start_system counter config prefixes 0) 5 s
unfolding start_system session_task scanner_tasks next_prompt next_history question receive_shared
    receive_task add_result make_text make_words choice word_at
asked_twice = (
  _,
  later
      (later
        (later
          (later (later begin (pick [] [] refl (ask refl (omega arith) refl)))
            (pick [] [] refl (enter refl (omega arith))))
          (pick [] [] refl (answer refl reply)))
        (pick [] [] refl (ask refl (omega arith) refl)))
      (pick [] [] refl (enter refl (omega arith))),
)

abbrev ended :
    (s : System counter) × Reach counter config (start_system counter config prefixes 0) 7 s
unfolding start_system session_task scanner_tasks next_prompt next_history question receive_shared
    receive_task add_result make_text make_words choice word_at
ended = (
  _,
  later (later asked_twice.1 (pick [] [] refl (answer refl reply)))
      (pick [] [] refl (leave refl (omega arith))),
)

in_flight-le-concurrency_example : in_flight counter asked_twice.0.tasks ≤ 1
in_flight-le-concurrency_example =
    in_flight-le-concurrency counter config prefixes 0 refl 5 asked_twice.0 asked_twice.1

prompts_continue_example :
    (workers_of counter asked_twice.0.tasks ≡ map (λ p. session p.0 p.1) prefixes ++ scanners 0)
    × All (λ t. HasChain t.worker t.posted × InSent 2 t.phase t.posted) asked_twice.0.tasks
prompts_continue_example =
    prompts_continue counter config prefixes 0 5 asked_twice.0 refl asked_twice.1
