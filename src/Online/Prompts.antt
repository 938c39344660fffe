-- ===== src/Online/Prompts.antt =====
-- scripts/bench_online.py: lemmas on the prompts that the tasks of `run` send.
use mooncake_kvcache_tiered.Base.{
  ℕ, zero, suc, ◌≤◌, ◌≡◌, refl, ap, sym, subst, ◌∙◌, Option, List, [], ◌∷◌, ◌++◌, length, arith,
  Result, ok, raise, ok-injective, ◌>>=◌, map, All, All-append, All-put,
}
use mathlib.Core.List.{append-nil, append_assoc}
use mooncake_kvcache_tiered.Text.{Text}
use mooncake_kvcache_tiered.Online.{Random, make_text}
use mooncake_kvcache_tiered.Online.Schedule.{
  Config, Worker, session, scanner, Phase, ready, waiting, flying, finished, broken, Task, Shared,
  Move, ask, refuse, leave, enter, answer, lose, System, pick, Reach, begin, later, start_system,
  scanner_tasks, session_task, next_prompt, next_history, question, question_mark, receive_task,
}
use mooncake_kvcache_tiered.Online.Slots.{InRounds, Move-IsMove}
use mooncake_kvcache_tiered.Online.Runs.{Reach-IsRun, session_tasks-All, scanner_tasks-All}

abbrev pub IsPrefix : Text → Text → Type 0
IsPrefix p q = (c : Text) × (q ≡ p ++ c)

-- The second text is the first and more.
abbrev pub IsLonger : Text → Text → Type 0
IsLonger p q = (x : ℕ) × (c : Text) × (q ≡ p ++ x ∷ c)

-- The latest prompt, or the prefix if there is none.
abbrev pub latest : Text → List Text → Text
latest start [] = start
latest start (p ∷ ps) = p

-- Each prompt continues the one before it, the first the prefix.
abbrev pub IsChain : Text → List Text → Type 0
IsChain start [] = Unit {0}
IsChain start (p ∷ ps) = IsLonger (latest start ps) p × IsChain start ps

abbrev pub HasChain : Worker → List Text → Type 0
HasChain (session start questions) ps = IsChain start ps
HasChain scanner ps = Unit {0}

-- How the text of a phase continues what was sent.
abbrev IsNext : Text → List Text → Phase → Type 0
IsNext start ps (ready history) = IsPrefix (latest start ps) history
IsNext start ps (waiting prompt) = IsLonger (latest start ps) prompt
IsNext start ps (flying prompt) = latest start ps ≡ prompt
IsNext start ps finished = Unit {0}
IsNext start ps broken = Unit {0}

abbrev HasNext : Worker → List Text → Phase → Type 0
HasNext (session start questions) ps phase = IsNext start ps phase
HasNext scanner ps phase = Unit {0}

-- How many prompts were sent after `r` rounds.
abbrev HasSent : Phase → ℕ → List Text → Type 0
HasSent (ready history) r ps = length ps ≡ r
HasSent (waiting prompt) r ps = length ps ≡ r
HasSent (flying prompt) r ps = length ps ≡ suc r
HasSent finished r ps = length ps ≡ r
HasSent broken r ps = length ps ≤ suc r

-- A task has sent at most `rounds` prompts, exactly as many if it has finished.
abbrev pub InSent : ℕ → Phase → List Text → Type 0
InSent rounds (ready history) ps = length ps ≤ rounds
InSent rounds (waiting prompt) ps = length ps ≤ rounds
InSent rounds (flying prompt) ps = length ps ≤ rounds
InSent rounds finished ps = length ps ≡ rounds
InSent rounds broken ps = length ps ≤ rounds

InSent-HasSent :
    (rounds r : ℕ) (phase : Phase) (ps : List Text)
    → InRounds rounds phase r
    → HasSent phase r ps
    → InSent rounds phase ps
InSent-HasSent rounds r (ready history) ps h g = omega (arith, h, g)
InSent-HasSent rounds r (waiting prompt) ps h g = omega (arith, h, g)
InSent-HasSent rounds r (flying prompt) ps h g = omega (arith, h, g)
InSent-HasSent rounds r finished ps h g = g ∙ h
InSent-HasSent rounds r broken ps h g = omega (arith, h, g)

abbrev pub scanners : ℕ → List Worker
scanners zero = []
scanners (suc n) = scanner ∷ scanners n

IsPrefix-IsLonger : (p h : Text) (x : ℕ) (c : Text) → IsPrefix p h → IsLonger p (h ++ (x ∷ c))
IsPrefix-IsLonger p h x c ([], e) = (x, c, ap (λ t. t ++ x ∷ c) (e ∙ append-nil p))
IsPrefix-IsLonger p h x c (y ∷ d, e) =
    (y, d ++ x ∷ c, ap (λ t. t ++ x ∷ c) e ∙ append_assoc p (y ∷ d) (x ∷ c))

module _ (random : Random) where
  record IsPrompts (t : Task random) : Type 0 where
    chain : HasChain t.worker t.posted
    next : HasNext t.worker t.posted t.phase
    sent : HasSent t.phase t.round t.posted

  next_prompt-HasNext :
      (cfg : Config) (w : Worker) (own : random.State) (r : ℕ) (ps : List Text) (h p : Text)
      (rng rng' own' : random.State)
      → next_prompt random cfg w own r h rng ≡ ok (rng', own', p)
      → HasNext w ps (ready h)
      → HasNext w ps (waiting p)
  unfolding next_prompt
  next_prompt-HasNext cfg scanner own r ps h p rng rng' own' e i = tt
  next_prompt-HasNext cfg (session start qs) own r ps h p rng rng' own' e i =
      go (question random qs r rng) e
    where
      go :
          (q : Result (random.State × Text))
          → ◌≡◌ {A = Result (random.State × random.State × Text)}
              (q >>= λ a. ok (a.0, own, h ++ question_mark ++ a.1))
              (ok (rng', own', p))
          → IsLonger (latest start ps) p
      go (raise err) f = absurd cc
      go (ok (rng'', text)) f =
          subst (IsLonger (latest start ps))
            (sym (append_assoc h question_mark text) ∙ ap (λ a. a.2) (ok-injective _ _ f))
            (IsPrefix-IsLonger (latest start ps) h 32 _ i)

  next_history-HasNext :
      (cfg : Config) (w : Worker) (ps : List Text) (p : Text) (rng : random.State)
      → HasNext w ps (flying p)
      → HasNext w ps (ready (next_history random cfg w p rng).1)
  unfolding next_history
  next_history-HasNext cfg scanner ps p rng h = tt
  next_history-HasNext cfg (session start qs) ps p rng h =
      (_, ap (λ t. t ++ 32 ∷ (make_text random cfg.max_tokens rng).1) (sym h))

  HasChain-enter :
      (w : Worker) (ps : List Text) (p : Text)
      → HasChain w ps
      → HasNext w ps (waiting p)
      → HasChain w (p ∷ ps) × HasNext w (p ∷ ps) (flying p)
  HasChain-enter scanner ps p h i = (tt, tt)
  HasChain-enter (session start qs) ps p h i = ((i, h), refl)

  HasNext-end : (w : Worker) (ps : List Text) → HasNext w ps finished × HasNext w ps broken
  HasNext-end scanner ps = (tt, tt)
  HasNext-end (session start qs) ps = (tt, tt)

  Move-IsPrompts :
      {cfg : Config} {s : Shared random} {t : Task random} {s' : Shared random} {t' : Task random}
      → Move random cfg s t s' t'
      → IsPrompts t
      → IsPrompts t'
  unfolding receive_task
  Move-IsPrompts {cfg} {s} {t} (ask {history} e l h) v = record {
    chain = v.chain;
    next =
        next_prompt-HasNext cfg t.worker t.own t.round t.posted history _ s.rng _ _ h
          (subst (HasNext t.worker t.posted) e v.next);
    sent = subst (λ p. HasSent p t.round t.posted) e v.sent;
  }
  Move-IsPrompts {t} (refuse e l h) v = record {
    chain = v.chain;
    next = (HasNext-end t.worker t.posted).1;
    sent = let i = subst (λ p. HasSent p t.round t.posted) e v.sent in omega (arith, i);
  }
  Move-IsPrompts {t} (leave e l) v = record {
    chain = v.chain;
    next = (HasNext-end t.worker t.posted).0;
    sent = subst (λ p. HasSent p t.round t.posted) e v.sent;
  }
  Move-IsPrompts {t} (enter {prompt} e l) v =
      let (c, n) =
        HasChain-enter t.worker t.posted prompt v.chain
          (subst (HasNext t.worker t.posted) e v.next) in
      record {
        chain = c;
        next = n;
        sent = ap suc (subst (λ p. HasSent p t.round t.posted) e v.sent);
      }
  Move-IsPrompts {cfg} {s} {t} (answer {prompt} e sample) v = record {
    chain = v.chain;
    next =
        next_history-HasNext cfg t.worker t.posted prompt s.rng
          (subst (HasNext t.worker t.posted) e v.next);
    sent = subst (λ p. HasSent p t.round t.posted) e v.sent;
  }
  Move-IsPrompts {t} (lose e error) v = record {
    chain = v.chain;
    next = (HasNext-end t.worker t.posted).1;
    sent = let i = subst (λ p. HasSent p t.round t.posted) e v.sent in omega (arith, i);
  }

  start-IsPrompts :
      (cfg : Config) (ss : List (Text × Option (List Text))) (rng : random.State)
      → All IsPrompts (start_system random cfg ss rng).tasks
  unfolding start_system session_task
  start-IsPrompts cfg ss rng =
      All-append IsPrompts (map (session_task random) ss) (scanner_tasks random 0 cfg.scan_sessions)
        (session_tasks-All random IsPrompts ss
          (λ p. record { chain = tt; next = ([], sym (append-nil p.0)); sent = refl }))
        (scanner_tasks-All random IsPrompts 0 cfg.scan_sessions
          (λ own. record { chain = tt; next = tt; sent = refl }))

  abbrev pub workers_of : List (Task random) → List Worker
  workers_of = map (λ t. t.worker)

  workers_of-put :
      (before after : List (Task random)) (t t' : Task random)
      → t'.worker ≡ t.worker
      → workers_of (before ++ t' ∷ after) ≡ workers_of (before ++ t ∷ after)
  workers_of-put [] after t t' e = ap (λ w. w ∷ workers_of after) e
  workers_of-put (u ∷ before) after t t' e = ap (◌∷◌ u.worker) (workers_of-put before after t t' e)

  Reach-IsPrompts :
      (cfg : Config) (start : System random) {n : ℕ} {s : System random}
      → All IsPrompts start.tasks
      → Reach random cfg start n s
      → All IsPrompts s.tasks × (workers_of s.tasks ≡ workers_of start.tasks)
  Reach-IsPrompts cfg start h begin = (h, refl)
  Reach-IsPrompts cfg start h (later r (pick before after {t} {t'} f m)) =
      let (i, e) = Reach-IsPrompts cfg start h r in
      (
        All-put IsPrompts before t t' after (Move-IsPrompts m) i,
        workers_of-put before after t t' (Move-IsMove random m).worker ∙ e,
      )

  workers_of-start :
      (ss : List (Text × Option (List Text))) (n i : ℕ)
      → workers_of (map (session_task random) ss ++ scanner_tasks random i n)
        ≡ map (λ p. session p.0 p.1) ss ++ scanners n
  unfolding scanner_tasks session_task
  workers_of-start [] zero i = refl
  workers_of-start [] (suc n) i = ap (◌∷◌ scanner) (workers_of-start [] n (suc i))
  workers_of-start (p ∷ ss) n i = ap (◌∷◌ (session p.0 p.1)) (workers_of-start ss n i)

  -- However the tasks are interleaved, they stay the sessions, each with its prefix, and the scanners
  -- of the start. Each prompt that a session sends starts with the one before it, the first with the
  -- prefix, and is longer. A task sends at most `rounds` prompts, exactly as many if it finishes.
  pub prompts_continue :
      (cfg : Config) (ss : List (Text × Option (List Text))) (rng : random.State) (n : ℕ)
      (s : System random)
      → length ss ≡ cfg.sessions
      → Reach random cfg (start_system random cfg ss rng) n s
      → (workers_of s.tasks ≡ map (λ p. session p.0 p.1) ss ++ scanners cfg.scan_sessions)
        × All (λ t. HasChain t.worker t.posted × InSent cfg.rounds t.phase t.posted) s.tasks
  unfolding start_system
  prompts_continue cfg ss rng n s l r =
      let (i, e) =
        Reach-IsPrompts cfg (start_system random cfg ss rng) (start-IsPrompts cfg ss rng) r in
      (
        e ∙ workers_of-start ss cfg.scan_sessions 0,
        both s.tasks (Reach-IsRun random cfg ss rng l r).rounds i,
      )
    where
      both :
          (ts : List (Task random))
          → All (λ t. InRounds cfg.rounds t.phase t.round) ts
          → All IsPrompts ts
          → All (λ t. HasChain t.worker t.posted × InSent cfg.rounds t.phase t.posted) ts
      both [] h g = tt
      both (t ∷ ts) h g = (
        (g.0.chain, InSent-HasSent cfg.rounds t.round t.phase t.posted h.0 g.0.sent),
        both ts h.1 g.1,
      )
