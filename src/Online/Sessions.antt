-- ===== src/Online/Sessions.antt =====
-- scripts/bench_online.py: lemmas on `_load_sharegpt`, for data whose values are texts.
use mooncake_kvcache_tiered.Base.{
  ℕ, zero, suc, ◌+◌, ◌≤◌, ◌<◌, ◌≡◌, refl, sym, ◌∙◌, Bool, true, false, ◌&&◌, some, List, [], ◌∷◌,
  ◌++◌, map, length, length-append, length-map, length-take, take, ltb, leb, if◌then◌else◌, Result,
  ok, raise, assertion_error, ◌>>=◌, all, all-Perm, length-Perm, arith, Bool-cases, inl, inr,
}
use mooncake_kvcache_tiered.Text.{Text, strip, join, skip_space, trim_end}
use mooncake_kvcache_tiered.Json.{Json, string, iterate, traverse}
use mooncake_kvcache_tiered.Online.{Random}
use mooncake_kvcache_tiered.Online.Dataset.{
  conversation, length_of, total_length, is_usable, keep_usable, as_text, spoken, session_of,
  build_sessions, load_sharegpt,
}

-- The characters of the texts of a conversation.
abbrev pub characters : List Text → ℕ
characters [] = 0
characters (t ∷ ts) = length t + characters ts

abbrev pub usable : ℕ → List Text → Bool
usable n ts = leb 4 (length ts) && leb n (characters ts)

-- The conversations that have what a session needs.
abbrev pub usable_of : ℕ → List (List Text) → List (List Text)
usable_of n [] = []
usable_of n (c ∷ cs) = let rest = usable_of n cs in if usable n c then c ∷ rest else rest

-- At most sixteen questions, each not empty and of at most 400 characters.
abbrev pub AllShort : List Text → Type 0
AllShort [] = Unit {0}
AllShort (t ∷ ts) = (0 < length t) × (length t ≤ 400) × AllShort ts

abbrev pub IsQuestions : List Text → Type 0
IsQuestions qs = (length qs ≤ 16) × AllShort qs

-- Each session has a prefix of exactly `n` characters, and questions.
abbrev pub AllSessions : ℕ → List Text → List (List Text) → Type 0
AllSessions n [] [] = Unit {0}
AllSessions n [] (q ∷ qs) = ⊥
AllSessions n (p ∷ ps) [] = ⊥
AllSessions n (p ∷ ps) (q ∷ qs) = (length p ≡ n) × IsQuestions q × AllSessions n ps qs

total_length-texts : (ts : List Text) → total_length (map string ts) ≡ ok (characters ts)
unfolding total_length length_of
total_length-texts [] = refl
total_length-texts (t ∷ ts) = rw (total_length-texts ts)

is_usable-texts : (n : ℕ) (ts : List Text) → is_usable n (map string ts) ≡ ok (usable n ts)
unfolding is_usable
is_usable-texts n ts = rw (total_length-texts ts, length-map ts string) (go (leb 4 (length ts)))
  where
    go :
        (b : Bool)
        → (if b then ok (leb n (characters ts)) else ok false) ≡ ok (b && leb n (characters ts))
    go true = refl
    go false = refl

keep_usable-texts :
    (n : ℕ) (cs : List (List Text))
    → keep_usable n (map (map string) cs) ≡ ok (map (map string) (usable_of n cs))
unfolding keep_usable
keep_usable-texts n [] = refl
keep_usable-texts n (c ∷ cs) = elim (Bool-cases (usable n c)) [
  | inl e ↦ rw (is_usable-texts n c, keep_usable-texts n cs, e)
  | inr e ↦ rw (is_usable-texts n c, keep_usable-texts n cs, e)
]

AllShort-kept :
    (t v : Text) (rest : List Text)
    → 0 < length t
    → AllShort rest
    → AllShort (elim v [ [] ↦ rest | ◌∷◌ c cs ↦ take 400 t ∷ rest ])
AllShort-kept t [] rest h g = g
AllShort-kept t (c ∷ cs) rest h g =
    (omega (arith, length-take 400 t), omega (arith, length-take 400 t), g)

AllShort-spoken : (ts : List Text) → AllShort (spoken ts)
unfolding spoken trim_end skip_space
AllShort-spoken [] = tt
AllShort-spoken ([] ∷ ts) = AllShort-spoken ts
AllShort-spoken ((c ∷ cs) ∷ ts) =
    AllShort-kept (c ∷ cs) (strip (c ∷ cs)) (spoken ts) (omega arith) (AllShort-spoken ts)

AllShort-take : (n : ℕ) (ts : List Text) → AllShort ts → AllShort (take n ts)
AllShort-take zero ts h = tt
AllShort-take (suc n) [] h = tt
AllShort-take (suc n) (t ∷ ts) h = (h.0, h.1, AllShort-take n ts h.2)

characters-le-join : (sep : Text) (ts : List Text) → characters ts ≤ length (join sep ts)
unfolding join
characters-le-join sep [] = omega arith
characters-le-join sep (t ∷ []) = omega arith
characters-le-join sep (t ∷ u ∷ ts) = omega (
  arith,
  length-append (t ++ sep) (join sep (u ∷ ts)),
  length-append t sep,
  characters-le-join sep (u ∷ ts),
)

traverse-as_text : (ts : List Text) → traverse as_text (map string ts) ≡ ok ts
unfolding traverse as_text
traverse-as_text [] = refl
traverse-as_text (t ∷ ts) = rw (traverse-as_text ts)

-- What the shuffle keeps of a conversation, as a test.
abbrev usable_texts : ℕ → Result (List Text) → Bool
usable_texts n (ok ts) = usable n ts
usable_texts n (raise e) = false

abbrev ready : ℕ → List Json → Bool
ready n c = usable_texts n (traverse as_text c)

all-ready :
    (n : ℕ) (cs : List (List Text)) → all (ready n) (map (map string) (usable_of n cs)) ≡ true
all-ready n [] = refl
all-ready n (c ∷ cs) = elim (Bool-cases (usable n c)) [
  | inl e ↦ rw (e, traverse-as_text c, e) (all-ready n cs)
  | inr e ↦ rw e (all-ready n cs)
]

session_of-ready :
    (n : ℕ) (c : List Json)
    → ready n c ≡ true
    → (p : Text) × (q : List Text) × (session_of n c ≡ ok (p, q)) × (length p ≡ n) × IsQuestions q
unfolding session_of
session_of-ready n c h = go (traverse as_text c) h
  where
    go :
        (r : Result (List Text))
        → usable_texts n r ≡ true
        → (p : Text) × (q : List Text) × (◌>>=◌ {B = Text × List Text} r
              (λ ts. ok (take n (join (32 ∷ []) ts), take 16 (spoken ts)))
            ≡ ok (p, q))
          × (length p ≡ n)
          × IsQuestions q
    go (raise e) h = absurd cc
    go (ok ts) h = (
      take n (join (32 ∷ []) ts),
      take 16 (spoken ts),
      refl,
      ground (arith, length-take n (join (32 ∷ []) ts), characters-le-join (32 ∷ []) ts),
      (
        omega (arith, length-take 16 (spoken ts)),
        AllShort-take 16 (spoken ts) (AllShort-spoken ts),
      ),
    )

sessions-ready :
    (n s : ℕ) (cs : List (List Json))
    → s ≤ length cs
    → all (ready n) cs ≡ true
    → (ps : List (Text × List Text)) × (traverse (session_of n) (take s cs) ≡ ok ps)
      × (length ps ≡ s)
      × AllSessions n (map (λ p. p.0) ps) (map (λ p. p.1) ps)
unfolding traverse
sessions-ready n zero cs h g = ([], refl, refl, tt)
sessions-ready n (suc s) [] h g = absurd (omega arith)
sessions-ready n (suc s) (c ∷ cs) h g =
    let (first, rest) = both (ready n c) (all (ready n) cs) g in
    let (p, q, e, l, i) = session_of-ready n c first in
    let (ps, f, m, j) = sessions-ready n s cs (omega arith) rest in
    ((p, q) ∷ ps, rw (e, f), omega arith, (l, i, j))
  where
    both : (a b : Bool) → (a && b) ≡ true → (a ≡ true) × (b ≡ true)
    both true b h = (refl, h)
    both false b h = absurd cc

module _ (random : Random) where
  build_sessions-texts :
      (sessions n : ℕ) (data_set : List Json) (cs : List (List Text)) (rng : random.State)
      → traverse conversation data_set ≡ ok (map (map string) cs)
      → (length (usable_of n cs) < sessions
          → build_sessions random sessions n data_set rng ≡ raise assertion_error)
        × (sessions ≤ length (usable_of n cs)
            → (rng' : random.State) × (ps : List (Text × List Text)) × (build_sessions random
                  sessions n data_set rng
                ≡ ok (rng', ps))
              × (length ps ≡ sessions)
              × AllSessions n (map (λ p. p.0) ps) (map (λ p. p.1) ps))
  unfolding build_sessions
  build_sessions-texts sessions n data_set cs rng h =
      let us = map (map string) (usable_of n cs) in
      let shuffled = (random.shuffle us rng).1 in
      let kept : length shuffled ≡ length (usable_of n cs) =
        sym (length-Perm (random.shuffle-Perm us rng)) ∙ length-map (usable_of n cs) (map string) in
      (
        λ g.
            let few : ltb (length shuffled) sessions ≡ true = ground (arith, kept) in
            rw (h, keep_usable-texts n cs, few),
        λ g.
            let enough : ltb (length shuffled) sessions ≡ false = ground (arith, kept) in
            let (ps, e, l, i) =
              sessions-ready n sessions shuffled (omega (arith, kept))
                (sym (all-Perm (ready n) (random.shuffle-Perm us rng)) ∙ all-ready n cs) in
            ((random.shuffle us rng).0, ps, rw (h, keep_usable-texts n cs, enough, e), l, i),
      )

  -- Where the file is JSON whose conversations have only texts as values: `_load_sharegpt` raises
  -- `AssertionError` if fewer conversations than sessions have four turns and as many characters as
  -- a prefix; otherwise it raises nothing, whatever the shuffle, and gives each session a prefix of
  -- exactly that many characters and at most sixteen questions, each of 1 to 400 characters.
  pub load_sharegpt_lem :
      (loads : Text → Result Json) (text : Text) (sessions n : ℕ) (rng : random.State) (j : Json)
      (data_set : List Json) (cs : List (List Text))
      → loads text ≡ ok j
      → iterate j ≡ ok data_set
      → traverse conversation data_set ≡ ok (map (map string) cs)
      → (length (usable_of n cs) < sessions
          → load_sharegpt random loads (some text) sessions n rng ≡ raise assertion_error)
        × (sessions ≤ length (usable_of n cs)
            → (rng' : random.State) × (prefixes : List Text) × (questions : List (List Text))
              × (load_sharegpt random loads (some text) sessions n rng
                  ≡ ok (rng', prefixes, questions))
              × (length prefixes ≡ sessions)
              × AllSessions n prefixes questions)
  unfolding load_sharegpt
  load_sharegpt_lem loads text sessions n rng j data_set cs a b h =
      let (few, enough) = build_sessions-texts sessions n data_set cs rng h in
      (
        λ g. rw (a, b, few g),
        λ g.
            let (rng', ps, e, l, i) = enough g in
            (
              rng',
              map (λ p. p.0) ps,
              map (λ p. p.1) ps,
              rw (a, b, e),
              length-map ps (λ p. p.0) ∙ l,
              i,
            ),
      )
