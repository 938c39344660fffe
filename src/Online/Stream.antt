-- ===== src/Online/Stream.antt =====
-- scripts/bench_online.py: lemmas on `_one_request`.
use mooncake_kvcache_tiered.Base.{
  ℕ, suc, ap, ◌∙◌, ◌+◌, ◌-◌, ◌≤◌, ◌<◌, ◌≡◌, refl, true, false, none, some, List, [], ◌∷◌, ◌++◌,
  length, leb, Result, ok, raise, response_error, ◌>>=◌, Bool-cases, inl, inr, arith, ok-ne-raise,
  ok-injective, sym,
}
use mooncake_kvcache_tiered.Text.{Text}
use mooncake_kvcache_tiered.Json.{Json}
use mooncake_kvcache_tiered.Online.Request.{
  Line, Sample, Event, skipped, done, token, decode, Reading, add_token, read_stream, one_request,
}

-- What is read of a stream whose chunks of text come at these times.
abbrev pub sample : ℕ → ℕ → List ℕ → Sample
sample start finish [] = record { ttft = finish - start; total = finish - start; tokens = 0 }
sample start finish (t ∷ ts) = record {
  ttft = t - start;
  total = finish - start;
  tokens = suc (length ts);
}

abbrev count_in : ℕ → List ℕ → Reading → Reading
count_in start [] r = r
count_in start (t ∷ ts) r = count_in start ts (add_token start t r)

-- The lines come one after the other, from `start` to `finish`.
abbrev pub IsClock : ℕ → List Line → ℕ → Type 0
IsClock start [] finish = start ≤ finish
IsClock start (l ∷ ls) finish = (start ≤ l.time) × IsClock l.time ls finish

abbrev sample_of : ℕ → Reading → Sample
sample_of total r = record {
  ttft = (elim r.ttft [ none ↦ total | some t ↦ t ]);
  total = total;
  tokens = r.tokens;
}

count_in-some :
    (start t n : ℕ) (ts : List ℕ)
    → count_in start ts (record { ttft = some t; tokens = n })
      ≡ record { ttft = some t; tokens = n + length ts }
unfolding add_token
count_in-some start t n [] = ap (λ m. record { ttft = some t; tokens = m }) (omega arith)
count_in-some start t n (u ∷ ts) =
    count_in-some start t (suc n) ts ∙ ap (λ m. record { ttft = some t; tokens = m }) (omega arith)

sample_of-count_in :
    (start finish : ℕ) (ts : List ℕ)
    → sample_of (finish - start) (count_in start ts (record { ttft = none; tokens = 0 }))
      ≡ sample start finish ts
unfolding add_token
sample_of-count_in start finish [] = refl
sample_of-count_in start finish (t ∷ ts) =
    ap (sample_of (finish - start)) (count_in-some start (t - start) 1 ts)
    ∙ ap (λ m. record { ttft = t - start; total = finish - start; tokens = m }) (omega arith)

-- Times between two.
abbrev AllBetween : ℕ → ℕ → List ℕ → Type 0
AllBetween a b [] = Unit {0}
AllBetween a b (t ∷ ts) = (a ≤ t) × (t ≤ b) × AllBetween a b ts

AllBetween-mono : (a a' b : ℕ) (ts : List ℕ) → a ≤ a' → AllBetween a' b ts → AllBetween a b ts
AllBetween-mono a a' b [] h g = tt
AllBetween-mono a a' b (t ∷ ts) h g = (omega (arith, g.0), g.1, AllBetween-mono a a' b ts h g.2)

IsClock-le : (start finish : ℕ) (ls : List Line) → IsClock start ls finish → start ≤ finish
IsClock-le start finish [] h = h
IsClock-le start finish (l ∷ ls) h = omega (arith, h.0, IsClock-le l.time finish ls h.1)

abbrev add_event : ℕ → Event → Result (List ℕ) → Result (List ℕ)
add_event time skipped times = times
add_event time done times = ok []
add_event time token times = times >>= λ ts. ok (time ∷ ts)

module _ (loads : Text → Result Json) where
  -- The times of the lines whose chunk has text, up to the mark of the end.
  abbrev pub text_times : List Line → Result (List ℕ)
  text_times [] = ok []
  text_times (l ∷ ls) = decode loads l >>= λ event. add_event l.time event (text_times ls)

  read_stream_lem :
      (start : ℕ) (ls : List Line) (r : Reading)
      → read_stream loads start ls r ≡ (text_times ls >>= λ ts. ok (count_in start ts r))
  unfolding read_stream
  read_stream_lem start [] r = refl
  read_stream_lem start (l ∷ ls) r =
      by_event (decode loads l) (text_times ls) (read_stream_lem start ls)
    where
      by_token :
          (ts : Result (List ℕ))
          → ◌≡◌ {A = Result Reading}
              (ts >>= λ us. ok (count_in start us (add_token start l.time r)))
              ((ts >>= λ us. ok (l.time ∷ us)) >>= λ us. ok (count_in start us r))
      by_token (ok ts) = refl
      by_token (raise e) = refl

      by_event :
          (d : Result Event) (times : Result (List ℕ))
          → ((q : Reading)
              → read_stream loads start ls q ≡ (times >>= λ ts. ok (count_in start ts q)))
          → ◌≡◌ {A = Result Reading}
              (d >>= λ event. elim event [
                | skipped ↦ read_stream loads start ls r
                | done ↦ ok r
                | token ↦ read_stream loads start ls (add_token start l.time r)
              ])
              ((d >>= λ event. add_event l.time event times) >>= λ ts. ok (count_in start ts r))
      by_event (raise e) times h = refl
      by_event (ok skipped) times h = h r
      by_event (ok done) times h = refl
      by_event (ok token) times h = h (add_token start l.time r) ∙ by_token times

  text_times-done :
      (before after : List Line) (l : Line)
      → decode loads l ≡ ok done
      → text_times (before ++ l ∷ after) ≡ text_times (before ++ l ∷ [])
  text_times-done [] after l h = rw h
  text_times-done (k ∷ before) after l h =
      ap (λ ts. decode loads k >>= λ event. add_event k.time event ts)
        (text_times-done before after l h)

  -- `_one_request` raises for a status of 400 or more. For any other it is what the times of the lines
  -- with text say, read from the front: their errors are its errors; the first time, if there is one,
  -- gives the time to the first token, which is else the whole time; their number is that of the
  -- tokens. What comes after the line that marks the end plays no part.
  pub one_request_lem :
      (status start finish : ℕ) (lines : List Line)
      → (400 ≤ status → one_request loads status start lines finish ≡ raise response_error)
        × (status < 400
            → one_request loads status start lines finish
              ≡ (text_times lines >>= λ ts. ok (sample start finish ts)))
        × ((before after : List Line) (l : Line)
            → decode loads l ≡ ok done
            → text_times (before ++ l ∷ after) ≡ text_times (before ++ l ∷ []))
  unfolding one_request
  one_request_lem status start finish lines = (
    λ h. rw (large h),
    λ h.
        rw (small h, read_stream_lem start lines (record { ttft = none; tokens = 0 }))
          (go (text_times lines)),
    text_times-done,
  )
    where
      large : 400 ≤ status → leb 400 status ≡ true
      large h = ground arith

      small : status < 400 → leb 400 status ≡ false
      small h = ground arith

      go :
          (r : Result (List ℕ))
          → ◌≡◌ {A = Result Sample}
              ((r >>= λ ts. ok (count_in start ts (record { ttft = none; tokens = 0 }))) >>= λ r.
                ok (sample_of (finish - start) r))
              (r >>= λ ts. ok (sample start finish ts))
      go (ok ts) = ap ok (sample_of-count_in start finish ts)
      go (raise e) = refl

  abbrev AreTimes : ℕ → ℕ → List Line → Result (List ℕ) → Type 0
  AreTimes start finish ls (ok ts) = AllBetween start finish ts × (length ts ≤ length ls)
  AreTimes start finish ls (raise e) = Unit {0}

  AreTimes-add_event :
      (start finish : ℕ) (l : Line) (ls : List Line) (d : Result Event) (times : Result (List ℕ))
      → IsClock start (l ∷ ls) finish
      → AreTimes l.time finish ls times
      → AreTimes start finish
          (l ∷ ls)
          (◌>>=◌ {B = List ℕ} d (λ event. add_event l.time event times))
  AreTimes-add_event start finish l ls (raise e) times h g = tt
  AreTimes-add_event start finish l ls (ok done) times h g = (tt, omega arith)
  AreTimes-add_event start finish l ls (ok skipped) (raise e) h g = tt
  AreTimes-add_event start finish l ls (ok token) (raise e) h g = tt
  AreTimes-add_event start finish l ls (ok skipped) (ok ts) h g =
      (AllBetween-mono start l.time finish ts h.0 g.0, omega (arith, g.1))
  AreTimes-add_event start finish l ls (ok token) (ok ts) h g = (
    (h.0, IsClock-le l.time finish ls h.1, AllBetween-mono start l.time finish ts h.0 g.0),
    omega (arith, g.1),
  )

  text_times-AreTimes :
      (start finish : ℕ) (ls : List Line)
      → IsClock start ls finish
      → AreTimes start finish ls (text_times ls)
  text_times-AreTimes start finish [] h = (tt, omega arith)
  text_times-AreTimes start finish (l ∷ ls) h =
      AreTimes-add_event start finish l ls (decode loads l) (text_times ls) h
        (text_times-AreTimes l.time finish ls h.1)

  AreTimes-sample :
      (start finish : ℕ) (lines : List Line) (r : Result (List ℕ)) (s : Sample)
      → IsClock start lines finish
      → AreTimes start finish lines r
      → (r >>= λ ts. ok (sample start finish ts)) ≡ ok s
      → (s.ttft ≤ s.total) × (start + s.total ≡ finish) × (s.tokens ≤ length lines)
  AreTimes-sample start finish lines (raise e) s h g f = absurd cc
  AreTimes-sample start finish lines (ok []) s h g f =
      let i = IsClock-le start finish lines h in
      rw (sym (ok-injective _ _ f)) (omega arith, omega arith, omega arith)
  AreTimes-sample start finish lines (ok (t ∷ ts)) s h g f =
      let i = IsClock-le start finish lines h in
      rw (sym (ok-injective _ _ f)) (omega (arith, g.0.1), omega arith, omega (arith, g.1))

  -- If the clock never goes back, a request that `_one_request` measures has its first token not
  -- after its end, a whole time from the first reading of the clock to the last, and no more tokens
  -- than lines.
  one_request-within :
      (status start finish : ℕ) (lines : List Line) (s : Sample)
      → IsClock start lines finish
      → one_request loads status start lines finish ≡ ok s
      → (s.ttft ≤ s.total) × (start + s.total ≡ finish) × (s.tokens ≤ length lines)
  one_request-within status start finish lines s h e = elim (Bool-cases (leb 400 status)) [
    | inl f ↦ absurd (
        ok-ne-raise s response_error
          (sym e ∙ (one_request_lem status start finish lines).0 (ground arith)))
    | inr f ↦
        AreTimes-sample start finish lines (text_times lines) s h
          (text_times-AreTimes start finish lines h)
          (sym ((one_request_lem status start finish lines).1 (ground arith)) ∙ e)
  ]
