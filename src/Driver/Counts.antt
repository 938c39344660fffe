-- ===== src/Driver/Counts.antt =====
-- python/bench/replay_cpp.py and python/bench/replay_multitenant.py: lemmas on what they count.
use mooncake_kvcache_tiered.Base.{
  ℕ, zero, suc, ◌+◌, ◌≤◌, ◌<◌, ◌≡◌, refl, max, Option, none, some, List, [], ◌∷◌, map, arith,
  length, length-map, if◌then◌else◌, get_elem?, Option-cases, inl, inr,
}
use mooncake_kvcache_tiered.Framework.{TraceRecord}
use mooncake_kvcache_tiered.Driver.{
  BlockStore, Tally, hit_rate, serve_keys, serve_request, replay_records, limit_requests, replay,
  salted, turn_a, turn_b, rounds, tally_pair,
}

-- The blocks of all requests.
abbrev pub blocks_of : List (TraceRecord ℕ) → ℕ
blocks_of [] = 0
blocks_of (r ∷ rs) = length r.hash_ids + blocks_of rs

-- The blocks of the requests of `n` rounds from round `i` on.
abbrev span : ℕ → ℕ → List (TraceRecord ℕ) → ℕ
span zero i rs = 0
span (suc n) i rs =
    (elim (get_elem? rs i) [ none ↦ 0 | some r ↦ length r.hash_ids ]) + span n (suc i) rs

span-nil : (n i : ℕ) → span n i [] ≡ 0
span-nil zero i = refl
span-nil (suc n) i = omega (arith, span-nil n (suc i))

span-cons :
    (n i : ℕ) (r : TraceRecord ℕ) (rs : List (TraceRecord ℕ))
    → span n (suc i) (r ∷ rs) ≡ span n i rs
span-cons zero i r rs = refl
span-cons (suc n) i r rs = omega (arith, span-cons n (suc i) r rs)

span-blocks_of : (n : ℕ) (rs : List (TraceRecord ℕ)) → length rs ≤ n → span n 0 rs ≡ blocks_of rs
span-blocks_of n [] h = span-nil n 0
span-blocks_of zero (r ∷ rs) h = absurd (omega arith)
span-blocks_of (suc n) (r ∷ rs) h = omega (arith, span-cons n 0 r rs, span-blocks_of n rs)

module _ (store : BlockStore) where
  serve_keys_counts :
      (tenant : Option ℕ) (ks : List ℕ) (s : store.State)
      → (serve_keys store tenant ks s).1 + (serve_keys store tenant ks s).2 ≡ length ks
  unfolding serve_keys
  serve_keys_counts tenant [] s = refl
  serve_keys_counts tenant (k ∷ ks) s = ground (
    arith,
    serve_keys_counts tenant ks (if store.exists k s then store.get k s else store.put tenant k s),
  )

  serve_request_counts :
      (tenant : Option ℕ) (ks : List ℕ) (s : store.State)
      → (serve_request store tenant ks s).1 + (serve_request store tenant ks s).2 ≡ length ks
  unfolding serve_request
  serve_request_counts tenant ks s = serve_keys_counts tenant ks (store.prefetch_chain_multi ks s)

  replay_records_counts :
      (rs : List (TraceRecord ℕ)) (s : store.State)
      → (replay_records store rs s).0 + (replay_records store rs s).1 ≡ blocks_of rs
  unfolding replay_records
  replay_records_counts [] s = refl
  replay_records_counts (r ∷ rs) s = omega (
    arith,
    serve_request_counts none r.hash_ids s,
    replay_records_counts rs (serve_request store none r.hash_ids s).0,
  )

  -- The statistics of a replay over the store: as many requests as were kept, as many blocks as
  -- these have, each a hit or a miss, and a rate with a positive denominator that is at most 1.
  pub replay_counts :
      (records : List (TraceRecord ℕ)) (max_requests : Option ℕ) (s : store.State)
      → let q = replay store records max_requests s in
        (q.requests ≡ length (limit_requests max_requests records))
        × (q.blocks ≡ blocks_of (limit_requests max_requests records))
        × (q.hits + q.misses ≡ q.blocks)
        × (q.rate.num ≤ q.rate.den)
        × (0 < q.rate.den)
  unfolding replay hit_rate
  replay_counts records max_requests s = (
    refl,
    replay_records_counts (limit_requests max_requests records) s,
    refl,
    ground arith,
    ground arith,
  )

  -- What a turn or some rounds have done that added `a` and `b` blocks to the totals.
  record Adds (a b : ℕ) (t u : Tally store.State) : Type 0 where
    total_a : u.total_a ≡ t.total_a + a
    total_b : u.total_b ≡ t.total_b + b
    fair_a : t.hits_a ≤ t.total_a → u.hits_a ≤ u.total_a
    fair_b : t.hits_b ≤ t.total_b → u.hits_b ≤ u.total_b

  turn_a-Adds :
      (rs : List (TraceRecord ℕ)) (i : ℕ) (t : Tally store.State)
      → Adds (span 1 i rs) 0 t (turn_a store rs i t)
  unfolding turn_a
  turn_a-Adds rs i t = elim (Option-cases (get_elem? rs i)) [
    | inl e ↦
        rw (e, turn_a)
          (record {
            total_a = omega arith;
            total_b = omega arith;
            fair_a = λ h. h;
            fair_b = λ h. h;
          })
    | inr (r, e) ↦
        rw (e, turn_a)
          (record {
            total_a = omega (
              arith,
              serve_request_counts (some 1) (map (salted 1) r.hash_ids) t.state,
              length-map r.hash_ids (salted 1),
            );
            total_b = omega arith;
            fair_a = λ h. omega arith;
            fair_b = λ h. h;
          })
  ]

  turn_b-Adds :
      (rs : List (TraceRecord ℕ)) (i : ℕ) (t : Tally store.State)
      → Adds 0 (span 1 i rs) t (turn_b store rs i t)
  unfolding turn_b
  turn_b-Adds rs i t = elim (Option-cases (get_elem? rs i)) [
    | inl e ↦
        rw (e, turn_b)
          (record {
            total_a = omega arith;
            total_b = omega arith;
            fair_a = λ h. h;
            fair_b = λ h. h;
          })
    | inr (r, e) ↦
        rw (e, turn_b)
          (record {
            total_a = omega arith;
            total_b = omega (
              arith,
              serve_request_counts (some 2) (map (salted 2) r.hash_ids) t.state,
              length-map r.hash_ids (salted 2),
            );
            fair_a = λ h. h;
            fair_b = λ h. omega arith;
          })
  ]

  rounds-Adds :
      (n i : ℕ) (xs ys : List (TraceRecord ℕ)) (t : Tally store.State)
      → Adds (span n i xs) (span n i ys) t (rounds store n i xs ys t)
  unfolding rounds
  rounds-Adds zero i xs ys t = record {
    total_a = omega arith;
    total_b = omega arith;
    fair_a = λ h. h;
    fair_b = λ h. h;
  }
  rounds-Adds (suc n) i xs ys t =
      let u = turn_a store xs i t in
      let a = turn_a-Adds xs i t in
      let b = turn_b-Adds ys i u in
      let c = rounds-Adds n (suc i) xs ys (turn_b store ys i u) in
      record {
        total_a = omega (arith, a.total_a, b.total_a, c.total_a);
        total_b = omega (arith, a.total_b, b.total_b, c.total_b);
        fair_a = λ h. c.fair_a (b.fair_a (a.fair_a h));
        fair_b = λ h. c.fair_b (b.fair_b (a.fair_b h));
      }

  -- Whatever the lengths of the two traces, the replay of the pair serves every block of each
  -- tenant exactly once, and has no more hits of a tenant than blocks.
  pub tally_pair_counts :
      (xs ys : List (TraceRecord ℕ)) (s : store.State)
      → let t = tally_pair store xs ys s in
        (t.total_a ≡ blocks_of xs)
        × (t.total_b ≡ blocks_of ys)
        × (t.hits_a ≤ t.total_a)
        × (t.hits_b ≤ t.total_b)
  unfolding tally_pair
  tally_pair_counts xs ys s =
      let n = max (length xs) (length ys) in
      let h =
        rounds-Adds n 0 xs ys
          (record { state = s; hits_a = 0; total_a = 0; hits_b = 0; total_b = 0 }) in
      (
        omega (arith, h.total_a, span-blocks_of n xs (omega arith)),
        omega (arith, h.total_b, span-blocks_of n ys (omega arith)),
        h.fair_a (omega arith),
        h.fair_b (omega arith),
      )
