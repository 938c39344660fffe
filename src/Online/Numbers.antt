-- ===== src/Online/Numbers.antt =====
-- scripts/bench_online.py: lemmas on the numbers that `run` prints.
use mooncake_kvcache_tiered.Base.{
  ℕ, zero, suc, ◌+◌, ◌-◌, ◌*◌, ◌/◌, ◌%◌, ◌≤◌, ◌<◌, ◌≡◌, ◌≢◌, refl, sym, ◌∙◌, min, some, List, [],
  ◌∷◌, map, at_index, length, length-map, get_elem?, total, total-map, ok, raise, value_error,
  zero_division, ◌>>=◌, ◌==◌, true, false, arith, ℕ_discrete,
}
use mooncake_kvcache_tiered.Framework.{Ratio, insert, sorted}
use mooncake_kvcache_tiered.Framework.Order.{
  count_le, count_lt, length-sorted, sorted-Sorted, get_elem?-mono, at_index-sorted,
}
use mooncake_kvcache_tiered.Online.Request.{Sample}
use mooncake_kvcache_tiered.Online.Summary.{median, p95, mean, divide, Summary, summarize}

-- At most half of the values are below the quotient, and at least half are not above it.
abbrev pub IsMedian : Ratio → List ℕ → Type 0
IsMedian r xs =
    (2 * count_lt r.num (map (λ x. r.den * x) xs) ≤ length xs)
    × (length xs ≤ 2 * count_le r.num (map (λ x. r.den * x) xs))

count_lt-scale :
    (d n w : ℕ) (xs : List ℕ)
    → ((x : ℕ) → d * x < n → x < w)
    → count_lt n (map (λ x. d * x) xs) ≤ count_lt w xs
count_lt-scale d n w [] h = omega arith
count_lt-scale d n w (x ∷ xs) h = ground (arith, h x, count_lt-scale d n w xs h)

count_le-scale :
    (d n v : ℕ) (xs : List ℕ)
    → ((x : ℕ) → x ≤ v → d * x ≤ n)
    → count_le v xs ≤ count_le n (map (λ x. d * x) xs)
count_le-scale d n v [] h = omega arith
count_le-scale d n v (x ∷ xs) h = ground (arith, h x, count_le-scale d n v xs h)

median-odd :
    (xs : List ℕ)
    → 0 < length xs
    → length xs % 2 ≡ 1
    → median xs ≡ (at_index xs (length xs / 2) >>= λ v. ok (record { num = v; den = 1 }))
unfolding median
median-odd [] h g = absurd (omega arith)
median-odd (x ∷ xs) h g = rw (one g)
  where
    one : (suc (length xs)) % 2 ≡ 1 → ((suc (length xs)) % 2 == 1) ≡ true
    one e = ground arith

median-even :
    (xs : List ℕ)
    → 0 < length xs
    → length xs % 2 ≡ 0
    → median xs ≡ (
        at_index xs (length xs / 2 - 1) >>= λ v.
        at_index xs (length xs / 2) >>= λ w. ok (record { num = v + w; den = 2 }))
unfolding median
median-even [] h g = absurd (omega arith)
median-even (x ∷ xs) h g = rw (two g)
  where
    two : (suc (length xs)) % 2 ≡ 0 → ((suc (length xs)) % 2 == 1) ≡ false
    two e = ground arith

-- The median of an odd and of an even number of values, and the value in the upper middle.
median_odd_lem :
    (xs : List ℕ)
    → 0 < length xs
    → length xs % 2 ≡ 1
    → (r : Ratio) × (w : ℕ) × (median (sorted xs) ≡ ok r)
      × IsMedian r xs
      × (get_elem? (sorted xs) (length xs / 2) ≡ some w)
      × ((u : ℕ) → w ≤ u → r.num ≤ r.den * u)
median_odd_lem xs h odd =
    let (w, e, f, below, above) = at_index-sorted xs (length xs / 2) (omega arith) in
    (
      record { num = w; den = 1 },
      w,
      median-odd (sorted xs) (omega (arith, length-sorted xs)) (rw (length-sorted xs) odd)
          ∙ rw (length-sorted xs, e) refl,
      (
        omega (arith, below, count_lt-scale 1 w w xs (λ x g. omega arith)),
        omega (arith, above, count_le-scale 1 w w xs (λ x g. omega arith)),
      ),
      f,
      λ u i. omega arith,
    )

median_even_lem :
    (xs : List ℕ)
    → 0 < length xs
    → length xs % 2 ≡ 0
    → (r : Ratio) × (w : ℕ) × (median (sorted xs) ≡ ok r)
      × IsMedian r xs
      × (get_elem? (sorted xs) (length xs / 2) ≡ some w)
      × ((u : ℕ) → w ≤ u → r.num ≤ r.den * u)
median_even_lem xs h even =
    let (v, d, g, below, above) = at_index-sorted xs (length xs / 2 - 1) (omega arith) in
    let (w, e, f, below', above') = at_index-sorted xs (length xs / 2) (omega arith) in
    let le =
      get_elem?-mono (sorted xs) (length xs / 2 - 1) (length xs / 2) v w (sorted-Sorted xs)
        (omega arith) g f in
    (
      record { num = v + w; den = 2 },
      w,
      median-even (sorted xs) (omega (arith, length-sorted xs)) (rw (length-sorted xs) even)
          ∙ rw (length-sorted xs, d, e) refl,
      (
        omega (arith, below', count_lt-scale 2 (v + w) w xs (λ x i. omega (arith, le))),
        omega (arith, above, count_le-scale 2 (v + w) v xs (λ x i. omega (arith, le))),
      ),
      f,
      λ u i. omega (arith, le),
    )

-- At most 95 % of the values are below the number, and more are not above it.
abbrev pub IsP95 : ℕ → List ℕ → Type 0
IsP95 v xs = (100 * count_lt v xs ≤ 95 * length xs) × (95 * length xs < 100 * count_le v xs)

p95_lem :
    (xs : List ℕ)
    → 0 < length xs
    → (v : ℕ) × (p95 (sorted xs) ≡ ok v)
      × IsP95 v xs
      × (get_elem? (sorted xs) (95 * length xs / 100) ≡ some v)
unfolding p95
p95_lem xs h =
    let (v, e, f, below, above) = at_index-sorted xs (95 * length xs / 100) (omega arith) in
    let place : min (length xs - 1) (95 * length xs / 100) ≡ 95 * length xs / 100 = omega arith in
    (v, rw (length-sorted xs, place, e) refl, (omega (arith, below), omega (arith, above)), f)

median_p95_lem :
    (xs : List ℕ)
    → 0 < length xs
    → (r : Ratio) × (v : ℕ) × (median (sorted xs) ≡ ok r)
      × IsMedian r xs
      × (p95 (sorted xs) ≡ ok v)
      × IsP95 v xs
      × (r.num ≤ r.den * v)
median_p95_lem xs h =
    let (r, w, e, m, f, le) = middle in
    let (v, i, p, g) = p95_lem xs h in
    let up =
      get_elem?-mono (sorted xs) (length xs / 2) (95 * length xs / 100) w v (sorted-Sorted xs)
        (omega arith) f g in
    (r, v, e, m, i, p, le v up)
  where
    middle :
        (r : Ratio) × (w : ℕ) × (median (sorted xs) ≡ ok r)
        × IsMedian r xs
        × (get_elem? (sorted xs) (length xs / 2) ≡ some w)
        × ((u : ℕ) → w ≤ u → r.num ≤ r.den * u)
    middle = elim (ℕ_discrete (length xs % 2) 1) [
      | yes odd ↦ median_odd_lem xs h odd
      | no even ↦ median_even_lem xs h (omega (arith, even))
    ]

total-insert : (x : ℕ) (ys : List ℕ) → total (λ t. t) (insert x ys) ≡ x + total (λ t. t) ys
unfolding insert
total-insert x [] = refl
total-insert x (y ∷ ys) = ground (arith, total-insert x ys)

total-sorted : (xs : List ℕ) → total (λ t. t) (sorted xs) ≡ total (λ t. t) xs
unfolding sorted
total-sorted [] = refl
total-sorted (x ∷ xs) = omega (arith, total-insert x (sorted xs), total-sorted xs)

mean_lem :
    (xs : List ℕ)
    → 0 < length xs
    → mean (sorted xs) ≡ ok (record { num = total (λ t. t) xs; den = length xs })
unfolding mean
mean_lem xs h = go (sorted xs) (length-sorted xs) (total-sorted xs)
  where
    go :
        (ys : List ℕ)
        → length ys ≡ length xs
        → total (λ t. t) ys ≡ total (λ t. t) xs
        → mean ys ≡ ok (record { num = total (λ t. t) xs; den = length xs })
    go [] e f = absurd (omega arith)
    go (y ∷ ys) e f = rw (sym e, sym f) refl

divide_positive : (a b : ℕ) → 0 < b → divide a b ≡ ok (record { num = a; den = b })
unfolding divide
divide_positive a zero h = absurd (omega arith)
divide_positive a (suc b) h = refl

-- The numbers that `run` prints of the results of a run: it raises `StatisticsError`, a `ValueError`,
-- if there are none, and `ZeroDivisionError` if no time has passed. Otherwise it raises nothing and
-- counts requests and tokens, and takes the mean of the times to the first token; at most half of these are below the first
-- quantile and at least half not above it, for the second at most 95 % below it and more than 95 %
-- not above it, and the first is not above the second.
pub summarize_lem :
    (results : List Sample) (wall : ℕ)
    → (results ≡ [] → summarize results wall ≡ raise value_error)
      × (results ≢ [] → wall ≡ 0 → summarize results wall ≡ raise zero_division)
      × (results ≢ []
          → 0 < wall
          → (s : Summary) × (summarize results wall ≡ ok s)
            × (s.requests ≡ length results)
            × (s.gen_tokens ≡ total (λ r. r.tokens) results)
            × (s.ttft_mean.num ≡ total (λ r. r.ttft) results)
            × (s.ttft_mean.den ≡ length results)
            × (s.token_rate.num ≡ s.gen_tokens)
            × (s.token_rate.den ≡ wall)
            × IsMedian s.ttft_p50 (map (λ r. r.ttft) results)
            × IsP95 s.ttft_p95 (map (λ r. r.ttft) results)
            × (s.ttft_p50.num ≤ s.ttft_p50.den * s.ttft_p95))
unfolding summarize divide median sorted
summarize_lem [] wall = (λ h. refl, λ h. absurd (h refl), λ h. absurd (h refl))
summarize_lem (x ∷ rest) wall =
    let results = x ∷ rest in
    let ttfts = map (λ r. r.ttft) results in
    let many : 0 < length ttfts = omega arith in
    let (r, v, e, m, i, p, le) = median_p95_lem ttfts many in
    (
      λ h. cc,
      λ h g. rw (g, e, i, mean_lem ttfts many),
      λ h g. (
        record {
          requests = length results;
          ttft_p50 = r;
          ttft_p95 = v;
          ttft_mean = (record { num = total (λ t. t) ttfts; den = length ttfts });
          wall = wall;
          gen_tokens = total (λ s. s.tokens) results;
          token_rate = (record { num = total (λ s. s.tokens) results; den = wall });
        },
        rw (e, i, mean_lem ttfts many, divide_positive (total (λ s. s.tokens) results) wall g) refl,
        refl,
        refl,
        total-map (λ t. t) (λ r. r.ttft) results,
        length-map results (λ r. r.ttft),
        refl,
        refl,
        (m.0, m.1),
        (p.0, p.1),
        le,
      ),
    )
