-- ===== src/Framework/Ranks.antt =====
-- python/bench/framework.py: lemmas on `percentiles`, against the definition of a nearest-rank
-- percentile.
use mooncake_kvcache_tiered.Base.{
  ℕ, ◌+◌, ◌-◌, ◌*◌, ◌/◌, ◌≤◌, ◌<◌, ◌≡◌, refl, max, some, List, [], ◌∷◌, arith, ltb, length,
  get_elem?, ok, raise, value_error, subst, sym, ltb→lt, not-ltb→le, Bool-cases, inl, inr, ◌⊎◌,
}
use native.Mathlib.Nat.{mul-le-mul_right}
use mooncake_kvcache_tiered.Framework.{sorted, rank, nearest_rank, percentiles, Percentiles}
use mooncake_kvcache_tiered.Framework.Order.{
  count_le, count_lt, count_le-sorted, count_lt-sorted, length-sorted, sorted-Sorted,
  get_elem?-Sorted, count_le-count_lt,
}

-- `v` is the `p`-th percentile by the nearest rank: fewer than `p` per cent of the samples are below
-- it, at least `p` per cent are not above it, and it is one of the samples.
pub record IsPercentile (p v : ℕ) (xs : List ℕ) : Type 0 where
  pub below : 100 * count_lt v xs < p * length xs
  upto : p * length xs ≤ 100 * count_le v xs
  pub sample : count_lt v xs < count_le v xs

rank_arith :
    (m n : ℕ)
    → 0 < m
    → m ≤ 100 * n
    → (max 1 ((m + 99) / 100) - 1 < n)
      × (100 * (max 1 ((m + 99) / 100) - 1) < m)
      × (m ≤ 100 * max 1 ((m + 99) / 100))
rank_arith m n h g = (omega arith, omega arith, omega arith)

rank-bounds :
    (p n : ℕ)
    → 0 < p
    → p ≤ 100
    → 0 < n
    → (rank p n - 1 < n) × (100 * (rank p n - 1) < p * n) × (p * n ≤ 100 * rank p n)
unfolding rank
rank-bounds p n h g k =
    rank_arith (p * n) n (omega (arith, mul-le-mul_right n h)) (omega (arith, mul-le-mul_right n g))

nearest_rank-some :
    (xs : List ℕ) (p v : ℕ)
    → get_elem? xs (rank p (length xs) - 1) ≡ some v
    → nearest_rank xs p ≡ ok v
unfolding nearest_rank
nearest_rank-some xs p v e = rw (e, nearest_rank)

nearest_rank-IsPercentile :
    (p : ℕ) (xs : List ℕ)
    → 0 < p
    → p ≤ 100
    → 0 < length xs
    → (v : ℕ) × (nearest_rank (sorted xs) p ≡ ok v) × IsPercentile p v xs
nearest_rank-IsPercentile p xs h g k =
    let (fits, low, high) = rank-bounds p (length xs) h g k in
    let (v, e, below, above, least) =
      get_elem?-Sorted (sorted xs) (rank p (length xs) - 1) (sorted-Sorted xs)
        (omega (arith, length-sorted xs)) in
    (
      v,
      nearest_rank-some (sorted xs) p v
          (subst (λ l. get_elem? (sorted xs) (rank p l - 1) ≡ some v) (sym (length-sorted xs)) e),
      record {
        below = omega (arith, count_lt-sorted v xs);
        upto = omega (arith, count_le-sorted v xs);
        sample = omega (arith, count_lt-sorted v xs, count_le-sorted v xs);
      },
    )

-- A smaller percentage has a smaller percentile.
IsPercentile-mono :
    (p q v w : ℕ) (xs : List ℕ) → p ≤ q → IsPercentile p v xs → IsPercentile q w xs → v ≤ w
IsPercentile-mono p q v w xs h a b = elim (Bool-cases (ltb w v)) [
  | inl e ↦ absurd (
      omega (
        arith,
        ltb→lt w v e,
        count_le-count_lt w v xs (ltb→lt w v e),
        mul-le-mul_right (length xs) h,
        a.below,
        b.upto,
      ))
  | inr e ↦ not-ltb→le w v e
]

-- `percentiles` raises `ValueError` on no samples and nothing on any others: the three values are
-- then nearest-rank percentiles, in order.
pub percentiles-IsPercentile :
    (xs : List ℕ)
    → ((xs ≡ []) × (percentiles xs ≡ raise value_error))
      ⊎ ((q : Percentiles) × (percentiles xs ≡ ok q)
          × IsPercentile 50 q.p50 xs
          × IsPercentile 90 q.p90 xs
          × IsPercentile 99 q.p99 xs
          × (q.p50 ≤ q.p90)
          × (q.p90 ≤ q.p99))
unfolding percentiles
percentiles-IsPercentile [] = inl (refl, refl)
percentiles-IsPercentile (x ∷ xs) =
    let (a, e, h) =
      nearest_rank-IsPercentile 50 (x ∷ xs) (omega arith) (omega arith) (omega arith) in
    let (b, f, g) =
      nearest_rank-IsPercentile 90 (x ∷ xs) (omega arith) (omega arith) (omega arith) in
    let (c, i, k) =
      nearest_rank-IsPercentile 99 (x ∷ xs) (omega arith) (omega arith) (omega arith) in
    inr (
      record { p50 = a; p90 = b; p99 = c },
      rw (e, percentiles, f, i),
      h,
      g,
      k,
      IsPercentile-mono 50 90 a b (x ∷ xs) (omega arith) h g,
      IsPercentile-mono 90 99 b c (x ∷ xs) (omega arith) g k,
    )
