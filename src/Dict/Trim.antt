-- ===== src/Dict/Trim.antt =====
-- The loop `while len(d) > n: d.popitem(last=False)`, which drops the oldest entries.
use mooncake_kvcache_tiered.Base.{
  ℕ, ◌+◌, ◌-◌, ◌≤◌, min, ◌≡◌, refl, List, [], ◌∷◌, Key, arith, length, ltb, if◌then◌else◌, count,
  map, newest,
}
use mooncake_kvcache_tiered.Dict.{Dict, occurs}

module _ {K V : Type 0} where
  -- The keys, oldest first.
  abbrev pub keys : Dict K V → List K
  keys = map (λ e. e.0)

  -- The entries that stay, and the keys that go, oldest first.
  unfoldable pub trim : ℕ → Dict K V → Dict K V × List K
  trim n [] = ([], [])
  trim n (e ∷ d) =
      let (kept, gone) = trim n d in
      if ltb n (length (e ∷ d)) then (kept, e.0 ∷ gone) else (e ∷ d, [])

  pub length-trim : (n : ℕ) (d : Dict K V) → length (trim n d).0 ≡ min n (length d)
  unfolding trim
  length-trim n [] = omega arith
  length-trim n (e ∷ d) = ground (arith, length-trim n d)

  pub length-trim_gone : (n : ℕ) (d : Dict K V) → length (trim n d).1 ≡ length d - n
  unfolding trim
  length-trim_gone n [] = ground arith
  length-trim_gone n (e ∷ d) = ground (arith, length-trim_gone n d)

  -- The newest `n` entries stay.
  pub trim-newest : (n : ℕ) (d : Dict K V) → (trim n d).0 ≡ newest n d
  unfolding trim newest
  trim-newest n [] = refl
  trim-newest n (e ∷ d) = ground (arith, trim-newest n d)

module _ {K V : Type 0} ⦃key : Key K⦄ where
  -- Each entry stays or goes.
  pub occurs-trim :
      (j : K) (n : ℕ) (d : Dict K V) → occurs j (trim n d).0 + count j (trim n d).1 ≡ occurs j d
  unfolding trim occurs
  occurs-trim j n [] = refl
  occurs-trim j n (e ∷ d) = ground (arith, occurs-trim j n d)

  -- Only what was there goes.
  pub trim-le : (n : ℕ) (d : Dict K V) → length d ≤ n → trim n d ≡ (d, [])
  unfolding trim
  trim-le n [] h = refl
  trim-le n (e ∷ d) h = ground arith
