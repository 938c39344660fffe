-- ===== src/Online.antt =====
-- scripts/bench_online.py: the texts that the online benchmark makes. The generator of random numbers
-- is given as a record.
pub mod Dataset
pub mod Sessions
pub mod Request
pub mod Stream
pub mod Schedule
pub mod Slots
pub mod Runs
pub mod Progress
pub mod Prompts
pub mod Summary
pub mod Numbers
pub mod Opening
use mooncake_kvcache_tiered.Base.{ℕ, zero, suc, ◌<◌, List, [], ◌∷◌, length}
use mathlib.Core.List.{Perm}
use mooncake_kvcache_tiered.Text.{Text, join}

-- `random.Random`: `below n` is the index that `choice` takes from `n` elements.
pub record Random : Type 1 where
  pub State : Type 0
  pub seed : ℕ → State
  pub below : ℕ → State → State × ℕ
  pub shuffle : {A : Type 0} → List A → State → State × List A
  pub below-lt : (n : ℕ) (s : State) → 0 < n → (below n s).1 < n
  pub shuffle-Perm : {A : Type 0} (xs : List A) (s : State) → Perm xs (shuffle xs s).1

-- `_WORDS`
abbrev pub vocabulary : List Text
vocabulary =
    (23384 ∷ 20648 ∷ [])
    ∷ (20998 ∷ 23618 ∷ [])
    ∷ (32531 ∷ 23384 ∷ [])
    ∷ (28120 ∷ 27760 ∷ [])
    ∷ (39044 ∷ 21462 ∷ [])
    ∷ (21629 ∷ 20013 ∷ [])
    ∷ (21069 ∷ 32512 ∷ [])
    ∷ (22797 ∷ 29992 ∷ [])
    ∷ (25512 ∷ 29702 ∷ [])
    ∷ (26174 ∷ 23384 ∷ [])
    ∷ (20869 ∷ 23384 ∷ [])
    ∷ (22359 ∷ [])
    ∷ (38190 ∷ 20540 ∷ [])
    ∷ (20250 ∷ 35805 ∷ [])
    ∷ (35843 ∷ 24230 ∷ [])
    ∷ (20256 ∷ 36755 ∷ [])
    ∷ (24341 ∷ 25806 ∷ [])
    ∷ (27169 ∷ 22411 ∷ [])
    ∷ (19978 ∷ 19979 ∷ 25991 ∷ [])
    ∷ (20196 ∷ 29260 ∷ [])
    ∷ []

-- The word at an index; `choice` has none that is too large.
unfoldable pub word_at : List Text → ℕ → Text
word_at [] i = []
word_at (w ∷ ws) zero = w
word_at (w ∷ ws) (suc i) = word_at ws i

module _ (random : Random) where
  unfoldable pub choice : random.State → random.State × Text
  choice rng = let (rng', i) = random.below (length vocabulary) rng in (rng', word_at vocabulary i)

  unfoldable pub make_words : ℕ → random.State → random.State × List Text
  make_words zero rng = (rng, [])
  make_words (suc n) rng =
      let (rng', w) = choice rng in let (rng'', ws) = make_words n rng' in (rng'', w ∷ ws)

  unfoldable pub make_text : ℕ → random.State → random.State × Text
  make_text tokens rng = let (rng', ws) = make_words tokens rng in (rng', join (32 ∷ []) ws)
