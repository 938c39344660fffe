-- ===== src/Policy/S3Fifo/Queues.antt =====
-- python/bench/policies.py: lemmas on the loops over one queue of `S3FifoPolicy`.
use mooncake_kvcache_tiered.Base.{
  ℕ, zero, suc, ◌+◌, ◌-◌, ◌≤◌, ◌≡◌, refl, List, [], ◌∷◌, Key, same, count, arith, length, if_pos,
  if_neg,
}
use mooncake_kvcache_tiered.Dict.{Dict, Distinct, set, occurs}
use mooncake_kvcache_tiered.Dict.Laws.{length-set, occurs-set}
use mooncake_kvcache_tiered.Policy.S3Fifo.{weight, requeue, evicted, shrink_main}

module _ {K : Type 0} ⦃key : Key K⦄ where
  weight-set-le : (k : K) (f : ℕ) (d : Dict K ℕ) → weight (set k f d) ≤ weight d + suc f
  unfolding weight set
  weight-set-le k f [] = omega arith
  weight-set-le k f ((j, w) ∷ d) = elim (key.dec k j) [
    | yes p ↦ rw (if_pos (key.dec k j) p) (omega arith)
    | no p ↦ rw (if_neg (key.dec k j) p) (omega (arith, weight-set-le k f d))
  ]

  weight-requeue-le : (k : K) (f : ℕ) (d : Dict K ℕ) → weight (requeue k f d) ≤ weight d + f
  unfolding requeue
  weight-requeue-le k f d = ground (arith, weight-set-le k (f - 1) d)

  occurs-requeue-evicted :
      (j k : K) (f : ℕ) (d : Dict K ℕ) (gone : List K)
      → occurs k d ≡ 0
      → occurs j (requeue k f d) + count j (evicted k f gone) ≡ same j k + occurs j d + count j gone
  unfolding requeue evicted
  occurs-requeue-evicted j k f d gone h = ground (arith, occurs-set j k (f - 1) d)

  occurs-requeue-le :
      (j k : K) (f : ℕ) (d : Dict K ℕ)
      → occurs k d ≡ 0
      → occurs j (requeue k f d) ≤ same j k + occurs j d
  unfolding requeue
  occurs-requeue-le j k f d h = ground (arith, occurs-set j k (f - 1) d)

  -- With the weight as fuel the loop ends because the queue fits.
  pub length-shrink_main :
      (fuel cap : ℕ) (d : Dict K ℕ) → weight d ≤ fuel → length (shrink_main fuel cap d).0 ≤ cap
  unfolding shrink_main weight
  length-shrink_main zero cap [] h = omega arith
  length-shrink_main zero cap (e ∷ d) h = absurd (omega arith)
  length-shrink_main (suc fuel) cap [] h = omega arith
  length-shrink_main (suc fuel) cap ((victim, freq) ∷ d) h =
      ground (
        arith,
        weight-requeue-le victim freq d,
        length-shrink_main fuel cap (requeue victim freq d),
      )

  pub occurs-shrink_main :
      (j : K) (fuel cap : ℕ) (d : Dict K ℕ)
      → Distinct d
      → occurs j (shrink_main fuel cap d).0 + count j (shrink_main fuel cap d).1 ≡ occurs j d
  unfolding shrink_main occurs
  occurs-shrink_main j zero cap d h = omega arith
  occurs-shrink_main j (suc fuel) cap [] h = refl
  occurs-shrink_main j (suc fuel) cap ((victim, freq) ∷ d) h = ground (
    arith,
    absent,
    occurs-requeue-evicted j victim freq d (shrink_main fuel cap (requeue victim freq d)).1 absent,
    occurs-shrink_main j fuel cap (requeue victim freq d) distinct,
  )
    where
      absent : occurs victim d ≡ 0
      absent = ground (arith, h victim)

      distinct : Distinct (requeue victim freq d)
      distinct i = ground (arith, occurs-requeue-le i victim freq d absent, h i)

  length-evicted :
      (k : K) (f room : ℕ) (d : Dict K ℕ) (gone : List K)
      → room ≤ length d
      → length gone ≤ length (requeue k f d) - room
      → length (evicted k f gone) ≤ suc (length d) - room
  unfolding evicted requeue
  length-evicted k f room d gone h g = ground (arith, length-set k (f - 1) d)

  pub length-shrink_main_gone :
      (fuel cap : ℕ) (d : Dict K ℕ) → length (shrink_main fuel cap d).1 ≤ length d - cap
  unfolding shrink_main
  length-shrink_main_gone zero cap d = omega arith
  length-shrink_main_gone (suc fuel) cap [] = omega arith
  length-shrink_main_gone (suc fuel) cap ((victim, freq) ∷ d) = ground (
    arith,
    length-evicted victim freq cap d (shrink_main fuel cap (requeue victim freq d)).1,
    length-shrink_main_gone fuel cap (requeue victim freq d),
  )
