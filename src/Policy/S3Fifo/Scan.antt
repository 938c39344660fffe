-- ===== src/Policy/S3Fifo/Scan.antt =====
-- python/bench/policies.py: `S3FifoPolicy` under a scan of new keys.
use mooncake_kvcache_tiered.Base.{
  ℕ, ◌+◌, ◌≤◌, ◌≡◌, refl, ◌∙◌, List, [], ◌∷◌, Key, same, count, arith,
}
use mooncake_kvcache_tiered.Dict.{Dict, set, occurs}
use mooncake_kvcache_tiered.Dict.Laws.{contains-occurs, occurs-set}
use mooncake_kvcache_tiered.Dict.Trim.{occurs-trim}
use mooncake_kvcache_tiered.Policy.S3Fifo.{
  S3FifoPolicy, pass_on, shrink_small, insert_small, admit, access, contains_key, resident,
}

module _ {K : Type 0} ⦃key : Key K⦄ where
  -- No entry was used again since it came in.
  abbrev pub IsOnce : Dict K ℕ → Type 0
  IsOnce [] = Unit {0}
  IsOnce ((_, freq) ∷ d) = (freq ≡ 0) × IsOnce d

  IsOnce-set : (k : K) (d : Dict K ℕ) → IsOnce d → IsOnce (set k 0 d)
  unfolding set
  IsOnce-set k [] h = (refl, tt)
  IsOnce-set k ((j, f) ∷ d) h = ground (arith, IsOnce-set k d h.1)

  pass_on-main : (k : K) (s : S3FifoPolicy K) → (pass_on k 0 s).0.main ≡ s.main
  unfolding pass_on
  pass_on-main k s = refl

  ghost-pass_on :
      (j k : K) (s : S3FifoPolicy K)
      → occurs j (pass_on k 0 s).0.ghost ≤ same j k + occurs j s.ghost
  unfolding pass_on
  ghost-pass_on j k s =
      ground (arith, occurs-trim j s.ghost_cap (set k tt s.ghost), occurs-set j k tt s.ghost)

  shrink_small-IsOnce :
      (d : Dict K ℕ) (s : S3FifoPolicy K)
      → IsOnce d
      → ((shrink_small d s).0.main ≡ s.main) × IsOnce (shrink_small d s).0.small
  unfolding shrink_small
  shrink_small-IsOnce [] s h = (refl, tt)
  shrink_small-IsOnce ((k, f) ∷ d) s h =
      ground (arith, pass_on-main k s, shrink_small-IsOnce d (pass_on k f s).0 h.1)

  shrink_small_spread :
      (j : K) (d : Dict K ℕ) (s : S3FifoPolicy K)
      → IsOnce d
      → occurs j (shrink_small d s).0.small + occurs j (shrink_small d s).0.ghost
        ≤ occurs j d + occurs j s.ghost
  unfolding shrink_small occurs
  shrink_small_spread j [] s h = omega arith
  shrink_small_spread j ((k, f) ∷ d) s h =
      ground (arith, ghost-pass_on j k s, shrink_small_spread j d (pass_on k f s).0 h.1)

  -- An access of a key that no queue knows.
  access_new :
      (k : K) (i : ℕ) (s : S3FifoPolicy K)
      → resident k s + occurs k s.ghost ≡ 0
      → (access k i s).0 ≡ (shrink_small (set k 0 s.small) s).0
  unfolding access admit insert_small contains_key
  access_new k i s h =
      ground (arith, contains-occurs k s.small, contains-occurs k s.main, contains-occurs k s.ghost)

  -- The blocks of a request are accessed in order, `i` counts them.
  unfoldable pub access_all : List K → ℕ → S3FifoPolicy K → S3FifoPolicy K
  access_all [] i s = s
  access_all (k ∷ ks) i s = access_all ks (i + 1) (access k i s).0

  -- The keys of the scan are distinct, and no queue knows them.
  abbrev pub IsNew : List K → S3FifoPolicy K → Type 0
  IsNew ks s = (j : K) → count j ks + resident j s + occurs j s.ghost ≤ 1

  -- A scan, of any length, of distinct keys that no queue knows leaves the main queue as it was, if
  -- no key of the small queue was used again; and none is afterwards.
  pub access_all-main :
      (ks : List K) (i : ℕ) (s : S3FifoPolicy K)
      → IsNew ks s
      → IsOnce s.small
      → ((access_all ks i s).main ≡ s.main) × IsOnce (access_all ks i s).small
  unfolding access_all
  access_all-main [] i s n h = (refl, h)
  access_all-main (k ∷ ks) i s n h =
      let next = access_all-main ks (i + 1) (access k i s).0 later once in (next.0 ∙ kept, next.1)
    where
      absent : resident k s + occurs k s.ghost ≡ 0
      absent = ground (arith, n k)

      queued : IsOnce (set k 0 s.small)
      queued = IsOnce-set k s.small h

      kept : (access k i s).0.main ≡ s.main
      kept = rw (access_new k i s absent) (shrink_small-IsOnce (set k 0 s.small) s queued).0

      once : IsOnce (access k i s).0.small
      once = rw (access_new k i s absent) (shrink_small-IsOnce (set k 0 s.small) s queued).1

      later : IsNew ks (access k i s).0
      later j = rw (access_new k i s absent) (
          ground (
            arith,
            n j,
            shrink_small-IsOnce (set k 0 s.small) s queued,
            shrink_small_spread j (set k 0 s.small) s queued,
            occurs-set j k 0 s.small,
          ))
