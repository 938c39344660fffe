-- ===== src/Offload/Valid.antt =====
-- python/vllm_adapter/offloading_spec.py: the invariant of `S3FIFOCachePolicy`, and lemmas on
-- what an eviction drops.
use mooncake_kvcache_tiered.Base.{
  ℕ, ◌+◌, ◌≤◌, ◌≡◌, refl, none, some, List, [], ◌∷◌, ◌++◌, map, Key, count, arith, length, inl, inr,
  Option-cases,
}
use mooncake_kvcache_tiered.Dict.{Dict, occurs, lookup, set, move_to_end}
use mooncake_kvcache_tiered.Dict
use mooncake_kvcache_tiered.Dict.Laws.{occurs-set, occurs-remove, occurs-move_to_end}
use mooncake_kvcache_tiered.Dict.Trim.{trim, length-trim, occurs-trim}
use mooncake_kvcache_tiered.Offload.State.{S3FifoCachePolicy, NoneValue}
use mooncake_kvcache_tiered.Offload.Methods.{ghost_insert}

module _ {K : Type 0} ⦃key : Key K⦄ where
  -- Every value is Python's `None`.
  abbrev pub AllNone : Dict K NoneValue → Type 0
  AllNone [] = Unit {0}
  AllNone ((_, v) ∷ d) = (v ≡ none) × AllNone d

  AllNone-set : (k : K) (d : Dict K NoneValue) → AllNone d → AllNone (set k none d)
  unfolding set
  AllNone-set k [] h = (refl, tt)
  AllNone-set k ((j, v) ∷ d) h = ground (arith, AllNone-set k d h.1)

  pub AllNone-remove : (k : K) (d : Dict K NoneValue) → AllNone d → AllNone (Dict.remove k d)
  unfolding Dict.remove
  AllNone-remove k [] h = tt
  AllNone-remove k ((j, v) ∷ d) h = ground (arith, AllNone-remove k d h.1)

  AllNone-append : (d e : Dict K NoneValue) → AllNone d → AllNone e → AllNone (d ++ e)
  AllNone-append [] e h g = g
  AllNone-append ((j, v) ∷ d) e h g = (h.0, AllNone-append d e h.1 g)

  pub lookup-AllNone :
      (k : K) (d : Dict K NoneValue) (v : NoneValue) → AllNone d → lookup k d ≡ some v → v ≡ none
  unfolding lookup
  lookup-AllNone k [] v h e = cc
  lookup-AllNone k ((j, w) ∷ d) v h e = ground (arith, lookup-AllNone k d v h.1)

  AllNone-move_to_end : (k : K) (d : Dict K NoneValue) → AllNone d → AllNone (move_to_end k d)
  unfolding move_to_end
  AllNone-move_to_end k d h = elim (Option-cases (lookup k d)) [
    | inl e ↦ rw (e, move_to_end) h
    | inr (v, e) ↦
        rw (e, move_to_end)
          (AllNone-append (Dict.remove k d) ((k, v) ∷ []) (AllNone-remove k d h)
            (lookup-AllNone k d v h e, tt))
  ]

  AllNone-trim : (n : ℕ) (d : Dict K NoneValue) → AllNone d → AllNone (trim n d).0
  unfolding trim
  AllNone-trim n [] h = tt
  AllNone-trim n ((j, v) ∷ d) h = ground (arith, AllNone-trim n d h.1)

module _ {K B : Type 0} ⦃key : Key K⦄ where
  -- The blocks but the keys `vs`, which are still to be dropped, stand in one queue each.
  pub record IsValidBut (vs : List K) (s : S3FifoCachePolicy K B) : Type 0 where
    pub once : (j : K) → occurs j s.blocks ≤ 1
    pub queued : (j : K) → occurs j s.small + occurs j s.main + count j vs ≡ occurs j s.blocks
    pub counted : (j : K) → occurs j s.freq ≡ occurs j s.blocks
    pub marked : (j : K) → occurs j s.evictable ≤ occurs j s.blocks
    pub apart : (j : K) → occurs j s.ghost + occurs j s.blocks ≤ 1
    pub ghosts_bounded : length s.ghost ≤ s.ghost_capacity
    pub ghosts_none : AllNone s.ghost

  -- Each block has a frequency and stands in one queue; no ghost is a block.
  abbrev pub IsValid : S3FifoCachePolicy K B → Type 0
  IsValid = IsValidBut []

  -- The blocks that are returned are those that were held.
  abbrev pub Held : Dict K B → List (K × B) → Type 0
  Held d [] = Unit {0}
  Held d ((k, b) ∷ r) = (lookup k d ≡ some b) × Held d r

  abbrev pub dropped_keys : List (K × B) → List K
  dropped_keys = map (λ r. r.0)

  -- What is left of the fields after a victim.
  abbrev pub dropped : K → S3FifoCachePolicy K B → S3FifoCachePolicy K B
  dropped k s = record s {
    blocks = Dict.remove k s.blocks;
    freq = Dict.remove k s.freq;
    evictable = Dict.remove k s.evictable;
  }

  pub dropped-IsValidBut :
      (k : K) (vs : List K) (s : S3FifoCachePolicy K B)
      → IsValidBut (k ∷ vs) s
      → IsValidBut vs (dropped k s)
  dropped-IsValidBut k vs s v = record {
    once = λ j. omega (arith, occurs-remove j k s.blocks, v.once j);
    queued = λ j. ground (arith, occurs-remove j k s.blocks, v.queued j);
    counted = λ j. omega (arith, occurs-remove j k s.blocks, occurs-remove j k s.freq, v.counted j);
    marked =
        λ j. omega (arith, occurs-remove j k s.blocks, occurs-remove j k s.evictable, v.marked j);
    apart = λ j. omega (arith, occurs-remove j k s.blocks, v.apart j);
    ghosts_bounded = v.ghosts_bounded;
    ghosts_none = v.ghosts_none;
  }

  pub ghost_insert-IsValidBut :
      (k : K) (vs : List K) (s : S3FifoCachePolicy K B)
      → occurs k s.blocks ≡ 0
      → IsValidBut vs s
      → IsValidBut vs (ghost_insert k s)
  unfolding ghost_insert
  ghost_insert-IsValidBut k vs s h v = record {
    once = v.once;
    queued = v.queued;
    counted = v.counted;
    marked = v.marked;
    apart = λ j. ground (
      arith,
      occurs-trim j s.ghost_capacity (move_to_end k (set k none s.ghost)),
      occurs-move_to_end j k (set k none s.ghost),
      occurs-set j k none s.ghost,
      v.apart j,
      v.once j,
    );
    ghosts_bounded =
        omega (arith, length-trim s.ghost_capacity (move_to_end k (set k none s.ghost)));
    ghosts_none =
        AllNone-trim s.ghost_capacity _
          (AllNone-move_to_end k _ (AllNone-set k s.ghost v.ghosts_none));
  }
