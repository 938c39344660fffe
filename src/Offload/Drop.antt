-- ===== src/Offload/Drop.antt =====
-- python/vllm_adapter/offloading_spec.py: lemmas on the last loop of `evict`, which drops the
-- victims.
use mooncake_kvcache_tiered.Base.{
  ◌+◌, ◌≤◌, ◌≡◌, refl, ap, sym, ◌∙◌, Bool, true, false, some, List, [], ◌∷◌, Key, count, arith, inl,
  inr, Option-cases, if◌then◌else◌, ok,
}
use mooncake_kvcache_tiered.Dict.{Dict, occurs, lookup}
use mooncake_kvcache_tiered.Dict
use mooncake_kvcache_tiered.Dict.Laws.{
  occurs-remove, lookup-none_occurs, lookup-some_occurs, lookup-remove_ne,
}
use mooncake_kvcache_tiered.Offload.State.{S3FifoCachePolicy}
use mooncake_kvcache_tiered.Offload.Methods.{ghost_insert, drop_victim, drop_victims}
use mooncake_kvcache_tiered.Offload.Kept.{keys_of}
use mooncake_kvcache_tiered.Offload.Valid.{
  IsValidBut, IsValid, Held, dropped, dropped_keys, dropped-IsValidBut, ghost_insert-IsValidBut,
}

module _ {K B : Type 0} ⦃key : Key K⦄ where
  drop_victim_lem :
      (k : K) (b : Bool) (vs : List K) (s : S3FifoCachePolicy K B)
      → IsValidBut (k ∷ vs) s
      → (s' : S3FifoCachePolicy K B) × (block : B) × (drop_victim k b s ≡ ok (s', block))
        × IsValidBut vs s'
        × (lookup k s.blocks ≡ some block)
        × (s'.blocks ≡ Dict.remove k s.blocks)
  unfolding drop_victim ghost_insert
  drop_victim_lem k b vs s v = elim (Option-cases (lookup k s.blocks)) [
    | inl e ↦ absurd (ground (arith, lookup-none_occurs k s.blocks e, v.queued k))
    | inr (block, e) ↦ (
      if b then ghost_insert k (dropped k s) else dropped k s,
      block,
      rw (e, drop_victim),
      valid b,
      e,
      blocks_of b,
    )
  ]
    where
      gone : occurs k (Dict.remove k s.blocks) ≡ 0
      gone = ground (arith, occurs-remove k k s.blocks, v.once k)

      valid : (b : Bool) → IsValidBut vs (if b then ghost_insert k (dropped k s) else dropped k s)
      valid true = ghost_insert-IsValidBut k vs (dropped k s) gone (dropped-IsValidBut k vs s v)
      valid false = dropped-IsValidBut k vs s v

      blocks_of :
          (b : Bool)
          → (if b then ghost_insert k (dropped k s) else dropped k s).blocks
            ≡ Dict.remove k s.blocks
      blocks_of true = refl
      blocks_of false = refl

  -- A block that is held after a key was taken out was held before.
  Held-remove :
      (k : K) (d : Dict K B) (r : List (K × B))
      → occurs k d ≤ 1
      → Held (Dict.remove k d) r
      → Held d r
  Held-remove k d [] o h = tt
  Held-remove k d ((j, b) ∷ r) o h = (found (key.dec j k), Held-remove k d r o h.1)
    where
      found : Dec (j ≡ k) → lookup j d ≡ some b
      found (yes p) =
          absurd (ground (arith, occurs-remove j k d, lookup-some_occurs j (Dict.remove k d) b h.0))
      found (no p) = sym (lookup-remove_ne j k d p) ∙ h.0

  -- Dropping the victims of the invariant ends well: the rest is valid, the victims' blocks are
  -- returned in order, and only they are gone.
  pub drop_victims_lem :
      (vs : List (K × Bool)) (s : S3FifoCachePolicy K B)
      → IsValidBut (keys_of vs) s
      → (s' : S3FifoCachePolicy K B) × (r : List (K × B)) × (drop_victims vs s ≡ ok (s', r))
        × IsValid s'
        × (dropped_keys r ≡ keys_of vs)
        × Held s.blocks r
        × ((j : K) → occurs j s'.blocks + count j (keys_of vs) ≡ occurs j s.blocks)
  unfolding drop_victims
  drop_victims_lem [] s v = (s, [], refl, v, refl, tt, λ j. omega arith)
  drop_victims_lem ((k, b) ∷ vs) s v =
      let (s', block, e, v', found, left) = drop_victim_lem k b (keys_of vs) s v in
      let (t, r, run, w, names, held, rest) = drop_victims_lem vs s' v' in
      (
        t,
        (k, block) ∷ r,
        rw (e, drop_victims, run),
        w,
        ap (◌∷◌ k) names,
        (found, Held-remove k s.blocks r (v.once k) (rw left at held)),
        λ j. ground (
          arith,
          rest j,
          ap (occurs j) left,
          occurs-remove j k s.blocks,
          v.queued j,
          v.queued k,
          v.once j,
        ),
      )
