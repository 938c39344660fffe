-- ===== src/Offload/Capped.antt =====
-- python/vllm_adapter/offloading_spec.py: the frequencies that the methods of `S3FIFOCachePolicy` write.
use mooncake_kvcache_tiered.Base.{
  ℕ, zero, suc, ◌+◌, ◌-◌, ◌≤◌, ◌≡◌, min, Bool, true, false, some, List, [], ◌∷◌, Key, arith, inl,
  inr, Bool-cases, Option-cases, if◌then◌else◌, ltb, length, ◌==◌, OnOk, OnOk-bind,
}
use mooncake_kvcache_tiered.Dict.{Dict, lookup, set}
use mooncake_kvcache_tiered.Dict
use mooncake_kvcache_tiered.Offload.State.{S3FifoCachePolicy, Eviction, freq_cap}
use mooncake_kvcache_tiered.Offload.Loop.{
  freq_of, touch_key, touch_keys, take_small, take_main, choose, step, collect,
}
use mooncake_kvcache_tiered.Offload.Valid.{dropped}
use mooncake_kvcache_tiered.Offload.Methods.{
  settle, drop_victim, drop_victims, collect_victims, evict, ghost_insert,
}

module _ {K : Type 0} ⦃key : Key K⦄ where
  -- No frequency is above the cap.
  abbrev pub AllCapped : Dict K ℕ → Type 0
  AllCapped [] = Unit {0}
  AllCapped ((_, n) ∷ d) = (n ≤ freq_cap) × AllCapped d

  pub AllCapped-set :
      (k : K) (n : ℕ) (d : Dict K ℕ) → n ≤ freq_cap → AllCapped d → AllCapped (set k n d)
  unfolding set
  AllCapped-set k n [] h g = (h, tt)
  AllCapped-set k n ((j, m) ∷ d) h g = ground (arith, AllCapped-set k n d h g.1)

  pub AllCapped-remove : (k : K) (d : Dict K ℕ) → AllCapped d → AllCapped (Dict.remove k d)
  unfolding Dict.remove
  AllCapped-remove k [] g = tt
  AllCapped-remove k ((j, m) ∷ d) g = ground (arith, AllCapped-remove k d g.1)

  pub freq_of-le : (k : K) (d : Dict K ℕ) → AllCapped d → freq_of k d ≤ freq_cap
  unfolding freq_of lookup
  freq_of-le k [] g = omega arith
  freq_of-le k ((j, m) ∷ d) g = ground (arith, freq_of-le k d g.1)

  AllCapped-touch_key : (k : K) (d : Dict K ℕ) → AllCapped d → AllCapped (touch_key k d)
  unfolding touch_key
  AllCapped-touch_key k d g = elim (Option-cases (lookup k d)) [
    | inl e ↦ rw (e, touch_key) g
    | inr (n, e) ↦ rw (e, touch_key) (AllCapped-set k (min (n + 1) freq_cap) d (ground arith) g)
  ]

  pub AllCapped-touch_keys :
      (ks : List K) (d : Dict K ℕ) → AllCapped d → AllCapped (touch_keys ks d)
  unfolding touch_keys
  AllCapped-touch_keys [] d g = g
  AllCapped-touch_keys (k ∷ ks) d g = AllCapped-touch_keys ks _ (AllCapped-touch_key k d g)

  AllCapped-take_small :
      (blocked : K → Bool) (k : K) (rest : Dict K (Unit {0})) (e : Eviction K)
      → AllCapped e.freq
      → AllCapped (take_small blocked k rest e).freq
  unfolding take_small
  AllCapped-take_small blocked k rest e g = ground (arith, AllCapped-set k 0 e.freq (omega arith) g)

  AllCapped-take_main :
      (blocked : K → Bool) (k : K) (rest : Dict K (Unit {0})) (e : Eviction K)
      → AllCapped e.freq
      → AllCapped (take_main blocked k rest e).freq
  unfolding take_main
  AllCapped-take_main blocked k rest e g =
      let le = freq_of-le k e.freq g in
      ground (arith, AllCapped-set k (freq_of k e.freq - 1) e.freq (omega (arith, le)) g)

  AllCapped-choose :
      (blocked : K → Bool) (budget : ℕ) (small main : Dict K (Unit {0})) (e e' : Eviction K)
      → AllCapped e.freq
      → choose blocked budget small main e ≡ some e'
      → AllCapped e'.freq
  unfolding choose
  AllCapped-choose blocked budget [] [] e e' g h = absurd cc
  AllCapped-choose blocked budget [] ((k, u) ∷ main) e e' g h =
      ground (arith, AllCapped-take_main blocked k main e g, h)
  AllCapped-choose blocked budget ((j, u) ∷ small) [] e e' g h =
      ground (arith, AllCapped-take_small blocked j small e g, h)
  AllCapped-choose blocked budget ((j, u) ∷ small) ((k, w) ∷ main) e e' g h =
      ground
        (arith, AllCapped-take_small blocked j small e g, AllCapped-take_main blocked k main e g, h)

  AllCapped-collect :
      (fuel : ℕ) (blocked : K → Bool) (budget n : ℕ) (e : Eviction K)
      → AllCapped e.freq
      → AllCapped (collect fuel blocked budget n e).freq
  unfolding collect step
  AllCapped-collect zero blocked budget n e g = g
  AllCapped-collect (suc fuel) blocked budget n e g = elim (Bool-cases (ltb (length e.victims) n)) [
    | inl c ↦ elim (Option-cases (step blocked budget e)) [
      | inl f ↦ rw (c, f) g
      | inr (e', f) ↦
          rw (c, f)
            (AllCapped-collect fuel blocked budget n e'
              (AllCapped-choose blocked budget e.small e.main e e' g f))
    ]
    | inr c ↦ rw c g
  ]

module _ {K B : Type 0} ⦃key : Key K⦄ where
  AllCapped-drop_victim :
      (k : K) (b : Bool) (s : S3FifoCachePolicy K B)
      → AllCapped s.freq
      → OnOk (λ r. AllCapped r.0.freq) (drop_victim k b s)
  unfolding drop_victim ghost_insert
  AllCapped-drop_victim k b s g = elim (Option-cases (lookup k s.blocks)) [
    | inl e ↦ rw (e, drop_victim) tt
    | inr (block, e) ↦ rw (e, drop_victim) (either b)
  ]
    where
      left : AllCapped (Dict.remove k s.freq)
      left = AllCapped-remove k s.freq g

      either : (b : Bool) → AllCapped (if b then ghost_insert k (dropped k s) else dropped k s).freq
      either true = left
      either false = left

  AllCapped-drop_victims :
      (vs : List (K × Bool)) (s : S3FifoCachePolicy K B)
      → AllCapped s.freq
      → OnOk (λ r. AllCapped r.0.freq) (drop_victims vs s)
  unfolding drop_victims
  AllCapped-drop_victims [] s g = g
  AllCapped-drop_victims ((k, b) ∷ vs) s g =
      OnOk-bind (λ r. AllCapped r.0.freq) _ (drop_victim k b s) _ (AllCapped-drop_victim k b s g)
        (λ r h.
          OnOk-bind (λ q. AllCapped q.0.freq) _ (drop_victims vs r.0) _
            (AllCapped-drop_victims vs r.0 h) (λ q i. i))

  pub AllCapped-evict :
      (n : ℕ) (protected : List K) (s : S3FifoCachePolicy K B)
      → AllCapped s.freq
      → OnOk (λ r. AllCapped r.0.freq) (evict n protected s)
  unfolding evict collect_victims settle
  AllCapped-evict zero protected s g = g
  AllCapped-evict (suc n) protected s g =
      let e = collect_victims (suc n) protected s in
      let h : AllCapped e.freq = AllCapped-collect _ _ _ _ _ g in
      elim (Bool-cases (length e.victims == suc n)) [
        | inl c ↦ rw c (
            OnOk-bind (λ r. AllCapped r.0.freq) _ (drop_victims e.victims (settle true e s)) _
              (AllCapped-drop_victims e.victims (settle true e s) h) (λ r i. i))
        | inr c ↦ rw c h
      ]
