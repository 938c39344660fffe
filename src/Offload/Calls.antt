-- ===== src/Offload/Calls.antt =====
-- python/vllm_adapter/offloading_spec.py: the calls that the manager of vLLM makes, one after the
-- other: it inserts a key that is not held, and marks one that is.
use mooncake_kvcache_tiered.Base.{
  ℕ, ◌≡◌, ◌⊎◌, sym, ap, subst, ◌∙◌, Bool, true, false, Option, none, some, List, Key, ok, raise,
  key_error, ok-injective, ok-ne-raise, ltb, Bool-cases, arith, ◌≤◌, ◌+◌, min, count, OnOk, OnOk-eq,
  inr, inl,
}
use mooncake_kvcache_tiered.Dict.{contains}
use mooncake_kvcache_tiered.Offload.State.{S3FifoCachePolicy, init, clear}
use mooncake_kvcache_tiered.Offload.Methods.{
  insert, remove, touch, evict, mark_evictable, mark_non_evictable,
}
use mooncake_kvcache_tiered.Offload.Loop.{freq_of}
use mooncake_kvcache_tiered.Offload.Valid.{IsValid}
use mooncake_kvcache_tiered.Offload.Capped.{
  AllCapped, AllCapped-set, AllCapped-remove, AllCapped-touch_keys, AllCapped-evict, freq_of-le,
}
use mooncake_kvcache_tiered.Offload.Evict.{evict-Evicted, evict-none}
use mooncake_kvcache_tiered.Offload.Settle.{count_evictable}
use mooncake_kvcache_tiered.Offload.Insert.{insert-IsValid}
use mooncake_kvcache_tiered.Offload.Touch.{
  init-IsValid, remove-IsValid, touch-IsValid, mark-IsValid, unmark-IsValid,
}

module _ {K B : Type 0} ⦃key : Key K⦄ (idle : B → Bool) where
  pub data Call (s : S3FifoCachePolicy K B) : S3FifoCachePolicy K B → Type 0 where
    inserts : (k : K) (block : B) → contains k s.blocks ≡ false → Call s (insert idle k block s)
    removes : (k : K) {s' : S3FifoCachePolicy K B} → remove k s ≡ ok s' → Call s s'
    touches : (ks : List K) → Call s (touch ks s)
    evicts :
        (n : ℕ) (protected : List K) {s' : S3FifoCachePolicy K B} {r : Option (List (K × B))}
        → evict n protected s ≡ ok (s', r)
        → Call s s'
    marks : (k : K) → contains k s.blocks ≡ true → Call s (mark_evictable k s)
    unmarks : (k : K) → Call s (mark_non_evictable k s)
    clears : Call s (clear s)

  -- The states that calls reach from a new policy.
  pub data Reach (capacity : ℕ) : S3FifoCachePolicy K B → Type 0 where
    begins : Reach capacity (init capacity)
    calls : {s s' : S3FifoCachePolicy K B} → Reach capacity s → Call s s' → Reach capacity s'

  -- On a valid state `evict` raises nothing, and leaves a valid state.
  pub evict-total :
      (n : ℕ) (protected : List K) (s : S3FifoCachePolicy K B)
      → IsValid s
      → (s' : S3FifoCachePolicy K B) × (r : Option (List (K × B))) × (evict n protected s
          ≡ ok (s', r))
        × IsValid s'
  evict-total n protected s v = elim (Bool-cases (ltb (count_evictable protected s) n)) [
    | inl few ↦
        let (s', e, w, b, m, g) = evict-none n protected s v (ground arith) in (s', none, e, w)
    | inr enough ↦
        let (s', r, e, w) = evict-Evicted n protected s v (ground arith) in (s', some r, e, w.valid)
  ]

  Call-IsValid : {s s' : S3FifoCachePolicy K B} → Call s s' → IsValid s → IsValid s'
  Call-IsValid {s} (inserts k block h) v = (insert-IsValid idle k block s v h).0
  Call-IsValid {s} (removes k e) v = elim (remove-IsValid k s v) [
    | inl (c, s'', f, w, o) ↦ subst IsValid (ok-injective _ _ (sym f ∙ e)) w
    | inr (c, f) ↦ absurd (ok-ne-raise _ _ (sym e ∙ f))
  ]
  Call-IsValid {s} (touches ks) v = (touch-IsValid ks s v).0
  Call-IsValid {s} (evicts n protected e) v =
      let (s'', r'', f, w) = evict-total n protected s v in
      subst IsValid (ap (λ p. p.0) (ok-injective _ _ (sym f ∙ e))) w
  Call-IsValid {s} (marks k h) v = (mark-IsValid k k s v h).0
  Call-IsValid {s} (unmarks k) v = (unmark-IsValid k s v).0
  Call-IsValid {s} clears v = (init-IsValid 0 s).1

  Reach-IsValid : {capacity : ℕ} {s : S3FifoCachePolicy K B} → Reach capacity s → IsValid s
  Reach-IsValid {capacity} begins = (init-IsValid capacity (init capacity)).0
  Reach-IsValid (calls r c) = Call-IsValid c (Reach-IsValid r)

  Call-AllCapped : {s s' : S3FifoCachePolicy K B} → Call s s' → AllCapped s.freq → AllCapped s'.freq
  unfolding insert remove touch mark_evictable mark_non_evictable clear
  Call-AllCapped {s} (inserts k block h) g = AllCapped-set k 0 s.freq (omega arith) g
  Call-AllCapped {s} (removes k e) g = OnOk-eq _ (remove k s) _ (kept k) e
    where
      kept : (k : K) → OnOk (λ t. AllCapped t.freq) (remove k s)
      kept k = elim (Bool-cases (contains k s.blocks)) [
        | inl c ↦ rw (c, remove) (AllCapped-remove k s.freq g)
        | inr c ↦ rw (c, remove) tt
      ]
  Call-AllCapped {s} (touches ks) g = AllCapped-touch_keys ks s.freq g
  Call-AllCapped {s} (evicts n protected e) g =
      OnOk-eq _ (evict n protected s) _ (AllCapped-evict n protected s g) e
  Call-AllCapped (marks k h) g = g
  Call-AllCapped (unmarks k) g = g
  Call-AllCapped clears g = tt

  Reach-AllCapped : {capacity : ℕ} {s : S3FifoCachePolicy K B} → Reach capacity s → AllCapped s.freq
  unfolding init
  Reach-AllCapped begins = tt
  Reach-AllCapped (calls r c) = Call-AllCapped c (Reach-AllCapped r)

  -- After any calls on a new policy, of which `insert` has a key that is not held and
  -- `mark_evictable` one that is, the state is valid, and neither `evict` nor the removal of a held
  -- key raises anything; the removal of any other key raises `KeyError`. No frequency is above the cap
  -- 3, and `touch` adds to that of a held key one for each of its touches, up to the cap.
  pub reached_lem :
      (capacity : ℕ) (s : S3FifoCachePolicy K B)
      → Reach capacity s
      → IsValid s
        × ((n : ℕ) (protected : List K)
            → (s' : S3FifoCachePolicy K B) × (r : Option (List (K × B))) × (evict n protected s
                ≡ ok (s', r)))
        × ((k : K)
            → ((contains k s.blocks ≡ true) × (s' : S3FifoCachePolicy K B) × (remove k s ≡ ok s'))
              ⊎ ((contains k s.blocks ≡ false) × (remove k s ≡ raise key_error)))
        × ((k : K) → freq_of k s.freq ≤ 3)
        × ((k : K) (ks : List K)
            → contains k s.blocks ≡ true
            → freq_of k (touch ks s).freq ≡ min (freq_of k s.freq + count k ks) 3)
  reached_lem capacity s r =
      let v = Reach-IsValid r in
      let g = Reach-AllCapped r in
      (
        v,
        λ n protected. let (s', q, e, w) = evict-total n protected s v in (s', q, e),
        λ k. elim (remove-IsValid k s v) [
          | inl (c, s', e, w, o) ↦ inl (c, s', e)
          | inr (c, e) ↦ inr (c, e)
        ],
        λ k. freq_of-le k s.freq g,
        λ k ks h. (touch-IsValid ks s v).1 k h (freq_of-le k s.freq g),
      )
