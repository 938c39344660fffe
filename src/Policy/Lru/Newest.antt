-- ===== src/Policy/Lru/Newest.antt =====
-- The keys by recency, and the newest of them, for `LRUPolicy`.
use mooncake_kvcache_tiered.Base.{
  ℕ, ◌≤◌, ◌<◌, ◌≡◌, refl, ◌≢◌, some, List, [], ◌∷◌, ◌++◌, Key, arith, ltb, length, length-append,
  newest, inl, inr, Bool-cases, Option-cases,
}
use mooncake_kvcache_tiered.Dict.{Dict, Distinct, lookup, contains, set, move_to_end, occurs}
use mooncake_kvcache_tiered.Dict
use mooncake_kvcache_tiered.Dict.Laws.{
  occurs-remove, length-remove, remove_absent, occurs-append, set_absent, lookup-none_occurs,
}
use mooncake_kvcache_tiered.Policy.Lru.{LruPolicy, access}

module _ {ℓ} {A : Type ℓ} where
  pub newest-le : (n : ℕ) (xs : List A) → length xs ≤ n → newest n xs ≡ xs
  unfolding newest
  newest-le n [] h = refl
  newest-le n (x ∷ xs) h = ground arith

  newest-cons : (n : ℕ) (x : A) (xs : List A) → n ≤ length xs → newest n (x ∷ xs) ≡ newest n xs
  unfolding newest
  newest-cons n x xs h = ground arith

module _ {K : Type 0} ⦃key : Key K⦄ where
  -- The keys used so far, the latest last.
  unfoldable pub use_key : K → Dict K (Unit {0}) → Dict K (Unit {0})
  use_key k h = Dict.remove k h ++ (k, tt) ∷ []

  unfoldable pub recency : List K → Dict K (Unit {0}) → Dict K (Unit {0})
  recency [] h = h
  recency (k ∷ ks) h = recency ks (use_key k h)

  -- The answers of a sequence of accesses, and the cache after it.
  unfoldable pub run : List K → LruPolicy K → LruPolicy K
  run [] s = s
  run (k ∷ ks) s = run ks (access k 0 s).0

  pub occurs-use_key : (j k : K) (h : Dict K (Unit {0})) → Distinct h → occurs j (use_key k h) ≤ 1
  unfolding use_key occurs
  occurs-use_key j k h d =
      ground (arith, occurs-append j (Dict.remove k h) ((k, tt) ∷ []), occurs-remove j k h, d j)

  length-use_key-ge : (k : K) (h : Dict K (Unit {0})) → length h ≤ length (use_key k h)
  unfolding use_key
  length-use_key-ge k h =
      omega (arith, length-append (Dict.remove k h) ((k, tt) ∷ []), length-remove k h)

  Distinct-tail : (e : K × Unit {0}) (h : Dict K (Unit {0})) → Distinct (e ∷ h) → Distinct h
  unfolding occurs
  Distinct-tail e h d j = omega (arith, d j)

  use_key_absent :
      (k : K) (h : Dict K (Unit {0})) → occurs k h ≡ 0 → use_key k h ≡ h ++ (k, tt) ∷ []
  unfolding use_key
  use_key_absent k h e = rw (remove_absent k h e)

  use_key-cons_eq :
      (k j : K) (h : Dict K (Unit {0})) → k ≡ j → use_key k ((j, tt) ∷ h) ≡ h ++ (k, tt) ∷ []
  unfolding use_key Dict.remove
  use_key-cons_eq k j h e = ground arith

  use_key-cons_ne :
      (k j : K) (h : Dict K (Unit {0})) → k ≢ j → use_key k ((j, tt) ∷ h) ≡ (j, tt) ∷ use_key k h
  unfolding use_key Dict.remove
  use_key-cons_ne k j h e = ground arith

  Distinct-head :
      (k j : K) (h : Dict K (Unit {0})) → Distinct ((j, tt) ∷ h) → k ≡ j → occurs k h ≡ 0
  unfolding occurs
  Distinct-head k j h d e = ground (arith, d k)

  -- A key beyond the newest `n` does not matter to the next `n` newest.
  newest-use_key-cons :
      (n : ℕ) (k j : K) (h : Dict K (Unit {0}))
      → Distinct ((j, tt) ∷ h)
      → n ≤ length h
      → newest n (use_key k h) ≡ newest n (use_key k ((j, tt) ∷ h))
  newest-use_key-cons n k j h d le = elim (key.dec k j) [
    | yes p ↦ rw (use_key_absent k h (Distinct-head k j h d p), use_key-cons_eq k j h p)
    | no p ↦ rw (use_key-cons_ne k j h p, newest-cons n (j, tt) (use_key k h) longer)
  ]
    where
      longer : n ≤ length (use_key k h)
      longer = omega (arith, length-use_key-ge k h)

  pub newest-use_key-newest :
      (n : ℕ) (k : K) (h : Dict K (Unit {0}))
      → Distinct h
      → newest n (use_key k (newest n h)) ≡ newest n (use_key k h)
  newest-use_key-newest n k [] d = unfold newest in refl
  newest-use_key-newest n k ((j, u) ∷ h) d = elim (Bool-cases (ltb n (length ((j, u) ∷ h)))) [
    | inl over ↦
        rw
          (
            newest-cons n (j, u) h (ground arith),
            newest-use_key-newest n k h (Distinct-tail (j, u) h d),
          )
          (newest-use_key-cons n k j h d (ground arith))
    | inr fits ↦ rw (newest-le n ((j, u) ∷ h) (ground arith)) refl
  ]

  set_present : (k : K) (d : Dict K (Unit {0})) → 0 < occurs k d → set k tt d ≡ d
  unfolding set occurs
  set_present k [] h = absurd (omega arith)
  set_present k ((j, u) ∷ d) h = ground (arith, set_present k d)

  lookup-append_self : (k : K) (d : Dict K (Unit {0})) → lookup k (d ++ (k, tt) ∷ []) ≡ some tt
  unfolding lookup
  lookup-append_self k [] = ground arith
  lookup-append_self k ((j, u) ∷ d) = ground (arith, lookup-append_self k d)

  remove-append_self :
      (k : K) (d : Dict K (Unit {0})) → occurs k d ≡ 0 → Dict.remove k (d ++ (k, tt) ∷ []) ≡ d
  unfolding Dict.remove occurs
  remove-append_self k [] h = ground arith
  remove-append_self k ((j, u) ∷ d) h = ground (arith, remove-append_self k d)

  pub move_to_end_present :
      (k : K) (d : Dict K (Unit {0})) → 0 < occurs k d → move_to_end k d ≡ use_key k d
  unfolding use_key
  move_to_end_present k d h = elim (Option-cases (lookup k d)) [
    | inl e ↦ absurd (omega (arith, lookup-none_occurs k d e))
    | inr (u, e) ↦ unfold move_to_end in rw (e, move_to_end)
  ]

  -- A write and a move to the end are a use of the key.
  pub move_to_end-set : (k : K) (d : Dict K (Unit {0})) → move_to_end k (set k tt d) ≡ use_key k d
  move_to_end-set k d = elim (Bool-cases (ltb 0 (occurs k d))) [
    | inl e ↦ rw (set_present k d (ground arith)) (move_to_end_present k d (ground arith))
    | inr e ↦
        let absent : occurs k d ≡ 0 = ground arith in
        rw (set_absent k tt d absent, use_key_absent k d absent)
          (unfold move_to_end in
            rw (lookup-append_self k d, move_to_end, remove-append_self k d absent))
  ]
