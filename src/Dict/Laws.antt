-- ===== src/Dict/Laws.antt =====
-- The dictionary operations, told by how often a key occurs and by the number of entries.
use mooncake_kvcache_tiered.Base.{
  ◌+◌, ◌-◌, ◌≤◌, ◌<◌, min, max, ◌≢◌, ◌≡◌, refl, none, some, [], ◌∷◌, ◌++◌, Key, ite, if_pos, if_neg,
  inl, inr, Option-cases, same, arith, length, length-append, ltb,
}
use mooncake_kvcache_tiered.Dict.{Dict, lookup, contains, set, remove, move_to_end, occurs}

module _ {K V : Type 0} ⦃key : Key K⦄ where
  pub occurs-le-length : (k : K) (d : Dict K V) → occurs k d ≤ length d
  unfolding occurs
  occurs-le-length k [] = omega arith
  occurs-le-length k ((j, w) ∷ d) = ground (arith, occurs-le-length k d)

  pub contains-occurs : (k : K) (d : Dict K V) → contains k d ≡ ltb 0 (occurs k d)
  unfolding contains occurs
  contains-occurs k [] = refl
  contains-occurs k ((j, _) ∷ d) = ground (arith, contains-occurs k d)

  pub occurs-append : (k : K) (d e : Dict K V) → occurs k (d ++ e) ≡ occurs k d + occurs k e
  unfolding occurs
  occurs-append k [] e = omega arith
  occurs-append k (_ ∷ d) e = omega (arith, occurs-append k d e)

  pub occurs-set :
      (j k : K) (v : V) (d : Dict K V) → occurs j (set k v d) ≡ max (same j k) (occurs j d)
  unfolding occurs set
  occurs-set j k v [] = ground arith
  occurs-set j k v ((i, w) ∷ d) = elim (key.dec k i) [
    | yes p ↦ rw (if_pos (key.dec k i) p) (rw p (ground arith))
    | no p ↦ rw (if_neg (key.dec k i) p) (ground (arith, occurs-set j k v d))
  ]

  pub occurs-remove : (j k : K) (d : Dict K V) → occurs j (remove k d) ≡ occurs j d - same j k
  unfolding occurs remove
  occurs-remove j k [] = ground arith
  occurs-remove j k ((i, w) ∷ d) = ground (arith, occurs-remove j k d)

  -- A key is found exactly when it occurs.
  pub lookup-none_occurs : (k : K) (d : Dict K V) → lookup k d ≡ none → occurs k d ≡ 0
  unfolding lookup occurs
  lookup-none_occurs k [] h = refl
  lookup-none_occurs k ((j, w) ∷ d) h = ground (arith, lookup-none_occurs k d)

  pub lookup-some_occurs : (k : K) (d : Dict K V) (v : V) → lookup k d ≡ some v → 0 < occurs k d
  unfolding lookup occurs
  lookup-some_occurs k [] v h = cc
  lookup-some_occurs k ((j, w) ∷ d) v h = ground (arith, lookup-some_occurs k d v)

  pub occurs-move_to_end : (j k : K) (d : Dict K V) → occurs j (move_to_end k d) ≡ occurs j d
  unfolding move_to_end occurs
  occurs-move_to_end j k d = elim (Option-cases (lookup k d)) [
    | inl e ↦ rw (e, move_to_end)
    | inr (v, e) ↦
        rw (e, move_to_end, occurs-append j (remove k d) ((k, v) ∷ []), occurs-remove j k d)
          (ground (arith, lookup-some_occurs k d v e))
  ]

  pub length-set : (k : K) (v : V) (d : Dict K V) → length (set k v d) ≡ length d + (1 - occurs k d)
  unfolding set occurs
  length-set k v [] = refl
  length-set k v ((j, w) ∷ d) = ground (arith, length-set k v d)

  pub length-remove : (k : K) (d : Dict K V) → length (remove k d) ≡ length d - min 1 (occurs k d)
  unfolding remove occurs
  length-remove k [] = refl
  length-remove k ((j, w) ∷ d) = ground (arith, length-remove k d, occurs-le-length k d)

  pub length-move_to_end : (k : K) (d : Dict K V) → length (move_to_end k d) ≡ length d
  unfolding move_to_end
  length-move_to_end k d = elim (Option-cases (lookup k d)) [
    | inl e ↦ rw (e, move_to_end)
    | inr (v, e) ↦
        rw (e, move_to_end, length-append (remove k d) ((k, v) ∷ []), length-remove k d)
          (ground (arith, lookup-some_occurs k d v e, occurs-le-length k d))
  ]

  pub lookup-set :
      (j k : K) (v : V) (d : Dict K V)
      → lookup j (set k v d) ≡ ite (key.dec j k) (some v) (lookup j d)
  unfolding lookup set
  lookup-set j k v [] = refl
  lookup-set j k v ((i, w) ∷ d) = elim (key.dec k i) [
    | yes p ↦ rw (if_pos (key.dec k i) p) (rw p (ground arith))
    | no p ↦ rw (if_neg (key.dec k i) p) (ground (arith, lookup-set j k v d))
  ]

  pub lookup-remove_ne : (j k : K) (d : Dict K V) → j ≢ k → lookup j (remove k d) ≡ lookup j d
  unfolding lookup remove
  lookup-remove_ne j k [] h = refl
  lookup-remove_ne j k ((i, w) ∷ d) h = elim (key.dec k i) [
    | yes p ↦ rw (if_pos (key.dec k i) p) (ground arith)
    | no p ↦ rw (if_neg (key.dec k i) p) (ground (arith, lookup-remove_ne j k d h))
  ]

  pub lookup_of_not-occurs : (k : K) (d : Dict K V) → occurs k d ≡ 0 → lookup k d ≡ none
  unfolding lookup occurs
  lookup_of_not-occurs k [] h = refl
  lookup_of_not-occurs k ((j, w) ∷ d) h = ground (arith, lookup_of_not-occurs k d)

  -- What is absent cannot be taken out.
  pub remove_absent : (k : K) (d : Dict K V) → occurs k d ≡ 0 → remove k d ≡ d
  unfolding remove occurs
  remove_absent k [] h = refl
  remove_absent k ((j, w) ∷ d) h = ground (arith, remove_absent k d)

  -- A new key goes to the end.
  pub set_absent : (k : K) (v : V) (d : Dict K V) → occurs k d ≡ 0 → set k v d ≡ d ++ (k, v) ∷ []
  unfolding set occurs
  set_absent k v [] h = refl
  set_absent k v ((j, w) ∷ d) h = ground (arith, set_absent k v d)
