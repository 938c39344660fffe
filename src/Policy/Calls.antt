-- ===== src/Policy/Calls.antt =====
-- python/bench/policies.py: the calls that a client makes on any of the policies, one after the other.
use Prim.Native.String.{String}
use mooncake_kvcache_tiered.Base.{
  ℕ, zero, suc, ◌+◌, ◌≤◌, ◌≡◌, sym, subst, ◌∙◌, some, List, [], ◌∷◌, ◌++◌, Key, same, count,
  count-append, ok, ok-injective, ok-ne-raise, Option-cases, inl, inr, arith, refl,
}
use mooncake_kvcache_tiered.Policy.{CachePolicy}
use mooncake_kvcache_tiered.Policy.Registry.{
  Policy, policy_of, make_policy, make_policy_lem, make_policy-raises, find_class, PolicyClass,
}

pub data Call (K : Type 0) : Type 0 where
  access : K → ℕ → Call K
  touch admit remove : K → Call K

module _ {K : Type 0} ⦃key : Key K⦄ where
  -- How often calls bring a key in, at most.
  abbrev pub mentions : K → List (Call K) → ℕ
  mentions j [] = 0
  mentions j (access k i ∷ cs) = same j k + mentions j cs
  mentions j (touch k ∷ cs) = mentions j cs
  mentions j (admit k ∷ cs) = same j k + mentions j cs
  mentions j (remove k ∷ cs) = mentions j cs

  module _ (p : CachePolicy K) where
    -- The state after a call, and the keys that `on_evict` gets.
    unfoldable pub run_call : Call K → p.State → p.State × List K
    run_call (access k i) s = ((p.access k i s).0, (p.access k i s).1)
    run_call (touch k) s = (p.touch k s, [])
    run_call (admit k) s = p.admit k s
    run_call (remove k) s = ((p.remove k s).0, [])

    unfoldable pub run_calls : List (Call K) → p.State → p.State × List K
    run_calls [] s = (s, [])
    run_calls (c ∷ cs) s =
        let (s', gone) = run_call c s in let (s'', rest) = run_calls cs s' in (s'', gone ++ rest)

    run_call_lem :
        (c : Call K) (s : p.State)
        → p.IsValid s
        → p.IsValid (run_call c s).0
          × (p.capacity (run_call c s).0 ≡ p.capacity s)
          × ((j : K)
              → p.occurs j (run_call c s).0 + count j (run_call c s).1
                ≤ mentions j (c ∷ []) + p.occurs j s)
    unfolding run_call
    run_call_lem (access k i) s v = (
      p.access-IsValid k i s v,
      p.capacity-access k i s v,
      λ j. omega (arith, (p.occurs-access j k i s v).1),
    )
    run_call_lem (touch k) s v =
        (p.touch-IsValid k s v, p.capacity-touch k s, λ j. omega (arith, p.occurs-touch j k s))
    run_call_lem (admit k) s v =
        (p.admit-IsValid k s v, p.capacity-admit k s v, λ j. omega (arith, p.occurs-admit j k s v))
    run_call_lem (remove k) s v =
        (p.remove-IsValid k s v, p.capacity-remove k s, λ j. omega (arith, p.occurs-remove j k s v))

    run_calls-IsValid :
        (cs : List (Call K)) (s : p.State)
        → p.IsValid s
        → p.IsValid (run_calls cs s).0
          × (p.capacity (run_calls cs s).0 ≡ p.capacity s)
          × ((j : K)
              → p.occurs j (run_calls cs s).0 + count j (run_calls cs s).1
                ≤ mentions j cs + p.occurs j s)
    unfolding run_calls
    run_calls-IsValid [] s v = (v, refl, λ j. omega arith)
    run_calls-IsValid (c ∷ cs) s v =
        let (v', e, h) = run_call_lem c s v in
        let (v'', e', h') = run_calls-IsValid cs (run_call c s).0 v' in
        (
          v'',
          e' ∙ e,
          λ j. omega (
            arith,
            h j,
            h' j,
            count-append j (run_call c s).1 (run_calls cs (run_call c s).0).1,
            mentions-cons j c cs,
          ),
        )
      where
        mentions-cons :
            (j : K) (c : Call K) (cs : List (Call K))
            → mentions j (c ∷ cs) ≡ mentions j (c ∷ []) + mentions j cs
        mentions-cons j (access k i) cs = omega arith
        mentions-cons j (touch k) cs = omega arith
        mentions-cons j (admit k) cs = omega arith
        mentions-cons j (remove k) cs = omega arith

module _ {K : Type 0} ⦃key : Key K⦄ where
  -- A valid new policy with this room.
  abbrev IsNew : ℕ → Policy K → Type 0
  IsNew cap p =
      (policy_of K p.0).IsValid p.1
      × ((policy_of K p.0).capacity p.1 ≡ cap)
      × ((j : K) → (policy_of K p.0).occurs j p.1 ≡ 0)

  make_policy-IsNew :
      (name : String) (cap : ℕ) (p : Policy K) → make_policy K name cap ≡ ok p → IsNew cap p
  make_policy-IsNew name cap p e = elim (Option-cases (find_class name)) [
    | inl none_left ↦
        absurd (ok-ne-raise _ _ (sym e ∙ (make_policy-raises K name cap).1 (inl none_left)))
    | inr (c, f) ↦ positive c f cap e
  ]
    where
      positive :
          (c : PolicyClass)
          → find_class name ≡ some c
          → (n : ℕ) → make_policy K name n ≡ ok p
          → IsNew n p
      positive c f zero g =
          absurd (ok-ne-raise _ _ (sym g ∙ (make_policy-raises K name 0).1 (inr refl)))
      positive c f (suc n) g =
          let (s, i, v, size, empty) = make_policy_lem K name c (suc n) f (omega arith) in
          subst (IsNew (suc n)) (ok-injective _ _ (sym i ∙ g)) (v, size, empty)

  -- Whatever policy `make_policy` returns, and whatever calls follow: the blocks are within the
  -- capacity, none is held twice, and a key is held and was evicted, all together, at most as often as
  -- an access or an admission named it.
  pub run_calls_lem :
      (name : String) (cap : ℕ) (p : Policy K) (cs : List (Call K))
      → make_policy K name cap ≡ ok p
      → ((policy_of K p.0).size (run_calls (policy_of K p.0) cs p.1).0 ≤ cap)
        × ((j : K)
            → ((policy_of K p.0).occurs j (run_calls (policy_of K p.0) cs p.1).0 ≤ 1)
              × ((policy_of K p.0).occurs j (run_calls (policy_of K p.0) cs p.1).0
                    + count j (run_calls (policy_of K p.0) cs p.1).1
                  ≤ mentions j cs))
  run_calls_lem name cap p cs e =
      let policy = policy_of K p.0 in
      let (v, size, empty) = make_policy-IsNew name cap p e in
      let (w, kept, all) = run_calls-IsValid policy cs p.1 v in
      let s = (run_calls policy cs p.1).0 in
      (
        omega (arith, policy.size-le-capacity s w, kept, size),
        λ j. (policy.occurs-le j s w, omega (arith, all j, empty j)),
      )
