-- ===== src/Offload/Touch.antt =====
-- python/vllm_adapter/offloading_spec.py: lemmas on `__init__`, `clear`, `remove`, `touch` and
-- the marks.
use mooncake_kvcache_tiered.Base.{
  ℕ, ◌⊎◌, ◌+◌, ◌≤◌, ◌<◌, ◌≡◌, refl, ◌∙◌, true, false, none, some, List, [], ◌∷◌, Key, same, count,
  arith, inl, inr, ok, raise, key_error, Bool-cases, Option-cases, min, ite,
}
use mooncake_kvcache_tiered.Dict.{Dict, occurs, contains, lookup, set}
use mooncake_kvcache_tiered.Dict
use mooncake_kvcache_tiered.Dict.Laws.{
  occurs-set, occurs-remove, contains-occurs, lookup-none_occurs, lookup-some_occurs,
}
use mooncake_kvcache_tiered.Offload.State.{S3FifoCachePolicy, init, clear, freq_cap}
use mooncake_kvcache_tiered.Offload.Loop.{touch_key, touch_keys, freq_of}
use mooncake_kvcache_tiered.Offload.Methods.{get, remove, touch, mark_evictable, mark_non_evictable}
use mooncake_kvcache_tiered.Offload.Rounds.{freq_of-set}
use mooncake_kvcache_tiered.Offload.Valid.{IsValid}

module _ {K : Type 0} ⦃key : Key K⦄ where
  occurs-touch_key : (j k : K) (d : Dict K ℕ) → occurs j (touch_key k d) ≡ occurs j d
  unfolding touch_key
  occurs-touch_key j k d = elim (Option-cases (lookup k d)) [
    | inl e ↦ rw (e, touch_key)
    | inr (n, e) ↦
        rw (e, touch_key)
          (ground (arith, occurs-set j k (min (n + 1) freq_cap) d, lookup-some_occurs k d n e))
  ]

  occurs-touch_keys : (j : K) (ks : List K) (d : Dict K ℕ) → occurs j (touch_keys ks d) ≡ occurs j d
  unfolding touch_keys
  occurs-touch_keys j [] d = refl
  occurs-touch_keys j (k ∷ ks) d = occurs-touch_keys j ks (touch_key k d) ∙ occurs-touch_key j k d

  freq_of-some : (k : K) (n : ℕ) (d : Dict K ℕ) → lookup k d ≡ some n → freq_of k d ≡ n
  unfolding freq_of
  freq_of-some k n d e = rw (e, freq_of)

  freq_of-touch_key :
      (j k : K) (d : Dict K ℕ)
      → 0 < occurs j d
      → freq_of j (touch_key k d) ≡ ite (key.dec j k) (min (freq_of j d + 1) freq_cap) (freq_of j d)
  unfolding touch_key freq_of
  freq_of-touch_key j k d h = elim (Option-cases (lookup k d)) [
    | inl e ↦ rw (e, touch_key) (ground (arith, lookup-none_occurs k d e))
    | inr (n, e) ↦
        rw (e, touch_key, freq_of-set j k (min (n + 1) freq_cap) d)
          (ground (arith, freq_of-some k n d e, e))
  ]

  freq_of-touch_keys :
      (j : K) (ks : List K) (d : Dict K ℕ)
      → 0 < occurs j d
      → freq_of j d ≤ freq_cap
      → freq_of j (touch_keys ks d) ≡ min (freq_of j d + count j ks) freq_cap
  unfolding touch_keys
  freq_of-touch_keys j [] d h g = ground arith
  freq_of-touch_keys j (k ∷ ks) d h g = ground (
    arith,
    freq_of-touch_keys j ks (touch_key k d),
    freq_of-touch_key j k d,
    occurs-touch_key j k d,
  )

module _ {K B : Type 0} ⦃key : Key K⦄ where
  -- A new policy of any capacity is valid and holds no block; so is a policy after `clear`, with
  -- the budgets as they were.
  pub init-IsValid :
      (capacity : ℕ) (s : S3FifoCachePolicy K B)
      → IsValid (init {K = K} {B = B} capacity)
        × IsValid (clear s)
        × ((clear s).small_budget ≡ s.small_budget)
        × ((clear s).ghost_capacity ≡ s.ghost_capacity)
        × ((j : K) → (get j (init {K = K} {B = B} capacity) ≡ none) × (get j (clear s) ≡ none))
  unfolding init clear occurs get lookup
  init-IsValid capacity s = (empty _ _, empty _ _, refl, refl, λ j. (refl, refl))
    where
      empty :
          (a b : ℕ)
          → IsValid {K = K} {B = B} (record {
            small_budget = a;
            ghost_capacity = b;
            blocks = [];
            small = [];
            main = [];
            freq = [];
            evictable = [];
            ghost = [];
          })
      empty a b = record {
        once = λ j. omega arith;
        queued = λ j. omega arith;
        counted = λ j. omega arith;
        marked = λ j. omega arith;
        apart = λ j. omega arith;
        ghosts_bounded = omega arith;
        ghosts_none = tt;
      }

  abbrev removed : K → S3FifoCachePolicy K B → S3FifoCachePolicy K B
  removed k s = record s {
    blocks = Dict.remove k s.blocks;
    freq = Dict.remove k s.freq;
    small = Dict.remove k s.small;
    main = Dict.remove k s.main;
    evictable = Dict.remove k s.evictable;
  }

  -- On a valid state `remove` of a held key raises nothing, keeps the state valid, and the key is
  -- held no longer while all others are; of a key that is not held it raises `KeyError`.
  pub remove-IsValid :
      (k : K) (s : S3FifoCachePolicy K B)
      → IsValid s
      → ((contains k s.blocks ≡ true)
          × (s' : S3FifoCachePolicy K B) × (remove k s ≡ ok s')
          × IsValid s'
          × ((j : K) → occurs j s'.blocks + same j k ≡ occurs j s.blocks))
        ⊎ ((contains k s.blocks ≡ false) × (remove k s ≡ raise key_error))
  unfolding remove
  remove-IsValid k s v = elim (Bool-cases (contains k s.blocks)) [
    | inr e ↦ inr (e, rw (e, remove))
    | inl e ↦ inl (
      e,
      removed k s,
      rw (e, remove),
      record {
        once = λ j. ground (arith, occurs-remove j k s.blocks, v.once j);
        queued = λ j. ground (
          arith,
          occurs-remove j k s.blocks,
          occurs-remove j k s.small,
          occurs-remove j k s.main,
          v.queued j,
          v.once j,
        );
        counted =
            λ j. ground (arith, occurs-remove j k s.blocks, occurs-remove j k s.freq, v.counted j);
        marked = λ j.
            ground (arith, occurs-remove j k s.blocks, occurs-remove j k s.evictable, v.marked j);
        apart = λ j. ground (arith, occurs-remove j k s.blocks, v.apart j);
        ghosts_bounded = v.ghosts_bounded;
        ghosts_none = v.ghosts_none;
      },
      λ j. ground (arith, occurs-remove j k s.blocks, contains-occurs k s.blocks, e),
    )
  ]

  -- `touch` of any keys keeps a valid state valid; a held key whose frequency is at most the cap
  -- then has its frequency and one more for each of its touches, cut to the cap.
  pub touch-IsValid :
      (ks : List K) (s : S3FifoCachePolicy K B)
      → IsValid s
      → IsValid (touch ks s)
        × ((j : K)
            → contains j s.blocks ≡ true
            → freq_of j s.freq ≤ freq_cap
            → freq_of j (touch ks s).freq ≡ min (freq_of j s.freq + count j ks) freq_cap)
  unfolding touch
  touch-IsValid ks s v = (
    record {
      once = v.once;
      queued = v.queued;
      counted = λ j. occurs-touch_keys j ks s.freq ∙ v.counted j;
      marked = v.marked;
      apart = v.apart;
      ghosts_bounded = v.ghosts_bounded;
      ghosts_none = v.ghosts_none;
    },
    λ j h g.
        freq_of-touch_keys j ks s.freq (ground (arith, contains-occurs j s.blocks, v.counted j)) g,
  )

  pub unmark-IsValid :
      (l : K) (s : S3FifoCachePolicy K B)
      → IsValid s
      → IsValid (mark_non_evictable l s) × (contains l (mark_non_evictable l s).evictable ≡ false)
  unfolding mark_non_evictable
  unmark-IsValid l s v = (
    record {
      once = v.once;
      queued = v.queued;
      counted = v.counted;
      marked = λ j. omega (arith, occurs-remove j l s.evictable, v.marked j);
      apart = v.apart;
      ghosts_bounded = v.ghosts_bounded;
      ghosts_none = v.ghosts_none;
    },
    ground (
      arith,
      contains-occurs l (Dict.remove l s.evictable),
      occurs-remove l l s.evictable,
      v.marked l,
      v.once l,
    ),
  )

  -- To mark a held key as evictable, or any key as not evictable, keeps a valid state valid; the
  -- first key is then in `evictable` and the second is not.
  pub mark-IsValid :
      (k l : K) (s : S3FifoCachePolicy K B)
      → IsValid s
      → contains k s.blocks ≡ true
      → IsValid (mark_evictable k s)
        × (contains k (mark_evictable k s).evictable ≡ true)
        × IsValid (mark_non_evictable l s)
        × (contains l (mark_non_evictable l s).evictable ≡ false)
  unfolding mark_evictable mark_non_evictable
  mark-IsValid k l s v h = (
    record {
      once = v.once;
      queued = v.queued;
      counted = v.counted;
      marked = λ j.
          ground (arith, occurs-set j k tt s.evictable, contains-occurs k s.blocks, v.marked j);
      apart = v.apart;
      ghosts_bounded = v.ghosts_bounded;
      ghosts_none = v.ghosts_none;
    },
    ground (arith, contains-occurs k (set k tt s.evictable), occurs-set k k tt s.evictable),
    (unmark-IsValid l s v).0,
    (unmark-IsValid l s v).1,
  )
