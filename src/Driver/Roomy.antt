-- ===== src/Driver/Roomy.antt =====
-- python/bench/replay_cpp.py over a store that never drops a block.
use mooncake_kvcache_tiered.Base.{ℕ, ◌≡◌, ◌||◌, Option, List, [], ◌∷◌, nat_key, eq}
use mooncake_kvcache_tiered.Dict.{Dict, set, contains}
use mooncake_kvcache_tiered.Driver.{BlockStore}

-- A store that has what was put into it, and loses nothing by reading, prefetching and recording.
pub record RoomyLaws (store : BlockStore) : Type 0 where
  pub exists-put :
      (j k : ℕ) (tenant : Option ℕ) (s : store.State)
      → store.exists j (store.put tenant k s) ≡ (eq j k || store.exists j s)
  pub exists-get : (j k : ℕ) (s : store.State) → store.exists j (store.get k s) ≡ store.exists j s
  pub exists-prefetch :
      (j : ℕ) (ks : List ℕ) (s : store.State)
      → store.exists j (store.prefetch_chain_multi ks s) ≡ store.exists j s
  pub exists-record :
      (j : ℕ) (ks : List ℕ) (s : store.State)
      → store.exists j (store.record_sequence ks s) ≡ store.exists j s

-- The set of the keys `seen` and `ks`.
unfoldable pub distinct : List ℕ → Dict ℕ (Unit {0}) → Dict ℕ (Unit {0})
distinct [] seen = seen
distinct (k ∷ ks) seen = distinct ks (set k tt seen)

module _ (store : BlockStore) (laws : RoomyLaws store) where
  -- The store has exactly the keys of the set.
  abbrev Holds : Dict ℕ (Unit {0}) → store.State → Type 0
  Holds seen s = (j : ℕ) → store.exists j s ≡ contains j seen
