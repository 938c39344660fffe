-- ===== src/Provenance/Lock.antt =====
-- python/bench/provenance.py: lemmas on `read_mooncake_lock` and on blank values.
use mooncake_kvcache_tiered.Base.{
  ◌≡◌, ◌≢◌, ◌⊎◌, inl, inr, refl, true, none, some, [], ◌∷◌, ok, raise, value_error, file_not_found,
  Option-cases,
}
use mooncake_kvcache_tiered.Dict.{Dict, lookup}
use mooncake_kvcache_tiered.Text.{Text, text_key, is_space}
use mooncake_kvcache_tiered.Provenance.{
  MooncakeLock, parse_lock_text, commit_name, version_name, tag_name, repo_name, license_name,
  required, read_mooncake_lock,
}

required-cases :
    (name : Text) (fields : Dict Text Text)
    → ((required name fields ≡ none)
        × ((lookup name fields ≡ none) ⊎ (lookup name fields ≡ some [])))
      ⊎ ((v : Text) × (required name fields ≡ some v) × (lookup name fields ≡ some v) × (v ≢ []))
unfolding required
required-cases name fields = elim (Option-cases (lookup name fields)) [
  | inl e ↦ inl (rw (e, required), inl e)
  | inr ([], e) ↦ inl (rw (e, required), inr e)
  | inr (c ∷ cs, e) ↦ inr (c ∷ cs, rw (e, required), e, λ h. cc)
]

-- Without a file `read_mooncake_lock` raises `FileNotFoundError`. With one, either the commit or the
-- version is missing or empty, and it raises `ValueError`; or it returns a lock whose commit and
-- version are those of the parsed fields, and not empty, and whose fields are the parsed ones.
pub read_mooncake_lock_lem :
    (text : Text)
    → (read_mooncake_lock none ≡ raise file_not_found)
      × (((read_mooncake_lock (some text) ≡ raise value_error)
            × (((lookup commit_name (parse_lock_text text) ≡ none)
                  ⊎ (lookup commit_name (parse_lock_text text) ≡ some []))
                ⊎ ((lookup version_name (parse_lock_text text) ≡ none)
                    ⊎ (lookup version_name (parse_lock_text text) ≡ some []))))
          ⊎ ((lock : MooncakeLock) × (read_mooncake_lock (some text) ≡ ok lock)
              × (lookup commit_name (parse_lock_text text) ≡ some lock.commit)
              × (lock.commit ≢ [])
              × (lookup version_name (parse_lock_text text) ≡ some lock.version)
              × (lock.version ≢ [])
              × (lock.raw ≡ parse_lock_text text)))
unfolding read_mooncake_lock
read_mooncake_lock_lem text = (
  refl,
  elim (required-cases commit_name (parse_lock_text text)) [
    | inl (e, h) ↦ inl (rw (e, read_mooncake_lock), inl h)
    | inr (c, e, found, full) ↦ elim (required-cases version_name (parse_lock_text text)) [
      | inl (f, h) ↦ inl (rw (e, read_mooncake_lock, f), inr h)
      | inr (v, f, found', full') ↦ inr (
        record {
          commit = c;
          version = v;
          tag = lookup tag_name (parse_lock_text text);
          repo = lookup repo_name (parse_lock_text text);
          license = lookup license_name (parse_lock_text text);
          raw = parse_lock_text text;
        },
        rw (e, read_mooncake_lock, f),
        found,
        full,
        found',
        full',
        refl,
      )
    ]
  ],
)

-- No character but white space.
abbrev pub AllSpace : Text → Type 0
AllSpace [] = Unit {0}
AllSpace (c ∷ cs) = (is_space c ≡ true) × AllSpace cs
