-- ===== src/Tests/LockFile.antt =====
-- The lock file at concrete texts.
use mooncake_kvcache_tiered.Base.{
  ℕ, zero, suc, ◌≤◌, ◌≡◌, ◌≢◌, ◌⊎◌, ◌↔◌, ◌&&◌, leb, Bool, true, false, refl, none, some, [], ◌∷◌,
  arith, ok, raise, value_error, file_not_found,
}
use mooncake_kvcache_tiered.Dict.{Dict, lookup, occurs}
use mooncake_kvcache_tiered.Text.{Text, text_key, is_space, skip_space, trim_end}
use mooncake_kvcache_tiered.Provenance.{
  MooncakeLock, parse_lock_text, commit_name, version_name, read_mooncake_lock, is_break, is_word,
}
use mooncake_kvcache_tiered.Provenance.Lines.{AllFields, print_lock, parse_lock_text-print}
use mooncake_kvcache_tiered.Provenance.Formats.{has_commit_hash, is_hex, match_hash, at_end}
use mooncake_kvcache_tiered.Provenance.Version.{
  has_version, skip_digits, match_post, match_version, after, IsVersion, has_version_lem,
}
use mooncake_kvcache_tiered.Provenance.Version
use mooncake_kvcache_tiered.Provenance.Lock.{read_mooncake_lock_lem}

-- `b=2`
abbrev fields : Dict Text Text
fields = (98 ∷ [], 50 ∷ []) ∷ []

fields_are_fields : AllFields fields
unfolding is_word is_break is_space skip_space trim_end
fields_are_fields = (
  record {
    key_some = λ h. cc;
    key_word = (refl, tt);
    value_some = λ h. cc;
    value_line = (refl, tt);
    value_start = refl;
    value_end = refl;
  },
  tt,
)

fields_once : (j : Text) → occurs j fields ≤ 1
unfolding occurs
fields_once j = ground arith

parse_lock_text-print_example : parse_lock_text (print_lock fields) ≡ fields
parse_lock_text-print_example = parse_lock_text-print fields fields_are_fields fields_once

abbrev lock_text : Text
lock_text = print_lock ((commit_name, 97 ∷ []) ∷ (version_name, 49 ∷ []) ∷ [])

read_mooncake_lock_lem_example :
    (read_mooncake_lock none ≡ raise file_not_found)
    × (((read_mooncake_lock (some lock_text) ≡ raise value_error)
          × (((lookup commit_name (parse_lock_text lock_text) ≡ none)
                ⊎ (lookup commit_name (parse_lock_text lock_text) ≡ some []))
              ⊎ ((lookup version_name (parse_lock_text lock_text) ≡ none)
                  ⊎ (lookup version_name (parse_lock_text lock_text) ≡ some []))))
        ⊎ ((lock : MooncakeLock) × (read_mooncake_lock (some lock_text) ≡ ok lock)
            × (lookup commit_name (parse_lock_text lock_text) ≡ some lock.commit)
            × (lock.commit ≢ [])
            × (lookup version_name (parse_lock_text lock_text) ≡ some lock.version)
            × (lock.version ≢ [])
            × (lock.raw ≡ parse_lock_text lock_text)))
read_mooncake_lock_lem_example = read_mooncake_lock_lem lock_text

abbrev is_decimal : ℕ → Bool
is_decimal c = leb 48 c && leb c 57

abbrev letters : ℕ → Text
letters zero = []
letters (suc n) = 97 ∷ letters n

-- Its commit is forty times `a`, its version `0.3.10.post1`.
abbrev locked : MooncakeLock
locked = record {
  commit = letters 40;
  version = 48 ∷ 46 ∷ 51 ∷ 46 ∷ 49 ∷ 48 ∷ 46 ∷ 112 ∷ 111 ∷ 115 ∷ 116 ∷ 49 ∷ [];
  tag = none;
  repo = none;
  license = none;
  raw = [];
}

locked-has_version : has_version is_decimal locked ≡ true
unfolding has_version match_version match_post Version.digits skip_digits after at_end
locked-has_version = refl

locked-has_commit_hash : has_commit_hash locked ≡ true
unfolding has_commit_hash match_hash is_hex at_end
locked-has_commit_hash = refl

-- A version with a part left out is refused.
short-version : match_version is_decimal (48 ∷ 46 ∷ 51 ∷ []) ≡ false
unfolding match_version match_post Version.digits skip_digits after at_end
short-version = refl

has_version_lem_example :
    (has_version is_decimal locked ≡ true) ↔ IsVersion is_decimal locked.version
has_version_lem_example = has_version_lem is_decimal refl refl locked
