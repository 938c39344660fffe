-- ===== src/Provenance.antt =====
-- python/bench/provenance.py: the lock file. A text is the list of its code points. The expression
-- for a line, `^\s*([A-Za-z0-9_]+)\s*=\s*(.+?)\s*$`, is the function `match_line`.
pub mod Lines
pub mod Lock
pub mod Formats
pub mod Version
use mooncake_kvcache_tiered.Base.{
  ℕ, zero, suc, Bool, true, false, not, ◌||◌, ◌&&◌, Option, none, some, List, [], ◌∷◌, ◌++◌, Key,
  Result, ok, raise, value_error, file_not_found, if◌then◌else◌, ◌==◌, leb, ℕ_discrete,
}
use mooncake_kvcache_tiered.Text.{Text, text_key, is_space, skip_space, trim_end}
use mooncake_kvcache_tiered.Dict.{Dict, lookup, set}

-- Where `splitlines` breaks a text.
unfoldable pub is_break : ℕ → Bool
is_break c = (leb 10 c && leb c 13) || (leb 28 c && leb c 30) || c == 133 || c == 8232 || c == 8233

-- `[A-Za-z0-9_]`
unfoldable pub is_word : ℕ → Bool
is_word c = (leb 65 c && leb c 90) || (leb 97 c && leb c 122) || (leb 48 c && leb c 57) || c == 95

-- There is no line after the last break.
unfoldable pub last_line : Text → List Text
last_line [] = []
last_line (c ∷ line) = (c ∷ line) ∷ []

-- `splitlines` from a place on: the line so far, and whether the last character was a carriage
-- return, which makes one break with a line feed.
unfoldable pub lines_from : Text → Bool → Text → List Text
lines_from line after_return [] = last_line line
lines_from line after_return (c ∷ cs) =
    let skipped = lines_from [] false cs in
    let broken = lines_from [] (c == 13) cs in
    let longer = lines_from (line ++ c ∷ []) false cs in
    if after_return && c == 10 then skipped else if is_break c then line ∷ broken else longer

unfoldable pub split_lines : Text → List Text
split_lines text = lines_from [] false text

-- The word at the start of a text, and the rest.
unfoldable pub word : Text → Text × Text
word [] = ([], [])
word (c ∷ cs) = let (w, rest) = word cs in if is_word c then (c ∷ w, rest) else ([], c ∷ cs)

unfoldable pub last : Text → Option ℕ
last [] = none
last (c ∷ []) = some c
last (c ∷ d ∷ cs) = last (d ∷ cs)

-- The second group, of what follows the sign `=`: the text without the white space around it. If
-- nothing is left, the first `\s*` gives back its last character, which is then the group.
unfoldable pub match_value : Text → Option Text
match_value t = elim (trim_end (skip_space t)) [
  | [] ↦ elim (last t) [ none ↦ none | some c ↦ some (c ∷ []) ]
  | ◌∷◌ c cs ↦ some (c ∷ cs)
]

-- What follows the key.
unfoldable pub match_rest : Text → Text → Option (Text × Text)
match_rest k [] = none
match_rest k (c ∷ cs) =
    let value = match_value cs in
    if c == 61 then (elim value [ none ↦ none | some v ↦ some (k, v) ]) else none

unfoldable pub match_key : Text × Text → Option (Text × Text)
match_key ([], rest) = none
match_key (c ∷ k, rest) = match_rest (c ∷ k) (skip_space rest)

unfoldable pub match_line : Text → Option (Text × Text)
match_line line = match_key (word (skip_space line))

-- Blank lines and comments, which start with `#`.
unfoldable pub is_ignored : Text → Bool
is_ignored stripped = elim stripped [ [] ↦ true | ◌∷◌ c cs ↦ c == 35 ]

unfoldable pub parse_lines : List Text → Dict Text Text → Dict Text Text
parse_lines [] result = result
parse_lines (line ∷ lines) result = parse_lines lines (
    if is_ignored (trim_end (skip_space line))
    then result
    else (elim (match_line line) [ none ↦ result | some m ↦ set m.0 m.1 result ]))

unfoldable pub parse_lock_text : Text → Dict Text Text
parse_lock_text text = parse_lines (split_lines text) []

pub record MooncakeLock : Type 0 where
  pub commit : Text
  pub version : Text
  pub tag : Option Text
  pub repo : Option Text
  pub license : Option Text
  pub raw : Dict Text Text

-- The names of the fields: mooncake_ and commit, version, tag, repo or license.
abbrev pub prefix : Text
prefix = 109 ∷ 111 ∷ 111 ∷ 110 ∷ 99 ∷ 97 ∷ 107 ∷ 101 ∷ 95 ∷ []

abbrev pub commit_name : Text
commit_name = prefix ++ 99 ∷ 111 ∷ 109 ∷ 109 ∷ 105 ∷ 116 ∷ []

abbrev pub version_name : Text
version_name = prefix ++ 118 ∷ 101 ∷ 114 ∷ 115 ∷ 105 ∷ 111 ∷ 110 ∷ []

abbrev pub tag_name : Text
tag_name = prefix ++ 116 ∷ 97 ∷ 103 ∷ []

abbrev pub repo_name : Text
repo_name = prefix ++ 114 ∷ 101 ∷ 112 ∷ 111 ∷ []

abbrev pub license_name : Text
license_name = prefix ++ 108 ∷ 105 ∷ 99 ∷ 101 ∷ 110 ∷ 115 ∷ 101 ∷ []

-- `fields.get(key)`, if it is not empty.
unfoldable pub required : Text → Dict Text Text → Option Text
required name fields = elim (lookup name fields) [
  | none ↦ none
  | some v ↦ elim v [ [] ↦ none | ◌∷◌ c cs ↦ some (c ∷ cs) ]
]

-- The file is its text, or nothing if there is none.
unfoldable pub read_mooncake_lock : Option Text → Result MooncakeLock
read_mooncake_lock none = raise file_not_found
read_mooncake_lock (some text) =
    let fields = parse_lock_text text in
    elim (required commit_name fields) [
      | none ↦ raise value_error
      | some commit ↦ elim (required version_name fields) [
        | none ↦ raise value_error
        | some version ↦ ok (record {
          commit = commit;
          version = version;
          tag = lookup tag_name fields;
          repo = lookup repo_name fields;
          license = lookup license_name fields;
          raw = fields;
        })
      ]
    ]
