-- ===== src/Online/Dataset.antt =====
-- scripts/bench_online.py: `_load_sharegpt`, over what `json.load` gives.
use mooncake_kvcache_tiered.Base.{
  ℕ, ◌+◌, Bool, false, Option, none, some, List, [], ◌∷◌, map, length, take, ltb, leb,
  if◌then◌else◌, Result, ok, raise, type_error, assertion_error, file_not_found, ◌>>=◌,
}
use mooncake_kvcache_tiered.Text.{Text, strip, join}
use mooncake_kvcache_tiered.Json.{
  Json, null, string, array, object, nil, list_of, dict_of, truthy, get_or, iterate, traverse,
}
use mooncake_kvcache_tiered.Online.{Random}

abbrev pub conversations_name : Text
conversations_name = 99 ∷ 111 ∷ 110 ∷ 118 ∷ 101 ∷ 114 ∷ 115 ∷ 97 ∷ 116 ∷ 105 ∷ 111 ∷ 110 ∷ 115 ∷ []

abbrev pub value_name : Text
value_name = 118 ∷ 97 ∷ 108 ∷ 117 ∷ 101 ∷ []

-- `[t["value"] for t in turns if t.get("value")]`
unfoldable pub values_of : List Json → Result (List Json)
values_of [] = ok []
values_of (t ∷ ts) = do
  v ← get_or t value_name null
  vs ← values_of ts
  ok (if truthy v then v ∷ vs else vs)

unfoldable pub conversation : Json → Result (List Json)
conversation c = do
  turns ← get_or c conversations_name (array nil)
  ts ← iterate turns
  values_of ts

-- `len(x)`
unfoldable pub length_of : Json → Result ℕ
length_of (string t) = ok (length t)
length_of (array js) = ok (length (list_of js))
length_of (object ms) = ok (length (dict_of ms))
length_of j = raise type_error

unfoldable pub total_length : List Json → Result ℕ
total_length [] = ok 0
total_length (x ∷ xs) = do n ← length_of x; m ← total_length xs; ok (n + m)

-- At least four turns, which together have the characters of a prefix.
unfoldable pub is_usable : ℕ → List Json → Result Bool
is_usable prefix_chars c =
    let enough = total_length c >>= λ n. ok (leb prefix_chars n) in
    if leb 4 (length c) then enough else ok false

unfoldable pub keep_usable : ℕ → List (List Json) → Result (List (List Json))
keep_usable prefix_chars [] = ok []
keep_usable prefix_chars (c ∷ cs) = do
  b ← is_usable prefix_chars c
  rest ← keep_usable prefix_chars cs
  ok (if b then c ∷ rest else rest)

-- An element that `join` takes.
unfoldable pub as_text : Json → Result Text
as_text (string t) = ok t
as_text j = raise type_error

-- `[t[:400] for t in c if t.strip()]`
unfoldable pub spoken : List Text → List Text
spoken [] = []
spoken (t ∷ ts) =
    let rest = spoken ts in elim (strip t) [ [] ↦ rest | ◌∷◌ c cs ↦ take 400 t ∷ rest ]

-- The prefix and the questions of a session.
unfoldable pub session_of : ℕ → List Json → Result (Text × List Text)
session_of prefix_chars c = do
  ts ← traverse as_text c
  ok (take prefix_chars (join (32 ∷ []) ts), take 16 (spoken ts))

module _ (random : Random) where
  unfoldable pub build_sessions :
      ℕ → ℕ → List Json → random.State → Result (random.State × List (Text × List Text))
  build_sessions sessions prefix_chars data_set rng = do
    convs ← traverse conversation data_set
    usable ← keep_usable prefix_chars convs
    let (rng', shuffled) = random.shuffle usable rng in
        if ltb (length shuffled) sessions
        then raise assertion_error
        else (traverse (session_of prefix_chars) (take sessions shuffled) >>= λ ps. ok (rng', ps))

  -- The file is its text, or nothing if there is none. The prefixes and the questions are parallel.
  unfoldable pub load_sharegpt :
      (Text → Result Json)
      → Option Text
      → ℕ
      → ℕ
      → random.State
      → Result (random.State × List Text × List (List Text))
  load_sharegpt loads none sessions prefix_chars rng = raise file_not_found
  load_sharegpt loads (some text) sessions prefix_chars rng = do
    j ← loads text
    data_set ← iterate j
    built ← build_sessions sessions prefix_chars data_set rng
    ok (built.0, map (λ p. p.0) built.1, map (λ p. p.1) built.1)
