-- ===== src/Online/Request.antt =====
-- scripts/bench_online.py: `_one_request`, over the answer of the server: its status, and its lines
-- with the times at which they come. `json.loads` is given.
use mooncake_kvcache_tiered.Base.{
  ℕ, suc, ◌-◌, Bool, false, Option, none, some, List, [], ◌∷◌, leb, if◌then◌else◌, drop, eq, Result,
  ok, raise, value_error, response_error, ◌>>=◌,
}
use mooncake_kvcache_tiered.Text.{Text, text_key, strip, starts_with}
use mooncake_kvcache_tiered.Json.{Json, null, truthy, get_or, first}

abbrev pub choices_name : Text
choices_name = 99 ∷ 104 ∷ 111 ∷ 105 ∷ 99 ∷ 101 ∷ 115 ∷ []

abbrev pub text_name : Text
text_name = 116 ∷ 101 ∷ 120 ∷ 116 ∷ []

abbrev pub data_mark : Text
data_mark = 100 ∷ 97 ∷ 116 ∷ 97 ∷ 58 ∷ []

abbrev pub done_mark : Text
done_mark = 91 ∷ 68 ∷ 79 ∷ 78 ∷ 69 ∷ 93 ∷ []

-- A line of the answer: when it comes, and its text, or nothing if it is not UTF-8.
pub record Line : Type 0 where
  pub time : ℕ
  pub content : Option Text

-- What is returned: the time to the first token, the whole time, the number of tokens.
pub record Sample : Type 0 where
  pub ttft : ℕ
  pub total : ℕ
  pub tokens : ℕ

-- `chunk.get("choices") and chunk["choices"][0].get("text")`
unfoldable pub has_text : Json → Result Bool
has_text chunk = do
  choices ← get_or chunk choices_name null
  let text = first choices >>= λ c. get_or c text_name null >>= λ t. ok (truthy t) in
      if truthy choices then text else ok false

-- The local variables `ttft` and `tokens`.
pub record Reading : Type 0 where
  pub ttft : Option ℕ
  pub tokens : ℕ

unfoldable pub add_token : ℕ → ℕ → Reading → Reading
add_token start time r = record {
  ttft = (elim r.ttft [ none ↦ some (time - start) | some t ↦ some t ]);
  tokens = suc r.tokens;
}

-- What a line is to the loop: `continue` and a chunk without text, `break`, a chunk with text.
pub data Event : Type 0 where
  skipped done token : Event

module _ (loads : Text → Result Json) where
  unfoldable pub chunk_event : Text → Result Event
  chunk_event data_text = do
    chunk ← loads data_text
    b ← has_text chunk
    ok (if b then token else skipped)

  unfoldable pub line_event : Text → Result Event
  line_event line =
      let data_text = strip (drop 5 line) in
      let event = if eq data_text done_mark then ok done else chunk_event data_text in
      if starts_with data_mark line then event else ok skipped

  unfoldable pub decode : Line → Result Event
  decode l = elim l.content [ none ↦ raise value_error | some raw ↦ line_event (strip raw) ]

  unfoldable pub read_stream : ℕ → List Line → Reading → Result Reading
  read_stream start [] r = ok r
  read_stream start (l ∷ ls) r = decode l >>= λ event. elim event [
    | skipped ↦ read_stream start ls r
    | done ↦ ok r
    | token ↦ read_stream start ls (add_token start l.time r)
  ]

  -- `start` and `finish` are the times before the request and after the answer.
  unfoldable pub one_request : ℕ → ℕ → List Line → ℕ → Result Sample
  one_request status start lines finish =
      let answer = read_stream start lines (record { ttft = none; tokens = 0 }) in
      let total = finish - start in
      if leb 400 status
      then raise response_error
      else (answer >>= λ r. ok (record {
        ttft = (elim r.ttft [ none ↦ total | some t ↦ t ]);
        total = total;
        tokens = r.tokens;
      }))
