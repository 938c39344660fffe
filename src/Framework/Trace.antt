-- ===== src/Framework/Trace.antt =====
-- python/bench/framework.py: reading a trace. `json.loads` is given, and a file is its lines.
use mooncake_kvcache_tiered.Base.{
  ap, sym, ◌∙◌, refl, Error, file_not_found, ◌++◌, ℕ, ◌≡◌, ◌≢◌, Option, none, some, List, [], ◌∷◌,
  Result, ok, raise, ◌>>=◌,
}
use mathlib.Core.List.{append-nil}
use mooncake_kvcache_tiered.Text.{Text, strip}
use mooncake_kvcache_tiered.Json.{Json, field, iterate, to_int, traverse}
use mooncake_kvcache_tiered.Framework.{TraceRecord}

abbrev pub timestamp_name : Text
timestamp_name = 116 ∷ 105 ∷ 109 ∷ 101 ∷ 115 ∷ 116 ∷ 97 ∷ 109 ∷ 112 ∷ []

abbrev pub input_length_name : Text
input_length_name = 105 ∷ 110 ∷ 112 ∷ 117 ∷ 116 ∷ 95 ∷ 108 ∷ 101 ∷ 110 ∷ 103 ∷ 116 ∷ 104 ∷ []

abbrev pub output_length_name : Text
output_length_name = 111 ∷ 117 ∷ 116 ∷ 112 ∷ 117 ∷ 116 ∷ 95 ∷ 108 ∷ 101 ∷ 110 ∷ 103 ∷ 116 ∷ 104 ∷ []

abbrev pub hash_ids_name : Text
hash_ids_name = 104 ∷ 97 ∷ 115 ∷ 104 ∷ 95 ∷ 105 ∷ 100 ∷ 115 ∷ []

-- `int(obj[name])`
abbrev pub int_field : Json → Text → Result ℕ
int_field obj name = field obj name >>= to_int

unfoldable pub record_of : Json → Result (TraceRecord ℕ)
record_of obj = do
  t ← int_field obj timestamp_name
  i ← int_field obj input_length_name
  o ← int_field obj output_length_name
  hs ← field obj hash_ids_name
  js ← iterate hs
  ks ← traverse to_int js
  ok (record { timestamp = t; input_length = i; output_length = o; hash_ids = ks })

module _ (loads : Text → Result Json) where
  -- The record of a line that is stripped, if it is not empty.
  unfoldable pub add_record : Text → Result (List (TraceRecord ℕ)) → Result (List (TraceRecord ℕ))
  add_record [] rest = rest
  add_record (c ∷ cs) rest = (loads (c ∷ cs) >>= record_of) >>= λ r. rest >>= λ rs. ok (r ∷ rs)

  unfoldable pub parse_trace_lines : List Text → Result (List (TraceRecord ℕ))
  parse_trace_lines [] = ok []
  parse_trace_lines (line ∷ lines) = add_record (strip line) (parse_trace_lines lines)

  unfoldable pub parse_trace : Option (List Text) → Result (List (TraceRecord ℕ))
  parse_trace none = raise file_not_found
  parse_trace (some lines) = parse_trace_lines lines

  -- What a line says: nothing, or the record `r`, or the error `e`.
  abbrev pub LineSays : Text → Result (TraceRecord ℕ) → Type 0
  LineSays line r = (strip line ≢ []) × ((loads (strip line) >>= record_of) ≡ r)

  pub data IsTrace : List Text → List (TraceRecord ℕ) → Type 0 where
    nothing_left : IsTrace [] []
    blank :
        {line : Text} {lines : List Text} {rs : List (TraceRecord ℕ)}
        → strip line ≡ []
        → IsTrace lines rs
        → IsTrace (line ∷ lines) rs
    says :
        {line : Text} {lines : List Text} {r : TraceRecord ℕ} {rs : List (TraceRecord ℕ)}
        → LineSays line (ok r)
        → IsTrace lines rs
        → IsTrace (line ∷ lines) (r ∷ rs)

  add_record-says :
      (t : Text) (r : Result (TraceRecord ℕ)) (rest : Result (List (TraceRecord ℕ)))
      → t ≢ []
      → (loads t >>= record_of) ≡ r
      → add_record t rest ≡ (r >>= λ a. rest >>= λ rs. ok (a ∷ rs))
  unfolding add_record
  add_record-says [] r rest h e = absurd (h refl)
  add_record-says (c ∷ cs) r rest h e = ap (λ q. q >>= λ a. rest >>= λ rs. ok (a ∷ rs)) e

  ok-bind : {A : Type 0} (r : Result A) → r ≡ (r >>= λ a. ok a)
  ok-bind (ok a) = refl
  ok-bind (raise e) = refl

  cons-bind :
      {A : Type 0} (a : A) (xs : List A) (r : Result (List A))
      → ((r >>= λ bs. ok (xs ++ bs)) >>= λ bs. ok (a ∷ bs)) ≡ (r >>= λ bs. ok (a ∷ xs ++ bs))
  cons-bind a xs (ok bs) = refl
  cons-bind a xs (raise e) = refl

  parse_trace_lines-append :
      {before : List Text} {rs : List (TraceRecord ℕ)} (after : List Text)
      → IsTrace before rs
      → parse_trace_lines (before ++ after) ≡ (parse_trace_lines after >>= λ qs. ok (rs ++ qs))
  unfolding parse_trace_lines add_record
  parse_trace_lines-append after nothing_left = ok-bind (parse_trace_lines after)
  parse_trace_lines-append after (blank e t) = rw (e, parse_trace_lines-append after t)
  parse_trace_lines-append after (says {lines} {r} {rs} h t) =
      add_record-says _ (ok r) (parse_trace_lines (lines ++ after)) h.0 h.1
      ∙ rw (parse_trace_lines-append after t) (cons-bind r rs (parse_trace_lines after))

  -- A file whose lines say records, one each, with blank lines in between, is read as these records
  -- in their order. If after such lines one says an error, this error is raised, whatever follows.
  -- Without a file, `FileNotFoundError` is raised.
  pub parse_trace_lem :
      (lines : List Text) (rs : List (TraceRecord ℕ)) (bad : Text) (e : Error) (after : List Text)
      → IsTrace lines rs
      → LineSays bad (raise e)
      → (parse_trace (some lines) ≡ ok rs)
        × (parse_trace (some (lines ++ bad ∷ after)) ≡ raise e)
        × (parse_trace none ≡ raise file_not_found)
  unfolding parse_trace parse_trace_lines
  parse_trace_lem lines rs bad e after t h = (
    ap parse_trace_lines (sym (append-nil lines))
        ∙ parse_trace_lines-append [] t
        ∙ ap ok (append-nil rs),
    parse_trace_lines-append (bad ∷ after) t
        ∙ rw (add_record-says (strip bad) (raise e) (parse_trace_lines after) h.0 h.1) refl,
    refl,
  )
