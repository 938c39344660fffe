-- ===== src/Tests/Answers.antt =====
-- The online benchmark's data sets, answers and numbers, the trace files and the two command lines.
use Prim.Native.String.{String}
use mooncake_kvcache_tiered.Base.{
  ℕ, ◌*◌, ◌≤◌, ◌<◌, ◌≡◌, ◌≢◌, refl, Option, none, some, List, [], ◌∷◌, ◌++◌, map, length, ok, raise,
  Result, All, total, Error, value_error, zero_division, index_error, file_not_found,
  assertion_error, response_error, ◌>>=◌, ℕ_discrete, nat_key, if◌then◌else◌, ◌==◌,
}
use mathlib.Core.List.{Perm}
use mooncake_kvcache_tiered.Text.{
  Text, text_key, text_dec, strip, skip_space, trim_end, is_space, starts_with, int_of, unsigned,
  digits,
}
use mooncake_kvcache_tiered.Json.{
  Json, number, string, array, object, nil, cons, end, member, truthy, get_or, first, field,
  iterate, traverse, to_int,
}
use mooncake_kvcache_tiered.Dict.{lookup}
use mooncake_kvcache_tiered.Framework.{TraceRecord}
use mooncake_kvcache_tiered.Framework.Trace.{
  parse_trace, IsTrace, LineSays, nothing_left, says, blank, record_of, timestamp_name,
  input_length_name, output_length_name, hash_ids_name, parse_trace_lem,
}
use mooncake_kvcache_tiered.Framework.Main.{IsReport, main_lem}
use mooncake_kvcache_tiered.Framework.Main
use mooncake_kvcache_tiered.Shootout
use mooncake_kvcache_tiered.Framework.Replay.{RunReport}
use mooncake_kvcache_tiered.Shootout.{Row, sorted_policies}
use mooncake_kvcache_tiered.Shootout.Ranking.{IsRanked}
use mooncake_kvcache_tiered.Shootout.Rows.{IsRow, main-IsRanked}
use mooncake_kvcache_tiered.Online.Dataset.{
  conversations_name, value_name, values_of, conversation, load_sharegpt,
}
use mooncake_kvcache_tiered.Online.Sessions.{usable_of, AllSessions, load_sharegpt_lem}
use mooncake_kvcache_tiered.Online.Request.{
  Line, Sample, data_mark, done_mark, choices_name, text_name, decode, line_event, chunk_event,
  done, has_text, one_request, read_stream, add_token,
}
use mooncake_kvcache_tiered.Online.Stream.{sample, text_times, one_request_lem}
use mooncake_kvcache_tiered.Online.Summary.{Summary, summarize}
use mooncake_kvcache_tiered.Online.Numbers.{IsMedian, IsP95, summarize_lem}
use mooncake_kvcache_tiered.Tests.Online.{counter}

-- A turn that says `a`, and a data set of one conversation with four of them.
abbrev turn : Json
turn = object (member value_name (string (97 ∷ [])) end)

abbrev talk : Json
talk =
    object
      (member conversations_name (array (cons turn (cons turn (cons turn (cons turn nil))))) end)

abbrev data_set : Json
data_set = array (cons talk nil)

abbrev four_turns : List (List Text)
four_turns = ((97 ∷ []) ∷ (97 ∷ []) ∷ (97 ∷ []) ∷ (97 ∷ []) ∷ []) ∷ []

reads_talks : iterate data_set ≡ ok (talk ∷ [])
unfolding iterate
reads_talks = refl

reads_turns : traverse conversation (talk ∷ []) ≡ ok (map (map string) four_turns)
unfolding traverse conversation values_of get_or iterate truthy lookup text_dec ℕ_discrete
reads_turns = refl

load_sharegpt_lem_example :
    (length (usable_of 3 four_turns) < 1
      → load_sharegpt counter (λ t. ok data_set) (some []) 1 3 0 ≡ raise assertion_error)
    × (1 ≤ length (usable_of 3 four_turns)
        → (rng : ℕ) × (prefixes : List Text) × (questions : List (List Text)) × (load_sharegpt
              counter
              (λ t. ok data_set)
              (some [])
              1
              3
              0
            ≡ ok (rng, prefixes, questions))
          × (length prefixes ≡ 1)
          × AllSessions 3 prefixes questions)
load_sharegpt_lem_example =
    load_sharegpt_lem counter (λ t. ok data_set) [] 1 3 0 data_set (talk ∷ []) four_turns refl
      reads_talks reads_turns

-- A chunk with text, whatever its payload says.
abbrev chunk : Json
chunk =
    object (
      member choices_name (array (cons (object (member text_name (string (97 ∷ [])) end)) nil)) end)

abbrev lines : List Line
lines =
    record { time = 4; content = some (data_mark ++ 97 ∷ []) }
    ∷ record { time = 7; content = some (data_mark ++ done_mark) }
    ∷ []

reads_lines :
    one_request (λ t. ok chunk) 200 3 lines 9 ≡ ok (record { ttft = 1; total = 6; tokens = 1 })
unfolding one_request read_stream decode line_event chunk_event has_text add_token get_or first
    truthy lookup text_dec ℕ_discrete skip_space trim_end is_space starts_with
reads_lines = refl

one_request_lem_example :
    (400 ≤ 200 → one_request (λ t. ok chunk) 200 3 lines 9 ≡ raise response_error)
    × (200 < 400
        → one_request (λ t. ok chunk) 200 3 lines 9
          ≡ (text_times (λ t. ok chunk) lines >>= λ ts. ok (sample 3 9 ts)))
    × ((before after : List Line) (l : Line)
        → decode (λ t. ok chunk) l ≡ ok done
        → text_times (λ t. ok chunk) (before ++ l ∷ after)
          ≡ text_times (λ t. ok chunk) (before ++ l ∷ []))
one_request_lem_example = one_request_lem (λ t. ok chunk) 200 3 9 lines

abbrev samples : List Sample
samples =
    record { ttft = 1; total = 6; tokens = 1 } ∷ record { ttft = 4; total = 5; tokens = 2 } ∷ []

summarize_lem_example :
    (samples ≡ [] → summarize samples 9 ≡ raise value_error)
    × (samples ≢ [] → ◌≡◌ {A = ℕ} 9 0 → summarize samples 9 ≡ raise zero_division)
    × (samples ≢ []
        → 0 < 9
        → (s : Summary) × (summarize samples 9 ≡ ok s)
          × (s.requests ≡ length samples)
          × (s.gen_tokens ≡ total (λ r. r.tokens) samples)
          × (s.ttft_mean.num ≡ total (λ r. r.ttft) samples)
          × (s.ttft_mean.den ≡ length samples)
          × (s.token_rate.num ≡ s.gen_tokens)
          × (s.token_rate.den ≡ 9)
          × IsMedian s.ttft_p50 (map (λ r. r.ttft) samples)
          × IsP95 s.ttft_p95 (map (λ r. r.ttft) samples)
          × (s.ttft_p50.num ≤ s.ttft_p50.den * s.ttft_p95))
summarize_lem_example = summarize_lem samples 9

-- A record of one block, and what holds it.
abbrev block_record : TraceRecord ℕ
block_record = record { timestamp = 1; input_length = 2; output_length = 3; hash_ids = 4 ∷ [] }

abbrev block_object : Json
block_object = object (
    member timestamp_name (number 1) (
      member input_length_name (number 2) (
        member output_length_name (number 3)
          (member hash_ids_name (array (cons (number 4) nil)) end))))

-- Every text is read as the record, but `b`, which is refused.
abbrev load_block : Text → Result Json
load_block [] = raise value_error
load_block (c ∷ cs) = if c == 98 then raise value_error else ok block_object

reads_block : LineSays load_block (97 ∷ 10 ∷ []) (ok block_record)
unfolding record_of field to_int iterate traverse lookup text_dec ℕ_discrete skip_space trim_end
    is_space
reads_block = (λ h. cc, refl)

refuses_b : LineSays load_block (98 ∷ 10 ∷ []) (raise value_error)
unfolding skip_space trim_end is_space
refuses_b = (λ h. cc, refl)

blank_line : strip (10 ∷ []) ≡ []
unfolding skip_space trim_end is_space
blank_line = refl

abbrev trace_lines : List Text
trace_lines = (10 ∷ []) ∷ (97 ∷ 10 ∷ []) ∷ []

trace_lines-IsTrace : IsTrace load_block trace_lines (block_record ∷ [])
trace_lines-IsTrace = blank blank_line (says reads_block nothing_left)

parse_trace_lem_example :
    (parse_trace load_block (some trace_lines) ≡ ok (block_record ∷ []))
    × (parse_trace load_block (some (trace_lines ++ (98 ∷ 10 ∷ []) ∷ [])) ≡ raise value_error)
    × (parse_trace load_block none ≡ raise file_not_found)
parse_trace_lem_example =
    parse_trace_lem load_block trace_lines (block_record ∷ []) (98 ∷ 10 ∷ []) value_error []
      trace_lines-IsTrace refuses_b

abbrev files : Text → Option (List Text)
files path = some trace_lines

abbrev locked : Result String
locked = ok "abc"

main_lem_example :
    ((args : List Text) → length args ≢ 1 → Main.main load_block files locked args ≡ ok (2, []))
    × ((e : Error)
        → parse_trace load_block (some trace_lines) ≡ raise e
        → Main.main load_block files locked ([] ∷ []) ≡ raise e)
    × ((records : List (TraceRecord ℕ))
        → parse_trace load_block (some trace_lines) ≡ ok records
        → ((e : Error) → locked ≡ raise e → Main.main load_block files locked ([] ∷ []) ≡ raise e)
          × ((commit : String)
              → locked ≡ ok commit
              → (b : RunReport) × (p : RunReport) × (Main.main load_block files locked ([] ∷ [])
                  ≡ ok (0, b ∷ p ∷ []))
                × IsReport commit b
                × IsReport commit p))
main_lem_example = main_lem load_block files locked []

pool_of_eight : Shootout.pool_of load_block files ((56 ∷ []) ∷ []) ≡ ok 8
unfolding Shootout.pool_of int_of unsigned digits skip_space trim_end is_space
pool_of_eight = refl

main-IsRanked_example :
    (Shootout.main load_block files [] ≡ ok (2, []))
    × (◌≡◌ {A = ℕ} 8 0 → Shootout.main load_block files ([] ∷ (56 ∷ []) ∷ []) ≡ raise value_error)
    × (0 < 8
        → block_record ∷ [] ≡ []
        → Shootout.main load_block files ([] ∷ (56 ∷ []) ∷ []) ≡ raise index_error)
    × (0 < 8
        → 0 < length (block_record ∷ [])
        → (rows : List Row) × (Shootout.main load_block files ([] ∷ (56 ∷ []) ∷ []) ≡ ok (0, rows))
          × Perm (map (λ r. r.policy) rows) sorted_policies
          × IsRanked rows
          × All IsRow rows)
main-IsRanked_example =
    main-IsRanked load_block files [] ((56 ∷ []) ∷ []) 8 (block_record ∷ []) pool_of_eight
      parse_trace_lem_example.0
