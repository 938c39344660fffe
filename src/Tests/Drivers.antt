-- ===== src/Tests/Drivers.antt =====
-- The drivers over a store that never drops a block.
use mooncake_kvcache_tiered.Base.{
  ℕ, ◌≡◌, refl, none, some, Option, Result, ok, All, ℕ_discrete, List, [], ◌∷◌, length, nat_key,
}
use mooncake_kvcache_tiered.Dict.{Dict, lookup, contains, set}
use mooncake_kvcache_tiered.Framework.{TraceRecord}
use mooncake_kvcache_tiered.Driver.{BlockStore, flood_records}
use mooncake_kvcache_tiered.Text.{Text, text_dec, skip_space, trim_end, is_space}
use mooncake_kvcache_tiered.Json.{
  Json, number, array, object, nil, cons, end, member, field, iterate, traverse, to_int,
}
use mooncake_kvcache_tiered.Framework.{Ratio}
use mooncake_kvcache_tiered.Framework.Trace.{
  parse_trace, parse_trace_lines, add_record, record_of, timestamp_name, input_length_name,
  output_length_name, hash_ids_name,
}
use mooncake_kvcache_tiered.Driver.Commands.{
  IsRate, flood_name, int_or, pair_command, second_records, pair_command_lem,
}

abbrev roomy_store : BlockStore
roomy_store = record {
  State = Dict ℕ (Unit {0});
  prefetch_chain_multi = λ ks s. s;
  exists = λ k s. contains k s;
  get = λ k s. s;
  put = λ tenant k s. set k tt s;
  record_sequence = λ ks s. s;
}

abbrev requests : List (TraceRecord ℕ)
requests =
    record { timestamp = 0; input_length = 1024; output_length = 10; hash_ids = 1 ∷ 2 ∷ [] }
    ∷ record { timestamp = 5; input_length = 1536; output_length = 20; hash_ids = 1 ∷ 2 ∷ 3 ∷ [] }
    ∷ []

-- The store that is opened is empty, whatever its size and the weights.
abbrev open_empty : ℕ → ℕ → Option (ℕ × ℕ) → Dict ℕ (Unit {0})
open_empty fast slow weights = []

-- A trace of one line, and `json.loads` that reads it as a record of two blocks.
abbrev record_line : Text
record_line = 97 ∷ 10 ∷ []

abbrev loads_record : Text → Result Json
loads_record t = ok (
    object (
      member timestamp_name (number 1) (
        member input_length_name (number 2) (
          member output_length_name (number 3)
            (member hash_ids_name (array (cons (number 4) (cons (number 5) nil))) end)))))

abbrev trace_file : Text → Option (List Text)
trace_file path = some (record_line ∷ [])

abbrev two_blocks : TraceRecord ℕ
two_blocks = record { timestamp = 1; input_length = 2; output_length = 3; hash_ids = 4 ∷ 5 ∷ [] }

parse_record : parse_trace loads_record (some (record_line ∷ [])) ≡ ok (two_blocks ∷ [])
unfolding parse_trace parse_trace_lines add_record record_of field to_int iterate traverse lookup
    text_dec ℕ_discrete skip_space trim_end is_space
parse_record = refl

pair_command_lem_example :
    let run = pair_command roomy_store open_empty loads_record trace_file in
    (run [] ≡ ok none)
    × (run ((97 ∷ []) ∷ []) ≡ ok none)
    × (second_records roomy_store open_empty loads_record trace_file flood_name (two_blocks ∷ [])
        ≡ ok (flood_records 1 32))
    × (rates : List (Ratio × Ratio)) × (run ((97 ∷ []) ∷ flood_name ∷ []) ≡ ok (some rates))
    × (length rates ≡ 4)
    × All (λ r. IsRate (two_blocks ∷ []) r.0 × IsRate (flood_records 1 32) r.1) rates
unfolding int_or second_records text_dec ℕ_discrete
pair_command_lem_example =
    pair_command_lem roomy_store open_empty loads_record trace_file (97 ∷ []) flood_name [] 4096 4
      (two_blocks ∷ []) (flood_records 1 32) refl refl parse_record refl
