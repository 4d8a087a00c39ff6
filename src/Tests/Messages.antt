-- ===== src/Tests/Messages.antt =====
-- Messages that are sliced, stores that are pushed to and pulled from, and filters of keys.
use parameter_server.Base.{
  ℕ, ◌+◌, ◌≤◌, ◌≡◌, refl, true, false, ◌&&◌, List, [], ◌∷◌, some, none, arith, min,
}
use parameter_server.Tests.Fixtures.{range, data_message, push_call, pull_call}
use parameter_server.Util.Range
use parameter_server.Util.Range.{Range}
use parameter_server.Util.SortedArray.Laws.{mem}
use parameter_server.Util.CountMin
use parameter_server.Util.CountMin.{CountMin, resize}
use parameter_server.Util.CountMin.Estimate.{IsValid, query-insert, resize-IsValid}
use parameter_server.Util.BloomFilter
use parameter_server.Util.BloomFilter.{BloomFilter, resize-IsSized, query-insert_found}
use parameter_server.Filter.Frequency.{insert_keys, query_keys, total_count, mem-query_keys}
use parameter_server.System.Message.{Message, DataType, of_task, empty_task, add_value}
use parameter_server.System.Message.Slice.{slice_message}
use parameter_server.System.Message.Partition.{ArePieces, chain_end}
use parameter_server.System.Message.Cover.{keys_of, AreRouted, slice_message_lem}
use parameter_server.Parameter.{process_request}
use parameter_server.Parameter.KvMap.{KvMap, plain_entry, methods}
use parameter_server.Parameter.KvMap.RoundTrip.{read, process_request_round_trip}

abbrev request : Message ℕ
request = data_message (range 0 100) (10 ∷ 60 ∷ 70 ∷ []) ((1 ∷ 2 ∷ 3 ∷ []) ∷ []) push_call

abbrev ranges : List Range
ranges = range 0 50 ∷ range 50 100 ∷ []

abbrev blank_messages : List (Message ℕ)
blank_messages = of_task empty_task ∷ of_task empty_task ∷ []

slice_message_lem_example :
    (outs : List (Message ℕ)) × (slice_message DataType.uint64 request ranges blank_messages
      ≡ some outs)
    × (keys_of DataType.uint64 request outs ≡ request.key)
    × AreRouted DataType.uint64 request ranges outs
    × ArePieces DataType.uint64 request ranges outs
unfolding of_task chain_end Range.contains
slice_message_lem_example =
    slice_message_lem DataType.uint64 request (range 0 50) (range 50 100 ∷ []) blank_messages
      (refl, omega arith, (refl, omega arith, tt)) refl (omega arith) (omega arith) (omega arith)
      (ground arith) (refl, (refl, (refl, tt))) ((refl, omega arith), tt)
      ((refl, refl), ((refl, refl), tt))

abbrev empty_store : KvMap (plain_entry ℕ 0)
empty_store = record { k = 1; state = tt; data_ = [] }

abbrev push_request : Message ℕ
push_request = data_message (range 0 100) (2 ∷ 5 ∷ []) ((7 ∷ 9 ∷ []) ∷ []) push_call

abbrev pull_request : Message ℕ
pull_request = data_message (range 0 100) (2 ∷ 5 ∷ []) [] pull_call

process_request_round_trip_example :
    (m' m'' : KvMap (plain_entry ℕ 0)) × (process_request
        (methods (plain_entry ℕ 0) DataType.uint64 0)
        empty_store
        push_request
      ≡ some (m', none))
    × (process_request (methods (plain_entry ℕ 0) DataType.uint64 0) m' pull_request
        ≡ some (m'', some (add_value DataType.uint64 (7 ∷ 9 ∷ []) pull_request)))
    × ((j : ℕ) → mem j (2 ∷ 5 ∷ []) ≡ false → read 0 m'.data_ j ≡ read 0 empty_store.data_ j)
unfolding of_task
process_request_round_trip_example =
    process_request_round_trip 0 DataType.uint64 0 empty_store push_request pull_request
      (7 ∷ 9 ∷ []) refl refl refl refl refl refl (ground arith) refl refl

abbrev sketch : CountMin
sketch = CountMin.resize 100 2 254 CountMin.empty_sketch

query-insert_example :
    (min sketch.v_max (CountMin.query 6 sketch + 3) ≤ CountMin.query 6 (CountMin.insert 6 3 sketch))
    × ((other : ℕ)
        → CountMin.query other sketch ≤ CountMin.query other (CountMin.insert 6 3 sketch))
    × IsValid (CountMin.insert 6 3 sketch)
query-insert_example = query-insert 6 3 sketch (resize-IsValid 100 2 254 CountMin.empty_sketch)

mem-query_keys_example :
    (after : CountMin) × (answer : List ℕ) × (insert_keys (6 ∷ 8 ∷ 6 ∷ []) (2 ∷ 1 ∷ 2 ∷ []) sketch
      ≡ some after)
    × (query_keys (6 ∷ 8 ∷ []) 3 after ≡ some answer)
    × (mem 6 answer ≡ true)
unfolding mem total_count resize
mem-query_keys_example =
    mem-query_keys 6 3 (6 ∷ 8 ∷ 6 ∷ []) (2 ∷ 1 ∷ 2 ∷ []) (6 ∷ 8 ∷ []) sketch
      (resize-IsValid 100 2 254 CountMin.empty_sketch) refl (omega arith) refl (omega arith) refl

query-insert_found_example :
    (BloomFilter.query 6 (BloomFilter.insert 6 (BloomFilter.resize 100 3)) ≡ true)
    × ((other : ℕ)
        → (BloomFilter.query other (BloomFilter.resize 100 3)
            && BloomFilter.query other (BloomFilter.insert 6 (BloomFilter.resize 100 3)))
          ≡ BloomFilter.query other (BloomFilter.resize 100 3))
query-insert_found_example =
    query-insert_found 6 (BloomFilter.resize 100 3) (resize-IsSized 100 3 (omega arith))
