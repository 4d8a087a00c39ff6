-- ===== src/Parameter/KvLayer.antt =====
-- KVLayer of src/parameter/kv_layer.h: arrays of values by channel, with no keys, which the servers
-- share by position. A method is one step, as for the other parameters.
pub mod Partition
use parameter_server.Base.{
  ℕ, zero, suc, ◌+◌, ◌-◌, ◌*◌, ◌%◌, Bool, true, false, Option, some, none, List, [], ◌∷◌, ◌++◌,
  ◌==◌, ltb, leb, length, take, drop, replicate, check, ◌>>=◌, ◌>>◌, Assoc, lookup, insert, ℤ, pos,
  negsuc, int_eq, if_empty, if◌then◌else◌,
}
use parameter_server.Util.Range
use parameter_server.Util.Range.{Range}
use parameter_server.Util.Range.Divide.{LongDouble, even_divide}
use parameter_server.Util.SortedArray.{segment}
use parameter_server.System.Message.{Message, Task, DataType, of_task, add_value, key_range_of}
use parameter_server.System.Executor.{server_group}
use parameter_server.Parameter.{with_push}

-- What the class takes from elsewhere: the value type with its zero and tag, long double, the
-- updater's Init and Update, which change the array that they are given, and the node's role.
pub record LayerEnv (V : Type 0) : Type 1 where
  pub zero_value : V
  pub value_type : DataType
  pub long_double : LongDouble
  pub init : ℤ → ℕ → List V → List V
  pub update : ℤ → ℕ → List V → List V → List V
  pub is_worker : Bool
  pub is_server : Bool

-- key * 991 as it enters the remainder by a size_t.
abbrev pub scaled_key : ℤ → ℕ
scaled_key (pos n) = n * 991
scaled_key (negsuc n) = Range.u64_mod - (n + 1) * 991

module _ {V : Type 0} (env : LayerEnv V) where
  pub record KvLayer : Type 0 where
    pub layer_ : Assoc ℤ (List V)
    pub partition_thr : ℕ

  -- layer_[key]: a missing entry is made.
  unfoldable pub layer_at : ℤ → KvLayer → List V
  layer_at key m = elim (lookup key m.layer_) [ none ↦ [] | some xs ↦ xs ]

  unfoldable pub set_layer : ℤ → List V → KvLayer → KvLayer
  set_layer key xs m = record m { layer_ = insert key xs m.layer_ }

  unfoldable pub with_range : Range → Message V → Message V
  with_range r msg = record msg { task = record msg.task { key_range = some r } }

  -- The message that Push submits, for the array `data` of the given size.
  unfoldable pub push_message : Task → List V → Message V
  unfolding with_range
  push_message task vals =
      let msg = record (of_task task) { recver = server_group } in
      with_push true
        (add_value env.value_type vals (with_range (record { begin = 0; end = length vals }) msg))

  -- What Pull does to the layer before it submits: without an array of the caller's, a layer of
  -- another size is set to zeros; else the caller's array is the layer.
  unfoldable pub prepare_pull : Task → Option (List V) → ℕ → KvLayer → KvLayer
  unfolding layer_at set_layer
  prepare_pull task none size m =
      if length (layer_at task.key_channel m) == size
      then set_layer task.key_channel (layer_at task.key_channel m) m
      else set_layer task.key_channel (replicate size env.zero_value) m
  prepare_pull task (some vals) size m = set_layer task.key_channel vals m

  unfoldable pub pull_message : Task → ℕ → Option ℕ → Message V
  unfolding with_range
  pull_message task size callback =
      let msg = record (of_task task) { recver = server_group } in
      with_push false
        (record (with_range (record { begin = 0; end = size }) msg) { callback = callback })

  -- One round of the first loop of Slice.
  unfoldable pub divide_one : (n thr : ℕ) → ℤ → Range → ℕ → Message V → Option (Message V)
  unfolding with_range
  divide_one n thr key kr i msg =
      if ltb (Range.size kr) thr
      then (if i == scaled_key key % n
          then some (with_range kr msg)
          else some (record (with_range (record { begin = 0; end = 0 }) msg) { valid = false }))
      else (do part ← even_divide env.long_double kr n i; some (with_range part msg))

  -- The first loop of Slice, from index i. There is one message for each of the n servers.
  unfoldable pub divide_ranges :
      (n thr : ℕ) → ℤ → Range → ℕ → List (Message V) → Option (List (Message V))
  unfolding divide_one
  divide_ranges n thr key kr i [] = some []
  divide_ranges n thr key kr i (msg ∷ msgs) = do
    msg' ← divide_one n thr key kr i msg
    msgs' ← divide_ranges n thr key kr (suc i) msgs
    some (msg' ∷ msgs')

  unfoldable pub add_piece : List V → Message V → Option (Message V)
  add_piece vals msg =
      if msg.valid
      then (do
        piece ← segment vals (key_range_of msg.task)
        some (add_value env.value_type piece msg))
      else some msg

  unfoldable pub add_pieces : List V → List (Message V) → Option (List (Message V))
  unfolding add_piece
  add_pieces vals [] = some []
  add_pieces vals (msg ∷ msgs) = do
    msg' ← add_piece vals msg
    msgs' ← add_pieces vals msgs
    some (msg' ∷ msgs')

  -- The second loop of Slice.
  unfoldable pub divide_values :
      Range → List (List V) → List (Message V) → Option (List (Message V))
  unfolding add_pieces
  divide_values kr [] msgs = some msgs
  divide_values kr (vals ∷ value) msgs = do
    check (length vals == Range.size kr)
    msgs' ← add_pieces vals msgs
    divide_values kr value msgs'

  -- Slice(request, krs, msgs)
  unfoldable pub slice :
      KvLayer → Message V → List Range → List (Message V) → Option (List (Message V))
  unfolding divide_ranges divide_values
  slice m request krs msgs = do
    let kr = key_range_of request.task
    msgs' ← divide_ranges (length krs) m.partition_thr request.task.key_channel kr 0 msgs
    divide_values kr request.value msgs'

  -- my_val, which is made of zeros and initialised where it is empty.
  unfoldable pub initialised : ℤ → ℕ → List V → List V
  initialised key size my_val =
      if_empty my_val (env.init key size (replicate size env.zero_value)) my_val

  -- GetValue(msg)
  unfoldable pub get_value : KvLayer → Message V → Option (KvLayer × Message V)
  unfolding layer_at set_layer initialised
  get_value m msg = do
    let key = msg.task.key_channel
    let kr = key_range_of msg.task
    let my_val = initialised key (Range.size kr) (layer_at key m)
    check (length my_val == Range.size kr)
    some (set_layer key my_val m, add_value env.value_type my_val msg)

  -- my_val.Segment(kr).CopyFrom(recv_data): the segment shares my_val's memory, and both are of
  -- the same size.
  unfoldable pub write_segment : List V → Range → List V → Option (List V)
  write_segment my_val kr recv_data = do
    shared ← segment my_val kr
    some (take kr.begin my_val ++ recv_data ++ drop kr.end my_val)

  -- SetValue(msg)
  unfoldable pub set_value : KvLayer → Message V → Option KvLayer
  unfolding layer_at set_layer initialised write_segment
  set_value m msg = elim msg.value [
    | recv_data ∷ [] ↦
        let kr = key_range_of msg.task in
        let key = msg.task.key_channel in
        let my_val = layer_at key m in
        check (Range.size kr == length recv_data)
        >> (if env.is_worker
            then (do
              let sized = if_empty my_val (replicate (Range.size kr) env.zero_value) my_val
              check (leb kr.end (length sized))
              written ← write_segment sized kr recv_data
              some (set_layer key written m))
            else if env.is_server
            then (do
              let sized = initialised key (Range.size kr) my_val
              check (leb (Range.size kr) (length sized))
              some (set_layer key (env.update key (Range.size kr) recv_data sized) m))
            else some (set_layer key my_val m))
    | _ ↦ none
  ]
