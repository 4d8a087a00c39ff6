-- ===== src/Parameter/KvVector.antt =====
-- KVVector of src/parameter/kv_vector.h: sorted keys with k values each, kept by channel. A method is
-- one step: the lock guards the two maps alone, and their entries are used after it is released.
pub mod Blocks
pub mod Store
pub mod Pull
pub mod PushPull
use parameter_server.Base.{
  ℕ, zero, suc, ◌*◌, ◌/◌, max, Bool, true, false, not, Option, some, none, List, [], ◌∷◌, ◌==◌, leb,
  length, replicate, get_elem?, if_empty, set, check, ◌>>=◌, ◌>>◌, Assoc, lookup, insert, erase, ℤ,
  pos, int_eq, eqb_ℤ, map, if◌then◌else◌,
}
use parameter_server.Util.Range
use parameter_server.Util.Range.{Range}
use parameter_server.Util.AssignOp.{Arith, AssignOpType}
use parameter_server.Util.SortedArray.{set_union, find_range, segment}
use parameter_server.Util.OrderedMatch.{allocate, ordered_match}
use parameter_server.Util.CountMin
use parameter_server.Util.CountMin.{CountMin}
use parameter_server.Filter.Frequency.{insert_keys, query_keys, resize_filter}
use parameter_server.System.Message.{
  Message, Task, DataType, TailKeyFilter, of_task, set_key, add_value, clear_value, time_of,
  key_range_of,
}
use parameter_server.System.Executor.{server_group}
use parameter_server.Parameter.{Methods, param_of, with_push}

-- What the methods read from elsewhere: the flag num_threads, the Manager's number of workers, the
-- type tag of a value, and two computations outside the naturals: the width w / log(w + 1) * n of a
-- new filter, and the bytes of a value array read as counts.
pub record Env (V : Type 0) : Type 0 where
  pub num_threads : ℕ
  pub num_workers : ℕ
  pub value_type : DataType
  pub filter_width : ℕ → ℕ → ℕ
  pub counts : List V → List ℕ

module _ (F : Arith) (env : Env F.V) where
  open F use {V}

  pub record KvPairs : Type 0 where
    pub key : List ℕ
    pub value : List V

  pub record Buffer : Type 0 where
    pub channel : ℤ
    pub idx_range : Range
    pub values : List (List V)

  pub record KvVector : Type 0 where
    pub k : ℕ
    pub buffer_value : Bool
    pub data_ : Assoc ℤ KvPairs
    pub buffer_ : Assoc ℤ Buffer
    pub freq_filter_ : Assoc ℤ CountMin

  -- data_[chl], buffer_[time] and freq_filter_[chl]: a missing entry is made.
  abbrev pub pairs_or : Option KvPairs → KvPairs
  pairs_or none = record { key = []; value = [] }
  pairs_or (some kv) = kv

  unfoldable pub pairs_at : ℤ → KvVector → KvPairs
  pairs_at chl m = pairs_or (lookup chl m.data_)

  unfoldable pub buffer_at : ℤ → KvVector → Buffer
  buffer_at time m = elim (lookup time m.buffer_) [
    | none ↦ record { channel = pos 0; idx_range = record { begin = 0; end = 0 }; values = [] }
    | some buf ↦ buf
  ]

  unfoldable pub filter_at : ℤ → KvVector → CountMin
  filter_at chl m = elim (lookup chl m.freq_filter_) [ none ↦ CountMin.empty_sketch | some f ↦ f ]

  unfoldable pub set_pairs : ℤ → KvPairs → KvVector → KvVector
  set_pairs chl kv m = record m { data_ = insert chl kv m.data_ }

  -- Clear(chl)
  unfoldable pub clear : ℤ → KvVector → KvVector
  unfolding set_pairs
  clear chl m = set_pairs chl (record { key = []; value = [] }) m

  -- ClearBuffer(timestamp)
  unfoldable pub clear_buffer : ℤ → KvVector → KvVector
  unfolding buffer_at
  clear_buffer time m =
      let buf = buffer_at time m in
      record m {
        buffer_ = insert time (record buf { values = map (λ v. []) buf.values }) m.buffer_;
      }

  -- ClearFilter()
  unfoldable pub clear_filter : KvVector → KvVector
  clear_filter m = record m { freq_filter_ = [] }

  -- The branch of SetValue on a tail filter: the counts of the keys go to the channel's filter.
  unfoldable pub count_keys : ℤ → TailKeyFilter → Message V → KvVector → Option KvVector
  unfolding filter_at
  count_keys chl tail msg m = do
    check tail.insert_count
    check (length msg.value == 1)
    value ← get_elem? msg.value 0
    let count = env.counts value
    check (length count == length msg.key)
    let filter = filter_at chl m
    let sized =
        if CountMin.is_empty filter
        then resize_filter (env.filter_width (max env.num_workers 1) tail.countmin_n)
            tail.countmin_k filter
        else filter
    filter' ← insert_keys msg.key count sized
    some (record m { freq_filter_ = insert chl filter' m.freq_filter_ })

  -- The rounds of the loop of SetValue that add to kv.value, from round i.
  unfoldable pub add_values : ℕ → ℕ → List ℕ → List (List V) → KvPairs → Option KvPairs
  add_values k i keys [] kv = some kv
  add_values k i keys (vals ∷ value) kv = do
    check (i == 0)
    check (length vals == length keys * k)
    let dst = allocate F (length kv.key * k) kv.value
    check (length kv.key * k == length dst)
    (dst', n) ← ordered_match F env.num_threads k AssignOpType.plus keys vals kv.key dst
    check (n == length keys * k)
    add_values k (suc i) keys value (record kv { value = dst' })

  -- The first round of the loop that fills a buffer: a new one is sized, an old one is compared.
  unfoldable pub open_buffer : ℤ → ℕ → Range → Buffer → Option Buffer
  open_buffer chl rounds idx_range buf = elim buf.values [
    | [] ↦ some (record { channel = chl; idx_range = idx_range; values = replicate rounds [] })
    | _ ↦ do check (Range.eqb buf.idx_range idx_range); check (eqb_ℤ buf.channel chl); some buf
  ]

  -- What each round does after that. Past the end of buf.values the source's index is out of
  -- range, which is `none`.
  unfoldable pub match_values : ℕ → List ℕ → List (List V) → List ℕ → Buffer → Option Buffer
  match_values i keys [] kv_key buf = some buf
  match_values i keys (vals ∷ value) kv_key buf = do
    let k = length vals / length keys
    dst_key ← segment kv_key buf.idx_range
    dst ← get_elem? buf.values i
    (dst', n) ← ordered_match F env.num_threads k AssignOpType.plus keys vals dst_key dst
    check (leb n (length keys * k))
    match_values (suc i) keys value kv_key (record buf { values = set buf.values i dst' })

  unfoldable pub buffer_values : ℤ → Message V → KvPairs → KvVector → Option KvVector
  unfolding buffer_at open_buffer match_values
  buffer_values chl msg kv m = do
    let time = time_of msg.task
    idx_range ← find_range kv.key (key_range_of msg.task)
    buf ← open_buffer chl (length msg.value) idx_range (buffer_at time m)
    buf' ← match_values 0 msg.key msg.value kv.key buf
    some (record m { buffer_ = insert time buf' m.buffer_ })

  -- The part of SetValue behind the tail filter, at the channel's pairs.
  unfoldable pub store_values : ℤ → Message V → KvPairs → KvVector → Option KvVector
  unfolding set_pairs add_values buffer_values
  store_values chl msg kv m =
      if_empty msg.value
        (some (set_pairs chl (record { key = set_union kv.key msg.key; value = [] }) m))
        (if_empty kv.key (some (set_pairs chl kv m)) (
          if m.buffer_value
          then buffer_values chl msg kv (set_pairs chl kv m)
          else (do kv' ← add_values m.k 0 msg.key msg.value kv; some (set_pairs chl kv' m))))

  -- The part of SetValue behind its first return: the tail filter of a request comes first.
  unfoldable pub set_filtered : Option TailKeyFilter → ℤ → Message V → KvVector → Option KvVector
  unfolding count_keys store_values pairs_at
  set_filtered none chl msg m = store_values chl msg (pairs_at chl m) m
  set_filtered (some tail) chl msg m =
      if msg.task.request
      then count_keys chl tail msg m
      else store_values chl msg (pairs_at chl m) m

  -- SetValue(msg)
  unfoldable pub set_value : KvVector → Message V → Option KvVector
  unfolding set_filtered
  set_value m msg =
      if_empty msg.key (some m)
        (set_filtered (param_of msg.task).tail_filter msg.task.key_channel msg m)

  -- The branch of GetValue on a tail filter. A filter without a cell divides by zero, which ends
  -- the process.
  unfoldable pub frequent_keys :
      ℤ → TailKeyFilter → Message V → KvVector → Option (KvVector × Message V)
  unfolding filter_at
  frequent_keys chl tail msg m = do
    freq ← tail.freq_threshold
    let filter = filter_at chl m
    check (not (CountMin.is_empty filter))
    keys ← query_keys msg.key freq filter
    some (record m { freq_filter_ = insert chl filter m.freq_filter_ }, record msg { key = keys })

  -- The part of GetValue behind the tail filter.
  unfoldable pub match_pairs : ℤ → Message V → KvPairs → KvVector → Option (KvVector × Message V)
  unfolding set_pairs
  match_pairs chl msg kv m = do
    check (length kv.key * m.k == length kv.value)
    (val, n) ← ordered_match F env.num_threads m.k AssignOpType.assign kv.key kv.value msg.key []
    check (leb n (length msg.key * m.k))
    some (set_pairs chl kv m, add_value env.value_type val (clear_value msg))

  -- The part of GetValue behind its first return.
  unfoldable pub get_filtered :
      Option TailKeyFilter → ℤ → Message V → KvVector → Option (KvVector × Message V)
  unfolding frequent_keys match_pairs pairs_at
  get_filtered none chl msg m = match_pairs chl msg (pairs_at chl m) m
  get_filtered (some tail) chl msg m = frequent_keys chl tail msg m

  -- GetValue(msg)
  unfoldable pub get_value : KvVector → Message V → Option (KvVector × Message V)
  unfolding get_filtered
  get_value m msg =
      if_empty msg.key (some (m, msg))
        (get_filtered (param_of msg.task).tail_filter msg.task.key_channel msg m)

  -- The methods that Parameter calls; those on replicas are inherited and do nothing.
  abbrev pub methods : Methods KvVector V
  methods = record {
    get_value = get_value;
    set_value = set_value;
    get_replica = λ m msg. some (m, msg);
    set_replica = λ m msg. some m;
    recover = λ m msg. some m;
  }

  unfoldable pub add_nonempty : List (List V) → Message V → Message V
  add_nonempty [] msg = msg
  add_nonempty ([] ∷ vs) msg = add_nonempty vs msg
  add_nonempty ((x ∷ v) ∷ vs) msg = add_nonempty vs (add_value env.value_type (x ∷ v) msg)

  -- Push(request, keys, values, callback) and Pull(request, keys, callback): the message that is
  -- submitted. An empty std::function is `none`.
  unfoldable pub push_message : DataType → Task → List ℕ → List (List V) → Option ℕ → Message V
  unfolding add_nonempty
  push_message ty request keys values callback =
      let msg = record (of_task request) { recver = server_group } in
      with_push true (record (add_nonempty values (set_key ty keys msg)) { callback = callback })

  unfoldable pub pull_message : DataType → Task → List ℕ → Option ℕ → Message V
  pull_message ty request keys callback =
      let msg = record (of_task request) { recver = server_group } in
      with_push false (record (set_key ty keys msg) { callback = callback })
