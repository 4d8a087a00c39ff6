-- ===== src/System/Message.antt =====
-- Node, Task and Control of src/system/proto, FilterConfig of src/filter/proto, ParamCall of
-- src/parameter/proto, and Message of src/system/message.h. A byte array that the program reads as
-- an array of values is the list of these values, with the type tag that travels with it.
pub mod Slice
pub mod Partition
pub mod Cover
use parameter_server.Base.{
  ℕ, suc, ◌+◌, ◌≡◌, Bool, true, false, List, [], ◌∷◌, ◌++◌, Option, none, some, String, ℤ, pos,
  negsuc,
}
use parameter_server.Util.Range
use parameter_server.Util.Range.{Range}

pub data Role : Type 0 where
  server worker scheduler group unused : Role

-- What a connection needs besides (hostname, port) is of no interest to the code modelled here.
pub record Node : Type 0 where
  pub role : Role
  pub id : String
  pub rank : ℕ
  pub key : Range

pub data DataType : Type 0 where
  other int8 int16 int32 int64 uint8 uint16 uint32 uint64 float double char : DataType

pub data FilterType : Type 0 where
  key_caching compressing fixing_float noise : FilterType

-- The fields of the key caching filter; `none` is a field that is not set.
pub record FilterConfig : Type 0 where
  pub type : FilterType
  pub clear_cache_if_done : Bool
  pub signature : Option ℕ

pub data Command : Type 0 where
  request_app register_node report_perf ready_to_exit : Command
  add_node update_node replace_node remove_node exit : Command

pub record Control : Type 0 where
  pub cmd : Command
  pub node : List Node

-- TailKeyFilter: what a request to the frequency filter says.
pub record TailKeyFilter : Type 0 where
  pub insert_count : Bool
  pub freq_threshold : Option ℕ
  pub countmin_n : ℕ
  pub countmin_k : ℕ

pub record ParamCall : Type 0 where
  pub push : Bool
  pub replica : Bool
  pub tail_filter : Option TailKeyFilter

pub record Task : Type 0 where
  pub control : Option Bool
  pub request : Bool
  pub customer_id : Option ℤ
  pub time : Option ℤ
  pub wait_time : List ℤ
  pub key_range : Option Range
  pub key_channel : ℤ
  pub has_key : Bool
  pub key_type : Option DataType
  pub value_type : List DataType
  pub filter : List FilterConfig
  pub msg : Option String
  pub ctrl : Option Control
  pub param : Option ParamCall

-- Task(): every field at its default.
abbrev pub empty_task : Task
empty_task = record {
  control = none;
  request = false;
  customer_id = none;
  time = none;
  wait_time = [];
  key_range = none;
  key_channel = pos 0;
  has_key = false;
  key_type = none;
  value_type = [];
  filter = [];
  msg = none;
  ctrl = none;
  param = none;
}

-- An unset time reads as 0, and an unset key range as the empty range at 0.
abbrev pub time_of : Task → ℤ
time_of t = elim t.time [ none ↦ pos 0 | some ts ↦ ts ]

abbrev pub key_range_of : Task → Range
key_range_of t = elim t.key_range [ none ↦ record { begin = 0; end = 0 } | some r ↦ r ]

-- task.control(), which is false where it is not set.
abbrev pub is_control : Task → Bool
is_control t = elim t.control [ none ↦ false | some b ↦ b ]

abbrev pub invalid_time : ℤ
invalid_time = negsuc 0

pub record Message (V : Type 0) : Type 0 where
  pub task : Task
  pub key : List ℕ
  pub value : List (List V)
  pub sender : String
  pub recver : String
  pub replied : Bool
  pub finished : Bool
  pub valid : Bool
  pub terminate : Bool
  -- A callback by its name: what it does is the caller's business.
  pub callback : Option ℕ

module _ {V : Type 0} where
  -- Message(task)
  unfoldable pub of_task : Task → Message V
  of_task t = record {
    task = t;
    key = [];
    value = [];
    sender = "";
    recver = "";
    replied = false;
    finished = true;
    valid = true;
    terminate = false;
    callback = none;
  }

  -- has_key()
  unfoldable pub has_key : Message V → Bool
  has_key m = elim m.key [ [] ↦ false | _ ↦ true ]

  -- clear_key()
  unfoldable pub clear_key : Message V → Message V
  clear_key m = record m { task = record m.task { has_key = false }; key = [] }

  -- clear_value()
  unfoldable pub clear_value : Message V → Message V
  clear_value m = record m { task = record m.task { value_type = [] }; value = [] }

  -- set_key(key), with the type tag of the array's entries.
  unfoldable pub set_key : DataType → List ℕ → Message V → Message V
  set_key ty keys m = record m {
    task = record m.task {
      key_type = some ty;
      has_key = true;
      key_range = elim m.task.key_range [ none ↦ some Range.all | some r ↦ some r ];
    };
    key = keys;
  }

  -- add_value(value)
  unfoldable pub add_value : DataType → List V → Message V → Message V
  add_value ty vs m = record m {
    task = record m.task { value_type = m.task.value_type ++ ty ∷ [] };
    value = m.value ++ vs ∷ [];
  }

  -- add_filter(type)
  unfoldable pub add_filter : FilterType → Message V → Message V
  add_filter ty m = record m {
    task = record m.task {
      filter =
          m.task.filter ++ record { type = ty; clear_cache_if_done = false; signature = none } ∷ [];
    };
  }
