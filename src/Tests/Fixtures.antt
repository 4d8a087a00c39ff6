-- ===== src/Tests/Fixtures.antt =====
-- The values that the runs share.
use parameter_server.Base.{
  arith, refl, ℕ, ◌+◌, ◌-◌, ◌*◌, ◌/◌, List, [], ◌∷◌, some, none, String, ℤ, pos, true, false,
}
use parameter_server.Util.Range.{Range}
use parameter_server.Util.AssignOp.{Arith}
use parameter_server.Util.Range.Divide.{LongDouble, IsIeee}
use parameter_server.System.Message.{Node, Role, Message, empty_task, of_task, ParamCall}
use parameter_server.System.RemoteNode.{Filters, RemoteNode}
use parameter_server.System.Tracker.{fresh}
use parameter_server.System.Executor.{Executor}

-- Values that are natural numbers; the bit operators are not run.
abbrev pub nat_arith : Arith
nat_arith = record {
  V = ℕ;
  zero_value = 0;
  add = λ a b. a + b;
  sub = λ a b. a - b;
  mul = λ a b. a * b;
  div = λ a b. a / b;
  bit_and = λ a b. a;
  bit_or = λ a b. a;
  bit_xor = λ a b. a;
}

-- A number format that holds every size and truncates when it divides.
abbrev pub nat_double : LongDouble
nat_double = record {
  Real = ℕ;
  of_size = λ n. n;
  to_size = λ n. n;
  add = λ a b. a + b;
  mul = λ a b. a * b;
  div = λ a b. a / b;
}

abbrev pub nat_double-IsIeee : IsIeee nat_double
nat_double-IsIeee = record {
  truncate = λ n. n;
  converts = λ x h. refl;
  mul_zero = λ r n e m h. omega arith;
  add_zero = λ a h. omega arith;
  exact = λ a h. refl;
  mono = λ r n i j b e m h k p. grind arith;
}

-- Filters that change nothing.
abbrev pub no_filters : Filters ℕ
no_filters = record {
  Filter = Unit {0};
  create = λ ty. tt;
  encode = λ f m. some (f, m);
  decode = λ f m. some (f, m);
}

abbrev pub range : ℕ → ℕ → Range
range a b = record { begin = a; end = b }

abbrev pub node : Role → String → Range → Node
node role id kr = record { role = role; id = id; rank = 0; key = kr }

abbrev pub remote : Role → String → List String → List Range → RemoteNode (Unit {0})
remote role id ids keys = record {
  node = node role id (range 0 0);
  alive = true;
  sent_req_tracker = fresh;
  recv_req_tracker = fresh;
  group = ids;
  keys = keys;
  filters = [];
}

-- A worker W0 that knows the servers S0 and S1.
abbrev pub worker_executor : List (Message ℕ) → Executor ℕ (Unit {0})
worker_executor msgs = record {
  id = pos 0;
  my_node = node Role.worker "W0" (range 0 100);
  num_replicas = 0;
  nodes =
      ("S0", remote Role.server "S0" ("S0" ∷ []) (range 0 50 ∷ []))
      ∷ ("S1", remote Role.server "S1" ("S1" ∷ []) (range 50 100 ∷ []))
      ∷ (
        "all_servers",
        remote Role.group "all_servers" ("S0" ∷ "S1" ∷ []) (range 0 50 ∷ range 50 100 ∷ []),
      )
      ∷ [];
  time = pos 3;
  sent_reqs = (pos 3, record { recver = "all_servers"; callback = some 7 }) ∷ [];
  recv_msgs = msgs;
  active_msg = none;
  last_request = none;
  last_response = none;
  queued = [];
  ran = [];
}

-- A request of the given time from a node, which waits for the times given.
abbrev pub request_from : String → ℕ → List ℤ → Message ℕ
request_from sender time waits =
    record (of_task
      (record empty_task { request = true; time = some (pos time); wait_time = waits })) {
        sender = sender;
      }

-- A message that holds the given keys and one value array, for a push or a pull.
abbrev pub data_message : Range → List ℕ → List (List ℕ) → ParamCall → Message ℕ
data_message kr keys value call =
    record (of_task
      (record empty_task { request = true; key_range = some kr; param = some call })) {
        key = keys;
        value = value;
      }

abbrev pub push_call : ParamCall
push_call = record { push = true; replica = false; tail_filter = none }

abbrev pub pull_call : ParamCall
pull_call = record { push = false; replica = false; tail_filter = none }
