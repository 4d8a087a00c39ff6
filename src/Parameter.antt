-- ===== src/Parameter.antt =====
-- Parameter of src/parameter/parameter.h and .cc: what a shared parameter does with the messages
-- that its executor hands to it. The virtual methods of the class are a record.
pub mod KvLayer
pub mod KvMap
pub mod KvVector
use parameter_server.Base.{
  ℕ, ◌≡◌, refl, Bool, true, false, Option, some, none, List, [], ◌∷◌, ◌++◌, map, ℤ, pos, negsuc,
  if◌then◌else◌, ◌>>=◌, ◌>>◌, is_negative,
}
use parameter_server.Util.Range
use parameter_server.Util.Range.{Range}
use parameter_server.System.Message.{
  Message, Task, ParamCall, FilterConfig, empty_task, key_range_of,
}

-- task.param(); where the task has none, `push` is at its default, true.
abbrev pub param_of : Task → ParamCall
param_of t = elim t.param [
  | none ↦ record { push = true; replica = false; tail_filter = none }
  | some call ↦ call
]

-- GetValue, SetValue, GetReplica, SetReplica and Recover, on a state S. `none` is a failed CHECK.
pub record Methods (S V : Type 0) : Type 0 where
  pub get_value : S → Message V → Option (S × Message V)
  pub set_value : S → Message V → Option S
  pub get_replica : S → Message V → Option (S × Message V)
  pub set_replica : S → Message V → Option S
  pub recover : S → Message V → Option S

-- Request(channel, ts, wait, filters, key_range)
unfoldable pub request_task : ℤ → ℤ → List ℤ → List FilterConfig → Range → Task
request_task channel ts wait filters kr = record empty_task {
  request = true;
  key_channel = channel;
  time = if is_negative ts then none else some ts;
  wait_time = wait;
  filter = filters;
  key_range = some kr;
}

-- msg->task.mutable_param()->set_push(b), which Push and Pull do before they submit the message.
unfoldable pub with_push : {V : Type 0} → Bool → Message V → Message V
with_push b msg = record msg {
  task = record msg.task { param = some (record (param_of msg.task) { push = b }) };
}

module _ {S V : Type 0} where
  unfoldable pub no_reply : Option S → Option (S × Option (Message V))
  no_reply done = do s ← done; some (s, none)

  unfoldable pub with_reply : Option (S × Message V) → Option (S × Option (Message V))
  with_reply done = do (s, response) ← done; some (s, some response)

  -- ProcessRequest(request): the state and the response that is sent by Reply. The response to a
  -- pull starts as a copy of the request.
  unfoldable pub process_request : Methods S V → S → Message V → Option (S × Option (Message V))
  unfolding no_reply with_reply
  process_request m s request =
      let call = param_of request.task in
      if call.replica
      then (if call.push
          then no_reply (m.set_replica s request)
          else with_reply (m.get_replica s request))
      else (if call.push
          then no_reply (m.set_value s request)
          else with_reply (m.get_value s request))

  -- ProcessResponse(response), at the node whose own key range is `mine`.
  unfoldable pub process_response : Methods S V → Range → S → Message V → Option S
  process_response m mine s response =
      let call = param_of response.task in
      if call.replica
      then (if call.push
          then some s
          else if Range.eqb (key_range_of response.task) mine
          then m.recover s response
          else m.set_replica s response)
      else (if call.push then some s else m.set_value s response)
