-- ===== src/System/Executor.antt =====
-- Executor of src/system/executor.h and executor.cc: the remote nodes of a customer, the requests
-- that it has sent, and the messages that it has received. What it hands to Postoffice::Queue is
-- the list `queued`, and the callbacks that it has run are the list `ran`, both oldest first.
-- The mutexes are held over the whole of each function, so that a function is one step; the blocked
-- waits are in Executor/Wait.
pub mod Submit
pub mod Pick
pub mod Process
pub mod Membership
pub mod Wait
use parameter_server.Base.{
  ℕ, ◌≡◌, Bool, true, false, List, [], ◌∷◌, ◌++◌, Option, none, some, String, ℤ, Assoc, string_eq,
  lookup, insert, check, ◌>>=◌, ◌>>◌,
}
use parameter_server.Util.Range.{Range}
use parameter_server.System.Tracker.{Tracker, finish}
use parameter_server.System.Message.{Node, Message}
use parameter_server.System.RemoteNode.{RemoteNode}

abbrev pub server_group : String
server_group = "all_servers"

abbrev pub worker_group : String
worker_group = "all_workers"

abbrev pub comp_group : String
comp_group = "all_comp_nodes"

abbrev pub replica_group : String
replica_group = "all_replicas"

abbrev pub owner_group : String
owner_group = "all_owners"

abbrev pub live_group : String
live_group = "all_lives"

-- GroupIDs()
abbrev pub group_ids : List String
group_ids = server_group ∷ worker_group ∷ comp_group ∷ replica_group ∷ owner_group ∷ live_group ∷ []

pub record ReqInfo : Type 0 where
  pub recver : String
  pub callback : Option ℕ

pub record Executor (V Filter : Type 0) : Type 0 where
  pub id : ℤ
  pub my_node : Node
  pub num_replicas : ℕ
  pub nodes : Assoc String (RemoteNode Filter)
  pub time : ℤ
  pub sent_reqs : Assoc ℤ ReqInfo
  pub recv_msgs : List (Message V)
  pub active_msg : Option (Message V)
  pub last_request : Option (Message V)
  pub last_response : Option (Message V)
  pub queued : List (Message V)
  pub ran : List ℕ

module _ {V Filter : Type 0} where
  -- GetRNode(node_id): it aborts on an id that is not there.
  abbrev pub get_rnode : Executor V Filter → String → Option (RemoteNode Filter)
  get_rnode e id = lookup id e.nodes

  abbrev pub put_rnode : Executor V Filter → String → RemoteNode Filter → Executor V Filter
  put_rnode e id r = record e { nodes = insert id r e.nodes }

  -- Accept(msg)
  unfoldable pub accept : Executor V Filter → Message V → Executor V Filter
  accept e m = record e { recv_msgs = e.recv_msgs ++ m ∷ [] }

  -- rnode->sent_req_tracker.Finish(ts)
  unfoldable pub finish_sent : Executor V Filter → String → ℤ → Option (Executor V Filter)
  finish_sent e id ts = do
    r ← get_rnode e id
    t ← finish r.sent_req_tracker ts
    some (put_rnode e id (record r { sent_req_tracker = t }))

  -- rnode->recv_req_tracker.Finish(ts)
  unfoldable pub finish_recv : Executor V Filter → String → ℤ → Option (Executor V Filter)
  finish_recv e id ts = do
    r ← get_rnode e id
    t ← finish r.recv_req_tracker ts
    some (put_rnode e id (record r { recv_req_tracker = t }))

  -- for (r : group) r->recv_req_tracker.Finish(ts)
  unfoldable pub finish_recv_all : Executor V Filter → List String → ℤ → Option (Executor V Filter)
  unfolding finish_recv
  finish_recv_all e [] ts = some e
  finish_recv_all e (id ∷ ids) ts = do e' ← finish_recv e id ts; finish_recv_all e' ids ts
