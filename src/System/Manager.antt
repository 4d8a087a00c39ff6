-- ===== src/System/Manager.antt =====
-- Manager of src/system/manager.h and manager.cc: the nodes and customers of a node, and the control
-- messages between managers. Van::Connect and App::Create are parameters. What SendTask hands to
-- Postoffice::Queue is the list `queued`, oldest first. `none` is a failed CHECK, a pointer that is
-- not there, or a lock on nodes_mu_ that its holder never gives back.
pub mod Nodes
pub mod Counts
pub mod Tasks
pub mod Process
use parameter_server.Base.{
  ℕ, zero, suc, ◌+◌, ◌*◌, Bool, true, false, List, [], ◌∷◌, ◌++◌, Option, none, some, String, ℤ,
  pos, negsuc, suc_ℤ, Assoc, string_eq, int_eq, lookup, insert, erase, check, ◌>>=◌, ◌>>◌, ◌=?◌,
  not, length, ◌==◌, if◌then◌else◌, ◌&&◌, ◌||◌, is_negative,
}
use parameter_server.System.Message.{
  Node, Role, server, worker, scheduler, Task, Control, Command, empty_task, Message, time_of,
  is_control,
}
use parameter_server.System.Executor.{Executor}
use parameter_server.System.Executor.Membership
use parameter_server.System.Executor.Membership.{is_server, is_worker}
use parameter_server.System.Assigner.{NodeAssigner, assign_node}
use parameter_server.Util.Range.Divide.{LongDouble}

pub record Manager (V Filter : Type 0) : Type 0 where
  pub my_node : Node
  pub nodes : Assoc String Node
  pub nodes_locked : Bool
  pub num_workers : ℤ
  pub num_servers : ℤ
  pub num_active_nodes : ℤ
  pub is_my_node_inited : Bool
  pub node_assigner : Option NodeAssigner
  pub app_conf : String
  -- The configuration of the app, once it is created.
  pub app : Option String
  -- A customer by its executor; a removed one is a null pointer.
  pub customers : Assoc ℤ (Option (Executor V Filter))
  pub done : Bool
  pub in_exit : Bool
  pub time : ℕ
  pub queued : List (String × Task)

-- -- n
abbrev pub pred_ℤ : ℤ → ℤ
pred_ℤ (pos zero) = negsuc 0
pred_ℤ (pos (suc n)) = pos n
pred_ℤ (negsuc n) = negsuc (suc n)

abbrev pub is_scheduler_role : Role → Bool
is_scheduler_role scheduler = true
is_scheduler_role _ = false

pub values : Assoc String Node → List Node
values [] = []
values ((id, node) ∷ rest) = node ∷ values rest

module _ {V Filter : Type 0} where
  abbrev pub is_scheduler : Manager V Filter → Bool
  is_scheduler m = is_scheduler_role m.my_node.role

  -- SendTask(recver, task)
  abbrev pub send_task : Manager V Filter → String → Task → Manager V Filter
  send_task m recver task = record m { queued = m.queued ++ (recver, task) ∷ [] }

  -- NewControlTask(cmd), with the nodes that its callers add: even times at the scheduler, odd ones
  -- elsewhere.
  unfoldable pub new_control_task : Manager V Filter → Command → List Node → Manager V Filter × Task
  new_control_task m cmd nodes = (
    record m { time = m.time + 1 },
    record empty_task {
      control = some true;
      request = true;
      time = some (pos (if is_scheduler m then m.time * 2 else m.time * 2 + 1));
      ctrl = some (record { cmd = cmd; node = nodes });
    },
  )

  -- for (it : customers_) it.second.first->executor()->f()
  unfoldable pub each_customer :
      (Executor V Filter → Option (Executor V Filter))
      → Assoc ℤ (Option (Executor V Filter))
      → Option (Assoc ℤ (Option (Executor V Filter)))
  each_customer f [] = some []
  each_customer f ((id, obj) ∷ rest) = do
    e ← obj
    e' ← f e
    rest' ← each_customer f rest
    some ((id, some e') ∷ rest')

  -- The part of AddNode under the lock.
  unfoldable pub store_node : (Node → Bool) → Manager V Filter → Node → Option (Manager V Filter)
  store_node connect m node = do
    check (not m.nodes_locked)
    elim (lookup node.id m.nodes) [
      | some _ ↦ some (record m { nodes = insert node.id node m.nodes })
      | none ↦ do
        check (is_scheduler m || connect node)
        some (record m {
          nodes = insert node.id node m.nodes;
          num_workers = if is_worker node.role then suc_ℤ m.num_workers else m.num_workers;
          num_servers = if is_server node.role then suc_ℤ m.num_servers else m.num_servers;
          num_active_nodes = suc_ℤ m.num_active_nodes;
        })
    ]

  -- NewControlTask and SendTask.
  unfoldable pub send_control : Manager V Filter → String → Command → List Node → Manager V Filter
  unfolding new_control_task
  send_control m recver cmd nodes =
      let (m', task) = new_control_task m cmd nodes in send_task m' recver task

  -- One round of the loop that broadcasts.
  unfoldable pub broadcast_step :
      Manager V Filter → Command → Node → String → Node → Manager V Filter
  unfolding send_control
  broadcast_step m cmd node id other =
      if (id =? m.my_node.id) || (id =? node.id) then m else send_control m other.id cmd (node ∷ [])

  -- One control task with the node to every other node but the node itself.
  unfoldable pub broadcast :
      Manager V Filter → Command → Node → Assoc String Node → Manager V Filter
  unfolding broadcast_step
  broadcast m cmd node [] = m
  broadcast m cmd node ((id, other) ∷ rest) =
      broadcast (broadcast_step m cmd node id other) cmd node rest

  -- The scheduler tells the new node of all nodes, and all nodes of the new one.
  unfoldable pub announce : Manager V Filter → Node → Manager V Filter
  unfolding send_control broadcast
  announce m node =
      if is_scheduler m && not (node.id =? m.my_node.id)
      then broadcast (send_control m node.id Command.add_node (values m.nodes)) Command.add_node
          node m.nodes
      else m

  -- AddNode(node)
  unfoldable pub add_node : (Node → Bool) → Manager V Filter → Node → Option (Manager V Filter)
  unfolding store_node each_customer announce
  add_node connect m node = do
    m1 ← store_node connect m node
    customers ← each_customer (λ e. Membership.add_node e node) m1.customers
    let m2 = announce (record m1 { customers = customers }) node
    some (record m2 { is_my_node_inited = (node.id =? m2.my_node.id) || m2.is_my_node_inited })

  -- What RemoveNode does for a node that it knows.
  unfoldable pub remove_known : Manager V Filter → String → Node → Option (Manager V Filter)
  unfolding each_customer broadcast
  remove_known m node_id node = do
    let m1 = record m {
      nodes = erase node_id m.nodes;
      num_workers = if is_worker node.role then pred_ℤ m.num_workers else m.num_workers;
      num_servers = if is_server node.role then pred_ℤ m.num_servers else m.num_servers;
      num_active_nodes = pred_ℤ m.num_active_nodes;
    }
    customers ← each_customer (λ e. Membership.remove_node e node) m1.customers
    let m2 = record m1 { customers = customers }
    some (
        if is_scheduler m && not (node.id =? m.my_node.id)
        then broadcast m2 Command.remove_node node m2.nodes
        else m2)

  -- RemoveNode(node_id): on an unknown id it returns with the lock held.
  unfoldable pub remove_node : Manager V Filter → String → Option (Manager V Filter)
  unfolding remove_known
  remove_node m node_id = do
    check (not m.nodes_locked)
    elim (lookup node_id m.nodes) [
      | none ↦ some (record m { nodes_locked = true })
      | some node ↦ remove_known m node_id node
    ]

  unfoldable pub add_nodes :
      (Node → Bool) → Manager V Filter → List Node → Option (Manager V Filter)
  unfolding add_node
  add_nodes connect m [] = some m
  add_nodes connect m (n ∷ ns) = do m' ← add_node connect m n; add_nodes connect m' ns

  unfoldable pub remove_nodes : Manager V Filter → List Node → Option (Manager V Filter)
  unfolding remove_node
  remove_nodes m [] = some m
  remove_nodes m (n ∷ ns) = do m' ← remove_node m n.id; remove_nodes m' ns

  -- AddCustomer(obj), with its id and executor.
  unfoldable pub customer_nodes : Executor V Filter → Assoc String Node → Option (Executor V Filter)
  customer_nodes e [] = some e
  customer_nodes e ((id, node) ∷ rest) = do e' ← Membership.add_node e node; customer_nodes e' rest

  unfoldable pub add_customer : Manager V Filter → ℤ → Executor V Filter → Option (Manager V Filter)
  unfolding customer_nodes
  add_customer m id e = elim (lookup id m.customers) [
    | some _ ↦ none
    | none ↦ do
      check (not m.nodes_locked)
      e' ← customer_nodes e m.nodes
      some (record m { customers = insert id (some e') m.customers })
  ]

  -- RemoveCustomer(id): the entry stays, with a null pointer.
  unfoldable pub remove_customer : Manager V Filter → ℤ → Manager V Filter
  remove_customer m id = elim (lookup id m.customers) [
    | none ↦ m
    | some _ ↦ record m { customers = insert id none m.customers }
  ]
