-- ===== src/Tests/Managers.antt =====
-- The node map of a manager at concrete inputs.
use parameter_server.Base.{
  ℕ, refl, Bool, true, false, [], ◌∷◌, Option, some, none, pos, arith, if◌then◌else◌, lookup,
  insert, erase,
}
use parameter_server.Tests.Fixtures.{range, node}
use parameter_server.System.Message.{Role, Node}
use parameter_server.System.Manager
use parameter_server.System.Manager.{Manager}
use parameter_server.System.Manager.Counts.{IsMap, count_role}
use parameter_server.System.Manager.Nodes.{IsCounted, add_node-IsCounted, remove_node-IsCounted}

abbrev server_node : Node
server_node = node Role.server "S0" (range 0 100)

-- The scheduler H, which knows itself and, if so, the server S0.
abbrev scheduler_manager : Bool → Manager ℕ (Unit {0})
scheduler_manager knows = record {
  my_node = node Role.scheduler "H" (range 0 0);
  nodes =
      ("H", node Role.scheduler "H" (range 0 0)) ∷ (if knows then ("S0", server_node) ∷ [] else []);
  nodes_locked = false;
  num_workers = pos 0;
  num_servers = if knows then pos 1 else pos 0;
  num_active_nodes = if knows then pos 2 else pos 1;
  is_my_node_inited = true;
  node_assigner = none;
  app_conf = "";
  app = none;
  customers = [];
  done = false;
  in_exit = false;
  time = 0;
  queued = [];
}

abbrev or_alone : Option (Manager ℕ (Unit {0})) → Manager ℕ (Unit {0})
or_alone none = scheduler_manager false
or_alone (some m) = m

alone-IsCounted : IsCounted (scheduler_manager false)
unfolding IsMap count_role lookup
alone-IsCounted = record { distinct = (refl, tt); workers = refl; servers = refl }

pair-IsCounted : IsCounted (scheduler_manager true)
unfolding IsMap count_role lookup
pair-IsCounted = record { distinct = (refl, (refl, tt)); workers = refl; servers = refl }

add_node-IsCounted_example :
    IsCounted (or_alone (Manager.add_node (λ n. true) (scheduler_manager false) server_node))
unfolding Manager.add_node lookup insert
add_node-IsCounted_example =
    add_node-IsCounted (λ n. true) (scheduler_manager false)
      (or_alone (Manager.add_node (λ n. true) (scheduler_manager false) server_node)) server_node
      alone-IsCounted (λ old h. ground arith) refl

remove_node-IsCounted_example :
    IsCounted (or_alone (Manager.remove_node (scheduler_manager true) "S0"))
unfolding Manager.remove_node lookup erase
remove_node-IsCounted_example =
    remove_node-IsCounted (scheduler_manager true)
      (or_alone (Manager.remove_node (scheduler_manager true) "S0")) "S0" pair-IsCounted refl
