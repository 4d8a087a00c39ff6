-- ===== src/Tests/Nodes.antt =====
-- Trackers, groups, executors, the scheduler's assignment, workloads and queues at concrete inputs.
use parameter_server.Base.{
  ℕ, ◌-◌, ◌≡◌, refl, Bool, true, false, ◌||◌, ◌⊎◌, List, [], ◌∷◌, Option, some, none, arith, String,
  ℤ, pos, eqb_ℤ, ◌=?◌, string_eq, int_eq, lookup, insert, if◌then◌else◌,
}
use parameter_server.Tests.Fixtures.{
  nat_double, nat_double-IsIeee, no_filters, range, node, remote, worker_executor, request_from,
}
use parameter_server.Util.Range
use parameter_server.Util.Range.{Range, u64_mod}
use parameter_server.System.TaskTracker
use parameter_server.System.TaskTracker.{empty_tracker, has_finished-start-finish}
use parameter_server.Util.LimitedQueue.{
  LimitedQueue, push, pop, total, sizes_ok, IsValid, push-IsValid, pop-IsValid,
}
use parameter_server.System.Tracker
use parameter_server.System.Tracker.{Tracker, fresh, is_within, finish_lem}
use parameter_server.System.Message.{Role, Node, Message, of_task, server, worker}
use parameter_server.System.Message.Partition.{Chain}
use parameter_server.System.RemoteNode.{RemoteNode, encode_message}
use parameter_server.System.RemoteNode.Group.{
  Group, add_group_node, remove_group_node, IsOrdered, occurrences, add_group_node-IsOrdered,
  remove_group_node-IsOrdered, remove_group_node-add_group_node,
}
use parameter_server.System.Assigner.{
  NodeAssigner, new_assigner, assign_nodes, servers_of, keys_of_nodes, AreNumbered,
}
use parameter_server.System.Assigner.Ranges.{assign_nodes_lem}
use parameter_server.System.Executor.{Executor}
use parameter_server.System.Executor.Pick.{judge, Verdict, pick_active_msg}
use parameter_server.System.Executor.Pick.Order.{Sleeps, Picks, pick_active_msg_lem}
use parameter_server.System.Executor.Process.{after_response, after_request}
use parameter_server.System.Executor.Process.Once.{after_request-judge}
use parameter_server.Learner.WorkloadPool.{WorkloadPool, set_loads, assign, finish_load, is_done}
use parameter_server.Learner.WorkloadPool.Accounting.{
  here, later, assigning, finishing, all_finished, is_open, is_done-all_finished,
}

has_finished-start-finish_example :
    (TaskTracker.has_finished (TaskTracker.start empty_tracker (pos 3)) (pos 4)
      ≡ TaskTracker.has_finished empty_tracker (pos 4))
    × (TaskTracker.has_finished (TaskTracker.finish empty_tracker (pos 3)) (pos 4)
        ≡ (eqb_ℤ (pos 3) (pos 4) || TaskTracker.has_finished empty_tracker (pos 4)))
has_finished-start-finish_example = has_finished-start-finish empty_tracker (pos 3) (pos 4)

finish_lem_example :
    ((Tracker.finish fresh (pos 2) ≡ none) × (is_within (pos 2) ≡ false))
    ⊎ ((t' : Tracker) × (Tracker.finish fresh (pos 2) ≡ some t')
        × (is_within (pos 2) ≡ true)
        × ((s : ℤ) → Tracker.is_finished t' s ≡ (eqb_ℤ (pos 2) s || Tracker.is_finished fresh s)))
finish_lem_example = finish_lem fresh (pos 2)

abbrev key_of : String → Range
key_of id = if id =? "S0" then range 0 50 else range 50 100

abbrev first_server : Group
first_server = record { group = "S0" ∷ []; keys = range 0 50 ∷ [] }

first_server-IsOrdered : IsOrdered key_of first_server
first_server-IsOrdered = record { matches = (refl, tt); ordered = (omega arith, tt) }

add_group_node-IsOrdered_example :
    IsOrdered key_of (add_group_node key_of "S1" (key_of "S1") first_server)
add_group_node-IsOrdered_example =
    add_group_node-IsOrdered key_of "S1" first_server first_server-IsOrdered

remove_group_node-IsOrdered_example :
    (g' : Group) × (remove_group_node "S0" first_server ≡ some g') × IsOrdered key_of g'
remove_group_node-IsOrdered_example =
    remove_group_node-IsOrdered key_of "S0" first_server first_server-IsOrdered

remove_group_node-add_group_node_example :
    occurrences "S0" first_server.group ≡ occurrences "S0" first_server.group
unfolding remove_group_node add_group_node Range.in_left
remove_group_node-add_group_node_example =
    remove_group_node-add_group_node key_of "S1" first_server first_server first_server-IsOrdered
      refl "S0"

abbrev three_nodes : List Node
three_nodes =
    node server "S0" (range 0 0) ∷ node worker "W0" (range 0 0) ∷ node server "S1" (range 0 0) ∷ []

assign_nodes_lem_example :
    (last : NodeAssigner) × (out : List Node) × (assign_nodes nat_double
        (new_assigner 2 (range 0 100))
        three_nodes
      ≡ some (last, out))
    × Chain 0 (keys_of_nodes (servers_of out))
    × AreNumbered 0 (servers_of out)
unfolding servers_of Range.valid
assign_nodes_lem_example =
    assign_nodes_lem nat_double nat_double-IsIeee 2 (range 0 100) three_nodes refl (omega arith)
      (omega arith) (omega arith) (omega arith) (omega arith)

abbrev inbox : List (Message ℕ)
inbox = request_from "S0" 2 (pos 1 ∷ []) ∷ request_from "S1" 0 [] ∷ []

pick_active_msg_lem_example :
    Sleeps no_filters
      (worker_executor inbox)
      []
      inbox
      (pick_active_msg no_filters (worker_executor inbox))
    ⊎ Picks no_filters
        (worker_executor inbox)
        []
        inbox
        (pick_active_msg no_filters (worker_executor inbox))
unfolding of_task lookup
pick_active_msg_lem_example =
    pick_active_msg_lem no_filters (worker_executor inbox)
      ((refl, (_, refl)), ((refl, (_, refl)), tt))

abbrev or_same : Executor ℕ (Unit {0}) → Option (Executor ℕ (Unit {0})) → Executor ℕ (Unit {0})
or_same e none = e
or_same e (some e') = e'

abbrev waiting_executor : Executor ℕ (Unit {0})
waiting_executor = worker_executor []

abbrev answered : Executor ℕ (Unit {0})
answered = or_same waiting_executor (after_response waiting_executor (pos 3) "S0")

abbrev full_queue : LimitedQueue ℕ
full_queue = record { done = false; max_capacity = 4; cur_capacity = 3; queue = (8, 3) ∷ [] }

abbrev fuller_queue : LimitedQueue ℕ
fuller_queue = record {
  done = true;
  max_capacity = 4;
  cur_capacity = 4;
  queue = (8, 3) ∷ (9, 1) ∷ [];
}

abbrev emptier_queue : LimitedQueue ℕ
emptier_queue = record { done = false; max_capacity = 4; cur_capacity = 0; queue = [] }

full_queue-IsValid : IsValid full_queue
unfolding total sizes_ok
full_queue-IsValid = record { used = refl; within = omega arith; sizes = refl }

push-IsValid_example : IsValid fuller_queue
unfolding push
push-IsValid_example =
    push-IsValid full_queue fuller_queue 9 1 true full_queue-IsValid (omega arith) refl

pop-IsValid_example : IsValid emptier_queue × (full_queue.queue ≡ (8, 3 - 0) ∷ emptier_queue.queue)
unfolding pop
pop-IsValid_example = pop-IsValid full_queue emptier_queue 8 full_queue-IsValid refl

abbrev served : Message ℕ
served = request_from "S0" 2 []

abbrev executor_after : Option (Executor ℕ (Unit {0}) × Message ℕ) → Executor ℕ (Unit {0})
executor_after none = waiting_executor
executor_after (some (e, m)) = e

abbrev known_node : Executor ℕ (Unit {0}) → String → RemoteNode (Unit {0})
known_node e id = elim (lookup id e.nodes) [ none ↦ remote Role.server id [] [] | some r ↦ r ]

abbrev after_served : Executor ℕ (Unit {0})
after_served = executor_after (after_request no_filters waiting_executor (pos 2) served)

after_request-judge_example :
    (judge (known_node after_served "S0") served ≡ Verdict.dead)
    ⊎ (judge (known_node after_served "S0") served ≡ Verdict.twice)
unfolding after_request lookup Tracker.finish insert of_task encode_message
after_request-judge_example =
    after_request-judge no_filters (pos 2) waiting_executor after_served served
      (record served { replied = true }) served (known_node after_served "S0") refl refl refl refl
      refl

abbrev empty_pool : WorkloadPool String
empty_pool = record { loads = []; num_finished = 0 }

abbrev two_loads : Option (WorkloadPool String)
two_loads = set_loads (λ r files. files) 1 ("a" ∷ "b" ∷ []) empty_pool

abbrev pool_of : Bool → Bool → ℕ → WorkloadPool String
pool_of assigned finished n = record {
  loads =
      record {
        node = if assigned then "W0" else "";
        load = record { id = 0; data_config = "a" };
        assigned = assigned;
        finished = finished;
      }
      ∷ record {
        node = "";
        load = record { id = 1; data_config = "b" };
        assigned = false;
        finished = false;
      }
      ∷ [];
  num_finished = n;
}

is_done-all_finished_example :
    is_done (pool_of true true 1) ≡ all_finished (pool_of true true 1).loads
unfolding set_loads assign finish_load is_open
is_done-all_finished_example =
    is_done-all_finished (λ r files. files) 1 ("a" ∷ "b" ∷ []) (pool_of false false 0)
      (pool_of true true 1) refl
      (later
        (later here (
          assigning {pool' = pool_of true false 0} "W0" (record { id = 0; data_config = "a" })
            refl))
        (finishing 0 refl refl))
