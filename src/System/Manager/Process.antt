-- ===== src/System/Manager/Process.antt =====
-- Manager::Process of src/system/manager.cc: the control messages between managers.
use parameter_server.Base.{
  Bool, true, false, List, [], ◌∷◌, Option, none, some, String, check, ◌>>=◌, ◌>>◌, if◌then◌else◌,
}
use parameter_server.Util.Range.Divide.{LongDouble}
use parameter_server.System.Message.{
  Node, Task, Control, Command, request_app, register_node, report_perf, ready_to_exit, add_node,
  update_node, replace_node, remove_node, exit, empty_task, Message, time_of, is_control,
}
use parameter_server.System.Assigner.{assign_node}
use parameter_server.System.Manager
use parameter_server.System.Manager.{
  Manager, is_scheduler, pred_ℤ, send_task, send_control, add_nodes, remove_nodes,
}

-- App::Create, by its answer, and the other parameters of Process.
pub record Outside : Type 1 where
  pub F : LongDouble
  pub connect : Node → Bool
  pub creates : String → Bool

-- The one node of a control task.
abbrev pub only_node : List Node → Option Node
only_node (n ∷ []) = some n
only_node _ = none

-- The reply to a request, before its case adds to it.
abbrev pub reply_to : Task → Task
reply_to t = record empty_task { control = some true; request = false; time = some (time_of t) }

module _ {V Filter : Type 0} (O : Outside) where
  open O use {F, connect, creates}

  -- CreateApp(conf)
  unfoldable pub create_app : Manager V Filter → String → Option (Manager V Filter)
  create_app m conf = do check (creates conf); some (record m { app = some conf })

  -- The switch of Process: the manager, and the reply unless it returns false.
  unfoldable pub process_command :
      Manager V Filter → Task → Control → Option (Manager V Filter × Option Task)
  unfolding Manager.add_node add_nodes remove_nodes assign_node
  process_command m t ctrl = elim ctrl.cmd [
    | request_app ↦ do
      check (is_scheduler m)
      n ← only_node ctrl.node
      check (connect n)
      some (
        m,
        some (record (reply_to t) {
          ctrl = some (record { cmd = Command.request_app; node = [] });
          msg = some m.app_conf;
        }),
      )
    | register_node ↦ do
      check (is_scheduler m)
      n ← only_node ctrl.node
      a ← m.node_assigner
      (a', sender) ← assign_node F a n
      m' ← Manager.add_node connect (record m { node_assigner = some a' }) sender
      some (m', some (reply_to t))
    | report_perf ↦ do check (is_scheduler m); some (m, some (reply_to t))
    | ready_to_exit ↦ do
      check (is_scheduler m)
      some (record m { num_active_nodes = pred_ℤ m.num_active_nodes }, some (reply_to t))
    | add_node ↦ do m' ← add_nodes connect m ctrl.node; some (m', some (reply_to t))
    | update_node ↦ do m' ← add_nodes connect m ctrl.node; some (m', some (reply_to t))
    | replace_node ↦ some (m, some (reply_to t))
    | remove_node ↦ do m' ← remove_nodes m ctrl.node; some (m', some (reply_to t))
    | exit ↦ some (record m { done = true }, none)
  ]

  -- The branch of Process for a request.
  unfoldable pub process_control_request :
      Manager V Filter → String → Task → Option (Manager V Filter × Bool)
  unfolding process_command
  process_control_request m sender t = do
    ctrl ← t.ctrl
    (m', reply) ← process_command m t ctrl
    some (elim reply [ none ↦ (m', false) | some r ↦ (send_task m' sender r, true) ])

  -- The branch of Process for a response; `scheduler_id` is the id of van_.scheduler().
  unfoldable pub process_control_response :
      Manager V Filter → String → Task → Option (Manager V Filter × Bool)
  unfolding create_app send_control
  process_control_response m scheduler_id t = elim t.ctrl [
    | none ↦ some (m, true)
    | some ctrl ↦ elim ctrl.cmd [
      | request_app ↦ do
        conf ← t.msg
        m' ← create_app m conf
        some (send_control m' scheduler_id Command.register_node (m.my_node ∷ []), true)
      | _ ↦ some (m, true)
    ]
  ]

  -- Process(msg)
  unfoldable pub process_control :
      Manager V Filter → String → Message V → Option (Manager V Filter × Bool)
  unfolding process_control_request process_control_response
  process_control m scheduler_id msg = do
    check (is_control msg.task)
    if msg.task.request
        then process_control_request m msg.sender msg.task
        else process_control_response m scheduler_id msg.task
