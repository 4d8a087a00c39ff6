-- ===== src/System/Manager/Tasks.antt =====
-- What the control tasks that src/system/manager.cc sends leave alone in the sender's state.
use parameter_server.Base.{
  ◌≡◌, refl, ◌∙◌, Bool, true, false, not, ◌&&◌, ◌||◌, List, [], ◌∷◌, String, Assoc, string_eq,
  if◌then◌else◌, ◌=?◌,
}
use parameter_server.System.Message.{Node, Command}
use parameter_server.System.Manager.{
  Manager, is_scheduler, new_control_task, send_control, broadcast_step, values, broadcast,
  announce,
}

module _ {V Filter : Type 0} where
  -- The fields that the tasks sent to other nodes leave alone.
  unfoldable pub Same : Manager V Filter → Manager V Filter → Type 0
  Same m m' =
      (m'.nodes ≡ m.nodes) × (m'.num_workers ≡ m.num_workers) × (m'.num_servers ≡ m.num_servers)

  pub if-Same :
      (c : Bool) (m x y : Manager V Filter) → Same m x → Same m y → Same m (if c then x else y)
  if-Same true m x y h k = h
  if-Same false m x y h k = k

  Same-trans : (x y z : Manager V Filter) → Same x y → Same y z → Same x z
  unfolding Same
  Same-trans x y z h k = (k.0 ∙ h.0, k.1 ∙ h.1, k.2 ∙ h.2)

  send_control-Same :
      (m : Manager V Filter) (recver : String) (cmd : Command) (nodes : List Node)
      → Same m (send_control m recver cmd nodes)
  unfolding send_control new_control_task Same
  send_control-Same m recver cmd nodes = (refl, refl, refl)

  broadcast_step-Same :
      (m : Manager V Filter) (cmd : Command) (node : Node) (id : String) (other : Node)
      → Same m (broadcast_step m cmd node id other)
  unfolding broadcast_step
  broadcast_step-Same m cmd node id other =
      if-Same ((id =? m.my_node.id) || (id =? node.id)) m m
        (send_control m other.id cmd (node ∷ [])) (unfold Same in (refl, refl, refl))
        (send_control-Same m other.id cmd (node ∷ []))

  pub broadcast-Same :
      (cmd : Command) (node : Node) (rest : Assoc String Node) (m : Manager V Filter)
      → Same m (broadcast m cmd node rest)
  unfolding broadcast
  broadcast-Same cmd node [] m = unfold Same in (refl, refl, refl)
  broadcast-Same cmd node ((id, other) ∷ rest) m =
      let m' : Manager V Filter = broadcast_step m cmd node id other in
      Same-trans m m' (broadcast m' cmd node rest) (broadcast_step-Same m cmd node id other)
        (broadcast-Same cmd node rest m')

  pub announce-Same : (m : Manager V Filter) (node : Node) → Same m (announce m node)
  unfolding announce
  announce-Same m node =
      let told : Manager V Filter = send_control m node.id Command.add_node (values m.nodes) in
      let all : Manager V Filter = broadcast told Command.add_node node m.nodes in
      if-Same (is_scheduler m && not (node.id =? m.my_node.id)) m all m
        (Same-trans m told all (send_control-Same m node.id Command.add_node (values m.nodes))
          (broadcast-Same Command.add_node node m.nodes told))
        (unfold Same in (refl, refl, refl))
