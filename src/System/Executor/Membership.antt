-- ===== src/System/Executor/Membership.antt =====
-- Executor::AddNode and Executor::RemoveNode: the node map and the virtual groups.
use parameter_server.Base.{
  ℕ, ◌+◌, ◌-◌, Bool, true, false, List, [], ◌∷◌, ◌++◌, Option, none, some, String, string_eq, check,
  ◌>>=◌, ◌>>◌, ◌=?◌, not, ◌==◌, if◌then◌else◌, ◌||◌,
}
use parameter_server.Util.Range.{Range}
use parameter_server.Util.SortedArray.{slice}
use parameter_server.System.Message.{Node, Role, server, worker}
use parameter_server.System.RemoteNode.{RemoteNode, make}
use parameter_server.System.RemoteNode.Group.{Group, add_group_node, remove_group_node}
use parameter_server.System.Executor.{
  Executor, get_rnode, put_rnode, group_ids, server_group, worker_group, comp_group, replica_group,
  owner_group, live_group,
}
use parameter_server.System.Executor.Process.{is_group}

abbrev pub is_server : Role → Bool
is_server server = true
is_server _ = false

abbrev pub is_worker : Role → Bool
is_worker worker = true
is_worker _ = false

-- A Node(), which an entry of the map holds until it is set.
abbrev pub blank_node : Node
blank_node = record { role = server; id = ""; rank = 0; key = record { begin = 0; end = 0 } }

-- The groups that a role belongs to; a node's own group comes first.
unfoldable pub groups_of : Node → List String
groups_of n =
    (if is_group n.role then [] else n.id ∷ live_group ∷ [])
    ++ (if is_server n.role then server_group ∷ comp_group ∷ [] else [])
    ++ (if is_worker n.role then worker_group ∷ comp_group ∷ [] else [])

module _ {Filter : Type 0} where
  abbrev pub group_of : RemoteNode Filter → Group
  group_of r = record { group = r.group; keys = r.keys }

  abbrev pub with_group : RemoteNode Filter → Group → RemoteNode Filter
  with_group r g = record r { group = g.group; keys = g.keys }

module _ {V Filter : Type 0} where
  -- nodes_[id], which makes an entry where there is none.
  abbrev pub at_node : Executor V Filter → String → RemoteNode Filter
  at_node e id = elim (get_rnode e id) [ some r ↦ r | none ↦ make blank_node ]

  abbrev pub key_of : Executor V Filter → String → Range
  key_of e id = (at_node e id).node.key

  -- nodes_[gid].AddGroupNode(rnode)
  unfoldable pub add_to : Executor V Filter → String → String → Executor V Filter
  add_to e gid id =
      let r = at_node e gid in
      put_rnode e gid (with_group r (add_group_node (key_of e) id (key_of e id) (group_of r)))

  -- nodes_[gid].RemoveGroupNode(rnode)
  unfoldable pub remove_from : Executor V Filter → String → String → Option (Executor V Filter)
  remove_from e gid id = do
    let r = at_node e gid
    g ← remove_group_node id (group_of r)
    some (put_rnode e gid (with_group r g))

  -- for (gid : GroupIDs()) nodes_[gid].RemoveGroupNode(r)
  unfoldable pub remove_from_all :
      Executor V Filter → List String → String → Option (Executor V Filter)
  unfolding remove_from
  remove_from_all e [] id = some e
  remove_from_all e (gid ∷ gids) id = do e' ← remove_from e gid id; remove_from_all e' gids id

  -- The entry of the node: a new one, or the old one with the node set anew and out of its groups.
  unfoldable pub set_entry : Executor V Filter → Node → Option (Executor V Filter)
  unfolding remove_from_all
  set_entry e n = elim (get_rnode e n.id) [
    | none ↦ some (put_rnode e n.id (make n))
    | some r ↦ do
      check r.alive
      remove_from_all (put_rnode e n.id (record r { node = n })) group_ids n.id
  ]

  unfoldable pub join_groups : Executor V Filter → List String → String → Executor V Filter
  unfolding add_to
  join_groups e [] id = e
  join_groups e (gid ∷ gids) id = join_groups (add_to e gid id) gids id

  -- The position of my node in the server group.
  unfoldable pub find_me : Executor V Filter → ℕ → List String → Option ℕ
  find_me e i [] = none
  find_me e i (g ∷ rest) =
      if (at_node e g).node.id =? e.my_node.id then some i else find_me e (i + 1) rest

  -- The replica group and the owner group, of which the loops are alike: j goes from
  -- max(i - num_replicas_, 0) up to i.
  unfoldable pub set_neighbours : Executor V Filter → ℕ → Executor V Filter
  set_neighbours e i =
      let servers = at_node e server_group in
      let before =
        let g : Group = record {
          group = slice (i - e.num_replicas) i servers.group;
          keys = slice (i - e.num_replicas) i servers.keys;
        } in
        g in
      let e1 = put_rnode e replica_group (with_group (at_node e replica_group) before) in
      put_rnode e1 owner_group (with_group (at_node e1 owner_group) before)

  unfoldable pub update_neighbours : Executor V Filter → Node → Executor V Filter
  unfolding find_me set_neighbours
  update_neighbours e n =
      if not (is_server n.role) || not (is_server e.my_node.role) || (e.num_replicas == 0)
      then e
      else elim (find_me e 0 (at_node e server_group).group) [
        | none ↦ e
        | some i ↦ set_neighbours e i
      ]

  abbrev pub set_my_node : Executor V Filter → Node → Executor V Filter
  set_my_node e n = record e { my_node = if n.id =? e.my_node.id then n else e.my_node }

  -- AddNode(node)
  unfoldable pub add_node : Executor V Filter → Node → Option (Executor V Filter)
  unfolding set_entry groups_of join_groups update_neighbours
  add_node e n = do
    e1 ← set_entry (set_my_node e n) n
    some (update_neighbours (join_groups e1 (groups_of n) n.id) n)

  -- RemoveNode(node): the entry stays, and is marked as dead.
  unfoldable pub remove_node : Executor V Filter → Node → Option (Executor V Filter)
  unfolding remove_from_all
  remove_node e n = elim (get_rnode e n.id) [
    | none ↦ some e
    | some _ ↦ do
      e' ← remove_from_all e group_ids n.id
      r ← get_rnode e' n.id
      some (put_rnode e' n.id (record r { alive = false }))
  ]
