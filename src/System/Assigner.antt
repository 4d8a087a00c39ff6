-- ===== src/System/Assigner.antt =====
-- NodeAssigner of src/system/assigner.h, which the scheduler asks for the rank and the key range of
-- each node that registers. Its `remove` is empty. DataAssigner of the same file is
-- modelled in System/DataAssigner.
pub mod Ranges
use parameter_server.Base.{
  ℕ, zero, suc, ◌+◌, ◌≤◌, ◌<◌, ◌≡◌, refl, sym, subst, ap, ◌∙◌, Bool, true, false, List, [], ◌∷◌,
  Option, some, none, arith, length, check, ◌>>=◌, ◌>>◌,
}
use parameter_server.Util.Range.{Range, u64_mod, valid}
use parameter_server.Util.Range.Divide.{
  LongDouble, IsIeee, cut, even_divide, even_divide-eq-some, cut_zero,
}
use parameter_server.System.Message.{Role, server, worker, scheduler, group, unused, Node}
use parameter_server.System.Message.Partition.{Chain}

pub record NodeAssigner : Type 0 where
  pub num_servers : ℕ
  pub server_rank : ℕ
  pub worker_rank : ℕ
  pub key_range : Range

-- NodeAssigner(num_servers, key_range)
abbrev pub new_assigner : ℕ → Range → NodeAssigner
new_assigner n r = record { num_servers = n; server_rank = 0; worker_rank = 0; key_range = r }

module _ (F : LongDouble) where
  -- assign(node); `none` is a failed CHECK of EvenDivide.
  unfoldable pub assign_node : NodeAssigner → Node → Option (NodeAssigner × Node)
  assign_node a node = elim node.role [
    | server ↦ do
      kr ← even_divide F a.key_range a.num_servers a.server_rank
      some (
        record a { server_rank = suc a.server_rank },
        record node { rank = a.server_rank; key = kr },
      )
    | worker ↦ some (
      record a { worker_rank = suc a.worker_rank },
      record node { rank = a.worker_rank; key = a.key_range },
    )
    | _ ↦ some (a, record node { rank = 0; key = a.key_range })
  ]

  -- The nodes that register one after the other, as the scheduler handles REGISTER_NODE.
  unfoldable pub assign_nodes : NodeAssigner → List Node → Option (NodeAssigner × List Node)
  unfolding assign_node
  assign_nodes a [] = some (a, [])
  assign_nodes a (node ∷ nodes) = do
    (a', node') ← assign_node a node
    (a'', nodes') ← assign_nodes a' nodes
    some (a'', node' ∷ nodes')

-- The servers among the nodes.
unfoldable pub servers_of : List Node → List Node
servers_of [] = []
servers_of (node ∷ nodes) = elim node.role [
  | server ↦ node ∷ servers_of nodes
  | _ ↦ servers_of nodes
]

-- The ranks count on from r.
abbrev pub AreNumbered : ℕ → List Node → Type 0
AreNumbered r [] = Unit {0}
AreNumbered r (node ∷ nodes) = (node.rank ≡ r) × AreNumbered (suc r) nodes

unfoldable pub keys_of_nodes : List Node → List Range
keys_of_nodes [] = []
keys_of_nodes (node ∷ nodes) = node.key ∷ keys_of_nodes nodes
