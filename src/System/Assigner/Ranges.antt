-- ===== src/System/Assigner/Ranges.antt =====
-- About the ranks and key ranges that src/system/assigner.h gives to the servers.
use parameter_server.Base.{
  ℕ, suc, ◌+◌, ◌≤◌, ◌<◌, ◌≡◌, refl, sym, subst, ap, ◌∙◌, true, List, [], ◌∷◌, some, arith, length,
}
use parameter_server.Util.Range.{Range, u64_mod, valid}
use parameter_server.Util.Range.Divide.{
  LongDouble, IsIeee, point, cut, even_divide-eq-some, cut_zero, cut_mono,
}
use parameter_server.System.Message.{Role, server, worker, scheduler, group, unused, Node}
use parameter_server.System.Message.Partition.{Chain}
use parameter_server.System.Assigner.{
  NodeAssigner, new_assigner, assign_node, assign_nodes, servers_of, keys_of_nodes, AreNumbered,
}

servers_of-cons :
    (node : Node) (nodes : List Node)
    → servers_of (node ∷ []) ≡ []
    → servers_of (node ∷ nodes) ≡ servers_of nodes
unfolding servers_of
servers_of-cons node nodes e = other_role node.role node nodes e
  where
    other_role :
        (role : Role) (node : Node) (nodes : List Node)
        → elim role [ server ↦ node ∷ [] | _ ↦ [] ] ≡ []
        → elim role [ server ↦ node ∷ servers_of nodes | _ ↦ servers_of nodes ] ≡ servers_of nodes
    other_role server node nodes e = ground arith
    other_role worker node nodes e = refl
    other_role scheduler node nodes e = refl
    other_role group node nodes e = refl
    other_role unused node nodes e = refl

-- What the assignment of nodes comes to, from server rank r on.
record IsAssigned (F : LongDouble) (a : NodeAssigner) (nodes : List Node) : Type 0 where
  last : NodeAssigner
  out : List Node
  runs : assign_nodes F a nodes ≡ some (last, out)
  chained : Chain (cut F a.key_range a.num_servers a.server_rank) (keys_of_nodes (servers_of out))
  numbered : AreNumbered a.server_rank (servers_of out)

-- The cuts of a division ascend.
abbrev Ascends : LongDouble → Range → ℕ → Type 0
Ascends F r n = (i j : ℕ) → i ≤ j → j ≤ n → cut F r n i ≤ cut F r n j

module _ (F : LongDouble) where
  -- A node that is no server passes by the numbering.
  other_IsAssigned :
      (a a' : NodeAssigner) (node node' : Node) (nodes : List Node)
      → assign_node F a node ≡ some (a', node')
      → servers_of (node' ∷ []) ≡ []
      → (a'.key_range ≡ a.key_range)
        × (a'.num_servers ≡ a.num_servers)
        × (a'.server_rank ≡ a.server_rank)
      → IsAssigned F a' nodes
      → IsAssigned F a (node ∷ nodes)
  unfolding assign_nodes
  other_IsAssigned a a' node node' nodes e out same rest = record {
    last = rest.last;
    out = node' ∷ rest.out;
    runs = rw (e, rest.runs) refl;
    chained =
        rw (servers_of-cons node' rest.out out, sym same.0, sym same.1, sym same.2) rest.chained;
    numbered = rw (servers_of-cons node' rest.out out, sym same.2) rest.numbered;
  }

  server_IsAssigned :
      (a : NodeAssigner) (node : Node) (nodes : List Node)
      → node.role ≡ server
      → valid a.key_range ≡ true
      → Ascends F a.key_range a.num_servers
      → a.server_rank < a.num_servers
      → IsAssigned F (record a { server_rank = suc a.server_rank }) nodes
      → IsAssigned F a (node ∷ nodes)
  unfolding assign_nodes assign_node servers_of keys_of_nodes
  server_IsAssigned a node nodes e v up fits rest =
      let part = even_divide-eq-some F a.key_range a.num_servers a.server_rank v fits in
      record {
        last = rest.last;
        out =
            record node {
              rank = a.server_rank;
              key = record {
                begin = cut F a.key_range a.num_servers a.server_rank;
                end = cut F a.key_range a.num_servers (a.server_rank + 1);
              };
            }
            ∷ rest.out;
        runs = rw (e, part, rest.runs) refl;
        chained = rw e (
          refl,
          up a.server_rank (a.server_rank + 1) (omega arith) (omega arith),
          subst
              (λ i. Chain (cut F a.key_range a.num_servers i) (keys_of_nodes (servers_of rest.out)))
              (omega arith) rest.chained,
        );
        numbered = rw e (refl, rest.numbered);
      }

  -- The recursion of assign_nodes, as a hypothesis on the assigner after the first node.
  LaterAssigned : NodeAssigner → List Node → Type 0
  LaterAssigned a nodes =
      (a' : NodeAssigner)
      → a'.key_range ≡ a.key_range
      → a'.num_servers ≡ a.num_servers
      → a'.server_rank + length (servers_of nodes) ≤ a.num_servers
      → IsAssigned F a' nodes

  room_other :
      (a : NodeAssigner) (node : Node) (nodes : List Node)
      → servers_of (node ∷ []) ≡ []
      → a.server_rank + length (servers_of (node ∷ nodes)) ≤ a.num_servers
      → a.server_rank + length (servers_of nodes) ≤ a.num_servers
  room_other a node nodes out h =
      subst (λ ns. a.server_rank + length ns ≤ a.num_servers) (servers_of-cons node nodes out) h

  servers_of-server :
      (node : Node) (nodes : List Node)
      → node.role ≡ server
      → servers_of (node ∷ nodes) ≡ node ∷ servers_of nodes
  unfolding servers_of
  servers_of-server node nodes e =
      ap (λ role. elim role [ server ↦ node ∷ servers_of nodes | _ ↦ servers_of nodes ]) e

  -- A node that is neither a server nor a worker leaves the assigner as it is.
  idle :
      (a : NodeAssigner) (node : Node) (nodes : List Node)
      → assign_node F a node ≡ some (a, record node { rank = 0; key = a.key_range })
      → servers_of (node ∷ []) ≡ []
      → servers_of (record node { rank = 0; key = a.key_range } ∷ []) ≡ []
      → a.server_rank + length (servers_of (node ∷ nodes)) ≤ a.num_servers
      → LaterAssigned a nodes
      → IsAssigned F a (node ∷ nodes)
  unfolding LaterAssigned
  idle a node nodes e out out' h ih =
      other_IsAssigned a a node (record node { rank = 0; key = a.key_range }) nodes e out'
        (refl, refl, refl) (ih a refl refl (room_other a node nodes out h))

  assign_as :
      (role : Role) (a : NodeAssigner) (node : Node) (nodes : List Node)
      → node.role ≡ role
      → valid a.key_range ≡ true
      → Ascends F a.key_range a.num_servers
      → a.server_rank + length (servers_of (node ∷ nodes)) ≤ a.num_servers
      → LaterAssigned a nodes
      → IsAssigned F a (node ∷ nodes)
  unfolding servers_of assign_node LaterAssigned
  assign_as server a node nodes e v up h ih =
      let room : a.server_rank + suc (length (servers_of nodes)) ≤ a.num_servers =
        subst (λ ns. a.server_rank + length ns ≤ a.num_servers) (servers_of-server node nodes e)
          h in
      server_IsAssigned a node nodes e v up (omega (arith, room))
        (ih (record a { server_rank = suc a.server_rank }) refl refl (omega (arith, room)))
  assign_as worker a node nodes e v up h ih =
      let a' : NodeAssigner = record a { worker_rank = suc a.worker_rank } in
      let node' : Node = record node { rank = a.worker_rank; key = a.key_range } in
      other_IsAssigned a a' node node' nodes (rw e refl) (rw e refl) (refl, refl, refl)
        (ih a' refl refl (room_other a node nodes (rw e refl) h))
  assign_as scheduler a node nodes e v up h ih =
      idle a node nodes (rw e refl) (rw e refl) (rw e refl) h ih
  assign_as group a node nodes e v up h ih =
      idle a node nodes (rw e refl) (rw e refl) (rw e refl) h ih
  assign_as unused a node nodes e v up h ih =
      idle a node nodes (rw e refl) (rw e refl) (rw e refl) h ih

  assign_nodes-IsAssigned :
      (a : NodeAssigner) (nodes : List Node)
      → valid a.key_range ≡ true
      → Ascends F a.key_range a.num_servers
      → a.server_rank + length (servers_of nodes) ≤ a.num_servers
      → IsAssigned F a nodes
  unfolding assign_nodes servers_of keys_of_nodes LaterAssigned
  assign_nodes-IsAssigned a [] v up h = record {
    last = a;
    out = [];
    runs = refl;
    chained = tt;
    numbered = tt;
  }
  assign_nodes-IsAssigned a (node ∷ nodes) v up h =
      assign_as node.role a node nodes refl v up h (λ a' k n room.
        assign_nodes-IsAssigned a' nodes (ap valid k ∙ v) (rw (k, n) up) (room_of n room))
    where
      room_of : {u m m' : ℕ} → m' ≡ m → u ≤ m → u ≤ m'
      room_of e h = omega arith

  -- As long as no more servers register than the scheduler was started for, every registration in
  -- a run of them succeeds, whatever the order of servers and workers; the servers get the ranks
  -- 0, 1, 2, ..., and key ranges that are valid, begin where the whole range does and follow each
  -- other with no gap and no overlap. Sizes are of 64 bits, arithmetic on long double is as IEEE
  -- says, and the last cut of the division, as it is rounded, is below 2^64.
  pub assign_nodes_lem :
      (ieee : IsIeee F) (n : ℕ) (r : Range) (nodes : List Node)
      → valid r ≡ true
      → r.end < u64_mod
      → 0 < n
      → n < u64_mod
      → ieee.truncate (point F r n n) < u64_mod
      → length (servers_of nodes) ≤ n
      → (last : NodeAssigner) × (out : List Node) × (assign_nodes F (new_assigner n r) nodes
          ≡ some (last, out))
        × Chain r.begin (keys_of_nodes (servers_of out))
        × AreNumbered 0 (servers_of out)
  unfolding valid
  assign_nodes_lem ieee n r nodes v e pos m fits h =
      let b : r.begin < u64_mod = ground arith in
      let up : Ascends F r n = λ i j k l. cut_mono F ieee r n i j b e m fits k l pos in
      let done = assign_nodes-IsAssigned (new_assigner n r) nodes v up (omega arith) in
      (
        done.last,
        done.out,
        done.runs,
        subst (λ b. Chain b (keys_of_nodes (servers_of done.out))) (cut_zero F ieee r n pos m b e)
            done.chained,
        done.numbered,
      )
