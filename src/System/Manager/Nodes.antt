-- ===== src/System/Manager/Nodes.antt =====
-- About the counters and the lock of AddNode and RemoveNode of src/system/manager.cc.
use parameter_server.Base.{
  ℕ, suc, ◌+◌, ◌≡◌, refl, sym, ap, ◌∙◌, subst, Bool, true, false, not, ◌&&◌, ◌||◌, Option, some,
  String, ℤ, pos, suc_ℤ, Assoc, string_eq, lookup, erase, if◌then◌else◌, ◌=?◌, arith, check,
  >>=-eq-some, some_inj, Option-cases, inl, inr,
}
use parameter_server.System.Message.{Node, Command}
use parameter_server.System.Executor.{Executor}
use parameter_server.System.Executor.Membership
use parameter_server.System.Executor.Membership.{is_server, is_worker}
use parameter_server.System.Manager.{
  Manager, is_scheduler, pred_ℤ, each_customer, store_node, broadcast, announce, add_node,
  remove_known, remove_node,
}
use parameter_server.System.Manager.Counts.{
  IsMap, count_role, IsMap-insert, IsMap-erase, count_role-erase, count_role-insert_new,
  count_role-insert_known,
}
use parameter_server.System.Manager.Tasks.{Same, if-Same, broadcast-Same, announce-Same}

suc_count :
    (b : Bool) (x : ℤ) (n : ℕ)
    → x ≡ pos n
    → (if b then suc_ℤ x else x) ≡ pos ((if b then 1 else 0) + n)
suc_count true x n h = ap suc_ℤ h ∙ ap pos (omega arith)
suc_count false x n h = h ∙ ap pos (omega arith)

pred_count :
    (b : Bool) (x : ℤ) (n : ℕ)
    → x ≡ pos ((if b then 1 else 0) + n)
    → (if b then pred_ℤ x else x) ≡ pos n
pred_count true x n h = ap pred_ℤ (h ∙ ap pos {y = suc n} (omega arith))
pred_count false x n h = h ∙ ap pos (omega arith)

module _ {V Filter : Type 0} where
  -- The node map holds each id once, and the counters are the numbers of workers and servers in it.
  pub record IsCounted (m : Manager V Filter) : Type 0 where
    pub distinct : IsMap m.nodes
    pub workers : m.num_workers ≡ pos (count_role is_worker m.nodes)
    pub servers : m.num_servers ≡ pos (count_role is_server m.nodes)

  IsCounted-Same : (m m' : Manager V Filter) → Same m m' → IsCounted m → IsCounted m'
  unfolding Same
  IsCounted-Same m m' s c = record {
    distinct = subst IsMap (sym s.0) c.distinct;
    workers = s.1 ∙ c.workers ∙ ap (λ ns. pos (count_role is_worker ns)) (sym s.0);
    servers = s.2 ∙ c.servers ∙ ap (λ ns. pos (count_role is_server ns)) (sym s.0);
  }

  store_node-IsCounted :
      (connect : Node → Bool) (m m' : Manager V Filter) (node : Node)
      → IsCounted m
      → ((old : Node) → lookup node.id m.nodes ≡ some old → node.role ≡ old.role)
      → store_node connect m node ≡ some m'
      → IsCounted m'
  unfolding store_node
  store_node-IsCounted connect m m' node c same h =
      let (u, free, h1) = >>=-eq-some (check (not m.nodes_locked)) _ h in
      elim (Option-cases (lookup node.id m.nodes)) [
        | inl n ↦
            let (w, ok, h2) = >>=-eq-some (check (is_scheduler m || connect node)) _ (rw n at h1) in
            subst IsCounted (some_inj h2) (record {
              distinct = IsMap-insert node.id node m.nodes c.distinct;
              workers =
                  suc_count (is_worker node.role) _ _ c.workers
                  ∙ ap pos (sym (count_role-insert_new is_worker node.id node m.nodes n));
              servers =
                  suc_count (is_server node.role) _ _ c.servers
                  ∙ ap pos (sym (count_role-insert_new is_server node.id node m.nodes n));
            })
        | inr (old, s) ↦ subst IsCounted (some_inj (rw s at h1)) (record {
          distinct = IsMap-insert node.id node m.nodes c.distinct;
          workers =
              c.workers
              ∙ ap pos (
                  sym (
                    count_role-insert_known is_worker node.id node old m.nodes s
                      (ap is_worker (same old s))));
          servers =
              c.servers
              ∙ ap pos (
                  sym (
                    count_role-insert_known is_server node.id node old m.nodes s
                      (ap is_server (same old s))));
        })
      ]

  announced :
      (m1 m' : Manager V Filter) (node : Node) (inited : Manager V Filter → Bool)
      → (cs : Assoc ℤ (Option (Executor V Filter))) → IsCounted m1
      → some (
          let x = announce (record m1 { customers = cs }) node in
          record x { is_my_node_inited = inited x })
        ≡ some m'
      → IsCounted m'
  announced m1 m' node inited cs c1 h =
      let m2 : Manager V Filter = record m1 { customers = cs } in
      let x : Manager V Filter = announce m2 node in
      let c2 : IsCounted m2 = record {
        distinct = c1.distinct;
        workers = c1.workers;
        servers = c1.servers;
      } in
      let c : IsCounted x = IsCounted-Same m2 x (announce-Same m2 node) c2 in
      subst IsCounted (some_inj h)
        (record { distinct = c.distinct; workers = c.workers; servers = c.servers })

  -- AddNode, where it returns, keeps the counters right, if a node that is known keeps its role.
  pub add_node-IsCounted :
      (connect : Node → Bool) (m m' : Manager V Filter) (node : Node)
      → IsCounted m
      → ((old : Node) → lookup node.id m.nodes ≡ some old → node.role ≡ old.role)
      → add_node connect m node ≡ some m'
      → IsCounted m'
  unfolding add_node
  add_node-IsCounted connect m m' node c same h =
      let (m1, stored, h1) = >>=-eq-some (store_node connect m node) _ h in
      let (cs, ran, h2) =
        >>=-eq-some (each_customer (λ e. Membership.add_node e node) m1.customers) _ h1 in
      announced m1 m' node (λ x. (node.id =? x.my_node.id) || x.is_my_node_inited) cs
        (store_node-IsCounted connect m m1 node c same stored) h2

  -- The fields that RemoveNode sets before it tells others.
  without : Manager V Filter → String → Node → Manager V Filter
  without m node_id node = record m {
    nodes = erase node_id m.nodes;
    num_workers = if is_worker node.role then pred_ℤ m.num_workers else m.num_workers;
    num_servers = if is_server node.role then pred_ℤ m.num_servers else m.num_servers;
    num_active_nodes = pred_ℤ m.num_active_nodes;
  }

  without-IsCounted :
      (m : Manager V Filter) (node_id : String) (node : Node)
      → IsCounted m
      → lookup node_id m.nodes ≡ some node
      → IsCounted (without m node_id node)
  unfolding without
  without-IsCounted m node_id node c h = record {
    distinct = IsMap-erase node_id m.nodes c.distinct;
    workers =
        pred_count (is_worker node.role) m.num_workers
          (count_role is_worker (erase node_id m.nodes))
          (c.workers ∙ ap pos (sym (count_role-erase is_worker node_id node m.nodes c.distinct h)));
    servers =
        pred_count (is_server node.role) m.num_servers
          (count_role is_server (erase node_id m.nodes))
          (c.servers ∙ ap pos (sym (count_role-erase is_server node_id node m.nodes c.distinct h)));
  }

  withdrawn :
      (m m' : Manager V Filter) (node : Node) (told : Bool)
      → (cs : Assoc ℤ (Option (Executor V Filter))) → IsCounted m
      → some (
          if told
          then broadcast (record m { customers = cs }) Command.remove_node node m.nodes
          else record m { customers = cs })
        ≡ some m'
      → IsCounted m'
  withdrawn m m' node told cs c h =
      let m2 : Manager V Filter = record m { customers = cs } in
      let all : Manager V Filter = broadcast m2 Command.remove_node node m.nodes in
      let c2 : IsCounted m2 = record {
        distinct = c.distinct;
        workers = c.workers;
        servers = c.servers;
      } in
      subst IsCounted (some_inj h) (
        IsCounted-Same m2 (if told then all else m2)
          (if-Same told m2 all m2 (broadcast-Same Command.remove_node node m.nodes m2)
            (unfold Same in (refl, refl, refl)))
          c2)

  -- RemoveNode, where it returns, keeps the counters right, whatever id it is given.
  pub remove_node-IsCounted :
      (m m' : Manager V Filter) (node_id : String)
      → IsCounted m
      → remove_node m node_id ≡ some m'
      → IsCounted m'
  unfolding remove_node remove_known without
  remove_node-IsCounted m m' node_id c h =
      let (u, free, h1) = >>=-eq-some (check (not m.nodes_locked)) _ h in
      elim (Option-cases (lookup node_id m.nodes)) [
        | inl n ↦
            subst IsCounted (some_inj (rw n at h1))
              (record { distinct = c.distinct; workers = c.workers; servers = c.servers })
        | inr (node, s) ↦
            let (cs, ran, h2) =
              >>=-eq-some (each_customer (λ e. Membership.remove_node e node) m.customers) _
                (rw s at h1) in
            withdrawn (without m node_id node) m' node
              (is_scheduler m && not (node.id =? m.my_node.id)) cs
              (without-IsCounted m node_id node c s) h2
      ]
