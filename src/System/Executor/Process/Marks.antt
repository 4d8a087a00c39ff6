-- ===== src/System/Executor/Process/Marks.antt =====
-- About the marks that Executor::ProcessActiveMsg of src/system/executor.cc leaves for a response.
use parameter_server.Base.{
  ◌≡◌, sym, ap, ◌∙◌, inl, inr, true, false, some, String, ℤ, string_eq, lookup, lookup-insert,
  lookup-insert_self, >>=-eq-some, some_inj, ◌=?◌, if◌then◌else◌, Assoc, Bool-cases, Option-cases,
  refl,
}
use parameter_server.System.Tracker.{is_finished, finish, is_finished-finish}
use parameter_server.System.RemoteNode.{RemoteNode}
use parameter_server.System.Executor.{Executor, ReqInfo, get_rnode, finish_sent}
use parameter_server.System.Executor.Process.{run_callback}

-- The node is known, and its answer to the request is marked.
abbrev pub IsAnsweredIn : {Filter : Type 0} → Assoc String (RemoteNode Filter) → String → ℤ → Type 0
IsAnsweredIn {Filter} nodes id ts =
    (r : RemoteNode Filter) × (lookup id nodes ≡ some r)
    × (is_finished r.sent_req_tracker ts ≡ true)

module _ {V Filter : Type 0} where
  abbrev pub IsAnswered : Executor V Filter → String → ℤ → Type 0
  IsAnswered e id ts = IsAnsweredIn e.nodes id ts

  -- No mark of the request is lost.
  abbrev pub Keeps : Executor V Filter → Executor V Filter → ℤ → Type 0
  Keeps e e' ts = (id : String) → IsAnswered e id ts → IsAnswered e' id ts

  -- The entry of every node but one is as it was.
  abbrev pub IsSameBut : Executor V Filter → Executor V Filter → String → Type 0
  IsSameBut e e' other = (id : String) → (other =? id) ≡ false → get_rnode e' id ≡ get_rnode e id

  pub finish_sent-IsAnswered :
      (e e' : Executor V Filter) (other : String) (ts : ℤ)
      → finish_sent e other ts ≡ some e'
      → IsAnswered e' other ts × Keeps e e' ts × IsSameBut e e' other
  unfolding finish_sent
  finish_sent-IsAnswered e e' other ts h =
      let (r, k, h1) = >>=-eq-some (get_rnode e other) _ h in
      let (t, f, h2) = >>=-eq-some (finish r.sent_req_tracker ts) _ h1 in
      let r' : RemoteNode Filter = record r { sent_req_tracker = t } in
      let done = is_finished-finish r.sent_req_tracker t ts f in
      let at_key : (id : String)
          → get_rnode e' id ≡ (if other =? id then some r' else lookup id e.nodes) =
        λ id.
          ap (λ (x : Executor V Filter). get_rnode x id) (sym (some_inj h2))
          ∙ lookup-insert other id r' e.nodes in
      (
        (
          r',
          ap (λ (x : Executor V Filter). get_rnode x other) (sym (some_inj h2))
              ∙ lookup-insert_self other r' e.nodes,
          done,
        ),
        λ id (s, found, marked). elim (Bool-cases (other =? id)) [
          | inl same ↦
              (r', at_key id ∙ ap (λ b. if b then some r' else lookup id e.nodes) same, done)
          | inr ne ↦
              (s, at_key id ∙ ap (λ b. if b then some r' else lookup id e.nodes) ne ∙ found, marked)
        ],
        λ id ne. at_key id ∙ ap (λ b. if b then some r' else lookup id e.nodes) ne,
      )

  pub nodes-run_callback :
      (e : Executor V Filter) (ts : ℤ) (info : ReqInfo) → (run_callback e ts info).nodes ≡ e.nodes
  unfolding run_callback
  nodes-run_callback e ts info = elim (Option-cases info.callback) [
    | inl n ↦ rw (n, run_callback) refl
    | inr (c, s) ↦ rw (s, run_callback) refl
  ]
