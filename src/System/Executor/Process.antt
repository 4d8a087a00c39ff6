-- ===== src/System/Executor/Process.antt =====
-- Executor::ProcessActiveMsg and Executor::FinishRecvReq.
pub mod Once
pub mod Marks
pub mod Callback
use parameter_server.Base.{
  ℕ, suc, zero, ◌+◌, ◌≡◌, Bool, true, false, List, [], ◌∷◌, ◌++◌, Option, none, some, String, ℤ,
  pos, negsuc, Assoc, string_eq, int_eq, lookup, insert, check, ◌>>=◌, ◌>>◌, ◌=?◌, not, length,
  ◌==◌, if◌then◌else◌, ◌&&◌, ◌||◌,
}
use parameter_server.System.Tracker.{Tracker, is_finished}
use parameter_server.System.Message.{Message, Role, group, Task, empty_task, of_task, time_of}
use parameter_server.System.RemoteNode.{Filters, RemoteNode}
use parameter_server.System.Executor.{
  Executor, ReqInfo, get_rnode, put_rnode, finish_sent, finish_recv, finish_recv_all,
}
use parameter_server.System.Executor.Submit.{reply}

abbrev pub is_group : Role → Bool
is_group group = true
is_group _ = false

-- The user-defined ProcessRequest and ProcessResponse of a customer: they may use its executor, and
-- mark the message.
pub record Handlers (V Filter : Type 0) : Type 0 where
  pub process_request : Executor V Filter → Message V → Option (Executor V Filter × Message V)
  pub process_response : Executor V Filter → Message V → Option (Executor V Filter × Message V)

module _ {V Filter : Type 0} where
  -- FinishRecvReq(timestamp, sender)
  unfoldable pub finish_recv_req : Executor V Filter → ℤ → String → Option (Executor V Filter)
  unfolding finish_recv finish_recv_all
  finish_recv_req e ts sender = do
    r ← get_rnode e sender
    e' ← finish_recv e sender ts
    if is_group r.node.role then finish_recv_all e' r.group ts else some e'

  -- Whether an alive node of the group has yet to answer.
  unfoldable pub is_awaited : Executor V Filter → List String → ℤ → Option Bool
  is_awaited e [] ts = some false
  is_awaited e (id ∷ ids) ts = do
    r ← get_rnode e id
    rest ← is_awaited e ids ts
    some ((r.alive && not (is_finished r.sent_req_tracker ts)) || rest)

  -- if (callback) { callback(); callback = Callback(); }
  unfoldable pub run_callback : Executor V Filter → ℤ → ReqInfo → Executor V Filter
  run_callback e ts info = elim info.callback [
    | none ↦ e
    | some c ↦ record e {
      ran = e.ran ++ c ∷ [];
      sent_reqs = insert ts (record info { callback = none }) e.sent_reqs;
    }
  ]

  -- A response to a group: the group is finished with its last answer.
  unfoldable pub finish_group :
      Executor V Filter → ℤ → ReqInfo → RemoteNode Filter → Option (Executor V Filter)
  unfolding is_awaited run_callback finish_sent
  finish_group e ts info onode = do
    waits ← is_awaited e onode.group ts
    let finished = finish_sent e info.recver ts
    if waits then some e else (do e' ← finished; some (run_callback e' ts info))

  -- What follows ProcessResponse: the sender has answered, and the callback runs if it was the last.
  unfoldable pub after_response : Executor V Filter → ℤ → String → Option (Executor V Filter)
  unfolding finish_group
  after_response e ts sender = do
    e1 ← finish_sent e sender ts
    info ← lookup ts e1.sent_reqs
    if info.recver =? sender then some (run_callback e1 ts info) else (do
      onode ← get_rnode e1 info.recver
      if is_group onode.node.role
          then finish_group e1 ts info onode
          else some (run_callback e1 ts info))

module _ {V : Type 0} (F : Filters V) where
  open F use {Filter}

  -- What follows ProcessRequest: a finished request is marked, and answered if the handler has not.
  unfoldable pub after_request :
      Executor V Filter → ℤ → Message V → Option (Executor V Filter × Message V)
  unfolding finish_recv_req reply
  after_request e ts m =
      if m.finished
      then (do
        e' ← finish_recv_req e ts m.sender
        if m.replied then some (e', m) else reply F e' m (of_task empty_task))
      else some (e, m)

module _ {V : Type 0} (F : Filters V) (H : Handlers V F.Filter) where
  open F use {Filter}
  open H use {process_request, process_response}

  -- ProcessActiveMsg(). The active message and the last request or response are one object.
  unfoldable pub process_active_msg : Executor V Filter → Option (Executor V Filter)
  unfolding after_request after_response
  process_active_msg e = do
    m ← e.active_msg
    if m.task.request
        then (do
          (e1, m1) ← process_request (record e { last_request = some m }) m
          (e2, m2) ← after_request F e1 (time_of m.task) m1
          some (record e2 { active_msg = some m2; last_request = some m2 }))
        else (do
          (e1, m1) ← process_response (record e { last_response = some m }) m
          after_response (record e1 { active_msg = some m1; last_response = some m1 })
              (time_of m.task) m1.sender)
