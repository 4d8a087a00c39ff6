-- ===== src/System/Executor/Pick.antt =====
-- Executor::PickActiveMsg: which received message is processed next.
pub mod Order
use parameter_server.Base.{
  ℕ, suc, zero, ◌+◌, ◌≡◌, Bool, true, false, List, [], ◌∷◌, ◌++◌, Option, none, some, String, ℤ,
  pos, negsuc, Assoc, string_eq, int_eq, lookup, insert, check, ◌>>=◌, ◌>>◌, ◌=?◌, not, length,
  ◌==◌, if◌then◌else◌, ◌&&◌, ◌||◌,
}
use parameter_server.System.Tracker.{Tracker, is_finished}
use parameter_server.System.Message.{Message, Task, time_of, is_control}
use parameter_server.System.RemoteNode.{Filters, RemoteNode, decode_message}
use parameter_server.System.Executor.{Executor, get_rnode, put_rnode}

-- wait_time > Message::kInvalidTime
abbrev is_time : ℤ → Bool
is_time (pos n) = true
is_time (negsuc n) = false

-- The dependency check: some timestamp that the request waits for is not finished.
unfoldable pub is_blocked : Tracker → List ℤ → Bool
is_blocked t [] = false
is_blocked t (w ∷ ws) = (is_time w && not (is_finished t w)) || is_blocked t ws

-- What becomes of one received message.
pub data Verdict : Type 0 where
  dead twice blocked ready : Verdict

module _ {V Filter : Type 0} where
  unfoldable pub judge : RemoteNode Filter → Message V → Verdict
  unfolding is_blocked
  judge r m =
      if not r.alive
      then dead
      else if (m.task.request && is_finished r.recv_req_tracker (time_of m.task))
          || (not m.task.request && is_finished r.sent_req_tracker (time_of m.task))
      then twice
      else if m.task.request && is_blocked r.recv_req_tracker m.task.wait_time
      then blocked
      else ready

module _ {V : Type 0} (F : Filters V) where
  open F use {Filter}

  -- The message is taken out, its sender's filters decode it, and it becomes the active message.
  unfoldable pub take_up :
      Executor V Filter
      → RemoteNode Filter
      → Message V
      → List (Message V)
      → Option (Executor V Filter × Bool)
  take_up e r m others = do
    (r', m') ← decode_message F r m
    let e' = put_rnode e m.sender r'
    some (record e' { recv_msgs = others; active_msg = some m' }, true)

  -- The loop over recv_msgs_: `kept` are the messages that it has passed by. It returns true with a
  -- message picked, and false where it would sleep.
  unfoldable pub scan :
      Executor V Filter → List (Message V) → List (Message V) → Option (Executor V Filter × Bool)
  unfolding judge take_up
  scan e kept [] = some (record e { recv_msgs = kept }, false)
  scan e kept (m ∷ msgs) = do
    check (not (is_control m.task))
    r ← get_rnode e m.sender
    elim (judge r m) [
      | dead ↦ scan e kept msgs
      | twice ↦ scan e kept msgs
      | blocked ↦ scan e (kept ++ m ∷ []) msgs
      | ready ↦ take_up e r m (kept ++ msgs)
    ]

  -- PickActiveMsg()
  unfoldable pub pick_active_msg : Executor V Filter → Option (Executor V Filter × Bool)
  unfolding scan
  pick_active_msg e = scan e [] e.recv_msgs
