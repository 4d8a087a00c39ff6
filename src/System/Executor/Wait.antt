-- ===== src/System/Executor/Wait.antt =====
-- The predicates that Executor's waits and queries evaluate. A blocked wait is a sequence of
-- evaluations, the last of which is true.
use parameter_server.Base.{
  is_negative, ℕ, suc, ◌≡◌, ◌⊎◌, Bool, true, false, List, [], ◌∷◌, Option, some, String, ℤ,
  string_eq, int_eq, lookup, check, ◌>>=◌, ◌>>◌, ◌=?◌, not, if◌then◌else◌, ◌&&◌, ◌||◌,
}
use parameter_server.System.Tracker.{is_finished, finish}
use parameter_server.System.RemoteNode.{RemoteNode, tracker_of, set_tracker}
use parameter_server.System.Executor.{Executor, get_rnode, put_rnode}
use parameter_server.System.Executor.Process.{is_group}

module _ {V Filter : Type 0} where
  -- The loop over a group in CheckFinished: it stops at the first alive node that is not finished,
  -- and marks the timestamp for every node before it.
  unfoldable pub check_group :
      Executor V Filter → Bool → List String → ℤ → Option (Executor V Filter × Bool)
  check_group e sent [] ts = some (e, true)
  check_group e sent (id ∷ ids) ts = do
    r ← get_rnode e id
    let mark = do
      t ← finish (tracker_of sent r) ts
      check_group (put_rnode e id (set_tracker sent t r)) sent ids ts
    if r.alive && not (is_finished (tracker_of sent r) ts) then some (e, false) else mark

  -- CheckFinished(rnode, timestamp, sent)
  unfoldable pub check_finished :
      Executor V Filter → String → ℤ → Bool → Option (Executor V Filter × Bool)
  unfolding check_group
  check_finished e id ts sent = if is_negative ts then some (e, true) else (do
    r ← get_rnode e id
    if not r.alive || is_finished (tracker_of sent r) ts
        then some (e, true)
        else if is_group r.node.role
        then check_group e sent r.group ts
        else some (e, false))

  unfoldable pub count_finished : Executor V Filter → Bool → List String → ℤ → Option ℕ
  count_finished e sent [] ts = some 0
  count_finished e sent (id ∷ ids) ts = do
    r ← get_rnode e id
    fin ← count_finished e sent ids ts
    some (if r.alive && is_finished (tracker_of sent r) ts then suc fin else fin)

  -- NumFinished(rnode, timestamp, sent)
  unfoldable pub num_finished : Executor V Filter → String → ℤ → Bool → Option ℕ
  unfolding count_finished
  num_finished e id ts sent = do
    r ← get_rnode e id
    if is_negative ts || not r.alive
        then some 0
        else if is_group r.node.role
        then count_finished e sent r.group ts
        else some (if is_finished (tracker_of sent r) ts then 1 else 0)

  -- One evaluation of the predicate of WaitSentReq. `sent_reqs_[timestamp]` of a request that was
  -- not sent has an empty receiver, at which the CHECK fails.
  unfoldable pub try_sent_req : Executor V Filter → ℤ → Option (Executor V Filter × Bool)
  unfolding check_finished
  try_sent_req e ts = do
    info ← lookup ts e.sent_reqs
    check (not (info.recver =? ""))
    check_finished e info.recver ts true

  -- One evaluation of the predicate of WaitRecvReq.
  unfoldable pub try_recv_req : Executor V Filter → ℤ → String → Option (Executor V Filter × Bool)
  unfolding check_finished
  try_recv_req e ts sender = check_finished e sender ts false

  -- QueryRecvReq(timestamp, sender)
  unfoldable pub query_recv_req : Executor V Filter → ℤ → String → Option ℕ
  unfolding num_finished
  query_recv_req e ts sender = num_finished e sender ts false

  -- Every alive member of the group has finished the timestamp.
  abbrev pub AllFinished : Executor V Filter → Bool → List String → ℤ → Type 0
  AllFinished e sent [] ts = Unit {0}
  AllFinished e sent (id ∷ ids) ts =
      ((r : RemoteNode Filter)
        → get_rnode e id ≡ some r
        → (r.alive ≡ false) ⊎ (is_finished (tracker_of sent r) ts ≡ true))
      × AllFinished e sent ids ts
