-- ===== src/System/Executor/Process/Callback.antt =====
-- About the callback of a request in Executor::ProcessActiveMsg of src/system/executor.cc.
use parameter_server.Base.{
  ℕ, ◌≡◌, ◌⊎◌, true, false, List, [], ◌∷◌, ◌++◌, none, some, String, ℤ, string_eq, int_eq, lookup,
  ◌=?◌, arith,
}
use parameter_server.System.Tracker.{is_finished}
use parameter_server.System.RemoteNode.{RemoteNode}
use parameter_server.System.Executor.{Executor, ReqInfo, get_rnode, finish_sent}
use parameter_server.System.Executor.Process.Marks.{IsAnswered, Keeps, IsSameBut}
use parameter_server.System.Executor.Process.{is_group}

module _ {V Filter : Type 0} where
  pub finish_sent_keeps :
      (e e' : Executor V Filter) (id : String) (ts : ℤ)
      → finish_sent e id ts ≡ some e'
      → (e'.ran ≡ e.ran) × (e'.sent_reqs ≡ e.sent_reqs)
  unfolding finish_sent
  finish_sent_keeps e e' id ts h = (ground arith, ground arith)

  -- What a response does to the callback of its request: nothing, or it runs it and empties it.
  abbrev pub Quiet : Executor V Filter → Executor V Filter → Type 0
  Quiet e e' = (e'.ran ≡ e.ran) × (e'.sent_reqs ≡ e.sent_reqs)

  abbrev pub Called : Executor V Filter → Executor V Filter → ℤ → ReqInfo → Type 0
  Called e e' ts info =
      (c : ℕ) × (info.callback ≡ some c)
      × (e'.ran ≡ e.ran ++ c ∷ [])
      × (lookup ts e'.sent_reqs ≡ some (record info { callback = none }))

  -- The request is over: its callback runs, if it has one.
  abbrev pub Over : Executor V Filter → Executor V Filter → ℤ → ReqInfo → Type 0
  Over e e' ts info = ((info.callback ≡ none) × Quiet e e') ⊎ Called e e' ts info

  -- Every alive node of the group has answered.
  abbrev pub AllAnswered : Executor V Filter → List String → ℤ → Type 0
  AllAnswered e [] ts = Unit {0}
  AllAnswered e (id ∷ ids) ts =
      ((r : RemoteNode Filter) × (get_rnode e id ≡ some r)
        × ((r.alive ≡ false) ⊎ (is_finished r.sent_req_tracker ts ≡ true)))
      × AllAnswered e ids ts

  -- Some alive node of the group has not.
  abbrev pub SomeAwaited : Executor V Filter → List String → ℤ → Type 0
  SomeAwaited e [] ts = ⊥
  SomeAwaited e (id ∷ ids) ts =
      ((r : RemoteNode Filter) × (get_rnode e id ≡ some r)
        × (r.alive ≡ true)
        × (is_finished r.sent_req_tracker ts ≡ false))
      ⊎ SomeAwaited e ids ts

  -- The request went to a group of which an alive node has yet to answer.
  abbrev pub Waits : Executor V Filter → ReqInfo → String → ℤ → Type 0
  Waits e1 info sender ts =
      ((info.recver =? sender) ≡ false)
      × ((o : RemoteNode Filter) × (get_rnode e1 info.recver ≡ some o)
          × (is_group o.node.role ≡ true)
          × SomeAwaited e1 o.group ts)

  -- The request went to the sender, or to a node that the sender replaces, and no further mark is
  -- set; or it went to a group of which every alive node has now answered, and the group is marked.
  abbrev pub IsLast : Executor V Filter → Executor V Filter → ReqInfo → String → ℤ → Type 0
  IsLast e1 e' info sender ts =
      (((info.recver =? sender) ≡ true) × (e'.nodes ≡ e1.nodes))
      ⊎ ((o : RemoteNode Filter) × (get_rnode e1 info.recver ≡ some o)
          × (((is_group o.node.role ≡ false) × (e'.nodes ≡ e1.nodes))
              ⊎ (AllAnswered e1 o.group ts
                  × IsAnswered e' info.recver ts
                  × Keeps e1 e' ts
                  × IsSameBut e1 e' info.recver)))

  abbrev pub Result :
      Executor V Filter → Executor V Filter → Executor V Filter → ℤ → String → ReqInfo → Type 0
  Result e e1 e' ts sender info =
      (Waits e1 info sender ts × (e' ≡ e1) × Quiet e e')
      ⊎ (IsLast e1 e' info sender ts × Over e e' ts info)
