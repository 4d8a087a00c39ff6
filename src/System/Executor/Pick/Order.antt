-- ===== src/System/Executor/Pick/Order.antt =====
-- About the order in which Executor::PickActiveMsg of src/system/executor.cc goes through messages.
use mathlib.Core.List.{append_assoc, append-nil}
use parameter_server.Base.{
  ◌≡◌, refl, sym, subst, ap, ◌∙◌, ◌⊎◌, inl, inr, Bool, true, false, List, [], ◌∷◌, ◌++◌, Option,
  none, some, ℤ, pos, negsuc, string_eq, insert, All, arith, Bool-cases,
}
use parameter_server.System.Tracker.{Tracker, is_finished}
use parameter_server.System.Message.{Message, time_of, is_control}
use parameter_server.System.RemoteNode.{Filters, RemoteNode, decode_message}
use parameter_server.System.Executor.{Executor, get_rnode}
use parameter_server.System.Executor.Pick.{
  is_blocked, Verdict, dead, twice, blocked, ready, judge, take_up, scan, pick_active_msg,
}

-- Some timestamp that a request waits for is not finished.
abbrev pub SomeUnfinished : Tracker → List ℤ → Type 0
SomeUnfinished t [] = ⊥
SomeUnfinished t (w ∷ ws) = (is_finished t w ≡ false) ⊎ SomeUnfinished t ws

is_blocked-All :
    (t : Tracker) (ws : List ℤ) → is_blocked t ws ≡ false → All (λ w. is_finished t w ≡ true) ws
unfolding is_blocked is_finished
is_blocked-All t [] h = tt
is_blocked-All t (negsuc n ∷ ws) h = (refl, is_blocked-All t ws h)
is_blocked-All t (pos n ∷ ws) h = (ground arith, is_blocked-All t ws (ground arith))

is_blocked-SomeUnfinished :
    (t : Tracker) (ws : List ℤ) → is_blocked t ws ≡ true → SomeUnfinished t ws
unfolding is_blocked
is_blocked-SomeUnfinished t [] h = ground arith
is_blocked-SomeUnfinished t (negsuc n ∷ ws) h = inr (is_blocked-SomeUnfinished t ws h)
is_blocked-SomeUnfinished t (pos n ∷ ws) h = elim (Bool-cases (is_finished t (pos n))) [
  | inl f ↦ inr (is_blocked-SomeUnfinished t ws (ground (arith, f)))
  | inr f ↦ inl f
]

module _ {V Filter : Type 0} where
  -- A request that was processed, or a response that was taken, before.
  abbrev pub IsRepeated : RemoteNode Filter → Message V → Type 0
  IsRepeated r m =
      ((m.task.request ≡ true) × (is_finished r.recv_req_tracker (time_of m.task) ≡ true))
      ⊎ ((m.task.request ≡ false) × (is_finished r.sent_req_tracker (time_of m.task) ≡ true))

  abbrev pub IsNew : RemoteNode Filter → Message V → Type 0
  IsNew r m =
      ((m.task.request ≡ true) × (is_finished r.recv_req_tracker (time_of m.task) ≡ false))
      ⊎ ((m.task.request ≡ false) × (is_finished r.sent_req_tracker (time_of m.task) ≡ false))

  -- What is thrown away: a message of a dead node, or a repeated one.
  abbrev pub IsDropped : RemoteNode Filter → Message V → Type 0
  IsDropped r m = (r.alive ≡ false) ⊎ IsRepeated r m

  -- What has to wait: a new request of an alive node, with an unfinished timestamp to wait for.
  abbrev pub IsWaiting : RemoteNode Filter → Message V → Type 0
  IsWaiting r m =
      (r.alive ≡ true)
      × IsNew r m
      × (m.task.request ≡ true)
      × SomeUnfinished r.recv_req_tracker m.task.wait_time

  -- What can be processed: a new message of an alive node, all that it waits for, if it is a
  -- request, being finished.
  abbrev pub IsReady : RemoteNode Filter → Message V → Type 0
  IsReady r m =
      (r.alive ≡ true)
      × IsNew r m
      × (m.task.request ≡ true
          → All (λ w. is_finished r.recv_req_tracker w ≡ true) m.task.wait_time)

  dead-IsDropped : (r : RemoteNode Filter) (m : Message V) → judge r m ≡ dead → IsDropped r m
  unfolding judge
  dead-IsDropped r m h = elim (Bool-cases r.alive) [ inl a ↦ ground (arith, a) | inr a ↦ inl a ]

  twice-IsDropped : (r : RemoteNode Filter) (m : Message V) → judge r m ≡ twice → IsDropped r m
  unfolding judge
  twice-IsDropped r m h = elim (Bool-cases m.task.request) [
    | inl q ↦ inr (inl (q, ground (arith, q)))
    | inr q ↦ inr (inr (q, ground (arith, q)))
  ]

  blocked-IsWaiting : (r : RemoteNode Filter) (m : Message V) → judge r m ≡ blocked → IsWaiting r m
  unfolding judge
  blocked-IsWaiting r m h =
      let q : m.task.request ≡ true = ground arith in
      (
        ground arith,
        inl (q, ground (arith, q)),
        q,
        is_blocked-SomeUnfinished r.recv_req_tracker m.task.wait_time (ground (arith, q)),
      )

  ready-IsReady : (r : RemoteNode Filter) (m : Message V) → judge r m ≡ ready → IsReady r m
  unfolding judge
  ready-IsReady r m h = (
    ground arith,
    elim (Bool-cases m.task.request) [
      | inl q ↦ inl (q, ground (arith, q))
      | inr q ↦ inr (q, ground (arith, q))
    ],
    λ q. is_blocked-All r.recv_req_tracker m.task.wait_time (ground (arith, q)),
  )

  -- What is left of the messages that were looked at: those that wait, in their order.
  pub data Kept (e : Executor V Filter) : List (Message V) → List (Message V) → Type 0 where
    no_more : Kept e [] []
    thrown :
        {m : Message V} {ms ks : List (Message V)} (r : RemoteNode Filter)
        → get_rnode e m.sender ≡ some r
        → IsDropped r m
        → Kept e ms ks
        → Kept e (m ∷ ms) ks
    stays :
        {m : Message V} {ms ks : List (Message V)} (r : RemoteNode Filter)
        → get_rnode e m.sender ≡ some r
        → IsWaiting r m
        → Kept e ms ks
        → Kept e (m ∷ ms) (m ∷ ks)

module _ {V : Type 0} (F : Filters V) where
  open F use {Filter}

  module _ (e : Executor V Filter) where
    -- A message for an executor names a node that it knows, and is no control message.
    abbrev pub IsKnown : Message V → Type 0
    IsKnown m =
        (is_control m.task ≡ false) × ((r : RemoteNode Filter) × (get_rnode e m.sender ≡ some r))

    -- The message is decoded by its sender's filters, whose new states are kept, and is the active
    -- one; the process ends where a filter fails a CHECK.
    abbrev pub Takes :
        RemoteNode Filter
        → Message V
        → List (Message V)
        → Option (Executor V Filter × Bool)
        → Type 0
    Takes r m others result =
        ((decode_message F r m ≡ none) × (result ≡ none))
        ⊎ ((r' : RemoteNode Filter) × (m' : Message V) × (decode_message F r m ≡ some (r', m'))
            × (result
                ≡ some (
                  record e {
                    nodes = insert m.sender r' e.nodes;
                    recv_msgs = others;
                    active_msg = some m';
                  },
                  true,
                )))

    abbrev pub Sleeps :
        List (Message V) → List (Message V) → Option (Executor V Filter × Bool) → Type 0
    Sleeps kept msgs result =
        (ks : List (Message V)) × Kept e msgs ks
        × (result ≡ some (record e { recv_msgs = kept ++ ks }, false))

    abbrev pub Picks :
        List (Message V) → List (Message V) → Option (Executor V Filter × Bool) → Type 0
    Picks kept msgs result =
        (pre : List (Message V)) × (m : Message V) × (r : RemoteNode Filter) × (post ks : List
          (Message V))
        × (msgs ≡ pre ++ m ∷ post)
        × Kept e pre ks
        × (get_rnode e m.sender ≡ some r)
        × IsReady r m
        × Takes r m (kept ++ (ks ++ post)) result

    Outcome : List (Message V) → List (Message V) → Option (Executor V Filter × Bool) → Type 0
    Outcome kept msgs result = Sleeps kept msgs result ⊎ Picks kept msgs result

    throw :
        (kept : List (Message V)) (m : Message V) (msgs : List (Message V))
        (result : Option (Executor V Filter × Bool)) (r : RemoteNode Filter)
        → get_rnode e m.sender ≡ some r
        → IsDropped r m
        → Outcome kept msgs result
        → Outcome kept (m ∷ msgs) result
    unfolding Outcome
    throw kept m msgs result r k d (inl (ks, all, eq)) = inl (ks, thrown r k d all, eq)
    throw kept m msgs result r k d (inr (pre, x, s, post, ks, split, all, found, is_ready, t)) =
        inr (m ∷ pre, x, s, post, ks, ap (◌∷◌ m) split, thrown r k d all, found, is_ready, t)

    stay :
        (kept : List (Message V)) (m : Message V) (msgs : List (Message V))
        (result : Option (Executor V Filter × Bool)) (r : RemoteNode Filter)
        → get_rnode e m.sender ≡ some r
        → IsWaiting r m
        → Outcome (kept ++ m ∷ []) msgs result
        → Outcome kept (m ∷ msgs) result
    unfolding Outcome
    stay kept m msgs result r k w (inl (ks, all, eq)) = inl (
      m ∷ ks,
      stays r k w all,
      eq ∙ ap (λ xs. some (record e { recv_msgs = xs }, false)) (append_assoc kept (m ∷ []) ks),
    )
    stay kept m msgs result r k w (inr (pre, x, s, post, ks, split, all, found, is_ready, t)) =
        inr (
          m ∷ pre,
          x,
          s,
          post,
          m ∷ ks,
          ap (◌∷◌ m) split,
          stays r k w all,
          found,
          is_ready,
          subst (λ xs. Takes s x xs result) (append_assoc kept (m ∷ []) (ks ++ post)) t,
        )

    take_up-Takes :
        (r : RemoteNode Filter) (m : Message V) (others : List (Message V))
        → Takes r m others (take_up F e r m others)
    unfolding take_up
    take_up-Takes r m others = decoded (decode_message F r m) refl
      where
        decoded :
            (d : Option (RemoteNode Filter × Message V))
            → decode_message F r m ≡ d
            → Takes r m others (take_up F e r m others)
        decoded none h = inl (h, rw h refl)
        decoded (some (r', m')) h = inr (r', m', h, rw h refl)

    scan_step :
        (kept : List (Message V)) (m : Message V) (msgs : List (Message V)) (r : RemoteNode Filter)
        → is_control m.task ≡ false
        → get_rnode e m.sender ≡ some r
        → scan F e kept (m ∷ msgs) ≡ elim (judge r m) [
          | dead ↦ scan F e kept msgs
          | twice ↦ scan F e kept msgs
          | blocked ↦ scan F e (kept ++ m ∷ []) msgs
          | ready ↦ take_up F e r m (kept ++ msgs)
        ]
    unfolding scan
    scan_step kept m msgs r c k = rw (c, k, scan)

    judged :
        (kept : List (Message V)) (m : Message V) (msgs : List (Message V)) (r : RemoteNode Filter)
        → get_rnode e m.sender ≡ some r
        → (v : Verdict) → judge r m ≡ v
        → Outcome kept msgs (scan F e kept msgs)
        → Outcome (kept ++ m ∷ []) msgs (scan F e (kept ++ m ∷ []) msgs)
        → Outcome kept (m ∷ msgs) (elim v [
          | dead ↦ scan F e kept msgs
          | twice ↦ scan F e kept msgs
          | blocked ↦ scan F e (kept ++ m ∷ []) msgs
          | ready ↦ take_up F e r m (kept ++ msgs)
        ])
    unfolding Outcome
    judged kept m msgs r k dead j drop wait = throw kept m msgs _ r k (dead-IsDropped r m j) drop
    judged kept m msgs r k twice j drop wait = throw kept m msgs _ r k (twice-IsDropped r m j) drop
    judged kept m msgs r k blocked j drop wait =
        stay kept m msgs _ r k (blocked-IsWaiting r m j) wait
    judged kept m msgs r k ready j drop wait = inr (
      [],
      m,
      r,
      msgs,
      [],
      refl,
      no_more,
      k,
      ready-IsReady r m j,
      take_up-Takes r m (kept ++ msgs),
    )

    scan-Outcome :
        (kept msgs : List (Message V)) → All IsKnown msgs → Outcome kept msgs (scan F e kept msgs)
    unfolding Outcome scan
    scan-Outcome kept [] k =
        inl (
          [],
          no_more,
          ap (λ ks. some (record e { recv_msgs = ks }, false)) (sym (append-nil kept)),
        )
    scan-Outcome kept (m ∷ msgs) k =
        subst (Outcome kept (m ∷ msgs)) (sym (scan_step kept m msgs k.0.1.0 k.0.0 k.0.1.1)) (
          judged kept m msgs k.0.1.0 k.0.1.1 (judge k.0.1.0 m) refl (scan-Outcome kept msgs k.1)
            (scan-Outcome (kept ++ m ∷ []) msgs k.1))

    -- On messages of known senders: either each message is one to drop or one that waits, and the
    -- executor sleeps with exactly those that wait; or the first message that is neither is ready,
    -- and is taken up: decoded by its sender's filters it becomes the active message, or the process
    -- ends by a CHECK of these filters. Then the messages behind it stay, and of those before it
    -- exactly the ones that wait. What is ready, waits, and is dropped, `IsReady`, `IsWaiting` and
    -- `IsDropped` say by the sender's trackers.
    pub pick_active_msg_lem :
        All IsKnown e.recv_msgs
        → Sleeps [] e.recv_msgs (pick_active_msg F e) ⊎ Picks [] e.recv_msgs (pick_active_msg F e)
    unfolding pick_active_msg Outcome
    pick_active_msg_lem k = scan-Outcome [] e.recv_msgs k
