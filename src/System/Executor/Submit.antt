-- ===== src/System/Executor/Submit.antt =====
-- Executor::Submit and Executor::Reply.
use parameter_server.Base.{
  true, false, List, [], ◌∷◌, ◌++◌, Option, none, some, String, ℤ, suc_ℤ, string_eq, int_eq, lookup,
  insert, check, ◌>>=◌, ◌>>◌, ◌=?◌, not, length, replicate, ◌==◌, if◌then◌else◌,
}
use parameter_server.Util.Range.{Range}
use parameter_server.System.Message.{Message, of_task, time_of}
use parameter_server.System.RemoteNode.{Filters, encode_message}
use parameter_server.System.Executor.{Executor, ReqInfo, get_rnode, put_rnode, finish_sent}

-- Customer::Slice, which a customer overrides.
abbrev pub Slicer : Type 0 → Type 0
Slicer V = Message V → List Range → List (Message V) → Option (List (Message V))

module _ {V : Type 0} (F : Filters V) where
  open F use {Filter}

  -- The timestamp of a request: the caller's, or the next one.
  abbrev pub stamp_of : Executor V Filter → Message V → ℤ
  stamp_of e m = elim m.task.time [ some ts ↦ ts | none ↦ suc_ℤ e.time ]

  abbrev pub stamped : Executor V Filter → Message V → Message V
  stamped e m = record m {
    task = record m.task { time = some (stamp_of e m); request = true; customer_id = some e.id };
  }

  -- sent_reqs_[ts]: the receiver is set, and the callback only if there is one.
  abbrev pub req_info : Executor V Filter → Message V → ReqInfo
  req_info e m = record {
    recver = m.recver;
    callback = elim m.callback [
      | some c ↦ some c
      | none ↦ elim (lookup (stamp_of e m) e.sent_reqs) [ none ↦ none | some info ↦ info.callback ]
    ];
  }

  abbrev pub registered : Executor V Filter → Message V → Executor V Filter
  registered e m = record e {
    time = stamp_of e m;
    sent_reqs = insert (stamp_of e m) (req_info e m) e.sent_reqs;
  }

  -- r->EncodeMessage(m); m->recver = r->node.id(); sys_.Queue(m)
  unfoldable pub send_to : Executor V Filter → String → Message V → Option (Executor V Filter)
  send_to e id m = do
    r ← get_rnode e id
    (r', m') ← encode_message F r m
    let e' = put_rnode e id r'
    some (record e' { queued = e.queued ++ record m' { recver = r.node.id } ∷ [] })

  -- One round of the sending loop.
  unfoldable pub send_piece :
      Executor V Filter → ℤ → String → Message V → Option (Executor V Filter)
  unfolding send_to
  send_piece e ts id m = if m.valid then send_to e id m else finish_sent e id ts

  unfoldable pub send_pieces :
      Executor V Filter → ℤ → List String → List (Message V) → Option (Executor V Filter)
  unfolding send_piece
  send_pieces e ts (id ∷ ids) (m ∷ ms) = do e' ← send_piece e ts id m; send_pieces e' ts ids ms
  send_pieces e ts ids ms = some e

  -- Submit(msg): the executor, the message as it is left, and the timestamp.
  unfoldable pub submit :
      Slicer V → Executor V Filter → Message V → Option (Executor V Filter × Message V × ℤ)
  unfolding send_pieces
  submit slice e m = do
    check (not (m.recver =? ""))
    let m' = stamped e m
    let e1 = registered e m
    r ← get_rnode e1 m.recver
    msgs ← slice m' r.keys (replicate (length r.keys) (of_task m'.task))
    check (length msgs == length r.group)
    e2 ← send_pieces e1 (stamp_of e m) r.group msgs
    some (e2, m', stamp_of e m)

  -- The fields of the response that Reply sets.
  abbrev pub answer : Message V → Message V → Message V
  answer req res = record res {
    task = record res.task {
      request = false;
      control = elim req.task.control [ some c ↦ some c | none ↦ res.task.control ];
      customer_id = elim req.task.customer_id [ some c ↦ some c | none ↦ res.task.customer_id ];
      time = some (time_of req.task);
    };
    recver = req.sender;
  }

  -- Reply(request, response): the executor, and the request with its mark.
  unfoldable pub reply :
      Executor V Filter → Message V → Message V → Option (Executor V Filter × Message V)
  reply e req res =
      if req.task.request
      then (do
        r ← get_rnode e req.sender
        (r', res') ← encode_message F r (answer req res)
        let e' = put_rnode e req.sender r'
        some (record e' { queued = e.queued ++ res' ∷ [] }, record req { replied = true }))
      else some (e, req)
