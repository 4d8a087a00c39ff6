-- ===== src/System/Executor/Process/Once.antt =====
-- About the marks that Executor::ProcessActiveMsg of src/system/executor.cc leaves for a request.
use parameter_server.Base.{
  ◌≡◌, sym, subst, ap, ◌∙◌, ◌⊎◌, inl, inr, Bool, true, false, List, [], ◌∷◌, some, String, ℤ,
  string_eq, lookup, lookup-insert, lookup-insert_self, >>=-eq-some, if_true, if_false, some_inj,
  ◌=?◌, if◌then◌else◌, arith, Bool-cases,
}
use parameter_server.System.Tracker.{is_finished, finish, is_finished-finish}
use parameter_server.System.Message.{Message, time_of, empty_task, of_task}
use parameter_server.System.RemoteNode.{
  Filters, RemoteNode, encode_message, apply_filters_keeps, filter_types,
}
use parameter_server.System.Executor.{Executor, get_rnode, put_rnode, finish_recv, finish_recv_all}
use parameter_server.System.Executor.Submit.{reply, answer}
use parameter_server.System.Executor.Pick.{dead, twice, judge}
use parameter_server.System.Executor.Process.{is_group, finish_recv_req, after_request}

module _ {V Filter : Type 0} (ts : ℤ) (sender : String) where
  -- The sender is known, and the timestamp is finished for requests from it.
  abbrev pub IsMarked : Executor V Filter → Type 0
  IsMarked e =
      (r : RemoteNode Filter) × (get_rnode e sender ≡ some r)
      × (is_finished r.recv_req_tracker ts ≡ true)

  -- A new entry for some node, in which the timestamp is finished, keeps the mark.
  put_rnode-IsMarked :
      (e : Executor V Filter) (id : String) (r : RemoteNode Filter)
      → IsMarked e
      → (id ≡ sender → is_finished r.recv_req_tracker ts ≡ true)
      → IsMarked (put_rnode e id r)
  put_rnode-IsMarked e id r (s, k, f) h = elim (Bool-cases (id =? sender)) [
    | inl same ↦ (
      r,
      lookup-insert id sender r e.nodes
          ∙ ap (λ b. if b then some r else lookup sender e.nodes) same,
      h ((string_eq.beq_iff id sender).0 same),
    )
    | inr ne ↦ (
      s,
      lookup-insert id sender r e.nodes
          ∙ ap (λ b. if b then some r else lookup sender e.nodes) ne
          ∙ k,
      f,
    )
  ]

  finish_recv-eq :
      (e e' : Executor V Filter) (id : String)
      → finish_recv e id ts ≡ some e'
      → (r : RemoteNode Filter) × (e' ≡ put_rnode e id r)
        × (is_finished r.recv_req_tracker ts ≡ true)
  unfolding finish_recv
  finish_recv-eq e e' id h =
      let (r, k, h1) = >>=-eq-some (get_rnode e id) _ h in
      let (t, f, h2) = >>=-eq-some (finish r.recv_req_tracker ts) _ h1 in
      (
        record r { recv_req_tracker = t },
        sym (some_inj h2),
        is_finished-finish r.recv_req_tracker t ts f,
      )

  finish_recv_self : (e e' : Executor V Filter) → finish_recv e sender ts ≡ some e' → IsMarked e'
  finish_recv_self e e' h =
      let (r, eq, f) = finish_recv-eq e e' sender h in
      subst IsMarked (sym eq) (r, lookup-insert_self sender r e.nodes, f)

  finish_recv-IsMarked :
      (e e' : Executor V Filter) (id : String)
      → finish_recv e id ts ≡ some e'
      → IsMarked e
      → IsMarked e'
  finish_recv-IsMarked e e' id h m =
      let (r, eq, f) = finish_recv-eq e e' id h in
      subst IsMarked (sym eq) (put_rnode-IsMarked e id r m (λ _. f))

  finish_recv_all-IsMarked :
      (ids : List String) (e e' : Executor V Filter)
      → finish_recv_all e ids ts ≡ some e'
      → IsMarked e
      → IsMarked e'
  unfolding finish_recv_all
  finish_recv_all-IsMarked [] e e' h m = subst IsMarked (some_inj h) m
  finish_recv_all-IsMarked (id ∷ ids) e e' h m =
      let (e1, f, h1) = >>=-eq-some (finish_recv e id ts) _ h in
      finish_recv_all-IsMarked ids e1 e' h1 (finish_recv-IsMarked e e1 id f m)

  -- FinishRecvReq marks the timestamp for its sender.
  pub finish_recv_req-IsMarked :
      (e e' : Executor V Filter) → finish_recv_req e ts sender ≡ some e' → IsMarked e'
  unfolding finish_recv_req
  finish_recv_req-IsMarked e e' h =
      let (r, k, h1) = >>=-eq-some (get_rnode e sender) _ h in
      let (e1, f, h2) = >>=-eq-some (finish_recv e sender ts) _ h1 in
      let m = finish_recv_self e e1 f in
      elim (Bool-cases (is_group r.node.role)) [
        | inl g ↦ finish_recv_all-IsMarked r.group e1 e' (if_true _ g h2) m
        | inr s ↦ subst IsMarked (some_inj (if_false _ s h2)) m
      ]

  -- A second request with the timestamp of a marked one is thrown away.
  pub judge_marked :
      (e : Executor V Filter) (x : Message V) (r : RemoteNode Filter)
      → IsMarked e
      → get_rnode e sender ≡ some r
      → x.task.request ≡ true
      → time_of x.task ≡ ts
      → (judge r x ≡ dead) ⊎ (judge r x ≡ twice)
  unfolding judge
  judge_marked e x r (s, k, f) k' q t =
      let f' : is_finished r.recv_req_tracker (time_of x.task) ≡ true =
        ap (is_finished r.recv_req_tracker) t
        ∙ ap (λ (y : RemoteNode Filter). is_finished y.recv_req_tracker ts) (some_inj (sym k' ∙ k))
        ∙ f in
      ground arith

module _ {V : Type 0} (F : Filters V) where
  open F use {Filter, encode}

  reply-IsMarked :
      (ts : ℤ) (e e' : Executor V Filter) (req req' res : Message V)
      → reply F e req res ≡ some (e', req')
      → IsMarked ts req.sender e
      → IsMarked ts req.sender e'
  unfolding reply encode_message
  reply-IsMarked ts e e' req req' res h m = elim (Bool-cases req.task.request) [
    | inr silent ↦ subst (IsMarked ts req.sender) (ap (λ p. p.0) (some_inj (if_false _ silent h))) m
    | inl asks ↦
        let (r, k, h1) = >>=-eq-some (get_rnode e req.sender) _ (if_true _ asks h) in
        let ((r', res'), enc, h2) = >>=-eq-some (encode_message F r (answer F req res)) _ h1 in
        subst (IsMarked ts req.sender) (ap (λ p. p.0) (some_inj h2))
          (put_rnode-IsMarked ts req.sender e req.sender r' m (λ _. encoded r r' res' k enc))
  ]
    where
      encoded :
          (r r' : RemoteNode Filter) (res' : Message V)
          → get_rnode e req.sender ≡ some r
          → encode_message F r (answer F req res) ≡ some (r', res')
          → is_finished r'.recv_req_tracker ts ≡ true
      encoded r r' res' k enc =
          ap (λ t. is_finished t ts)
            (apply_filters_keeps F encode (filter_types F (answer F req res)) r r'
              (answer F req res) res' enc).3
          ∙ ap (λ (y : RemoteNode Filter). is_finished y.recv_req_tracker ts)
              (some_inj (sym k ∙ m.1))
          ∙ m.2

  acknowledged :
      (ts : ℤ) (e e' : Executor V Filter) (m m' : Message V) (b : Bool)
      → (if b then some (e, m) else reply F e m (of_task empty_task)) ≡ some (e', m')
      → IsMarked ts m.sender e
      → IsMarked ts m.sender e'
  acknowledged ts e e' m m' true h k = subst (IsMarked ts m.sender) (ap (λ p. p.0) (some_inj h)) k
  acknowledged ts e e' m m' false h k = reply-IsMarked ts e e' m m' (of_task empty_task) h k

  -- In the state that is left once a request has been processed and its handler has not left it
  -- open, a request of the same sender, which is known, with the same timestamp is thrown away:
  -- its sender is dead, or it is received twice.
  pub after_request-judge :
      (ts : ℤ) (e e' : Executor V Filter) (m m' x : Message V) (r : RemoteNode Filter)
      → after_request F e ts m ≡ some (e', m')
      → m.finished ≡ true
      → get_rnode e' m.sender ≡ some r
      → x.task.request ≡ true
      → time_of x.task ≡ ts
      → (judge r x ≡ dead) ⊎ (judge r x ≡ twice)
  unfolding after_request
  after_request-judge ts e e' m m' x r h fin k q t =
      let (e1, f, h1) = >>=-eq-some (finish_recv_req e ts m.sender) _ (if_true _ fin h) in
      let marked = finish_recv_req-IsMarked ts m.sender e e1 f in
      judge_marked ts m.sender e' x r (acknowledged ts e1 e' m m' m.replied h1 marked) k q t
