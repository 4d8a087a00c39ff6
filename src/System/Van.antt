-- ===== src/System/Van.antt =====
-- Van of src/system/van.h and van.cc: the connections of a node, and how a message becomes frames
-- and frames become a message. The sockets are those of ZeroMQ: what it answers is a parameter.
pub mod RoundTrip
use Prim.Native.String.{◌++◌ as concat}
use parameter_server.Base.{
  ℕ, zero, suc, ◌+◌, ◌*◌, ◌%◌, Bool, true, false, ◌&&◌, Option, some, none, List, [], ◌∷◌, ◌++◌,
  ◌==◌, ltb, map, check, ◌>>=◌, ◌>>◌, Assoc, lookup, insert, erase, String, string_eq, nat_eq,
  if_empty, ◌=?◌, ℤ, pos, if◌then◌else◌,
}
use parameter_server.Util.Range.{u64_mod}
use parameter_server.System.Message.{
  Message, Task, Role, server, worker, scheduler, group, unused, Command, request_app, has_key,
  clear_key, clear_value, is_control,
}

-- Node, with the fields that a connection needs; `none` is a field that is not set.
pub record Peer : Type 0 where
  pub role : Role
  pub id : Option String
  pub hostname : Option String
  pub port : Option ℕ

abbrev pub text_or : Option String → String
text_or none = ""
text_or (some s) = s

-- What lies under a message: arrays as bytes, protobuf, and the text of a number.
pub record Codec (V : Type 0) : Type 1 where
  pub Bytes : Type 0
  pub size : Bytes → ℕ
  pub of_id : String → Bytes
  pub to_id : Bytes → String
  pub of_keys : List ℕ → Bytes
  pub to_keys : Bytes → List ℕ
  pub of_values : List V → Bytes
  pub to_values : Bytes → List V
  pub serialize : Task → Option Bytes
  pub parse : Bytes → Option Task
  pub port_text : ℕ → String

pub record Van : Type 0 where
  pub my_node : Peer
  pub scheduler : Peer
  -- the sockets, by their addresses
  pub senders : Assoc String String
  pub hostnames : Assoc String String
  pub sent_to_local : ℕ
  pub sent_to_others : ℕ
  pub received_from_local : ℕ
  pub received_from_others : ℕ
  pub fd_to_nodeid : Assoc ℕ String

-- Disconnect(node)
unfoldable pub disconnect : Peer → Van → Option Van
disconnect node van = do id ← node.id; some (record van { senders = erase id van.senders })

-- IsScheduler()
unfoldable pub is_scheduler : Van → Bool
is_scheduler van = elim van.my_node.role [ Role.scheduler ↦ true | _ ↦ false ]

-- hostnames_[id] == my_node_.hostname(), where a missing entry is made.
unfoldable pub is_local : String → Van → Bool
is_local id van = text_or (lookup id van.hostnames) =? text_or van.my_node.hostname

unfoldable pub touch_hostname : String → Van → Van
touch_hostname id van = record van {
  hostnames = insert id (text_or (lookup id van.hostnames)) van.hostnames;
}

module _ {V : Type 0} (C : Codec V) where
  open C use {
    Bytes, size, of_id, to_id, of_keys, to_keys, of_values, to_values, serialize, parse, port_text,
  }

  -- The address of a node, with the flag `local`.
  unfoldable pub address : Bool → String → String → ℕ → String
  address true id hostname port = concat "ipc:///tmp/" id
  address false id hostname port = concat "tcp://" (concat hostname (concat ":" (port_text port)))

  -- Connect(node): `opened` is what zmq_connect answers for an address.
  unfoldable pub connect : Bool → (String → Bool) → Peer → Van → Option (Van × Bool)
  unfolding address
  connect is_local_run opened node van = do
    id ← node.id
    port ← node.port
    hostname ← node.hostname
    let van' = if id =? text_or van.my_node.id then record van { my_node = node } else van
    let addr = address is_local_run id hostname port
    elim (lookup id van'.senders) [
      | some socket ↦ some (van', true)
      | none ↦
          if opened addr
          then some (
            record van' {
              senders = insert id addr van'.senders;
              hostnames = insert id hostname van'.hostnames;
            },
            true,
          )
          else some (van', false)
    ]

  -- ParseNode, on the node that the text format yields.
  unfoldable pub parse_node : Peer → Peer
  parse_node node = elim node.id [
    | some id ↦ node
    | none ↦
        let str =
          concat (text_or node.hostname)
            (concat ":" (port_text (elim node.port [ none ↦ 0 | some port ↦ port ]))) in
        record node {
          id = some (elim node.role [
            | Role.scheduler ↦ "H"
            | Role.worker ↦ concat "W_" str
            | Role.server ↦ concat "S_" str
            | _ ↦ str
          ]);
        }
  ]

  -- A frame, and whether more frames of the same message follow.
  abbrev pub Frame : Type 0
  Frame = Bytes × Bool

  -- The keys, if there are any, and the values.
  unfoldable pub data_bytes : Message V → List Bytes
  data_bytes msg =
      let values = map of_values msg.value in if_empty msg.key values (of_keys msg.key ∷ values)

  -- ZMQ_SNDMORE is set on all frames but the last.
  unfoldable pub with_more : List Bytes → List Frame
  with_more [] = []
  with_more (b ∷ []) = (b, false) ∷ []
  with_more (b ∷ c ∷ rest) = (b, true) ∷ with_more (c ∷ rest)

  unfoldable pub total_size : List Bytes → ℕ
  total_size [] = 0
  total_size (b ∷ rest) = size b + total_size rest

  -- The frames that zmq_msg_send takes before it fails, and whether it takes all. An interrupted
  -- call is repeated: `taken i` is what the i-th frame comes to.
  unfoldable pub send_frames : (ℕ → Bool) → ℕ → List Frame → List Frame × Bool
  send_frames taken i [] = ([], true)
  send_frames taken i (frame ∷ frames) =
      let (sent, done) = send_frames taken (suc i) frames in
      if taken i then (frame ∷ sent, done) else ([], false)

  unfoldable pub count_sent : String → ℕ → Van → Van
  unfolding is_local touch_hostname
  count_sent id n van =
      let van' = touch_hostname id van in
      if is_local id van
      then record van' { sent_to_local = (van.sent_to_local + n) % u64_mod }
      else record van' { sent_to_others = (van.sent_to_others + n) % u64_mod }

  unfoldable pub mark_key : Message V → Message V
  mark_key msg = record msg { task = record msg.task { has_key = has_key msg } }

  -- The part of Send behind the search for the socket.
  unfoldable pub send_task :
      (ℕ → Bool) → Message V → Van → Bytes → Van × Message V × List Frame × Option ℕ
  unfolding data_bytes with_more total_size send_frames count_sent
  send_task taken sent van task =
      let bytes = task ∷ data_bytes sent in
      let (frames, done) = send_frames taken 0 (with_more bytes) in
      if done
      then (count_sent sent.recver (total_size bytes) van, sent, frames, some (total_size bytes))
      else (van, sent, frames, none)

  unfoldable pub send_to :
      Option String
      → (ℕ → Bool)
      → Message V
      → Van
      → Option (Van × Message V × List Frame × Option ℕ)
  unfolding send_task mark_key
  send_to none taken msg van = some (van, msg, [], none)
  send_to (some socket) taken msg van = do
    task ← serialize (mark_key msg).task
    some (send_task taken (mark_key msg) van task)

  -- Send(msg, send_bytes): the message, which it marks, the frames that went out, and the number of
  -- bytes, which is `none` where false is returned.
  unfoldable pub send :
      (ℕ → Bool) → Message V → Van → Option (Van × Message V × List Frame × Option ℕ)
  unfolding send_to
  send taken msg van = send_to (lookup msg.recver van.senders) taken msg van

  -- The scheduler keeps the file descriptor of a node that registers; `answer` is what the socket
  -- answers to zmq_getsockopt: the descriptor and its number of bytes, or a failure. An unset ctrl
  -- reads as the first command, REQUEST_APP.
  unfoldable pub store_fd : (Bytes → ℕ) → Option (ℕ × ℕ) → Message V → Van → Option Van
  unfolding is_scheduler
  store_fd id_size answer msg van =
      if is_scheduler van && is_control msg.task && elim msg.task.ctrl [
        | some ctrl ↦ elim ctrl.cmd [ Command.request_app ↦ true | _ ↦ false ]
        | none ↦ true
      ]
      then (do
        check (ltb (id_size (of_id msg.sender)) 256)
        (fd, val_len) ← answer
        check (val_len == 4)
        some (record van { fd_to_nodeid = insert fd msg.sender van.fd_to_nodeid }))
      else some van

  -- One frame of Recv, at its number.
  unfoldable pub recv_frame :
      Option (ℕ × ℕ) → ℕ → Bytes → Message V → Van → Option (Van × Message V)
  unfolding store_fd
  recv_frame answer zero b msg van =
      some (van, record msg { sender = to_id b; recver = text_or van.my_node.id })
  recv_frame answer (suc zero) b msg van = do
    task ← parse b
    let msg' = record msg { task = task }
    van' ← store_fd size answer msg' van
    some (van', msg')
  recv_frame answer (suc (suc i)) b msg van =
      if (i == 0) && msg.task.has_key
      then some (van, record msg { key = to_keys b })
      else some (van, record msg { value = msg.value ++ to_values b ∷ [] })

  -- The loop of Recv, from the frame number i, with the bytes so far. `none` is a failed CHECK, or
  -- a message that has not arrived in full.
  unfoldable pub recv_loop :
      Option (ℕ × ℕ) → ℕ → List Frame → ℕ → Message V → Van → Option (Van × Message V × ℕ)
  unfolding recv_frame
  recv_loop answer i [] n msg van = none
  recv_loop answer i ((b, more) ∷ frames) n msg van = do
    (van', msg') ← recv_frame answer i b msg van
    elim more [
      | true ↦ recv_loop answer (suc i) frames (n + size b) msg' van'
      | false ↦ do check (ltb 0 i); some (van', msg', n + size b)
    ]

  unfoldable pub count_received : String → ℕ → Van → Van
  unfolding is_local touch_hostname
  count_received id n van =
      let van' = touch_hostname id van in
      if is_local id van
      then record van' { received_from_local = (van.received_from_local + n) % u64_mod }
      else record van' { received_from_others = (van.received_from_others + n) % u64_mod }

  -- Recv(msg, recv_bytes), on the frames that arrive.
  unfoldable pub recv : Option (ℕ × ℕ) → List Frame → Message V → Van → Option (Van × Message V × ℕ)
  unfolding recv_loop count_received
  recv answer frames msg van = do
    (van', msg', n) ← recv_loop answer 0 frames 0 (clear_value (clear_key msg)) van
    some (count_received msg'.sender n van', msg', n)
