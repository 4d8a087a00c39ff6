-- ===== src/System/Van/RoundTrip.antt =====
-- About a message that Van::Send of src/system/van.cc sends and Van::Recv receives.
use mathlib.Core.List.{append_assoc}
use parameter_server.Base.{
  ℕ, zero, suc, ◌<◌, lt→ltb, ◌+◌, ◌≡◌, refl, ap, ap₂, ◌∙◌, Bool, true, false, ◌&&◌, Option, some,
  List, [], ◌∷◌, ◌++◌, ◌==◌, ltb, map, ◌>>=◌, lookup, String, string_eq, nat_eq, arith,
  if◌then◌else◌, if_of_true, if_of_false, if_empty,
}
use parameter_server.System.Message.{Message, Task, has_key, clear_key, clear_value}
use parameter_server.System.Van.{
  Van, Codec, Frame, text_or, data_bytes, with_more, total_size, send_frames, count_sent, mark_key,
  send, send_to, send_task, store_fd, recv_frame, recv_loop, count_received, recv,
}

module _ {V : Type 0} (C : Codec V) where
  open C use {Bytes, size}

  -- What the bytes of arrays and strings, and protobuf, are relied on for.
  pub record IsLossless : Type 0 where
    pub id : (s : String) → C.to_id (C.of_id s) ≡ s
    pub keys : (ks : List ℕ) → C.to_keys (C.of_keys ks) ≡ ks
    pub values : (vs : List V) → C.to_values (C.of_values vs) ≡ vs
    pub task : (t : Task) (b : Bytes) → C.serialize t ≡ some b → C.parse b ≡ some t

  -- zmq_msg_send that takes every frame.
  takes_all : ℕ → Bool
  takes_all i = true

  send_frames-all :
      (i : ℕ) (frames : List (Frame C)) → send_frames C (λ j. true) i frames ≡ (frames, true)
  unfolding send_frames
  send_frames-all i [] = refl
  send_frames-all i (frame ∷ frames) = ap (λ r. (frame ∷ r.0, r.1)) (send_frames-all (suc i) frames)

  recv_frame-value :
      IsLossless
      → (fd i : ℕ) (v : List V) (msg : Message V) (van : Van)
      → ((i == 0) && msg.task.has_key) ≡ false
      → recv_frame C (some (fd, 4)) (suc (suc i)) (C.of_values v) msg van
        ≡ some (van, record msg { value = msg.value ++ v ∷ [] })
  unfolding recv_frame
  recv_frame-value l fd i v msg van h =
      if_of_false _ h
      ∙ ap (λ w. some (van, record msg { value = msg.value ++ w ∷ [] })) (l.values v)

  recv_frame-keys :
      IsLossless
      → (fd : ℕ) (keys : List ℕ) (msg : Message V) (van : Van) → msg.task.has_key ≡ true
      → recv_frame C (some (fd, 4)) (suc (suc zero)) (C.of_keys keys) msg van
        ≡ some (van, record msg { key = keys })
  unfolding recv_frame
  recv_frame-keys l fd keys msg van h =
      if_of_true _ h ∙ ap (λ ks. some (van, record msg { key = ks })) (l.keys keys)

  -- The last frame, and one with more behind it.
  recv_loop-last :
      (fd i n : ℕ) (b : Bytes) (msg : Message V) (van : Van) {msg' : Message V} {van' : Van}
      → recv_frame C (some (fd, 4)) (suc i) b msg van ≡ some (van', msg')
      → recv_loop C (some (fd, 4)) (suc i) ((b, false) ∷ []) n msg van
        ≡ some (van', msg', n + size b)
  unfolding recv_loop
  recv_loop-last fd i n b msg van e =
      let positive : ltb 0 (suc i) ≡ true = ground arith in rw (e, positive) refl

  recv_loop-more :
      (fd i n : ℕ) (b : Bytes) (frames : List (Frame C)) (msg : Message V) (van : Van)
      {msg' : Message V} {van' : Van}
      → recv_frame C (some (fd, 4)) i b msg van ≡ some (van', msg')
      → recv_loop C (some (fd, 4)) i ((b, true) ∷ frames) n msg van
        ≡ recv_loop C (some (fd, 4)) (suc i) frames (n + size b) msg' van'
  unfolding recv_loop
  recv_loop-more fd i n b frames msg van e = rw e refl

  received : Message V → List (List V) → Message V
  received msg vs = record msg { value = msg.value ++ vs }

  abbrev Received : Type 0
  Received = Option (Van × Message V × ℕ)

  same_size :
      (van : Van) (msg : Message V) (m n : ℕ)
      → m ≡ n
      → ◌≡◌ {A = Received} (some (van, msg, m)) (some (van, msg, n))
  same_size van msg m n e = ap (λ k. some (van, msg, k)) e

  received-cons :
      (msg : Message V) (v : List V) (vs : List (List V)) (van : Van) (m n : ℕ)
      → m ≡ n
      → ◌≡◌ {A = Received}
          (some (van, received (record msg { value = msg.value ++ v ∷ [] }) vs, m))
          (some (van, received msg (v ∷ vs), n))
  unfolding received
  received-cons msg v vs van m n e =
      ap₂ (λ xs k. some (van, record msg { value = xs }, k)) (append_assoc msg.value (v ∷ []) vs) e

  -- The values that arrive behind the task and the keys.
  recv_loop-values :
      IsLossless
      → (fd i : ℕ) (v : List V) (vs : List (List V)) (n : ℕ) (msg : Message V) (van : Van)
      → ((i == 0) && msg.task.has_key) ≡ false
      → recv_loop C (some (fd, 4)) (suc (suc i)) (with_more C (map C.of_values (v ∷ vs))) n msg van
        ≡ some (van, received msg (v ∷ vs), n + total_size C (map C.of_values (v ∷ vs)))
  unfolding with_more total_size received
  recv_loop-values l fd i v [] n msg van h =
      recv_loop-last fd (suc i) n (C.of_values v) msg van (recv_frame-value l fd i v msg van h)
      ∙ same_size van (received msg (v ∷ [])) _ _ (omega arith)
  recv_loop-values l fd i v (w ∷ vs) n msg van h =
      recv_loop-more fd (suc (suc i)) n (C.of_values v) _ msg van
        (recv_frame-value l fd i v msg van h)
      ∙ recv_loop-values l fd (suc i) w vs (n + size (C.of_values v)) _ van (ground arith)
      ∙ received-cons msg v (w ∷ vs) van _ _ (omega arith)

  -- All frames behind the identity: the task, and what it announces.
  recv_loop-all :
      IsLossless
      → (fd n : ℕ) (b : Bytes) (keys : List ℕ) (values : List (List V)) (msg : Message V)
        (task : Task) (van van' : Van)
      → recv_frame C (some (fd, 4)) (suc zero) b (record msg { key = []; value = [] }) van
        ≡ some (van', record msg { task = task; key = []; value = [] })
      → task.has_key ≡ if_empty keys false true
      → let values' = map C.of_values values in
        let bytes = b ∷ if_empty keys values' (C.of_keys keys ∷ values') in
        recv_loop C
          (some (fd, 4))
          (suc zero)
          (with_more C bytes)
          n
          (record msg { key = []; value = [] })
          van
        ≡ some
            (van', record msg { task = task; key = keys; value = values }, n + total_size C bytes)
  unfolding with_more total_size received
  recv_loop-all l fd n b [] [] msg task van van' e h =
      recv_loop-last fd zero n b _ van e ∙ same_size van' _ _ _ (omega arith)
  recv_loop-all l fd n b [] (w ∷ vs) msg task van van' e h =
      recv_loop-more fd 1 n b _ _ van e
      ∙ recv_loop-values l fd zero w vs (n + size b) _ van' h
      ∙ same_size van' _ _ _ (omega arith)
  recv_loop-all l fd n b (key ∷ keys) [] msg task van van' e h =
      recv_loop-more fd 1 n b _ _ van e
      ∙ recv_loop-last fd 1 (n + size b) (C.of_keys (key ∷ keys)) _ van'
          (recv_frame-keys l fd (key ∷ keys) _ van' h)
      ∙ same_size van' _ _ _ (omega arith)
  recv_loop-all l fd n b (key ∷ keys) (w ∷ vs) msg task van van' e h =
      recv_loop-more fd 1 n b _ _ van e
      ∙ recv_loop-more fd 2 (n + size b) (C.of_keys (key ∷ keys)) _ _ van'
          (recv_frame-keys l fd (key ∷ keys) _ van' h)
      ∙ recv_loop-values l fd 1 w vs _ _ van' (ground arith)
      ∙ same_size van' _ _ _ (omega arith)

  has_key-if_empty : (msg : Message V) → has_key msg ≡ if_empty msg.key false true
  unfolding has_key
  has_key-if_empty msg = go msg.key
    where
      go :
          (keys : List ℕ)
          → elim keys as (λ ks. Bool) [ [] ↦ false | _ ↦ true ] ≡ if_empty keys false true
      go [] = refl
      go (key ∷ keys) = refl

  store_fd-some :
      (n : Bytes → ℕ) (fd : ℕ) (msg : Message V) (van : Van)
      → n (C.of_id msg.sender) < 256
      → (van' : Van) × (store_fd C n (some (fd, 4)) msg van ≡ some van')
  unfolding store_fd
  store_fd-some n fd msg van h = rw (lt→ltb (n (C.of_id msg.sender)) 256 h) (either _ _ van)
    where
      either : (b : Bool) (v w : Van) → (x : Van) × ((if b then some v else some w) ≡ some x)
      either true v w = (v, refl)
      either false v w = (w, refl)

  recv_frame-task :
      IsLossless
      → (fd : ℕ) (b : Bytes) (t : Task) (msg : Message V) (van : Van) → C.serialize t ≡ some b
      → size (C.of_id msg.sender) < 256
      → (van' : Van) × (recv_frame C (some (fd, 4)) (suc zero) b msg van
          ≡ some (van', record msg { task = t }))
  unfolding recv_frame
  recv_frame-task l fd b t msg van e h =
      let (van', f) = store_fd-some size fd (record msg { task = t }) van h in
      (van', rw (l.task t b e, f) refl)

  recv_loop-identity :
      IsLossless
      → (fd n : ℕ) (id : String) (frames : List (Frame C)) (msg : Message V) (van : Van)
      → recv_loop C (some (fd, 4)) 0 ((C.of_id id, true) ∷ frames) n msg van
        ≡ recv_loop C
            (some (fd, 4))
            1
            frames
            (n + size (C.of_id id))
            (record msg { sender = id; recver = text_or van.my_node.id })
            van
  unfolding recv_loop recv_frame
  recv_loop-identity l fd n id frames msg van =
      ap
        (λ s.
          recv_loop C (some (fd, 4)) 1 frames (n + size (C.of_id id))
            (record msg { sender = s; recver = text_or van.my_node.id }) van)
        (l.id id)

  send-all :
      (socket : String) (msg : Message V) (from : Van) (b : Bytes)
      → lookup msg.recver from.senders ≡ some socket
      → C.serialize (mark_key C msg).task ≡ some b
      → let bytes = b ∷ data_bytes C msg in
        send C (λ i. true) msg from
        ≡ some (
          count_sent C msg.recver (total_size C bytes) from,
          mark_key C msg,
          with_more C bytes,
          some (total_size C bytes),
        )
  unfolding send send_to send_task mark_key data_bytes
  send-all socket msg from b conn ser =
      ap (λ o. send_to C o (λ i. true) msg from) conn
      ∙ ap (λ t. t >>= λ task. some (send_task C (λ i. true) (mark_key C msg) from task)) ser
      ∙ rw (send_frames-all 0 (with_more C (b ∷ data_bytes C msg))) refl

  recv-all :
      IsLossless
      → (fd : ℕ) (id : String) (msg other : Message V) (to to' : Van) (b : Bytes)
      → recv_frame C
          (some (fd, 4))
          (suc zero)
          b
          (record other { key = []; value = []; sender = id; recver = text_or to.my_node.id })
          to
        ≡ some (
          to',
          record other {
            task = (mark_key C msg).task;
            key = [];
            value = [];
            sender = id;
            recver = text_or to.my_node.id;
          },
        )
      → let bytes = b ∷ data_bytes C msg in
        recv_loop C
          (some (fd, 4))
          0
          ((C.of_id id, true) ∷ with_more C bytes)
          0
          (record other { key = []; value = [] })
          to
        ≡ some (
          to',
          record other {
            task = (mark_key C msg).task;
            key = msg.key;
            value = msg.value;
            sender = id;
            recver = text_or to.my_node.id;
          },
          size (C.of_id id) + total_size C bytes,
        )
  unfolding data_bytes mark_key
  recv-all l fd id msg other to to' b e =
      recv_loop-identity l fd 0 id _ (record other { key = []; value = [] }) to
      ∙ recv_loop-all l fd (0 + size (C.of_id id)) b msg.key msg.value
          (record other { sender = id; recver = text_or to.my_node.id }) (mark_key C msg).task to
          to' e (has_key-if_empty msg)
      ∙ same_size to' _ _ _ (omega arith)

  -- A message that is sent arrives. Where the sender is connected to the receiver, its task can be
  -- serialised and the socket takes every frame, Send succeeds; and Recv on the frames it sent,
  -- behind the sender's identity of fewer than 256 bytes, where the socket answers a file descriptor
  -- of four bytes, succeeds with the same keys, the same
  -- values and the same task, whose has_key says whether there are keys, from that sender, to the
  -- receiver, and with the bytes of the identity more than were sent. This relies on lossless
  -- conversions between arrays, strings and tasks and their bytes.
  pub recv-send :
      IsLossless
      → (fd : ℕ) (id socket : String) (msg other : Message V) (from to : Van) (b : Bytes)
      → lookup msg.recver from.senders ≡ some socket
      → C.serialize (mark_key C msg).task ≡ some b
      → size (C.of_id id) < 256
      → (from' to' : Van) × (out : Message V) × (frames : List (Frame C)) × (sent : ℕ) × (send C
            (λ i. true)
            msg
            from
          ≡ some (from', mark_key C msg, frames, some sent))
        × (recv C (some (fd, 4)) ((C.of_id id, true) ∷ frames) other to
            ≡ some (to', out, size (C.of_id id) + sent))
        × (out.key ≡ msg.key)
        × (out.value ≡ msg.value)
        × (out.task ≡ (mark_key C msg).task)
        × (out.sender ≡ id)
        × (out.recver ≡ text_or to.my_node.id)
  unfolding recv mark_key clear_key clear_value
  recv-send l fd id socket msg other from to b conn ser small =
      let bytes = b ∷ data_bytes C msg in
      let cleared : Message V = clear_value (clear_key other) in
      let (to', task) =
        recv_frame-task l fd b (mark_key C msg).task
          (record cleared { sender = id; recver = text_or to.my_node.id }) to ser small in
      (
        count_sent C msg.recver (total_size C bytes) from,
        count_received C id (size (C.of_id id) + total_size C bytes) to',
        record cleared {
          task = (mark_key C msg).task;
          key = msg.key;
          value = msg.value;
          sender = id;
          recver = text_or to.my_node.id;
        },
        with_more C bytes,
        total_size C bytes,
        send-all socket msg from b conn ser,
        ap (λ r. r >>= λ (van', msg', n). some (count_received C msg'.sender n van', msg', n))
            (recv-all l fd id msg cleared to to' b task),
        refl,
        refl,
        refl,
        refl,
        refl,
      )
