-- ===== src/System/Postoffice/Packing.antt =====
-- About the packing of messages in src/system/postoffice.cc.
use mathlib.Core.List.{append_assoc, append-nil}
use parameter_server.Base.{
  ◌≡◌, refl, sym, ap, ap₂, ◌∙◌, Bool, true, false, not, Option, some, none, List, [], ◌∷◌, ◌++◌,
  All, check, ◌>>=◌, ◌>>◌, lookup, lookup-insert_self, String, ℤ,
}
use parameter_server.System.Message.{Message, Task, of_task}
use parameter_server.System.Postoffice.{
  Postoffice, PackKey, pack_key_eq, packed, waiting_or, tasks_of, has_data, pack, queue, unpack,
  unpack_loop,
}

module _ {V : Type 0} where
  -- The messages of one group: all with `more` but the last.
  unfoldable pub queue_group : List (Message V) → Message V → Postoffice V → Option (Postoffice V)
  queue_group [] last p = queue (some false) last p
  queue_group (msg ∷ msgs) last p = do p' ← queue (some true) msg p; queue_group msgs last p'

  -- A message that Queue can pack under a key.
  pub record IsPackable (key : PackKey) (msg : Message V) : Type 0 where
    pub to : msg.recver ≡ key.recver
    pub customer : msg.task.customer_id ≡ some key.customer_id
    pub is_request : msg.task.request ≡ true
    pub no_data : has_data msg ≡ false

  sent_to :
      (key : PackKey) (msg : Message V)
      → IsPackable key msg
      → ◌≡◌ {A = PackKey} (record { recver = msg.recver; customer_id = key.customer_id }) key
  sent_to key msg h = ap (λ r. record { recver = r; customer_id = key.customer_id }) h.to

  queue-pack :
      (more : Bool) (key : PackKey) (msg : Message V) (p : Postoffice V)
      → IsPackable key msg
      → queue (some more) msg p ≡ some (pack more key msg p)
  unfolding queue
  queue-pack more key msg p h =
      ap (λ b. check b >> next msg.task.customer_id (has_data msg)) h.is_request
      ∙ ap (λ c. next c (has_data msg)) h.customer
      ∙ ap (next (some key.customer_id)) h.no_data
      ∙ ap (λ k. some (pack more k msg p)) (sent_to key msg h)
    where
      next : Option ℤ → Bool → Option (Postoffice V)
      next c b = do
        customer ← c
        check (not b)
        some (pack more (record { recver = msg.recver; customer_id = customer }) msg p)

  abbrev waiting : PackKey → Postoffice V → List (Message V)
  waiting key p = waiting_or (lookup key p.pack_)

  waiting-pack :
      (key : PackKey) (msg : Message V) (p : Postoffice V)
      → waiting key (pack true key msg p) ≡ waiting key p ++ msg ∷ []
  unfolding pack
  waiting-pack key msg p = ap waiting_or (lookup-insert_self key _ p.pack_)

  waiting-pack_last :
      (key : PackKey) (msg : Message V) (p : Postoffice V) → waiting key (pack false key msg p) ≡ []
  unfolding pack
  waiting-pack_last key msg p = ap waiting_or (lookup-insert_self key [] p.pack_)

  sending_queue-pack :
      (key : PackKey) (msg : Message V) (p : Postoffice V)
      → (pack true key msg p).sending_queue ≡ p.sending_queue
  unfolding pack
  sending_queue-pack key msg p = refl

  sending_queue-pack_last :
      (key : PackKey) (msg : Message V) (p : Postoffice V) (msgs : List (Message V))
      → IsPackable key msg
      → waiting key p ++ msg ∷ [] ≡ msgs
      → (pack false key msg p).sending_queue
        ≡ p.sending_queue ++ packed key.recver (tasks_of msgs) ∷ []
  unfolding pack
  sending_queue-pack_last key msg p msgs h e =
      ap₂ (λ r ms. p.sending_queue ++ packed r (tasks_of ms) ∷ []) h.to e

  -- The group that arrives at Process.
  pub collect : Message V → List (Message V) → Option (List (Message V) × Bool)
  collect msg done = some (done ++ msg ∷ [], true)

  -- A blank message but for the task of another one, its sender and its recipient.
  pub record IsUnpacked (sender recver : String) (msg out : Message V) : Type 0 where
    pub same_task : out.task ≡ msg.task
    pub from : out.sender ≡ sender
    pub to : out.recver ≡ recver
    pub no_key : out.key ≡ []
    pub no_value : out.value ≡ []
    pub not_replied : out.replied ≡ false
    pub is_finished : out.finished ≡ true
    pub is_valid : out.valid ≡ true
    pub goes_on : out.terminate ≡ false
    pub no_callback : out.callback ≡ none

  -- Message by message, and as many of them.
  abbrev pub AreUnpacked : String → String → List (Message V) → List (Message V) → Type 0
  AreUnpacked sender recver [] [] = Unit {0}
  AreUnpacked sender recver (msg ∷ msgs) (out ∷ outs) =
      IsUnpacked sender recver msg out × AreUnpacked sender recver msgs outs
  AreUnpacked sender recver [] (out ∷ outs) = ⊥
  AreUnpacked sender recver (msg ∷ msgs) [] = ⊥

  unpacked : String → String → List (Message V) → List (Message V)
  unpacked sender recver [] = []
  unpacked sender recver (msg ∷ msgs) = unpack sender recver msg.task ∷ unpacked sender recver msgs

  unpack_loop-tasks_of :
      (sender recver : String) (msgs done : List (Message V))
      → unpack_loop collect sender recver (tasks_of msgs) done
        ≡ some (done ++ unpacked sender recver msgs, true)
  unfolding unpack_loop tasks_of unpacked collect
  unpack_loop-tasks_of sender recver [] done = ap (λ xs. some (xs, true)) (sym (append-nil done))
  unpack_loop-tasks_of sender recver (msg ∷ msgs) done =
      unpack_loop-tasks_of sender recver msgs (done ++ unpack sender recver msg.task ∷ [])
      ∙ ap (λ xs. some (xs, true)) (append_assoc done _ (unpacked sender recver msgs))

  AreUnpacked-unpacked :
      (sender recver : String) (msgs : List (Message V))
      → AreUnpacked sender recver msgs (unpacked sender recver msgs)
  unfolding unpacked unpack of_task
  AreUnpacked-unpacked sender recver [] = tt
  AreUnpacked-unpacked sender recver (msg ∷ msgs) = (
    record {
      same_task = refl;
      from = refl;
      to = refl;
      no_key = refl;
      no_value = refl;
      not_replied = refl;
      is_finished = refl;
      is_valid = refl;
      goes_on = refl;
      no_callback = refl;
    },
    AreUnpacked-unpacked sender recver msgs,
  )

  queue_group-packed :
      (key : PackKey) (msgs : List (Message V)) (last : Message V) (p : Postoffice V)
      → All (IsPackable key) msgs
      → IsPackable key last
      → (p' : Postoffice V) × (queue_group msgs last p ≡ some p')
        × (waiting key p' ≡ [])
        × (p'.sending_queue
            ≡ p.sending_queue
              ++ packed key.recver (tasks_of (waiting key p ++ (msgs ++ last ∷ []))) ∷ [])
  unfolding queue_group
  queue_group-packed key [] last p h k = (
    pack false key last p,
    queue-pack false key last p k,
    waiting-pack_last key last p,
    sending_queue-pack_last key last p _ k refl,
  )
  queue_group-packed key (msg ∷ msgs) last p h k =
      let (p', e, w, s) = queue_group-packed key msgs last (pack true key msg p) h.1 k in
      (
        p',
        ap (λ r. r >>= queue_group msgs last) (queue-pack true key msg p h.0) ∙ e,
        w,
        s
            ∙ ap₂ (λ q ms. q ++ packed key.recver (tasks_of ms) ∷ []) (sending_queue-pack key msg p)
                (ap (λ ws. ws ++ (msgs ++ last ∷ [])) (waiting-pack key msg p)
                  ∙ append_assoc (waiting key p) (msg ∷ []) (msgs ++ last ∷ [])),
      )

  -- Packing and unpacking loses nothing. Queueing a group of requests without data, for one
  -- recipient and one customer, all with `more` set but the last, succeeds; where nothing waits for
  -- that pair before, it adds exactly one message to the sending queue, nothing waits afterwards,
  -- and the receiver that unpacks this message processes one message for each of the group, in their
  -- order: with its task, from the sender to the recipient, and otherwise blank.
  pub unpack_loop-queue_group :
      (sender : String) (key : PackKey) (msgs : List (Message V)) (last : Message V)
      (p : Postoffice V)
      → All (IsPackable key) msgs
      → IsPackable key last
      → waiting_or (lookup key p.pack_) ≡ []
      → (p' : Postoffice V) × (tasks : List Task) × (queue_group msgs last p ≡ some p')
        × (waiting_or (lookup key p'.pack_) ≡ [])
        × (p'.sending_queue ≡ p.sending_queue ++ packed key.recver tasks ∷ [])
        × (outs : List (Message V)) × (unpack_loop collect sender key.recver tasks []
            ≡ some (outs, true))
        × AreUnpacked sender key.recver (msgs ++ last ∷ []) outs
  unpack_loop-queue_group sender key msgs last p h k w =
      let (p', e, w', s) = queue_group-packed key msgs last p h k in
      (
        p',
        tasks_of (waiting key p ++ (msgs ++ last ∷ [])),
        e,
        w',
        s,
        unpacked sender key.recver (msgs ++ last ∷ []),
        ap (λ ws. unpack_loop collect sender key.recver (tasks_of (ws ++ (msgs ++ last ∷ []))) []) w
            ∙ unpack_loop-tasks_of sender key.recver (msgs ++ last ∷ []) [],
        AreUnpacked-unpacked sender key.recver (msgs ++ last ∷ []),
      )
