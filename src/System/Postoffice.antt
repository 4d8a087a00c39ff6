-- ===== src/System/Postoffice.antt =====
-- Postoffice of src/system/postoffice.h and .cc: the queue of messages to send, the packing of small
-- control requests into one message, and the dispatch of what arrives. A thread's loop is its round.
pub mod Packing
use parameter_server.Base.{
  ℕ, ◌≡◌, ◌↔◌, refl, sym, ap, ap₂, ◌∙◌, Bool, true, false, ◌&&◌, ◌||◌, not, Option, some, none,
  List, [], ◌∷◌, ◌++◌, map, check, ◌>>=◌, ◌>>◌, Assoc, Eq, lookup, insert, String, string_eq, ℤ,
  pos, int_eq, eqb_refl, if◌then◌else◌, ◌=?◌, arith, if_empty,
}
use parameter_server.System.Message.{Message, Task, of_task, has_key, is_control}
use parameter_server.System.Executor.{Executor, accept}
use parameter_server.System.Manager.{Manager}
use parameter_server.System.Manager.Process.{Outside, process_control}

-- std::pair<NodeID, int>
pub record PackKey : Type 0 where
  pub recver : String
  pub customer_id : ℤ

unfoldable pub same_pack_key : PackKey → PackKey → Bool
same_pack_key a b = (a.recver =? b.recver) && (a.customer_id =? b.customer_id)

both_true : (a b : Bool) → (a && b) ≡ true → (a ≡ true) × (b ≡ true)
both_true true true h = (refl, refl)
both_true true false h = cc
both_true false b h = cc

same_pack_key_sound : (a b : PackKey) → same_pack_key a b ≡ true → a ≡ b
unfolding same_pack_key
same_pack_key_sound a b h =
    let (r, c) = both_true (a.recver =? b.recver) (a.customer_id =? b.customer_id) h in
    ap₂ (λ x y. record { recver = x; customer_id = y }) ((string_eq.beq_iff a.recver b.recver).0 r)
      ((int_eq.beq_iff a.customer_id b.customer_id).0 c)

same_pack_key_refl : (a : PackKey) → same_pack_key a a ≡ true
unfolding same_pack_key
same_pack_key_refl a = ap₂ ◌&&◌ (eqb_refl a.recver) (eqb_refl a.customer_id)

pub same_pack_key_iff : (a b : PackKey) → (same_pack_key a b ≡ true) ↔ (a ≡ b)
same_pack_key_iff a b =
    (same_pack_key_sound a b, λ e. ap (same_pack_key a) (sym e) ∙ same_pack_key_refl a)

instance abbrev pub pack_key_eq : Eq PackKey
pack_key_eq = record { beq = same_pack_key; beq_iff = same_pack_key_iff }

-- A message in the sending queue: one that was queued, or the tasks of several.
pub data Outgoing (V : Type 0) : Type 0 where
  single : Message V → Outgoing V
  packed : String → List Task → Outgoing V

pub record Postoffice (V : Type 0) : Type 0 where
  pub sending_queue : List (Outgoing V)
  pub pack_ : Assoc PackKey (List (Message V))

abbrev pub id_or_zero : Option ℤ → ℤ
id_or_zero none = pos 0
id_or_zero (some id) = id

module _ {V : Type 0} where
  abbrev pub waiting_or : Option (List (Message V)) → List (Message V)
  waiting_or none = []
  waiting_or (some msgs) = msgs

  unfoldable pub tasks_of : List (Message V) → List Task
  tasks_of [] = []
  tasks_of (msg ∷ msgs) = msg.task ∷ tasks_of msgs

  -- has_data()
  unfoldable pub has_data : Message V → Bool
  has_data msg = has_key msg || if_empty msg.value false true

  -- The part of Queue that packs, with `more` the task's field of that name.
  unfoldable pub pack : Bool → PackKey → Message V → Postoffice V → Postoffice V
  unfolding tasks_of
  pack more key msg p =
      let value = waiting_or (lookup key p.pack_) ++ msg ∷ [] in
      if more then record p { pack_ = insert key value p.pack_ } else record p {
        sending_queue = p.sending_queue ++ packed msg.recver (tasks_of value) ∷ [];
        pack_ = insert key [] p.pack_;
      }

  -- Queue(msg); `more` is `none` where the task does not have the field.
  unfoldable pub queue : Option Bool → Message V → Postoffice V → Option (Postoffice V)
  unfolding pack has_data
  queue none msg p = some (record p { sending_queue = p.sending_queue ++ single msg ∷ [] })
  queue (some more) msg p = do
    check msg.task.request
    customer ← msg.task.customer_id
    check (not (has_data msg))
    some (pack more (record { recver = msg.recver; customer_id = customer }) msg p)

  -- unpack_msg, for one task of a packed message.
  unfoldable pub unpack : String → String → Task → Message V
  unfolding of_task
  unpack sender recver task = record (of_task task) { sender = sender; recver = recver }

  -- The rounds of Recv over the tasks of one message, with the state that Process changes; after a
  -- false the rest is left.
  unfoldable pub unpack_loop :
      {S : Type 0}
      → (Message V → S → Option (S × Bool))
      → String
      → String
      → List Task
      → S
      → Option (S × Bool)
  unfolding unpack
  unpack_loop process sender recver [] s = some (s, true)
  unpack_loop process sender recver (task ∷ tasks) s = do
    (s', go_on) ← process (unpack sender recver task) s
    elim go_on [ true ↦ unpack_loop process sender recver tasks s' | false ↦ some (s', false) ]

  -- Process(msg); AddResponse does nothing. An unset customer_id reads as 0.
  unfoldable pub process :
      {Filter : Type 0} (O : Outside)
      → String
      → Message V
      → Manager V Filter
      → Option (Manager V Filter × Bool)
  process O scheduler_id msg m =
      if is_control msg.task then process_control O m scheduler_id msg else (do
        let id = id_or_zero msg.task.customer_id
        customer ← lookup id m.customers
        executor ← customer
        some (record m { customers = insert id (some (accept executor msg)) m.customers }, true))
