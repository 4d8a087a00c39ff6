-- ===== src/Tests/Transport.antt =====
-- Messages on their way through a filter or a connection.
use parameter_server.Base.{
  ℕ, ◌≡◌, refl, true, false, List, [], ◌∷◌, some, none, arith, pos, length, lookup, ◌+◌, String,
  sym, ap, ◌>>=◌,
}
use parameter_server.Tests.Fixtures.{range, data_message, push_call}
use parameter_server.Util.Range
use parameter_server.System.Message.{
  Message, Task, Role, empty_task, of_task, clear_key, has_key, FilterType,
}
use parameter_server.System.Postoffice.{
  Postoffice, PackKey, pack_key_eq, packed, waiting_or, has_data, unpack_loop,
}
use parameter_server.System.Postoffice.Packing.{
  IsPackable, queue_group, collect, AreUnpacked, unpack_loop-queue_group,
}
use parameter_server.System.Van.{Van, Codec, Frame, mark_key, send, recv}
use parameter_server.System.Van.RoundTrip.{IsLossless, recv-send}
use parameter_server.Filter.KeyCaching.{
  Cache, CacheKey, cache_key_eq, cache_key, same_cache_key, signature, decode, encode, encode_found,
  encode_keys, find, with_signature, drop_done,
}
use parameter_server.Filter.KeyCaching.RoundTrip.{decode-encode}

abbrev cached_push : Message ℕ
cached_push =
    let msg = data_message (range 0 100) (2 ∷ 5 ∷ []) ((7 ∷ 9 ∷ []) ∷ []) push_call in
    record msg {
      task = record msg.task {
        filter =
            record { type = FilterType.key_caching; clear_cache_if_done = false; signature = none }
            ∷ [];
      };
    }

-- A checksum and the caches after the same keys were sent once.
abbrev checksum : List ℕ → ℕ
checksum keys = length keys

abbrev caches : Cache
caches = (record { channel = pos 0; range = range 0 100 }, (2, 2 ∷ 5 ∷ [])) ∷ []

only_entry :
    (keys : List ℕ)
    → lookup (cache_key cached_push) caches ≡ some (signature checksum (2 ∷ 5 ∷ []), keys)
    → length keys ≡ 2
    → keys ≡ 2 ∷ 5 ∷ []
unfolding lookup cache_key same_cache_key Range.eqb of_task
only_entry keys h n = cc

decode-encode_example :
    (r' : Cache) × (out : Message ℕ) × (decode checksum caches
        (encode checksum caches cached_push).1
      ≡ some (r', out))
    × (out.key ≡ 2 ∷ 5 ∷ [])
    × (out.value ≡ (7 ∷ 9 ∷ []) ∷ [])
    × ((k : CacheKey) → lookup k (encode checksum caches cached_push).0 ≡ lookup k r')
unfolding of_task
decode-encode_example = decode-encode checksum caches caches cached_push (λ k. refl) only_entry

-- The message travels without its keys.
sent_without_keys : (encode checksum caches cached_push).1.key ≡ []
unfolding encode encode_found encode_keys find lookup cache_key same_cache_key Range.eqb of_task
    clear_key has_key signature with_signature drop_done
sent_without_keys = refl

-- Bytes that keep what they were made of.
pub data Wire : Type 0 where
  of_string : String → Wire
  of_keys : List ℕ → Wire
  of_values : List ℕ → Wire
  of_message : Task → Wire

abbrev wires : Codec ℕ
wires = record {
  Bytes = Wire;
  size = λ b. 8;
  of_id = of_string;
  to_id = λ b. elim b [ of_string s ↦ s | _ ↦ "" ];
  of_keys = of_keys;
  to_keys = λ b. elim b [ of_keys ks ↦ ks | _ ↦ [] ];
  of_values = of_values;
  to_values = λ b. elim b [ of_values vs ↦ vs | _ ↦ [] ];
  serialize = λ t. some (of_message t);
  parse = λ b. elim b [ of_message t ↦ some t | _ ↦ none ];
  port_text = λ n. "9";
}

wires-IsLossless : IsLossless wires
wires-IsLossless = record {
  id = λ s. refl;
  keys = λ ks. refl;
  values = λ vs. refl;
  task = λ t b e. parsed t b e;
}
  where
    parsed : (t : Task) (b : Wire) → some (of_message t) ≡ some b → wires.parse b ≡ some t
    parsed t b e = ap (λ o. o >>= wires.parse) (sym e)

abbrev van : Role → String → Van
van role id = record {
  my_node = record { role = role; id = some id; hostname = some "h"; port = some 9 };
  scheduler = record { role = Role.scheduler; id = some "H"; hostname = some "h"; port = some 9 };
  senders = ("S0", "tcp://h:9") ∷ [];
  hostnames = ("S0", "h") ∷ [];
  sent_to_local = 0;
  sent_to_others = 0;
  received_from_local = 0;
  received_from_others = 0;
  fd_to_nodeid = [];
}

abbrev to_server : Message ℕ
to_server = record cached_push { recver = "S0" }

recv-send_example :
    (from' to' : Van) × (out : Message ℕ) × (frames : List (Frame wires)) × (sent : ℕ) × (send wires
        (λ i. true)
        to_server
        (van Role.worker "W0")
      ≡ some (from', mark_key wires to_server, frames, some sent))
    × (recv wires (some (3, 4)) ((of_string "W0", true) ∷ frames) cached_push (van Role.server "S0")
        ≡ some (to', out, 8 + sent))
    × (out.key ≡ 2 ∷ 5 ∷ [])
    × (out.value ≡ (7 ∷ 9 ∷ []) ∷ [])
    × (out.task ≡ (mark_key wires to_server).task)
    × (out.sender ≡ "W0")
    × (out.recver ≡ "S0")
unfolding of_task lookup
recv-send_example =
    recv-send wires wires-IsLossless 3 "W0" "tcp://h:9" to_server cached_push (van Role.worker "W0")
      (van Role.server "S0") (of_message (mark_key wires to_server).task) refl refl (omega arith)

abbrev control_request : String → Message ℕ
control_request text =
    record (of_task
      (record empty_task { request = true; customer_id = some (pos 1); msg = some text })) {
        recver = "S0";
      }

abbrev to_s0 : PackKey
to_s0 = record { recver = "S0"; customer_id = pos 1 }

control_request-IsPackable : (text : String) → IsPackable to_s0 (control_request text)
unfolding of_task has_data has_key
control_request-IsPackable text = record {
  to = refl;
  customer = refl;
  is_request = refl;
  no_data = refl;
}

abbrev empty_office : Postoffice ℕ
empty_office = record { sending_queue = []; pack_ = [] }

unpack_loop-queue_group_example :
    (p' : Postoffice ℕ) × (tasks : List Task) × (queue_group
        (control_request "a" ∷ [])
        (control_request "b")
        empty_office
      ≡ some p')
    × (waiting_or (lookup to_s0 p'.pack_) ≡ [])
    × (p'.sending_queue ≡ packed "S0" tasks ∷ [])
    × (outs : List (Message ℕ)) × (unpack_loop collect "H" "S0" tasks [] ≡ some (outs, true))
    × AreUnpacked "H" "S0" (control_request "a" ∷ control_request "b" ∷ []) outs
unfolding of_task lookup
unpack_loop-queue_group_example =
    unpack_loop-queue_group "H" to_s0 (control_request "a" ∷ []) (control_request "b") empty_office
      (control_request-IsPackable "a", tt) (control_request-IsPackable "b") refl
