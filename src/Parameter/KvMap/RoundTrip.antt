-- ===== src/Parameter/KvMap/RoundTrip.antt =====
-- Pushes to and pulls from a KVMap of src/parameter/kv_map.h, with its default entry type.
use parameter_server.Base.{
  ℕ, ◌*◌, ◌≡◌, refl, sym, ap, ap₂, ◌∙◌, true, false, some, none, List, [], ◌∷◌, ◌==◌, ==_iff,
  length, drop, Assoc, lookup, insert, nat_eq, lookup-insert, arith, if◌then◌else◌, map,
}
use parameter_server.Util.SortedArray.{IsSorted}
use parameter_server.Util.SortedArray.Laws.{mem, mem_below, IsSorted-tail}
use parameter_server.System.Message.{Message, DataType, add_value}
use parameter_server.Parameter.{param_of, process_request, with_reply, no_reply}
use parameter_server.Parameter.KvMap.{
  KvMap, plain_entry, entry_at, get_loop, get_value, set_loop, set_value, methods,
}

map-ext :
    {V : Type 0} (f g : ℕ → V) (keys : List ℕ) → ((j : ℕ) → f j ≡ g j) → map f keys ≡ map g keys
map-ext f g [] h = refl
map-ext f g (key ∷ keys) h = ap₂ ◌∷◌ (h key) (map-ext f g keys h)

module _ {V : Type 0} (zero_value : V) where
  -- What a pull of a key alone would return.
  pub read : Assoc ℕ V → ℕ → V
  read d key = entry_at (plain_entry V zero_value) key d

  read-insert :
      (k j : ℕ) (v : V) (d : Assoc ℕ V) → read (insert k v d) j ≡ (if k == j then v else read d j)
  unfolding read entry_at
  read-insert k j v d = ground (arith, lookup-insert k j v d)

  read-insert_other :
      (k j : ℕ) (v : V) (d : Assoc ℕ V) → (k == j) ≡ false → read (insert k v d) j ≡ read d j
  read-insert_other k j v d h = ground (arith, read-insert k j v d)

  read-insert_self : (k : ℕ) (v : V) (d : Assoc ℕ V) → read (insert k v d) k ≡ v
  read-insert_self k v d = ground (arith, read-insert k k v d)

  -- data_[key] = data_[key] changes nothing that can be read.
  read-insert_same : (k : ℕ) (d : Assoc ℕ V) (j : ℕ) → read (insert k (read d k) d) j ≡ read d j
  read-insert_same k d j = ground (arith, read-insert k j (read d k) d, ==_iff k j, same)
    where
      same : k ≡ j → read d k ≡ read d j
      same e = ap (read d) e

  read-set_loop_other :
      (j : ℕ) (keys : List ℕ) (vals : List V) (d : Assoc ℕ V)
      → mem j keys ≡ false
      → read (set_loop (plain_entry V zero_value) 1 keys vals tt d).1 j ≡ read d j
  unfolding set_loop mem
  read-set_loop_other j [] vals d h = refl
  read-set_loop_other j (key ∷ keys) vals d h =
      read-set_loop_other j keys (drop 1 vals) _ (ground arith)
      ∙ read-insert_other key j _ d (ground arith)

  map-read-set_loop :
      (keys : List ℕ) (vals : List V) (d : Assoc ℕ V)
      → IsSorted keys
      → length keys ≡ length vals
      → map (read (set_loop (plain_entry V zero_value) 1 keys vals tt d).1) keys ≡ vals
  unfolding set_loop
  map-read-set_loop [] [] d h n = refl
  map-read-set_loop [] (v ∷ vals) d h n = ground (arith, n)
  map-read-set_loop (key ∷ keys) [] d h n = ground (arith, n)
  map-read-set_loop (key ∷ keys) (v ∷ vals) d h n =
      ap₂ ◌∷◌
        (read-set_loop_other key keys vals (insert key v d) (mem_below key key keys h (omega arith))
          ∙ read-insert_self key v d)
        (map-read-set_loop keys vals (insert key v d) (IsSorted-tail key keys h) (omega (arith, n)))

  get_loop-eq-map-read :
      (blank : V) (keys : List ℕ) (d : Assoc ℕ V)
      → (get_loop (plain_entry V zero_value) blank 1 keys tt d).0 ≡ map (read d) keys
  unfolding get_loop lookup read
  get_loop-eq-map-read blank [] d = refl
  get_loop-eq-map-read blank (key ∷ keys) d =
      ap (λ vals. read d key ∷ vals)
        (get_loop-eq-map-read blank keys (insert key (read d key) d)
          ∙ map-ext _ _ keys (read-insert_same key d))

  pushed : KvMap (plain_entry V zero_value) → Message V → List V → KvMap (plain_entry V zero_value)
  pushed m push vals = record m {
    data_ = (set_loop (plain_entry V zero_value) 1 push.key vals tt m.data_).1;
  }

  set_value-pushed :
      (m : KvMap (plain_entry V zero_value)) (push : Message V) (vals : List V)
      → m.k ≡ 1
      → push.value ≡ vals ∷ []
      → length push.key ≡ length vals
      → set_value (plain_entry V zero_value) m push ≡ some (pushed m push vals)
  unfolding set_value pushed
  set_value-pushed m push vals one s n =
      rw (s, one, (==_iff (length push.key * 1) (length vals)).1 (omega (arith, n))) refl

  get_value-read :
      (ty : DataType) (blank : V) (m : KvMap (plain_entry V zero_value)) (pull : Message V)
      → m.k ≡ 1
      → (m' : KvMap (plain_entry V zero_value)) × (get_value
            (plain_entry V zero_value)
            ty
            blank
            m
            pull
          ≡ some (m', add_value ty (map (read m.data_) pull.key) pull))
  unfolding get_value
  get_value-read ty blank m pull one = (
    record m { data_ = (get_loop (plain_entry V zero_value) blank 1 pull.key tt m.data_).2 },
    rw (one, sym (get_loop-eq-map-read blank pull.key m.data_)) refl,
  )

  -- Pushing and pulling through Parameter.ProcessRequest: with sorted keys and one value for each, a
  -- push is taken with no response, and a pull of the same keys that comes next is answered, by a
  -- copy of the request to which exactly the pushed values are added; no key outside the push has
  -- changed its value.
  pub process_request_round_trip :
      (ty : DataType) (blank : V) (m : KvMap (plain_entry V zero_value)) (push pull : Message V)
      (vals : List V)
      → m.k ≡ 1
      → (param_of push.task).push ≡ true
      → (param_of push.task).replica ≡ false
      → (param_of pull.task).push ≡ false
      → (param_of pull.task).replica ≡ false
      → push.value ≡ vals ∷ []
      → IsSorted push.key
      → length push.key ≡ length vals
      → pull.key ≡ push.key
      → (m' m'' : KvMap (plain_entry V zero_value)) × (process_request
            (methods (plain_entry V zero_value) ty blank)
            m
            push
          ≡ some (m', none))
        × (process_request (methods (plain_entry V zero_value) ty blank) m' pull
            ≡ some (m'', some (add_value ty vals pull)))
        × ((j : ℕ) → mem j push.key ≡ false → read m'.data_ j ≡ read m.data_ j)
  unfolding process_request with_reply no_reply pushed
  process_request_round_trip ty blank m push pull vals one p r p' r' s v n same =
      let m' : KvMap (plain_entry V zero_value) = pushed m push vals in
      let (m'', e) = get_value-read ty blank m' pull one in
      (
        m',
        m'',
        rw (r, p, set_value-pushed m push vals one s n) refl,
        rw (r', p')
            (ap with_reply (
              e
              ∙ ap (λ vs. some (m'', add_value ty vs pull))
                  (ap (map (read m'.data_)) same ∙ map-read-set_loop push.key vals m.data_ v n))),
        λ j h. read-set_loop_other j push.key vals m.data_ h,
      )
