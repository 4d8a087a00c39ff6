-- ===== src/Filter/KeyCaching/RoundTrip.antt =====
-- About the keys that come out of the key caching filter of src/filter/key_caching.h.
use parameter_server.Base.{
  ℕ, ◌<◌, ◌≡◌, refl, sym, ap, ◌∙◌, Bool, true, false, ◌&&◌, Option, some, none, List, [], ◌∷◌, ◌==◌,
  arith, length, lookup, insert, erase, lookup-insert, lookup-erase, if◌then◌else◌, if_of_true,
  if_of_false, ◌=?◌, Bool-cases, inl, inr, ==_iff,
}
use parameter_server.System.Message.{
  Message, char, FilterConfig, FilterType, key_caching, has_key, clear_key, set_key, Task,
}
use parameter_server.System.RemoteNode.{filter_type_eq}
use parameter_server.Filter.KeyCaching.{
  Cache, CacheKey, cache_key_eq, entry_or, find, set_signature, drop_done, is_done, cache_key,
  with_signature, signature, encode_keys, encode_found, encode, decode_keys, decode_found, decode,
}

signed : Option ℕ → Option FilterConfig → Option FilterConfig
signed sig none = none
signed sig (some conf) = some (record conf { signature = sig })

find-set_signature :
    (type : FilterType) (sig : Option ℕ) (confs : List FilterConfig)
    → find type (set_signature type sig confs) ≡ signed sig (find type confs)
unfolding find set_signature signed
find-set_signature type sig [] = refl
find-set_signature type sig (conf ∷ confs) = elim (Bool-cases (conf.type =? type)) [
  | inl e ↦ rw e (rw e refl)
  | inr e ↦ rw e (rw e (find-set_signature type sig confs))
]

-- Two caches that find the same for every key.
abbrev pub Agree : Cache → Cache → Type 0
Agree s r = (k : CacheKey) → lookup k s ≡ lookup k r

Agree-insert :
    (s r : Cache) (key : CacheKey) (entry : ℕ × List ℕ)
    → Agree s r
    → Agree (insert key entry s) (insert key entry r)
Agree-insert s r key entry a k =
    lookup-insert key k entry s
    ∙ ap (λ o. if key =? k then some entry else o) (a k)
    ∙ sym (lookup-insert key k entry r)

Agree-erase : (s r : Cache) (key : CacheKey) → Agree s r → Agree (erase key s) (erase key r)
Agree-erase s r key a k =
    lookup-erase key k s ∙ ap (λ o. if key =? k then none else o) (a k) ∙ sym (lookup-erase key k r)

Agree-drop_done :
    (conf : FilterConfig) (t : Task) (key : CacheKey) (s r : Cache)
    → Agree s r
    → Agree (drop_done conf t key s) (drop_done conf t key r)
unfolding drop_done
Agree-drop_done conf t key s r a = go (conf.clear_cache_if_done && is_done t)
  where
    go : (b : Bool) → Agree (if b then erase key s else s) (if b then erase key r else r)
    go true = Agree-erase s r key a
    go false = a

-- A hit is an entry that was found: the default entry has no keys.
hit_lem :
    (sig : ℕ) (key : List ℕ) (o : Option (ℕ × List ℕ))
    → 0 < length key
    → ((keys : List ℕ) → o ≡ some (sig, keys) → length keys ≡ length key → keys ≡ key)
    → (((entry_or o).0 == sig) && (length (entry_or o).1 == length key)) ≡ true
    → (o ≡ some (entry_or o)) × ((entry_or o).0 ≡ sig) × ((entry_or o).1 ≡ key)
hit_lem sig key none p unique h = ground (arith, h)
hit_lem sig key (some (sig', keys)) p unique h =
    let same : sig' ≡ sig = ground arith in
    (refl, same, unique keys (ap (λ n. some (n, keys)) same) (ground arith))

module _ {V : Type 0} (crc : List ℕ → ℕ) where
  -- What the receiver makes of a message that carries a signature.
  decode-signed :
      (conf : FilterConfig) (sig : ℕ) (r : Cache) (msg : Message V)
      → find key_caching msg.task.filter ≡ some (record conf { signature = some sig })
      → decode crc r msg
        ≡ decode_keys crc
            (record conf { signature = some sig })
            sig
            (entry_or (lookup (cache_key msg) r))
            r
            msg
  unfolding decode decode_found
  decode-signed conf sig r msg e = ap (λ c. decode_found crc c r msg) e

  decode_found-none : (r : Cache) (msg : Message V) → decode_found crc none r msg ≡ some (r, msg)
  unfolding decode_found
  decode_found-none r msg = refl

  find-with_signature :
      (sig : Option ℕ) (msg : Message V) (conf : FilterConfig)
      → find key_caching msg.task.filter ≡ some conf
      → find key_caching (with_signature sig msg).task.filter
        ≡ some (record conf { signature = sig })
  unfolding with_signature signed
  find-with_signature sig msg conf e =
      find-set_signature key_caching sig msg.task.filter ∙ ap (signed sig) e

  -- What the receiver gets of `msg` when `wire` arrives.
  abbrev Delivery : Cache → Cache → Message V → Message V → Type 0
  Delivery s' r msg wire =
      (r' : Cache) × (out : Message V) × (decode crc r wire ≡ some (r', out))
      × (out.key ≡ msg.key)
      × (out.value ≡ msg.value)
      × Agree s' r'

  decode_keys-kept :
      (conf : FilterConfig) (sig : ℕ) (entry : ℕ × List ℕ) (r : Cache) (wire : Message V)
      → has_key wire ≡ true
      → signature crc wire.key ≡ sig
      → decode_keys crc conf sig entry r wire
        ≡ some (
          drop_done conf wire.task (cache_key wire) (insert (cache_key wire) (sig, wire.key) r),
          wire,
        )
  unfolding decode_keys
  decode_keys-kept conf sig entry r wire h e =
      if_of_true _ h ∙ rw ((==_iff (signature crc wire.key) sig).1 e) refl

  decode_keys-restored :
      (conf : FilterConfig) (sig : ℕ) (entry : ℕ × List ℕ) (r : Cache) (wire : Message V)
      → has_key wire ≡ false
      → sig ≡ entry.0
      → decode_keys crc conf sig entry r wire
        ≡ some (
          drop_done conf wire.task (cache_key wire) (insert (cache_key wire) entry r),
          set_key char entry.1 wire,
        )
  unfolding decode_keys
  decode_keys-restored conf sig entry r wire h e =
      if_of_false _ h ∙ rw ((==_iff sig entry.0).1 e) refl

  arrives_miss :
      (conf : FilterConfig) (s r : Cache) (msg : Message V)
      → find key_caching msg.task.filter ≡ some conf
      → has_key msg ≡ true
      → Agree s r
      → Delivery
          (drop_done conf msg.task
            (cache_key msg)
            (insert (cache_key msg) (signature crc msg.key, msg.key) s))
          r
          msg
          (with_signature (some (signature crc msg.key)) msg)
  unfolding with_signature drop_done is_done cache_key has_key
  arrives_miss conf s r msg e h a =
      let sig = signature crc msg.key in
      let wire = with_signature (some sig) msg in
      (
        drop_done conf msg.task (cache_key msg) (insert (cache_key msg) (sig, msg.key) r),
        wire,
        decode-signed conf sig r wire (find-with_signature (some sig) msg conf e)
            ∙ decode_keys-kept (record conf { signature = some sig }) sig
                (entry_or (lookup (cache_key wire) r)) r wire h refl,
        refl,
        refl,
        Agree-drop_done conf msg.task (cache_key msg) _ _ (Agree-insert s r (cache_key msg) _ a),
      )

  arrives_hit :
      (conf : FilterConfig) (s r : Cache) (msg : Message V) (sig : ℕ) (entry : ℕ × List ℕ)
      → find key_caching msg.task.filter ≡ some conf
      → lookup (cache_key msg) r ≡ some entry
      → entry.0 ≡ sig
      → entry.1 ≡ msg.key
      → Agree s r
      → Delivery
          (drop_done conf msg.task (cache_key msg) (insert (cache_key msg) entry s))
          r
          msg
          (clear_key (with_signature (some sig) msg))
  unfolding with_signature clear_key set_key drop_done is_done cache_key has_key
  arrives_hit conf s r msg sig entry e found same keys a =
      let wire = clear_key (with_signature (some sig) msg) in
      (
        drop_done conf msg.task (cache_key msg) (insert (cache_key msg) entry r),
        set_key char entry.1 wire,
        decode-signed conf sig r wire (find-with_signature (some sig) msg conf e)
            ∙ ap
                (λ o.
                  decode_keys crc (record conf { signature = some sig }) sig (entry_or o) r wire)
                found
            ∙ decode_keys-restored (record conf { signature = some sig }) sig entry r wire refl
                (sym same),
        keys,
        refl,
        Agree-drop_done conf msg.task (cache_key msg) _ _ (Agree-insert s r (cache_key msg) _ a),
      )

  choose :
      (b : Bool) (conf : FilterConfig) (s r : Cache) (msg : Message V) (entry : ℕ × List ℕ)
      → find key_caching msg.task.filter ≡ some conf
      → has_key msg ≡ true
      → (b ≡ true
          → (lookup (cache_key msg) r ≡ some entry)
            × (entry.0 ≡ signature crc msg.key)
            × (entry.1 ≡ msg.key))
      → Agree s r
      → Delivery
          (drop_done conf msg.task
            (cache_key msg)
            (insert (cache_key msg) (if b then entry else (signature crc msg.key, msg.key)) s))
          r
          msg
          (if b
            then clear_key (with_signature (some (signature crc msg.key)) msg)
            else with_signature (some (signature crc msg.key)) msg)
  choose true conf s r msg entry e h hit a =
      let (found, same, keys) = hit refl in
      arrives_hit conf s r msg (signature crc msg.key) entry e found same keys a
  choose false conf s r msg entry e h hit a = arrives_miss conf s r msg e h a

  length-has_key : (msg : Message V) → has_key msg ≡ true → 0 < length msg.key
  unfolding has_key
  length-has_key msg h = go msg.key h
    where
      go :
          (keys : List ℕ)
          → elim keys as (λ x. Bool) [ [] ↦ false | _ ↦ true ] ≡ true
          → 0 < length keys
      go [] e = cc
      go (key ∷ keys) e = omega arith

  arrives_unsigned :
      (s r : Cache) (msg : Message V) (conf : FilterConfig)
      → find key_caching msg.task.filter ≡ some conf
      → Agree s r
      → Delivery s r msg (with_signature none msg)
  unfolding with_signature decode decode_found
  arrives_unsigned s r msg conf e a = (
    r,
    with_signature none msg,
    ap (λ c. decode_found crc c r (with_signature none msg)) (find-with_signature none msg conf e),
    refl,
    refl,
    a,
  )

  arrives_found :
      (o : Option FilterConfig) (b : Bool) (s r : Cache) (msg : Message V)
      → find key_caching msg.task.filter ≡ o
      → has_key msg ≡ b
      → Agree s r
      → ((keys : List ℕ)
          → lookup (cache_key msg) r ≡ some (signature crc msg.key, keys)
          → length keys ≡ length msg.key
          → keys ≡ msg.key)
      → Delivery (encode_found crc o s msg).0 r msg (encode_found crc o s msg).1
  unfolding encode_found encode_keys decode
  arrives_found none b s r msg e h a unique =
      (r, msg, ap (λ c. decode_found crc c r msg) e ∙ (decode_found-none r msg), refl, refl, a)
  arrives_found (some conf) false s r msg e h a unique = rw h (arrives_unsigned s r msg conf e a)
  arrives_found (some conf) true s r msg e h a unique = rw h (
      choose _ conf s r msg (entry_or (lookup (cache_key msg) s)) e h
        (λ hit.
          let (found, same, keys) =
            hit_lem (signature crc msg.key) msg.key (lookup (cache_key msg) s)
              (length-has_key msg h) (λ keys f. unique keys (sym (a (cache_key msg)) ∙ f)) hit in
          (sym (a (cache_key msg)) ∙ found, same, keys))
        a)

  -- The key caching filter is transparent. When the caches of a sender and a receiver agree, what
  -- encode makes of a message is decoded without a failed check to a message with the same keys and
  -- values, and the caches agree afterwards. The
  -- condition is that the keys cached for the message's channel and range, if they have its
  -- signature and its number of keys, are its keys: the checksum does not collide.
  pub decode-encode :
      (s r : Cache) (msg : Message V)
      → Agree s r
      → ((keys : List ℕ)
          → lookup (cache_key msg) r ≡ some (signature crc msg.key, keys)
          → length keys ≡ length msg.key
          → keys ≡ msg.key)
      → (r' : Cache) × (out : Message V) × (decode crc r (encode crc s msg).1 ≡ some (r', out))
        × (out.key ≡ msg.key)
        × (out.value ≡ msg.value)
        × ((k : CacheKey) → lookup k (encode crc s msg).0 ≡ lookup k r')
  unfolding encode encode_found
  decode-encode s r msg a unique =
      arrives_found (find key_caching msg.task.filter) (has_key msg) s r msg refl refl a unique
