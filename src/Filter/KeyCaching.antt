-- ===== src/Filter/KeyCaching.antt =====
-- KeyCachingFilter of src/filter/key_caching.h, and Filter::find of src/filter/filter.cc: a message
-- whose keys the receiver has already is sent without them. A CHECK that fails is `none`.
pub mod RoundTrip
use parameter_server.Base.{
  ℕ, ◌≡◌, ◌↔◌, refl, sym, ◌∙◌, ap, ap₂, Bool, true, false, ◌&&◌, ◌||◌, not, Option, some, none,
  List, [], ◌∷◌, ◌==◌, arith, length, take, check, ◌>>=◌, ◌>>◌, Assoc, Eq, lookup, insert, erase, ℤ,
  eqb_ℤ, eqb_ℤ_iff, if◌then◌else◌, ◌=?◌,
}
use parameter_server.Util.Range
use parameter_server.Util.Range.{Range}
use parameter_server.System.Message.{
  Message, Task, DataType, char, FilterConfig, FilterType, key_caching, has_key, clear_key, set_key,
  key_range_of,
}
use parameter_server.System.RemoteNode.{filter_type_eq}

-- std::pair<int, Range<Key>>
pub record CacheKey : Type 0 where
  pub channel : ℤ
  pub range : Range

same_range : (a b : Range) → a.begin ≡ b.begin → a.end ≡ b.end → a ≡ b
same_range a b h k = ap₂ (λ x y. record { begin = x; end = y }) h k

same_key : (a b : CacheKey) → a.channel ≡ b.channel → a.range ≡ b.range → a ≡ b
same_key a b h k = ap₂ (λ x y. record { channel = x; range = y }) h k

eqb-range : (a b : Range) → Range.eqb a b ≡ true → a ≡ b
unfolding Range.eqb
eqb-range a b h = same_range a b (ground arith) (ground arith)

eqb_range_refl : (a : Range) → Range.eqb a a ≡ true
unfolding Range.eqb
eqb_range_refl a = ground arith

unfoldable pub same_cache_key : CacheKey → CacheKey → Bool
unfolding Range.eqb
same_cache_key a b = eqb_ℤ a.channel b.channel && Range.eqb a.range b.range

same_cache_key_sound : (a b : CacheKey) → same_cache_key a b ≡ true → a ≡ b
unfolding same_cache_key
same_cache_key_sound a b h =
    same_key a b ((eqb_ℤ_iff a.channel b.channel).0 (ground arith))
      (eqb-range a.range b.range (ground arith))

same_cache_key_refl : (a : CacheKey) → same_cache_key a a ≡ true
unfolding same_cache_key
same_cache_key_refl a = ap₂ ◌&&◌ ((eqb_ℤ_iff a.channel a.channel).1 refl) (eqb_range_refl a.range)

pub same_cache_key_iff : (a b : CacheKey) → (same_cache_key a b ≡ true) ↔ (a ≡ b)
same_cache_key_iff a b =
    (same_cache_key_sound a b, λ e. ap (same_cache_key a) (sym e) ∙ same_cache_key_refl a)

instance abbrev pub cache_key_eq : Eq CacheKey
cache_key_eq = record { beq = same_cache_key; beq_iff = same_cache_key_iff }

-- cache_: the signature and the keys that were sent or received last.
abbrev pub Cache : Type 0
Cache = Assoc CacheKey (ℕ × List ℕ)

-- cache_[cache_k]: a missing entry is made.
abbrev pub entry_or : Option (ℕ × List ℕ) → ℕ × List ℕ
entry_or none = (0, [])
entry_or (some entry) = entry

-- Filter::find(type, task): the first configuration of the type.
unfoldable pub find : FilterType → List FilterConfig → Option FilterConfig
find type [] = none
find type (conf ∷ confs) = if conf.type =? type then some conf else find type confs

-- The write through the pointer that find returns.
unfoldable pub set_signature : FilterType → Option ℕ → List FilterConfig → List FilterConfig
set_signature type sig [] = []
set_signature type sig (conf ∷ confs) =
    if conf.type =? type
    then record conf { signature = sig } ∷ confs
    else conf ∷ set_signature type sig confs

-- isDone(task)
unfoldable pub is_done : Task → Bool
is_done t = not t.request || elim t.param [ none ↦ false | some call ↦ call.push ]

-- The last statement of encode and decode.
unfoldable pub drop_done : FilterConfig → Task → CacheKey → Cache → Cache
unfolding is_done
drop_done conf t key cache =
    if conf.clear_cache_if_done && is_done t then erase key cache else cache

-- crc32c::Value is a parameter; it reads the first 2048 bytes, which are 256 keys.
unfoldable pub signature : (List ℕ → ℕ) → List ℕ → ℕ
signature crc keys = crc (take 256 keys)

module _ {V : Type 0} where
  unfoldable pub cache_key : Message V → CacheKey
  cache_key msg = record { channel = msg.task.key_channel; range = key_range_of msg.task }

  unfoldable pub with_signature : Option ℕ → Message V → Message V
  unfolding set_signature
  with_signature sig msg = record msg {
    task = record msg.task { filter = set_signature key_caching sig msg.task.filter };
  }

  module _ (crc : List ℕ → ℕ) where
    -- The part of encode for a message with keys, at the cache's entry.
    unfoldable pub encode_keys : FilterConfig → ℕ × List ℕ → Cache → Message V → Cache × Message V
    unfolding signature drop_done cache_key with_signature
    encode_keys conf entry cache msg =
        let sig = signature crc msg.key in
        let key = cache_key msg in
        let sent = with_signature (some sig) msg in
        let hit = (entry.0 == sig) && (length entry.1 == length msg.key) in
        (
          drop_done conf msg.task key (insert key (if hit then entry else (sig, msg.key)) cache),
          if hit then clear_key sent else sent,
        )

    unfoldable pub encode_found : Option FilterConfig → Cache → Message V → Cache × Message V
    unfolding encode_keys with_signature cache_key
    encode_found none cache msg = (cache, msg)
    encode_found (some conf) cache msg =
        if has_key msg
        then encode_keys conf (entry_or (lookup (cache_key msg) cache)) cache msg
        else (cache, with_signature none msg)

    -- encode(msg)
    unfoldable pub encode : Cache → Message V → Cache × Message V
    unfolding encode_found find
    encode cache msg = encode_found (find key_caching msg.task.filter) cache msg

    -- The part of decode for a message with a signature, at the cache's entry. The keys from the
    -- cache are an array of bytes, so that the key type is then `char`.
    unfoldable pub decode_keys :
        FilterConfig → ℕ → ℕ × List ℕ → Cache → Message V → Option (Cache × Message V)
    unfolding signature drop_done cache_key
    decode_keys conf sig entry cache msg =
        let key = cache_key msg in
        if has_key msg
        then (do
          check (signature crc msg.key == sig)
          some (drop_done conf msg.task key (insert key (sig, msg.key) cache), msg))
        else (do
          check (sig == entry.0)
          some (drop_done conf msg.task key (insert key entry cache), set_key char entry.1 msg))

    unfoldable pub decode_found :
        Option FilterConfig → Cache → Message V → Option (Cache × Message V)
    unfolding decode_keys cache_key
    decode_found none cache msg = some (cache, msg)
    decode_found (some conf) cache msg = elim conf.signature [
      | none ↦ some (cache, msg)
      | some sig ↦ decode_keys conf sig (entry_or (lookup (cache_key msg) cache)) cache msg
    ]

    -- decode(msg)
    unfoldable pub decode : Cache → Message V → Option (Cache × Message V)
    unfolding decode_found find
    decode cache msg = decode_found (find key_caching msg.task.filter) cache msg
