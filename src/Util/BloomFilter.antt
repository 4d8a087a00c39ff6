-- ===== src/Util/BloomFilter.antt =====
-- BloomFilter of src/util/bloom_filter.h. Bit b of byte i is entry 8 * i + b of the bit list.
use parameter_server.Base.{
  ℕ, zero, suc, ◌+◌, ◌*◌, ◌/◌, ◌%◌, ◌≤◌, ◌<◌, min, max, ◌≡◌, refl, Bool, true, false, ◌&&◌, List,
  [], ◌∷◌, arith, get_or, set, replicate, length, length-set, length-replicate,
}
use parameter_server.Util.Sketch.{hash, delta_of, advance}

pub record BloomFilter : Type 0 where
  pub bits : List Bool
  pub m : ℕ
  pub k : ℕ

-- resize(m, k): data_size_ = m / 8 + 1 bytes of zeros.
unfoldable pub resize : ℕ → ℕ → BloomFilter
resize m k = record { bits = replicate ((m / 8 + 1) * 8) false; m = m; k = min 64 (max 1 k) }

unfoldable pub query_loop : (m delta : ℕ) → ℕ → ℕ → List Bool → Bool
query_loop m delta zero h bits = true
query_loop m delta (suc j) h bits =
    get_or bits (h % m) false && query_loop m delta j (advance delta h) bits

-- query(key)
unfoldable pub query : ℕ → BloomFilter → Bool
unfolding query_loop
query key f = query_loop f.m (delta_of (hash key)) f.k (hash key) f.bits

unfoldable pub insert_loop : (m delta : ℕ) → ℕ → ℕ → List Bool → List Bool
insert_loop m delta zero h bits = bits
insert_loop m delta (suc j) h bits = insert_loop m delta j (advance delta h) (set bits (h % m) true)

-- insert(key)
unfoldable pub insert : ℕ → BloomFilter → BloomFilter
unfolding insert_loop
insert key f = record f { bits = insert_loop f.m (delta_of (hash key)) f.k (hash key) f.bits }

-- Every position of the filter has its bit.
abbrev pub IsSized : BloomFilter → Type 0
IsSized f = (0 < f.m) × (f.m ≤ length f.bits)

set_keeps :
    (bits : List Bool) (i p : ℕ)
    → get_or bits p false ≡ true
    → get_or (set bits i true) p false ≡ true
set_keeps [] i p h = h
set_keeps (b ∷ bits) zero zero h = refl
set_keeps (b ∷ bits) zero (suc p) h = h
set_keeps (b ∷ bits) (suc i) zero h = h
set_keeps (b ∷ bits) (suc i) (suc p) h = set_keeps bits i p h

set_sets : (bits : List Bool) (i : ℕ) → i < length bits → get_or (set bits i true) i false ≡ true
set_sets [] i h = elim h [ ]
set_sets (b ∷ bits) zero h = refl
set_sets (b ∷ bits) (suc i) h = set_sets bits i (omega arith)

insert_loop_keeps :
    (m delta j h : ℕ) (bits : List Bool) (p : ℕ)
    → get_or bits p false ≡ true
    → get_or (insert_loop m delta j h bits) p false ≡ true
unfolding insert_loop
insert_loop_keeps m delta zero h bits p t = t
insert_loop_keeps m delta (suc j) h bits p t =
    insert_loop_keeps m delta j (advance delta h) (set bits (h % m) true) p
      (set_keeps bits (h % m) p t)

query_loop_keeps :
    (m delta j h : ℕ) (m' delta' j' h' : ℕ) (bits : List Bool)
    → query_loop m delta j h bits ≡ true
    → query_loop m delta j h (insert_loop m' delta' j' h' bits) ≡ true
unfolding query_loop
query_loop_keeps m delta zero h m' delta' j' h' bits t = refl
query_loop_keeps m delta (suc j) h m' delta' j' h' bits t = ground (
  arith,
  insert_loop_keeps m' delta' j' h' bits (h % m),
  query_loop_keeps m delta j (advance delta h) m' delta' j' h' bits,
)

query_loop-insert_loop :
    (m delta j h : ℕ) (bits : List Bool)
    → 0 < m
    → m ≤ length bits
    → query_loop m delta j h (insert_loop m delta j h bits) ≡ true
unfolding query_loop insert_loop
query_loop-insert_loop m delta zero h bits pos l = refl
query_loop-insert_loop m delta (suc j) h bits pos l =
    let in_range : h % m < length bits = grind arith in
    let bits' = set bits (h % m) true in
    ground (
      arith,
      insert_loop_keeps m delta j (advance delta h) bits' (h % m) (set_sets bits (h % m) in_range),
      query_loop-insert_loop m delta j (advance delta h) bits' pos
          (omega (arith, length-set bits (h % m) true)),
    )

found_again :
    (key other : ℕ) (f : BloomFilter) → query other f ≡ true → query other (insert key f) ≡ true
unfolding query insert
found_again key other f h =
    query_loop_keeps f.m (delta_of (hash other)) f.k (hash other) f.m (delta_of (hash key)) f.k
      (hash key) f.bits h

still_found : (a b : Bool) → (a ≡ true → b ≡ true) → (a && b) ≡ a
still_found true b h = h refl
still_found false b h = refl

-- No false negatives: on a filter of a positive size with a bit for each position a key is found
-- after it was inserted, and every key that was found before an insertion is found after it.
pub query-insert_found :
    (key : ℕ) (f : BloomFilter)
    → IsSized f
    → (query key (insert key f) ≡ true)
      × ((other : ℕ) → (query other f && query other (insert key f)) ≡ query other f)
unfolding query insert
query-insert_found key f sized = (
  query_loop-insert_loop f.m (delta_of (hash key)) f.k (hash key) f.bits sized.0 sized.1,
  λ other. still_found _ _ (found_again key other f),
)

-- A new filter has room for all its positions.
pub resize-IsSized : (m k : ℕ) → 0 < m → IsSized (resize m k)
unfolding resize
resize-IsSized m k h = (h, omega (arith, length-replicate ((m / 8 + 1) * 8) false))
