-- ===== src/Util/SortedArray.antt =====
-- The operations of src/util/shared_array_inl.h on sorted arrays of keys, with the algorithms of the
-- C++ library that they call. An array is the list of its entries.
pub mod Laws
pub mod Bounds
use parameter_server.Base.{
  ℕ, zero, suc, ◌+◌, ◌-◌, ◌≤◌, ◌<◌, ◌%◌, Bool, true, false, List, [], ◌∷◌, ◌++◌, Option, none, some,
  ltb, leb, check, ◌>>=◌, ◌>>◌, length, take, drop, if◌then◌else◌, ◌==◌,
}
use parameter_server.Util.Range
use parameter_server.Util.Range.{Range}

-- Strictly ascending, as the key arrays of the program are: each entry is above `b`.
abbrev pub Above : ℕ → List ℕ → Type 0
Above b [] = Unit {0}
Above b (x ∷ xs) = (b < x) × Above x xs

abbrev pub IsSorted : List ℕ → Type 0
IsSorted [] = Unit {0}
IsSorted (x ∷ xs) = Above x xs

-- std::lower_bound(begin, end, k) - begin, for a sorted array: the entries below k stand in front.
unfoldable pub lower_bound : List ℕ → ℕ → ℕ
lower_bound [] k = 0
lower_bound (x ∷ xs) k = if ltb x k then suc (lower_bound xs k) else 0

-- std::set_union
unfoldable pub set_union : List ℕ → List ℕ → List ℕ
set_union [] ys = ys
set_union (x ∷ xs) [] = x ∷ xs
set_union (x ∷ xs) (y ∷ ys) = elim (ltb x y) [
  | true ↦ x ∷ set_union xs (y ∷ ys)
  | false ↦ elim (ltb y x) [ true ↦ y ∷ set_union (x ∷ xs) ys | false ↦ x ∷ set_union xs ys ]
]

-- std::set_intersection
unfoldable pub set_intersection : List ℕ → List ℕ → List ℕ
set_intersection [] ys = []
set_intersection (x ∷ xs) [] = []
set_intersection (x ∷ xs) (y ∷ ys) = elim (ltb x y) [
  | true ↦ set_intersection xs (y ∷ ys)
  | false ↦ elim (ltb y x) [
    | true ↦ set_intersection (x ∷ xs) ys
    | false ↦ x ∷ set_intersection xs ys
  ]
]

unfoldable pub last_or : ℕ → List ℕ → ℕ
last_or d [] = d
last_or d (x ∷ xs) = last_or x xs

-- SArray::range(): from the first entry to one past the last, at 64-bit keys.
unfoldable pub key_range : List ℕ → Range
unfolding last_or
key_range [] = record { begin = 0; end = 0 }
key_range (x ∷ xs) = record { begin = x; end = (last_or x xs + 1) % Range.u64_mod }

-- SArray::FindRange(bound)
unfoldable pub find_range : List ℕ → Range → Option Range
find_range [] bound = some (record { begin = 0; end = 0 })
find_range (x ∷ xs) bound = do
  check (Range.valid bound)
  some (record { begin = lower_bound (x ∷ xs) bound.begin; end = lower_bound (x ∷ xs) bound.end })

module _ {ℓ} {A : Type ℓ} where
  -- The entries from index a up to index b.
  abbrev pub slice : ℕ → ℕ → List A → List A
  slice a b xs = take (b - a) (drop a xs)

  -- SArray::Segment(range): both CHECKs, then the entries.
  unfoldable pub segment : List A → Range → Option (List A)
  segment xs r = do
    check (Range.valid r)
    check (leb r.end (length xs))
    some (slice r.begin r.end xs)
