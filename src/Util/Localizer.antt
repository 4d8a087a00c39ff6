-- ===== src/Util/Localizer.antt =====
-- Localizer of src/util/localizer.h: the unique indices of a sparse matrix, and its indices mapped to
-- positions in a dictionary. Indices are of 64 bits, positions of 32.
pub mod Remap
pub mod Unique
use parameter_server.Base.{
  ℕ, zero, suc, ◌+◌, ◌-◌, ◌^◌, ◌==◌, min, Bool, true, false, not, Option, some, none, List, [], ◌∷◌,
  ◌++◌, length, get_elem?, get_or, set, replicate, take, drop, leb, ltb, check, ◌>>=◌, ◌>>◌,
  if_empty, if◌then◌else◌,
}
use parameter_server.Util.SortedArray.{slice, last_or}
use parameter_server.Util.ParallelSort.{StdSort, parallel_sort}

abbrev pub u32_max : ℕ
u32_max = 2 ^ 32 - 1

-- An index and the place where it stands.
pub record Pair : Type 0 where
  pub k : ℕ
  pub i : ℕ

unfoldable pub pairs_from : ℕ → List ℕ → List Pair
pairs_from i [] = []
pairs_from i (x ∷ idx) = record { k = x; i = i } ∷ pairs_from (suc i) idx

-- The counting loop of CountUniqIndex and what stands behind it: the unique indices and their counts.
unfoldable pub count_loop : (cnt_max curr cnt : ℕ) → List Pair → List ℕ × List ℕ
count_loop cnt_max curr cnt [] = (curr ∷ [], min cnt cnt_max ∷ [])
count_loop cnt_max curr cnt (v ∷ pairs) =
    let same = count_loop cnt_max curr (cnt + 1) pairs in
    let (uniq, frq) = count_loop cnt_max v.k 1 pairs in
    if v.k == curr then same else (curr ∷ uniq, min cnt cnt_max ∷ frq)

abbrev pub count_from_first : ℕ → List Pair → List ℕ × List ℕ
count_from_first cnt_max [] = ([], [])
count_from_first cnt_max (v ∷ pairs) = count_loop cnt_max v.k 0 (v ∷ pairs)

-- CountUniqIndex(idx, uniq_idx, idx_frq), for counts up to cnt_max: pair_, and the two arrays, which
-- are left alone, `none`, where there is no index.
unfoldable pub count_uniq_index :
    StdSort Pair
    → (num_threads cnt_max : ℕ) → List ℕ
    → List Pair
    → Option (List Pair × Option (List ℕ × List ℕ))
unfolding pairs_from count_loop
count_uniq_index std num_threads cnt_max idx pair_ = if_empty idx (some (pair_, none)) (do
  check (ltb (length idx) u32_max)
  check (ltb 0 num_threads)
  sorted ← parallel_sort std num_threads (pairs_from 0 idx)
  some (sorted, some (count_from_first cnt_max sorted)))

-- The first loop of RemapIndex, with `pos` the number of the dictionary's next entry: 1 more than
-- the position of each index that the dictionary has, at its place, and the number of matches.
unfoldable pub remap_loop : (fuel pos : ℕ) → List ℕ → List Pair → List ℕ → ℕ → Option (List ℕ × ℕ)
remap_loop zero pos dict pairs remapped matched = none
remap_loop (suc fuel) pos [] pairs remapped matched = some (remapped, matched)
remap_loop (suc fuel) pos (d ∷ dict) [] remapped matched = some (remapped, matched)
remap_loop (suc fuel) pos (d ∷ dict) (p ∷ pairs) remapped matched = elim (ltb d p.k) [
  | true ↦ remap_loop fuel (suc pos) dict (p ∷ pairs) remapped matched
  | false ↦ elim (d == p.k) [
    | true ↦ remap_loop fuel pos (d ∷ dict) pairs (set remapped p.i (pos + 1)) (matched + 1)
    | false ↦ remap_loop fuel pos (d ∷ dict) pairs remapped matched
  ]
]

-- The entries of one row that are kept, and their values where the matrix has values.
unfoldable pub kept_index : List ℕ → List ℕ
kept_index [] = []
kept_index (r ∷ remapped) =
    let rest = kept_index remapped in if r == 0 then rest else ((r - 1) ∷ rest)

unfoldable pub kept_value : {V : Type 0} → List ℕ → List V → List V
kept_value (r ∷ remapped) (v ∷ value) =
    let rest = kept_value remapped value in if r == 0 then rest else (v ∷ rest)
kept_value remapped value = []

-- The loop over the rows, from the new offset `at`: the new offsets, indices and values.
unfoldable pub rows_loop : {V : Type 0} → List ℕ → ℕ → List ℕ → List V → List ℕ × List ℕ × List V
unfolding kept_index kept_value
rows_loop (a ∷ b ∷ offset) start remapped value =
    let row = slice a b remapped in
    let index = kept_index row in
    let (offsets, indices, values) = rows_loop (b ∷ offset) (start + length index) remapped value in
    (start ∷ offsets, index ++ indices, kept_value row (slice a b value) ++ values)
rows_loop offset start remapped value = (start ∷ [], [], [])

-- What RemapIndex puts into the new matrix; its other information is copied.
pub record Remapped (V : Type 0) : Type 0 where
  pub offset : List ℕ
  pub index : List ℕ
  pub value : List V
  -- the range of the columns, or of the rows of a matrix that is not row major
  pub local_size : ℕ

-- RemapIndex(info, offset, index, value, idx_dict) const, with `dense` from info. The first `none` is
-- a failed CHECK, the second the null pointer for an empty matrix or dictionary.
unfoldable pub remap_index :
    {V : Type 0}
    → Bool
    → List Pair
    → List ℕ
    → List ℕ
    → List V
    → List ℕ
    → Option (Option (Remapped V))
unfolding remap_loop rows_loop last_or
remap_index dense pair_ offset index value dict = if_empty index (some none) (
    if_empty dict (some none) (do
      check (not dense)
      check (ltb (length dict) u32_max)
      check (last_or 0 offset == length index)
      check (length index == length pair_)
      check (if_empty value true (length value == length index))
      (remapped, matched) ←
          remap_loop (suc (length dict + length pair_)) 0 dict pair_ (replicate (length pair_) 0) 0
      let (offsets, indices, values) = rows_loop offset 0 remapped value
      check (length indices == matched)
      some (
          some (record {
            offset = offsets;
            index = indices;
            value = values;
            local_size = length dict;
          }))))
