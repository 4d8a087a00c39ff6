-- ===== src/Util/ParallelSort.antt =====
-- ParallelSort of src/util/parallel_sort.h. std::sort and std::inplace_merge are parameters. The two
-- threads work on disjoint halves of the array, which are sorted one after the other.
pub mod Order
use parameter_server.Base.{
  ℕ, zero, suc, ◌+◌, ◌*◌, ◌/◌, max, Option, some, none, List, length, take, drop, leb, ltb, check,
  ◌>>=◌, ◌>>◌, true, false,
}

-- std::sort(first, last) and std::inplace_merge(first, middle, last), with their comparison.
pub record StdSort (A : Type 0) : Type 0 where
  pub sort : List A → List A
  pub inplace_merge : List A → List A → List A

module _ {A : Type 0} (std : StdSort A) where
  -- The recursive function; `none` stands for fuel that ran out.
  unfoldable pub sort_range : (fuel grainsize : ℕ) → List A → Option (List A)
  sort_range zero grainsize xs = none
  sort_range (suc fuel) grainsize xs = elim (leb (length xs) grainsize) [
    | true ↦ some (std.sort xs)
    | false ↦ do
      left ← sort_range fuel grainsize (take (length xs / 2) xs)
      right ← sort_range fuel grainsize (drop (length xs / 2) xs)
      some (std.inplace_merge left right)
  ]

  -- ParallelSort(arr, num_threads, cmp)
  unfoldable pub parallel_sort : ℕ → List A → Option (List A)
  unfolding sort_range
  parallel_sort num_threads xs = do
    check (ltb 0 num_threads)
    sort_range (suc (length xs)) (max (length xs / num_threads + 5) (1024 * 16)) xs
