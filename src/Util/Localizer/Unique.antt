-- ===== src/Util/Localizer/Unique.antt =====
-- About CountUniqIndex of src/util/localizer.h: the unique indices and how often each occurs.
use parameter_server.Base.{
  ℕ, suc, ◌+◌, ◌≤◌, ◌<◌, ◌≡◌, refl, ap, ◌∙◌, min, Bool, true, false, subst, Option, some, none,
  List, [], ◌∷◌, length, lt→ltb, arith, if◌then◌else◌, ◌==◌, Bool-cases, inl, inr,
}
use parameter_server.Util.SortedArray.{Above, IsSorted}
use parameter_server.Util.ParallelSort.{StdSort}
use parameter_server.Util.ParallelSort.Order.{
  AtLeast, IsOrdered, occurrences, IsStd, parallel_sort_lem,
}
use parameter_server.Util.Localizer.{
  Pair, u32_max, pairs_from, count_loop, count_from_first, count_uniq_index,
}

-- How often an index occurs.
unfoldable pub count : ℕ → List ℕ → ℕ
count v [] = 0
count v (x ∷ xs) = (if x == v then 1 else 0) + count v xs

-- The count that stands with an index.
unfoldable pub frequency : ℕ → List ℕ → List ℕ → Option ℕ
frequency v (x ∷ xs) (c ∷ cs) = if x == v then some c else frequency v xs cs
frequency v xs cs = none

is_key : ℕ → Pair → Bool
is_key v p = p.k == v

count-pairs_from :
    (v i : ℕ) (idx : List ℕ) → occurrences (is_key v) (pairs_from i idx) ≡ count v idx
unfolding occurrences pairs_from count is_key
count-pairs_from v i [] = refl
count-pairs_from v i (x ∷ idx) = omega (arith, count-pairs_from v (suc i) idx)

below :
    (v b : ℕ) (pairs : List Pair)
    → AtLeast (λ p. p.k) b pairs
    → v < b
    → occurrences (is_key v) pairs ≡ 0
unfolding occurrences is_key
below v b [] h lt = refl
below v b (p ∷ pairs) h lt = ground (arith, below v p.k pairs h.1)

from :
    (b : ℕ) (v : Pair) (pairs : List Pair)
    → AtLeast (λ p. p.k) v.k pairs
    → v.k ≡ b
    → AtLeast (λ p. p.k) b pairs
from b v pairs o e = subst (λ n. AtLeast (λ p. p.k) n pairs) e o

Above-count_loop :
    (cnt_max b curr cnt : ℕ) (pairs : List Pair)
    → b < curr
    → AtLeast (λ p. p.k) curr pairs
    → Above b (count_loop cnt_max curr cnt pairs).0
unfolding count_loop
Above-count_loop cnt_max b curr cnt [] h o = (h, tt)
Above-count_loop cnt_max b curr cnt (v ∷ pairs) h o = elim (Bool-cases (v.k == curr)) [
  | inl e ↦
      rw (e, count_loop)
        (Above-count_loop cnt_max b curr (cnt + 1) pairs h (from curr v pairs o.1 (ground arith)))
  | inr e ↦
      rw (e, count_loop) (h, Above-count_loop cnt_max curr v.k 1 pairs (ground (arith, o.0)) o.1)
]

-- What stands with an index v after the loop, which has seen `curr` cnt times and has `more`
-- occurrences of v before it.
abbrev expected : (cnt_max curr cnt v more : ℕ) → Option ℕ
expected cnt_max curr cnt v more =
    if curr == v
    then some (min (cnt + more) cnt_max)
    else if more == 0
    then none
    else some (min more cnt_max)

one_more :
    (cnt_max curr cnt v more k : ℕ)
    → (k == curr) ≡ true
    → expected cnt_max curr (cnt + 1) v more
      ≡ expected cnt_max curr cnt v ((if k == v then 1 else 0) + more)
one_more cnt_max curr cnt v more k e = elim (Bool-cases (curr == v)) [
  | inl f ↦
      let g : (k == v) ≡ true = ground arith in
      rw (f, g) (ap (λ n. some (min n cnt_max)) (omega arith))
  | inr f ↦
      let g : (k == v) ≡ false = ground arith in
      let z : 0 + more ≡ more = omega arith in rw (f, g, z) refl
]

next_key :
    (cnt_max curr cnt v more k : ℕ)
    → (k == curr) ≡ false
    → curr ≤ k
    → (v < k → more ≡ 0)
    → (if curr == v then some (min cnt cnt_max) else expected cnt_max k 1 v more)
      ≡ expected cnt_max curr cnt v ((if k == v then 1 else 0) + more)
next_key cnt_max curr cnt v more k e h none_below = elim (Bool-cases (curr == v)) [
  | inl f ↦
      let g : (k == v) ≡ false = ground arith in
      let z : more ≡ 0 = none_below (ground arith) in
      rw (f, g) (ap (λ n. some (min n cnt_max)) (omega (arith, z)))
  | inr f ↦ elim (Bool-cases (k == v)) [
    | inl g ↦ let z : (1 + more == 0) ≡ false = ground arith in rw (f, g, z) refl
    | inr g ↦ let z : 0 + more ≡ more = omega arith in rw (f, g, z) refl
  ]
]

frequency-count_loop :
    (cnt_max curr cnt v : ℕ) (pairs : List Pair)
    → AtLeast (λ p. p.k) curr pairs
    → frequency v (count_loop cnt_max curr cnt pairs).0 (count_loop cnt_max curr cnt pairs).1
      ≡ expected cnt_max curr cnt v (occurrences (is_key v) pairs)
unfolding count_loop frequency occurrences is_key
frequency-count_loop cnt_max curr cnt v [] o =
    ap (λ n. if curr == v then some (min n cnt_max) else none) (omega arith)
frequency-count_loop cnt_max curr cnt v (p ∷ pairs) o = elim (Bool-cases (p.k == curr)) [
  | inl e ↦
      rw (e, count_loop)
        (frequency-count_loop cnt_max curr (cnt + 1) v pairs (from curr p pairs o.1 (ground arith))
          ∙ one_more cnt_max curr cnt v (occurrences (is_key v) pairs) p.k e)
  | inr e ↦
      rw (e, count_loop)
        (ap (λ c. if curr == v then some (min cnt cnt_max) else c)
            (frequency-count_loop cnt_max p.k 1 v pairs o.1)
          ∙ next_key cnt_max curr cnt v (occurrences (is_key v) pairs) p.k e o.0
              (below v p.k pairs o.1))
]

IsSorted-count_loop :
    (cnt_max curr cnt : ℕ) (pairs : List Pair)
    → AtLeast (λ p. p.k) curr pairs
    → IsSorted (count_loop cnt_max curr cnt pairs).0
unfolding count_loop
IsSorted-count_loop cnt_max curr cnt [] o = tt
IsSorted-count_loop cnt_max curr cnt (p ∷ pairs) o = elim (Bool-cases (p.k == curr)) [
  | inl e ↦
      rw (e, count_loop)
        (IsSorted-count_loop cnt_max curr (cnt + 1) pairs (from curr p pairs o.1 (ground arith)))
  | inr e ↦ rw (e, count_loop) (Above-count_loop cnt_max curr p.k 1 pairs (ground (arith, o.0)) o.1)
]

expected_start :
    (cnt_max k v more : ℕ)
    → expected cnt_max k 0 v ((if k == v then 1 else 0) + more) ≡ (
        if (if k == v then 1 else 0) + more == 0
        then none
        else some (min ((if k == v then 1 else 0) + more) cnt_max))
expected_start cnt_max k v more = elim (Bool-cases (k == v)) [
  | inl f ↦
      let z : (1 + more == 0) ≡ false = ground arith in
      rw (f, z) (ap (λ n. some (min n cnt_max)) (omega arith))
  | inr f ↦ rw f refl
]

frequency-count_from_first :
    (cnt_max v : ℕ) (pairs : List Pair)
    → IsOrdered (λ p. p.k) pairs
    → let (uniq, frq) = count_from_first cnt_max pairs in
      frequency v uniq frq ≡ (
        if occurrences (is_key v) pairs == 0
        then none
        else some (min (occurrences (is_key v) pairs) cnt_max))
unfolding frequency occurrences is_key
frequency-count_from_first cnt_max v [] o = refl
frequency-count_from_first cnt_max v (p ∷ pairs) o =
    frequency-count_loop cnt_max p.k 0 v (p ∷ pairs) (omega arith, o.1)
    ∙ expected_start cnt_max p.k v (occurrences (is_key v) pairs)

IsSorted-count_from_first :
    (cnt_max : ℕ) (pairs : List Pair)
    → IsOrdered (λ p. p.k) pairs
    → IsSorted (count_from_first cnt_max pairs).0
IsSorted-count_from_first cnt_max [] o = tt
IsSorted-count_from_first cnt_max (p ∷ pairs) o =
    IsSorted-count_loop cnt_max p.k 0 (p ∷ pairs) (omega arith, o.1)

-- Counting the unique indices of an array that is not empty and of fewer than 2^32 - 1 entries, with
-- at least one thread, returns a strictly ascending array of indices, and with each index that
-- occurs, and no other, its number of occurrences, or cnt_max where that is less. This relies on
-- what the standard says of std::sort and std::inplace_merge.
pub count_uniq_index_lem :
    (std : StdSort Pair) (num_threads cnt_max : ℕ) (idx : List ℕ) (old : List Pair)
    → IsStd (λ p. p.k) std
    → 0 < num_threads
    → 0 < length idx
    → length idx < u32_max
    → (pairs : List Pair) × (uniq frq : List ℕ) × (count_uniq_index std num_threads cnt_max idx old
        ≡ some (pairs, some (uniq, frq)))
      × IsSorted uniq
      × ((v : ℕ)
          → frequency v uniq frq
            ≡ (if count v idx == 0 then none else some (min (count v idx) cnt_max)))
unfolding count_uniq_index
count_uniq_index_lem std num_threads cnt_max [] old is_std t p b = ground (arith, p)
count_uniq_index_lem std num_threads cnt_max (x ∷ idx) old is_std t p b =
    let (pairs, e, o, same) =
      parallel_sort_lem (λ p. p.k) std is_std num_threads (pairs_from 0 (x ∷ idx)) t in
    (
      pairs,
      (count_from_first cnt_max pairs).0,
      (count_from_first cnt_max pairs).1,
      rw (lt→ltb (length (x ∷ idx)) u32_max b, lt→ltb 0 num_threads t, e) refl,
      IsSorted-count_from_first cnt_max pairs o,
      λ v.
          frequency-count_from_first cnt_max v pairs o
          ∙ ap (λ n. if n == 0 then none else some (min n cnt_max))
              (same (is_key v) ∙ count-pairs_from v 0 (x ∷ idx)),
    )
