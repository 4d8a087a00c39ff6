-- ===== src/Util/ParallelSort/Order.antt =====
-- About the order and the entries of the array that ParallelSort of src/util/parallel_sort.h leaves.
use parameter_server.Base.{
  ℕ, zero, suc, ◌+◌, ◌*◌, ◌/◌, ◌≤◌, ◌<◌, ◌≡◌, refl, sym, ap, ◌∙◌, max, Bool, some, List, [], ◌∷◌,
  ◌++◌, length, take, drop, leb, lt→ltb, arith, if◌then◌else◌, length-take, length-drop,
  take-append-drop, Bool-cases, inl, inr,
}
use parameter_server.Util.ParallelSort.{StdSort, sort_range, parallel_sort}

module _ {A : Type 0} where
  -- Each entry's key is at least b and at least the key before it.
  abbrev pub AtLeast : (A → ℕ) → ℕ → List A → Type 0
  AtLeast key b [] = Unit {0}
  AtLeast key b (x ∷ xs) = (b ≤ key x) × AtLeast key (key x) xs

  abbrev pub IsOrdered : (A → ℕ) → List A → Type 0
  IsOrdered key xs = AtLeast key 0 xs

  -- How many entries pass a test.
  unfoldable pub occurrences : (A → Bool) → List A → ℕ
  occurrences p [] = 0
  occurrences p (x ∷ xs) = (if p x then 1 else 0) + occurrences p xs

  occurrences-append :
      (p : A → Bool) (xs ys : List A)
      → occurrences p (xs ++ ys) ≡ occurrences p xs + occurrences p ys
  unfolding occurrences
  occurrences-append p [] ys = omega arith
  occurrences-append p (x ∷ xs) ys = omega (arith, occurrences-append p xs ys)

  occurrences-halves :
      (p : A → Bool) (n : ℕ) (xs : List A)
      → occurrences p (take n xs) + occurrences p (drop n xs) ≡ occurrences p xs
  occurrences-halves p n xs =
      sym (occurrences-append p (take n xs) (drop n xs))
      ∙ ap (occurrences p) (take-append-drop n xs)

  -- What the C++ standard says of the two functions.
  pub record IsStd (key : A → ℕ) (std : StdSort A) : Type 0 where
    pub ordered : (xs : List A) → IsOrdered key (std.sort xs)
    pub same : (p : A → Bool) (xs : List A) → occurrences p (std.sort xs) ≡ occurrences p xs
    pub merge_ordered :
        (xs ys : List A)
        → IsOrdered key xs
        → IsOrdered key ys
        → IsOrdered key (std.inplace_merge xs ys)
    pub merge_same :
        (p : A → Bool) (xs ys : List A)
        → occurrences p (std.inplace_merge xs ys) ≡ occurrences p xs + occurrences p ys

  module _ (key : A → ℕ) (std : StdSort A) (is_std : IsStd key std) where
    sort_range_lem :
        (fuel grainsize : ℕ) (xs : List A)
        → length xs < fuel
        → 0 < grainsize
        → (ys : List A) × (sort_range std fuel grainsize xs ≡ some ys)
          × IsOrdered key ys
          × ((p : A → Bool) → occurrences p ys ≡ occurrences p xs)
    unfolding sort_range
    sort_range_lem zero grainsize xs h g = ground (arith, h)
    sort_range_lem (suc fuel) grainsize xs h g = elim (Bool-cases (leb (length xs) grainsize)) [
      | inl small ↦
          (std.sort xs, rw (small, sort_range) refl, is_std.ordered xs, λ p. is_std.same p xs)
      | inr big ↦
          let n = length xs / 2 in
          let large : grainsize < length xs = ground arith in
          let (left, el, ol, sl) =
            sort_range_lem fuel grainsize (take n xs) (omega (arith, length-take n xs)) g in
          let (right, er, or, sr) =
            sort_range_lem fuel grainsize (drop n xs) (omega (arith, length-drop n xs)) g in
          (
            std.inplace_merge left right,
            rw (big, sort_range, el, er) refl,
            is_std.merge_ordered left right ol or,
            λ p.
                omega
                  (arith, is_std.merge_same p left right, sl p, sr p, occurrences-halves p n xs),
          )
    ]

    -- With at least one thread, the sort ends and returns an ordered array of the same entries, as
    -- often each: the recursion never runs out of its fuel, since it halves arrays of more than 2^14
    -- entries. This relies on what the standard says of std::sort and std::inplace_merge.
    pub parallel_sort_lem :
        (num_threads : ℕ) (xs : List A)
        → 0 < num_threads
        → (ys : List A) × (parallel_sort std num_threads xs ≡ some ys)
          × IsOrdered key ys
          × ((p : A → Bool) → occurrences p ys ≡ occurrences p xs)
    unfolding parallel_sort
    parallel_sort_lem num_threads xs h =
        let (ys, e, o, s) =
          sort_range_lem (suc (length xs)) (max (length xs / num_threads + 5) (1024 * 16)) xs
            (omega arith) (omega arith) in
        (ys, rw (lt→ltb 0 num_threads h) e, o, s)
