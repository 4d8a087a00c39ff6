-- ===== src/Tests/Indices.antt =====
-- Indices that are sorted, counted and mapped, with insertion sort for the standard's functions.
use parameter_server.Base.{
  ℕ, ◌+◌, ◌≤◌, ◌≡◌, refl, ◌∙◌, Bool, false, List, [], ◌∷◌, some, leb, arith, min, none, ◌==◌,
  if◌then◌else◌, Bool-cases, inl, inr,
}
use parameter_server.Util.SortedArray.{IsSorted}
use parameter_server.Util.ParallelSort.{StdSort, parallel_sort}
use parameter_server.Util.ParallelSort.Order.{
  AtLeast, IsOrdered, occurrences, IsStd, parallel_sort_lem,
}
use parameter_server.Util.Localizer.{Pair, count_uniq_index, remap_loop, remap_index}
use parameter_server.Util.Localizer.Unique.{count, frequency, count_uniq_index_lem}
use parameter_server.Util.Localizer.Remap.{look_up_all, remap_loop-look_up_all}

abbrev pair_key : Pair → ℕ
pair_key p = p.k

unfoldable insert : Pair → List Pair → List Pair
insert p [] = p ∷ []
insert p (x ∷ xs) = let rest = insert p xs in if leb p.k x.k then p ∷ (x ∷ xs) else (x ∷ rest)

unfoldable insert_all : List Pair → List Pair → List Pair
unfolding insert
insert_all [] ys = ys
insert_all (x ∷ xs) ys = insert x (insert_all xs ys)

AtLeast-insert :
    (b : ℕ) (p : Pair) (xs : List Pair)
    → b ≤ p.k
    → AtLeast pair_key b xs
    → AtLeast pair_key b (insert p xs)
unfolding insert
AtLeast-insert b p [] h o = (h, tt)
AtLeast-insert b p (x ∷ xs) h o = elim (Bool-cases (leb p.k x.k)) [
  | inl e ↦ rw (e, insert) (h, (ground arith, o.1))
  | inr e ↦ rw (e, insert) (o.0, AtLeast-insert x.k p xs (ground arith) o.1)
]

IsOrdered-insert_all :
    (xs ys : List Pair) → IsOrdered pair_key ys → IsOrdered pair_key (insert_all xs ys)
unfolding insert_all
IsOrdered-insert_all [] ys o = o
IsOrdered-insert_all (x ∷ xs) ys o =
    AtLeast-insert 0 x (insert_all xs ys) (omega arith) (IsOrdered-insert_all xs ys o)

occurrences-insert :
    (t : Pair → Bool) (p : Pair) (xs : List Pair)
    → occurrences t (insert p xs) ≡ (if t p then 1 else 0) + occurrences t xs
unfolding insert occurrences
occurrences-insert t p [] = refl
occurrences-insert t p (x ∷ xs) = elim (Bool-cases (leb p.k x.k)) [
  | inl e ↦ rw (e, insert) refl
  | inr e ↦ rw (e, insert) (omega (arith, occurrences-insert t p xs))
]

occurrences-insert_all :
    (t : Pair → Bool) (xs ys : List Pair)
    → occurrences t (insert_all xs ys) ≡ occurrences t xs + occurrences t ys
unfolding insert_all occurrences
occurrences-insert_all t [] ys = omega arith
occurrences-insert_all t (x ∷ xs) ys =
    occurrences-insert t x (insert_all xs ys) ∙ omega (arith, occurrences-insert_all t xs ys)

abbrev insertion : StdSort Pair
insertion = record { sort = λ xs. insert_all xs []; inplace_merge = insert_all }

insertion-IsStd : IsStd pair_key insertion
unfolding occurrences
insertion-IsStd = record {
  ordered = λ xs. IsOrdered-insert_all xs [] tt;
  same = λ t xs. occurrences-insert_all t xs [] ∙ omega arith;
  merge_ordered = λ xs ys ox oy. IsOrdered-insert_all xs ys oy;
  merge_same = occurrences-insert_all;
}

abbrev three_pairs : List Pair
three_pairs = record { k = 7; i = 0 } ∷ record { k = 3; i = 1 } ∷ record { k = 7; i = 2 } ∷ []

abbrev sorted_pairs : List Pair
sorted_pairs = record { k = 3; i = 1 } ∷ record { k = 7; i = 0 } ∷ record { k = 7; i = 2 } ∷ []

parallel_sort_lem_example :
    (ys : List Pair) × (parallel_sort insertion 2 three_pairs ≡ some ys)
    × IsOrdered pair_key ys
    × ((p : Pair → Bool) → occurrences p ys ≡ occurrences p three_pairs)
parallel_sort_lem_example =
    parallel_sort_lem pair_key insertion insertion-IsStd 2 three_pairs (omega arith)

count_uniq_index_example :
    count_uniq_index insertion 2 255 (7 ∷ 3 ∷ 7 ∷ []) []
    ≡ some (sorted_pairs, some (3 ∷ 7 ∷ [], 1 ∷ 2 ∷ []))
unfolding count_uniq_index parallel_sort insert_all
count_uniq_index_example = refl

count_uniq_index_lem_example :
    (pairs : List Pair) × (uniq frq : List ℕ) × (count_uniq_index insertion 2 255
        (7 ∷ 3 ∷ 7 ∷ [])
        []
      ≡ some (pairs, some (uniq, frq)))
    × IsSorted uniq
    × ((v : ℕ)
        → frequency v uniq frq ≡ (
            if count v (7 ∷ 3 ∷ 7 ∷ []) == 0
            then none
            else some (min (count v (7 ∷ 3 ∷ 7 ∷ [])) 255)))
count_uniq_index_lem_example =
    count_uniq_index_lem insertion 2 255 (7 ∷ 3 ∷ 7 ∷ []) [] insertion-IsStd (omega arith)
      (omega arith) (omega arith)

remap_loop-look_up_all_example :
    remap_loop 6 0 (3 ∷ 5 ∷ []) sorted_pairs (0 ∷ 0 ∷ 0 ∷ []) 0
    ≡ some (look_up_all 0 (3 ∷ 5 ∷ []) sorted_pairs (0 ∷ 0 ∷ 0 ∷ [], 0))
remap_loop-look_up_all_example =
    remap_loop-look_up_all 6 0 (3 ∷ 5 ∷ []) sorted_pairs (0 ∷ 0 ∷ 0 ∷ []) 0 (omega arith)
      (omega arith, tt) (omega arith, (omega arith, (omega arith, tt)))

remap_index_example :
    remap_index {V = ℕ} false sorted_pairs
      (0 ∷ 2 ∷ 3 ∷ [])
      (7 ∷ 3 ∷ 7 ∷ [])
      (10 ∷ 11 ∷ 12 ∷ [])
      (3 ∷ 5 ∷ [])
    ≡ some
        (some (record { offset = 0 ∷ 1 ∷ 1 ∷ []; index = 0 ∷ []; value = 11 ∷ []; local_size = 2 }))
unfolding remap_index
remap_index_example = refl
