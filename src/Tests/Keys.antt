-- ===== src/Tests/Keys.antt =====
-- Ranges, sorted arrays, sketches, filters, trackers and queues at concrete inputs.
use parameter_server.Base.{ℕ, ◌+◌, ◌*◌, ◌≡◌, refl, ◌&&◌, ◌||◌, List, [], ◌∷◌, arith, leb, length}
use parameter_server.Tests.Fixtures.{nat_arith, nat_double, range}
use parameter_server.Util.Range
use parameter_server.Util.Range.Laws.{contains-set_intersection, size_lem}
use parameter_server.Util.Range.Divide.{even_divide, even_divide_adjacent}
use parameter_server.Util.AssignOp.{plus}
use parameter_server.Util.SortedArray.{IsSorted, set_union, set_intersection}
use parameter_server.Util.SortedArray.Laws.{mem, set_union_lem, set_intersection_lem}
use parameter_server.Util.OrderedMatch.{allocate, match_range, ordered_match}
use parameter_server.Util.OrderedMatch.Spec.{join}
use parameter_server.Util.OrderedMatch.Parallel.{match_range-eq-join}
use parameter_server.Util.OrderedMatch.Whole.{ordered_match-eq-join}

abbrev src_keys : List ℕ
src_keys = 2 ∷ 4 ∷ 9 ∷ []

abbrev dst_keys : List ℕ
dst_keys = 1 ∷ 4 ∷ 6 ∷ 9 ∷ []

ordered_match-eq-join_example :
    ordered_match nat_arith 2 1 plus src_keys (20 ∷ 40 ∷ 90 ∷ []) dst_keys (1 ∷ 2 ∷ 3 ∷ 4 ∷ [])
    ≡ join nat_arith 1 plus src_keys
        (20 ∷ 40 ∷ 90 ∷ [])
        dst_keys
        (allocate nat_arith (length dst_keys * 1) (1 ∷ 2 ∷ 3 ∷ 4 ∷ []))
unfolding allocate
ordered_match-eq-join_example =
    ordered_match-eq-join nat_arith 2 1 plus src_keys (20 ∷ 40 ∷ 90 ∷ []) dst_keys
      (1 ∷ 2 ∷ 3 ∷ 4 ∷ []) (omega arith) refl refl (ground arith) (ground arith) (ground arith)

match_range-eq-join_example :
    match_range nat_arith 5 1 plus 2 src_keys (20 ∷ 40 ∷ 90 ∷ []) dst_keys (1 ∷ 2 ∷ 3 ∷ 4 ∷ [])
    ≡ join nat_arith 1 plus src_keys (20 ∷ 40 ∷ 90 ∷ []) dst_keys (1 ∷ 2 ∷ 3 ∷ 4 ∷ [])
match_range-eq-join_example =
    match_range-eq-join nat_arith 5 1 plus 2 src_keys (20 ∷ 40 ∷ 90 ∷ []) dst_keys
      (1 ∷ 2 ∷ 3 ∷ 4 ∷ []) (omega arith) (omega arith) (ground arith) (ground arith)

set_union_lem_example :
    IsSorted (set_union src_keys dst_keys)
    × ((v : ℕ) → mem v (set_union src_keys dst_keys) ≡ (mem v src_keys || mem v dst_keys))
set_union_lem_example = set_union_lem src_keys dst_keys (ground arith) (ground arith)

set_intersection_lem_example :
    IsSorted (set_intersection src_keys dst_keys)
    × ((v : ℕ) → mem v (set_intersection src_keys dst_keys) ≡ (mem v src_keys && mem v dst_keys))
set_intersection_lem_example = set_intersection_lem src_keys dst_keys (ground arith) (ground arith)

contains-set_intersection_example :
    Range.contains (Range.set_intersection (range 2 7) (range 5 9)) 6
    ≡ (Range.contains (range 2 7) 6 && Range.contains (range 5 9) 6)
contains-set_intersection_example = contains-set_intersection (range 2 7) (range 5 9) 6

size_lem_example :
    (Range.size (range 2 7) + 2 ≡ 7) × (Range.empty (range 2 7) ≡ leb (Range.size (range 2 7)) 0)
unfolding Range.valid
size_lem_example = size_lem (range 2 7) refl (omega arith)

even_divide_adjacent_example : (range 0 3).end ≡ (range 3 6).begin
unfolding even_divide Range.valid
even_divide_adjacent_example =
    even_divide_adjacent nat_double (range 0 10) 3 0 (range 0 3) (range 3 6) refl refl
