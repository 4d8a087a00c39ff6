-- ===== src/Util/Range/Laws.antt =====
-- What the set operations and the order of src/util/range.h mean for the keys of a range.
use parameter_server.Base.{ℕ, ◌+◌, ◌≤◌, ◌<◌, ◌≡◌, true, ◌&&◌, ◌||◌, arith, leb}
use parameter_server.Util.Range.{
  Range, u64_mod, size, valid, empty, contains, in_left, project, set_intersection, set_union,
  shift_up, shift_down, eqb,
}

-- A key is in the intersection of two ranges exactly when it is in both.
pub contains-set_intersection :
    (r s : Range) (v : ℕ) → contains (set_intersection r s) v ≡ (contains r v && contains s v)
unfolding contains set_intersection
contains-set_intersection r s v = ground arith

-- The union covers both ranges.
pub contains-set_union :
    (r s : Range) (v : ℕ)
    → (contains r v || contains s v) ≡ true
    → contains (set_union r s) v ≡ true
unfolding contains set_union
contains-set_union r s v h = ground arith

-- A valid range keeps its own keys in place under `project`, and takes every other value to the
-- nearer of its two ends.
pub project_lem :
    (r : Range) (v : ℕ)
    → valid r ≡ true
    → (r.begin ≤ project r v)
      × (project r v ≤ r.end)
      × (contains r v ≡ true → project r v ≡ v)
      × (v < r.begin → project r v ≡ r.begin)
      × (r.end ≤ v → project r v ≡ r.end)
unfolding valid project contains
project_lem r v h =
    (ground arith, ground arith, λ c. ground arith, λ c. ground arith, λ c. ground arith)

-- The second disjunct of InLeft never decides: the order compares the first keys alone.
in_left-eq-leb : (r s : Range) → in_left r s ≡ leb r.begin s.begin
unfolding in_left
in_left-eq-leb r s = ground arith

-- A shift up and back down returns every range of 64-bit ends.
pub shift_down-shift_up :
    (r : Range) (v : ℕ)
    → r.begin < u64_mod
    → r.end < u64_mod
    → v < u64_mod
    → eqb (shift_down (shift_up r v) v) r ≡ true
unfolding shift_down shift_up eqb
shift_down-shift_up r v hb he hv = ground arith

-- A valid range that does not wrap has the size that its ends say, and is empty exactly when that
-- is zero.
pub size_lem :
    (r : Range)
    → valid r ≡ true
    → r.end < u64_mod
    → (size r + r.begin ≡ r.end) × (empty r ≡ leb (size r) 0)
unfolding size valid empty
size_lem r h b = (ground arith, ground arith)
