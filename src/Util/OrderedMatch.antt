-- ===== src/Util/OrderedMatch.antt =====
-- src/util/parallel_ordered_match.h: merging (key, value) pairs into a sorted array of keys, a block
-- of k values to each key. The pointers of the source are the lists of what is left behind them.
pub mod Spec
pub mod Parallel
pub mod Whole
use parameter_server.Base.{
  ℕ, zero, suc, ◌+◌, ◌-◌, ◌*◌, ◌/◌, ◌≤◌, ◌<◌, max, Bool, true, false, List, [], ◌∷◌, ◌++◌, Option,
  none, some, ltb, leb, ◌==◌, check, ◌>>=◌, ◌>>◌, length, take, drop, replicate, if◌then◌else◌,
}
use parameter_server.Util.Range.{Range}
use parameter_server.Util.AssignOp.{Arith, AssignOpType, assign_op}
use parameter_server.Util.SortedArray.{lower_bound, key_range, find_range}

module _ (F : Arith) where
  open F use {V, zero_value}

  -- for (i < k) AssignOp(dst_val[i], src_val[i], op)
  unfoldable pub assign_block : AssignOpType → List V → List V → Option (List V)
  assign_block op [] src = some []
  assign_block op (d ∷ ds) [] = some (d ∷ ds)
  assign_block op (d ∷ ds) (s ∷ src) = do
    d' ← assign_op F op d s
    ds' ← assign_block op ds src
    some (d' ∷ ds')

  -- What the loop has done: the values at and behind dst_val, and what it adds to *n.
  abbrev pub Matched : Type 0
  Matched = List V × ℕ

  -- dst_val moves on past a block that is final.
  abbrev pub past : List V → ℕ → Option Matched → Option Matched
  past block n rest = do (vs, m) ← rest; some (block ++ vs, n + m)

  -- The loop of the sequential case.
  unfoldable pub match_loop :
      (k : ℕ) → AssignOpType → List ℕ → List V → List ℕ → List V → Option Matched
  match_loop k op [] src_val dst_key dst_val = some (dst_val, 0)
  match_loop k op (s ∷ src) src_val [] dst_val = some (dst_val, 0)
  match_loop k op (s ∷ src) src_val (d ∷ dst) dst_val = elim (ltb s d) [
    | true ↦ match_loop k op src (drop k src_val) (d ∷ dst) dst_val
    | false ↦ elim (ltb d s) [
      | true ↦ past (take k dst_val) 0 (match_loop k op (s ∷ src) src_val dst (drop k dst_val))
      | false ↦ do
        block ← assign_block op (take k dst_val) (take k src_val)
        past block k (match_loop k op src (drop k src_val) dst (drop k dst_val))
    ]
  ]

  -- The recursive ParallelOrderedMatch. The two threads write to disjoint halves of the destination
  -- and to counters of their own, so the halves are run one after the other. `none` stands for a
  -- failed CHECK and for fuel that ran out.
  unfoldable pub match_range :
      (fuel k : ℕ) → AssignOpType → ℕ → List ℕ → List V → List ℕ → List V → Option Matched
  unfolding match_loop
  match_range zero k op grainsize src_key src_val dst_key dst_val = none
  match_range (suc fuel) k op grainsize src_key src_val [] dst_val = some (dst_val, 0)
  match_range (suc fuel) k op grainsize [] src_val (d ∷ dst) dst_val = some (dst_val, 0)
  match_range (suc fuel) k op grainsize (s ∷ src) src_val (d ∷ dst) dst_val =
      let dst_key = d ∷ dst in
      let skip = lower_bound (s ∷ src) d in
      let src_key' = drop skip (s ∷ src) in
      let src_val' = drop (skip * k) src_val in
      let dst_len = length dst_key in
      let half = dst_len / 2 in
      elim (leb dst_len grainsize) [
        | true ↦ match_loop k op src_key' src_val' dst_key dst_val
        | false ↦ do
          (left, n) ←
              match_range fuel k op grainsize src_key' src_val' (take half dst_key)
                (take (half * k) dst_val)
          (right, m) ←
              match_range fuel k op grainsize src_key' src_val' (drop half dst_key)
                (drop (half * k) dst_val)
          some (left ++ right, n + m)
      ]

  -- dst_val->resize(dst_key.size() * k); dst_val->SetZero(), where it is empty.
  unfoldable pub allocate : ℕ → List V → List V
  allocate n [] = replicate n zero_value
  allocate n (v ∷ vs) = v ∷ vs

  -- The SArray version: the CHECKs, the allocation, and the match over the index range of the
  -- destination that the source can reach. Its result is the destination and the count.
  unfoldable pub ordered_match :
      (num_threads k : ℕ) → AssignOpType → List ℕ → List V → List ℕ → List V → Option Matched
  unfolding match_range allocate
  ordered_match num_threads k op src_key src_val dst_key dst_val = do
    check (ltb 0 num_threads)
    check (length src_key * k == length src_val)
    let dst = allocate (length dst_key * k) dst_val
    check (length dst == length dst_key * k)
    range ← find_range dst_key (key_range src_key)
    let len = range.end - range.begin
    let grainsize = max (len * k / num_threads + 5) (1024 * 1024)
    (vs, n) ←
        match_range (suc len) k op grainsize src_key src_val (take len (drop range.begin dst_key))
          (drop (range.begin * k) dst)
    some (take (range.begin * k) dst ++ vs, n)
