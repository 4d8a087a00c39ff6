-- ===== src/Util/ParallelUnion.antt =====
-- ParallelUnion of src/util/parallel_ordered_match.h. It hands num_threads on in the place of k, and
-- the default operator and number of threads take part instead of its own op and num_threads.
use parameter_server.Base.{
  ℕ, zero, suc, ◌*◌, ◌<◌, ◌≡◌, refl, false, List, [], Option, none, some, ltb, ◌==◌, check, ◌>>=◌,
  ◌>>◌, length, arith, Bool-cases, inl, inr,
}
use parameter_server.Util.AssignOp.{Arith, AssignOpType, assign}
use parameter_server.Util.SortedArray.{set_union}
use parameter_server.Util.OrderedMatch.{ordered_match}

grows : (a t : ℕ) → 0 < a → a < a * suc (suc t)
grows a zero h = omega arith
grows a (suc t) h = omega (arith, grows a t h)

not_one_each : (a t n : ℕ) → a ≡ n → 0 < a → 1 < t → (a * t == n) ≡ false
not_one_each a zero n e h k = ground (arith, k)
not_one_each a (suc zero) n e h k = ground (arith, k)
not_one_each a (suc (suc t)) n e h k =
    let g : n < a * suc (suc t) = omega (arith, grows a t h) in ground (arith, g)

module _ (F : Arith) where
  open F use {V}

  -- ParallelUnion, with the joined keys and values as its result, and FLAGS_num_threads.
  unfoldable pub parallel_union :
      (flags_num_threads : ℕ)
      → List ℕ
      → List V
      → List ℕ
      → List V
      → (k : ℕ) → AssignOpType
      → (num_threads : ℕ) → Option (List ℕ × List V)
  parallel_union flags_num_threads key1 val1 key2 val2 k op num_threads = do
    let joined_key = set_union key1 key2
    (val, n1) ← ordered_match F flags_num_threads num_threads assign key1 val1 joined_key []
    check (n1 == length key1)
    (val', n2) ← ordered_match F flags_num_threads num_threads assign key2 val2 joined_key val
    check (n2 == length key2)
    some (joined_key, val')

  -- With one value to each key, and any keys at all, a call with more than one thread fails.
  parallel_union_fails :
      (flags_num_threads : ℕ) (key1 : List ℕ) (val1 : List V) (key2 : List ℕ) (val2 : List V)
      (k : ℕ) (op : AssignOpType) (num_threads : ℕ)
      → length key1 ≡ length val1
      → 0 < length key1
      → 1 < num_threads
      → parallel_union flags_num_threads key1 val1 key2 val2 k op num_threads ≡ none
  unfolding parallel_union ordered_match
  parallel_union_fails flags_num_threads key1 val1 key2 val2 k op num_threads e p h =
      elim (Bool-cases (ltb 0 flags_num_threads)) [
        | inl t ↦
            rw
              (
                t,
                not_one_each (length key1) num_threads (length val1) e p h,
                parallel_union,
                ordered_match,
              )
              refl
        | inr t ↦ rw (t, parallel_union, ordered_match) refl
      ]
