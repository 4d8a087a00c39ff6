-- ===== src/Parameter/KvVector/Pull.antt =====
-- About GetValue of src/parameter/kv_vector.h: the blocks that a pull returns.
use native.Mathlib.Nat.{mul-le-mul_right}
use parameter_server.Base.{
  ℕ, zero, suc, ◌+◌, ◌*◌, ◌≤◌, ◌<◌, ◌≡◌, refl, sym, ap, ◌∙◌, Bool, true, false, List, [], ◌∷◌,
  Option, none, some, arith, if_empty-cons, length, take, drop, replicate, if◌then◌else◌, ==_iff,
  le→leb, length-take, length-drop, length-replicate,
}
use parameter_server.Util.AssignOp.{Arith, AssignOpType, assign_op}
use parameter_server.Util.SortedArray.{IsSorted}
use parameter_server.Util.SortedArray.Laws.{mem}
use parameter_server.Util.OrderedMatch.{allocate, ordered_match}
use parameter_server.Util.OrderedMatch.Spec.{find_block, join}
use parameter_server.Util.OrderedMatch.Whole.{ordered_match-eq-join}
use parameter_server.System.Message.{Message, clear_value, add_value}
use parameter_server.Parameter.{param_of}
use parameter_server.Parameter.KvVector.{
  Env, KvPairs, KvVector, pairs_at, set_pairs, get_value, get_filtered, match_pairs,
}
use parameter_server.Parameter.KvVector.Blocks.{
  common, merged, merged_block, merge_block, find_block-merged, join-merged,
}
use parameter_server.Parameter.KvVector.Store.{AreKeys}

succ_add : (k n : ℕ) → suc k + n ≡ suc (k + n)
succ_add k n = omega arith

take-replicate : {A : Type 0} (k n : ℕ) (z : A) → take k (replicate (k + n) z) ≡ replicate k z
take-replicate zero n z = refl
take-replicate (suc k) n z =
    ap (λ m. take (suc k) (replicate m z)) (succ_add k n) ∙ ap (◌∷◌ z) (take-replicate k n z)

drop-replicate : {A : Type 0} (k n : ℕ) (z : A) → drop k (replicate (k + n) z) ≡ replicate n z
drop-replicate zero n z = ap (λ m. replicate m z) (omega arith)
drop-replicate (suc k) n z =
    ap (λ m. drop (suc k) (replicate m z)) (succ_add k n) ∙ drop-replicate k n z

common-le : (src dst : List ℕ) → common src dst ≤ length dst
unfolding common
common-le src [] = omega arith
common-le src (d ∷ dst) = ground (arith, common-le src dst)

pub nonempty : (xs : List ℕ) → 0 < length xs → (y : ℕ) × (ys : List ℕ) × (xs ≡ y ∷ ys)
nonempty [] h = ground (arith, h)
nonempty (y ∷ ys) h = (y, ys, refl)

module _ (F : Arith) (env : Env F.V) where
  open F use {V, zero_value}

  -- assign writes the source's value.
  abbrev source_of : V → V → V
  source_of d s = s

  assign_total : (a b : V) → assign_op F AssignOpType.assign a b ≡ some (source_of a b)
  unfolding assign_op
  assign_total a b = refl

  merge_block-source :
      (d s : List V) → length d ≡ length s → merge_block F AssignOpType.assign source_of d s ≡ s
  unfolding merge_block
  merge_block-source [] [] h = refl
  merge_block-source [] (s ∷ src) h = ground (arith, h)
  merge_block-source (d ∷ ds) [] h = ground (arith, h)
  merge_block-source (d ∷ ds) (s ∷ src) h =
      ap (◌∷◌ s) (merge_block-source ds src (omega (arith, h)))

  find_block-replicate :
      (k j : ℕ) (keys : List ℕ) (z : V)
      → find_block F k j keys (replicate (length keys * k) z)
        ≡ (if mem j keys then some (replicate k z) else none)
  unfolding find_block mem
  find_block-replicate k j [] z = refl
  find_block-replicate k j (key ∷ keys) z =
      let n : suc (length keys) * k ≡ k + length keys * k = grind arith in
      let here = take-replicate k (length keys * k) z in
      let there = drop-replicate k (length keys * k) z in
      let rest = find_block-replicate k j keys z in rw (n, here, there) (ground (arith, rest))

  length-find_block :
      (k j : ℕ) (keys : List ℕ) (vals b : List V)
      → length vals ≡ length keys * k
      → find_block F k j keys vals ≡ some b
      → length b ≡ k
  unfolding find_block
  length-find_block k j [] vals b h e = cc
  length-find_block k j (key ∷ keys) vals b h e =
      let n : suc (length keys) * k ≡ k + length keys * k = grind arith in
      let first = length-take k vals in
      let rest = length-find_block k j keys (drop k vals) b (omega (arith, length-drop k vals)) in
      ground (arith, first, rest)

  -- The block of a key, which is zeros where there is none.
  abbrev pub block_or_zeros : ℕ → Option (List V) → List V
  block_or_zeros k none = replicate k zero_value
  block_or_zeros k (some b) = b

  pulled_block :
      (k j : ℕ) (keys : List ℕ) (blocks : Option (List V))
      → ((b : List V) → blocks ≡ some b → length b ≡ k)
      → merged_block F AssignOpType.assign source_of
          (find_block F k j keys (replicate (length keys * k) zero_value))
          blocks
        ≡ (if mem j keys then some (block_or_zeros k blocks) else none)
  pulled_block k j keys blocks h =
      ap (λ d. merged_block F AssignOpType.assign source_of d blocks)
        (find_block-replicate k j keys zero_value)
      ∙ go (mem j keys) blocks h
    where
      go :
          (b : Bool) (o : Option (List V))
          → ((b : List V) → o ≡ some b → length b ≡ k)
          → merged_block F AssignOpType.assign source_of
              (if b then some (replicate k zero_value) else none)
              o
            ≡ (if b then some (block_or_zeros k o) else none)
      go false o h = refl
      go true none h = refl
      go true (some b) h = ap some (
          merge_block-source (replicate k zero_value) b
            (length-replicate k zero_value ∙ sym (h b refl)))

  unfoldable pub pulled : ℕ → List ℕ → KvPairs F env → List V
  pulled k keys kv =
      merged F AssignOpType.assign source_of k kv.key kv.value keys
        (replicate (length keys * k) zero_value)

  pub find_block-pulled :
      (k j : ℕ) (keys : List ℕ) (kv : KvPairs F env)
      → length kv.value ≡ length kv.key * k
      → find_block F k j keys (pulled k keys kv)
        ≡ (if mem j keys then some (block_or_zeros k (find_block F k j kv.key kv.value)) else none)
  unfolding pulled
  find_block-pulled k j keys kv n =
      find_block-merged F AssignOpType.assign source_of k j kv.key kv.value keys _
        (length-replicate (length keys * k) zero_value)
      ∙ pulled_block k j keys (find_block F k j kv.key kv.value)
          (λ b. length-find_block k j kv.key kv.value b n)

  ordered_match-pulled :
      (k : ℕ) (keys : List ℕ) (kv : KvPairs F env)
      → 0 < env.num_threads
      → AreKeys kv.key
      → IsSorted keys
      → length kv.value ≡ length kv.key * k
      → ordered_match F env.num_threads k AssignOpType.assign kv.key kv.value keys []
        ≡ some (pulled k keys kv, common kv.key keys * k)
  unfolding pulled
  ordered_match-pulled k keys kv t a s n =
      ordered_match-eq-join F env.num_threads k AssignOpType.assign kv.key kv.value keys [] t
        (sym n) (ap length nil ∙ length-replicate (length keys * k) zero_value) a.sorted s a.bounded
      ∙ ap (join F k AssignOpType.assign kv.key kv.value keys) nil
      ∙ join-merged F AssignOpType.assign source_of assign_total k kv.key kv.value keys _
    where
      nil : allocate F (length keys * k) [] ≡ replicate (length keys * k) zero_value
      nil = unfold allocate in refl

  pub get_value-pulled :
      (m : KvVector F env) (pull : Message V) (kv : KvPairs F env)
      → pairs_at F env pull.task.key_channel m ≡ kv
      → 0 < env.num_threads
      → (param_of pull.task).tail_filter ≡ none
      → AreKeys kv.key
      → IsSorted pull.key
      → length kv.value ≡ length kv.key * m.k
      → 0 < length pull.key
      → get_value F env m pull
        ≡ some (
          set_pairs F env pull.task.key_channel kv m,
          add_value env.value_type (pulled m.k pull.key kv) (clear_value pull),
        )
  unfolding get_value get_filtered match_pairs
  get_value-pulled m pull kv same t f a s n p =
      let (key, keys, e) = nonempty pull.key p in
      let fits : common kv.key pull.key * m.k ≤ length pull.key * m.k =
        mul-le-mul_right m.k (common-le kv.key pull.key) in
      if_empty-cons _ e
      ∙ ap (λ tail. get_filtered F env tail pull.task.key_channel pull m) f
      ∙ ap (λ kv. match_pairs F env pull.task.key_channel pull kv m) same
      ∙ rw
          (
            (==_iff (length kv.key * m.k) (length kv.value)).1 (sym n),
            ordered_match-pulled m.k pull.key kv t a s n,
            le→leb (common kv.key pull.key * m.k) (length pull.key * m.k) fits,
          )
          refl
