-- ===== src/Parameter/KvVector/Blocks.antt =====
-- About ParallelOrderedMatch with an operator that cannot end the process, as the vectors of
-- src/parameter/kv_vector.h use it: which block each key holds after it, and what it counts.
use parameter_server.Base.{
  ℕ, suc, ◌+◌, ◌*◌, ◌≤◌, ◌<◌, ◌≡◌, refl, ap, ap₂, ◌∙◌, true, false, List, [], ◌∷◌, ◌++◌, Option,
  none, some, arith, ◌==◌, length, take, drop, length-append, length-take, length-drop,
  if◌then◌else◌, Bool-cases, inl, inr, All, ==_iff,
}
use parameter_server.Util.AssignOp.{Arith, AssignOpType, assign_op}
use parameter_server.Util.SortedArray.{Above, IsSorted}
use parameter_server.Util.SortedArray.Laws.{mem, mem_below, Above-mono, IsSorted-tail}
use parameter_server.Util.OrderedMatch.{assign_block}
use parameter_server.Util.OrderedMatch.Spec.{find_block, join_entry, join}

take-append : {A : Type 0} (xs ys : List A) → take (length xs) (xs ++ ys) ≡ xs
take-append [] ys = refl
take-append (x ∷ xs) ys = ap (◌∷◌ x) (take-append xs ys)

drop-append : {A : Type 0} (xs ys : List A) → drop (length xs) (xs ++ ys) ≡ ys
drop-append [] ys = refl
drop-append (x ∷ xs) ys = drop-append xs ys

-- How many of the keys `dst` are in `src`.
unfoldable pub common : List ℕ → List ℕ → ℕ
common src [] = 0
common src (d ∷ dst) = (if mem d src then 1 else 0) + common src dst

common_skip : (s : ℕ) (src dst : List ℕ) → Above s dst → common (s ∷ src) dst ≡ common src dst
unfolding common mem
common_skip s src [] h = refl
common_skip s src (d ∷ dst) h =
    ground (arith, common_skip s src dst (Above-mono s d dst (omega arith) h.1))

-- Keys above d that are in d ∷ dst are in dst.
pub All-mem_tail :
    (d : ℕ) (src dst : List ℕ)
    → Above d src
    → All (λ s. mem s (d ∷ dst) ≡ true) src
    → All (λ s. mem s dst ≡ true) src
unfolding mem
All-mem_tail d [] dst a h = tt
All-mem_tail d (s ∷ src) dst a h =
    (ground (arith, h.0), All-mem_tail d src dst (Above-mono d s src (omega arith) a.1) h.1)

common_here :
    (s d : ℕ) (src dst : List ℕ)
    → (s == d) ≡ true
    → Above d dst
    → common src dst ≡ length src
    → common (s ∷ src) (d ∷ dst) ≡ suc (length src)
unfolding common mem
common_here s d src dst e a h =
    ground (arith, common_skip s src dst (Above-mono s d dst (ground arith) a))

common_later : (d : ℕ) (src dst : List ℕ) → Above d src → common src (d ∷ dst) ≡ common src dst
unfolding common
common_later d src dst a = ground (arith, mem_below d d src a (omega arith))

mem_tail : (s d : ℕ) (dst : List ℕ) → (s == d) ≡ false → mem s (d ∷ dst) ≡ true → mem s dst ≡ true
unfolding mem
mem_tail s d dst e h = ground arith

mem_greater : (s d : ℕ) (dst : List ℕ) → Above d dst → mem s dst ≡ true → d < s
unfolding mem
mem_greater s d [] a h = ground arith
mem_greater s d (x ∷ dst) a h = ground (arith, mem_greater s x dst a.1)

-- All keys of a sorted array that are in another sorted array are common keys.
pub common_full :
    (src dst : List ℕ)
    → IsSorted src
    → IsSorted dst
    → All (λ s. mem s dst ≡ true) src
    → common src dst ≡ length src
unfolding common mem
common_full [] [] hs hd h = refl
common_full (s ∷ src) [] hs hd h = ground (arith, h.0)
common_full [] (d ∷ dst) hs hd h = omega (arith, common_full [] dst tt (IsSorted-tail d dst hd) tt)
common_full (s ∷ src) (d ∷ dst) hs hd h = elim (Bool-cases (s == d)) [
  | inl e ↦ common_here s d src dst e hd (
      common_full src dst (IsSorted-tail s src hs) (IsSorted-tail d dst hd)
        (All-mem_tail d src dst (Above-mono d s src (ground arith) hs) h.1))
  | inr e ↦
      let later = mem_tail s d dst e h.0 in
      let above = mem_greater s d dst hd later in
      common_later d (s ∷ src) dst (above, hs)
      ∙ common_full (s ∷ src) dst hs (IsSorted-tail d dst hd)
          (later, All-mem_tail d src dst (Above-mono d s src (omega arith) hs) h.1)
]

module _ (F : Arith) where
  open F use {V}

  -- f is what the operator writes over two values.
  module _ (op : AssignOpType) (f : V → V → V) where
    unfoldable pub merge_block : List V → List V → List V
    merge_block [] src = []
    merge_block (d ∷ ds) [] = d ∷ ds
    merge_block (d ∷ ds) (s ∷ src) = f d s ∷ merge_block ds src

    length-merge_block : (d s : List V) → length (merge_block d s) ≡ length d
    unfolding merge_block
    length-merge_block [] s = refl
    length-merge_block (d ∷ ds) [] = refl
    length-merge_block (d ∷ ds) (s ∷ src) = ap suc (length-merge_block ds src)

    abbrev pub written : List V → Option (List V) → List V
    written d none = d
    written d (some s) = merge_block d s

    length-written : (d : List V) (s : Option (List V)) → length (written d s) ≡ length d
    length-written d none = refl
    length-written d (some s) = length-merge_block d s

    -- The destination values after a match.
    unfoldable pub merged : ℕ → List ℕ → List V → List ℕ → List V → List V
    merged k src sv [] dv = dv
    merged k src sv (d ∷ dst) dv =
        written (take k dv) (find_block F k d src sv) ++ merged k src sv dst (drop k dv)

    pub length-merged :
        (k : ℕ) (src : List ℕ) (sv : List V) (dst : List ℕ) (dv : List V)
        → length dv ≡ length dst * k
        → length (merged k src sv dst dv) ≡ length dst * k
    unfolding merged
    length-merged k src sv [] dv h = h
    length-merged k src sv (d ∷ dst) dv h =
        let n : suc (length dst) * k ≡ k + length dst * k = grind arith in
        let b = find_block F k d src sv in
        let rest = merged k src sv dst (drop k dv) in
        let total = length-append (written (take k dv) b) rest in
        let first = length-written (take k dv) b in
        let taken = length-take k dv in
        let others = length-merged k src sv dst (drop k dv) (omega (arith, length-drop k dv)) in
        omega (arith, total, first, taken, others)

    -- The block of a key: what find_block finds, with what the other array holds for the key.
    abbrev pub merged_block : Option (List V) → Option (List V) → Option (List V)
    merged_block none s = none
    merged_block (some d) s = some (written d s)

    find_block-written :
        (k j d : ℕ) (dst : List ℕ) (s : Option (List V)) (dv rest : List V)
        → k ≤ length dv
        → find_block F k j (d ∷ dst) (written (take k dv) s ++ rest)
          ≡ (if d == j then some (written (take k dv) s) else find_block F k j dst rest)
    unfolding find_block
    find_block-written k j d dst s dv rest h =
        let n : k ≡ length (written (take k dv) s) =
          omega (arith, length-written (take k dv) s, length-take k dv) in
        ap₂ (λ x y. if d == j then some x else find_block F k j dst y)
          (ap (λ m. take m (written (take k dv) s ++ rest)) n
            ∙ take-append (written (take k dv) s) rest)
          (ap (λ m. drop m (written (take k dv) s ++ rest)) n
            ∙ drop-append (written (take k dv) s) rest)

    merged_block-if :
        (k j d : ℕ) (src : List ℕ) (sv : List V) (dst : List ℕ) (dv : List V)
        → (if d == j
            then some (written (take k dv) (find_block F k d src sv))
            else merged_block (find_block F k j dst (drop k dv)) (find_block F k j src sv))
          ≡ merged_block (find_block F k j (d ∷ dst) dv) (find_block F k j src sv)
    unfolding find_block
    merged_block-if k j d src sv dst dv = elim (Bool-cases (d == j)) [
      | inl e ↦
          rw e (ap (λ i. some (written (take k dv) (find_block F k i src sv))) ((==_iff d j).0 e))
      | inr e ↦ rw e refl
    ]

    pub find_block-merged :
        (k j : ℕ) (src : List ℕ) (sv : List V) (dst : List ℕ) (dv : List V)
        → length dv ≡ length dst * k
        → find_block F k j dst (merged k src sv dst dv)
          ≡ merged_block (find_block F k j dst dv) (find_block F k j src sv)
    unfolding merged
    find_block-merged k j src sv [] dv h = unfold find_block in refl
    find_block-merged k j src sv (d ∷ dst) dv h =
        let n : suc (length dst) * k ≡ k + length dst * k = grind arith in
        find_block-written k j d dst (find_block F k d src sv) dv (merged k src sv dst (drop k dv))
          (omega arith)
        ∙ ap (λ b. if d == j then some (written (take k dv) (find_block F k d src sv)) else b)
            (find_block-merged k j src sv dst (drop k dv) (omega (arith, length-drop k dv)))
        ∙ merged_block-if k j d src sv dst dv

    -- Where f is what the operator writes, the join gives these values, and counts the common keys.
    assign_block-merge_block :
        ((a b : V) → assign_op F op a b ≡ some (f a b))
        → (d s : List V) → assign_block F op d s ≡ some (merge_block d s)
    unfolding assign_block merge_block
    assign_block-merge_block h [] s = refl
    assign_block-merge_block h (d ∷ ds) [] = refl
    assign_block-merge_block h (d ∷ ds) (s ∷ src) =
        rw (h d s, assign_block-merge_block h ds src) refl

    abbrev blocks : Option (List V) → ℕ
    blocks none = 0
    blocks (some b) = 1

    blocks-find_block :
        (k d : ℕ) (src : List ℕ) (sv : List V)
        → blocks (find_block F k d src sv) ≡ (if mem d src then 1 else 0)
    unfolding find_block mem
    blocks-find_block k d [] sv = refl
    blocks-find_block k d (s ∷ src) sv = ground (arith, blocks-find_block k d src (drop k sv))

    join_entry-written :
        ((a b : V) → assign_op F op a b ≡ some (f a b))
        → (k : ℕ) (b : Option (List V)) (dv vs : List V) (n : ℕ)
        → join_entry F k op b dv (some (vs, n * k))
          ≡ some (written (take k dv) b ++ vs, (blocks b + n) * k)
    unfolding join_entry
    join_entry-written h k none dv vs n = ap (λ m. some (take k dv ++ vs, m)) (grind arith)
    join_entry-written h k (some b) dv vs n =
        let m : k + n * k ≡ (1 + n) * k = grind arith in
        rw (assign_block-merge_block h (take k dv) b, m) refl

    pub join-merged :
        ((a b : V) → assign_op F op a b ≡ some (f a b))
        → (k : ℕ) (src : List ℕ) (sv : List V) (dst : List ℕ) (dv : List V)
        → join F k op src sv dst dv ≡ some (merged k src sv dst dv, common src dst * k)
    unfolding join merged common
    join-merged h k src sv [] dv = ap (λ n. some (dv, n)) (omega arith)
    join-merged h k src sv (d ∷ dst) dv =
        ap (join_entry F k op (find_block F k d src sv) dv) (join-merged h k src sv dst (drop k dv))
        ∙ join_entry-written h k (find_block F k d src sv) dv _ (common src dst)
        ∙ ap
            (λ n. some (
              written (take k dv) (find_block F k d src sv) ++ merged k src sv dst (drop k dv),
              (n + common src dst) * k,
            ))
            (blocks-find_block k d src sv)
