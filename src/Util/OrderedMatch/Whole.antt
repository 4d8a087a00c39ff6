-- ===== src/Util/OrderedMatch/Whole.antt =====
-- About the SArray version of the match of src/util/parallel_ordered_match.h.
use mathlib.Core.List.{append-nil}
use parameter_server.Base.{
  ℕ, suc, ◌+◌, ◌-◌, ◌*◌, ◌%◌, ◌≤◌, ◌<◌, ◌≡◌, refl, sym, ap, ap₂, subst, le→leb, ◌∙◌, List, [], ◌∷◌,
  ◌++◌, Option, none, some, arith, ==_iff, ◌>>=◌, length, take, drop, take-append-drop, length-take,
  All, lt→ltb, drop-add,
}
use parameter_server.Util.Range
use parameter_server.Util.Range.{Range}
use parameter_server.Util.AssignOp.{Arith, AssignOpType}
use parameter_server.Util.SortedArray.{Above, IsSorted, lower_bound, last_or, key_range, find_range}
use parameter_server.Util.SortedArray.Bounds.{
  All-map, All-take-lower_bound, All-drop-lower_bound, lower_bound-le, lower_bound_mono,
}
use parameter_server.Util.OrderedMatch.{Matched, allocate, ordered_match}
use parameter_server.Util.OrderedMatch.Spec.{
  find_block, join, both, join-append, join_missing, find_block-nil, find_block_below,
}
use parameter_server.Util.OrderedMatch.Parallel.{IsSorted-drop, IsSorted-take, match_range-eq-join}

le-last_or : (s : ℕ) (src : List ℕ) → Above s src → s ≤ last_or s src
unfolding last_or
le-last_or s [] h = omega arith
le-last_or s (x ∷ src) h = omega (arith, le-last_or x src h.1)

module _ (F : Arith) where
  open F use {V}

  find_block_beyond :
      (k s v : ℕ) (src : List ℕ) (sv : List V)
      → Above s src
      → last_or s src < v
      → find_block F k v (s ∷ src) sv ≡ none
  unfolding find_block last_or
  find_block_beyond k s v [] sv h b = ground arith
  find_block_beyond k s v (x ∷ src) sv h b =
      ground (arith, le-last_or x src h.1, find_block_beyond k x v src (drop k sv) h.1 b)

  module _ (k : ℕ) (op : AssignOpType) (src : List ℕ) (sv : List V) where
    abbrev Missing : List ℕ → Type 0
    Missing = All (λ d. find_block F k d src sv ≡ none)

    join_suffix :
        (xs ys : List ℕ) (dv : List V)
        → Missing ys
        → join F k op src sv (xs ++ ys) dv ≡ join F k op src sv xs dv
    unfolding join
    join_suffix xs ys dv h =
        join-append F k op src sv xs ys dv (length xs * k) refl
        ∙ ap (both F (join F k op src sv xs (take (length xs * k) dv)))
            (join_missing F k op src sv ys (drop (length xs * k) dv) h)
        ∙ sym (join-append F k op src sv xs [] dv (length xs * k) refl)
        ∙ ap (λ zs. join F k op src sv zs dv) (append-nil xs)

    -- The destination in three parts, of which the source reaches the middle one.
    join_middle :
        (dst : List ℕ) (dv : List V) (b len : ℕ)
        → b ≤ length dst
        → Missing (take b dst)
        → Missing (drop len (drop b dst))
        → join F k op src sv dst dv
          ≡ both F
              (some (take (b * k) dv, 0))
              (join F k op src sv (take len (drop b dst)) (drop (b * k) dv))
    join_middle dst dv b len h before behind =
        ap (λ ds. join F k op src sv ds dv) (sym (take-append-drop b dst))
        ∙ join-append F k op src sv (take b dst) (drop b dst) dv (b * k)
            (ap (λ n. n * k) (omega (arith, length-take b dst)))
        ∙ ap₂ (both F) (join_missing F k op src sv (take b dst) (take (b * k) dv) before) (
            ap (λ ds. join F k op src sv ds (drop (b * k) dv))
              (sym (take-append-drop len (drop b dst)))
            ∙ join_suffix (take len (drop b dst)) (drop len (drop b dst)) (drop (b * k) dv) behind)

  find_range_nil :
      (dst : List ℕ) → find_range dst (key_range []) ≡ some (record { begin = 0; end = 0 })
  unfolding find_range key_range lower_bound Range.valid
  find_range_nil [] = refl
  find_range_nil (d ∷ dst) = ground arith

  last_or-bound : (s : ℕ) (src : List ℕ) (n : ℕ) → s < n → All (λ x. x < n) src → last_or s src < n
  unfolding last_or
  last_or-bound s [] n h hs = h
  last_or-bound s (x ∷ src) n h hs = last_or-bound x src n hs.0 hs.1

  find_range-cons :
      (s : ℕ) (src : List ℕ) (d : ℕ) (dst : List ℕ)
      → Above s src
      → All (λ x. x < Range.u64_mod - 1) (s ∷ src)
      → find_range (d ∷ dst) (key_range (s ∷ src))
        ≡ some (record {
          begin = lower_bound (d ∷ dst) s;
          end = lower_bound (d ∷ dst) (last_or s src + 1);
        })
  unfolding find_range key_range Range.valid
  find_range-cons s src d dst hs hb =
      let bound = last_or-bound s src (Range.u64_mod - 1) hb.0 hb.1 in
      let e : (last_or s src + 1) % Range.u64_mod ≡ last_or s src + 1 = omega (arith, bound) in
      rw (e, le→leb s (last_or s src + 1) (omega (arith, le-last_or s src hs)))

  prefix : List V → Option (Matched F) → Option (Matched F)
  prefix vs m = do (ws, n) ← m; some (vs ++ ws, n)

  prefix-eq-both : (vs : List V) (m : Option (Matched F)) → prefix vs m ≡ both F (some (vs, 0)) m
  unfolding prefix both
  prefix-eq-both vs none = refl
  prefix-eq-both vs (some (ws, n)) = ap (λ m. some (vs ++ ws, m)) (omega arith)

  -- The call once its CHECKs have passed, at the index range that was found.
  opened :
      (nt k : ℕ) (op : AssignOpType) (src : List ℕ) (sv : List V) (dst : List ℕ) (dv : List V)
      → (r : Range) → 0 < nt
      → length src * k ≡ length sv
      → length (allocate F (length dst * k) dv) ≡ length dst * k
      → IsSorted src
      → IsSorted dst
      → find_range dst (key_range src) ≡ some r
      → ordered_match F nt k op src sv dst dv
        ≡ both F (some (take (r.begin * k) (allocate F (length dst * k) dv), 0)) (
            join F k op src sv
              (take (r.end - r.begin) (drop r.begin dst))
              (drop (r.begin * k) (allocate F (length dst * k) dv)))
  unfolding ordered_match prefix
  opened nt k op src sv dst dv r hn hl ha hs hd e =
      rw
        (
          lt→ltb 0 nt hn,
          (==_iff (length src * k) (length sv)).1 hl,
          (==_iff (length (allocate F (length dst * k) dv)) (length dst * k)).1 ha,
          e,
          ordered_match,
        )
        (ap (prefix (take (r.begin * k) dst')) (
            match_range-eq-join F (suc len) k op _ src sv (take len (drop r.begin dst))
              (drop (r.begin * k) dst') (omega (arith, length-take len (drop r.begin dst)))
              (omega arith) hs
              (IsSorted-take len (drop r.begin dst) (IsSorted-drop r.begin dst hd)))
          ∙ prefix-eq-both (take (r.begin * k) dst') _)
    where
      dst' : List V
      dst' = allocate F (length dst * k) dv

      len : ℕ
      len = r.end - r.begin

  -- With at least one thread, arrays of matching sizes, and sorted keys, those of the source below
  -- 2^64 - 1, the call is the join over the whole destination, which is allocated if it is empty:
  -- it aborts only where the operator does, and the restriction to an index range, the halving of
  -- the work and the two counters leave no trace in the result.
  pub ordered_match-eq-join :
      (nt k : ℕ) (op : AssignOpType) (src : List ℕ) (sv : List V) (dst : List ℕ) (dv : List V)
      → 0 < nt
      → length src * k ≡ length sv
      → length (allocate F (length dst * k) dv) ≡ length dst * k
      → IsSorted src
      → IsSorted dst
      → All (λ s. s < Range.u64_mod - 1) src
      → ordered_match F nt k op src sv dst dv
        ≡ join F k op src sv dst (allocate F (length dst * k) dv)
  ordered_match-eq-join nt k op [] sv dst dv hn hl ha hs hd hb =
      opened nt k op [] sv dst dv (record { begin = 0; end = 0 }) hn hl ha hs hd
        (find_range_nil dst)
      ∙ sym (
          join_middle k op [] sv dst _ 0 (0 - 0) (omega arith) tt
            (find_block-nil F k sv (drop (0 - 0) dst)))
  ordered_match-eq-join nt k op (s ∷ src) sv [] dv hn hl ha hs hd hb =
      opened nt k op (s ∷ src) sv [] dv (record { begin = 0; end = 0 }) hn hl ha hs hd
        (unfold find_range in refl)
      ∙ sym (join_middle k op (s ∷ src) sv [] _ 0 (0 - 0) (omega arith) tt tt)
  ordered_match-eq-join nt k op (s ∷ src) sv (d ∷ dst) dv hn hl ha hs hd hb =
      opened nt k op (s ∷ src) sv (d ∷ dst) dv (record { begin = lo; end = hi }) hn hl ha hs hd
        (find_range-cons s src d dst hs hb)
      ∙ sym (
          join_middle k op (s ∷ src) sv (d ∷ dst) _ lo (hi - lo) (lower_bound-le (d ∷ dst) s)
            (All-map (take lo (d ∷ dst))
              (λ x lt. find_block_below F k x x (s ∷ src) sv (lt, hs) (omega arith))
              (All-take-lower_bound (d ∷ dst) s))
            (behind (
              All-map (drop hi (d ∷ dst)) (λ x le. find_block_beyond k s x src sv hs (omega arith))
                (All-drop-lower_bound (d ∷ dst) (last_or s src + 1) hd))))
    where
      lo : ℕ
      lo = lower_bound (d ∷ dst) s

      hi : ℕ
      hi = lower_bound (d ∷ dst) (last_or s src + 1)

      behind :
          Missing k op (s ∷ src) sv (drop hi (d ∷ dst))
          → Missing k op (s ∷ src) sv (drop (hi - lo) (drop lo (d ∷ dst)))
      behind h =
          subst (Missing k op (s ∷ src) sv)
            (ap (λ n. drop n (d ∷ dst))
                (omega
                  (arith, lower_bound_mono (d ∷ dst) s (last_or s src + 1), le-last_or s src hs))
              ∙ drop-add lo (hi - lo) (d ∷ dst))
            h
