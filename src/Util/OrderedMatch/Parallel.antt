-- ===== src/Util/OrderedMatch/Parallel.antt =====
-- About the recursive, two-threaded match of src/util/parallel_ordered_match.h.
use parameter_server.Base.{
  ℕ, zero, suc, ◌*◌, ◌/◌, ◌<◌, ◌≡◌, refl, sym, ap, ap₂, ◌∙◌, List, [], ◌∷◌, arith, leb, length,
  take, drop, take-append-drop, length-take, Bool-cases, inl, inr, length-drop,
}
use parameter_server.Util.AssignOp.{Arith, AssignOpType}
use parameter_server.Util.SortedArray.{Above, IsSorted, lower_bound}
use parameter_server.Util.SortedArray.Laws.{IsSorted-tail}
use parameter_server.Util.OrderedMatch.{match_range}
use parameter_server.Util.OrderedMatch.Spec.{
  join, both, join-append, join-lower_bound, join_missing, find_block-nil, match_loop-eq-join,
}

pub IsSorted-drop : (n : ℕ) (xs : List ℕ) → IsSorted xs → IsSorted (drop n xs)
IsSorted-drop zero xs h = h
IsSorted-drop (suc n) [] h = tt
IsSorted-drop (suc n) (x ∷ xs) h = IsSorted-drop n xs (IsSorted-tail x xs h)

pub Above-take : (n b : ℕ) (xs : List ℕ) → Above b xs → Above b (take n xs)
Above-take zero b xs h = tt
Above-take (suc n) b [] h = tt
Above-take (suc n) b (x ∷ xs) h = (h.0, Above-take n x xs h.1)

pub IsSorted-take : (n : ℕ) (xs : List ℕ) → IsSorted xs → IsSorted (take n xs)
IsSorted-take zero xs h = tt
IsSorted-take (suc n) [] h = tt
IsSorted-take (suc n) (x ∷ xs) h = Above-take n x xs h

module _ (F : Arith) where
  open F use {V}

  -- With fuel above the number of destination keys and a grain of at least one key, the match of a
  -- range is the join.
  pub match_range-eq-join :
      (fuel k : ℕ) (op : AssignOpType) (grainsize : ℕ)
      → (src : List ℕ) (sv : List V) (dst : List ℕ) (dv : List V) → length dst < fuel
      → 0 < grainsize
      → IsSorted src
      → IsSorted dst
      → match_range F fuel k op grainsize src sv dst dv ≡ join F k op src sv dst dv
  unfolding match_range both join
  match_range-eq-join zero k op g src sv dst dv hf hg hs hd = elim hf [ ]
  match_range-eq-join (suc fuel) k op g src sv [] dv hf hg hs hd = refl
  match_range-eq-join (suc fuel) k op g [] sv (d ∷ dst) dv hf hg hs hd =
      sym (join_missing F k op [] sv (d ∷ dst) dv (find_block-nil F k sv (d ∷ dst)))
  match_range-eq-join (suc fuel) k op g (s ∷ src) sv (d ∷ dst) dv hf hg hs hd =
      elim (Bool-cases (leb (length (d ∷ dst)) g)) [
        | inl fits ↦
            rw (fits, match_range)
              (match_loop-eq-join F k op src' sv' (d ∷ dst) dv hs' hd
                ∙ join-lower_bound F k op (s ∷ src) sv d dst dv hd)
        | inr large ↦
            rw (large, match_range)
              (ap₂ (both F)
                  (match_range-eq-join fuel k op g src' sv' (take half (d ∷ dst))
                    (take (half * k) dv) (ground (arith, length-take half (d ∷ dst))) hg hs'
                    (IsSorted-take half (d ∷ dst) hd))
                  (match_range-eq-join fuel k op g src' sv' (drop half (d ∷ dst))
                    (drop (half * k) dv) (ground (arith, length-drop half (d ∷ dst))) hg hs'
                    (IsSorted-drop half (d ∷ dst) hd))
                ∙ halves
                ∙ join-lower_bound F k op (s ∷ src) sv d dst dv hd)
      ]
    where
      skip : ℕ
      skip = lower_bound (s ∷ src) d

      src' : List ℕ
      src' = drop skip (s ∷ src)

      sv' : List V
      sv' = drop (skip * k) sv

      hs' : IsSorted src'
      hs' = IsSorted-drop skip (s ∷ src) hs

      half : ℕ
      half = length (d ∷ dst) / 2

      halves :
          both F
            (join F k op src' sv' (take half (d ∷ dst)) (take (half * k) dv))
            (join F k op src' sv' (drop half (d ∷ dst)) (drop (half * k) dv))
          ≡ join F k op src' sv' (d ∷ dst) dv
      halves =
          sym (
            join-append F k op src' sv' (take half (d ∷ dst)) (drop half (d ∷ dst)) dv (half * k)
              (ap (λ n. n * k) (omega (arith, length-take half (d ∷ dst)))))
          ∙ ap (λ ds. join F k op src' sv' ds dv) (take-append-drop half (d ∷ dst))
