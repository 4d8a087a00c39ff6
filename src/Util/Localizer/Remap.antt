-- ===== src/Util/Localizer/Remap.antt =====
-- About the walk of RemapIndex in src/util/localizer.h over a dictionary and the sorted pairs.
use parameter_server.Base.{
  ℕ, zero, suc, ◌+◌, ◌<◌, ◌≡◌, refl, sym, ap, ◌∙◌, true, false, Option, some, none, List, [], ◌∷◌,
  length, set, ltb, arith, if◌then◌else◌, ◌==◌, Bool-cases, inl, inr,
}
use parameter_server.Util.SortedArray.{Above, IsSorted}
use parameter_server.Util.SortedArray.Laws.{IsSorted-tail}
use parameter_server.Util.ParallelSort.Order.{AtLeast, IsOrdered}
use parameter_server.Util.Localizer.{Pair, remap_loop}

-- The position of an index in a dictionary whose first entry has the number `pos`.
unfoldable pub position : ℕ → ℕ → List ℕ → Option ℕ
position pos k [] = none
position pos k (d ∷ dict) = if d == k then some pos else position (suc pos) k dict

-- Looking up each pair by itself: 1 more than its position, at its place.
abbrev pub placed : Option ℕ → ℕ → List ℕ × ℕ → List ℕ × ℕ
placed none i result = result
placed (some q) i (remapped, matched) = (set remapped i (q + 1), matched + 1)

unfoldable pub look_up_all : ℕ → List ℕ → List Pair → List ℕ × ℕ → List ℕ × ℕ
look_up_all pos dict [] result = result
look_up_all pos dict (p ∷ pairs) result =
    look_up_all pos dict pairs (placed (position pos p.k dict) p.i result)

look_up_all-nil :
    (pos : ℕ) (pairs : List Pair) (result : List ℕ × ℕ) → look_up_all pos [] pairs result ≡ result
unfolding look_up_all position
look_up_all-nil pos [] result = refl
look_up_all-nil pos (p ∷ pairs) result = look_up_all-nil pos pairs result

-- An entry of the dictionary below all pairs can be passed.
look_up_all_skip :
    (pos d b : ℕ) (dict : List ℕ) (pairs : List Pair) (result : List ℕ × ℕ)
    → d < b
    → AtLeast (λ p. p.k) b pairs
    → look_up_all pos (d ∷ dict) pairs result ≡ look_up_all (suc pos) dict pairs result
unfolding look_up_all position
look_up_all_skip pos d b dict [] result h o = refl
look_up_all_skip pos d b dict (p ∷ pairs) result h o =
    let e : (d == p.k) ≡ false = ground (arith, o.0) in
    rw e (look_up_all_skip pos d p.k dict pairs _ (omega (arith, o.0)) o.1)

position_below :
    (pos k d : ℕ) (dict : List ℕ) → Above d dict → k < d → position pos k (d ∷ dict) ≡ none
unfolding position
position_below pos k d [] a h = ground arith
position_below pos k d (x ∷ dict) a h =
    let e : (d == k) ≡ false = ground arith in
    rw (e, position) (position_below (suc pos) k x dict a.1 (omega (arith, a.0)))

lower_bound_zero :
    (b : ℕ) (pairs : List Pair) → AtLeast (λ p. p.k) b pairs → IsOrdered (λ p. p.k) pairs
lower_bound_zero b [] o = tt
lower_bound_zero b (p ∷ pairs) o = (omega arith, o.1)

position_here :
    (pos k d : ℕ) (dict : List ℕ) → (d == k) ≡ true → position pos k (d ∷ dict) ≡ some pos
unfolding position
position_here pos k d dict e = rw (e, position) refl

-- On a sorted dictionary and sorted pairs, the walk ends within as many rounds as both have entries
-- together, and one more, and leaves what looking up each pair by itself does: at the place of each
-- pair whose index the dictionary has, 1 more than its position there, nothing changed elsewhere,
-- and the number of these pairs.
pub remap_loop-look_up_all :
    (fuel pos : ℕ) (dict : List ℕ) (pairs : List Pair) (remapped : List ℕ) (matched : ℕ)
    → length dict + length pairs < fuel
    → IsSorted dict
    → IsOrdered (λ p. p.k) pairs
    → remap_loop fuel pos dict pairs remapped matched
      ≡ some (look_up_all pos dict pairs (remapped, matched))
unfolding remap_loop look_up_all
remap_loop-look_up_all zero pos dict pairs remapped matched h s o = ground (arith, h)
remap_loop-look_up_all (suc fuel) pos [] pairs remapped matched h s o =
    ap some (sym (look_up_all-nil pos pairs (remapped, matched)))
remap_loop-look_up_all (suc fuel) pos (d ∷ dict) [] remapped matched h s o = refl
remap_loop-look_up_all (suc fuel) pos (d ∷ dict) (p ∷ pairs) remapped matched h s o =
    elim (Bool-cases (ltb d p.k)) [
      | inl lt ↦
          rw (lt, remap_loop)
            (remap_loop-look_up_all fuel (suc pos) dict (p ∷ pairs) remapped matched
                (omega (arith, h)) (IsSorted-tail d dict s) o
              ∙ ap some (
                  sym (
                    look_up_all_skip pos d p.k dict (p ∷ pairs) (remapped, matched) (ground arith)
                      (omega arith, o.1))))
      | inr ge ↦ elim (Bool-cases (d == p.k)) [
        | inl e ↦
            rw (ge, e, remap_loop)
              (remap_loop-look_up_all fuel pos (d ∷ dict) pairs (set remapped p.i (pos + 1))
                  (matched + 1) (omega (arith, h)) s (lower_bound_zero p.k pairs o.1)
                ∙ ap
                    (λ q.
                      some (look_up_all pos (d ∷ dict) pairs (placed q p.i (remapped, matched))))
                    (sym (position_here pos p.k d dict e)))
        | inr e ↦
            rw (ge, e, remap_loop)
              (remap_loop-look_up_all fuel pos (d ∷ dict) pairs remapped matched (omega (arith, h))
                  s (lower_bound_zero p.k pairs o.1)
                ∙ ap
                    (λ q.
                      some (look_up_all pos (d ∷ dict) pairs (placed q p.i (remapped, matched))))
                    (sym (position_below pos p.k d dict s (ground arith))))
      ]
    ]
