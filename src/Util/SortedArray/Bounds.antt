-- ===== src/Util/SortedArray/Bounds.antt =====
-- Where std::lower_bound splits a sorted array of keys.
use parameter_server.Base.{
  ℕ, ◌≤◌, ◌<◌, List, [], ◌∷◌, arith, ltb, length, take, drop, All, Bool-cases, inl, inr, ltb→lt,
}
use parameter_server.Util.SortedArray.{Above, IsSorted, lower_bound}
use parameter_server.Util.SortedArray.Laws.{IsSorted-tail}

pub lower_bound-le : (xs : List ℕ) (k : ℕ) → lower_bound xs k ≤ length xs
unfolding lower_bound
lower_bound-le [] k = omega arith
lower_bound-le (x ∷ xs) k = ground (arith, lower_bound-le xs k)

pub lower_bound_mono : (xs : List ℕ) (j k : ℕ) → j ≤ k → lower_bound xs j ≤ lower_bound xs k
unfolding lower_bound
lower_bound_mono [] j k h = omega arith
lower_bound_mono (x ∷ xs) j k h = ground (arith, lower_bound_mono xs j k)

pub All-map : {P Q : ℕ → Type 0} (xs : List ℕ) → ((x : ℕ) → P x → Q x) → All P xs → All Q xs
All-map [] f h = tt
All-map (x ∷ xs) f h = (f x h.0, All-map xs f h.1)

-- The entries in front of the bound are below the key, and on a sorted array those behind are not.
pub All-take-lower_bound : (xs : List ℕ) (k : ℕ) → All (λ x. x < k) (take (lower_bound xs k) xs)
unfolding lower_bound
All-take-lower_bound [] k = tt
All-take-lower_bound (x ∷ xs) k = elim (Bool-cases (ltb x k)) [
  | inl h ↦ rw (h, lower_bound) (ltb→lt x k h, All-take-lower_bound xs k)
  | inr h ↦ rw (h, lower_bound) tt
]

All-Above : (b k : ℕ) (xs : List ℕ) → k ≤ b → Above b xs → All (λ x. k ≤ x) xs
All-Above b k [] h s = tt
All-Above b k (x ∷ xs) h s = (omega arith, All-Above x k xs (omega arith) s.1)

pub All-drop-lower_bound :
    (xs : List ℕ) (k : ℕ) → IsSorted xs → All (λ x. k ≤ x) (drop (lower_bound xs k) xs)
unfolding lower_bound
All-drop-lower_bound [] k s = tt
All-drop-lower_bound (x ∷ xs) k s = elim (Bool-cases (ltb x k)) [
  | inl h ↦ rw (h, lower_bound) (All-drop-lower_bound xs k (IsSorted-tail x xs s))
  | inr h ↦ rw (h, lower_bound) (ground arith, All-Above x k xs (ground arith) s)
]
