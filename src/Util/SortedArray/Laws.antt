-- ===== src/Util/SortedArray/Laws.antt =====
-- About the set operations of src/util/shared_array_inl.h.
use parameter_server.Base.{ℕ, ◌≤◌, ◌≡◌, refl, Bool, false, ◌&&◌, ◌||◌, List, [], ◌∷◌, arith, ◌==◌}
use parameter_server.Util.SortedArray.{Above, IsSorted, set_union, set_intersection}

unfoldable pub mem : ℕ → List ℕ → Bool
mem v [] = false
mem v (x ∷ xs) = (x == v) || mem v xs

pub Above-mono : (a b : ℕ) (xs : List ℕ) → a ≤ b → Above b xs → Above a xs
Above-mono a b [] h s = tt
Above-mono a b (x ∷ xs) h s = (omega arith, s.1)

pub mem_below : (b v : ℕ) (xs : List ℕ) → Above b xs → v ≤ b → mem v xs ≡ false
unfolding mem
mem_below b v [] s h = refl
mem_below b v (x ∷ xs) s h = ground (arith, mem_below x v xs s.1)

Above-set_union : (b : ℕ) (xs ys : List ℕ) → Above b xs → Above b ys → Above b (set_union xs ys)
unfolding set_union
Above-set_union b [] ys hx hy = hy
Above-set_union b (x ∷ xs) [] hx hy = hx
Above-set_union b (x ∷ xs) (y ∷ ys) hx hy = ground (
  arith,
  Above-set_union x xs (y ∷ ys) hx.1,
  Above-set_union y (x ∷ xs) ys,
  Above-set_union x xs ys hx.1,
  Above-mono x y ys,
)

mem-set_union : (v : ℕ) (xs ys : List ℕ) → mem v (set_union xs ys) ≡ (mem v xs || mem v ys)
unfolding set_union mem
mem-set_union v [] ys = refl
mem-set_union v (x ∷ xs) [] = ground arith
mem-set_union v (x ∷ xs) (y ∷ ys) =
    ground (arith, mem-set_union v xs (y ∷ ys), mem-set_union v (x ∷ xs) ys, mem-set_union v xs ys)

-- The union of two sorted arrays is sorted and holds the keys of both, each once.
pub set_union_lem :
    (xs ys : List ℕ)
    → IsSorted xs
    → IsSorted ys
    → IsSorted (set_union xs ys) × ((v : ℕ) → mem v (set_union xs ys) ≡ (mem v xs || mem v ys))
unfolding set_union
set_union_lem [] ys hx hy = (hy, λ v. mem-set_union v [] ys)
set_union_lem (x ∷ xs) [] hx hy = (hx, λ v. mem-set_union v (x ∷ xs) [])
set_union_lem (x ∷ xs) (y ∷ ys) hx hy = (
  ground (
    arith,
    Above-set_union x xs (y ∷ ys) hx,
    Above-set_union y (x ∷ xs) ys,
    Above-set_union x xs ys hx,
    Above-mono x y ys,
  ),
  λ v. mem-set_union v (x ∷ xs) (y ∷ ys),
)

Above-set_intersection :
    (b : ℕ) (xs ys : List ℕ) → Above b xs → Above b ys → Above b (set_intersection xs ys)
unfolding set_intersection
Above-set_intersection b [] ys hx hy = tt
Above-set_intersection b (x ∷ xs) [] hx hy = tt
Above-set_intersection b (x ∷ xs) (y ∷ ys) hx hy = ground (
  arith,
  Above-set_intersection b xs (y ∷ ys),
  Above-set_intersection b (x ∷ xs) ys,
  Above-set_intersection x xs ys hx.1,
  Above-mono b x xs,
  Above-mono b y ys,
  Above-mono x y ys,
)

pub IsSorted-tail : (x : ℕ) (xs : List ℕ) → Above x xs → IsSorted xs
IsSorted-tail x [] h = tt
IsSorted-tail x (y ∷ ys) h = h.1

mem-set_intersection :
    (v : ℕ) (xs ys : List ℕ)
    → IsSorted xs
    → IsSorted ys
    → mem v (set_intersection xs ys) ≡ (mem v xs && mem v ys)
unfolding set_intersection mem
mem-set_intersection v [] ys hx hy = refl
mem-set_intersection v (x ∷ xs) [] hx hy = ground arith
mem-set_intersection v (x ∷ xs) (y ∷ ys) hx hy = ground (
  arith,
  mem-set_intersection v xs (y ∷ ys) (IsSorted-tail x xs hx),
  mem-set_intersection v (x ∷ xs) ys hx (IsSorted-tail y ys hy),
  mem-set_intersection v xs ys (IsSorted-tail x xs hx) (IsSorted-tail y ys hy),
  mem_below x v xs hx,
  mem_below y v ys hy,
)

set_intersection-IsSorted :
    (xs ys : List ℕ) → IsSorted xs → IsSorted ys → IsSorted (set_intersection xs ys)
unfolding set_intersection
set_intersection-IsSorted [] ys hx hy = tt
set_intersection-IsSorted (x ∷ xs) [] hx hy = tt
set_intersection-IsSorted (x ∷ xs) (y ∷ ys) hx hy = ground (
  arith,
  set_intersection-IsSorted xs (y ∷ ys) (IsSorted-tail x xs hx),
  set_intersection-IsSorted (x ∷ xs) ys hx (IsSorted-tail y ys hy),
  Above-set_intersection x xs ys hx,
  Above-mono x y ys,
)

-- The intersection of two sorted arrays is sorted and holds exactly their common keys.
pub set_intersection_lem :
    (xs ys : List ℕ)
    → IsSorted xs
    → IsSorted ys
    → IsSorted (set_intersection xs ys)
      × ((v : ℕ) → mem v (set_intersection xs ys) ≡ (mem v xs && mem v ys))
set_intersection_lem xs ys hx hy =
    (set_intersection-IsSorted xs ys hx hy, λ v. mem-set_intersection v xs ys hx hy)
