-- ===== src/Base/Lists.antt =====
-- Lists measured and indexed by native numbers, under the library's names.
use Prim.Native.Nat.{ℕ, zero, suc, ◌+◌, ◌-◌, min}
use mathlib.Core.Path.{◌≡◌, refl, ap, ◌∙◌}
use mathlib.Core.List.{List, [], ◌∷◌, ◌++◌, map}
use mathlib.Core.Option.{Option, none, some}
use native.Mathlib.Omega.{arith}

module _ {ℓ} {A : Type ℓ} where
  abbrev pub length : List A → ℕ
  length [] = 0
  length (x ∷ xs) = suc (length xs)

  abbrev pub get_elem? : List A → ℕ → Option A
  get_elem? [] i = none
  get_elem? (x ∷ xs) zero = some x
  get_elem? (x ∷ xs) (suc i) = get_elem? xs i

  abbrev pub get_or : List A → ℕ → A → A
  get_or [] i d = d
  get_or (x ∷ xs) zero d = x
  get_or (x ∷ xs) (suc i) d = get_or xs i d

  -- A write out of bounds changes nothing.
  abbrev pub set : List A → ℕ → A → List A
  set [] i v = []
  set (x ∷ xs) zero v = v ∷ xs
  set (x ∷ xs) (suc i) v = x ∷ set xs i v

  abbrev pub take : ℕ → List A → List A
  take zero xs = []
  take (suc n) [] = []
  take (suc n) (x ∷ xs) = x ∷ take n xs

  abbrev pub drop : ℕ → List A → List A
  drop zero xs = xs
  drop (suc n) [] = []
  drop (suc n) (x ∷ xs) = drop n xs

  abbrev pub replicate : ℕ → A → List A
  replicate zero a = []
  replicate (suc n) a = a ∷ replicate n a

  pub length-append : (xs ys : List A) → length (xs ++ ys) ≡ length xs + length ys
  length-append [] ys = omega arith
  length-append (x ∷ xs) ys = omega (arith, length-append xs ys)

  pub length-take : (n : ℕ) (xs : List A) → length (take n xs) ≡ min n (length xs)
  length-take zero xs = omega arith
  length-take (suc n) [] = omega arith
  length-take (suc n) (x ∷ xs) = omega (arith, length-take n xs)

  pub length-drop : (n : ℕ) (xs : List A) → length (drop n xs) ≡ length xs - n
  length-drop zero xs = omega arith
  length-drop (suc n) [] = omega arith
  length-drop (suc n) (x ∷ xs) = omega (arith, length-drop n xs)

  pub length-replicate : (n : ℕ) (a : A) → length (replicate n a) ≡ n
  length-replicate zero a = refl
  length-replicate (suc n) a = ap suc (length-replicate n a)

  pub take-append-drop : (n : ℕ) (xs : List A) → take n xs ++ drop n xs ≡ xs
  take-append-drop zero xs = refl
  take-append-drop (suc n) [] = refl
  take-append-drop (suc n) (x ∷ xs) = ap (◌∷◌ x) (take-append-drop n xs)

suc_sum {ℓ} : {B : Type ℓ} (f : ℕ → B) (a b : ℕ) → f (suc a + b) ≡ f (suc (a + b))
suc_sum f a b = ap f (omega arith)

module _ {ℓ} {A : Type ℓ} where
  pub drop-add : (a b : ℕ) (xs : List A) → drop (a + b) xs ≡ drop b (drop a xs)
  drop-add zero b xs = ap (λ n. drop n xs) (omega arith)
  drop-add (suc a) zero [] = suc_sum (λ k. drop {A = A} k []) a zero
  drop-add (suc a) (suc b) [] = suc_sum (λ k. drop {A = A} k []) a (suc b)
  drop-add (suc a) b (x ∷ xs) = suc_sum (λ k. drop k (x ∷ xs)) a b ∙ drop-add a b xs

  pub take-take_add : (a b : ℕ) (xs : List A) → take a (take (a + b) xs) ≡ take a xs
  take-take_add zero b xs = refl
  take-take_add (suc a) b [] = suc_sum (λ k. take (suc a) (take {A = A} k [])) a b
  take-take_add (suc a) b (x ∷ xs) =
      suc_sum (λ k. take (suc a) (take k (x ∷ xs))) a b ∙ ap (◌∷◌ x) (take-take_add a b xs)

  pub take-add : (a b : ℕ) (xs : List A) → take (a + b) xs ≡ take a xs ++ take b (drop a xs)
  take-add zero b xs = ap (λ n. take n xs) (omega arith)
  take-add (suc a) zero [] = suc_sum (λ k. take {A = A} k []) a zero
  take-add (suc a) (suc b) [] = suc_sum (λ k. take {A = A} k []) a (suc b)
  take-add (suc a) b (x ∷ xs) = suc_sum (λ k. take k (x ∷ xs)) a b ∙ ap (◌∷◌ x) (take-add a b xs)

  pub drop-take_add : (a b : ℕ) (xs : List A) → drop a (take (a + b) xs) ≡ take b (drop a xs)
  drop-take_add zero b xs = ap (λ n. take n xs) (omega arith)
  drop-take_add (suc a) zero [] = suc_sum (λ k. drop (suc a) (take {A = A} k [])) a zero
  drop-take_add (suc a) (suc b) [] = suc_sum (λ k. drop (suc a) (take {A = A} k [])) a (suc b)
  drop-take_add (suc a) b (x ∷ xs) =
      suc_sum (λ k. drop (suc a) (take k (x ∷ xs))) a b ∙ drop-take_add a b xs

module _ {ℓ} {A : Type ℓ} where
  pub length-set : (xs : List A) (i : ℕ) (v : A) → length (set xs i v) ≡ length xs
  length-set [] i v = refl
  length-set (x ∷ xs) zero v = refl
  length-set (x ∷ xs) (suc i) v = ap suc (length-set xs i v)

  pub length-map {κ} : {B : Type κ} (f : A → B) (xs : List A) → length (map f xs) ≡ length xs
  length-map f [] = refl
  length-map f (x ∷ xs) = ap suc (length-map f xs)

  abbrev pub All {κ} : (A → Type κ) → List A → Type κ
  All P [] = Unit
  All P (x ∷ xs) = P x × All P xs

  pub All-zip {κ ν μ} :
      {P : A → Type κ} {Q : A → Type ν} {R : A → Type μ} (xs : List A)
      → ((x : A) → P x → Q x → R x)
      → All P xs
      → All Q xs
      → All R xs
  All-zip [] f hp hq = tt
  All-zip (x ∷ xs) f hp hq = (f x hp.0 hq.0, All-zip xs f hp.1 hq.1)

  pub All-take {κ} : (P : A → Type κ) (n : ℕ) (xs : List A) → All P xs → All P (take n xs)
  All-take P zero xs h = tt
  All-take P (suc n) [] h = tt
  All-take P (suc n) (x ∷ xs) h = (h.0, All-take P n xs h.1)

  pub All-drop {κ} : (P : A → Type κ) (n : ℕ) (xs : List A) → All P xs → All P (drop n xs)
  All-drop P zero xs h = h
  All-drop P (suc n) [] h = tt
  All-drop P (suc n) (x ∷ xs) h = All-drop P n xs h.1

  pub All-append {κ} : (P : A → Type κ) (xs ys : List A) → All P xs → All P ys → All P (xs ++ ys)
  All-append P [] ys hx hy = hy
  All-append P (x ∷ xs) ys hx hy = (hx.0, All-append P xs ys hx.1 hy)

-- xs.empty() ? a : b
abbrev pub if_empty {ℓ κ} : {A : Type ℓ} {B : Type κ} → List A → B → B → B
if_empty [] a b = a
if_empty (x ∷ xs) a b = b

pub if_empty-cons {ℓ κ} :
    {A : Type ℓ} {B : Type κ} {xs ys : List A} {x : A} (a : B) {b : B}
    → xs ≡ x ∷ ys
    → if_empty xs a b ≡ b
if_empty-cons a {b} e = ap (λ zs. if_empty zs a b) e

pub if_empty-nil {ℓ κ} :
    {A : Type ℓ} {B : Type κ} {xs : List A} {a : B} (b : B) → xs ≡ [] → if_empty xs a b ≡ a
if_empty-nil {a} b e = ap (λ zs. if_empty zs a b) e
