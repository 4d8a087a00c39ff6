-- ===== src/Util/Range/Divide.antt =====
-- Range::EvenDivide of src/util/range.h. `long double` is no code of the repository: its operations
-- are a record, with the laws of IEEE arithmetic that the division of the key space relies on.
use parameter_server.Base.{
  ℕ, ◌+◌, ◌-◌, ◌≤◌, ◌<◌, ◌≡◌, refl, Option, some, arith, ltb, lt→ltb, check, ◌>>◌, true, ap, ◌∙◌,
}
use parameter_server.Util.Range.{Range, u64_mod, valid}

pub record LongDouble : Type 1 where
  pub Real : Type 0
  pub of_size : ℕ → Real
  pub to_size : Real → ℕ
  pub add : Real → Real → Real
  pub mul : Real → Real → Real
  pub div : Real → Real → Real

-- static_cast<long double>(end_ - begin_) / static_cast<long double>(n)
abbrev pub interval : (F : LongDouble) → Range → ℕ → F.Real
interval F r n = F.div (F.of_size (r.end - r.begin)) (F.of_size n)

-- begin_ + itv * i
abbrev pub point : (F : LongDouble) → Range → ℕ → ℕ → F.Real
point F r n i = F.add (F.of_size r.begin) (F.mul (interval F r n) (F.of_size i))

-- static_cast<T>(begin_ + itv * i), whatever it gives where that is no 64-bit number
abbrev pub cut : (F : LongDouble) → Range → ℕ → ℕ → ℕ
cut F r n i = F.to_size (point F r n i)

-- EvenDivide(n, i): its three CHECKs, then the i-th part of n.
unfoldable pub even_divide : (F : LongDouble) → Range → ℕ → ℕ → Option Range
even_divide F r n i = do
  check (valid r)
  check (ltb 0 n)
  check (ltb i n)
  some (record { begin = cut F r n i; end = cut F r n (i + 1) })

-- What IEEE arithmetic with a mantissa of 64 bits documents, on sizes of 64 bits: products with zero
-- and sums with zero are exact, each size has a number, and rounding is monotone; and what C++ says
-- of the conversion to 64 bits: it truncates where the integer part fits, and may give anything else.
pub record IsIeee (F : LongDouble) : Type 0 where
  pub truncate : F.Real → ℕ
  pub converts : (x : F.Real) → truncate x < u64_mod → F.to_size x ≡ truncate x
  pub mul_zero :
      (r : Range) (n : ℕ)
      → r.end < u64_mod
      → n < u64_mod
      → 0 < n
      → F.mul (interval F r n) (F.of_size 0) ≡ F.of_size 0
  pub add_zero : (a : ℕ) → a < u64_mod → F.add (F.of_size a) (F.of_size 0) ≡ F.of_size a
  pub exact : (a : ℕ) → a < u64_mod → truncate (F.of_size a) ≡ a
  pub mono :
      (r : Range) (n i j : ℕ)
      → r.begin < u64_mod
      → r.end < u64_mod
      → n < u64_mod
      → i ≤ j
      → j ≤ n
      → 0 < n
      → truncate (point F r n i) ≤ truncate (point F r n j)

module _ (F : LongDouble) where
  -- On a valid range and an index below n the division succeeds.
  pub even_divide-eq-some :
      (r : Range) (n i : ℕ)
      → valid r ≡ true
      → i < n
      → even_divide F r n i ≡ some (record { begin = cut F r n i; end = cut F r n (i + 1) })
  unfolding even_divide
  even_divide-eq-some r n i v h = rw (v, lt→ltb 0 n (omega arith), lt→ltb i n h) refl

  -- The first part begins where the range does.
  pub cut_zero :
      IsIeee F
      → (r : Range) (n : ℕ) → 0 < n
      → n < u64_mod
      → r.begin < u64_mod
      → r.end < u64_mod
      → cut F r n 0 ≡ r.begin
  cut_zero ieee r n h m b e =
      let begins : point F r n 0 ≡ F.of_size r.begin =
        ap (F.add (F.of_size r.begin)) (ieee.mul_zero r n e m h) ∙ ieee.add_zero r.begin b in
      let size = ieee.exact r.begin b in
      ap F.to_size begins ∙ ieee.converts (F.of_size r.begin) (omega (arith, size, b)) ∙ size

  -- Where the last of the cuts fits into 64 bits, the cuts ascend, and are the integer parts.
  pub cut_mono :
      (ieee : IsIeee F) (r : Range) (n i j : ℕ)
      → r.begin < u64_mod
      → r.end < u64_mod
      → n < u64_mod
      → ieee.truncate (point F r n n) < u64_mod
      → i ≤ j
      → j ≤ n
      → 0 < n
      → cut F r n i ≤ cut F r n j
  cut_mono ieee r n i j b e m fits h k p =
      let below = ieee.mono r n i j b e m h k p in
      let last = ieee.mono r n j n b e m k (omega arith) p in
      let ci = ieee.converts (point F r n i) (omega (arith, below, last, fits)) in
      let cj = ieee.converts (point F r n j) (omega (arith, last, fits)) in
      omega (arith, below, ci, cj)

  -- Neighbouring parts meet with no gap and no overlap, whatever the rounding does.
  pub even_divide_adjacent :
      (r : Range) (n i : ℕ) (a b : Range)
      → even_divide F r n i ≡ some a
      → even_divide F r n (i + 1) ≡ some b
      → a.end ≡ b.begin
  unfolding even_divide
  even_divide_adjacent r n i a b h k = ground arith
