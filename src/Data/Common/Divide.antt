-- ===== src/Data/Common/Divide.antt =====
-- About divideFiles of src/data/common.cc: which files the parts hold.
use native.Mathlib.Nat.{mod-lt}
use parameter_server.Base.{
  ℕ, zero, suc, ◌+◌, ◌%◌, ◌<◌, ◌≡◌, refl, ap, ◌∙◌, Bool, true, false, List, [], ◌∷◌, ◌++◌, arith,
  ◌==◌, leb, ltb, ◌&&◌, length, String, string_eq, ◌=?◌, is_negative, ℤ, pos, negsuc, if◌then◌else◌,
}
use parameter_server.Data.Common.{DataConfig, part_from, parts_from, divide_files}

-- How often a name is in a list.
unfoldable pub count : String → List String → ℕ
count name [] = 0
count name (x ∷ xs) = (if x =? name then 1 else 0) + count name xs

pub count-append :
    (name : String) (xs ys : List String) → count name (xs ++ ys) ≡ count name xs + count name ys
unfolding count
count-append name [] ys = omega arith
count-append name (x ∷ xs) ys = omega (arith, count-append name xs ys)

-- Without a limit, a part has the files whose number leaves the part's remainder.
picked : (num i j : ℕ) → String → List String → ℕ
picked num i j name [] = 0
picked num i j name (x ∷ xs) =
    (if j % num == i then count name (x ∷ []) else 0) + picked num i (suc j) name xs

count-part_from :
    (limit : ℤ) (num i : ℕ) (name : String) (j : ℕ) (xs part : List String)
    → is_negative limit ≡ true
    → count name (part_from limit num i j xs part) ≡ count name part + picked num i j name xs
unfolding part_from picked
count-part_from (pos limit) num i name j xs part h = cc
count-part_from (negsuc limit) num i name j [] part h = omega arith
count-part_from (negsuc limit) num i name j (x ∷ xs) part h =
    let p = if j % num == i then part ++ x ∷ [] else part in
    let rest = count-part_from (negsuc limit) num i name (suc j) xs p h in
    let more = count-append name part (x ∷ []) in
    rest ∙ go (j % num == i) (picked num i (suc j) name xs) more
  where
    go :
        (b : Bool) (n : ℕ)
        → count name (part ++ x ∷ []) ≡ count name part + count name (x ∷ [])
        → count name (if b then part ++ x ∷ [] else part) + n
          ≡ count name part + ((if b then count name (x ∷ []) else 0) + n)
    go true n e = omega (arith, e)
    go false n e = omega arith

-- The picked files of the n parts from i on.
picked_by : (num i n j : ℕ) → String → List String → ℕ
picked_by num i zero j name xs = 0
picked_by num i (suc n) j name xs = picked num i j name xs + picked_by num (suc i) n j name xs

picked_by-nil : (num i n j : ℕ) (name : String) → picked_by num i n j name [] ≡ 0
unfolding picked_by picked
picked_by-nil num i zero j name = refl
picked_by-nil num i (suc n) j name = omega (arith, picked_by-nil num (suc i) n j name)

picked_by-cons :
    (num i n j : ℕ) (name x : String) (xs : List String)
    → picked_by num i n j name (x ∷ xs)
      ≡ (if leb i (j % num) && ltb (j % num) (i + n) then count name (x ∷ []) else 0)
        + picked_by num i n (suc j) name xs
unfolding picked_by picked
picked_by-cons num i zero j name x xs = ground arith
picked_by-cons num i (suc n) j name x xs =
    let rest = picked_by-cons num (suc i) n j name x xs in
    split (j % num) (count name (x ∷ [])) (picked num i (suc j) name xs)
      (picked_by num (suc i) n j name (x ∷ xs)) (picked_by num (suc i) n (suc j) name xs) rest
  where
    split :
        (r c p q s : ℕ)
        → q ≡ (if leb (suc i) r && ltb r (suc i + n) then c else 0) + s
        → (if r == i then c else 0) + p + q
          ≡ (if leb i r && ltb r (i + suc n) then c else 0) + (p + s)
    split r c p q s e = ground (arith, e)

picked_by_all :
    (num j : ℕ) (name : String) (xs : List String)
    → 0 < num
    → picked_by num 0 num j name xs ≡ count name xs
unfolding count
picked_by_all num j name [] h = picked_by-nil num 0 num j name
picked_by_all num j name (x ∷ xs) h =
    let rest = picked_by_all num (suc j) name xs h in
    let below = mod-lt j h in
    picked_by-cons num 0 num j name x xs
    ∙ last (j % num) (if x =? name then 1 else 0) (picked_by num 0 num (suc j) name xs)
        (count name xs) below rest
  where
    last :
        (r c p q : ℕ)
        → r < num
        → p ≡ q
        → (if leb 0 r && ltb r (0 + num) then c + 0 else 0) + p ≡ c + q
    last r c p q b e = ground (arith, b, e)

module _ {M : Type 0} where
  -- The files of all parts.
  unfoldable pub all_files : List (DataConfig M) → List String
  all_files [] = []
  all_files (part ∷ parts) = part.file ++ all_files parts

  count-parts_from :
      (conf : DataConfig M) (num i n : ℕ) (name : String)
      → is_negative conf.max_num_files_per_worker ≡ true
      → count name (all_files (parts_from conf num i n)) ≡ picked_by num i n 0 name conf.file
  unfolding all_files parts_from picked_by count
  count-parts_from conf num i zero name h = refl
  count-parts_from conf num i (suc n) name h =
      let part = part_from conf.max_num_files_per_worker num i 0 conf.file [] in
      let first = count-part_from conf.max_num_files_per_worker num i name 0 conf.file [] h in
      let rest = count-parts_from conf num (suc i) n name h in
      let all = count-append name part (all_files (parts_from conf num (suc i) n)) in
      omega (arith, all, first, rest)

  pub length-parts_from : (conf : DataConfig M) (num i n : ℕ) → length (parts_from conf num i n) ≡ n
  unfolding parts_from
  length-parts_from conf num i zero = refl
  length-parts_from conf num i (suc n) = ap suc (length-parts_from conf num (suc i) n)

  -- Where the number of files of a worker has no limit, dividing the files makes as many parts as
  -- are asked for, at least one, and neither loses nor repeats a file: each name stands as often in
  -- all parts together as in the list that is divided.
  pub count-divide_files :
      (conf : DataConfig M) (num : ℕ) (name : String)
      → is_negative conf.max_num_files_per_worker ≡ true
      → 0 < num
      → (length (divide_files conf num) ≡ num)
        × (count name (all_files (divide_files conf num)) ≡ count name conf.file)
  unfolding divide_files
  count-divide_files conf num name h p = (
    length-parts_from conf num 0 num,
    count-parts_from conf num 0 num name h ∙ picked_by_all num 0 name conf.file p,
  )
