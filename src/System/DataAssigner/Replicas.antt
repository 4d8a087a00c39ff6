-- ===== src/System/DataAssigner/Replicas.antt =====
-- About DataAssigner::set of src/system/assigner.cc: how often the parts hold a file.
use parameter_server.Base.{
  ℕ, zero, suc, ◌+◌, ◌*◌, ◌<◌, ◌≡◌, refl, sym, ap, ◌∙◌, Bool, true, false, some, List, [], ◌∷◌,
  ◌++◌, arith, ◌==◌, lt→ltb, length, String, is_negative, if◌then◌else◌,
}
use parameter_server.Data.Common.{DataConfig, append_files, divide_files, shuffle_files}
use parameter_server.Data.Common.Divide.{count, count-append, all_files, count-divide_files}
use parameter_server.System.DataAssigner.{DataAssigner, append_parts, copies, replica_of, set}

module _ {M : Type 0} where
  length-append_parts : (xs ys : List (DataConfig M)) → length (append_parts xs ys) ≡ length xs
  unfolding append_parts
  length-append_parts [] ys = refl
  length-append_parts (x ∷ xs) [] = refl
  length-append_parts (x ∷ xs) (y ∷ ys) = ap suc (length-append_parts xs ys)

  count-append_parts :
      (name : String) (xs ys : List (DataConfig M))
      → length xs ≡ length ys
      → count name (all_files (append_parts xs ys))
        ≡ count name (all_files xs) + count name (all_files ys)
  unfolding append_parts all_files append_files count
  count-append_parts name [] [] h = refl
  count-append_parts name [] (y ∷ ys) h = ground (arith, h)
  count-append_parts name (x ∷ xs) [] h = ground (arith, h)
  count-append_parts name (x ∷ xs) (y ∷ ys) h =
      let rest = count-append_parts name xs ys (omega (arith, h)) in
      let both = count-append name (x.file ++ y.file) (all_files (append_parts xs ys)) in
      let first = count-append name x.file y.file in
      let left = count-append name x.file (all_files xs) in
      let right = count-append name y.file (all_files ys) in
      omega (arith, rest, both, first, left, right)

  -- The files of a round, which have the names of the round before it.
  round_files : (ℕ → List String → List String) → Bool → ℕ → DataConfig M → DataConfig M
  round_files order shuffle r files = if shuffle then shuffle_files (order r) files else files

  round_files-same :
      (order : ℕ → List String → List String) (shuffle : Bool) (r : ℕ) (files : DataConfig M)
      (name : String)
      → ((r : ℕ) (xs : List String) → count name (order r xs) ≡ count name xs)
      → (count name (round_files order shuffle r files).file ≡ count name files.file)
        × ((round_files order shuffle r files).max_num_files_per_worker
            ≡ files.max_num_files_per_worker)
  unfolding round_files shuffle_files
  round_files-same order true r files name h = (h r files.file, refl)
  round_files-same order false r files name h = (refl, refl)

  later_copies :
      (order : ℕ → List String → List String) (shuffle : Bool) (num r n : ℕ) (files : DataConfig M)
      (parts : List (DataConfig M)) (name : String)
      → ((r : ℕ) (xs : List String) → count name (order r xs) ≡ count name xs)
      → is_negative files.max_num_files_per_worker ≡ true
      → 0 < num
      → 0 < r
      → length parts ≡ num
      → (length (copies order shuffle num r n files parts) ≡ num)
        × (count name (all_files (copies order shuffle num r n files parts))
            ≡ count name (all_files parts) + n * count name files.file)
  unfolding copies round_files
  later_copies order shuffle num r zero files parts name h l p q e = (e, omega arith)
  later_copies order shuffle num zero (suc n) files parts name h l p q e = ground (arith, q)
  later_copies order shuffle num (suc r) (suc n) files parts name h l p q e =
      let files' = round_files order shuffle (suc r) files in
      let (same, limit) = round_files-same order shuffle (suc r) files name h in
      let (size, divided) = count-divide_files files' num name (ap is_negative limit ∙ l) p in
      let joined = append_parts parts (divide_files files' num) in
      let (size', rest) =
        later_copies order shuffle num (suc (suc r)) n files' joined name h
          (ap is_negative limit ∙ l) p (omega arith)
          (length-append_parts parts (divide_files files' num) ∙ e) in
      let added = count-append_parts name parts (divide_files files' num) (e ∙ sym size) in
      let n' : suc n * count name files.file ≡ count name files.file + n * count name files.file =
        grind arith in
      let scaled : n * count name files'.file ≡ n * count name files.file = ap (λ c. n * c) same in
      let later : (suc r == 0) ≡ false = ground arith in
      rw later (size', omega (arith, rest, added, divided, same, n', scaled))

  first_copy :
      (order : ℕ → List String → List String) (shuffle : Bool) (num n : ℕ) (files : DataConfig M)
      (parts : List (DataConfig M)) (name : String)
      → ((r : ℕ) (xs : List String) → count name (order r xs) ≡ count name xs)
      → is_negative files.max_num_files_per_worker ≡ true
      → 0 < num
      → 0 < n
      → (length (copies order shuffle num 0 n files parts) ≡ num)
        × (count name (all_files (copies order shuffle num 0 n files parts))
            ≡ n * count name files.file)
  unfolding copies round_files
  first_copy order shuffle num zero files parts name h l p q = ground (arith, q)
  first_copy order shuffle num (suc n) files parts name h l p q =
      let files' = round_files order shuffle 0 files in
      let (same, limit) = round_files-same order shuffle 0 files name h in
      let (size, divided) = count-divide_files files' num name (ap is_negative limit ∙ l) p in
      let (size', rest) =
        later_copies order shuffle num 1 n files' (divide_files files' num) name h
          (ap is_negative limit ∙ l) p (omega arith) size in
      let n' : suc n * count name files.file ≡ count name files.file + n * count name files.file =
        grind arith in
      let scaled : n * count name files'.file ≡ n * count name files.file = ap (λ c. n * c) same in
      (size', omega (arith, rest, divided, same, n', scaled))

  -- Setting a DataAssigner that is not local succeeds for at least one part and one copy. Where the
  -- number of files of a worker has no limit, it makes as many parts as are asked for, and each
  -- name that the search finds stands in all parts together as often as found, times the number of
  -- copies, whether the files are shuffled or not: a shuffled list has each name as often as before.
  pub count-set :
      (find : DataConfig M → DataConfig M) (order : ℕ → List String → List String)
      (conf : DataConfig M) (num : ℕ) (a : DataAssigner M) (name : String)
      → ((r : ℕ) (xs : List String) → count name (order r xs) ≡ count name xs)
      → is_negative (find conf).max_num_files_per_worker ≡ true
      → 0 < num
      → 0 < replica_of conf.replica
      → (a' : DataAssigner M) × (set find order conf num false a ≡ some a')
        × (length a'.parts_ ≡ num)
        × (count name (all_files a'.parts_) ≡ replica_of conf.replica * count name (find conf).file)
        × (a'.cur_i_ ≡ a.cur_i_)
  unfolding set
  count-set find order conf num a name h l p q =
      let (size, counted) =
        first_copy order conf.shuffle num (replica_of conf.replica) (find conf) a.parts_ name h l p
          q in
      (
        record a {
          parts_ = copies order conf.shuffle num 0 (replica_of conf.replica) (find conf) a.parts_;
        },
        rw (lt→ltb 0 num p, lt→ltb 0 (replica_of conf.replica) q) refl,
        size,
        counted,
        refl,
      )
