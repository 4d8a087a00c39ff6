-- ===== src/System/DataAssigner.antt =====
-- DataAssigner of src/system/assigner.h and .cc: the files of a data set, divided among workers.
pub mod Replicas
use parameter_server.Base.{
  ℕ, zero, suc, ◌+◌, ◌≤◌, Bool, true, false, Option, some, none, List, [], ◌∷◌, ◌++◌, ◌==◌, ltb,
  leb, length, get_elem?, replicate, check, ◌>>=◌, ◌>>◌, String, ℤ, pos, negsuc, if◌then◌else◌,
}
use parameter_server.Data.Common.{DataConfig, append_files, divide_files, shuffle_files}

pub record DataAssigner (M : Type 0) : Type 0 where
  pub parts_ : List (DataConfig M)
  pub cur_i_ : ℕ

-- data.replica() where it is above 0.
abbrev pub replica_of : ℤ → ℕ
replica_of (pos n) = n
replica_of (negsuc n) = 0

module _ {M : Type 0} where
  -- The inner loop of set: each part with the part of the same number of the next copy.
  unfoldable pub append_parts : List (DataConfig M) → List (DataConfig M) → List (DataConfig M)
  append_parts (a ∷ parts) (b ∷ pts) = append_files a b ∷ append_parts parts pts
  append_parts parts pts = parts

  -- The loop of set over the copies, from the copy r with n left; `order r` is the random order of
  -- that copy.
  unfoldable pub copies :
      (ℕ → List String → List String)
      → Bool
      → (num r n : ℕ) → DataConfig M
      → List (DataConfig M)
      → List (DataConfig M)
  unfolding append_parts
  copies order shuffle num r zero files parts = parts
  copies order shuffle num r (suc n) files parts =
      let files' = if shuffle then shuffle_files (order r) files else files in
      let pts = divide_files files' num in
      copies order shuffle num (suc r) n files' (if r == 0 then pts else append_parts parts pts)

  -- set(data, num, local), with searchFiles, which reads directories, as the parameter `find`.
  unfoldable pub set :
      (DataConfig M → DataConfig M)
      → (ℕ → List String → List String)
      → DataConfig M
      → ℕ
      → Bool
      → DataAssigner M
      → Option (DataAssigner M)
  unfolding copies
  set find order conf num local a =
      check (ltb 0 num)
      >> (if local then some (record a { parts_ = replicate num conf }) else (do
        check (ltb 0 (replica_of conf.replica))
        some (record a {
          parts_ = copies order conf.shuffle num 0 (replica_of conf.replica) (find conf) a.parts_;
        })))

  -- next(data): what is written through the pointer, where there is a part left.
  unfoldable pub next : DataAssigner M → DataAssigner M × Option (DataConfig M)
  next a = elim (get_elem? a.parts_ a.cur_i_) [
    | none ↦ (a, none)
    | some part ↦ (record a { cur_i_ = a.cur_i_ + 1 }, some part)
  ]
