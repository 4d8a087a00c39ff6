-- ===== src/Data/Common.antt =====
-- src/data/common.cc: lists of data files, their division into parts, and the summaries of examples.
-- DataConfig and ExampleInfo are those of src/data/proto.
pub mod Divide
use Prim.Native.String.{◌++◌ as concat}
use parameter_server.Base.{
  ℕ, zero, suc, ◌+◌, ◌%◌, ◌^◌, min, max, Bool, true, false, not, ◌&&◌, Option, some, none, List, [],
  ◌∷◌, ◌++◌, ◌==◌, ltb, leb, length, get_elem?, check, ◌>>=◌, ◌>>◌, String, ℤ, pos, negsuc, eqb_ℤ,
  is_negative, if◌then◌else◌,
}
use parameter_server.Util.Range.{u64_mod}

-- The fields that the code here reads; the others are a value of M, which it copies.
pub record DataConfig (M : Type 0) : Type 0 where
  pub file : List String
  pub max_num_files_per_worker : ℤ
  pub shuffle : Bool
  pub replica : ℤ
  pub others : M

-- load_limit >= 0 && dc.file_size() >= load_limit
abbrev pub reached : ℤ → ℕ → Bool
reached (negsuc limit) n = false
reached (pos limit) n = leb limit n

-- The inner loop of divideFiles, from the file number j, for a part that holds `part` already.
unfoldable pub part_from : ℤ → (num i j : ℕ) → List String → List String → List String
part_from limit num i j [] part = part
part_from limit num i j (name ∷ names) part =
    let part' = if j % num == i then part ++ name ∷ [] else part in
    let rest = part_from limit num i (suc j) names part' in
    if reached limit (length part') then part' else rest

module _ {M : Type 0} where
  -- ithFile(conf, i, suffix)
  unfoldable pub ith_file : DataConfig M → ℤ → String → Option (DataConfig M)
  ith_file conf (negsuc i) suffix = none
  ith_file conf (pos i) suffix = do
    name ← get_elem? conf.file i
    some (record conf { file = concat name suffix ∷ [] })

  -- appendFiles(A, B)
  unfoldable pub append_files : DataConfig M → DataConfig M → DataConfig M
  append_files a b = record a { file = a.file ++ b.file }

  -- The outer loop, from the part number i with n parts left.
  unfoldable pub parts_from : DataConfig M → (num i n : ℕ) → List (DataConfig M)
  unfolding part_from
  parts_from conf num i zero = []
  parts_from conf num i (suc n) =
      record conf { file = part_from conf.max_num_files_per_worker num i 0 conf.file [] }
      ∷ parts_from conf num (suc i) n

  -- divideFiles(data, num)
  unfoldable pub divide_files : DataConfig M → ℕ → List (DataConfig M)
  unfolding parts_from
  divide_files conf num = parts_from conf num 0 num

  -- shuffleFiles(data), with the random order as a parameter.
  unfoldable pub shuffle_files : (List String → List String) → DataConfig M → DataConfig M
  shuffle_files order conf = record conf { file = order conf.file }

pub data SlotFormat : Type 0 where
  dense sparse sparse_binary : SlotFormat

pub record SlotInfo : Type 0 where
  pub format : SlotFormat
  pub id : ℤ
  pub min_key : ℕ
  pub max_key : ℕ
  pub nnz_ele : ℕ
  pub nnz_ex : ℕ

pub record ExampleInfo : Type 0 where
  pub slot : List SlotInfo
  pub num_ex : ℕ

abbrev pub format_code : SlotFormat → ℕ
format_code dense = 1
format_code sparse = 2
format_code sparse_binary = 3

abbrev pub lt_ℤ : ℤ → ℤ → Bool
lt_ℤ (pos a) (pos b) = ltb a b
lt_ℤ (pos a) (negsuc b) = false
lt_ℤ (negsuc a) (pos b) = true
lt_ℤ (negsuc a) (negsuc b) = ltb b a

-- A std::map from the id of a slot to the slot, as its entries in the order of their keys.
abbrev pub SlotMap : Type 0
SlotMap = List (ℤ × SlotInfo)

unfoldable pub find_slot : ℤ → SlotMap → Option SlotInfo
find_slot id [] = none
find_slot id ((key, slot) ∷ slots) = if eqb_ℤ key id then some slot else find_slot id slots

-- slots[id] = slot
unfoldable pub set_slot : ℤ → SlotInfo → SlotMap → SlotMap
set_slot id slot [] = (id, slot) ∷ []
set_slot id slot ((key, old) ∷ slots) =
    let rest = set_slot id slot slots in
    if lt_ℤ id key
    then (id, slot) ∷ (key, old) ∷ slots
    else if eqb_ℤ key id
    then (key, slot) ∷ slots
    else (key, old) ∷ rest

-- What mergeExampleInfo does with two slots of one id, in 64 bits.
unfoldable pub merge_slot : SlotInfo → SlotInfo → Option SlotInfo
merge_slot a b = do
  check (format_code a.format == format_code b.format)
  some (record a {
    min_key = min a.min_key b.min_key;
    max_key = max a.max_key b.max_key;
    nnz_ele = (a.nnz_ele + b.nnz_ele) % u64_mod;
    nnz_ex = (a.nnz_ex + b.nnz_ex) % u64_mod;
  })

-- Its first loop.
unfoldable pub store_slots : List SlotInfo → SlotMap → SlotMap
unfolding set_slot
store_slots [] slots = slots
store_slots (a ∷ rest) slots = store_slots rest (set_slot a.id a slots)

-- Its second loop.
unfoldable pub merge_slots : List SlotInfo → SlotMap → Option SlotMap
unfolding set_slot merge_slot find_slot
merge_slots [] slots = some slots
merge_slots (b ∷ rest) slots = elim (find_slot b.id slots) [
  | none ↦ merge_slots rest (set_slot b.id b slots)
  | some a ↦ do merged ← merge_slot a b; merge_slots rest (set_slot b.id merged slots)
]

unfoldable pub slots_of : SlotMap → List SlotInfo
slots_of [] = []
slots_of ((id, slot) ∷ slots) = slot ∷ slots_of slots

-- mergeExampleInfo(A, B)
unfoldable pub merge_example_info : ExampleInfo → ExampleInfo → Option ExampleInfo
unfolding store_slots merge_slots slots_of
merge_example_info a b = do
  slots ← merge_slots b.slot (store_slots a.slot [])
  some (record { slot = slots_of slots; num_ex = (a.num_ex + b.num_ex) % u64_mod })

-- MatrixInfo of src/util/proto/matrix.proto, as far as readMatrixInfo sets it; `none` is a field
-- that is not set.
pub record MatrixInfo : Type 0 where
  pub type : SlotFormat
  pub id : ℤ
  pub row_end : ℕ
  pub col_begin : ℕ
  pub col_end : ℕ
  pub nnz : ℕ
  pub sizeof_index : ℕ
  pub sizeof_value : ℕ

unfoldable pub first_slot : ℤ → List SlotInfo → Option SlotInfo
first_slot id [] = none
first_slot id (slot ∷ slots) = if eqb_ℤ slot.id id then some slot else first_slot id slots

-- readMatrixInfo(info, slot_id, sizeof_idx, sizeof_val); `none` is the empty MatrixInfo that is
-- returned for a slot that is not there.
unfoldable pub read_matrix_info : ExampleInfo → ℤ → ℕ → ℕ → Option MatrixInfo
unfolding first_slot
read_matrix_info info id sizeof_idx sizeof_val = do
  slot ← first_slot id info.slot
  some (record {
    type = slot.format;
    id = slot.id;
    row_end = info.num_ex;
    col_begin = slot.min_key;
    col_end = slot.max_key;
    nnz = slot.nnz_ele;
    sizeof_index = sizeof_idx;
    sizeof_value = sizeof_val;
  })
