-- ===== src/Tests/Files.antt =====
-- File lists that are divided, and layers that are sliced.
use parameter_server.Base.{
  ℕ, ◌*◌, ◌≡◌, refl, true, false, List, [], ◌∷◌, some, arith, length, negsuc, pos,
}
use parameter_server.Tests.Fixtures.{range, data_message, push_call, nat_double, nat_double-IsIeee}
use parameter_server.System.Message.{Message, DataType, of_task, empty_task}
use parameter_server.Data.Common.{DataConfig, divide_files}
use parameter_server.Data.Common.Divide.{count, all_files, count-divide_files}
use parameter_server.System.DataAssigner.{DataAssigner, set}
use parameter_server.System.DataAssigner.Replicas.{count-set}
use parameter_server.Parameter.KvLayer.{LayerEnv, KvLayer, slice}
use parameter_server.Parameter.KvLayer.Partition.{carried, slice-carried}

abbrev files : DataConfig (Unit {0})
files = record {
  file = "a" ∷ "b" ∷ "c" ∷ [];
  max_num_files_per_worker = negsuc 0;
  shuffle = false;
  replica = pos 2;
  others = tt;
}

count-divide_files_example :
    (length (divide_files files 2) ≡ 2)
    × (count "b" (all_files (divide_files files 2)) ≡ count "b" ("a" ∷ "b" ∷ "c" ∷ []))
count-divide_files_example = count-divide_files files 2 "b" refl (omega arith)

abbrev no_parts : DataAssigner (Unit {0})
no_parts = record { parts_ = []; cur_i_ = 0 }

count-set_example :
    (a' : DataAssigner (Unit {0})) × (set (λ conf. conf) (λ r xs. xs) files 2 false no_parts
      ≡ some a')
    × (length a'.parts_ ≡ 2)
    × (count "b" (all_files a'.parts_) ≡ 2 * count "b" ("a" ∷ "b" ∷ "c" ∷ []))
    × (a'.cur_i_ ≡ 0)
count-set_example =
    count-set (λ conf. conf) (λ r xs. xs) files 2 no_parts "b" (λ r xs. refl) refl (omega arith)
      (omega arith)

abbrev layer_env : LayerEnv ℕ
layer_env = record {
  zero_value = 0;
  value_type = DataType.uint64;
  long_double = nat_double;
  init = λ key size vals. vals;
  update = λ key size new old. new;
  is_worker = false;
  is_server = true;
}

abbrev layer : KvLayer layer_env
layer = record { layer_ = []; partition_thr = 2 }

abbrev layer_push : Message ℕ
layer_push = data_message (range 0 4) [] ((5 ∷ 6 ∷ 7 ∷ 8 ∷ []) ∷ []) push_call

abbrev two_blank : List (Message ℕ)
two_blank = of_task empty_task ∷ of_task empty_task ∷ []

slice-carried_example :
    (outs : List (Message ℕ)) × (slice layer_env layer layer_push
        (range 0 2 ∷ range 2 4 ∷ [])
        two_blank
      ≡ some outs)
    × (carried layer_env outs ≡ 5 ∷ 6 ∷ 7 ∷ 8 ∷ [])
unfolding of_task
slice-carried_example =
    slice-carried layer_env nat_double-IsIeee layer layer_push (range 0 2 ∷ range 2 4 ∷ [])
      two_blank (5 ∷ 6 ∷ 7 ∷ 8 ∷ []) refl refl (omega arith) (omega arith) (omega arith) refl
      (
        record { no_value = refl; is_valid = refl },
        (record { no_value = refl; is_valid = refl }, tt),
      )
      (omega arith)
