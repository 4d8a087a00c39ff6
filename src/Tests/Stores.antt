-- ===== src/Tests/Stores.antt =====
-- Vectors that are pushed to and pulled from.
use parameter_server.Base.{
  ℕ, lookup, ◌≡◌, refl, false, List, [], ◌∷◌, some, none, arith, ℤ, pos, if◌then◌else◌,
}
use parameter_server.Tests.Fixtures.{nat_arith, range, data_message, push_call, pull_call}
use parameter_server.Util.SortedArray.Laws.{mem}
use parameter_server.Util.OrderedMatch.{allocate}
use parameter_server.Util.OrderedMatch.Spec.{find_block}
use parameter_server.System.Message.{Message, DataType, of_task, add_value, clear_value}
use parameter_server.Parameter.KvVector.{Env, KvVector, pairs_at, set_value, get_value}
use parameter_server.Parameter.KvVector.Pull.{block_or_zeros}
use parameter_server.Parameter.KvVector.Store.{AreKeys, IsPush, IsStored, content, push_spec}
use parameter_server.Parameter.KvVector.PushPull.{set_value-push_spec, get_value-set_value}

abbrev env : Env ℕ
env = record {
  num_threads = 2;
  num_workers = 1;
  value_type = DataType.uint64;
  filter_width = λ workers n. n;
  counts = λ vals. vals;
}

-- Channel 0 has three keys with two values each.
abbrev vector : KvVector nat_arith env
vector = record {
  k = 2;
  buffer_value = false;
  data_ = (pos 0, record { key = 2 ∷ 5 ∷ 9 ∷ []; value = 1 ∷ 1 ∷ 2 ∷ 2 ∷ 3 ∷ 3 ∷ [] }) ∷ [];
  buffer_ = [];
  freq_filter_ = [];
}

abbrev push_two : Message ℕ
push_two = data_message (range 0 100) (5 ∷ 9 ∷ []) ((10 ∷ 20 ∷ 30 ∷ 40 ∷ []) ∷ []) push_call

abbrev pull_two : Message ℕ
pull_two = data_message (range 0 100) (2 ∷ 9 ∷ []) [] pull_call

vector-AreKeys : AreKeys (2 ∷ 5 ∷ 9 ∷ [])
vector-AreKeys = record {
  sorted = ground arith;
  bounded = (omega arith, (omega arith, (omega arith, tt)));
}

vector-IsStored : IsStored nat_arith env 2 (pairs_at nat_arith env (pos 0) vector)
unfolding pairs_at allocate lookup
vector-IsStored = record { sorted = ground arith; sized = refl }

push_two-IsPush : IsPush nat_arith env vector push_two (10 ∷ 20 ∷ 30 ∷ 40 ∷ [])
unfolding pairs_at of_task mem lookup
push_two-IsPush = record {
  threads = omega arith;
  direct = refl;
  no_filter = refl;
  one_value = refl;
  keys = record { sorted = ground arith; bounded = (omega arith, (omega arith, tt)) };
  fits = refl;
  known = (refl, (refl, tt));
}

set_value-push_spec_example :
    (m' : KvVector nat_arith env) × (set_value nat_arith env vector push_two ≡ some m')
    × (m'.k ≡ 2)
    × IsStored nat_arith env 2 (pairs_at nat_arith env (pos 0) m')
    × ((c : ℤ) (j : ℕ)
        → content nat_arith env m' c j
          ≡ push_spec nat_arith env
              (content nat_arith env vector)
              (pos 0)
              (λ i. find_block nat_arith 2 i (5 ∷ 9 ∷ []) (10 ∷ 20 ∷ 30 ∷ 40 ∷ []))
              c
              j)
unfolding of_task
set_value-push_spec_example =
    set_value-push_spec nat_arith env vector push_two (10 ∷ 20 ∷ 30 ∷ 40 ∷ []) push_two-IsPush
      vector-IsStored

get_value-set_value_example :
    (m' m'' : KvVector nat_arith env) × (reply : List ℕ) × (set_value nat_arith env vector push_two
      ≡ some m')
    × (get_value nat_arith env m' pull_two
        ≡ some (m'', add_value DataType.uint64 reply (clear_value pull_two)))
    × ((j : ℕ)
        → find_block nat_arith 2 j (2 ∷ 9 ∷ []) reply ≡ (
            if mem j (2 ∷ 9 ∷ [])
            then some (
                block_or_zeros nat_arith env 2 (
                  push_spec nat_arith env
                    (content nat_arith env vector)
                    (pos 0)
                    (λ i. find_block nat_arith 2 i (5 ∷ 9 ∷ []) (10 ∷ 20 ∷ 30 ∷ 40 ∷ []))
                    (pos 0)
                    j))
            else none))
unfolding of_task pairs_at lookup
get_value-set_value_example =
    get_value-set_value nat_arith env vector push_two pull_two (10 ∷ 20 ∷ 30 ∷ 40 ∷ [])
      push_two-IsPush vector-IsStored vector-AreKeys (omega arith) refl refl (ground arith)
      (omega arith)
