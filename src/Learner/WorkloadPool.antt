-- ===== src/Learner/WorkloadPool.antt =====
-- WorkloadPool of src/learner/workload_pool.h and .cc, with each method under its lock one step.
pub mod Accounting
use parameter_server.Base.{
  ℕ, zero, suc, ◌+◌, ◌<◌, Bool, true, false, not, ◌&&◌, List, [], ◌∷◌, length, Option, some, none,
  String, ltb, leb, if◌then◌else◌, ◌=?◌, string_eq, ℤ, pos, negsuc,
}

-- Workload, with the DataConfig of its file as D
pub record Workload (D : Type 0) : Type 0 where
  pub id : ℕ
  pub data_config : D

pub record WorkloadInfo (D : Type 0) : Type 0 where
  pub node : String
  pub load : Workload D
  pub assigned : Bool
  pub finished : Bool

pub record WorkloadPool (D : Type 0) : Type 0 where
  pub loads : List (WorkloadInfo D)
  pub num_finished : ℕ

module _ {D : Type 0} where
  -- One pass of the inner loop of set, from the workload number k.
  unfoldable pub files_from : ℕ → List D → List (Workload D) → List (Workload D)
  files_from k [] rest = rest
  files_from k (file ∷ files) rest =
      record { id = k; data_config = file } ∷ files_from (suc k) files rest

  -- The outer loop, with r rounds left; `shuffled r` is shuffleFiles in that round, which is
  -- random, or the same files without it.
  unfoldable pub rounds : (ℕ → List D → List D) → ℕ → ℕ → List D → List (Workload D)
  unfolding files_from
  rounds shuffled zero k files = []
  rounds shuffled (suc r) k files =
      let next = shuffled r files in files_from k next (rounds shuffled r (k + length next) next)

  -- loads_.resize(n), and then a new workload in each entry: an entry that was there keeps its node
  -- and its flags.
  unfoldable pub overlay : List (Workload D) → List (WorkloadInfo D) → List (WorkloadInfo D)
  overlay [] olds = []
  overlay (load ∷ loads) [] =
      record { node = ""; load = load; assigned = false; finished = false } ∷ overlay loads []
  overlay (load ∷ loads) (old ∷ olds) = record old { load = load } ∷ overlay loads olds

  -- set(load), on the files that searchFiles found; the counter is left as it is.
  unfoldable pub set_loads :
      (ℕ → List D → List D) → ℕ → List D → WorkloadPool D → Option (WorkloadPool D)
  unfolding rounds overlay
  set_loads shuffled replica files pool =
      if ltb 0 replica
      then some (record pool { loads = overlay (rounds shuffled replica 0 files) pool.loads })
      else none

  unfoldable pub passed_by :
      WorkloadInfo D
      → Option (Workload D × List (WorkloadInfo D))
      → Option (Workload D × List (WorkloadInfo D))
  passed_by info none = none
  passed_by info (some (load, infos)) = some (load, info ∷ infos)

  unfoldable pub with_loads :
      WorkloadPool D
      → Option (Workload D × List (WorkloadInfo D))
      → Option (Workload D × WorkloadPool D)
  with_loads pool none = none
  with_loads pool (some (load, infos)) = some (load, record pool { loads = infos })

  -- The loop of assign: the workload handed out and the list after it.
  unfoldable pub assign_loop :
      String → List (WorkloadInfo D) → Option (Workload D × List (WorkloadInfo D))
  unfolding passed_by
  assign_loop node_id [] = none
  assign_loop node_id (info ∷ infos) =
      let later = assign_loop node_id infos in
      if not info.assigned
      then some (info.load, record info { node = node_id; assigned = true } ∷ infos)
      else passed_by info later

  -- assign(node_id, load); none is the answer false.
  unfoldable pub assign : String → WorkloadPool D → Option (Workload D × WorkloadPool D)
  unfolding assign_loop with_loads
  assign node_id pool = with_loads pool (assign_loop node_id pool.loads)

  unfoldable pub restore_info : String → WorkloadInfo D → WorkloadInfo D
  restore_info node_id info =
      if info.assigned && (not info.finished && (info.node =? node_id))
      then record info { assigned = false }
      else info

  unfoldable pub restore_loop : String → List (WorkloadInfo D) → List (WorkloadInfo D)
  unfolding restore_info
  restore_loop node_id [] = []
  restore_loop node_id (info ∷ infos) = restore_info node_id info ∷ restore_loop node_id infos

  -- restore(node_id)
  unfoldable pub restore : String → WorkloadPool D → WorkloadPool D
  unfolding restore_loop
  restore node_id pool = record pool { loads = restore_loop node_id pool.loads }

  -- loads_[i].finished = true
  unfoldable pub set_finished : ℕ → List (WorkloadInfo D) → List (WorkloadInfo D)
  set_finished i [] = []
  set_finished zero (info ∷ infos) = record info { finished = true } ∷ infos
  set_finished (suc i) (info ∷ infos) = info ∷ set_finished i infos

  -- finish(id), with its two CHECKs
  unfoldable pub finish_load : ℤ → WorkloadPool D → Option (WorkloadPool D)
  unfolding set_finished
  finish_load (pos id) pool =
      if ltb id (length pool.loads)
      then some
          (record { loads = set_finished id pool.loads; num_finished = suc pool.num_finished })
      else none
  finish_load (negsuc n) pool = none

  -- The test that waitUtilDone repeats.
  unfoldable pub is_done : WorkloadPool D → Bool
  is_done pool = leb (length pool.loads) pool.num_finished
