-- ===== src/Learner/WorkloadPool/Accounting.antt =====
-- What assign, restore and finish of src/learner/workload_pool.cc do to the bookkeeping.
use parameter_server.Base.{
  ℕ, zero, suc, ◌+◌, ◌≤◌, ◌≡◌, refl, Bool, true, false, not, ◌&&◌, List, [], ◌∷◌, length, Option,
  some, none, String, arith, leb, if◌then◌else◌, pos,
}
use parameter_server.Learner.WorkloadPool.{
  Workload, WorkloadInfo, WorkloadPool, rounds, overlay, set_loads, assign_loop, assign, passed_by,
  with_loads, restore_info, restore_loop, restore, set_finished, finish_load, is_done,
}

module _ {D : Type 0} where
  pub count_finished : List (WorkloadInfo D) → ℕ
  count_finished [] = 0
  count_finished (info ∷ infos) = (if info.finished then 1 else 0) + count_finished infos

  -- Whether workload i is there and not yet finished.
  unfoldable pub is_open : ℕ → List (WorkloadInfo D) → Bool
  is_open i [] = false
  is_open zero (info ∷ infos) = not info.finished
  is_open (suc i) (info ∷ infos) = is_open i infos

  unfoldable pub all_finished : List (WorkloadInfo D) → Bool
  all_finished [] = true
  all_finished (info ∷ infos) = info.finished && all_finished infos

  count_finished-le : (infos : List (WorkloadInfo D)) → count_finished infos ≤ length infos
  unfolding count_finished
  count_finished-le [] = omega arith
  count_finished-le (info ∷ infos) = ground (arith, count_finished-le infos)

  leb-count_finished :
      (infos : List (WorkloadInfo D))
      → leb (length infos) (count_finished infos) ≡ all_finished infos
  unfolding count_finished all_finished
  leb-count_finished [] = ground arith
  leb-count_finished (info ∷ infos) =
      ground (arith, leb-count_finished infos, count_finished-le infos)

  overlay-count : (loads : List (Workload D)) → count_finished (overlay {D = D} loads []) ≡ 0
  unfolding overlay count_finished
  overlay-count [] = refl
  overlay-count (load ∷ loads) = omega (arith, overlay-count loads)

  set_finished-count :
      (i : ℕ) (infos : List (WorkloadInfo D))
      → is_open i infos ≡ true
      → (count_finished (set_finished i infos) ≡ suc (count_finished infos))
        × (length (set_finished i infos) ≡ length infos)
  unfolding is_open count_finished set_finished
  set_finished-count zero (info ∷ infos) h = ground arith
  set_finished-count (suc i) (info ∷ infos) h = ground (arith, set_finished-count i infos)
  set_finished-count i [] h = ground arith

  restore_loop-count :
      (node_id : String) (infos : List (WorkloadInfo D))
      → (count_finished (restore_loop node_id infos) ≡ count_finished infos)
        × (length (restore_loop node_id infos) ≡ length infos)
  unfolding restore_loop restore_info count_finished
  restore_loop-count node_id [] = (refl, refl)
  restore_loop-count node_id (info ∷ infos) = ground (arith, restore_loop-count node_id infos)

  IsSame : List (WorkloadInfo D) → List (WorkloadInfo D) → Type 0
  IsSame xs ys = (count_finished ys ≡ count_finished xs) × (length ys ≡ length xs)

  -- What assign_loop answers leaves the list as long, with as many finished.
  KeepsCount : List (WorkloadInfo D) → Option (Workload D × List (WorkloadInfo D)) → Type 0
  KeepsCount infos none = Unit
  KeepsCount infos (some found) = IsSame infos found.1

  assign_later :
      (info : WorkloadInfo D) (infos : List (WorkloadInfo D))
      (later : Option (Workload D × List (WorkloadInfo D)))
      → KeepsCount infos later
      → KeepsCount (info ∷ infos) (passed_by info later)
  unfolding KeepsCount IsSame count_finished passed_by
  assign_later info infos none k = tt
  assign_later info infos (some found) k = ground (arith, k.0, k.1)

  if-KeepsCount :
      (c : Bool) (infos : List (WorkloadInfo D)) (x y : Option (Workload D × List (WorkloadInfo D)))
      → KeepsCount infos x
      → KeepsCount infos y
      → KeepsCount infos (if c then x else y)
  if-KeepsCount true infos x y h k = h
  if-KeepsCount false infos x y h k = k

  assign_loop-KeepsCount :
      (node_id : String) (infos : List (WorkloadInfo D))
      → KeepsCount infos (assign_loop node_id infos)
  unfolding assign_loop KeepsCount IsSame count_finished
  assign_loop-KeepsCount node_id [] = tt
  assign_loop-KeepsCount node_id (info ∷ infos) =
      if-KeepsCount (not info.assigned) (info ∷ infos) _ _ (refl, refl)
        (assign_later info infos (assign_loop node_id infos) (assign_loop-KeepsCount node_id infos))

  -- A call that a node or the scheduler makes of the pool. A workload is finished once only.
  pub data Step : WorkloadPool D → WorkloadPool D → Type 0 where
    assigning :
        {pool pool' : WorkloadPool D} (node_id : String) (load : Workload D)
        → assign node_id pool ≡ some (load, pool')
        → Step pool pool'
    restoring : {pool : WorkloadPool D} (node_id : String) → Step pool (restore node_id pool)
    finishing :
        {pool pool' : WorkloadPool D} (id : ℕ)
        → is_open id pool.loads ≡ true
        → finish_load (pos id) pool ≡ some pool'
        → Step pool pool'

  pub data Steps (start : WorkloadPool D) : WorkloadPool D → Type 0 where
    here : Steps start start
    later : {pool pool' : WorkloadPool D} → Steps start pool → Step pool pool' → Steps start pool'

  pub IsCounted : WorkloadPool D → Type 0
  IsCounted pool = pool.num_finished ≡ count_finished pool.loads

  assigned_pool :
      (pool : WorkloadPool D) (load : Workload D) (pool' : WorkloadPool D)
      (r : Option (Workload D × List (WorkloadInfo D)))
      → KeepsCount pool.loads r
      → with_loads pool r ≡ some (load, pool')
      → IsCounted pool
      → IsCounted pool'
  unfolding KeepsCount IsSame IsCounted with_loads
  assigned_pool pool load pool' none k e h = ground arith
  assigned_pool pool load pool' (some found) k e h = ground (arith, k.0)

  Step-IsCounted :
      {pool pool' : WorkloadPool D} → Step pool pool' → IsCounted pool → IsCounted pool'
  unfolding IsCounted restore finish_load assign
  Step-IsCounted {pool} {pool'} (assigning node_id load e) h =
      assigned_pool pool load pool' (assign_loop node_id pool.loads)
        (assign_loop-KeepsCount node_id pool.loads) e h
  Step-IsCounted {pool} (restoring node_id) h = omega (arith, restore_loop-count node_id pool.loads)
  Step-IsCounted {pool} (finishing id o e) h = ground (arith, set_finished-count id pool.loads)

  Steps-IsCounted :
      {start pool : WorkloadPool D} → IsCounted start → Steps start pool → IsCounted pool
  Steps-IsCounted h here = h
  Steps-IsCounted h (later steps s) = Step-IsCounted s (Steps-IsCounted h steps)

  fresh :
      (shuffled : ℕ → List D → List D) (replica : ℕ) (files : List D) (start : WorkloadPool D)
      → set_loads shuffled replica files (record { loads = []; num_finished = 0 }) ≡ some start
      → IsCounted start
  unfolding set_loads IsCounted
  fresh shuffled replica files start e =
      ground (arith, overlay-count (rounds shuffled replica 0 files))

  leb-counted : (pool : WorkloadPool D) → IsCounted pool → is_done pool ≡ all_finished pool.loads
  unfolding is_done IsCounted
  leb-counted pool counted = ground (arith, leb-count_finished pool.loads, counted)

  -- From an empty pool that was set up, and whatever nodes are assigned, lose and finish, the test
  -- on which waitUtilDone ends holds exactly when every workload is finished, as long as no
  -- workload is reported finished twice.
  pub is_done-all_finished :
      (shuffled : ℕ → List D → List D) (replica : ℕ) (files : List D) (start pool : WorkloadPool D)
      → set_loads shuffled replica files (record { loads = []; num_finished = 0 }) ≡ some start
      → Steps start pool
      → is_done pool ≡ all_finished pool.loads
  is_done-all_finished shuffled replica files start pool e steps =
      let zeroed : IsCounted start = fresh shuffled replica files start e in
      let counted = Steps-IsCounted zeroed steps in (leb-counted pool counted)
