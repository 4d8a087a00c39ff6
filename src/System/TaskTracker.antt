-- ===== src/System/TaskTracker.antt =====
-- TaskTracker of src/system/task_tracker.h. `wait` blocks until `has_finished` holds; each other call
-- is one step under the mutex.
use parameter_server.Base.{
  ◌≡◌, Bool, true, false, ◌||◌, none, some, ℤ, eqb_ℤ, Assoc, int_eq, lookup, insert, lookup-insert,
  arith, [], eqb_refl,
}

pub record TaskTracker : Type 0 where
  pub task : Assoc ℤ Bool

abbrev pub empty_tracker : TaskTracker
empty_tracker = record { task = [] }

-- hasFinished(k), and the predicate of wait(k) and tryWait(k).
unfoldable pub has_finished : TaskTracker → ℤ → Bool
has_finished t k = elim (lookup k t.task) [ none ↦ false | some done ↦ done ]

-- start(k)
unfoldable pub start : TaskTracker → ℤ → TaskTracker
start t k = elim (lookup k t.task) [ none ↦ record { task = insert k false t.task } | some _ ↦ t ]

-- finish(k)
unfoldable pub finish : TaskTracker → ℤ → TaskTracker
finish t k = record { task = insert k true t.task }

-- Starting a task, again or for the first time, finishes nothing and undoes nothing; finishing one
-- finishes it and leaves every other task as it is.
pub has_finished-start-finish :
    (t : TaskTracker) (k j : ℤ)
    → (has_finished (start t k) j ≡ has_finished t j)
      × (has_finished (finish t k) j ≡ (eqb_ℤ k j || has_finished t j))
unfolding has_finished start finish
has_finished-start-finish t k j = (
  ground (arith, lookup-insert k j false t.task, int_eq.beq_iff k j, eqb_refl k),
  ground (arith, lookup-insert k j true t.task),
)
