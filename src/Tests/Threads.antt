-- ===== src/Tests/Threads.antt =====
-- Two threads at a barrier.
use parameter_server.Base.{
  ◌+◌, ◌<◌, ◌≡◌, refl, Bool, true, false, some, [], ◌∷◌, length, ◌==◌, if◌then◌else◌, arith,
}
use parameter_server.Util.Barrier.{Barrier, start, block, wake, Step, called, Reach, here, next}
use parameter_server.Util.Barrier.Exit.{last_ones, remaining, returned_lem, all_return_lem}

-- One thread waits.
abbrev one_waits : Barrier
one_waits = record { num_to_block = 1; num_to_exit = 2; waiting = 1; woken = 0; returned = [] }

block-start : block (start 2) ≡ some one_waits
unfolding block
block-start = refl

one_waits-Reach : Reach (start 2) one_waits
one_waits-Reach = next here (called block-start)

returned_lem_example :
    (1 + 1 + 0 + length {A = Bool} [] ≡ 2)
    × (0 < 1 → length {A = Bool} [] ≡ 0)
    × (last_ones [] ≡ (if length {A = Bool} [] == 2 then 1 else 0))
returned_lem_example = returned_lem 2 one_waits (omega arith) one_waits-Reach

all_return_lem_example :
    ((c : Barrier) → Step one_waits c → remaining c < remaining one_waits)
    × (c : Barrier) × Reach one_waits c
    × (length c.returned ≡ 2)
    × (last_ones c.returned ≡ 1)
all_return_lem_example = all_return_lem 2 one_waits (omega arith) one_waits-Reach

-- The second thread does not wait, and the first one is the last to leave.
block-one_waits :
    block one_waits
    ≡ some (record {
      num_to_block = 0;
      num_to_exit = 1;
      waiting = 0;
      woken = 1;
      returned = false ∷ [];
    })
unfolding block
block-one_waits = refl

wake_example :
    wake
      (record { num_to_block = 0; num_to_exit = 1; waiting = 0; woken = 1; returned = false ∷ [] })
    ≡ some (record {
      num_to_block = 0;
      num_to_exit = 0;
      waiting = 0;
      woken = 0;
      returned = true ∷ false ∷ [];
    })
unfolding wake
wake_example = refl
