-- ===== src/Util/Barrier.antt =====
-- Barrier of src/util/barrier.h: each of a number of threads calls Block once. The mutex makes what
-- stands before the wait, and what stands behind it, one step each. `none` is a failed CHECK.
pub mod Exit
use parameter_server.Base.{
  ℕ, ◌+◌, ◌-◌, ◌<◌, ◌≡◌, Bool, true, false, Option, some, none, List, [], ◌∷◌, ltb, ◌==◌, check,
  ◌>>=◌, ◌>>◌, if◌then◌else◌,
}

pub record Barrier : Type 0 where
  pub num_to_block : ℕ
  pub num_to_exit : ℕ
  -- how many threads sleep on cv_, and how many of those that slept were notified since
  pub waiting : ℕ
  pub woken : ℕ
  -- what the calls that came back returned, the last one first
  pub returned : List Bool

-- Barrier(num_threads)
abbrev pub start : ℕ → Barrier
start n = record { num_to_block = n; num_to_exit = n; waiting = 0; woken = 0; returned = [] }

-- cv_.notify_all()
unfoldable pub notify_all : Barrier → Barrier
notify_all b = record b { waiting = 0; woken = b.woken + b.waiting }

-- The end of Block: count the thread, and return whether it is the last one.
unfoldable pub leave : Barrier → Option Barrier
leave b = do
  check (ltb 0 b.num_to_exit)
  some (record b {
    num_to_exit = b.num_to_exit - 1;
    returned = (b.num_to_exit - 1 == 0) ∷ b.returned;
  })

-- Block(), up to the wait, or to its end for the thread that is the last to come.
unfoldable pub block : Barrier → Option Barrier
unfolding leave notify_all
block b = do
  check (ltb 0 b.num_to_block)
  (if ltb 0 (b.num_to_block - 1)
      then some (record b { num_to_block = b.num_to_block - 1; waiting = b.waiting + 1 })
      else leave (notify_all (record b { num_to_block = b.num_to_block - 1 })))

-- A notified thread goes on in its loop: with no thread left to come it leaves, else it sleeps again.
unfoldable pub wake : Barrier → Option Barrier
unfolding leave
wake b =
    if ltb 0 b.num_to_block
    then some (record b { waiting = b.waiting + 1; woken = b.woken - 1 })
    else leave (record b { woken = b.woken - 1 })

-- What the threads do, in any order. A sleeping thread does nothing until it is notified; one that
-- wakes for no reason while threads are still to come sleeps again, with no change.
pub data Step (b : Barrier) (c : Barrier) : Type 0 where
  called : block b ≡ some c → Step b c
  resumed : 0 < b.woken → wake b ≡ some c → Step b c

pub data Reach (b : Barrier) : Barrier → Type 0 where
  here : Reach b b
  next : {c d : Barrier} → Reach b c → Step c d → Reach b d
