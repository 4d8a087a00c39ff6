-- ===== src/Util/LimitedQueue.antt =====
-- ThreadsafeLimitedQueue of src/util/threadsafe_limited_queue.h. A call that would wait on a
-- condition variable is `blocked`: it is tried again after another call. Sizes are of 64 bits.
use parameter_server.Base.{
  ℕ, ◌+◌, ◌-◌, ◌%◌, ◌^◌, ◌≤◌, ◌<◌, ◌≡◌, refl, Bool, true, false, not, ◌&&◌, ◌||◌, List, [], ◌∷◌,
  ◌++◌, arith, ltb, leb, ◌==◌, if◌then◌else◌,
}

pub record LimitedQueue (T : Type 0) : Type 0 where
  pub done : Bool
  pub max_capacity : ℕ
  pub cur_capacity : ℕ
  pub queue : List (T × ℕ)

-- What a call comes to: it returns with a new state, it waits, or a CHECK of it fails.
pub data Outcome (S : Type 0) (A : Type 0) : Type 0 where
  returned : S → A → Outcome S A
  blocked : Outcome S A
  aborted : Outcome S A

-- What pop hands out: nothing, at the end, or a value.
pub data Popped (T : Type 0) : Type 0 where
  ended : Popped T
  item : T → Popped T

module _ {T : Type 0} where
  abbrev pub empty_queue : ℕ → LimitedQueue T
  empty_queue cap = record { done = false; max_capacity = cap; cur_capacity = 0; queue = [] }

  -- push(value, capacity, finished)
  unfoldable pub push : LimitedQueue T → T → ℕ → Bool → Outcome (LimitedQueue T) (Unit {0})
  push q value capacity finished =
      if q.done
      then aborted
      else if not finished && capacity == 0
      then returned q tt
      else if leb ((capacity + q.cur_capacity) % 2 ^ 64) q.max_capacity
      then returned
          (record q {
            queue = q.queue ++ (value, capacity) ∷ [];
            cur_capacity = (q.cur_capacity + capacity) % 2 ^ 64;
            done = finished;
          })
          tt
      else blocked

  -- pop(value)
  unfoldable pub pop : LimitedQueue T → Outcome (LimitedQueue T) (Popped T)
  pop q = elim q.queue [
    | [] ↦ if q.done then returned q ended else blocked
    | (value, size) ∷ rest ↦
        if size == 0
        then (if q.done then returned q ended else aborted)
        else returned (record q { queue = rest; cur_capacity = q.cur_capacity - size }) (item value)
  ]

  unfoldable pub total : List (T × ℕ) → ℕ
  total [] = 0
  total ((v, c) ∷ rest) = c + total rest

  total-append : (xs : List (T × ℕ)) (v : T) (c : ℕ) → total (xs ++ (v, c) ∷ []) ≡ total xs + c
  unfolding total
  total-append [] v c = omega arith
  total-append ((w, d) ∷ xs) v c = omega (arith, total-append xs v c)

  -- Only the last item may be empty, and only once the queue is done.
  unfoldable pub sizes_ok : Bool → List (T × ℕ) → Bool
  sizes_ok d [] = true
  sizes_ok d ((v, c) ∷ []) = d || ltb 0 c
  sizes_ok d ((v, c) ∷ x ∷ rest) = ltb 0 c && sizes_ok d (x ∷ rest)

  -- The capacity in use is that of the items, within the limit.
  pub record IsValid (q : LimitedQueue T) : Type 0 where
    pub used : q.cur_capacity ≡ total q.queue
    pub within : q.cur_capacity ≤ q.max_capacity
    pub sizes : sizes_ok q.done q.queue ≡ true

  sizes_ok-append :
      (d : Bool) (xs : List (T × ℕ)) (v : T) (c : ℕ)
      → sizes_ok false xs ≡ true
      → (d || ltb 0 c) ≡ true
      → sizes_ok d (xs ++ (v, c) ∷ []) ≡ true
  unfolding sizes_ok
  sizes_ok-append d [] v c h k = k
  sizes_ok-append d ((w, e) ∷ []) v c h k = ground arith
  sizes_ok-append d ((w, e) ∷ x ∷ xs) v c h k = ground (arith, sizes_ok-append d (x ∷ xs) v c)

  sizes_ok-tail :
      (d : Bool) (v : T) (c : ℕ) (xs : List (T × ℕ))
      → sizes_ok d ((v, c) ∷ xs) ≡ true
      → sizes_ok d xs ≡ true
  unfolding sizes_ok
  sizes_ok-tail d v c [] h = refl
  sizes_ok-tail d v c (x ∷ xs) h = ground arith

  -- A push that returns keeps the queue within its capacity, and its capacity in use that of its
  -- items, if the sum of the size and the capacity in use does not wrap at 2^64.
  pub push-IsValid :
      (q q' : LimitedQueue T) (v : T) (c : ℕ) (f : Bool)
      → IsValid q
      → c + q.cur_capacity < 2 ^ 64
      → push q v c f ≡ returned q' tt
      → IsValid q'
  unfolding push
  push-IsValid q q' v c f valid b h =
      ground (arith, total-append q.queue v c, sizes_ok-append f q.queue v c)

  popped :
      (xs : List (T × ℕ)) (q q' : LimitedQueue T) (v : T)
      → xs ≡ q.queue
      → IsValid q
      → pop q ≡ returned q' (item v)
      → IsValid q' × (q.queue ≡ (v, q.cur_capacity - q'.cur_capacity) ∷ q'.queue)
  unfolding pop total
  popped [] q q' v e valid h = ground (arith, e)
  popped ((w, c) ∷ rest) q q' v e valid h = ground (arith, e, sizes_ok-tail q.done w c rest)

  -- A pop that returns keeps the queue valid too, and hands out the item at the front.
  pub pop-IsValid :
      (q q' : LimitedQueue T) (v : T)
      → IsValid q
      → pop q ≡ returned q' (item v)
      → IsValid q' × (q.queue ≡ (v, q.cur_capacity - q'.cur_capacity) ∷ q'.queue)
  pop-IsValid q q' v valid h = popped q.queue q q' v refl valid h
