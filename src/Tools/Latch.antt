-- ===== src/Tools/Latch.antt =====
-- include/dumbo/v1/tools/latch.hpp: a counter that threads wait for. What `++` and `--` do to a value
-- and how two values are compared are parameters, as `T` is. Each call holds the lock, and so is one
-- step; a thread that waits gives the lock back, and takes it again when it wakes up.
pub mod Waiting
mod Tests
use dumbo.Base.{ℕ, List, [], ◌∷◌, ◌++◌, Bool, true, false, ◌==◌, if◌then◌else◌}

-- The value, and the threads that wait on `cv_`, each with the value that it waits for.
pub record CountDownLatch (T : Type 0) : Type 0 where
  pub value : T
  pub waiting : List (ℕ × T)

module _ {T : Type 0} where
  pub make_latch : T → CountDownLatch T
  make_latch value = record { value = value; waiting = [] }

  pub get : CountDownLatch T → T
  get l = l.value

  -- The threads that wait without those of one number.
  pub leave : ℕ → List (ℕ × T) → List (ℕ × T)
  leave thread [] = []
  leave thread ((t, v) ∷ ws) = if t == thread then leave thread ws else (t, v) ∷ leave thread ws

  module _ (increment decrement : T → T) (equals : T → T → Bool) where
    pub inc : CountDownLatch T → CountDownLatch T
    inc l = record l { value = increment l.value }

    pub dec : CountDownLatch T → CountDownLatch T
    dec l = record l { value = decrement l.value }

    -- `wait` and `wait_for` of a thread up to the first test: does it return?
    pub wait : ℕ → T → CountDownLatch T → CountDownLatch T × Bool
    wait thread value l =
        if equals l.value value
        then (l, true)
        else (record l { waiting = l.waiting ++ (thread, value) ∷ [] }, false)

    -- A thread that waits for `value` wakes up: does it return?
    pub wake : ℕ → T → CountDownLatch T → CountDownLatch T × Bool
    unfolding leave
    wake thread value l =
        if equals l.value value
        then (record l { waiting = leave thread l.waiting }, true)
        else (l, false)

  -- The time of a thread in `wait_for` has passed: it returns, whatever the value is.
  pub time_out : ℕ → CountDownLatch T → CountDownLatch T
  unfolding leave
  time_out thread l = record l { waiting = leave thread l.waiting }
