-- ===== src/Pool.antt =====
-- src/reactor/thread_pool.cpp and `ThreadPool` of include/dumbo/v1/reactor/thread_pool.hpp: the
-- free and the busy workers. A worker is its address; `next` is the address that `new` returns
-- next. `none` is a failed assertion, a join that does not return, or undefined behaviour.
pub mod Invariant
pub mod Calls
pub mod Stop
pub mod Lend
mod Tests
use dumbo.Base.{
  ℕ, zero, suc, ◌+◌, List, [], ◌∷◌, ◌++◌, Option, none, some, Bool, true, false, ltb, ◌==◌, ◌||◌,
  ◌&&◌, if◌then◌else◌, length,
}
use dumbo.Base.Members.{is_in, erase}
use dumbo.Base.Faults.{◌>>=◌, ◌>>◌, assert}
use dumbo.Worker
use dumbo.Worker.{Worker, make_worker, is_finished}

pub record Pool : Type 0 where
  pub min_size : ℕ
  pub max_size : ℕ
  pub free : List ℕ
  pub busy : List ℕ
  pub worker : ℕ → Worker
  pub next : ℕ

abbrev pub update : (ℕ → Worker) → ℕ → Worker → ℕ → Worker
update f a w b = if a == b then w else f b

-- `new WorkerT(smp_)`
new_worker : Pool → ℕ × Pool
new_worker p = (p.next, record p { worker = update p.worker p.next make_worker; next = p.next + 1 })

add_workers : ℕ → Pool → Pool
unfolding new_worker
add_workers zero p = p
add_workers (suc n) p =
    let (a, q) = new_worker p in add_workers n (record q { free = q.free ++ a ∷ [] })

-- The constructor.
pub make_pool : ℕ → ℕ → Pool
unfolding add_workers
make_pool min_size max_size = add_workers min_size (record {
  min_size = min_size;
  max_size = max_size;
  free = [];
  busy = [];
  worker = λ a. make_worker;
  next = 1;
})

-- `back()` and `pop_back()` of a list of workers.
pub split_last : List ℕ → Option (List ℕ × ℕ)
split_last [] = none
split_last (x ∷ xs) = elim (split_last xs) [ none ↦ some ([], x) | some (ys, y) ↦ some (x ∷ ys, y) ]

take_free : Pool → Option (List ℕ × ℕ) → ℕ × Pool
unfolding new_worker
take_free p none = let (a, q) = new_worker p in (a, record q { busy = q.busy ++ a ∷ [] })
take_free p (some (rest, a)) = (a, record p { free = rest; busy = p.busy ++ a ∷ [] })

pub acquire_worker : Pool → ℕ × Pool
unfolding take_free split_last
acquire_worker p = take_free p (split_last p.free)

pub try_run : Pool → ℕ → Option (Bool × Pool)
unfolding acquire_worker
try_run p task =
    if ltb (length p.busy) p.max_size
    then (do
      let (a, q) = acquire_worker p
      w ← Worker.run (q.worker a) task
      some (true, record q { worker = update q.worker a w }))
    else some (false, p)

-- `data` is the worker that the task points to, 0 if none; a worker that is not busy has no place
-- in the list of busy workers, so its erasure is undefined.
pub release : Pool → ℕ → Option Pool
release p data_ = do
  assert (if data_ == 0 then false else true)
  assert (is_in data_ p.busy)
  let busy' = erase data_ p.busy
  if ltb (length p.free) p.min_size
      then some (record p { busy = busy'; free = p.free ++ data_ ∷ [] })
      else (do
        w ← Worker.stop (p.worker data_)
        some (record p { busy = busy'; worker = update p.worker data_ w }))

stop_each : List ℕ → Pool → Option Pool
stop_each [] p = some p
stop_each (a ∷ as') p = do
  w ← Worker.stop (p.worker a)
  stop_each as' (record p { worker = update p.worker a w })

pub stop_workers : Pool → Option Pool
unfolding stop_each
stop_workers p = stop_each p.free p

all_finished : (ℕ → Worker) → List ℕ → Bool
all_finished f [] = true
all_finished f (a ∷ as') = if is_finished (f a) then all_finished f as' else false

pub wait_for_termination : Pool → Bool
unfolding all_finished
wait_for_termination p = all_finished p.worker p.free

none_joinable : (ℕ → Worker) → List ℕ → Bool
none_joinable f [] = true
none_joinable f (a ∷ as') = if (f a).joinable then false else none_joinable f as'

-- The destructor deletes the free workers; to destroy a thread that is joinable ends the program,
-- which is `none` here.
pub destroy : Pool → Option Pool
unfolding none_joinable
destroy p = do assert (none_joinable p.worker p.free); some (record p { free = [] })
