-- ===== src/EventLoop/Tests.antt =====
-- A reactor with one message in its full ring, and the theorems of its event loop at it.
use dumbo.Base.{
  ℕ, zero, suc, ◌+◌, ◌%◌, ◌<◌, ◌≤◌, ◌≡◌, refl, inl, ap, ◌∙◌, List, [], ◌∷◌, ◌++◌, none, some, arith,
  take, get_elem?, pos, Bool, true, false,
}
use dumbo.Base.Results.{Result, ok, ◌>>=◌, checked}
use dumbo.Ring.{Ring}
use dumbo.Ring.Refine.{Holds}
use dumbo.Message.{make_fiber_lambda_message}
use dumbo.Mpsc.Listed.{listed, listed-Fifo}
use dumbo.Smp.{Smp}
use dumbo.Worker.{Worker, waiting}
use dumbo.Pool.{Pool, stop_workers}
use dumbo.Pool.Stop.{stop_workers_lem}
use dumbo.Poller.{Kernel, IoEvent, Poller, poll}
use dumbo.Poller.Poll.{poll_full}
use dumbo.Reactor.{Act, spawns, World}
use dumbo.Reactor.Dispatch.{process_fn-spawns}
use dumbo.Message.Laws.{fresh_call}
use dumbo.Reactor.Drain.{process_all}
use dumbo.EventLoop.{EventLoop, turn, stop, event_loop, going}
use dumbo.EventLoop.Turn.{after_turn, turn_lem}
use dumbo.EventLoop.Run.{Turns, rest, next, Over, event_loop_ends, event_loop_only}

abbrev quiet : Kernel
quiet = record {
  State = Bool;
  epoll_pwait = λ s n. (some [], s);
  io_getevents = λ s n. (some [], s);
}

abbrev report : IoEvent → World ℕ → World ℕ
report e w = w

abbrev full : Poller quiet report
full = record {
  ring = record { buffer = 5 ∷ []; tail = 0; head = 1 };
  store = record {
    store = λ a. make_fiber_lambda_message 0 40;
    acts = [];
    ended = false;
    finished = [];
  };
  kernel = true;
}

full-Holds : Holds 0 full.ring (5 ∷ [])
full-Holds = record {
  small = omega arith;
  sized = refl;
  fits = omega arith;
  span = refl;
  in_range = omega arith;
  cells = only;
}
  where
    only : (i : ℕ) → i < 1 → get_elem? {A = ℕ} (5 ∷ []) ((0 + i) % 1) ≡ get_elem? {A = ℕ} (5 ∷ []) i
    only zero p = refl
    only (suc i) p = absurd (omega arith)

full-poll : poll quiet report full ≡ ok full
full-poll = poll_full quiet report 0 full (5 ∷ []) full-Holds refl

abbrev idle : Worker
idle = record {
  place = waiting;
  joinable = true;
  task = none;
  stopping = false;
  finished = false;
  ready = false;
  processed = [];
}

abbrev pool : Pool
pool = record {
  min_size = 1;
  max_size = 10;
  free = 1 ∷ [];
  busy = [];
  worker = λ a. idle;
  next = 2;
}

abbrev cpus : Smp listed
cpus = record { cpu_num = pos 2; inboxes = (0, 6 ∷ 7 ∷ []) ∷ (0, []) ∷ [] }

abbrev reactor : EventLoop quiet report listed
reactor = record { cpu = 0; poller = full; smp = cpus; pool = pool; running = true; contexts = 2 }

abbrev calls_only : List Act → World ℕ
calls_only acts' = record {
  store = λ a. make_fiber_lambda_message 0 40;
  acts = acts';
  ended = false;
  finished = [];
}

calls_spawn :
    (xs : List ℕ) (acts' : List Act) → (w : World ℕ) × (process_all xs (calls_only acts') ≡ some w)
calls_spawn [] acts' = (calls_only acts', refl)
calls_spawn (x ∷ xs) acts' =
    let (w, e) = calls_spawn xs (acts' ++ spawns x ∷ []) in
    (w, rw (process_fn-spawns (calls_only acts') x (fresh_call ℕ 0 40)) e)

turned : (l : EventLoop quiet report listed) × (turn quiet report listed reactor ≡ ok l)
turned =
    let (c, r, smp, e, h, q, o, z) =
      turn_lem quiet report listed listed-Fifo reactor full 0 2 (5 ∷ []) full-poll full-Holds
        (record { cpus = refl; boxes = refl }) (omega arith) in
    let (w, e') = calls_spawn (5 ∷ take c (6 ∷ 7 ∷ [])) [] in
    (
      after_turn quiet report listed listed-Fifo reactor full r smp w,
      e
          ∙ ap
              (λ a. checked a >>= λ w'.
                ok (after_turn quiet report listed listed-Fifo reactor full r smp w'))
              e',
    )

-- The fibers of the first turn tell the reactor to stop.
abbrev told_to_stop : EventLoop quiet report listed
told_to_stop = record reactor { running = false }

abbrev yield_to_stop : EventLoop quiet report listed → Result (EventLoop quiet report listed)
yield_to_stop l = ok told_to_stop

one_turn : Turns quiet report listed yield_to_stop 1 reactor told_to_stop
unfolding going
one_turn = next reactor turned.0 told_to_stop told_to_stop refl turned.1 refl (rest told_to_stop)

stopped : (q : Pool) × (stop_workers pool ≡ some q)
stopped =
    let (q, e, f, b, w, d, o) =
      stop_workers_lem pool
        (λ b h. inl (record { place = refl; not_ready = refl; running = refl; joinable = refl })) in
    (q, e)

abbrev at_end : EventLoop quiet report listed
at_end = record told_to_stop { pool = stopped.0 }

event_loop_ends_example :
    event_loop quiet report listed yield_to_stop (1 + 3) reactor ≡ ok (some at_end)
event_loop_ends_example =
    event_loop_ends quiet report listed yield_to_stop 1 3 reactor told_to_stop stopped.0 one_turn
      (refl, omega arith) stopped.1

event_loop_only_example :
    (n : ℕ) × (l : EventLoop quiet report listed) × (0 < n)
    × (n ≤ 1 + 3)
    × Turns quiet report listed yield_to_stop n reactor l
    × Over quiet report listed yield_to_stop l
    × (stop quiet report listed yield_to_stop l ≡ ok at_end)
event_loop_only_example =
    event_loop_only quiet report listed yield_to_stop (1 + 3) reactor at_end event_loop_ends_example
