-- ===== src/Application/Run/Tests.antt =====
-- An application of one reactor whose main function returns 5.
use dumbo.Base.{ℕ, ◌+◌, ◌≡◌, refl, inl, [], ◌∷◌, ◌++◌, none, some, arith, pos, true, false}
use dumbo.Base.Results.{Result, ok}
use dumbo.Ring.{Ring}
use dumbo.Ring.Refine.{Holds}
use dumbo.Message.{returns, process, make_special_one_way_lambda_message}
use dumbo.Mpsc.Listed.{listed, listed-Fifo}
use dumbo.Smp.Routing.{queued}
use dumbo.Worker.{Worker, waiting}
use dumbo.Pool.{Pool, stop_workers}
use dumbo.Pool.Stop.{stop_workers_lem}
use dumbo.Poller.{IoEvent, Kernel, Lawful, Poller, poll, count_event_fd}
use dumbo.Poller.Poll.{poll_delivers}
use dumbo.Reactor.{World, spawns, put}
use dumbo.EventLoop.{EventLoop, turn}
use dumbo.EventLoop.Run.{Turns, rest, next, running-going}
use dumbo.Application.{make_reactors, Application, make_application, make_reactors, start_run}
use dumbo.Application.Run.{Threads, join, join_each, started_loop, run}
use dumbo.Application.Run.Answer.{first_turn, run_answers}
use dumbo.Application.Run.Boot.{boot_lem}
use dumbo.EventLoop.Start.{make_reactor}

abbrev none_yet : Threads
none_yet = record { started = []; local_engine = none }

joined : join_each (make_reactors 0 3) [] ≡ 1 ∷ 2 ∷ []
unfolding join_each join make_reactors
joined = refl

abbrev quiet : Kernel
quiet = record {
  State = Unit;
  epoll_pwait = λ s n. (some [], s);
  io_getevents = λ s n. (some [], s);
}

quiet-Lawful : Lawful quiet
unfolding count_event_fd
quiet-Lawful = record {
  epoll_bound = λ s n evs e. grind arith;
  epoll_once = λ s n evs e. grind arith;
  aio_bound = λ s n evs e. grind arith;
}

abbrev report : IoEvent → World ℕ → World ℕ
report e w = w

abbrev before : World ℕ
before = record {
  store = λ a. make_special_one_way_lambda_message 3;
  acts = [];
  ended = false;
  finished = [];
}

abbrev world : World ℕ
world = put before 50 (make_special_one_way_lambda_message 0)

abbrev poller : Poller quiet report
poller = record {
  ring = record { buffer = 0 ∷ 0 ∷ []; tail = 0; head = 0 };
  store = world;
  kernel = tt;
}

poller-Holds : Holds 1 poller.ring []
poller-Holds = record {
  small = omega arith;
  sized = refl;
  fits = omega arith;
  span = refl;
  in_range = omega arith;
  cells = λ i p. elim p [ ];
}

polled : (r : Ring ℕ) × (poll quiet report poller ≡ ok (record poller { ring = r })) × Holds 1 r []
polled =
    poll_delivers quiet report 1 poller [] [] [] tt tt quiet-Lawful poller-Holds (omega arith)
      (omega arith) refl refl

abbrev app : Application listed
app = record {
  smp = record { cpu_num = pos 1; inboxes = (0, []) ∷ [] };
  reactors = make_reactors 0 2;
}

abbrev idle : Worker
idle = record {
  place = waiting;
  joinable = true;
  task = none;
  stopping = false;
  finished = false;
  ready = false;
  processed = [];
}

abbrev pool : Pool
pool = record {
  min_size = 1;
  max_size = 10;
  free = 1 ∷ [];
  busy = [];
  worker = λ a. idle;
  next = 2;
}

abbrev reactor : EventLoop quiet report listed
reactor = record {
  cpu = 0;
  poller = record poller { store = before };
  smp = record { cpu_num = pos 1; inboxes = (0, []) ∷ [] };
  pool = pool;
  running = true;
  contexts = 2;
}

-- The main function returned, and told the reactor to stop.
abbrev done : EventLoop quiet report listed
done = record reactor {
  poller = record poller {
    store = put world 50 (process (make_special_one_way_lambda_message 0) (returns 5));
  };
  running = false;
}

abbrev yield_to_main : EventLoop quiet report listed → Result (EventLoop quiet report listed)
yield_to_main l = ok done

first_step :
    (s : World ℕ × Application listed) × (l' : EventLoop quiet report listed) × (start_run listed
        app 50 before
      ≡ some s)
    × (turn quiet report listed (started_loop quiet report listed yield_to_main reactor s) ≡ ok l')
    × (l'.poller.store.acts ≡ [] ++ spawns 50 ∷ [])
    × (queued listed listed-Fifo l'.smp 0 ≡ [])
first_step =
    first_turn quiet report listed listed-Fifo yield_to_main 1 1 50 app reactor
      (record poller { ring = polled.0 }) (record { cpus = refl; boxes = refl }) (omega arith) refl
      refl polled.1 polled.2 refl

one_turn :
    Turns quiet report listed yield_to_main 1
      (record (started_loop quiet report listed yield_to_main reactor first_step.0) {
        running = true;
      })
      done
unfolding started_loop
one_turn =
    let (s, l, submitted, turned, acts, emptied) = first_step in
    next (record (started_loop quiet report listed yield_to_main reactor s) { running = true }) l
      done done
      (running-going quiet report listed yield_to_main
        (record (started_loop quiet report listed yield_to_main reactor s) { running = true }) refl)
      turned refl (rest done)

stopped : (q : Pool) × (stop_workers pool ≡ some q)
stopped =
    let (q, e, f, b, w, d, o) =
      stop_workers_lem pool
        (λ b h. inl (record { place = refl; not_ready = refl; running = refl; joinable = refl })) in
    (q, e)

run_answers_example :
    run quiet report listed yield_to_main (1 + 3) app reactor 50 ≡ ok (some (1 ∷ [], returns 5))
run_answers_example =
    run_answers quiet report listed yield_to_main 1 3 50 1 app reactor done first_step.0 stopped.0
      (returns 5) refl first_step.2 one_turn (refl, omega arith) stopped.1 refl

boot_lem_example :
    (s : World ℕ × Application listed) × (l' : EventLoop quiet report listed) × (start_run listed
        (make_application listed (0, []) 2)
        50
        before
      ≡ some s)
    × (turn quiet report listed (
          started_loop quiet report listed yield_to_main
            (make_reactor quiet report listed (make_application listed (0, []) 2).smp 0 before tt)
            s)
        ≡ ok l')
    × (l'.poller.store.acts ≡ [] ++ spawns 50 ∷ [])
    × (queued listed listed-Fifo l'.smp 0 ≡ [])
boot_lem_example =
    boot_lem quiet report listed listed-Fifo yield_to_main 2 50 (0, []) before tt tt (omega arith)
      refl refl
