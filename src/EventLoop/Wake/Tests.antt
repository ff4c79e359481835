-- ===== src/EventLoop/Wake/Tests.antt =====
-- A turn with a finished IO message in the ring and an answered call in the inbox.
use dumbo.Base.{
  ℕ, zero, suc, ◌+◌, ◌%◌, ◌<◌, ◌≡◌, refl, List, [], ◌∷◌, ◌++◌, Option, none, some, arith, take,
  get_elem?, pos, Bool, true, false, not, ◌&&◌, ◌==◌, if◌then◌else◌,
}
use dumbo.Base.Members.{is_in, erase}
use dumbo.Base.Results.{ok}
use dumbo.Ring.Refine.{Holds}
use dumbo.Message.{Class, Message, fiber_io, fiber_lambda}
use dumbo.Message.Resumes.{resumed_class}
use dumbo.Mpsc.Listed.{listed, listed-Fifo}
use dumbo.Smp.{Smp}
use dumbo.Smp.Routing.{queued}
use dumbo.Worker.{make_worker}
use dumbo.Pool.{Pool}
use dumbo.Poller.{Kernel, IoEvent, Poller}
use dumbo.Poller.Poll.{poll_full}
use dumbo.Message.Resumes.{throws_class}
use dumbo.Reactor.{Act, World}
use dumbo.Reactor.Wakes.{resumed_by}
use dumbo.Scheduler.{Scheduler, awakened}
use dumbo.Scheduler.Queues
use dumbo.Scheduler.Queues.{SetsReady}
use dumbo.Scheduler.Resumed.{resume_each}
use dumbo.EventLoop.{EventLoop, turn}
use dumbo.EventLoop.Wake.{woken, wake_lem, early_lem}

abbrev quiet : Kernel
quiet = record {
  State = Bool;
  epoll_pwait = λ s n. (some [], s);
  io_getevents = λ s n. (some [], s);
}

abbrev report : IoEvent → World ℕ → World ℕ
report e w = w

abbrev answered : Class → Message ℕ
answered c = record {
  class = c;
  cpu = 0;
  one_way = false;
  returned = true;
  worker = none;
  exception = none;
  result = none;
}

-- The IO message stands at 5, the call at 6.
abbrev full : Poller quiet report
full = record {
  ring = record { buffer = 5 ∷ []; tail = 0; head = 1 };
  store = record {
    store = λ a. if a == 5 then answered (fiber_io 1 40) else answered (fiber_lambda 41);
    acts = [];
    ended = false;
    finished = [];
  };
  kernel = true;
}

full-Holds : Holds 0 full.ring (5 ∷ [])
full-Holds = record {
  small = omega arith;
  sized = refl;
  fits = omega arith;
  span = refl;
  in_range = omega arith;
  cells = only;
}
  where
    only : (i : ℕ) → i < 1 → get_elem? {A = ℕ} (5 ∷ []) ((0 + i) % 1) ≡ get_elem? {A = ℕ} (5 ∷ []) i
    only zero p = refl
    only (suc i) p = absurd (omega arith)

abbrev cpus : Smp listed
cpus = record { cpu_num = pos 2; inboxes = (0, 6 ∷ []) ∷ (0, []) ∷ [] }

abbrev pool : Pool
pool = record {
  min_size = 1;
  max_size = 10;
  free = [];
  busy = [];
  worker = λ a. make_worker;
  next = 1;
}

abbrev reactor : EventLoop quiet report listed
reactor = record { cpu = 0; poller = full; smp = cpus; pool = pool; running = true; contexts = 2 }

abbrev queues : Scheduler
queues = record { ready_queue = 30 ∷ []; wait_queue = 41 ∷ 40 ∷ 42 ∷ [] }

queues-IsValid : Queues.IsValid queues
queues-IsValid = record {
  ready = (refl, tt);
  wait = (refl, (refl, (refl, tt)));
  non_null = refl;
  wait_non_null = refl;
  apart = λ c h. ground arith;
}

abbrev set_ready : Scheduler → ℕ → Option Scheduler
set_ready s c = awakened (record s { ready_queue = erase c s.ready_queue }) c

wake_lem_example :
    (c : ℕ) × (l' : EventLoop quiet report listed) × (t : Scheduler) × (as' : List Act) × (turn
        quiet report listed reactor
      ≡ ok l')
    × (c ≡ 0 → queued listed listed-Fifo cpus 0 ≡ [])
    × (l'.poller.store.acts ≡ [] ++ as')
    × (resume_each set_ready queues (resumed_by as') ≡ some t)
    × Queues.IsValid t
    × (t.ready_queue
        ≡ (30 ∷ []) ++ woken quiet report listed listed-Fifo full ((5 ∷ []) ++ take c (6 ∷ [])))
    × ((e : ℕ)
        → is_in e t.wait_queue ≡ (
            is_in e (41 ∷ 40 ∷ 42 ∷ [])
            && not (
                is_in e
                  (woken quiet report listed listed-Fifo full ((5 ∷ []) ++ take c (6 ∷ []))))))
unfolding resumed_class throws_class
wake_lem_example =
    wake_lem quiet report listed listed-Fifo set_ready reactor full 0 2 (5 ∷ []) queues
      (λ s c. refl) (poll_full quiet report 0 full (5 ∷ []) full-Holds refl) full-Holds
      (record { cpus = refl; boxes = refl }) (omega arith) queues-IsValid (refl, (refl, tt))
      (refl, (refl, tt)) (refl, (refl, tt)) refl

-- The same IO message, of which the fiber has not waited yet, and empty inboxes.
abbrev alone : EventLoop quiet report listed
alone = record reactor { smp = record { cpu_num = pos 2; inboxes = (0, []) ∷ (0, []) ∷ [] } }

abbrev not_yet : Scheduler
not_yet = record { ready_queue = 40 ∷ []; wait_queue = 41 ∷ [] }

not_yet-IsValid : Queues.IsValid not_yet
not_yet-IsValid = record {
  ready = (refl, tt);
  wait = (refl, tt);
  non_null = refl;
  wait_non_null = refl;
  apart = λ c h. ground arith;
}

early_lem_example :
    (l' : EventLoop quiet report listed) × (as' : List Act) × (turn quiet report listed alone
      ≡ ok l')
    × (l'.poller.store.acts ≡ [] ++ as')
    × (resumed_by as' ≡ [] ++ 40 ∷ [])
    × (resume_each set_ready not_yet (resumed_by as') ≡ none)
unfolding resumed_class throws_class
early_lem_example =
    early_lem quiet report listed listed-Fifo set_ready alone full 0 2 (5 ∷ []) [] [] 40 not_yet
      (λ s c. refl) (poll_full quiet report 0 full (5 ∷ []) full-Holds refl) full-Holds
      (record { cpus = refl; boxes = refl }) (omega arith) refl (refl, tt) not_yet-IsValid refl refl
      tt tt refl refl
