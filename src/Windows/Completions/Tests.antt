-- ===== src/Windows/Completions/Tests.antt =====
-- A run of `poll` of msvc_io_poller.cpp.
use Prim.Native.Nat.{min}
use dumbo.Base.{ℕ, zero, suc, ◌-◌, ◌^◌, refl, arith, [], ◌∷◌, none, some, true, false}
use dumbo.Ring.Refine.{Holds}
use dumbo.Windows.{zeroed_overlapped}
use dumbo.Windows.Completions.{Dequeued, Port, Poller, poll}
use dumbo.Windows.Completions.Dequeue.{Polled, poll_lem}

-- The state is the number of operations that are done, at the addresses below it.
abbrev dequeue : ℕ → Dequeued × ℕ
dequeue zero = (
  record { status = false; num_bytes = 0; completion_key = 0; overlapped = none; error_code = 258 },
  0,
)
dequeue (suc n) = (
  record {
    status = true;
    num_bytes = 512;
    completion_key = 0;
    overlapped = some n;
    error_code = 0;
  },
  n,
)

abbrev port : Port
port = record { State = ℕ; get_queued_completion_status = dequeue }

abbrev fresh : Poller port
unfolding zeroed_overlapped
fresh = record {
  ring = record { buffer = 0 ∷ 0 ∷ 0 ∷ 0 ∷ []; tail = 0; head = 0 };
  operations = λ a. record zeroed_overlapped { message = a };
  kernel = 3;
}

fresh-Holds : Holds 2 fresh.ring []
unfolding fresh
fresh-Holds = record {
  small = omega arith;
  sized = refl;
  fits = omega arith;
  span = refl;
  in_range = omega arith;
  cells = λ i p. elim p [ ];
}

poll_lem_example : Polled port (min (2 ^ 2 - 0) 10) 2 fresh [] (poll port fresh)
unfolding fresh
poll_lem_example = poll_lem port 2 fresh [] fresh-Holds (omega arith)

abbrev short : Dequeued
short = record {
  status = false;
  num_bytes = 7;
  completion_key = 1;
  overlapped = some 5;
  error_code = 38;
}

abbrev long : Dequeued
long = record {
  status = true;
  num_bytes = 512;
  completion_key = 1;
  overlapped = some 5;
  error_code = 0;
}
