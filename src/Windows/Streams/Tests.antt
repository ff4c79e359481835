-- ===== src/Windows/Streams/Tests.antt =====
-- A read of a file of the Windows port, whose operation is the second of three that one poll finds.
use Prim.Native.Nat.{min}
use dumbo.Base.{
  ℕ, zero, suc, ◌-◌, ◌^◌, ◌≡◌, refl, [], ◌∷◌, ◌++◌, none, some, true, false, pos, arith,
}
use dumbo.Base.Results.{ok}
use dumbo.Ring.Refine.{Holds}
use dumbo.Windows.{
  Call, wait_for, Overlapped, read_operation, Completion, Os, sys, is_started, is_true, dword,
}
use dumbo.Windows.Completions.{Dequeued, Port, Poller, poll, is_idle}
use dumbo.Windows.Completions.Dequeue.{Dequeues, later, Ends, idle}
use dumbo.Windows.Streams.{reads, Stream, file, call_of, perform}
use dumbo.Windows.Streams.Polled.{found-ReadsPolled, polled_lem, ReadsPolled}
use dumbo.Windows.Scripted.{win, at_start}

abbrev done : ℕ → Dequeued
done a = record {
  status = true;
  num_bytes = 512;
  completion_key = 0;
  overlapped = some a;
  error_code = 0;
}

abbrev nothing : Dequeued
nothing = record {
  status = false;
  num_bytes = 0;
  completion_key = 0;
  overlapped = none;
  error_code = 258;
}

-- The state is the number of operations that are done, at the addresses below it.
abbrev dequeue : ℕ → Dequeued × ℕ
dequeue zero = (nothing, 0)
dequeue (suc n) = (done n, n)

abbrev port : Port
port = record { State = ℕ; get_queued_completion_status = dequeue }

abbrev fresh : Overlapped
fresh = record {
  message = 70;
  size = 0;
  completion_key = 0;
  error_code = 0;
  status = false;
  operation = read_operation;
  buffer = 0;
  requested_size = 0;
  offset = 0;
  offset_high = 0;
}

abbrev poller : Poller port
poller = record {
  ring = record { buffer = 0 ∷ 0 ∷ 0 ∷ 0 ∷ []; tail = 0; head = 0 };
  operations = λ a. fresh;
  kernel = 3;
}

poller-Holds : Holds 2 poller.ring []
poller-Holds = record {
  small = omega arith;
  sized = refl;
  fits = omega arith;
  span = refl;
  in_range = omega arith;
  cells = λ i p. elim p [ ];
}

abbrev a_file : Stream
a_file = file (record { fd = pos 5; path = [] }) 4096

abbrev a_call : Call
unfolding dword
a_call = call_of reads a_file 70 1 80 (dword 512)

abbrev waited : Os win
unfolding sys
waited = (sys win (sys win (at_start []) a_call).1 (wait_for 70)).1

found : Dequeues port (min (2 ^ 2 - 0) 10) 3 ((2, done 2) ∷ (1, done 1) ∷ (0, done 0) ∷ []) 1 0
found =
    later refl refl (later refl refl (later refl refl (dumbo.Windows.Completions.Dequeue.now 1 0)))

none_left : Ends port 1 0 (some 0)
unfolding is_idle
none_left = idle refl refl refl

reads_polled : ReadsPolled win port poller waited 1
unfolding waited
reads_polled =
    found-ReadsPolled win port 1 2 1 poller [] ((2, done 2) ∷ []) ((0, done 0) ∷ []) (done 1) 0 0
      waited found none_left poller-Holds (omega arith) refl refl

is_under_way :
    is_started win (sys win (at_start []) a_call).0 (sys win (at_start []) a_call).1 ≡ true
unfolding is_started sys is_true a_call
is_under_way = refl

polled_lem_example :
    (q : Poller port) × (poll port poller ≡ ok q)
    × Holds 2 q.ring ([] ++ (70 ∷ []) ++ 70 ∷ 70 ∷ [])
    × (perform win reads a_file 70 1 80 512 (at_start []) ≡ (waited, ok 512))
unfolding a_call waited
polled_lem_example =
    polled_lem win port reads a_file 70 1 80 512 (at_start []) 2 1 poller [] ((2, done 2) ∷ [])
      ((0, done 0) ∷ []) (done 1) 0 0 is_under_way found none_left poller-Holds (omega arith) refl
      refl reads_polled
